-- ===== src/Output/Synced.antt =====
-- terminal/output.h and terminal/output.cpp: chains of the operator `<<` on the screen.
use bare_metal_programming.Prelude.{ℕ, ◌≡◌, List, [], ◌∷◌}
use bare_metal_programming.Screen.{get_position, set_position, write_register, clear, enable}
use bare_metal_programming.Screen.View.{IsScreen, cursor_position}
use bare_metal_programming.Screen.Reach.{
  Reached, Reached-IsScreen, cleared, called, sync, enables, cursor_position_lem,
}
use bare_metal_programming.Output.{
  Output, initialize, sync_cursor, put_char_no_sync, write_string_no_sync,
}
use bare_metal_programming.Output.Digits.{
  unsigned, write_unsigned_no_sync, write_signed_8_no_sync, write_signed_16_no_sync,
  write_signed_32_no_sync, write_signed_64_no_sync,
}
use bare_metal_programming.Output.Hex.{
  write_hex_8_no_sync, write_hex_16_no_sync, write_hex_32_no_sync, write_hex_64_no_sync,
  write_pointer_no_sync,
}
use bare_metal_programming.Output.Insert.{
  in_base, write_bool, write_signed_hex_8, write_signed_hex_16, write_signed_hex_32,
  write_signed_hex_64, insert_uint8, insert_int8, insert_uint16, insert_int16, insert_uint32,
  insert_int32, insert_uint64, insert_int64, insert_char, insert_string, insert_bool,
  insert_pointer,
}
use bare_metal_programming.Output.Arrays.{
  write_each, insert_text, insert_bools, insert_uint8s, insert_int8s, insert_uint16s, insert_int16s,
  insert_uint32s, insert_int32s, insert_uint64s, insert_int64s,
}
use bare_metal_programming.Output.Chain.{
  Item, insert, insert_all, char, string, uint8, uint16, uint32, uint64, int8, int16, int32, int64,
  bool, pointer, text, uint8s, uint16s, uint32s, uint64s, int8s, int16s, int32s, int64s, bools,
  to_dec, to_hex, alpha, no_alpha,
}
use bare_metal_programming.Output.Keeps.{
  Keeps, put_char-Keeps, write_string-Keeps, write_unsigned-Keeps, in_base-Keeps, pointer-Keeps,
  bool-Keeps, write_each-Keeps, hex_8-Keeps, signed_8-Keeps, signed_hex_8-Keeps, hex_16-Keeps,
  signed_16-Keeps, signed_hex_16-Keeps, hex_32-Keeps, signed_32-Keeps, signed_hex_32-Keeps,
  hex_64-Keeps, signed_64-Keeps, signed_hex_64-Keeps,
}

-- The screen is one that calls reach, and the hardware cursor stands where the next character goes.
pub record IsSynced (o : Output) : Type 0 where
  pub reached : Reached o.buffer
  pub cursor : cursor_position o.buffer ≡ get_position o.buffer

sync_cursor-IsSynced : (o : Output) → Reached o.buffer → IsSynced (sync_cursor o)
unfolding set_position write_register
sync_cursor-IsSynced o r = record {
  reached = called r (sync o.buffer);
  cursor = cursor_position_lem r;
}

synced : (f : Output → Output) → Keeps f → (o : Output) → IsSynced o → IsSynced (sync_cursor (f o))
synced f p o s = sync_cursor-IsSynced (f o) (p o s.reached)

-- `initialize` reaches such a state from any screen.
pub initialize-IsSynced :
    (cursor_start cursor_end : ℕ) (o : Output) → IsSynced (initialize cursor_start cursor_end o)
unfolding initialize
initialize-IsSynced cursor_start cursor_end o =
    sync_cursor-IsSynced
      (record o { buffer = enable cursor_start cursor_end 14 15 (clear o.buffer) })
      (called (cleared o.buffer) (enables (clear o.buffer) cursor_start cursor_end 14 15))

module _ (clz_zero : ℕ) where
  insert-IsSynced : (i : Item) (o : Output) → IsSynced o → IsSynced (insert clz_zero i o)
  unfolding insert insert_char insert_string insert_bool insert_pointer insert_text insert_bools
      insert_uint8 insert_uint8s insert_uint16 insert_uint16s insert_uint32 insert_uint32s
      insert_uint64 insert_uint64s insert_int8 insert_int8s insert_int16 insert_int16s insert_int32
      insert_int32s insert_int64 insert_int64s
  insert-IsSynced (char c) = synced (put_char_no_sync c) (put_char-Keeps c)
  insert-IsSynced (string t) = synced (write_string_no_sync t) (write_string-Keeps t)
  insert-IsSynced (uint8 n) =
      synced (in_base (write_unsigned_no_sync (unsigned 8) n) (write_hex_8_no_sync n)) (
        in_base-Keeps (write_unsigned_no_sync (unsigned 8) n) (write_hex_8_no_sync n)
          (write_unsigned-Keeps (unsigned 8) n) (hex_8-Keeps n))
  insert-IsSynced (uint16 n) =
      synced (in_base (write_unsigned_no_sync (unsigned 16) n) (write_hex_16_no_sync n)) (
        in_base-Keeps (write_unsigned_no_sync (unsigned 16) n) (write_hex_16_no_sync n)
          (write_unsigned-Keeps (unsigned 16) n) (hex_16-Keeps n))
  insert-IsSynced (uint32 n) =
      synced (in_base (write_unsigned_no_sync (unsigned 32) n) (write_hex_32_no_sync n)) (
        in_base-Keeps (write_unsigned_no_sync (unsigned 32) n) (write_hex_32_no_sync n)
          (write_unsigned-Keeps (unsigned 32) n) (hex_32-Keeps n))
  insert-IsSynced (uint64 n) =
      synced (in_base (write_unsigned_no_sync (unsigned 64) n) (write_hex_64_no_sync n)) (
        in_base-Keeps (write_unsigned_no_sync (unsigned 64) n) (write_hex_64_no_sync n)
          (write_unsigned-Keeps (unsigned 64) n) (hex_64-Keeps n))
  insert-IsSynced (int8 n) = synced (in_base (write_signed_8_no_sync n) (write_signed_hex_8 n)) (
      in_base-Keeps (write_signed_8_no_sync n) (write_signed_hex_8 n) (signed_8-Keeps n)
        (signed_hex_8-Keeps n))
  insert-IsSynced (int16 n) = synced (in_base (write_signed_16_no_sync n) (write_signed_hex_16 n)) (
      in_base-Keeps (write_signed_16_no_sync n) (write_signed_hex_16 n) (signed_16-Keeps n)
        (signed_hex_16-Keeps n))
  insert-IsSynced (int32 n) = synced (in_base (write_signed_32_no_sync n) (write_signed_hex_32 n)) (
      in_base-Keeps (write_signed_32_no_sync n) (write_signed_hex_32 n) (signed_32-Keeps n)
        (signed_hex_32-Keeps n))
  insert-IsSynced (int64 n) = synced (in_base (write_signed_64_no_sync n) (write_signed_hex_64 n)) (
      in_base-Keeps (write_signed_64_no_sync n) (write_signed_hex_64 n) (signed_64-Keeps n)
        (signed_hex_64-Keeps n))
  insert-IsSynced (bool b) = synced (write_bool b) (bool-Keeps b)
  insert-IsSynced (text t) = synced (write_string_no_sync t) (write_string-Keeps t)
  insert-IsSynced (uint8s l) =
      synced
        (in_base (write_each (write_unsigned_no_sync (unsigned 8)) l)
          (write_each write_hex_8_no_sync l))
        (in_base-Keeps (write_each (write_unsigned_no_sync (unsigned 8)) l)
          (write_each write_hex_8_no_sync l)
          (write_each-Keeps (write_unsigned_no_sync (unsigned 8))
            (write_unsigned-Keeps (unsigned 8)) l)
          (write_each-Keeps write_hex_8_no_sync hex_8-Keeps l))
  insert-IsSynced (uint16s l) =
      synced
        (in_base (write_each (write_unsigned_no_sync (unsigned 16)) l)
          (write_each write_hex_16_no_sync l))
        (in_base-Keeps (write_each (write_unsigned_no_sync (unsigned 16)) l)
          (write_each write_hex_16_no_sync l)
          (write_each-Keeps (write_unsigned_no_sync (unsigned 16))
            (write_unsigned-Keeps (unsigned 16)) l)
          (write_each-Keeps write_hex_16_no_sync hex_16-Keeps l))
  insert-IsSynced (uint32s l) =
      synced
        (in_base (write_each (write_unsigned_no_sync (unsigned 32)) l)
          (write_each write_hex_32_no_sync l))
        (in_base-Keeps (write_each (write_unsigned_no_sync (unsigned 32)) l)
          (write_each write_hex_32_no_sync l)
          (write_each-Keeps (write_unsigned_no_sync (unsigned 32))
            (write_unsigned-Keeps (unsigned 32)) l)
          (write_each-Keeps write_hex_32_no_sync hex_32-Keeps l))
  insert-IsSynced (uint64s l) =
      synced
        (in_base (write_each (write_unsigned_no_sync (unsigned 64)) l)
          (write_each write_hex_64_no_sync l))
        (in_base-Keeps (write_each (write_unsigned_no_sync (unsigned 64)) l)
          (write_each write_hex_64_no_sync l)
          (write_each-Keeps (write_unsigned_no_sync (unsigned 64))
            (write_unsigned-Keeps (unsigned 64)) l)
          (write_each-Keeps write_hex_64_no_sync hex_64-Keeps l))
  insert-IsSynced (int8s l) =
      synced (in_base (write_each write_signed_8_no_sync l) (write_each write_signed_hex_8 l)) (
        in_base-Keeps (write_each write_signed_8_no_sync l) (write_each write_signed_hex_8 l)
          (write_each-Keeps write_signed_8_no_sync signed_8-Keeps l)
          (write_each-Keeps write_signed_hex_8 signed_hex_8-Keeps l))
  insert-IsSynced (int16s l) =
      synced (in_base (write_each write_signed_16_no_sync l) (write_each write_signed_hex_16 l)) (
        in_base-Keeps (write_each write_signed_16_no_sync l) (write_each write_signed_hex_16 l)
          (write_each-Keeps write_signed_16_no_sync signed_16-Keeps l)
          (write_each-Keeps write_signed_hex_16 signed_hex_16-Keeps l))
  insert-IsSynced (int32s l) =
      synced (in_base (write_each write_signed_32_no_sync l) (write_each write_signed_hex_32 l)) (
        in_base-Keeps (write_each write_signed_32_no_sync l) (write_each write_signed_hex_32 l)
          (write_each-Keeps write_signed_32_no_sync signed_32-Keeps l)
          (write_each-Keeps write_signed_hex_32 signed_hex_32-Keeps l))
  insert-IsSynced (int64s l) =
      synced (in_base (write_each write_signed_64_no_sync l) (write_each write_signed_hex_64 l)) (
        in_base-Keeps (write_each write_signed_64_no_sync l) (write_each write_signed_hex_64 l)
          (write_each-Keeps write_signed_64_no_sync signed_64-Keeps l)
          (write_each-Keeps write_signed_hex_64 signed_hex_64-Keeps l))
  insert-IsSynced (bools l) =
      synced (write_each write_bool l) (write_each-Keeps write_bool bool-Keeps l)
  insert-IsSynced (pointer p) = synced (write_pointer_no_sync clz_zero p) (pointer-Keeps clz_zero p)
  insert-IsSynced to_dec = λ o s. record { reached = s.reached; cursor = s.cursor }
  insert-IsSynced to_hex = λ o s. record { reached = s.reached; cursor = s.cursor }
  insert-IsSynced alpha = λ o s. record { reached = s.reached; cursor = s.cursor }
  insert-IsSynced no_alpha = λ o s. record { reached = s.reached; cursor = s.cursor }

  chain : (items : List Item) (o : Output) → IsSynced o → IsSynced (insert_all clz_zero items o)
  unfolding insert_all
  chain [] o s = s
  chain (i ∷ items) o s = chain items (insert clz_zero i o) (insert-IsSynced i o s)

  -- A chain of `<<` after `initialize`, of any items, leaves a screen that keeps its invariant, with
  -- the hardware cursor on the cell where the next character goes.
  pub insert_all-IsSynced :
      (items : List Item) (cursor_start cursor_end : ℕ) (o : Output)
      → IsSynced (insert_all clz_zero items (initialize cursor_start cursor_end o))
        × IsScreen (insert_all clz_zero items (initialize cursor_start cursor_end o)).buffer
  insert_all-IsSynced items cursor_start cursor_end o =
      let s =
        chain items (initialize cursor_start cursor_end o)
          (initialize-IsSynced cursor_start cursor_end o) in
      (s, (Reached-IsScreen s.reached).0)
