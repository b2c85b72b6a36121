-- ===== src/Output/Chain.antt =====
-- terminal/output.h, lines 167 to 415: the overloads of `<<`, and chains of calls.
use bare_metal_programming.Prelude.{ℕ, Bool, List, [], ◌∷◌}
use bare_metal_programming.Output.{Output}
use bare_metal_programming.Output.Insert.{
  insert_char, insert_string, insert_uint8, insert_uint16, insert_uint32, insert_uint64,
  insert_int8, insert_int16, insert_int32, insert_int64, insert_bool, insert_pointer, set_dec,
  set_hex, bool_alpha, bool_no_alpha,
}
use bare_metal_programming.Output.Arrays.{
  insert_text, insert_uint8s, insert_uint16s, insert_uint32s, insert_uint64s, insert_int8s,
  insert_int16s, insert_int32s, insert_int64s, insert_bools,
}

-- What `<<` takes: the characters, strings, integers of the eight types as their bit patterns,
-- Booleans and pointers, the arrays of them, and the four manipulators.
pub data Item : Type 0 where
  char : ℕ → Item
  string : List ℕ → Item
  uint8 uint16 uint32 uint64 int8 int16 int32 int64 : ℕ → Item
  bool : Bool → Item
  pointer : ℕ → Item
  text : List ℕ → Item
  uint8s uint16s uint32s uint64s int8s int16s int32s int64s : List ℕ → Item
  bools : List Bool → Item
  to_dec to_hex alpha no_alpha : Item

module _ (clz_zero : ℕ) where
  unfoldable pub insert : Item → Output → Output
  insert (char c) = insert_char c
  insert (string t) = insert_string t
  insert (uint8 n) = insert_uint8 n
  insert (uint16 n) = insert_uint16 n
  insert (uint32 n) = insert_uint32 n
  insert (uint64 n) = insert_uint64 n
  insert (int8 n) = insert_int8 n
  insert (int16 n) = insert_int16 n
  insert (int32 n) = insert_int32 n
  insert (int64 n) = insert_int64 n
  insert (bool b) = insert_bool b
  insert (pointer p) = insert_pointer clz_zero p
  insert (text t) = insert_text t
  insert (uint8s l) = insert_uint8s l
  insert (uint16s l) = insert_uint16s l
  insert (uint32s l) = insert_uint32s l
  insert (uint64s l) = insert_uint64s l
  insert (int8s l) = insert_int8s l
  insert (int16s l) = insert_int16s l
  insert (int32s l) = insert_int32s l
  insert (int64s l) = insert_int64s l
  insert (bools l) = insert_bools l
  insert to_dec = set_dec
  insert to_hex = set_hex
  insert alpha = bool_alpha
  insert no_alpha = bool_no_alpha

  -- `out << a << b << …`
  unfoldable pub insert_all : List Item → Output → Output
  insert_all [] o = o
  insert_all (i ∷ items) o = insert_all items (insert i o)
