-- ===== src/Keyboard/Modifiers.antt =====
-- The modifier state and the translation to characters (drivers/keyboard/keyboard.cpp, lines 175 to
-- 224 and 239 to 262).
use bare_metal_programming.Prelude.{
  ℕ, ◌^◌, ◌<◌, ◌≡◌, ◌⊎◌, inl, inr, refl, ◌∙◌, arith, bit_and, complement, ◌==◌, Bool, true, false,
  not, ◌&&◌, ◌||◌, Bool-cases, if◌then◌else◌, ◌<<<◌, test_bit, test_bit-bit_and, test_bit-bit_or,
  test_bit-mod, test_bit-complement, test_bit_pow, pow-lt, pow_pos, bit_or-lt, bit_and_pow,
}
use bare_metal_programming.Keyboard.Key
use bare_metal_programming.Keyboard.Events.{
  KeyState, released, pressed, is_caps_down, is_caps_lock_active,
}
use bare_metal_programming.Keyboard.Driver.{
  raise, lower, follow, update_caps_lock, update_modifier_state,
}

-- The bit of a modifier key that is held down.
pub data HeldKey : ℕ → ℕ → Type 0 where
  left_shift : HeldKey Key.left_shift 0
  right_shift : HeldKey Key.right_shift 1
  left_ctrl : HeldKey Key.left_ctrl 2
  right_ctrl : HeldKey Key.right_ctrl 3
  left_alt : HeldKey Key.left_alt 4
  right_alt : HeldKey Key.right_alt 5

abbrev pub is_down : KeyState → Bool
is_down pressed = true
is_down released = false

raised :
    (modifiers bit j : ℕ)
    → test_bit (raise modifiers (1 <<< bit)) j ≡ (test_bit modifiers j || (j == bit))
unfolding raise
raised modifiers bit j = rw (test_bit-bit_or j modifiers (1 <<< bit), test_bit_pow bit j) refl

raise-lt : (modifiers bit : ℕ) → modifiers < 2 ^ 8 → bit < 8 → raise modifiers (1 <<< bit) < 2 ^ 8
unfolding raise
raise-lt modifiers bit small h = bit_or-lt 8 modifiers (1 <<< bit) small (pow-lt bit 8 h)

lowered :
    (modifiers bit j : ℕ)
    → bit < 8
    → j < 8
    → test_bit (lower modifiers (1 <<< bit)) j ≡ (test_bit modifiers j && not (j == bit))
unfolding lower
lowered modifiers bit j hb h =
    rw
      (
        test_bit-mod 8 (bit_and modifiers (complement 32 (1 <<< bit))) j,
        test_bit-bit_and j modifiers (complement 32 (1 <<< bit)),
        test_bit-complement 32 (1 <<< bit) j (pow-lt bit 32 (omega arith)) (omega arith),
        test_bit_pow bit j,
      )
      (ground arith)

follow_bits :
    (state : KeyState) (modifiers bit j : ℕ)
    → bit < 8
    → j < 8
    → test_bit (follow (1 <<< bit) state modifiers) j
      ≡ (if j == bit then is_down state else test_bit modifiers j)
unfolding follow
follow_bits pressed modifiers bit j hb h = raised modifiers bit j ∙ ground arith
follow_bits released modifiers bit j hb h = lowered modifiers bit j hb h ∙ ground arith

-- For each of the six keys that are held, an event sets the key's bit on a press and clears it on a
-- release, and leaves the other seven bits as they were.
pub update_modifier_state_held :
    (key bit : ℕ) (state : KeyState) (modifiers j : ℕ)
    → HeldKey key bit
    → j < 8
    → test_bit (update_modifier_state key state modifiers) j
      ≡ (if j == bit then is_down state else test_bit modifiers j)
unfolding update_modifier_state
update_modifier_state_held _ _ state modifiers j left_shift h =
    follow_bits state modifiers 0 j (omega arith) h
update_modifier_state_held _ _ state modifiers j right_shift h =
    follow_bits state modifiers 1 j (omega arith) h
update_modifier_state_held _ _ state modifiers j left_ctrl h =
    follow_bits state modifiers 2 j (omega arith) h
update_modifier_state_held _ _ state modifiers j right_ctrl h =
    follow_bits state modifiers 3 j (omega arith) h
update_modifier_state_held _ _ state modifiers j left_alt h =
    follow_bits state modifiers 4 j (omega arith) h
update_modifier_state_held _ _ state modifiers j right_alt h =
    follow_bits state modifiers 5 j (omega arith) h

caps_bit :
    (modifiers s : ℕ)
    → modifiers < 2 ^ 8
    → s < 8
    → not (bit_and modifiers (1 <<< s) == 0) ≡ test_bit modifiers s
caps_bit modifiers s small h =
    rw (bit_and_pow 8 modifiers s small h) (split (Bool-cases (test_bit modifiers s)))
  where
    split :
        (test_bit modifiers s ≡ true) ⊎ (test_bit modifiers s ≡ false)
        → not ((if test_bit modifiers s then 1 <<< s else 0) == 0) ≡ test_bit modifiers s
    split (inl on) = rw on (ground (arith, pow_pos s))
    split (inr off) = rw off refl

-- What caps lock leaves in bit `j`: bit 6 follows the key, and bit 7 toggles at a press that finds
-- bit 6 clear.
pub caps_lock_bit : KeyState → ℕ → ℕ → Bool
caps_lock_bit released modifiers j = if j == 6 then false else test_bit modifiers j
caps_lock_bit pressed modifiers j =
    if j == 6
    then true
    else if j == 7 && not (test_bit modifiers 6)
    then not (test_bit modifiers 7)
    else test_bit modifiers j

-- For a modifier state of eight bits, an event of caps lock leaves in each bit what `caps_lock_bit`
-- says: a held key that repeats its press does not toggle the lock again.
pub update_modifier_state_caps :
    (state : KeyState) (modifiers j : ℕ)
    → modifiers < 2 ^ 8
    → j < 8
    → test_bit (update_modifier_state Key.caps_lock state modifiers) j
      ≡ caps_lock_bit state modifiers j
unfolding update_modifier_state update_caps_lock caps_lock_bit is_caps_down is_caps_lock_active
update_modifier_state_caps released modifiers j small h =
    lowered modifiers 6 j (omega arith) h ∙ ground arith
update_modifier_state_caps pressed modifiers j small h =
    rw
      (
        caps_bit modifiers 6 small (omega arith),
        caps_bit held 7 held_small (omega arith),
        raised modifiers 6 7,
      )
      (split (Bool-cases (test_bit modifiers 6)) (Bool-cases (test_bit modifiers 7)))
  where
    held : ℕ
    held = raise modifiers (1 <<< 6)

    held_small : held < 2 ^ 8
    held_small = raise-lt modifiers 6 small (omega arith)

    split :
        (test_bit modifiers 6 ≡ true) ⊎ (test_bit modifiers 6 ≡ false)
        → (test_bit modifiers 7 ≡ true) ⊎ (test_bit modifiers 7 ≡ false)
        → test_bit
            (if test_bit modifiers 6
              then modifiers
              else if test_bit modifiers 7 || false
              then lower held 0x80
              else raise held 0x80)
            j
          ≡ (if j == 6
              then true
              else if j == 7 && not (test_bit modifiers 6)
              then not (test_bit modifiers 7)
              else test_bit modifiers j)
    split (inl down) on = rw down (elim (Bool-cases (j == 6)) [
      | inl here ↦ let same : j ≡ 6 = ground arith in rw same (ground (arith, down))
      | inr away ↦ ground arith
    ])
    split (inr up) (inl on) =
        rw (up, on) (lowered held 7 j (omega arith) h ∙ rw (raised modifiers 6 j) (ground arith))
    split (inr up) (inr off) =
        rw (up, off) (raised held 7 j ∙ rw (raised modifiers 6 j) (ground arith))

-- For a modifier state of eight bits: an event of one of the six keys that are held sets the key's
-- bit on a press, clears it on a release, and leaves the other seven bits as they were; an event of
-- caps lock leaves in each bit what `caps_lock_bit` says: a held key that repeats its press does not
-- toggle the lock again.
pub update_modifier_state_lem :
    (state : KeyState) (modifiers j : ℕ)
    → modifiers < 2 ^ 8
    → j < 8
    → ((key bit : ℕ)
        → HeldKey key bit
        → test_bit (update_modifier_state key state modifiers) j
          ≡ (if j == bit then is_down state else test_bit modifiers j))
      × (test_bit (update_modifier_state Key.caps_lock state modifiers) j
          ≡ caps_lock_bit state modifiers j)
update_modifier_state_lem state modifiers j small h = (
  λ key bit k. update_modifier_state_held key bit state modifiers j k h,
  update_modifier_state_caps state modifiers j small h,
)
