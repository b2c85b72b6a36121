-- ===== src/Interrupts/Segments.antt =====
-- cpu/gdt.cpp: the segment descriptors.
use native.Mathlib.Nat.{pow-suc}
use bare_metal_programming.Prelude.{
  ℕ, zero, suc, ◌+◌, ◌*◌, ◌/◌, ◌%◌, ◌^◌, ◌<◌, ◌≤◌, ap, ◌≡◌, refl, ◌∙◌, arith, bit_and, bit_or,
  bit_or_step, bit_and-ones, cast, ◌<<<◌, ◌>>>◌, List, [], ◌∷◌,
}

abbrev pub code_access_byte : ℕ
code_access_byte = 0x9B

abbrev pub data_access_byte : ℕ
data_access_byte = 0x93

unfoldable pub get_segment : ℕ → ℕ → ℕ → ℕ → ℕ
get_segment base limit access flags =
    let value : ℕ = 0 in
    let value = bit_or value (cast 64 ((base >>> 24) <<< 56)) in
    let value = bit_or value (cast 64 (bit_and flags 0x0F <<< 52)) in
    let value = bit_or value (cast 64 (bit_and (cast 8 (limit >>> 16)) 0x0F <<< 48)) in
    let value = bit_or value (cast 64 (access <<< 40)) in
    let value = bit_or value (cast 64 (bit_and base 0x00FFFFFF <<< 16)) in
    bit_or value (cast 16 limit)

unfoldable pub gdt_table : List ℕ
gdt_table =
    0
    ∷ get_segment 0 0x000FFFFF code_access_byte 0x0C
    ∷ get_segment 0 0x000FFFFF data_access_byte 0x0C
    ∷ []

bit_or-zero : (x : ℕ) → bit_or x 0 ≡ x
bit_or-zero x = go x x (omega arith)
  where
    go : (n y : ℕ) → y ≤ n → bit_or y 0 ≡ y
    go zero y h = let e : y ≡ 0 = omega arith in rw e refl
    go (suc n) y h = omega (arith, bit_or_step y 0, go n (y / 2) (omega arith))

-- An `or` with a number below the lowest set bit is a sum.
bit_or-disjoint : (k hi lo : ℕ) → lo < 2 ^ k → bit_or (hi * 2 ^ k) lo ≡ hi * 2 ^ k + lo
bit_or-disjoint zero hi lo h =
    let none_set : lo ≡ 0 = omega arith in rw none_set (bit_or-zero (hi * 2 ^ 0) ∙ omega arith)
bit_or-disjoint (suc k) hi lo h =
    let half : hi * 2 ^ suc k / 2 ≡ hi * 2 ^ k =
      omega (arith, ap (λ (t : ℕ). hi * t) (pow-suc 2 k)) in
    omega (
      arith,
      pow-suc 2 k,
      ap (λ (t : ℕ). hi * t) (pow-suc 2 k),
      bit_or_step (hi * 2 ^ suc k) lo,
      ap (λ t. bit_or t (lo / 2)) half,
      bit_or-disjoint k hi (lo / 2) (omega (arith, pow-suc 2 k)),
    )

pub record Segment (base limit access flags value : ℕ) : Type 0 where
  pub fits : value < 2 ^ 64
  pub limit_low : value % 2 ^ 16 ≡ limit % 2 ^ 16
  pub base_low : value / 2 ^ 16 % 2 ^ 24 ≡ base % 2 ^ 24
  pub access_byte : value / 2 ^ 40 % 2 ^ 8 ≡ access
  pub limit_high : value / 2 ^ 48 % 2 ^ 4 ≡ limit / 2 ^ 16 % 2 ^ 4
  pub flag_bits : value / 2 ^ 52 % 2 ^ 4 ≡ flags % 2 ^ 4
  pub base_high : value / 2 ^ 56 ≡ base / 2 ^ 24

get_segment_sum :
    (base limit access flags : ℕ)
    → base < 2 ^ 32
    → limit < 2 ^ 32
    → access < 2 ^ 8
    → flags < 2 ^ 8
    → get_segment base limit access flags
      ≡ ((((base / 2 ^ 24 * 2 ^ 4 + flags % 2 ^ 4) * 2 ^ 4 + limit / 2 ^ 16 % 2 ^ 4) * 2 ^ 8
                + access)
              * 2 ^ 24
            + base % 2 ^ 24)
          * 2 ^ 16
        + limit % 2 ^ 16
unfolding get_segment
get_segment_sum base limit access flags b l a f =
    let flag_mask : bit_and flags 0x0F ≡ flags % 16 = bit_and-ones 4 flags in
    let limit_mask : bit_and (cast 8 (limit / 2 ^ 16)) 0x0F ≡ limit / 2 ^ 16 % 16 =
      bit_and-ones 4 (cast 8 (limit / 2 ^ 16)) ∙ omega arith in
    let base_mask : bit_and base 0x00FFFFFF ≡ base % 2 ^ 24 = bit_and-ones 24 base in
    let v1 : ℕ = base / 2 ^ 24 in
    let v2 : ℕ = v1 * 2 ^ 4 + flags % 16 in
    let v3 : ℕ = v2 * 2 ^ 4 + limit / 2 ^ 16 % 16 in
    let v4 : ℕ = v3 * 2 ^ 8 + access in
    let v5 : ℕ = v4 * 2 ^ 24 + base % 2 ^ 24 in
    let s1 : bit_or 0 (cast 64 (base / 2 ^ 24 * 2 ^ 56)) ≡ v1 * 2 ^ 56 =
      bit_or-disjoint 64 0 (cast 64 (base / 2 ^ 24 * 2 ^ 56)) (omega arith) ∙ omega arith in
    let s2 : bit_or (v1 * 2 ^ 56) (cast 64 (flags % 16 * 2 ^ 52)) ≡ v2 * 2 ^ 52 =
      bit_or-disjoint 56 v1 (cast 64 (flags % 16 * 2 ^ 52)) (omega arith) ∙ omega arith in
    let s3 : bit_or (v2 * 2 ^ 52) (cast 64 (limit / 2 ^ 16 % 16 * 2 ^ 48)) ≡ v3 * 2 ^ 48 =
      bit_or-disjoint 52 v2 (cast 64 (limit / 2 ^ 16 % 16 * 2 ^ 48)) (omega arith) ∙ omega arith in
    let s4 : bit_or (v3 * 2 ^ 48) (cast 64 (access * 2 ^ 40)) ≡ v4 * 2 ^ 40 =
      bit_or-disjoint 48 v3 (cast 64 (access * 2 ^ 40)) (omega arith) ∙ omega arith in
    let s5 : bit_or (v4 * 2 ^ 40) (cast 64 (base % 2 ^ 24 * 2 ^ 16)) ≡ v5 * 2 ^ 16 =
      bit_or-disjoint 40 v4 (cast 64 (base % 2 ^ 24 * 2 ^ 16)) (omega arith) ∙ omega arith in
    let s6 : bit_or (v5 * 2 ^ 16) (cast 16 limit) ≡ v5 * 2 ^ 16 + limit % 2 ^ 16 =
      bit_or-disjoint 16 v5 (cast 16 limit) (omega arith) in
    rw (flag_mask, limit_mask, base_mask, s1, s2, s3, s4, s5, s6) refl

-- The fields of `get_segment` at a base and a limit of 32 bits, an access byte and flags of 8 bits:
-- the descriptor has 64 bits and holds, each in its own place, the low 16 bits of the limit, the low
-- 24 bits of the base, the access byte, the bits 16 to 19 of the limit, the low four flags and the
-- high byte of the base.
pub get_segment-Segment :
    (base limit access flags : ℕ)
    → base < 2 ^ 32
    → limit < 2 ^ 32
    → access < 2 ^ 8
    → flags < 2 ^ 8
    → Segment base limit access flags (get_segment base limit access flags)
get_segment-Segment base limit access flags b l a f =
    let e = get_segment_sum base limit access flags b l a f in
    rw e (record {
      fits = omega arith;
      limit_low = omega arith;
      base_low = omega arith;
      access_byte = omega arith;
      limit_high = omega arith;
      flag_bits = omega arith;
      base_high = omega arith;
    })
