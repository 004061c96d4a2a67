-- ===== src/Elf/Words.antt =====
-- `read_little_endian` and the checked arithmetic of src/elf_loader.cpp.
use verilator_axi_testbench.Common.{
  ℕ, zero, suc, ◌+◌, ◌-◌, ◌*◌, ◌/◌, ◌%◌, ◌^◌, ◌<◌, ◌≤◌, ◌≡◌, inl, inr, refl, ap, ◌∙◌, true, false,
  ◌!=◌, ◌||◌, ltb, leb, if◌then◌else◌, List, [], ◌∷◌, some, length, get_elem?, get_or, ok, err,
  elf_error, add_u64, u64_mod, u64_max, bit_or, ◌<<<◌, out_of_bounds, overflows, arith, Bool-cases,
}
use verilator_axi_testbench.Common.Bits.{bit_or-fields}
use native.Mathlib.Nat.{pow-suc, mod-eq_of_lt, mul-le-mul_right, le-div_iff_mul-le, zero-mul}
use verilator_axi_testbench.Elf.{
  require_range, byte_at, little_endian, read_little_endian, checked_multiply, checked_add,
}

abbrev pub IsBytes : List ℕ → Type 0
IsBytes image = (i : ℕ) → get_or image i 0 < 0x100

-- The little-endian number in `n` bytes from `at`, digit by digit in base 256.
unfoldable pub word : List ℕ → ℕ → ℕ → ℕ
word image at zero = 0
word image at (suc n) = get_or image at 0 + 0x100 * word image (suc at) n

get_elem?-get_or : (xs : List ℕ) (i : ℕ) → i < length xs → get_elem? xs i ≡ some (get_or xs i 0)
get_elem?-get_or [] i h = elim h [ ]
get_elem?-get_or (x ∷ xs) zero h = refl
get_elem?-get_or (x ∷ xs) (suc i) h = get_elem?-get_or xs i (omega arith)

pub byte_at-inside :
    (image : List ℕ) (i : ℕ) → i < length image → byte_at image i ≡ ok (get_or image i 0)
unfolding byte_at
byte_at-inside image i h = rw (byte_at, get_elem?-get_or image i h)

scale : (byte : ℕ) → 2 ^ (suc byte * 8) ≡ 0x100 * 2 ^ (byte * 8)
scale byte =
    let e : suc byte * 8 ≡ suc (suc (suc (suc (suc (suc (suc (suc (byte * 8)))))))) = omega arith in
    rw e omega (arith, pow-suc)

digit_bound : (v x p : ℕ) → v < p → x < 0x100 → v + x * p < 0x100 * p
digit_bound v x p hv hx = omega (arith, mul-le-mul_right {m = x} {n = 0xff} p (omega arith))

pub word-bound : (image : List ℕ) (at n : ℕ) → IsBytes image → word image at n < 2 ^ (n * 8)
unfolding word
word-bound image at zero b = omega arith
word-bound image at (suc n) b = omega (arith, scale n, b at, word-bound image (suc at) n b)

little_endian-value :
    (image : List ℕ) (offset byte left value : ℕ)
    → IsBytes image
    → length image ≤ u64_max
    → offset + byte + left ≤ length image
    → value < 2 ^ (byte * 8)
    → little_endian image offset byte left value
      ≡ ok (value + word image (offset + byte) left * 2 ^ (byte * 8))
unfolding little_endian word
little_endian-value image offset byte zero value b fits within small = ap ok (omega arith)
little_endian-value image offset byte (suc left) value b fits within small =
    let at : add_u64 offset byte ≡ offset + byte = mod-eq_of_lt (omega arith) in
    let x = get_or image (offset + byte) 0 in
    let joined : bit_or value (x <<< (byte * 8)) ≡ value + x * 2 ^ (byte * 8) =
      bit_or-fields (byte * 8) x value small in
    let rest = word image (suc (offset + byte)) left in
    let next : offset + suc byte ≡ suc (offset + byte) = omega arith in
    let p = 2 ^ (byte * 8) in
    let step : value + x * p < 2 ^ (suc byte * 8) =
      omega (arith, scale byte, digit_bound value x p small (b (offset + byte))) in
    let regroup : value + x * p + rest * (0x100 * p) ≡ value + (x + 0x100 * rest) * p =
      omega arith in
    rw (at, byte_at-inside image (offset + byte) (omega arith), joined)
      (little_endian-value image offset (suc byte) left (value + x * p) b fits (omega arith) step
        ∙ rw (next, scale byte) (ap ok regroup))

-- A read gives the little-endian number in the bytes at the offset when the image holds them all, and
-- otherwise throws out of bounds; it never reads past the end.
pub read_little_endian-word :
    (width : ℕ) (image : List ℕ) (offset : ℕ)
    → IsBytes image
    → length image ≤ u64_max
    → read_little_endian width image offset ≡ (
        if leb (offset + width) (length image)
        then ok (word image offset width)
        else err (elf_error out_of_bounds))
unfolding read_little_endian require_range
read_little_endian-word width image offset b fits =
    elim (Bool-cases (leb (offset + width) (length image))) [
      | inl inside ↦
          let at : offset + 0 ≡ offset = omega arith in
          let read : little_endian image offset 0 width 0 ≡ ok (word image offset width) =
            little_endian-value image offset 0 width 0 b fits (ground arith) (omega arith)
            ∙ rw at (ap ok (omega arith)) in
          let bits : 8 * width ≡ width * 8 = omega arith in
          let small : word image offset width % 2 ^ (width * 8) ≡ word image offset width =
            mod-eq_of_lt (word-bound image offset width b) in
          let before : ltb (length image) offset ≡ false = ground arith in
          let room : ltb (length image - offset) width ≡ false = ground arith in
          rw (inside, before, room, read, bits, small)
      | inr outside ↦
          let bad : (ltb (length image) offset || ltb (length image - offset) width) ≡ true =
            ground arith in
          rw (outside, bad)
    ]

pub checked_add-exact :
    (a b : ℕ)
    → a ≤ u64_max
    → checked_add a b ≡ (if leb (a + b) u64_max then ok (a + b) else err (elf_error overflows))
unfolding checked_add
checked_add-exact a b h = elim (Bool-cases (leb (a + b) u64_max)) [
  | inl fits ↦
      let no : ltb (u64_max - a) b ≡ false = ground arith in
      let exact : add_u64 a b ≡ a + b = mod-eq_of_lt (ground arith) in rw (fits, no, exact)
  | inr over ↦ let yes : ltb (u64_max - a) b ≡ true = ground arith in rw (over, yes)
]

pub checked_multiply-exact :
    (a b : ℕ)
    → checked_multiply a b ≡ (if leb (a * b) u64_max then ok (a * b) else err (elf_error overflows))
unfolding checked_multiply
checked_multiply-exact zero b = rw zero-mul
checked_multiply-exact (suc a) b = elim (Bool-cases (leb (suc a * b) u64_max)) [
  | inl fits ↦
      let no : ltb (u64_max / suc a) b ≡ false =
        ground (arith, (le-div_iff_mul-le {k = suc a} {x = b} {y = u64_max} (omega arith)).1) in
      let exact : (suc a * b) % u64_mod ≡ suc a * b = mod-eq_of_lt (ground arith) in
      let some_lhs : (suc a != 0) ≡ true = ground arith in rw (fits, some_lhs, no, exact)
  | inr over ↦
      let some_lhs : (suc a != 0) ≡ true = ground arith in
      let yes : ltb (u64_max / suc a) b ≡ true =
        ground (arith, (le-div_iff_mul-le {k = suc a} {x = b} {y = u64_max} (omega arith)).0) in
      rw (over, some_lhs, yes)
]
