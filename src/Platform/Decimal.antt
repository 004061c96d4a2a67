-- ===== src/Platform/Decimal.antt =====
-- The numbers of src/platform.cpp in decimal: `std::to_string` and `parse_unsigned`.
use Prim.Native.String.{String}
use Prim.Native.Char.{code}
use verilator_axi_testbench.Common.{
  ℕ, zero, suc, ◌+◌, ◌*◌, ◌/◌, ◌%◌, ◌^◌, ◌<◌, ◌≤◌, ◌≡◌, refl, ap, ◌∙◌, false, ◌==◌, ◌&&◌, ◌||◌, ltb,
  List, [], ◌∷◌, some, ok, u64_max, arith, Bool-cases, inl, inr,
}
use native.Mathlib.Nat.{pow-suc}
use verilator_axi_testbench.Platform.Text.{
  codes, digit, digit_character, from_chars, parsed, without_prefix, parse_codes, parse_unsigned,
  decimal, to_string,
}

digit_character-code : (d : ℕ) → d < 10 → code (digit_character d) ≡ b'0' + d
digit_character-code zero h = refl
digit_character-code (suc zero) h = refl
digit_character-code (suc (suc zero)) h = refl
digit_character-code (suc (suc (suc zero))) h = refl
digit_character-code (suc (suc (suc (suc zero)))) h = refl
digit_character-code (suc (suc (suc (suc (suc zero))))) h = refl
digit_character-code (suc (suc (suc (suc (suc (suc zero)))))) h = refl
digit_character-code (suc (suc (suc (suc (suc (suc (suc zero))))))) h = refl
digit_character-code (suc (suc (suc (suc (suc (suc (suc (suc zero)))))))) h = refl
digit_character-code (suc (suc (suc (suc (suc (suc (suc (suc (suc zero))))))))) h = refl
digit_character-code (suc (suc (suc (suc (suc (suc (suc (suc (suc (suc n)))))))))) h =
    absurd (omega arith)

digit-decimal : (d : ℕ) → d < 10 → digit 10 (b'0' + d) ≡ some d
unfolding digit
digit-decimal d h = ground arith

from_chars-digit :
    (d value : ℕ) (rest : String)
    → d < 10
    → value * 10 + d ≤ u64_max
    → from_chars 10 value (code (digit_character d) ∷ codes rest)
      ≡ from_chars 10 (value * 10 + d) (codes rest)
unfolding from_chars
from_chars-digit d value rest h fits =
    let no : ltb u64_max (value * 10 + d) ≡ false = ground arith in
    rw (digit_character-code d h, from_chars, digit-decimal d h, no)

decimal-from_chars :
    (fuel n : ℕ) (rest : String)
    → n < 10 ^ fuel
    → n ≤ u64_max
    → from_chars 10 0 (codes (decimal fuel n rest)) ≡ from_chars 10 n (codes rest)
unfolding decimal
decimal-from_chars zero n rest h fits = let e : n ≡ 0 = omega arith in rw e
decimal-from_chars (suc fuel) n rest h fits = elim (Bool-cases (n / 10 == 0)) [
  | inl last ↦
      let small : n / 10 ≡ 0 = ground arith in
      let whole : 0 * 10 + n % 10 ≡ n = omega arith in
      rw last (
        from_chars-digit (n % 10) 0 rest (omega arith) (omega arith)
        ∙ ap (λ k. from_chars 10 k (codes rest)) whole)
  | inr more ↦
      let whole : n / 10 * 10 + n % 10 ≡ n = omega arith in
      rw more (
        decimal-from_chars fuel (n / 10) (String.◌∷◌ (digit_character (n % 10)) rest)
          (omega (arith, pow-suc 10 fuel)) (omega arith)
        ∙ from_chars-digit (n % 10) (n / 10) rest (omega arith) (omega arith)
        ∙ ap (λ k. from_chars 10 k (codes rest)) whole)
]

abbrev AreDigits : List ℕ → Type 0
AreDigits [] = Unit {0}
AreDigits (c ∷ cs) = (c ≤ b'9') × AreDigits cs

without_prefix-AreDigits : (cs : List ℕ) → AreDigits cs → without_prefix cs ≡ (10, cs)
unfolding without_prefix
without_prefix-AreDigits [] h = refl
without_prefix-AreDigits (c ∷ []) h = refl
without_prefix-AreDigits (c ∷ x ∷ cs) h =
    let plain : (c == b'0' && (x == b'x' || x == b'X')) ≡ false = ground (arith, h.1.0) in rw plain

decimal-AreDigits :
    (fuel n : ℕ) (rest : String) → AreDigits (codes rest) → AreDigits (codes (decimal fuel n rest))
unfolding decimal
decimal-AreDigits zero n rest h = h
decimal-AreDigits (suc fuel) n rest h =
    let low : n % 10 < 10 = omega arith in
    let here : code (digit_character (n % 10)) ≤ b'9' =
      omega (arith, digit_character-code (n % 10) low) in
    elim (Bool-cases (n / 10 == 0)) [
      | inl last ↦ rw last (here, h)
      | inr more ↦
          rw more
            (decimal-AreDigits fuel (n / 10) (String.◌∷◌ (digit_character (n % 10)) rest) (here, h))
    ]

abbrev IsNonempty : List ℕ → Type 0
IsNonempty [] = ⊥
IsNonempty (c ∷ cs) = Unit {0}

decimal-IsNonempty :
    (fuel n : ℕ) (rest : String)
    → IsNonempty (codes rest)
    → IsNonempty (codes (decimal fuel n rest))
unfolding decimal
decimal-IsNonempty zero n rest h = h
decimal-IsNonempty (suc fuel) n rest h = elim (Bool-cases (n / 10 == 0)) [
  | inl last ↦ rw last tt
  | inr more ↦
      rw more (decimal-IsNonempty fuel (n / 10) (String.◌∷◌ (digit_character (n % 10)) rest) tt)
]

to_string-IsNonempty : (n : ℕ) → IsNonempty (codes (to_string n))
unfolding to_string decimal
to_string-IsNonempty n = elim (Bool-cases (n / 10 == 0)) [
  | inl last ↦ rw last tt
  | inr more ↦
      rw more (decimal-IsNonempty 19 (n / 10) (String.◌∷◌ (digit_character (n % 10)) String.[]) tt)
]

parsed-some : (cs : List ℕ) (n : ℕ) → IsNonempty cs → parsed cs (some n) ≡ ok n
parsed-some [] n h = absurd h
parsed-some (c ∷ cs) n h = refl

-- The decimal text of every 64-bit number parses back to it.
pub parse_unsigned-to_string : (n : ℕ) → n ≤ u64_max → parse_unsigned (to_string n) ≡ ok n
unfolding parse_unsigned parse_codes to_string from_chars
parse_unsigned-to_string n h =
    let digits = codes (to_string n) in
    let plain = without_prefix-AreDigits digits (decimal-AreDigits 20 n String.[] tt) in
    let read = decimal-from_chars 20 n String.[] (omega arith) h in
    rw (plain, read) (parsed-some digits n (to_string-IsNonempty n))
