-- ===== src/Packed/Words.antt =====
-- Windows of bits in a number, and the words of the signals of src/packed.hpp.
use verilator_axi_testbench.Common.{
  ℕ, zero, suc, ◌+◌, ◌-◌, ◌*◌, ◌/◌, ◌%◌, ◌^◌, ◌<◌, ◌≤◌, ◌≡◌, sym, ap, ◌∙◌, leb, List, [], ◌∷◌, some,
  length, get_elem?, ok, arith, Bool-cases, leb→le, inl, inr,
}
use verilator_axi_testbench.Common.Bits.{mod_unique}
use native.Mathlib.Nat.{
  pow-suc, one-le-pow, div-add-mod, mod-lt, mul-le-mul_right, add-mul-div_right,
  add-mul-mod_self_right, mod-mod, div-div-eq-div-mul, pow-le-pow_right, div-eq_of_lt,
}
use verilator_axi_testbench.Packed.{Signal, scalar, wide, word}

-- The bits of a number from `lsb` on, `width` of them.
unfoldable pub window : ℕ → ℕ → ℕ → ℕ
window x lsb width = x / 2 ^ lsb % 2 ^ width

pub pow_add : (a b : ℕ) → 2 ^ (a + b) ≡ 2 ^ a * 2 ^ b
pow_add a zero = let e : a + 0 ≡ a = omega arith in rw e (omega arith)
pow_add a (suc b) =
    let e : a + suc b ≡ suc (a + b) = omega arith in
    rw e (omega (arith, pow-suc 2 (a + b), pow_add a b, ap (λ (t : ℕ). 2 ^ a * t) (pow-suc 2 b)))

pub pow_pos : (k : ℕ) → 0 < 2 ^ k
pow_pos k = one-le-pow k 2 (omega arith)

pub div_pow : (x a b : ℕ) → x / 2 ^ a / 2 ^ b ≡ x / 2 ^ (a + b)
div_pow x a b = div-div-eq-div-mul x (2 ^ a) (2 ^ b) ∙ ap (λ t. x / t) (sym (pow_add a b))

-- A window is its low part and its high part.
pub mod-pow_add : (x a b : ℕ) → x % 2 ^ (a + b) ≡ x % 2 ^ a + x / 2 ^ a % 2 ^ b * 2 ^ a
mod-pow_add x a b =
    let p = 2 ^ a in
    let q = 2 ^ b in
    let y = x / p % q in
    let high : p * (x / p) ≡ p * (q * (x / p / q) + y) =
      ap (λ (t : ℕ). p * t) (sym (div-add-mod (x / p) q)) in
    let split : x ≡ (p * q) * (x / p / q) + (x % p + y * p) =
      omega (arith, div-add-mod x p, high) in
    let small : (suc y) * p ≤ q * p =
      mul-le-mul_right {m = suc y} {n = q} p (mod-lt (x / p) (pow_pos b)) in
    let below : x % p + y * p < p * q = omega (arith, small, mod-lt x (pow_pos a)) in
    rw (pow_add a b) (mod_unique (p * q) (x / p / q) (x % p + y * p) x split below)

-- A window of a window.
pub div-mod_pow : (x k n : ℕ) → x % 2 ^ (k + n) / 2 ^ k ≡ x / 2 ^ k % 2 ^ n
div-mod_pow x k n =
    let p = 2 ^ k in
    let none_below : x % p / p ≡ 0 = div-eq_of_lt (mod-lt x (pow_pos k)) in
    rw (mod-pow_add x k n)
      (add-mul-div_right (x % p) (x / p % 2 ^ n) (pow_pos k) ∙ omega (arith, none_below))

pub mod-mod_pow : (x c n : ℕ) → c ≤ n → x % 2 ^ n % 2 ^ c ≡ x % 2 ^ c
mod-mod_pow x c n h =
    let e : c + (n - c) ≡ n = omega arith in
    let split : x % 2 ^ n ≡ x % 2 ^ c + x / 2 ^ c % 2 ^ (n - c) * 2 ^ c =
      rw e at (mod-pow_add x c (n - c)) in
    rw split
      (add-mul-mod_self_right (x % 2 ^ c) (x / 2 ^ c % 2 ^ (n - c)) (2 ^ c) ∙ mod-mod x (2 ^ c))

-- Reading `count` bits at `offset` in a window of `size` bits.
pub window-window :
    (x lsb size offset count : ℕ)
    → offset + count ≤ size
    → window x lsb size / 2 ^ offset % 2 ^ count ≡ window x (lsb + offset) count
unfolding window
window-window x lsb size offset count h =
    let e : offset + (size - offset) ≡ size = omega arith in
    let inner : x / 2 ^ lsb % 2 ^ size / 2 ^ offset
        ≡ x / 2 ^ lsb / 2 ^ offset % 2 ^ (size - offset) =
      rw e at (div-mod_pow (x / 2 ^ lsb) offset (size - offset)) in
    rw inner (
      mod-mod_pow (x / 2 ^ lsb / 2 ^ offset) count (size - offset) (omega arith)
      ∙ ap (λ t. t % 2 ^ count) (div_pow x lsb offset))

-- Two windows side by side.
pub window-join :
    (x lsb a b : ℕ) → window x lsb (a + b) ≡ window x lsb a + window x (lsb + a) b * 2 ^ a
unfolding window
window-join x lsb a b =
    mod-pow_add (x / 2 ^ lsb) a b
    ∙ ap (λ t. x / 2 ^ lsb % 2 ^ a + t % 2 ^ b * 2 ^ a) (div_pow x lsb a)

pub window-bound : (x lsb width : ℕ) → window x lsb width < 2 ^ width
unfolding window
window-bound x lsb width = mod-lt (x / 2 ^ lsb) (pow_pos width)

-- The number that a signal holds.
unfoldable pub value_of_words : List ℕ → ℕ
value_of_words [] = 0
value_of_words (w ∷ ws) = w + value_of_words ws * 2 ^ 32

unfoldable pub value_of : Signal → ℕ
unfolding value_of_words
value_of (scalar bits value) = value
value_of (wide words) = value_of_words words

abbrev pub AreWords : List ℕ → Type 0
AreWords [] = Unit {0}
AreWords (w ∷ ws) = (w < 2 ^ 32) × AreWords ws

-- The value fits the type of the signal.
abbrev pub IsSignal : Signal → Type 0
IsSignal (scalar bits value) = value < 2 ^ bits
IsSignal (wide words) = AreWords words

-- A signal reaches at least to the bit `stop`. Of an integer any word may be read.
abbrev pub Reaches : Signal → ℕ → Type 0
Reaches (scalar bits value) stop = Unit {0}
Reaches (wide words) stop = stop ≤ length words * 32

words-window :
    (words : List ℕ) (index : ℕ)
    → AreWords words
    → index < length words
    → get_elem? words index ≡ some (window (value_of_words words) (index * 32) 32)
unfolding window value_of_words
words-window [] index are h = elim h [ ]
words-window (w ∷ ws) zero are h =
    let same : (w + value_of_words ws * 2 ^ 32) / 1 % 2 ^ 32 ≡ w = omega (arith, are.0) in
    ap some (sym same)
words-window (w ∷ ws) (suc index) are h =
    let v = value_of_words ws in
    let p = 2 ^ 32 in
    let next : suc index * 32 ≡ 32 + index * 32 = omega arith in
    let rest : (w + v * p) / p ≡ v = omega (arith, are.0) in
    let same : (w + v * p) / 2 ^ (suc index * 32) ≡ v / 2 ^ (index * 32) =
      rw next (sym (div_pow (w + v * p) 32 (index * 32)) ∙ ap (λ t. t / 2 ^ (index * 32)) rest) in
    words-window ws index are.1 (omega arith) ∙ ap (λ t. some (t % 2 ^ 32)) (sym same)

-- A word is the window of 32 bits at its place.
pub word-window :
    (signal : Signal) (index : ℕ)
    → IsSignal signal
    → Reaches signal (suc index * 32)
    → word signal index ≡ ok (window (value_of signal) (index * 32) 32)
unfolding word window value_of
word-window (scalar bits value) index is reaches = elim (Bool-cases (leb bits (index * 32))) [
  | inl outside ↦
      let larger : 2 ^ bits ≤ 2 ^ (index * 32) =
        pow-le-pow_right (omega arith) (leb→le bits (index * 32) outside) in
      let gone : value / 2 ^ (index * 32) ≡ 0 = div-eq_of_lt (omega (arith, is, larger)) in
      rw (outside, gone)
  | inr inside ↦ rw inside
]
word-window (wide words) index is reaches = rw (words-window words index is (omega arith))
