-- ===== src/Packed/Reading.antt =====
-- `read_u64` and `read_bytes` of src/packed.hpp.
use verilator_axi_testbench.Common.{
  ℕ, zero, suc, ◌+◌, ◌-◌, ◌*◌, ◌/◌, ◌%◌, ◌^◌, ◌<◌, ◌≤◌, ◌≡◌, sym, ap, ◌∙◌, true, false, ltb, leb,
  ◌==◌, if◌then◌else◌, min, bit_and, bit_or, ◌<<<◌, ◌>>>◌, u64_mod, ok, err, invalid_argument,
  arith, Bool-cases, ltb→lt, leb→le, inl, inr, ==_iff,
}
use verilator_axi_testbench.Common.Bits.{bit_and-mask, bit_or-fields}
use native.Mathlib.Nat.{mod-eq_of_lt, mul-le-mul_right, pow-le-pow_right}
use verilator_axi_testbench.Packed.{Signal, scalar, wide, low_mask, read_parts, read_u64}
use verilator_axi_testbench.Packed.Words.{
  window, pow_add, pow_pos, window-window, window-join, window-bound, value_of, IsSignal, Reaches,
  word-window,
}

low_mask-pow : (count : ℕ) → low_mask count ≡ 2 ^ count - 1
low_mask-pow count = elim (Bool-cases (count == 32)) [
  | inl full ↦ let e : count ≡ 32 = (==_iff count 32).0 full in rw e
  | inr other ↦ rw other
]

-- The word of a bit that the signal reaches.
Reaches-word :
    (signal : Signal) (at stop : ℕ)
    → at < stop
    → Reaches signal stop
    → Reaches signal (suc (at / 32) * 32)
Reaches-word (scalar bits value) at stop h r = tt
Reaches-word (wide words) at stop h r = omega arith

-- The bits that one turn takes out of a word.
part-window :
    (x at count : ℕ)
    → at % 32 + count ≤ 32
    → bit_and (window x (at / 32 * 32) 32 >>> (at % 32)) (low_mask count) ≡ window x at count
part-window x at count h =
    let whole : at / 32 * 32 + at % 32 ≡ at = omega arith in
    rw (low_mask-pow count, bit_and-mask count (window x (at / 32 * 32) 32 / 2 ^ (at % 32)))
      (window-window x (at / 32 * 32) 32 (at % 32) count h ∙ ap (λ k. window x k count) whole)

module _ (signal : Signal) (lsb width : ℕ) (is : IsSignal signal)
    (reaches : Reaches signal (lsb + width)) (narrow : width ≤ 64) where
  abbrev x : ℕ
  x = value_of signal

  -- The bits copied so far and those of one turn.
  joined :
      (copied count : ℕ)
      → copied + count ≤ width
      → bit_or (window x lsb copied) ((window x (lsb + copied) count <<< copied) % u64_mod)
        ≡ window x lsb (copied + count)
  joined copied count h =
      let part = window x (lsb + copied) count in
      let small : suc part * 2 ^ copied ≤ 2 ^ count * 2 ^ copied =
        mul-le-mul_right {m = suc part} {n = 2 ^ count} (2 ^ copied)
          (window-bound x (lsb + copied) count) in
      let fits : 2 ^ (copied + count) ≤ 2 ^ 64 =
        pow-le-pow_right {n = 2} (omega arith) {i = copied + count} {j = 64} (omega arith) in
      let below : part * 2 ^ copied < u64_mod =
        omega (arith, small, fits, pow_add copied count, pow_pos copied) in
      rw (
        mod-eq_of_lt below,
        bit_or-fields copied part (window x lsb copied) (window-bound x lsb copied),
        window-join x lsb copied count,
      )

  read_parts-window :
      (fuel copied : ℕ)
      → copied ≤ width
      → width ≤ fuel + copied
      → read_parts fuel signal lsb width copied (window x lsb copied) ≡ ok (window x lsb width)
  unfolding read_parts
  read_parts-window zero copied le enough = let e : copied ≡ width = omega arith in rw e
  read_parts-window (suc fuel) copied le enough = elim (Bool-cases (ltb copied width)) [
    | inl more ↦
        let at = lsb + copied in
        let count = min (width - copied) (32 - at % 32) in
        let inside : copied < width = ltb→lt copied width more in
        let got =
          word-window signal (at / 32) is
            (Reaches-word signal at (lsb + width) (omega arith) reaches) in
        rw (more, got, part-window x at count (omega arith), joined copied count (omega arith))
          (read_parts-window fuel (copied + count) (omega arith) (omega arith))
    | inr done ↦ let e : copied ≡ width = ground arith in rw (done, e)
  ]

-- A read of at most 64 bits that the signal reaches gives these bits of its number, whatever word
-- boundaries they cross; a wider read is refused.
pub read_u64-window :
    (signal : Signal) (lsb width : ℕ)
    → IsSignal signal
    → Reaches signal (lsb + width)
    → read_u64 signal lsb width
      ≡ (if leb width 64 then ok (value_of signal / 2 ^ lsb % 2 ^ width) else err invalid_argument)
unfolding read_u64 window
read_u64-window signal lsb width is reaches = elim (Bool-cases (leb width 64)) [
  | inl narrow ↦
      let allowed : ltb 64 width ≡ false = ground arith in
      let nothing : window (value_of signal) lsb 0 ≡ 0 = omega arith in
      let loop =
        read_parts-window signal lsb width is reaches (leb→le width 64 narrow) width 0 (omega arith)
          (omega arith) in
      rw (narrow, allowed) (ap (read_parts width signal lsb width 0) (sym nothing) ∙ loop)
  | inr too_wide ↦ let refused : ltb 64 width ≡ true = ground arith in rw (too_wide, refused)
]
