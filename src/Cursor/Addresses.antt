-- ===== src/Cursor/Addresses.antt =====
-- The beat addresses of `BurstCursor` against the stepwise rule of AXI.
use native.Mathlib.Nat.{add-zero, mod-lt, div-add-mod, one-le-pow, pow-suc, mod-add-mod, mod-le}
use native.Mathlib.Decide.{dec_lt}
use verilator_axi_testbench.Common.Bits.{and_not-mask, mod_unique, and_not}
use verilator_axi_testbench.Common.{
  ℕ, zero, suc, ◌+◌, ◌-◌, ◌*◌, ◌/◌, ◌%◌, ◌^◌, ◌<◌, ◌≡◌, refl, ap, ◌∙◌, ◌⊎◌, inl, inr, ok, err,
  arith, leb, ◌==◌, if◌then◌else◌, u64_mod, protocol_error, address_overflow,
}
use verilator_axi_testbench.Axi.{AddressPayload, Burst, fixed, increment, wrap, reserved}
use verilator_axi_testbench.Cursor.{wide_address, beat_address}
use verilator_axi_testbench.Cursor.Shape.{IsLegal, IsLegalBurst, IsWrapLength, cursor_of}

-- The multiple of `m` at or below `a`.
abbrev pub align : ℕ → ℕ → ℕ
align a m = a - a % m

-- AXI's rule for the address after `a`: stay, go to the next multiple of the beat size, or do so
-- and return to the base of the window at its end.
unfoldable pub next_address : Burst → ℕ → ℕ → ℕ → ℕ → ℕ
next_address fixed start beats beat_bytes a = a
next_address increment start beats beat_bytes a = align a beat_bytes + beat_bytes
next_address wrap start beats beat_bytes a =
    let base = align start (beats * beat_bytes) in
    if a + beat_bytes == base + beats * beat_bytes then base else a + beat_bytes
next_address reserved start beats beat_bytes a = a

-- The address of each beat, from the one before.
unfoldable pub walk : AddressPayload → ℕ → ℕ
unfolding next_address
walk p zero = p.address
walk p (suc i) = next_address p.burst p.address (p.length + 1) (2 ^ p.size) (walk p i)

pub wrap_power : (beats s : ℕ) → IsWrapLength beats → (k : ℕ) × (beats * 2 ^ s ≡ 2 ^ k)
wrap_power beats s (inl (inl e)) = (suc s, rw e (omega (arith, pow-suc 2 s)))
wrap_power beats s (inl (inr e)) =
    (suc (suc s), rw e (omega (arith, pow-suc 2 s, pow-suc 2 (suc s))))
wrap_power beats s (inr (inl e)) = (
  suc (suc (suc s)),
  rw e (omega (arith, pow-suc 2 s, pow-suc 2 (suc s), pow-suc 2 (suc (suc s)))),
)
wrap_power beats s (inr (inr e)) = (
  suc (suc (suc (suc s))),
  rw e (
      omega (
        arith,
        pow-suc 2 s,
        pow-suc 2 (suc s),
        pow-suc 2 (suc (suc s)),
        pow-suc 2 (suc (suc (suc s))),
      )),
)

-- Clearing the bits below a power of two.
pub and_not-align : (a m k : ℕ) → m ≡ 2 ^ k → and_not a (m - 1) ≡ align a m
and_not-align a m k e = rw e (and_not-mask k a)

pub beat_pos : (s : ℕ) → 0 < 2 ^ s
beat_pos s = one-le-pow s 2 (omega arith)

mul-lt : (m n x : ℕ) → 0 < m → x < n → m * x < n * m
mul-lt m n x h lt = grind arith

pub scaled_mod : (m n u : ℕ) → 0 < m → 0 < n → (m * u) % (n * m) ≡ m * (u % n)
scaled_mod m n u hm hn =
    mod_unique (n * m) (u / n) (m * (u % n)) (m * u)
      (omega (arith, ap (λ (t : ℕ). m * t) (div-add-mod u n))) (mul-lt m n (u % n) hm (mod-lt u hn))

pub offset_scaled : (a m n : ℕ) → 0 < m → 0 < n → a % m ≡ 0 → a % (n * m) ≡ m * ((a / m) % n)
offset_scaled a m n hm hn e =
    let exact : a ≡ m * (a / m) = omega (arith, div-add-mod a m) in
    ap (λ t. t % (n * m)) exact ∙ scaled_mod m n (a / m) hm hn

suc-mod_cases :
    (t n : ℕ)
    → 0 < n
    → ((suc t % n ≡ 0) × (t % n + 1 ≡ n)) ⊎ ((suc t % n ≡ t % n + 1) × (t % n + 1 < n))
suc-mod_cases t n h = elim (dec_lt (t % n + 1) n) [
  | yes lt ↦ inr (mod_unique n (t / n) (t % n + 1) (suc t) (omega (arith, div-add-mod t n)) lt, lt)
  | no ge ↦ inl (
    mod_unique n (t / n + 1) 0 (suc t)
        (omega (arith, div-add-mod t n, mod-lt t h, ap (λ (x : ℕ). x) (mul_suc_lem n (t / n)))) h,
    omega (arith, mod-lt t h),
  )
]
  where
    mul_suc_lem : (x y : ℕ) → x * (y + 1) ≡ x * y + x
    mul_suc_lem x y = omega arith

next-wrap :
    (start n m t t' : ℕ)
    → 0 < m
    → 0 < n
    → t' ≡ suc t
    → next_address wrap start n m (align start (n * m) + m * (t % n))
      ≡ align start (n * m) + m * (t' % n)
unfolding next_address
next-wrap start n m t t' hm hn e = elim (suc-mod_cases t n hn) [
  | inl (back, last) ↦ rw (e, back) (ground (arith, ap (λ (x : ℕ). m * x) last))
  | inr (on, more) ↦ rw (e, on) (ground (arith, mul-lt m n (t % n + 1) hm more))
]

module _ (p : AddressPayload) where
  walk-fixed : (i : ℕ) → p.burst ≡ fixed → walk p i ≡ p.address
  unfolding walk
  walk-fixed zero e = refl
  walk-fixed (suc i) e = rw e (walk-fixed i e)

  align-multiple : (q m : ℕ) → 0 < m → align (q * m) m ≡ q * m
  align-multiple q m h = omega (arith, mod_unique m q 0 (q * m) (omega arith) h)

  aligned-step : (a m i : ℕ) → 0 < m → align (align a m + i * m) m ≡ align a m + i * m
  aligned-step a m i h =
      omega
        (arith, mod_unique m (a / m + i) 0 (align a m + i * m) (omega (arith, div-add-mod a m)) h)

  walk-suc :
      (i : ℕ)
      → walk p (suc i) ≡ next_address p.burst p.address (p.length + 1) (2 ^ p.size) (walk p i)
  unfolding walk
  walk-suc i = refl

  walk-zero : walk p 0 ≡ p.address
  unfolding walk
  walk-zero = refl

  walk-increment :
      (i : ℕ)
      → p.burst ≡ increment
      → walk p (suc i) ≡ align p.address (2 ^ p.size) + suc i * 2 ^ p.size
  unfolding next_address
  walk-increment zero e = rw (walk-suc 0, walk-zero, e) (omega arith)
  walk-increment (suc i) e =
      let step = aligned-step p.address (2 ^ p.size) (suc i) (one-le-pow p.size 2 (omega arith)) in
      rw (walk-suc (suc i), walk-increment i e, e, step) (omega arith)

  -- A WRAP burst walks round its window in beats: the beat index within it, times the beat size.
  pub walk-wrap :
      (i : ℕ)
      → p.burst ≡ wrap
      → p.address % 2 ^ p.size ≡ 0
      → walk p i
        ≡ align p.address ((p.length + 1) * 2 ^ p.size)
          + 2 ^ p.size * ((p.address / 2 ^ p.size + i) % (p.length + 1))
  walk-wrap zero e aligned =
      rw
        (
          walk-zero,
          add-zero,
          ← offset_scaled p.address (2 ^ p.size) (p.length + 1) (beat_pos p.size) (omega arith)
              aligned,
        )
        (omega (arith, mod-le p.address ((p.length + 1) * 2 ^ p.size)))
  walk-wrap (suc i) e aligned =
      rw (walk-suc i, walk-wrap i e aligned, e)
        (next-wrap p.address (p.length + 1) (2 ^ p.size) (p.address / 2 ^ p.size + i) _
          (beat_pos p.size) (omega arith) (omega arith))

wrap_sum :
    (p : AddressPayload) (i : ℕ)
    → p.burst ≡ wrap
    → IsLegalBurst wrap p.address (p.length + 1) (2 ^ p.size)
    → wide_address (cursor_of p) wrap i ≡ ok (walk p i)
unfolding wide_address
wrap_sum p i e l =
    let m = 2 ^ p.size in
    let n = p.length + 1 in
    let s = p.address / m in
    let (k, power) = wrap_power n p.size l.0 in
    let off : p.address % (n * m) ≡ m * (s % n) =
      offset_scaled p.address m n (beat_pos p.size) (omega arith) l.1 in
    let inside : p.address - align p.address (n * m) + i * m ≡ m * (s % n + i) =
      omega (arith, off, mod-le p.address (n * m)) in
    rw (
      and_not-align p.address (n * m) k power,
      walk-wrap p i e l.1,
      inside,
      scaled_mod m n (s % n + i) (beat_pos p.size) (omega arith),
      mod-add-mod s n i,
    )

-- The wide sum of a beat is the walk of AXI's rule.
pub wide_address-walk :
    (bus : ℕ) (p : AddressPayload) (b : Burst) (i : ℕ)
    → p.burst ≡ b
    → IsLegal bus p
    → wide_address (cursor_of p) b i ≡ ok (walk p i)
unfolding wide_address
wide_address-walk bus p fixed i e l = rw (walk-fixed p i e)
wide_address-walk bus p increment zero e l = rw (walk-zero p)
wide_address-walk bus p increment (suc i) e l =
    rw (walk-increment p i e, ← and_not-align p.address (2 ^ p.size) p.size refl) (ground arith)
wide_address-walk bus p wrap i e l = wrap_sum p i e (rw e at l.burst_legal)
wide_address-walk bus p reserved i e l = absurd (rw e at l.burst_legal)

-- `beat_address` gives, for every beat of a legal burst, the address that AXI's stepwise rule
-- reaches, and reports an overflow exactly when that address does not fit 64 bits.
pub beat_address-walk :
    (bus : ℕ) (p : AddressPayload) (i : ℕ)
    → IsLegal bus p
    → i < p.length + 1
    → beat_address (cursor_of p) i
      ≡ (if leb u64_mod (walk p i) then err (protocol_error address_overflow) else ok (walk p i))
unfolding beat_address
beat_address-walk bus p i l h = rw (wide_address-walk bus p p.burst i refl l) (ground arith)
