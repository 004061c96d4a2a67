-- ===== src/Cursor/Lanes.antt =====
-- Which bytes a beat of `BurstCursor` selects.
use native.Mathlib.Nat.{
  mod-eq_of_lt, mod-lt, mod-le, div-add-mod, one-le-pow, pow-suc, div-lt_iff_lt-mul,
}
use verilator_axi_testbench.Common.Bits.{mod_unique}
use verilator_axi_testbench.Common.{
  ℕ, zero, suc, ◌+◌, ◌-◌, ◌*◌, ◌/◌, ◌%◌, ◌^◌, ◌≤◌, ◌<◌, ◌≡◌, sym, ap, ◌∙◌, ◌≢◌, ◌↔◌, arith, ltb,
  leb, ◌&&◌, if◌then◌else◌, u64_mod, add_u64, length, get_or, get_or-tabulate, length-tabulate_from,
}
use verilator_axi_testbench.Cursor.{mask_at}
use verilator_axi_testbench.Cursor.Addresses.{align, and_not-align, beat_pos}

double_multiple : (q a b : ℕ) {a' b' : ℕ} → a' ≡ a * 2 → b' ≡ b * 2 → b ≡ q * a → b' ≡ q * a'
double_multiple q a b ea eb e = rw (ea, eb, e) (omega arith)

-- A smaller power of two divides a larger one.
pub power_divides : (s w : ℕ) → 2 ^ s ≤ 2 ^ w → (q : ℕ) × (2 ^ w ≡ q * 2 ^ s)
power_divides zero w h = (2 ^ w, omega arith)
power_divides (suc s) zero h = absurd (omega (arith, pow-suc 2 s, one-le-pow s 2 (omega arith)))
power_divides (suc s) (suc w) h =
    let (q, e) = power_divides s w (omega (arith, pow-suc 2 s, pow-suc 2 w)) in
    (q, double_multiple q (2 ^ s) (2 ^ w) (pow-suc 2 s) (pow-suc 2 w) e)

block_room : (m x q : ℕ) → x < suc q → m * x + m ≤ suc q * m
block_room m x q h = grind arith

-- The aligned block of `m` that holds `a` lies in the aligned block of a multiple of `m`.
pub block_inside :
    (a m q : ℕ)
    → 0 < m
    → 0 < q
    → (align a (q * m) ≤ align a m) × (align a m + m ≤ align a (q * m) + q * m)
block_inside a m zero hm hq = absurd (omega arith)
block_inside a m (suc q) hm hq = (omega (arith, parts), omega (arith, parts, room))
  where
    big : ℕ
    big = suc q * m

    r : ℕ
    r = a % big

    big_pos : 0 < big
    big_pos = grind arith

    below : r / m < suc q
    below = (div-lt_iff_lt-mul hm).1 (mod-lt a big_pos)

    room : m * (r / m) + m ≤ big
    room = block_room m (r / m) q below

    low : a % m ≡ r % m
    low =
        mod_unique m (suc q * (a / big) + r / m) (r % m) a
          (omega (arith, div-add-mod a big, div-add-mod r m)) (mod-lt r hm)

    parts : align a m ≡ align a big + m * (r / m)
    parts = omega (arith, div-add-mod a big, div-add-mod r m, low, mod-le a m, mod-le a big)

-- The factor between two powers of two is not zero.
pub factor_pos : (q m k : ℕ) → 2 ^ k ≡ q * m → 0 < q
factor_pos zero m k e = absurd (omega (arith, beat_pos k))
factor_pos (suc q) m k e = omega arith

-- A bus word ends within the address space.
pub word_in_space :
    (bus w a : ℕ) → bus ≡ 2 ^ w → bus ≤ u64_mod → a < u64_mod → align a bus + bus ≤ u64_mod
word_in_space bus w a e small h =
    let (q, divides) = power_divides w 64 (rw (← e) small) in
    let whole : q * bus ≡ u64_mod = rw e (sym divides) in
    let inside = block_inside a bus q (rw e (beat_pos w)) (factor_pos q (2 ^ w) 64 divides) in
    omega (arith, inside, whole, ap (λ t. a % t) whole, mod-eq_of_lt h)

pub length-mask_at : (bus m a : ℕ) → length (mask_at bus m a) ≡ bus
unfolding mask_at
length-mask_at bus m a = length-tabulate_from 0 bus _

-- The bytes of a beat of `m` bytes at `a`: from the address itself to the end of its aligned block.
abbrev pub InBeat : ℕ → ℕ → ℕ → Type 0
InBeat a m x = (a ≤ x) × (x < align a m + m)

module _ (bus w m s a : ℕ) (bus_power : bus ≡ 2 ^ w) (small : bus ≤ u64_mod)
    (beat_power : m ≡ 2 ^ s) (fits : m ≤ bus) (in_space : a < u64_mod) where
  pub beat_in_word : (align a bus ≤ align a m) × (align a m + m ≤ align a bus + bus)
  beat_in_word =
      let (q, divides) = power_divides s w (rw (← beat_power, ← bus_power) fits) in
      let whole : q * m ≡ bus = ap (λ t. q * t) beat_power ∙ sym divides ∙ sym bus_power in
      let inside =
        block_inside a m q (rw beat_power (beat_pos s)) (factor_pos q (2 ^ s) w divides) in
      omega (arith, inside, whole, ap (λ t. a % t) whole)

  pub mask_lane :
      (lane : ℕ)
      → lane < bus
      → get_or (mask_at bus m a) lane 0 ≡ (
          if leb a (align a bus + lane) && ltb (align a bus + lane) (add_u64 (align a m) m)
          then 1
          else 0)
  unfolding mask_at
  mask_lane lane h =
      let inside : align a bus + lane < u64_mod =
        omega (arith, word_in_space bus w a bus_power small in_space) in
      rw (
        and_not-align a bus w bus_power,
        and_not-align a m s beat_power,
        get_or-tabulate {A = ℕ} bus _ lane 0 h,
        mod-eq_of_lt inside,
      )

  pub mask_bit :
      (lane : ℕ)
      → lane < bus
      → get_or (mask_at bus m a) lane 0 ≢ 0
      → get_or (mask_at bus m a) lane 0 ≡ 1
  mask_bit lane h on = ground (arith, mask_lane lane h)

  -- The enabled lanes are the beat's bytes, and every byte of the beat has its lane.
  pub mask_at-InBeat :
      align a m + m < u64_mod
      → ((lane : ℕ)
          → lane < bus
          → (get_or (mask_at bus m a) lane 0 ≡ 1) ↔ InBeat a m (align a bus + lane))
        × ((x : ℕ) → InBeat a m x → (align a bus ≤ x) × (x - align a bus < bus))
  mask_at-InBeat room = (
    λ lane h. rw (mask_lane lane h, mod-eq_of_lt room) (ground arith),
    λ x inside. omega (arith, beat_in_word, mod-le a m),
  )

  -- A lane is enabled exactly when its byte belongs to the beat, if the beat ends below the top of
  -- the address space.
  pub mask_at-lane :
      (lane : ℕ)
      → align a m + m < u64_mod
      → lane < bus
      → (get_or (mask_at bus m a) lane 0 ≡ 1) ↔ InBeat a m (align a bus + lane)
  mask_at-lane lane room h = (mask_at-InBeat room).0 lane h

  -- The beat that ends at the top of the address space has no enabled lane: the sum for its end
  -- wraps to 0.
  pub mask_at-top :
      align a m + m ≡ u64_mod → (lane : ℕ) → lane < bus → get_or (mask_at bus m a) lane 0 ≡ 0
  mask_at-top top lane h = rw (mask_lane lane h, top) (ground arith)
