-- ===== src/Cursor/Page.antt =====
-- `validate_4k_boundary` of src/axi.hpp, and the bytes that a burst touches.
use verilator_axi_testbench.Common.Bits.{and_not}
use verilator_axi_testbench.Common.{
  ℕ, zero, suc, ◌+◌, ◌-◌, ◌/◌, ◌^◌, ◌≤◌, ◌<◌, ◌≡◌, refl, sym, ap, ◌∙◌, ◌↔◌, ◌≢◌, List, [], ◌∷◌,
  arith, u64_mod, add_u64, length, get_or, ok, ◌>>◌, >>-eq-ok,
}
use native.Mathlib.Nat.{add-zero, mod-lt}
use native.Mathlib.Decide.{ℕ_discrete}
use verilator_axi_testbench.Axi.{AddressPayload}
use verilator_axi_testbench.Cursor.{
  BurstCursor, mask_at, lane_mask, bus_word_address, beat_address, check_lanes, check_beats,
  validate_4k_boundary,
}
use verilator_axi_testbench.Cursor.Shape.{IsLegal, cursor_of}
use verilator_axi_testbench.Cursor.Addresses.{
  align, and_not-align, beat_pos, walk, beat_address-walk,
}
use verilator_axi_testbench.Cursor.Lanes.{
  InBeat, mask_at-InBeat, mask_bit, length-mask_at, word_in_space,
}

-- Every enabled lane of the mask is in the page.
abbrev LanesIn : ℕ → ℕ → ℕ → List ℕ → Type 0
LanesIn page base lane mask =
    (j : ℕ) → j < length mask → get_or mask j 0 ≢ 0 → add_u64 base (lane + j) / 4096 ≡ page

check_lanes-passes :
    (page base lane : ℕ) (mask : List ℕ)
    → LanesIn page base lane mask
    → check_lanes page base lane mask ≡ ok tt
unfolding check_lanes
check_lanes-passes page base lane [] all_in = refl
check_lanes-passes page base lane (enabled ∷ mask) all_in =
    let rest = check_lanes-passes page base (lane + 1) mask (λ j h on.
      let e : lane + suc j ≡ lane + 1 + j = omega arith in
      rw (← e) (all_in (suc j) (omega arith) on)) in
    ground (arith, rest, rw add-zero at (all_in 0 (omega arith)))

check_lanes-all :
    (page base lane : ℕ) (mask : List ℕ)
    → check_lanes page base lane mask ≡ ok tt
    → LanesIn page base lane mask
unfolding check_lanes
check_lanes-all page base lane [] passed j h on = absurd (omega arith)
check_lanes-all page base lane (enabled ∷ mask) passed zero h on = rw add-zero (ground arith)
check_lanes-all page base lane (enabled ∷ mask) passed (suc j) h on =
    let e : lane + suc j ≡ lane + 1 + j = omega arith in
    rw e (check_lanes-all page base (lane + 1) mask (ground arith) j (omega arith) on)

module _ (bus : ℕ) (c : BurstCursor) (page : ℕ) (address : ℕ → ℕ) where
  abbrev BeatPasses : ℕ → Type 0
  BeatPasses i =
      check_lanes page (and_not (address i) (bus - 1)) 0 (mask_at bus c.beat_bytes (address i))
      ≡ ok tt

  check_beats-suc :
      (n beat : ℕ)
      → beat_address c beat ≡ ok (address beat)
      → check_beats bus c page (suc n) beat ≡ (
          check_lanes page
            (and_not (address beat) (bus - 1))
            0
            (mask_at bus c.beat_bytes (address beat))
          >> check_beats bus c page n (beat + 1))
  unfolding check_beats bus_word_address lane_mask
  check_beats-suc n beat known = rw known

  check_beats-passes :
      (n beat : ℕ)
      → ((i : ℕ) → beat ≤ i → i < beat + n → beat_address c i ≡ ok (address i))
      → ((i : ℕ) → beat ≤ i → i < beat + n → BeatPasses i)
      → check_beats bus c page n beat ≡ ok tt
  unfolding check_beats
  check_beats-passes zero beat known passes = refl
  check_beats-passes (suc n) beat known passes =
      check_beats-suc n beat (known beat (omega arith) (omega arith))
      ∙ rw (
        passes beat (omega arith) (omega arith),
        check_beats-passes n (beat + 1) (λ i lo hi. known i (omega arith) (omega arith))
            (λ i lo hi. passes i (omega arith) (omega arith)),
      )

  check_beats-all :
      (n beat : ℕ)
      → ((i : ℕ) → beat ≤ i → i < beat + n → beat_address c i ≡ ok (address i))
      → check_beats bus c page n beat ≡ ok tt
      → (i : ℕ) → beat ≤ i
      → i < beat + n
      → BeatPasses i
  check_beats-all zero beat known passed i lo hi = absurd (omega arith)
  check_beats-all (suc n) beat known passed i lo hi =
      let both = sym (check_beats-suc n beat (known beat (omega arith) (omega arith))) ∙ passed in
      elim (ℕ_discrete i beat) [
        | yes here ↦ rw here (>>-eq-ok _ _ both).0
        | no later ↦
            check_beats-all n (beat + 1) (λ k lo hi. known k (omega arith) (omega arith))
              (>>-eq-ok _ _ both).1 i (omega arith) (omega arith)
      ]

-- A burst whose beats end below the top of the address space passes `validate_4k_boundary` exactly
-- when every byte of every beat lies in the 4 KiB page of the start address.
pub validate_4k_boundary_iff :
    (bus w : ℕ) (p : AddressPayload)
    → bus ≡ 2 ^ w
    → bus ≤ u64_mod
    → IsLegal bus p
    → ((i : ℕ) → i < p.length + 1 → align (walk p i) (2 ^ p.size) + 2 ^ p.size < u64_mod)
    → (validate_4k_boundary bus (cursor_of p) ≡ ok tt) ↔ (
        (i x : ℕ)
        → i < p.length + 1
        → InBeat (walk p i) (2 ^ p.size) x
        → x / 4096 ≡ p.address / 4096)
unfolding validate_4k_boundary
validate_4k_boundary_iff bus w p power small legal room = (to, from)
  where
    c : BurstCursor
    c = cursor_of p

    page : ℕ
    page = p.address / 4096

    m : ℕ
    m = 2 ^ p.size

    below : (i : ℕ) → i < p.length + 1 → walk p i < u64_mod
    below i h = omega (arith, room i h, mod-lt (walk p i) (beat_pos p.size))

    known : (i : ℕ) → 0 ≤ i → i < 0 + (p.length + 1) → beat_address c i ≡ ok (walk p i)
    known i lo hi = ground (arith, beat_address-walk bus p i legal, below i)

    lanes :
        (i : ℕ)
        → i < p.length + 1
        → ((lane : ℕ)
            → lane < bus
            → (get_or (mask_at bus m (walk p i)) lane 0 ≡ 1)
              ↔ InBeat (walk p i) m (align (walk p i) bus + lane))
          × ((x : ℕ)
              → InBeat (walk p i) m x
              → (align (walk p i) bus ≤ x) × (x - align (walk p i) bus < bus))
    lanes i h =
        mask_at-InBeat bus w m p.size (walk p i) power small refl legal.fits_bus (below i h)
          (room i h)

    base : (i : ℕ) → and_not (walk p i) (bus - 1) ≡ align (walk p i) bus
    base i = and_not-align (walk p i) bus w power

    byte :
        (i j : ℕ)
        → i < p.length + 1
        → j < bus
        → add_u64 (and_not (walk p i) (bus - 1)) (0 + j) ≡ align (walk p i) bus + j
    byte i j h hj =
        ap (λ b. add_u64 b (0 + j)) (base i)
        ∙ omega (arith, word_in_space bus w (walk p i) power small (below i h))

    to :
        check_beats bus c page (p.length + 1) 0 ≡ ok tt
        → (i x : ℕ) → i < p.length + 1
        → InBeat (walk p i) m x
        → x / 4096 ≡ page
    to passed i x h inside =
        let passes =
          check_beats-all bus c page (walk p) (p.length + 1) 0 known passed i (omega arith)
            (omega arith) in
        let j = x - align (walk p i) bus in
        let (lo, hi) = (lanes i h).1 x inside in
        let sum : align (walk p i) bus + j ≡ x = omega arith in
        let on = ((lanes i h).0 j hi).1 (rw sum inside) in
        let in_page =
          check_lanes-all page _ 0 (mask_at bus m (walk p i)) passes j
            (rw (length-mask_at bus m (walk p i)) hi) (λ e. omega (arith, on, e)) in
        ap (λ t. t / 4096) (sym (byte i j h hi ∙ sum)) ∙ in_page

    from :
        ((i x : ℕ) → i < p.length + 1 → InBeat (walk p i) m x → x / 4096 ≡ page)
        → check_beats bus c page (p.length + 1) 0 ≡ ok tt
    from all_in = check_beats-passes bus c page (walk p) (p.length + 1) 0 known λ i lo hi.
        check_lanes-passes page _ 0 _ λ j hj on.
          let h : i < p.length + 1 = omega arith in
          let hj' : j < bus = omega (arith, length-mask_at bus m (walk p i)) in
          let on' =
            mask_bit bus w m p.size (walk p i) power small refl legal.fits_bus (below i h) j hj'
              on in
          ap (λ t. t / 4096) (byte i j h hj') ∙ all_in i _ h (((lanes i h).0 j hj').0 on')
