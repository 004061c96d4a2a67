-- ===== src/Fabric/Extent.antt =====
-- `enabled_extent` of src/fabric.hpp: the span of a bus word that a device is given.
use verilator_axi_testbench.Common.{
  ℕ, zero, suc, ◌+◌, ◌<◌, ◌≤◌, ◌≡◌, ◌≢◌, inl, inr, true, false, ◌==◌, ◌!=◌, List, [], ◌∷◌, length,
  get_or, arith, Bool-cases, min,
}
use verilator_axi_testbench.Fabric.Transfer.{extent_loop, enabled_extent}

-- The first lane only falls, and the end only rises, up to the lane that is reached.
extent_loop_mono :
    (mask : List ℕ) (lane first last : ℕ)
    → last ≤ lane
    → ((extent_loop mask lane first last).0 ≤ first)
      × (last ≤ (extent_loop mask lane first last).1)
      × ((extent_loop mask lane first last).1 ≤ lane + length mask)
unfolding extent_loop
extent_loop_mono [] lane first last h = (omega arith, omega arith, omega arith)
extent_loop_mono (e ∷ mask) lane first last h = elim (Bool-cases (e != 0)) [
  | inl on ↦
      let m = extent_loop_mono mask (lane + 1) (min first lane) (lane + 1) (omega arith) in
      rw (extent_loop, on) (omega (arith, m), omega (arith, m), omega (arith, m))
  | inr off ↦
      let m = extent_loop_mono mask (lane + 1) first last (omega arith) in
      rw (extent_loop, off) (omega (arith, m), omega (arith, m), omega (arith, m))
]

extent_loop_covers :
    (mask : List ℕ) (lane first last i : ℕ)
    → last ≤ lane
    → i < length mask
    → get_or mask i 0 ≢ 0
    → ((extent_loop mask lane first last).0 ≤ lane + i)
      × (lane + i < (extent_loop mask lane first last).1)
unfolding extent_loop
extent_loop_covers [] lane first last i h hi on = absurd (omega arith)
extent_loop_covers (e ∷ mask) lane first last zero h hi on =
    let enabled : (e != 0) ≡ true = ground (arith, on) in
    let m = extent_loop_mono mask (lane + 1) (min first lane) (lane + 1) (omega arith) in
    rw (extent_loop, enabled) (omega (arith, m), omega (arith, m))
extent_loop_covers (e ∷ mask) lane first last (suc i) h hi on = elim (Bool-cases (e != 0)) [
  | inl set ↦
      let c =
        extent_loop_covers mask (lane + 1) (min first lane) (lane + 1) i (omega arith) (omega arith)
          on in
      rw (extent_loop, set) (omega (arith, c), omega (arith, c))
  | inr clear ↦
      let c = extent_loop_covers mask (lane + 1) first last i (omega arith) (omega arith) on in
      rw (extent_loop, clear) (omega (arith, c), omega (arith, c))
]

-- The extent of a mask lies within it and contains every enabled lane, so the span that is handed to
-- a device leaves none out.
pub enabled_extent-covers :
    (mask : List ℕ) (i : ℕ)
    → i < length mask
    → get_or mask i 0 ≢ 0
    → ((enabled_extent mask).0 ≤ i)
      × (i < (enabled_extent mask).0 + (enabled_extent mask).1)
      × ((enabled_extent mask).0 + (enabled_extent mask).1 ≤ length mask)
unfolding enabled_extent
enabled_extent-covers mask i h on =
    let m = extent_loop_mono mask 0 (length mask) 0 (omega arith) in
    let c = extent_loop_covers mask 0 (length mask) 0 i (omega arith) h on in
    let found : ((extent_loop mask 0 (length mask) 0).0 == length mask) ≡ false =
      ground (arith, c, h) in
    rw found (omega (arith, m, c), omega (arith, m, c), omega (arith, m, c))
