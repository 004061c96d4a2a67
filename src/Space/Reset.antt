-- ===== src/Space/Reset.antt =====
-- `AddressSpace::reset` of src/devices.cpp.
use verilator_axi_testbench.Common.{
  ℕ, zero, suc, ◌≡◌, sym, ap, ◌∙◌, inl, inr, Bool, true, false, not, ◌==◌, ◌&&◌, ◌||◌,
  if◌then◌else◌, List, [], ◌∷◌, get_elem?, set, some, arith, Bool-cases, some-eq, ==_iff,
  Option-cases,
}
use verilator_axi_testbench.Device.{Device}
use verilator_axi_testbench.Space.{
  Mapping, AddressSpace, already_reset, reset_device, reset_mappings, space_reset,
}

-- Whether a mapping has the device.
abbrev pub is_mapped : List Mapping → ℕ → Bool
is_mapped [] k = false
is_mapped (m ∷ ms) k = m.device == k || is_mapped ms k

pub get_elem?-set {ℓ} :
    {A : Type ℓ} (xs : List A) (i k : ℕ) (v x : A)
    → get_elem? xs k ≡ some x
    → get_elem? (set xs i v) k ≡ some (if i == k then v else x)
get_elem?-set [] i k v x h = absurd cc
get_elem?-set (y ∷ xs) zero zero v x h = ground arith
get_elem?-set (y ∷ xs) zero (suc k) v x h = ground arith
get_elem?-set (y ∷ xs) (suc i) zero v x h = ground arith
get_elem?-set (y ∷ xs) (suc i) (suc k) v x h = ground (arith, get_elem?-set xs i k v x h)

module _ {ℓ} {D : Type ℓ} ⦃ops : Device D⦄ where
  -- The device `k` after the reset of another or of itself.
  reset_device-at :
      (devices : List D) (i k : ℕ) (d : D)
      → get_elem? devices k ≡ some d
      → get_elem? (reset_device devices i (get_elem? devices i)) k
        ≡ some (if i == k then ops.reset d else d)
  reset_device-at devices i k d h = elim (Option-cases (get_elem? devices i)) [
    | inl missing ↦ rw missing (elim (Bool-cases (i == k)) [
      | inl same ↦ absurd (ground (arith, missing, h, ap (get_elem? devices) ((==_iff i k).0 same)))
      | inr other ↦ rw other h
    ])
    | inr (d', found) ↦ rw found (get_elem?-set devices i k (ops.reset d') d h ∙ agree d' found)
  ]
    where
      agree :
          (d' : D)
          → get_elem? devices i ≡ some d'
          → some (if i == k then ops.reset d' else d) ≡ some (if i == k then ops.reset d else d)
      agree d' found = elim (Bool-cases (i == k)) [
        | inl same ↦
            let e : some d' ≡ some d =
              sym found ∙ ap (get_elem? devices) ((==_iff i k).0 same) ∙ h in
            rw (some-eq e)
        | inr other ↦ rw other
      ]

  reset_mappings-at :
      (seen : List ℕ) (ms : List Mapping) (devices : List D) (k : ℕ) (d : D)
      → get_elem? devices k ≡ some d
      → get_elem? (reset_mappings seen ms devices) k
        ≡ some (if not (already_reset seen k) && is_mapped ms k then ops.reset d else d)
  unfolding reset_mappings already_reset
  reset_mappings-at seen [] devices k d h = ground arith
  reset_mappings-at seen (m ∷ ms) devices k d h = elim (Bool-cases (already_reset seen m.device)) [
    | inl done ↦
        rw done (reset_mappings-at (m.device ∷ seen) ms devices k d h ∙ ap some (skip done))
    | inr todo ↦ rw todo (
        reset_mappings-at (m.device ∷ seen) ms _ k _ (reset_device-at devices m.device k d h)
        ∙ ap some (step todo))
  ]
    where
      skip :
          already_reset seen m.device ≡ true
          → (if not (already_reset (m.device ∷ seen) k) && is_mapped ms k then ops.reset d else d)
            ≡ (if not (already_reset seen k) && is_mapped (m ∷ ms) k then ops.reset d else d)
      skip done = elim (Bool-cases (m.device == k)) [
        | inl same ↦ ground (arith, done, ap (already_reset seen) ((==_iff m.device k).0 same))
        | inr other ↦ ground (arith, other)
      ]

      step :
          already_reset seen m.device ≡ false
          → (if not (already_reset (m.device ∷ seen) k) && is_mapped ms k
              then ops.reset (if m.device == k then ops.reset d else d)
              else if m.device == k
              then ops.reset d
              else d)
            ≡ (if not (already_reset seen k) && is_mapped (m ∷ ms) k then ops.reset d else d)
      step todo = elim (Bool-cases (m.device == k)) [
        | inl same ↦ ground (arith, todo, ap (already_reset seen) ((==_iff m.device k).0 same))
        | inr other ↦ ground (arith, other)
      ]

  -- The reset of an address space resets each device that it maps exactly once, through however many
  -- mappings, and no other device.
  pub space_reset-once :
      (space : AddressSpace) (devices : List D) (k : ℕ) (d : D)
      → get_elem? devices k ≡ some d
      → get_elem? (space_reset space devices) k
        ≡ some (if is_mapped space.mappings k then ops.reset d else d)
  unfolding space_reset already_reset
  space_reset-once space devices k d h = reset_mappings-at [] space.mappings devices k d h
