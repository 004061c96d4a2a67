-- ===== src/Fuxi/Best.antt =====
-- The source that `Plic::best` of src/examples/fuxi/sim/interrupt_devices.cpp selects, and its claim.
use verilator_axi_testbench.Common.{
  ℕ, zero, suc, ◌+◌, ◌<◌, ◌≤◌, ◌≡◌, ◌⊎◌, inl, inr, refl, sym, ap, ◌∙◌, Bool, true, ◌==◌, ◌!=◌, ◌&&◌,
  ltb, if◌then◌else◌, List, [], ◌∷◌, get_or, set, get_or-set_ne, arith, Bool-cases, ==_iff, ==→ne,
}
use verilator_axi_testbench.Fuxi.Plic.{Plic, enabled, priority_of, best_from, best, claim, notify}

-- A source that asks for the context.
abbrev pub asks : Plic → ℕ → ℕ → Bool
asks p context i = get_or p.pending i 0 != 0 && enabled p context i

-- Among the sources below `bound`, the selected one has the highest priority, and the lowest number of
-- those; it is 0 when none asks with a priority.
pub record IsBest (p : Plic) (context bound selected : ℕ) : Type 0 where
  pub highest :
      (i : ℕ)
      → 0 < i
      → i < bound
      → asks p context i ≡ true
      → priority_of p i ≤ priority_of p selected
  pub lowest :
      (i : ℕ)
      → 0 < i
      → i < selected
      → asks p context i ≡ true
      → priority_of p i < priority_of p selected
  pub chosen :
      (selected ≡ 0)
      ⊎ ((selected < bound) × (asks p context selected ≡ true) × (0 < priority_of p selected))

module _ (p : Plic) (context : ℕ) (masked : priority_of p 0 ≡ 0) where
  IsBest-step :
      (i selected : ℕ)
      → 0 < i
      → IsBest p context i selected
      → IsBest p context (suc i) (
          if asks p context i && ltb (priority_of p selected) (priority_of p i)
          then i
          else selected)
  IsBest-step i selected pos b =
      elim (Bool-cases (asks p context i && ltb (priority_of p selected) (priority_of p i))) [
        | inl wins ↦
            let better : priority_of p selected < priority_of p i = ground (arith, wins) in
            rw wins record {
              highest = λ j hj below a. elim (Bool-cases (j == i)) [
                | inl same ↦ let e : j ≡ i = (==_iff j i).0 same in rw e (omega arith)
                | inr other ↦
                    let le = b.highest j hj (ground (arith, other, below)) a in
                    omega (arith, le, better)
              ];
              lowest = λ j hj below a. let le = b.highest j hj below a in omega (arith, le, better);
              chosen = inr (omega arith, ground (arith, wins), omega (arith, better));
            }
        | inr loses ↦ rw loses record {
          highest = λ j hj below a. elim (Bool-cases (j == i)) [
            | inl same ↦
                let e : j ≡ i = (==_iff j i).0 same in
                let at_i : asks p context i ≡ true = rw e at a in rw e (ground (arith, loses, at_i))
            | inr other ↦ b.highest j hj (ground (arith, other, below)) a
          ];
          lowest = b.lowest;
          chosen = elim b.chosen [
            | inl none_yet ↦ inl none_yet
            | inr (below, a, some_priority) ↦ inr (omega arith, a, some_priority)
          ];
        }
      ]

  best_from-IsBest :
      (left i selected : ℕ)
      → 0 < i
      → IsBest p context i selected
      → IsBest p context (i + left) (best_from p context selected i left)
  unfolding best_from
  best_from-IsBest zero i selected pos b = let e : i + 0 ≡ i = omega arith in rw e b
  best_from-IsBest (suc left) i selected pos b =
      let e : i + suc left ≡ suc i + left = omega arith in
      rw e (best_from-IsBest left (suc i) _ (omega arith) (IsBest-step i selected pos b))

  best-IsBest : IsBest p context (suc p.sources) (best p context)
  unfolding best
  best-IsBest =
      let e : suc p.sources ≡ 1 + p.sources = omega arith in
      rw e (
        best_from-IsBest p.sources 1 0 (omega arith) (record {
          highest = λ i pos below a. absurd (omega arith);
          lowest = λ i pos below a. absurd (omega arith);
          chosen = inl refl;
        }))

  cleared : (flags : List ℕ) (i : ℕ) → get_or (set flags i 0) i 0 ≡ 0
  cleared [] i = refl
  cleared (x ∷ xs) zero = refl
  cleared (x ∷ xs) (suc i) = cleared xs i

  -- A claim gives the asking source of the highest priority, the lowest number of those, or 0 when none
  -- asks with a priority; it ends the pending state of that source and of no other, and leaves what
  -- is in service. Source 0 has priority 0, as in every state that the registers lead to.
  pub claim-IsBest :
      IsBest p context (suc p.sources) (claim p context).0
      × ((i : ℕ)
          → get_or (claim p context).1.pending i 0 ≡ (
              if (claim p context).0 != 0 && (claim p context).0 == i
              then 0
              else get_or p.pending i 0))
      × ((claim p context).1.busy ≡ p.busy)
  unfolding claim notify
  claim-IsBest = (best-IsBest, ended, kept)
    where
      id : ℕ
      id = best p context

      ended :
          (i : ℕ)
          → get_or (if id != 0 then record p { pending = set p.pending id 0 } else p).pending i 0
            ≡ (if id != 0 && id == i then 0 else get_or p.pending i 0)
      ended i = elim (Bool-cases (id != 0)) [
        | inl some_source ↦ elim (Bool-cases (id == i)) [
          | inl same ↦
              let e : id ≡ i = (==_iff id i).0 same in
              rw (some_source, same)
                (ap (λ k. get_or (set p.pending id 0) k 0) (sym e) ∙ cleared p.pending id)
          | inr other ↦
              rw (some_source, other) (get_or-set_ne p.pending id i 0 0 (==→ne id i other))
        ]
        | inr no_source ↦ rw no_source
      ]

      kept : (if id != 0 then record p { pending = set p.pending id 0 } else p).busy ≡ p.busy
      kept = elim (Bool-cases (id != 0)) [
        | inl some_source ↦ rw some_source
        | inr no_source ↦ rw no_source
      ]
