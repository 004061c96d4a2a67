-- ===== src/Elf/Image.antt =====
-- The bytes that `ImageLoadPlan::apply` of src/elf_loader.cpp leaves in the devices.
use verilator_axi_testbench.Common.{
  Each, Each-mono, ℕ, ◌+◌, ◌-◌, ◌<◌, ◌≤◌, ◌≡◌, ◌≢◌, ◌⊎◌, inl, inr, refl, sym, ap, ◌∙◌, true, ◌==◌,
  List, [], ◌∷◌, some, some-eq, length, get_elem?, get_elem?-set_self, get_or, length-replicate,
  length-append, Result, ok, err, arith, Bool-cases, ==_iff, ok-not-err,
}
use mathlib.Core.Path.{subst}
use verilator_axi_testbench.Device.{Device}
use verilator_axi_testbench.Device.Loading.{LoadLaws, LoadContents}
use verilator_axi_testbench.Space.{Mapping, AddressSpace, resolve}
use verilator_axi_testbench.Space.Sorted.{IsSorted}
use verilator_axi_testbench.Space.Resolve.{resolve_iff, IsSorted-bounds}
use verilator_axi_testbench.Space.Reset.{get_elem?-set}
use verilator_axi_testbench.Elf.Overlap.{IsPairwise}
use verilator_axi_testbench.Elf.Loadable.{IsTarget}
use verilator_axi_testbench.Elf.Store.{zeros, loaded}
use verilator_axi_testbench.Elf.Apply.{
  IsChunk, IsReady, padded, store_chunks, store_at-loaded, Each-kept, check_chunks-IsReady,
  apply-stored,
}
use verilator_axi_testbench.Elf.Alias.{target_of, IsClear, aliased-apart, check_chunks-IsClear}
use verilator_axi_testbench.Elf.Plan.{Chunk, ImageLoadPlan, Outcome, apply, check_chunks}

-- The chunk `b` keeps off the byte `j` of the device `k`.
abbrev KeepsOff : AddressSpace → ℕ → ℕ → Chunk → Type 0
KeepsOff space k j b =
    (n : Mapping)
    → target_of space b ≡ some n
    → (n.device ≢ k)
      ⊎ (j < b.segment.load_address - n.base)
      ⊎ (b.segment.load_address - n.base + b.segment.memory_size ≤ j)

length-padded : (c : Chunk) → IsChunk c → length (padded c) ≡ c.segment.memory_size
length-padded c (same, le, small) =
    let k = c.segment.memory_size - c.segment.file_size in
    omega (arith, length-append c.bytes (zeros k), length-replicate {A = ℕ} k 0)

module _ {ℓ} {D : Type ℓ} ⦃ops : Device D⦄ (laws : LoadLaws D) (contents : LoadContents D)
    (space : AddressSpace) (sorted : IsSorted 0 space.mappings) where
  -- Where the test passes, no byte of the earlier chunk is one of the later.
  IsClear-KeepsOff :
      (devices : List D) (c b : Chunk) (m : Mapping) (d : D) (i : ℕ)
      → IsTarget space devices c.segment m d
      → i < c.segment.memory_size
      → IsClear space c b
      → KeepsOff space m.device (c.segment.load_address - m.base + i) b
  IsClear-KeepsOff devices c b m d i (inside, some_bytes, held, at, loads, can) small clear n
        found =
      let in_c = resolve_iff space c.segment.load_address c.segment.memory_size m sorted in
      let in_b =
        (resolve_iff space b.segment.load_address b.segment.memory_size n sorted).0 found in
      let n_ends = IsSorted-bounds 0 n space.mappings sorted in_b.0 in
      let m_ends = IsSorted-bounds 0 m space.mappings sorted inside in
      elim (aliased-apart n m b c n_ends.2 m_ends.2 in_b.2 held
        (clear m n (in_c.1 (inside, some_bytes, held)) found)) [
          | inl other ↦ inl other
          | inr (inl before) ↦ inr (inr (omega (arith, before)))
          | inr (inr after) ↦ inr (inl (omega (arith, after)))
        ]

  -- One load leaves a byte that it keeps off as it is.
  loaded-frame :
      (devices : List D) (b : Chunk) (n : Mapping) (e d : D) (k j : ℕ)
      → IsTarget space devices b.segment n e
      → IsChunk b
      → get_elem? devices k ≡ some d
      → KeepsOff space k j b
      → (d' : D) × (get_elem?
            (loaded laws space sorted devices n e b.segment.load_address (padded b))
            k
          ≡ some d')
        × (contents.peek d' j ≡ contents.peek d j)
  loaded-frame devices b n e d k j target whole at keeps =
      let o = b.segment.load_address - n.base in
      let e' = (ops.load e o (padded b)).1 in
      let got = get_elem?-set devices n.device k e' d at in
      let found =
        (resolve_iff space b.segment.load_address b.segment.memory_size n sorted).1
          (target.0, target.1, target.2) in
      let room : ops.can_load e o (length (padded b)) ≡ true =
        rw (length-padded b whole) target.5 in
      let peeked = contents.peek_load e o (padded b) j room in
      elim (Bool-cases (n.device == k)) [
        | inl same ↦
            let e_d : e ≡ d =
              some-eq (sym target.3 ∙ ap (get_elem? devices) ((==_iff n.device k).0 same) ∙ at) in
            (
              e',
              got ∙ ap some (rw same),
              ground (arith, keeps n found, length-padded b whole, peeked, same)
                  ∙ ap (λ x. contents.peek x j) e_d,
            )
        | inr other ↦ (d, got ∙ ap some (rw other), refl)
      ]

  store_chunks-frame :
      (cs : List Chunk) (devices : List D) (k j : ℕ) (d : D)
      → get_elem? devices k ≡ some d
      → Each (IsReady space devices) cs
      → Each (KeepsOff space k j) cs
      → (d' : D) × (get_elem? (store_chunks space cs devices) k ≡ some d')
        × (contents.peek d' j ≡ contents.peek d j)
  unfolding store_chunks
  store_chunks-frame [] devices k j d at ready off = (d, at, refl)
  store_chunks-frame (b ∷ cs) devices k j d at ((whole, (n, e, target)), ready) (keeps, off) =
      let devices' = loaded laws space sorted devices n e b.segment.load_address (padded b) in
      let ready' =
        Each-kept space laws sorted cs devices n e b.segment.load_address (padded b) target.3
          ready in
      let (d1, at1, same) = loaded-frame devices b n e d k j target whole at keeps in
      let (d', at2, kept) = store_chunks-frame cs devices' k j d1 at1 ready' off in
      rw (store_at-loaded space laws sorted devices b n e target) (d', at2, kept ∙ same)

  -- The padded bytes of a chunk stand in the device that its address names.
  abbrev pub IsStored : List D → Chunk → Type ℓ
  IsStored devices c =
      (m : Mapping) × (resolve space c.segment.load_address c.segment.memory_size ≡ some m)
      × ((i : ℕ)
          → i < c.segment.memory_size
          → (d : D) × (get_elem? devices m.device ≡ some d)
            × (contents.peek d (c.segment.load_address - m.base + i) ≡ get_or (padded c) i 0))

  store_chunks-IsStored :
      (cs : List Chunk) (devices : List D)
      → Each (IsReady space devices) cs
      → IsPairwise (IsClear space) cs
      → Each (IsStored (store_chunks space cs devices)) cs
  unfolding store_chunks
  store_chunks-IsStored [] devices ready clear = tt
  store_chunks-IsStored (c ∷ cs) devices ((whole, (m, d, target)), ready) (clear, pairs) =
      let a = c.segment.load_address in
      let devices' = loaded laws space sorted devices m d a (padded c) in
      let ready' = Each-kept space laws sorted cs devices m d a (padded c) target.3 ready in
      let o = a - m.base in
      let step : store_chunks space cs devices' ≡ store_chunks space (c ∷ cs) devices =
        ap (store_chunks space cs) (sym (store_at-loaded space laws sorted devices c m d target)) in
      let at = get_elem?-set_self devices m.device (ops.load d o (padded c)).1 d target.3 in
      let room : ops.can_load d o (length (padded c)) ≡ true =
        rw (length-padded c whole) target.5 in
      subst (λ ds. Each (IsStored ds) (c ∷ cs)) step
        (
          (
            m,
            (resolve_iff space a c.segment.memory_size m sorted).1 (target.0, target.1, target.2),
            λ i small.
                let off =
                  Each-mono (IsClear space c) (KeepsOff space m.device (o + i)) cs
                    (λ b. IsClear-KeepsOff devices c b m d i target small) clear in
                let (d', at', kept) =
                  store_chunks-frame cs devices' m.device (o + i) (ops.load d o (padded c)).1 at
                    ready' off in
                let peeked = contents.peek_load d o (padded c) (o + i) room in
                let index : o + i - o ≡ i = omega arith in
                (
                  d',
                  at',
                  kept
                      ∙ ground (
                        arith,
                        peeked,
                        length-padded c whole,
                        small,
                        ap (λ k. get_or (padded c) k 0) index,
                      ),
                ),
          ),
          store_chunks-IsStored cs devices' ready' pairs,
        )

  -- After a plan is applied with success, every byte of every chunk stands in the device that its
  -- address names, the zeros of its BSS too, whatever the chunks that are stored after it.
  pub apply-IsStored :
      (plan : ImageLoadPlan) (devices devices' : List D)
      → Each IsChunk plan.chunks
      → apply space plan devices ≡ (devices', ok tt)
      → Each (IsStored devices') plan.chunks
  apply-IsStored plan devices devices' whole e = go (check_chunks space devices [] plan.chunks) refl
    where
      stored :
          elim (check_chunks space devices [] plan.chunks) as (λ r. Outcome D) [
            | err thrown ↦ (devices, err thrown)
            | ok done ↦ (store_chunks space plan.chunks devices, ok tt)
          ]
          ≡ (devices', ok tt)
      stored = sym (apply-stored space laws sorted plan devices whole) ∙ e

      go :
          (checked : Result (Unit {0}))
          → check_chunks space devices [] plan.chunks ≡ checked
          → Each (IsStored devices') plan.chunks
      go (err thrown) h = absurd (ok-not-err (ap (λ p. p.1) (rw h at stored)))
      go (ok done) h =
          let ready = check_chunks-IsReady space laws sorted devices [] plan.chunks whole h in
          let pairs = (check_chunks-IsClear space devices [] plan.chunks h).1 in
          subst (λ ds. Each (IsStored ds) plan.chunks) (ap (λ p. p.0) (rw h at stored))
            (store_chunks-IsStored plan.chunks devices ready pairs)
