-- ===== src/Elf/Apply.antt =====
-- `ImageLoadPlan::apply` of src/elf_loader.cpp.
use verilator_axi_testbench.Common.{
  Each, Each-mono, ℕ, ◌+◌, ◌-◌, ◌≤◌, ◌≡◌, inl, inr, refl, sym, ap, ◌∙◌, true, ◌==◌, if◌then◌else◌,
  List, [], ◌∷◌, ◌++◌, Option, none, some, some-eq, length, get_elem?, set, Result, ok, err, arith,
  Bool-cases, ==_iff, >>-eq-ok, ◌>>◌, u64_max, take, leb,
}
use verilator_axi_testbench.Device.{Device}
use verilator_axi_testbench.Device.Loading.{LoadLaws}
use verilator_axi_testbench.Space.{Mapping, AddressSpace, resolve}
use verilator_axi_testbench.Space.Sorted.{IsSorted}
use verilator_axi_testbench.Space.Resolve.{resolve_iff}
use verilator_axi_testbench.Space.Reset.{get_elem?-set}
use verilator_axi_testbench.Elf.{ElfSegment, subspan}
use verilator_axi_testbench.Elf.Loadable.{IsTarget, validate_load_target_iff}
use verilator_axi_testbench.Elf.Segments.{validate_load_target}
use verilator_axi_testbench.Elf.Store.{zeros, loaded, IsRange, apply_segment-loaded}
use verilator_axi_testbench.Elf.Plan.{
  Chunk, ImageLoadPlan, Outcome, apply_chunks, apply, check_chunks, check_earlier,
}

-- A chunk as `add_elf` and `add_raw` make it.
abbrev pub IsChunk : Chunk → Type 0
IsChunk c =
    (length c.bytes ≡ c.segment.file_size)
    × (c.segment.file_size ≤ c.segment.memory_size)
    × (c.segment.load_address ≤ u64_max)

-- The file bytes of a chunk, then zeros up to its size in memory.
abbrev pub padded : Chunk → List ℕ
padded c = c.bytes ++ zeros (c.segment.memory_size - c.segment.file_size)

take-all : (xs : List ℕ) → take (length xs) xs ≡ xs
take-all [] = refl
take-all (x ∷ xs) = ap (λ ys. x ∷ ys) (take-all xs)

subspan-whole : (xs : List ℕ) (n : ℕ) → length xs ≡ n → subspan xs 0 n ≡ ok xs
unfolding subspan
subspan-whole xs n same =
    let inside : leb (0 + n) (length xs) ≡ true = ground arith in
    rw (inside, ← same) (ap ok (take-all xs))

module _ {ℓ} {D : Type ℓ} ⦃ops : Device D⦄ (space : AddressSpace) where
  -- What storing a chunk means: one load of its padded bytes into the device mapped there.
  abbrev store_in : List D → Chunk → Mapping → Option D → List D
  store_in devices c m none = devices
  store_in devices c m (some d) =
      set devices m.device (ops.load d (c.segment.load_address - m.base) (padded c)).1

  abbrev store_at : List D → Chunk → Option Mapping → List D
  store_at devices c none = devices
  store_at devices c (some m) = store_in devices c m (get_elem? devices m.device)

  unfoldable pub store_chunks : List Chunk → List D → List D
  unfolding resolve
  store_chunks [] devices = devices
  store_chunks (c ∷ cs) devices =
      store_chunks cs
        (store_at devices c (resolve space c.segment.load_address c.segment.memory_size))

  -- A chunk that may be stored.
  abbrev pub IsReady : List D → Chunk → Type ℓ
  IsReady devices c = IsChunk c × ((m : Mapping) × (d : D) × IsTarget space devices c.segment m d)

  module _ (laws : LoadLaws D) (sorted : IsSorted 0 space.mappings) where
    pub store_at-loaded :
        (devices : List D) (c : Chunk) (m : Mapping) (d : D)
        → IsTarget space devices c.segment m d
        → store_at devices c (resolve space c.segment.load_address c.segment.memory_size)
          ≡ loaded laws space sorted devices m d c.segment.load_address (padded c)
    store_at-loaded devices c m d (inside, some_bytes, held, at, loads, can) = rw (
      (resolve_iff space c.segment.load_address c.segment.memory_size m sorted).1
          (inside, some_bytes, held),
      at,
    )

    -- A load of one device leaves every target a target.
    IsTarget-kept :
        (devices : List D) (segment : ElfSegment) (m n : Mapping) (d e : D) (a : ℕ) (xs : List ℕ)
        → get_elem? devices n.device ≡ some e
        → IsTarget space devices segment m d
        → (d' : D) × IsTarget space (loaded laws space sorted devices n e a xs) segment m d'
    IsTarget-kept devices segment m n d e a xs there (inside, some_bytes, held, at, loads, can) =
        let o = a - n.base in
        let d' = if n.device == m.device then (ops.load e o xs).1 else d in
        let got = get_elem?-set devices n.device m.device (ops.load e o xs).1 d at in
        elim (Bool-cases (n.device == m.device)) [
          | inl same ↦
              let e_d : e ≡ d =
                some-eq
                  (sym there ∙ ap (get_elem? devices) ((==_iff n.device m.device).0 same) ∙ at) in
              (
                (ops.load e o xs).1,
                (
                  inside,
                  some_bytes,
                  held,
                  got ∙ ap some (rw same),
                  laws.load_loadable e o xs ∙ rw e_d loads,
                  laws.load_can_load e o xs (segment.load_address - m.base) segment.memory_size
                      ∙ rw e_d can,
                ),
              )
          | inr other ↦ (d, (inside, some_bytes, held, got ∙ ap some (rw other), loads, can))
        ]

    pub Each-kept :
        (cs : List Chunk) (devices : List D) (n : Mapping) (e : D) (a : ℕ) (xs : List ℕ)
        → get_elem? devices n.device ≡ some e
        → Each (IsReady devices) cs
        → Each (IsReady (loaded laws space sorted devices n e a xs)) cs
    Each-kept cs devices n e a xs there =
        Each-mono (IsReady devices) (IsReady (loaded laws space sorted devices n e a xs)) cs
          (λ c (whole, (m, d, target)).
            let (d', kept) = IsTarget-kept devices c.segment m n d e a xs there target in
            (whole, (m, d', kept)))

    apply_chunks-stored :
        (cs : List Chunk) (devices : List D)
        → Each (IsReady devices) cs
        → apply_chunks space cs devices ≡ (store_chunks cs devices, ok tt)
    unfolding apply_chunks store_chunks
    apply_chunks-stored [] devices ready = refl
    apply_chunks-stored (c ∷ cs) devices ((whole, (m, d, target)), ready) =
        let a = c.segment.load_address in
        let range : IsRange laws space sorted devices m d a c.segment.memory_size =
          (target.0, target.2, target.3, target.4, target.5) in
        rw
          (
            apply_segment-loaded laws space sorted devices m d c.bytes 0 c.segment c.bytes range
                (subspan-whole c.bytes c.segment.file_size whole.0) whole.0 whole.1,
            store_at-loaded devices c m d target,
          )
          (apply_chunks-stored cs (loaded laws space sorted devices m d a (padded c))
            (Each-kept cs devices m d a (padded c) target.3 ready))

    pub check_chunks-IsReady :
        (devices : List D) (seen cs : List Chunk)
        → Each IsChunk cs
        → check_chunks space devices seen cs ≡ ok tt
        → Each (IsReady devices) cs
    unfolding check_chunks
    check_chunks-IsReady devices seen [] whole e = tt
    check_chunks-IsReady devices seen (c ∷ cs) (w, whole) e =
        let found = resolve space c.segment.load_address c.segment.memory_size in
        let later = check_chunks space devices (seen ++ c ∷ []) cs in
        let (valid, e1) =
          >>-eq-ok (validate_load_target space devices c.segment)
            (check_earlier space c.segment found seen >> later) e in
        let (clear, e2) = >>-eq-ok (check_earlier space c.segment found seen) later e1 in
        (
          (w, (validate_load_target_iff space devices c.segment sorted w.2).0 valid),
          check_chunks-IsReady devices (seen ++ c ∷ []) cs whole e2,
        )

    -- A plan is applied whole or not at all: when the checks refuse it, no device has changed, and when
    -- they pass, no device rejects a load and each chunk is stored as one load of its file bytes and the
    -- zeros behind them. The mappings are sorted, the devices keep the laws of loading, and the chunks
    -- are as `add_elf` and `add_raw` make them.
    pub apply-stored :
        (plan : ImageLoadPlan) (devices : List D)
        → Each IsChunk plan.chunks
        → apply space plan devices ≡ elim (check_chunks space devices [] plan.chunks) [
          | err thrown ↦ (devices, err thrown)
          | ok done ↦ (store_chunks plan.chunks devices, ok tt)
        ]
    unfolding apply
    apply-stored plan devices whole = go (check_chunks space devices [] plan.chunks) refl
      where
        go :
            (checked : Result (Unit {0}))
            → check_chunks space devices [] plan.chunks ≡ checked
            → (elim checked as (λ r. Outcome D) [
              | err thrown ↦ (devices, err thrown)
              | ok done ↦ apply_chunks space plan.chunks devices
            ])
              ≡ (elim checked as (λ r. Outcome D) [
                | err thrown ↦ (devices, err thrown)
                | ok done ↦ (store_chunks plan.chunks devices, ok tt)
              ])
        go (err thrown) e = refl
        go (ok done) e =
            apply_chunks-stored plan.chunks devices
              (check_chunks-IsReady devices [] plan.chunks whole e)
