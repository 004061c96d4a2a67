-- ===== src/Elf/Accepted.antt =====
-- What `ImageLoadPlan::add_elf` of src/elf_loader.cpp establishes of an image that it accepts.
use verilator_axi_testbench.Common.{
  Each, Each-mono, ℕ, ◌+◌, ◌≡◌, inl, inr, sym, ap, leb, List, [], ◌∷◌, ◌++◌, take, drop, length,
  length-take, length-drop, ok, arith, Bool-cases, ok-inj, ok-not-err, >>-eq-ok, ◌>>◌, ◌>>=◌,
  >>=-eq-ok, leb→le,
}
use mathlib.Core.Path.{subst}
use verilator_axi_testbench.Device.{Device}
use verilator_axi_testbench.Space.{AddressSpace}
use verilator_axi_testbench.Space.Sorted.{IsSorted}
use verilator_axi_testbench.Elf.{ElfLoadResult, ParsedSegment, ParsedHeader, parse_header, subspan}
use verilator_axi_testbench.Elf.Overlap.{IsPairwise, IsDisjoint, IsPlaced, validate_no_overlap_iff}
use verilator_axi_testbench.Elf.Segments.{parse_load_segments, validate_no_overlap}
use verilator_axi_testbench.Elf.Loadable.{IsLoadable, parse_load_segments-IsLoadable}
use verilator_axi_testbench.Elf.Apply.{IsChunk}
use verilator_axi_testbench.Elf.Plan.{
  Chunk, ImageLoadPlan, chunk_of, additions, public_segments, add_elf,
}

subspan-ok :
    (image : List ℕ) (offset count : ℕ) (bytes : List ℕ)
    → subspan image offset count ≡ ok bytes
    → length bytes ≡ count
unfolding subspan
subspan-ok image offset count bytes e = elim (Bool-cases (leb (offset + count) (length image))) [
  | inl inside ↦
      let same : take count (drop offset image) ≡ bytes = ok-inj (rw inside at e) in
      let fits = leb→le (offset + count) (length image) inside in
      rw (← same) (omega (arith, length-take count (drop offset image), length-drop offset image))
  | inr outside ↦ absurd (ok-not-err (rw outside at e))
]

module _ {ℓ} {D : Type ℓ} ⦃ops : Device D⦄ (space : AddressSpace) (devices : List D) where
  additions-IsChunk :
      (image : List ℕ) (ss : List ParsedSegment) (chunks : List Chunk)
      → Each (IsLoadable space devices (length image)) ss
      → additions image ss ≡ ok chunks
      → Each IsChunk chunks
  unfolding additions chunk_of
  additions-IsChunk image [] chunks loadable e = subst (Each IsChunk) (ok-inj e) tt
  additions-IsChunk image (s ∷ ss) chunks ((placed, le, inside, congruent, target), loadable) e =
      let chunk : List ℕ → Chunk = λ bytes. record { segment = s.public_segment; bytes = bytes } in
      let (c, one, e1) =
        >>=-eq-ok (chunk_of image s) (λ c. additions image ss >>= λ rest. ok (c ∷ rest)) e in
      let (rest, others, e2) = >>=-eq-ok (additions image ss) (λ rest. ok (c ∷ rest)) e1 in
      let (bytes, got, e3) =
        >>=-eq-ok (subspan image s.file_offset s.public_segment.file_size)
          (λ bytes. ok (chunk bytes)) one in
      subst (Each IsChunk) (ok-inj e2) (
        subst IsChunk (ok-inj e3) (
          subspan-ok image s.file_offset s.public_segment.file_size bytes got,
          le,
          omega (arith, placed),
        ),
        additions-IsChunk image ss rest loadable others,
      )

  -- What an accepted image consists of.
  abbrev pub Accepted : List ℕ → ElfLoadResult → List Chunk → Type ℓ
  Accepted image result chunks =
      (header : ParsedHeader) × (ss : List ParsedSegment) × (parse_header image ≡ ok header)
      × (result ≡ record {
        entry = header.entry;
        is_64_bit = header.is_64_bit;
        segments = public_segments ss;
      })
      × Each (IsLoadable space devices (length image)) ss
      × IsPairwise IsDisjoint ss
      × (additions image ss ≡ ok chunks)
      × Each IsChunk chunks
      × (parse_load_segments space devices image header ≡ ok ss)

  -- An image that is added to a plan has an accepted header, and loadable segments that share no
  -- address; its chunks go behind those of the plan.
  pub add_elf-Accepted :
      (image : List ℕ) (plan plan' : ImageLoadPlan) (result : ElfLoadResult)
      → IsSorted 0 space.mappings
      → add_elf space devices image plan ≡ ok (result, plan')
      → (chunks : List Chunk) × (plan'.chunks ≡ plan.chunks ++ chunks)
        × Accepted image result chunks
  unfolding add_elf
  add_elf-Accepted image plan plan' result sorted e =
      let answer : ParsedHeader → List ParsedSegment → List Chunk → ElfLoadResult × ImageLoadPlan =
        λ header ss new. (
          record {
            entry = header.entry;
            is_64_bit = header.is_64_bit;
            segments = public_segments ss;
          },
          record { chunks = plan.chunks ++ new },
        ) in
      let last = λ (header : ParsedHeader) (ss : List ParsedSegment).
        additions image ss >>= λ new. ok (answer header ss new) in
      let (header, parsed, e1) =
        >>=-eq-ok (parse_header image)
          (λ header. parse_load_segments space devices image header >>= λ ss.
            validate_no_overlap ss >> last header ss)
          e in
      let (ss, found, e2) =
        >>=-eq-ok (parse_load_segments space devices image header)
          (λ ss. validate_no_overlap ss >> last header ss) e1 in
      let (apart, e3) = >>-eq-ok (validate_no_overlap ss) (last header ss) e2 in
      let (chunks, added, e4) =
        >>=-eq-ok (additions image ss) (λ new. ok (answer header ss new)) e3 in
      let loadable = parse_load_segments-IsLoadable space devices image header ss sorted found in
      let placed =
        Each-mono (IsLoadable space devices (length image)) IsPlaced ss (λ s h. h.0) loadable in
      (
        chunks,
        sym (ap (λ a. a.1.chunks) (ok-inj e4)),
        (
          header,
          ss,
          parsed,
          sym (ap (λ a. a.0) (ok-inj e4)),
          loadable,
          (validate_no_overlap_iff ss placed).0 apart,
          added,
          additions-IsChunk image ss chunks loadable added,
          found,
        ),
      )
