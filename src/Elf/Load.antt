-- ===== src/Elf/Load.antt =====
-- `load_elf` of src/elf_loader.cpp.
use verilator_axi_testbench.Common.{
  Each, map, Bool, if◌then◌else◌, ◌≤◌, ◌≢◌, u64_max, ℕ, ◌≡◌, refl, sym, ap, ◌∙◌, List, [], ◌∷◌,
  length, Result, Error, ok, err, ok-inj, ok-not-err, >>-eq-ok, ◌>>◌,
}
use mathlib.Core.Path.{subst}
use verilator_axi_testbench.Device.{Device}
use verilator_axi_testbench.Device.Loading.{LoadLaws, LoadContents}
use verilator_axi_testbench.Space.{AddressSpace}
use verilator_axi_testbench.Space.Sorted.{IsSorted}
use verilator_axi_testbench.Elf.{ElfSegment, ElfLoadResult, ParsedSegment, ParsedHeader}
use verilator_axi_testbench.Elf.Words.{IsBytes, word}
use verilator_axi_testbench.Elf.Header.{IsIdentified, HasTable, header_of, parse_header_iff}
use verilator_axi_testbench.Elf.Fields.{TableFits}
use verilator_axi_testbench.Elf.Table.{AreSegments, parse_load_segments-AreSegments}
use verilator_axi_testbench.Elf.Contents.{HasSegment, additions-HasSegment}
use verilator_axi_testbench.Elf.Overlap.{IsPairwise, IsDisjoint}
use verilator_axi_testbench.Elf.Segments.{parse_load_segments}
use verilator_axi_testbench.Elf.Loadable.{IsLoadable}
use verilator_axi_testbench.Elf.Apply.{IsChunk, apply-stored, store_chunks}
use verilator_axi_testbench.Elf.Image.{IsStored, apply-IsStored}
use verilator_axi_testbench.Elf.Plan.{
  Chunk, ImageLoadPlan, Outcome, empty_plan, public_segments, add_elf, apply, load_elf,
  check_chunks,
}
use verilator_axi_testbench.Elf.Accepted.{Accepted, add_elf-Accepted}

module _ {ℓ} {D : Type ℓ} ⦃ops : Device D⦄ (laws : LoadLaws D) (space : AddressSpace)
    (sorted : IsSorted 0 space.mappings) where
  -- What `load_elf` does once the image is accepted.
  abbrev finish : List D → ElfLoadResult → ImageLoadPlan → List D × Result ElfLoadResult
  finish devices result plan =
      let (devices', done) = apply space plan devices in (devices', done >> ok result)

  finish-failed :
      (devices devices' : List D) (result : ElfLoadResult) (plan : ImageLoadPlan) (thrown : Error)
      → Each IsChunk plan.chunks
      → finish devices result plan ≡ (devices', err thrown)
      → devices' ≡ devices
  finish-failed devices devices' result plan thrown whole e =
      go (check_chunks space devices [] plan.chunks) refl
    where
      spec :
          apply space plan devices
          ≡ elim (check_chunks space devices [] plan.chunks) as (λ r. Outcome D) [
            | err thrown ↦ (devices, err thrown)
            | ok done ↦ (store_chunks space plan.chunks devices, ok tt)
          ]
      spec = apply-stored space laws sorted plan devices whole

      go :
          (checked : Result (Unit {0}))
          → check_chunks space devices [] plan.chunks ≡ checked
          → devices' ≡ devices
      go (err t) h = sym (ap (λ p. p.0) e) ∙ ap (λ p. p.0) (rw h at spec)
      go (ok done) h =
          let passed : apply space plan devices ≡ (store_chunks space plan.chunks devices, ok tt) =
            rw h at spec in
          absurd
            (ok-not-err (sym (ap (λ p. p.1) e) ∙ ap (λ (p : Outcome D). p.1 >> ok result) passed))

  -- The end of a load that succeeds.
  finish-done :
      (devices devices' : List D) (result result' : ElfLoadResult) (plan : ImageLoadPlan)
      → finish devices result plan ≡ (devices', ok result')
      → (result' ≡ result) × (apply space plan devices ≡ (devices', ok tt))
  finish-done devices devices' result result' plan e =
      let (done, same) = >>-eq-ok (apply space plan devices).1 (ok result) (ap (λ p. p.1) e) in
      (sym (ok-inj same), λ i. (ap (λ p. p.0) e i, done i))

  -- A load of an ELF image that fails leaves every device as it was. The mappings are sorted and the
  -- devices keep the laws of loading.
  pub load_elf-failed :
      (image : List ℕ) (devices devices' : List D) (thrown : Error)
      → load_elf image space devices ≡ (devices', err thrown)
      → devices' ≡ devices
  unfolding load_elf
  load_elf-failed image devices devices' thrown e = go (add_elf space devices image empty_plan) refl
    where
      go :
          (added : Result (ElfLoadResult × ImageLoadPlan))
          → add_elf space devices image empty_plan ≡ added
          → devices' ≡ devices
      go (err e') h = sym (ap (λ p. p.0) (rw (load_elf, h) at e))
      go (ok (result, plan)) h =
          let (chunks, same, accepted) =
            add_elf-Accepted space devices image empty_plan plan result sorted h in
          let whole : Each IsChunk plan.chunks = rw same (accepted.7) in
          finish-failed devices devices' result plan thrown whole (rw (load_elf, h) at e)

  module _ (contents : LoadContents D) where
    -- What a load of an image leaves: the image has a well-formed header with its table of program
    -- headers; the segments are exactly those of the table that are to be loaded, and all are loadable,
    -- share no address and have their bytes in the devices; and they are returned with the entry point.
    abbrev pub IsLoaded : List ℕ → List D → List D → ElfLoadResult → Type ℓ
    IsLoaded image devices devices' result =
        (wide : Bool) × IsIdentified wide image
        × HasTable wide image
        × ((ss : List ParsedSegment) × AreSegments image (header_of wide image) 0
              (word image (if wide then 56 else 44) 2) ss
            × (result ≡ record {
              entry = word image 24 (if wide then 8 else 4);
              is_64_bit = wide;
              segments = map (λ s. s.public_segment) ss;
            })
            × Each (IsLoadable space devices (length image)) ss
            × IsPairwise IsDisjoint ss
            × Each (HasSegment laws contents space sorted devices' image) ss)

    public_segments-map :
        (ss : List ParsedSegment) → public_segments ss ≡ map (λ s. s.public_segment) ss
    public_segments-map [] = refl
    public_segments-map (s ∷ ss) = ap (λ t. s.public_segment ∷ t) (public_segments-map ss)

    stored-IsLoaded :
        (image : List ℕ) (devices devices' : List D) (result : ElfLoadResult) (chunks : List Chunk)
        → IsBytes image
        → length image ≤ u64_max
        → Accepted space devices image result chunks
        → Each (IsStored laws contents space sorted devices') chunks
        → IsLoaded image devices devices' result
    stored-IsLoaded image devices devices' result chunks bytes fits
          (header, ss, parsed, returned, loadable, apart, added, whole, found) stored =
        let (wide, identified, table, same) = (parse_header_iff image header bytes fits).0 parsed in
        let fields = header_of wide image in
        let found' : parse_load_segments space devices image fields ≡ ok ss =
          ap (λ h. parse_load_segments space devices image h) (sym same) ∙ found in
        let room : fields.program_header_count ≢ 0 → TableFits image fields =
          λ h. (table.4 h, table.5) in
        (
          wide,
          identified,
          table,
          (
            ss,
            parse_load_segments-AreSegments space devices image bytes fits fields room ss found',
            returned
                ∙ ap
                    (λ (h : ParsedHeader). record {
                      entry = h.entry;
                      is_64_bit = h.is_64_bit;
                      segments = public_segments ss;
                    })
                    same
                ∙ ap
                    (λ (t : List ElfSegment). record {
                      entry = fields.entry;
                      is_64_bit = wide;
                      segments = t;
                    })
                    (public_segments-map ss),
            loadable,
            apart,
            additions-HasSegment laws contents space sorted devices devices' image ss chunks
                loadable added stored,
          ),
        )

    -- After a load of an ELF image that succeeds, its header is well-formed, and its segments are exactly
    -- the program headers of type PT_LOAD that occupy memory, in the order of the table and with the
    -- little-endian fields at the offsets of its class; the load address is the physical address unless
    -- that is zero. No two share an address, the entry point and the segments are returned, and at the
    -- load address of every segment its device holds the bytes of the image at the segment's file
    -- offset, and a zero for each byte of its BSS. The image holds bytes and its size fits 64 bits, the
    -- mappings are sorted and the devices keep the laws of loading.
    pub load_elf-IsStored :
        (image : List ℕ) (devices devices' : List D) (result : ElfLoadResult)
        → IsBytes image
        → length image ≤ u64_max
        → load_elf image space devices ≡ (devices', ok result)
        → IsLoaded image devices devices' result
    unfolding load_elf
    load_elf-IsStored image devices devices' result bytes fits e =
        go (add_elf space devices image empty_plan) refl
      where
        go :
            (added : Result (ElfLoadResult × ImageLoadPlan))
            → add_elf space devices image empty_plan ≡ added
            → IsLoaded image devices devices' result
        go (err e') h = absurd (ok-not-err (ap (λ p. p.1) (rw (load_elf, h) at e)))
        go (ok (result', plan)) h =
            let (chunks, same, accepted) =
              add_elf-Accepted space devices image empty_plan plan result' sorted h in
            let (equal, done) =
              finish-done devices devices' result' result plan (rw (load_elf, h) at e) in
            let whole : Each IsChunk plan.chunks = rw same (accepted.7) in
            let stored =
              apply-IsStored laws contents space sorted plan devices devices' whole done in
            stored-IsLoaded image devices devices' result chunks bytes fits
              (subst (λ r. Accepted space devices image r chunks) (sym equal) accepted)
              (rw same at stored)
