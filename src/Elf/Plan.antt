-- ===== src/Elf/Plan.antt =====
-- `ImageLoadPlan`, `apply_segment`, `load_elf` and `load_raw_image` of src/elf_loader.cpp. What stores
-- to devices gives the devices with its result, since a throw leaves the bytes that were stored.
use verilator_axi_testbench.Common.{
  ℕ, zero, suc, ◌-◌, min, Bool, ◌==◌, ◌!=◌, ◌&&◌, ltb, if◌then◌else◌, List, [], ◌∷◌, ◌++◌, Option,
  none, some, length, replicate, Result, ok, err, elf_error, bad_index, throw_if, ◌>>=◌, ◌>>◌,
  add_u64, sub_u64, ElfFault, data_rejected, bss_rejected, overlaps_range,
}
use verilator_axi_testbench.Axi.{Response, response_is_success}
use verilator_axi_testbench.Device.{Device}
use verilator_axi_testbench.Space.{Mapping, AddressSpace, resolve, space_load}
use verilator_axi_testbench.Elf.{
  ElfSegment, ElfLoadResult, ParsedSegment, parse_header, checked_add, subspan,
}
use verilator_axi_testbench.Elf.Segments.{
  validate_load_target, parse_load_segments, validate_no_overlap,
}

-- `ImageLoadPlan::Chunk`
pub record Chunk : Type 0 where
  pub segment : ElfSegment
  pub bytes : List ℕ

pub record ImageLoadPlan : Type 0 where
  pub chunks : List Chunk

abbrev pub empty_plan : ImageLoadPlan
empty_plan = record { chunks = [] }

-- The devices after a statement, and whether it threw.
abbrev pub Outcome {ℓ} : Type ℓ → Type ℓ
Outcome D = List D × Result (Unit {0})

infixl 5 ◌then_do◌
abbrev pub ◌then_do◌ {ℓ} : {D : Type ℓ} → Outcome D → (List D → Outcome D) → Outcome D
(devices, err thrown) then_do next = (devices, err thrown)
(devices, ok done) then_do next = next devices

abbrev pub judge {ℓ} : {D : Type ℓ} → List D → ElfFault → Result (Response × List D) → Outcome D
judge devices fault (err thrown) = (devices, err thrown)
judge devices fault (ok (response, devices')) =
    if response_is_success response then (devices', ok tt) else (devices', err (elf_error fault))

-- `{info.file_size, info.memory_size}` of each segment with its file bytes.
unfoldable pub chunk_of : List ℕ → ParsedSegment → Result Chunk
unfolding subspan
chunk_of image s = do
  bytes ← subspan image s.file_offset s.public_segment.file_size
  ok (record { segment = s.public_segment; bytes = bytes })

unfoldable pub additions : List ℕ → List ParsedSegment → Result (List Chunk)
unfolding chunk_of
additions image [] = ok []
additions image (s ∷ ss) = do chunk ← chunk_of image s; rest ← additions image ss; ok (chunk ∷ rest)

abbrev pub public_segments : List ParsedSegment → List ElfSegment
public_segments [] = []
public_segments (s ∷ ss) = s.public_segment ∷ public_segments ss

abbrev pub raw_segment : ℕ → ℕ → ElfSegment
raw_segment address size = record {
  virtual_address = 0;
  physical_address = 0;
  load_address = address;
  file_size = size;
  memory_size = size;
  flags = 0;
}

-- `mb->base`, where `mb` may be null.
abbrev pub mapping_at : Option Mapping → Result Mapping
mapping_at none = err bad_index
mapping_at (some m) = ok m

-- The test on two chunks in `apply`.
unfoldable pub aliased : Mapping → ElfSegment → Mapping → ElfSegment → Bool
aliased ma a mb b =
    let ao = sub_u64 a.load_address ma.base in
    let bo = sub_u64 b.load_address mb.base in
    ma.device == mb.device && ltb ao (add_u64 bo b.memory_size) && ltb bo (add_u64 ao a.memory_size)

-- The inner loop of `apply`, over the chunks before `a`.
unfoldable pub check_earlier :
    AddressSpace → ElfSegment → Option Mapping → List Chunk → Result (Unit {0})
unfolding resolve aliased
check_earlier space a ma [] = ok tt
check_earlier space a ma (b ∷ bs) = do
  m ← mapping_at ma
  n ← mapping_at (resolve space b.segment.load_address b.segment.memory_size)
  throw_if (aliased m a n b.segment) (elf_error overlaps_range)
  check_earlier space a ma bs

module _ {ℓ} {D : Type ℓ} ⦃ops : Device D⦄ where
  -- The `while` loop of `apply_segment`. Each turn clears at least one byte, so `remaining` turns do.
  unfoldable pub zero_fill : ℕ → AddressSpace → List D → ℕ → ℕ → Outcome D
  unfolding space_load
  zero_fill zero space devices address remaining = (devices, ok tt)
  zero_fill (suc fuel) space devices address remaining =
      let count = min remaining 4096 in
      let turn =
        judge devices bss_rejected (space_load space devices address (replicate count 0))
        then_do λ devices'.
            zero_fill fuel space devices' (add_u64 address count) (remaining - count) in
      if remaining == 0 then (devices, ok tt) else turn

  unfoldable pub store_file_bytes : AddressSpace → List D → ℕ → Result (List ℕ) → Outcome D
  unfolding space_load
  store_file_bytes space devices address (err thrown) = (devices, err thrown)
  store_file_bytes space devices address (ok bytes) =
      judge devices data_rejected (space_load space devices address bytes)

  unfoldable pub apply_segment : List ℕ → ℕ → ElfSegment → AddressSpace → List D → Outcome D
  unfolding store_file_bytes zero_fill subspan
  apply_segment image file_offset info space devices =
      let remaining = sub_u64 info.memory_size info.file_size in
      (if info.file_size != 0
        then store_file_bytes space devices info.load_address
            (subspan image file_offset info.file_size)
        else (devices, ok tt))
      then_do λ devices'.
          zero_fill remaining space devices' (add_u64 info.load_address info.file_size) remaining

  -- The outer loop of `apply`: `seen` are the chunks before.
  unfoldable pub check_chunks : AddressSpace → List D → List Chunk → List Chunk → Result (Unit {0})
  unfolding validate_load_target resolve check_earlier
  check_chunks space devices seen [] = ok tt
  check_chunks space devices seen (a ∷ chunks) = do
    validate_load_target space devices a.segment
    check_earlier space a.segment (resolve space a.segment.load_address a.segment.memory_size) seen
    check_chunks space devices (seen ++ a ∷ []) chunks

  unfoldable pub apply_chunks : AddressSpace → List Chunk → List D → Outcome D
  unfolding apply_segment
  apply_chunks space [] devices = (devices, ok tt)
  apply_chunks space (c ∷ cs) devices =
      apply_segment c.bytes 0 c.segment space devices then_do λ devices'.
      apply_chunks space cs devices'

  -- `ImageLoadPlan::apply`
  unfoldable pub apply : AddressSpace → ImageLoadPlan → List D → Outcome D
  unfolding check_chunks apply_chunks
  apply space plan devices = elim (check_chunks space devices [] plan.chunks) [
    | err thrown ↦ (devices, err thrown)
    | ok done ↦ apply_chunks space plan.chunks devices
  ]

  -- `ImageLoadPlan::add_elf` of an image in memory.
  unfoldable pub add_elf :
      AddressSpace → List D → List ℕ → ImageLoadPlan → Result (ElfLoadResult × ImageLoadPlan)
  unfolding parse_header parse_load_segments validate_no_overlap additions
  add_elf space devices image plan = do
    header ← parse_header image
    segments ← parse_load_segments space devices image header
    validate_no_overlap segments
    new ← additions image segments
    ok (
      record {
        entry = header.entry;
        is_64_bit = header.is_64_bit;
        segments = public_segments segments;
      },
      record { chunks = plan.chunks ++ new },
    )

  -- `ImageLoadPlan::add_raw` of bytes in memory.
  unfoldable pub add_raw : AddressSpace → List D → List ℕ → ℕ → ImageLoadPlan → Result ImageLoadPlan
  unfolding checked_add validate_load_target
  add_raw space devices [] address plan = ok plan
  add_raw space devices (b ∷ image) address plan =
      let segment = raw_segment address (length (b ∷ image)) in
      do
        _ ← checked_add address (length (b ∷ image))
        validate_load_target space devices segment
        ok (record { chunks = plan.chunks ++ record { segment = segment; bytes = b ∷ image } ∷ [] })

  unfoldable pub load_elf : List ℕ → AddressSpace → List D → List D × Result ElfLoadResult
  unfolding add_elf apply
  load_elf image space devices = elim (add_elf space devices image empty_plan) [
    | err thrown ↦ (devices, err thrown)
    | ok (result, plan) ↦
        let (devices', done) = apply space plan devices in (devices', done >> ok result)
  ]

  unfoldable pub load_raw_image : List ℕ → AddressSpace → ℕ → List D → Outcome D
  unfolding add_raw apply
  load_raw_image image space address devices =
      elim (add_raw space devices image address empty_plan) [
        | err thrown ↦ (devices, err thrown)
        | ok plan ↦ apply space plan devices
      ]
