-- ===== src/Elf/Fields.antt =====
-- `parse_program_header` of src/elf_loader.cpp under a header that `parse_header` has accepted.
use verilator_axi_testbench.Common.{
  ℕ, suc, ◌+◌, ◌*◌, ◌<◌, ◌≤◌, ◌≡◌, Bool, true, false, ◌!=◌, leb, if◌then◌else◌, List, none, length,
  ok, arith, add_u64, u64_max,
}
use native.Mathlib.Nat.{mod-eq_of_lt, mul-le-mul_right}
use verilator_axi_testbench.Device.{Device}
use verilator_axi_testbench.Space.{AddressSpace}
use verilator_axi_testbench.Elf.{ParsedSegment, ParsedHeader, read_little_endian}
use verilator_axi_testbench.Elf.Words.{
  IsBytes, word, read_little_endian-word, checked_add-exact, checked_multiply-exact,
}
use verilator_axi_testbench.Elf.Segments.{read_segment, accept_segment, parse_program_header}

-- The fields as the ELF layout places them, the load address not yet chosen.
abbrev pub segment_at : Bool → List ℕ → ℕ → ℕ → ParsedSegment
segment_at wide image at index = record {
  public_segment = record {
    virtual_address = if wide then word image (at + 16) 8 else word image (at + 8) 4;
    physical_address = if wide then word image (at + 24) 8 else word image (at + 12) 4;
    load_address = 0;
    file_size = if wide then word image (at + 32) 8 else word image (at + 16) 4;
    memory_size = if wide then word image (at + 40) 8 else word image (at + 20) 4;
    flags = if wide then word image (at + 4) 4 else word image (at + 24) 4;
  };
  file_offset = if wide then word image (at + 8) 8 else word image (at + 4) 4;
  alignment = if wide then word image (at + 48) 8 else word image (at + 28) 4;
  program_header_index = index;
}

abbrev pub entry_bytes : Bool → ℕ
entry_bytes wide = if wide then 56 else 32

-- The table of a header lies in the image, with entries that hold all fields.
abbrev pub TableFits : List ℕ → ParsedHeader → Type 0
TableFits image header =
    (entry_bytes header.is_64_bit ≤ header.program_header_size)
    × (header.program_header_offset + header.program_header_count * header.program_header_size
        ≤ length image)

module _ (image : List ℕ) (bytes : IsBytes image) (fits : length image ≤ u64_max) where
  -- A field `by` bytes into an entry.
  field_at :
      (width at by : ℕ)
      → at + by + width ≤ length image
      → read_little_endian width image (add_u64 at by) ≡ ok (word image (at + by) width)
  field_at width at by h =
      let exact : add_u64 at by ≡ at + by = mod-eq_of_lt (omega arith) in
      let inside : leb (at + by + width) (length image) ≡ true = ground arith in
      rw (exact, read_little_endian-word width image (at + by) bytes fits, inside)

  read_segment-fields :
      (wide : Bool) (at index : ℕ)
      → at + entry_bytes wide ≤ length image
      → read_segment wide image at index ≡ ok (segment_at wide image at index)
  unfolding read_segment
  read_segment-fields true at index h = rw (
    field_at 4 at 4 (omega arith),
    field_at 8 at 8 (omega arith),
    field_at 8 at 16 (omega arith),
    field_at 8 at 24 (omega arith),
    field_at 8 at 32 (omega arith),
    field_at 8 at 40 (omega arith),
    field_at 8 at 48 (omega arith),
  )
  read_segment-fields false at index h = rw (
    field_at 4 at 4 (omega arith),
    field_at 4 at 8 (omega arith),
    field_at 4 at 12 (omega arith),
    field_at 4 at 16 (omega arith),
    field_at 4 at 20 (omega arith),
    field_at 4 at 24 (omega arith),
    field_at 4 at 28 (omega arith),
  )

  module _ {ℓ} {D : Type ℓ} ⦃ops : Device D⦄ (space : AddressSpace) (devices : List D) where
    -- Where the table of program headers lies in the image, no field of a program header is read out of
    -- bounds: a header of another type than PT_LOAD is passed over, and any other goes on to the checks
    -- with the little-endian numbers at the offsets of its class. The image holds bytes, its size fits
    -- 64 bits, and the index is below the count.
    pub parse_program_header-fields :
        (header : ParsedHeader) (index : ℕ)
        → TableFits image header
        → index < header.program_header_count
        → let at = header.program_header_offset + index * header.program_header_size in
          parse_program_header space devices image header index ≡ (
            if word image at 4 != 1
            then ok none
            else accept_segment space devices
                (length image)
                (segment_at header.is_64_bit image at index))
    unfolding parse_program_header
    parse_program_header-fields header index (room, table) inside =
        let size = header.program_header_size in
        let at = header.program_header_offset + index * size in
        let entry : suc index * size ≤ header.program_header_count * size =
          mul-le-mul_right size inside in
        let within : at + size ≤ length image = omega arith in
        let least : 32 ≤ entry_bytes header.is_64_bit = ground arith in
        let scaled : leb (index * size) u64_max ≡ true = ground (arith, within, fits) in
        let placed : leb at u64_max ≡ true = ground (arith, within, fits) in
        let typed : leb (at + 4) (length image) ≡ true = ground (arith, within, least, room) in
        let multiplied = checked_multiply-exact index size in
        let added = checked_add-exact header.program_header_offset (index * size) (omega arith) in
        rw (
          multiplied,
          scaled,
          added,
          placed,
          read_little_endian-word 4 image at bytes fits,
          typed,
          read_segment-fields header.is_64_bit at index (omega arith),
        )
