-- ===== src/Elf/Segments.antt =====
-- The loadable segments of an image in src/elf_loader.cpp: `parse_program_header`,
-- `parse_load_segments`, `validate_load_target` and `validate_no_overlap`.
use verilator_axi_testbench.Common.{
  ℕ, zero, suc, ◌-◌, ◌%◌, Bool, true, false, not, ◌==◌, ◌!=◌, ◌&&◌, ltb, leb, if◌then◌else◌, List,
  [], ◌∷◌, Option, none, some, length, get_elem?, Result, ok, err, elf_error, throw_if, ◌>>=◌, ◌>>◌,
  add_u64, sub_u64, bit_and, file_exceeds_memory, bad_alignment, incongruent, not_one_device,
  not_loadable, exceeds_device, overlaps_segment,
}
use verilator_axi_testbench.Device.{Device}
use verilator_axi_testbench.Space.{Mapping, AddressSpace, resolve, device_at}
use verilator_axi_testbench.Elf.{
  ElfSegment, ParsedSegment, ParsedHeader, require_range, read_little_endian, checked_multiply,
  checked_add,
}

-- The fields of a program header that starts at `offset`, by the two layouts.
unfoldable pub read_segment : Bool → List ℕ → ℕ → ℕ → Result ParsedSegment
unfolding read_little_endian
read_segment true image offset index = do
  flags ← read_little_endian 4 image (add_u64 offset 4)
  file_offset ← read_little_endian 8 image (add_u64 offset 8)
  virtual_address ← read_little_endian 8 image (add_u64 offset 16)
  physical_address ← read_little_endian 8 image (add_u64 offset 24)
  file_size ← read_little_endian 8 image (add_u64 offset 32)
  memory_size ← read_little_endian 8 image (add_u64 offset 40)
  alignment ← read_little_endian 8 image (add_u64 offset 48)
  ok (record {
    public_segment = record {
      virtual_address = virtual_address;
      physical_address = physical_address;
      load_address = 0;
      file_size = file_size;
      memory_size = memory_size;
      flags = flags;
    };
    file_offset = file_offset;
    alignment = alignment;
    program_header_index = index;
  })
read_segment false image offset index = do
  file_offset ← read_little_endian 4 image (add_u64 offset 4)
  virtual_address ← read_little_endian 4 image (add_u64 offset 8)
  physical_address ← read_little_endian 4 image (add_u64 offset 12)
  file_size ← read_little_endian 4 image (add_u64 offset 16)
  memory_size ← read_little_endian 4 image (add_u64 offset 20)
  flags ← read_little_endian 4 image (add_u64 offset 24)
  alignment ← read_little_endian 4 image (add_u64 offset 28)
  ok (record {
    public_segment = record {
      virtual_address = virtual_address;
      physical_address = physical_address;
      load_address = 0;
      file_size = file_size;
      memory_size = memory_size;
      flags = flags;
    };
    file_offset = file_offset;
    alignment = alignment;
    program_header_index = index;
  })

-- The checks on the fields.
unfoldable pub check_segment : ℕ → ParsedSegment → Result (Unit {0})
unfolding require_range
check_segment image_size s = do
  throw_if (ltb s.public_segment.memory_size s.public_segment.file_size)
      (elf_error file_exceeds_memory)
  require_range s.file_offset s.public_segment.file_size image_size
  throw_if (ltb 1 s.alignment && bit_and s.alignment (s.alignment - 1) != 0)
      (elf_error bad_alignment)
  throw_if
      (ltb 1 s.alignment
        && s.public_segment.virtual_address % s.alignment != s.file_offset % s.alignment)
      (elf_error incongruent)

-- `p_paddr` is the bus address unless it is zero.
unfoldable pub place_segment : ParsedSegment → ParsedSegment
place_segment s = record s {
  public_segment = record s.public_segment {
    load_address =
        if s.public_segment.physical_address != 0
        then s.public_segment.physical_address
        else s.public_segment.virtual_address;
  };
}

abbrev pub push_segment : Option ParsedSegment → List ParsedSegment → List ParsedSegment
push_segment none segments = segments
push_segment (some s) segments = s ∷ segments

module _ {ℓ} {D : Type ℓ} ⦃ops : Device D⦄ where
  unfoldable pub check_target : List D → ElfSegment → Option Mapping → Result (Unit {0})
  check_target devices segment none = err (elf_error not_one_device)
  check_target devices segment (some m) = do
    d ← device_at (get_elem? devices m.device)
    throw_if (not (ops.loadable d)) (elf_error not_loadable)
    throw_if (not (ops.can_load d (sub_u64 segment.load_address m.base) segment.memory_size))
        (elf_error exceeds_device)

  unfoldable pub validate_load_target : AddressSpace → List D → ElfSegment → Result (Unit {0})
  unfolding check_target resolve
  validate_load_target space devices segment =
      check_target devices segment (resolve space segment.load_address segment.memory_size)

  -- What `parse_program_header` does with a segment that it has read.
  unfoldable pub accept_segment :
      AddressSpace → List D → ℕ → ParsedSegment → Result (Option ParsedSegment)
  unfolding check_segment place_segment validate_load_target checked_add
  accept_segment space devices image_size read =
      let s = place_segment read in
      do
        check_segment image_size read
        _ ← checked_add s.public_segment.load_address s.public_segment.memory_size
        (if s.public_segment.memory_size == 0
            then ok none
            else do validate_load_target space devices s.public_segment; ok (some s))

  unfoldable pub parse_program_header :
      AddressSpace → List D → List ℕ → ParsedHeader → ℕ → Result (Option ParsedSegment)
  unfolding accept_segment read_segment read_little_endian checked_add checked_multiply
  parse_program_header space devices image header index = do
    entry ← checked_multiply index header.program_header_size
    offset ← checked_add header.program_header_offset entry
    type ← read_little_endian 4 image offset
    (if type != 1 then ok none else do
      read ← read_segment header.is_64_bit image offset index
      accept_segment space devices (length image) read)

  -- The loop of `parse_load_segments` from `index` on, with `left` program headers to go.
  unfoldable pub parse_segments_from :
      AddressSpace → List D → List ℕ → ParsedHeader → ℕ → ℕ → Result (List ParsedSegment)
  unfolding parse_program_header
  parse_segments_from space devices image header index zero = ok []
  parse_segments_from space devices image header index (suc left) = do
    segment ← parse_program_header space devices image header index
    rest ← parse_segments_from space devices image header (suc index) left
    ok (push_segment segment rest)

  unfoldable pub parse_load_segments :
      AddressSpace → List D → List ℕ → ParsedHeader → Result (List ParsedSegment)
  unfolding parse_segments_from
  parse_load_segments space devices image header =
      parse_segments_from space devices image header 0 header.program_header_count

-- `std::ranges::sort` by load address, of the segments in place of their indices. It need not be
-- stable, but two segments at one address overlap in either order.
unfoldable pub insert_segment : ParsedSegment → List ParsedSegment → List ParsedSegment
insert_segment s [] = s ∷ []
insert_segment s (x ∷ xs) =
    let rest = x ∷ insert_segment s xs in
    if leb s.public_segment.load_address x.public_segment.load_address then s ∷ x ∷ xs else rest

unfoldable pub sort_segments : List ParsedSegment → List ParsedSegment
unfolding insert_segment
sort_segments [] = []
sort_segments (s ∷ ss) = insert_segment s (sort_segments ss)

unfoldable pub check_adjacent : List ParsedSegment → Result (Unit {0})
check_adjacent [] = ok tt
check_adjacent (previous ∷ []) = ok tt
check_adjacent (previous ∷ current ∷ rest) = do
  throw_if
      (ltb current.public_segment.load_address
        (add_u64 previous.public_segment.load_address previous.public_segment.memory_size))
      (elf_error overlaps_segment)
  check_adjacent (current ∷ rest)

unfoldable pub validate_no_overlap : List ParsedSegment → Result (Unit {0})
unfolding check_adjacent sort_segments
validate_no_overlap segments = check_adjacent (sort_segments segments)
