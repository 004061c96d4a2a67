-- ===== src/Elf.antt =====
-- The loader of ELF images in src/elf_loader.cpp: its records, the checked arithmetic and reads, and
-- `parse_header`. An image is a list of bytes. A message is its `ElfFault` alone; `description`, which
-- only the messages use, is dropped.
pub mod Segments
pub mod Plan
pub mod Words
pub mod Header
pub mod Overlap
pub mod Loadable
pub mod Fields
pub mod Table
pub mod Store
pub mod Apply
pub mod Alias
pub mod Image
pub mod Contents
pub mod Accepted
pub mod Load
mod Tests
use verilator_axi_testbench.Common.{
  ℕ, zero, suc, ◌+◌, ◌-◌, ◌*◌, ◌/◌, ◌%◌, ◌^◌, Bool, true, false, not, ◌==◌, ◌!=◌, ◌&&◌, ◌||◌, ltb,
  leb, if◌then◌else◌, List, Option, none, some, length, get_elem?, take, drop, Result, ok, err,
  elf_error, bad_index, throw_if, ◌>>=◌, ◌>>◌, add_u64, u64_mod, u64_max, bit_or, ◌<<<◌,
  out_of_bounds, overflows, not_an_image, unsupported_class, not_little_endian,
  unsupported_ident_version, unsupported_version, header_too_small, extended_count, entry_too_small,
}

pub record ElfSegment : Type 0 where
  pub virtual_address : ℕ
  pub physical_address : ℕ
  pub load_address : ℕ
  pub file_size : ℕ
  pub memory_size : ℕ
  pub flags : ℕ

pub record ElfLoadResult : Type 0 where
  pub entry : ℕ
  pub is_64_bit : Bool
  pub segments : List ElfSegment

pub record ParsedSegment : Type 0 where
  pub public_segment : ElfSegment
  pub file_offset : ℕ
  pub alignment : ℕ
  pub program_header_index : ℕ

pub record ParsedHeader : Type 0 where
  pub entry : ℕ
  pub program_header_offset : ℕ
  pub program_header_size : ℕ
  pub program_header_count : ℕ
  pub is_64_bit : Bool

unfoldable pub require_range : ℕ → ℕ → ℕ → Result (Unit {0})
require_range offset size capacity =
    throw_if (ltb capacity offset || ltb (capacity - offset) size) (elf_error out_of_bounds)

-- `image[index]`, which is undefined out of range.
unfoldable pub byte_at : List ℕ → ℕ → Result ℕ
byte_at image index = elim (get_elem? image index) [ none ↦ err bad_index | some b ↦ ok b ]

-- The loop of `read_little_endian`, with `left` bytes to go. `byte` is below 8 and `image[...]` below
-- 256, so that the shift loses no bit.
unfoldable pub little_endian : List ℕ → ℕ → ℕ → ℕ → ℕ → Result ℕ
unfolding byte_at
little_endian image offset byte zero value = ok value
little_endian image offset byte (suc left) value = do
  next ← byte_at image (add_u64 offset byte)
  little_endian image offset (suc byte) left (bit_or value (next <<< (byte * 8)))

-- `read_little_endian<Integer>`, where `width` is `sizeof(Integer)`.
unfoldable pub read_little_endian : ℕ → List ℕ → ℕ → Result ℕ
unfolding require_range little_endian
read_little_endian width image offset = do
  require_range offset width (length image)
  value ← little_endian image offset 0 width 0
  ok (value % 2 ^ (8 * width))

unfoldable pub checked_multiply : ℕ → ℕ → Result ℕ
checked_multiply lhs rhs = do
  throw_if (lhs != 0 && ltb (u64_max / lhs) rhs) (elf_error overflows)
  ok ((lhs * rhs) % u64_mod)

unfoldable pub checked_add : ℕ → ℕ → Result ℕ
checked_add lhs rhs = do
  throw_if (ltb (u64_max - lhs) rhs) (elf_error overflows)
  ok (add_u64 lhs rhs)

-- The checks of `parse_header` on the 16 bytes of the identification; the class is given.
unfoldable pub check_identification : List ℕ → Result Bool
unfolding require_range byte_at
check_identification image = do
  require_range 0 16 (length image)
  b0 ← byte_at image 0
  b1 ← byte_at image 1
  b2 ← byte_at image 2
  b3 ← byte_at image 3
  throw_if (b0 != 0x7f || b1 != 0x45 || b2 != 0x4c || b3 != 0x46) (elf_error not_an_image)
  elf_class ← byte_at image 4
  throw_if (elf_class != 1 && elf_class != 2) (elf_error unsupported_class)
  encoding ← byte_at image 5
  throw_if (encoding != 1) (elf_error not_little_endian)
  version ← byte_at image 6
  throw_if (version != 1) (elf_error unsupported_ident_version)
  ok (elf_class == 2)

-- The rest of `parse_header`, where `wide` is `is_64_bit`.
unfoldable pub parse_fields : Bool → List ℕ → Result ParsedHeader
unfolding require_range read_little_endian checked_multiply
parse_fields wide image = do
  require_range 0 (if wide then 64 else 52) (length image)
  version ← read_little_endian 4 image 20
  throw_if (version != 1) (elf_error unsupported_version)
  entry ← read_little_endian (if wide then 8 else 4) image 24
  offset ← read_little_endian (if wide then 8 else 4) image (if wide then 32 else 28)
  header_size ← read_little_endian 2 image (if wide then 52 else 40)
  entry_size ← read_little_endian 2 image (if wide then 54 else 42)
  count ← read_little_endian 2 image (if wide then 56 else 44)
  throw_if (ltb header_size (if wide then 64 else 52)) (elf_error header_too_small)
  throw_if (count == 0xffff) (elf_error extended_count)
  throw_if (count != 0 && ltb entry_size (if wide then 56 else 32)) (elf_error entry_too_small)
  table_size ← checked_multiply count entry_size
  require_range offset table_size (length image)
  ok (record {
    entry = entry;
    program_header_offset = offset;
    program_header_size = entry_size;
    program_header_count = count;
    is_64_bit = wide;
  })

unfoldable pub parse_header : List ℕ → Result ParsedHeader
unfolding check_identification parse_fields
parse_header image = do wide ← check_identification image; parse_fields wide image

-- `image.subspan(offset, count)`, which is undefined past the end.
unfoldable pub subspan : List ℕ → ℕ → ℕ → Result (List ℕ)
subspan image offset count =
    if leb (offset + count) (length image)
    then ok (take count (drop offset image))
    else err bad_index
