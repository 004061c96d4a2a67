-- ===== src/Elf/Tests.antt =====
-- The theorems on the loader of src/elf_loader.cpp at a 32-bit image with one segment of three file
-- bytes and three bytes of BSS.
use verilator_axi_testbench.Common.{
  Each, ℕ, ◌+◌, ◌*◌, ◌≡◌, ◌↔◌, inl, refl, Bool, true, false, ◌!=◌, if◌then◌else◌, List, [], ◌∷◌,
  none, length, all, ltb, zero, suc, ok, err, arith, elf_error, not_one_device,
}
use verilator_axi_testbench.Builtin.{
  Builtin, ram, is_memory, builtin_can_load, builtin_load, builtin_device,
}
use verilator_axi_testbench.Builtin.Loading.{builtin_laws, builtin_contents}
use verilator_axi_testbench.Uart.State.{BufferUartBackend, buffer_backend}
use verilator_axi_testbench.Space.{Mapping, AddressSpace}
use verilator_axi_testbench.Space.Sorted.{IsSorted}
use verilator_axi_testbench.Elf.{
  ElfSegment, ElfLoadResult, ParsedSegment, ParsedHeader, parse_header,
}
use verilator_axi_testbench.Elf.Plan.{Chunk, load_elf, apply, check_chunks}
use verilator_axi_testbench.Elf.Segments.{validate_no_overlap, parse_program_header, accept_segment}
use verilator_axi_testbench.Elf.Words.{IsBytes, word}
use verilator_axi_testbench.Elf.Header.{IsIdentified, HasTable, header_of, parse_header_iff}
use verilator_axi_testbench.Elf.Fields.{segment_at, parse_program_header-fields}
use verilator_axi_testbench.Elf.Overlap.{IsPairwise, IsDisjoint, validate_no_overlap_iff}
use verilator_axi_testbench.Elf.Apply.{IsChunk, store_chunks, apply-stored}
use verilator_axi_testbench.Elf.Load.{IsLoaded, load_elf-IsStored, load_elf-failed}
use verilator_axi_testbench.Elf.Store.{IsRange}

abbrev image : List ℕ
image =
    127 ∷ 69 ∷ 76 ∷ 70 ∷ 1 ∷ 1 ∷ 1 ∷ 0 ∷ 0 ∷ 0 ∷ 0 ∷ 0 ∷ 0 ∷ 0 ∷ 0 ∷ 0 ∷ 2 ∷ 0 ∷ 243 ∷ 0 ∷ 1 ∷ 0 ∷ 0
    ∷ 0 ∷ 4 ∷ 128 ∷ 0 ∷ 0 ∷ 52 ∷ 0 ∷ 0 ∷ 0 ∷ 0 ∷ 0 ∷ 0 ∷ 0 ∷ 0 ∷ 0 ∷ 0 ∷ 0 ∷ 52 ∷ 0 ∷ 32 ∷ 0 ∷ 1 ∷ 0
    ∷ 0 ∷ 0 ∷ 0 ∷ 0 ∷ 0 ∷ 0 ∷ 1 ∷ 0 ∷ 0 ∷ 0 ∷ 84 ∷ 0 ∷ 0 ∷ 0 ∷ 4 ∷ 128 ∷ 0 ∷ 0 ∷ 0 ∷ 0 ∷ 0 ∷ 0 ∷ 3
    ∷ 0 ∷ 0 ∷ 0 ∷ 6 ∷ 0 ∷ 0 ∷ 0 ∷ 5 ∷ 0 ∷ 0 ∷ 0 ∷ 1 ∷ 0 ∷ 0 ∷ 0 ∷ 11 ∷ 12 ∷ 13 ∷ []

abbrev main_memory : Mapping
main_memory = record { base = 0x8000; size = 16; device = 0; name = "ram" }

abbrev space : AddressSpace
space = record { mappings = main_memory ∷ []; frozen = false }

space-IsSorted : IsSorted 0 space.mappings
space-IsSorted = (omega arith, omega arith, omega arith, tt)

abbrev memory : List ℕ → List (Builtin BufferUartBackend)
memory bytes = ram (record { bytes = bytes; mapped = false }) ∷ []

abbrev ones : List ℕ
ones = 1 ∷ 1 ∷ 1 ∷ 1 ∷ 1 ∷ 1 ∷ 1 ∷ 1 ∷ 1 ∷ 1 ∷ 1 ∷ 1 ∷ 1 ∷ 1 ∷ 1 ∷ 1 ∷ []

abbrev ones_after : List ℕ
ones_after = 1 ∷ 1 ∷ 1 ∷ 1 ∷ 11 ∷ 12 ∷ 13 ∷ 0 ∷ 0 ∷ 0 ∷ 1 ∷ 1 ∷ 1 ∷ 1 ∷ 1 ∷ 1 ∷ []

abbrev segment : ElfSegment
segment = record {
  virtual_address = 0x8004;
  physical_address = 0;
  load_address = 0x8004;
  file_size = 3;
  memory_size = 6;
  flags = 5;
}

abbrev result : ElfLoadResult
result = record { entry = 0x8004; is_64_bit = false; segments = segment ∷ [] }

load_elf_run : load_elf image space (memory ones) ≡ (memory ones_after, ok result)
unfolding load_elf is_memory builtin_can_load builtin_load
load_elf_run = refl

load_elf_refused :
    load_elf image (record { mappings = []; frozen = false }) (memory ones)
    ≡ (memory ones, err (elf_error not_one_device))
unfolding load_elf is_memory builtin_can_load builtin_load
load_elf_refused = refl

abbrev Board : Type 0
Board = Builtin BufferUartBackend

load_elf-failed_example : memory ones ≡ memory ones
load_elf-failed_example =
    load_elf-failed builtin_laws (record { mappings = []; frozen = false }) tt image (memory ones)
      (memory ones) (elf_error not_one_device) load_elf_refused

all-IsBytes : (xs : List ℕ) → all (λ x. ltb x 0x100) xs ≡ true → IsBytes xs
all-IsBytes [] h i = omega arith
all-IsBytes (x ∷ xs) h zero = ground (arith, h)
all-IsBytes (x ∷ xs) h (suc i) = all-IsBytes xs (ground (arith, h)) i

image-IsBytes : IsBytes image
image-IsBytes = all-IsBytes image refl

load_elf-IsStored_example :
    IsLoaded {D = Board} builtin_laws space space-IsSorted builtin_contents image
      (memory ones)
      (memory ones_after)
      result
load_elf-IsStored_example =
    load_elf-IsStored builtin_laws space space-IsSorted builtin_contents image (memory ones)
      (memory ones_after) result image-IsBytes (omega arith) load_elf_run

abbrev header : ParsedHeader
header = record {
  entry = 0x8004;
  program_header_offset = 52;
  program_header_size = 32;
  program_header_count = 1;
  is_64_bit = false;
}

parse_header_iff_example : (parse_header image ≡ ok header) ↔ (
    (wide : Bool) × IsIdentified wide image × HasTable wide image × (header ≡ header_of wide image))
parse_header_iff_example = parse_header_iff image header image-IsBytes (omega arith)

parse_program_header-fields_example : parse_program_header space (memory ones) image header 0 ≡ (
    if word image (52 + 0 * 32) 4 != 1
    then ok none
    else accept_segment space (memory ones) (length image) (segment_at false image (52 + 0 * 32) 0))
parse_program_header-fields_example =
    parse_program_header-fields image image-IsBytes (omega arith) space (memory ones) header 0
      (omega arith, omega arith) (omega arith)

abbrev text : ParsedSegment
text = record {
  public_segment = segment;
  file_offset = 84;
  alignment = 1;
  program_header_index = 0;
}

abbrev tail : ParsedSegment
tail = record text { public_segment = record segment { load_address = 0x800a } }

validate_no_overlap_iff_example :
    (validate_no_overlap (tail ∷ text ∷ []) ≡ ok tt) ↔ IsPairwise IsDisjoint (tail ∷ text ∷ [])
validate_no_overlap_iff_example =
    validate_no_overlap_iff (tail ∷ text ∷ [])
      ((omega arith, omega arith), ((omega arith, omega arith), tt))

abbrev two_chunks : List Chunk
two_chunks =
    record { segment = segment; bytes = 11 ∷ 12 ∷ 13 ∷ [] }
    ∷ record { segment = tail.public_segment; bytes = 14 ∷ 15 ∷ 16 ∷ [] }
    ∷ []

two_chunks-IsChunk : Each IsChunk two_chunks
two_chunks-IsChunk =
    ((omega arith, omega arith, omega arith), ((omega arith, omega arith, omega arith), tt))

apply-stored_example :
    apply space (record { chunks = two_chunks }) (memory ones)
    ≡ elim (check_chunks space (memory ones) [] two_chunks) [
      | err thrown ↦ (memory ones, err thrown)
      | ok done ↦ (store_chunks space two_chunks (memory ones), ok tt)
    ]
apply-stored_example =
    apply-stored space builtin_laws space-IsSorted (record { chunks = two_chunks }) (memory ones)
      two_chunks-IsChunk

bss-IsRange :
    IsRange {D = Board} builtin_laws space space-IsSorted
      (memory ones)
      main_memory
      (ram (record { bytes = ones; mapped = false }))
      0x8007
      3
unfolding is_memory builtin_can_load
bss-IsRange = (inl refl, (omega arith, omega arith), refl, refl, refl)
