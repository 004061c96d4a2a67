-- ===== src/Elf/Table.antt =====
-- The table of program headers of an image, and the segments that `parse_load_segments` of
-- src/elf_loader.cpp takes out of it.
use verilator_axi_testbench.Common.{
  ℕ, zero, suc, ◌+◌, ◌*◌, ◌<◌, ◌≤◌, ◌≡◌, ◌≢◌, ◌⊎◌, inl, inr, refl, sym, ◌∙◌, Bool, true, false,
  ◌!=◌, ◌==◌, if◌then◌else◌, List, [], ◌∷◌, Option, none, some, length, Result, ok, arith,
  Bool-cases, >>-eq-ok, >>=-eq-ok, u64_max, ◌>>=◌, ◌>>◌, ok-inj,
}
use mathlib.Core.Path.{subst}
use verilator_axi_testbench.Device.{Device}
use verilator_axi_testbench.Space.{AddressSpace}
use verilator_axi_testbench.Elf.{ParsedSegment, ParsedHeader, checked_add}
use verilator_axi_testbench.Elf.Words.{IsBytes, word}
use verilator_axi_testbench.Elf.Fields.{segment_at, TableFits, parse_program_header-fields}
use verilator_axi_testbench.Elf.Segments.{
  validate_load_target, check_segment, place_segment, accept_segment, push_segment,
  parse_program_header, parse_segments_from, parse_load_segments,
}

-- A segment has the fields read; its load address is the physical address unless that is zero.
pub record IsPlacedAt (read s : ParsedSegment) : Type 0 where
  pub fields :
      record s { public_segment = record s.public_segment { load_address = 0 } }
      ≡ record read { public_segment = record read.public_segment { load_address = 0 } }
  pub physical :
      read.public_segment.physical_address ≢ 0
      → s.public_segment.load_address ≡ read.public_segment.physical_address
  pub virtual_ :
      read.public_segment.physical_address ≡ 0
      → s.public_segment.load_address ≡ read.public_segment.virtual_address

module _ (image : List ℕ) (header : ParsedHeader) where
  -- Where the program header of an index stands.
  abbrev pub entry_at : ℕ → ℕ
  entry_at index = header.program_header_offset + index * header.program_header_size

  abbrev pub segment_of : ℕ → ParsedSegment
  segment_of index = segment_at header.is_64_bit image (entry_at index) index

  -- The segments of the `left` program headers from `index` on: each of type PT_LOAD (1) that occupies
  -- memory, in their order, and no other.
  pub data AreSegments : ℕ → ℕ → List ParsedSegment → Type 0 where
    table_end : {index : ℕ} → AreSegments index 0 []
    other_type :
        {index left : ℕ} {ss : List ParsedSegment}
        → word image (entry_at index) 4 ≢ 1
        → AreSegments (suc index) left ss
        → AreSegments index (suc left) ss
    no_memory :
        {index left : ℕ} {ss : List ParsedSegment}
        → (segment_of index).public_segment.memory_size ≡ 0
        → AreSegments (suc index) left ss
        → AreSegments index (suc left) ss
    load_segment :
        {index left : ℕ} {s : ParsedSegment} {ss : List ParsedSegment}
        → word image (entry_at index) 4 ≡ 1
        → (segment_of index).public_segment.memory_size ≢ 0
        → IsPlacedAt (segment_of index) s
        → AreSegments (suc index) left ss
        → AreSegments index (suc left) (s ∷ ss)

place_segment-IsPlacedAt : (read : ParsedSegment) → IsPlacedAt read (place_segment read)
unfolding place_segment
place_segment-IsPlacedAt read = record {
  fields = refl;
  physical = λ h. ground (arith, h);
  virtual_ = λ h. ground (arith, h);
}

module _ {ℓ} {D : Type ℓ} ⦃ops : Device D⦄ (space : AddressSpace) (devices : List D) where
  -- What `accept_segment` answers: the segment placed, unless it occupies no memory.
  abbrev Answer : ParsedSegment → Option ParsedSegment → Type 0
  Answer read none = read.public_segment.memory_size ≡ 0
  Answer read (some s) = (read.public_segment.memory_size ≢ 0) × IsPlacedAt read s

  accept_segment-Answer :
      (image_size : ℕ) (read : ParsedSegment) (answer : Option ParsedSegment)
      → accept_segment space devices image_size read ≡ ok answer
      → Answer read answer
  unfolding accept_segment place_segment
  accept_segment-Answer image_size read answer e =
      let p = place_segment read in
      let n = read.public_segment.memory_size in
      let last : Result (Option ParsedSegment) =
        if n == 0
        then ok none
        else validate_load_target space devices p.public_segment >> ok (some p) in
      let (checked, e1) =
        >>-eq-ok (check_segment image_size read)
          (checked_add p.public_segment.load_address n >>= λ total. last) e in
      let (total, added, e2) =
        >>=-eq-ok (checked_add p.public_segment.load_address n) (λ total. last) e1 in
      elim (answered (n == 0) (validate_load_target space devices p.public_segment) p e2) [
        | inl (empty, same) ↦ subst (Answer read) same (ground (arith, empty))
        | inr (full, same) ↦
            subst (Answer read) same ((λ h. ground (arith, full, h)), place_segment-IsPlacedAt read)
      ]
    where
      answered :
          (empty : Bool) (valid : Result (Unit {0})) (p : ParsedSegment)
          → (if empty then ok none else valid >> ok (some p)) ≡ ok answer
          → ((empty ≡ true) × (none ≡ answer)) ⊎ ((empty ≡ false) × (some p ≡ answer))
      answered true valid p h = inl (refl, ok-inj h)
      answered false valid p h = inr (refl, ok-inj (>>-eq-ok valid (ok (some p)) h).1)

  module _ (image : List ℕ) (bytes : IsBytes image) (fits : length image ≤ u64_max)
      (header : ParsedHeader)
      (table : header.program_header_count ≢ 0 → TableFits image header) where
    one_header :
        (index left : ℕ) (answer : Option ParsedSegment) (rest : List ParsedSegment)
        → index < header.program_header_count
        → parse_program_header space devices image header index ≡ ok answer
        → AreSegments image header (suc index) left rest
        → AreSegments image header index (suc left) (push_segment answer rest)
    one_header index left answer rest inside e others =
        let at = entry_at image header index in
        let read = segment_of image header index in
        let read_there =
          parse_program_header-fields image bytes fits space devices header index
            (table (omega arith)) inside in
        let answered = sym read_there ∙ e in
        elim (Bool-cases (word image at 4 != 1)) [
          | inl other ↦
              let same : ok none ≡ ok answer = simp other at answered in
              subst (λ a. AreSegments image header index (suc left) (push_segment a rest))
                (ok-inj same) (other_type (λ h. ground (arith, other, h)) others)
          | inr load ↦
              go answer (ground (arith, load))
                (accept_segment-Answer (length image) read answer (simp load at answered))
        ]
      where
        go :
            (a : Option ParsedSegment)
            → word image (entry_at image header index) 4 ≡ 1
            → Answer (segment_of image header index) a
            → AreSegments image header index (suc left) (push_segment a rest)
        go none type h = no_memory h others
        go (some s) type (occupies, placed) = load_segment type occupies placed others

    parse_segments_from-AreSegments :
        (index left : ℕ) (ss : List ParsedSegment)
        → index + left ≤ header.program_header_count
        → parse_segments_from space devices image header index left ≡ ok ss
        → AreSegments image header index left ss
    unfolding parse_segments_from
    parse_segments_from-AreSegments index zero ss h e =
        subst (AreSegments image header index 0) (ok-inj e) table_end
    parse_segments_from-AreSegments index (suc left) ss h e =
        let next : Option ParsedSegment → Result (List ParsedSegment) = λ segment.
          parse_segments_from space devices image header (suc index) left >>= λ rest.
          ok (push_segment segment rest) in
        let (segment, one, e1) =
          >>=-eq-ok (parse_program_header space devices image header index) next e in
        let (rest, others, e2) =
          >>=-eq-ok (parse_segments_from space devices image header (suc index) left)
            (λ rest. ok (push_segment segment rest)) e1 in
        subst (AreSegments image header index (suc left)) (ok-inj e2) (
          one_header index left segment rest (omega arith) one
            (parse_segments_from-AreSegments (suc index) left rest (omega arith) others))

    -- The segments that are accepted are those of the table.
    pub parse_load_segments-AreSegments :
        (ss : List ParsedSegment)
        → parse_load_segments space devices image header ≡ ok ss
        → AreSegments image header 0 header.program_header_count ss
    unfolding parse_load_segments
    parse_load_segments-AreSegments ss e =
        parse_segments_from-AreSegments 0 header.program_header_count ss (omega arith) e
