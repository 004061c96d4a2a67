-- ===== src/Elf/Loadable.antt =====
-- What the checks on a segment in src/elf_loader.cpp establish.
use verilator_axi_testbench.Common.{
  Each, ℕ, zero, suc, ◌+◌, ◌-◌, ◌%◌, ◌<◌, ◌≤◌, ◌≡◌, ◌↔◌, inl, inr, sym, ap, ◌∙◌, Bool, true, false,
  ◌!=◌, ◌==◌, if◌then◌else◌, List, Option, none, some, length, get_elem?, Result, ok, arith,
  Option-cases, >>-eq-ok, >>=-eq-ok, sub_u64, u64_max, ◌>>=◌, ◌>>◌, ok-inj,
}
use mathlib.Core.Path.{subst}
use verilator_axi_testbench.Device.{Device}
use verilator_axi_testbench.Space.{Mapping, AddressSpace, resolve}
use verilator_axi_testbench.Space.Sorted.{IsSorted, IsIn}
use verilator_axi_testbench.Space.Resolve.{Holds, resolve_iff}
use verilator_axi_testbench.Elf.{
  ElfSegment, ParsedSegment, ParsedHeader, require_range, checked_add, checked_multiply,
  read_little_endian,
}
use verilator_axi_testbench.Elf.Overlap.{IsPlaced}
use verilator_axi_testbench.Elf.Segments.{
  check_target, validate_load_target, check_segment, place_segment, accept_segment, push_segment,
  read_segment, parse_program_header, parse_segments_from, parse_load_segments,
}

module _ {ℓ} {D : Type ℓ} ⦃ops : Device D⦄ (space : AddressSpace) (devices : List D) where
  -- A mapping of a loadable device holds the range of a segment, and the device takes it.
  abbrev pub IsTarget : ElfSegment → Mapping → D → Type ℓ
  IsTarget segment m d =
      IsIn m space.mappings
      × (0 < segment.memory_size)
      × Holds m segment.load_address segment.memory_size
      × (get_elem? devices m.device ≡ some d)
      × (ops.loadable d ≡ true)
      × (ops.can_load d (segment.load_address - m.base) segment.memory_size ≡ true)

  device_checks :
      (segment : ElfSegment) (m : Mapping)
      → check_target devices segment (some m) ≡ ok tt
      → (d : D) × (get_elem? devices m.device ≡ some d)
        × (ops.loadable d ≡ true)
        × (ops.can_load d (sub_u64 segment.load_address m.base) segment.memory_size ≡ true)
  unfolding check_target
  device_checks segment m e = elim (Option-cases (get_elem? devices m.device)) [
    | inl missing ↦ absurd (ground (arith, e, missing))
    | inr (d, found) ↦ (d, found, ground (arith, e, found), ground (arith, e, found))
  ]

  -- A load target is accepted exactly when one mapping holds the whole range and its device takes it.
  pub validate_load_target_iff :
      (segment : ElfSegment)
      → IsSorted 0 space.mappings
      → segment.load_address ≤ u64_max
      → (validate_load_target space devices segment ≡ ok tt)
        ↔ ((m : Mapping) × (d : D) × IsTarget segment m d)
  unfolding validate_load_target check_target
  validate_load_target_iff segment sorted fits = (to, from)
    where
      a : ℕ
      a = segment.load_address

      n : ℕ
      n = segment.memory_size

      offset : (m : Mapping) → m.base ≤ a → sub_u64 a m.base ≡ a - m.base
      offset m h = omega arith

      to :
          check_target devices segment (resolve space a n) ≡ ok tt
          → (m : Mapping) × (d : D) × IsTarget segment m d
      to e = elim (Option-cases (resolve space a n)) [
        | inl missing ↦ absurd (ground (arith, e, missing))
        | inr (m, found) ↦
            let (inside, some_bytes, held) = (resolve_iff space a n m sorted).0 found in
            let (d, at, loads, can) =
              device_checks segment m (ap (check_target devices segment) (sym found) ∙ e) in
            (
              m,
              d,
              (
                inside,
                some_bytes,
                held,
                at,
                loads,
                ap (λ k. ops.can_load d k n) (sym (offset m held.0)) ∙ can,
              ),
            )
      ]

      from :
          (m : Mapping) × (d : D) × IsTarget segment m d
          → check_target devices segment (resolve space a n) ≡ ok tt
      from (m, d, (inside, some_bytes, held, at, loads, can)) = rw (
        (resolve_iff space a n m sorted).1 (inside, some_bytes, held),
        at,
        loads,
        offset m held.0,
        can,
      )

  -- A segment of an image that may be stored.
  abbrev pub IsLoadable : ℕ → ParsedSegment → Type ℓ
  IsLoadable image_size s =
      IsPlaced s
      × (s.public_segment.file_size ≤ s.public_segment.memory_size)
      × (s.file_offset + s.public_segment.file_size ≤ image_size)
      × (1 < s.alignment
          → s.public_segment.virtual_address % s.alignment ≡ s.file_offset % s.alignment)
      × ((m : Mapping) × (d : D) × IsTarget s.public_segment m d)

  check_segment-ok :
      (image_size : ℕ) (s : ParsedSegment)
      → check_segment image_size s ≡ ok tt
      → (s.public_segment.file_size ≤ s.public_segment.memory_size)
        × (s.file_offset + s.public_segment.file_size ≤ image_size)
        × (1 < s.alignment
            → s.public_segment.virtual_address % s.alignment ≡ s.file_offset % s.alignment)
  unfolding check_segment require_range
  check_segment-ok image_size s e =
      (ground (arith, e), ground (arith, e), λ h. ground (arith, e, h))

  placed_end : (a n : ℕ) {total : ℕ} → checked_add a n ≡ ok total → 0 < n → (a + n ≤ u64_max)
  unfolding checked_add
  placed_end a n e h = ground (arith, e, h)

  -- The result of the last steps of `accept_segment`.
  kept :
      (empty : Bool) (valid : Result (Unit {0})) (p s : ParsedSegment)
      → (if empty then ok none else valid >> ok (some p)) ≡ ok (some s)
      → (empty ≡ false) × (valid ≡ ok tt) × (p ≡ s)
  kept empty valid p s e = ground (arith, e)

  accept_segment-IsLoadable :
      (image_size : ℕ) (read s : ParsedSegment)
      → IsSorted 0 space.mappings
      → accept_segment space devices image_size read ≡ ok (some s)
      → IsLoadable image_size s
  unfolding accept_segment place_segment
  accept_segment-IsLoadable image_size read s sorted e =
      let p = place_segment read in
      let n = p.public_segment.memory_size in
      let last : Result (Option ParsedSegment) =
        if n == 0
        then ok none
        else validate_load_target space devices p.public_segment >> ok (some p) in
      let (checked, e1) =
        >>-eq-ok (check_segment image_size read)
          (checked_add p.public_segment.load_address n >>= λ total. last) e in
      let (total, added, e2) =
        >>=-eq-ok (checked_add p.public_segment.load_address n) (λ total. last) e1 in
      let (nonempty, valid, same) =
        kept (n == 0) (validate_load_target space devices p.public_segment) p s e2 in
      let some_bytes : 0 < n = ground (arith, nonempty) in
      let ends = placed_end p.public_segment.load_address n added some_bytes in
      let (inside, room, congruent) = check_segment-ok image_size read checked in
      let target = (validate_load_target_iff p.public_segment sorted (omega arith)).0 valid in
      subst (IsLoadable image_size) same ((some_bytes, ends), inside, room, congruent, target)

  parse_program_header-IsLoadable :
      (image : List ℕ) (header : ParsedHeader) (index : ℕ) (s : ParsedSegment)
      → IsSorted 0 space.mappings
      → parse_program_header space devices image header index ≡ ok (some s)
      → IsLoadable (length image) s
  unfolding parse_program_header
  parse_program_header-IsLoadable image header index s sorted e =
      let accept : ParsedSegment → Result (Option ParsedSegment) =
        λ read. accept_segment space devices (length image) read in
      let load : ℕ → Result (Option ParsedSegment) =
        λ offset. read_segment header.is_64_bit image offset index >>= accept in
      let by_type : ℕ → ℕ → Result (Option ParsedSegment) =
        λ offset type. if type != 1 then ok none else load offset in
      let (entry, multiplied, e1) =
        >>=-eq-ok (checked_multiply index header.program_header_size)
          (λ entry. checked_add header.program_header_offset entry >>= λ offset.
            read_little_endian 4 image offset >>= by_type offset)
          e in
      let (offset, added, e2) =
        >>=-eq-ok (checked_add header.program_header_offset entry)
          (λ offset. read_little_endian 4 image offset >>= by_type offset) e1 in
      let (type, got, e3) = >>=-eq-ok (read_little_endian 4 image offset) (by_type offset) e2 in
      let loaded : load offset ≡ ok (some s) = is_load (type != 1) (load offset) s e3 in
      let (read, fields, e4) =
        >>=-eq-ok (read_segment header.is_64_bit image offset index) accept loaded in
      accept_segment-IsLoadable (length image) read s sorted e4
    where
      is_load :
          (other : Bool) (m : Result (Option ParsedSegment)) (s : ParsedSegment)
          → (if other then ok none else m) ≡ ok (some s)
          → m ≡ ok (some s)
      is_load other m s e = ground (arith, e)

  parse_segments_from-IsLoadable :
      (image : List ℕ) (header : ParsedHeader) (index left : ℕ) (ss : List ParsedSegment)
      → IsSorted 0 space.mappings
      → parse_segments_from space devices image header index left ≡ ok ss
      → Each (IsLoadable (length image)) ss
  unfolding parse_segments_from
  parse_segments_from-IsLoadable image header index zero ss sorted e =
      subst (Each (IsLoadable (length image))) (ok-inj e) tt
  parse_segments_from-IsLoadable image header index (suc left) ss sorted e =
      let next : Option ParsedSegment → Result (List ParsedSegment) = λ segment.
        parse_segments_from space devices image header (suc index) left >>= λ rest.
        ok (push_segment segment rest) in
      let (segment, one, e1) =
        >>=-eq-ok (parse_program_header space devices image header index) next e in
      let (rest, others, e2) =
        >>=-eq-ok (parse_segments_from space devices image header (suc index) left)
          (λ rest. ok (push_segment segment rest)) e1 in
      subst (Each (IsLoadable (length image))) (ok-inj e2) (
        pushed segment rest one
          (parse_segments_from-IsLoadable image header (suc index) left rest sorted others))
    where
      pushed :
          (segment : Option ParsedSegment) (rest : List ParsedSegment)
          → parse_program_header space devices image header index ≡ ok segment
          → Each (IsLoadable (length image)) rest
          → Each (IsLoadable (length image)) (push_segment segment rest)
      pushed none rest one each = each
      pushed (some s) rest one each =
          (parse_program_header-IsLoadable image header index s sorted one, each)

  -- Every segment that is accepted has its file bytes in the image and lies in one mapping, whose
  -- device takes it.
  pub parse_load_segments-IsLoadable :
      (image : List ℕ) (header : ParsedHeader) (ss : List ParsedSegment)
      → IsSorted 0 space.mappings
      → parse_load_segments space devices image header ≡ ok ss
      → Each (IsLoadable (length image)) ss
  unfolding parse_load_segments
  parse_load_segments-IsLoadable image header ss sorted e =
      parse_segments_from-IsLoadable image header 0 header.program_header_count ss sorted e
