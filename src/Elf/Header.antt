-- ===== src/Elf/Header.antt =====
-- `parse_header` of src/elf_loader.cpp.
use verilator_axi_testbench.Common.{
  ℕ, ◌+◌, ◌-◌, ◌*◌, ◌≤◌, ◌≡◌, ◌≢◌, ◌↔◌, inl, inr, refl, sym, ◌∙◌, Bool, true, false, ◌==◌, ◌!=◌,
  ◌&&◌, ◌||◌, ltb, leb, if◌then◌else◌, List, length, get_or, Result, ok, err, elf_error, throw_if,
  Error, ◌>>=◌, ◌>>◌, u64_max, out_of_bounds, not_an_image, unsupported_class, not_little_endian,
  unsupported_ident_version, unsupported_version, header_too_small, extended_count, entry_too_small,
  arith, Bool-cases, leb→le, ltb→le, !=→eq, ==→ne, >>=-eq-ok,
}
use verilator_axi_testbench.Elf.{
  ParsedHeader, require_range, read_little_endian, checked_multiply, check_identification,
  parse_fields, parse_header,
}
use verilator_axi_testbench.Elf.Words.{
  IsBytes, word, byte_at-inside, read_little_endian-word, checked_multiply-exact,
}

-- The identification of a little-endian image of the current version, 64 bits wide or 32.
abbrev pub IsIdentified : Bool → List ℕ → Type 0
IsIdentified wide image =
    (16 ≤ length image)
    × (get_or image 0 0 ≡ 0x7f)
    × (get_or image 1 0 ≡ 0x45)
    × (get_or image 2 0 ≡ 0x4c)
    × (get_or image 3 0 ≡ 0x46)
    × (get_or image 4 0 ≡ (if wide then 2 else 1))
    × (get_or image 5 0 ≡ 1)
    × (get_or image 6 0 ≡ 1)

identification-opened :
    (image : List ℕ)
    → 16 ≤ length image
    → check_identification image ≡ (
        throw_if
          (get_or image 0 0 != 0x7f
            || get_or image 1 0 != 0x45
            || get_or image 2 0 != 0x4c
            || get_or image 3 0 != 0x46)
          (elf_error not_an_image)
        >> (throw_if (get_or image 4 0 != 1 && get_or image 4 0 != 2) (elf_error unsupported_class)
            >> (throw_if (get_or image 5 0 != 1) (elf_error not_little_endian)
                >> (throw_if (get_or image 6 0 != 1) (elf_error unsupported_ident_version)
                    >> ok (get_or image 4 0 == 2)))))
unfolding check_identification require_range
identification-opened image h =
    let no : ltb (length image) 0 ≡ false = ground arith in
    let room : ltb (length image - 0) 16 ≡ false = ground arith in
    rw (
      no,
      room,
      byte_at-inside image 0 (omega arith),
      byte_at-inside image 1 (omega arith),
      byte_at-inside image 2 (omega arith),
      byte_at-inside image 3 (omega arith),
      byte_at-inside image 4 (omega arith),
      byte_at-inside image 5 (omega arith),
      byte_at-inside image 6 (omega arith),
    )

identified :
    (wide : Bool) (image : List ℕ) → check_identification image ≡ ok wide → IsIdentified wide image
unfolding check_identification require_range
identified wide image e = elim (Bool-cases (leb 16 (length image))) [
  | inl long ↦ ground (arith, identification-opened image (ground arith))
  | inr short ↦ ground arith
]

IsIdentified-accepted :
    (wide : Bool) (image : List ℕ) → IsIdentified wide image → check_identification image ≡ ok wide
IsIdentified-accepted wide image h = rw (identification-opened image h.0) (ground (arith, h))

abbrev pub header_bytes : Bool → ℕ
header_bytes wide = if wide then 64 else 52

-- The fields as the ELF layout places them.
abbrev pub header_of : Bool → List ℕ → ParsedHeader
header_of wide image = record {
  entry = word image 24 (if wide then 8 else 4);
  program_header_offset = word image (if wide then 32 else 28) (if wide then 8 else 4);
  program_header_size = word image (if wide then 54 else 42) 2;
  program_header_count = word image (if wide then 56 else 44) 2;
  is_64_bit = wide;
}

-- What the rest of a header must satisfy: the table of program headers lies in the image.
abbrev pub HasTable : Bool → List ℕ → Type 0
HasTable wide image =
    (header_bytes wide ≤ length image)
    × (word image 20 4 ≡ 1)
    × (header_bytes wide ≤ word image (if wide then 52 else 40) 2)
    × ((header_of wide image).program_header_count ≢ 0xffff)
    × ((header_of wide image).program_header_count ≢ 0
        → (if wide then 56 else 32) ≤ (header_of wide image).program_header_size)
    × ((header_of wide image).program_header_offset
          + (header_of wide image).program_header_count * (header_of wide image).program_header_size
        ≤ length image)

gates-ok :
    (a b c d : Bool) (e1 e2 e3 e4 : Error) (rest : Result ParsedHeader) {h : ParsedHeader}
    → (throw_if a e1 >> (throw_if b e2 >> (throw_if c e3 >> (throw_if d e4 >> rest)))) ≡ ok h
    → (a ≡ false) × (b ≡ false) × (c ≡ false) × (d ≡ false) × (rest ≡ ok h)
gates-ok a b c d e1 e2 e3 e4 rest e = ground (arith, e)

entry_room :
    (count size least : ℕ) → (count != 0 && ltb size least) ≡ false → count ≢ 0 → least ≤ size
entry_room count size least d nonzero = ground arith

module _ (wide : Bool) (image : List ℕ) (bytes : IsBytes image)
    (fits : length image ≤ u64_max) where
  read_in :
      (width offset : ℕ)
      → offset + width ≤ length image
      → read_little_endian width image offset ≡ ok (word image offset width)
  read_in width offset h =
      let inside : leb (offset + width) (length image) ≡ true = ground arith in
      read_little_endian-word width image offset bytes fits ∙ rw inside

  fields-opened :
      header_bytes wide ≤ length image
      → parse_fields wide image ≡ (
          let h = header_of wide image in
          throw_if (word image 20 4 != 1) (elf_error unsupported_version)
          >> (throw_if
                (ltb (word image (if wide then 52 else 40) 2) (header_bytes wide))
                (elf_error header_too_small)
              >> (throw_if (h.program_header_count == 0xffff) (elf_error extended_count)
                  >> (throw_if
                        (h.program_header_count != 0
                          && ltb h.program_header_size (if wide then 56 else 32))
                        (elf_error entry_too_small)
                      >> (checked_multiply h.program_header_count h.program_header_size
                          >>= λ table_size.
                              require_range h.program_header_offset table_size (length image)
                              >> ok h)))))
  unfolding parse_fields require_range
  fields-opened h =
      let start : ltb (length image) 0 ≡ false = ground arith in
      let room : ltb (length image - 0) (header_bytes wide) ≡ false = ground arith in
      rw (
        start,
        room,
        read_in 4 20 (ground arith),
        read_in (if wide then 8 else 4) 24 (ground arith),
        read_in (if wide then 8 else 4) (if wide then 32 else 28) (ground arith),
        read_in 2 (if wide then 52 else 40) (ground arith),
        read_in 2 (if wide then 54 else 42) (ground arith),
        read_in 2 (if wide then 56 else 44) (ground arith),
      )

  table-checked :
      (offset size : ℕ) (h : ParsedHeader)
      → (require_range offset size (length image) >> ok h)
        ≡ (if leb (offset + size) (length image) then ok h else err (elf_error out_of_bounds))
  unfolding require_range
  table-checked offset size h = ground arith

  -- The last two checks.
  abbrev last_checks : Result ParsedHeader
  last_checks =
      let h = header_of wide image in
      checked_multiply h.program_header_count h.program_header_size >>= λ table_size.
      require_range h.program_header_offset table_size (length image) >> ok h

  last_checks-ok :
      (h : ParsedHeader)
      → last_checks ≡ ok h
      → (h ≡ header_of wide image)
        × ((header_of wide image).program_header_offset
              + (header_of wide image).program_header_count
                * (header_of wide image).program_header_size
            ≤ length image)
  last_checks-ok h e =
      let t = header_of wide image in
      let size = t.program_header_count * t.program_header_size in
      ground (
        arith,
        e,
        checked_multiply-exact t.program_header_count t.program_header_size,
        table-checked t.program_header_offset size t,
      )

  from_fields :
      (h : ParsedHeader)
      → parse_fields wide image ≡ ok h
      → HasTable wide image × (h ≡ header_of wide image)
  unfolding parse_fields require_range
  from_fields h e = elim (Bool-cases (leb (header_bytes wide) (length image))) [
    | inl long ↦
        let t = header_of wide image in
        let opened = sym (fields-opened (ground arith)) ∙ e in
        let (a, b, c, d, last) =
          gates-ok (word image 20 4 != 1)
            (ltb (word image (if wide then 52 else 40) 2) (header_bytes wide))
            (t.program_header_count == 0xffff)
            (t.program_header_count != 0 && ltb t.program_header_size (if wide then 56 else 32))
            (elf_error unsupported_version) (elf_error header_too_small) (elf_error extended_count)
            (elf_error entry_too_small) last_checks opened in
        let (same, table) = last_checks-ok h last in
        ((leb→le _ _ long, !=→eq _ _ a, ltb→le _ _ b, ==→ne _ _ c, entry_room _ _ _ d, table), same)
    | inr short ↦ ground arith
  ]

  HasTable-accepted : HasTable wide image → parse_fields wide image ≡ ok (header_of wide image)
  HasTable-accepted t =
      let h = header_of wide image in
      let size = h.program_header_count * h.program_header_size in
      rw (fields-opened t.0) (
        ground (
          arith,
          t,
          checked_multiply-exact h.program_header_count h.program_header_size,
          table-checked h.program_header_offset size h,
        ))

-- A header is accepted exactly when its identification names a little-endian image of the current
-- version and of one of the two classes, its sizes are those of the class at least, and the table of
-- program headers lies in the image; what is read are then the little-endian numbers at the offsets
-- of the class. The image holds bytes and its size fits 64 bits.
pub parse_header_iff :
    (image : List ℕ) (h : ParsedHeader)
    → IsBytes image
    → length image ≤ u64_max
    → (parse_header image ≡ ok h)
      ↔ ((wide : Bool) × IsIdentified wide image × HasTable wide image × (h ≡ header_of wide image))
unfolding parse_header
parse_header_iff image h bytes fits = (
  (λ e.
      let (wide, id, rest) =
        >>=-eq-ok (check_identification image) (λ wide. parse_fields wide image) e in
      let (table, same) = from_fields wide image bytes fits h rest in
      (wide, identified wide image id, table, same)),
  (λ (wide, id, table, same).
      rw (IsIdentified-accepted wide image id, HasTable-accepted wide image bytes fits table, same)
        refl),
)
