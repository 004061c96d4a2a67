-- ===== src/Elf/Overlap.antt =====
-- `validate_no_overlap` of src/elf_loader.cpp.
use verilator_axi_testbench.Common.{
  Each, Each-mono, ℕ, ◌+◌, ◌<◌, ◌≤◌, ◌≡◌, ◌↔◌, ◌⊎◌, inl, inr, refl, false, ltb, leb, List, [], ◌∷◌,
  ok, arith, Bool-cases, >>-eq-ok, add_u64, u64_max, throw_if, elf_error, overlaps_segment,
}
use native.Mathlib.Nat.{mod-eq_of_lt}
use verilator_axi_testbench.Elf.{ParsedSegment}
use verilator_axi_testbench.Elf.Segments.{
  insert_segment, sort_segments, check_adjacent, validate_no_overlap,
}

abbrev start : ParsedSegment → ℕ
start s = s.public_segment.load_address

abbrev stop : ParsedSegment → ℕ
stop s = s.public_segment.load_address + s.public_segment.memory_size

-- Two segments share no address.
abbrev pub IsDisjoint : ParsedSegment → ParsedSegment → Type 0
IsDisjoint s t = (stop s ≤ start t) ⊎ (stop t ≤ start s)

abbrev pub IsPairwise {ℓ} : {A : Type ℓ} → (A → A → Type 0) → List A → Type 0
IsPairwise R [] = Unit {0}
IsPairwise R (s ∷ ss) = Each (R s) ss × IsPairwise R ss

-- A segment that holds a byte and ends within 64 bits, as `parse_program_header` gives it.
abbrev pub IsPlaced : ParsedSegment → Type 0
IsPlaced s = (0 < s.public_segment.memory_size) × (stop s ≤ u64_max)

module _ (P : ParsedSegment → Type 0) where
  Each-insert_segment :
      (s : ParsedSegment) (ss : List ParsedSegment)
      → Each P (insert_segment s ss) ↔ (P s × Each P ss)
  unfolding insert_segment
  Each-insert_segment s [] = ((λ h. h), (λ h. h))
  Each-insert_segment s (x ∷ xs) = elim (Bool-cases (leb (start s) (start x))) [
    | inl here ↦ rw here ((λ h. h), (λ h. h))
    | inr later ↦ rw later (
      (λ (p, rest). let (q, r) = (Each-insert_segment s xs).0 rest in (q, (p, r))),
      (λ (q, (p, r)). (p, (Each-insert_segment s xs).1 (q, r))),
    )
  ]

  Each-sort_segments : (ss : List ParsedSegment) → Each P (sort_segments ss) ↔ Each P ss
  unfolding sort_segments
  Each-sort_segments [] = ((λ h. h), (λ h. h))
  Each-sort_segments (s ∷ ss) =
      let i = Each-insert_segment s (sort_segments ss) in
      let r = Each-sort_segments ss in
      ((λ h. let (p, q) = i.0 h in (p, r.0 q)), (λ (p, q). i.1 (p, r.1 q)))

IsDisjoint-swap : (s t : ParsedSegment) → IsDisjoint s t → IsDisjoint t s
IsDisjoint-swap s t (inl h) = inr h
IsDisjoint-swap s t (inr h) = inl h

IsPairwise-insert_segment :
    (s : ParsedSegment) (ss : List ParsedSegment)
    → IsPairwise IsDisjoint (insert_segment s ss) ↔ IsPairwise IsDisjoint (s ∷ ss)
unfolding insert_segment
IsPairwise-insert_segment s [] = ((λ h. h), (λ h. h))
IsPairwise-insert_segment s (x ∷ xs) = elim (Bool-cases (leb (start s) (start x))) [
  | inl here ↦ rw here ((λ h. h), (λ h. h))
  | inr later ↦
      let i = Each-insert_segment (IsDisjoint x) s xs in
      let r = IsPairwise-insert_segment s xs in
      rw later (
        (λ (e, p).
            let (d, es) = i.0 e in let (f, q) = r.0 p in ((IsDisjoint-swap x s d, f), (es, q))),
        (λ ((d, f), (es, q)). (i.1 (IsDisjoint-swap s x d, es), r.1 (f, q))),
      )
]

IsPairwise-sort_segments :
    (ss : List ParsedSegment) → IsPairwise IsDisjoint (sort_segments ss) ↔ IsPairwise IsDisjoint ss
unfolding sort_segments
IsPairwise-sort_segments [] = ((λ h. h), (λ h. h))
IsPairwise-sort_segments (s ∷ ss) =
    let i = IsPairwise-insert_segment s (sort_segments ss) in
    let e = Each-sort_segments (IsDisjoint s) ss in
    let r = IsPairwise-sort_segments ss in
    ((λ h. let (d, p) = i.0 h in (e.0 d, r.0 p)), (λ (d, p). i.1 (e.1 d, r.1 p)))

abbrev IsAfter : ParsedSegment → ParsedSegment → Type 0
IsAfter s t = start s ≤ start t

insert_segment-IsAfter :
    (s : ParsedSegment) (ss : List ParsedSegment)
    → IsPairwise IsAfter ss
    → IsPairwise IsAfter (insert_segment s ss)
unfolding insert_segment
insert_segment-IsAfter s [] h = (tt, tt)
insert_segment-IsAfter s (x ∷ xs) h = elim (Bool-cases (leb (start s) (start x))) [
  | inl here ↦
      rw here ((ground arith, Each-mono (IsAfter x) (IsAfter s) xs (λ t a. ground arith) h.0), h)
  | inr later ↦ rw later (
    (Each-insert_segment (IsAfter x) s xs).1 (ground arith, h.0),
    insert_segment-IsAfter s xs h.1,
  )
]

sort_segments-IsAfter : (ss : List ParsedSegment) → IsPairwise IsAfter (sort_segments ss)
unfolding sort_segments
sort_segments-IsAfter [] = tt
sort_segments-IsAfter (s ∷ ss) =
    insert_segment-IsAfter s (sort_segments ss) (sort_segments-IsAfter ss)

check_adjacent-IsDisjoint :
    (ss : List ParsedSegment)
    → Each IsPlaced ss
    → IsPairwise IsAfter ss
    → check_adjacent ss ≡ ok tt
    → IsPairwise IsDisjoint ss
unfolding check_adjacent
check_adjacent-IsDisjoint [] placed sorted e = tt
check_adjacent-IsDisjoint (p ∷ []) placed sorted e = (tt, tt)
check_adjacent-IsDisjoint (p ∷ c ∷ rest) placed sorted e =
    let exact : add_u64 (start p) p.public_segment.memory_size ≡ stop p =
      mod-eq_of_lt (omega (arith, placed.0)) in
    let (clear, done) =
      >>-eq-ok
        (throw_if (ltb (start c) (add_u64 (start p) p.public_segment.memory_size))
          (elf_error overlaps_segment))
        (check_adjacent (c ∷ rest)) e in
    let apart : stop p ≤ start c = ground (arith, exact, clear) in
    (
      (inl apart, Each-mono (IsAfter c) (IsDisjoint p) rest (λ t a. inl (omega arith)) sorted.1.0),
      check_adjacent-IsDisjoint (c ∷ rest) placed.1 sorted.1 done,
    )

IsDisjoint-check_adjacent :
    (ss : List ParsedSegment)
    → Each IsPlaced ss
    → IsPairwise IsAfter ss
    → IsPairwise IsDisjoint ss
    → check_adjacent ss ≡ ok tt
unfolding check_adjacent
IsDisjoint-check_adjacent [] placed sorted d = refl
IsDisjoint-check_adjacent (p ∷ []) placed sorted d = refl
IsDisjoint-check_adjacent (p ∷ c ∷ rest) placed sorted d =
    let exact : add_u64 (start p) p.public_segment.memory_size ≡ stop p =
      mod-eq_of_lt (omega (arith, placed.0)) in
    let clear : ltb (start c) (stop p) ≡ false = ground (arith, placed.1.0.0, sorted.0.0, d.0.0) in
    rw (exact, clear) (IsDisjoint-check_adjacent (c ∷ rest) placed.1 sorted.1 d.1)

-- The check of the segments of one image passes exactly when no two of them share an address,
-- whatever their order in the table, for segments that are not empty and end within 64 bits.
pub validate_no_overlap_iff :
    (ss : List ParsedSegment)
    → Each IsPlaced ss
    → (validate_no_overlap ss ≡ ok tt) ↔ IsPairwise IsDisjoint ss
unfolding validate_no_overlap
validate_no_overlap_iff ss placed =
    let placed' = (Each-sort_segments IsPlaced ss).1 placed in
    let sorted = sort_segments-IsAfter ss in
    (
      (λ e.
          (IsPairwise-sort_segments ss).0
            (check_adjacent-IsDisjoint (sort_segments ss) placed' sorted e)),
      (λ d.
          IsDisjoint-check_adjacent (sort_segments ss) placed' sorted
            ((IsPairwise-sort_segments ss).1 d)),
    )
