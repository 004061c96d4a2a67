-- ===== src/Elf/Contents.antt =====
-- The bytes of the segments that `add_elf` of src/elf_loader.cpp gives to its plan, in the devices.
use verilator_axi_testbench.Common.{
  Each, ℕ, zero, suc, ◌+◌, ◌-◌, ◌<◌, ◌≤◌, ◌≡◌, refl, sym, ap, ◌∙◌, Bool-cases, inl, inr, ltb, leb,
  if◌then◌else◌, List, [], ◌∷◌, ◌++◌, take, drop, get_or, get_or-drop, length, length-drop, some,
  get_elem?, ok, arith, ok-inj, ok-not-err, ◌>>=◌, >>=-eq-ok,
}
use mathlib.Core.Path.{subst}
use verilator_axi_testbench.Device.{Device}
use verilator_axi_testbench.Device.Loading.{LoadLaws, LoadContents}
use verilator_axi_testbench.Space.{Mapping, AddressSpace, resolve}
use verilator_axi_testbench.Space.Sorted.{IsSorted, IsIn}
use verilator_axi_testbench.Space.Resolve.{Holds, resolve_iff}
use verilator_axi_testbench.Elf.{ParsedSegment, subspan}
use verilator_axi_testbench.Elf.Store.{zeros}
use verilator_axi_testbench.Elf.Apply.{padded}
use verilator_axi_testbench.Elf.Loadable.{IsLoadable}
use verilator_axi_testbench.Elf.Image.{IsStored}
use verilator_axi_testbench.Elf.Plan.{Chunk, chunk_of, additions}

get_or-zeros : (k i : ℕ) → get_or (zeros k) i 0 ≡ 0
get_or-zeros zero i = refl
get_or-zeros (suc k) zero = refl
get_or-zeros (suc k) (suc i) = get_or-zeros k i

get_or-take-zeros :
    (n k i : ℕ) (xs : List ℕ)
    → n ≤ length xs
    → get_or (take n xs ++ zeros k) i 0 ≡ (if ltb i n then get_or xs i 0 else 0)
get_or-take-zeros zero k i xs h = get_or-zeros k i ∙ ground arith
get_or-take-zeros (suc n) k i [] h = elim h [ ]
get_or-take-zeros (suc n) k zero (x ∷ xs) h = ground arith
get_or-take-zeros (suc n) k (suc i) (x ∷ xs) h =
    get_or-take-zeros n k i xs (omega arith) ∙ ground arith

subspan-bytes :
    (image : List ℕ) (offset count : ℕ) (bytes : List ℕ)
    → subspan image offset count ≡ ok bytes
    → bytes ≡ take count (drop offset image)
unfolding subspan
subspan-bytes image offset count bytes e = elim (Bool-cases (leb (offset + count) (length image))) [
  | inl inside ↦ sym (ok-inj (rw inside at e))
  | inr outside ↦ absurd (ok-not-err (rw outside at e))
]

-- What the memory of a segment holds: its file bytes, and zeros behind them.
abbrev pub byte_of : List ℕ → ParsedSegment → ℕ → ℕ
byte_of image s i =
    if ltb i s.public_segment.file_size then get_or image (s.file_offset + i) 0 else 0

padded-byte_of :
    (image : List ℕ) (s : ParsedSegment) (c : Chunk) (i : ℕ)
    → chunk_of image s ≡ ok c
    → s.file_offset + s.public_segment.file_size ≤ length image
    → (c.segment ≡ s.public_segment) × (get_or (padded c) i 0 ≡ byte_of image s i)
unfolding chunk_of
padded-byte_of image s c i e room =
    let n = s.public_segment.file_size in
    let whole : List ℕ → Chunk = λ bytes. record { segment = s.public_segment; bytes = bytes } in
    let (bytes, got, e1) =
      >>=-eq-ok (subspan image s.file_offset n) (λ bytes. ok (whole bytes)) e in
    let same = subspan-bytes image s.file_offset n bytes got in
    let rest = s.public_segment.memory_size - n in
    let byte : get_or (bytes ++ zeros rest) i 0 ≡ byte_of image s i = rw same (
      get_or-take-zeros n rest i (drop s.file_offset image)
        (omega (arith, length-drop s.file_offset image))
      ∙ ap (λ (x : ℕ). if ltb i n then x else 0) (get_or-drop s.file_offset image i 0)) in
    subst (λ c. (c.segment ≡ s.public_segment) × (get_or (padded c) i 0 ≡ byte_of image s i))
      (ok-inj e1) (refl, byte)

module _ {ℓ} {D : Type ℓ} ⦃ops : Device D⦄ (laws : LoadLaws D) (contents : LoadContents D)
    (space : AddressSpace) (sorted : IsSorted 0 space.mappings) where
  -- A mapping holds the addresses of a segment, and its device the bytes of the image there and the
  -- zeros behind them.
  abbrev pub HasSegment : List D → List ℕ → ParsedSegment → Type ℓ
  HasSegment devices image s =
      let a = s.public_segment.load_address in
      (m : Mapping) × IsIn m space.mappings
      × Holds m a s.public_segment.memory_size
      × ((i : ℕ)
          → i < s.public_segment.memory_size
          → (d : D) × (get_elem? devices m.device ≡ some d)
            × (contents.peek d (a - m.base + i) ≡ byte_of image s i))

  IsStored-HasSegment :
      (devices : List D) (image : List ℕ) (s : ParsedSegment) (c : Chunk)
      → chunk_of image s ≡ ok c
      → s.file_offset + s.public_segment.file_size ≤ length image
      → IsStored laws contents space sorted devices c
      → HasSegment devices image s
  IsStored-HasSegment devices image s c e room (m, found, held) =
      let same = (padded-byte_of image s c 0 e room).0 in
      let found' = ap (λ t. resolve space t.load_address t.memory_size) (sym same) ∙ found in
      let (inside, some_bytes, holds) =
        (resolve_iff space s.public_segment.load_address s.public_segment.memory_size m sorted).0
          found' in
      (
        m,
        inside,
        holds,
        λ i small.
            let (d, at, peeked) = held i (rw same small) in
            (
              d,
              at,
              ap (λ t. contents.peek d (t.load_address - m.base + i)) (sym same)
                  ∙ peeked
                  ∙ (padded-byte_of image s c i e room).1,
            ),
      )

  pub additions-HasSegment :
      (before devices : List D) (image : List ℕ) (ss : List ParsedSegment) (chunks : List Chunk)
      → Each (IsLoadable space before (length image)) ss
      → additions image ss ≡ ok chunks
      → Each (IsStored laws contents space sorted devices) chunks
      → Each (HasSegment devices image) ss
  unfolding additions
  additions-HasSegment before devices image [] chunks loadable e stored = tt
  additions-HasSegment before devices image (s ∷ ss) chunks (one, loadable) e stored =
      let (c, first, e1) =
        >>=-eq-ok (chunk_of image s) (λ c. additions image ss >>= λ rest. ok (c ∷ rest)) e in
      let (rest, others, e2) = >>=-eq-ok (additions image ss) (λ rest. ok (c ∷ rest)) e1 in
      let (here, later) =
        subst (Each (IsStored laws contents space sorted devices)) (sym (ok-inj e2)) stored in
      (
        IsStored-HasSegment devices image s c first one.2 here,
        additions-HasSegment before devices image ss rest loadable others later,
      )
