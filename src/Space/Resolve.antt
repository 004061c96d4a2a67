-- ===== src/Space/Resolve.antt =====
-- `AddressSpace::resolve` and `resolution_error` of src/devices.cpp, over sorted mappings.
use verilator_axi_testbench.Common.{
  ℕ, ◌+◌, ◌<◌, ◌≤◌, ◌≡◌, refl, ap, ◌∙◌, sym, ◌↔◌, ◌⊎◌, inl, inr, Bool, true, leb, List, [], ◌∷◌,
  Option, none, some, arith, Bool-cases, u64_max, Option-cases,
}
use verilator_axi_testbench.Axi.{slave_error}
use verilator_axi_testbench.Space.{
  Mapping, AddressSpace, before, candidate, resolve, resolution_error, response_of,
}
use verilator_axi_testbench.Space.Sorted.{IsSorted, IsIn}

-- A mapping that holds a range whole.
abbrev pub Holds : Mapping → ℕ → ℕ → Type 0
Holds m address size = (m.base ≤ address) × (address + size ≤ m.base + m.size)

pub IsSorted-bounds :
    (lo : ℕ) (m : Mapping) (ms : List Mapping)
    → IsSorted lo ms
    → IsIn m ms
    → (lo ≤ m.base) × (0 < m.size) × (m.base + m.size ≤ u64_max)
IsSorted-bounds lo m [] s i = absurd i
IsSorted-bounds lo m (x ∷ ms) s (inl e) = rw e (s.0, s.1, s.2)
IsSorted-bounds lo m (x ∷ ms) s (inr i) =
    let b = IsSorted-bounds (x.base + x.size) m ms s.3 i in (omega arith, b.1, b.2)

abbrev upto : ℕ → Mapping → Bool
upto address m = leb m.base address

before-stops :
    (address lo : ℕ) (last : Option Mapping) (ms : List Mapping)
    → IsSorted lo ms
    → address < lo
    → before (upto address) last ms ≡ last
unfolding before
before-stops address lo last [] s h = refl
before-stops address lo last (x ∷ ms) s h = ground arith

before-finds :
    (address lo : ℕ) (last : Option Mapping) (m : Mapping) (ms : List Mapping)
    → IsSorted lo ms
    → IsIn m ms
    → m.base ≤ address
    → address < m.base + m.size
    → before (upto address) last ms ≡ some m
unfolding before
before-finds address lo last m [] s i le lt = absurd i
before-finds address lo last m (x ∷ ms) s (inl e) le lt =
    let here : leb x.base address ≡ true = ground arith in
    rw here
      (before-stops address (x.base + x.size) (some x) ms s.3 (ground arith) ∙ ap some (sym e))
before-finds address lo last m (x ∷ ms) s (inr i) le lt =
    let b = IsSorted-bounds (x.base + x.size) m ms s.3 i in
    let here : leb x.base address ≡ true = ground arith in
    rw here (before-finds address (x.base + x.size) (some x) m ms s.3 i le lt)

before-IsIn :
    (test : Mapping → Bool) (last : Option Mapping) (m : Mapping) (ms : List Mapping)
    → before test last ms ≡ some m
    → (last ≡ some m) ⊎ IsIn m ms
unfolding before
before-IsIn test last m [] e = inl e
before-IsIn test last m (x ∷ ms) e = elim (Bool-cases (test x)) [
  | inl on ↦ ground (arith, before-IsIn test (some x) m ms)
  | inr off ↦ ground arith
]

-- `resolve` gives a mapping exactly when the range is not empty and lies wholly inside that mapping.
pub resolve_iff :
    (space : AddressSpace) (address size : ℕ) (m : Mapping)
    → IsSorted 0 space.mappings
    → (resolve space address size ≡ some m)
      ↔ (IsIn m space.mappings × (0 < size) × Holds m address size)
unfolding resolve candidate
resolve_iff space address size m s = (to, from)
  where
    found : Option Mapping
    found = before (upto address) none space.mappings

    to :
        resolve space address size ≡ some m
        → IsIn m space.mappings × (0 < size) × Holds m address size
    to e = elim (Option-cases found) [
      | inl missing ↦ ground (arith, missing)
      | inr (x, got) ↦
          let inside : IsIn x space.mappings =
            ground (arith, before-IsIn (upto address) none x space.mappings got) in
          let b = IsSorted-bounds 0 x space.mappings s inside in ground (arith, got, b)
    ]

    from :
        IsIn m space.mappings × (0 < size) × Holds m address size
        → resolve space address size ≡ some m
    from (i, pos, held) =
        let b = IsSorted-bounds 0 m space.mappings s i in
        ground (arith, before-finds address 0 none m space.mappings s i held.0 (omega arith))

-- At most one mapping holds a range that is not empty.
pub Holds-unique :
    (space : AddressSpace) (address size : ℕ) (m n : Mapping)
    → IsSorted 0 space.mappings
    → 0 < size
    → IsIn m space.mappings
    → IsIn n space.mappings
    → Holds m address size
    → Holds n address size
    → m ≡ n
Holds-unique space address size m n s pos im in' hm hn = ground (
  arith,
  (resolve_iff space address size m s).1 (im, pos, hm),
  (resolve_iff space address size n s).1 (in', pos, hn),
)

-- Where no mapping holds the range, the answer tells whether its first byte is mapped.
pub resolution_error-slave :
    (space : AddressSpace) (address : ℕ)
    → IsSorted 0 space.mappings
    → (resolution_error space address ≡ slave_error)
      ↔ ((m : Mapping) × IsIn m space.mappings × Holds m address 1)
unfolding resolution_error candidate
resolution_error-slave space address s = (to, from)
  where
    found : Option Mapping
    found = before (upto address) none space.mappings

    to :
        response_of address found ≡ slave_error
        → (m : Mapping) × IsIn m space.mappings × Holds m address 1
    to e = elim (Option-cases found) [
      | inl missing ↦ ground (arith, missing)
      | inr (x, got) ↦
          let inside : IsIn x space.mappings =
            ground (arith, before-IsIn (upto address) none x space.mappings got) in
          let b = IsSorted-bounds 0 x space.mappings s inside in (x, inside, ground (arith, got, b))
    ]

    from :
        (m : Mapping) × IsIn m space.mappings × Holds m address 1
        → response_of address found ≡ slave_error
    from (m, i, held) =
        let b = IsSorted-bounds 0 m space.mappings s i in
        ground (arith, before-finds address 0 none m space.mappings s i held.0 (omega arith))
