-- ===== src/Space/Sorted.antt =====
-- The order of the mappings of an `AddressSpace`, and `AddressSpace::map` of src/devices.cpp.
use verilator_axi_testbench.Common.{
  ℕ, ◌+◌, ◌<◌, ◌≤◌, ◌≡◌, refl, ap, ◌↔◌, ◌⊎◌, inl, inr, Bool, false, ltb, List, [], ◌∷◌, Option,
  none, some, ok, arith, Bool-cases, add_u64, u64_max,
}
use Prim.Native.String.{String}
use verilator_axi_testbench.Space.{
  Mapping, AddressSpace, before, after, insert, map_device, overlaps_previous, overlaps_next,
}

-- From `lo` on, the mappings are not empty, follow one another without overlap, and end within 64
-- bits.
abbrev pub IsSorted : ℕ → List Mapping → Type 0
IsSorted lo [] = Unit {0}
IsSorted lo (m ∷ ms) =
    (lo ≤ m.base) × (0 < m.size) × (m.base + m.size ≤ u64_max) × IsSorted (m.base + m.size) ms

abbrev pub IsIn : Mapping → List Mapping → Type 0
IsIn m [] = ⊥
IsIn m (x ∷ ms) = (m ≡ x) ⊎ IsIn m ms

-- A range shares no byte with any of the mappings.
abbrev pub IsApart : ℕ → ℕ → List Mapping → Type 0
IsApart base size [] = Unit {0}
IsApart base size (m ∷ ms) =
    ((base + size ≤ m.base) ⊎ (m.base + m.size ≤ base)) × IsApart base size ms

IsApart-later :
    (base size lo : ℕ) (ms : List Mapping)
    → IsSorted lo ms
    → base + size ≤ lo
    → IsApart base size ms
IsApart-later base size lo [] s h = tt
IsApart-later base size lo (m ∷ ms) s h =
    (inl (omega arith), IsApart-later base size (m.base + m.size) ms s.3 (omega arith))

abbrev IsBelow : ℕ → Option Mapping → Type 0
IsBelow lo none = Unit {0}
IsBelow lo (some p) = (p.base + p.size ≤ lo) × (p.base + p.size ≤ u64_max)

abbrev EndsBy : ℕ → Option Mapping → Type 0
EndsBy base none = Unit {0}
EndsBy base (some p) = p.base + p.size ≤ base

abbrev below : ℕ → Mapping → Bool
below base m = ltb m.base base

-- The two neighbours leave room exactly when the whole list does.
abbrev Fits : ℕ → ℕ → Option Mapping → List Mapping → Type 0
Fits base size last ms =
    (overlaps_previous base (before (below base) last ms) ≡ false)
    × (overlaps_next (base + size) (after (below base) ms) ≡ false)

EndsBy-overlaps :
    (base lo : ℕ) (last : Option Mapping)
    → IsBelow lo last
    → (overlaps_previous base last ≡ false) ↔ EndsBy base last
EndsBy-overlaps base lo none b = (λ h. tt, λ h. refl)
EndsBy-overlaps base lo (some p) b = ground arith

EndsBy-mono : (base lo : ℕ) (last : Option Mapping) → IsBelow lo last → lo ≤ base → EndsBy base last
EndsBy-mono base lo none b h = tt
EndsBy-mono base lo (some p) b h = omega arith

neighbours-IsApart :
    (base size lo : ℕ) (last : Option Mapping) (ms : List Mapping)
    → 0 < size
    → IsSorted lo ms
    → IsBelow lo last
    → Fits base size last ms ↔ (EndsBy base last × IsApart base size ms)
unfolding before after
neighbours-IsApart base size lo last [] pos s b = ground (arith, EndsBy-overlaps base lo last b)
neighbours-IsApart base size lo last (m ∷ ms) pos s b = elim (Bool-cases (ltb m.base base)) [
  | inl under ↦
      let ih = neighbours-IsApart base size (m.base + m.size) (some m) ms pos s.3 (omega arith) in
      let before_last = EndsBy-mono base lo last b in rw under (ground (arith, ih, before_last))
  | inr over ↦
      let later = IsApart-later base size (m.base + m.size) ms s.3 in
      rw over (ground (arith, EndsBy-overlaps base lo last b, later))
]

pub insert-IsSorted :
    (base lo : ℕ) (new : Mapping) (ms : List Mapping)
    → new.base ≡ base
    → IsSorted lo ms
    → lo ≤ base
    → 0 < new.size
    → base + new.size ≤ u64_max
    → IsApart base new.size ms
    → IsSorted lo (insert (below base) new ms)
unfolding insert
insert-IsSorted base lo new [] e s h pos fits apart = ground arith
insert-IsSorted base lo new (m ∷ ms) e s h pos fits apart =
    ground (arith, insert-IsSorted base (m.base + m.size) new ms e s.3)

pub IsIn-insert :
    (test : Mapping → Bool) (new x : Mapping) (ms : List Mapping)
    → IsIn x (insert test new ms) ↔ ((x ≡ new) ⊎ IsIn x ms)
unfolding insert
IsIn-insert test new x [] = (λ h. h, λ h. h)
IsIn-insert test new x (m ∷ ms) = elim (Bool-cases (test m)) [
  | inl yes' ↦ rw yes' (ground (arith, IsIn-insert test new x ms))
  | inr no' ↦ rw no' (ground arith)
]

abbrev placed : AddressSpace → ℕ → ℕ → ℕ → String → AddressSpace
placed space base size device name = record space {
  mappings =
      insert (below base) (record { base = base; size = size; device = device; name = name })
        space.mappings;
}

abbrev Accepts : AddressSpace → ℕ → ℕ → Type 0
Accepts space base size =
    (space.frozen ≡ false)
    × (0 < size)
    × (base + size ≤ u64_max)
    × Fits base size none space.mappings

map_device-ok :
    (space : AddressSpace) (base size device : ℕ) (name : String)
    → Accepts space base size
    → map_device space base size device name ≡ ok (placed space base size device name)
unfolding map_device
map_device-ok space base size device name a =
    let sum : add_u64 base size ≡ base + size = omega arith in
    ground (arith, ap (λ t. overlaps_next t (after (below base) space.mappings)) sum)

map_device-Accepts :
    (space space' : AddressSpace) (base size device : ℕ) (name : String)
    → base ≤ u64_max
    → map_device space base size device name ≡ ok space'
    → Accepts space base size
unfolding map_device
map_device-Accepts space space' base size device name h e =
    let fits : base + size ≤ u64_max = ground arith in
    let sum : add_u64 base size ≡ base + size = omega arith in
    ground (arith, ap (λ t. overlaps_next t (after (below base) space.mappings)) sum)

map_device-IsApart :
    (space space' : AddressSpace) (base size device : ℕ) (name : String)
    → IsSorted 0 space.mappings
    → base ≤ u64_max
    → map_device space base size device name ≡ ok space'
    → (space.frozen ≡ false)
      × (0 < size)
      × (base + size ≤ u64_max)
      × IsApart base size space.mappings
map_device-IsApart space space' base size device name s h e =
    let a = map_device-Accepts space space' base size device name h e in
    (a.0, a.1, a.2, ((neighbours-IsApart base size 0 none space.mappings a.1 s tt).0 a.3).1)

-- Of a sorted space, `map` accepts exactly the ranges that are not empty, end within 64 bits, and
-- share no byte with a mapping, and none once the space is frozen.
pub map_device-accepts :
    (space : AddressSpace) (base size device : ℕ) (name : String)
    → IsSorted 0 space.mappings
    → base ≤ u64_max
    → ((space' : AddressSpace) × (map_device space base size device name ≡ ok space')) ↔ (
        (space.frozen ≡ false)
        × (0 < size)
        × (base + size ≤ u64_max)
        × IsApart base size space.mappings)
map_device-accepts space base size device name s h = (
  λ made. map_device-IsApart space made.0 base size device name s h made.1,
  λ g.
      let fits = (neighbours-IsApart base size 0 none space.mappings g.1 s tt).1 (tt, g.3) in
      (
        placed space base size device name,
        map_device-ok space base size device name (g.0, g.1, g.2, fits),
      ),
)

-- A mapping that is accepted leaves the space sorted and free of overlap, and adds itself and
-- nothing else.
pub map_device-IsSorted :
    (space space' : AddressSpace) (base size device : ℕ) (name : String)
    → IsSorted 0 space.mappings
    → base ≤ u64_max
    → map_device space base size device name ≡ ok space'
    → IsSorted 0 space'.mappings
      × ((x : Mapping)
          → IsIn x space'.mappings ↔ (
              (x ≡ record { base = base; size = size; device = device; name = name })
              ⊎ IsIn x space.mappings))
map_device-IsSorted space space' base size device name s h e =
    let a = map_device-Accepts space space' base size device name h e in
    let g = map_device-IsApart space space' base size device name s h e in
    let same : space' ≡ placed space base size device name =
      ground (arith, e, map_device-ok space base size device name a) in
    rw same (
      insert-IsSorted base 0 _ space.mappings refl s (omega arith) g.1 g.2 g.3,
      λ x. IsIn-insert (below base) _ x space.mappings,
    )
