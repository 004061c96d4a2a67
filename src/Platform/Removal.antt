-- ===== src/Platform/Removal.antt =====
-- `PlatformSpec::remove` of src/platform.cpp.
use Prim.Native.String.{String}
use Prim.Native.Char.{Char, code}
use text.Mathlib.Text.{◌==◌ as str_eq}
use text.Mathlib.TextEquality.{eq_iff}
use verilator_axi_testbench.Common.{
  ◌≡◌, ◌≢◌, sym, ap, ◌==◌, arith, Option, none, some, Bool, true, false, if◌then◌else◌, List, [],
  ◌∷◌, ◌++◌, Result, err, ok, invalid_argument, ◌>>=◌, >>=-eq-ok, ok-inj, Each, inl, inr,
  Bool-cases, some-eq, ==_iff, ◌⊎◌, ◌||◌, refl,
}
use mathlib.Core.Path.{subst}
use verilator_axi_testbench.Platform.Text.{codes, split_at, named_port, endpoint, behind, is_empty}
use verilator_axi_testbench.Platform.Spec.{
  DeviceSpec, MappingSpec, ConnectionSpec, PlatformSpec, spec_device, erase_devices, erase_mappings,
  erase_connections, touches, remove,
}

-- The second list is the first without the elements that are `Gone`, in their order; the others `Stay`.
pub data Without {ℓ κ} {A : Type ℓ} (Gone Stay : A → Type κ) : List A → List A → Type (ℓ ⊔ κ) where
  done : Without Gone Stay [] []
  drop_one :
      {x : A} {xs ys : List A} → Gone x → Without Gone Stay xs ys → Without Gone Stay (x ∷ xs) ys
  keep_one :
      {x : A} {xs ys : List A}
      → Stay x
      → Without Gone Stay xs ys
      → Without Gone Stay (x ∷ xs) (x ∷ ys)

-- An end of a connection is an instance, a point and a port; the instance has no point in its name.
pub record IsEnd (id text : String) : Type 0 where
  pub port : String
  pub text_eq : codes text ≡ codes id ++ b'.' ∷ codes port
  pub no_point : Each (λ c. c ≢ b'.') (codes id)

-- An end at an instance of another name.
abbrev pub EndsElsewhere : String → String → Type 0
EndsElsewhere id text = (other : String) × (other ≢ id) × IsEnd other text

abbrev pub Touches : String → ConnectionSpec → Type 0
Touches id c = IsEnd id c.source ⊎ IsEnd id c.destination

abbrev pub Avoids : String → ConnectionSpec → Type 0
Avoids id c = EndsElsewhere id c.source × EndsElsewhere id c.destination

behind-some :
    (c : Char) (o : Option (String × String)) (a b : String)
    → behind c o ≡ some (a, b)
    → (a' : String) × (o ≡ some (a', b)) × (a ≡ String.◌∷◌ c a')
behind-some c none a b e = absurd cc
behind-some c (some (a', b')) a b e =
    (a', ap (λ y. some (a', y)) (ap (λ p. p.1) (some-eq e)), sym (ap (λ p. p.0) (some-eq e)))

split_at-parts :
    (text a b : String)
    → split_at b'.' text ≡ some (a, b)
    → (codes text ≡ codes a ++ b'.' ∷ codes b) × Each (λ c. c ≢ b'.') (codes a)
unfolding split_at
split_at-parts String.[] a b e = absurd cc
split_at-parts (String.◌∷◌ c s) a b e = elim (Bool-cases (code c == b'.')) [
  | inl point ↦
      let pair : String × String = (String.[], s) in
      let parts : some pair ≡ some (a, b) = simp point at e in
      let is_point : code c ≡ b'.' = (==_iff (code c) b'.').0 point in
      let at_a : String.[] ≡ a = ap (λ p. p.0) (some-eq parts) in
      let at_b : s ≡ b = ap (λ p. p.1) (some-eq parts) in rw (← at_a, ← at_b, is_point) (refl, tt)
  | inr other ↦
      let (a', rest, same) = behind-some c (split_at b'.' s) a b (simp other at e) in
      let (text_eq, no_point) = split_at-parts s a' b rest in
      rw same (ap (λ t. code c ∷ t) text_eq, ((λ h. ground (arith, other, h)), no_point))
]

endpoint-IsEnd : (text id port : String) → endpoint text ≡ ok (id, port) → IsEnd id text
unfolding endpoint named_port
endpoint-IsEnd text id port e = go (split_at b'.' text) refl e
  where
    go :
        (o : Option (String × String))
        → split_at b'.' text ≡ o
        → named_port o ≡ ok (id, port)
        → IsEnd id text
    go none h e' = absurd cc
    go (some (a, b)) h e' =
        let pair : String × String = (a, b) in
        let parts : ok pair ≡ ok (id, port) = passed (is_empty a || is_empty b) e' in
        let at_a : a ≡ id = ap (λ p. p.0) (ok-inj parts) in
        let (text_eq, no_point) = split_at-parts text a b h in
        subst (λ n. IsEnd n text) at_a (record { port = b; text_eq = text_eq; no_point = no_point })
      where
        passed :
            {x y : String × String} (bad : Bool)
            → (if bad then err invalid_argument else ok x) ≡ ok y
            → ok x ≡ ok y
        passed true e = absurd cc
        passed false e = e

differ : (a b : String) → str_eq a b ≡ false → a ≢ b
differ a b different same = absurd (ground (arith, different, (eq_iff a b).1 same))

erase_devices-Without :
    (id : String) (devices : List DeviceSpec)
    → Without (λ d. d.id ≡ id) (λ d. d.id ≢ id) devices (erase_devices id devices)
unfolding erase_devices
erase_devices-Without id [] = done
erase_devices-Without id (d ∷ devices) = elim (Bool-cases (str_eq d.id id)) [
  | inl gone ↦ rw gone (drop_one ((eq_iff d.id id).0 gone) (erase_devices-Without id devices))
  | inr kept ↦ rw kept (keep_one (differ d.id id kept) (erase_devices-Without id devices))
]

erase_mappings-Without :
    (id : String) (mappings : List MappingSpec)
    → Without (λ m. m.device ≡ id) (λ m. m.device ≢ id) mappings (erase_mappings id mappings)
unfolding erase_mappings
erase_mappings-Without id [] = done
erase_mappings-Without id (m ∷ mappings) = elim (Bool-cases (str_eq m.device id)) [
  | inl gone ↦ rw gone (drop_one ((eq_iff m.device id).0 gone) (erase_mappings-Without id mappings))
  | inr kept ↦ rw kept (keep_one (differ m.device id kept) (erase_mappings-Without id mappings))
]

-- What the answer of `touches` says of the two ends.
touches-ends :
    (id : String) (c : ConnectionSpec) (gone : Bool)
    → touches id c ≡ ok gone
    → if gone then Touches id c else Avoids id c
unfolding touches
touches-ends id c gone e =
    let (first, parsed, e1) =
      >>=-eq-ok (endpoint c.source) (λ first. if str_eq first.0 id then ok true else second) e in
    go first parsed e1
  where
    second : Result Bool
    second = endpoint c.destination >>= λ last. ok (str_eq last.0 id)

    target :
        (other : String)
        → other ≢ id
        → IsEnd other c.source
        → second ≡ ok gone
        → if gone then Touches id c else Avoids id c
    target other ne source h =
        let (last, parsed, e2) =
          >>=-eq-ok (endpoint c.destination) (λ last. ok (str_eq last.0 id)) h in
        let at_end = endpoint-IsEnd c.destination last.0 last.1 parsed in
        subst (λ b. if b then Touches id c else Avoids id c) (ok-inj e2)
          (elim (Bool-cases (str_eq last.0 id)) [
            | inl same ↦
                rw same
                  (inr (subst (λ n. IsEnd n c.destination) ((eq_iff last.0 id).0 same) at_end))
            | inr different ↦
                rw different ((other, ne, source), (last.0, differ last.0 id different, at_end))
          ])

    go :
        (first : String × String)
        → endpoint c.source ≡ ok first
        → (if str_eq first.0 id then ok true else second) ≡ ok gone
        → if gone then Touches id c else Avoids id c
    go (name, port) parsed h =
        let source = endpoint-IsEnd c.source name port parsed in
        elim (Bool-cases (str_eq name id)) [
          | inl same ↦
              let answer : ok true ≡ ok gone = simp same at h in
              subst (λ b. if b then Touches id c else Avoids id c) (ok-inj answer)
                (inl (subst (λ n. IsEnd n c.source) ((eq_iff name id).0 same) source))
          | inr different ↦ target name (differ name id different) source (simp different at h)
        ]

erase_connections-Without :
    (id : String) (connections rest : List ConnectionSpec)
    → erase_connections id connections ≡ ok rest
    → Without (Touches id) (Avoids id) connections rest
unfolding erase_connections
erase_connections-Without id [] rest e = subst (Without (Touches id) (Avoids id) []) (ok-inj e) done
erase_connections-Without id (c ∷ connections) rest e =
    let (gone, first, e1) =
      >>=-eq-ok (touches id c)
        (λ gone.
          erase_connections id connections >>= λ others. ok (if gone then others else c ∷ others))
        e in
    let (others, erased, e2) =
      >>=-eq-ok (erase_connections id connections)
        (λ others. ok (if gone then others else c ∷ others)) e1 in
    subst (Without (Touches id) (Avoids id) (c ∷ connections)) (ok-inj e2) (
      step gone (touches-ends id c gone first) others
        (erase_connections-Without id connections others erased))
  where
    step :
        (gone : Bool)
        → (if gone then Touches id c else Avoids id c)
        → (others : List ConnectionSpec) → Without (Touches id) (Avoids id) connections others
        → Without (Touches id) (Avoids id) (c ∷ connections) (if gone then others else c ∷ others)
    step true touched others rest' = drop_one touched rest'
    step false avoided others rest' = keep_one avoided rest'

-- After a removal that succeeds, the description has its devices, mappings and connections as before and
-- in their order, without exactly those devices and mappings that have the name removed and those
-- connections one of whose ends is at it: the name, which has no point, and then a point and a port.
-- Every end of a connection that stays, source and destination, is at another name.
pub remove-Without :
    (id : String) (spec spec' : PlatformSpec)
    → remove id spec ≡ ok spec'
    → Without (λ d. d.id ≡ id) (λ d. d.id ≢ id) spec.devices spec'.devices
      × Without (λ m. m.device ≡ id) (λ m. m.device ≢ id) spec.mappings spec'.mappings
      × Without (Touches id) (Avoids id) spec.connections spec'.connections
unfolding remove
remove-Without id spec spec' e =
    let built : List ConnectionSpec → PlatformSpec = λ connections. record {
      devices = erase_devices id spec.devices;
      mappings = erase_mappings id spec.mappings;
      connections = connections;
    } in
    let (d, there, e1) =
      >>=-eq-ok (spec_device spec id)
        (λ d. erase_connections id spec.connections >>= λ connections. ok (built connections)) e in
    let (connections, erased, e2) =
      >>=-eq-ok (erase_connections id spec.connections) (λ connections. ok (built connections))
        e1 in
    subst
      (λ s.
        Without (λ d. d.id ≡ id) (λ d. d.id ≢ id) spec.devices s.devices
        × Without (λ m. m.device ≡ id) (λ m. m.device ≢ id) spec.mappings s.mappings
        × Without (Touches id) (Avoids id) spec.connections s.connections)
      (ok-inj e2)
      (
        erase_devices-Without id spec.devices,
        erase_mappings-Without id spec.mappings,
        erase_connections-Without id spec.connections connections erased,
      )
