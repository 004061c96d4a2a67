-- ===== src/Platform/Options.antt =====
-- `DeviceRegistry::configure` of src/platform.cpp.
use Prim.Native.String.{String}
use text.Mathlib.Text.{◌==◌ as str_eq}
use text.Mathlib.TextEquality.{eq_iff}
use verilator_axi_testbench.Common.{
  ℕ, ◌≤◌, ltb, ◌||◌, ◌⊎◌, arith, Each-mono, ◌≡◌, refl, sym, ap, ◌∙◌, Bool, true, false, not,
  if◌then◌else◌, List, [], ◌∷◌, ◌++◌, Option, none, some, Result, ok, ◌>>◌, >>=-eq-ok, >>-eq-ok,
  ok-inj, Each, inl, inr, Bool-cases, throw_if, invalid_argument,
}
use verilator_axi_testbench.Platform.Text.{parse_unsigned}
use verilator_axi_testbench.Platform.Registry.{
  OptionKind, text_kind, unsigned_kind, boolean_kind, Properties, DeviceOption, DeviceType,
  DeviceRegistry, lookup, is_some, find_option, check_known, check_value, given_or, emplace,
  fill_options, type_of, configure,
}

-- The value of an option: what was given, or its default.
abbrev pub value_of : Properties → DeviceOption → String
value_of properties o = given_or o.default_value (lookup o.name properties)

-- What a configuration holds under a name: the value of the first option of that name.
abbrev pub expected : Properties → Option DeviceOption → Option String
expected properties none = none
expected properties (some o) = some (value_of properties o)

abbrev or_else : Option String → Option String → Option String
or_else none later = later
or_else (some value) later = some value

lookup-append :
    (name key value : String) (values : Properties)
    → lookup name (values ++ (key, value) ∷ [])
      ≡ or_else (lookup name values) (if str_eq key name then some value else none)
unfolding lookup
lookup-append name key value [] = refl
lookup-append name key value ((k, v) ∷ values) = elim (Bool-cases (str_eq k name)) [
  | inl here ↦ rw here
  | inr later ↦ rw later (lookup-append name key value values)
]

or_else-none : (o : Option String) → o ≡ or_else o none
or_else-none none = refl
or_else-none (some x) = refl

or_else-is_some : (o later : Option String) → is_some o ≡ true → o ≡ or_else o later
or_else-is_some none later h = absurd cc
or_else-is_some (some x) later h = refl

emplace-lookup :
    (name key value : String) (values : Properties)
    → lookup name (emplace key value values)
      ≡ or_else (lookup name values) (if str_eq key name then some value else none)
unfolding emplace
emplace-lookup name key value values = elim (Bool-cases (is_some (lookup key values))) [
  | inl there ↦ elim (Bool-cases (str_eq key name)) [
    | inl same ↦
        let e : key ≡ name = (eq_iff key name).0 same in
        rw (there, same) (or_else-is_some (lookup name values) (some value) (rw e at there))
    | inr other ↦ rw (there, other) (or_else-none (lookup name values))
  ]
  | inr absent ↦ rw absent (lookup-append name key value values)
]

or_else-step :
    (properties : Properties) (before : Option String) (o : DeviceOption)
    (later : Option DeviceOption) (same : Bool)
    → or_else
        (or_else before (if same then some (value_of properties o) else none))
        (expected properties later)
      ≡ or_else before (expected properties (if same then some o else later))
or_else-step properties none o later true = refl
or_else-step properties none o later false = refl
or_else-step properties (some x) o later same = refl

-- What the loop over the schema leaves, behind what was there.
fill_options-lookup :
    (properties result config : Properties) (schema : List DeviceOption)
    → fill_options properties result schema ≡ ok config
    → Each (λ o. check_value o o.kind (value_of properties o) ≡ ok tt) schema
      × ((name : String)
          → lookup name config
            ≡ or_else (lookup name result) (expected properties (find_option name schema)))
unfolding fill_options find_option
fill_options-lookup properties result config [] e =
    (tt, λ name. ap (lookup name) (sym (ok-inj e)) ∙ or_else-none (lookup name result))
fill_options-lookup properties result config (o ∷ schema) e =
    let value = value_of properties o in
    let (checked, e1) =
      >>-eq-ok (check_value o o.kind value)
        (fill_options properties (emplace o.name value result) schema) e in
    let (each, rest) =
      fill_options-lookup properties (emplace o.name value result) config schema e1 in
    (
      (checked, each),
      λ name.
          rest name
          ∙ ap (λ b. or_else b (expected properties (find_option name schema)))
              (emplace-lookup name o.name value result)
          ∙ or_else-step properties (lookup name result) o (find_option name schema)
              (str_eq o.name name),
    )

-- A value that an option may have: any text, a number within the bounds, or a truth value.
abbrev pub IsValue : DeviceOption → OptionKind → String → Type 0
IsValue o text_kind value = Unit {0}
IsValue o unsigned_kind value =
    (number : ℕ) × (parse_unsigned value ≡ ok number) × (o.minimum ≤ number) × (number ≤ o.maximum)
IsValue o boolean_kind value = (value ≡ "true") ⊎ (value ≡ "false")

check_value-IsValue :
    (o : DeviceOption) (kind : OptionKind) (value : String)
    → check_value o kind value ≡ ok tt
    → IsValue o kind value
unfolding check_value
check_value-IsValue o text_kind value e = tt
check_value-IsValue o unsigned_kind value e =
    let (number, parsed, bounded) =
      >>=-eq-ok (parse_unsigned value)
        (λ number. throw_if (ltb number o.minimum || ltb o.maximum number) invalid_argument) e in
    (number, parsed, ground (arith, bounded), ground (arith, bounded))
check_value-IsValue o boolean_kind value e = elim (Bool-cases (str_eq value "true")) [
  | inl yes_ ↦ inl ((eq_iff value "true").0 yes_)
  | inr other ↦ elim (Bool-cases (str_eq value "false")) [
    | inl no_ ↦ inr ((eq_iff value "false").0 no_)
    | inr neither ↦ absurd (ground (arith, e, other, neither))
  ]
]

check_known-Each :
    (schema : List DeviceOption) (properties : Properties)
    → check_known schema properties ≡ ok tt
    → Each (λ p. is_some (find_option p.0 schema) ≡ true) properties
unfolding check_known
check_known-Each schema [] e = tt
check_known-Each schema ((key, value) ∷ properties) e =
    let (here, e1) =
      >>-eq-ok (throw_if (not (is_some (find_option key schema))) invalid_argument)
        (check_known schema properties) e in
    (known (is_some (find_option key schema)) here, check_known-Each schema properties e1)
  where
    known : (b : Bool) → throw_if (not b) invalid_argument ≡ ok tt → b ≡ true
    known true h = refl
    known false h = absurd cc

-- A configuration that is accepted comes from a type that is registered; every property given is an
-- option of the type; every option has a value of its kind: a number within its
-- bounds, `true` or `false`, or any text; and the
-- configuration holds under each name what was given for the option, or else its default, and nothing
-- under any other name.
pub configure-lookup {ℓ} :
    {D : Type ℓ} (types : DeviceRegistry D) (name : String) (properties config : Properties)
    → configure types name properties ≡ ok config
    → (type : DeviceType D) × (type_of types name ≡ ok type)
      × Each (λ p. is_some (find_option p.0 type.options) ≡ true) properties
      × Each (λ o. IsValue o o.kind (value_of properties o)) type.options
      × ((key : String) → lookup key config ≡ expected properties (find_option key type.options))
unfolding configure lookup
configure-lookup {D = D} types name properties config e =
    let rest : DeviceType D → Result Properties =
      λ type. check_known type.options properties >> fill_options properties [] type.options in
    let (type, there, e1) = >>=-eq-ok (type_of types name) rest e in
    let (known, e2) =
      >>-eq-ok (check_known type.options properties) (fill_options properties [] type.options) e1 in
    let (checked, holds) = fill_options-lookup properties [] config type.options e2 in
    let valid =
      Each-mono (λ o. check_value o o.kind (value_of properties o) ≡ ok tt)
        (λ o. IsValue o o.kind (value_of properties o)) type.options
        (λ o. check_value-IsValue o o.kind (value_of properties o)) checked in
    (type, there, check_known-Each type.options properties known, valid, holds)
