-- ===== src/Platform/Registry.antt =====
-- `DeviceConfig` and `DeviceRegistry` of src/platform.cpp. A `std::map` is a list of pairs with one pair
-- for each key. A factory is given as what it makes of a configuration: a throw, a null pointer or a
-- device; the host services that it may use are its own.
use Prim.Native.String.{String}
use text.Mathlib.Text.{◌==◌ as str_eq}
use verilator_axi_testbench.Common.{
  ℕ, Bool, true, false, not, ◌&&◌, ◌||◌, ltb, if◌then◌else◌, List, [], ◌∷◌, ◌++◌, Option, none,
  some, Result, ok, err, invalid_argument, throw_if, ◌>>=◌, ◌>>◌,
}
use verilator_axi_testbench.Platform.Text.{is_empty, validate_name, parse_unsigned}

abbrev pub Properties : Type 0
Properties = List (String × String)

module _ {ℓ} {V : Type ℓ} where
  -- `std::map::find`
  unfoldable pub lookup : String → List (String × V) → Option V
  lookup name [] = none
  lookup name ((key, value) ∷ rest) =
      let later = lookup name rest in if str_eq key name then some value else later

  abbrev pub found : Option V → Result V
  found none = err invalid_argument
  found (some value) = ok value

  abbrev pub is_some : Option V → Bool
  is_some none = false
  is_some (some value) = true

pub data OptionKind : Type 0 where
  text_kind unsigned_kind boolean_kind : OptionKind

pub record DeviceOption : Type 0 where
  pub name : String
  pub kind : OptionKind
  pub default_value : String
  pub help : String
  pub minimum : ℕ
  pub maximum : ℕ

abbrev pub is_text_kind : OptionKind → Bool
is_text_kind text_kind = true
is_text_kind unsigned_kind = false
is_text_kind boolean_kind = false

-- `DeviceConfig::text`, `number` and `boolean`.
unfoldable pub config_text : Properties → String → Result String
unfolding lookup
config_text values name = found (lookup name values)

unfoldable pub config_number : Properties → String → Result ℕ
unfolding config_text parse_unsigned
config_number values name = do value ← config_text values name; parse_unsigned value

unfoldable pub config_boolean : Properties → String → Result Bool
unfolding config_text
config_boolean values name = do value ← config_text values name; ok (str_eq value "true")

pub record DeviceType {ℓ} (D : Type ℓ) : Type ℓ where
  pub options : List DeviceOption
  pub create : Option (Properties → Result (Option D))
  pub image_option : String

-- `std::ranges::find` of an option by its name.
unfoldable pub find_option : String → List DeviceOption → Option DeviceOption
find_option name [] = none
find_option name (o ∷ options) =
    let later = find_option name options in if str_eq o.name name then some o else later

unfoldable pub has_name : String → List String → Bool
has_name name [] = false
has_name name (n ∷ names) = str_eq n name || has_name name names

-- The loop of `add` over the options, with the names of those before.
unfoldable pub check_options : List String → List DeviceOption → Result (Unit {0})
unfolding has_name validate_name
check_options names [] = ok tt
check_options names (o ∷ options) = do
  validate_name o.name
  throw_if (has_name o.name names) invalid_argument
  throw_if (ltb o.maximum o.minimum) invalid_argument
  check_options (o.name ∷ names) options

unfoldable pub check_image_option : String → Option DeviceOption → Result (Unit {0})
check_image_option name none = throw_if (not (is_empty name)) invalid_argument
check_image_option name (some o) =
    throw_if (not (is_empty name) && not (is_text_kind o.kind)) invalid_argument

-- The loop of `configure` over the properties given.
unfoldable pub check_known : List DeviceOption → Properties → Result (Unit {0})
unfolding find_option
check_known schema [] = ok tt
check_known schema ((key, value) ∷ properties) = do
  throw_if (not (is_some (find_option key schema))) invalid_argument
  check_known schema properties

abbrev pub given_or : String → Option String → String
given_or default none = default
given_or default (some value) = value

unfoldable pub check_value : DeviceOption → OptionKind → String → Result (Unit {0})
unfolding parse_unsigned
check_value o text_kind value = ok tt
check_value o unsigned_kind value = do
  number ← parse_unsigned value
  throw_if (ltb number o.minimum || ltb o.maximum number) invalid_argument
check_value o boolean_kind value =
    throw_if (not (str_eq value "true") && not (str_eq value "false")) invalid_argument

-- `std::map::emplace`, which keeps an element that is there.
unfoldable pub emplace {ℓ} : {V : Type ℓ} → String → V → List (String × V) → List (String × V)
unfolding lookup
emplace name value values =
    if is_some (lookup name values) then values else values ++ (name, value) ∷ []

-- The loop of `configure` over the schema.
unfoldable pub fill_options : Properties → Properties → List DeviceOption → Result Properties
unfolding lookup check_value emplace
fill_options properties result [] = ok result
fill_options properties result (o ∷ schema) =
    let value = given_or o.default_value (lookup o.name properties) in
    do check_value o o.kind value; fill_options properties (emplace o.name value result) schema

abbrev pub DeviceRegistry {ℓ} : Type ℓ → Type ℓ
DeviceRegistry D = List (String × DeviceType D)

module _ {ℓ} {D : Type ℓ} where
  unfoldable pub add : String → DeviceType D → DeviceRegistry D → Result (DeviceRegistry D)
  unfolding lookup check_options check_image_option find_option validate_name
  add name type types = do
    validate_name name
    throw_if (not (is_some type.create)) invalid_argument
    check_options [] type.options
    check_image_option type.image_option (find_option type.image_option type.options)
    throw_if (is_some (lookup name types)) invalid_argument
    ok (types ++ (name, type) ∷ [])

  unfoldable pub type_of : DeviceRegistry D → String → Result (DeviceType D)
  unfolding lookup
  type_of types name = found (lookup name types)

  unfoldable pub configure : DeviceRegistry D → String → Properties → Result Properties
  unfolding type_of check_known fill_options
  configure types name properties = do
    type ← type_of types name
    check_known type.options properties
    fill_options properties [] type.options
