-- ===== src/Platform/Build.antt =====
-- `Platform` of src/platform.cpp: its construction and its cycles. The devices stand in a list in the
-- order of the description; a device is its index there. The pins of a device, by name, are the
-- interface `Pins`; the values on them, which a device reads through the pins connected, are its own.
use Prim.Native.String.{String}
use text.Mathlib.Text.{◌==◌ as str_eq}
use verilator_axi_testbench.Common.{
  ℕ, suc, ◌-◌, Bool, false, ◌==◌, ◌&&◌, ◌||◌, ltb, leb, if◌then◌else◌, List, [], ◌∷◌, ◌++◌, Option,
  none, some, Result, ok, err, invalid_argument, bad_index, throw_if, ◌>>=◌, ◌>>◌, u32_mod,
}
use verilator_axi_testbench.Space.{AddressSpace, map_device}
use verilator_axi_testbench.Platform.Text.{is_empty, validate_name}
use verilator_axi_testbench.Platform.Registry.{
  Properties, DeviceRegistry, lookup, is_some, configure, type_of, config_text,
}
use verilator_axi_testbench.Platform.Spec.{DeviceSpec, MappingSpec}

-- `Device::input` and `Device::output`: an input is a pin of the device with its width, and an output
-- has a width.
pub record Pins {ℓ} (D : Type ℓ) : Type ℓ where
  pub input : D → String → Option (ℕ × ℕ)
  pub output_width : D → String → Option ℕ

pub record RawImage : Type 0 where
  pub path : String
  pub address : ℕ

-- The pin of a device and the output that drives it: `InputSignal::source`.
pub record Driver : Type 0 where
  pub device : ℕ
  pub pin : ℕ
  pub source : String

pub record Platform {ℓ} (D : Type ℓ) : Type ℓ where
  pub ids : List String
  pub devices : List D
  pub order : List ℕ
  pub space : AddressSpace
  pub images : List RawImage
  pub drivers : List Driver
  pub was_reset : Bool

abbrev pub ids_of : List DeviceSpec → List String
ids_of [] = []
ids_of (d ∷ devices) = d.id ∷ ids_of devices

-- `devices_.find(id)`, as the index of the device.
unfoldable pub index_of : String → ℕ → List String → Result ℕ
index_of id i [] = err invalid_argument
index_of id i (x ∷ ids) = let later = index_of id (suc i) ids in if str_eq x id then ok i else later

-- `Platform::device`
unfoldable pub device_index : List String → String → Result ℕ
unfolding index_of
device_index ids id = index_of id 0 ids

-- `std::ranges::count` and `find` over the mappings of a device.
unfoldable pub mappings_of : String → List MappingSpec → List MappingSpec
mappings_of id [] = []
mappings_of id (m ∷ mappings) =
    let rest = mappings_of id mappings in if str_eq m.device id then m ∷ rest else rest

-- The single mapping of a device that has an image.
unfoldable pub sole_mapping : List MappingSpec → Result MappingSpec
sole_mapping [] = err invalid_argument
sole_mapping (m ∷ []) = ok m
sole_mapping (m ∷ n ∷ mappings) = err invalid_argument

abbrev pub not_null {ℓ} : {D : Type ℓ} → Option D → Result D
not_null none = err invalid_argument
not_null (some d) = ok d

abbrev pub drives : ℕ → ℕ → Driver → Bool
drives device pin d = d.device == device && d.pin == pin

unfoldable pub has_driver : ℕ → ℕ → List Driver → Bool
has_driver device pin [] = false
has_driver device pin (d ∷ drivers) = drives device pin d || has_driver device pin drivers

unfoldable pub map_all : ℕ → List String → List MappingSpec → AddressSpace → Result AddressSpace
unfolding device_index map_device
map_all address_bits ids [] space = ok space
map_all address_bits ids (m ∷ mappings) space = do
  throw_if (address_bits == 32 && (leb u32_mod m.base || ltb (u32_mod - m.base) m.size))
      invalid_argument
  index ← device_index ids m.device
  space' ← map_device space m.base m.size index m.device
  map_all address_bits ids mappings space'

-- `configs.at(id)`
unfoldable pub config_at : String → List (String × Properties) → Result Properties
unfolding lookup
config_at id configs = elim (lookup id configs) [ none ↦ err bad_index | some config ↦ ok config ]

unfoldable pub image_of :
    List MappingSpec → DeviceSpec → String → Result String → Result (List RawImage)
unfolding mappings_of sole_mapping
image_of mappings d key value = if is_empty key then ok [] else do
  path ← value
  (if is_empty path then ok [] else do
    m ← sole_mapping (mappings_of d.id mappings)
    ok (record { path = path; address = m.base } ∷ []))

module _ {ℓ} {D : Type ℓ} where
  -- The first loop of the constructor: the configurations, each under its identifier.
  unfoldable pub configure_all :
      DeviceRegistry D
      → List DeviceSpec
      → List (String × Properties)
      → Result (List (String × Properties))
  unfolding validate_name configure lookup
  configure_all registry [] configs = ok configs
  configure_all registry (d ∷ devices) configs = do
    validate_name d.id
    config ← configure registry d.type d.properties
    throw_if (is_some (lookup d.id configs)) invalid_argument
    configure_all registry devices (configs ++ (d.id, config) ∷ [])

  abbrev pub run_factory : Option (Properties → Result (Option D)) → Properties → Result (Option D)
  run_factory none config = err bad_index
  run_factory (some create) config = create config

  unfoldable pub create_all :
      DeviceRegistry D → List (String × Properties) → List DeviceSpec → Result (List D)
  unfolding type_of config_at
  create_all registry configs [] = ok []
  create_all registry configs (d ∷ devices) = do
    type ← type_of registry d.type
    config ← config_at d.id configs
    created ← run_factory type.create config
    device ← not_null created
    rest ← create_all registry configs devices
    ok (device ∷ rest)

  unfoldable pub collect_images :
      DeviceRegistry D
      → List (String × Properties)
      → List MappingSpec
      → List DeviceSpec
      → Result (List RawImage)
  unfolding type_of config_at config_text image_of
  collect_images registry configs mappings [] = ok []
  collect_images registry configs mappings (d ∷ devices) = do
    type ← type_of registry d.type
    config ← config_at d.id configs
    images ← image_of mappings d type.image_option (config_text config type.image_option)
    rest ← collect_images registry configs mappings devices
    ok (images ++ rest)
