-- ===== src/Platform/Spec.antt =====
-- `PlatformSpec` and `default_platform` of src/platform.cpp.
use Prim.Native.String.{String}
use text.Mathlib.Text.{◌==◌ as str_eq}
use verilator_axi_testbench.Common.{
  ℕ, Bool, true, if◌then◌else◌, List, [], ◌∷◌, ◌++◌, Option, none, some, Result, ok, err,
  invalid_argument, ◌>>=◌,
}
use verilator_axi_testbench.Platform.Text.{split_at, endpoint, to_string}
use verilator_axi_testbench.Platform.Registry.{Properties}

pub record DeviceSpec : Type 0 where
  pub id : String
  pub type : String
  pub properties : Properties

pub record MappingSpec : Type 0 where
  pub device : String
  pub base : ℕ
  pub size : ℕ

pub record ConnectionSpec : Type 0 where
  pub source : String
  pub destination : String

pub record PlatformSpec : Type 0 where
  pub devices : List DeviceSpec
  pub mappings : List MappingSpec
  pub connections : List ConnectionSpec

unfoldable pub find_device : String → List DeviceSpec → Option DeviceSpec
find_device id [] = none
find_device id (d ∷ devices) =
    let later = find_device id devices in if str_eq d.id id then some d else later

-- `PlatformSpec::device`, whose reference the callers below write through by `with_property`.
unfoldable pub spec_device : PlatformSpec → String → Result DeviceSpec
unfolding find_device
spec_device spec id = elim (find_device id spec.devices) [
  | none ↦ err invalid_argument
  | some d ↦ ok d
]

-- The three uses of `std::erase_if`.
unfoldable pub erase_devices : String → List DeviceSpec → List DeviceSpec
erase_devices id [] = []
erase_devices id (d ∷ devices) =
    let rest = erase_devices id devices in if str_eq d.id id then rest else d ∷ rest

unfoldable pub erase_mappings : String → List MappingSpec → List MappingSpec
erase_mappings id [] = []
erase_mappings id (m ∷ mappings) =
    let rest = erase_mappings id mappings in if str_eq m.device id then rest else m ∷ rest

-- `endpoint(c.source).first == id || endpoint(c.destination).first == id`
unfoldable pub touches : String → ConnectionSpec → Result Bool
unfolding endpoint
touches id c = do
  (source, port) ← endpoint c.source
  (if str_eq source id
      then ok true
      else do (destination, port') ← endpoint c.destination; ok (str_eq destination id))

unfoldable pub erase_connections : String → List ConnectionSpec → Result (List ConnectionSpec)
unfolding touches
erase_connections id [] = ok []
erase_connections id (c ∷ connections) = do
  gone ← touches id c
  rest ← erase_connections id connections
  ok (if gone then rest else c ∷ rest)

unfoldable pub remove : String → PlatformSpec → Result PlatformSpec
unfolding spec_device erase_devices erase_mappings erase_connections
remove id spec = do
  _ ← spec_device spec id
  connections ← erase_connections id spec.connections
  ok (record {
    devices = erase_devices id spec.devices;
    mappings = erase_mappings id spec.mappings;
    connections = connections;
  })

-- `PlatformSpec::map`
unfoldable pub map_spec : String → ℕ → ℕ → PlatformSpec → Result PlatformSpec
unfolding spec_device erase_mappings
map_spec id base size spec = do
  _ ← spec_device spec id
  ok (record spec {
    mappings =
        erase_mappings id spec.mappings ++ record { device = id; base = base; size = size } ∷ [];
  })

-- `properties[key] = value`
unfoldable pub put_property : String → String → Properties → Properties
put_property key value [] = (key, value) ∷ []
put_property key value ((k, v) ∷ properties) =
    let rest = (k, v) ∷ put_property key value properties in
    if str_eq k key then (k, value) ∷ properties else rest

-- The write through `device(id)`, which is the first device of that name.
unfoldable pub with_property : String → String → String → List DeviceSpec → List DeviceSpec
unfolding put_property
with_property id key value [] = []
with_property id key value (d ∷ devices) =
    let rest = d ∷ with_property id key value devices in
    if str_eq d.id id
    then record d { properties = put_property key value d.properties } ∷ devices
    else rest

unfoldable pub assignment_parts : Option (String × String) → Result (String × String)
assignment_parts none = err invalid_argument
assignment_parts (some parts) = ok parts

-- `PlatformSpec::set`
unfoldable pub set_spec : String → PlatformSpec → Result PlatformSpec
unfolding assignment_parts split_at endpoint spec_device with_property
set_spec assignment spec = do
  (target, value) ← assignment_parts (split_at b'=' assignment)
  (id, key) ← endpoint target
  _ ← spec_device spec id
  ok (record spec { devices = with_property id key value spec.devices })

pub record DefaultMap : Type 0 where
  pub rom_base : ℕ
  pub rom_size : ℕ
  pub ram_base : ℕ
  pub ram_size : ℕ
  pub uart_base : ℕ
  pub uart_size : ℕ
  pub exit_base : ℕ
  pub exit_size : ℕ

abbrev pub default_map : DefaultMap
default_map = record {
  rom_base = 0;
  rom_size = 0x10000;
  ram_base = 0x8000_0000;
  ram_size = 0x0800_0000;
  uart_base = 0x1000_0000;
  uart_size = 0x100;
  exit_base = 0x1000_1000;
  exit_size = 4;
}

unfoldable pub default_platform : DefaultMap → PlatformSpec
unfolding to_string
default_platform map = record {
  devices =
      record { id = "rom"; type = "rom"; properties = ("size", to_string map.rom_size) ∷ [] }
      ∷ record { id = "ram"; type = "ram"; properties = ("size", to_string map.ram_size) ∷ [] }
      ∷ record { id = "uart"; type = "uart"; properties = [] }
      ∷ record { id = "exit"; type = "exit"; properties = [] }
      ∷ [];
  mappings =
      record { device = "rom"; base = map.rom_base; size = map.rom_size }
      ∷ record { device = "ram"; base = map.ram_base; size = map.ram_size }
      ∷ record { device = "uart"; base = map.uart_base; size = map.uart_size }
      ∷ record { device = "exit"; base = map.exit_base; size = map.exit_size }
      ∷ [];
  connections = [];
}
