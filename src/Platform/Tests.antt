-- ===== src/Platform/Tests.antt =====
-- The platform of src/platform.cpp with the built-in devices, small memories and a buffer behind the UART.
use Prim.Native.String.{String}
use verilator_axi_testbench.Common.{
  ◌≡◌, ◌≢◌, refl, true, false, [], ◌∷◌, none, ok, arith, Each, or_same,
}
use verilator_axi_testbench.Builtin.{Builtin, exit, builtin_device}
use verilator_axi_testbench.Uart.State.{BufferUartBackend, buffer_backend}
use verilator_axi_testbench.Space.{empty_space}
use verilator_axi_testbench.Platform.Text.{parse_unsigned, to_string}
use verilator_axi_testbench.Platform.Decimal.{parse_unsigned-to_string}
use verilator_axi_testbench.Platform.Registry.{
  Properties, DeviceType, DeviceRegistry, lookup, is_some, find_option, type_of, configure,
}
use verilator_axi_testbench.Platform.Spec.{
  DefaultMap, PlatformSpec, default_platform, default_map, remove,
}
use verilator_axi_testbench.Platform.Removal.{Without, Touches, Avoids, remove-Without}
use verilator_axi_testbench.Platform.Options.{IsValue, value_of, expected, configure-lookup}
use verilator_axi_testbench.Platform.Build.{Platform}
use verilator_axi_testbench.Platform.Connect.{make_platform}
use verilator_axi_testbench.Platform.Devices.{Host, builtin_pins, register_builtin_devices}

abbrev Board : Type 0
Board = Builtin BufferUartBackend

abbrev host : Host BufferUartBackend
host = record {
  open_backend = λ input output. ok (record { input = []; output = [] });
  map_memory = λ size. none;
}

abbrev registry : DeviceRegistry Board
registry = or_same [] (register_builtin_devices host [])

abbrev small_map : DefaultMap
small_map = record default_map { rom_size = 8; ram_size = 4 }

parse_unsigned-to_string_example : parse_unsigned (to_string 65536) ≡ ok 65536
parse_unsigned-to_string_example = parse_unsigned-to_string 65536 (omega arith)

abbrev config : Properties
config = ("size", "4") ∷ ("image", "") ∷ []

configure_run : configure registry "ram" (("size", "4") ∷ []) ≡ ok config
unfolding configure register_builtin_devices
configure_run = refl

configure-lookup_example :
    (type : DeviceType Board) × (type_of registry "ram" ≡ ok type)
    × Each
        (λ (p : String × String). is_some (find_option p.0 type.options) ≡ true)
        (("size", "4") ∷ [])
    × Each (λ o. IsValue o o.kind (value_of (("size", "4") ∷ []) o)) type.options
    × ((key : String)
        → lookup key config ≡ expected (("size", "4") ∷ []) (find_option key type.options))
configure-lookup_example = configure-lookup registry "ram" (("size", "4") ∷ []) config configure_run

abbrev smaller : PlatformSpec
smaller = or_same (default_platform small_map) (remove "uart" (default_platform small_map))

remove_run : remove "uart" (default_platform small_map) ≡ ok smaller
unfolding remove default_platform
remove_run = refl

remove-Without_example :
    Without
      (λ d. d.id ≡ "uart")
      (λ d. d.id ≢ "uart")
      (default_platform small_map).devices
      smaller.devices
    × Without
        (λ m. m.device ≡ "uart")
        (λ m. m.device ≢ "uart")
        (default_platform small_map).mappings
        smaller.mappings
    × Without
        (Touches "uart")
        (Avoids "uart")
        (default_platform small_map).connections
        smaller.connections
remove-Without_example = remove-Without "uart" (default_platform small_map) smaller remove_run

-- The description with the UART removed becomes a platform of three devices.
platform_order :
    (p : Platform Board) × (make_platform registry smaller 32 ≡ ok p) × (p.order ≡ 0 ∷ 1 ∷ 2 ∷ [])
unfolding make_platform register_builtin_devices remove default_platform
platform_order = (_, refl, refl)

abbrev running : Platform Board
running = record {
  ids = "exit" ∷ [];
  devices = exit (record { requested = true; code = 5; generation = 1 }) ∷ [];
  order = 0 ∷ [];
  space = empty_space;
  images = [];
  drivers = [];
  was_reset = false;
}
