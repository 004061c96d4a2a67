-- ===== src/Platform/Devices.antt =====
-- `register_builtin_devices` of src/platform.cpp. What the host gives to the factories is the interface
-- `Host`: the backend over the files opened, and the memory that `mmap` returns, if it does.
use Prim.Native.String.{String}
use text.Mathlib.Text.{◌==◌ as str_eq}
use verilator_axi_testbench.Common.{
  ℕ, ◌/◌, if◌then◌else◌, List, [], ◌∷◌, Option, none, some, Result, ok, ◌>>=◌, u64_max,
}
use verilator_axi_testbench.Memory.{make_rom, make_ram}
use verilator_axi_testbench.Exit.{fresh_exit}
use verilator_axi_testbench.Uart.State.{make_uart, set_character_cycles, set_input_poll_cycles}
use verilator_axi_testbench.Builtin.{Builtin, rom, ram, uart, exit}
use verilator_axi_testbench.Platform.Registry.{
  DeviceOption, DeviceRegistry, Properties, text_kind, unsigned_kind, add, config_text,
  config_number,
}
use verilator_axi_testbench.Platform.Build.{Pins}

pub record Host (B : Type 0) : Type 0 where
  -- the paths of input and output
  pub open_backend : String → String → Result B
  pub map_memory : ℕ → Option (List ℕ)

abbrev pub memory_options : List DeviceOption
memory_options =
    record {
      name = "size";
      kind = unsigned_kind;
      default_value = "65536";
      help = "Memory capacity in bytes";
      minimum = 1;
      maximum = u64_max;
    }
    ∷ record {
      name = "image";
      kind = text_kind;
      default_value = "";
      help = "Raw image loaded at the device's sole mapping";
      minimum = 0;
      maximum = u64_max;
    }
    ∷ []

abbrev pub uart_options : List DeviceOption
uart_options =
    record {
      name = "input";
      kind = text_kind;
      default_value = "-";
      help = "Input file, or - for stdin";
      minimum = 0;
      maximum = u64_max;
    }
    ∷ record {
      name = "output";
      kind = text_kind;
      default_value = "-";
      help = "Output file, or - for stdout";
      minimum = 0;
      maximum = u64_max;
    }
    ∷ record {
      name = "character-cycles";
      kind = unsigned_kind;
      default_value = "16";
      help = "Simulated cycles per RX timeout character";
      minimum = 1;
      maximum = u64_max / 4;
    }
    ∷ record {
      name = "input-poll-cycles";
      kind = unsigned_kind;
      default_value = "1024";
      help = "Cycles between empty host input polls (1 for immediate polling)";
      minimum = 1;
      maximum = u64_max;
    }
    ∷ []

module _ {B : Type 0} where
  unfoldable pub create_rom : Properties → Result (Option (Builtin B))
  unfolding config_number make_rom
  create_rom c = do size ← config_number c "size"; d ← make_rom [] size; ok (some (rom d))

  unfoldable pub create_ram : Host B → Properties → Result (Option (Builtin B))
  unfolding config_number make_ram
  create_ram host c = do
    size ← config_number c "size"
    d ← make_ram size (host.map_memory size)
    ok (some (ram d))

  unfoldable pub create_uart : Host B → Properties → Result (Option (Builtin B))
  unfolding config_text config_number make_uart set_character_cycles set_input_poll_cycles
  create_uart host c = do
    input ← config_text c "input"
    output ← config_text c "output"
    backend ← host.open_backend input output
    character_cycles ← config_number c "character-cycles"
    with_cycles ← set_character_cycles (make_uart backend) character_cycles
    poll_cycles ← config_number c "input-poll-cycles"
    d ← set_input_poll_cycles with_cycles poll_cycles
    ok (some (uart d))

  unfoldable pub register_builtin_devices :
      Host B → DeviceRegistry (Builtin B) → Result (DeviceRegistry (Builtin B))
  unfolding add create_rom create_ram create_uart
  register_builtin_devices host registry = do
    with_rom ←
        add "rom"
          (record { options = memory_options; create = some create_rom; image_option = "image" })
          registry
    with_ram ←
        add "ram"
          (record {
            options = memory_options;
            create = some (create_ram host);
            image_option = "image";
          })
          with_rom
    with_uart ←
        add "uart"
          (record { options = uart_options; create = some (create_uart host); image_option = "" })
          with_ram
    add "exit"
        (record {
          options = [];
          create = some (λ c. ok (some (exit fresh_exit)));
          image_option = "";
        })
        with_uart

  unfoldable pub irq_width : Builtin B → String → Option ℕ
  irq_width (rom d) port = none
  irq_width (ram d) port = none
  irq_width (uart d) port = if str_eq port "irq" then some 1 else none
  irq_width (exit d) port = none

  -- The pins of the built-in devices: the interrupt line of the UART.
  instance abbrev pub builtin_pins : Pins (Builtin B)
  unfolding irq_width
  builtin_pins = record { input = λ d port. none; output_width = irq_width }
