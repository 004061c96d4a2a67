-- ===== src/Builtin.antt =====
-- The devices that src/platform.cpp registers, as one type with the dispatch of their virtual
-- functions: what each class of src/devices.hpp overrides, and the defaults of src/device.hpp.
pub mod Loading
use verilator_axi_testbench.Common.{ℕ, Bool, true, false, List, length, Result, ok, ◌>>=◌}
use verilator_axi_testbench.Axi.{Response, slave_error}
use verilator_axi_testbench.Device.{Device}
use verilator_axi_testbench.Memory.{
  RomDevice, RamDevice, memory_read, memory_load, rom_write, ram_write, in_bounds,
}
use verilator_axi_testbench.Exit.{ExitDevice, exit_read, exit_write, exit_clear}
use verilator_axi_testbench.Uart.State.{Backend, UartDevice, uart_reset}
use verilator_axi_testbench.Uart.{uart_read, uart_write, uart_tick, uart_settle}

pub data Builtin (B : Type 0) : Type 0 where
  rom : RomDevice → Builtin B
  ram : RamDevice → Builtin B
  uart : UartDevice B → Builtin B
  exit : ExitDevice → Builtin B

module _ {B : Type 0} ⦃ops : Backend B⦄ where
  unfoldable pub builtin_read :
      Builtin B → ℕ → List ℕ → List ℕ → Result (Response × List ℕ × Builtin B)
  unfolding memory_read exit_read uart_read
  builtin_read (rom d) offset bytes enable =
      let (response, values) = memory_read d.bytes offset bytes enable in
      ok (response, values, rom d)
  builtin_read (ram d) offset bytes enable =
      let (response, values) = memory_read d.bytes offset bytes enable in
      ok (response, values, ram d)
  builtin_read (uart d) offset bytes enable = do
    (response, values, d') ← uart_read d offset bytes enable
    ok (response, values, uart d')
  builtin_read (exit d) offset bytes enable =
      let (response, values) = exit_read d offset bytes enable in ok (response, values, exit d)

  unfoldable pub builtin_write : Builtin B → ℕ → List ℕ → List ℕ → Result (Response × Builtin B)
  unfolding rom_write ram_write exit_write uart_write
  builtin_write (rom d) offset bytes strobe =
      let (response, d') = rom_write d offset bytes strobe in ok (response, rom d')
  builtin_write (ram d) offset bytes strobe =
      let (response, d') = ram_write d offset bytes strobe in ok (response, ram d')
  builtin_write (uart d) offset bytes strobe =
      let (response, d') = uart_write d offset bytes strobe in ok (response, uart d')
  builtin_write (exit d) offset bytes strobe =
      let (response, d') = exit_write d offset bytes strobe in ok (response, exit d')

  unfoldable pub builtin_load : Builtin B → ℕ → List ℕ → Response × Builtin B
  unfolding memory_load
  builtin_load (rom d) offset bytes =
      let (response, values) = memory_load d.bytes offset bytes in
      (response, rom (record d { bytes = values }))
  builtin_load (ram d) offset bytes =
      let (response, values) = memory_load d.bytes offset bytes in
      (response, ram (record d { bytes = values }))
  builtin_load (uart d) offset bytes = (slave_error, uart d)
  builtin_load (exit d) offset bytes = (slave_error, exit d)

  -- `loadable` and `supports_burst`, which are the same devices.
  unfoldable pub is_memory : Builtin B → Bool
  is_memory (rom d) = true
  is_memory (ram d) = true
  is_memory (uart d) = false
  is_memory (exit d) = false

  unfoldable pub builtin_can_load : Builtin B → ℕ → ℕ → Bool
  unfolding in_bounds
  builtin_can_load (rom d) offset size = in_bounds offset size (length d.bytes)
  builtin_can_load (ram d) offset size = in_bounds offset size (length d.bytes)
  builtin_can_load (uart d) offset size = false
  builtin_can_load (exit d) offset size = false

  unfoldable pub is_ram : Builtin B → Bool
  is_ram (rom d) = false
  is_ram (ram d) = true
  is_ram (uart d) = false
  is_ram (exit d) = false

  unfoldable pub is_exit_device : Builtin B → Bool
  is_exit_device (rom d) = false
  is_exit_device (ram d) = false
  is_exit_device (uart d) = false
  is_exit_device (exit d) = true

  unfoldable pub builtin_exit_code : Builtin B → ℕ
  builtin_exit_code (rom d) = 0
  builtin_exit_code (ram d) = 0
  builtin_exit_code (uart d) = 0
  builtin_exit_code (exit d) = d.code

  unfoldable pub builtin_reset : Builtin B → Builtin B
  unfolding uart_reset exit_clear
  builtin_reset (rom d) = rom d
  builtin_reset (ram d) = ram d
  builtin_reset (uart d) = uart (uart_reset d)
  builtin_reset (exit d) = exit (exit_clear d)

  unfoldable pub builtin_tick : Builtin B → Result (Builtin B)
  unfolding uart_tick
  builtin_tick (rom d) = ok (rom d)
  builtin_tick (ram d) = ok (ram d)
  builtin_tick (uart d) = ok (uart (uart_tick d))
  builtin_tick (exit d) = ok (exit d)

  unfoldable pub builtin_settle : Builtin B → Builtin B
  unfolding uart_settle
  builtin_settle (rom d) = rom d
  builtin_settle (ram d) = ram d
  builtin_settle (uart d) = uart (uart_settle d)
  builtin_settle (exit d) = exit d

  instance abbrev pub builtin_device : Device (Builtin B)
  builtin_device = record {
    read_impl = builtin_read;
    write_impl = builtin_write;
    load = builtin_load;
    loadable = is_memory;
    can_load = builtin_can_load;
    supports_exclusive = is_ram;
    supports_burst = is_memory;
    is_exit = is_exit_device;
    exit_code = builtin_exit_code;
    reset = builtin_reset;
    tick = builtin_tick;
    settle = builtin_settle;
  }
