-- ===== src/Uart/State.antt =====
-- The state of `UartDevice` in src/devices.hpp: its backend, registers and counters; their reset and
-- their settings.
use verilator_axi_testbench.Common.{
  ℕ, ◌/◌, Bool, true, false, ◌==◌, ◌!=◌, ◌||◌, ltb, if◌then◌else◌, List, [], ◌∷◌, ◌++◌, Option,
  none, some, Result, ok, invalid_argument, throw_if, ◌>>◌, bit_and, u64_max,
}
use verilator_axi_testbench.Ring.{RingBuffer, fresh, clear}

-- What a UART asks of its backend: a byte if there is one, and to take a byte.
pub record Backend (B : Type 0) : Type 0 where
  pub try_read : B → Option ℕ × B
  pub write : B → ℕ → B
  pub flush : B → B

-- `BufferUartBackend`
pub record BufferUartBackend : Type 0 where
  pub input : List ℕ
  pub output : List ℕ

unfoldable pub push_input : BufferUartBackend → List ℕ → BufferUartBackend
push_input b bytes = record b { input = b.input ++ bytes }

unfoldable pub buffer_try_read : List ℕ → List ℕ → Option ℕ × BufferUartBackend
buffer_try_read [] output = (none, record { input = []; output = output })
buffer_try_read (byte ∷ input) output = (some byte, record { input = input; output = output })

instance abbrev pub buffer_backend : Backend BufferUartBackend
unfolding buffer_try_read
buffer_backend = record {
  try_read = λ b. buffer_try_read b.input b.output;
  write = λ b byte. record b { output = b.output ++ byte ∷ [] };
  flush = λ b. b;
}

abbrev pub fifo_depth : ℕ
fifo_depth = 16

abbrev pub register_span : ℕ
register_span = 8

pub record UartDevice (B : Type 0) : Type 0 where
  pub backend : B
  pub receive_fifo : RingBuffer ℕ
  pub divisor_low : ℕ
  pub divisor_high : ℕ
  pub interrupt_enable : ℕ
  pub line_control : ℕ
  pub modem_control : ℕ
  pub scratch : ℕ
  pub fifo_control : ℕ
  pub irq : ℕ
  pub character_cycles : ℕ
  pub receive_idle_cycles : ℕ
  pub input_poll_cycles : ℕ
  pub input_poll_remaining : ℕ
  pub thre_pending : Bool
  pub tx_pending : Bool
  pub overrun : Bool
  pub modem_status : ℕ
  pub modem_delta : ℕ

-- `(value & mask) != 0`
abbrev pub has : ℕ → ℕ → Bool
has value mask = bit_and value mask != 0

module _ {B : Type 0} where
  -- `reset`
  unfoldable pub uart_reset : UartDevice B → UartDevice B
  unfolding clear
  uart_reset u = record u {
    receive_fifo = clear u.receive_fifo;
    divisor_low = 0;
    divisor_high = 0;
    interrupt_enable = 0;
    line_control = 0;
    modem_control = 0;
    scratch = 0;
    fifo_control = 0;
    irq = 0;
    receive_idle_cycles = 0;
    input_poll_remaining = 0;
    thre_pending = true;
    tx_pending = false;
    overrun = false;
    modem_status = 0xb0;
    modem_delta = 0;
  }

  -- The constructor over a backend: the default member initialisers, then `reset`.
  unfoldable pub make_uart : B → UartDevice B
  unfolding fresh uart_reset
  make_uart backend = uart_reset (record {
    backend = backend;
    receive_fifo = fresh fifo_depth 0;
    divisor_low = 0;
    divisor_high = 0;
    interrupt_enable = 0;
    line_control = 0;
    modem_control = 0;
    scratch = 0;
    fifo_control = 0;
    irq = 0;
    character_cycles = 16;
    receive_idle_cycles = 0;
    input_poll_cycles = 1;
    input_poll_remaining = 0;
    thre_pending = true;
    tx_pending = false;
    overrun = false;
    modem_status = 0xb0;
    modem_delta = 0;
  })

  unfoldable pub set_character_cycles : UartDevice B → ℕ → Result (UartDevice B)
  set_character_cycles u cycles = do
    throw_if (cycles == 0 || ltb (u64_max / 4) cycles) invalid_argument
    ok (record u { character_cycles = cycles })

  unfoldable pub set_input_poll_cycles : UartDevice B → ℕ → Result (UartDevice B)
  set_input_poll_cycles u cycles = do
    throw_if (cycles == 0) invalid_argument
    ok (record u { input_poll_cycles = cycles; input_poll_remaining = 0 })

  -- The bytes that the receive FIFO may hold: 16, or one with the FIFO disabled.
  unfoldable pub capacity : UartDevice B → ℕ
  capacity u = if has u.fifo_control 1 then 16 else 1
