-- ===== src/Uart.antt =====
-- The operations of `UartDevice` in src/devices.cpp, over the backend that supplies and takes its
-- bytes. The file backend is host input and output: `Backend` stands for it.
pub mod State
pub mod Fifo
pub mod Interrupts
pub mod Reads
pub mod Writes
mod Tests
use verilator_axi_testbench.Common.{
  ℕ, zero, suc, ◌+◌, ◌-◌, ◌*◌, ◌/◌, Bool, true, false, not, ◌==◌, ◌!=◌, ◌&&◌, ◌||◌, ltb, leb,
  if◌then◌else◌, List, [], ◌∷◌, ◌++◌, Option, none, some, length, get_or, Result, ok, err,
  invalid_argument, throw_if, ◌>>=◌, ◌>>◌, bit_and, bit_or, bit_xor, ◌<<<◌, ◌>>>◌, add_u64, u64_max,
}
use verilator_axi_testbench.Axi.{Response, okay, slave_error}
use verilator_axi_testbench.Ring.{RingBuffer, fresh, empty, front, push, pop, clear}
use verilator_axi_testbench.Memory.{in_bounds}
use State.{
  Backend, BufferUartBackend, push_input, buffer_try_read, buffer_backend, fifo_depth,
  register_span, UartDevice, has, uart_reset, make_uart, set_character_cycles,
  set_input_poll_cycles, capacity,
}

module _ {B : Type 0} where
  -- `TRIGGERS`, and the level that the FIFO control register selects.
  unfoldable pub trigger : UartDevice B → ℕ
  trigger u =
      if has u.fifo_control 1 then get_or (1 ∷ 4 ∷ 8 ∷ 14 ∷ []) (u.fifo_control >>> 6) 0 else 1

  unfoldable pub interrupt_identification : UartDevice B → ℕ
  unfolding trigger empty
  interrupt_identification u =
      let fifo_bits = if has u.fifo_control 1 then 0xc0 else 0 in
      if has u.interrupt_enable 4 && u.overrun
      then bit_or fifo_bits 0x06
      else if has u.interrupt_enable 1 && leb (trigger u) u.receive_fifo.size
      then bit_or fifo_bits 0x04
      else if has u.interrupt_enable 1
          && not (empty u.receive_fifo)
          && has u.fifo_control 1
          && leb (4 * u.character_cycles) u.receive_idle_cycles
      then bit_or fifo_bits 0x0c
      else if has u.interrupt_enable 2 && u.thre_pending
      then bit_or fifo_bits 0x02
      else if has u.interrupt_enable 8 && u.modem_delta != 0
      then bit_or fifo_bits 0x00
      else bit_or fifo_bits 0x01

  -- `settle`
  unfoldable pub uart_settle : UartDevice B → UartDevice B
  unfolding interrupt_identification
  uart_settle u = record u { irq = if bit_and (interrupt_identification u) 1 == 0 then 1 else 0 }

  -- `set_modem_control`
  unfoldable pub set_modem_control : UartDevice B → ℕ → UartDevice B
  set_modem_control u value =
      let previous = u.modem_status in
      let status =
        if bit_and value 0x10 == 0
        then 0xb0
        else bit_or
            (bit_or (bit_or (bit_and value 2 <<< 3) (bit_and value 1 <<< 5))
              (bit_and value 4 <<< 4))
            (bit_and value 8 <<< 4) in
      let changed = bit_xor previous status >>> 4 in
      record u {
        modem_control = bit_and value 0x1f;
        modem_status = status;
        modem_delta = bit_or u.modem_delta (
            bit_or (bit_and changed 0x0b)
              (if has previous 0x40 && not (has status 0x40) then 4 else 0));
      }

module _ {B : Type 0} ⦃ops : Backend B⦄ where
  -- The body of the loop of `poll_input`, and whether it goes on.
  unfoldable pub poll_step : UartDevice B → Option ℕ × B → UartDevice B × Bool
  unfolding push
  poll_step u (none, backend) = (
    record u {
      backend = backend;
      input_poll_remaining = if u.input_poll_cycles == 1 then 0 else u.input_poll_cycles;
    },
    false,
  )
  poll_step u (some value, backend) =
      let (fifo, done) = push fifo_depth u.receive_fifo value in
      if done
      then (record u { backend = backend; receive_fifo = fifo; receive_idle_cycles = 0 }, true)
      else (record u { backend = backend }, false)

  -- The loop of `poll_input`, with fuel: each round that goes on fills one place of the FIFO.
  unfoldable pub poll_loop : ℕ → UartDevice B → UartDevice B
  unfolding poll_step capacity
  poll_loop zero u = u
  poll_loop (suc fuel) u =
      let (u', more) = poll_step u (ops.try_read u.backend) in
      let rest = poll_loop fuel u' in
      let round = if more then rest else u' in
      if ltb u.receive_fifo.size (capacity u) then round else u

  -- `poll_input`
  unfoldable pub poll_input : UartDevice B → UartDevice B
  unfolding poll_loop
  poll_input u =
      let polled = poll_loop fifo_depth u in
      if has u.modem_control 0x10 || u.input_poll_remaining != 0 then u else polled

  -- The counters of `tick`.
  unfoldable pub count_cycle : UartDevice B → UartDevice B
  unfolding empty
  count_cycle u = record u {
    input_poll_remaining = if u.input_poll_remaining != 0 then u.input_poll_remaining - 1 else 0;
    tx_pending = false;
    thre_pending = u.tx_pending || u.thre_pending;
    receive_idle_cycles =
        if not (empty u.receive_fifo) && ltb u.receive_idle_cycles (4 * u.character_cycles)
        then u.receive_idle_cycles + 1
        else u.receive_idle_cycles;
  }

  -- `tick`
  unfoldable pub uart_tick : UartDevice B → UartDevice B
  unfolding count_cycle poll_input uart_settle
  uart_tick u = uart_settle (poll_input (count_cycle u))

  -- Register 0 without the divisor latch.
  unfoldable pub read_receive : UartDevice B → Result (ℕ × UartDevice B)
  unfolding empty front pop
  read_receive u =
      let received = (do
        value ← front u.receive_fifo
        fifo ← pop fifo_depth u.receive_fifo
        ok (value, record u { receive_fifo = fifo; receive_idle_cycles = 0 })) in
      if empty u.receive_fifo then ok (0, u) else received

  unfoldable pub line_status : UartDevice B → ℕ
  unfolding empty
  line_status u =
      bit_or (bit_or (if u.tx_pending then 0 else 0x60) (if u.overrun then 2 else 0))
        (if empty u.receive_fifo then 0 else 1)

  -- `read_register`
  unfoldable pub read_register : UartDevice B → ℕ → Result (ℕ × UartDevice B)
  unfolding read_receive interrupt_identification line_status
  read_register u index =
      let dlab = has u.line_control 0x80 in
      let receive = read_receive u in
      let identification = interrupt_identification u in
      if index == 0
      then (if dlab then ok (u.divisor_low, u) else receive)
      else if index == 1
      then ok (if dlab then u.divisor_high else u.interrupt_enable, u)
      else if index == 2
      then ok (
        identification,
        if bit_and identification 0x0f == 2 then record u { thre_pending = false } else u,
      )
      else if index == 3
      then ok (u.line_control, u)
      else if index == 4
      then ok (u.modem_control, u)
      else if index == 5
      then ok (line_status u, record u { overrun = false })
      else if index == 6
      then ok (bit_or u.modem_status u.modem_delta, record u { modem_delta = 0 })
      else if index == 7
      then ok (u.scratch, u)
      else ok (0, u)

  -- `transmit`
  unfoldable pub transmit : UartDevice B → ℕ → UartDevice B
  unfolding push capacity
  transmit u value =
      let started : UartDevice B = record u { thre_pending = false; tx_pending = true } in
      if has u.modem_control 0x10
      then (if leb (capacity u) u.receive_fifo.size
          then record started { overrun = true; receive_idle_cycles = 0 }
          else record started {
            receive_fifo = (push fifo_depth u.receive_fifo value).0;
            receive_idle_cycles = 0;
          })
      else record started { backend = ops.flush (ops.write u.backend value) }

  -- The FIFO control register.
  unfoldable pub write_fifo_control : UartDevice B → ℕ → UartDevice B
  unfolding clear
  write_fifo_control u value =
      let clears = has value 0x02 || has (bit_xor value u.fifo_control) 1 in
      record u {
        receive_fifo = if clears then clear u.receive_fifo else u.receive_fifo;
        receive_idle_cycles = if clears then 0 else u.receive_idle_cycles;
        tx_pending = if has value 0x04 then false else u.tx_pending;
        thre_pending = if has value 0x04 then true else u.thre_pending;
        fifo_control = bit_and value 0xc9;
      }

  -- The interrupt enable register.
  unfoldable pub write_interrupt_enable : UartDevice B → ℕ → UartDevice B
  write_interrupt_enable u value = record u {
    thre_pending =
        if has value 2 && bit_and u.interrupt_enable 2 == 0 && not u.tx_pending
        then true
        else u.thre_pending;
    interrupt_enable = bit_and value 0x0f;
  }

  -- `write_register`
  unfoldable pub write_register : UartDevice B → ℕ → ℕ → UartDevice B
  unfolding transmit write_interrupt_enable write_fifo_control set_modem_control
  write_register u index value =
      let dlab = has u.line_control 0x80 in
      if index == 0
      then (if dlab then record u { divisor_low = value } else transmit u value)
      else if index == 1
      then (if dlab then record u { divisor_high = value } else write_interrupt_enable u value)
      else if index == 2
      then write_fifo_control u value
      else if index == 3
      then record u { line_control = value }
      else if index == 4
      then set_modem_control u value
      else if index == 7
      then record u { scratch = value }
      else u

  -- The lane loops of `read_impl` and `write_impl`, from register `index` on.
  unfoldable pub read_registers :
      UartDevice B → ℕ → List ℕ → List ℕ → Result (List ℕ × UartDevice B)
  unfolding read_register
  read_registers u index (d ∷ bytes) (e ∷ enable) = do
    (value, u') ← if e != 0 then read_register u index else ok (d, u)
    (rest, u'') ← read_registers u' (index + 1) bytes enable
    ok (value ∷ rest, u'')
  read_registers u index bytes _ = ok (bytes, u)

  unfoldable pub write_registers : UartDevice B → ℕ → List ℕ → List ℕ → UartDevice B
  unfolding write_register
  write_registers u index (d ∷ bytes) (s ∷ strobe) =
      write_registers (if s != 0 then write_register u index d else u) (index + 1) bytes strobe
  write_registers u index _ _ = u

  -- `read_impl`
  unfoldable pub uart_read :
      UartDevice B → ℕ → List ℕ → List ℕ → Result (Response × List ℕ × UartDevice B)
  unfolding in_bounds poll_input read_registers uart_settle
  uart_read u offset bytes enable =
      let served = (do
        (values, u') ← read_registers (poll_input u) offset bytes enable
        ok (okay, values, uart_settle u')) in
      if not (in_bounds offset (length bytes) register_span)
      then ok (slave_error, bytes, u)
      else served

  -- `write_impl`
  unfoldable pub uart_write : UartDevice B → ℕ → List ℕ → List ℕ → Response × UartDevice B
  unfolding in_bounds write_registers uart_settle
  uart_write u offset bytes strobe =
      if not (in_bounds offset (length bytes) register_span)
      then (slave_error, u)
      else (okay, uart_settle (write_registers u offset bytes strobe))
