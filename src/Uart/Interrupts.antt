-- ===== src/Uart/Interrupts.antt =====
-- When `UartDevice` of src/devices.cpp raises its interrupt line.
use verilator_axi_testbench.Common.{
  ℕ, ◌||◌, ◌*◌, ◌≤◌, ◌≡◌, ◌≢◌, ◌↔◌, inl, inr, Bool, true, not, ◌==◌, ◌!=◌, ◌&&◌, leb, if◌then◌else◌,
  arith, Bool-cases, bit_and, bit_or,
}
use verilator_axi_testbench.Ring.{empty}
use verilator_axi_testbench.Uart.State.{UartDevice, has}
use verilator_axi_testbench.Uart.{trigger, interrupt_identification, uart_settle}

-- An enabled condition that asks for attention.
pub data Pending {B : Type 0} (u : UartDevice B) : Type 0 where
  overran : has u.interrupt_enable 4 ≡ true → u.overrun ≡ true → Pending u
  reached : has u.interrupt_enable 1 ≡ true → trigger u ≤ u.receive_fifo.size → Pending u
  timed_out :
      has u.interrupt_enable 1 ≡ true
      → has u.fifo_control 1 ≡ true
      → u.receive_fifo.size ≢ 0
      → 4 * u.character_cycles ≤ u.receive_idle_cycles
      → Pending u
  sent : has u.interrupt_enable 2 ≡ true → u.thre_pending ≡ true → Pending u
  modem_changed : has u.interrupt_enable 8 ≡ true → u.modem_delta ≢ 0 → Pending u

module _ {B : Type 0} (u : UartDevice B) where
  -- The conditions, in their order of priority.
  abbrev line_status_pending : Bool
  line_status_pending = has u.interrupt_enable 4 && u.overrun

  abbrev received_pending : Bool
  received_pending = has u.interrupt_enable 1 && leb (trigger u) u.receive_fifo.size

  abbrev timeout_pending : Bool
  timeout_pending =
      has u.interrupt_enable 1
      && not (empty u.receive_fifo)
      && has u.fifo_control 1
      && leb (4 * u.character_cycles) u.receive_idle_cycles

  abbrev sent_pending : Bool
  sent_pending = has u.interrupt_enable 2 && u.thre_pending

  abbrev modem_pending : Bool
  modem_pending = has u.interrupt_enable 8 && u.modem_delta != 0

  irq-eq : (uart_settle u).irq ≡ (
      if line_status_pending || received_pending || timeout_pending || sent_pending || modem_pending
      then 1
      else 0)
  unfolding uart_settle interrupt_identification
  irq-eq =
      go line_status_pending received_pending timeout_pending sent_pending modem_pending
        (has u.fifo_control 1)
    where
      line : ℕ → ℕ
      line identification = if bit_and identification 1 == 0 then 1 else 0

      code : Bool → Bool → Bool → Bool → Bool → ℕ → ℕ
      code a b c d e fifo_bits =
          if a
          then bit_or fifo_bits 0x06
          else if b
          then bit_or fifo_bits 0x04
          else if c
          then bit_or fifo_bits 0x0c
          else if d
          then bit_or fifo_bits 0x02
          else if e
          then bit_or fifo_bits 0x00
          else bit_or fifo_bits 0x01

      go :
          (a b c d e fifo : Bool)
          → line (code a b c d e (if fifo then 0xc0 else 0))
            ≡ (if a || b || c || d || e then 1 else 0)
      go a b c d e fifo = ground arith

  -- The line is high exactly while an enabled condition is pending.
  pub uart_settle-irq : (((uart_settle u).irq ≡ 1) ↔ Pending u) × ((uart_settle u).irq ≤ 1)
  unfolding empty
  uart_settle-irq = ((λ h. from h, λ c. to c), rw irq-eq (ground arith))
    where
      from : (uart_settle u).irq ≡ 1 → Pending u
      from h = elim (Bool-cases line_status_pending) [
        | inl on ↦ overran (ground arith) (ground arith)
        | inr a ↦ elim (Bool-cases received_pending) [
          | inl on ↦ reached (ground arith) (ground arith)
          | inr b ↦ elim (Bool-cases timeout_pending) [
            | inl on ↦ timed_out (ground arith) (ground arith) (ground arith) (ground arith)
            | inr c ↦ elim (Bool-cases sent_pending) [
              | inl on ↦ sent (ground arith) (ground arith)
              | inr d ↦ elim (Bool-cases modem_pending) [
                | inl on ↦ modem_changed (ground arith) (ground arith)
                | inr e ↦ absurd (ground (arith, irq-eq, a, b, c, d, e, h))
              ]
            ]
          ]
        ]
      ]

      to : Pending u → (uart_settle u).irq ≡ 1
      to (overran a b) = rw irq-eq (ground arith)
      to (reached a b) = rw irq-eq (ground arith)
      to (timed_out a b c d) = rw irq-eq (ground arith)
      to (sent a b) = rw irq-eq (ground arith)
      to (modem_changed a b) = rw irq-eq (ground arith)
