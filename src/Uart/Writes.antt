-- ===== src/Uart/Writes.antt =====
-- The write side of `UartDevice` in src/devices.cpp, on a valid UART.
use verilator_axi_testbench.Common.{
  ℕ, ◌+◌, ◌≡◌, refl, inl, inr, Bool, true, false, ◌==◌, ◌!=◌, ◌||◌, leb, if◌then◌else◌, List, [],
  ◌∷◌, length, arith, Bool-cases, bit_and, bit_xor,
}
use verilator_axi_testbench.Common.Bits.{bit_and-low, bit_xor-low, bit_and-one}
use verilator_axi_testbench.Memory.{in_bounds}
use verilator_axi_testbench.Ring.{push, clear}
use verilator_axi_testbench.Ring.Contents.{push-IsValid, clear-IsValid}
use verilator_axi_testbench.Uart.State.{
  Backend, UartDevice, fifo_depth, register_span, has, capacity, uart_reset,
}
use verilator_axi_testbench.Uart.{
  uart_settle, set_modem_control, transmit, write_fifo_control, write_interrupt_enable,
  write_register, write_registers, uart_write,
}
use verilator_axi_testbench.Uart.Fifo.{IsValidUart, capacity-le}
use verilator_axi_testbench.Uart.Reads.{valid_of_same}

-- The mode bit survives the mask of the register.
has-masked : (value : ℕ) → has (bit_and value 0xc9) 1 ≡ has value 1
has-masked value =
    ground (arith, bit_and-one (bit_and value 0xc9), bit_and-one value, bit_and-low value 0xc9)

-- Two values whose exclusive or has no mode bit have the same mode.
has-same : (value old : ℕ) → has (bit_xor value old) 1 ≡ false → has value 1 ≡ has old 1
has-same value old h = ground (
  arith,
  bit_and-one (bit_xor value old),
  bit_and-one value,
  bit_and-one old,
  bit_xor-low value old,
)

module _ {B : Type 0} ⦃ops : Backend B⦄ where
  -- Writing the FIFO control register empties the FIFO whenever its mode changes.
  write_fifo_control-IsValidUart :
      (u : UartDevice B) (value : ℕ) → IsValidUart u → IsValidUart (write_fifo_control u value)
  unfolding write_fifo_control capacity clear
  write_fifo_control-IsValidUart u value w =
      elim (Bool-cases (has value 0x02 || has (bit_xor value u.fifo_control) 1)) [
        | inl clears ↦ rw clears (record {
          fifo = clear-IsValid fifo_depth u.receive_fifo w.fifo;
          bounded = omega arith;
        })
        | inr keeps ↦
            let same = has-same value u.fifo_control (ground (arith, keeps)) in
            rw keeps (record {
              fifo = w.fifo;
              bounded = ground (arith, has-masked value, same, w.bounded);
            })
      ]

  either :
      (test : Bool) (u₁ u₂ : UartDevice B)
      → (test ≡ true → IsValidUart u₁)
      → (test ≡ false → IsValidUart u₂)
      → IsValidUart (if test then u₁ else u₂)
  either true u₁ u₂ x y = x refl
  either false u₁ u₂ x y = y refl

  -- A byte that is looped back joins the FIFO only below its capacity.
  received-IsValidUart :
      (u u' : UartDevice B) (value : ℕ)
      → IsValidUart u
      → leb (capacity u) u.receive_fifo.size ≡ false
      → u'.receive_fifo ≡ (push fifo_depth u.receive_fifo value).0
      → u'.fifo_control ≡ u.fifo_control
      → IsValidUart u'
  unfolding push capacity
  received-IsValidUart u u' value w room e e' =
      let full_ : (u.receive_fifo.size == 16) ≡ false = ground (arith, capacity-le u, room) in
      let v = push-IsValid fifo_depth u.receive_fifo value w.fifo in
      let e₁ = rw full_ at e in
      let v₁ = rw full_ at v in
      record { fifo = rw e₁ v₁; bounded = rw (e₁, e') (ground (arith, room)) }

  transmit-IsValidUart :
      (u : UartDevice B) (value : ℕ) → IsValidUart u → IsValidUart (transmit u value)
  unfolding transmit
  transmit-IsValidUart u value w =
      either (has u.modem_control 0x10) _ _
        (λ loops.
          either (leb (capacity u) u.receive_fifo.size) _ _
            (λ is_full. valid_of_same u _ w refl refl)
            (λ room. received-IsValidUart u _ value w room refl refl))
        (λ sends. valid_of_same u _ w refl refl)

  write_register-IsValidUart :
      (u : UartDevice B) (index value : ℕ)
      → IsValidUart u
      → IsValidUart (write_register u index value)
  unfolding write_register write_interrupt_enable set_modem_control
  write_register-IsValidUart u index value w =
      either (index == 0) _ _
        (λ e.
          either (has u.line_control 0x80) _ _ (λ d. valid_of_same u _ w refl refl)
            λ d. transmit-IsValidUart u value w)
        λ e.
          either (index == 1) _ _
            (λ e.
              either (has u.line_control 0x80) _ _ (λ d. valid_of_same u _ w refl refl)
                λ d. valid_of_same u _ w refl refl)
            λ e.
              either (index == 2) _ _ (λ e. write_fifo_control-IsValidUart u value w)
                λ e.
                  either (index == 3) _ _ (λ e. valid_of_same u _ w refl refl)
                    λ e.
                      either (index == 4) _ _ (λ e. valid_of_same u _ w refl refl)
                        λ e. either (index == 7) _ _ (λ e. valid_of_same u _ w refl refl) λ e. w

  write_registers-IsValidUart :
      (u : UartDevice B) (index : ℕ) (bytes strobe : List ℕ)
      → IsValidUart u
      → IsValidUart (write_registers u index bytes strobe)
  unfolding write_registers
  write_registers-IsValidUart u index [] strobe w = w
  write_registers-IsValidUart u index (d ∷ bytes) [] w = w
  write_registers-IsValidUart u index (d ∷ bytes) (s ∷ strobe) w =
      write_registers-IsValidUart (if s != 0 then write_register u index d else u) (index + 1) bytes
        strobe (either (s != 0) _ _ (λ on. write_register-IsValidUart u index d w) λ off. w)

  -- Whatever is written to the registers of a valid UART, and after a reset, it is valid: its FIFO
  -- holds at most what its mode allows, also when the write changes the mode or loops bytes back.
  pub uart_write-IsValidUart :
      (u : UartDevice B) (offset : ℕ) (bytes strobe : List ℕ)
      → IsValidUart u
      → IsValidUart (uart_write u offset bytes strobe).1 × IsValidUart (uart_reset u)
  unfolding uart_write uart_settle uart_reset capacity clear
  uart_write-IsValidUart u offset bytes strobe w = (
    elim (Bool-cases (in_bounds offset (length bytes) register_span)) [
      | inl inside ↦ rw inside (
          valid_of_same (write_registers u offset bytes strobe) _
            (write_registers-IsValidUart u offset bytes strobe w) refl refl)
      | inr outside ↦ rw outside w
    ],
    record { fifo = clear-IsValid fifo_depth u.receive_fifo w.fifo; bounded = omega arith },
  )
