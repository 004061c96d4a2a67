-- ===== src/Uart/Reads.antt =====
-- The read side and the clock of `UartDevice` in src/devices.cpp, on a valid UART.
use verilator_axi_testbench.Common.{
  ℕ, suc, ◌||◌, bit_and, ◌+◌, ◌≡◌, refl, inl, inr, Bool, true, false, ◌==◌, ◌!=◌, if◌then◌else◌,
  List, [], ◌∷◌, length, arith, Bool-cases, ap, Result, ok, err, get_elem?-some,
}
use native.Mathlib.Nat.{mod-lt}
use verilator_axi_testbench.Axi.{Response, okay, slave_error}
use verilator_axi_testbench.Memory.{in_bounds}
use verilator_axi_testbench.Uart.State.{Backend, UartDevice, capacity, has, register_span}
use verilator_axi_testbench.Uart.{
  poll_input, uart_settle, uart_tick, count_cycle, read_receive, read_register, read_registers,
  uart_read, interrupt_identification,
}
use verilator_axi_testbench.Uart.Fifo.{IsValidUart, poll_loop-Polls}

module _ {B : Type 0} ⦃ops : Backend B⦄ where
  -- A register access that does not throw, and keeps the UART valid.
  abbrev pub Safe : Result (ℕ × UartDevice B) → Type 0
  Safe (ok (value, u)) = IsValidUart u
  Safe (err e) = ⊥

  Safe-if :
      (test : Bool) (a b : Result (ℕ × UartDevice B))
      → Safe a
      → Safe b
      → Safe (if test then a else b)
  Safe-if true a b x y = x
  Safe-if false a b x y = y

  -- A UART with the FIFO and the mode of a valid one is valid.
  pub valid_of_same :
      (u u' : UartDevice B)
      → IsValidUart u
      → u'.receive_fifo ≡ u.receive_fifo
      → u'.fifo_control ≡ u.fifo_control
      → IsValidUart u'
  unfolding capacity
  valid_of_same u u' w e e' = record { fifo = rw e w.fifo; bounded = rw (e, e') w.bounded }

  read_receive-Safe : (u : UartDevice B) → IsValidUart u → Safe (read_receive u)
  unfolding read_receive capacity
  read_receive-Safe u w = elim (Bool-cases (u.receive_fifo.size == 0)) [
    | inl none_left ↦ rw none_left w
    | inr some_left ↦
        let (x, got) =
          get_elem?-some u.receive_fifo.values u.receive_fifo.head
            (omega (arith, w.fifo.storage, w.fifo.head_in)) in
        rw (some_left, got)
          (record {
            fifo = record {
              storage = w.fifo.storage;
              head_in = mod-lt (u.receive_fifo.head + 1) (omega arith);
              size_in = omega (arith, w.fifo.size_in);
            };
            bounded = omega (arith, w.bounded);
          })
  ]

  pub read_register-Safe :
      (u : UartDevice B) (index : ℕ) → IsValidUart u → Safe (read_register u index)
  unfolding read_register
  read_register-Safe u index w =
      Safe-if (index == 0) _ _ (Safe-if (has u.line_control 0x80) _ _ w (read_receive-Safe u w)) (
        Safe-if (index == 1) _ _ w (
          Safe-if (index == 2) _ _ cleared (
            Safe-if (index == 3) _ _ w (
              Safe-if (index == 4) _ _ w (
                Safe-if (index == 5) _ _ (valid_of_same u _ w refl refl) (
                  Safe-if (index == 6) _ _ (valid_of_same u _ w refl refl)
                    (Safe-if (index == 7) _ _ w w)))))))
    where
      either :
          (test : Bool) (u₁ u₂ : UartDevice B)
          → IsValidUart u₁
          → IsValidUart u₂
          → IsValidUart (if test then u₁ else u₂)
      either true u₁ u₂ x y = x
      either false u₁ u₂ x y = y

      cleared : IsValidUart (
          if bit_and (interrupt_identification u) 0x0f == 2
          then record u { thre_pending = false }
          else u)
      cleared =
          either (bit_and (interrupt_identification u) 0x0f == 2)
            (record u { thre_pending = false }) u
            (valid_of_same u (record u { thre_pending = false }) w refl refl) w

  Safe-ok :
      (m : Result (ℕ × UartDevice B))
      → Safe m
      → (value : ℕ) × (u : UartDevice B) × (m ≡ ok (value, u)) × IsValidUart u
  Safe-ok (ok (value, u)) w = (value, u, refl, w)
  Safe-ok (err e) w = absurd w

  read_registers-ok :
      (u : UartDevice B) (index : ℕ) (bytes enable : List ℕ)
      → IsValidUart u
      → (values : List ℕ) × (u' : UartDevice B) × (read_registers u index bytes enable
          ≡ ok (values, u'))
        × (length values ≡ length bytes)
        × IsValidUart u'
  unfolding read_registers
  read_registers-ok u index [] enable w = ([], u, refl, refl, w)
  read_registers-ok u index (d ∷ bytes) [] w = (d ∷ bytes, u, refl, refl, w)
  read_registers-ok u index (d ∷ bytes) (e ∷ enable) w =
      let (value, u', done, w') =
        Safe-ok _ (Safe-if (e != 0) _ (ok (d, u)) (read_register-Safe u index w) w) in
      let (values, u'', rest, len, w'') = read_registers-ok u' (index + 1) bytes enable w' in
      (value ∷ values, u'', rw (done, rest), ap suc len, w'')

  poll_input-IsValidUart : (u : UartDevice B) → IsValidUart u → IsValidUart (poll_input u)
  unfolding poll_input
  poll_input-IsValidUart u w =
      elim (Bool-cases (has u.modem_control 0x10 || u.input_poll_remaining != 0)) [
        | inl idle ↦ rw idle w
        | inr polls ↦ rw polls (poll_loop-Polls u w).1
      ]

  -- On a valid UART, a clock tick keeps it valid, and a read of any span of its registers never
  -- throws: it answers as many bytes as asked and leaves a valid UART.
  pub uart_read-IsValidUart :
      (u : UartDevice B) (offset : ℕ) (bytes enable : List ℕ)
      → IsValidUart u
      → IsValidUart (uart_tick u)
        × ((response : Response) × (values : List ℕ) × (u' : UartDevice B) × (uart_read u offset
                bytes enable
              ≡ ok (response, values, u'))
            × (length values ≡ length bytes)
            × IsValidUart u')
  unfolding uart_read uart_tick uart_settle count_cycle
  uart_read-IsValidUart u offset bytes enable w = (
    valid_of_same (poll_input (count_cycle u)) _
        (poll_input-IsValidUart (count_cycle u) (valid_of_same u (count_cycle u) w refl refl)) refl
        refl,
    elim (Bool-cases (in_bounds offset (length bytes) register_span)) [
      | inl inside ↦
          let (values, u', done, len, w') =
            read_registers-ok (poll_input u) offset bytes enable (poll_input-IsValidUart u w) in
          (okay, values, uart_settle u', rw (inside, done), len, valid_of_same u' _ w' refl refl)
      | inr outside ↦ (slave_error, bytes, u, rw outside, refl, w)
    ],
  )
