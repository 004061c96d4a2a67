-- ===== src/Uart/Fifo.antt =====
-- The receive FIFO of `UartDevice` in src/devices.cpp, and `poll_input`.
use verilator_axi_testbench.Common.{
  ℕ, zero, suc, ◌+◌, ◌<◌, ◌≤◌, ◌≡◌, refl, Bool, true, false, ◌==◌, ltb, if◌then◌else◌, List, Option,
  none, some, arith,
}
use verilator_axi_testbench.Ring.{push}
use verilator_axi_testbench.Ring.Contents.{IsValid, contents, push-IsValid}
use verilator_axi_testbench.Uart.State.{Backend, UartDevice, fifo_depth, capacity, buffer_backend}
use verilator_axi_testbench.Uart.{poll_step, poll_loop}

-- The FIFO is a valid buffer that holds at most what its mode allows.
pub record IsValidUart {B : Type 0} (u : UartDevice B) : Type 0 where
  pub fifo : IsValid fifo_depth u.receive_fifo
  pub bounded : u.receive_fifo.size ≤ capacity u

pub capacity-le : {B : Type 0} (u : UartDevice B) → (0 < capacity u) × (capacity u ≤ 16)
unfolding capacity
capacity-le u = ground arith

-- The bytes that stand in the FIFO, oldest first.
abbrev pub received : {B : Type 0} → UartDevice B → List ℕ
received u = contents fifo_depth u.receive_fifo

module _ {B : Type 0} ⦃ops : Backend B⦄ where
  -- One round of the loop: a byte that is read joins the FIFO, and the loop goes on; with none, it
  -- ends and the FIFO is as it was.
  pub record Polled (u u' : UartDevice B) (more : Bool) : Type 0 where
    pub valid : IsValidUart u'
    pub capacity_eq : capacity u' ≡ capacity u
    pub goes_on : more ≡ true → u'.receive_fifo.size ≡ u.receive_fifo.size + 1
    pub ends : more ≡ false → u'.receive_fifo ≡ u.receive_fifo

  poll_step-Polled :
      (u : UartDevice B) (taken : Option ℕ × B)
      → IsValidUart u
      → u.receive_fifo.size < capacity u
      → Polled u (poll_step u taken).0 (poll_step u taken).1
  unfolding poll_step capacity push
  poll_step-Polled u (none, backend) w room = record {
    valid = record { fifo = w.fifo; bounded = w.bounded };
    capacity_eq = refl;
    goes_on = λ e. absurd cc;
    ends = λ e. refl;
  }
  poll_step-Polled u (some value, backend) w room =
      let full_ : (u.receive_fifo.size == 16) ≡ false = ground (arith, capacity-le u) in
      let v = push-IsValid fifo_depth u.receive_fifo value w.fifo in
      rw full_ (record {
        valid = record { fifo = rw full_ at v; bounded = omega arith };
        capacity_eq = refl;
        goes_on = λ e. refl;
        ends = λ e. absurd cc;
      })

  -- The runs of the loop of `poll_input`, as its test and its breaks allow them.
  pub data Polls : UartDevice B → UartDevice B → Type 0 where
    at_capacity : (u : UartDevice B) → ltb u.receive_fifo.size (capacity u) ≡ false → Polls u u
    stopped :
        (u u' : UartDevice B)
        → ltb u.receive_fifo.size (capacity u) ≡ true
        → poll_step u (ops.try_read u.backend) ≡ (u', false)
        → Polls u u'
    another :
        (u u' last : UartDevice B)
        → ltb u.receive_fifo.size (capacity u) ≡ true
        → poll_step u (ops.try_read u.backend) ≡ (u', true)
        → Polls u' last
        → Polls u last

  poll_loop-enough :
      (fuel : ℕ) (u : UartDevice B)
      → IsValidUart u
      → capacity u ≤ u.receive_fifo.size + fuel
      → Polls u (poll_loop fuel u) × IsValidUart (poll_loop fuel u)
  unfolding poll_loop
  poll_loop-enough zero u w enough = (at_capacity u (ground arith), w)
  poll_loop-enough (suc fuel) u w enough =
      test (λ w' enough'. poll_loop-enough fuel (poll_step u (ops.try_read u.backend)).0 w' enough')
        _ refl _ refl
    where
      step : UartDevice B × Bool
      step = poll_step u (ops.try_read u.backend)

      result : Bool → Bool → UartDevice B
      result room more =
          let rest = poll_loop fuel step.0 in
          let round = if more then rest else step.0 in if room then round else u

      test :
          (IsValidUart step.0
            → capacity step.0 ≤ step.0.receive_fifo.size + fuel
            → Polls step.0 (poll_loop fuel step.0) × IsValidUart (poll_loop fuel step.0))
          → (room : Bool) → ltb u.receive_fifo.size (capacity u) ≡ room
          → (more : Bool) → step.1 ≡ more
          → Polls u (result room more) × IsValidUart (result room more)
      test again false e more e' = (at_capacity u e, w)
      test again true e false e' =
          let polled = poll_step-Polled u (ops.try_read u.backend) w (ground arith) in
          (stopped u step.0 e (λ i. (step.0, e' i)), polled.valid)
      test again true e true e' =
          let polled = poll_step-Polled u (ops.try_read u.backend) w (ground arith) in
          let grown = polled.goes_on e' in
          let enough' : capacity step.0 ≤ step.0.receive_fifo.size + fuel =
            omega (arith, grown, polled.capacity_eq, enough) in
          let (runs, valid) = again polled.valid enough' in
          (another u step.0 _ e (λ i. (step.0, e' i)) runs, valid)

  -- The fuel of `poll_input` is enough: on a valid UART the loop ends by its own test or break,
  -- never by running out, and the UART stays valid, its FIFO within the capacity of its mode.
  pub poll_loop-Polls :
      (u : UartDevice B)
      → IsValidUart u
      → Polls u (poll_loop fifo_depth u) × IsValidUart (poll_loop fifo_depth u)
  poll_loop-Polls u w = poll_loop-enough fifo_depth u w (omega (arith, capacity-le u))
