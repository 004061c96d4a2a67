-- ===== src/Fabric/Signals.antt =====
-- The channel side of `AxiFabric` in src/fabric.hpp: driving the outputs, checking that a stalled
-- master holds its signals, retiring responses and accepting what the master sends.
use verilator_axi_testbench.Common.{
  ℕ, ◌%◌, Bool, true, false, not, ◌&&◌, ◌||◌, leb, if◌then◌else◌, List, [], ◌∷◌, bit_xor, Result,
  ok, err, protocol_error, changed_while_stalled, fifo_overflow, throw_if, ◌>>=◌, ◌>>◌, replicate,
  u64_mod, ◌<<<◌, ◌>>>◌,
}
use verilator_axi_testbench.Axi.{
  AddressPayload, WriteDataPayload, MasterSignals, SlaveSignals, same_address, same_write_data,
}
use verilator_axi_testbench.Ring.{RingBuffer, empty, full, front, push, pop}
use verilator_axi_testbench.Fabric.State.{
  Geometry, AddressWatch, WriteWatch, PortState, Fabric, Stall, never, always, below,
  default_output,
}

-- One step of the generator, on 64 bits.
unfoldable pub next_random : ℕ → ℕ
next_random s =
    let a = bit_xor s ((s <<< 13) % u64_mod) in
    let b = bit_xor a (a >>> 7) in bit_xor b ((b <<< 17) % u64_mod)

-- `allow_ready`, with the new `random_state_`.
unfoldable pub allow_ready : Stall → ℕ → Bool × ℕ
unfolding next_random
allow_ready never s = (true, s)
allow_ready always s = (false, s)
allow_ready (below threshold) s = let s' = next_random s in (leb threshold s', s')

-- `!fifo.full() && allow_ready()`.
unfoldable pub ready : Stall → Bool → ℕ → Bool × ℕ
unfolding allow_ready
ready stall is_full s = if is_full then (false, s) else allow_ready stall s

-- `check_address_watch`
unfoldable pub check_address_watch :
    AddressWatch → Bool → Bool → AddressPayload → Result AddressWatch
unfolding same_address
check_address_watch watch valid ready payload = do
  throw_if (watch.blocked && (not valid || not (same_address payload watch.payload)))
      (protocol_error changed_while_stalled)
  ok (record {
    blocked = valid && not ready;
    payload = if valid && not ready then payload else watch.payload;
  })

-- The W channel's part of `check_stability`.
unfoldable pub check_write_watch : WriteWatch → Bool → Bool → WriteDataPayload → Result WriteWatch
unfolding same_write_data
check_write_watch watch valid ready payload = do
  throw_if (watch.blocked && (not valid || not (same_write_data payload watch.payload)))
      (protocol_error changed_while_stalled)
  ok (record {
    blocked = valid && not ready;
    payload = if valid && not ready then payload else watch.payload;
  })

unfoldable pub check_port : PortState → SlaveSignals → MasterSignals → Result PortState
unfolding check_address_watch check_write_watch
check_port p output input = do
  aw_watch ← check_address_watch p.aw_watch input.aw_valid output.aw_ready input.aw
  w_watch ← check_write_watch p.w_watch input.w_valid output.w_ready input.w
  ar_watch ← check_address_watch p.ar_watch input.ar_valid output.ar_ready input.ar
  ok (record p { aw_watch = aw_watch; w_watch = w_watch; ar_watch = ar_watch })

-- A loop over the ports, with what each drives and samples.
unfoldable pub each_port :
    (PortState → SlaveSignals → MasterSignals → Result PortState)
    → List PortState
    → List SlaveSignals
    → List MasterSignals
    → Result (List PortState)
each_port body (p ∷ ports) (output ∷ outputs) (input ∷ inputs) = do
  p' ← body p output input
  rest ← each_port body ports outputs inputs
  ok (p' ∷ rest)
each_port body ports _ _ = ok ports

unfoldable pub check_stability {ℓ} :
    {D : Type ℓ} → Fabric D → List MasterSignals → Result (Fabric D)
unfolding each_port check_port
check_stability f inputs = do
  ports ← each_port check_port f.ports f.outputs inputs
  ok (record f { ports = ports })

-- The exit status that a fabric reports.
pub record ExitStatus : Type 0 where
  pub completed : Bool
  pub code : ℕ

-- `if (valid && ready && !fifo.push(value)) protocol_error(...)`.
unfoldable pub accept {ℓ} : {A : Type ℓ} → ℕ → RingBuffer A → Bool → A → Result (RingBuffer A)
unfolding push
accept depth fifo false value = ok fifo
accept depth fifo true value =
    let (fifo', done) = push depth fifo value in
    if done then ok fifo' else err (protocol_error fifo_overflow)

module _ (g : Geometry) where
  -- The loop body of `drive`.
  unfoldable pub drive_port : Stall → PortState → ℕ → Result (SlaveSignals × ℕ)
  unfolding ready full empty front
  drive_port stall p s =
      let (aw_ready, s₁) = ready stall (full g.address_depth p.aw) s in
      let (w_ready, s₂) = ready stall (full g.write_data_depth p.w) s₁ in
      let (ar_ready, s₃) = ready stall (full g.address_depth p.ar) s₂ in
      do
        b ← if empty p.b then ok (default_output g).b else front p.b
        r ← if empty p.r then ok (default_output g).r else front p.r
        ok (
          record {
            aw_ready = aw_ready;
            w_ready = w_ready;
            b_valid = not (empty p.b);
            b = b;
            ar_ready = ar_ready;
            r_valid = not (empty p.r);
            r = r;
          },
          s₃,
        )

  unfoldable pub drive_ports : Stall → List PortState → ℕ → Result (List SlaveSignals × ℕ)
  unfolding drive_port
  drive_ports stall [] s = ok ([], s)
  drive_ports stall (p ∷ ports) s = do
    (output, s') ← drive_port stall p s
    (outputs, s'') ← drive_ports stall ports s'
    ok (output ∷ outputs, s'')

  -- `drive`: the new `outputs_`, which it also returns, and `random_state_`.
  unfoldable pub drive {ℓ} : {D : Type ℓ} → Fabric D → Bool → Result (Fabric D)
  unfolding drive_ports
  drive f true = ok (record f { outputs = replicate g.num_ports (default_output g) })
  drive f false = do
    (outputs, s) ← drive_ports f.stall f.ports f.random_state
    ok (record f { outputs = outputs; random_state = s })

  unfoldable pub retire_write : PortState → Bool → ExitStatus → Result (PortState × ExitStatus)
  unfolding front pop
  retire_write p false status = ok (p, status)
  retire_write p true status = do
    response ← front p.b
    b ← pop g.response_depth p.b
    ok (
      record p { b = b },
      if response.exit_response && not status.completed
          then record { completed = true; code = response.exit_code }
          else status,
    )

  unfoldable pub retire_read : PortState → Bool → Result PortState
  unfolding pop
  retire_read p false = ok p
  retire_read p true = do r ← pop g.response_depth p.r; ok (record p { r = r })

  unfoldable pub retire_ports :
      List PortState
      → List SlaveSignals
      → List MasterSignals
      → ExitStatus
      → Result (List PortState × ExitStatus)
  unfolding retire_write retire_read
  retire_ports (p ∷ ports) (output ∷ outputs) (input ∷ inputs) status = do
    (p', status') ← retire_write p (output.b_valid && input.b_ready) status
    p'' ← retire_read p' (output.r_valid && input.r_ready)
    (rest, status'') ← retire_ports ports outputs inputs status'
    ok (p'' ∷ rest, status'')
  retire_ports ports _ _ status = ok (ports, status)

  unfoldable pub retire_responses {ℓ} :
      {D : Type ℓ} → Fabric D → List MasterSignals → Result (Fabric D)
  unfolding retire_ports
  retire_responses f inputs = do
    (ports, status) ←
        retire_ports f.ports f.outputs inputs
          (record { completed = f.exit_completed; code = f.exit_code })
    ok (record f { ports = ports; exit_completed = status.completed; exit_code = status.code })

  unfoldable pub accept_port : PortState → SlaveSignals → MasterSignals → Result PortState
  unfolding accept
  accept_port p output input = do
    aw ← accept g.address_depth p.aw (input.aw_valid && output.aw_ready) input.aw
    w ← accept g.write_data_depth p.w (input.w_valid && output.w_ready) input.w
    ar ← accept g.address_depth p.ar (input.ar_valid && output.ar_ready) input.ar
    ok (record p { aw = aw; w = w; ar = ar })

  unfoldable pub accept_ingress {ℓ} :
      {D : Type ℓ} → Fabric D → List MasterSignals → Result (Fabric D)
  unfolding each_port accept_port
  accept_ingress f inputs = do
    ports ← each_port accept_port f.ports f.outputs inputs
    ok (record f { ports = ports })
