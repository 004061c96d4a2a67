-- ===== src/Fabric.antt =====
-- `AxiFabric` of src/fabric.hpp: what one clock edge does, the reset, and what the runner asks.
-- A call returns the new fabric; after an error the runner stops, so the state that the source
-- leaves behind then is not modelled.
pub mod State
pub mod Signals
pub mod Monitors
pub mod Route
pub mod Transfer
pub mod Write
pub mod Stability
pub mod Handshake
pub mod Ingress
pub mod Retire
pub mod Reset
pub mod Arbitration
pub mod Exclusive
pub mod Staging
pub mod Granted
pub mod Fairness
pub mod Setup
pub mod Lost
pub mod Extent
pub mod Written
mod Tests
use verilator_axi_testbench.Common.{
  ℕ, Bool, true, false, not, ◌&&◌, ◌==◌, if◌then◌else◌, List, [], ◌∷◌, map, all, Result, ok, ◌>>=◌,
  add_u64,
}
use verilator_axi_testbench.Axi.{MasterSignals}
use verilator_axi_testbench.Ring.{clear, empty}
use verilator_axi_testbench.Device.{Device}
use verilator_axi_testbench.Space.{space_reset}
use State.{
  Geometry, PortState, ExclusiveMonitor, Fabric, default_monitor, default_watch,
  default_write_watch,
}
use Signals.{check_stability, retire_responses, accept_ingress}
use Route.{arbitrate_addresses}
use Transfer.{process_read_beat}
use Write.{process_write_beat}

module _ (g : Geometry) where
  unfoldable pub reset_port : PortState → PortState
  unfolding clear
  reset_port p = record {
    aw = clear p.aw;
    w = clear p.w;
    ar = clear p.ar;
    b = clear p.b;
    r = clear p.r;
    aw_watch = default_watch g;
    w_watch = default_write_watch g;
    ar_watch = default_watch g;
  }

  -- `reset_state`
  unfoldable pub reset_state {ℓ} : {D : Type ℓ} → Fabric D → Fabric D
  unfolding reset_port clear
  reset_state f = record f {
    ports = map reset_port f.ports;
    read_routes = clear f.read_routes;
    write_routes = clear f.write_routes;
    monitors = map (λ m. default_monitor g) f.monitors;
    next_aw_port = 0;
    next_ar_port = 0;
    suppress_read = false;
    exit_completed = false;
    exit_code = 0;
  }

module _ {ℓ} {D : Type ℓ} ⦃ops : Device D⦄ (g : Geometry) where
  -- `commit` while reset is active: the state is reset once, on entry.
  unfoldable pub commit_reset : Fabric D → Fabric D
  unfolding reset_state space_reset
  commit_reset f =
      let cleared = reset_state g f in
      let entered =
        if f.reset_devices
        then record cleared { devices = space_reset f.space f.devices }
        else cleared in
      let f' = if f.was_reset then f else entered in
      record f' { was_reset = true; cycle = add_u64 f.cycle 1 }

  -- The read beat, unless a write went to a device in this cycle.
  unfoldable pub read_unless_suppressed : Fabric D → Result (Fabric D)
  unfolding process_read_beat
  read_unless_suppressed f = if f.suppress_read then ok f else process_read_beat g f

  -- `commit` with reset inactive.
  unfoldable pub commit_active : Fabric D → List MasterSignals → Result (Fabric D)
  unfolding check_stability retire_responses accept_ingress arbitrate_addresses process_write_beat
      read_unless_suppressed
  commit_active f inputs = do
    checked ← check_stability f inputs
    retired ← retire_responses g checked inputs
    accepted ← accept_ingress g retired inputs
    routed ← arbitrate_addresses g accepted
    wrote ← process_write_beat g (record routed { suppress_read = false })
    served ← read_unless_suppressed wrote
    ok (record served { cycle = add_u64 served.cycle 1 })

  -- `commit`
  unfoldable pub commit : Fabric D → List MasterSignals → Bool → Result (Fabric D)
  unfolding commit_reset commit_active
  commit f inputs true = ok (commit_reset f)
  commit f inputs false = commit_active (record f { was_reset = false }) inputs

-- `set_seed`
unfoldable pub set_seed {ℓ} : {D : Type ℓ} → Fabric D → ℕ → Fabric D
set_seed f seed = record f { random_state = if seed == 0 then 0x9e37_79b9_7f4a_7c15 else seed }

-- `idle`
unfoldable pub port_idle : PortState → Bool
unfolding empty
port_idle p = empty p.aw && empty p.w && empty p.ar && empty p.b && empty p.r

unfoldable pub idle {ℓ} : {D : Type ℓ} → Fabric D → Bool
unfolding port_idle
idle f = empty f.read_routes && empty f.write_routes && all port_idle f.ports

-- `clear_exit_completed`
unfoldable pub clear_exit_completed {ℓ} : {D : Type ℓ} → Fabric D → Fabric D
clear_exit_completed f = record f { exit_completed = false; exit_code = 0 }
