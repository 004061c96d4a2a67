-- ===== src/Fabric/Reset.antt =====
-- What a reset of the fabric in src/fabric.hpp leaves.
use verilator_axi_testbench.Common.{
  ℕ, ◌≡◌, refl, Bool, true, false, List, [], ◌∷◌, map, all, none, ok, add_u64, if◌then◌else◌,
}
use verilator_axi_testbench.Axi.{MasterSignals}
use verilator_axi_testbench.Ring.{RingBuffer, clear, empty}
use verilator_axi_testbench.Device.{Device}
use verilator_axi_testbench.Space.{space_reset}
use verilator_axi_testbench.Fabric.{reset_port, reset_state, commit_reset, commit, port_idle, idle}
use verilator_axi_testbench.Fabric.State.{
  Geometry, PortState, ExclusiveMonitor, Fabric, default_monitor,
}
use verilator_axi_testbench.Fabric.Monitors.{find_monitor}

empty-clear {ℓ} : {A : Type ℓ} (r : RingBuffer A) → empty (clear r) ≡ true
unfolding empty clear
empty-clear r = refl

module _ (g : Geometry) where
  ports-idle : (ports : List PortState) → all port_idle (map (reset_port g) ports) ≡ true
  unfolding port_idle reset_port empty clear
  ports-idle [] = refl
  ports-idle (p ∷ ports) = ports-idle ports

  find_monitor-reset :
      (port id : ℕ) (ms : List ExclusiveMonitor)
      → find_monitor port id (map (λ m. default_monitor g) ms) ≡ none
  unfolding find_monitor
  find_monitor-reset port id [] = refl
  find_monitor-reset port id (m ∷ ms) = find_monitor-reset port id ms

module _ {ℓ} {D : Type ℓ} ⦃ops : Device D⦄ (g : Geometry) where
  -- What a fabric that has just been reset promises.
  pub record IsReset (before after : Fabric D) : Type ℓ where
    pub is_idle : idle after ≡ true
    pub no_monitor : (port id : ℕ) → find_monitor port id after.monitors ≡ none
    pub not_exited : after.exit_completed ≡ false
    pub devices_eq :
        after.devices
        ≡ (if before.reset_devices then space_reset before.space before.devices else before.devices)
    pub counted : after.cycle ≡ add_u64 before.cycle 1

  IsReset-devices :
      (f : Fabric D) (b : Bool)
      → f.reset_devices ≡ b
      → f.was_reset ≡ false
      → IsReset f (commit_reset g f)
  unfolding commit_reset reset_state idle empty clear
  IsReset-devices f true on fresh_ =
      rw (on, fresh_)
        (record {
          is_idle = ports-idle g f.ports;
          no_monitor = λ port id. find_monitor-reset g port id f.monitors;
          not_exited = refl;
          devices_eq = refl;
          counted = refl;
        })
  IsReset-devices f false off fresh_ =
      rw (off, fresh_)
        (record {
          is_idle = ports-idle g f.ports;
          no_monitor = λ port id. find_monitor-reset g port id f.monitors;
          not_exited = refl;
          devices_eq = refl;
          counted = refl;
        })

  -- The first cycle of a reset, whatever was in flight, leaves the fabric idle, with no monitor and
  -- no exit status, and the devices reset if the fabric resets them; each further cycle of the same
  -- reset only counts, so the devices are reset once.
  pub commit-IsReset :
      (f : Fabric D) (inputs later : List MasterSignals)
      → f.was_reset ≡ false
      → (after : Fabric D) × (commit g f inputs true ≡ ok after)
        × IsReset f after
        × (commit g after later true ≡ ok (record after { cycle = add_u64 after.cycle 1 }))
  unfolding commit commit_reset
  commit-IsReset f inputs later fresh_ =
      (commit_reset g f, refl, IsReset-devices f f.reset_devices refl fresh_, refl)
