-- ===== src/Fabric/Monitors.antt =====
-- The exclusive monitors of `AxiFabric` in src/fabric.hpp.
use verilator_axi_testbench.Common.{
  ℕ, Bool, true, false, ◌==◌, ◌&&◌, ltb, leb, if◌then◌else◌, List, [], ◌∷◌, Option, none, some,
  Result, ok, err, protocol_error, monitors_exhausted, add_u64, map,
}
use verilator_axi_testbench.Axi.{AddressPayload}
use verilator_axi_testbench.Fabric.State.{ExclusiveMonitor}

unfoldable pub matches : ℕ → ℕ → ExclusiveMonitor → Bool
matches port id m = m.valid && m.port == port && m.id == id

-- `find_monitor`, giving what the pointer points to.
unfoldable pub find_monitor : ℕ → ℕ → List ExclusiveMonitor → Option ExclusiveMonitor
unfolding matches
find_monitor port id [] = none
find_monitor port id (m ∷ ms) = if matches port id m then some m else find_monitor port id ms

-- `clear_monitor`
unfoldable pub clear_monitor : ℕ → ℕ → List ExclusiveMonitor → List ExclusiveMonitor
unfolding matches
clear_monitor port id [] = []
clear_monitor port id (m ∷ ms) =
    let rest = m ∷ clear_monitor port id ms in
    if matches port id m then record m { valid = false } ∷ ms else rest

-- The loop body of `invalidate_monitors`.
unfoldable pub invalidate_monitor : ℕ → ExclusiveMonitor → ExclusiveMonitor
invalidate_monitor byte_address m =
    if m.valid && leb m.first byte_address && ltb byte_address m.last
    then record m { valid = false }
    else m

unfoldable pub invalidate_monitors : ℕ → List ExclusiveMonitor → List ExclusiveMonitor
unfolding invalidate_monitor
invalidate_monitors byte_address ms = map (invalidate_monitor byte_address) ms

-- Overwriting the slot that `find_monitor` found.
unfoldable pub replace_monitor :
    ℕ → ℕ → ExclusiveMonitor → List ExclusiveMonitor → List ExclusiveMonitor
unfolding matches
replace_monitor port id new [] = []
replace_monitor port id new (m ∷ ms) =
    let rest = m ∷ replace_monitor port id new ms in if matches port id m then new ∷ ms else rest

abbrev pub keep_monitor :
    ExclusiveMonitor → Option (List ExclusiveMonitor) → Option (List ExclusiveMonitor)
keep_monitor m none = none
keep_monitor m (some ms) = some (m ∷ ms)

-- Overwriting the first slot that is not valid; `none` if every slot is.
unfoldable pub fill_monitor :
    ExclusiveMonitor → List ExclusiveMonitor → Option (List ExclusiveMonitor)
fill_monitor new [] = none
fill_monitor new (m ∷ ms) =
    let rest = keep_monitor m (fill_monitor new ms) in if m.valid then rest else some (new ∷ ms)

abbrev pub or_exhausted : Option (List ExclusiveMonitor) → Result (List ExclusiveMonitor)
or_exhausted none = err (protocol_error monitors_exhausted)
or_exhausted (some ms) = ok ms

abbrev pub place_monitor :
    Option ExclusiveMonitor
    → ExclusiveMonitor
    → List ExclusiveMonitor
    → Result (List ExclusiveMonitor)
place_monitor none new ms = or_exhausted (fill_monitor new ms)
place_monitor (some old) new ms = ok (replace_monitor new.port new.id new ms)

-- `establish_monitor`, for a read of `total` bytes.
unfoldable pub establish_monitor :
    ℕ → AddressPayload → ℕ → List ExclusiveMonitor → Result (List ExclusiveMonitor)
unfolding find_monitor fill_monitor replace_monitor
establish_monitor port payload total ms =
    place_monitor (find_monitor port payload.id ms)
      (record {
        valid = true;
        port = port;
        id = payload.id;
        payload = payload;
        first = payload.address;
        last = add_u64 payload.address total;
      })
      ms
