-- ===== src/Fabric/Tests.antt =====
-- Runs of the fabric over a RAM and an exit device, and the theorems at concrete states.
use verilator_axi_testbench.Common.{
  ℕ, ◌+◌, ◌%◌, ◌<◌, ◌≡◌, ◌↔◌, ◌⊎◌, refl, Bool, true, false, not, List, [], ◌∷◌, Result, ok, ◌>>=◌,
  replicate, arith, add_u64, none, some, get_elem?, or_same, length, ◌≢◌, zero, suc, ap, some-eq,
}
use verilator_axi_testbench.Ring.{empty, fresh}
use verilator_axi_testbench.Ring.Contents.{fresh-IsValid, contents}
use verilator_axi_testbench.Cursor.{BurstCursor, make_cursor, beat_address}
use verilator_axi_testbench.Fabric.State.{
  PortState, RouteBase, AddressWatch, ExclusiveMonitor, never, default_port, default_watch,
  default_monitor, WriteRoute, default_write_route, default_write_data, default_write_response,
  default_read_data,
}
use verilator_axi_testbench.Fabric.Monitors.{find_monitor, establish_monitor}
use verilator_axi_testbench.Fabric.Written.{Watched, invalidate_written-Watched}
use verilator_axi_testbench.Fabric.Exclusive.{
  IsUnique, watchers, monitor_of, establish_monitor-find,
}
use verilator_axi_testbench.Fabric.Retire.{Exits, retire_ports-status}
use verilator_axi_testbench.Fabric.Signals.{drive_port, accept_port, ExitStatus, retire_ports}
use verilator_axi_testbench.Fabric.Route.{initialize_route, arbitrate_writes}
use verilator_axi_testbench.Fabric.Write.{
  process_write_beat, finish_exclusive_write, invalidate_written,
}
use verilator_axi_testbench.Fabric.Handshake.{IsValidPort, Received, accept_port-drive_port}
use verilator_axi_testbench.Fabric.Ingress.{AreValid, accept_ingress-drive}
use verilator_axi_testbench.Fabric.Granted.{IsGranted, writes}
use verilator_axi_testbench.Fabric.Fairness.{arbitrate-fair}
use verilator_axi_testbench.Fabric.Reset.{IsReset, commit-IsReset}
use verilator_axi_testbench.Fabric.Stability.{Sample, IsStable, watch_run, watch_run_iff}
use verilator_axi_testbench.Fabric.Staging.{Staged, process_write_beat-staging}
use verilator_axi_testbench.Fabric.Lost.{IsOf, IsReserved, finish_exclusive_write-lost}
use verilator_axi_testbench.Axi.{
  MasterSignals, SlaveSignals, AddressPayload, okay, exclusive_okay, default_address,
}
use verilator_axi_testbench.Builtin.{
  Builtin, ram, exit, builtin_device, builtin_write, is_exit_device, builtin_exit_code, is_ram,
}
use verilator_axi_testbench.Uart.State.{BufferUartBackend, buffer_backend}
use verilator_axi_testbench.Exit.{fresh_exit}
use verilator_axi_testbench.Space.{AddressSpace}
use verilator_axi_testbench.Fabric.{commit, idle}
use verilator_axi_testbench.Fabric.State.{Geometry, Fabric, make_fabric, default_output}
use verilator_axi_testbench.Fabric.Signals.{drive, retire_responses, accept_ingress}

abbrev small : Geometry
small = record {
  num_ports = 1;
  address_bits = 32;
  data_bytes = 4;
  address_depth = 2;
  write_data_depth = 4;
  response_depth = 2;
  route_depth = 2;
}

abbrev space : AddressSpace
space = record {
  mappings =
      record { base = 0x1000; size = 4; device = 1; name = "exit" }
      ∷ record { base = 0x8000; size = 16; device = 0; name = "ram" }
      ∷ [];
  frozen = true;
}

abbrev devices : List (Builtin BufferUartBackend)
devices = ram (record { bytes = replicate 16 0; mapped = false }) ∷ exit fresh_exit ∷ []

abbrev start : Fabric (Builtin BufferUartBackend)
start = make_fabric small space devices true

abbrev quiet : MasterSignals
quiet = record {
  aw_valid = false;
  aw = default_address;
  w_valid = false;
  w = record { bytes = replicate 4 0; strobe = replicate 4 0; last = false };
  b_ready = true;
  ar_valid = false;
  ar = default_address;
  r_ready = true;
}

abbrev store : ℕ → MasterSignals
store address = record quiet {
  aw_valid = true;
  aw = record default_address { address = address; size = 2; id = 5 };
  w_valid = true;
  w = record { bytes = 1 ∷ 2 ∷ 3 ∷ 4 ∷ []; strobe = replicate 4 1; last = true };
}

-- One clock cycle: drive, then commit.
cycle :
    Fabric (Builtin BufferUartBackend) → MasterSignals → Result (Fabric (Builtin BufferUartBackend))
unfolding drive commit
cycle f input = do f' ← drive small f false; commit small f' (input ∷ []) false

-- After a store to the exit register, what three cycles report.
run_exit : Result (Bool × ℕ × Bool)
unfolding cycle idle
run_exit = do
  a ← cycle start (store 0x1000)
  b ← cycle a quiet
  c ← cycle b quiet
  ok (c.exit_completed, c.exit_code, idle c)

run_exit-code : run_exit ≡ ok (true, 0x0403_0201, true)
unfolding run_exit make_fabric fresh beat_address builtin_write is_exit_device builtin_exit_code
run_exit-code = refl

abbrev idle_port : PortState
idle_port = default_port small

idle_port-IsValidPort : IsValidPort small idle_port
idle_port-IsValidPort = record {
  aw = fresh-IsValid 2 default_address (omega arith);
  w = fresh-IsValid 4 (default_write_data small) (omega arith);
  ar = fresh-IsValid 2 default_address (omega arith);
  b = fresh-IsValid 2 (default_write_response small) (omega arith);
  r = fresh-IsValid 2 (default_read_data small) (omega arith);
}

accept_port-drive_port_example :
    (output : SlaveSignals) × (s' : ℕ) × (p' : PortState) × (drive_port small never idle_port 1
      ≡ ok (output, s'))
    × (output.b_valid ≡ not (empty idle_port.b))
    × (output.r_valid ≡ not (empty idle_port.r))
    × (accept_port small idle_port output (store 0x8000) ≡ ok p')
    × Received small idle_port p' output (store 0x8000)
    × IsValidPort small p'
accept_port-drive_port_example =
    accept_port-drive_port small never idle_port 1 (store 0x8000) idle_port-IsValidPort

abbrev waiting_port : PortState
waiting_port = record idle_port {
  aw = record { values = default_address ∷ default_address ∷ []; head = 0; size = 1 };
}

abbrev two_ports : Geometry
two_ports = record small { num_ports = 2 }

abbrev asking : Fabric (Builtin BufferUartBackend)
asking = record (make_fabric two_ports space devices true) { ports = idle_port ∷ waiting_port ∷ [] }

abbrev granted : Fabric (Builtin BufferUartBackend)
granted = or_same asking (arbitrate_writes two_ports asking)

arbitrate-fair_example :
    (length granted.ports ≡ 2)
    × (IsGranted two_ports writes asking granted 1 waiting_port
        ⊎ ((k' : ℕ) × (k' < 1)
            × ((granted.next_aw_port + k') % 2 ≡ 1)
            × (get_elem? granted.ports 1 ≡ some waiting_port)))
unfolding arbitrate_writes make_fabric fresh empty beat_address
arbitrate-fair_example =
    arbitrate-fair two_ports writes asking granted 1 waiting_port refl (omega arith) refl refl
      (fresh-IsValid 2 (default_write_route two_ports) (omega arith), λ e. omega (arith, e)) refl

commit-IsReset_example :
    (after : Fabric (Builtin BufferUartBackend)) × (commit small start (quiet ∷ []) true ≡ ok after)
    × IsReset small start after
    × (commit small after (quiet ∷ []) true ≡ ok (record after { cycle = add_u64 after.cycle 1 }))
unfolding make_fabric
commit-IsReset_example = commit-IsReset small start (quiet ∷ []) (quiet ∷ []) refl

abbrev held : List Sample
held =
    record { valid = true; ready = false; payload = default_address }
    ∷ record { valid = true; ready = true; payload = default_address }
    ∷ []

watch_run_iff_example :
    ((last : AddressWatch) × (watch_run (default_watch small) held ≡ ok last)) ↔ IsStable held
watch_run_iff_example = watch_run_iff (default_watch small) held refl

abbrev strobe_high : List ℕ
strobe_high = 0 ∷ 1 ∷ []

abbrev lane_low : List ℕ
lane_low = 1 ∷ 0 ∷ []

-- A burst of two beats, of which one has been sent.
abbrev two_beats : WriteRoute
two_beats = record (default_write_route small) {
  route = record {
    port = 0;
    payload = record default_address { address = 0x8000; size = 2; length = 1 };
    beat = 0;
    mapping = none;
    forced_response = okay;
    exclusive = false;
  };
}

abbrev busy : Fabric (Builtin BufferUartBackend)
busy = record start {
  write_routes = record { values = two_beats ∷ two_beats ∷ []; head = 0; size = 1 };
  ports =
      record idle_port {
        w = record {
          values =
              replicate 4 (record { bytes = replicate 4 7; strobe = replicate 4 1; last = false });
          head = 0;
          size = 1;
        };
      }
      ∷ [];
}

abbrev staged : Fabric (Builtin BufferUartBackend)
staged = or_same busy (process_write_beat small busy)

busy-AreValid : AreValid small busy.ports
unfolding make_fabric
busy-AreValid = (
  record {
    aw = idle_port-IsValidPort.aw;
    w = record { storage = refl; head_in = omega arith; size_in = omega arith };
    ar = idle_port-IsValidPort.ar;
    b = idle_port-IsValidPort.b;
    r = idle_port-IsValidPort.r;
  },
  tt,
)

process_write_beat-staging_example :
    (staged.devices ≡ busy.devices)
    × (staged.monitors ≡ busy.monitors)
    × ((p : PortState) × (cursor : BurstCursor) × (get_elem? busy.ports two_beats.port ≡ some p)
        × (make_cursor 4 two_beats.payload ≡ ok cursor)
        × (((contents 4 p.w ≡ []) × (staged ≡ busy)) ⊎ Staged small busy staged two_beats p cursor))
unfolding process_write_beat make_fabric beat_address
process_write_beat-staging_example =
    process_write_beat-staging small busy staged two_beats busy-AreValid
      (record { storage = refl; head_in = omega arith; size_in = omega arith }) refl refl refl
      (λ e. omega (arith, e)) refl

-- An exclusive write to the RAM whose reservation another read of the identifier has replaced.
abbrev locked : AddressPayload
locked = record default_address { address = 0x8000; size = 2; id = 3; lock = true }

abbrev locked_base : RouteBase
locked_base = record {
  port = 0;
  payload = locked;
  beat = 0;
  mapping = some (record { base = 0x8000; size = 16; device = 0; name = "ram" });
  forced_response = okay;
  exclusive = true;
}

abbrev locked_route : WriteRoute
locked_route = record (default_write_route small) {
  route = record locked_base { beat = 1 };
  data_complete = true;
}

locked_base-set_up : initialize_route small start 0 locked ≡ ok locked_base
unfolding initialize_route make_fabric beat_address is_ram
locked_base-set_up = refl

abbrev replaced : List ExclusiveMonitor
replaced =
    record {
      valid = true;
      port = 0;
      id = 3;
      payload = record locked { address = 0x8008 };
      first = 0x8008;
      last = 0x800c;
    }
    ∷ default_monitor small
    ∷ []

abbrev reserving : Fabric (Builtin BufferUartBackend)
reserving = record start { monitors = replaced }

replaced-IsUnique : IsUnique replaced
unfolding watchers
replaced-IsUnique port id = ground arith

not-IsReserved : ¬ IsReserved small reserving locked_route
not-IsReserved (m, mapped, clean, (i, monitor, at, is, same)) = go i at
  where
    go : (i : ℕ) → get_elem? replaced i ≡ some monitor → ⊥
    go zero here = ground (
      arith,
      ap (λ (x : ExclusiveMonitor). x.payload.address) (some-eq here),
      ap (λ (x : AddressPayload). x.address) same,
    )
    go (suc zero) here = ground (arith, ap (λ (x : ExclusiveMonitor). x.valid) (some-eq here), is.0)
    go (suc (suc i)) here = absurd cc

abbrev locked_cursor : BurstCursor
locked_cursor = record { payload = locked; beats = 1; beat_bytes = 4 }

finish_exclusive_write-lost_example :
    (monitors : List ExclusiveMonitor) × (finish_exclusive_write small reserving locked_route
        locked_cursor
      ≡ ok (record reserving { monitors = monitors }, record locked_route { response = okay }))
    × (okay ≢ exclusive_okay)
    × ((i : ℕ) (m : ExclusiveMonitor) → get_elem? monitors i ≡ some m → ¬ IsOf 0 3 m)
    × ((i : ℕ) (m : ExclusiveMonitor)
        → get_elem? replaced i ≡ some m
        → ¬ IsOf 0 3 m
        → get_elem? monitors i ≡ some m)
finish_exclusive_write-lost_example =
    finish_exclusive_write-lost small reserving start locked_route locked_cursor locked_base
      locked_base-set_up refl not-IsReserved replaced-IsUnique

abbrev watching : ExclusiveMonitor
watching = record {
  valid = true;
  port = 0;
  id = 3;
  payload = default_address;
  first = 0x8000;
  last = 0x8004;
}

invalidate_written-Watched_example :
    (m' : ExclusiveMonitor) × (get_elem? (invalidate_written 0x8002 lane_low (watching ∷ [])) 0
      ≡ some m')
    × ((m'.valid ≡ false) ↔ Watched 0x8002 lane_low watching)
    × ((m' ≡ watching) ⊎ (m' ≡ record watching { valid = false }))
invalidate_written-Watched_example =
    invalidate_written-Watched 0x8002 lane_low (watching ∷ []) 0 watching (omega arith) refl refl

one_monitor-IsUnique : IsUnique (watching ∷ default_monitor small ∷ [])
unfolding watchers
one_monitor-IsUnique port id = ground arith

establish_monitor-find_example :
    (find_monitor 1 0 (watching ∷ monitor_of 1 default_address 4 ∷ [])
      ≡ some (monitor_of 1 default_address 4))
    × IsUnique (watching ∷ monitor_of 1 default_address 4 ∷ [])
unfolding establish_monitor
establish_monitor-find_example =
    establish_monitor-find 1 default_address 4 (watching ∷ default_monitor small ∷ [])
      (watching ∷ monitor_of 1 default_address 4 ∷ []) one_monitor-IsUnique refl

-- A port whose front write response is that of the exit device.
abbrev exiting_port : PortState
exiting_port = record idle_port {
  b = record {
    values = replicate 2 (record { id = 0; response = okay; exit_response = true; exit_code = 9 });
    head = 0;
    size = 1;
  };
}

abbrev offering : SlaveSignals
offering = record (default_output small) { b_valid = true }

abbrev running : ExitStatus
running = record { completed = false; code = 0 }

abbrev exited : ExitStatus
exited = record { completed = true; code = 9 }

abbrev retired : List PortState
retired = record exiting_port { b = record exiting_port.b { head = 1; size = 0 } } ∷ []

retire_ports-status_example :
    (exited ≡ running)
    ⊎ ((running.completed ≡ false)
        × (exited.completed ≡ true)
        × Exits small (exiting_port ∷ []) (offering ∷ []) (quiet ∷ []) 9)
unfolding retire_ports
retire_ports-status_example =
    retire_ports-status small (exiting_port ∷ []) (offering ∷ []) (quiet ∷ []) running exited
      retired refl

accept_ingress-drive_example :
    (driven retired accepted : Fabric (Builtin BufferUartBackend)) × (drive small start false
      ≡ ok driven)
    × (retire_responses small driven (store 0x8000 ∷ []) ≡ ok retired)
    × (accept_ingress small retired (store 0x8000 ∷ []) ≡ ok accepted)
    × AreValid small accepted.ports
unfolding make_fabric
accept_ingress-drive_example =
    accept_ingress-drive small start (store 0x8000 ∷ []) (idle_port-IsValidPort, tt)

abbrev middle_lanes : List ℕ
middle_lanes = 0 ∷ 1 ∷ 1 ∷ 0 ∷ []
