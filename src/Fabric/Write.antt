-- ===== src/Fabric/Write.antt =====
-- Write beats in `AxiFabric` of src/fabric.hpp: staging until WLAST, then the commit, beat by beat or
-- as one exclusive access.
use verilator_axi_testbench.Common.{
  ℕ, zero, suc, ◌+◌, ◌*◌, Bool, true, false, not, ◌==◌, ◌!=◌, ◌&&◌, ◌||◌, if◌then◌else◌, List, [],
  ◌∷◌, Option, none, some, get_elem?, set, take, replicate, Result, ok, protocol_error,
  last_missing, last_early, illegal_strobe, throw_if, ◌>>=◌, ◌>>◌, add_u64, sub_u64,
}
use verilator_axi_testbench.Axi.{
  AddressPayload, Response, okay, exclusive_okay, same_response, same_flag, combine_response,
  response_is_success, same_address, WriteResponsePayload,
}
use verilator_axi_testbench.Cursor.{BurstCursor, make_cursor, lane_mask, bus_word_address}
use verilator_axi_testbench.Ring.{empty, full, front, set_front, push, pop}
use verilator_axi_testbench.Device.{Device}
use verilator_axi_testbench.Space.{Mapping, write_device}
use verilator_axi_testbench.Fabric.State.{
  Geometry, PortState, WriteRoute, Fabric, ExclusiveMonitor, at, max_exclusive_bytes,
}
use verilator_axi_testbench.Fabric.Monitors.{find_monitor, clear_monitor, invalidate_monitors}
use verilator_axi_testbench.Fabric.Transfer.{enabled_extent, subspan}

-- Whether a strobe selects a lane outside the mask.
unfoldable pub strobes_outside : List ℕ → List ℕ → Bool
strobes_outside (s ∷ strobe) (enabled ∷ mask) =
    (s != 0 && enabled == 0) || strobes_outside strobe mask
strobes_outside _ _ = false

-- The lanes that are both enabled and strobed.
unfoldable pub effective_lanes : List ℕ → List ℕ → List ℕ
effective_lanes (enabled ∷ mask) (s ∷ strobe) =
    (if enabled != 0 && s != 0 then 1 else 0) ∷ effective_lanes mask strobe
effective_lanes _ _ = []

-- Invalidating the monitors of each byte that is written, from address `address` on.
unfoldable pub invalidate_written : ℕ → List ℕ → List ExclusiveMonitor → List ExclusiveMonitor
unfolding invalidate_monitors
invalidate_written address [] ms = ms
invalidate_written address (written ∷ lanes) ms =
    invalidate_written (add_u64 address 1) lanes
      (if written != 0 then invalidate_monitors address ms else ms)

-- The bytes and strobes that an exclusive write gathers from its beats.
pub record Atomic : Type 0 where
  pub bytes : List ℕ
  pub strobe : List ℕ

-- The inner loop of the gathering: `address` is the byte of the lane at hand, `start` the burst's.
unfoldable pub gather_lanes : ℕ → ℕ → List ℕ → List ℕ → List ℕ → Atomic → Atomic
gather_lanes start address (enabled ∷ mask) (byte ∷ bytes) (s ∷ strobe) st =
    gather_lanes start (add_u64 address 1) mask bytes strobe (
      if enabled == 0 then st else record {
        bytes = set st.bytes (sub_u64 address start) byte;
        strobe = set st.strobe (sub_u64 address start) (if s != 0 then 1 else 0);
      })
gather_lanes start address _ _ _ st = st

unfoldable pub gather_beats : ℕ → BurstCursor → WriteRoute → ℕ → ℕ → Atomic → Result Atomic
unfolding gather_lanes lane_mask bus_word_address
gather_beats bus cursor route zero beat st = ok st
gather_beats bus cursor route (suc n) beat st = do
  base ← bus_word_address bus cursor beat
  lanes ← lane_mask bus cursor beat
  bytes ← at (get_elem? route.staged_data beat)
  strobe ← at (get_elem? route.staged_strobe beat)
  gather_beats bus cursor route n (beat + 1)
      (gather_lanes route.payload.address base lanes bytes strobe st)

-- Whether the monitor that was found watches this very transfer.
abbrev pub watches : AddressPayload → Option ExclusiveMonitor → Bool
watches payload none = false
watches payload (some monitor) = same_address monitor.payload payload

module _ {ℓ} {D : Type ℓ} ⦃ops : Device D⦄ (g : Geometry) where
  -- What a successful write to the exit device leaves in the route.
  unfoldable pub note_exit : WriteRoute → Option D → WriteRoute
  note_exit route none = route
  note_exit route (some d) =
      if ops.is_exit d
      then record route { exit_response = true; exit_code = ops.exit_code d }
      else route

  -- `write_device_beat`
  unfoldable pub write_device_beat :
      Fabric D → WriteRoute → BurstCursor → Mapping → ℕ → Result (Response × Fabric D × WriteRoute)
  unfolding write_device note_exit effective_lanes invalidate_written enabled_extent lane_mask
      bus_word_address
  write_device_beat f route cursor m beat = do
    bytes ← at (get_elem? route.staged_data beat)
    strobe ← at (get_elem? route.staged_strobe beat)
    base ← bus_word_address g.data_bytes cursor beat
    lanes ← lane_mask g.data_bytes cursor beat
    let effective : List ℕ = effective_lanes lanes strobe
    let extent : ℕ × ℕ = enabled_extent lanes
    let first : ℕ = extent.0
    let count : ℕ = extent.1
    let access : Result (Response × Fabric D × WriteRoute) = do
      (response, devices) ←
          write_device f.devices m.device (sub_u64 (add_u64 base first) m.base)
            (subspan bytes first count) (subspan effective first count)
      ok (
        response,
        record f {
          devices = devices;
          monitors =
              if response_is_success response
              then invalidate_written (add_u64 base first) (subspan effective first count)
                  f.monitors
              else f.monitors;
        },
        if response_is_success response
            then note_exit route (get_elem? devices m.device)
            else route,
      )
    (if count == 0 then ok (okay, f, route) else access)

  -- The exclusive write of a route that is mapped and not forced to fail, if its monitor holds.
  unfoldable pub write_exclusive :
      Fabric D → WriteRoute → BurstCursor → Mapping → Result (Response × Fabric D)
  unfolding gather_beats write_device invalidate_written
  write_exclusive f route cursor m =
      let total = cursor.beats * cursor.beat_bytes in
      do
        gathered ← gather_beats g.data_bytes cursor route cursor.beats 0 (record {
          bytes = replicate max_exclusive_bytes 0;
          strobe = replicate max_exclusive_bytes 0;
        })
        (response, devices) ←
            write_device f.devices m.device (sub_u64 route.payload.address m.base)
              (take total gathered.bytes) (take total gathered.strobe)
        ok (
          if response_is_success response then exclusive_okay else response,
          record f {
            devices = devices;
            monitors =
                if response_is_success response
                then invalidate_written route.payload.address (take total gathered.strobe)
                    f.monitors
                else f.monitors;
          },
        )

  -- The response of `finish_exclusive_write` and the fabric before the monitor is cleared.
  unfoldable pub attempt_exclusive :
      Fabric D → WriteRoute → BurstCursor → Option Mapping → Result (Response × Fabric D)
  unfolding write_exclusive find_monitor
  attempt_exclusive f route cursor none = ok (route.forced_response, f)
  attempt_exclusive f route cursor (some m) =
      let written = write_exclusive f route cursor m in
      if not (same_response route.forced_response okay)
      then ok (route.forced_response, f)
      else if watches route.payload (find_monitor route.port route.payload.id f.monitors)
      then written
      else ok (okay, f)

  -- `finish_exclusive_write`
  unfoldable pub finish_exclusive_write :
      Fabric D → WriteRoute → BurstCursor → Result (Fabric D × WriteRoute)
  unfolding attempt_exclusive clear_monitor
  finish_exclusive_write f route cursor = do
    (response, f') ← attempt_exclusive f route cursor route.mapping
    ok (
      record f' { monitors = clear_monitor route.port route.payload.id f'.monitors },
      record route { response = response },
    )

  -- `complete_write_route`
  unfoldable pub complete_write_route : Fabric D → WriteRoute → Result (Fabric D)
  unfolding push pop
  complete_write_route f route = do
    p ← at (get_elem? f.ports route.port)
    let response : WriteResponsePayload = record {
      id = route.payload.id;
      response = route.response;
      exit_response = route.exit_response;
      exit_code = route.exit_code;
    }
    write_routes ← pop g.route_depth f.write_routes
    ok (record f {
      ports = set f.ports route.port (record p { b = (push g.response_depth p.b response).0 });
      write_routes = write_routes;
    })

  -- The end of a commit: the route is complete, or waits at the front for its next beat.
  unfoldable pub after_commit : Fabric D → WriteRoute → BurstCursor → Result (Fabric D)
  unfolding complete_write_route set_front
  after_commit f route cursor =
      let completed = complete_write_route f route in
      if route.commit_beat == cursor.beats
      then completed
      else ok (record f { write_routes = set_front f.write_routes route })

  -- One beat of a plain write that is mapped and not forced to fail.
  unfoldable pub commit_beat : Fabric D → WriteRoute → BurstCursor → Mapping → Result (Fabric D)
  unfolding write_device_beat after_commit combine_response
  commit_beat f route cursor m = do
    (response, f', route') ← write_device_beat f route cursor m route.commit_beat
    after_commit f'
        (record route' {
          response = combine_response route.response response;
          commit_beat =
              if response_is_success response then route.commit_beat + 1 else cursor.beats;
        })
        cursor

  unfoldable pub commit_plain :
      Fabric D → WriteRoute → BurstCursor → Option Mapping → Result (Fabric D)
  unfolding commit_beat complete_write_route combine_response
  commit_plain f route cursor none =
      complete_write_route f
        (record route { response = combine_response route.response route.forced_response })
  commit_plain f route cursor (some m) =
      let forced =
        complete_write_route f
          (record route { response = combine_response route.response route.forced_response }) in
      let committed = commit_beat (record f { suppress_read = true }) route cursor m in
      if same_response route.forced_response okay then committed else forced

  -- `process_write_commit`, of the route at the front.
  unfoldable pub process_write_commit : Fabric D → WriteRoute → BurstCursor → Result (Fabric D)
  unfolding commit_plain finish_exclusive_write complete_write_route full
  process_write_commit f route cursor =
      let exclusive_write = (do
        (f', route') ← finish_exclusive_write (record f { suppress_read = true }) route cursor
        complete_write_route f' route') in
      let plain_write = commit_plain f route cursor route.mapping in
      do
        p ← at (get_elem? f.ports route.port)
        (if full g.response_depth p.b
            then ok f
            else if route.exclusive
            then exclusive_write
            else plain_write)

  -- The staging of the beat that a port has sent.
  unfoldable pub stage_beat : Fabric D → WriteRoute → PortState → BurstCursor → Result (Fabric D)
  unfolding process_write_commit strobes_outside lane_mask front pop set_front
  stage_beat f route p cursor =
      let final = route.beat + 1 == cursor.beats in
      do
        beat ← front p.w
        throw_if (not (same_flag beat.last final))
            (protocol_error (if final then last_missing else last_early))
        lanes ← lane_mask g.data_bytes cursor route.beat
        throw_if (strobes_outside beat.strobe lanes) (protocol_error illegal_strobe)
        w ← pop g.write_data_depth p.w
        let staged : WriteRoute = record route {
          route = record route.route { beat = route.beat + 1 };
          staged_data = set route.staged_data route.beat beat.bytes;
          staged_strobe = set route.staged_strobe route.beat beat.strobe;
          data_complete = final;
        }
        let f' : Fabric D = record f {
          ports = set f.ports route.port (record p { w = w });
          write_routes = set_front f.write_routes staged;
        }
        (let committed = process_write_commit f' staged cursor in
            if final then committed else ok f')

  -- `process_write_beat`
  unfoldable pub process_write_beat : Fabric D → Result (Fabric D)
  unfolding stage_beat make_cursor empty front
  process_write_beat f =
      let served = (do
        route ← front f.write_routes
        p ← at (get_elem? f.ports route.port)
        cursor ← make_cursor g.data_bytes route.payload
        (let committed = process_write_commit f route cursor in
            let staged = stage_beat f route p cursor in
            if route.data_complete then committed else if empty p.w then ok f else staged)) in
      if empty f.write_routes then ok f else served
