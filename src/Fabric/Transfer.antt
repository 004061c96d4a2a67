-- ===== src/Fabric/Transfer.antt =====
-- Read beats in `AxiFabric` of src/fabric.hpp, and the extent of the lanes that a beat enables.
use verilator_axi_testbench.Common.{
  ℕ, ◌+◌, ◌-◌, ◌*◌, ◌==◌, ◌!=◌, ◌&&◌, if◌then◌else◌, List, [], ◌∷◌, ◌++◌, Option, none, some,
  get_elem?, set, length, take, drop, replicate, min, Result, ok, ◌>>=◌, add_u64, sub_u64,
}
use verilator_axi_testbench.Axi.{Response, okay, exclusive_okay, same_response, ReadDataPayload}
use verilator_axi_testbench.Cursor.{BurstCursor, make_cursor, lane_mask, bus_word_address}
use verilator_axi_testbench.Ring.{RingBuffer, empty, full, front, set_front, push, pop}
use verilator_axi_testbench.Device.{Device}
use verilator_axi_testbench.Space.{Mapping, read_device}
use verilator_axi_testbench.Fabric.State.{Geometry, PortState, RouteBase, Fabric, at, zero_bytes}
use verilator_axi_testbench.Fabric.Monitors.{establish_monitor}

-- The loop of `enabled_extent`, from lane `lane` on: the first enabled lane (`size` if none) and the
-- end of the last.
unfoldable pub extent_loop : List ℕ → ℕ → ℕ → ℕ → ℕ × ℕ
extent_loop [] lane first last = (first, last)
extent_loop (enabled ∷ mask) lane first last =
    extent_loop mask (lane + 1) (if enabled != 0 then min first lane else first)
      (if enabled != 0 then lane + 1 else last)

-- `enabled_extent`: the first enabled lane and the number of lanes up to the last.
unfoldable pub enabled_extent : List ℕ → ℕ × ℕ
unfolding extent_loop
enabled_extent mask =
    let (first, last) = extent_loop mask 0 (length mask) 0 in
    if first == length mask then (0, 0) else (first, last - first)

-- `span.subspan(first, count)`
abbrev pub subspan : List ℕ → ℕ → ℕ → List ℕ
subspan bytes first count = take count (drop first bytes)

module _ {ℓ} {D : Type ℓ} ⦃ops : Device D⦄ (g : Geometry) where
  -- The device access of a read beat: the response, the bytes of the bus word, and the devices.
  unfoldable pub read_mapped :
      Fabric D → RouteBase → BurstCursor → Mapping → Result (Response × List ℕ × List D)
  unfolding read_device lane_mask bus_word_address enabled_extent
  read_mapped f route cursor m = do
    mask ← lane_mask g.data_bytes cursor route.beat
    base ← bus_word_address g.data_bytes cursor route.beat
    let extent : ℕ × ℕ = enabled_extent mask
    let first : ℕ = extent.0
    let count : ℕ = extent.1
    let access : Result (Response × List ℕ × List D) = do
      (response, bytes, devices) ←
          read_device f.devices m.device (sub_u64 (add_u64 base first) m.base) count
            (subspan mask first count)
      ok (
        response,
        replicate first 0 ++ (bytes ++ replicate (g.data_bytes - (first + count)) 0),
        devices,
      )
    (response, bytes, devices) ←
        if count == 0 then ok (route.forced_response, zero_bytes g, f.devices) else access
    ok (
      if route.exclusive && same_response response okay then exclusive_okay else response,
      bytes,
      devices,
    )

  -- A read beat answers the forced response, or what the mapped device gives.
  unfoldable pub serve_read :
      Fabric D → RouteBase → BurstCursor → Option Mapping → Result (Response × List ℕ × List D)
  unfolding read_mapped
  serve_read f route cursor none = ok (route.forced_response, zero_bytes g, f.devices)
  serve_read f route cursor (some m) =
      let served = read_mapped f route cursor m in
      if same_response route.forced_response okay
      then served
      else ok (route.forced_response, zero_bytes g, f.devices)

  -- The beat of a route whose port has room for it.
  unfoldable pub answer_read : Fabric D → RouteBase → PortState → Result (Fabric D)
  unfolding serve_read make_cursor establish_monitor push pop set_front
  answer_read f route p = do
    cursor ← make_cursor g.data_bytes route.payload
    monitors ←
        if route.exclusive && route.beat == 0 && same_response route.forced_response okay
        then establish_monitor route.port route.payload (cursor.beats * cursor.beat_bytes)
            f.monitors
        else ok f.monitors
    (response, bytes, devices) ← serve_read f route cursor route.mapping
    let beat : ReadDataPayload = record {
      id = route.payload.id;
      bytes = bytes;
      response = response;
      last = route.beat + 1 == cursor.beats;
    }
    let advanced : RingBuffer RouteBase =
        set_front f.read_routes (record route { beat = route.beat + 1 })
    read_routes ← if route.beat + 1 == cursor.beats then pop g.route_depth advanced else ok advanced
    ok (record f {
      devices = devices;
      ports = set f.ports route.port (record p { r = (push g.response_depth p.r beat).0 });
      read_routes = read_routes;
      monitors = monitors;
    })

  -- `process_read_beat`
  unfoldable pub process_read_beat : Fabric D → Result (Fabric D)
  unfolding answer_read empty full front
  process_read_beat f =
      let served = (do
        route ← front f.read_routes
        p ← at (get_elem? f.ports route.port)
        (let answered = answer_read f route p in
            if full g.response_depth p.r then ok f else answered)) in
      if empty f.read_routes then ok f else served
