-- ===== src/Fabric/Route.antt =====
-- Decoding of addresses and arbitration in `AxiFabric` of src/fabric.hpp.
use verilator_axi_testbench.Common.{
  ℕ, zero, suc, ◌+◌, ◌-◌, ◌*◌, ◌%◌, Bool, true, false, not, ◌==◌, ◌!=◌, ◌&&◌, ◌||◌, ltb,
  if◌then◌else◌, List, [], ◌∷◌, Option, none, some, get_elem?, set, Result, ok, protocol_error,
  address_exceeds_width, illegal_exclusive, throw_if, ◌>>=◌, ◌>>◌, bit_and, add_u64,
}
use verilator_axi_testbench.Axi.{
  AddressPayload, increment, same_burst, Response, okay, slave_error, decode_error,
}
use verilator_axi_testbench.Cursor.{
  BurstCursor, make_cursor, validate_4k_boundary, lane_mask, bus_word_address,
}
use verilator_axi_testbench.Ring.{empty, full, front, push, pop}
use verilator_axi_testbench.Device.{Device}
use verilator_axi_testbench.Space.{Mapping, AddressSpace, resolve}
use verilator_axi_testbench.Fabric.State.{
  Geometry, PortState, RouteBase, Fabric, at, default_write_route, address_limit,
  max_exclusive_beats,
}

-- `make_cursor` of the fabric: the cursor of a burst that stays in its page.
unfoldable pub checked_cursor : ℕ → AddressPayload → Result BurstCursor
unfolding make_cursor validate_4k_boundary
checked_cursor bus payload = do
  cursor ← make_cursor bus payload
  validate_4k_boundary bus cursor
  ok cursor

-- What the decoding loop has found: the mapping of the bytes so far, and whether one has none or
-- another.
pub record Decoded : Type 0 where
  pub mapping : Option Mapping
  pub decode_error : Bool

unfoldable pub decode_byte : Option Mapping → Decoded → Decoded
decode_byte none st = record st { decode_error = true }
decode_byte (some m) st = elim st.mapping [
  | none ↦ record st { mapping = some m }
  | some known ↦ if m.base == known.base then st else record st { decode_error = true }
]

-- The inner loop of `initialize_route`, from lane `lane` on.
unfoldable pub decode_lanes : AddressSpace → ℕ → ℕ → ℕ → List ℕ → Decoded → Result Decoded
unfolding decode_byte resolve
decode_lanes space limit base lane [] st = ok st
decode_lanes space limit base lane (enabled ∷ mask) st =
    let outside = ltb limit base || ltb (limit - base) lane in
    do
      throw_if (enabled != 0 && outside) (protocol_error address_exceeds_width)
      decode_lanes space limit base (lane + 1) mask
          (if enabled == 0 then st else decode_byte (resolve space (add_u64 base lane) 1) st)

-- The outer loop, with `n` beats left from `beat` on.
unfoldable pub decode_beats : AddressSpace → ℕ → ℕ → BurstCursor → ℕ → ℕ → Decoded → Result Decoded
unfolding decode_lanes lane_mask bus_word_address
decode_beats space limit bus cursor zero beat st = ok st
decode_beats space limit bus cursor (suc n) beat st = do
  base ← bus_word_address bus cursor beat
  mask ← lane_mask bus cursor beat
  st' ← decode_lanes space limit base 0 mask st
  decode_beats space limit bus cursor n (beat + 1) st'

-- `validate_exclusive`
unfoldable pub validate_exclusive : BurstCursor → Result (Unit {0})
validate_exclusive cursor =
    let total = cursor.beats * cursor.beat_bytes in
    throw_if
      (not (same_burst cursor.payload.burst increment)
        || ltb max_exclusive_beats cursor.beats
        || total == 0
        || ltb 128 total
        || bit_and total (total - 1) != 0
        || bit_and cursor.payload.address (total - 1) != 0)
      (protocol_error illegal_exclusive)

module _ {ℓ} {D : Type ℓ} ⦃ops : Device D⦄ where
  -- A capability of the device of a mapping.
  unfoldable pub capability : (D → Bool) → List D → Option Mapping → Result Bool
  capability test devices none = ok false
  capability test devices (some m) = do d ← at (get_elem? devices m.device); ok (test d)

  -- `initialize_route`
  unfoldable pub initialize_route : Geometry → Fabric D → ℕ → AddressPayload → Result RouteBase
  unfolding checked_cursor decode_beats validate_exclusive capability
  initialize_route g f port payload = do
    cursor ← checked_cursor g.data_bytes payload
    decoded ←
        decode_beats f.space (address_limit g) g.data_bytes cursor cursor.beats 0
          (record { mapping = none; decode_error = false })
    let mapping : Option Mapping = if decoded.decode_error then none else decoded.mapping
    bursts ← capability ops.supports_burst f.devices mapping
    exclusives ← capability ops.supports_exclusive f.devices mapping
    (if payload.lock then validate_exclusive cursor else ok tt)
    let forced : Response = elim mapping [
      | none ↦ decode_error
      | some m ↦ if ltb 1 cursor.beats && not bursts then slave_error else okay
    ]
    ok (record {
      port = port;
      payload = payload;
      beat = 0;
      mapping = mapping;
      forced_response = if payload.lock && not exclusives then slave_error else forced;
      exclusive = payload.lock;
    })

-- The first port that waits, of the `n` left from `offset` on.
unfoldable pub next_waiting :
    (PortState → Bool) → List PortState → ℕ → ℕ → ℕ → ℕ → Result (Option (ℕ × PortState))
next_waiting waits ports count next zero offset = ok none
next_waiting waits ports count next (suc n) offset =
    let port = (next + offset) % count in
    let rest = next_waiting waits ports count next n (offset + 1) in
    do p ← at (get_elem? ports port); (if waits p then ok (some (port, p)) else rest)

module _ {ℓ} {D : Type ℓ} ⦃ops : Device D⦄ (g : Geometry) where
  unfoldable pub grant_write : Fabric D → Option (ℕ × PortState) → Result (Fabric D)
  unfolding initialize_route front pop push
  grant_write f none = ok f
  grant_write f (some (port, p)) = do
    payload ← front p.aw
    route ← initialize_route g f port payload
    aw ← pop g.address_depth p.aw
    ok (record f {
      ports = set f.ports port (record p { aw = aw });
      write_routes =
          (push g.route_depth f.write_routes (record (default_write_route g) { route = route })).0;
      next_aw_port = (port + 1) % g.num_ports;
    })

  unfoldable pub grant_read : Fabric D → Option (ℕ × PortState) → Result (Fabric D)
  unfolding initialize_route front pop push
  grant_read f none = ok f
  grant_read f (some (port, p)) = do
    payload ← front p.ar
    route ← initialize_route g f port payload
    ar ← pop g.address_depth p.ar
    ok (record f {
      ports = set f.ports port (record p { ar = ar });
      read_routes = (push g.route_depth f.read_routes route).0;
      next_ar_port = (port + 1) % g.num_ports;
    })

  -- The two halves of `arbitrate_addresses`.
  unfoldable pub arbitrate_writes : Fabric D → Result (Fabric D)
  unfolding next_waiting full empty grant_write
  arbitrate_writes f =
      let chosen =
        next_waiting (λ p. not (empty p.aw)) f.ports g.num_ports f.next_aw_port g.num_ports 0 in
      if full g.route_depth f.write_routes then ok f else (chosen >>= grant_write f)

  unfoldable pub arbitrate_reads : Fabric D → Result (Fabric D)
  unfolding next_waiting full empty grant_read
  arbitrate_reads f =
      let chosen =
        next_waiting (λ p. not (empty p.ar)) f.ports g.num_ports f.next_ar_port g.num_ports 0 in
      if full g.route_depth f.read_routes then ok f else (chosen >>= grant_read f)

  unfoldable pub arbitrate_addresses : Fabric D → Result (Fabric D)
  unfolding arbitrate_writes arbitrate_reads
  arbitrate_addresses f = arbitrate_writes f >>= arbitrate_reads
