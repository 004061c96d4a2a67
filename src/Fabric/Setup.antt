-- ===== src/Fabric/Setup.antt =====
-- What `initialize_route` of src/fabric.hpp sets a route up with.
use verilator_axi_testbench.Common.{
  ℕ, ◌≡◌, refl, Bool, true, false, if◌then◌else◌, Option, none, some, Result, ok, ok-inj, ◌>>=◌,
  ◌>>◌, >>=-eq-ok, >>-eq-ok, ltb, not, ◌&&◌,
}
use mathlib.Core.Path.{subst}
use verilator_axi_testbench.Axi.{
  AddressPayload, Response, okay, exclusive_okay, slave_error, decode_error, same_response,
}
use verilator_axi_testbench.Cursor.{BurstCursor}
use verilator_axi_testbench.Device.{Device}
use verilator_axi_testbench.Space.{Mapping}
use verilator_axi_testbench.Fabric.State.{Geometry, Fabric, RouteBase, address_limit}
use verilator_axi_testbench.Fabric.Route.{
  Decoded, initialize_route, checked_cursor, decode_beats, validate_exclusive, capability,
}

-- The response that `initialize_route` forces, by what it finds.
abbrev forced_by : Bool → Bool → Option Mapping → Response
forced_by refused single o =
    if refused
    then slave_error
    else elim o [ none ↦ decode_error | some m ↦ if single then slave_error else okay ]

forced_by-not_exclusive :
    (refused single : Bool) (o : Option Mapping)
    → same_response (forced_by refused single o) exclusive_okay ≡ false
forced_by-not_exclusive true single o = refl
forced_by-not_exclusive false single none = refl
forced_by-not_exclusive false true (some m) = refl
forced_by-not_exclusive false false (some m) = refl

-- What every route is set up with: its port and payload, its first beat, and no EXOKAY forced.
abbrev pub IsSetUp : ℕ → AddressPayload → RouteBase → Type 0
IsSetUp port payload base =
    (base.port ≡ port)
    × (base.payload ≡ payload)
    × (base.beat ≡ 0)
    × (same_response base.forced_response exclusive_okay ≡ false)

module _ {ℓ} {D : Type ℓ} ⦃ops : Device D⦄ (g : Geometry) where
  pub initialize_route-IsSetUp :
      (f : Fabric D) (port : ℕ) (payload : AddressPayload) (base : RouteBase)
      → initialize_route g f port payload ≡ ok base
      → IsSetUp port payload base
  unfolding initialize_route
  initialize_route-IsSetUp f port payload base e =
      let start : Decoded = record { mapping = none; decode_error = false } in
      let found : Decoded → Option Mapping =
        λ decoded. if decoded.decode_error then none else decoded.mapping in
      let built : BurstCursor → Decoded → Bool → Bool → RouteBase =
        λ cursor decoded bursts exclusives. record {
          port = port;
          payload = payload;
          beat = 0;
          mapping = found decoded;
          forced_response =
              forced_by (payload.lock && not exclusives) (ltb 1 cursor.beats && not bursts)
                (found decoded);
          exclusive = payload.lock;
        } in
      let check : BurstCursor → Result (Unit {0}) =
        λ cursor. if payload.lock then validate_exclusive cursor else ok tt in
      let after_exclusives : BurstCursor → Decoded → Bool → Bool → Result RouteBase =
        λ cursor decoded bursts exclusives.
          check cursor >> ok (built cursor decoded bursts exclusives) in
      let after_bursts : BurstCursor → Decoded → Bool → Result RouteBase = λ cursor decoded bursts.
        capability ops.supports_exclusive f.devices (found decoded)
        >>= after_exclusives cursor decoded bursts in
      let after_decoding : BurstCursor → Decoded → Result RouteBase = λ cursor decoded.
        capability ops.supports_burst f.devices (found decoded) >>= after_bursts cursor decoded in
      let after_cursor : BurstCursor → Result RouteBase = λ cursor.
        decode_beats f.space (address_limit g) g.data_bytes cursor cursor.beats 0 start
        >>= after_decoding cursor in
      let (cursor, e0, e1) = >>=-eq-ok (checked_cursor g.data_bytes payload) after_cursor e in
      let (decoded, d0, e2) =
        >>=-eq-ok (decode_beats f.space (address_limit g) g.data_bytes cursor cursor.beats 0 start)
          (after_decoding cursor) e1 in
      let (bursts, b0, e3) =
        >>=-eq-ok (capability ops.supports_burst f.devices (found decoded))
          (after_bursts cursor decoded) e2 in
      let (exclusives, x0, e4) =
        >>=-eq-ok (capability ops.supports_exclusive f.devices (found decoded))
          (after_exclusives cursor decoded bursts) e3 in
      let (checked, e5) =
        >>-eq-ok (check cursor) (ok (built cursor decoded bursts exclusives)) e4 in
      subst (IsSetUp port payload) (ok-inj e5) (
        refl,
        refl,
        refl,
        forced_by-not_exclusive (payload.lock && not exclusives) (ltb 1 cursor.beats && not bursts)
            (found decoded),
      )
