-- ===== src/Fabric/Staging.antt =====
-- What a write of src/fabric.hpp does before its last data beat.
use verilator_axi_testbench.Common.{
  ℕ, zero, suc, ◌+◌, ◌<◌, ◌≡◌, refl, sym, ap, ◌≢◌, ◌↔◌, ◌⊎◌, inl, inr, Bool, true, false, ◌==◌,
  ◌!=◌, ◌&&◌, ◌||◌, if◌then◌else◌, List, [], ◌∷◌, length, get_or, get_elem?, set, Option, none,
  some, arith, Bool-cases, Result, ok, err, ok-inj,
}
use verilator_axi_testbench.Axi.{WriteDataPayload}
use verilator_axi_testbench.Cursor.{BurstCursor, lane_mask, make_cursor}
use verilator_axi_testbench.Cursor.Shape.{make_cursor_iff, cursor_of}
use verilator_axi_testbench.Device.{Device}
use verilator_axi_testbench.Ring.{RingBuffer, front, set_front, empty}
use verilator_axi_testbench.Ring.Contents.{
  IsValid, contents, contents-empty, Split, Split-of_ne_zero, set_front-contents,
}
use verilator_axi_testbench.Fabric.State.{Geometry, PortState, Fabric, WriteRoute}
use verilator_axi_testbench.Fabric.Ingress.{AreValid, AreValid-get}
use verilator_axi_testbench.Fabric.Write.{strobes_outside, stage_beat, process_write_beat}

-- A strobe outside the lanes of the beat.
pub strobes_outside_iff :
    (strobe lanes : List ℕ)
    → (strobes_outside strobe lanes ≡ true) ↔ (
        (i : ℕ) × (i < length strobe)
        × (i < length lanes)
        × (get_or strobe i 0 ≢ 0)
        × (get_or lanes i 0 ≡ 0))
unfolding strobes_outside
strobes_outside_iff [] lanes = (λ h. absurd cc, λ w. absurd (let h = w.1 in omega arith))
strobes_outside_iff (s ∷ strobe) [] = (λ h. absurd cc, λ w. absurd (let h = w.2 in omega arith))
strobes_outside_iff (s ∷ strobe) (e ∷ lanes) = (
  λ h. elim (Bool-cases (s != 0 && e == 0)) [
    | inl here ↦ (0, omega arith, omega arith, ground arith, ground arith)
    | inr off ↦
        let (i, hi, hj, on, out) = (strobes_outside_iff strobe lanes).0 (ground arith) in
        (suc i, omega arith, omega arith, on, out)
  ],
  λ w.
      outside (λ i hi hj on out. (strobes_outside_iff strobe lanes).1 (i, hi, hj, on, out)) w.0 w.1
        w.2 w.3 w.4,
)
  where
    outside :
        ((i : ℕ)
          → i < length strobe
          → i < length lanes
          → get_or strobe i 0 ≢ 0
          → get_or lanes i 0 ≡ 0
          → strobes_outside strobe lanes ≡ true)
        → (i : ℕ) → i < suc (length strobe)
        → i < suc (length lanes)
        → get_or (s ∷ strobe) i 0 ≢ 0
        → get_or (e ∷ lanes) i 0 ≡ 0
        → ((s != 0 && e == 0) || strobes_outside strobe lanes) ≡ true
    outside later zero hi hj on out = ground arith
    outside later (suc i) hi hj on out =
        let rest = later i (omega arith) (omega arith) on out in ground arith

module _ {ℓ} {D : Type ℓ} ⦃ops : Device D⦄ (g : Geometry) where
  -- What a beat that is staged, and is not the last, has satisfied and left: it is taken from the front
  -- of the write data of its port, and the route at the front has its bytes and strobes at its index and
  -- waits for the next beat.
  pub record Staged (f f' : Fabric D) (route : WriteRoute) (p : PortState) (cursor : BurstCursor)
      : Type ℓ where
    pub beat : WriteDataPayload
    pub lanes : List ℕ
    pub w : RingBuffer WriteDataPayload
    pub routes : RingBuffer WriteRoute
    pub later : List WriteRoute
    pub lanes_eq : lane_mask g.data_bytes cursor route.beat ≡ ok lanes
    pub not_last : beat.last ≡ false
    pub strobes_inside :
        (i : ℕ)
        → i < length beat.strobe
        → i < length lanes
        → get_or beat.strobe i 0 ≢ 0
        → get_or lanes i 0 ≢ 0
    pub taken : contents g.write_data_depth p.w ≡ beat ∷ contents g.write_data_depth w
    pub w_IsValid : IsValid g.write_data_depth w
    pub routes_before : contents g.route_depth f.write_routes ≡ route ∷ later
    pub routes_after :
        contents g.route_depth routes
        ≡ record route {
          route = record route.route { beat = route.beat + 1 };
          staged_data = set route.staged_data route.beat beat.bytes;
          staged_strobe = set route.staged_strobe route.beat beat.strobe;
          data_complete = false;
        }
          ∷ later
    pub fabric_eq :
        f' ≡ record f { ports = set f.ports route.port (record p { w = w }); write_routes = routes }

  stage_beat-Staged :
      (f f' : Fabric D) (route : WriteRoute) (p : PortState) (cursor : BurstCursor)
      → IsValid g.write_data_depth p.w
      → IsValid g.route_depth f.write_routes
      → front f.write_routes ≡ ok route
      → empty p.w ≡ false
      → (route.beat + 1 == cursor.beats) ≡ false
      → stage_beat g f route p cursor ≡ ok f'
      → Staged f f' route p cursor
  unfolding stage_beat empty
  stage_beat-Staged f f' route p cursor valid_w valid_routes at_front some_beat more h =
      let s = Split-of_ne_zero g.write_data_depth p.w valid_w (λ e. ground (arith, e, some_beat)) in
      go s _ refl
    where
      go :
          (s : Split g.write_data_depth p.w)
          → (m : Result (List ℕ)) → lane_mask g.data_bytes cursor route.beat ≡ m
          → Staged f f' route p cursor
      go s (err e) eq = absurd (ground (arith, eq, s.front_eq))
      go s (ok lanes) eq =
          let beat = s.oldest in
          let staged : WriteRoute = record route {
            route = record route.route { beat = route.beat + 1 };
            staged_data = set route.staged_data route.beat beat.bytes;
            staged_strobe = set route.staged_strobe route.beat beat.strobe;
            data_complete = false;
          } in
          let (later, before_, after_) =
            set_front-contents g.route_depth f.write_routes route staged valid_routes at_front in
          let inside : strobes_outside beat.strobe lanes ≡ false = ground (arith, eq, s.front_eq) in
          record {
            beat = beat;
            lanes = lanes;
            w = s.rest;
            routes = set_front f.write_routes staged;
            later = later;
            lanes_eq = eq;
            not_last = ground (arith, eq, s.front_eq);
            strobes_inside = λ i hi hj on out.
                let strayed = (strobes_outside_iff beat.strobe lanes).1 (i, hi, hj, on, out) in
                ground (arith, inside, strayed);
            taken = s.split;
            w_IsValid = s.rest_valid;
            routes_before = before_;
            routes_after = after_;
            fabric_eq = ground (arith, eq, s.front_eq, s.pop_eq);
          }

  -- Serving a write route that is not at its last beat reaches no device and ends no monitor: where
  -- its port has no write data it leaves the fabric as it is; otherwise it takes the oldest beat of that
  -- port, which has no WLAST and strobes no lane outside its mask, puts its bytes and strobes into the
  -- route at the beat's index, moves the route on to the next beat, still at the front and not
  -- complete, and changes nothing else. The FIFOs and the queue of routes are valid.
  pub process_write_beat-staging :
      (f f' : Fabric D) (route : WriteRoute)
      → AreValid g f.ports
      → IsValid g.route_depth f.write_routes
      → empty f.write_routes ≡ false
      → front f.write_routes ≡ ok route
      → route.data_complete ≡ false
      → route.beat ≢ route.payload.length
      → process_write_beat g f ≡ ok f'
      → (f'.devices ≡ f.devices)
        × (f'.monitors ≡ f.monitors)
        × ((p : PortState) × (cursor : BurstCursor) × (get_elem? f.ports route.port ≡ some p)
            × (make_cursor g.data_bytes route.payload ≡ ok cursor)
            × (((contents g.write_data_depth p.w ≡ []) × (f' ≡ f)) ⊎ Staged f f' route p cursor))
  unfolding process_write_beat
  process_write_beat-staging f f' route valid_ports valid_routes busy at_front open_ more h =
      go _ refl
    where
      Goal : Type ℓ
      Goal =
          (f'.devices ≡ f.devices)
          × (f'.monitors ≡ f.monitors)
          × ((p : PortState) × (cursor : BurstCursor) × (get_elem? f.ports route.port ≡ some p)
              × (make_cursor g.data_bytes route.payload ≡ ok cursor)
              × (((contents g.write_data_depth p.w ≡ []) × (f' ≡ f)) ⊎ Staged f f' route p cursor))

      branch :
          {b : Result (Fabric D)} {x y : Fabric D} (test : Bool)
          → (if test then ok x else b) ≡ ok y
          → ((test ≡ true) × (x ≡ y)) ⊎ ((test ≡ false) × (b ≡ ok y))
      branch true e = inl (refl, ok-inj e)
      branch false e = inr (refl, e)

      done :
          (p : PortState) (cursor : BurstCursor)
          → get_elem? f.ports route.port ≡ some p
          → make_cursor g.data_bytes route.payload ≡ ok cursor
          → (if empty p.w then ok f else stage_beat g f route p cursor) ≡ ok f'
          → Goal
      done p cursor eq eq' h' = elim (branch (empty p.w) h') [
        | inl (idle_, e) ↦ (
          ap (λ (t : Fabric D). t.devices) (sym e),
          ap (λ (t : Fabric D). t.monitors) (sym e),
          (p, cursor, eq, eq', inl (contents-empty g.write_data_depth p.w idle_, sym e)),
        )
        | inr (some_beat, sent) ↦
            let beats : cursor ≡ cursor_of route.payload =
              ((make_cursor_iff g.data_bytes route.payload cursor).0 eq').1 in
            let valid = AreValid-get g f.ports route.port p valid_ports eq in
            let not_final : (route.beat + 1 == cursor.beats) ≡ false =
              rw beats (ground (arith, more)) in
            let staged =
              stage_beat-Staged f f' route p cursor valid.w valid_routes at_front some_beat
                not_final sent in
            (
              ap (λ (t : Fabric D). t.devices) staged.fabric_eq,
              ap (λ (t : Fabric D). t.monitors) staged.fabric_eq,
              (p, cursor, eq, eq', inr staged),
            )
      ]

      go : (o : Option PortState) → get_elem? f.ports route.port ≡ o → Goal
      go none eq = absurd (ground (arith, eq))
      go (some p) eq = next _ refl
        where
          next : (m : Result BurstCursor) → make_cursor g.data_bytes route.payload ≡ m → Goal
          next (err e) eq' = absurd (ground (arith, eq, eq'))
          next (ok cursor) eq' = done p cursor eq eq' (ground (arith, eq, eq'))
