-- ===== src/Fabric/Granted.antt =====
-- A grant of `arbitrate_addresses` in src/fabric.hpp: what it takes from the port and queues.
use verilator_axi_testbench.Common.{
  ℕ, ◌+◌, ◌%◌, ◌≡◌, ◌≢◌, refl, ap, ◌∙◌, map, List, [], ◌∷◌, ◌++◌, set, Option, some, Result, ok,
  ok-inj, ◌>>=◌, >>=-eq-ok,
}
use mathlib.Core.Path.{subst}
use verilator_axi_testbench.Axi.{AddressPayload}
use verilator_axi_testbench.Device.{Device}
use verilator_axi_testbench.Ring.{RingBuffer, front, push, pop}
use verilator_axi_testbench.Ring.Contents.{IsValid, contents, push-room}
use verilator_axi_testbench.Fabric.State.{
  Geometry, PortState, RouteBase, WriteRoute, Fabric, default_write_route,
}
use verilator_axi_testbench.Fabric.Route.{
  initialize_route, grant_write, grant_read, arbitrate_writes, arbitrate_reads,
}
use verilator_axi_testbench.Fabric.Setup.{IsSetUp, initialize_route-IsSetUp}

map-append :
    (xs : List WriteRoute) (x : WriteRoute)
    → map (λ r. r.route) (xs ++ x ∷ []) ≡ map (λ r. r.route) xs ++ x.route ∷ []
map-append [] x = refl
map-append (y ∷ ys) x = ap (λ t. y.route ∷ t) (map-append ys x)

-- The two halves of the arbitration.
pub data Channel : Type 0 where
  writes reads : Channel

abbrev pub requests : Channel → PortState → RingBuffer AddressPayload
requests writes p = p.aw
requests reads p = p.ar

module _ {ℓ} {D : Type ℓ} where
  abbrev pub next_port : Channel → Fabric D → ℕ
  next_port writes f = f.next_aw_port
  next_port reads f = f.next_ar_port

  -- The routes that are queued, oldest first, and whether the queue is valid.
  abbrev pub queued : Channel → Geometry → Fabric D → List RouteBase
  queued writes g f = map (λ r. r.route) (contents g.route_depth f.write_routes)
  queued reads g f = contents g.route_depth f.read_routes

  abbrev pub IsQueue : Channel → Geometry → Fabric D → Type 0
  IsQueue writes g f = IsValid g.route_depth f.write_routes × (f.write_routes.size ≢ g.route_depth)
  IsQueue reads g f = IsValid g.route_depth f.read_routes × (f.read_routes.size ≢ g.route_depth)

module _ {ℓ} {D : Type ℓ} ⦃ops : Device D⦄ (g : Geometry) where
  abbrev pub arbitrate : Channel → Fabric D → Result (Fabric D)
  arbitrate writes f = arbitrate_writes g f
  arbitrate reads f = arbitrate_reads g f

  abbrev pub grant : Channel → Fabric D → Option (ℕ × PortState) → Result (Fabric D)
  grant writes f o = grant_write g f o
  grant reads f o = grant_read g f o

  -- The first request of a port becomes the last route queued, and the next round begins behind it.
  pub record IsGranted (c : Channel) (f f' : Fabric D) (port : ℕ) (p : PortState) : Type ℓ where
    pub p' : PortState
    pub payload : AddressPayload
    pub route : RouteBase
    pub asked : front (requests c p) ≡ ok payload
    pub popped : pop g.address_depth (requests c p) ≡ ok (requests c p')
    pub ports_eq : f'.ports ≡ set f.ports port p'
    pub next_eq : next_port c f' ≡ (port + 1) % g.num_ports
    pub route_IsSetUp : IsSetUp port payload route
    pub queued_eq : queued c g f' ≡ queued c g f ++ route ∷ []

  pub grant-IsGranted :
      (c : Channel) (f f' : Fabric D) (port : ℕ) (p : PortState)
      → IsQueue c g f
      → grant c f (some (port, p)) ≡ ok f'
      → IsGranted c f f' port p
  unfolding grant_write grant_read
  grant-IsGranted writes f f' port p (valid, room) e =
      let built : RouteBase → RingBuffer AddressPayload → Fabric D = λ route aw. record f {
        ports = set f.ports port (record p { aw = aw });
        write_routes =
            (push g.route_depth f.write_routes
              (record (default_write_route g) { route = route })).0;
        next_aw_port = (port + 1) % g.num_ports;
      } in
      let last : RouteBase → Result (Fabric D) =
        λ route. pop g.address_depth p.aw >>= λ aw. ok (built route aw) in
      let (payload, asked, e1) =
        >>=-eq-ok (front p.aw) (λ payload. initialize_route g f port payload >>= last) e in
      let (route, set_up, e2) = >>=-eq-ok (initialize_route g f port payload) last e1 in
      let (aw, popped, e3) = >>=-eq-ok (pop g.address_depth p.aw) (λ aw. ok (built route aw)) e2 in
      let new : WriteRoute = record (default_write_route g) { route = route } in
      let held = push-room g.route_depth f.write_routes new valid room in
      subst (λ f'. IsGranted writes f f' port p) (ok-inj e3)
        (record {
          p' = record p { aw = aw };
          payload = payload;
          route = route;
          asked = asked;
          popped = popped;
          ports_eq = refl;
          next_eq = refl;
          route_IsSetUp = initialize_route-IsSetUp g f port payload route set_up;
          queued_eq =
              ap (map (λ r. r.route)) held.1
              ∙ map-append (contents g.route_depth f.write_routes) new;
        })
  grant-IsGranted reads f f' port p (valid, room) e =
      let built : RouteBase → RingBuffer AddressPayload → Fabric D = λ route ar. record f {
        ports = set f.ports port (record p { ar = ar });
        read_routes = (push g.route_depth f.read_routes route).0;
        next_ar_port = (port + 1) % g.num_ports;
      } in
      let last : RouteBase → Result (Fabric D) =
        λ route. pop g.address_depth p.ar >>= λ ar. ok (built route ar) in
      let (payload, asked, e1) =
        >>=-eq-ok (front p.ar) (λ payload. initialize_route g f port payload >>= last) e in
      let (route, set_up, e2) = >>=-eq-ok (initialize_route g f port payload) last e1 in
      let (ar, popped, e3) = >>=-eq-ok (pop g.address_depth p.ar) (λ ar. ok (built route ar)) e2 in
      subst (λ f'. IsGranted reads f f' port p) (ok-inj e3)
        (record {
          p' = record p { ar = ar };
          payload = payload;
          route = route;
          asked = asked;
          popped = popped;
          ports_eq = refl;
          next_eq = refl;
          route_IsSetUp = initialize_route-IsSetUp g f port payload route set_up;
          queued_eq = (push-room g.route_depth f.read_routes route valid room).1;
        })
