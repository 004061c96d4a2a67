-- ===== src/Fabric/Lost.antt =====
-- `finish_exclusive_write` of src/fabric.hpp where the reservation is lost.
use verilator_axi_testbench.Common.{
  ℕ, zero, suc, ◌≡◌, ◌≢◌, inl, inr, refl, ap, true, false, List, [], ◌∷◌, Option, none, some,
  get_elem?, some-eq, arith, Bool-cases, ok,
}
use verilator_axi_testbench.Axi.{
  Response, okay, exclusive_okay, slave_error, decode_error, same_response,
}
use verilator_axi_testbench.Axi.Payload.{same_address_iff}
use verilator_axi_testbench.Cursor.{BurstCursor}
use verilator_axi_testbench.Device.{Device}
use verilator_axi_testbench.Space.{Mapping}
use verilator_axi_testbench.Fabric.State.{Geometry, Fabric, RouteBase, WriteRoute, ExclusiveMonitor}
use verilator_axi_testbench.Fabric.Route.{initialize_route}
use verilator_axi_testbench.Fabric.Setup.{initialize_route-IsSetUp}
use verilator_axi_testbench.Fabric.Monitors.{matches, find_monitor, clear_monitor}
use verilator_axi_testbench.Fabric.Exclusive.{IsUnique, find_monitor-clear_monitor}
use verilator_axi_testbench.Fabric.Write.{watches, attempt_exclusive, finish_exclusive_write}

-- A monitor holds a reservation of a port and identifier.
abbrev pub IsOf : ℕ → ℕ → ExclusiveMonitor → Type 0
IsOf port id m = (m.valid ≡ true) × (m.port ≡ port) × (m.id ≡ id)

IsOf-matches : (port id : ℕ) (m : ExclusiveMonitor) → IsOf port id m → matches port id m ≡ true
unfolding matches
IsOf-matches port id m (v, p, i) = ground (arith, v, p, i)

matches-IsOf : (port id : ℕ) (m : ExclusiveMonitor) → matches port id m ≡ true → IsOf port id m
unfolding matches
matches-IsOf port id m h = (ground (arith, h), ground (arith, h), ground (arith, h))

-- What is found stands in a slot.
find_monitor-slot :
    (port id : ℕ) (ms : List ExclusiveMonitor) (m : ExclusiveMonitor)
    → find_monitor port id ms ≡ some m
    → (i : ℕ) × (get_elem? ms i ≡ some m) × IsOf port id m
unfolding find_monitor
find_monitor-slot port id [] m e = absurd cc
find_monitor-slot port id (x ∷ ms) m e = elim (Bool-cases (matches port id x)) [
  | inl on ↦
      let same : x ≡ m = some-eq (rw on at e) in
      (0, ap some same, rw (← same) (matches-IsOf port id x on))
  | inr off ↦ let (i, at, is) = find_monitor-slot port id ms m (rw off at e) in (suc i, at, is)
]

-- Where nothing is found, no slot holds a reservation.
find_monitor-none :
    (port id : ℕ) (ms : List ExclusiveMonitor) (i : ℕ) (m : ExclusiveMonitor)
    → find_monitor port id ms ≡ none
    → get_elem? ms i ≡ some m
    → ¬ IsOf port id m
unfolding find_monitor
find_monitor-none port id [] i m e at is = absurd cc
find_monitor-none port id (x ∷ ms) i m e at is = elim (Bool-cases (matches port id x)) [
  | inl on ↦ absurd (ground (arith, rw on at e))
  | inr off ↦ go off (λ k there. find_monitor-none port id ms k m (rw off at e) there is) i at
]
  where
    go :
        matches port id x ≡ false
        → ((k : ℕ) → get_elem? ms k ≡ some m → ⊥)
        → (i : ℕ) → get_elem? (x ∷ ms) i ≡ some m
        → ⊥
    go off later zero here =
        ground (arith, off, ap (matches port id) (some-eq here), IsOf-matches port id m is)
    go off later (suc i) there = later i there

-- A slot of another pair, or of no reservation, is kept.
clear_monitor-other :
    (port id : ℕ) (ms : List ExclusiveMonitor) (i : ℕ) (m : ExclusiveMonitor)
    → get_elem? ms i ≡ some m
    → ¬ IsOf port id m
    → get_elem? (clear_monitor port id ms) i ≡ some m
unfolding clear_monitor
clear_monitor-other port id [] i m at other = absurd cc
clear_monitor-other port id (x ∷ ms) zero m at other = elim (Bool-cases (matches port id x)) [
  | inl on ↦ absurd (other (rw (← some-eq at) (matches-IsOf port id x on)))
  | inr off ↦ rw off at
]
clear_monitor-other port id (x ∷ ms) (suc i) m at other = elim (Bool-cases (matches port id x)) [
  | inl on ↦ rw on at
  | inr off ↦ rw off (clear_monitor-other port id ms i m at other)
]

same_response-okay : (r : Response) → same_response r okay ≡ true → r ≡ okay
same_response-okay okay h = refl
same_response-okay exclusive_okay h = absurd cc
same_response-okay slave_error h = absurd cc
same_response-okay decode_error h = absurd cc

module _ {ℓ} {D : Type ℓ} ⦃ops : Device D⦄ (g : Geometry) where
  -- The write is mapped and not forced to fail, and a slot holds the reservation of its very transfer.
  abbrev pub IsReserved : Fabric D → WriteRoute → Type 0
  IsReserved f route =
      (m : Mapping) × (route.mapping ≡ some m)
      × (route.forced_response ≡ okay)
      × ((i : ℕ) × (monitor : ExclusiveMonitor) × (get_elem? f.monitors i ≡ some monitor)
          × IsOf route.port route.payload.id monitor
          × (monitor.payload ≡ route.payload))

  attempt-lost :
      (f : Fabric D) (route : WriteRoute) (cursor : BurstCursor)
      → ¬ IsReserved f route
      → attempt_exclusive g f route cursor route.mapping ≡ ok (route.forced_response, f)
  unfolding attempt_exclusive
  attempt-lost f route cursor lost = go route.mapping refl
    where
      go :
          (o : Option Mapping)
          → route.mapping ≡ o
          → attempt_exclusive g f route cursor o ≡ ok (route.forced_response, f)
      go none e = refl
      go (some m) e = elim (Bool-cases (same_response route.forced_response okay)) [
        | inr forced ↦ rw forced
        | inl clean ↦
            let okay_ = same_response-okay route.forced_response clean in
            let missed =
              unwatched m e okay_ (find_monitor route.port route.payload.id f.monitors) refl in
            rw (clean, missed, okay_)
      ]
        where
          unwatched :
              (m : Mapping)
              → route.mapping ≡ some m
              → route.forced_response ≡ okay
              → (found : Option ExclusiveMonitor)
              → find_monitor route.port route.payload.id f.monitors ≡ found
              → watches route.payload found ≡ false
          unwatched m mapped okay_ none h = refl
          unwatched m mapped okay_ (some monitor) h =
              elim (Bool-cases (watches route.payload (some monitor))) [
                | inr other ↦ other
                | inl same ↦
                    let (i, at, is) =
                      find_monitor-slot route.port route.payload.id f.monitors monitor h in
                    absurd (
                      lost (
                        m,
                        mapped,
                        okay_,
                        (
                          i,
                          monitor,
                          at,
                          is,
                          (same_address_iff monitor.payload route.payload).0 same,
                        ),
                      ))
              ]

  -- An exclusive write that is not mapped, is forced to fail, or finds no reservation of its port,
  -- identifier and very transfer in any slot, succeeds without EXOKAY: the response is the forced one
  -- (OKAY for a reservation that is lost), no device is written, the reservation of its port and
  -- identifier is ended if there is one, every other slot is kept, and nothing else changes. The route is
  -- one that was set up by `initialize_route`, and at most one slot is valid for each pair.
  pub finish_exclusive_write-lost :
      (f earlier : Fabric D) (route : WriteRoute) (cursor : BurstCursor) (base : RouteBase)
      → initialize_route g earlier base.port base.payload ≡ ok base
      → route.route ≡ record base { beat = route.beat }
      → ¬ IsReserved f route
      → IsUnique f.monitors
      → (monitors : List ExclusiveMonitor) × (finish_exclusive_write g f route cursor
          ≡ ok
              (record f { monitors = monitors }, record route { response = route.forced_response }))
        × (route.forced_response ≢ exclusive_okay)
        × ((i : ℕ) (m : ExclusiveMonitor)
            → get_elem? monitors i ≡ some m
            → ¬ IsOf route.port route.payload.id m)
        × ((i : ℕ) (m : ExclusiveMonitor)
            → get_elem? f.monitors i ≡ some m
            → ¬ IsOf route.port route.payload.id m
            → get_elem? monitors i ≡ some m)
  unfolding finish_exclusive_write
  finish_exclusive_write-lost f earlier route cursor base set_up of_base lost unique =
      let cleared = find_monitor-clear_monitor route.port route.payload.id f.monitors unique in
      (
        clear_monitor route.port route.payload.id f.monitors,
        rw (attempt-lost f route cursor lost),
        λ e. ground (
          arith,
          (initialize_route-IsSetUp g earlier base.port base.payload base set_up).3,
          ap (λ (r : RouteBase). same_response r.forced_response exclusive_okay) of_base,
          ap (λ r. same_response r exclusive_okay) e,
        ),
        λ i m at. find_monitor-none route.port route.payload.id _ i m cleared.0 at,
        λ i m at. clear_monitor-other route.port route.payload.id f.monitors i m at,
      )
