-- ===== src/Fabric/Exclusive.antt =====
-- The table of exclusive monitors in src/fabric.hpp: `establish_monitor`, `find_monitor` and
-- `clear_monitor`.
use verilator_axi_testbench.Common.{
  ℕ, suc, ◌+◌, ◌-◌, ◌≤◌, ◌≡◌, refl, sym, inl, inr, true, false, if◌then◌else◌, List, [], ◌∷◌,
  Option, none, some, arith, ok, Bool-cases, add_u64, ok-inj, some-eq,
}
use verilator_axi_testbench.Axi.{AddressPayload}
use verilator_axi_testbench.Fabric.State.{ExclusiveMonitor}
use verilator_axi_testbench.Fabric.Monitors.{
  matches, find_monitor, clear_monitor, invalidate_monitor, invalidate_monitors, replace_monitor,
  fill_monitor, establish_monitor, keep_monitor, or_exhausted, place_monitor,
}

-- The slots whose valid monitor is of a port and identifier.
unfoldable pub watchers : ℕ → ℕ → List ExclusiveMonitor → ℕ
unfolding matches
watchers port id [] = 0
watchers port id (m ∷ ms) =
    let rest = watchers port id ms in if matches port id m then suc rest else rest

-- At most one slot watches for each port and identifier.
abbrev pub IsUnique : List ExclusiveMonitor → Type 0
IsUnique ms = (port id : ℕ) → watchers port id ms ≤ 1

find-none :
    (port id : ℕ) (ms : List ExclusiveMonitor)
    → watchers port id ms ≡ 0
    → find_monitor port id ms ≡ none
unfolding watchers find_monitor
find-none port id [] h = refl
find-none port id (m ∷ ms) h = elim (Bool-cases (matches port id m)) [
  | inl on ↦ absurd (omega (arith, rw on at h))
  | inr off ↦ rw off (find-none port id ms (rw off at h))
]

watchers-none :
    (port id : ℕ) (ms : List ExclusiveMonitor)
    → find_monitor port id ms ≡ none
    → watchers port id ms ≡ 0
unfolding watchers find_monitor
watchers-none port id [] h = refl
watchers-none port id (m ∷ ms) h = elim (Bool-cases (matches port id m)) [
  | inl on ↦ absurd (ground (arith, rw on at h))
  | inr off ↦ rw off (watchers-none port id ms (rw off at h))
]

-- Clearing takes one watcher of the pair away, and none of any other pair.
watchers-clear :
    (port id port' id' : ℕ) (ms : List ExclusiveMonitor)
    → (watchers port id (clear_monitor port id ms) ≤ watchers port id ms - 1)
      × (watchers port' id' (clear_monitor port id ms) ≤ watchers port' id' ms)
unfolding watchers clear_monitor matches
watchers-clear port id port' id' [] = (omega arith, omega arith)
watchers-clear port id port' id' (m ∷ ms) = ground (arith, watchers-clear port id port' id' ms)

-- Clearing the monitor of a port and identifier, in slots of which at most one watches each, leaves
-- none for that pair, and at most one for each.
pub find_monitor-clear_monitor :
    (port id : ℕ) (ms : List ExclusiveMonitor)
    → IsUnique ms
    → (find_monitor port id (clear_monitor port id ms) ≡ none) × IsUnique (clear_monitor port id ms)
find_monitor-clear_monitor port id ms unique = (
  find-none port id (clear_monitor port id ms)
      (omega (arith, (watchers-clear port id port id ms).0, unique port id)),
  λ port' id'. omega (arith, (watchers-clear port id port' id' ms).1, unique port' id'),
)

watchers-invalidate :
    (port id a : ℕ) (ms : List ExclusiveMonitor)
    → watchers port id (invalidate_monitors a ms) ≤ watchers port id ms
unfolding watchers invalidate_monitors invalidate_monitor matches
watchers-invalidate port id a [] = omega arith
watchers-invalidate port id a (m ∷ ms) = ground (arith, watchers-invalidate port id a ms)

watchers-replace :
    (port id : ℕ) (new m' : ExclusiveMonitor) (port' id' : ℕ) (ms : List ExclusiveMonitor)
    → find_monitor port id ms ≡ some m'
    → new.port ≡ port
    → new.id ≡ id
    → new.valid ≡ true
    → watchers port' id' (replace_monitor port id new ms) ≡ watchers port' id' ms
unfolding watchers replace_monitor find_monitor matches
watchers-replace port id new m' port' id' [] found e e' v = refl
watchers-replace port id new m' port' id' (m ∷ ms) found e e' v =
    ground (arith, watchers-replace port id new m' port' id' ms)

find_monitor-replace :
    (port id : ℕ) (new m' : ExclusiveMonitor) (ms : List ExclusiveMonitor)
    → find_monitor port id ms ≡ some m'
    → matches port id new ≡ true
    → find_monitor port id (replace_monitor port id new ms) ≡ some new
unfolding find_monitor replace_monitor
find_monitor-replace port id new m' [] found on = absurd cc
find_monitor-replace port id new m' (m ∷ ms) found on = elim (Bool-cases (matches port id m)) [
  | inl hit ↦ rw (hit, on)
  | inr miss ↦ rw (miss, miss) (find_monitor-replace port id new m' ms (rw miss at found) on)
]

keep-some :
    (m : ExclusiveMonitor) (o : Option (List ExclusiveMonitor)) (ms : List ExclusiveMonitor)
    → keep_monitor m o ≡ some ms
    → (ms' : List ExclusiveMonitor) × (o ≡ some ms') × (ms ≡ m ∷ ms')
keep-some m none ms h = absurd cc
keep-some m (some ms') ms h = (ms', refl, sym (some-eq h))

-- A free slot takes the new monitor; the others keep theirs.
fill_monitor-watches :
    (new : ExclusiveMonitor) (ms ms' : List ExclusiveMonitor)
    → fill_monitor new ms ≡ some ms'
    → new.valid ≡ true
    → find_monitor new.port new.id ms ≡ none
    → (find_monitor new.port new.id ms' ≡ some new)
      × ((port id : ℕ)
          → watchers port id ms' ≡ (if matches port id new then 1 else 0) + watchers port id ms)
unfolding fill_monitor find_monitor matches watchers
fill_monitor-watches new [] ms' h v free = absurd cc
fill_monitor-watches new (m ∷ ms) ms' h v free = elim (Bool-cases m.valid) [
  | inl used ↦
      let (rest, h', e) = keep-some m (fill_monitor new ms) ms' (simp used at h) in
      let missed : matches new.port new.id m ≡ false = ground (arith, free) in
      let (got, counts) = fill_monitor-watches new ms rest h' v (rw missed at free) in
      rw e (rw missed got, λ port id. ground (arith, counts port id))
  | inr unused ↦
      let e : new ∷ ms ≡ ms' = some-eq (simp unused at h) in
      rw (← e, v, unused) (ground arith, λ port id. ground arith)
]

-- The monitor that a read of `total` bytes sets.
abbrev pub monitor_of : ℕ → AddressPayload → ℕ → ExclusiveMonitor
monitor_of port payload total = record {
  valid = true;
  port = port;
  id = payload.id;
  payload = payload;
  first = payload.address;
  last = add_u64 payload.address total;
}

monitor_of-matches :
    (port : ℕ) (payload : AddressPayload) (total : ℕ)
    → matches port payload.id (monitor_of port payload total) ≡ true
unfolding matches
monitor_of-matches port payload total = ground arith

matches-eq :
    (m : ExclusiveMonitor) (port id : ℕ) → matches port id m ≡ true → (m.port ≡ port) × (m.id ≡ id)
unfolding matches
matches-eq m port id h = ground arith

-- An exclusive read that sets its monitor leaves the monitor of its own transfer as the one found
-- for its port and identifier, in place of an earlier one, and at most one for each pair.
pub establish_monitor-find :
    (port : ℕ) (payload : AddressPayload) (total : ℕ) (ms ms' : List ExclusiveMonitor)
    → IsUnique ms
    → establish_monitor port payload total ms ≡ ok ms'
    → (find_monitor port payload.id ms' ≡ some (monitor_of port payload total)) × IsUnique ms'
unfolding establish_monitor
establish_monitor-find port payload total ms ms' unique h =
    placed (find_monitor port payload.id ms) refl h
  where
    new : ExclusiveMonitor
    new = monitor_of port payload total

    filled :
        (o : Option (List ExclusiveMonitor))
        → fill_monitor new ms ≡ o
        → or_exhausted o ≡ ok ms'
        → find_monitor port payload.id ms ≡ none
        → (find_monitor port payload.id ms' ≡ some new) × IsUnique ms'
    filled none e h' free = absurd cc
    filled (some ms'') e h' free =
        let same : ms'' ≡ ms' = ok-inj h' in
        let (got, counts) = fill_monitor-watches new ms ms'' e refl free in
        rw (← same) (
          got,
          λ port' id'. elim (Bool-cases (matches port' id' new)) [
            | inl on ↦
                let (ep, ei) = matches-eq new port' id' on in
                let gone = watchers-none port payload.id ms free in
                let c : watchers port' id' ms'' ≡ 1 + watchers port' id' ms =
                  rw on at (counts port' id') in
                let gone' : watchers port' id' ms ≡ 0 = rw (← ep, ← ei) gone in
                omega (arith, c, gone')
            | inr off ↦
                let c : watchers port' id' ms'' ≡ 0 + watchers port' id' ms =
                  rw off at (counts port' id') in
                omega (arith, c, unique port' id')
          ],
        )

    placed :
        (o : Option ExclusiveMonitor)
        → find_monitor port payload.id ms ≡ o
        → place_monitor o new ms ≡ ok ms'
        → (find_monitor port payload.id ms' ≡ some new) × IsUnique ms'
    placed none e h' = filled (fill_monitor new ms) refl h' e
    placed (some old) e h' =
        let same : replace_monitor port payload.id new ms ≡ ms' = ok-inj h' in
        rw (← same) (
          find_monitor-replace port payload.id new old ms e (monitor_of-matches port payload total),
          λ port' id'.
              rw (watchers-replace port payload.id new old port' id' ms e refl refl refl)
                (unique port' id'),
        )
