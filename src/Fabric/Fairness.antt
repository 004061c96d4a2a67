-- ===== src/Fabric/Fairness.antt =====
-- The rounds of `arbitrate_addresses` in src/fabric.hpp: who is granted, and where the next round begins.
use native.Mathlib.Nat.{mod-lt, mod-add-mod, mod-eq_of_lt, mod-eq-sub-mod}
use native.Mathlib.Decide.{dec_lt}
use verilator_axi_testbench.Common.{
  ℕ, ◌+◌, ◌-◌, ◌%◌, ◌<◌, ◌≤◌, ◌≡◌, ◌≢◌, ◌⊎◌, inl, inr, sym, ap, ◌∙◌, Bool, true, false, not, List,
  length, length-set, get_elem?, Option, some, some-eq, Result, ok, ok-inj, arith, >>=-eq-ok, zero,
  suc, if◌then◌else◌, none,
}
use mathlib.Core.Path.{subst}
use verilator_axi_testbench.Device.{Device}
use verilator_axi_testbench.Ring.{empty, full}
use verilator_axi_testbench.Ring.Window.{get_elem?-set_ne}
use verilator_axi_testbench.Fabric.State.{Geometry, PortState, Fabric, at}
use verilator_axi_testbench.Fabric.Route.{next_waiting, arbitrate_writes, arbitrate_reads}
use verilator_axi_testbench.Fabric.Arbitration.{TurnIs, next_waiting-fair}
use verilator_axi_testbench.Fabric.Granted.{
  Channel, writes, reads, requests, next_port, IsQueue, arbitrate, grant, IsGranted,
  grant-IsGranted,
}

-- Where index `j` of a round from `r` stands.
turn_place :
    (r j n : ℕ) → r < n → j < n → ((r + j) % n ≡ r + j) ⊎ ((n ≤ r + j) × ((r + j) % n ≡ r + j - n))
turn_place r j n hr hj = elim (dec_lt (r + j) n) [
  | yes inside ↦ inl (mod-eq_of_lt inside)
  | no round ↦ inr (
    omega arith,
    mod-eq-sub-mod {n = r + j} {m = n} (omega arith)
        ∙ mod-eq_of_lt {n = r + j - n} {m = n} (omega arith),
  )
]

-- Two places of a round are different ports.
turns-apart : (next j k n : ℕ) → j < k → k < n → (next + j) % n ≢ (next + k) % n
turns-apart next j k n hj hk same =
    let r = next % n in
    let in_round : r < n = mod-lt next (omega arith) in
    let a = turn_place r j n in_round (omega arith) in
    let b = turn_place r k n in_round hk in
    omega (arith, mod-add-mod next n j, mod-add-mod next n k, a, b, same)

-- A port that the search gives is the one at its index.
next_waiting-port :
    (waits : PortState → Bool) (ports : List PortState) (count next n offset i : ℕ) (q : PortState)
    → next_waiting waits ports count next n offset ≡ ok (some (i, q))
    → get_elem? ports i ≡ some q
unfolding next_waiting
next_waiting-port waits ports count next zero offset i q e = absurd cc
next_waiting-port waits ports count next (suc n) offset i q e =
    let port = (next + offset) % count in
    let rest = next_waiting waits ports count next n (offset + 1) in
    let choose : PortState → Result (Option (ℕ × PortState)) =
      λ p. if waits p then ok (some (port, p)) else rest in
    let (p, there, e1) = >>=-eq-ok (at (get_elem? ports port)) choose e in
    elim (chosen (waits p) e1) [
      | inl here ↦
          let pair = some-eq (ok-inj here) in
          ap (get_elem? ports) (sym (ap (λ t. t.0) pair))
          ∙ at-some (get_elem? ports port) p there
          ∙ ap (λ t. some t.1) pair
      | inr later ↦ next_waiting-port waits ports count next n (offset + 1) i q later
    ]
  where
    at-some : (o : Option PortState) (p : PortState) → at o ≡ ok p → o ≡ some p
    at-some none p h = absurd cc
    at-some (some x) p h = ap some (ok-inj h)

    chosen :
        {first rest last : Result (Option (ℕ × PortState))} (on : Bool)
        → (if on then first else rest) ≡ last
        → (first ≡ last) ⊎ (rest ≡ last)
    chosen true h = inl h
    chosen false h = inr h

module _ {ℓ} {D : Type ℓ} ⦃ops : Device D⦄ (g : Geometry) where
  -- A round over a queue with room is a search and a grant.
  arbitrate-grant :
      (c : Channel) (f f' : Fabric D) (found : Option (ℕ × PortState))
      → IsQueue c g f
      → next_waiting
          (λ p. not (empty (requests c p)))
          f.ports
          g.num_ports
          (next_port c f)
          g.num_ports
          0
        ≡ ok found
      → arbitrate g c f ≡ ok f'
      → grant g c f found ≡ ok f'
  unfolding arbitrate_writes arbitrate_reads full
  arbitrate-grant writes f f' found (valid, room) h e = ground (arith, e, h)
  arbitrate-grant reads f f' found (valid, room) h e = ground (arith, e, h)

  -- In a round of the arbitration of either channel that succeeds, over a queue of routes that is valid
  -- and not full, a port that has a request waiting `k` places behind where the round begins is granted,
  -- or keeps its requests and is strictly nearer to where the fabric left by the round begins its next
  -- one. Granted, its oldest request leaves its FIFO and is the last route queued. The number of ports
  -- stays.
  pub arbitrate-fair :
      (c : Channel) (f f' : Fabric D) (k : ℕ) (p : PortState)
      → length f.ports ≡ g.num_ports
      → k < g.num_ports
      → get_elem? f.ports ((next_port c f + k) % g.num_ports) ≡ some p
      → empty (requests c p) ≡ false
      → IsQueue c g f
      → arbitrate g c f ≡ ok f'
      → (length f'.ports ≡ g.num_ports)
        × (IsGranted g c f f' ((next_port c f + k) % g.num_ports) p
            ⊎ ((k' : ℕ) × (k' < k)
                × ((next_port c f' + k') % g.num_ports ≡ (next_port c f + k) % g.num_ports)
                × (get_elem? f'.ports ((next_port c f + k) % g.num_ports) ≡ some p)))
  arbitrate-fair c f f' k p same small at_k asks queue e =
      let waits : PortState → Bool = λ q. not (empty (requests c q)) in
      let n = length f.ports in
      let next = next_port c f in
      let waiting : TurnIs waits f.ports next k true = rw same (p, at_k, ground (arith, asks)) in
      let (j, q, found, place) =
        next_waiting-fair waits f.ports next k (omega (arith, same, small))
          (omega (arith, same, small)) waiting in
      go j q (rw same at found) (rw same at place)
    where
      Goal : Type ℓ
      Goal =
          (length f'.ports ≡ g.num_ports)
          × (IsGranted g c f f' ((next_port c f + k) % g.num_ports) p
              ⊎ ((k' : ℕ) × (k' < k)
                  × ((next_port c f' + k') % g.num_ports ≡ (next_port c f + k) % g.num_ports)
                  × (get_elem? f'.ports ((next_port c f + k) % g.num_ports) ≡ some p)))

      go :
          (j : ℕ) (q : PortState)
          → next_waiting
              (λ p. not (empty (requests c p)))
              f.ports
              g.num_ports
              (next_port c f)
              g.num_ports
              0
            ≡ ok (some ((next_port c f + j) % g.num_ports, q))
          → ((j ≡ k)
              ⊎ ((j < k)
                  × ((((next_port c f + j) % g.num_ports + 1) % g.num_ports + (k - j - 1))
                        % g.num_ports
                      ≡ (next_port c f + k) % g.num_ports)))
          → Goal
      go j q found place =
          let granted =
            grant-IsGranted g c f f' ((next_port c f + j) % g.num_ports) q queue
              (arbitrate-grant c f f' _ queue found e) in
          let at_j =
            next_waiting-port (λ p. not (empty (requests c p))) f.ports g.num_ports (next_port c f)
              g.num_ports 0 ((next_port c f + j) % g.num_ports) q found in
          let ports_stay : length f'.ports ≡ g.num_ports =
            ap length granted.ports_eq
            ∙ length-set f.ports ((next_port c f + j) % g.num_ports) granted.p'
            ∙ same in
          elim place [
            | inl here ↦
                let mine : q ≡ p = some-eq (
                  sym at_j
                  ∙ ap (λ i. get_elem? f.ports ((next_port c f + i) % g.num_ports)) here
                  ∙ at_k) in
                (
                  ports_stay,
                  inl (
                      subst (λ i. IsGranted g c f f' ((next_port c f + i) % g.num_ports) p) here
                        (subst (IsGranted g c f f' ((next_port c f + j) % g.num_ports)) mine
                          granted)),
                )
            | inr (sooner, nearer) ↦
                let kept =
                  get_elem?-set_ne f.ports ((next_port c f + j) % g.num_ports)
                    ((next_port c f + k) % g.num_ports) granted.p'
                    (turns-apart (next_port c f) j k g.num_ports sooner small) in
                (
                  ports_stay,
                  inr (
                    k - j - 1,
                    omega arith,
                    ap (λ t. (t + (k - j - 1)) % g.num_ports) granted.next_eq ∙ nearer,
                    ap (λ ports. get_elem? ports ((next_port c f + k) % g.num_ports))
                          granted.ports_eq
                        ∙ kept
                        ∙ at_k,
                  ),
                )
          ]
