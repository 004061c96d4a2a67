-- ===== src/Fabric/Arbitration.antt =====
-- The round-robin choice of `arbitrate_addresses` in src/fabric.hpp.
use verilator_axi_testbench.Common.{
  ℕ, zero, suc, ◌+◌, ◌-◌, ◌%◌, ◌<◌, ◌≤◌, ◌≡◌, refl, sym, ap, ◌∙◌, ◌⊎◌, inl, inr, Bool, true, false,
  List, length, get_elem?, Option, none, some, arith, ok, Bool-cases, get_elem?-some, some-eq,
}
use native.Mathlib.Nat.{mod-lt, mod-add-mod}
use verilator_axi_testbench.Fabric.State.{PortState}
use verilator_axi_testbench.Fabric.Route.{next_waiting}

module _ (waits : PortState → Bool) (ports : List PortState) (next : ℕ) where
  -- The port `k` places after `next`, in round-robin order, waits or does not.
  abbrev pub TurnIs : ℕ → Bool → Type 0
  TurnIs k b =
      (p : PortState) × (get_elem? ports ((next + k) % length ports) ≡ some p) × (waits p ≡ b)

  -- The outcome of the search: the first port in order that waits, or none does.
  pub data Chosen (from n : ℕ) : Option (ℕ × PortState) → Type 0 where
    nobody : ((k : ℕ) → from ≤ k → k < from + n → TurnIs k false) → Chosen from n none
    granted :
        (k : ℕ) (p : PortState)
        → from ≤ k
        → k < from + n
        → get_elem? ports ((next + k) % length ports) ≡ some p
        → waits p ≡ true
        → ((j : ℕ) → from ≤ j → j < k → TurnIs j false)
        → Chosen from n (some ((next + k) % length ports, p))

  pass :
      (from n : ℕ) (o : Option (ℕ × PortState))
      → TurnIs from false
      → Chosen (from + 1) n o
      → Chosen from (suc n) o
  pass from n none idle_ (nobody others) =
      nobody
        λ k lo hi. elim (cases k lo) [ inl e ↦ rw e idle_ | inr more ↦ others k more (omega arith) ]
    where
      cases : (k : ℕ) → from ≤ k → (k ≡ from) ⊎ (from + 1 ≤ k)
      cases k lo = omega arith
  pass from n (some _) idle_ (granted k p lo hi at_k on others) =
      granted k p (omega arith) (omega arith) at_k on
        λ j lo' hi'. elim (cases j lo') [ inl e ↦ rw e idle_ | inr more ↦ others j more hi' ]
    where
      cases : (j : ℕ) → from ≤ j → (j ≡ from) ⊎ (from + 1 ≤ j)
      cases j lo' = omega arith

  pub search :
      0 < length ports
      → (n from : ℕ)
      → (o : Option (ℕ × PortState)) × (next_waiting waits ports (length ports) next n from ≡ ok o)
        × Chosen from n o
  unfolding next_waiting
  search some_ports zero from = (none, refl, nobody λ k lo hi. absurd (omega arith))
  search some_ports (suc n) from =
      let (p, at_p) =
        get_elem?-some ports ((next + from) % length ports) (mod-lt (next + from) some_ports) in
      let (o, found, rest) = search some_ports n (from + 1) in
      elim (Bool-cases (waits p)) [
        | inl on ↦ (
          some ((next + from) % length ports, p),
          rw (at_p, on),
          granted from p (omega arith) (omega arith) at_p on λ j lo hi. absurd (omega arith),
        )
        | inr off ↦ (o, rw (at_p, off) found, pass from n o (p, at_p, off) rest)
      ]

  -- Over ports that exist, the search ends with the first waiting port in round-robin order from
  -- `next`, or with none if no port waits.
  pub next_waiting-Chosen :
      0 < length ports
      → (o : Option (ℕ × PortState)) × (next_waiting waits ports
            (length ports)
            next
            (length ports)
            0
          ≡ ok o)
        × Chosen 0 (length ports) o
  next_waiting-Chosen some_ports = search some_ports (length ports) 0

  -- A port that waits `k` places after `next` is granted, or another is, `j` places after, and the
  -- waiting port is then strictly nearer, `k - j - 1` places, to where the next search begins.
  pub next_waiting-fair :
      (k : ℕ)
      → 0 < length ports
      → k < length ports
      → TurnIs k true
      → (j : ℕ) × (p : PortState) × (next_waiting waits ports (length ports) next (length ports) 0
          ≡ ok (some ((next + j) % length ports, p)))
        × ((j ≡ k)
            ⊎ ((j < k)
                × ((((next + j) % length ports + 1) % length ports + (k - j - 1)) % length ports
                    ≡ (next + k) % length ports)))
  next_waiting-fair k some_ports h waiting =
      let (o, found, chosen) = search some_ports (length ports) 0 in
      let (j, p, e, later) = turn o chosen k h waiting in (j, p, rw (← e) found, later)
    where
      clash : (k : ℕ) → TurnIs k true → TurnIs k false → ⊥
      clash k (p, at_p, on) (q, at_q, off) =
          let e : some p ≡ some q = sym at_p ∙ at_q in ground (arith, on, off, ap waits (some-eq e))

      nearer :
          (j k : ℕ)
          → j < k
          → (((next + j) % length ports + 1) % length ports + (k - j - 1)) % length ports
            ≡ (next + k) % length ports
      nearer j k h =
          let step : (next + j) % length ports + 1 + (k - j - 1)
              ≡ (next + j) % length ports + (k - j) =
            omega arith in
          mod-add-mod ((next + j) % length ports + 1) (length ports) (k - j - 1)
          ∙ ap (λ t. t % length ports) step
          ∙ mod-add-mod (next + j) (length ports) (k - j)
          ∙ ap (λ t. t % length ports) (omega arith)

      order : (j k : ℕ) → (j ≡ k) ⊎ ((j < k) ⊎ (k < j))
      order j k = omega arith

      turn :
          (o : Option (ℕ × PortState))
          → Chosen 0 (length ports) o
          → (k : ℕ) → k < length ports
          → TurnIs k true
          → (j : ℕ) × (p : PortState) × (o ≡ some ((next + j) % length ports, p))
            × ((j ≡ k)
                ⊎ ((j < k)
                    × ((((next + j) % length ports + 1) % length ports + (k - j - 1)) % length ports
                        ≡ (next + k) % length ports)))
      turn none (nobody all_idle) k h waiting =
          absurd (clash k waiting (all_idle k (omega arith) (omega arith)))
      turn (some _) (granted j p lo hi at_j on before_) k h waiting = (
        j,
        p,
        refl,
        elim (order j k) [
          | inl e ↦ inl e
          | inr (inl lt) ↦ inr (lt, nearer j k lt)
          | inr (inr gt) ↦ absurd (clash k waiting (before_ k (omega arith) gt))
        ],
      )
