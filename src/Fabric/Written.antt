-- ===== src/Fabric/Written.antt =====
-- Which monitors end when a write has stored its bytes: the loops of `write_device_beat` and
-- `finish_exclusive_write` in src/fabric.hpp that call `invalidate_monitors`.
use verilator_axi_testbench.Common.{
  ℕ, zero, suc, ◌+◌, ◌%◌, ◌<◌, ◌≤◌, ◌≡◌, ap, ◌∙◌, ◌≢◌, ◌↔◌, ◌⊎◌, inl, inr, Bool, true, false, ◌!=◌,
  ◌&&◌, ◌||◌, ltb, leb, if◌then◌else◌, List, [], ◌∷◌, length, get_or, get_elem?, map, some, arith,
  Bool-cases, add_u64, u64_mod, some-eq,
}
use native.Mathlib.Nat.{mod-add-mod, mod-eq_of_lt}
use verilator_axi_testbench.Fabric.State.{ExclusiveMonitor}
use verilator_axi_testbench.Fabric.Monitors.{invalidate_monitor, invalidate_monitors}
use verilator_axi_testbench.Fabric.Write.{invalidate_written}

-- Whether a byte that is written, from address `address` on, is watched by a monitor.
unfoldable pub hits : ℕ → List ℕ → ExclusiveMonitor → Bool
hits address [] m = false
hits address (written ∷ lanes) m =
    (written != 0 && leb m.first address && ltb address m.last) || hits (add_u64 address 1) lanes m

-- A written byte in the range that a monitor watches.
abbrev pub Watched : ℕ → List ℕ → ExclusiveMonitor → Type 0
Watched address lanes m =
    (i : ℕ) × (i < length lanes)
    × (get_or lanes i 0 ≢ 0)
    × (m.first ≤ add_u64 address i)
    × (add_u64 address i < m.last)

add_u64-suc : (a i : ℕ) → add_u64 (add_u64 a 1) i ≡ add_u64 a (suc i)
add_u64-suc a i = mod-add-mod (a + 1) u64_mod i ∙ ap (λ t. t % u64_mod) (omega arith)

hits-Watched :
    (address : ℕ) (lanes : List ℕ) (m : ExclusiveMonitor)
    → address < u64_mod
    → hits address lanes m ≡ true
    → Watched address lanes m
unfolding hits
hits-Watched address [] m small h = absurd cc
hits-Watched address (written ∷ lanes) m small h =
    elim (Bool-cases (written != 0 && leb m.first address && ltb address m.last)) [
      | inl here ↦
          let e : add_u64 address 0 ≡ address = omega (arith, mod-eq_of_lt small) in
          (0, omega arith, ground arith, rw e (ground arith), rw e (ground arith))
      | inr off ↦
          let later : hits (add_u64 address 1) lanes m ≡ true = ground arith in
          let (i, hi, on, lo, up) = hits-Watched (add_u64 address 1) lanes m (omega arith) later in
          (suc i, omega arith, on, rw (← add_u64-suc address i) lo, rw (← add_u64-suc address i) up)
    ]

Watched-hits :
    (address : ℕ) (lanes : List ℕ) (m : ExclusiveMonitor)
    → address < u64_mod
    → Watched address lanes m
    → hits address lanes m ≡ true
unfolding hits
Watched-hits address [] m small (i, hi, on, lo, up) = absurd (omega arith)
Watched-hits address (written ∷ lanes) m small (zero, hi, on, lo, up) =
    let e : add_u64 address 0 ≡ address = omega (arith, mod-eq_of_lt small) in
    let lo' : m.first ≤ address = rw (← e) lo in
    let up' : address < m.last = rw (← e) up in ground arith
Watched-hits address (written ∷ lanes) m small (suc i, hi, on, lo, up) =
    let rest : hits (add_u64 address 1) lanes m ≡ true =
      Watched-hits (add_u64 address 1) lanes m (omega arith)
        (i, omega arith, on, rw (add_u64-suc address i) lo, rw (add_u64-suc address i) up) in
    ground arith

-- The monitor that is left of `m`.
abbrev pub left_of : ℕ → List ℕ → ExclusiveMonitor → ExclusiveMonitor
left_of address lanes m = if m.valid && hits address lanes m then record m { valid = false } else m

left_of-step :
    (address written : ℕ) (lanes : List ℕ) (m : ExclusiveMonitor)
    → left_of (add_u64 address 1) lanes (if written != 0 then invalidate_monitor address m else m)
      ≡ left_of address (written ∷ lanes) m
unfolding hits invalidate_monitor
left_of-step address written lanes m = ground arith

get_elem?-map :
    {A : Type 0} (f : A → A) (xs : List A) (k : ℕ) (x : A)
    → get_elem? xs k ≡ some x
    → get_elem? (map f xs) k ≡ some (f x)
get_elem?-map f [] k x h = absurd cc
get_elem?-map f (y ∷ xs) zero x h = ap (λ t. some (f t)) (some-eq h)
get_elem?-map f (y ∷ xs) (suc k) x h = get_elem?-map f xs k x h

slot-step :
    (address written : ℕ) (ms : List ExclusiveMonitor) (k : ℕ) (m : ExclusiveMonitor)
    → get_elem? ms k ≡ some m
    → get_elem? (if written != 0 then invalidate_monitors address ms else ms) k
      ≡ some (if written != 0 then invalidate_monitor address m else m)
unfolding invalidate_monitors
slot-step address written ms k m h = elim (Bool-cases (written != 0)) [
  | inl on ↦ rw on (get_elem?-map (invalidate_monitor address) ms k m h)
  | inr off ↦ rw off h
]

nothing : (address : ℕ) (m : ExclusiveMonitor) → left_of address [] m ≡ m
unfolding hits
nothing address m = ground arith

invalidate_written-slot :
    (address : ℕ) (lanes : List ℕ) (ms : List ExclusiveMonitor) (k : ℕ) (m : ExclusiveMonitor)
    → get_elem? ms k ≡ some m
    → get_elem? (invalidate_written address lanes ms) k ≡ some (left_of address lanes m)
unfolding invalidate_written
invalidate_written-slot address [] ms k m h = rw (nothing address m) h
invalidate_written-slot address (written ∷ lanes) ms k m h =
    invalidate_written-slot (add_u64 address 1) lanes _ k _ (slot-step address written ms k m h)
    ∙ ap some (left_of-step address written lanes m)

left_of-valid :
    (address : ℕ) (lanes : List ℕ) (m : ExclusiveMonitor)
    → address < u64_mod
    → m.valid ≡ true
    → (((left_of address lanes m).valid ≡ false) ↔ Watched address lanes m)
      × ((left_of address lanes m ≡ m) ⊎ (left_of address lanes m ≡ record m { valid = false }))
left_of-valid address lanes m small v = elim (Bool-cases (hits address lanes m)) [
  | inl on ↦
      ((λ e. hits-Watched address lanes m small on, λ w. ground (arith, on, v)), inr (simp (v, on)))
  | inr off ↦ (
    (
      λ e. absurd (ground (arith, off, v, e)),
      λ w. absurd (ground (arith, off, Watched-hits address lanes m small w)),
    ),
    inl (simp (v, off)),
  )
]

-- A write of the strobed lanes from an address on ends a valid monitor exactly when a strobed byte
-- falls in the range that it watches; the slot keeps the monitor as it is but for its end.
pub invalidate_written-Watched :
    (address : ℕ) (lanes : List ℕ) (ms : List ExclusiveMonitor) (k : ℕ) (m : ExclusiveMonitor)
    → address < u64_mod
    → get_elem? ms k ≡ some m
    → m.valid ≡ true
    → (m' : ExclusiveMonitor) × (get_elem? (invalidate_written address lanes ms) k ≡ some m')
      × ((m'.valid ≡ false) ↔ Watched address lanes m)
      × ((m' ≡ m) ⊎ (m' ≡ record m { valid = false }))
invalidate_written-Watched address lanes ms k m small h v = (
  left_of address lanes m,
  invalidate_written-slot address lanes ms k m h,
  (left_of-valid address lanes m small v).0,
  (left_of-valid address lanes m small v).1,
)
