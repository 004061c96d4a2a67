-- ===== src/Platform/Order/Sound.antt =====
-- What the order of `Platform::connect` in src/platform.cpp promises, and when it is refused.
use verilator_axi_testbench.Common.{
  ℕ, suc, ◌<◌, ◌≡◌, ◌≢◌, ◌↔◌, ◌⊎◌, inl, inr, refl, sym, ap, ◌∙◌, true, ◌==◌, ◌!=◌, ◌&&◌, List, [],
  ◌∷◌, length, replicate, arith, Bool-cases, ok, err, invalid_argument, throw_if, ◌>>◌, u32_mod,
  ==_iff, !=→eq, ok-inj, >>-eq-ok,
}
use mathlib.Core.Path.{subst}
use verilator_axi_testbench.Platform.Order.{count_edges, roots, walk, order_devices}
use verilator_axi_testbench.Platform.Order.Count.{occurs, waits, AllBelow, AreEdges}
use verilator_axi_testbench.Platform.Order.Release.{Follows}
use verilator_axi_testbench.Platform.Order.Walk.{once, order_found}
use verilator_axi_testbench.Platform.Order.Total.{length-once, full-occurs, short-occurs}

abbrev pub IsEdge : ℕ → ℕ → List (ℕ × ℕ) → Type 0
IsEdge x y [] = ⊥
IsEdge x y ((a, b) ∷ edges) = ((a ≡ x) × (b ≡ y)) ⊎ IsEdge x y edges

-- `x` stands in the list before `y`.
abbrev pub IsBefore : ℕ → ℕ → List ℕ → Type 0
IsBefore x y [] = ⊥
IsBefore x y (z ∷ zs) = ((z ≡ x) × (occurs y zs ≢ 0)) ⊎ IsBefore x y zs

waits-none :
    (edges : List (ℕ × ℕ)) (done : List ℕ) (x v : ℕ)
    → waits edges done v ≡ 0
    → IsEdge x v edges
    → occurs x done ≢ 0
unfolding waits
waits-none [] done x v h e = absurd e
waits-none ((a, b) ∷ edges) done x v h (inl (ax, bv)) =
    let there : (b == v) ≡ true = (==_iff b v).1 bv in rw (← ax) (ground (arith, h, there))
waits-none ((a, b) ∷ edges) done x v h (inr e) = waits-none edges done x v (ground (arith, h)) e

waits-some :
    (edges : List (ℕ × ℕ)) (done : List ℕ) (v : ℕ)
    → waits edges done v ≢ 0
    → (x : ℕ) × IsEdge x v edges × (occurs x done ≡ 0)
unfolding waits
waits-some [] done v h = absurd (h refl)
waits-some ((a, b) ∷ edges) done v h = elim (Bool-cases (b == v && occurs a done == 0)) [
  | inl here ↦ (a, inl (refl, ground (arith, here)), ground (arith, here))
  | inr other ↦ let (x, e, o) = waits-some edges done v (ground (arith, h, other)) in (x, inr e, o)
]

Follows-IsBefore :
    (edges : List (ℕ × ℕ)) (seen xs : List ℕ) (x y : ℕ)
    → Follows edges seen xs
    → IsEdge x y edges
    → occurs y xs ≢ 0
    → (occurs x seen ≢ 0) ⊎ IsBefore x y xs
unfolding occurs
Follows-IsBefore edges seen [] x y f e h = absurd (h refl)
Follows-IsBefore edges seen (z ∷ zs) x y f e h = elim (Bool-cases (z == y)) [
  | inl here ↦
      let zy : z ≡ y = (==_iff z y).0 here in
      inl (waits-none edges seen x y (ap (waits edges seen) (sym zy) ∙ f.0) e)
  | inr later ↦ elim (Follows-IsBefore edges (z ∷ seen) zs x y f.1 e (ground (arith, h, later))) [
    | inl before ↦ elim (Bool-cases (z == x)) [
      | inl now ↦ inr (inl ((==_iff z x).0 now, ground (arith, h, later)))
      | inr earlier ↦ inl (ground (arith, before, earlier))
    ]
    | inr inside ↦ inr (inr inside)
  ]
]

IsEdge-below :
    (n : ℕ) (edges : List (ℕ × ℕ)) (x y : ℕ)
    → AreEdges n edges
    → IsEdge x y edges
    → (x < n) × (y < n)
IsEdge-below n [] x y are e = absurd e
IsEdge-below n ((a, b) ∷ edges) x y (ha, hb, are) (inl (ax, bv)) = (rw (← ax) ha, rw (← bv) hb)
IsEdge-below n ((a, b) ∷ edges) x y (ha, hb, are) (inr e) = IsEdge-below n edges x y are e

-- Some devices, those that do not stand in `free`, wait for one another: there is one, and each has a
-- connection from another.
abbrev pub IsBlocked : ℕ → List (ℕ × ℕ) → List ℕ → Type 0
IsBlocked n edges free =
    ((v : ℕ) × (v < n) × (occurs v free ≡ 0))
    × ((v : ℕ) → v < n → occurs v free ≡ 0 → (x : ℕ) × IsEdge x v edges × (occurs x free ≡ 0))

-- An order never reaches a blocked device.
Follows-free :
    (n : ℕ) (edges : List (ℕ × ℕ)) (free seen xs : List ℕ) (v : ℕ)
    → ((v : ℕ) → v < n → occurs v free ≡ 0 → (x : ℕ) × IsEdge x v edges × (occurs x free ≡ 0))
    → AllBelow n xs
    → ((x : ℕ) → occurs x seen ≢ 0 → occurs x free ≢ 0)
    → Follows edges seen xs
    → occurs v xs ≢ 0
    → occurs v free ≢ 0
unfolding occurs
Follows-free n edges free seen [] v blocked below known f h = absurd (h refl)
Follows-free n edges free seen (z ∷ zs) v blocked below known f h = elim (Bool-cases (z == v)) [
  | inl here ↦ let zv : z ≡ v = (==_iff z v).0 here in rw (← zv) z_free
  | inr later ↦
      Follows-free n edges free (z ∷ seen) zs v blocked below.1 known' f.1
        (ground (arith, h, later))
]
  where
    z_free : occurs z free ≢ 0
    z_free outside =
        let (x, e, x_out) = blocked z below.0 outside in
        known x (waits-none edges seen x z f.0 e) x_out

    known' : (x : ℕ) → occurs x (z ∷ seen) ≢ 0 → occurs x free ≢ 0
    known' x d = elim (Bool-cases (z == x)) [
      | inl same ↦ let zx : z ≡ x = (==_iff z x).0 same in rw (← zx) z_free
      | inr other ↦ known x (ground (arith, d, other))
    ]

not_thrown : (a b : ℕ) → throw_if (a != b) invalid_argument ≡ ok tt → a ≡ b
not_thrown a b e = ground (arith, e)

was_thrown :
    (a b : ℕ) (xs : List ℕ)
    → (throw_if (a != b) invalid_argument >> ok xs) ≡ err invalid_argument
    → a ≢ b
was_thrown a b xs e = ground (arith, e)

module _ (n : ℕ) (edges : List (ℕ × ℕ)) (are : AreEdges n edges)
    (few : length edges < u32_mod) where
  -- An order that is found lists each device once and no other, and the source of every connection
  -- before its destination. The connections are between devices, and fewer than 2^32.
  pub order_devices-IsBefore :
      (order : List ℕ)
      → order_devices n edges ≡ ok order
      → ((v : ℕ) → v < n → occurs v order ≡ 1)
        × AllBelow n order
        × ((x y : ℕ) → IsEdge x y edges → IsBefore x y order)
  unfolding order_devices occurs
  order_devices-IsBefore order e =
      let indegree = count_edges edges (replicate n 0) in
      let found = walk (suc n) edges 0 indegree (roots indegree 0 n) in
      let (done, indegree', s, same) = order_found n edges are few in
      let (full, is) = >>-eq-ok (throw_if (length found != n) invalid_argument) (ok found) e in
      let once_each = once n edges are done [] indegree' found s in
      let count : length found ≡ n = not_thrown (length found) n full in
      subst
        (λ xs.
          ((v : ℕ) → v < n → occurs v xs ≡ 1)
          × AllBelow n xs
          × ((x y : ℕ) → IsEdge x y edges → IsBefore x y xs))
        (ok-inj is)
        (
          full-occurs n found s.below once_each count,
          s.below,
          λ x y edge.
              let (hx, hy) = IsEdge-below n edges x y are edge in
              let there = full-occurs n found s.below once_each count y hy in
              elim (Follows-IsBefore edges [] found x y s.follows edge (ground (arith, there))) [
                | inl none_seen ↦ absurd (none_seen refl)
                | inr before ↦ before
              ],
        )

  -- The order is refused exactly where some devices wait for one another. The connections are between
  -- devices, and fewer than 2^32.
  pub order_devices-IsBlocked :
      (order_devices n edges ≡ err invalid_argument) ↔ ((free : List ℕ) × IsBlocked n edges free)
  unfolding order_devices occurs
  order_devices-IsBlocked = (to, from)
    where
      found : List ℕ
      found =
          let indegree = count_edges edges (replicate n 0) in
          walk (suc n) edges 0 indegree (roots indegree 0 n)

      to :
          (throw_if (length found != n) invalid_argument >> ok found) ≡ err invalid_argument
          → (free : List ℕ) × IsBlocked n edges free
      to e =
          let (done, indegree', s, same) = order_found n edges are few in
          let once_each = once n edges are done [] indegree' found s in
          let short : length found < n =
            omega
              (arith, was_thrown (length found) n found e, length-once n found s.below once_each) in
          (
            found,
            (
              short-occurs n found s.below short,
              λ v h out.
                  let waiting : waits edges done v ≢ 0 =
                    ground (arith, s.placed v h, s.counted v h, out) in
                  let (x, edge, x_out) = waits-some edges done v waiting in
                  (x, edge, sym (same x) ∙ x_out),
            ),
          )

      from :
          (free : List ℕ) × IsBlocked n edges free
          → (throw_if (length found != n) invalid_argument >> ok found) ≡ err invalid_argument
      from (free, ((v, h, out), blocked)) =
          let (done, indegree', s, same) = order_found n edges are few in
          let once_each = once n edges are done [] indegree' found s in
          elim (Bool-cases (length found != n)) [
            | inl differs ↦ rw differs
            | inr full ↦
                let there =
                  full-occurs n found s.below once_each (!=→eq (length found) n full) v h in
                absurd (
                  Follows-free n edges free [] found v blocked s.below (λ x d. absurd (d refl))
                    s.follows (ground (arith, there)) out)
          ]
