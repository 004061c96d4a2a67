-- ===== src/Platform/Order/Walk.antt =====
-- The order of devices in `Platform::connect` of src/platform.cpp.
use verilator_axi_testbench.Common.{
  ℕ, zero, suc, ◌+◌, ◌-◌, ◌<◌, ◌≤◌, ◌≡◌, ◌≢◌, inl, inr, refl, sym, ap, ◌∙◌, Bool, true, false, ◌==◌,
  if◌then◌else◌, List, [], ◌∷◌, ◌++◌, none, some, length, get_elem?, get_or, length-append, take,
  set, ◌%◌, replicate, arith, Bool-cases, Option-cases, u32_mod, ==_iff,
}
use verilator_axi_testbench.Platform.Order.{count_edges, successors, roots, release, walk}
use verilator_axi_testbench.Platform.Order.Count.{
  occurs, waits, AllBelow, AreEdges, successors-waits, count_edges-waits, count_edges-sized,
  waits_le, roots-occurs, roots-AllBelow,
}
use verilator_axi_testbench.Platform.Order.Release.{IsState, Follows, waits_mono, release-IsState}
use verilator_axi_testbench.Platform.Order.Total.{length-once}

occurs-take :
    (xs : List ℕ) (i u x : ℕ)
    → get_elem? xs i ≡ some u
    → occurs x (take (suc i) xs) ≡ occurs x (take i xs) + (if u == x then 1 else 0)
unfolding occurs
occurs-take [] i u x h = absurd cc
occurs-take (y ∷ ys) zero u x h = let e : y ≡ u = cc in rw e (omega arith)
occurs-take (y ∷ ys) (suc i) u x h = omega (arith, occurs-take ys i u x h)

occurs-take_le : (xs : List ℕ) (i x : ℕ) → occurs x (take i xs) ≤ occurs x xs
unfolding occurs
occurs-take_le xs zero x = omega arith
occurs-take_le [] (suc i) x = omega arith
occurs-take_le (y ∷ ys) (suc i) x = omega (arith, occurs-take_le ys i x)

occurs-get_elem? : (xs : List ℕ) (i u : ℕ) → get_elem? xs i ≡ some u → occurs u xs ≢ 0
unfolding occurs
occurs-get_elem? [] i u h = absurd cc
occurs-get_elem? (y ∷ ys) zero u h =
    let e : y ≡ u = cc in let same : (y == u) ≡ true = (==_iff y u).1 e in ground (arith, same)
occurs-get_elem? (y ∷ ys) (suc i) u h = ground (arith, occurs-get_elem? ys i u h)

AllBelow-get_elem? :
    (n : ℕ) (xs : List ℕ) (i u : ℕ) → AllBelow n xs → get_elem? xs i ≡ some u → u < n
AllBelow-get_elem? n [] i u below h = absurd cc
AllBelow-get_elem? n (y ∷ ys) zero u below h = let e : y ≡ u = cc in rw (← e) below.0
AllBelow-get_elem? n (y ∷ ys) (suc i) u below h = AllBelow-get_elem? n ys i u below.1 h

take-append :
    (i : ℕ) (xs ys : List ℕ) (u : ℕ)
    → get_elem? xs i ≡ some u
    → take (suc i) (xs ++ ys) ≡ take (suc i) xs
take-append i [] ys u h = absurd cc
take-append zero (x ∷ xs) ys u h = refl
take-append (suc i) (x ∷ xs) ys u h = ap (λ zs. x ∷ zs) (take-append i xs ys u h)

append_assoc : (xs ys zs : List ℕ) → (xs ++ ys) ++ zs ≡ xs ++ (ys ++ zs)
append_assoc [] ys zs = refl
append_assoc (x ∷ xs) ys zs = ap (λ ws. x ∷ ws) (append_assoc xs ys zs)

append-nil : (xs : List ℕ) → xs ++ [] ≡ xs
append-nil [] = refl
append-nil (x ∷ xs) = ap (λ ws. x ∷ ws) (append-nil xs)

pushed-extends :
    (last : Bool) (order : List ℕ) (v : ℕ) (more : List ℕ)
    → (all : List ℕ) × ((if last then order ++ v ∷ [] else order) ++ more ≡ order ++ all)
pushed-extends true order v more = (v ∷ more, append_assoc order (v ∷ []) more)
pushed-extends false order v more = (more, refl)

-- The inner loop only appends.
release-extends :
    (pending indegree order : List ℕ)
    → (more : List ℕ) × ((release pending indegree order).1 ≡ order ++ more)
unfolding release
release-extends [] indegree order = ([], sym (append-nil order))
release-extends (v ∷ pending) indegree order =
    let left = (get_or indegree v 0 + u32_mod - 1) % u32_mod in
    let (more, e) =
      release-extends pending (set indegree v left)
        (if left == 0 then order ++ v ∷ [] else order) in
    let (all, same) = pushed-extends (left == 0) order v more in (all, e ∙ same)

successors-AllBelow :
    (n : ℕ) (edges : List (ℕ × ℕ)) (u : ℕ) → AreEdges n edges → AllBelow n (successors edges u)
unfolding successors
successors-AllBelow n [] u e = tt
successors-AllBelow n ((x, y) ∷ edges) u (hx, hy, e) = elim (Bool-cases (x == u)) [
  | inl same ↦ rw same (hy, successors-AllBelow n edges u e)
  | inr other ↦ rw other (successors-AllBelow n edges u e)
]

get_elem?-lt : (xs : List ℕ) (i u : ℕ) → get_elem? xs i ≡ some u → i < length xs
get_elem?-lt [] i u h = absurd cc
get_elem?-lt (x ∷ xs) zero u h = omega arith
get_elem?-lt (x ∷ xs) (suc i) u h = omega (arith, get_elem?-lt xs i u h)

get_elem?-none : (xs : List ℕ) (i : ℕ) → get_elem? xs i ≡ none → take i xs ≡ xs
get_elem?-none [] zero h = refl
get_elem?-none [] (suc i) h = refl
get_elem?-none (x ∷ xs) zero h = absurd cc
get_elem?-none (x ∷ xs) (suc i) h = ap (λ zs. x ∷ zs) (get_elem?-none xs i h)

module _ (n : ℕ) (edges : List (ℕ × ℕ)) (are : AreEdges n edges) where
  roots-Follows :
      (indegree seen : List ℕ) (from left total : ℕ)
      → from + left ≤ total
      → ((v : ℕ) → v < total → get_or indegree v 0 ≡ 0 → waits edges [] v ≡ 0)
      → Follows edges seen (roots indegree from left)
  unfolding roots occurs
  roots-Follows indegree seen from zero total le free = tt
  roots-Follows indegree seen from (suc left) total le free =
      elim (Bool-cases (get_or indegree from 0 == 0)) [
        | inl root ↦
            let none_waits = free from (omega arith) ((==_iff (get_or indegree from 0) 0).0 root) in
            rw root (
              waits_mono edges [] seen from (λ x some_old. absurd (some_old refl)) none_waits,
              roots-Follows indegree (from ∷ seen) (suc from) left total (omega arith) free,
            )
        | inr inner ↦
            rw inner (roots-Follows indegree seen (suc from) left total (omega arith) free)
      ]

  -- The outer loop, with the first `i` devices of the order in `done`.
  IsWalk : ℕ → List ℕ → List ℕ → List ℕ → Type 0
  IsWalk i done indegree order =
      IsState n edges done [] indegree order
      × ((x : ℕ) → occurs x done ≡ occurs x (take i order))
      × (i ≤ length order)

  pub once :
      (done pending indegree order : List ℕ)
      → IsState n edges done pending indegree order
      → (v : ℕ) → v < n
      → occurs v order ≤ 1
  once done pending indegree order s v h = ground (arith, s.placed v h)

  -- The device at `i` is done, and its successors are pending.
  start :
      (i u : ℕ) (done indegree order : List ℕ)
      → get_elem? order i ≡ some u
      → IsWalk i done indegree order
      → IsState n edges (u ∷ done) (successors edges u) indegree order
  unfolding IsWalk occurs
  start i u done indegree order at (s, same, le) =
      let hu = AllBelow-get_elem? n order i u s.below at in
      let self : (u == u) ≡ true = (==_iff u u).1 refl in
      let fresh : occurs u done ≡ 0 = ground (
        arith,
        same u,
        occurs-take order i u u at,
        occurs-take_le order (suc i) u,
        once done [] indegree order s u hu,
        self,
      ) in
      record {
        sized = s.sized;
        counted = λ v h. ground (arith, s.counted v h, successors-waits edges u v done fresh);
        small = s.small;
        placed = s.placed;
        below = s.below;
        follows = s.follows;
        processed = λ x d. elim (Bool-cases (u == x)) [
          | inl here ↦
              let e : u ≡ x = (==_iff u x).0 here in rw (← e) (occurs-get_elem? order i u at)
          | inr other ↦ s.processed x (ground (arith, d, other))
        ];
      }

  step :
      (i u : ℕ) (done indegree order : List ℕ)
      → get_elem? order i ≡ some u
      → IsWalk i done indegree order
      → IsWalk
          (suc i)
          (u ∷ done)
          (release (successors edges u) indegree order).0
          (release (successors edges u) indegree order).1
  unfolding IsWalk occurs
  step i u done indegree order at w =
      let s' =
        release-IsState n edges (u ∷ done) (successors edges u) indegree order
          (successors-AllBelow n edges u are) (start i u done indegree order at w) in
      let (more, e) = release-extends (successors edges u) indegree order in
      let kept : take (suc i) (release (successors edges u) indegree order).1 ≡ take (suc i) order =
        ap (take (suc i)) e ∙ take-append i order more u at in
      (
        s',
        λ x. ground (arith, w.1 x, occurs-take order i u x at, ap (occurs x) kept),
        omega (arith, ap length e, length-append order more, get_elem?-lt order i u at),
      )

  -- The loop ends by its own test within the fuel.
  walked :
      (fuel i : ℕ) (done indegree order : List ℕ)
      → n < fuel + i
      → IsWalk i done indegree order
      → let order' = walk fuel edges i indegree order in
        (done' : List ℕ) × (indegree' : List ℕ) × IsState n edges done' [] indegree' order'
        × ((x : ℕ) → occurs x done' ≡ occurs x order')
  unfolding walk IsWalk
  walked zero i done indegree order enough w =
      absurd (omega (arith, w.2, length-once n order w.0.below (once done [] indegree order w.0)))
  walked (suc fuel) i done indegree order enough w = elim (Option-cases (get_elem? order i)) [
    | inl missing ↦
        rw (walk, missing)
          (done, indegree, w.0, λ x. w.1 x ∙ ap (occurs x) (get_elem?-none order i missing))
    | inr (u, at) ↦
        let (indegree', order') = release (successors edges u) indegree order in
        rw (walk, at)
          (walked fuel (suc i) (u ∷ done) indegree' order' (omega arith)
            (step i u done indegree order at w))
  ]

  module _ (few : length edges < u32_mod) where
    begun :
        IsWalk 0 []
          (count_edges edges (replicate n 0))
          (roots (count_edges edges (replicate n 0)) 0 n)
    unfolding IsWalk occurs
    begun =
        let indegree = count_edges edges (replicate n 0) in
        let order = roots indegree 0 n in
        (
          record {
            sized = omega (arith, count_edges-sized n edges);
            counted = λ v h. omega (arith, count_edges-waits n edges v are few h);
            small =
                λ v h. omega (arith, count_edges-waits n edges v are few h, waits_le edges [] v);
            placed = λ v h. ground (arith, roots-occurs indegree 0 n v, h);
            below = roots-AllBelow indegree 0 n n (omega arith);
            follows =
                roots-Follows indegree [] 0 n n (omega arith)
                  (λ v h e. sym (count_edges-waits n edges v are few h) ∙ e);
            processed = λ x d. absurd (d refl);
          },
          λ x. refl,
          omega arith,
        )

    -- What the walk from the roots ends in.
    pub order_found :
        let order =
          walk
            (suc n)
            edges
            0
            (count_edges edges (replicate n 0))
            (roots (count_edges edges (replicate n 0)) 0 n) in
        (done : List ℕ) × (indegree : List ℕ) × IsState n edges done [] indegree order
        × ((x : ℕ) → occurs x done ≡ occurs x order)
    order_found =
        let indegree = count_edges edges (replicate n 0) in
        walked (suc n) 0 [] indegree (roots indegree 0 n) (omega arith) begun
