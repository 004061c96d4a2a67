-- ===== src/Platform/Order/Count.antt =====
-- Counts over the lists of `Platform::connect` of src/platform.cpp.
use verilator_axi_testbench.Common.{
  ℕ, zero, suc, ◌+◌, ◌%◌, ◌<◌, ◌≤◌, ◌≡◌, inl, inr, refl, ap, ◌∙◌, ◌==◌, ◌&&◌, ltb, if◌then◌else◌,
  List, [], ◌∷◌, ◌++◌, length, get_or, set, replicate, arith, Bool-cases, u32_mod, ==_iff, ==→ne,
  get_or-set_self, get_or-set_ne, length-set, length-replicate,
}
use native.Mathlib.Nat.{mod-eq_of_lt}
use verilator_axi_testbench.Platform.Order.{count_edges, successors, roots}

-- How often a device stands in a list.
unfoldable pub occurs : ℕ → List ℕ → ℕ
occurs v [] = 0
occurs v (x ∷ xs) = (if x == v then 1 else 0) + occurs v xs

-- How many connections enter `v` from a device that does not stand in `done`.
unfoldable pub waits : List (ℕ × ℕ) → List ℕ → ℕ → ℕ
unfolding occurs
waits [] done v = 0
waits ((x, y) ∷ edges) done v = (if y == v && occurs x done == 0 then 1 else 0) + waits edges done v

abbrev pub AllBelow : ℕ → List ℕ → Type 0
AllBelow n [] = Unit {0}
AllBelow n (x ∷ xs) = (x < n) × AllBelow n xs

-- The connections are between devices.
abbrev pub AreEdges : ℕ → List (ℕ × ℕ) → Type 0
AreEdges n [] = Unit {0}
AreEdges n ((x, y) ∷ edges) = (x < n) × (y < n) × AreEdges n edges

pub occurs-append : (v : ℕ) (xs ys : List ℕ) → occurs v (xs ++ ys) ≡ occurs v xs + occurs v ys
unfolding occurs
occurs-append v [] ys = omega arith
occurs-append v (x ∷ xs) ys = omega (arith, occurs-append v xs ys)

pub AllBelow-append :
    (n : ℕ) (xs ys : List ℕ) → AllBelow n xs → AllBelow n ys → AllBelow n (xs ++ ys)
AllBelow-append n [] ys a b = b
AllBelow-append n (x ∷ xs) ys a b = (a.0, AllBelow-append n xs ys a.1 b)

-- `++indegree[y]`
incremented :
    (indegree : List ℕ) (y v : ℕ)
    → y < length indegree
    → get_or indegree v 0 + 1 < u32_mod
    → get_or (set indegree y ((get_or indegree y 0 + 1) % u32_mod)) v 0
      ≡ (if y == v then 1 else 0) + get_or indegree v 0
incremented indegree y v inside small = elim (Bool-cases (y == v)) [
  | inl same ↦
      let e : y ≡ v = (==_iff y v).0 same in
      let exact : (get_or indegree v 0 + 1) % u32_mod ≡ get_or indegree v 0 + 1 =
        mod-eq_of_lt small in
      rw (same, e)
        (get_or-set_self indegree v ((get_or indegree v 0 + 1) % u32_mod) 0 (rw (← e) inside)
          ∙ exact
          ∙ omega arith)
  | inr other ↦ rw other (
      get_or-set_ne indegree y v ((get_or indegree y 0 + 1) % u32_mod) 0 (==→ne y v other)
      ∙ omega arith)
]

-- Counting the entries of `indegree`.
count_edges-get_or :
    (n : ℕ) (edges : List (ℕ × ℕ)) (indegree : List ℕ) (v : ℕ)
    → AreEdges n edges
    → n ≤ length indegree
    → get_or indegree v 0 + length edges < u32_mod
    → v < n
    → get_or (count_edges edges indegree) v 0 ≡ get_or indegree v 0 + waits edges [] v
unfolding count_edges waits occurs
count_edges-get_or n [] indegree v e len small h = omega arith
count_edges-get_or n ((x, y) ∷ edges) indegree v (hx, hy, e) len small h =
    let next = set indegree y ((get_or indegree y 0 + 1) % u32_mod) in
    let step = incremented indegree y v (omega arith) (omega arith) in
    let same_len : length next ≡ length indegree =
      length-set indegree y ((get_or indegree y 0 + 1) % u32_mod) in
    let rest =
      count_edges-get_or n edges next v e (omega (arith, same_len)) (ground (arith, step, small))
        h in
    rest ∙ ground (arith, step)

-- The successors of `u` leave, once `u` is done.
pub successors-waits :
    (edges : List (ℕ × ℕ)) (u v : ℕ) (done : List ℕ)
    → occurs u done ≡ 0
    → waits edges done v ≡ waits edges (u ∷ done) v + occurs v (successors edges u)
unfolding waits occurs successors
successors-waits [] u v done h = refl
successors-waits ((x, y) ∷ edges) u v done h = ground (arith, h, successors-waits edges u v done h)

get_or-zeros : (n v : ℕ) → get_or (replicate {A = ℕ} n 0) v 0 ≡ 0
get_or-zeros zero v = refl
get_or-zeros (suc n) zero = refl
get_or-zeros (suc n) (suc v) = get_or-zeros n v

length-count_edges :
    (edges : List (ℕ × ℕ)) (indegree : List ℕ)
    → length (count_edges edges indegree) ≡ length indegree
unfolding count_edges
length-count_edges [] indegree = refl
length-count_edges ((x, y) ∷ edges) indegree =
    let one = (get_or indegree y 0 + 1) % u32_mod in
    length-count_edges edges (set indegree y one) ∙ length-set indegree y one

pub count_edges-sized :
    (n : ℕ) (edges : List (ℕ × ℕ)) → length (count_edges edges (replicate n 0)) ≡ n
count_edges-sized n edges = length-count_edges edges (replicate n 0) ∙ length-replicate {A = ℕ} n 0

pub waits_le : (edges : List (ℕ × ℕ)) (done : List ℕ) (v : ℕ) → waits edges done v ≤ length edges
unfolding waits
waits_le [] done v = omega arith
waits_le ((x, y) ∷ edges) done v = ground (arith, waits_le edges done v)

-- At first every connection into a device counts.
pub count_edges-waits :
    (n : ℕ) (edges : List (ℕ × ℕ)) (v : ℕ)
    → AreEdges n edges
    → length edges < u32_mod
    → v < n
    → get_or (count_edges edges (replicate n 0)) v 0 ≡ waits edges [] v
count_edges-waits n edges v e small h =
    let start = get_or-zeros n v in
    count_edges-get_or n edges (replicate n 0) v e (omega (arith, length-replicate {A = ℕ} n 0))
      (omega (arith, start)) h
    ∙ omega (arith, start)

pub roots-occurs :
    (indegree : List ℕ) (from n v : ℕ)
    → occurs v (roots indegree from n)
      ≡ (if ltb v from then 0 else if ltb v (from + n) && get_or indegree v 0 == 0 then 1 else 0)
unfolding occurs roots
roots-occurs indegree from zero v = ground arith
roots-occurs indegree from (suc n) v =
    let rest = roots-occurs indegree (suc from) n v in
    elim (Bool-cases (from == v)) [
      | inl here ↦
          let e : from ≡ v = (==_iff from v).0 here in
          elim (Bool-cases (get_or indegree from 0 == 0)) [
            | inl root ↦ rw root (ground (arith, rest, here, root, ap (λ k. get_or indegree k 0) e))
            | inr inner ↦
                rw inner (ground (arith, rest, here, inner, ap (λ k. get_or indegree k 0) e))
          ]
      | inr other ↦ elim (Bool-cases (get_or indegree from 0 == 0)) [
        | inl root ↦ rw root (ground (arith, rest, other))
        | inr inner ↦ rw inner (ground (arith, rest, other))
      ]
    ]

pub roots-AllBelow :
    (indegree : List ℕ) (from n total : ℕ)
    → from + n ≤ total
    → AllBelow total (roots indegree from n)
unfolding roots
roots-AllBelow indegree from zero total h = tt
roots-AllBelow indegree from (suc n) total h =
    let rest = roots-AllBelow indegree (suc from) n total (omega arith) in
    elim (Bool-cases (get_or indegree from 0 == 0)) [
      | inl root ↦ rw root (omega arith, rest)
      | inr inner ↦ rw inner rest
    ]
