-- ===== src/Platform/Order/Release.antt =====
-- The inner loop of `Platform::connect` of src/platform.cpp, which releases the successors of a device.
use verilator_axi_testbench.Common.{
  ℕ, ◌+◌, ◌-◌, ◌%◌, ◌<◌, ◌≤◌, ◌≡◌, ◌≢◌, inl, inr, refl, sym, ap, ◌∙◌, true, ◌==◌, if◌then◌else◌,
  List, [], ◌∷◌, ◌++◌, length, get_or, set, arith, Bool-cases, u32_mod, ==_iff, ==→ne,
  get_or-set_self, get_or-set_ne, length-set,
}
use verilator_axi_testbench.Platform.Order.{release}
use verilator_axi_testbench.Platform.Order.Count.{
  occurs, waits, AllBelow, occurs-append, AllBelow-append,
}

-- No connection enters a device of the order from one that stands neither before it nor in `seen`.
abbrev pub Follows : List (ℕ × ℕ) → List ℕ → List ℕ → Type 0
Follows edges seen [] = Unit {0}
Follows edges seen (v ∷ vs) = (waits edges seen v ≡ 0) × Follows edges (v ∷ seen) vs

pub waits_mono :
    (edges : List (ℕ × ℕ)) (old new : List ℕ) (v : ℕ)
    → ((x : ℕ) → occurs x old ≢ 0 → occurs x new ≢ 0)
    → waits edges old v ≡ 0
    → waits edges new v ≡ 0
unfolding waits
waits_mono [] old new v more h = refl
waits_mono ((x, y) ∷ edges) old new v more h =
    ground (arith, more x, waits_mono edges old new v more)

Follows-append :
    (edges : List (ℕ × ℕ)) (old seen xs : List ℕ) (v : ℕ)
    → ((x : ℕ) → occurs x old ≢ 0 → occurs x seen + occurs x xs ≢ 0)
    → waits edges old v ≡ 0
    → Follows edges seen xs
    → Follows edges seen (xs ++ v ∷ [])
unfolding occurs
Follows-append edges old seen [] v more h follows =
    (waits_mono edges old seen v (λ x some_old. ground (arith, more x some_old)) h, tt)
Follows-append edges old seen (y ∷ ys) v more h follows = (
  follows.0,
  Follows-append edges old (y ∷ seen) ys v (λ x some_old. ground (arith, more x some_old)) h
      follows.1,
)

-- The loop with the devices `done` processed and the connections to `pending` still to release.
pub record IsState (n : ℕ) (edges : List (ℕ × ℕ)) (done pending indegree order : List ℕ)
    : Type 0 where
  pub sized : n ≤ length indegree
  pub counted : (v : ℕ) → v < n → get_or indegree v 0 ≡ waits edges done v + occurs v pending
  pub small : (v : ℕ) → v < n → get_or indegree v 0 < u32_mod
  pub placed : (v : ℕ) → v < n → occurs v order ≡ (if get_or indegree v 0 == 0 then 1 else 0)
  pub below : AllBelow n order
  pub follows : Follows edges [] order
  pub processed : (x : ℕ) → occurs x done ≢ 0 → occurs x order ≢ 0

decremented :
    (indegree : List ℕ) (y v : ℕ)
    → y < length indegree
    → 0 < get_or indegree y 0
    → get_or indegree y 0 < u32_mod
    → get_or (set indegree y ((get_or indegree y 0 + u32_mod - 1) % u32_mod)) v 0
      ≡ (if y == v then get_or indegree v 0 - 1 else get_or indegree v 0)
decremented indegree y v inside pos small =
    let left = (get_or indegree y 0 + u32_mod - 1) % u32_mod in
    elim (Bool-cases (y == v)) [
      | inl same ↦
          let e : y ≡ v = (==_iff y v).0 same in
          rw same (
            ap (λ k. get_or (set indegree y left) k 0) (sym e)
            ∙ get_or-set_self indegree y left 0 inside
            ∙ omega arith
            ∙ ap (λ k. get_or indegree k 0 - 1) e)
      | inr other ↦ rw other (get_or-set_ne indegree y v left 0 (==→ne y v other))
    ]

module _ (n : ℕ) (edges : List (ℕ × ℕ)) (done : List ℕ) where
  module _ (v : ℕ) (pending indegree order : List ℕ) (h : v < n)
      (s : IsState n edges done (v ∷ pending) indegree order) where
    abbrev left : ℕ
    left = (get_or indegree v 0 + u32_mod - 1) % u32_mod

    abbrev next : List ℕ
    next = set indegree v left

    some_left : 0 < get_or indegree v 0
    unfolding occurs
    some_left = ground (arith, s.counted v h)

    left-pred : left ≡ get_or indegree v 0 - 1
    left-pred = omega (arith, some_left, s.small v h)

    now :
        (w : ℕ)
        → get_or next w 0 ≡ (if v == w then get_or indegree w 0 - 1 else get_or indegree w 0)
    now w = decremented indegree v w (omega (arith, s.sized)) some_left (s.small v h)

    next-counted : (w : ℕ) → w < n → get_or next w 0 ≡ waits edges done w + occurs w pending
    unfolding occurs
    next-counted w hw = ground (arith, now w, s.counted w hw)

    next-small : (w : ℕ) → w < n → get_or next w 0 < u32_mod
    next-small w hw = ground (arith, now w, s.small w hw)

    next-sized : n ≤ length next
    next-sized = omega (arith, s.sized, length-set indegree v left)

    -- The entry of `v` alone has changed.
    same_entry : (w : ℕ) → (v == w) ≡ true → get_or indegree w 0 ≡ get_or indegree v 0
    same_entry w same = ap (λ k. get_or indegree k 0) (sym ((==_iff v w).0 same))

    placed-pushed :
        left ≡ 0
        → (w : ℕ) → w < n
        → occurs w (order ++ v ∷ []) ≡ (if get_or next w 0 == 0 then 1 else 0)
    unfolding occurs
    placed-pushed last w hw = elim (Bool-cases (v == w)) [
      | inl same ↦ ground (
        arith,
        occurs-append w order (v ∷ []),
        now w,
        s.placed w hw,
        same_entry w same,
        same,
        last,
        left-pred,
        some_left,
      )
      | inr other ↦ ground (arith, occurs-append w order (v ∷ []), now w, s.placed w hw, other)
    ]

    placed-kept :
        left ≢ 0 → (w : ℕ) → w < n → occurs w order ≡ (if get_or next w 0 == 0 then 1 else 0)
    placed-kept more w hw = elim (Bool-cases (v == w)) [
      | inl same ↦
          ground (arith, now w, s.placed w hw, same_entry w same, same, more, left-pred, some_left)
      | inr other ↦ ground (arith, now w, s.placed w hw, other)
    ]

    pushed-ready : left ≡ 0 → waits edges done v ≡ 0
    pushed-ready last =
        let self : (v == v) ≡ true = (==_iff v v).1 refl in
        ground (arith, next-counted v h, now v, left-pred, last, self)

    release_one : IsState n edges done pending next (if left == 0 then order ++ v ∷ [] else order)
    unfolding occurs
    release_one = elim (Bool-cases (left == 0)) [
      | inl last ↦
          let e : left ≡ 0 = (==_iff left 0).0 last in
          rw last record {
            sized = next-sized;
            counted = next-counted;
            small = next-small;
            placed = placed-pushed e;
            below = AllBelow-append n order (v ∷ []) s.below (h, tt);
            follows =
                Follows-append edges done [] order v (λ x d. ground (arith, s.processed x d))
                  (pushed-ready e) s.follows;
            processed = λ x d. ground (arith, s.processed x d, occurs-append x order (v ∷ []));
          }
      | inr more ↦ rw more record {
        sized = next-sized;
        counted = next-counted;
        small = next-small;
        placed = placed-kept (==→ne left 0 more);
        below = s.below;
        follows = s.follows;
        processed = s.processed;
      }
    ]

  pub release-IsState :
      (pending indegree order : List ℕ)
      → AllBelow n pending
      → IsState n edges done pending indegree order
      → IsState n edges done []
          (release pending indegree order).0
          (release pending indegree order).1
  unfolding release
  release-IsState [] indegree order below s = s
  release-IsState (v ∷ pending) indegree order below s =
      let left = (get_or indegree v 0 + u32_mod - 1) % u32_mod in
      release-IsState pending (set indegree v left) (if left == 0 then order ++ v ∷ [] else order)
        below.1 (release_one v pending indegree order below.0 s)
