-- ===== src/Ring/Contents.antt =====
-- The representation invariant of `RingBuffer`, and the sequence of values that it holds.
use verilator_axi_testbench.Common.{
  ℕ, ◌+◌, ◌-◌, ◌%◌, ◌<◌, ◌≤◌, ◌≡◌, refl, ap, ◌∙◌, ◌≢◌, inl, inr, true, false, ◌==◌, List, [], ◌∷◌,
  ◌++◌, arith, length, length-set, length-replicate, ok, err, logic_error, Bool-cases,
  get_elem?-some, ok-inj, some, set, ==_iff,
}
use native.Mathlib.Numerals.{add-one}
use verilator_axi_testbench.Ring.{RingBuffer, empty, fresh, front, set_front, push, pop, clear}
use verilator_axi_testbench.Ring.Window.{
  window, put_before, window-pos, length-window, window-set_end, window-set_before,
  get_elem?-set_self,
}

module _ {ℓ} {A : Type ℓ} (capacity : ℕ) where
  pub record IsValid (r : RingBuffer A) : Type ℓ where
    pub storage : length r.values ≡ capacity
    pub head_in : r.head < capacity
    pub size_in : r.size ≤ capacity

  -- The values held, oldest first.
  unfoldable pub contents : RingBuffer A → List A
  contents r = window capacity r.values r.head r.size

  pub fresh-IsValid : (value : A) → 0 < capacity → IsValid (fresh capacity value)
  unfolding fresh
  fresh-IsValid value h = record {
    storage = length-replicate capacity value;
    head_in = h;
    size_in = omega arith;
  }

  pub contents-fresh : (value : A) → contents (fresh capacity value) ≡ []
  unfolding fresh contents
  contents-fresh value = refl

  pub contents-empty : (r : RingBuffer A) → empty r ≡ true → contents r ≡ []
  unfolding contents empty
  contents-empty r e =
      let none_left : r.size ≡ 0 = (==_iff r.size 0).0 e in
      ap (window capacity r.values r.head) none_left

  pub push-IsValid : (r : RingBuffer A) (v : A) → IsValid r → IsValid (push capacity r v).0
  unfolding push
  push-IsValid r v w =
      ground (
        arith,
        length-set r.values ((r.head + r.size) % capacity) v,
        w.storage,
        w.head_in,
        w.size_in,
      )

  pub set_front-IsValid : (r : RingBuffer A) (v : A) → IsValid r → IsValid (set_front r v)
  unfolding set_front
  set_front-IsValid r v w = record {
    storage = length-set r.values r.head v ∙ w.storage;
    head_in = w.head_in;
    size_in = w.size_in;
  }

  pub clear-IsValid : (r : RingBuffer A) → IsValid r → IsValid (clear r)
  unfolding clear
  clear-IsValid r w = record {
    storage = w.storage;
    head_in = let h = w.head_in in omega arith;
    size_in = omega arith;
  }

  pub contents-clear : (r : RingBuffer A) → contents (clear r) ≡ []
  unfolding clear contents
  contents-clear r = refl

  pub length-contents : (r : RingBuffer A) → IsValid r → length (contents r) ≡ r.size
  unfolding contents
  length-contents r w = length-window capacity r.values r.head r.size w.head_in w.storage

  pub push-full : (r : RingBuffer A) (v : A) → r.size ≡ capacity → push capacity r v ≡ (r, false)
  unfolding push
  push-full r v e = ground arith

  pub push-room :
      (r : RingBuffer A) (v : A)
      → IsValid r
      → r.size ≢ capacity
      → ((push capacity r v).1 ≡ true) × (contents (push capacity r v).0 ≡ contents r ++ v ∷ [])
  unfolding push contents
  push-room r v w ne = elim (Bool-cases (r.size == capacity)) [
    | inl is_full ↦ absurd (ne (ground arith))
    | inr room ↦ rw room (
      refl,
      rw add-one (
          window-set_end capacity r.values v r.size r.head _ w.storage w.head_in (lt w.size_in)
            refl),
    )
  ]
    where
      lt : r.size ≤ capacity → r.size < capacity
      lt h = omega arith

  pub pop-empty : (r : RingBuffer A) → r.size ≡ 0 → pop capacity r ≡ err logic_error
  unfolding pop
  pop-empty r e = ground arith

  pub front-empty : (r : RingBuffer A) → r.size ≡ 0 → front r ≡ err logic_error
  unfolding front
  front-empty r e = ground arith

  -- What a buffer that is not empty begins with, and what `pop` leaves.
  pub record Split (r : RingBuffer A) : Type ℓ where
    pub oldest : A
    pub rest : RingBuffer A
    pub front_eq : front r ≡ ok oldest
    pub pop_eq : pop capacity r ≡ ok rest
    pub rest_valid : IsValid rest
    pub split : contents r ≡ oldest ∷ contents rest

  pub Split-of_ne_zero : (r : RingBuffer A) → IsValid r → r.size ≢ 0 → Split r
  unfolding front pop contents
  Split-of_ne_zero r w ne =
      let (x, got) = get_elem?-some r.values r.head (rw w.storage w.head_in) in
      let more : (r.size == 0) ≡ false = ground arith in
      record {
        oldest = x;
        rest = record r { head = (r.head + 1) % capacity; size = r.size - 1 };
        front_eq = rw (more, got);
        pop_eq = rw more;
        rest_valid = record {
          storage = w.storage;
          head_in = let h = w.head_in in omega arith;
          size_in = let h = w.size_in in omega arith;
        };
        split =
            window-pos capacity r.values r.head r.size ne
            ∙ ap
                (λ o.
                  put_before o (window capacity r.values ((r.head + 1) % capacity) (r.size - 1)))
                got;
      }

  -- Writing the front replaces the oldest value and keeps the others.
  pub set_front-contents :
      (r : RingBuffer A) (old new : A)
      → IsValid r
      → front r ≡ ok old
      → (rest : List A) × (contents r ≡ old ∷ rest) × (contents (set_front r new) ≡ new ∷ rest)
  unfolding front set_front contents
  set_front-contents r old new w at_front =
      let ne : r.size ≢ 0 = λ e. ground (arith, e, at_front) in
      let next = (r.head + 1) % capacity in
      let (x, got) = get_elem?-some r.values r.head (rw w.storage w.head_in) in
      let more : (r.size == 0) ≡ false = ground arith in
      let same : x ≡ old = ok-inj (rw (more, got) at at_front) in
      let rest = window capacity r.values next (r.size - 1) in
      let kept : window capacity (set r.values r.head new) next (r.size - 1) ≡ rest =
        window-set_before capacity r.values new (r.size - 1) 0 next r.head
          (let h = w.head_in in omega arith) w.head_in refl (let h = w.size_in in omega arith) in
      (
        rest,
        window-pos capacity r.values r.head r.size ne
            ∙ ap (λ o. put_before o rest) (got ∙ ap some same),
        window-pos capacity (set r.values r.head new) r.head r.size ne
            ∙ ap (λ o. put_before o (window capacity (set r.values r.head new) next (r.size - 1)))
                (get_elem?-set_self r.values r.head new (rw w.storage w.head_in))
            ∙ ap (λ t. new ∷ t) kept,
      )
