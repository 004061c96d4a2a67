-- ===== src/Ring/Refine.antt =====
-- `RingBuffer` of src/axi.hpp and the bounded queue of its contents.
use verilator_axi_testbench.Common.{
  ℕ, ◌≡◌, refl, inl, inr, Bool, ◌==◌, List, [], ◌∷◌, arith, length, Bool-cases, or_same, ◌∙◌,
}
use verilator_axi_testbench.Ring.{RingBuffer, front, push, pop, clear}
use verilator_axi_testbench.Ring.Queue.{
  Op, put, take, drop_all, Reply, pushed, taken, cleared, queue_push, queue_front, queue_pop,
  queue_run,
}
use verilator_axi_testbench.Ring.Contents.{
  IsValid, contents, push-IsValid, clear-IsValid, contents-clear, length-contents, push-full,
  push-room, pop-empty, front-empty, Split-of_ne_zero, Split,
}

module _ {ℓ} {A : Type ℓ} (capacity : ℕ) where
  -- The calls of a client on the circular buffer, in order, with what each answers.
  unfoldable pub run : RingBuffer A → List (Op A) → List (Reply A)
  run r [] = []
  run r (put v ∷ ops) = let (r', done) = push capacity r v in pushed done ∷ run r' ops
  run r (take ∷ ops) = taken (front r) ∷ run (or_same r (pop capacity r)) ops
  run r (drop_all ∷ ops) = cleared ∷ run (clear r) ops

  abbrev view : RingBuffer A × Bool → List A × Bool
  view (r, done) = (contents capacity r, done)

  pub push_refines :
      (r : RingBuffer A) (v : A)
      → IsValid capacity r
      → view (push capacity r v) ≡ queue_push capacity (contents capacity r) v
  unfolding queue_push
  push_refines r v w = elim (Bool-cases (r.size == capacity)) [
    | inl is_full ↦
        rw (push-full capacity r v (ground arith), length-contents capacity r w, is_full)
    | inr room ↦
        let (done, held) = push-room capacity r v w (ground arith) in
        rw (length-contents capacity r w, room) (λ i. (held i, done i))
  ]

  -- Reading and removing the oldest value, and failing on the empty buffer.
  pub record Takes (r : RingBuffer A) : Type ℓ where
    pub front_eq : front r ≡ queue_front (contents capacity r)
    pub rest_eq :
        contents capacity (or_same r (pop capacity r))
        ≡ or_same (contents capacity r) (queue_pop (contents capacity r))
    pub rest_valid : IsValid capacity (or_same r (pop capacity r))

  nil_of_length : (xs : List A) → length xs ≡ 0 → xs ≡ []
  nil_of_length [] h = refl
  nil_of_length (x ∷ xs) h = absurd (omega arith)

  pub take_refines : (r : RingBuffer A) → IsValid capacity r → Takes r
  unfolding queue_front queue_pop
  take_refines r w = elim (Bool-cases (r.size == 0)) [
    | inl none_left ↦
        let e : r.size ≡ 0 = ground arith in
        let held : contents capacity r ≡ [] = nil_of_length _ (length-contents capacity r w ∙ e) in
        record {
          front_eq = rw (front-empty capacity r e, held);
          rest_eq = rw (pop-empty capacity r e, held);
          rest_valid = rw (pop-empty capacity r e) w;
        }
    | inr some_left ↦
        let s : Split capacity r = Split-of_ne_zero capacity r w (ground arith) in
        record {
          front_eq = rw (s.front_eq, s.split);
          rest_eq = rw (s.pop_eq, s.split);
          rest_valid = rw s.pop_eq s.rest_valid;
        }
  ]

  -- No sequence of calls tells a valid buffer from the queue, bounded by the capacity, of the
  -- values that it holds: every push answers whether there was room, every read gives the oldest
  -- value or fails on the empty buffer.
  pub run_refines :
      (ops : List (Op A)) (r : RingBuffer A)
      → IsValid capacity r
      → run r ops ≡ queue_run capacity (contents capacity r) ops
  unfolding run queue_run
  run_refines [] r w = refl
  run_refines (put v ∷ ops) r w =
      rw (run_refines ops (push capacity r v).0 (push-IsValid capacity r v w), ← push_refines r v w)
  run_refines (take ∷ ops) r w =
      let t : Takes r = take_refines r w in
      rw (run_refines ops (or_same r (pop capacity r)) t.rest_valid, t.front_eq, t.rest_eq)
  run_refines (drop_all ∷ ops) r w =
      rw (run_refines ops (clear r) (clear-IsValid capacity r w), contents-clear capacity r)
