-- ===== src/Ring/Queue.antt =====
-- What a `RingBuffer` of src/axi.hpp promises: a queue of at most `capacity` values, oldest first,
-- and a client's calls with what each of them answers.
use verilator_axi_testbench.Common.{
  ℕ, Bool, true, false, ◌==◌, if◌then◌else◌, List, [], ◌∷◌, ◌++◌, length, Result, ok, err,
  logic_error, or_same,
}

-- `put` is `push`, `take` is `front` followed by `pop`, `drop_all` is `clear`.
pub data Op {ℓ} (A : Type ℓ) : Type ℓ where
  put : A → Op A
  take : Op A
  drop_all : Op A

pub data Reply {ℓ} (A : Type ℓ) : Type ℓ where
  pushed : Bool → Reply A
  taken : Result A → Reply A
  cleared : Reply A

module _ {ℓ} {A : Type ℓ} where
  unfoldable pub queue_push : ℕ → List A → A → List A × Bool
  queue_push capacity q v = if length q == capacity then (q, false) else (q ++ v ∷ [], true)

  unfoldable pub queue_front : List A → Result A
  queue_front [] = err logic_error
  queue_front (x ∷ q) = ok x

  unfoldable pub queue_pop : List A → Result (List A)
  queue_pop [] = err logic_error
  queue_pop (x ∷ q) = ok q

  unfoldable pub queue_run : ℕ → List A → List (Op A) → List (Reply A)
  unfolding queue_push queue_front queue_pop
  queue_run capacity q [] = []
  queue_run capacity q (put v ∷ ops) =
      let (q', done) = queue_push capacity q v in pushed done ∷ queue_run capacity q' ops
  queue_run capacity q (take ∷ ops) =
      taken (queue_front q) ∷ queue_run capacity (or_same q (queue_pop q)) ops
  queue_run capacity q (drop_all ∷ ops) = cleared ∷ queue_run capacity [] ops
