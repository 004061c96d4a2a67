-- ===== src/Platform/Order.antt =====
-- The order of the devices in `Platform::connect` of src/platform.cpp. A device is its index in the
-- description, and a connection the pair of its source and its destination.
pub mod Count
pub mod Release
pub mod Total
pub mod Walk
pub mod Sound
mod Tests
use verilator_axi_testbench.Common.{
  ℕ, zero, suc, ◌+◌, ◌-◌, ◌%◌, ◌==◌, ◌!=◌, if◌then◌else◌, List, [], ◌∷◌, ◌++◌, Option, none, some,
  length, get_elem?, get_or, set, replicate, Result, ok, invalid_argument, throw_if, ◌>>◌, u32_mod,
}

-- `++indegree[&dst]` for each connection.
unfoldable pub count_edges : List (ℕ × ℕ) → List ℕ → List ℕ
count_edges [] indegree = indegree
count_edges ((u, v) ∷ edges) indegree =
    count_edges edges (set indegree v ((get_or indegree v 0 + 1) % u32_mod))

-- `successors[&src]`
unfoldable pub successors : List (ℕ × ℕ) → ℕ → List ℕ
successors [] u = []
successors ((x, y) ∷ edges) u = let rest = successors edges u in if x == u then y ∷ rest else rest

-- The devices from `v` on, `left` of them, that no connection enters.
unfoldable pub roots : List ℕ → ℕ → ℕ → List ℕ
roots indegree v zero = []
roots indegree v (suc left) =
    let rest = roots indegree (suc v) left in if get_or indegree v 0 == 0 then v ∷ rest else rest

-- The inner loop, `if (--indegree[v] == 0) order_.push_back(v)`.
unfoldable pub release : List ℕ → List ℕ → List ℕ → List ℕ × List ℕ
release [] indegree order = (indegree, order)
release (v ∷ rest) indegree order =
    let left = (get_or indegree v 0 + u32_mod - 1) % u32_mod in
    release rest (set indegree v left) (if left == 0 then order ++ v ∷ [] else order)

-- The outer loop, whose bound is the length of the order as it grows. One turn for each device and one
-- for the last test are enough.
unfoldable pub walk : ℕ → List (ℕ × ℕ) → ℕ → List ℕ → List ℕ → List ℕ
unfolding successors release
walk zero edges i indegree order = order
walk (suc fuel) edges i indegree order = elim (get_elem? order i) [
  | none ↦ order
  | some u ↦
      let (indegree', order') = release (successors edges u) indegree order in
      walk fuel edges (suc i) indegree' order'
]

-- The order of `n` devices, or the throw on a cycle.
unfoldable pub order_devices : ℕ → List (ℕ × ℕ) → Result (List ℕ)
unfolding count_edges roots walk
order_devices n edges =
    let indegree = count_edges edges (replicate n 0) in
    let order = walk (suc n) edges 0 indegree (roots indegree 0 n) in
    do throw_if (length order != n) invalid_argument; ok order
