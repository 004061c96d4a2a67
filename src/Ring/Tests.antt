-- ===== src/Ring/Tests.antt =====
-- The theorems on `RingBuffer` of src/axi.hpp at concrete buffers.
use verilator_axi_testbench.Common.{ℕ, ◌≡◌, List, [], ◌∷◌, arith}
use verilator_axi_testbench.Ring.{RingBuffer, fresh}
use verilator_axi_testbench.Ring.Contents.{contents, fresh-IsValid}
use verilator_axi_testbench.Ring.Queue.{Op, put, take, queue_run}
use verilator_axi_testbench.Ring.Refine.{run, run_refines}

abbrev one_slot : RingBuffer ℕ
one_slot = fresh 1 0

-- The second value finds the buffer full, the second read finds it empty.
abbrev calls : List (Op ℕ)
calls = put 7 ∷ put 8 ∷ take ∷ take ∷ put 9 ∷ []

run_refines_example : run 1 one_slot calls ≡ queue_run 1 (contents 1 one_slot) calls
run_refines_example = run_refines 1 calls one_slot (fresh-IsValid 1 0 (omega arith))
