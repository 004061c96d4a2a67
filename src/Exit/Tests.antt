-- ===== src/Exit/Tests.antt =====
-- The theorems on `ExitDevice` of src/devices.cpp at concrete writes.
use verilator_axi_testbench.Common.{ℕ, ◌+◌, ◌*◌, ◌≡◌, refl, true, List, [], ◌∷◌, arith}
use verilator_axi_testbench.Axi.{okay}
use verilator_axi_testbench.Memory.{all_lanes_enabled}
use verilator_axi_testbench.Exit.{fresh_exit, exit_write, exit_read}
use verilator_axi_testbench.Exit.Code.{exit_read-exit_write}

abbrev every_lane : List ℕ
every_lane = 1 ∷ 1 ∷ 1 ∷ 1 ∷ []

exit_read-exit_write_example :
    let (response, e') = exit_write fresh_exit 0 (1 ∷ 2 ∷ 3 ∷ 4 ∷ []) every_lane in
    (response ≡ okay)
    × (e'.requested ≡ true)
    × (e'.code ≡ 1 + 2 * 0x100 + 3 * 0x1_0000 + 4 * 0x100_0000)
    × (exit_read e' 0 (0 ∷ 0 ∷ 0 ∷ 0 ∷ []) (1 ∷ 1 ∷ 1 ∷ 1 ∷ []) ≡ (okay, 1 ∷ 2 ∷ 3 ∷ 4 ∷ []))
unfolding all_lanes_enabled
exit_read-exit_write_example =
    exit_read-exit_write fresh_exit 1 2 3 4 every_lane (omega arith) (omega arith) (omega arith)
      (omega arith) refl
