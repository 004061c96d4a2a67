-- ===== src/Platform/Order/Tests.antt =====
-- The order of `Platform::connect` in src/platform.cpp on four devices.
use verilator_axi_testbench.Common.{
  ℕ, ◌<◌, ◌≡◌, ◌↔◌, refl, List, [], ◌∷◌, ok, err, invalid_argument, arith,
}
use verilator_axi_testbench.Platform.Order.{order_devices}
use verilator_axi_testbench.Platform.Order.Count.{occurs, AllBelow, AreEdges}
use verilator_axi_testbench.Platform.Order.Sound.{
  IsEdge, IsBefore, IsBlocked, order_devices-IsBefore, order_devices-IsBlocked,
}

-- Two interrupt lines enter device 1, which drives device 0.
abbrev lines : List (ℕ × ℕ)
lines = (2, 1) ∷ (3, 1) ∷ (1, 0) ∷ []

lines-AreEdges : AreEdges 4 lines
lines-AreEdges =
    (omega arith, omega arith, (omega arith, omega arith, (omega arith, omega arith, tt)))

abbrev lines_order : List ℕ
lines_order = 2 ∷ 3 ∷ 1 ∷ 0 ∷ []

order_devices_run : order_devices 4 lines ≡ ok lines_order
unfolding order_devices
order_devices_run = refl

order_devices-IsBefore_example :
    ((v : ℕ) → v < 4 → occurs v lines_order ≡ 1)
    × AllBelow 4 lines_order
    × ((x y : ℕ) → IsEdge x y lines → IsBefore x y lines_order)
order_devices-IsBefore_example =
    order_devices-IsBefore 4 lines lines-AreEdges (omega arith) lines_order order_devices_run

-- Devices 0 and 1 drive each other.
abbrev loop : List (ℕ × ℕ)
loop = (0, 1) ∷ (1, 0) ∷ []

loop_refused : order_devices 3 loop ≡ err invalid_argument
unfolding order_devices
loop_refused = refl

order_devices-IsBlocked_example :
    (order_devices 3 loop ≡ err invalid_argument) ↔ ((free : List ℕ) × IsBlocked 3 loop free)
order_devices-IsBlocked_example =
    order_devices-IsBlocked 3 loop (omega arith, omega arith, (omega arith, omega arith, tt))
      (omega arith)
