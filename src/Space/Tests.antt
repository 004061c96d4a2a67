-- ===== src/Space/Tests.antt =====
-- The theorems on `AddressSpace` of src/devices.cpp at a concrete space.
use verilator_axi_testbench.Common.{
  ◌+◌, ◌<◌, ◌≤◌, ◌≡◌, ◌↔◌, ◌⊎◌, refl, false, if◌then◌else◌, List, [], ◌∷◌, replicate, some,
  get_elem?, ok, arith, u64_max, or_same,
}
use verilator_axi_testbench.Builtin.{Builtin, ram, exit, builtin_device, builtin_reset}
use verilator_axi_testbench.Uart.State.{BufferUartBackend, buffer_backend}
use verilator_axi_testbench.Exit.{fresh_exit}
use verilator_axi_testbench.Space.{Mapping, AddressSpace, map_device, resolve, space_reset}
use verilator_axi_testbench.Space.Sorted.{
  IsSorted, IsIn, IsApart, map_device-accepts, map_device-IsSorted,
}
use verilator_axi_testbench.Space.Resolve.{Holds, resolve_iff}
use verilator_axi_testbench.Space.Reset.{is_mapped, space_reset-once}

abbrev low : Mapping
low = record { base = 0x1000; size = 4; device = 1; name = "exit" }

abbrev high : Mapping
high = record { base = 0x8000; size = 16; device = 0; name = "ram" }

abbrev open_space : AddressSpace
open_space = record { mappings = low ∷ high ∷ []; frozen = false }

open_space-IsSorted : IsSorted 0 open_space.mappings
open_space-IsSorted =
    (omega arith, omega arith, omega arith, (omega arith, omega arith, omega arith, tt))

resolve_iff_example :
    (resolve open_space 0x8004 4 ≡ some high)
    ↔ (IsIn high open_space.mappings × (0 < 4) × Holds high 0x8004 4)
resolve_iff_example = resolve_iff open_space 0x8004 4 high open_space-IsSorted

map_device-accepts_example :
    ((space' : AddressSpace) × (map_device open_space 0x2000 8 1 "copy" ≡ ok space')) ↔ (
      (open_space.frozen ≡ false)
      × (0 < 8)
      × (0x2000 + 8 ≤ u64_max)
      × IsApart 0x2000 8 open_space.mappings)
map_device-accepts_example =
    map_device-accepts open_space 0x2000 8 1 "copy" open_space-IsSorted (omega arith)

abbrev larger_space : AddressSpace
larger_space = or_same open_space (map_device open_space 0x2000 8 1 "copy")

map_device-IsSorted_example :
    IsSorted 0 larger_space.mappings
    × ((x : Mapping)
        → IsIn x larger_space.mappings ↔ (
            (x ≡ record { base = 0x2000; size = 8; device = 1; name = "copy" })
            ⊎ IsIn x open_space.mappings))
unfolding map_device
map_device-IsSorted_example =
    map_device-IsSorted open_space larger_space 0x2000 8 1 "copy" open_space-IsSorted (omega arith)
      refl

abbrev board : List (Builtin BufferUartBackend)
board = ram (record { bytes = replicate 16 0; mapped = false }) ∷ exit fresh_exit ∷ []

space_reset-once_example :
    get_elem? (space_reset open_space board) 1
    ≡ some (
        if is_mapped open_space.mappings 1
        then builtin_reset (exit fresh_exit)
        else exit fresh_exit)
space_reset-once_example = space_reset-once open_space board 1 (exit fresh_exit) refl
