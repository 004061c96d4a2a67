-- ===== src/Memory/Tests.antt =====
-- The theorems on the memories of src/devices.cpp at concrete accesses.
use verilator_axi_testbench.Common.{
  ℕ, ◌+◌, ◌≡◌, refl, false, ◌!=◌, if◌then◌else◌, List, [], ◌∷◌, length, get_or, replicate, arith,
}
use verilator_axi_testbench.Axi.{okay, slave_error}
use verilator_axi_testbench.Memory.{RamDevice, RomDevice, ram_write, memory_read, in_bounds}
use verilator_axi_testbench.Memory.Ram.{written, ram_write-get_or, memory_read-ram_write}

abbrev cells : List ℕ
cells = 10 ∷ 11 ∷ 12 ∷ 13 ∷ []

abbrev small_ram : RamDevice
small_ram = record { bytes = cells; mapped = false }

abbrev payload : List ℕ
payload = 7 ∷ 8 ∷ []

abbrev low_only : List ℕ
low_only = 1 ∷ 0 ∷ []

ram_write-get_or_example :
    ((ram_write small_ram 1 payload low_only).0 ≡ (if in_bounds 1 2 4 then okay else slave_error))
    × (length (ram_write small_ram 1 payload low_only).1.bytes ≡ 4)
    × (get_or (ram_write small_ram 1 payload low_only).1.bytes 1 0
        ≡ written cells 1 payload low_only 1)
ram_write-get_or_example = ram_write-get_or small_ram 1 payload low_only refl 1

memory_read-ram_write_example :
    get_or
      (memory_read
        (ram_write small_ram 1 payload low_only).1.bytes
        1
        (replicate 2 0)
        (replicate 2 1)).1
      0
      0
    ≡ (if get_or low_only 0 0 != 0 then get_or payload 0 0 else get_or cells (1 + 0) 0)
unfolding ram_write
memory_read-ram_write_example =
    memory_read-ram_write small_ram 1 payload low_only 0 refl refl (omega arith)

abbrev padded_rom : RomDevice
padded_rom = record { bytes = 7 ∷ 8 ∷ 0 ∷ [] }

abbrev three : ℕ
three = 3
