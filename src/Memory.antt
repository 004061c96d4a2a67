-- ===== src/Memory.antt =====
-- `RomDevice` and `RamDevice` of src/devices.cpp, and the copying loops that they share.
pub mod Lanes
pub mod Ram
pub mod Rom
mod Tests
use verilator_axi_testbench.Common.{
  ℕ, suc, ◌+◌, ◌-◌, Bool, true, false, not, ◌==◌, ◌!=◌, ◌&&◌, ltb, leb, if◌then◌else◌, List, [],
  ◌∷◌, ◌++◌, Option, none, some, length, get_or, set, take, drop, replicate, all, Result, ok, err,
  invalid_argument, throw_if, ◌>>=◌, ◌>>◌,
}
use verilator_axi_testbench.Axi.{Response, okay, slave_error}

-- `in_bounds`, and `range_in_bounds`, which differs in the width of an argument only.
unfoldable pub in_bounds : ℕ → ℕ → ℕ → Bool
in_bounds offset size capacity = leb offset capacity && leb size (capacity - offset)

unfoldable pub all_lanes_enabled : List ℕ → Bool
all_lanes_enabled lanes = all (λ value. value != 0) lanes

-- `for lane: if (enable[lane] != 0) data[lane] = bytes[start + lane]`.
unfoldable pub read_lanes : List ℕ → ℕ → List ℕ → List ℕ → List ℕ
read_lanes bytes start [] enable = []
read_lanes bytes start (d ∷ payload) [] = d ∷ payload
read_lanes bytes start (d ∷ payload) (e ∷ enable) =
    (if e != 0 then get_or bytes start 0 else d) ∷ read_lanes bytes (suc start) payload enable

-- `for lane: if (strobe[lane] != 0) bytes[start + lane] = data[lane]`.
unfoldable pub write_lanes : List ℕ → ℕ → List ℕ → List ℕ → List ℕ
write_lanes bytes start [] strobe = bytes
write_lanes bytes start (d ∷ payload) [] = bytes
write_lanes bytes start (d ∷ payload) (s ∷ strobe) =
    write_lanes (if s != 0 then set bytes start d else bytes) (suc start) payload strobe

-- `memcpy` out of and into the array, and `std::ranges::copy`.
unfoldable pub copy_out : List ℕ → ℕ → ℕ → List ℕ
copy_out bytes start size = take size (drop start bytes)

unfoldable pub copy_in : List ℕ → ℕ → List ℕ → List ℕ
copy_in bytes start [] = bytes
copy_in bytes start (d ∷ payload) = copy_in (set bytes start d) (suc start) payload

-- `read_impl` of both devices.
unfoldable pub memory_read : List ℕ → ℕ → List ℕ → List ℕ → Response × List ℕ
unfolding in_bounds all_lanes_enabled read_lanes copy_out
memory_read bytes offset payload enable =
    if not (in_bounds offset (length payload) (length bytes))
    then (slave_error, payload)
    else if all_lanes_enabled enable
    then (okay, copy_out bytes offset (length payload))
    else (okay, read_lanes bytes offset payload enable)

-- `load` of both devices.
unfoldable pub memory_load : List ℕ → ℕ → List ℕ → Response × List ℕ
unfolding in_bounds copy_in
memory_load bytes offset payload =
    if not (in_bounds offset (length payload) (length bytes))
    then (slave_error, bytes)
    else (okay, copy_in bytes offset payload)

pub record RomDevice : Type 0 where
  pub bytes : List ℕ

-- The constructors: of `size` zero bytes, or of an image at the start of them.
unfoldable pub make_rom : List ℕ → ℕ → Result RomDevice
unfolding copy_in
make_rom image size = do
  throw_if (size == 0) invalid_argument
  throw_if (ltb size (length image)) invalid_argument
  ok (record { bytes = copy_in (replicate size 0) 0 image })

-- Both branches of `RomDevice::write_impl` refuse.
unfoldable pub rom_write : RomDevice → ℕ → List ℕ → List ℕ → Response × RomDevice
unfolding in_bounds
rom_write rom offset payload strobe =
    if not (in_bounds offset (length payload) (length rom.bytes))
    then (slave_error, rom)
    else (slave_error, rom)

pub record RamDevice : Type 0 where
  pub bytes : List ℕ
  pub mapped : Bool

-- The constructor. `mapping` is what `mmap` gave, if it did; else the fallback vector is used.
unfoldable pub make_ram : ℕ → Option (List ℕ) → Result RamDevice
make_ram size none = do
  throw_if (size == 0) invalid_argument
  ok (record { bytes = replicate size 0; mapped = false })
make_ram size (some mapping) = do
  throw_if (size == 0) invalid_argument
  ok (record { bytes = mapping; mapped = true })

unfoldable pub ram_write : RamDevice → ℕ → List ℕ → List ℕ → Response × RamDevice
unfolding in_bounds all_lanes_enabled write_lanes copy_in
ram_write ram offset payload strobe =
    if not (in_bounds offset (length payload) (length ram.bytes))
    then (slave_error, ram)
    else if all_lanes_enabled strobe
    then (okay, record ram { bytes = copy_in ram.bytes offset payload })
    else (okay, record ram { bytes = write_lanes ram.bytes offset payload strobe })
