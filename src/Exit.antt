-- ===== src/Exit.antt =====
-- `ExitDevice` of src/devices.cpp and src/devices.hpp.
pub mod Code
mod Tests
use verilator_axi_testbench.Common.{
  ℕ, suc, ◌+◌, ◌*◌, Bool, true, false, not, ◌==◌, ◌!=◌, ◌||◌, if◌then◌else◌, List, [], ◌∷◌, length,
  get_or, bit_and, bit_or, ◌<<<◌, ◌>>>◌, add_u64,
}
use verilator_axi_testbench.Axi.{Response, okay, slave_error}
use verilator_axi_testbench.Memory.{in_bounds, all_lanes_enabled}

pub record ExitDevice : Type 0 where
  pub requested : Bool
  pub code : ℕ
  pub generation : ℕ

abbrev pub exit_span : ℕ
exit_span = 4

abbrev pub fresh_exit : ExitDevice
fresh_exit = record { requested = false; code = 0; generation = 0 }

-- `clear`, which is also `reset`.
unfoldable pub exit_clear : ExitDevice → ExitDevice
exit_clear e = record e { requested = false; code = 0 }

-- The lane loop of `read_impl`, from byte `index` of the register on.
unfoldable pub code_lanes : ℕ → ℕ → List ℕ → List ℕ → List ℕ
code_lanes code index [] enable = []
code_lanes code index (d ∷ bytes) [] = d ∷ bytes
code_lanes code index (d ∷ bytes) (e ∷ enable) =
    (if e != 0 then bit_and (code >>> (index * 8)) 0xff else d)
    ∷ code_lanes code (suc index) bytes enable

unfoldable pub exit_read : ExitDevice → ℕ → List ℕ → List ℕ → Response × List ℕ
unfolding in_bounds code_lanes
exit_read e offset bytes enable =
    if not (in_bounds offset (length bytes) exit_span)
    then (slave_error, bytes)
    else (okay, code_lanes e.code offset bytes enable)

-- The four bytes as a little-endian word.
unfoldable pub code_of : List ℕ → ℕ
code_of bytes =
    bit_or (bit_or (bit_or (get_or bytes 0 0) (get_or bytes 1 0 <<< 8)) (get_or bytes 2 0 <<< 16))
      (get_or bytes 3 0 <<< 24)

unfoldable pub exit_write : ExitDevice → ℕ → List ℕ → List ℕ → Response × ExitDevice
unfolding all_lanes_enabled code_of
exit_write e offset bytes strobe =
    if offset != 0 || length bytes != exit_span || not (all_lanes_enabled strobe)
    then (slave_error, e)
    else (
      okay,
      record { requested = true; code = code_of bytes; generation = add_u64 e.generation 1 },
    )
