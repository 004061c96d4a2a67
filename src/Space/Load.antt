-- ===== src/Space/Load.antt =====
-- `AddressSpace::load` of src/devices.cpp, where one mapping holds the range.
use verilator_axi_testbench.Common.{
  ℕ, ◌-◌, ◌<◌, ◌≡◌, ap, ◌∙◌, Bool, if◌then◌else◌, true, false, ◌==◌, List, length, some, get_elem?,
  set, ok, arith, sub_u64,
}
use verilator_axi_testbench.Device.{Device}
use verilator_axi_testbench.Space.{Mapping, AddressSpace, space_load, load_mapping, load_device}
use verilator_axi_testbench.Space.Sorted.{IsSorted, IsIn}
use verilator_axi_testbench.Space.Resolve.{Holds, resolve_iff, IsSorted-bounds}

if-false {ℓ} : {A : Type ℓ} (x y : A) (b : Bool) → b ≡ false → (if b then x else y) ≡ y
if-false x y b h = rw h

module _ {ℓ} {D : Type ℓ} ⦃ops : Device D⦄ where
  -- The bytes go to the device, at the offset that the address has in the mapping.
  pub space_load-held :
      (space : AddressSpace) (devices : List D) (address : ℕ) (bytes : List ℕ) (m : Mapping) (d : D)
      → IsSorted 0 space.mappings
      → IsIn m space.mappings
      → 0 < length bytes
      → Holds m address (length bytes)
      → get_elem? devices m.device ≡ some d
      → ops.loadable d ≡ true
      → ops.can_load d (address - m.base) (length bytes) ≡ true
      → space_load space devices address bytes
        ≡ ok (
          (ops.load d (address - m.base) bytes).0,
          set devices m.device (ops.load d (address - m.base) bytes).1,
        )
  unfolding space_load load_mapping load_device
  space_load-held space devices address bytes m d sorted inside nonempty held at loads can =
      let found = (resolve_iff space address (length bytes) m sorted).1 (inside, nonempty, held) in
      let bound = IsSorted-bounds 0 m space.mappings sorted inside in
      let offset : sub_u64 address m.base ≡ address - m.base = omega arith in
      let some_bytes : (length bytes == 0) ≡ false = ground arith in
      if-false _ _ (length bytes == 0) some_bytes
      ∙ ap (load_mapping space devices address bytes) found
      ∙ rw (at, offset, loads, can)
