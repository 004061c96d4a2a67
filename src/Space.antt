-- ===== src/Space.antt =====
-- `AddressSpace` of src/device.hpp and src/devices.cpp. The devices stand in a list; a mapping names
-- its device by the index there, as the source does by a pointer, so two mappings may share one.
pub mod Sorted
pub mod Resolve
pub mod Reset
pub mod Load
mod Tests
use Prim.Native.String.{String}
use verilator_axi_testbench.Common.{
  ℕ, ◌-◌, Bool, true, false, not, ◌==◌, ◌!=◌, ◌&&◌, ◌||◌, ltb, leb, if◌then◌else◌, List, [], ◌∷◌,
  ◌++◌, Option, none, some, length, get_elem?, set, replicate, Result, ok, err, invalid_argument,
  logic_error, bad_index, throw_if, ◌>>=◌, ◌>>◌, add_u64, sub_u64, u64_max,
}
use verilator_axi_testbench.Axi.{Response, okay, slave_error, decode_error}
use verilator_axi_testbench.Device.{Device, read, write}

pub record Mapping : Type 0 where
  pub base : ℕ
  pub size : ℕ
  pub device : ℕ
  pub name : String

-- `Mapping::end`
abbrev pub end : Mapping → ℕ
end m = add_u64 m.base m.size

pub record AddressSpace : Type 0 where
  pub mappings : List Mapping
  pub frozen : Bool

abbrev pub empty_space : AddressSpace
empty_space = record { mappings = []; frozen = false }

-- `std::ranges::lower_bound` and `upper_bound` split a vector that a test divides: these are the
-- last element before the split, the first after it, and the insertion of one at it.
unfoldable pub before : (Mapping → Bool) → Option Mapping → List Mapping → Option Mapping
before test last [] = last
before test last (m ∷ ms) = let rest = before test (some m) ms in if test m then rest else last

unfoldable pub after : (Mapping → Bool) → List Mapping → Option Mapping
after test [] = none
after test (m ∷ ms) = let rest = after test ms in if test m then rest else some m

unfoldable pub insert : (Mapping → Bool) → Mapping → List Mapping → List Mapping
insert test new [] = new ∷ []
insert test new (m ∷ ms) =
    let rest = m ∷ insert test new ms in if test m then rest else new ∷ m ∷ ms

abbrev pub overlaps_previous : ℕ → Option Mapping → Bool
overlaps_previous base none = false
overlaps_previous base (some previous) = ltb base (end previous)

abbrev pub overlaps_next : ℕ → Option Mapping → Bool
overlaps_next last none = false
overlaps_next last (some next) = ltb next.base last

-- `AddressSpace::map`
unfoldable pub map_device : AddressSpace → ℕ → ℕ → ℕ → String → Result AddressSpace
unfolding before after insert
map_device space base size device name =
    let below = λ (m : Mapping). ltb m.base base in
    do
      throw_if space.frozen logic_error
      throw_if (size == 0) invalid_argument
      throw_if (ltb (u64_max - base) size) invalid_argument
      throw_if (overlaps_previous base (before below none space.mappings)) invalid_argument
      throw_if (overlaps_next (add_u64 base size) (after below space.mappings)) invalid_argument
      ok (record space {
        mappings =
            insert below (record { base = base; size = size; device = device; name = name })
              space.mappings;
      })

unfoldable pub freeze : AddressSpace → AddressSpace
freeze space = record space { frozen = true }

-- The mapping at or below an address, by `upper_bound`.
unfoldable pub candidate : AddressSpace → ℕ → Option Mapping
unfolding before
candidate space address = before (λ m. leb m.base address) none space.mappings

abbrev pub fits_mapping : ℕ → ℕ → Option Mapping → Option Mapping
fits_mapping address size none = none
fits_mapping address size (some m) =
    if ltb address m.base || leb (end m) address
    then none
    else if ltb (end m - address) size
    then none
    else some m

-- `AddressSpace::resolve`
unfoldable pub resolve : AddressSpace → ℕ → ℕ → Option Mapping
unfolding candidate
resolve space address size =
    if size == 0 then none else fits_mapping address size (candidate space address)

abbrev pub response_of : ℕ → Option Mapping → Response
response_of address none = decode_error
response_of address (some m) =
    if leb m.base address && ltb address (end m) then slave_error else decode_error

-- `resolution_error`
unfoldable pub resolution_error : AddressSpace → ℕ → Response
unfolding candidate
resolution_error space address = response_of address (candidate space address)

abbrev pub device_at {ℓ} : {D : Type ℓ} → Option D → Result D
device_at none = err bad_index
device_at (some d) = ok d

-- Whether an earlier mapping has the device: the inner loop of `reset`.
unfoldable pub already_reset : List ℕ → ℕ → Bool
already_reset [] device = false
already_reset (earlier ∷ seen) device = earlier == device || already_reset seen device

module _ {ℓ} {D : Type ℓ} ⦃ops : Device D⦄ where
  -- `mapping->device->read(...)` and `write(...)`, on the shared devices.
  unfoldable pub read_device : List D → ℕ → ℕ → ℕ → List ℕ → Result (Response × List ℕ × List D)
  unfolding read
  read_device devices index offset count enable = do
    d ← device_at (get_elem? devices index)
    (response, bytes, d') ← read d offset count enable
    ok (response, bytes, set devices index d')

  unfoldable pub write_device : List D → ℕ → ℕ → List ℕ → List ℕ → Result (Response × List D)
  unfolding write
  write_device devices index offset bytes strobe = do
    d ← device_at (get_elem? devices index)
    (response, d') ← write d offset bytes strobe
    ok (response, set devices index d')

  unfoldable pub read_mapping :
      AddressSpace → List D → ℕ → ℕ → List ℕ → Option Mapping → Result (Response × List ℕ × List D)
  unfolding read_device resolution_error
  read_mapping space devices address count enable none =
      ok (resolution_error space address, replicate count 0, devices)
  read_mapping space devices address count enable (some m) =
      read_device devices m.device (sub_u64 address m.base) count enable

  -- `AddressSpace::read`, of `count` bytes.
  unfoldable pub space_read :
      AddressSpace → List D → ℕ → ℕ → List ℕ → Result (Response × List ℕ × List D)
  unfolding read_mapping resolve
  space_read space devices address count enable =
      let resolved =
        read_mapping space devices address count enable (resolve space address count) in
      do
        throw_if (count != length enable) invalid_argument
        (if count == 0 then ok (okay, [], devices) else resolved)

  unfoldable pub write_mapping :
      AddressSpace → List D → ℕ → List ℕ → List ℕ → Option Mapping → Result (Response × List D)
  unfolding write_device resolution_error
  write_mapping space devices address bytes strobe none =
      ok (resolution_error space address, devices)
  write_mapping space devices address bytes strobe (some m) =
      write_device devices m.device (sub_u64 address m.base) bytes strobe

  -- `AddressSpace::write`
  unfoldable pub space_write :
      AddressSpace → List D → ℕ → List ℕ → List ℕ → Result (Response × List D)
  unfolding write_mapping resolve
  space_write space devices address bytes strobe =
      let count = length bytes in
      let resolved =
        write_mapping space devices address bytes strobe (resolve space address count) in
      do
        throw_if (count != length strobe) invalid_argument
        (if count == 0 then ok (okay, devices) else resolved)

  load_device : List D → ℕ → ℕ → List ℕ → D → Response × List D
  load_device devices index offset bytes d =
      if not (ops.loadable d)
      then (slave_error, devices)
      else if not (ops.can_load d offset (length bytes))
      then (slave_error, devices)
      else let (response, d') = ops.load d offset bytes in (response, set devices index d')

  unfoldable pub load_mapping :
      AddressSpace → List D → ℕ → List ℕ → Option Mapping → Result (Response × List D)
  unfolding load_device resolution_error
  load_mapping space devices address bytes none = ok (resolution_error space address, devices)
  load_mapping space devices address bytes (some m) = do
    d ← device_at (get_elem? devices m.device)
    ok (load_device devices m.device (sub_u64 address m.base) bytes d)

  -- `AddressSpace::load`
  unfoldable pub space_load : AddressSpace → List D → ℕ → List ℕ → Result (Response × List D)
  unfolding load_mapping resolve
  space_load space devices address bytes =
      let resolved =
        load_mapping space devices address bytes (resolve space address (length bytes)) in
      if length bytes == 0 then ok (okay, devices) else resolved

  abbrev pub reset_device : List D → ℕ → Option D → List D
  reset_device devices index none = devices
  reset_device devices index (some d) = set devices index (ops.reset d)

  -- The outer loop, over the mappings left, with the devices of those before.
  unfoldable pub reset_mappings : List ℕ → List Mapping → List D → List D
  unfolding already_reset
  reset_mappings seen [] devices = devices
  reset_mappings seen (m ∷ ms) devices = reset_mappings (m.device ∷ seen) ms (
      if already_reset seen m.device
      then devices
      else reset_device devices m.device (get_elem? devices m.device))

  unfoldable pub space_reset : AddressSpace → List D → List D
  unfolding reset_mappings
  space_reset space devices = reset_mappings [] space.mappings devices
