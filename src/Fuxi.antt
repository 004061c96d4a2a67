-- ===== src/Fuxi.antt =====
-- src/examples/fuxi/sim/interrupt_devices.cpp: the accesses that the interrupt devices of the Fuxi
-- platform share.
pub mod Clint
pub mod Plic
pub mod Pins
pub mod Definition
pub mod Timer
pub mod Best
mod Tests
use Prim.Native.String.{String}
use verilator_axi_testbench.Common.{
  ℕ, zero, suc, ◌+◌, ◌-◌, ◌*◌, ◌%◌, Bool, true, false, not, ◌==◌, ◌!=◌, ◌&&◌, ◌||◌, ltb, leb,
  if◌then◌else◌, List, [], ◌∷◌, Option, none, some, length, get_or, set, take, drop, all, add_u64,
  u64_max, u64_mod, u8_mod, bit_and, bit_or, ◌<<<◌, ◌>>>◌,
}

pub record Access : Type 0 where
  pub address : ℕ
  pub lane : ℕ
  pub size : ℕ

-- The first lane that is enabled, from `i` on.
unfoldable pub first_enabled : ℕ → List ℕ → Option ℕ
first_enabled i [] = none
first_enabled i (v ∷ lanes) =
    let rest = first_enabled (suc i) lanes in if v != 0 then some i else rest

-- One past the last lane that is enabled, or `last`.
unfoldable pub enabled_end : ℕ → ℕ → List ℕ → ℕ
enabled_end last i [] = last
enabled_end last i (v ∷ lanes) = enabled_end (if v != 0 then suc i else last) (suc i) lanes

abbrev pub access_from : ℕ → List ℕ → Option ℕ → Option Access
access_from offset lanes none = some (record { address = offset; lane = 0; size = 0 })
access_from offset lanes (some start) =
    let size = enabled_end 0 0 lanes - start in
    let refused =
      (size != 4 && size != 8)
      || ltb (u64_max - start) offset
      || add_u64 offset start % (if size == 0 then 1 else size) != 0
      || not (all (λ v. v != 0) (take size (drop start lanes))) in
    if refused
    then none
    else some (record { address = add_u64 offset start; lane = start; size = size })

unfoldable pub access : ℕ → List ℕ → Option Access
unfolding first_enabled enabled_end
access offset lanes = access_from offset lanes (first_enabled 0 lanes)

-- The loop of `get` from byte `i` on.
unfoldable pub get_from : List ℕ → ℕ → ℕ → ℕ → ℕ → ℕ
get_from bytes lane i zero value = value
get_from bytes lane i (suc left) value =
    get_from bytes lane (suc i) left
      (bit_or value ((get_or bytes (lane + i) 0 <<< (i * 8)) % u64_mod))

unfoldable pub get : List ℕ → Access → ℕ
unfolding get_from
get bytes a = get_from bytes a.lane 0 a.size 0

unfoldable pub put_from : List ℕ → ℕ → ℕ → ℕ → ℕ → List ℕ
put_from bytes lane i zero value = bytes
put_from bytes lane i (suc left) value =
    put_from (set bytes (lane + i) (bit_and (value >>> (i * 8)) 0xff)) lane (suc i) left value

unfoldable pub put : List ℕ → Access → ℕ → List ℕ
unfolding put_from
put bytes a value = put_from bytes a.lane 0 a.size value

unfoldable pub timer_register : ℕ → ℕ → Bool
timer_register address size =
    address == 0x4000
    || address == 0xbff8
    || (size == 4 && (address == 0x4004 || address == 0xbffc))
