-- ===== src/Fuxi/Clint.antt =====
-- `Clint` of src/examples/fuxi/sim/interrupt_devices.cpp.
use verilator_axi_testbench.Common.{
  ℕ, ◌-◌, ◌%◌, ◌==◌, ◌!=◌, ◌&&◌, ltb, leb, if◌then◌else◌, List, Option, none, some, Result, ok,
  invalid_argument, throw_if, ◌>>◌, add_u64, u32_mod, u64_max, u64_mod, bit_and, bit_or, ◌<<<◌,
  ◌>>>◌,
}
use verilator_axi_testbench.Common.Bits.{and_not}
use verilator_axi_testbench.Axi.{Response, okay, slave_error}
use verilator_axi_testbench.Fuxi.{Access, access, get, put, timer_register}

-- `time`, `timer` and `software` are the values of the three output signals.
pub record Clint : Type 0 where
  pub divider : ℕ
  pub phase : ℕ
  pub compare : ℕ
  pub time : ℕ
  pub timer : ℕ
  pub software : ℕ

unfoldable pub clint_reset : Clint → Clint
clint_reset c = record c { phase = 0; compare = u64_max; time = 0; timer = 0; software = 0 }

unfoldable pub make_clint : ℕ → Result Clint
unfolding clint_reset
make_clint divider = do
  throw_if (divider == 0) invalid_argument
  ok (
      clint_reset (record {
        divider = divider;
        phase = 0;
        compare = u64_max;
        time = 0;
        timer = 0;
        software = 0;
      }))

unfoldable pub clint_settle : Clint → Clint
clint_settle c = record c { timer = if leb c.compare c.time then 1 else 0 }

unfoldable pub clint_tick : Clint → Clint
unfolding clint_settle
clint_tick c =
    let phase = add_u64 c.phase 1 in
    clint_settle (
      if phase == c.divider
      then record c { phase = 0; time = add_u64 c.time 1 }
      else record c { phase = phase })

-- `address & 4` chooses the half of a 64-bit register.
abbrev pub half_shift : ℕ → ℕ
half_shift address = if bit_and address 4 != 0 then 32 else 0

abbrev pub clint_register : Clint → Access → ℕ
clint_register c a = if ltb a.address 0x8000 then c.compare else c.time

abbrev pub clint_answer : Clint → List ℕ → Option Access → Response × List ℕ
clint_answer c bytes none = (slave_error, bytes)
clint_answer c bytes (some a) =
    if a.size == 0
    then (okay, bytes)
    else if a.address == 0 && a.size == 4
    then (okay, put bytes a c.software)
    else if timer_register a.address a.size
    then (okay, put bytes a (clint_register c a >>> half_shift a.address))
    else (slave_error, bytes)

unfoldable pub clint_read : Clint → ℕ → List ℕ → List ℕ → Response × List ℕ
unfolding access put timer_register
clint_read c offset bytes lanes = clint_answer c bytes (access offset lanes)

-- The new value of a 64-bit register that is written whole or by half.
abbrev pub replaced : ℕ → Access → ℕ → ℕ
replaced target a value =
    if a.size == 8
    then value
    else bit_or (and_not target (((u32_mod - 1) <<< half_shift a.address) % u64_mod))
        ((value <<< half_shift a.address) % u64_mod)

abbrev pub clint_store : Clint → List ℕ → Option Access → Response × Clint
clint_store c bytes none = (slave_error, c)
clint_store c bytes (some a) =
    let value = get bytes a in
    if a.size == 0
    then (okay, c)
    else if a.address == 0 && a.size == 4
    then (okay, clint_settle (record c { software = bit_and value 1 }))
    else if timer_register a.address a.size
    then (
      okay,
      clint_settle (
          if ltb a.address 0x8000
          then record c { compare = replaced c.compare a value }
          else record c { time = replaced c.time a value }),
    )
    else (slave_error, c)

unfoldable pub clint_write : Clint → ℕ → List ℕ → List ℕ → Response × Clint
unfolding access get timer_register clint_settle
clint_write c offset bytes lanes = clint_store c bytes (access offset lanes)
