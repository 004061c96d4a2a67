-- ===== src/Fuxi/Pins.antt =====
-- The pins of `Clint` and `Plic` of src/examples/fuxi/sim/interrupt_devices.cpp, looked up by name. An
-- output is its width and value.
use Prim.Native.String.{String}
use text.Mathlib.Text.{◌==◌ as str_eq}
use verilator_axi_testbench.Common.{
  ℕ, suc, ◌==◌, leb, if◌then◌else◌, List, [], ◌∷◌, Option, none, some, get_or, ok, err, Result,
}
use verilator_axi_testbench.Platform.Text.{codes, from_chars, parsed}
use verilator_axi_testbench.Fuxi.Clint.{Clint}
use verilator_axi_testbench.Fuxi.Plic.{Plic}

-- `starts_with` and `remove_prefix`
unfoldable pub behind_prefix : List ℕ → List ℕ → Option (List ℕ)
behind_prefix [] name = some name
behind_prefix (p ∷ prefix) [] = none
behind_prefix (p ∷ prefix) (c ∷ name) =
    let rest = behind_prefix prefix name in if c == p then rest else none

abbrev pub below_limit : ℕ → Result ℕ → Option ℕ
below_limit limit (err e) = none
below_limit limit (ok value) = if leb limit value then none else some value

abbrev pub suffix_number : ℕ → Option (List ℕ) → Option ℕ
suffix_number limit none = none
suffix_number limit (some digits) = below_limit limit (parsed digits (from_chars 10 0 digits))

-- A number that does not fit `unsigned` is beyond the limit as well.
unfoldable pub index : String → String → ℕ → Option ℕ
unfolding behind_prefix from_chars
index name prefix limit = suffix_number limit (behind_prefix (codes prefix) (codes name))

unfoldable pub clint_output : Clint → String → Option (ℕ × ℕ)
clint_output c name =
    if str_eq name "mtime"
    then some (64, c.time)
    else if str_eq name "mtip"
    then some (1, c.timer)
    else if str_eq name "msip"
    then some (1, c.software)
    else none

abbrev pub source_pin : Option ℕ → Option ℕ
source_pin none = none
source_pin (some i) = if i == 0 then none else some i

-- The number of the input, which is one bit wide.
unfoldable pub plic_input : Plic → String → Option ℕ
unfolding index
plic_input p name = source_pin (index name "source" (suc p.sources))

abbrev pub context_pin : Plic → Option ℕ → Option (ℕ × ℕ)
context_pin p none = none
context_pin p (some i) = some (1, get_or p.irqs i 0)

unfoldable pub plic_output : Plic → String → Option (ℕ × ℕ)
unfolding index
plic_output p name = context_pin p (index name "context" p.contexts)
