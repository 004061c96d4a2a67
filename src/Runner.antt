-- ===== src/Runner.antt =====
-- `Options` and `parse_options` of src/sim_main.cpp. `strtoull` and `strtod` are parameters: the number
-- that a text stands for, where they take the whole of it without a range error.
mod Tests
use Prim.Native.String.{String, ◌++◌ as str_append}
use Prim.Native.Char.{code}
use text.Mathlib.Text.{◌==◌ as str_eq}
use verilator_axi_testbench.Common.{
  ℕ, Bool, true, false, not, ◌==◌, ◌&&◌, ◌||◌, if◌then◌else◌, List, [], ◌∷◌, ◌++◌, Option, none,
  some, Result, ok, err, invalid_argument, throw_if, ◌>>=◌, ◌>>◌,
}
use verilator_axi_testbench.Platform.Spec.{PlatformSpec, set_spec}

-- `P` is the type of the probabilities, which the source holds in floating point.
pub record Options (P : Type 0) : Type 0 where
  pub elves : List String
  pub raw_images : List String
  pub trace : Option String
  pub max_cycles : ℕ
  pub reset_cycles : ℕ
  pub seed : ℕ
  pub stall_probability : P
  pub stats : Bool
  pub help : Bool

pub record HostNumbers (P : Type 0) : Type 0 where
  pub strtoull : String → Option ℕ
  pub strtod : String → Option P
  -- `value < 0.0 || value > 1.0`
  pub is_outside : P → Bool
  pub zero_probability : P

pub data Switch : Type 0 where
  help_switch stats_switch plusarg_switch unknown_switch : Switch

pub data Setting : Type 0 where
  elf_setting load_setting trace_setting max_cycles_setting reset_cycles_setting : Setting
  seed_setting stall_setting : Setting
  -- what stands before the argument in the text given to `PlatformSpec::set`
  spec_setting : String → Setting

abbrev pub starts_at : ℕ → String → Bool
starts_at mark String.[] = false
starts_at mark (String.◌∷◌ c s) = code c == mark

-- The tests on the name of an argument, in the order of the source: `some` for one that takes a value.
unfoldable pub setting_of : String → Option Setting
setting_of name =
    if str_eq name "--elf"
    then some elf_setting
    else if str_eq name "--rom-image"
    then some (spec_setting "rom.image=")
    else if str_eq name "--ram-image"
    then some (spec_setting "ram.image=")
    else if str_eq name "--uart-in"
    then some (spec_setting "uart.input=")
    else if str_eq name "--uart-out"
    then some (spec_setting "uart.output=")
    else if str_eq name "--set"
    then some (spec_setting "")
    else if str_eq name "--load"
    then some load_setting
    else if str_eq name "--trace"
    then some trace_setting
    else if str_eq name "--max-cycles"
    then some max_cycles_setting
    else if str_eq name "--reset-cycles"
    then some reset_cycles_setting
    else if str_eq name "--seed"
    then some seed_setting
    else if str_eq name "--stall-probability"
    then some stall_setting
    else none

unfoldable pub switch_of : String → Switch
switch_of name =
    if str_eq name "--help" || str_eq name "-h"
    then help_switch
    else if str_eq name "--stats"
    then stats_switch
    else if starts_at b'+' name
    then plusarg_switch
    else unknown_switch

module _ {P : Type 0} (host : HostNumbers P) where
  unfoldable pub default_options : Options P
  default_options = record {
    elves = [];
    raw_images = [];
    trace = none;
    max_cycles = 10_000_000;
    reset_cycles = 5;
    seed = 1;
    stall_probability = host.zero_probability;
    stats = false;
    help = false;
  }

  abbrev pub number_or_throw : {A : Type 0} → Option A → Result A
  number_or_throw none = err invalid_argument
  number_or_throw (some value) = ok value

  unfoldable pub parse_number : String → Result ℕ
  parse_number text = do
    throw_if (str_eq text "" || starts_at b'-' text) invalid_argument
    number_or_throw (host.strtoull text)

  unfoldable pub parse_probability : String → Result P
  parse_probability text = do
    value ← number_or_throw (host.strtod text)
    throw_if (host.is_outside value) invalid_argument
    ok value

  unfoldable pub apply_switch : Switch → Options P → Result (Options P)
  apply_switch help_switch options = ok (record options { help = true })
  apply_switch stats_switch options = ok (record options { stats = true })
  apply_switch plusarg_switch options = ok options
  apply_switch unknown_switch options = err invalid_argument

  unfoldable pub apply_setting :
      Setting → String → Options P → PlatformSpec → Result (Options P × PlatformSpec)
  unfolding parse_number parse_probability set_spec
  apply_setting elf_setting text options spec =
      ok (record options { elves = options.elves ++ text ∷ [] }, spec)
  apply_setting load_setting text options spec =
      ok (record options { raw_images = options.raw_images ++ text ∷ [] }, spec)
  apply_setting trace_setting text options spec = ok (record options { trace = some text }, spec)
  apply_setting max_cycles_setting text options spec = do
    n ← parse_number text
    ok (record options { max_cycles = n }, spec)
  apply_setting reset_cycles_setting text options spec = do
    n ← parse_number text
    ok (record options { reset_cycles = n }, spec)
  apply_setting seed_setting text options spec = do
    n ← parse_number text
    ok (record options { seed = n }, spec)
  apply_setting stall_setting text options spec = do
    p ← parse_probability text
    ok (record options { stall_probability = p }, spec)
  apply_setting (spec_setting prefix) text options spec = do
    spec' ← set_spec (str_append prefix text) spec
    ok (options, spec')

  -- The loop over the arguments behind the program's name.
  unfoldable pub parse_arguments :
      List String → Options P → PlatformSpec → Result (Options P × PlatformSpec)
  unfolding setting_of switch_of apply_switch apply_setting
  parse_arguments [] options spec = ok (options, spec)
  parse_arguments (name ∷ []) options spec = elim (setting_of name) [
    | none ↦ do options' ← apply_switch (switch_of name) options; ok (options', spec)
    | some setting ↦ err invalid_argument
  ]
  parse_arguments (name ∷ text ∷ arguments) options spec = elim (setting_of name) [
    | none ↦ do
      options' ← apply_switch (switch_of name) options
      parse_arguments (text ∷ arguments) options' spec
    | some setting ↦ do
      (options', spec') ← apply_setting setting text options spec
      parse_arguments arguments options' spec'
  ]

  -- `tracing` is `AXI_TB_TRACE_ENABLED`.
  unfoldable pub parse_options :
      Bool → List String → PlatformSpec → Result (Options P × PlatformSpec)
  unfolding default_options parse_arguments
  parse_options tracing arguments spec = do
    (options, spec') ← parse_arguments arguments default_options spec
    throw_if (options.max_cycles == 0) invalid_argument
    throw_if (not tracing && elim options.trace [ none ↦ false | some path ↦ true ])
        invalid_argument
    ok (options, spec')
