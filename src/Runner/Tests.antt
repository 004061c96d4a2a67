-- ===== src/Runner/Tests.antt =====
-- The command line of src/sim_main.cpp on concrete arguments.
use text.Mathlib.Text.{◌==◌ as str_eq}
use verilator_axi_testbench.Common.{
  ℕ, ◌≡◌, refl, true, false, [], ◌∷◌, none, some, ok, err, invalid_argument, if◌then◌else◌, map,
  ◌>>=◌, ltb,
}
use verilator_axi_testbench.Platform.Spec.{PlatformSpec, default_platform, default_map}
use verilator_axi_testbench.Runner.{HostNumbers, default_options, parse_options}

-- Probabilities are counted in hundredths.
abbrev host : HostNumbers ℕ
host = record {
  strtoull = λ text. if str_eq text "12" then some 12 else if str_eq text "0" then some 0 else none;
  strtod =
      λ text. if str_eq text "0.25" then some 25 else if str_eq text "2" then some 200 else none;
  is_outside = λ value. ltb 100 value;
  zero_probability = 0;
}

abbrev default_platform_spec : PlatformSpec
default_platform_spec = default_platform default_map

accepted :
    (do
      (options, spec) ←
          parse_options host false
            ("--max-cycles" ∷ "12" ∷ "+verbose" ∷ "--stats" ∷ "--load" ∷ "ram=a" ∷ [])
            default_platform_spec
      ok options)
    ≡ ok
        (record (default_options host) { max_cycles = 12; stats = true; raw_images = "ram=a" ∷ [] })
unfolding parse_options default_options
accepted = refl

-- An option is set through the description.
set_through :
    (do
      (options, spec) ← parse_options host false ("--uart-in" ∷ "a.txt" ∷ []) default_platform_spec
      ok (map (λ d. d.properties) spec.devices))
    ≡ ok (
        (("size", "65536") ∷ [])
        ∷ (("size", "134217728") ∷ [])
        ∷ (("input", "a.txt") ∷ [])
        ∷ []
        ∷ [])
unfolding parse_options default_platform
set_through = refl

-- A run of no cycles, a missing value, an unknown option, a probability above 1 and a trace without tracing.
refused :
    (parse_options host true ("--max-cycles" ∷ "0" ∷ []) default_platform_spec
      ≡ err invalid_argument)
    × (parse_options host true ("--seed" ∷ []) default_platform_spec ≡ err invalid_argument)
    × (parse_options host true ("--fast" ∷ []) default_platform_spec ≡ err invalid_argument)
    × (parse_options host true ("--stall-probability" ∷ "2" ∷ []) default_platform_spec
        ≡ err invalid_argument)
    × (parse_options host false ("--trace" ∷ "t" ∷ []) default_platform_spec ≡ err invalid_argument)
unfolding parse_options
refused = (refl, refl, refl, refl, refl)
