-- ===== src/Fuxi/Tests.antt =====
-- The interrupt devices of src/examples/fuxi/sim/interrupt_devices.cpp on concrete states.
use verilator_axi_testbench.Common.{
  ℕ, ◌≡◌, refl, ok, err, invalid_argument, length, ◌>>=◌, map, ◌==◌, ◌!=◌, ◌&&◌, if◌then◌else◌, [],
  ◌∷◌, none, some, get_or, replicate,
}
use verilator_axi_testbench.Fuxi.{access}
use verilator_axi_testbench.Fuxi.Clint.{Clint, clint_reset, clint_tick, clint_write}
use verilator_axi_testbench.Fuxi.Timer.{IsTimed, clint_write-IsTimed}
use verilator_axi_testbench.Fuxi.Plic.{Plic, plic_settle, claim}
use verilator_axi_testbench.Fuxi.Best.{IsBest, claim-IsBest}
use verilator_axi_testbench.Fuxi.Pins.{index, plic_input, clint_output}
use verilator_axi_testbench.Fuxi.Definition.{
  FuxiMap, InterruptDevice, clint, create_clint, register_devices, defaults,
}
use verilator_axi_testbench.Platform.Registry.{configure}
use verilator_axi_testbench.Platform.Spec.{PlatformSpec, default_map}

abbrev timer : Clint
timer = record { divider = 2; phase = 1; compare = 4; time = 3; timer = 0; software = 0 }

clint_write-IsTimed_example :
    IsTimed (clint_reset timer)
    × IsTimed (clint_tick timer)
    × IsTimed (clint_write timer 0x4000 (3 ∷ 0 ∷ 0 ∷ 0 ∷ []) (1 ∷ 1 ∷ 1 ∷ 1 ∷ [])).1
clint_write-IsTimed_example =
    clint_write-IsTimed timer 0x4000 (3 ∷ 0 ∷ 0 ∷ 0 ∷ []) (1 ∷ 1 ∷ 1 ∷ 1 ∷ []) refl

-- A tick brings the time to the compare register.
timer_expires : (clint_tick timer).timer ≡ 1
unfolding clint_tick
timer_expires = refl

upper_half :
    access 0x4000 (0 ∷ 0 ∷ 0 ∷ 0 ∷ 1 ∷ 1 ∷ 1 ∷ 1 ∷ [])
    ≡ some (record { address = 0x4004; lane = 4; size = 4 })
unfolding access
upper_half = refl

unaligned : access 0x4002 (1 ∷ 1 ∷ 1 ∷ 1 ∷ []) ≡ none
unfolding access
unaligned = refl

-- Sources 1, 2 and 3 are pending, with priorities 2, 5 and 5.
abbrev waiting : Plic
waiting = record {
  sources = 3;
  contexts = 1;
  inputs = 0 ∷ 1 ∷ 1 ∷ 1 ∷ [];
  irqs = 1 ∷ [];
  priority = 0 ∷ 2 ∷ 5 ∷ 5 ∷ [];
  threshold = 0 ∷ [];
  enables = (14 ∷ replicate 31 0) ∷ [];
  pending = 0 ∷ 1 ∷ 1 ∷ 1 ∷ [];
  busy = 0 ∷ 1 ∷ 1 ∷ 1 ∷ [];
}

claim_run : (claim waiting 0).0 ≡ 2
unfolding claim
claim_run = refl

claim-IsBest_example :
    IsBest waiting 0 4 (claim waiting 0).0
    × ((i : ℕ)
        → get_or (claim waiting 0).1.pending i 0 ≡ (
            if (claim waiting 0).0 != 0 && (claim waiting 0).0 == i
            then 0
            else get_or waiting.pending i 0))
    × ((claim waiting 0).1.busy ≡ waiting.busy)
claim-IsBest_example = claim-IsBest waiting 0 refl

-- The source stays in service until its completion, so that its level does not make it pending again.
in_service : get_or (plic_settle (claim waiting 0).1).pending 2 0 ≡ 0
unfolding claim plic_settle
in_service = refl

index_run : index "source10" "source" 32 ≡ some 10
unfolding index
index_run = refl

-- A number that is no input, a text behind the number, and no number.
index_none :
    (plic_input waiting "source4" ≡ none)
    × (plic_input waiting "source0" ≡ none)
    × (index "source1x" "source" 32 ≡ none)
    × (index "source" "source" 32 ≡ none)
unfolding index plic_input
index_none = (refl, refl, refl, refl)

time_pin : clint_output timer "mtime" ≡ some (64, 3)
unfolding clint_output
time_pin = refl

abbrev fuxi_map : FuxiMap
fuxi_map = record {
  clint_base = 0x200_0000;
  clint_size = 0x1_0000;
  plic_base = 0xc00_0000;
  plic_size = 0x400_0000;
  uart_irq = 10;
}

-- The description with both interrupt devices, and the UART wired to source 10.
defaults_run :
    (spec : PlatformSpec) × (defaults fuxi_map default_map ≡ ok spec)
    × (length spec.devices ≡ 6)
    × (map (λ c. c.destination) spec.connections ≡ "plic.source10" ∷ [])
unfolding defaults
defaults_run = (_, refl, refl, refl)

create_clint_run :
    create_clint (("divider", "2") ∷ []) ≡ ok (clint (clint_reset (record timer { divider = 2 })))
unfolding create_clint clint_reset
create_clint_run = refl

-- A configuration from the registry, by default and out of bounds.
configure_run :
    ((do
      registry ← register_devices (λ (d : InterruptDevice). d) []
      configure registry "riscv-plic" [])
      ≡ ok (("sources", "31") ∷ ("contexts", "2") ∷ []))
    × ((do
      registry ← register_devices (λ (d : InterruptDevice). d) []
      configure registry "riscv-plic" (("contexts", "65") ∷ []))
        ≡ err invalid_argument)
unfolding register_devices configure
configure_run = (refl, refl)
