-- ===== src/Fuxi/Definition.antt =====
-- `PlatformDefinition` of src/examples/fuxi/sim/fuxi_platform.cpp. The addresses and the interrupt number,
-- which the build writes to fuxi_platform.h, are a parameter.
use Prim.Native.String.{◌++◌ as str_append}
use verilator_axi_testbench.Common.{
  ℕ, ◌%◌, List, [], ◌∷◌, ◌++◌, some, Result, ok, ◌>>=◌, u64_max, u32_mod,
}
use verilator_axi_testbench.Platform.Text.{to_string}
use verilator_axi_testbench.Platform.Registry.{
  DeviceOption, DeviceRegistry, Properties, unsigned_kind, add, config_number,
}
use verilator_axi_testbench.Platform.Spec.{DefaultMap, PlatformSpec, default_platform, map_spec}
use verilator_axi_testbench.Fuxi.Clint.{Clint, make_clint}
use verilator_axi_testbench.Fuxi.Plic.{Plic, make_plic}

pub record FuxiMap : Type 0 where
  pub clint_base : ℕ
  pub clint_size : ℕ
  pub plic_base : ℕ
  pub plic_size : ℕ
  pub uart_irq : ℕ

pub data InterruptDevice : Type 0 where
  clint : Clint → InterruptDevice
  plic : Plic → InterruptDevice

abbrev pub clint_options : List DeviceOption
clint_options =
    record {
      name = "divider";
      kind = unsigned_kind;
      default_value = "1";
      help = "CPU cycles per mtime tick";
      minimum = 1;
      maximum = u64_max;
    }
    ∷ []

abbrev pub plic_options : List DeviceOption
plic_options =
    record {
      name = "sources";
      kind = unsigned_kind;
      default_value = "31";
      help = "External interrupt sources";
      minimum = 1;
      maximum = 1023;
    }
    ∷ record {
      name = "contexts";
      kind = unsigned_kind;
      default_value = "2";
      help = "Interrupt target contexts";
      minimum = 1;
      maximum = 64;
    }
    ∷ []

unfoldable pub create_clint : Properties → Result InterruptDevice
unfolding config_number make_clint
create_clint c = do divider ← config_number c "divider"; d ← make_clint divider; ok (clint d)

unfoldable pub create_plic : Properties → Result InterruptDevice
unfolding config_number make_plic
create_plic c = do
  sources ← config_number c "sources"
  contexts ← config_number c "contexts"
  d ← make_plic (sources % u32_mod) (contexts % u32_mod)
  ok (plic d)

-- The devices of a platform are of a type `D` that the interrupt devices are part of.
module _ {ℓ} {D : Type ℓ} (embed : InterruptDevice → D) where
  unfoldable pub register_devices : DeviceRegistry D → Result (DeviceRegistry D)
  unfolding add create_clint create_plic
  register_devices registry = do
    with_clint ←
        add "riscv-clint"
          (record {
            options = clint_options;
            create = some (λ c. do d ← create_clint c; ok (some (embed d)));
            image_option = "";
          })
          registry
    add "riscv-plic"
        (record {
          options = plic_options;
          create = some (λ c. do d ← create_plic c; ok (some (embed d)));
          image_option = "";
        })
        with_clint

unfoldable pub defaults : FuxiMap → DefaultMap → Result PlatformSpec
unfolding default_platform map_spec to_string
defaults fuxi layout =
    let spec = default_platform layout in
    do
      with_clint ← map_spec "clint" fuxi.clint_base fuxi.clint_size (record spec {
        devices =
            spec.devices
            ++ record { id = "clint"; type = "riscv-clint"; properties = [] }
              ∷ record { id = "plic"; type = "riscv-plic"; properties = [] }
              ∷ [];
      })
      with_plic ← map_spec "plic" fuxi.plic_base fuxi.plic_size with_clint
      ok (record with_plic {
        connections =
            with_plic.connections
            ++ record {
              source = "uart.irq";
              destination = str_append "plic.source" (to_string fuxi.uart_irq);
            }
              ∷ [];
      })
