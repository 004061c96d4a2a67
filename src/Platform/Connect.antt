-- ===== src/Platform/Connect.antt =====
-- `Platform::connect`, the constructor and the cycles of `Platform` in src/platform.cpp.
use Prim.Native.String.{String}
use verilator_axi_testbench.Common.{
  ℕ, Bool, false, not, ◌==◌, ◌!=◌, ◌&&◌, ◌||◌, ltb, if◌then◌else◌, List, [], ◌∷◌, Option, none,
  some, length, get_elem?, set, Result, ok, invalid_argument, throw_if, ◌>>=◌, ◌>>◌,
}
use verilator_axi_testbench.Device.{Device}
use verilator_axi_testbench.Space.{empty_space, freeze, device_at}
use verilator_axi_testbench.Platform.Text.{endpoint}
use verilator_axi_testbench.Platform.Registry.{DeviceRegistry, found}
use verilator_axi_testbench.Platform.Spec.{ConnectionSpec, PlatformSpec}
use verilator_axi_testbench.Platform.Order.{order_devices}
use verilator_axi_testbench.Platform.Build.{
  Pins, Driver, Platform, ids_of, device_index, has_driver, map_all, configure_all, create_all,
  collect_images,
}

module _ {ℓ} {D : Type ℓ} ⦃pins : Pins D⦄ where
  -- `Platform::output`, whose result is the width alone.
  unfoldable pub check_output : List String → List D → String → ℕ → Result (Unit {0})
  unfolding endpoint device_index
  check_output ids devices name width = do
    (id, port) ← endpoint name
    index ← device_index ids id
    d ← device_at (get_elem? devices index)
    actual ← found (pins.output_width d port)
    throw_if (actual != width || width == 0 || ltb 64 width) invalid_argument

  -- The loop of `connect` over the connections: the pairs of devices, and the drivers of the pins.
  unfoldable pub join_all :
      List String → List D → List ConnectionSpec → List Driver → Result (List (ℕ × ℕ) × List Driver)
  unfolding endpoint device_index has_driver check_output
  join_all ids devices [] drivers = ok ([], drivers)
  join_all ids devices (c ∷ connections) drivers = do
    (src_id, src_port) ← endpoint c.source
    (dst_id, dst_port) ← endpoint c.destination
    src ← device_index ids src_id
    dst ← device_index ids dst_id
    d ← device_at (get_elem? devices dst)
    (pin, width) ← found (pins.input d dst_port)
    throw_if (has_driver dst pin drivers) invalid_argument
    check_output ids devices c.source width
    (edges, drivers') ←
        join_all ids devices connections
          (record { device = dst; pin = pin; source = c.source } ∷ drivers)
    ok ((src, dst) ∷ edges, drivers')

  unfoldable pub connect : List String → List D → PlatformSpec → Result (List ℕ × List Driver)
  unfolding join_all order_devices
  connect ids devices spec = do
    (edges, drivers) ← join_all ids devices spec.connections []
    order ← order_devices (length devices) edges
    ok (order, drivers)

module _ {ℓ} {D : Type ℓ} ⦃ops : Device D⦄ where
  abbrev pub put_at : (D → D) → ℕ → List D → Option D → List D
  put_at f index devices none = devices
  put_at f index devices (some d) = set devices index (f d)

  -- `for (auto *d : order_) ...`, for a call that does not throw.
  unfoldable pub each_in_order : (D → D) → List ℕ → List D → List D
  each_in_order f [] devices = devices
  each_in_order f (index ∷ order) devices =
      each_in_order f order (put_at f index devices (get_elem? devices index))

  unfoldable pub settle_all : List ℕ → List D → List D
  unfolding each_in_order
  settle_all order devices = each_in_order ops.settle order devices

  unfoldable pub reset_all : List ℕ → List D → List D
  unfolding each_in_order settle_all
  reset_all order devices = settle_all order (each_in_order ops.reset order devices)

  unfoldable pub tick_all : List ℕ → List D → Result (List D)
  tick_all [] devices = ok devices
  tick_all (index ∷ order) devices = do
    d ← device_at (get_elem? devices index)
    d' ← ops.tick d
    tick_all order (set devices index d')

  unfoldable pub begin_cycle : Bool → Platform D → Platform D
  unfolding reset_all
  begin_cycle reset_active p = record p {
    devices = if reset_active && not p.was_reset then reset_all p.order p.devices else p.devices;
    was_reset = reset_active;
  }

  unfoldable pub end_cycle : Bool → Platform D → Result (Platform D)
  unfolding tick_all settle_all
  end_cycle reset_active p = if reset_active then ok p else do
    devices ← tick_all p.order p.devices
    ok (record p { devices = settle_all p.order devices })

  -- The constructor.
  unfoldable pub make_platform :
      ⦃pins : Pins D⦄ → DeviceRegistry D → PlatformSpec → ℕ → Result (Platform D)
  unfolding configure_all create_all map_all freeze collect_images connect reset_all
  make_platform registry spec address_bits =
      let ids = ids_of spec.devices in
      do
        throw_if (address_bits != 32 && address_bits != 64) invalid_argument
        configs ← configure_all registry spec.devices []
        devices ← create_all registry configs spec.devices
        space ← map_all address_bits ids spec.mappings empty_space
        images ← collect_images registry configs spec.mappings spec.devices
        (order, drivers) ← connect ids devices spec
        ok (record {
          ids = ids;
          devices = reset_all order devices;
          order = order;
          space = freeze space;
          images = images;
          drivers = drivers;
          was_reset = false;
        })
