-- ===== src/Device.antt =====
-- `Device` of src/device.hpp: the interface that the bus, the loader and the platform use, as a
-- record of operations over a device's state, and the accessors that every device shares. A hook
-- that may throw returns a `Result`. A span is a list of bytes; a hook that fills one returns it.
pub mod Loading
use verilator_axi_testbench.Common.{
  ℕ, Bool, List, [], ◌∷◌, ◌!=◌, Result, ok, invalid_argument, throw_if, ◌>>◌, length, replicate,
}
use verilator_axi_testbench.Axi.{Response, okay}

pub record Device {ℓ} (D : Type ℓ) : Type ℓ where
  -- offset, bytes to fill, enables
  pub read_impl : D → ℕ → List ℕ → List ℕ → Result (Response × List ℕ × D)
  -- offset, bytes, strobes
  pub write_impl : D → ℕ → List ℕ → List ℕ → Result (Response × D)
  pub load : D → ℕ → List ℕ → Response × D
  pub loadable : D → Bool
  pub can_load : D → ℕ → ℕ → Bool
  pub supports_exclusive : D → Bool
  pub supports_burst : D → Bool
  pub is_exit : D → Bool
  pub exit_code : D → ℕ
  pub reset : D → D
  pub tick : D → Result D
  pub settle : D → D

module _ {ℓ} {D : Type ℓ} ⦃ops : Device D⦄ where
  unfoldable pub read_nonempty : D → ℕ → List ℕ → List ℕ → Result (Response × List ℕ × D)
  read_nonempty d offset [] enable = ok (okay, [], d)
  read_nonempty d offset (x ∷ xs) enable = ops.read_impl d offset (x ∷ xs) enable

  -- `Device::read`, of `count` bytes.
  unfoldable pub read : D → ℕ → ℕ → List ℕ → Result (Response × List ℕ × D)
  unfolding read_nonempty
  read d offset count enable = do
    throw_if (count != length enable) invalid_argument
    read_nonempty d offset (replicate count 0) enable

  unfoldable pub write_nonempty : D → ℕ → List ℕ → List ℕ → Result (Response × D)
  write_nonempty d offset [] strobe = ok (okay, d)
  write_nonempty d offset (x ∷ xs) strobe = ops.write_impl d offset (x ∷ xs) strobe

  -- `Device::write`.
  unfoldable pub write : D → ℕ → List ℕ → List ℕ → Result (Response × D)
  unfolding write_nonempty
  write d offset bytes strobe = do
    throw_if (length bytes != length strobe) invalid_argument
    write_nonempty d offset bytes strobe
