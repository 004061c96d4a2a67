-- ===== src/Device/Loading.antt =====
-- What the loader of src/elf_loader.cpp relies on in the `load` and `can_load` of a device.
use verilator_axi_testbench.Common.{
  ℕ, ◌+◌, ◌-◌, ◌≤◌, ◌≡◌, true, ◌&&◌, ltb, leb, if◌then◌else◌, List, [], ◌++◌, length, get_or,
}
use verilator_axi_testbench.Axi.{response_is_success}
use verilator_axi_testbench.Device.{Device}

pub record LoadLaws {ℓ} (D : Type ℓ) ⦃ops : Device D⦄ : Type ℓ where
  -- A range that may be loaded may be loaded in parts.
  pub can_load_part :
      (d : D) (o n p k : ℕ)
      → ops.can_load d o n ≡ true
      → o ≤ p
      → p + k ≤ o + n
      → ops.can_load d p k ≡ true
  pub load_accepts :
      (d : D) (o : ℕ) (xs : List ℕ)
      → ops.loadable d ≡ true
      → ops.can_load d o (length xs) ≡ true
      → response_is_success (ops.load d o xs).0 ≡ true
  -- A load changes neither answer.
  pub load_loadable :
      (d : D) (o : ℕ) (xs : List ℕ) → ops.loadable (ops.load d o xs).1 ≡ ops.loadable d
  pub load_can_load :
      (d : D) (o : ℕ) (xs : List ℕ) (p k : ℕ)
      → ops.can_load (ops.load d o xs).1 p k ≡ ops.can_load d p k
  pub load_empty : (d : D) (o : ℕ) → (ops.load d o []).1 ≡ d
  -- Two loads one after the other are one load of the bytes of both.
  pub load_append :
      (d : D) (o : ℕ) (xs ys : List ℕ)
      → ops.can_load d o (length xs + length ys) ≡ true
      → (ops.load d o (xs ++ ys)).1 ≡ (ops.load (ops.load d o xs).1 (o + length xs) ys).1

-- The bytes of a device, where a load puts its bytes and changes no other.
pub record LoadContents {ℓ} (D : Type ℓ) ⦃ops : Device D⦄ : Type ℓ where
  pub peek : D → ℕ → ℕ
  pub peek_load :
      (d : D) (o : ℕ) (xs : List ℕ) (j : ℕ)
      → ops.can_load d o (length xs) ≡ true
      → peek (ops.load d o xs).1 j
        ≡ (if leb o j && ltb j (o + length xs) then get_or xs (j - o) 0 else peek d j)
