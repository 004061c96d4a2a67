-- ===== src/Axi/Payload.antt =====
-- The defaulted comparisons of src/axi.hpp.
use verilator_axi_testbench.Common.{ℕ, ◌≡◌, refl, ◌↔◌, true, List, [], ◌∷◌, arith}
use verilator_axi_testbench.Axi.{
  AddressPayload, WriteDataPayload, same_bytes, same_address, same_write_data,
}

pub same_bytes-true : (xs ys : List ℕ) → same_bytes xs ys ≡ true → xs ≡ ys
unfolding same_bytes
same_bytes-true [] [] h = refl
same_bytes-true [] (y ∷ ys) h = cc
same_bytes-true (x ∷ xs) [] h = cc
same_bytes-true (x ∷ xs) (y ∷ ys) h = ground (arith, same_bytes-true xs ys)

pub same_bytes_refl : (xs : List ℕ) → same_bytes xs xs ≡ true
unfolding same_bytes
same_bytes_refl [] = refl
same_bytes_refl (x ∷ xs) = ground (arith, same_bytes_refl xs)

-- Two address payloads compare equal exactly when every field agrees.
pub same_address_iff : (a b : AddressPayload) → (same_address a b ≡ true) ↔ (a ≡ b)
unfolding same_address
same_address_iff a b = (λ h. ground arith, λ e. rw e (ground arith))

pub same_write_data_iff : (a b : WriteDataPayload) → (same_write_data a b ≡ true) ↔ (a ≡ b)
unfolding same_write_data
same_write_data_iff a b = (
  λ h. ground (arith, same_bytes-true a.bytes b.bytes, same_bytes-true a.strobe b.strobe),
  λ e. rw e (ground (arith, same_bytes_refl b.bytes, same_bytes_refl b.strobe)),
)
