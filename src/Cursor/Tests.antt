-- ===== src/Cursor/Tests.antt =====
-- The theorems on `BurstCursor` of src/axi.hpp at concrete bursts.
use verilator_axi_testbench.Common.{
  ℕ, zero, suc, ◌+◌, ◌/◌, ◌<◌, ◌≡◌, ◌↔◌, refl, inl, inr, leb, if◌then◌else◌, ok, err, arith,
  protocol_error, address_overflow, u64_mod, get_or,
}
use verilator_axi_testbench.Axi.{AddressPayload, default_address, wrap}
use verilator_axi_testbench.Cursor.{make_cursor, beat_address, mask_at, validate_4k_boundary}
use verilator_axi_testbench.Cursor.Shape.{IsLegal, cursor_of, make_cursor_iff}
use verilator_axi_testbench.Cursor.Addresses.{align, walk, beat_address-walk}
use verilator_axi_testbench.Cursor.Lanes.{InBeat, mask_at-top}
use verilator_axi_testbench.Cursor.Page.{validate_4k_boundary_iff}

-- Four words that start in the middle of their window.
abbrev wrapping : AddressPayload
wrapping = record default_address { address = 0x1008; length = 3; size = 2; burst = wrap }

wrapping-IsLegal : IsLegal 4 wrapping
wrapping-IsLegal = record {
  representable = omega arith;
  fits_bus = omega arith;
  burst_legal = (inl (inr refl), refl);
}

make_cursor_iff_example :
    (make_cursor 4 wrapping ≡ ok (cursor_of wrapping))
    ↔ (IsLegal 4 wrapping × (cursor_of wrapping ≡ cursor_of wrapping))
make_cursor_iff_example = make_cursor_iff 4 wrapping (cursor_of wrapping)

-- The third beat is the one that has wrapped.
beat_address-walk_example : beat_address (cursor_of wrapping) 2 ≡ (
    if leb u64_mod (walk wrapping 2)
    then err (protocol_error address_overflow)
    else ok (walk wrapping 2))
beat_address-walk_example = beat_address-walk 4 wrapping 2 wrapping-IsLegal (omega arith)

walk_wraps : walk wrapping 2 ≡ 0x1000
unfolding walk
walk_wraps = refl

abbrev last_word : ℕ
last_word = 0xffff_ffff_ffff_fffc

mask_at-top_example : get_or (mask_at 4 4 last_word) 0 0 ≡ 0
mask_at-top_example =
    mask_at-top 4 2 4 2 last_word refl (omega arith) refl (omega arith) (omega arith) refl 0
      (omega arith)

abbrev single : AddressPayload
single = record default_address { address = 0x1008; size = 2 }

single-IsLegal : IsLegal 4 single
single-IsLegal = record { representable = omega arith; fits_bus = omega arith; burst_legal = tt }

single-room : (i : ℕ) → i < 1 → align (walk single i) 4 + 4 < u64_mod
unfolding walk
single-room zero h = omega arith
single-room (suc i) h = absurd (omega arith)

validate_4k_boundary_iff_example :
    (validate_4k_boundary 4 (cursor_of single) ≡ ok tt)
    ↔ ((i x : ℕ) → i < 1 → InBeat (walk single i) 4 x → x / 4096 ≡ 0x1008 / 4096)
validate_4k_boundary_iff_example =
    validate_4k_boundary_iff 4 2 single refl (omega arith) single-IsLegal single-room
