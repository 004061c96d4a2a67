-- ===== src/Cursor/Shape.antt =====
-- Which address payloads the constructor of `BurstCursor` accepts, and what a cursor then is.
use verilator_axi_testbench.Common.Bits.{bit_and-mask}
use verilator_axi_testbench.Common.{ℕ, ◌+◌, ◌%◌, ◌^◌, ◌≤◌, ◌<◌, ◌≡◌, refl, ◌↔◌, ◌⊎◌, ok, arith}
use verilator_axi_testbench.Axi.{AddressPayload, Burst, fixed, increment, wrap, reserved}
use verilator_axi_testbench.Cursor.{BurstCursor, make_cursor, validate_wrap, validate_shape}

-- The lengths of a WRAP burst.
abbrev pub IsWrapLength : ℕ → Type 0
IsWrapLength beats = ((beats ≡ 2) ⊎ (beats ≡ 4)) ⊎ ((beats ≡ 8) ⊎ (beats ≡ 16))

-- What AXI asks of the shape of each kind of burst.
abbrev pub IsLegalBurst : Burst → ℕ → ℕ → ℕ → Type 0
IsLegalBurst fixed address beats beat_bytes = beats ≤ 16
IsLegalBurst increment address beats beat_bytes = Unit
IsLegalBurst wrap address beats beat_bytes = IsWrapLength beats × (address % beat_bytes ≡ 0)
IsLegalBurst reserved address beats beat_bytes = ⊥

-- A transfer of a legal shape over a bus of `bus` bytes.
pub record IsLegal (bus : ℕ) (p : AddressPayload) : Type 0 where
  pub representable : p.size < 64
  pub fits_bus : 2 ^ p.size ≤ bus
  pub burst_legal : IsLegalBurst p.burst p.address (p.length + 1) (2 ^ p.size)

abbrev pub cursor_of : AddressPayload → BurstCursor
cursor_of p = record { payload = p; beats = p.length + 1; beat_bytes = 2 ^ p.size }

wrap-legal :
    (p : AddressPayload)
    → (validate_wrap (cursor_of p) ≡ ok tt)
      ↔ (IsWrapLength (p.length + 1) × (p.address % 2 ^ p.size ≡ 0))
unfolding validate_wrap
wrap-legal p = rw (bit_and-mask p.size p.address) (ground arith)

burst-legal :
    (bus : ℕ) (p : AddressPayload) (b : Burst)
    → p.burst ≡ b
    → 2 ^ p.size ≤ bus
    → (validate_shape bus (cursor_of p) ≡ ok tt)
      ↔ IsLegalBurst b p.address (p.length + 1) (2 ^ p.size)
unfolding validate_shape
burst-legal bus p fixed e h = rw e (ground arith)
burst-legal bus p increment e h = rw e (ground arith)
burst-legal bus p wrap e h = rw e (ground (arith, wrap-legal p))
burst-legal bus p reserved e h = rw e (ground arith)

-- The constructor succeeds exactly on the transfers of a legal shape: beats of at most the bus, and
-- at most 16 of them in a FIXED burst, 2, 4, 8 or 16 from an aligned address in a WRAP burst, any in
-- an INCR burst, and no reserved burst. The cursor then has `length + 1` beats of `2 ^ size` bytes. Where
-- the burst lies is not tested here.
pub make_cursor_iff :
    (bus : ℕ) (p : AddressPayload) (c : BurstCursor)
    → (make_cursor bus p ≡ ok c) ↔ (IsLegal bus p × (c ≡ cursor_of p))
unfolding make_cursor
make_cursor_iff bus p c = (
  λ h. ground (arith, burst-legal bus p p.burst refl),
  λ g. let (l, e) = g in ground (arith, burst-legal bus p p.burst refl l.fits_bus),
)
