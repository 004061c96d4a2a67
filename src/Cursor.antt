-- ===== src/Cursor.antt =====
-- `BurstCursor` of src/axi.hpp: the addresses and byte lanes of the beats of a burst, over a bus of
-- `bus` bytes (the template argument `DataBytes`, a power of two).
pub mod Shape
pub mod Addresses
pub mod Lanes
pub mod Page
mod Tests
use verilator_axi_testbench.Common.Bits.{and_not}
use verilator_axi_testbench.Common.{
  ℕ, zero, suc, ◌+◌, ◌-◌, ◌*◌, ◌%◌, ◌^◌, Bool, true, false, not, ◌==◌, ◌!=◌, ◌&&◌, ltb, leb,
  if◌then◌else◌, List, [], ◌∷◌, tabulate, Result, ok, err, protocol_error, out_of_range,
  size_not_representable, size_exceeds_bus, reserved_burst, fixed_too_long, wrap_length,
  wrap_unaligned, address_overflow, crosses_4k, throw_if, ◌>>=◌, ◌>>◌, bit_and, add_u64, u64_max,
  ◌>>>◌,
}
use verilator_axi_testbench.Axi.{
  AddressPayload, Burst, fixed, increment, wrap, reserved, same_burst,
}

pub record BurstCursor : Type 0 where
  pub payload : AddressPayload
  pub beats : ℕ
  pub beat_bytes : ℕ

-- `checked_beat_bytes`; `size_t` has 64 bits.
unfoldable pub checked_beat_bytes : ℕ → Result ℕ
checked_beat_bytes size = do
  throw_if (leb 64 size) (protocol_error size_not_representable)
  ok (2 ^ size)

-- The conditions that `validate_shape` puts on a WRAP burst.
unfoldable pub validate_wrap : BurstCursor → Result (Unit {0})
validate_wrap c = do
  throw_if (c.beats != 2 && c.beats != 4 && c.beats != 8 && c.beats != 16)
      (protocol_error wrap_length)
  throw_if (bit_and c.payload.address (c.beat_bytes - 1) != 0) (protocol_error wrap_unaligned)

unfoldable pub validate_shape : ℕ → BurstCursor → Result (Unit {0})
unfolding validate_wrap
validate_shape bus c = do
  throw_if (ltb bus c.beat_bytes) (protocol_error size_exceeds_bus)
  throw_if (same_burst c.payload.burst reserved) (protocol_error reserved_burst)
  throw_if (same_burst c.payload.burst fixed && ltb 16 c.beats) (protocol_error fixed_too_long)
  if same_burst c.payload.burst wrap then validate_wrap c else ok tt

-- The constructor. `length` is an eight-bit field, so `length + 1` is at most 256.
unfoldable pub make_cursor : ℕ → AddressPayload → Result BurstCursor
unfolding checked_beat_bytes validate_shape
make_cursor bus payload = do
  beat_bytes ← checked_beat_bytes payload.size
  let c : BurstCursor = record {
    payload = payload;
    beats = payload.length + 1;
    beat_bytes = beat_bytes;
  }
  validate_shape bus c
  ok c

-- The address of a beat before it is narrowed to 64 bits, in 128-bit arithmetic, which none of
-- these sums leaves: a start below 2 ^ 64, at most 256 beats of at most 2 ^ 63 bytes.
unfoldable pub wide_address : BurstCursor → Burst → ℕ → Result ℕ
wide_address c fixed index = ok c.payload.address
wide_address c increment index =
    let start = c.payload.address in
    let aligned = and_not start (c.beat_bytes - 1) in
    ok (if index == 0 then start else aligned + index * c.beat_bytes)
wide_address c wrap index =
    let start = c.payload.address in
    let boundary = c.beats * c.beat_bytes in
    let base = and_not start (boundary - 1) in
    ok (base + (start - base + index * c.beat_bytes) % boundary)
wide_address c reserved index = err (protocol_error reserved_burst)

unfoldable pub beat_address : BurstCursor → ℕ → Result ℕ
unfolding wide_address
beat_address c index = do
  throw_if (leb c.beats index) out_of_range
  result ← wide_address c c.payload.burst index
  throw_if (ltb u64_max result) (protocol_error address_overflow)
  ok result

-- The mask of `lane_mask` for a beat at `address`.
unfoldable pub mask_at : ℕ → ℕ → ℕ → List ℕ
mask_at bus beat_bytes address =
    let aligned_to_size = and_not address (beat_bytes - 1) in
    let first = address in
    let last = add_u64 aligned_to_size beat_bytes in
    let bus_base = and_not address (bus - 1) in
    tabulate bus λ lane.
      let byte_address = add_u64 bus_base lane in
      if leb first byte_address && ltb byte_address last then 1 else 0

unfoldable pub lane_mask : ℕ → BurstCursor → ℕ → Result (List ℕ)
unfolding mask_at
lane_mask bus c index = do address ← beat_address c index; ok (mask_at bus c.beat_bytes address)

unfoldable pub bus_word_address : ℕ → BurstCursor → ℕ → Result ℕ
bus_word_address bus c index = do address ← beat_address c index; ok (and_not address (bus - 1))

-- The inner loop of `validate_4k_boundary`, from lane `lane` on.
unfoldable pub check_lanes : ℕ → ℕ → ℕ → List ℕ → Result (Unit {0})
check_lanes page base lane [] = ok tt
check_lanes page base lane (enabled ∷ mask) = do
  throw_if (enabled != 0 && add_u64 base lane >>> 12 != page) (protocol_error crosses_4k)
  check_lanes page base (lane + 1) mask

-- The outer loop, with `n` beats left from `beat` on.
unfoldable pub check_beats : ℕ → BurstCursor → ℕ → ℕ → ℕ → Result (Unit {0})
unfolding check_lanes bus_word_address lane_mask
check_beats bus c page zero beat = ok tt
check_beats bus c page (suc n) beat = do
  base ← bus_word_address bus c beat
  mask ← lane_mask bus c beat
  check_lanes page base 0 mask
  check_beats bus c page n (beat + 1)

unfoldable pub validate_4k_boundary : ℕ → BurstCursor → Result (Unit {0})
unfolding check_beats
validate_4k_boundary bus c = check_beats bus c (c.payload.address >>> 12) c.beats 0
