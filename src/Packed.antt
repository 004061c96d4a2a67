-- ===== src/Packed.antt =====
-- The packed signals of src/packed.hpp. A signal of the generated model is an integer of 8, 16, 32 or 64
-- bits, or an array of 32-bit words; `Signal` is both, and a template that takes either is one function.
pub mod Words
pub mod Reading
mod Tests
use verilator_axi_testbench.Common.{
  ℕ, zero, suc, ◌+◌, ◌-◌, ◌*◌, ◌/◌, ◌%◌, ◌^◌, min, Bool, true, false, ◌==◌, ◌!=◌, ltb, leb,
  if◌then◌else◌, List, [], ◌∷◌, Option, none, some, length, get_elem?, set, Result, ok, err,
  invalid_argument, out_of_range, bad_index, throw_if, ◌>>=◌, ◌>>◌, u32_mod, u64_mod, u8_mod,
  bit_and, bit_or, ◌<<<◌, ◌>>>◌,
}
use verilator_axi_testbench.Common.Bits.{and_not}

pub data Signal : Type 0 where
  -- the bits of the integer type and its value
  scalar : ℕ → ℕ → Signal
  wide : List ℕ → Signal

abbrev pub element : Option ℕ → Result ℕ
element none = err bad_index
element (some w) = ok w

unfoldable pub word : Signal → ℕ → Result ℕ
word (scalar bits value) index =
    if leb bits (index * 32) then ok 0 else ok ((value >>> (index * 32)) % u32_mod)
word (wide words) index = element (get_elem? words index)

-- The width of `Unsigned`, which is that of `unsigned` at least.
abbrev pub unsigned_bits : ℕ → ℕ
unsigned_bits bits = if ltb bits 32 then 32 else bits

unfoldable pub set_word : Signal → ℕ → ℕ → Result Signal
set_word (scalar bits current) index value =
    let shift = index * 32 in
    let mask = ((u32_mod - 1) <<< shift) % 2 ^ unsigned_bits bits in
    let moved = (value <<< shift) % 2 ^ unsigned_bits bits in
    do
      throw_if (leb bits shift) out_of_range
      ok (scalar bits (bit_or (and_not current mask) moved % 2 ^ bits))
set_word (wide words) index value =
    if ltb index (length words) then ok (wide (set words index value)) else err bad_index

unfoldable pub bit : Signal → ℕ → Result Bool
unfolding word
bit signal index = do w ← word signal (index / 32); ok (bit_and (w >>> (index % 32)) 1 != 0)

unfoldable pub set_bit : Signal → ℕ → Bool → Result Signal
unfolding word set_word
set_bit signal index value =
    let mask = 1 <<< (index % 32) in
    do
      current ← word signal (index / 32)
      set_word signal (index / 32) (if value then bit_or current mask else and_not current mask)

-- `(1 << count) - 1`, the mask of `count` low ones, which is `UINT32_MAX` for 32.
abbrev pub low_mask : ℕ → ℕ
low_mask count = if count == 32 then u32_mod - 1 else 2 ^ count - 1

-- The loop of `read_u64`. Each turn copies at least one bit, so `width` turns are enough.
unfoldable pub read_parts : ℕ → Signal → ℕ → ℕ → ℕ → ℕ → Result ℕ
unfolding word
read_parts zero signal lsb width copied result = ok result
read_parts (suc fuel) signal lsb width copied result =
    let source_bit = lsb + copied in
    let offset = source_bit % 32 in
    let count = min (width - copied) (32 - offset) in
    let rest = do
      w ← word signal (source_bit / 32)
      read_parts fuel signal lsb width (copied + count)
          (bit_or result ((bit_and (w >>> offset) (low_mask count) <<< copied) % u64_mod))
    in if ltb copied width then rest else ok result

unfoldable pub read_u64 : Signal → ℕ → ℕ → Result ℕ
unfolding read_parts
read_u64 signal lsb width = do
  throw_if (ltb 64 width) invalid_argument
  read_parts width signal lsb width 0 0

-- The loop of `write_u64`, likewise.
unfoldable pub write_parts : ℕ → Signal → ℕ → ℕ → ℕ → ℕ → Result Signal
unfolding word set_word
write_parts zero signal lsb width value copied = ok signal
write_parts (suc fuel) signal lsb width value copied =
    let destination_bit = lsb + copied in
    let offset = destination_bit % 32 in
    let count = min (width - copied) (32 - offset) in
    let mask = (low_mask count <<< offset) % u32_mod in
    let part = bit_and ((((value >>> copied) % u32_mod) <<< offset) % u32_mod) mask in
    let rest = do
      current ← word signal (destination_bit / 32)
      signal' ← set_word signal (destination_bit / 32) (bit_or (and_not current mask) part)
      write_parts fuel signal' lsb width value (copied + count)
    in if ltb copied width then rest else ok signal

unfoldable pub write_u64 : Signal → ℕ → ℕ → ℕ → Result Signal
unfolding write_parts
write_u64 signal lsb width value = do
  throw_if (ltb 64 width) invalid_argument
  write_parts width signal lsb width value 0

-- The loops of `read_bytes` and `write_bytes`, from byte `i` on.
unfoldable pub read_bytes_from : Signal → ℕ → ℕ → ℕ → Result (List ℕ)
unfolding read_u64
read_bytes_from signal lsb i zero = ok []
read_bytes_from signal lsb i (suc left) = do
  byte ← read_u64 signal (lsb + i * 8) 8
  rest ← read_bytes_from signal lsb (suc i) left
  ok (byte % u8_mod ∷ rest)

unfoldable pub read_bytes : Signal → ℕ → ℕ → Result (List ℕ)
unfolding read_bytes_from
read_bytes signal lsb size = read_bytes_from signal lsb 0 size

unfoldable pub write_bytes_from : Signal → ℕ → ℕ → List ℕ → Result Signal
unfolding write_u64
write_bytes_from signal lsb i [] = ok signal
write_bytes_from signal lsb i (byte ∷ bytes) = do
  signal' ← write_u64 signal (lsb + i * 8) 8 byte
  write_bytes_from signal' lsb (suc i) bytes

unfoldable pub write_bytes : Signal → ℕ → List ℕ → Result Signal
unfolding write_bytes_from
write_bytes signal lsb bytes = write_bytes_from signal lsb 0 bytes
