-- ===== src/Packed/Tests.antt =====
-- The accesses of src/packed.hpp on three words and on integers of 16 and 64 bits.
use verilator_axi_testbench.Common.{
  ◌/◌, ◌%◌, ◌^◌, ◌≡◌, refl, leb, if◌then◌else◌, true, [], ◌∷◌, ok, err, invalid_argument,
  out_of_range, arith, ◌>>=◌,
}
use verilator_axi_testbench.Packed.{
  Signal, scalar, wide, set_word, bit, set_bit, read_u64, write_u64, read_bytes, write_bytes,
}
use verilator_axi_testbench.Packed.Words.{value_of}
use verilator_axi_testbench.Packed.Reading.{read_u64-window}

abbrev bus : Signal
bus = wide (0x8765_4321 ∷ 0xfedc_ba98 ∷ 0x0123_4567 ∷ [])

read_u64-window_example :
    read_u64 bus 20 48
    ≡ (if leb 48 64 then ok (value_of bus / 2 ^ 20 % 2 ^ 48) else err invalid_argument)
read_u64-window_example =
    read_u64-window bus 20 48 (omega arith, (omega arith, (omega arith, tt))) (omega arith)

across_words : read_u64 bus 20 48 ≡ ok 0x7fed_cba9_8876
unfolding read_u64
across_words = refl

read_back :
    (write_u64 bus 20 48 0x1122_3344_5566 >>= λ signal. read_u64 signal 20 48) ≡ ok 0x1122_3344_5566
unfolding read_u64 write_u64
read_back = refl

others_kept : (write_u64 bus 20 48 0 >>= λ signal. read_u64 signal 0 20) ≡ ok 0x5_4321
unfolding read_u64 write_u64
others_kept = refl

narrow_scalar : (write_u64 (scalar 16 0xffff) 4 8 0 >>= λ signal. read_u64 signal 0 16) ≡ ok 0xf00f
unfolding read_u64 write_u64
narrow_scalar = refl

past_scalar : set_word (scalar 16 0) 1 7 ≡ err out_of_range
unfolding set_word
past_scalar = refl

one_bit : (set_bit (scalar 64 0) 40 true >>= λ signal. bit signal 40) ≡ ok true
unfolding set_bit bit
one_bit = refl

bytes_back :
    (write_bytes bus 8 (1 ∷ 2 ∷ 3 ∷ []) >>= λ signal. read_bytes signal 8 3) ≡ ok (1 ∷ 2 ∷ 3 ∷ [])
unfolding write_bytes read_bytes
bytes_back = refl
