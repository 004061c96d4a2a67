-- ===== src/Exit/Code.antt =====
-- The code register of `ExitDevice` in src/devices.cpp as a little-endian word.
use verilator_axi_testbench.Common.Bits.{bit_or-fields, bit_and-mask}
use verilator_axi_testbench.Common.{
  ℕ, ◌+◌, ◌*◌, ◌/◌, ◌^◌, ◌<◌, ◌≡◌, refl, ◌∙◌, true, List, [], ◌∷◌, length, arith, bit_and,
}
use verilator_axi_testbench.Axi.{okay, slave_error}
use verilator_axi_testbench.Memory.{all_lanes_enabled}
use verilator_axi_testbench.Exit.{ExitDevice, exit_write, exit_read, code_of, code_lanes}

pub code_of-sum :
    (a b c d : ℕ)
    → a < 256
    → b < 256
    → c < 256
    → code_of (a ∷ b ∷ c ∷ d ∷ []) ≡ a + b * 0x100 + c * 0x1_0000 + d * 0x100_0000
unfolding code_of
code_of-sum a b c d ha hb hc = rw (
  bit_or-fields 8 b a ha,
  bit_or-fields 16 c (a + b * 2 ^ 8) (omega arith),
  bit_or-fields 24 d (a + b * 2 ^ 8 + c * 2 ^ 16) (omega arith),
)

-- Writing four bytes to the exit register with every strobe set raises the request, with the bytes as
-- a little-endian code; reading the register gives the same bytes back.
pub exit_read-exit_write :
    (e : ExitDevice) (a b c d : ℕ) (strobe : List ℕ)
    → a < 256
    → b < 256
    → c < 256
    → d < 256
    → all_lanes_enabled strobe ≡ true
    → let (response, e') = exit_write e 0 (a ∷ b ∷ c ∷ d ∷ []) strobe in
      (response ≡ okay)
      × (e'.requested ≡ true)
      × (e'.code ≡ a + b * 0x100 + c * 0x1_0000 + d * 0x100_0000)
      × (exit_read e' 0 (0 ∷ 0 ∷ 0 ∷ 0 ∷ []) (1 ∷ 1 ∷ 1 ∷ 1 ∷ []) ≡ (okay, a ∷ b ∷ c ∷ d ∷ []))
unfolding exit_write exit_read code_lanes
exit_read-exit_write e a b c d strobe ha hb hc hd on =
    let code = a + b * 0x100 + c * 0x1_0000 + d * 0x100_0000 in
    let e0 : bit_and (code / 1) 255 ≡ a = bit_and-mask 8 (code / 1) ∙ omega arith in
    let e1 : bit_and (code / 0x100) 255 ≡ b = bit_and-mask 8 (code / 0x100) ∙ omega arith in
    let e2 : bit_and (code / 0x1_0000) 255 ≡ c = bit_and-mask 8 (code / 0x1_0000) ∙ omega arith in
    let e3 : bit_and (code / 0x100_0000) 255 ≡ d =
      bit_and-mask 8 (code / 0x100_0000) ∙ omega arith in
    rw (on, code_of-sum a b c d ha hb hc)
      (refl, refl, refl, λ i. (okay, e0 i ∷ e1 i ∷ e2 i ∷ e3 i ∷ []))

-- A write to the exit register that is not of its four bytes with every strobe set is refused and
-- leaves the device as it is.
pub exit_write-refused :
    (e : ExitDevice) (offset : ℕ) (bytes strobe : List ℕ)
    → ¬ ((offset ≡ 0) × (length bytes ≡ 4) × (all_lanes_enabled strobe ≡ true))
    → exit_write e offset bytes strobe ≡ (slave_error, e)
unfolding exit_write
exit_write-refused e offset bytes strobe bad = ground (arith, bad)
