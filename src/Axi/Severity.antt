-- ===== src/Axi/Severity.antt =====
-- `combine_response` of src/axi.hpp as the maximum of a severity.
use verilator_axi_testbench.Common.{ℕ, ◌≡◌, ◌⊎◌, ◌&&◌, max, arith}
use verilator_axi_testbench.Axi.{
  Response, okay, exclusive_okay, slave_error, decode_error, combine_response, response_is_success,
}

-- How bad a response is, in the order of the AXI encodings.
unfoldable pub severity : Response → ℕ
severity okay = 0
severity exclusive_okay = 1
severity slave_error = 2
severity decode_error = 3

-- The combination of two responses is the more severe of the two.
pub severity-combine_response :
    (lhs rhs : Response)
    → (severity (combine_response lhs rhs) ≡ max (severity lhs) (severity rhs))
      × ((combine_response lhs rhs ≡ lhs) ⊎ (combine_response lhs rhs ≡ rhs))
unfolding combine_response severity
severity-combine_response okay rhs = ground arith
severity-combine_response exclusive_okay rhs = ground arith
severity-combine_response slave_error rhs = ground arith
severity-combine_response decode_error rhs = ground arith

pub combine_response_assoc :
    (a b c : Response)
    → combine_response (combine_response a b) c ≡ combine_response a (combine_response b c)
unfolding combine_response
combine_response_assoc a b c = ground arith

pub combine_response-success :
    (a b : Response)
    → response_is_success (combine_response a b) ≡ (response_is_success a && response_is_success b)
unfolding combine_response
combine_response-success a b = ground arith
