-- ===== src/Axi.antt =====
-- The data types of src/axi.hpp: responses, bursts, the payloads of the five channels, and the
-- signals that a port samples and drives. A byte is a number below 256, `std::array<_, DataBytes>`
-- a list of that length; ids, addresses and the other fields are the numbers that the fields hold.
pub mod Severity
pub mod Payload
use verilator_axi_testbench.Common.{
  ℕ, Bool, true, false, List, [], ◌∷◌, ◌==◌, ◌&&◌, ◌||◌, if◌then◌else◌,
}

pub data Response : Type 0 where
  okay exclusive_okay slave_error decode_error : Response

pub data Burst : Type 0 where
  fixed increment wrap reserved : Burst

pub record AddressPayload : Type 0 where
  pub id : ℕ
  pub address : ℕ
  pub length : ℕ
  pub size : ℕ
  pub burst : Burst
  pub lock : Bool
  pub cache : ℕ
  pub protection : ℕ

-- The fields' default member initialisers.
abbrev pub default_address : AddressPayload
default_address = record {
  id = 0;
  address = 0;
  length = 0;
  size = 0;
  burst = increment;
  lock = false;
  cache = 0;
  protection = 0;
}

pub record WriteDataPayload : Type 0 where
  pub bytes : List ℕ
  pub strobe : List ℕ
  pub last : Bool

pub record ReadDataPayload : Type 0 where
  pub id : ℕ
  pub bytes : List ℕ
  pub response : Response
  pub last : Bool

pub record WriteResponsePayload : Type 0 where
  pub id : ℕ
  pub response : Response
  pub exit_response : Bool
  pub exit_code : ℕ

pub record MasterSignals : Type 0 where
  pub aw_valid : Bool
  pub aw : AddressPayload
  pub w_valid : Bool
  pub w : WriteDataPayload
  pub b_ready : Bool
  pub ar_valid : Bool
  pub ar : AddressPayload
  pub r_ready : Bool

pub record SlaveSignals : Type 0 where
  pub aw_ready : Bool
  pub w_ready : Bool
  pub b_valid : Bool
  pub b : WriteResponsePayload
  pub ar_ready : Bool
  pub r_valid : Bool
  pub r : ReadDataPayload

-- `==` on the enumerations.
abbrev pub same_response : Response → Response → Bool
same_response okay okay = true
same_response exclusive_okay exclusive_okay = true
same_response slave_error slave_error = true
same_response decode_error decode_error = true
same_response _ _ = false

abbrev pub same_burst : Burst → Burst → Bool
same_burst fixed fixed = true
same_burst increment increment = true
same_burst wrap wrap = true
same_burst reserved reserved = true
same_burst _ _ = false

abbrev pub same_flag : Bool → Bool → Bool
same_flag true b = b
same_flag false true = false
same_flag false false = true

-- `==` on arrays of bytes.
unfoldable pub same_bytes : List ℕ → List ℕ → Bool
same_bytes [] [] = true
same_bytes (x ∷ xs) (y ∷ ys) = x == y && same_bytes xs ys
same_bytes _ _ = false

-- The defaulted `operator==` of `AddressPayload`.
unfoldable pub same_address : AddressPayload → AddressPayload → Bool
same_address a b =
    a.id == b.id
    && a.address == b.address
    && a.length == b.length
    && a.size == b.size
    && same_burst a.burst b.burst
    && same_flag a.lock b.lock
    && a.cache == b.cache
    && a.protection == b.protection

-- The defaulted `operator==` of `WriteDataPayload`.
unfoldable pub same_write_data : WriteDataPayload → WriteDataPayload → Bool
unfolding same_bytes
same_write_data a b =
    same_bytes a.bytes b.bytes && same_bytes a.strobe b.strobe && same_flag a.last b.last

unfoldable pub combine_response : Response → Response → Response
combine_response lhs rhs =
    if same_response lhs decode_error || same_response rhs decode_error
    then decode_error
    else if same_response lhs slave_error || same_response rhs slave_error
    then slave_error
    else if same_response lhs exclusive_okay || same_response rhs exclusive_okay
    then exclusive_okay
    else okay

-- `response_is_success` of src/device.hpp.
abbrev pub response_is_success : Response → Bool
response_is_success response = same_response response okay || same_response response exclusive_okay
