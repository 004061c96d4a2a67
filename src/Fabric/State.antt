-- ===== src/Fabric/State.antt =====
-- The state of `AxiFabric` in src/fabric.hpp: its template arguments, ports, routes, monitors.
use verilator_axi_testbench.Common.{
  ℕ, ◌-◌, ◌^◌, Bool, false, ltb, if◌then◌else◌, List, Option, none, some, replicate, Result, ok,
  err, bad_index, u64_max,
}
use verilator_axi_testbench.Axi.{
  Response, okay, AddressPayload, default_address, WriteDataPayload, ReadDataPayload,
  WriteResponsePayload, SlaveSignals,
}
use verilator_axi_testbench.Ring.{RingBuffer, fresh}
use verilator_axi_testbench.Space.{Mapping, AddressSpace}

-- The template arguments; `data_bytes` is `DATA_BYTES`.
pub record Geometry : Type 0 where
  pub num_ports : ℕ
  pub address_bits : ℕ
  pub data_bytes : ℕ
  pub address_depth : ℕ
  pub write_data_depth : ℕ
  pub response_depth : ℕ
  pub route_depth : ℕ

abbrev pub max_burst_beats : ℕ
max_burst_beats = 256

abbrev pub max_exclusive_beats : ℕ
max_exclusive_beats = 16

abbrev pub max_exclusive_bytes : ℕ
max_exclusive_bytes = 128

pub record AddressWatch : Type 0 where
  pub blocked : Bool
  pub payload : AddressPayload

pub record WriteWatch : Type 0 where
  pub blocked : Bool
  pub payload : WriteDataPayload

pub record PortState : Type 0 where
  pub aw : RingBuffer AddressPayload
  pub w : RingBuffer WriteDataPayload
  pub ar : RingBuffer AddressPayload
  pub b : RingBuffer WriteResponsePayload
  pub r : RingBuffer ReadDataPayload
  pub aw_watch : AddressWatch
  pub w_watch : WriteWatch
  pub ar_watch : AddressWatch

-- `RouteBase`, which is all of a `ReadRoute`. A mapping is held by value: in a space of mappings
-- that do not overlap, two pointers are equal exactly when the bases are.
pub record RouteBase : Type 0 where
  pub port : ℕ
  pub payload : AddressPayload
  pub beat : ℕ
  pub mapping : Option Mapping
  pub forced_response : Response
  pub exclusive : Bool

pub record WriteRoute : Type 0 where
  pub route : RouteBase
  pub open route use *
  pub response : Response
  pub exit_response : Bool
  pub exit_code : ℕ
  pub commit_beat : ℕ
  pub data_complete : Bool
  pub staged_data : List (List ℕ)
  pub staged_strobe : List (List ℕ)

pub record ExclusiveMonitor : Type 0 where
  pub valid : Bool
  pub port : ℕ
  pub id : ℕ
  pub payload : AddressPayload
  pub first : ℕ
  pub last : ℕ

-- `stall_probability_`: at most 0, at least 1, or between, as the threshold that the source computes
-- from it in floating point.
pub data Stall : Type 0 where
  never always : Stall
  below : ℕ → Stall

-- The members of the class, with the devices behind the address space that it refers to.
pub record Fabric {ℓ} (D : Type ℓ) : Type ℓ where
  pub space : AddressSpace
  pub devices : List D
  pub reset_devices : Bool
  pub ports : List PortState
  pub outputs : List SlaveSignals
  pub read_routes : RingBuffer RouteBase
  pub write_routes : RingBuffer WriteRoute
  pub monitors : List ExclusiveMonitor
  pub next_aw_port : ℕ
  pub next_ar_port : ℕ
  pub cycle : ℕ
  pub random_state : ℕ
  pub stall : Stall
  pub was_reset : Bool
  pub suppress_read : Bool
  pub exit_completed : Bool
  pub exit_code : ℕ

-- An array element that the source reads with no check.
abbrev pub at {ℓ} : {A : Type ℓ} → Option A → Result A
at none = err bad_index
at (some a) = ok a

-- The default member initialisers.
module _ (g : Geometry) where
  open g use {data_bytes}

  abbrev pub zero_bytes : List ℕ
  zero_bytes = replicate data_bytes 0

  abbrev pub default_write_data : WriteDataPayload
  default_write_data = record { bytes = zero_bytes; strobe = zero_bytes; last = false }

  abbrev pub default_read_data : ReadDataPayload
  default_read_data = record { id = 0; bytes = zero_bytes; response = okay; last = false }

  abbrev pub default_write_response : WriteResponsePayload
  default_write_response = record { id = 0; response = okay; exit_response = false; exit_code = 0 }

  abbrev pub default_output : SlaveSignals
  default_output = record {
    aw_ready = false;
    w_ready = false;
    b_valid = false;
    b = default_write_response;
    ar_ready = false;
    r_valid = false;
    r = default_read_data;
  }

  abbrev pub default_watch : AddressWatch
  default_watch = record { blocked = false; payload = default_address }

  abbrev pub default_write_watch : WriteWatch
  default_write_watch = record { blocked = false; payload = default_write_data }

  abbrev pub default_port : PortState
  default_port = record {
    aw = fresh g.address_depth default_address;
    w = fresh g.write_data_depth default_write_data;
    ar = fresh g.address_depth default_address;
    b = fresh g.response_depth default_write_response;
    r = fresh g.response_depth default_read_data;
    aw_watch = default_watch;
    w_watch = default_write_watch;
    ar_watch = default_watch;
  }

  abbrev pub default_route : RouteBase
  default_route = record {
    port = 0;
    payload = default_address;
    beat = 0;
    mapping = none;
    forced_response = okay;
    exclusive = false;
  }

  abbrev pub default_write_route : WriteRoute
  default_write_route = record {
    route = default_route;
    response = okay;
    exit_response = false;
    exit_code = 0;
    commit_beat = 0;
    data_complete = false;
    staged_data = replicate max_burst_beats zero_bytes;
    staged_strobe = replicate max_burst_beats zero_bytes;
  }

  abbrev pub default_monitor : ExclusiveMonitor
  default_monitor = record {
    valid = false;
    port = 0;
    id = 0;
    payload = default_address;
    first = 0;
    last = 0;
  }

  -- The largest address of the configured width.
  abbrev pub address_limit : ℕ
  address_limit = if ltb g.address_bits 64 then 2 ^ g.address_bits - 1 else u64_max

  -- The constructor.
  unfoldable pub make_fabric {ℓ} : {D : Type ℓ} → AddressSpace → List D → Bool → Fabric D
  make_fabric space devices reset_devices = record {
    space = space;
    devices = devices;
    reset_devices = reset_devices;
    ports = replicate g.num_ports default_port;
    outputs = replicate g.num_ports default_output;
    read_routes = fresh g.route_depth default_route;
    write_routes = fresh g.route_depth default_write_route;
    monitors = replicate g.route_depth default_monitor;
    next_aw_port = 0;
    next_ar_port = 0;
    cycle = 0;
    random_state = 0x9e37_79b9_7f4a_7c15;
    stall = never;
    was_reset = false;
    suppress_read = false;
    exit_completed = false;
    exit_code = 0;
  }
