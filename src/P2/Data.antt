-- ===== src/P2/Data.antt =====
-- crates/netperf-p2/src/common/data.rs, with consts.rs and the client's options of opts.rs.
use netperf.Prelude.{ℕ, ◌*◌, Bool, String, Option, none, some, if◌then◌else◌}
use netperf.Core.Stats.{Direction, client_to_server, server_to_client, bidirectional}

abbrev pub internal_prot_buffer : ℕ
internal_prot_buffer = 5

-- Seconds.
abbrev pub protocol_timeout : ℕ
protocol_timeout = 10

abbrev pub mb : ℕ
mb = 1024 * 1024

abbrev pub max_control_message : ℕ
max_control_message = 20 * mb

abbrev pub default_block_size : ℕ
default_block_size = 2 * mb

abbrev pub message_length_size_bytes : ℕ
message_length_size_bytes = 4

pub data Role : Type 0 where
  server client : Role

pub Role-discrete : Discrete Role
Role-discrete = hlevel

pub record ClientOpts : Type 0 where
  pub client : Option String
  pub length : Option ℕ
  pub socket_buffers : Option ℕ
  pub time : ℕ
  pub parallel : ℕ
  pub bidir : Bool
  pub reverse : Bool
  pub latency : Bool

pub record TestParameters : Type 0 where
  pub direction : Direction
  pub omit_seconds : ℕ
  pub time_seconds : ℕ
  pub parallel : ℕ
  pub block_size : ℕ
  pub client_version : String
  pub socket_buffers : Option ℕ
  pub measure_latency : Bool

abbrev pub unwrap_or {ℓ} : {A : Type ℓ} → Option A → A → A
unwrap_or none d = d
unwrap_or (some a) d = a

-- `version` stands for the build's CARGO_PKG_VERSION.
unfoldable pub from_opts : String → ClientOpts → ℕ → TestParameters
from_opts version opts block = record {
  direction =
      if opts.bidir
      then bidirectional
      else if opts.reverse
      then server_to_client
      else client_to_server;
  omit_seconds = 0;
  time_seconds = opts.time;
  parallel = opts.parallel;
  block_size = unwrap_or opts.length block;
  client_version = version;
  socket_buffers = opts.socket_buffers;
  measure_latency = opts.latency;
}
