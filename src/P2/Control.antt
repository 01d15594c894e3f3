-- ===== src/P2/Control.antt =====
-- crates/netperf-p2/src/common/control.rs: the messages of the control socket.
use netperf.Prelude.{String}
use netperf.Core.Stats.{TestResults}
use netperf.P2.Data.{TestParameters}

pub data ServerError : Type 0 where
  access_denied : String → ServerError
  cannot_accept_stream : String → ServerError

pub data ClientError : Type 0 where
  cannot_create_stream : String → ClientError

pub data State : Type 0 where
  test_start : State
  create_streams : String → State
  running : State
  exchange_results : State
  display_results : State

pub data ClientMessage : Type 0 where
  hello : String → ClientMessage
  send_parameters : TestParameters → ClientMessage
  send_results : TestResults → ClientMessage

pub data ServerMessage : Type 0 where
  welcome : ServerMessage
  set_state : State → ServerMessage
  send_results : TestResults → ServerMessage

pub data ClientEnvelope : Type 0 where
  client_message : ClientMessage → ClientEnvelope
  error : ClientError → ClientEnvelope

pub data ServerEnvelope : Type 0 where
  server_message : ServerMessage → ServerEnvelope
  error : ServerError → ServerEnvelope
