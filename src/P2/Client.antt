-- ===== src/P2/Client.antt =====
-- crates/netperf-p2/src/client.rs: the negotiation of a client, up to the start of its controller.

pub mod Handshake
use netperf.Prelude.{String, Option, none, some}
use netperf.P2.Data.{client, ClientOpts, TestParameters, from_opts, default_block_size}
use netperf.P2.Control.{ClientMessage}
use netperf.P2.Result.{Result, ok, err, panic, diverged, next}
use netperf.P2.NetUtils.{client_send_message, client_read_message}
use netperf.P2.Runtime.{Runtime}
use netperf.P2.PerfTest.{PerfTest, new}
use netperf.P2.Controller.{Socket}

module _ (env : Runtime) where
  open env use {transport, server_json, client_json, connect}

  -- Any message of the server but an error is taken for the welcome.
  unfoldable pub negotiate : String → TestParameters → Socket env → Result (Unit {0}) × Socket env
  negotiate cookie params s =
      next (client_send_message transport client_json (ClientMessage.hello cookie) s) λ _ s₁.
        next (client_read_message transport server_json s₁) λ _ s₂.
          client_send_message transport client_json (ClientMessage.send_parameters params) s₂

  start : String → String → TestParameters → Result (Socket env) → Result (PerfTest env)
  unfolding negotiate
  start address cookie params (ok s) =
      (next (negotiate cookie params s)
        (λ _ s'. (ok (new env (some address) cookie s' client params), s'))).0
  start address cookie params (err e) = err e
  start address cookie params panic = panic
  start address cookie params diverged = diverged

  -- The test that the controller is started with. `address` is the host and port, `cookie` the
  -- random one, and `version` that of the build.
  unfoldable pub run_client : (address cookie version : String) → ClientOpts → Result (PerfTest env)
  unfolding start
  run_client address cookie version opts =
      start address cookie (from_opts version opts default_block_size) (connect address 0)
