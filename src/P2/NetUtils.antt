-- ===== src/P2/NetUtils.antt =====
-- crates/netperf-p2/src/common/net_utils.rs: frames of the control socket, a big-endian length and
-- a JSON payload.
pub mod Receive
pub mod RoundTrip
pub mod Messages
pub mod Keeps
pub mod Both
use netperf.Prelude.{
  ℕ, zero, suc, ◌-◌, ◌/◌, ◌^◌, List, [], ◌∷◌, ◌++◌, Option, none, some, length, leb, ltb, ◌==◌,
  if◌then◌else◌, u32,
}
use netperf.Prelude.Bytes.{be_bytes}
use netperf.P2.Data.{max_control_message}
use netperf.P2.Control.{
  ClientError, ServerError, ClientMessage, ServerMessage, ClientEnvelope, ServerEnvelope,
}
use netperf.P2.Result.{
  Result, ok, err, panic, diverged, Error, json, unusually_large, message, context, next, ◌>>=◌,
  client_error, server_error,
}
use netperf.P2.Transport.{Transport, Json}

module _ (t : Transport) where
  open t use {Socket, read, read_u32, write_all}

  send_payload : List ℕ → Socket → Result (Unit {0}) × Socket
  send_payload payload s =
      if leb (length payload) (2 ^ 32 - 1)
      then write_all (be_bytes (u32 (length payload)) ++ payload) s
      else (panic, s)

  -- serde_json's failure to write is passed on by `?`.
  send_json : Option (List ℕ) → Socket → Result (Unit {0}) × Socket
  unfolding send_payload
  send_json none s = (err json, s)
  send_json (some payload) s = send_payload payload s

  unfoldable pub send_control_message :
      {A : Type 0} → Json A → A → Socket → Result (Unit {0}) × Socket
  unfolding send_json
  send_control_message j m s = send_json (j.to_string m) s

  -- What a round does with the bytes that it read; none means that the peer has closed.
  abbrev pub read_more :
      (ℕ → List ℕ → Socket → Result (List ℕ) × Socket)
      → ℕ
      → List ℕ
      → List ℕ
      → Socket
      → Result (List ℕ) × Socket
  read_more rec remaining buf [] s = (err (message "Connected was closed by peer."), s)
  read_more rec remaining buf (b ∷ bs) s = rec (remaining - length (b ∷ bs)) (buf ++ b ∷ bs) s

  -- The loop over `remaining_bytes`; `fuel` bounds its rounds.
  pub read_loop : (fuel remaining : ℕ) → List ℕ → Socket → Result (List ℕ) × Socket
  read_loop zero remaining buf s = if remaining == 0 then (ok buf, s) else (diverged, s)
  read_loop (suc fuel) remaining buf s =
      let round = next (read remaining s) (read_more (read_loop fuel) remaining buf) in
      if remaining == 0 then (ok buf, s) else round

  parse : {A : Type 0} → Option A → Socket → Result A × Socket
  parse (some obj) s = (ok obj, s)
  parse none s = (err (context "Invalid protocol, could not deserialise JSON" json), s)

  -- Each round reads a byte at least, so `message_size` rounds are enough.
  read_payload : {A : Type 0} → Json A → ℕ → Socket → Result A × Socket
  unfolding read_loop parse
  read_payload j message_size s =
      if ltb max_control_message message_size
      then (err (unusually_large (message_size / 1024) max_control_message), s)
      else next (read_loop message_size message_size [] s) (λ buf.
        λ s'. if message_size == length buf then parse (j.from_slice buf) s' else (panic, s'))

  unfoldable pub read_control_message : {A : Type 0} → Json A → Socket → Result A × Socket
  unfolding read_payload
  read_control_message j = do message_size ← read_u32; read_payload j message_size

  module _ (jc : Json ClientEnvelope) where
    unfoldable pub client_send_message : ClientMessage → Socket → Result (Unit {0}) × Socket
    client_send_message m = send_control_message jc (ClientEnvelope.client_message m)

    unfoldable pub client_send_error : ClientError → Socket → Result (Unit {0}) × Socket
    client_send_error e = send_control_message jc (ClientEnvelope.error e)

    open_client : ClientEnvelope → Socket → Result ClientMessage × Socket
    open_client (ClientEnvelope.client_message m) s = (ok m, s)
    open_client (ClientEnvelope.error e) s = (err (client_error e), s)

    -- A client's error becomes an error of the call.
    unfoldable pub server_read_message : Socket → Result ClientMessage × Socket
    unfolding open_client
    server_read_message = do envelope ← read_control_message jc; open_client envelope

  module _ (js : Json ServerEnvelope) where
    unfoldable pub server_send_message : ServerMessage → Socket → Result (Unit {0}) × Socket
    server_send_message m = send_control_message js (ServerEnvelope.server_message m)

    unfoldable pub server_send_error : ServerError → Socket → Result (Unit {0}) × Socket
    server_send_error e = send_control_message js (ServerEnvelope.error e)

    open_server : ServerEnvelope → Socket → Result ServerMessage × Socket
    open_server (ServerEnvelope.server_message m) s = (ok m, s)
    open_server (ServerEnvelope.error e) s = (err (server_error e), s)

    unfoldable pub client_read_message : Socket → Result ServerMessage × Socket
    unfolding open_server
    client_read_message = do envelope ← read_control_message js; open_server envelope
