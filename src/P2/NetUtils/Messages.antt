-- ===== src/P2/NetUtils/Messages.antt =====
-- Whole messages between the two ends of a control socket, errors included.
use netperf.Prelude.{ℕ, ◌≤◌, ◌≡◌, refl, List, ◌++◌, length, some, arith}
use netperf.P2.Data.{max_control_message}
use netperf.P2.Control.{
  ClientError, ServerError, ClientMessage, ServerMessage, ClientEnvelope, ServerEnvelope,
}
use netperf.P2.Result.{Result, ok, err, client_error, server_error}
use netperf.P2.Transport.{Transport, Reads, Writes, Json, IsJson}
use netperf.P2.NetUtils.{
  send_control_message, read_control_message, client_send_message, client_send_error,
  server_send_message, server_send_error, client_read_message, server_read_message,
}
use netperf.P2.NetUtils.RoundTrip.{frame, send_control_message_lem, read_control_message_lem}

-- The calls on whole messages. `s` is the sender's end and `u` the receiver's.
module _ (t : Transport) (w : Writes t) (r : Reads t) where
  -- `send` puts the frame of `payload` on the wire, and `receive` gives `result` and stops behind it.
  pub record Delivers {A : Type 0} (payload rest : List ℕ) (s u : t.Socket)
      (send : t.Socket → Result (Unit {0}) × t.Socket) (receive : t.Socket → Result A × t.Socket)
      (result : Result A) : Type 0 where
    pub after_send : t.Socket
    pub after_receive : t.Socket
    pub sent : send s ≡ (ok tt, after_send)
    pub on_wire : w.sent after_send ≡ w.sent s ++ frame payload
    pub received : receive u ≡ (result, after_receive)
    pub left : r.pending after_receive ≡ rest

  module _ (payload rest : List ℕ) (s u : t.Socket) (fits : length payload ≤ max_control_message)
      (open_send : w.IsOpen s) (open_receive : r.IsOpen u)
      (arriving : r.pending u ≡ frame payload ++ rest) where
    deliver :
        {A : Type 0} (j : Json A)
        → IsJson A j
        → (m : A) → j.to_string m ≡ some payload
        → Delivers payload rest s u (send_control_message t j m) (read_control_message t j) (ok m)
    deliver j laws m e =
        let (s', sent, _, all) =
          send_control_message_lem t j w m payload s open_send e (omega arith) in
        let (u', got, _, left) =
          read_control_message_lem t j r laws m payload rest u open_receive e fits arriving in
        record {
          after_send = s';
          after_receive = u';
          sent = sent;
          on_wire = all;
          received = got;
          left = left;
        }

    -- If both ends of the transport behave as documented, the text of the envelope is `payload`,
    -- and `payload` is within the 20 MB limit, then `server_send_message` writes one frame, and
    -- `client_read_message` on a stream that begins with that frame gives the same message and
    -- stops right behind it, in whatever portions the bytes arrive.
    pub client_read_message-server_send_message :
        (j : Json ServerEnvelope)
        → IsJson ServerEnvelope j
        → (m : ServerMessage) → j.to_string (ServerEnvelope.server_message m) ≡ some payload
        → Delivers payload rest s u (server_send_message t j m) (client_read_message t j) (ok m)
    unfolding server_send_message client_read_message
    client_read_message-server_send_message j laws m e =
        let d = deliver j laws _ e in
        record {
          after_send = d.after_send;
          after_receive = d.after_receive;
          sent = d.sent;
          on_wire = d.on_wire;
          received = rw d.received refl;
          left = d.left;
        }

    -- If both ends of the transport behave as documented, the text of the envelope is `payload`,
    -- and `payload` is within the 20 MB limit, then `server_send_error` writes one frame, and
    -- `client_read_message` on a stream that begins with that frame fails with the same server
    -- error and stops right behind it.
    pub client_read_message-server_send_error :
        (j : Json ServerEnvelope)
        → IsJson ServerEnvelope j
        → (e : ServerError) → j.to_string (ServerEnvelope.error e) ≡ some payload
        → Delivers payload rest s u
            (server_send_error t j e)
            (client_read_message t j)
            (err (server_error e))
    unfolding server_send_error client_read_message
    client_read_message-server_send_error j laws e h =
        let d = deliver j laws _ h in
        record {
          after_send = d.after_send;
          after_receive = d.after_receive;
          sent = d.sent;
          on_wire = d.on_wire;
          received = rw d.received refl;
          left = d.left;
        }

    -- If both ends of the transport behave as documented, the text of the envelope is `payload`,
    -- and `payload` is within the 20 MB limit, then `client_send_message` writes one frame, and
    -- `server_read_message` on a stream that begins with that frame gives the same message and
    -- stops right behind it.
    server_read_message-client_send_message :
        (j : Json ClientEnvelope)
        → IsJson ClientEnvelope j
        → (m : ClientMessage) → j.to_string (ClientEnvelope.client_message m) ≡ some payload
        → Delivers payload rest s u (client_send_message t j m) (server_read_message t j) (ok m)
    unfolding client_send_message server_read_message
    server_read_message-client_send_message j laws m e =
        let d = deliver j laws _ e in
        record {
          after_send = d.after_send;
          after_receive = d.after_receive;
          sent = d.sent;
          on_wire = d.on_wire;
          received = rw d.received refl;
          left = d.left;
        }

    -- If both ends of the transport behave as documented, the text of the envelope is `payload`,
    -- and `payload` is within the 20 MB limit, then `client_send_error` writes one frame, and
    -- `server_read_message` on a stream that begins with that frame fails with the same client
    -- error and stops right behind it.
    pub server_read_message-client_send_error :
        (j : Json ClientEnvelope)
        → IsJson ClientEnvelope j
        → (e : ClientError) → j.to_string (ClientEnvelope.error e) ≡ some payload
        → Delivers payload rest s u
            (client_send_error t j e)
            (server_read_message t j)
            (err (client_error e))
    unfolding client_send_error server_read_message
    server_read_message-client_send_error j laws e h =
        let d = deliver j laws _ h in
        record {
          after_send = d.after_send;
          after_receive = d.after_receive;
          sent = d.sent;
          on_wire = d.on_wire;
          received = rw d.received refl;
          left = d.left;
        }
