-- ===== src/Tests/Wire.antt =====
-- Frames between two wires.
use netperf.Prelude.{ℕ, ◌/◌, ◌≡◌, refl, List, [], ◌∷◌, ◌++◌, none, some, arith}
use netperf.Prelude.Bytes.{be_bytes}
use netperf.P2.Data.{max_control_message}
use netperf.P2.Control.{access_denied, ServerMessage}
use netperf.P2.Result.{ok, err, message, context, unusually_large, server_error, to_server_error}
use netperf.P2.NetUtils.{
  read_control_message, server_send_message, server_send_error, client_read_message,
}
use netperf.P2.NetUtils.RoundTrip.{frame, read_control_message-truncated}
use netperf.P2.NetUtils.Messages.{
  Delivers, client_read_message-server_send_message, client_read_message-server_send_error,
}
use netperf.P2.Controller.Cancel.{client_read_message-abandon}
use netperf.P2.Controller.Loop.{abandon}
use netperf.Tests.Network.{Wire, wires, wires_Reads, wires_Writes}
use netperf.Tests.Texts.{server_json, server_json-IsJson, runtime}

abbrev fresh : Wire
fresh = record { incoming = []; outgoing = [] }

abbrev holding : List ℕ → Wire
holding l = record { incoming = l; outgoing = [] }

abbrev text : ℕ → List ℕ
text n = b'{' ∷ n ∷ []

welcome_arrives :
    client_read_message wires server_json (holding (0 ∷ 0 ∷ 0 ∷ 2 ∷ b'{' ∷ 1 ∷ 9 ∷ []))
    ≡ (ok ServerMessage.welcome, holding (9 ∷ []))
unfolding client_read_message read_control_message
welcome_arrives = refl

client_read_message-server_send_message_example :
    Delivers wires wires_Writes wires_Reads
      (text 1)
      (9 ∷ [])
      fresh
      (holding (frame (text 1) ++ 9 ∷ []))
      (server_send_message wires server_json ServerMessage.welcome)
      (client_read_message wires server_json)
      (ok ServerMessage.welcome)
client_read_message-server_send_message_example =
    client_read_message-server_send_message wires wires_Writes wires_Reads (text 1) (9 ∷ []) fresh
      (holding (frame (text 1) ++ 9 ∷ [])) (omega arith) tt tt refl server_json server_json-IsJson
      ServerMessage.welcome refl

client_read_message-server_send_error_example :
    Delivers wires wires_Writes wires_Reads
      (text 4)
      []
      fresh
      (holding (frame (text 4) ++ []))
      (server_send_error wires server_json (access_denied "busy"))
      (client_read_message wires server_json)
      (err (server_error (access_denied "busy")))
client_read_message-server_send_error_example =
    client_read_message-server_send_error wires wires_Writes wires_Reads (text 4) [] fresh
      (holding (frame (text 4) ++ [])) (omega arith) tt tt refl server_json server_json-IsJson
      (access_denied "busy") refl

read_control_message-truncated_example :
    (s : Wire) × (read_control_message wires server_json (holding (be_bytes 5 ++ 1 ∷ 2 ∷ []))
      ≡ (err (message "Connected was closed by peer."), s))
read_control_message-truncated_example =
    read_control_message-truncated wires server_json wires_Reads 5 (1 ∷ 2 ∷ [])
      (holding (be_bytes 5 ++ 1 ∷ 2 ∷ [])) tt (omega arith) (omega arith) refl

client_read_message-abandon_example :
    (s : Wire) × (client_read_message wires server_json
        (abandon runtime 1 (holding (be_bytes 12 ++ b'{' ∷ b'"' ∷ b'S' ∷ b'e' ∷ [])))
      ≡ (err (unusually_large (0x7b225365 / 1024) max_control_message), s))
client_read_message-abandon_example =
    client_read_message-abandon runtime wires_Reads 12 b'"' b'S' b'e' []
      (holding (be_bytes 12 ++ b'{' ∷ b'"' ∷ b'S' ∷ b'e' ∷ [])) tt (omega arith) (omega arith)
      (omega arith) (omega arith) refl

denied_is_found :
    to_server_error {A = ℕ} (err (context "outer" (server_error (access_denied "busy"))))
    ≡ some (access_denied "busy")
unfolding to_server_error
denied_is_found = refl

io_is_not_found : to_server_error {A = ℕ} (err (message "Missing Stuff!")) ≡ none
unfolding to_server_error
io_is_not_found = refl
