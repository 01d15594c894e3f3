-- ===== src/Tests/Texts.antt =====
-- A table of JSON texts for the tests, and a runtime over it.
use text.Mathlib.Text.{◌==◌ as str_eq}
use netperf.Prelude.{
  ℕ, zero, suc, ◌≡◌, refl, true, false, List, [], ◌∷◌, ◌++◌, Option, none, some, String, length,
  ltb, if◌then◌else◌,
}
use netperf.P2.Data.{TestParameters}
use netperf.Core.Stats.{TestResults, StreamStats}
use netperf.P2.Control.{
  access_denied, cannot_create_stream, create_streams, running, exchange_results, ServerEnvelope,
  ServerMessage, ClientEnvelope, ClientMessage,
}
use netperf.P2.Result.{ok}
use netperf.P2.Transport.{Json, IsJson}
use netperf.P2.Runtime.{Runtime, Mpsc, WorkerMessage, joined}
use netperf.Tests.Network.{wires}
use netperf.Tests.Json.{
  text_if, two_texts, streams_numbers, results_text, results_value, fields, parameters, read_back,
  number_bool-bool_number, results_back, text_back, two_back, number_direction-direction_number,
  number_option-option_number,
}

abbrev pub no_results : TestResults
no_results = record { streams = [] }

abbrev pub server_text : ServerEnvelope → Option (List ℕ)
server_text (ServerEnvelope.server_message ServerMessage.welcome) = some (b'{' ∷ 1 ∷ [])
server_text (ServerEnvelope.server_message (ServerMessage.set_state running)) = some (b'{' ∷ 2 ∷ [])
server_text (ServerEnvelope.server_message (ServerMessage.set_state exchange_results)) =
    some (b'{' ∷ 6 ∷ [])
server_text (ServerEnvelope.server_message (ServerMessage.set_state (create_streams cookie))) =
    text_if (str_eq cookie "secret") (b'{' ∷ 7 ∷ [])
server_text (ServerEnvelope.server_message (ServerMessage.send_results r)) = results_text r.streams
server_text (ServerEnvelope.error (access_denied text)) =
    two_texts text "busy" (b'{' ∷ 4 ∷ []) "Test already in-flight" (b'{' ∷ 5 ∷ [])
server_text _ = none

abbrev pub server_value : List ℕ → Option ServerEnvelope
server_value (_ ∷ suc zero ∷ []) = some (ServerEnvelope.server_message ServerMessage.welcome)
server_value (_ ∷ suc (suc zero) ∷ []) =
    some (ServerEnvelope.server_message (ServerMessage.set_state running))
server_value (_ ∷ suc (suc (suc zero)) ∷ l) =
    some (ServerEnvelope.server_message (ServerMessage.send_results (results_value l)))
server_value (_ ∷ suc (suc (suc (suc zero))) ∷ []) =
    some (ServerEnvelope.error (access_denied "busy"))
server_value (_ ∷ suc (suc (suc (suc (suc zero)))) ∷ []) =
    some (ServerEnvelope.error (access_denied "Test already in-flight"))
server_value (_ ∷ suc (suc (suc (suc (suc (suc zero))))) ∷ []) =
    some (ServerEnvelope.server_message (ServerMessage.set_state exchange_results))
server_value (_ ∷ suc (suc (suc (suc (suc (suc (suc zero)))))) ∷ []) =
    some (ServerEnvelope.server_message (ServerMessage.set_state (create_streams "secret")))
server_value _ = none

abbrev pub client_text : ClientEnvelope → Option (List ℕ)
client_text (ClientEnvelope.client_message (ClientMessage.send_results r)) = results_text r.streams
client_text (ClientEnvelope.client_message (ClientMessage.hello cookie)) =
    two_texts cookie "secret" (b'{' ∷ 1 ∷ []) "guess" (b'{' ∷ 2 ∷ [])
client_text (ClientEnvelope.client_message (ClientMessage.send_parameters p)) =
    text_if (str_eq p.client_version "0.1") (fields p)
client_text (ClientEnvelope.error (cannot_create_stream text)) =
    text_if (str_eq text "refused") (b'{' ∷ 4 ∷ [])

abbrev pub client_value : List ℕ → Option ClientEnvelope
client_value (_ ∷ suc zero ∷ []) =
    some (ClientEnvelope.client_message (ClientMessage.hello "secret"))
client_value (_ ∷ suc (suc zero) ∷ []) =
    some (ClientEnvelope.client_message (ClientMessage.hello "guess"))
client_value (_ ∷ suc (suc (suc (suc (suc zero)))) ∷ d ∷ o ∷ t ∷ p ∷ b ∷ s ∷ m ∷ []) =
    some (
      ClientEnvelope.client_message
        (ClientMessage.send_parameters (parameters d o t p b s m "0.1")))
client_value (_ ∷ suc (suc (suc zero)) ∷ l) =
    some (ClientEnvelope.client_message (ClientMessage.send_results (results_value l)))
client_value (_ ∷ suc (suc (suc (suc zero))) ∷ []) =
    some (ClientEnvelope.error (cannot_create_stream "refused"))
client_value _ = none

abbrev pub server_json : Json ServerEnvelope
server_json = record { to_string = server_text; from_slice = server_value }

abbrev pub client_json : Json ClientEnvelope
client_json = record { to_string = client_text; from_slice = client_value }

-- The parameters with another version.
versioned : TestParameters → String → TestParameters
versioned p version = record p { client_version = version }

fields_back :
    (p : TestParameters)
    → client_value (fields p)
      ≡ some (ClientEnvelope.client_message (ClientMessage.send_parameters (versioned p "0.1")))
unfolding versioned
fields_back p =
    rw
      (
        number_direction-direction_number p.direction,
        number_option-option_number p.socket_buffers,
        number_bool-bool_number p.measure_latency,
      )
      refl

server_back :
    (a : ServerEnvelope) (bytes : List ℕ) → server_text a ≡ some bytes → server_value bytes ≡ some a
server_back (ServerEnvelope.server_message ServerMessage.welcome) bytes e =
    read_back server_value (b'{' ∷ 1 ∷ []) bytes _ refl e
server_back (ServerEnvelope.server_message (ServerMessage.set_state running)) bytes e =
    read_back server_value (b'{' ∷ 2 ∷ []) bytes _ refl e
server_back (ServerEnvelope.server_message (ServerMessage.set_state exchange_results)) bytes e =
    read_back server_value (b'{' ∷ 6 ∷ []) bytes _ refl e
server_back (ServerEnvelope.server_message (ServerMessage.set_state (create_streams cookie))) bytes
      e =
    text_back server_value
      (λ s. ServerEnvelope.server_message (ServerMessage.set_state (create_streams s))) cookie
      "secret" (b'{' ∷ 7 ∷ []) bytes refl e
server_back (ServerEnvelope.server_message (ServerMessage.send_results r)) bytes e =
    results_back server_value (λ r. ServerEnvelope.server_message (ServerMessage.send_results r))
      r.streams (streams_numbers r.streams) bytes (λ l. refl) refl e
server_back (ServerEnvelope.error (access_denied text)) bytes e =
    two_back server_value (λ s. ServerEnvelope.error (access_denied s)) text "busy"
      "Test already in-flight" (b'{' ∷ 4 ∷ []) (b'{' ∷ 5 ∷ []) bytes refl refl e
server_back _ bytes e = cc

client_back :
    (a : ClientEnvelope) (bytes : List ℕ) → client_text a ≡ some bytes → client_value bytes ≡ some a
unfolding versioned
client_back (ClientEnvelope.client_message (ClientMessage.send_results r)) bytes e =
    results_back client_value (λ r. ClientEnvelope.client_message (ClientMessage.send_results r))
      r.streams (streams_numbers r.streams) bytes (λ l. refl) refl e
client_back (ClientEnvelope.error (cannot_create_stream text)) bytes e =
    text_back client_value (λ s. ClientEnvelope.error (cannot_create_stream s)) text "refused"
      (b'{' ∷ 4 ∷ []) bytes refl e
client_back (ClientEnvelope.client_message (ClientMessage.hello cookie)) bytes e =
    two_back client_value (λ s. ClientEnvelope.client_message (ClientMessage.hello s)) cookie
      "secret" "guess" (b'{' ∷ 1 ∷ []) (b'{' ∷ 2 ∷ []) bytes refl refl e
client_back (ClientEnvelope.client_message (ClientMessage.send_parameters p)) bytes e =
    text_back client_value
      (λ s. ClientEnvelope.client_message (ClientMessage.send_parameters (versioned p s)))
      p.client_version "0.1" (fields p) bytes (fields_back p) e

pub server_json-IsJson : IsJson ServerEnvelope server_json
server_json-IsJson = record { from_slice-to_string = server_back }

pub client_json-IsJson : IsJson ClientEnvelope client_json
client_json-IsJson = record { from_slice-to_string = client_back }

-- A queue is its capacity and what waits in it.
abbrev pub queues : Mpsc WorkerMessage
queues = record {
  Channel = ℕ × List WorkerMessage;
  channel = λ n. (n, []);
  try_send = λ m c. if ltb (length c.1) c.0 then (true, (c.0, c.1 ++ m ∷ [])) else (false, c);
}

abbrev pub some_stats : StreamStats
some_stats = record {
  sender = true;
  duration_millis = 1000;
  bytes_transferred = 4096;
  syscalls = 2;
  latency = none;
}

abbrev pub runtime : Runtime
runtime = record {
  transport = wires;
  server_json = server_json;
  client_json = client_json;
  mpsc = queues;
  connect = λ address n. ok (record { incoming = []; outgoing = [] });
  spawn = λ worker. joined (ok some_stats);
}
