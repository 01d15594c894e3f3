-- ===== src/P2/Controller/Results.antt =====
-- The results of the workers, and their exchange with the other side.
use netperf.Prelude.{
  ℕ, ◌==◌, ◌≤◌, ◌≡◌, refl, ap, ◌∙◌, Bool-cases, ==_iff, subst, inl, inr, Option, none, some, List,
  [], ◌∷◌, ◌++◌, length, arith, if◌then◌else◌,
}
use netperf.Prelude.Dicts.{get, get-insert, Unique}
use netperf.Core.Stats.{StreamStats, TestResults}
use netperf.P2.Data.{server, client, max_control_message}
use netperf.P2.Control.{ClientMessage, ServerMessage, ClientEnvelope, ServerEnvelope}
use netperf.P2.Result.{ok, err, panic, diverged}
use netperf.P2.Transport.{Transport, Json, IsJson, Duplex}
use netperf.P2.NetUtils.{
  client_send_message, server_send_message, client_read_message, server_read_message,
}
use netperf.P2.NetUtils.RoundTrip.{frame, send_control_message_lem, read_control_message_lem}
use netperf.P2.NetUtils.Keeps.{send-keeps-pending, read-keeps-sent}
use netperf.P2.Runtime.{Runtime, Join, joined, join_error, late}
use netperf.P2.PerfTest.{StreamWorkerRef}
use netperf.P2.Controller.{TestController}
use netperf.P2.Controller.Run.{keep_result, collect, collect_test_result, exchange_with_peer}

-- What is known of a stream after the collection: its worker's result if that ended well, else
-- what was stored before.
abbrev pub result_of : Join → Option StreamStats → Option StreamStats
result_of (joined (ok stats)) old = some stats
result_of _ old = old

module _ (env : Runtime) where
  abbrev pub result_of_ref : Option (StreamWorkerRef env) → Option StreamStats → Option StreamStats
  result_of_ref (some worker_ref) old = result_of worker_ref.join_handle old
  result_of_ref none old = old

  pub get-keep_result :
      (k id : ℕ) (j : Join) (results : List (ℕ × StreamStats))
      → get k (keep_result env id j results)
        ≡ (if id == k then result_of j (get k results) else get k results)
  unfolding keep_result
  get-keep_result k id (joined (ok stats)) results = ground (arith, get-insert id k stats results)
  get-keep_result k id (joined (err e)) results = ground arith
  get-keep_result k id (joined panic) results = ground arith
  get-keep_result k id (joined diverged) results = ground arith
  get-keep_result k id join_error results = ground arith
  get-keep_result k id late results = ground arith

  pub get-collect :
      (k : ℕ) (refs : List (ℕ × StreamWorkerRef env)) (results : List (ℕ × StreamStats))
      → Unique refs
      → get k (collect env refs results) ≡ result_of_ref (get k refs) (get k results)
  unfolding collect
  get-collect k [] results u = refl
  get-collect k ((id, worker_ref) ∷ refs) results u =
      let stored = get-keep_result k id worker_ref.join_handle results in
      let rest = get-collect k refs (keep_result env id worker_ref.join_handle results) u.1 in
      elim (Bool-cases (id == k)) [
        | inl e ↦
            let gone = subst (λ j. get j refs ≡ none) ((==_iff id k).0 e) u.0 in
            rw e (rest ∙ rw (gone, stored, e) refl)
        | inr e ↦ rw e (rest ∙ rw (stored, e) refl)
      ]

  -- If no two registered streams share a number, then for every number the results that a side
  -- collects hold what the stream's worker returned if that ended well within the timeout, and
  -- else what was stored for that number before.
  pub get-collect_test_result :
      (k : ℕ) (c : TestController env)
      → Unique c.test.streams
      → get k (collect_test_result env c).0.streams
        ≡ result_of_ref (get k c.test.streams) (get k c.stream_results)
  unfolding collect_test_result
  get-collect_test_result k c u = get-collect k c.test.streams c.stream_results u

  -- What an exchange with `remote` comes to: `own` was sent, and the socket has moved past `rest`.
  pub record Exchanges (d : Duplex (Runtime.transport env)) (own rest : List ℕ)
      (local remote : TestResults) (c : TestController env) : Type 0 where
    pub after : TestController env
    pub result : exchange_with_peer env local c ≡ (ok remote, after)
    pub sent :
        d.writes.sent after.test.control_socket ≡ d.writes.sent c.test.control_socket ++ frame own
    pub left : d.reads.pending after.test.control_socket ≡ rest

  module _ (d : Duplex (Runtime.transport env))
      (is_server_json : IsJson ServerEnvelope (Runtime.server_json env))
      (is_client_json : IsJson ClientEnvelope (Runtime.client_json env))
      (of_client of_server rest : List ℕ) (from_client from_server : TestResults)
      (c : TestController env) (client_fits : length of_client ≤ max_control_message)
      (server_fits : length of_server ≤ max_control_message)
      (client_text : Json.to_string
          (Runtime.client_json env)
          (ClientEnvelope.client_message (ClientMessage.send_results from_client))
        ≡ some of_client)
      (server_text : Json.to_string
          (Runtime.server_json env)
          (ServerEnvelope.server_message (ServerMessage.send_results from_server))
        ≡ some of_server)
      (reading : d.reads.IsOpen c.test.control_socket)
      (writing : d.writes.IsOpen c.test.control_socket) where
    exchange_client :
        (s₁ s₂ : Transport.Socket (Runtime.transport env))
        → c.test.role ≡ client
        → client_send_message
            (Runtime.transport env)
            (Runtime.client_json env)
            (ClientMessage.send_results from_client)
            c.test.control_socket
          ≡ (ok tt, s₁)
        → client_read_message (Runtime.transport env) (Runtime.server_json env) s₁
          ≡ (ok (ServerMessage.send_results from_server), s₂)
        → exchange_with_peer env from_client c
          ≡ (ok from_server, record c { test = record c.test { control_socket = s₂ } })
    unfolding exchange_with_peer
    exchange_client s₁ s₂ r e f = ground arith

    exchange_server :
        (s₁ s₂ : Transport.Socket (Runtime.transport env))
        → c.test.role ≡ server
        → server_read_message
            (Runtime.transport env)
            (Runtime.client_json env)
            c.test.control_socket
          ≡ (ok (ClientMessage.send_results from_client), s₁)
        → server_send_message
            (Runtime.transport env)
            (Runtime.server_json env)
            (ServerMessage.send_results from_server)
            s₁
          ≡ (ok tt, s₂)
        → exchange_with_peer env from_server c
          ≡ (ok from_client, record c { test = record c.test { control_socket = s₂ } })
    unfolding exchange_with_peer
    exchange_server s₁ s₂ r e f = ground arith

    -- On a duplex socket with lawful JSON, texts within the limit and the frame of the server's
    -- results arriving, the exchange on a client returns the server's results, writes exactly the
    -- frame of its own, and leaves what follows unread.
    pub exchange_with_peer-client :
        c.test.role ≡ client
        → d.reads.pending c.test.control_socket ≡ frame of_server ++ rest
        → Exchanges d of_client rest from_client from_server c
    unfolding client_send_message client_read_message
    exchange_with_peer-client r arriving =
        let (s₁, sent, o₁, all) =
          send_control_message_lem t client_json d.writes _ of_client s writing client_text
            (omega arith) in
        let (reads₁, same) = send-keeps-pending t d client_json s s₁ _ reading sent in
        let (s₂, got, _, left) =
          read_control_message_lem t server_json d.reads is_server_json _ of_server rest s₁ reads₁
            server_text server_fits (same ∙ arriving) in
        record {
          after = record c { test = record c.test { control_socket = s₂ } };
          result = exchange_client s₁ s₂ r sent (rw got refl);
          sent = (read-keeps-sent t d server_json s₁ s₂ o₁ got).1 ∙ all;
          left = left;
        }
      where
        open c.test use {control_socket as s}
        open env use {transport as t, client_json, server_json}

    -- On a duplex socket with lawful JSON, texts within the limit and the frame of the client's
    -- results arriving, the exchange on a server returns the client's results, writes exactly the
    -- frame of its own, and leaves what follows unread.
    pub exchange_with_peer-server :
        c.test.role ≡ server
        → d.reads.pending c.test.control_socket ≡ frame of_client ++ rest
        → Exchanges d of_server rest from_server from_client c
    unfolding server_send_message server_read_message
    exchange_with_peer-server r arriving =
        let (s₁, got, reads₁, left) =
          read_control_message_lem t client_json d.reads is_client_json _ of_client rest s reading
            client_text client_fits arriving in
        let (o₁, same) = read-keeps-sent t d client_json s s₁ writing got in
        let (s₂, sent, _, all) =
          send_control_message_lem t server_json d.writes _ of_server s₁ o₁ server_text
            (omega arith) in
        record {
          after = record c { test = record c.test { control_socket = s₂ } };
          result = exchange_server s₁ s₂ r (rw got refl) sent;
          sent = all ∙ ap (λ l. l ++ frame of_server) same;
          left = (send-keeps-pending t d server_json s₁ s₂ _ reads₁ sent).1 ∙ left;
        }
      where
        open c.test use {control_socket as s}
        open env use {transport as t, client_json, server_json}
