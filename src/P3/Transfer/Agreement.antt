-- ===== src/P3/Transfer/Agreement.antt =====
-- A client that sends and a server that receives report the same bytes.
use netperf.Prelude.{
  ℕ, ◌^◌, ◌<◌, ◌≡◌, refl, ap, ◌∙◌, zero, suc, Bool, true, false, Option, none, some, List, [], ◌∷◌,
  ◌++◌, map, length, length-replicate, concat, replicate, take, All, arith,
}
use netperf.Core.Stats.{StreamStats}
use netperf.P3.Frames.{Chunk, complete, ended}
use netperf.P3.Transfer.{
  Turn, Sends, Receives, Greeting, Sent, nanos_of_secs, client_conn, server_conn, cookie_len,
}
use netperf.P3.Transfer.Counts.{accepted, IsWhole, IsEnd}
use netperf.P3.Transfer.Ends.{write_data-whole, data_of-whole, server_conn-counts}

-- One stream as both ends report it.
pub record Agrees (client : Option Sent) (server : Option (List StreamStats)) : Type 0 where
  pub sent : StreamStats
  pub received : StreamStats
  pub stream : List ℕ
  pub client_result : client ≡ some (record { stream = stream; stats = sent ∷ [] })
  pub server_result : server ≡ some (received ∷ [])
  pub sends : sent.sender ≡ true
  pub receives : received.sender ≡ false
  pub same_bytes : sent.bytes_transferred ≡ received.bytes_transferred

-- What a client's stream has carried, if the client ends.
abbrev pub stream_of : Option Sent → List ℕ
stream_of none = []
stream_of (some c) = c.stream

-- The cookie is written whole.
abbrev pub IsGreeting : Greeting → Type 0
IsGreeting g = (g.taken ≡ cookie_len) × (g.returns ≡ true)

take-all : (xs : List ℕ) (n : ℕ) → length xs ≡ n → take n xs ≡ xs
take-all [] zero e = refl
take-all [] (suc n) e = refl
take-all (x ∷ xs) zero e = absurd (omega (arith, e))
take-all (x ∷ xs) (suc n) e = ap (λ l. x ∷ l) (take-all xs n (omega (arith, e)))

-- In the p3 build, if a sending client's write of the cookie, of eight bytes, moves it whole and
-- returns, each of its writes before the last round moves a whole block, the last round comes
-- after the time is up or moves nothing, the count is below 2^64, and the portions that the server
-- reads, cut in any way, make up what the client's stream has carried, then the client reports one
-- sender and the server, which finds its cookie there, one receiver, with the same number of
-- bytes.
pub client_conn-server_conn :
    (block secs finish_c finish_s : ℕ) (measure : Bool) (before : List Turn) (stop : Turn)
    (late : List Turn) (g : Greeting) (r : Receives) (s : Sends) (cookie : List ℕ)
    (bs : List (List ℕ)) (rest : List Chunk)
    → 0 < block
    → All (IsWhole (nanos_of_secs secs)) before
    → IsEnd block (nanos_of_secs secs) stop
    → length cookie ≡ cookie_len
    → IsGreeting g
    → accepted block block before < 2 ^ 64
    → concat bs
      ≡ stream_of (
          client_conn cookie true false block secs measure g
            (record { turns = before ++ stop ∷ late; finish = finish_c })
            r)
    → Agrees
        (client_conn cookie true false block secs measure g
          (record { turns = before ++ stop ∷ late; finish = finish_c })
          r)
        (server_conn cookie true false block secs measure s
          (record { chunks = map complete bs ++ ended ∷ rest; finish = finish_s }))
unfolding client_conn
client_conn-server_conn block secs finish_c finish_s measure before stop late g r s cookie bs rest b
      a e eight h l all =
    let n = accepted block block before in
    let zeros : List ℕ = replicate n 0 in
    let size = length-replicate {A = ℕ} n 0 in
    let sends : Sends = record { turns = before ++ stop ∷ late; finish = finish_c } in
    let c = write_data-whole block secs finish_c measure before stop late b a e in
    let bytes = data_of-whole block secs finish_c measure before stop late b a e in
    let head : take g.taken cookie ≡ cookie =
      ap (λ k. take k cookie) h.0 ∙ take-all cookie cookie_len eight in
    let ran : client_conn cookie true false block secs measure g sends r
        ≡ some (record { stream = cookie ++ zeros; stats = c.stats ∷ [] }) =
      rw (h.1, c.result, bytes, head) refl in
    let (v, served, role, total) =
      server_conn-counts block secs finish_s measure s cookie eight bs zeros rest
        (all ∙ ap stream_of ran) (omega arith) in
    record {
      sent = c.stats;
      received = v;
      stream = cookie ++ zeros;
      client_result = ran;
      server_result = served;
      sends = c.role;
      receives = role;
      same_bytes = omega (arith, c.bytes);
    }
