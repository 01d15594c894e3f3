-- ===== src/P3/Session/Forward.antt =====
-- A test in which the client sends: what it sent is what the server counts and what it prints.
use netperf.Prelude.{
  ℕ, zero, suc, ◌+◌, ◌^◌, ◌<◌, ◌≡◌, refl, ap, sym, ◌∙◌, subst, true, false, some, List, [], ◌∷◌,
  ◌++◌, map, length, concat, All, get_elem?, u64, arith,
}
use netperf.Prelude.Dicts.{get}
use netperf.Core.Stats.{Direction, StreamStats, TestResults}
use netperf.Core.Ui.{Totals, is_one_way, sum_lines, print_summary}
use netperf.Core.Ui.Sums.{bytes_of, lines_of, print_summary-IsTotal}
use netperf.P3.Frames.{Chunk, complete, ended}
use netperf.P3.Transfer.{Turn, Sends, nanos_of_secs, cookie_len, client_conn, server_conn}
use netperf.P3.Transfer.Counts.{accepted, IsWhole, IsEnd}
use netperf.P3.Transfer.Agreement.{Agrees, IsGreeting, stream_of, client_conn-server_conn}
use netperf.P3.Session.{
  Connection, Plan, client_side, run_stream, run_streams, enumerate, to_results,
}
use netperf.P3.Session.Negotiation.{mirror}

-- A client's end and a server's end of a connection that takes all that is sent: the cookie is
-- written whole and each write moves a whole block until the time is up, and the server reads what
-- the client's stream has carried.
pub record Carries (p : Plan) (c s : Connection) : Type 0 where
  pub before : List Turn
  pub stop : Turn
  pub late : List Turn
  pub portions : List (List ℕ)
  pub rest : List Chunk
  pub writes : c.sends.turns ≡ before ++ stop ∷ late
  pub whole : All (IsWhole (nanos_of_secs p.secs)) before
  pub ends : IsEnd p.block (nanos_of_secs p.secs) stop
  pub small : accepted p.block p.block before < 2 ^ 64
  pub reads : s.receives.chunks ≡ map complete portions ++ ended ∷ rest
  pub greets : IsGreeting c.greeting
  pub bytes : concat portions ≡ stream_of (client_side p c)

-- The connections of both sides, in the same order.
abbrev pub AllCarry : Plan → List Connection → List Connection → Type 0
AllCarry p [] [] = Unit
AllCarry p (c ∷ cs) (s ∷ ss) = Carries p c s × AllCarry p cs ss
AllCarry p _ _ = ⊥

-- A client that sends, with a cookie of the right length.
pub record IsForward (p : Plan) : Type 0 where
  pub sends : p.sending ≡ true
  pub only_sends : p.receiving ≡ false
  pub some_block : 0 < p.block
  pub whole_cookie : length p.cookie ≡ cookie_len

-- What a sender counted is what its receiver did.
abbrev pub SameBytes : List StreamStats → List StreamStats → Type 0
SameBytes [] [] = Unit
SameBytes (a ∷ as') (b ∷ bs) =
    (a.sender ≡ true)
    × (b.sender ≡ false)
    × (a.bytes_transferred ≡ b.bytes_transferred)
    × SameBytes as' bs
SameBytes _ _ = ⊥

client_side-Agrees :
    (p : Plan) (c s : Connection)
    → IsForward p
    → Carries p c s
    → Agrees (client_side p c) (run_stream true (mirror p) s)
unfolding run_stream
client_side-Agrees p c s f h =
    let client =
      client_conn p.cookie true false p.block p.secs p.measure c.greeting c.sends c.receives in
    let forward : client_side p c ≡ client = rw (f.sends, f.only_sends) refl in
    let writes : Sends = record { turns = h.before ++ h.stop ∷ h.late; finish = c.sends.finish } in
    let of_writes = client_conn p.cookie true false p.block p.secs p.measure c.greeting in
    let written : client ≡ of_writes writes c.receives =
      ap (λ t. of_writes (record { turns = t; finish = c.sends.finish }) c.receives) h.writes in
    let agreed =
      client_conn-server_conn p.block p.secs c.sends.finish s.receives.finish p.measure h.before
        h.stop h.late c.greeting c.receives s.sends p.cookie h.portions h.rest f.some_block h.whole
        h.ends f.whole_cookie h.greets h.small
        (h.bytes ∙ ap stream_of forward ∙ ap stream_of written) in
    let server = server_conn p.cookie true false p.block p.secs p.measure s.sends in
    let read =
      subst (λ k. Agrees client (server (record { chunks = k; finish = s.receives.finish })))
        (sym h.reads)
        (subst
          (λ x. Agrees x (
            server (record {
              chunks = map complete h.portions ++ ended ∷ h.rest;
              finish = s.receives.finish;
            })))
          (sym written) agreed) in
    rw (f.sends, f.only_sends) read

run_streams-SameBytes :
    (p : Plan) (cs ss : List Connection)
    → IsForward p
    → AllCarry p cs ss
    → (sent : List StreamStats) × (received : List StreamStats) × (run_streams false p cs
        ≡ some sent)
      × (run_streams true (mirror p) ss ≡ some received)
      × SameBytes sent received
      × (length sent ≡ length cs)
unfolding run_streams run_stream
run_streams-SameBytes p [] [] f h = ([], [], refl, refl, tt, refl)
run_streams-SameBytes p [] (s ∷ ss) f h = absurd h
run_streams-SameBytes p (c ∷ cs) [] f h = absurd h
run_streams-SameBytes p (c ∷ cs) (s ∷ ss) f h =
    let one = client_side-Agrees p c s f h.0 in
    let (sent, received, by_client, by_server, same, l) = run_streams-SameBytes p cs ss f h.1 in
    (
      one.sent ∷ sent,
      one.received ∷ received,
      rw (one.client_result, by_client) refl,
      rw (one.server_result, by_server) refl,
      (one.sends, one.receives, one.same_bytes, same),
      ap suc l,
    )

get-enumerate : (i j : ℕ) (l : List StreamStats) → get (i + j) (enumerate i l) ≡ get_elem? l j
get-enumerate i j [] = refl
get-enumerate i zero (s ∷ l) = ground arith
get-enumerate i (suc j) (s ∷ l) =
    let rest = get-enumerate (suc i) j l in
    let same : suc i + j ≡ i + suc j = omega arith in
    let moved = subst (λ k. get k (enumerate (suc i) l) ≡ get_elem? l j) same rest in
    ground (arith, moved)

bytes_of-SameBytes :
    (i : ℕ) (direction : Direction) (sent received : List StreamStats) (remote : TestResults)
    → is_one_way direction ≡ true
    → SameBytes sent received
    → ((j : ℕ) → get (i + j) remote.streams ≡ get_elem? received j)
    → bytes_of true (lines_of remote direction (enumerate i sent))
      ≡ bytes_of false (lines_of remote direction (enumerate i sent))
bytes_of-SameBytes i direction [] [] remote d h g = refl
bytes_of-SameBytes i direction [] (b ∷ bs) remote d h g = absurd h
bytes_of-SameBytes i direction (a ∷ as') [] remote d h g = absurd h
bytes_of-SameBytes i direction (a ∷ as') (b ∷ bs) remote d h g =
    let (sends, receives, same, more) = h in
    let rest =
      bytes_of-SameBytes (suc i) direction as' bs remote d more
        (λ j. subst (λ k. get k remote.streams ≡ get_elem? bs j) (omega arith) (g (suc j))) in
    let here : get i remote.streams ≡ some b =
      subst (λ k. get k remote.streams ≡ some b) (omega arith) (g 0) in
    rw (d, here, sends, receives) (omega (arith, rest, same))

-- Both sides of the data connections end, and the summary of the client has equal sums.
pub record Delivers (p : Plan) (cs ss : List Connection) (direction : Direction) : Type 0 where
  pub sent : List StreamStats
  pub received : List StreamStats
  pub by_client : run_streams false p cs ≡ some sent
  pub by_server : run_streams true (mirror p) ss ≡ some received
  pub same : SameBytes sent received
  pub sums : Totals
  pub printed :
      print_summary (to_results sent) (to_results received) direction
      ≡ lines_of (to_results received) direction (to_results sent).streams ++ sum_lines sums
  pub equal : sums.sender_bytes_transferred ≡ sums.receiver_bytes_transferred

length-enumerate : (i : ℕ) (l : List StreamStats) → length (enumerate i l) ≡ length l
length-enumerate i [] = refl
length-enumerate i (s ∷ l) = ap suc (length-enumerate (suc i) l)

-- In the p3 build, for a client that only sends, in a test in one direction, with a cookie of
-- eight bytes, a positive block size and more than one connection: if on each connection the
-- cookie is written whole and each write moves a whole block until the time is up or the peer has
-- closed, fewer than 2^64 bytes in all, and the server reads, in portions cut in any way, what the
-- client's stream has carried, then the streams end on both sides, connection by connection a
-- sender and a receiver with the same number of bytes, and the summary of these results ends with
-- equal sums of bytes sent and received.
pub run_streams-Delivers :
    (p : Plan) (cs ss : List Connection) (direction : Direction)
    → is_one_way direction ≡ true
    → IsForward p
    → AllCarry p cs ss
    → 1 < length cs
    → Delivers p cs ss direction
unfolding to_results
run_streams-Delivers p cs ss direction d f h l =
    let (sent, received, by_client, by_server, same, n) = run_streams-SameBytes p cs ss f h in
    let size = length-enumerate 0 sent in
    let (sums, printed, total) =
      print_summary-IsTotal (to_results sent) (to_results received) direction (omega arith) in
    let bytes = bytes_of-SameBytes 0 direction sent received (to_results received) d same (λ j.
      subst (λ k. get k (enumerate 0 received) ≡ get_elem? received j) (omega arith)
        (get-enumerate 0 j received)) in
    record {
      sent = sent;
      received = received;
      by_client = by_client;
      by_server = by_server;
      same = same;
      sums = sums;
      printed = printed;
      equal = total.sent ∙ ap u64 bytes ∙ sym total.received;
    }
