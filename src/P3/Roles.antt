-- ===== src/P3/Roles.antt =====
-- crates/netperf-p3/src/lib.rs: the direction of a test as a number.
use netperf.Prelude.{ℕ, zero, suc, ◌<◌, ◌≡◌, Bool, true, not, ltb, arith}
use netperf.Core.Stats.{Direction, client_to_server, server_to_client, bidirectional}
use netperf.P2.Data.{Role, server, client}
use netperf.P2.PerfTest.{stream_counts}
use netperf.P2.Controller.{is_server}

-- DIR_REVERSE is 1 and DIR_BIDIR is 2; any other number stands for DIR_FORWARD.
unfoldable pub direction_of : ℕ → Direction
direction_of (suc zero) = server_to_client
direction_of (suc (suc zero)) = bidirectional
direction_of _ = client_to_server

-- Whether a side sends, and whether it receives; the flag says that it is the server.
unfoldable pub roles : ℕ → Bool → Bool × Bool
roles (suc (suc zero)) s = (true, true)
roles (suc zero) s = (s, not s)
roles _ s = (not s, s)

-- For every direction number and at least one parallel stream, a side of the p3 build sends
-- exactly if the same side of the p2 build has streams to send on, and receives exactly if that
-- has streams to receive on.
pub roles-stream_counts :
    (dir parallel : ℕ) (role : Role)
    → 0 < parallel
    → ((roles dir (is_server role)).0 ≡ ltb 0 (stream_counts role (direction_of dir) parallel).0)
      × ((roles dir (is_server role)).1 ≡ ltb 0 (stream_counts role (direction_of dir) parallel).1)
unfolding roles direction_of
roles-stream_counts zero parallel server h = ground arith
roles-stream_counts zero parallel client h = ground arith
roles-stream_counts (suc zero) parallel server h = ground arith
roles-stream_counts (suc zero) parallel client h = ground arith
roles-stream_counts (suc (suc zero)) parallel server h = ground arith
roles-stream_counts (suc (suc zero)) parallel client h = ground arith
roles-stream_counts (suc (suc (suc dir))) parallel server h = ground arith
roles-stream_counts (suc (suc (suc dir))) parallel client h = ground arith
