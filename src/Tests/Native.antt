-- ===== src/Tests/Native.antt =====
-- Frames and roles of the p3 build.
use netperf.Prelude.{ℕ, ◌≡◌, refl, Option, some, List, [], ◌∷◌, ◌++◌, map, ltb, arith}
use netperf.Prelude.Bytes.{le_bytes}
use netperf.P2.Data.{server}
use netperf.P2.PerfTest.{stream_counts}
use netperf.P2.Controller.{is_server}
use netperf.P3.Roles.{direction_of, roles, roles-stream_counts}
use netperf.P3.Frames.{
  complete, ended, value, panics, recv_msg, framed, recv_msg-framed, recv_msg-panics,
}

abbrev as_text : List ℕ → Option (List ℕ)
as_text l = some l

abbrev portions : List (List ℕ)
portions = (3 ∷ 0 ∷ []) ∷ (0 ∷ 0 ∷ b'{' ∷ []) ∷ [] ∷ (b'}' ∷ 7 ∷ 9 ∷ []) ∷ []

roles-stream_counts_example :
    ((roles 1 (is_server server)).0 ≡ ltb 0 (stream_counts server (direction_of 1) 4).0)
    × ((roles 1 (is_server server)).1 ≡ ltb 0 (stream_counts server (direction_of 1) 4).1)
roles-stream_counts_example = roles-stream_counts 1 4 server (omega arith)

recv_msg-framed_example :
    recv_msg as_text (map complete portions ++ ended ∷ []) ≡ value (some (b'{' ∷ b'}' ∷ 7 ∷ []))
unfolding framed
recv_msg-framed_example =
    recv_msg-framed as_text (b'{' ∷ b'}' ∷ 7 ∷ []) (9 ∷ []) portions (ended ∷ []) (omega arith) refl

recv_msg-panics_example : recv_msg as_text (complete (le_bytes 4_294_967_295) ∷ ended ∷ []) ≡ panics
recv_msg-panics_example =
    recv_msg-panics as_text 4_294_967_295 (ended ∷ []) (omega arith) (omega arith)
