-- ===== src/Tests/Transfer.antt =====
-- A test of one stream in the p3 build.
use netperf.Prelude.{ℕ, ◌≡◌, refl, true, false, some, List, [], ◌∷◌, ◌++◌, map, arith, inl}
use netperf.P3.Frames.{complete, ended}
use netperf.P3.Transfer.{
  Turn, Sends, Receives, Greeting, data_of, client_conn, server_conn, write_data,
}
use netperf.P3.Transfer.Counts.{accepted}
use netperf.P3.Transfer.Ends.{Reports, write_data-overcounts, server_conn-refuses}
use netperf.P3.Transfer.Agreement.{Agrees, client_conn-server_conn}

abbrev pub cookie : List ℕ
cookie = 1 ∷ 2 ∷ 3 ∷ 4 ∷ 5 ∷ 6 ∷ 7 ∷ 8 ∷ []

abbrev pub whole_write : Turn
whole_write = record { elapsed = 0; write_ns = 5; left = 0 }

abbrev pub late_write : Turn
late_write = record { elapsed = 1_000_000_000; write_ns = 5; left = 0 }

abbrev pub no_sends : Sends
no_sends = record { turns = []; finish = 0 }

abbrev pub no_receives : Receives
no_receives = record { chunks = []; finish = 0 }

abbrev pub greeting : Greeting
greeting = record { taken = 8; returns = true }

-- The cookie in two portions, the second with one byte of data; three more bytes follow.
abbrev pub portions : List (List ℕ)
portions = (1 ∷ 2 ∷ 3 ∷ []) ∷ (4 ∷ 5 ∷ 6 ∷ 7 ∷ 8 ∷ 0 ∷ []) ∷ (0 ∷ 0 ∷ 0 ∷ []) ∷ []

abbrev pub sending : Sends
sending = record { turns = (whole_write ∷ []) ++ late_write ∷ []; finish = 1_000_000_000 }

abbrev pub receiving : Receives
receiving = record { chunks = map complete portions ++ ended ∷ []; finish = 1_001_000_000 }

client_conn-server_conn_example :
    Agrees
      (client_conn cookie true false 4 1 false greeting sending no_receives)
      (server_conn cookie true false 4 1 false no_sends receiving)
unfolding client_conn data_of write_data
client_conn-server_conn_example =
    client_conn-server_conn 4 1 1_000_000_000 1_001_000_000 false (whole_write ∷ []) late_write []
      greeting no_receives no_sends cookie portions [] (omega arith) ((omega arith, refl), tt)
      (inl (omega arith)) refl (refl, refl) (omega arith) refl

server_conn-refuses_example :
    server_conn (9 ∷ 2 ∷ 3 ∷ 4 ∷ 5 ∷ 6 ∷ 7 ∷ 8 ∷ []) true false 4 1 false no_sends receiving
    ≡ some []
server_conn-refuses_example =
    server_conn-refuses 4 1 1_001_000_000 false no_sends (9 ∷ 2 ∷ 3 ∷ 4 ∷ 5 ∷ 6 ∷ 7 ∷ 8 ∷ []) refl
      true false portions [] (λ e. cc)

-- A peer that has taken one byte of four and is gone.
abbrev gone : Turn
gone = record { elapsed = 0; write_ns = 5; left = 3 }

write_data-overcounts_example :
    (accepted 4 4 (gone ∷ gone ∷ []) ≡ 1)
    × Reports true 2 (
        write_data 4 1 false
          (record { turns = (gone ∷ gone ∷ []) ++ late_write ∷ []; finish = 1_000_000_000 }))
write_data-overcounts_example =
    write_data-overcounts 4 1 1_000_000_000 3 false gone (gone ∷ []) late_write [] (omega arith)
      (omega arith) ((omega arith, refl), ((omega arith, refl), tt)) (omega arith)
