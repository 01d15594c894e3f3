-- ===== src/P2/NetUtils/Both.antt =====
-- Sending and reading one message on a socket that serves both directions.
use netperf.Prelude.{ℕ, ◌^◌, ◌≤◌, ◌<◌, ◌≡◌, ◌∙◌, List, ◌++◌, some, length}
use netperf.P2.Data.{max_control_message}
use netperf.P2.Result.{ok}
use netperf.P2.Transport.{Transport, Json, IsJson, Duplex}
use netperf.P2.NetUtils.{send_control_message, read_control_message}
use netperf.P2.NetUtils.RoundTrip.{frame, send_control_message_lem, read_control_message_lem}
use netperf.P2.NetUtils.Keeps.{send-keeps-pending, read-keeps-sent}

module _ (t : Transport) (d : Duplex t) where
  -- A socket open both ways, with what was sent and what is to come.
  pub record Holds (sent pending : List ℕ) (s : t.Socket) : Type 0 where
    pub reading : d.reads.IsOpen s
    pub writing : d.writes.IsOpen s
    pub sent_so_far : d.writes.sent s ≡ sent
    pub to_come : d.reads.pending s ≡ pending

  pub send_lem :
      {A : Type 0} (j : Json A) (m : A) (payload sent pending : List ℕ) (s : t.Socket)
      → Holds sent pending s
      → j.to_string m ≡ some payload
      → length payload < 2 ^ 32
      → (s' : t.Socket) × (send_control_message t j m s ≡ (ok tt, s'))
        × Holds (sent ++ frame payload) pending s'
  send_lem j m payload sent pending s h e l =
      let (s', done, writing, all) =
        send_control_message_lem t j d.writes m payload s h.writing e l in
      let (reading, same) = send-keeps-pending t d j s s' m h.reading done in
      (
        s',
        done,
        record {
          reading = reading;
          writing = writing;
          sent_so_far = rw h.sent_so_far at all;
          to_come = same ∙ h.to_come;
        },
      )

  pub read_lem :
      {A : Type 0} (j : Json A)
      → IsJson A j
      → (m : A) (payload sent rest : List ℕ) (s : t.Socket) → Holds sent (frame payload ++ rest) s
      → j.to_string m ≡ some payload
      → length payload ≤ max_control_message
      → (s' : t.Socket) × (read_control_message t j s ≡ (ok m, s')) × Holds sent rest s'
  read_lem j laws m payload sent rest s h e l =
      let (s', got, reading, left) =
        read_control_message_lem t j d.reads laws m payload rest s h.reading e l h.to_come in
      let (writing, same) = read-keeps-sent t d j s s' h.writing got in
      (
        s',
        got,
        record {
          reading = reading;
          writing = writing;
          sent_so_far = same ∙ h.sent_so_far;
          to_come = left;
        },
      )
