-- ===== src/P2/NetUtils/RoundTrip.antt =====
-- What is sent is what is read: frames, messages and errors of the control socket.
use mathlib.Core.List.{append_assoc}
use netperf.Prelude.{ℕ, ◌/◌, ◌%◌, ◌^◌, ◌≤◌, ◌<◌, ◌≡◌, ◌∙◌, List, [], ◌++◌, length, arith, some}
use netperf.Prelude.Bytes.{be_bytes}
use netperf.P2.Data.{max_control_message}
use netperf.P2.Result.{ok, err, message, unusually_large}
use netperf.P2.Transport.{Transport, Reads, Writes, Json, IsJson}
use netperf.P2.NetUtils.{
  read_loop, send_payload, read_payload, send_control_message, read_control_message,
}
use netperf.P2.NetUtils.Receive.{read_loop_complete, read_loop_short}

abbrev pub frame : List ℕ → List ℕ
frame payload = be_bytes (length payload) ++ payload

module _ (t : Transport) {A : Type 0} (j : Json A) where
  send_payload_lem :
      (payload : List ℕ) (s : t.Socket)
      → length payload < 2 ^ 32
      → send_payload t payload s ≡ t.write_all (frame payload) s
  unfolding send_payload
  send_payload_lem payload s h =
      let fits : length payload % 2 ^ 32 ≡ length payload = omega arith in rw fits (ground arith)

  -- A payload that fits 32 bits goes out as one frame.
  pub send_control_message_lem :
      (w : Writes t) (m : A) (payload : List ℕ) (s : t.Socket)
      → w.IsOpen s
      → j.to_string m ≡ some payload
      → length payload < 2 ^ 32
      → (s' : t.Socket) × (send_control_message t j m s ≡ (ok tt, s'))
        × w.IsOpen s'
        × (w.sent s' ≡ w.sent s ++ frame payload)
  unfolding send_control_message
  send_control_message_lem w m payload s o e h =
      let (s', done, o', sent) = w.written (frame payload) s o in
      (s', rw e (send_payload_lem payload s h ∙ done), o', sent)

  read_payload_lem :
      (m : A) (payload : List ℕ) (s s' : t.Socket)
      → length payload ≤ max_control_message
      → read_loop t (length payload) (length payload) [] s ≡ (ok payload, s')
      → j.from_slice payload ≡ some m
      → read_payload t j (length payload) s ≡ (ok m, s')
  unfolding read_payload
  read_payload_lem m payload s s' h e f = ground arith

  -- A frame is read as the message it holds, however the stream is cut into portions.
  pub read_control_message_lem :
      (r : Reads t)
      → IsJson A j
      → (m : A) (payload rest : List ℕ) (s : t.Socket) → r.IsOpen s
      → j.to_string m ≡ some payload
      → length payload ≤ max_control_message
      → r.pending s ≡ frame payload ++ rest
      → (s' : t.Socket) × (read_control_message t j s ≡ (ok m, s'))
        × r.IsOpen s'
        × (r.pending s' ≡ rest)
  unfolding read_control_message
  read_control_message_lem r laws m payload rest s o e h p =
      let (s₁, size, o₁, left) =
        r.number (length payload) (payload ++ rest) s o (omega arith)
          (p ∙ append_assoc (be_bytes (length payload)) payload rest) in
      let (s₂, body, o₂, final) =
        read_loop_complete t r (length payload) [] payload rest s₁ o₁ (omega arith) left in
      let parsed = laws.from_slice-to_string m payload e in
      (s₂, rw size (read_payload_lem m payload s₁ s₂ h body parsed), o₂, final)

  -- If a stream holds a length within the limit and then fewer bytes than it announces, reading a
  -- control message ends with the error that the peer has closed, and never with a message.
  pub read_control_message-truncated :
      (r : Reads t) (n : ℕ) (part : List ℕ) (s : t.Socket)
      → r.IsOpen s
      → n ≤ max_control_message
      → length part < n
      → r.pending s ≡ be_bytes n ++ part
      → (s' : t.Socket) × (read_control_message t j s
          ≡ (err (message "Connected was closed by peer."), s'))
  unfolding read_control_message
  read_control_message-truncated r n part s o h l p =
      let (s₁, size, o₁, left) = r.number n part s o (omega arith) p in
      let (s₂, closed) = read_loop_short t r n n [] s₁ o₁ (omega arith) (rw left l) in
      (s₂, rw size (payload_short n s₁ s₂ h closed))
    where
      payload_short :
          (n : ℕ) (s s' : t.Socket)
          → n ≤ max_control_message
          → read_loop t n n [] s ≡ (err (message "Connected was closed by peer."), s')
          → read_payload t j n s ≡ (err (message "Connected was closed by peer."), s')
      payload_short n s s' h e = ground arith

  -- A 32-bit length above the limit of 20 MB is refused with the error of an unusually large
  -- header, and nothing behind the length is read.
  pub read_control_message-large :
      (r : Reads t) (n : ℕ) (rest : List ℕ) (s : t.Socket)
      → r.IsOpen s
      → n < 2 ^ 32
      → max_control_message < n
      → r.pending s ≡ be_bytes n ++ rest
      → (s' : t.Socket) × (read_control_message t j s
          ≡ (err (unusually_large (n / 1024) max_control_message), s'))
        × (r.pending s' ≡ rest)
  unfolding read_control_message
  read_control_message-large r n rest s o h l p =
      let (s₁, size, o₁, left) = r.number n rest s o h p in (s₁, rw size (refused n s₁ l), left)
    where
      refused :
          (n : ℕ) (s : t.Socket)
          → max_control_message < n
          → read_payload t j n s ≡ (err (unusually_large (n / 1024) max_control_message), s)
      refused n s l = ground arith
