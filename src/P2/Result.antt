-- ===== src/P2/Result.antt =====
-- `anyhow::Result` with the errors that the crate makes or passes on, panics, and code that
-- threads a state. `to_server_error` and `to_client_error` of common/control.rs.
use netperf.Prelude.{ℕ, String, Option, none, some}
use netperf.P2.Control.{ServerError, ClientError}

pub data Error : Type 0 where
  -- `anyhow::Error::new` of a `ServerError` or a `ClientError`
  server_error : ServerError → Error
  client_error : ClientError → Error
  -- an I/O error of a socket, a timer or a channel, and an error of serde_json
  io : Error
  json : Error
  -- `bail!` of the oversized header, with the two numbers it prints
  unusually_large : ℕ → ℕ → Error
  -- any other `anyhow!` or `bail!`
  message : String → Error
  -- `.context(text)`
  context : String → Error → Error

-- `diverged` is no result of the code: the fuel of a loop ran out.
pub data Result {ℓ} (A : Type ℓ) : Type ℓ where
  ok : A → Result A
  err : Error → Result A
  panic : Result A
  diverged : Result A

abbrev pub with_context {ℓ} : {A : Type ℓ} → String → Result A → Result A
with_context text (ok a) = ok a
with_context text (err e) = err (context text e)
with_context text panic = panic
with_context text diverged = diverged

-- `let _ =`: an error is dropped, a panic is not.
abbrev pub ignore {ℓ} : {A : Type ℓ} → Result A → Result (Unit {0})
ignore (ok a) = ok tt
ignore (err e) = ok tt
ignore panic = panic
ignore diverged = diverged

-- What follows a stateful call, if that returned.
abbrev pub next {ℓ κ μ} :
    {S : Type ℓ} {A : Type κ} {B : Type μ} → Result A × S → (A → S → Result B × S) → Result B × S
next (ok a, s) f = f a s
next (err e, s) f = (err e, s)
next (panic, s) f = (panic, s)
next (diverged, s) f = (diverged, s)

infixl 5 ◌>>=◌ ◌>>◌
abbrev pub ◌>>=◌ {ℓ κ μ} :
    {S : Type ℓ} {A : Type κ} {B : Type μ}
    → (S → Result A × S)
    → (A → S → Result B × S)
    → S
    → Result B × S
◌>>=◌ m f s = next (m s) f

abbrev pub ◌>>◌ {ℓ κ} :
    {S : Type ℓ} {B : Type κ} → (S → Result (Unit {0}) × S) → (S → Result B × S) → S → Result B × S
◌>>◌ m k s = next (m s) (λ _. k)

-- `anyhow::Error::downcast_ref`, which looks through contexts.
downcast_server : Error → Option ServerError
downcast_server (server_error e) = some e
downcast_server (context text e) = downcast_server e
downcast_server _ = none

downcast_client : Error → Option ClientError
downcast_client (client_error e) = some e
downcast_client (context text e) = downcast_client e
downcast_client _ = none

unfoldable pub to_server_error {ℓ} : {A : Type ℓ} → Result A → Option ServerError
unfolding downcast_server
to_server_error (err e) = downcast_server e
to_server_error _ = none

unfoldable pub to_client_error {ℓ} : {A : Type ℓ} → Result A → Option ClientError
unfolding downcast_client
to_client_error (err e) = downcast_client e
to_client_error _ = none
