-- ===== src/P2/Session/Sides.antt =====
-- One side of a whole test, from its negotiation on.
use mathlib.Core.List.{append_assoc}
use netperf.Prelude.{
  ℕ, suc, ◌+◌, ◌<◌, ◌≡◌, refl, ap, sym, subst, ◌∙◌, String, false, Option, some, none, List, [],
  ◌∷◌, ◌++◌, length,
}
use netperf.Prelude.Dicts.{get, TakenOut}
use netperf.Core.Stats.{TestResults}
use netperf.P2.Data.{server, client, TestParameters, ClientOpts, from_opts, default_block_size}
use netperf.P2.Result.{Result, ok}
use netperf.P2.Transport.{Duplex}
use netperf.P2.NetUtils.RoundTrip.{frame}
use netperf.P2.NetUtils.Both.{Holds}
use netperf.P2.Runtime.{Runtime}
use netperf.P2.PerfTest.{StreamWorkerRef}
use netperf.P2.PerfTest
use netperf.P2.Controller.{Socket, TestController, new}
use netperf.P2.Controller.Loop.{from_server}
use netperf.P2.Controller.Completes.{notices}
use netperf.P2.Controller.Gathering.{connections}
use netperf.P2.Controller.Whole.{run_controller-Completes}
use netperf.P2.Controller.WholeClient.{run_controller_client-Completes}
use netperf.P2.Server.{create_test}
use netperf.P2.Client.{run_client as create_client_test}
use netperf.P2.Session.{done, run_client, serve, controlled, ending}
use netperf.P2.Session.Script.{Script, client_says, server_says, ServerStreams, ClientStreams}
use netperf.P2.Session.Start.{
  controller_of, loaded-socket, total_needed_streams-server, total_needed_streams-client,
}

append_five {ℓ} :
    {A : Type ℓ} (a b c e f : List A) → (((a ++ b) ++ c) ++ e) ++ f ≡ a ++ (b ++ (c ++ (e ++ f)))
append_five a b c e f = simp append_assoc

module _ (env : Runtime) (d : Duplex (Runtime.transport env)) where
  open env use {transport, server_json, client_json}

  -- A side of a test that has ended well: it reports `local` and `remote`, in this order, has
  -- written `sent` on its control socket and has `rest` left to read.
  pub record HasEnded {A : Type 0} (good : A) (sent rest : List ℕ) (local remote : TestResults)
      (x : Result A × Option (TestController env)) : Type 0 where
    pub after : TestController env
    pub result : x ≡ (ok good, some after)
    pub reported : after.report ≡ some (local, remote)
    pub all_sent : d.writes.sent after.test.control_socket ≡ sent
    pub left : d.reads.pending after.test.control_socket ≡ rest

  pub serve-HasEnded :
      (cookie : String) (params : TestParameters) (of_server of_client : TestResults)
      (x : Script env d cookie params of_server of_client) (rest : List ℕ) (s after s₀ : Socket env)
      (ss : List (Socket env)) (order : List (ℕ × StreamWorkerRef env)) (fuel : ℕ)
      → suc (suc (length ss) + length order) < fuel
      → ServerStreams env d cookie params s (s₀ ∷ ss) order of_server
      → create_test env false s ≡ (ok (PerfTest.new env none cookie after server params), after)
      → Holds transport d (frame x.welcome) (frame x.by_client ++ rest) after
      → HasEnded done
          (server_says env d x)
          rest
          of_server
          of_client
          (serve env false s fuel (connections env (s₀ ∷ ss) ++ notices env order))
  unfolding serve controlled ending PerfTest.new new
  serve-HasEnded cookie params of_server of_client x rest s after s₀ ss order fuel l h created
        holds =
      let y =
        run_controller-Completes env d x.negotiation.is_server_json x.negotiation.is_client_json
          x.called x.started x.told x.by_server x.by_client (frame x.welcome) rest of_server
          of_client cookie x.called_text x.started_text x.told_text x.server_text x.client_text
          x.called_fits x.started_fits x.told_fits x.server_fits x.client_fits fuel s₀ ss order
          (controller_of env none cookie after server params) l refl refl refl refl
          (total_needed_streams-server env none cookie after params ∙ h.all_there) h.some_notice
          h.each_once
          (λ k.
            h.entries k
            ∙ ap (get k) (sym (loaded-socket env none cookie s after server params (s₀ ∷ ss))))
          h.ended h.collected holds in
      record {
        after = y.after;
        result =
            ap
              (λ r.
                let ran =
                  controlled env fuel (connections env (s₀ ∷ ss) ++ notices env order) r.0 in
                (ending env ran.1 ran.0, ran.1))
              created
            ∙ ap (λ r. (ending env (some r.1) r.0, some r.1)) y.result;
        reported = y.reported;
        all_sent =
            y.all_sent
            ∙ append_five (frame x.welcome) (frame x.called) (frame x.started) (frame x.told)
                (frame x.by_server);
        left = y.left;
      }

  pub run_client-HasEnded :
      (cookie address version : String) (opts : ClientOpts) (of_server of_client : TestResults)
      (x : Script env d cookie (from_opts version opts default_block_size) of_server of_client)
      (rest : List ℕ) (c after : Socket env) (cs : List (Socket env))
      (reported going : List (ℕ × StreamWorkerRef env)) (fuel : ℕ)
      → 3 + length reported < fuel
      → ClientStreams env d cookie address
          (from_opts version opts default_block_size)
          c
          cs
          reported
          going
          of_client
      → create_client_test env address cookie version opts
        ≡ ok (
            PerfTest.new env
              (some address)
              cookie
              after
              client
              (from_opts version opts default_block_size))
      → Holds transport d
          (frame x.hello ++ frame x.parameters)
          (frame x.called ++ (frame x.started ++ (frame x.told ++ (frame x.by_server ++ rest))))
          after
      → HasEnded tt (client_says env d x) rest of_client of_server (
          run_client env address cookie version opts fuel
            (from_server ∷ from_server ∷ (notices env reported ++ from_server ∷ [])))
  unfolding run_client controlled PerfTest.new new
  run_client-HasEnded cookie address version opts of_server of_client x rest c after cs reported
        going fuel l h created holds =
      let params = from_opts version opts default_block_size in
      let schedule = from_server ∷ from_server ∷ (notices env reported ++ from_server ∷ []) in
      let y =
        run_controller_client-Completes env d x.negotiation.is_server_json
          x.negotiation.is_client_json x.called x.started x.told x.by_server x.by_client
          (frame x.hello ++ frame x.parameters) rest of_client of_server cookie x.called_text
          x.started_text x.told_text x.server_text x.client_text x.called_fits x.started_fits
          x.told_fits x.server_fits x.client_fits fuel cookie address cs reported going
          (controller_of env (some address) cookie after client params) l refl refl refl refl refl
          (total_needed_streams-client env (some address) cookie after params ∙ h.all_there)
          h.dialed
          (subst (λ m. TakenOut reported m going)
            (sym (loaded-socket env (some address) cookie c after client params cs)) h.taken)
          h.ended h.collected holds in
      record {
        after = y.after;
        result = ap (controlled env fuel schedule) created ∙ ap (λ r. (r.0, some r.1)) y.result;
        reported = y.reported;
        all_sent =
            y.all_sent ∙ append_assoc (frame x.hello) (frame x.parameters) (frame x.by_client);
        left = y.left;
      }
