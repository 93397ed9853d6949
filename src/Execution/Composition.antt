-- ===== src/Execution/Composition.antt =====
-- An attempt of internal/services/agents/execution.py on the rows of
-- internal/services/agents/conversation.py: what the theorems on the rows say of it.
use agent_backend.Prelude.{
  if_elim, is_none, ◌||◌, leb, ℕ, String, ◌≡◌, refl, true, false, Option, none, some, List, [], ◌∷◌,
  Result, ok, err, Error, arith,
}
use agent_backend.Checkpoint.{Checkpoint, Phase}
use agent_backend.Store.{Store, is_active}
use agent_backend.Store.Claim.{Resolver}
use agent_backend.Store.Control.{Ending}
use agent_backend.Store.Steps.{Step, Trace, here, next, LeaseFits}
use agent_backend.Store.Answer.{AnsweredOnce, answered_once}
use agent_backend.Agent.Loop.{Log, asked_model, called_tool, committed, yielded}
use agent_backend.Agent.Loop.World.{
  clean, Stays, >>=-Stays, if-Stays, act-Stays, give-Stays, log-Stays,
}
use agent_backend.Agent.Loop.Events.{run_events-Stays, resume_events-Stays}
use agent_backend.Execution.{World, Executor}
use agent_backend.Execution.Runtime.{database_runtime}
use agent_backend.Execution.StepRecords.{with_result_steps}
use agent_backend.Execution.Interleaving.{
  lifted, Reached, OthersStep, turn-Reached, submit-Reached, submit_terminal-Reached, runtime-Keeps,
}
use agent_backend.Execution.Definitions.{resolve_stale_status}
use agent_backend.Execution.Stale.{resolve_stale_status_quiet}
use agent_backend.Execution.Checks.{
  route_agent, or_text, route_value, Service, AgentRoute, degraded, degraded_result,
}
use agent_backend.Execution.Attempt.{
  is_routing, is_router, run_agent_events, take_route, run_routed, run_agent, complete_degraded,
  verify_tokens,
}
use agent_backend.Execution.Finish.{
  attempt, finish, attempt_ending, error_ending, logged_status, quiet_status,
}

module _ {V : Type 0} (e : Executor) (svc : Service V) (resolve : Resolver)
    (others : OthersStep e resolve) (s : Store) where
  verify_tokens-Stays :
      (tokens : List String) → Stays (Reached e resolve s) (verify_tokens svc tokens)
  unfolding verify_tokens
  verify_tokens-Stays [] = give-Stays _
  verify_tokens-Stays (t ∷ tokens) =
      >>=-Stays (act-Stays _ λ w t. t) λ _. verify_tokens-Stays tokens

  complete_degraded-Stays :
      (route : String) (c : Checkpoint)
      → Stays {W = World V} (Reached e resolve s) (complete_degraded e route c)
  unfolding complete_degraded
  complete_degraded-Stays route c =
      >>=-Stays
        (>>=-Stays
          (act-Stays _ λ w t.
            submit_terminal-Reached e resolve others s false (degraded route c)
              (degraded_result e.run_id c)
              (with_result_steps e.str_of_int e.run_id (degraded route c)
                (degraded_result e.run_id c))
              w refl t)
          λ commit. >>=-Stays (log-Stays _ refl) λ _. give-Stays _)
        λ commit. log-Stays _ refl

  run_agent-Stays :
      (attempt_no : ℕ) (c : Checkpoint) → Stays (Reached e resolve s) (run_agent e svc attempt_no c)
  unfolding run_agent
  run_agent-Stays attempt_no c = >>=-Stays (verify_tokens-Stays _) λ _.
      >>=-Stays (give-Stays _) λ a. >>=-Stays (give-Stays _) λ _.
        if-Stays (leb attempt_no 1)
          (run_events-Stays (lifted a) (database_runtime e) (runtime-Keeps e resolve others s a)
            e.run_id)
          (resume_events-Stays (lifted a) (database_runtime e) (runtime-Keeps e resolve others s a)
            c)

  run_routed-Stays :
      (attempt_no : ℕ) (c : Checkpoint)
      → Stays (Reached e resolve s) (run_routed e svc attempt_no c)
  run_routed-Stays attempt_no c =
      if-Stays (is_router c.agent_name) (complete_degraded-Stays (or_text c.route "unsupported") c)
        (run_agent-Stays attempt_no c)

  take_route-Stays :
      (attempt_no : ℕ) (c : Checkpoint) (route : AgentRoute) (agent_name : Option String)
      → Stays (Reached e resolve s) (take_route e svc attempt_no c route agent_name)
  unfolding take_route
  take_route-Stays attempt_no c route none = complete_degraded-Stays (route_value route) c
  take_route-Stays attempt_no c route (some agent_name) =
      >>=-Stays
        (>>=-Stays (act-Stays _ λ w t. submit-Reached e resolve others s _ w tt t)
          λ commit. >>=-Stays (log-Stays _ refl) λ _. give-Stays _)
        λ commit.
          if-Stays commit.paused (log-Stays _ refl) (run_routed-Stays attempt_no commit.checkpoint)

  run_agent_events-Stays :
      (attempt_no : ℕ) (c : Checkpoint)
      → Stays (Reached e resolve s) (run_agent_events e svc attempt_no c)
  unfolding run_agent_events
  run_agent_events-Stays attempt_no c = >>=-Stays (give-Stays _) λ _.
      if-Stays (is_routing c.phase || is_none c.route)
        (>>=-Stays (act-Stays _ λ w t. t)
          λ route. take_route-Stays attempt_no c route (route_agent route))
        (run_routed-Stays attempt_no c)

finish-Reached :
    {V : Type 0} (e : Executor) (resolve : Resolver) (s : Store) (attempt_no : ℕ) (ending : Ending)
    (w : World V)
    → OthersStep e resolve
    → is_active ending.status ≡ false
    → Reached e resolve s w
    → Reached e resolve s (finish e attempt_no ending w)
finish-Reached e resolve s attempt_no ending w others quiet t =
    if_elim (Reached e resolve s) (e.finishes w.tick)
      (λ through.
        next (turn-Reached e resolve others s w t)
          (Step.finish (e.clock w.tick) e.user_id e.lease_token attempt_no ending quiet refl))
      (λ cut. turn-Reached e resolve others s w t)

logged_quiet :
    (l : Log) (phase : Phase)
    → clean l ≡ true
    → is_active (quiet_status (logged_status l) phase) ≡ false
unfolding logged_status
logged_quiet [] phase c = ground arith
logged_quiet (asked_model ∷ l) phase c = logged_quiet l phase c
logged_quiet (called_tool name args ∷ l) phase c = logged_quiet l phase c
logged_quiet (committed k paused ∷ l) phase c = logged_quiet l phase c
logged_quiet (yielded e ∷ l) phase c = ground (arith, logged_quiet l phase)

error_quiet :
    (x : Error) (phase : Phase) (message : String)
    → is_active (error_ending x phase message).status ≡ false
error_quiet x phase message = ground arith

ending_quiet :
    (text : Error → String) (r : Result (Unit {0})) (l : Log) (phase : Phase)
    → clean l ≡ true
    → is_active (attempt_ending text r l phase).status ≡ false
ending_quiet text (ok _) l phase c = logged_quiet l phase c
ending_quiet text (err x) l phase c = error_quiet x phase (text x)

-- However the transactions of other clients fall between its own, an attempt takes the rows to rows
-- that a sequence of transactions reaches, also where it raises.
pub attempt-Trace :
    {V : Type 0} (e : Executor) (svc : Service V) (resolve : Resolver) (attempt_no : ℕ)
    (c : Checkpoint) (w : World V)
    → OthersStep e resolve
    → Trace e.backend resolve w.store (attempt e svc attempt_no c w).1.0.store
unfolding attempt
attempt-Trace e svc resolve attempt_no c w others =
    let stays = run_agent_events-Stays e svc resolve others w.store attempt_no c in
    let ran = run_agent_events e svc attempt_no c (w, []) in
    finish-Reached e resolve w.store attempt_no
      (attempt_ending svc.text_of_error ran.0 ran.1.1 ran.1.0.checkpoint.phase) ran.1.0 others
      (ending_quiet svc.text_of_error ran.0 ran.1.1 ran.1.0.checkpoint.phase (stays.tidy w [] refl))
      (stays.stay w [] here)

-- After an attempt on a run that fits the lease invariant and had no answer, with other clients'
-- transactions between its own and stale runs judged as the service does, the session has counted
-- one more message if the run has an answer and none more if it has none, and a run with an answer
-- has ended.
pub attempt-AnsweredOnce :
    {V : Type 0} (e : Executor) (svc : Service V) (attempt_no : ℕ) (c : Checkpoint) (w : World V)
    → OthersStep e (resolve_stale_status svc.definitions)
    → LeaseFits w.store.run
    → w.store.assistant ≡ none
    → AnsweredOnce w.store.message_count (attempt e svc attempt_no c w).1.0.store
attempt-AnsweredOnce e svc attempt_no c w others fits none_yet =
    answered_once (resolve_stale_status_quiet svc.definitions)
      (attempt-Trace e svc (resolve_stale_status svc.definitions) attempt_no c w others) fits
      none_yet
