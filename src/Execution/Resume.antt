-- ===== src/Execution/Resume.antt =====
-- `resume_run` of internal/services/agents/execution.py with `_claim`, `_load_state` and
-- `_replayed_resume`: a claim, an attempt if it went through, and the state afterwards. What
-- `_execute_managed_run` writes when its consumer stops (an interrupt request) counts among what the
-- other clients do; the view is the run's state, and the audit is left out.
use agent_backend.Prelude.{
  ℕ, suc, String, Bool, true, false, not, ◌||◌, Option, none, some, List, [], ◌∷◌, if◌then◌else◌,
  Result, ok, err, Error, app, not_found, agent_resume_unsafe, service_unavailable, attribute_error,
  checkpoint_error, checkpoint_validation, checkpoint_serialization, unsupported_checkpoint_version,
  unknown_tool, unsafe_agent_resume, ◌>>=◌, map,
}
use agent_backend.Checkpoint.{Checkpoint}
use agent_backend.Agent.Actions.{records_of}
use agent_backend.Agent.Loop.{Log, asked_model, called_tool, committed, yielded, AgentRunResult}
use agent_backend.Store.{Store, RunState, RunStatus, StepRow, running}
use agent_backend.Store.Claim.{ClaimRequest, ClaimResult, claim_managed_run, load_managed_run}
use agent_backend.Execution.{World, Executor}
use agent_backend.Execution.StepRecords.{run_status, from_step_record}
use agent_backend.Execution.Definitions.{resolve_stale_status}
use agent_backend.Execution.Checks.{Service}
use agent_backend.Execution.Finish.{attempt}

-- AgentRunResultDTO
pub record RunResult : Type 0 where
  pub status : RunStatus
  pub answer : Option String
  pub steps : List StepRow

-- AgentRunResumeDTO
pub record RunResume : Type 0 where
  pub run : RunState
  pub result : RunResult

-- The rows, how many transactions were made on them, and the rest of the world.
pub record Surroundings (V : Type 0) : Type 0 where
  pub store : Store
  pub tick : ℕ
  pub outside : V

abbrev pub settled :
    {V A : Type 0} → Surroundings V → Result (A × Store) → Result A × Surroundings V
settled x (ok (a, s)) = (ok a, record x { store = s })
settled x (err raised) = (err raised, x)

abbrev pub others_turn : {V : Type 0} → Executor → Surroundings V → Surroundings V
others_turn e x = record x { store = e.others x.tick x.store; tick = suc x.tick }

-- The others' turn, then a transaction, which counts where it goes through.
abbrev transact :
    {V A : Type 0}
    → Executor
    → (ℕ → Store → Result (A × Store))
    → Surroundings V
    → Result A × Surroundings V
transact e f x = settled (others_turn e x) (f (e.clock x.tick) (others_turn e x).store)

-- `_result_from_checkpoint`, which reads an attribute of a checkpoint that may be missing.
abbrev result_from_checkpoint : (ℕ → String) → RunStatus → Option Checkpoint → Result RunResult
result_from_checkpoint text status none = err attribute_error
result_from_checkpoint text status (some c) = do
  steps ← records_of c.steps
  ok (record {
    status = status;
    answer = c.final_answer;
    steps = map (from_step_record text) steps;
  })

-- `from_agent_result`
abbrev from_agent_result : (ℕ → String) → AgentRunResult → RunResult
from_agent_result text r = record {
  status = run_status r.status;
  answer = r.final_answer;
  steps = map (from_step_record text) r.steps;
}

-- `control.result`: the result of the last event that has one.
unfoldable pub logged_result : Log → Option AgentRunResult
logged_result [] = none
logged_result (asked_model ∷ l) = logged_result l
logged_result (called_tool name args ∷ l) = logged_result l
logged_result (committed c paused ∷ l) = logged_result l
logged_result (yielded event ∷ l) = elim event.result [ some r ↦ some r | none ↦ logged_result l ]

-- `control.error`: what the three `except` clauses leave for the caller.
abbrev raised_to_caller : Error → Error
raised_to_caller (app e) = app e
raised_to_caller unknown_tool = app agent_resume_unsafe
raised_to_caller unsafe_agent_resume = app agent_resume_unsafe
raised_to_caller checkpoint_error = app agent_resume_unsafe
raised_to_caller checkpoint_validation = app agent_resume_unsafe
raised_to_caller checkpoint_serialization = app agent_resume_unsafe
raised_to_caller unsupported_checkpoint_version = app agent_resume_unsafe
raised_to_caller _ = app service_unavailable

abbrev pub some_state : Result (Option RunState) → Result RunState
some_state (ok (some state)) = ok state
some_state (ok none) = err (app not_found)
some_state (err raised) = err raised

-- `get_run`, by `_load_state`
abbrev pub get_run :
    {V : Type 0} → Executor → Service V → Surroundings V → Result RunState × Surroundings V
get_run e svc x =
    let r =
      transact e
        (λ now.
          load_managed_run e.backend now (some (resolve_stale_status svc.definitions)) e.user_id)
        x in
    (some_state r.0, r.1)

abbrev pub resumed : Result RunState → Result RunResult → Result RunResume
resumed view result = do run ← view; r ← result; ok (record { run = run; result = r })

abbrev pub status_or : RunStatus → Result RunState → RunStatus
status_or status (ok state) = state.run.status
status_or status (err raised) = status

-- `_replayed_resume`
abbrev replayed_resume :
    {V : Type 0}
    → Executor
    → Service V
    → ClaimResult
    → Surroundings V
    → Result RunResume × Surroundings V
replayed_resume e svc claim x =
    let view = get_run e svc x in
    (
      resumed view.0
          (result_from_checkpoint e.str_of_object (status_or claim.status view.0) claim.checkpoint),
      view.1,
    )

abbrev pub result_or :
    (ℕ → String) → RunStatus → Checkpoint → Option AgentRunResult → Result RunResult
result_or text status c none = result_from_checkpoint text status (some c)
result_or text status c (some r) = ok (from_agent_result text r)

abbrev pub after_attempt :
    {V : Type 0}
    → Executor
    → Service V
    → ClaimResult
    → Checkpoint
    → Result (Unit {0}) × (World V × Log)
    → Result RunResume × Surroundings V
after_attempt e svc claim c (err raised, (w, l)) =
    (err (raised_to_caller raised), record { store = w.store; tick = w.tick; outside = w.outside })
after_attempt e svc claim c (ok _, (w, l)) =
    let view = get_run e svc (record { store = w.store; tick = w.tick; outside = w.outside }) in
    (resumed view.0 (result_or e.str_of_object claim.status c (logged_result l)), view.1)

-- `claim.lease_token or ""`
abbrev pub claimed_token : Option String → String
claimed_token none = ""
claimed_token (some token) = token

-- The execution of a claim that went through; the audit context reads the checkpoint first.
abbrev pub execute_claim :
    {V : Type 0}
    → Executor
    → Service V
    → ClaimResult
    → Option Checkpoint
    → Surroundings V
    → Result RunResume × Surroundings V
execute_claim e svc claim none x = (err attribute_error, x)
execute_claim e svc claim (some c) x =
    let owner = record e { lease_token = claimed_token claim.lease_token } in
    after_attempt owner svc claim c (
      attempt owner svc claim.attempt_no c (record {
        store = x.store;
        checkpoint = c;
        revision = c.revision;
        tick = x.tick;
        outside = x.outside;
      }))

abbrev pub is_running : RunStatus → Bool
is_running running = true
is_running _ = false

abbrev pub resume_claimed :
    {V : Type 0}
    → Executor
    → Service V
    → Result ClaimResult × Surroundings V
    → Result RunResume × Surroundings V
resume_claimed e svc (err raised, x) = (err raised, x)
resume_claimed e svc (ok claim, x) =
    if claim.replayed || not (is_running claim.status)
    then replayed_resume e svc claim x
    else execute_claim e svc claim claim.checkpoint x

-- `resume_run`
unfoldable pub resume_run :
    {V : Type 0}
    → Executor
    → Service V
    → ClaimRequest
    → Surroundings V
    → Result RunResume × Surroundings V
resume_run e svc q x =
    resume_claimed e svc (
      transact e (λ now. claim_managed_run e.backend now (resolve_stale_status svc.definitions) q)
        x)
