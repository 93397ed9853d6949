-- ===== src/Execution/Attempt.antt =====
-- One attempt of a managed run in internal/services/agents/execution.py: `_run_agent_events` with
-- `_verify_compatibility`, `_verify_temporary_dependencies`, `_require_safe_resume` and
-- `_complete_degraded`, and the end that `_drive_managed_events` and `_finalize_attempt` give it. A
-- cancellation of the task is not modelled. What the heartbeat commits counts among what the other
-- clients do.
use agent_backend.Execution.Checks.{
  require_safe_resume, current_model_config, route_agent, build_agent, route_value, AgentRoute,
  checked, verify_compatibility, pending_confirmation_tokens, degraded_result, or_text, degraded,
  Service,
}
use agent_backend.Prelude.{
  ℕ, String, Bool, true, false, ◌||◌, Option, none, some, List, [], ◌∷◌, leb, str_eq, if◌then◌else◌,
  Result, ok, is_none,
}
use agent_backend.Checkpoint.{Checkpoint, next_revision, Phase, routing, before_action}
use agent_backend.Agent.{AgentRunStatus}
use agent_backend.Agent.Loop.{
  Proc, yielded, AgentRunEvent, AgentRunEventType, run_interrupted, run_completed, AgentRunResult,
  give, log, act, commit_with, ◌>>=◌, ◌>>◌,
}
use agent_backend.Agent.Loop.Events.{run_events, resume_events}
use agent_backend.Execution.{World, Executor}
use agent_backend.Execution.Runtime.{database_runtime, commit_terminal}
use agent_backend.Execution.Interleaving.{lifted}

abbrev pub outside : {V A : Type 0} → (V → Result A × V) → World V → Result A × World V
outside f w = let r = f w.outside in (r.0, record w { outside = r.1 })

-- `_verify_temporary_dependencies`
unfoldable pub verify_tokens : {V : Type 0} → Service V → List String → Proc (World V) (Unit {0})
verify_tokens svc [] = give (ok tt)
verify_tokens svc (t ∷ tokens) = do
  act (outside (λ v. checked (svc.get_pending_action t v)))
  verify_tokens svc tokens

-- `_event`
abbrev plain_event :
    AgentRunEventType
    → String
    → AgentRunStatus
    → Checkpoint
    → Option AgentRunResult
    → Option String
    → AgentRunEvent
plain_event kind run_id status c result stop_reason = record {
  kind = kind;
  run_id = run_id;
  status = status;
  step = none;
  result = result;
  checkpoint_revision = some c.revision;
  stop_reason = stop_reason;
}

-- `_complete_degraded`, whose commit does not pause.
unfoldable pub complete_degraded :
    {V : Type 0} → Executor → String → Checkpoint → Proc (World V) (Unit {0})
complete_degraded e route c = do
  commit ←
      commit_with (degraded route c)
        (commit_terminal e false (degraded route c) (degraded_result e.run_id c))
  log (
      yielded (
        plain_event run_completed e.run_id AgentRunStatus.completed commit.checkpoint
          (some (degraded_result e.run_id c)) none))

abbrev pub is_routing : Phase → Bool
is_routing routing = true
is_routing _ = false

abbrev pub routed : {V : Type 0} → Service V → AgentRoute → String → Checkpoint → Checkpoint
routed svc route agent_name = next_revision λ c. record c {
  phase = before_action;
  route = some (route_value route);
  agent_name = some agent_name;
  model_config = current_model_config svc;
}

abbrev pub is_router : Option String → Bool
is_router none = false
is_router (some name) = str_eq name "agent_chat"

-- The run by the agent of the checkpoint, on the first attempt or a later one.
unfoldable pub run_agent :
    {V : Type 0} → Executor → Service V → ℕ → Checkpoint → Proc (World V) (Unit {0})
run_agent e svc attempt_no c = do
  verify_tokens svc (pending_confirmation_tokens [] c.steps)
  a ←
      give (
        build_agent svc (or_text c.agent_name "") c.definition_version c.max_steps
          c.session_context)
  give (require_safe_resume a c)
  if leb attempt_no 1
      then run_events (lifted a) (database_runtime e) e.run_id
      else resume_events (lifted a) (database_runtime e) c

abbrev pub run_routed :
    {V : Type 0} → Executor → Service V → ℕ → Checkpoint → Proc (World V) (Unit {0})
run_routed e svc attempt_no c =
    if is_router c.agent_name
    then complete_degraded e (or_text c.route "unsupported") c
    else run_agent e svc attempt_no c

-- After the router's answer: no agent, or the commit of the route.
unfoldable pub take_route :
    {V : Type 0}
    → Executor
    → Service V
    → ℕ
    → Checkpoint
    → AgentRoute
    → Option String
    → Proc (World V) (Unit {0})
take_route e svc attempt_no c route none = complete_degraded e (route_value route) c
take_route e svc attempt_no c route (some agent_name) = do
  commit ←
      commit_with (routed svc route agent_name c)
        ((database_runtime e).commit_checkpoint (routed svc route agent_name c))
  if commit.paused
      then log (
          yielded (
            plain_event run_interrupted e.run_id AgentRunStatus.interrupted commit.checkpoint none
              (some "interrupt_requested")))
      else run_routed e svc attempt_no commit.checkpoint

-- `_run_agent_events`
unfoldable pub run_agent_events :
    {V : Type 0} → Executor → Service V → ℕ → Checkpoint → Proc (World V) (Unit {0})
run_agent_events e svc attempt_no c = do
  give (verify_compatibility svc c)
  if is_routing c.phase || is_none c.route
      then (do
        route ← act (outside (svc.route c.user_input))
        take_route e svc attempt_no c route (route_agent route))
      else run_routed e svc attempt_no c
