-- ===== src/Execution/Finish.antt =====
-- How an attempt of internal/services/agents/execution.py ends: the statuses and error codes of
-- `_drive_managed_events`, and `_finalize_attempt`.
use agent_backend.Prelude.{
  ℕ, String, Bool, true, false, ◌||◌, Option, none, some, [], ◌∷◌, Result, ok, err, Error, AppError,
  app, bad_request, not_found, agent_resume_unsafe, agent_run_state_conflict, idempotency_conflict,
  agent_definition_incompatible, service_unavailable, checkpoint_error, checkpoint_validation,
  checkpoint_serialization, unsupported_checkpoint_version, type_error, overflow_error,
  attribute_error, value_error, index_error, forbidden, endpoint_disabled, invalid_agent_action,
  unknown_tool, tool_execution, unsafe_agent_resume, runtime_error, integrity_error, if◌then◌else◌,
}
use agent_backend.Checkpoint.{Checkpoint, Phase, tool_in_flight}
use agent_backend.Store.{RunStatus, interrupted, recovery_required, failed}
use agent_backend.Store.Control.{Ending, finish_managed_attempt}
use agent_backend.Agent.Loop.{
  Log, asked_model, called_tool, committed, yielded, AgentRunEvent, run_interrupted, run_completed,
}
use agent_backend.Execution.{World, Executor, turn}
use agent_backend.Execution.StepRecords.{run_status}
use agent_backend.Execution.Checks.{Service}
use agent_backend.Execution.Attempt.{run_agent_events}

-- The status that the last event which ends a run gives; the log's newest entry stands first.
abbrev event_status : AgentRunEvent → Option RunStatus → Option RunStatus
event_status e before = elim e.kind [
  | run_completed ↦ some (run_status e.status)
  | run_interrupted ↦ some interrupted
  | _ ↦ before
]

unfoldable pub logged_status : Log → Option RunStatus
logged_status [] = none
logged_status (yielded e ∷ l) = event_status e (logged_status l)
logged_status (asked_model ∷ l) = logged_status l
logged_status (called_tool name args ∷ l) = logged_status l
logged_status (committed c paused ∷ l) = logged_status l

abbrev pub is_in_flight : Phase → Bool
is_in_flight tool_in_flight = true
is_in_flight _ = false

-- `str(exc.error.code)`, from internal/core/errors.py.
abbrev app_code : AppError → String
app_code bad_request = "40000"
app_code forbidden = "40003"
app_code not_found = "40004"
app_code endpoint_disabled = "40007"
app_code idempotency_conflict = "40900"
app_code agent_run_state_conflict = "40902"
app_code agent_definition_incompatible = "40903"
app_code agent_resume_unsafe = "40904"
app_code service_unavailable = "50300"

-- The errors of an application that forbid a further attempt.
abbrev is_unsafe : AppError → Bool
is_unsafe agent_resume_unsafe = true
is_unsafe agent_definition_incompatible = true
is_unsafe _ = false

abbrev pub recovery_or_failed : Bool → RunStatus
recovery_or_failed true = recovery_required
recovery_or_failed false = failed

abbrev pub app_ending : AppError → Phase → String → Ending
app_ending e phase message = record {
  status = recovery_or_failed (is_unsafe e || is_in_flight phase);
  error_code = some (app_code e);
  error_message = some message;
}

-- `except (UnknownToolError, UnsafeAgentResumeError, CheckpointError)`
abbrev unsafe_ending : String → Ending
unsafe_ending message = record {
  status = recovery_required;
  error_code = some "AgentResumeUnsafe";
  error_message = some message;
}

-- `except Exception`, with the name of the exception's class.
abbrev other_ending : String → Phase → Ending
other_ending class_name phase = record {
  status = recovery_or_failed (is_in_flight phase);
  error_code = some class_name;
  error_message = some "Agent 受管理执行暂不可用";
}

-- The three `except` clauses.
abbrev pub error_ending : Error → Phase → String → Ending
error_ending (app e) phase message = app_ending e phase message
error_ending unknown_tool phase message = unsafe_ending message
error_ending unsafe_agent_resume phase message = unsafe_ending message
error_ending checkpoint_error phase message = unsafe_ending message
error_ending checkpoint_validation phase message = unsafe_ending message
error_ending checkpoint_serialization phase message = unsafe_ending message
error_ending unsupported_checkpoint_version phase message = unsafe_ending message
error_ending type_error phase message = other_ending "TypeError" phase
error_ending overflow_error phase message = other_ending "OverflowError" phase
error_ending attribute_error phase message = other_ending "AttributeError" phase
error_ending value_error phase message = other_ending "ValueError" phase
error_ending index_error phase message = other_ending "IndexError" phase
error_ending invalid_agent_action phase message = other_ending "InvalidAgentActionError" phase
error_ending tool_execution phase message = other_ending "ToolExecutionError" phase
error_ending runtime_error phase message = other_ending "RuntimeError" phase
error_ending integrity_error phase message = other_ending "IntegrityError" phase

-- Without an event that ends the run, the phase decides.
abbrev pub quiet_status : Option RunStatus → Phase → RunStatus
quiet_status none phase = if is_in_flight phase then recovery_required else interrupted
quiet_status (some status) phase = status

abbrev pub attempt_ending : (Error → String) → Result (Unit {0}) → Log → Phase → Ending
attempt_ending text (ok _) l phase = record {
  status = quiet_status (logged_status l) phase;
  error_code = none;
  error_message = none;
}
attempt_ending text (err e) l phase = error_ending e phase (text e)

-- `_finalize_attempt`: where the transaction fails, or is cut off by its time limit, the code logs a
-- warning and leaves the rows as they are.
abbrev pub finish : {V : Type 0} → Executor → ℕ → Ending → World V → World V
finish e attempt_no ending w =
    if e.finishes w.tick
    then record (turn e w) {
      store =
          finish_managed_attempt (e.clock w.tick) e.user_id e.lease_token attempt_no ending
            (turn e w).store;
    }
    else turn e w

abbrev pub finalized :
    {V : Type 0}
    → Executor
    → Service V
    → ℕ
    → Result (Unit {0}) × (World V × Log)
    → Result (Unit {0}) × (World V × Log)
finalized e svc attempt_no (r, (w, l)) =
    (r, (finish e attempt_no (attempt_ending svc.text_of_error r l w.checkpoint.phase) w, l))

-- `_drive_managed_events`, from a checkpoint that was claimed: the events, then `_finalize_attempt`.
unfoldable pub attempt :
    {V : Type 0}
    → Executor
    → Service V
    → ℕ
    → Checkpoint
    → World V
    → Result (Unit {0}) × (World V × Log)
attempt e svc attempt_no c w =
    finalized e svc attempt_no (run_agent_events e svc attempt_no c (w, []))
