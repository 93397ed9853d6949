-- ===== src/Store.antt =====
-- The rows that belong to one managed run: the tables of internal/models/agent_conversation.py as
-- internal/services/agents/conversation.py reads and writes them. Each transaction of
-- `DatabaseAgentStorageBackend` is a function of the rows; where it raises, the database rolls it
-- back, so a result that is an error carries no new rows. A row with `deleted_at` set counts as
-- absent, and times are whole microseconds.
pub mod Rows
pub mod Claim
pub mod Control
pub mod Commit
pub mod Shapes
pub mod Steps
pub mod Outcome
pub mod Answer
pub mod Fence
pub mod StepRows
pub mod Journal
pub mod Handoff
pub mod Totals
pub mod Starting
pub mod Taking
use agent_backend.Prelude.{ℕ, String, Bool, true, false, Option, none, some, List, ℤ}
use agent_backend.Json.{Value, Fields}
use agent_backend.Checkpoint.{Checkpoint, Phase}

-- `agent_run.status`, which has the values of `AgentControlStatus` in pkg/agents/runtime.py.
pub data RunStatus : Type 0 where
  ready running interrupt_requested interrupted : RunStatus
  recovery_required completed max_steps_reached failed : RunStatus

-- AgentRun
pub record Run : Type 0 where
  pub run_id : String
  pub session_id : String
  pub user_id : String
  pub agent_name : String
  pub route : Option String
  pub status : RunStatus
  pub max_steps : ℤ
  pub started_at : ℕ
  pub ended_at : Option ℕ
  pub elapsed : ℤ
  pub error_code : Option String
  pub error_message : Option String
  pub execution_version : Option String
  pub checkpoint_revision : Option ℤ
  pub lease_token : Option String
  pub lease_expires_at : Option ℕ
  pub interrupt_requested_at : Option ℕ
  pub interrupted_at : Option ℕ
  pub interrupt_reason : Option String
  pub create_request_key : Option String
  pub create_request_digest : Option String

-- AgentRunAttempt
pub record Attempt : Type 0 where
  pub user_id : String
  pub attempt_no : ℕ
  pub request_key : String
  pub request_digest : String
  pub status : RunStatus
  pub started_at : ℕ
  pub ended_at : Option ℕ
  pub elapsed : ℤ

-- AgentRunCheckpoint
pub record CheckpointRow : Type 0 where
  pub run_id : String
  pub schema_version : ℤ
  pub revision : ℤ
  pub phase : Phase
  pub next_step_index : ℤ
  pub payload : Fields

-- AgentRunStep, filled from an `AgentStepDTO`.
pub record StepRow : Type 0 where
  pub step_index : ℤ
  pub status : String
  pub action_type : String
  pub tool : Option String
  pub args : Fields
  pub action_result : Value
  pub error : Option String
  pub elapsed_ms : ℕ

-- `assistant` is the content of the message whose id is `_managed_assistant_message_id(run_id)`;
-- `message_count` and `last_message_at` stand in the row of the run's session.
pub record Store : Type 0 where
  pub run : Option Run
  pub checkpoint : Option CheckpointRow
  pub attempts : List Attempt
  pub steps : List StepRow
  pub assistant : Option String
  pub message_count : ℕ
  pub last_message_at : Option ℕ

-- AgentRunStateDTO: the run's row and what was decoded of its checkpoint.
pub record RunState : Type 0 where
  pub run : Run
  pub attempt_no : ℕ
  pub checkpoint : Option Checkpoint

abbrev pub status_value : RunStatus → String
status_value ready = "ready"
status_value running = "running"
status_value interrupt_requested = "interrupt_requested"
status_value interrupted = "interrupted"
status_value recovery_required = "recovery_required"
status_value completed = "completed"
status_value max_steps_reached = "max_steps_reached"
status_value failed = "failed"

-- MANAGED_RUN_TERMINAL_STATUSES, `AgentControlStatus.is_terminal`
abbrev pub is_terminal : RunStatus → Bool
is_terminal recovery_required = true
is_terminal completed = true
is_terminal max_steps_reached = true
is_terminal failed = true
is_terminal _ = false

-- MANAGED_RUN_RESUMABLE_STATUSES, `AgentControlStatus.is_resumable`
abbrev pub is_resumable : RunStatus → Bool
is_resumable ready = true
is_resumable interrupted = true
is_resumable _ = false

-- The two statuses in which an executor may hold the lease.
abbrev pub is_active : RunStatus → Bool
is_active running = true
is_active interrupt_requested = true
is_active _ = false

abbrev pub is_interrupt_requested : RunStatus → Bool
is_interrupt_requested interrupt_requested = true
is_interrupt_requested _ = false

abbrev pub is_interrupted : RunStatus → Bool
is_interrupted interrupted = true
is_interrupted _ = false

abbrev pub is_recovery_required : RunStatus → Bool
is_recovery_required recovery_required = true
is_recovery_required _ = false
