-- ===== src/Execution/Runtime.antt =====
-- `DatabaseAgentRunRuntime` of internal/services/agents/execution.py: the runtime of the loop over
-- the storage.
use agent_backend.Execution.StepRecords.{with_step, with_result_steps, run_status, from_step_record}
use agent_backend.Prelude.{
  String, Bool, true, Option, none, some, List, [], ◌∷◌, map, if◌then◌else◌, Result, ok, err,
}
use agent_backend.Checkpoint.{Checkpoint, next_revision, Phase, tool_in_flight}
use agent_backend.Store.{Store, StepRow, RunStatus}
use agent_backend.Store.Control.{ControlResult, read_managed_control_state}
use agent_backend.Store.Commit.{CommitRequest, CommitResult, commit_managed_state}
use agent_backend.Agent.{AgentStepRecord}
use agent_backend.Agent.Loop.{Runtime, AgentCheckpointCommit, AgentControlState, AgentRunResult}
use agent_backend.Execution.{World, Executor, turn}

-- `_apply`, after the transaction; one that raises leaves the runtime as it was.
abbrev pub applied :
    {V : Type 0} → World V → Result (CommitResult × Store) → Result AgentCheckpointCommit × World V
applied w (ok (result, s)) = (
  ok (record {
    checkpoint = result.checkpoint;
    paused = result.paused;
    stop_reason = if result.paused then some "interrupt_requested" else none;
  }),
  record w { store = s; checkpoint = result.checkpoint; revision = result.revision },
)
applied w (err e) = (err e, w)

unfoldable pub submit :
    {V : Type 0} → Executor → CommitRequest → World V → Result AgentCheckpointCommit × World V
submit e q w =
    applied (turn e w) (commit_managed_state e.backend (e.clock w.tick) q (turn e w).store)

abbrev pub request :
    {V : Type 0}
    → Executor
    → World V
    → Checkpoint
    → Checkpoint
    → Bool
    → Option RunStatus
    → List StepRow
    → Option String
    → CommitRequest
request e w committed pause may_pause terminal steps answer = record {
  user_id = e.user_id;
  token = e.lease_token;
  expected_revision = w.revision;
  committed = committed;
  pause = pause;
  pause_when_interrupted = may_pause;
  terminal = terminal;
  steps = steps;
  answer = answer;
}

-- What a pause keeps of a checkpoint: before a tool, the last checkpoint committed.
abbrev pause_checkpoint : Phase → Checkpoint → Checkpoint → Checkpoint
pause_checkpoint tool_in_flight last c = next_revision (λ c. c) last
pause_checkpoint _ last c = c

-- `commit_checkpoint`
abbrev pub commit_checkpoint :
    {V : Type 0} → Executor → Checkpoint → World V → Result AgentCheckpointCommit × World V
commit_checkpoint e c w =
    submit e (request e w c (pause_checkpoint c.phase w.checkpoint c) true none [] none) w

abbrev pub submit_step :
    {V : Type 0}
    → Executor
    → AgentStepRecord
    → Result Checkpoint
    → World V
    → Result AgentCheckpointCommit × World V
submit_step e step (err x) w = (err x, w)
submit_step e step (ok c) w =
    submit e (request e w c c true none (from_step_record e.str_of_object step ∷ []) none) w

-- `commit_step`
abbrev pub commit_step :
    {V : Type 0}
    → Executor
    → AgentStepRecord
    → Checkpoint
    → World V
    → Result AgentCheckpointCommit × World V
commit_step e step c w = submit_step e step (with_step e.str_of_int e.run_id c step) w

abbrev pub submit_terminal :
    {V : Type 0}
    → Executor
    → Bool
    → Checkpoint
    → AgentRunResult
    → Result Checkpoint
    → World V
    → Result AgentCheckpointCommit × World V
submit_terminal e may_pause c result (err x) w = (err x, w)
submit_terminal e may_pause c result (ok committed) w =
    submit e
      (request e w committed c may_pause (some (run_status result.status))
        (map (from_step_record e.str_of_object) result.steps) result.final_answer)
      w

-- `commit_terminal`
abbrev pub commit_terminal :
    {V : Type 0}
    → Executor
    → Bool
    → Checkpoint
    → AgentRunResult
    → World V
    → Result AgentCheckpointCommit × World V
commit_terminal e may_pause c result w =
    submit_terminal e may_pause c result (with_result_steps e.str_of_int e.run_id c result) w

abbrev pub control_state : Result ControlResult → Result AgentControlState
control_state (err x) = err x
control_state (ok control) = ok (record {
  status = control.status;
  revision = control.revision;
  attempt_no = control.attempt_no;
  interrupt_requested = control.interrupted;
  lease_owned = control.lease_owned;
  stop_reason = if control.lease_owned then none else some "lease_lost";
})

-- `load_control_state`
abbrev pub load_control_state :
    {V : Type 0} → Executor → World V → Result AgentControlState × World V
load_control_state e w = (
  control_state
      (read_managed_control_state (e.clock w.tick) e.user_id e.lease_token (turn e w).store),
  turn e w,
)

-- DatabaseAgentRunRuntime
abbrev pub database_runtime : {V : Type 0} → Executor → Runtime (World V)
database_runtime e = record {
  load_checkpoint = λ w. (ok (some w.checkpoint), w);
  load_control_state = load_control_state e;
  commit_checkpoint = commit_checkpoint e;
  commit_step = commit_step e;
  commit_terminal = commit_terminal e true;
}
