-- ===== src/Execution/StepRecords.antt =====
-- Steps as `DatabaseAgentRunRuntime` of internal/services/agents/execution.py hands them to the
-- storage: `_with_step`, `_with_result_steps`, and `AgentStepDTO.from_step_record` and `to_json_value`
-- of internal/schemas/agent.py.
use agent_backend.Prelude.{
  ℕ, String, Option, none, some, List, [], ◌∷◌, ◌++◌, ℤ, pos, ltb_ℤ, eqb_ℤ, length, if◌then◌else◌,
  Result, ok, ◌>>=◌,
}
use agent_backend.Json.{
  Value, Items, Fields, null, bool, int, float, str, arr, obj, opaque, nil, cons, end, field,
}
use agent_backend.Checkpoint.{Checkpoint, CheckpointStep}
use agent_backend.Store.{StepRow, RunStatus}
use agent_backend.Agent.{
  AgentAction, tool_call, final, AgentStepRecord, step_status_value, AgentRunStatus,
}
use agent_backend.Agent.Actions.{step_record_to_checkpoint_step, stable_tool_call_id}
use agent_backend.Agent.Loop.{AgentRunResult}

-- `to_json_value`: any other object becomes its text.
unfoldable mutual
  pub to_json_value : (ℕ → String) → Value → Value
  to_json_value text (arr items) = arr (to_json_items text items)
  to_json_value text (obj fields) = obj (to_json_object text fields)
  to_json_value text (opaque n) = str (text n)
  to_json_value text null = null
  to_json_value text (bool b) = bool b
  to_json_value text (int n) = int n
  to_json_value text (float x) = float x
  to_json_value text (str s) = str s

  pub to_json_items : (ℕ → String) → Items → Items
  to_json_items text nil = nil
  to_json_items text (cons v items) = cons (to_json_value text v) (to_json_items text items)

  pub to_json_object : (ℕ → String) → Fields → Fields
  to_json_object text end = end
  to_json_object text (field k v fields) =
      field k (to_json_value text v) (to_json_object text fields)

abbrev pub action_kind : AgentAction → String
action_kind (final answer) = "final"
action_kind (tool_call name args call_id) = "tool_call"

abbrev pub action_tool : AgentAction → Option String
action_tool (final answer) = none
action_tool (tool_call name args call_id) = some name

abbrev pub action_args : (ℕ → String) → AgentAction → Fields
action_args text (final answer) = end
action_args text (tool_call name args call_id) = to_json_object text args

-- `AgentStepDTO.from_step_record`
abbrev pub from_step_record : (ℕ → String) → AgentStepRecord → StepRow
from_step_record text s = record {
  step_index = s.index;
  status = step_status_value s.status;
  action_type = action_kind s.action;
  tool = action_tool s.action;
  args = action_args text s.action;
  action_result = to_json_value text s.action_result;
  error = s.error;
  elapsed_ms = s.elapsed_ms;
}

-- `AgentRunStatus.value`, which is a value of the run's status too.
abbrev pub run_status : AgentRunStatus → RunStatus
run_status AgentRunStatus.running = RunStatus.running
run_status AgentRunStatus.completed = RunStatus.completed
run_status AgentRunStatus.max_steps_reached = RunStatus.max_steps_reached
run_status AgentRunStatus.interrupted = RunStatus.interrupted
run_status AgentRunStatus.recovery_required = RunStatus.recovery_required
run_status AgentRunStatus.failed = RunStatus.failed

-- A step whose index the list has already is left out.
abbrev pub append_step :
    (ℤ → String) → String → List CheckpointStep → AgentStepRecord → Result (List CheckpointStep)
append_step str_of_int run_id steps step =
    if ltb_ℤ step.index (pos (length steps)) then ok steps else do
      id ← stable_tool_call_id str_of_int run_id step.index
      ok (steps ++ step_record_to_checkpoint_step step (some id) ∷ [])

abbrev pub with_steps : Checkpoint → List CheckpointStep → Checkpoint
with_steps c steps = record c { steps = steps; next_step_index = pos (length steps) }

-- `_with_step`
unfoldable pub with_step : (ℤ → String) → String → Checkpoint → AgentStepRecord → Result Checkpoint
with_step str_of_int run_id c step =
    if ltb_ℤ step.index (pos (length c.steps))
    then ok c
    else do steps ← append_step str_of_int run_id c.steps step; ok (with_steps c steps)

-- The loop of `_with_result_steps`.
unfoldable pub append_steps :
    (ℤ → String)
    → String
    → List CheckpointStep
    → List AgentStepRecord
    → Result (List CheckpointStep)
append_steps str_of_int run_id steps [] = ok steps
append_steps str_of_int run_id steps (step ∷ rest) = do
  longer ← append_step str_of_int run_id steps step
  append_steps str_of_int run_id longer rest

abbrev pub if_longer : Checkpoint → List CheckpointStep → Checkpoint
if_longer c steps =
    if eqb_ℤ (pos (length steps)) (pos (length c.steps)) then c else with_steps c steps

-- `_with_result_steps`
unfoldable pub with_result_steps :
    (ℤ → String) → String → Checkpoint → AgentRunResult → Result Checkpoint
with_result_steps str_of_int run_id c result = do
  steps ← append_steps str_of_int run_id c.steps result.steps
  ok (if_longer c steps)
