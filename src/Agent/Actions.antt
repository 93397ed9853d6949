-- ===== src/Agent/Actions.antt =====
-- Actions and steps as they are stored: `parse_agent_action`, `serialize_agent_action`,
-- `action_tool_call_id`, `step_record_to_checkpoint_step`, `checkpoint_step_to_record` and
-- `state_from_checkpoint` of pkg/agents/react.py, and `stable_tool_call_id` of
-- pkg/agents/state.py.
use agent_backend.Prelude.{
  ◌<>◌, String, Option, none, some, List, [], ◌∷◌, ℤ, pos, ltb_ℤ, str_eq, if◌then◌else◌, Result, ok,
  err, checkpoint_validation, invalid_agent_action, ◌>>=◌, ◌>>◌, raise_if,
}
use agent_backend.Json.{Value, Fields, null, str, obj, end, field, get, get_or}
use agent_backend.Checkpoint.{Checkpoint, CheckpointStep, opt_str}
use agent_backend.Checkpoint.Validate.{is_tool_call, is_empty}
use agent_backend.Checkpoint.Decode.{is_final}
use agent_backend.Agent.{
  AgentAction, tool_call, final, AgentStepRecord, AgentStepStatus, step_completed, step_failed,
  step_status_value, AgentRunState, running,
}

abbrev parse_final : Value → Result AgentAction
parse_final (str answer) = ok (final answer)
parse_final _ = err invalid_agent_action

-- The checks of the tool, the arguments and the call's id, in this order.
abbrev pub tool_of : Value → Result String
tool_of (str name) = do raise_if (is_empty name) invalid_agent_action; ok name
tool_of _ = err invalid_agent_action

abbrev args_of : Value → Result Fields
args_of (obj args) = ok args
args_of _ = err invalid_agent_action

abbrev pub call_id_of : Value → Result (Option String)
call_id_of null = ok none
call_id_of (str id) = ok (some id)
call_id_of _ = err invalid_agent_action

abbrev parse_tool_call : Fields → Result AgentAction
parse_tool_call payload = do
  name ← tool_of (get payload "tool")
  args ← args_of (get_or payload "args" (obj end))
  call_id ← call_id_of (get payload "call_id")
  ok (tool_call name args call_id)

-- `parse_agent_action`, which is `deserialize_agent_action` too.
unfoldable pub parse_agent_action : Fields → Result AgentAction
parse_agent_action payload =
    if is_final (get payload "type")
    then parse_final (get payload "answer")
    else if is_tool_call (get payload "type")
    then parse_tool_call payload
    else err invalid_agent_action

abbrev tool_call_id_field : Option String → Fields
tool_call_id_field none = end
tool_call_id_field (some id) = field "tool_call_id" (str id) end

-- `serialize_agent_action`
unfoldable pub serialize_agent_action : AgentAction → Option String → Fields
serialize_agent_action (final answer) tool_call_id =
    field "type" (str "final") (field "answer" (str answer) end)
serialize_agent_action (tool_call name args call_id) tool_call_id = field "type" (str "tool_call") (
    field "tool" (str name) (
      field "args" (obj args)
        (field "call_id" (opt_str call_id) (tool_call_id_field tool_call_id))))

-- Python's text of an integer is an argument: `f"{run_id}:{step_index}"`.
unfoldable pub stable_tool_call_id : (ℤ → String) → String → ℤ → Result String
stable_tool_call_id str_of_int run_id step_index = do
  raise_if (is_empty run_id) checkpoint_validation
  raise_if (ltb_ℤ step_index (pos 0)) checkpoint_validation
  ok (run_id <> (":" <> str_of_int step_index))

abbrev stored_or : Value → Result String → Result String
stored_or (str id) fresh = if is_empty id then fresh else ok id
stored_or _ fresh = fresh

-- `action_tool_call_id`
unfoldable pub action_tool_call_id : (ℤ → String) → Fields → String → ℤ → Result String
action_tool_call_id str_of_int payload run_id step_index =
    stored_or (get payload "tool_call_id") (stable_tool_call_id str_of_int run_id step_index)

-- `step_record_to_checkpoint_step`
unfoldable pub step_record_to_checkpoint_step : AgentStepRecord → Option String → CheckpointStep
step_record_to_checkpoint_step s tool_call_id = record {
  index = s.index;
  status = step_status_value s.status;
  action = serialize_agent_action s.action tool_call_id;
  action_result = s.action_result;
  error = s.error;
  elapsed_ms = s.elapsed_ms;
}

-- `AgentStepStatus(step.status)`
abbrev pub status_of_text : String → Result AgentStepStatus
status_of_text s =
    if str_eq s "completed"
    then ok step_completed
    else if str_eq s "failed"
    then ok step_failed
    else err checkpoint_validation

-- `checkpoint_step_to_record`
unfoldable pub checkpoint_step_to_record : CheckpointStep → Result AgentStepRecord
checkpoint_step_to_record s = do
  status ← status_of_text s.status
  action ← parse_agent_action s.action
  ok (record {
    index = s.index;
    action = action;
    status = status;
    action_result = s.action_result;
    error = s.error;
    elapsed_ms = s.elapsed_ms;
  })

abbrev pub records_of : List CheckpointStep → Result (List AgentStepRecord)
records_of [] = ok []
records_of (s ∷ ss) = do
  step ← checkpoint_step_to_record s
  steps ← records_of ss
  ok (step ∷ steps)

-- `state_from_checkpoint`
unfoldable pub state_from_checkpoint : Checkpoint → Result AgentRunState
state_from_checkpoint c = do
  steps ← records_of c.steps
  ok (record {
    run_id = c.run_id;
    user_input = c.user_input;
    max_steps = c.max_steps;
    status = running;
    steps = steps;
    final_answer = c.final_answer;
  })
