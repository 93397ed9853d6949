-- ===== src/Agent/Loop/Drive.antt =====
-- `_control_stop_reason` and `_drive` of pkg/agents/react.py with a runtime. The `while` over
-- `index < max_steps` is recursion on the number of rounds that are left, and what follows a step
-- is the continuation of its stage.
use agent_backend.Prelude.{
  attribute_error, ℕ, zero, suc, String, ◌&&◌, Option, none, some, ℤ, pos, ◌+ℤ◌, Result, ok, err,
  invalid_agent_action, checkpoint_validation, length, if◌then◌else◌, pos_part, sub_ℕ,
}
use agent_backend.Checkpoint.{
  Checkpoint, next_revision, Phase, before_tool, tool_in_flight, final_ready,
}
use agent_backend.Agent.{
  str_eq, Fields, Value, completed, interrupted, AgentAction, tool_call, final, AgentStepRecord,
  AgentStepStatus, step_completed, step_failed, AgentRunState,
}
use agent_backend.Agent.Actions.{
  serialize_agent_action, parse_agent_action, action_tool_call_id, stable_tool_call_id,
}
use agent_backend.Agent.Resume.{or_empty}
use agent_backend.Agent.Loop.{
  action_checkpoint, answer_checkpoint, flight_checkpoint, step_checkpoint, null, Proc, ◌>>=◌, ◌>>◌,
  give, log, act, read, Runtime, ReActAgent, AgentControlState, should_stop, commit_with, pause,
  end_event, step_event, with_status, add_step, commit_final, commit_max_steps, execute_tool_call,
  yielded, asked_model, run_interrupted,
}

abbrev pub or_requested : Option String → String
or_requested none = "interrupt_requested"
or_requested (some reason) = reason

-- `_require_checkpoint`
abbrev pub require_checkpoint : Option Checkpoint → Result Checkpoint
require_checkpoint none = err checkpoint_validation
require_checkpoint (some c) = ok c

-- The commit that settles an interrupt at a safe point; what it answers is not looked at.
unfoldable pub settle : {W : Type 0} → Runtime W → AgentControlState → Proc W (Unit {0})
settle rt control =
    if control.lease_owned && control.interrupt_requested
    then (do
      loaded ← act rt.load_checkpoint
      c ← give (require_checkpoint loaded)
      _ ← commit_with (next_revision (λ c. c) c) (rt.commit_checkpoint (next_revision (λ c. c) c))
      give (ok tt))
    else give (ok tt)

-- `_control_stop_reason`
unfoldable pub control_stop_reason : {W : Type 0} → Runtime W → Proc W (Option String)
control_stop_reason rt = do
  control ← act rt.load_control_state
  if should_stop control
      then (do settle rt control; give (ok (some (or_requested control.stop_reason))))
      else give (ok none)

-- What a stage goes on with: the loop at `before_action`, at an index.
abbrev pub Next : Type 0 → Type 0
Next W = ℤ → AgentRunState → Checkpoint → Proc W (Unit {0})

-- `FAILED if error else COMPLETED`: an empty text is no error.
abbrev failed_if : Option String → AgentStepStatus
failed_if none = step_completed
failed_if (some text) = if str_eq text "" then step_completed else step_failed

abbrev pub step_of : ℤ → AgentAction → Value → Option String → ℕ → AgentStepRecord
step_of index action result error elapsed = record {
  index = index;
  action = action;
  status = failed_if error;
  action_result = result;
  error = error;
  elapsed_ms = elapsed;
}

-- `checkpoint.pending_action`, of which a key is read next.
abbrev pub pending_payload : Option Fields → Result Fields
pending_payload none = err attribute_error
pending_payload (some payload) = ok payload

-- The stage in which the tool runs and its step is committed.
unfoldable pub run_tool :
    {W : Type 0}
    → ReActAgent W
    → Runtime W
    → Next W
    → String
    → Fields
    → Option String
    → ℤ
    → AgentRunState
    → Checkpoint
    → Proc W (Unit {0})
run_tool a rt next name args call_id index s c = do
  payload ← give (pending_payload c.pending_action)
  id ← give (action_tool_call_id a.str_of_int payload s.run_id index)
  outcome ← execute_tool_call a name args id
  elapsed ← read a.elapsed_ms
  let step = step_of index (tool_call name args call_id) outcome.0 outcome.1 elapsed
  let s' = add_step step s
  let c' = step_checkpoint (index +ℤ pos 1) c
  commit ← commit_with c' (rt.commit_step step c')
  log (yielded (step_event s' step commit.checkpoint))
  if commit.paused then pause s' commit else next (index +ℤ pos 1) s' commit.checkpoint

-- The stage that marks the tool as in flight.
unfoldable pub launch :
    {W : Type 0}
    → ReActAgent W
    → Runtime W
    → Next W
    → String
    → Fields
    → Option String
    → ℤ
    → AgentRunState
    → Checkpoint
    → Proc W (Unit {0})
launch a rt next name args call_id index s c = do
  commit ← commit_with (flight_checkpoint c) (rt.commit_checkpoint (flight_checkpoint c))
  if commit.paused
      then pause s commit
      else run_tool a rt next name args call_id index s commit.checkpoint

-- What follows the model's answer.
unfoldable pub follow :
    {W : Type 0}
    → ReActAgent W
    → Runtime W
    → Next W
    → ℤ
    → AgentRunState
    → Checkpoint
    → Option AgentAction
    → Proc W (Unit {0})
follow a rt next index s c none = give (err invalid_agent_action)
follow a rt next index s c (some (final answer)) = do
  elapsed ← read a.elapsed_ms
  let step = step_of index (final answer) null none elapsed
  let s' = record (add_step step s) { final_answer = some answer; status = completed }
  commit_final rt s' (answer_checkpoint answer c) step
follow a rt next index s c (some (tool_call name args call_id)) = do
  id ← give (stable_tool_call_id a.str_of_int s.run_id index)
  let pending = serialize_agent_action (tool_call name args call_id) (some id)
  let c' = action_checkpoint pending c
  commit ← commit_with c' (rt.commit_checkpoint c')
  if commit.paused
      then pause s commit
      else launch a rt next name args call_id index s commit.checkpoint

abbrev pub stop_run : {W : Type 0} → Runtime W → AgentRunState → String → Proc W (Unit {0})
stop_run rt s reason = do
  c ← act rt.load_checkpoint
  log (yielded (end_event run_interrupted (with_status interrupted s) c (some reason)))

-- After the control state was read: `none` is a run that goes on.
unfoldable pub choose :
    {W : Type 0}
    → ReActAgent W
    → Runtime W
    → Next W
    → ℤ
    → AgentRunState
    → Checkpoint
    → Option String
    → Proc W (Unit {0})
choose a rt next index s c (some reason) = stop_run rt s reason
choose a rt next index s c none = do
  log asked_model
  action ← act (a.make_next_action s)
  follow a rt next index s c action

-- The loop from `before_action` with so many rounds left.
unfoldable pub rounds : {W : Type 0} → ReActAgent W → Runtime W → ℕ → Next W
rounds a rt zero index s c = commit_max_steps rt index s c
rounds a rt (suc n) index s c = do
  stop ← control_stop_reason rt
  choose a rt (rounds a rt n) index s c stop

-- `deserialize_agent_action(checkpoint.pending_action or {})`
abbrev pub restored_call : Result AgentAction → Result (String × Fields × Option String)
restored_call (ok (tool_call name args call_id)) = ok (name, args, call_id)
restored_call (ok (final answer)) = err checkpoint_validation
restored_call (err e) = err e

-- How many rounds are left.
abbrev pub rounds_left : ℤ → ℕ → ℕ
rounds_left max_steps index = pos_part (max_steps +ℤ sub_ℕ 0 index)

-- The test of the `while` before a stage that is resumed.
abbrev pub if_room :
    {W : Type 0}
    → Runtime W
    → ℕ
    → ℤ
    → AgentRunState
    → Checkpoint
    → (ℕ → Proc W (Unit {0}))
    → Proc W (Unit {0})
if_room rt zero index s c stage = commit_max_steps rt index s c
if_room rt (suc n) index s c stage = stage n

abbrev pub final_step : ℤ → Option String → AgentStepRecord
final_step index none = step_of index (final "") null none 0
final_step index (some answer) = step_of index (final answer) null none 0

abbrev pub from_phase :
    {W : Type 0}
    → ReActAgent W
    → Runtime W
    → Phase
    → ℕ
    → ℤ
    → AgentRunState
    → Checkpoint
    → Proc W (Unit {0})
from_phase a rt before_tool n index s c = do
  call ← give (restored_call (parse_agent_action (or_empty c.pending_action)))
  if_room rt n index s c (λ m. launch a rt (rounds a rt m) call.0 call.1 call.2 index s c)
from_phase a rt tool_in_flight n index s c = do
  call ← give (restored_call (parse_agent_action (or_empty c.pending_action)))
  if_room rt n index s c (λ m. run_tool a rt (rounds a rt m) call.0 call.1 call.2 index s c)
from_phase a rt final_ready n index s c = do
  let step = final_step index c.final_answer
  let s' = record (add_step step s) { final_answer = c.final_answer; status = completed }
  commit_final rt s' c step
from_phase a rt _ n index s c = rounds a rt n index s c

-- `_drive`
unfoldable pub drive :
    {W : Type 0} → ReActAgent W → Runtime W → AgentRunState → Checkpoint → Proc W (Unit {0})
drive a rt s c =
    from_phase a rt c.phase (rounds_left s.max_steps (length s.steps)) (pos (length s.steps)) s c
