-- ===== src/Agent/Loop.antt =====
-- The durable loop of pkg/agents/react.py: `_drive`, `_commit_final`, `_control_stop_reason` and
-- `_execute_tool_call` with a runtime, and `AgentControlState.should_stop` of
-- pkg/agents/runtime.py. The runtime, the action maker, the tools' handlers and the clock act on a
-- world of any type. What the loop does is logged, newest first. The arguments of an action are a
-- mapping, as its class declares.
pub mod Drive
pub mod Events
pub mod Hoare
pub mod Safety
pub mod Rounds
pub mod Whole
pub mod World
pub mod Frame
use agent_backend.Prelude.{
  ◌<>◌, ℕ, zero, suc, String, Bool, true, false, not, ◌||◌, Option, none, some, List, [], ◌∷◌, ◌++◌,
  ℤ, pos, ◌+ℤ◌, Result, ok, err, Error, invalid_agent_action, unknown_tool, tool_execution,
  checkpoint_validation, if◌then◌else◌, str_eq, length, ◌⊎◌, inl, inr,
}
use agent_backend.Json.{Value, Fields, str, obj, end, field, null}
use agent_backend.Checkpoint.{
  Checkpoint, next_revision, Phase, routing, before_action, before_tool, tool_in_flight,
  final_ready, ReplayPolicy, idempotent,
}
use agent_backend.Agent.{
  AgentRunStatus, running, completed, max_steps_reached, interrupted, AgentAction, tool_call, final,
  AgentStepRecord, AgentStepStatus, step_completed, step_failed, AgentRunState, StructuredTool,
  find_tool,
}
use agent_backend.Agent.Actions.{
  serialize_agent_action, parse_agent_action, action_tool_call_id, stable_tool_call_id,
}
use agent_backend.Agent.Resume.{or_empty}
use agent_backend.Store.{RunStatus, is_terminal}

-- AgentControlState
pub record AgentControlState : Type 0 where
  pub status : RunStatus
  pub revision : ℤ
  pub attempt_no : ℕ
  pub interrupt_requested : Bool
  pub lease_owned : Bool
  pub stop_reason : Option String

abbrev stops : RunStatus → Bool
stops RunStatus.interrupt_requested = true
stops RunStatus.interrupted = true
stops RunStatus.recovery_required = true
stops status = is_terminal status

-- `AgentControlState.should_stop`
abbrev pub should_stop : AgentControlState → Bool
should_stop c = not c.lease_owned || (c.interrupt_requested || stops c.status)

-- AgentCheckpointCommit
pub record AgentCheckpointCommit : Type 0 where
  pub checkpoint : Checkpoint
  pub paused : Bool
  pub stop_reason : Option String

-- AgentRunResult
pub record AgentRunResult : Type 0 where
  pub run_id : String
  pub status : AgentRunStatus
  pub final_answer : Option String
  pub steps : List AgentStepRecord

-- AgentRunEventType
pub data AgentRunEventType : Type 0 where
  run_started run_resumed step_done run_interrupted run_completed : AgentRunEventType

-- AgentRunEvent
pub record AgentRunEvent : Type 0 where
  pub kind : AgentRunEventType
  pub run_id : String
  pub status : AgentRunStatus
  pub step : Option AgentStepRecord
  pub result : Option AgentRunResult
  pub checkpoint_revision : Option ℤ
  pub stop_reason : Option String

-- A commit is logged with what it answered, once it has gone through.
pub data Effect : Type 0 where
  asked_model : Effect
  called_tool : String → Fields → Effect
  committed : Checkpoint → Bool → Effect
  yielded : AgentRunEvent → Effect

abbrev pub Log : Type 0
Log = List Effect

-- AgentRunRuntime; the loop always commits with `pause_when_interrupted`.
pub record Runtime (W : Type 0) : Type 0 where
  pub load_checkpoint : W → Result (Option Checkpoint) × W
  pub load_control_state : W → Result AgentControlState × W
  pub commit_checkpoint : Checkpoint → W → Result AgentCheckpointCommit × W
  pub commit_step : AgentStepRecord → Checkpoint → W → Result AgentCheckpointCommit × W
  pub commit_terminal : Checkpoint → AgentRunResult → W → Result AgentCheckpointCommit × W

-- What the agent is built with. An action maker may return an object that is no action, `none`,
-- and a handler may raise, with a text.
pub record ReActAgent (W : Type 0) : Type 0 where
  pub make_next_action : AgentRunState → W → Result (Option AgentAction) × W
  pub call_handler : String → Fields → W → (Value ⊎ String) × W
  pub elapsed_ms : W → ℕ × W
  pub str_of_int : ℤ → String
  pub tools : List StructuredTool
  pub capture_tool_errors : Bool
  pub definition_version : String

-- A piece of the loop: it may raise, and what it has done stays done.
abbrev pub Proc : Type 0 → Type 0 → Type 0
Proc W A = W × Log → Result A × (W × Log)

abbrev pub then_do : {W A B : Type 0} → (A → Proc W B) → Result A × (W × Log) → Result B × (W × Log)
then_do f (ok a, s) = f a s
then_do f (err e, s) = (err e, s)

infixl 5 ◌>>=◌ ◌>>◌
unfoldable pub ◌>>=◌ : {W A B : Type 0} → Proc W A → (A → Proc W B) → Proc W B
m >>= f = λ s. then_do f (m s)

abbrev pub ◌>>◌ : {W A B : Type 0} → Proc W A → Proc W B → Proc W B
m >> k = m >>= λ _. k

abbrev pub give : {W A : Type 0} → Result A → Proc W A
give r (w, l) = (r, (w, l))

abbrev pub log : {W : Type 0} → Effect → Proc W (Unit {0})
log e (w, l) = (ok tt, (w, e ∷ l))

abbrev pub act : {W A : Type 0} → (W → Result A × W) → Proc W A
act f (w, l) = ((f w).0, ((f w).1, l))

abbrev pub read : {W A : Type 0} → (W → A × W) → Proc W A
read f (w, l) = (ok (f w).0, ((f w).1, l))

abbrev pub commit_with :
    {W : Type 0}
    → Checkpoint
    → (W → Result AgentCheckpointCommit × W)
    → Proc W AgentCheckpointCommit
commit_with c f = do commit ← act f; log (committed c commit.paused); give (ok commit)

-- `_build_result`
abbrev build_result : AgentRunState → AgentRunResult
build_result s = record {
  run_id = s.run_id;
  status = s.status;
  final_answer = s.final_answer;
  steps = s.steps;
}

abbrev revision_of : Option Checkpoint → Option ℤ
revision_of none = none
revision_of (some c) = some c.revision

-- `_build_event` with a result.
abbrev pub end_event :
    AgentRunEventType → AgentRunState → Option Checkpoint → Option String → AgentRunEvent
end_event kind s c stop_reason = record {
  kind = kind;
  run_id = s.run_id;
  status = s.status;
  step = none;
  result = some (build_result s);
  checkpoint_revision = revision_of c;
  stop_reason = stop_reason;
}

-- `_step_event`
abbrev pub step_event : AgentRunState → AgentStepRecord → Checkpoint → AgentRunEvent
step_event s step c = record {
  kind = step_done;
  run_id = s.run_id;
  status = s.status;
  step = some step;
  result = none;
  checkpoint_revision = some c.revision;
  stop_reason = none;
}

abbrev pub with_status : AgentRunStatus → AgentRunState → AgentRunState
with_status status s = record s { status = status }

abbrev pub add_step : AgentStepRecord → AgentRunState → AgentRunState
add_step step s = record s { steps = s.steps ++ step ∷ [] }

-- The return at a safe point.
abbrev pub pause : {W : Type 0} → AgentRunState → AgentCheckpointCommit → Proc W (Unit {0})
pause s commit = log (
    yielded (
      end_event run_interrupted (with_status interrupted s) (some commit.checkpoint)
        commit.stop_reason))

-- `{**args, key: value}`
abbrev put : Fields → String → Value → Fields
put end k v = field k v end
put (field j u fs) k v = if str_eq j k then field j v fs else field j u (put fs k v)

abbrev pub tool_args : ReplayPolicy → Fields → String → Fields
tool_args idempotent args id = put args "_agent_tool_call_id" (str id)
tool_args _ args id = args

abbrev pub tool_error : {W : Type 0} → Bool → String → Error → Proc W (Value × Option String)
tool_error true text e = give (ok (obj (field "error" (str text) end), some text))
tool_error false text e = give (err e)

abbrev pub tool_outcome : {W : Type 0} → Bool → Value ⊎ String → Proc W (Value × Option String)
tool_outcome capture (inl value) = give (ok (value, none))
tool_outcome capture (inr text) = tool_error capture text tool_execution

abbrev pub call_registered :
    {W : Type 0}
    → ReActAgent W
    → Option StructuredTool
    → String
    → Fields
    → String
    → Proc W (Value × Option String)
call_registered a none name args id =
    tool_error a.capture_tool_errors ("unknown tool: " <> name) unknown_tool
call_registered a (some t) name args id = do
  log (called_tool name (tool_args t.replay_policy args id))
  outcome ← read (a.call_handler name (tool_args t.replay_policy args id))
  tool_outcome a.capture_tool_errors outcome

-- `_execute_tool_call`
unfoldable pub execute_tool_call :
    {W : Type 0} → ReActAgent W → String → Fields → String → Proc W (Value × Option String)
execute_tool_call a name args id = call_registered a (find_tool a.tools name) name args id

abbrev pub commit_ending : {W : Type 0} → AgentRunState → AgentCheckpointCommit → Proc W (Unit {0})
commit_ending s commit =
    if commit.paused
    then pause s commit
    else log (yielded (end_event run_completed s (some commit.checkpoint) none))

-- `_commit_final`
unfoldable pub commit_final :
    {W : Type 0} → Runtime W → AgentRunState → Checkpoint → AgentStepRecord → Proc W (Unit {0})
commit_final rt s c step = do
  commit ← commit_with c (rt.commit_terminal c (build_result s))
  log (yielded (step_event s step commit.checkpoint))
  commit_ending s commit

-- The checkpoints of `_next_checkpoint`: after a step or the last step allowed, with a tool in
-- flight, with an action to take, and with an answer.
abbrev pub step_checkpoint : ℤ → Checkpoint → Checkpoint
step_checkpoint index =
    next_revision
      λ c. record c { phase = before_action; next_step_index = index; pending_action = none }

abbrev pub flight_checkpoint : Checkpoint → Checkpoint
flight_checkpoint = next_revision λ c. record c { phase = tool_in_flight }

abbrev pub action_checkpoint : Fields → Checkpoint → Checkpoint
action_checkpoint pending =
    next_revision λ c. record c { phase = before_tool; pending_action = some pending }

abbrev pub answer_checkpoint : String → Checkpoint → Checkpoint
answer_checkpoint answer =
    next_revision λ c. record c { phase = final_ready; final_answer = some answer }

-- The end of `_drive`, after the last step allowed.
unfoldable pub commit_max_steps :
    {W : Type 0} → Runtime W → ℤ → AgentRunState → Checkpoint → Proc W (Unit {0})
commit_max_steps rt index s c = do
  commit ← commit_with (step_checkpoint index c) (
      rt.commit_terminal (step_checkpoint index c) (build_result (with_status max_steps_reached s)))
  commit_ending (with_status max_steps_reached s) commit
