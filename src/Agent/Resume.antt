-- ===== src/Agent/Resume.antt =====
-- `ReActAgent.assess_resume` of pkg/agents/react.py, and when it refuses to go on.
use agent_backend.Checkpoint.Validate.{is_empty}
use agent_backend.Store.Rows.{found}
use agent_backend.Json.{get, str, end}
use agent_backend.Checkpoint.{
  before_tool, final_ready, before_action, routing, tool, action_type, non_replayable,
  CheckpointStep, tool_in_flight, Checkpoint,
}
use agent_backend.Prelude.{
  ◌&&◌, not, is_none, raise_if, ◌>>◌, ◌>>=◌, true, is_some, false, String, Option, none, some, List,
  [], ◌∷◌, Result, ok, err, unknown_tool, checkpoint_validation,
}
use agent_backend.Agent.{
  str_eq, require_recovery, resume, Value, AgentResumeDecision, Bool, ReplayPolicy, Phase, Fields,
  StructuredTool, AgentResumeAssessment, find_tool,
}

abbrev pub is_known : List StructuredTool → Option String → Bool
is_known tools none = false
is_known tools (some name) = is_some (find_tool tools name)

-- The loop over the steps.
abbrev pub check_tools : List StructuredTool → List CheckpointStep → Result (Unit {0})
check_tools tools [] = ok tt
check_tools tools (s ∷ ss) = do
  raise_if (str_eq (action_type s) "tool_call" && not (is_known tools (tool s))) unknown_tool
  check_tools tools ss

abbrev pub go_on : Phase → AgentResumeAssessment
go_on phase = record {
  decision = resume;
  phase = phase;
  tool = none;
  replay_policy = none;
  replayed = false;
}

abbrev pub with_tool : AgentResumeDecision → Phase → StructuredTool → Bool → AgentResumeAssessment
with_tool decision phase t replayed = record {
  decision = decision;
  phase = phase;
  tool = some t.name;
  replay_policy = some t.replay_policy;
  replayed = replayed;
}

-- `checkpoint.pending_action or {}`
abbrev pub or_empty : Option Fields → Fields
or_empty none = end
or_empty (some fs) = fs

abbrev pub pending_name : Value → Result String
pending_name (str name) = do raise_if (is_empty name) checkpoint_validation; ok name
pending_name _ = err checkpoint_validation

abbrev pub pending_tool : List StructuredTool → Option Fields → Result StructuredTool
pending_tool tools pending = do
  name ← pending_name (get (or_empty pending) "tool")
  found (find_tool tools name) unknown_tool

abbrev pub assess_in_flight : ReplayPolicy → StructuredTool → AgentResumeAssessment
assess_in_flight non_replayable t = with_tool require_recovery tool_in_flight t false
assess_in_flight _ t = with_tool resume tool_in_flight t true

abbrev pub assess_phase :
    List StructuredTool → Phase → Option Fields → Option String → Result AgentResumeAssessment
assess_phase tools routing pending final_answer = ok (go_on routing)
assess_phase tools before_action pending final_answer = ok (go_on before_action)
assess_phase tools final_ready pending final_answer = do
  raise_if (is_none final_answer) checkpoint_validation
  ok (go_on final_ready)
assess_phase tools before_tool pending final_answer = do
  t ← pending_tool tools pending
  ok (with_tool resume before_tool t false)
assess_phase tools tool_in_flight pending final_answer = do
  t ← pending_tool tools pending
  ok (assess_in_flight t.replay_policy t)

-- `assess_resume`
unfoldable pub assess_resume :
    String → List StructuredTool → Checkpoint → Result AgentResumeAssessment
assess_resume definition_version tools c = do
  raise_if (not (str_eq c.definition_version definition_version)) checkpoint_validation
  check_tools tools c.steps
  assess_phase tools c.phase c.pending_action c.final_answer
