-- ===== src/Agent.antt =====
-- The ReAct agent of pkg/agents/react.py: its actions, steps, tools and state.
pub mod Actions
pub mod Restore
pub mod Resume
pub mod Verdict
pub mod Admission
pub mod Loop
use agent_backend.Prelude.{
  Bool, ℕ, String, Option, List, [], ◌∷◌, none, some, ℤ, str_eq, if◌then◌else◌,
}
use agent_backend.Json.{Value, Fields}
use agent_backend.Checkpoint.{Phase, ReplayPolicy}

-- AgentRunStatus
pub data AgentRunStatus : Type 0 where
  running completed max_steps_reached interrupted recovery_required failed : AgentRunStatus

-- AgentStepStatus
pub data AgentStepStatus : Type 0 where
  step_completed step_failed : AgentStepStatus

abbrev pub step_status_value : AgentStepStatus → String
step_status_value step_completed = "completed"
step_status_value step_failed = "failed"

-- AgentToolCall and AgentFinal; the arguments are a mapping, as the class declares.
pub data AgentAction : Type 0 where
  tool_call : String → Fields → Option String → AgentAction
  final : String → AgentAction

-- AgentStepRecord; `elapsed_ms` is the bit pattern of a float.
pub record AgentStepRecord : Type 0 where
  pub index : ℤ
  pub action : AgentAction
  pub status : AgentStepStatus
  pub action_result : Value
  pub error : Option String
  pub elapsed_ms : ℕ

-- AgentRunState
pub record AgentRunState : Type 0 where
  pub run_id : String
  pub user_input : String
  pub max_steps : ℤ
  pub status : AgentRunStatus
  pub steps : List AgentStepRecord
  pub final_answer : Option String

-- The part of a StructuredTool that decides on a resume.
pub record StructuredTool : Type 0 where
  pub name : String
  pub is_readonly : Bool
  pub replay_policy : ReplayPolicy

-- AgentResumeDecision
pub data AgentResumeDecision : Type 0 where
  resume require_recovery : AgentResumeDecision

-- AgentResumeAssessment
pub record AgentResumeAssessment : Type 0 where
  pub decision : AgentResumeDecision
  pub phase : Phase
  pub tool : Option String
  pub replay_policy : Option ReplayPolicy
  pub replayed : Bool

-- `self._tools.get(name)`, a dictionary by name.
abbrev pub find_tool : List StructuredTool → String → Option StructuredTool
find_tool [] name = none
find_tool (t ∷ ts) name = if str_eq t.name name then some t else find_tool ts name
