-- ===== src/Checkpoint.antt =====
-- The checkpoint of a managed run: the data of pkg/agents/state.py. The children have the
-- validation and the two directions of the codec, and what is proved of them.
pub mod Validate
pub mod Encode
pub mod Readers
pub mod WellFormed
pub mod Roundtrip
pub mod Rejects
pub mod Decode
use agent_backend.Prelude.{
  ℕ, String, ◌≡◌, refl, Bool, true, false, Option, none, some, List, [], ◌∷◌, ◌++◌, map, ℤ, pos,
  ◌+ℤ◌, str_eq, if◌then◌else◌,
}
use agent_backend.Json.{
  Value, Items, Fields, null, int, float, str, arr, obj, nil, cons, end, field, get,
}

-- AgentRunPhase
pub data Phase : Type 0 where
  routing before_action before_tool tool_in_flight final_ready : Phase

abbrev pub phase_value : Phase → String
phase_value routing = "routing"
phase_value before_action = "before_action"
phase_value before_tool = "before_tool"
phase_value tool_in_flight = "tool_in_flight"
phase_value final_ready = "final_ready"

-- ToolReplayPolicy
pub data ReplayPolicy : Type 0 where
  replay_safe idempotent non_replayable : ReplayPolicy

-- AgentCheckpointStep; `elapsed_ms` is the bit pattern of a float.
pub record CheckpointStep : Type 0 where
  pub index : ℤ
  pub status : String
  pub action : Fields
  pub action_result : Value
  pub error : Option String
  pub elapsed_ms : ℕ

-- AgentCheckpoint
pub record Checkpoint : Type 0 where
  pub run_id : String
  pub phase : Phase
  pub max_steps : ℤ
  pub user_input : String
  pub definition_version : String
  pub next_step_index : ℤ
  pub session_context : Fields
  pub route : Option String
  pub agent_name : Option String
  pub model_config : Fields
  pub steps : List CheckpointStep
  pub pending_action : Option Fields
  pub final_answer : Option String
  pub revision : ℤ
  pub schema_version : ℤ

abbrev pub text_of : Value → String
text_of (str s) = s
text_of _ = ""

abbrev pub text_of? : Value → Option String
text_of? (str s) = some s
text_of? _ = none

-- The properties `action_type` and `tool` of a step.
abbrev pub action_type : CheckpointStep → String
action_type s = text_of (get s.action "type")

abbrev pub tool : CheckpointStep → Option String
tool s = text_of? (get s.action "tool")

-- `next_revision(**changes)`: the caller's changes are a function here, and what that writes to
-- `revision` is dropped, as `changes.pop("revision", None)` does.
unfoldable pub next_revision : (Checkpoint → Checkpoint) → Checkpoint → Checkpoint
next_revision changes c = record (changes c) { revision = c.revision +ℤ pos 1 }

abbrev pub opt_str : Option String → Value
opt_str none = null
opt_str (some s) = str s

abbrev pub opt_obj : Option Fields → Value
opt_obj none = null
opt_obj (some fs) = obj fs

-- `AgentCheckpointStep.to_payload`
abbrev pub step_payload : CheckpointStep → Fields
step_payload s = field "index" (int s.index) (
    field "status" (str s.status) (
      field "action" (obj s.action) (
        field "action_result" s.action_result
          (field "error" (opt_str s.error) (field "elapsed_ms" (float s.elapsed_ms) end)))))

abbrev pub steps_payload : List CheckpointStep → Items
steps_payload [] = nil
steps_payload (s ∷ ss) = cons (obj (step_payload s)) (steps_payload ss)

-- `AgentCheckpoint.to_payload`
abbrev pub to_payload : Checkpoint → Fields
to_payload c = field "schema_version" (int c.schema_version) (
    field "revision" (int c.revision) (
      field "run_id" (str c.run_id) (
        field "phase" (str (phase_value c.phase)) (
          field "next_step_index" (int c.next_step_index) (
            field "max_steps" (int c.max_steps) (
              field "user_input" (str c.user_input) (
                field "session_context" (obj c.session_context) (
                  field "route" (opt_str c.route) (
                    field "agent_name" (opt_str c.agent_name) (
                      field "definition_version" (str c.definition_version) (
                        field "model_config" (obj c.model_config) (
                          field "steps" (arr (steps_payload c.steps)) (
                            field "pending_action" (opt_obj c.pending_action)
                              (field "final_answer" (opt_str c.final_answer) end))))))))))))))
