-- ===== src/Checkpoint/Validate.antt =====
-- `_validate_checkpoint` of pkg/agents/state.py.
use agent_backend.Prelude.{
  ℕ, suc, String, Bool, true, false, not, ◌&&◌, ◌||◌, Option, none, some, List, [], ◌∷◌, pos, ltb_ℤ,
  eqb_ℤ, length, str_eq, Result, ok, err, checkpoint_validation, ◌>>◌, raise_if, is_none, is_some,
}
use agent_backend.Json.{Value, Fields, str, get, is_non_empty_str}
use agent_backend.Checkpoint.{
  Phase, before_tool, tool_in_flight, final_ready, CheckpointStep, Checkpoint, action_type, tool,
}

-- `not text`
abbrev pub is_empty : String → Bool
is_empty s = str_eq s ""

-- `not step.tool`: no tool, or an empty name.
abbrev pub lacks_tool : Option String → Bool
lacks_tool none = true
lacks_tool (some t) = is_empty t

-- `action_type in _ACTION_TYPES`
abbrev pub is_action_type : String → Bool
is_action_type t = str_eq t "tool_call" || str_eq t "final"

unfoldable pub validate_header : Checkpoint → Result (Unit {0})
validate_header c = do
  raise_if (is_empty c.run_id) checkpoint_validation
  raise_if (ltb_ℤ c.max_steps (pos 1)) checkpoint_validation
  raise_if (ltb_ℤ c.revision (pos 0)) checkpoint_validation
  raise_if (is_empty c.definition_version) checkpoint_validation

unfoldable pub validate_step : ℕ → CheckpointStep → Result (Unit {0})
validate_step position s = do
  raise_if (not (eqb_ℤ s.index (pos position))) checkpoint_validation
  raise_if (not (is_action_type (action_type s))) checkpoint_validation
  raise_if (str_eq (action_type s) "tool_call" && lacks_tool (tool s)) checkpoint_validation

-- The loop over `enumerate(checkpoint.steps)`.
unfoldable pub validate_steps : ℕ → List CheckpointStep → Result (Unit {0})
validate_steps position [] = ok tt
validate_steps position (s ∷ ss) = validate_step position s >> validate_steps (suc position) ss

unfoldable pub validate_counts : Checkpoint → Result (Unit {0})
validate_counts c = do
  raise_if (not (eqb_ℤ c.next_step_index (pos (length c.steps)))) checkpoint_validation
  raise_if (ltb_ℤ c.max_steps c.next_step_index) checkpoint_validation

abbrev pub is_tool_call : Value → Bool
is_tool_call (str s) = str_eq s "tool_call"
is_tool_call _ = false

abbrev pub validate_tool_phase : Option Fields → Option String → Result (Unit {0})
validate_tool_phase none final_answer = err checkpoint_validation
validate_tool_phase (some pending) final_answer = do
  raise_if (not (is_tool_call (get pending "type"))) checkpoint_validation
  raise_if (not (is_non_empty_str (get pending "tool"))) checkpoint_validation
  raise_if (is_some final_answer) checkpoint_validation

abbrev pub validate_phase : Phase → Option Fields → Option String → Result (Unit {0})
validate_phase final_ready pending final_answer = do
  raise_if (is_none final_answer) checkpoint_validation
  raise_if (is_some pending) checkpoint_validation
validate_phase before_tool pending final_answer = validate_tool_phase pending final_answer
validate_phase tool_in_flight pending final_answer = validate_tool_phase pending final_answer
validate_phase _ pending final_answer = do
  raise_if (is_some pending) checkpoint_validation
  raise_if (is_some final_answer) checkpoint_validation

unfoldable pub validate_checkpoint : Checkpoint → Result (Unit {0})
validate_checkpoint c = do
  validate_header c
  validate_steps 0 c.steps
  validate_counts c
  validate_phase c.phase c.pending_action c.final_answer
