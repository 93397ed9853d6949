-- ===== src/Checkpoint/Decode.antt =====
-- `decode_checkpoint` of pkg/agents/state.py and its parts.
use Prim.Native.String.{count}
use agent_backend.Prelude.{
  ℕ, String, Bool, true, false, not, ◌&&◌, Option, none, some, List, [], ◌∷◌, ℤ, pos, eqb_ℤ, ltb,
  length, str_eq, if◌then◌else◌, Result, ok, err, checkpoint_validation, checkpoint_serialization,
  unsupported_checkpoint_version, type_error, ◌>>=◌, ◌>>◌, raise_if,
}
use agent_backend.Json.{
  Value, Items, Fields, null, int, str, arr, obj, nil, cons, end, get, get_or, is_non_empty_str,
}
use agent_backend.Checkpoint.{
  Phase, routing, before_action, before_tool, tool_in_flight, final_ready, CheckpointStep,
  Checkpoint,
}
use agent_backend.Checkpoint.Validate.{is_action_type, is_tool_call, validate_checkpoint}
use agent_backend.Checkpoint.Readers.{
  require_str, require_non_empty_str, optional_str, require_int, require_number, require_mapping,
  as_optional_str,
}

-- What `decode_checkpoint` is given: JSON text, or a value that is parsed already.
pub data Payload : Type 0 where
  text : String → Payload
  raw_bytes : List ℕ → Payload
  parsed : Value → Payload

-- What Python and orjson do: `none` is a `ValueError` of the parser, or an `OverflowError` of
-- `float`.
pub record Platform : Type 0 where
  pub loads_text : String → Option Value
  pub loads_bytes : List ℕ → Option Value
  pub float_of_int : ℤ → Option ℕ

-- `action_type not in _ACTION_TYPES`: a list or a dictionary has no hash, and the test raises.
abbrev known_action_type : Value → Result Bool
known_action_type (str s) = ok (is_action_type s)
known_action_type (arr _) = err type_error
known_action_type (obj _) = err type_error
known_action_type _ = ok false

abbrev is_str : Value → Bool
is_str (str _) = true
is_str _ = false

abbrev is_mapping : Value → Bool
is_mapping (obj _) = true
is_mapping _ = false

abbrev is_null : Value → Bool
is_null null = true
is_null _ = false

abbrev pub is_final : Value → Bool
is_final (str s) = str_eq s "final"
is_final _ = false

-- `_validate_tool_call_identity`
abbrev pub validate_tool_call_identity : Fields → Result (Unit {0})
validate_tool_call_identity action = do
  raise_if (not (is_null (get action "call_id")) && not (is_str (get action "call_id")))
      checkpoint_validation
  raise_if
      (not (is_null (get action "tool_call_id"))
        && not (is_non_empty_str (get action "tool_call_id")))
      checkpoint_validation

abbrev require_known_type : Fields → Result (Unit {0})
require_known_type action = do
  known ← known_action_type (get action "type")
  raise_if (not known) checkpoint_validation

-- The checks that `_decode_steps` makes of a step's action.
unfoldable pub check_step_action : Fields → Result (Unit {0})
check_step_action action = do
  require_known_type action
  raise_if (is_tool_call (get action "type") && not (is_non_empty_str (get action "tool")))
      checkpoint_validation
  raise_if (is_final (get action "type") && not (is_str (get action "answer")))
      checkpoint_validation
  if is_tool_call (get action "type") then validate_tool_call_identity action else ok tt

abbrev pub action_of : Value → Result Fields
action_of (obj action) = ok action
action_of _ = err checkpoint_validation

-- One round of the loop of `_decode_steps`.
unfoldable pub decode_step : (ℤ → Option ℕ) → Value → Result CheckpointStep
decode_step float_of_int (obj raw_step) = do
  action ← action_of (get raw_step "action")
  check_step_action action
  error ← as_optional_str (get raw_step "error")
  index ← require_int raw_step "index"
  status ← require_non_empty_str raw_step "status"
  elapsed_ms ← require_number float_of_int raw_step "elapsed_ms"
  ok (record {
    index = index;
    status = status;
    action = action;
    action_result = get raw_step "action_result";
    error = error;
    elapsed_ms = elapsed_ms;
  })
decode_step float_of_int _ = err checkpoint_validation

unfoldable pub decode_items : (ℤ → Option ℕ) → Items → Result (List CheckpointStep)
decode_items float_of_int nil = ok []
decode_items float_of_int (cons raw_step rest) = do
  step ← decode_step float_of_int raw_step
  steps ← decode_items float_of_int rest
  ok (step ∷ steps)

-- `_decode_steps`
abbrev decode_steps : (ℤ → Option ℕ) → Value → Result (List CheckpointStep)
decode_steps float_of_int null = ok []
decode_steps float_of_int (arr items) = decode_items float_of_int items
decode_steps float_of_int _ = err checkpoint_validation

-- The checks that `_decode_optional_action` makes of a pending action.
unfoldable pub check_pending_action : Fields → Result (Unit {0})
check_pending_action action = do
  require_known_type action
  if is_tool_call (get action "type")
      then (do
        raise_if (not (is_non_empty_str (get action "tool"))) checkpoint_validation
        raise_if (not (is_mapping (get_or action "args" (obj end)))) checkpoint_validation
        validate_tool_call_identity action)
      else raise_if (not (is_str (get action "answer"))) checkpoint_validation

-- `_decode_optional_action`
abbrev pub decode_optional_action : Value → Result (Option Fields)
decode_optional_action null = ok none
decode_optional_action (obj action) = do check_pending_action action; ok (some action)
decode_optional_action _ = err checkpoint_validation

abbrev phase_of_text : String → Result Phase
phase_of_text s =
    if str_eq s "routing"
    then ok routing
    else if str_eq s "before_action"
    then ok before_action
    else if str_eq s "before_tool"
    then ok before_tool
    else if str_eq s "tool_in_flight"
    then ok tool_in_flight
    else if str_eq s "final_ready"
    then ok final_ready
    else err checkpoint_validation

-- `_decode_phase`
abbrev pub decode_phase : Value → Result Phase
decode_phase (str s) = phase_of_text s
decode_phase _ = err checkpoint_validation

-- `schema_version in SUPPORTED_CHECKPOINT_SCHEMA_VERSIONS`
abbrev pub decode_version : Value → Result ℤ
decode_version (int v) = do raise_if (not (eqb_ℤ v (pos 1))) unsupported_checkpoint_version; ok v
decode_version _ = err checkpoint_validation

-- The fields of the checkpoint, read before they are validated.
unfoldable pub decode_raw : (ℤ → Option ℕ) → Fields → Result Checkpoint
decode_raw float_of_int raw = do
  schema_version ← decode_version (get raw "schema_version")
  steps ← decode_steps float_of_int (get raw "steps")
  pending_action ← decode_optional_action (get raw "pending_action")
  phase ← decode_phase (get raw "phase")
  run_id ← require_non_empty_str raw "run_id"
  max_steps ← require_int raw "max_steps"
  user_input ← require_str raw "user_input"
  definition_version ← require_non_empty_str raw "definition_version"
  next_step_index ← require_int raw "next_step_index"
  session_context ← require_mapping raw "session_context"
  route ← optional_str raw "route"
  agent_name ← optional_str raw "agent_name"
  model_config ← require_mapping raw "model_config"
  final_answer ← optional_str raw "final_answer"
  revision ← require_int raw "revision"
  ok (record {
    run_id = run_id;
    phase = phase;
    max_steps = max_steps;
    user_input = user_input;
    definition_version = definition_version;
    next_step_index = next_step_index;
    session_context = session_context;
    route = route;
    agent_name = agent_name;
    model_config = model_config;
    steps = steps;
    pending_action = pending_action;
    final_answer = final_answer;
    revision = revision;
    schema_version = schema_version;
  })

abbrev pub loaded : Option Value → Result Value
loaded none = err checkpoint_validation
loaded (some v) = ok v

-- The size is checked before the text is parsed.
abbrev pub load_payload : Platform → ℕ → Payload → Result Value
load_payload p max_bytes (text s) = do
  raise_if (ltb max_bytes (count s)) checkpoint_serialization
  loaded (p.loads_text s)
load_payload p max_bytes (raw_bytes b) = do
  raise_if (ltb max_bytes (length b)) checkpoint_serialization
  loaded (p.loads_bytes b)
load_payload p max_bytes (parsed v) = ok v

unfoldable pub decode_checkpoint : Platform → ℕ → Payload → Result Checkpoint
decode_checkpoint p max_bytes payload = do
  value ← load_payload p max_bytes payload
  raw ← action_of value
  checkpoint ← decode_raw p.float_of_int raw
  validate_checkpoint checkpoint
  ok checkpoint
