-- ===== src/Execution/Checks.antt =====
-- What an attempt checks before it runs an agent: `_verify_compatibility`,
-- `_pending_confirmation_tokens`, `_require_safe_resume` and the changes of `_complete_degraded` of
-- internal/services/agents/execution.py, and `build_agent` of internal/agents/registry.py.
use agent_backend.Prelude.{
  ◌>>=◌, ◌>>◌, String, Bool, true, false, not, ◌&&◌, ◌||◌, Option, none, some, List, [], ◌∷◌, ℤ,
  str_eq, if◌then◌else◌, Result, ok, err, Error, app, agent_resume_unsafe,
  agent_definition_incompatible, is_some, raise_if,
}
use agent_backend.Json.{Value, Fields, null, str, obj, end, field, get}
use agent_backend.Checkpoint.{Checkpoint, CheckpointStep, next_revision, Phase, final_ready}
use agent_backend.Agent.{AgentRunStatus}
use agent_backend.Agent.Resume.{assess_resume}
use agent_backend.Agent.Loop.{ReActAgent, AgentRunResult}
use agent_backend.Agent.Loop.Events.{refuse_unsafe}
use agent_backend.Execution.Definitions.{Definitions, require_supported}

-- AgentRoute of internal/agents/router.py
pub data AgentRoute : Type 0 where
  order payment unsupported : AgentRoute

abbrev pub route_value : AgentRoute → String
route_value order = "order"
route_value payment = "payment"
route_value unsupported = "unsupported"

-- `_ROUTE_AGENT_NAMES.get(route)`
abbrev pub route_agent : AgentRoute → Option String
route_agent order = some "order_support"
route_agent payment = some "payment_support"
route_agent unsupported = none

-- What the service is built with: the registry and its builders, the current model, the router, the
-- cache of actions to confirm, and the text of an exception.
pub record Service (V : Type 0) : Type 0 where
  pub definitions : Definitions
  pub order_agent : ℤ → Fields → ReActAgent V
  pub payment_agent : ℤ → Fields → ReActAgent V
  pub provider : String
  pub model : String
  pub route : String → V → Result AgentRoute × V
  pub get_pending_action : String → V → Result (Option Value) × V
  pub text_of_error : Error → String

-- `_current_model_config`
abbrev pub current_model_config : {V : Type 0} → Service V → Fields
current_model_config svc = field "provider" (str svc.provider) (field "model" (str svc.model) end)

abbrev pub agrees : Value → String → Bool
agrees null current = true
agrees (str frozen) current = str_eq frozen current
agrees _ current = false

-- `_verify_compatibility`; an empty configuration has neither key.
unfoldable pub verify_compatibility : {V : Type 0} → Service V → Checkpoint → Result (Unit {0})
verify_compatibility svc c = do
  require_supported svc.definitions c.definition_version
  raise_if (not (agrees (get c.model_config "provider") svc.provider))
      (app agent_definition_incompatible)
  raise_if (not (agrees (get c.model_config "model") svc.model)) (app agent_definition_incompatible)

abbrev pub mem : String → List String → Bool
mem t [] = false
mem t (u ∷ us) = str_eq u t || mem t us

-- `action_result["confirmation"]["token"]`, where it is a text that is not empty.
abbrev token_text : Value → Option String
token_text (str t) = if str_eq t "" then none else some t
token_text _ = none

abbrev pub token_in : Value → Option String
token_in (obj confirmation) = token_text (get confirmation "token")
token_in _ = none

abbrev pub confirmation_token : Value → Option String
confirmation_token (obj action_result) = token_in (get action_result "confirmation")
confirmation_token _ = none

abbrev pub add_token : Option String → List String → List String
add_token none rest = rest
add_token (some t) rest = t ∷ rest

-- `_pending_confirmation_tokens`; `seen` are the tokens found before, which are not repeated.
unfoldable pub pending_confirmation_tokens : List String → List CheckpointStep → List String
pending_confirmation_tokens seen [] = []
pending_confirmation_tokens seen (s ∷ steps) = elim (confirmation_token s.action_result) [
  | none ↦ pending_confirmation_tokens seen steps
  | some t ↦ elim (mem t seen) [
    | true ↦ pending_confirmation_tokens seen steps
    | false ↦ t ∷ pending_confirmation_tokens (t ∷ seen) steps
  ]
]

-- Any exception of the cache, and a missing action, refuse the resume.
abbrev still_pending : Result (Option Value) → Result (Unit {0})
still_pending (ok (some pending)) = ok tt
still_pending (ok none) = err (app agent_resume_unsafe)
still_pending (err e) = err (app agent_resume_unsafe)

abbrev pub checked : {V : Type 0} → Result (Option Value) × V → Result (Unit {0}) × V
checked (r, v) = (still_pending r, v)

-- `build_agent` of internal/agents/registry.py
abbrev pub build_agent :
    {V : Type 0} → Service V → String → String → ℤ → Fields → Result (ReActAgent V)
build_agent svc agent_name version max_steps session_context = do
  require_supported svc.definitions version
  if str_eq agent_name "order_support"
      then ok (svc.order_agent max_steps session_context)
      else if str_eq agent_name "payment_support"
      then ok (svc.payment_agent max_steps session_context)
      else err (app agent_definition_incompatible)

-- `_require_safe_resume`
unfoldable pub require_safe_resume : {V : Type 0} → ReActAgent V → Checkpoint → Result (Unit {0})
require_safe_resume a c = do
  assessment ← assess_resume a.definition_version a.tools c
  refuse_unsafe assessment.decision

abbrev pub or_text : Option String → String → String
or_text none other = other
or_text (some t) other = if str_eq t "" then other else t

abbrev pub is_final_ready : Phase → Bool
is_final_ready final_ready = true
is_final_ready _ = false

abbrev pub set_route : String → Option String → Option String
set_route route none = some route
set_route route (some r) = some r

-- The changes of `_complete_degraded`; without any the revision stays.
abbrev degraded_changes : String → String → Checkpoint → Checkpoint
degraded_changes route answer c =
    let c' = record c {
      route = set_route route c.route;
      agent_name = set_route "agent_chat" c.agent_name;
    } in
    if is_final_ready c.phase
    then c'
    else record c' { phase = final_ready; final_answer = some answer }

abbrev pub degraded : String → Checkpoint → Checkpoint
degraded route c =
    if is_some c.route && (is_some c.agent_name && is_final_ready c.phase)
    then c
    else next_revision
        (degraded_changes route (or_text c.final_answer "当前仅支持订单、物流、售后、退款、发票和支付相关问题。")) c

abbrev pub degraded_result : String → Checkpoint → AgentRunResult
degraded_result run_id c = record {
  run_id = run_id;
  status = AgentRunStatus.completed;
  final_answer = some (or_text c.final_answer "当前仅支持订单、物流、售后、退款、发票和支付相关问题。");
  steps = [];
}
