-- ===== src/Guard/Requests.antt =====
-- `ASGIEndpointGuardMiddleware` of internal/middlewares/endpoint_guard.py: what becomes of a request.
pub mod Refusal
pub mod Decision
use agent_backend.Prelude.{
  ℕ, String, Bool, true, false, not, ◌&&◌, ◌||◌, Option, none, some, List, [], ◌∷◌, str_eq,
  if◌then◌else◌, AppError,
}
use agent_backend.Guard.{Rule, GuardError, Web, is_active}
use agent_backend.Guard.Matching.{rule_matches}

pub record Request : Type 0 where
  pub is_http : Bool
  pub method : String
  pub path : String

-- The request goes on to the application, or an `AppException` with its message is raised.
pub data Outcome : Type 0 where
  passed : Outcome
  raised : AppError → String → Outcome

-- `_error_for_rule`
abbrev pub error_for_rule : GuardError → AppError
error_for_rule GuardError.forbidden = AppError.forbidden
error_for_rule GuardError.unavailable = AppError.service_unavailable
error_for_rule GuardError.not_found = AppError.not_found
error_for_rule GuardError.disabled = AppError.endpoint_disabled

abbrev pub default_message : GuardError → String
default_message GuardError.unavailable = "endpoint is temporarily unavailable"
default_message GuardError.not_found = "endpoint not found"
default_message GuardError.forbidden = "endpoint access forbidden"
default_message GuardError.disabled = "endpoint is disabled"

-- `_message_for_rule`
abbrev pub message_for_rule : Rule → String
message_for_rule rule = if str_eq rule.message "" then default_message rule.error else rule.message

abbrev pub applies : Web → ℕ → Request → Rule → Bool
applies web now request rule =
    is_active now rule && rule_matches web rule request.method request.path

abbrev pub first_rule : Web → ℕ → Request → List Rule → Option Rule
first_rule web now request [] = none
first_rule web now request (rule ∷ rules) =
    let rest = first_rule web now request rules in
    if applies web now request rule then some rule else rest

-- `_reject_request`, or the application.
abbrev pub reject_request : Option Rule → Outcome
reject_request none = passed
reject_request (some rule) = raised (error_for_rule rule.error) (message_for_rule rule)

-- `_find_matched_rule`, and what is done with its answer.
abbrev by_rules : Web → ℕ → Request → Option (List Rule) → Outcome
by_rules web now request none =
    raised AppError.service_unavailable "endpoint guard rule source unavailable"
by_rules web now request (some rules) = reject_request (first_rule web now request rules)

-- `__call__`, where `answer` is what the provider returns if it is asked.
unfoldable pub handle : Web → Bool → ℕ → Request → Option (List Rule) → Outcome
handle web enabled now request answer =
    if not request.is_http || not enabled
    then passed
    else if str_eq (web.upper request.method) "OPTIONS"
    then passed
    else by_rules web now request answer
