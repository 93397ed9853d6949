-- ===== src/Execution/CreateRun.antt =====
-- `create_run` of internal/services/agents/execution.py: the first checkpoint of a run.
use agent_backend.Prelude.{
  ◌<>◌, arith, ◌⊎◌, inl, inr, ℕ, String, ◌≡◌, ◌≢◌, refl, Option, none, some, [], ℤ, pos, ◌≤ℤ◌,
  str_eq, if◌then◌else◌, Result, ok, err, app, bad_request, ◌>>=◌,
}
use agent_backend.Json.{Fields}
use agent_backend.Checkpoint.{Checkpoint, Phase, routing, before_action}
use agent_backend.Checkpoint.WellFormed.{PhaseFits, IsWellFormed}
use agent_backend.Checkpoint.Roundtrip.{IsStorable}
use agent_backend.Store.Rows.{Backend}
use agent_backend.Creation.{Tables, CreateRequest, RunStart, create_managed_run}
use agent_backend.Execution.Checks.{Service, current_model_config, or_text}

-- `_entrypoint_definition`: the agent's name, its route and the first phase.
unfoldable pub entrypoint_definition : String → Result (String × Option String × Phase)
entrypoint_definition entrypoint =
    if str_eq entrypoint "chat"
    then ok ("agent_chat", none, routing)
    else if str_eq entrypoint "order_support"
    then ok ("order_support", some "order", before_action)
    else if str_eq entrypoint "payment_support"
    then ok ("payment_support", some "payment", before_action)
    else err (app bad_request)

-- What `create_run` is called with, the identifiers that it makes, and the context that was loaded of
-- the session, which is empty for a new one.
pub record RunRequest : Type 0 where
  pub user_id : String
  pub entrypoint : String
  pub question : String
  pub session_id : Option String
  pub max_steps : ℤ
  pub request_key : String
  pub run_id : String
  pub fresh_session_id : String
  pub user_message_id : String
  pub session_context : Fields

-- `_create_request_digest`, of the text that is hashed.
abbrev digest_text : (ℤ → String) → RunRequest → String
digest_text str_of_int q =
    q.entrypoint
    <> ("\u{1f}"
        <> (q.question
            <> ("\u{1f}" <> (or_text q.session_id "" <> ("\u{1f}" <> str_of_int q.max_steps)))))

abbrev pub initial_checkpoint :
    {V : Type 0} → Service V → RunRequest → String × Option String × Phase → Checkpoint
initial_checkpoint svc q (agent_name, route, phase) = record {
  run_id = q.run_id;
  phase = phase;
  max_steps = q.max_steps;
  user_input = q.question;
  definition_version = svc.definitions.definition_version;
  next_step_index = pos 0;
  session_context = q.session_context;
  route = route;
  agent_name = some agent_name;
  model_config = current_model_config svc;
  steps = [];
  pending_action = none;
  final_answer = none;
  revision = pos 0;
  schema_version = pos 1;
}

abbrev pub create_request :
    {V : Type 0}
    → Service V
    → (String → String)
    → (ℤ → String)
    → RunRequest
    → String × Option String × Phase
    → CreateRequest
create_request svc sha256 str_of_int q (agent_name, route, phase) = record {
  user_id = q.user_id;
  run_id = q.run_id;
  session_id = or_text q.session_id q.fresh_session_id;
  user_message_id = q.user_message_id;
  entrypoint = q.entrypoint;
  agent_name = agent_name;
  question = q.question;
  max_steps = q.max_steps;
  request_key = q.request_key;
  request_digest = sha256 (digest_text str_of_int q);
  execution_version = svc.definitions.definition_version;
  checkpoint = initial_checkpoint svc q (agent_name, route, phase);
  requested_session_id = q.session_id;
  route = route;
}

-- `create_run`
unfoldable pub create_run :
    {V : Type 0}
    → Service V
    → (String → String)
    → (ℤ → String)
    → Backend
    → ℕ
    → RunRequest
    → Tables
    → Tables
    → Result (RunStart × Tables)
create_run svc sha256 str_of_int b now q seen s = do
  definition ← entrypoint_definition q.entrypoint
  create_managed_run b now (create_request svc sha256 str_of_int q definition) seen s

first_phase :
    (entrypoint : String) {definition : String × Option String × Phase}
    → entrypoint_definition entrypoint ≡ ok definition
    → (definition.2 ≡ routing) ⊎ (definition.2 ≡ before_action)
unfolding entrypoint_definition
first_phase entrypoint h = ground arith

early_fits :
    (phase : Phase) → (phase ≡ routing) ⊎ (phase ≡ before_action) → PhaseFits phase none none
early_fits phase (inl e) = rw e (refl, refl)
early_fits phase (inr e) = rw e (refl, refl)

-- The first checkpoint of a run at any entry point is well formed, if the run is named, may make a
-- step and its definition has a version.
pub initial_checkpoint-IsWellFormed :
    {V : Type 0} (svc : Service V) (q : RunRequest) (definition : String × Option String × Phase)
    → entrypoint_definition q.entrypoint ≡ ok definition
    → q.run_id ≢ ""
    → pos 1 ≤ℤ q.max_steps
    → svc.definitions.definition_version ≢ ""
    → IsWellFormed (initial_checkpoint svc q definition)
initial_checkpoint-IsWellFormed svc q definition h named room versioned = record {
  header = record { named = named; room = room; revised = omega arith; versioned = versioned };
  steps_fit = tt;
  counted = refl;
  within = omega (arith, room);
  phase_fits = early_fits definition.2 (first_phase q.entrypoint h);
}

pub initial_checkpoint-IsStorable :
    {V : Type 0} (svc : Service V) (q : RunRequest) (definition : String × Option String × Phase)
    → IsStorable (initial_checkpoint svc q definition)
initial_checkpoint-IsStorable svc q definition = record {
  version = refl;
  actions = tt;
  pending = tt;
}
