-- ===== src/Examples.antt =====
-- Sample rows and checkpoints at which the theorems are applied and the definitions run: one run,
-- claimed at 100 under the token "t1", with a lease of 60.
mod Codec
mod Fencing
mod Lifecycle
mod Agents
mod Driving
mod Executing
mod Creating
mod Routing
mod Retrieving
mod Assembling
mod Guarding
use agent_backend.Prelude.{
  ℕ, String, true, false, Option, none, some, List, [], ◌∷◌, pos, Result, ok, err,
}
use agent_backend.Json.{Fields, Value, null, str, obj, end, field}
use agent_backend.Checkpoint.{
  Phase, routing, before_action, tool_in_flight, final_ready, CheckpointStep, Checkpoint,
  to_payload,
}
use agent_backend.Checkpoint.Encode.{bytes}
use agent_backend.Checkpoint.Decode.{Platform}
use agent_backend.Store.{
  Store, Run, RunStatus, RunState, StepRow, ready, running, interrupted, recovery_required,
  completed,
}
use agent_backend.Store.Rows.{Backend}
use agent_backend.Store.Claim.{Resolver, ClaimRequest}
use agent_backend.Store.Commit.{CommitRequest}

-- No text is parsed here: the rows hold parsed payloads.
abbrev pub platform : Platform
platform = record { loads_text = λ _. none; loads_bytes = λ _. none; float_of_int = λ _. some 0 }

abbrev pub backend : Backend
backend = record { platform = platform; dumps = λ _. bytes 10; max_bytes = 100 }

abbrev pub tool_action : Fields
tool_action =
    field "type" (str "tool_call") (field "tool" (str "clock") (field "args" (obj end) end))

abbrev tool_step : CheckpointStep
tool_step = record {
  index = pos 0;
  status = "succeeded";
  action = tool_action;
  action_result = str "12:00";
  error = none;
  elapsed_ms = 0;
}

abbrev pub started : Checkpoint
started = record {
  run_id = "r1";
  phase = routing;
  max_steps = pos 5;
  user_input = "what time is it?";
  definition_version = "v1";
  next_step_index = pos 0;
  session_context = end;
  route = none;
  agent_name = some "clock_agent";
  model_config = end;
  steps = [];
  pending_action = none;
  final_answer = none;
  revision = pos 0;
  schema_version = pos 1;
}

-- In flight with a tool after a first step.
abbrev pub in_flight : Checkpoint
in_flight = record started {
  phase = tool_in_flight;
  next_step_index = pos 1;
  steps = tool_step ∷ [];
  pending_action = some tool_action;
  revision = pos 1;
}

abbrev pub after_step : Checkpoint
after_step = record started {
  phase = before_action;
  next_step_index = pos 1;
  steps = tool_step ∷ [];
  revision = pos 1;
}

abbrev pub answered : Checkpoint
answered = record after_step { phase = final_ready; final_answer = some "noon" }

abbrev pub ready_run : Run
ready_run = record {
  run_id = "r1";
  session_id = "s1";
  user_id = "u1";
  agent_name = "clock_agent";
  route = none;
  status = ready;
  max_steps = pos 5;
  started_at = 10;
  ended_at = none;
  elapsed = pos 0;
  error_code = none;
  error_message = none;
  execution_version = some "v1";
  checkpoint_revision = some (pos 0);
  lease_token = none;
  lease_expires_at = none;
  interrupt_requested_at = none;
  interrupted_at = none;
  interrupt_reason = none;
  create_request_key = none;
  create_request_digest = none;
}

abbrev pub created : Store
created = record {
  run = some ready_run;
  checkpoint = some (record {
    run_id = "r1";
    schema_version = pos 1;
    revision = pos 0;
    phase = routing;
    next_step_index = pos 0;
    payload = to_payload started;
  });
  attempts = [];
  steps = [];
  assistant = none;
  message_count = 4;
  last_message_at = none;
}

abbrev no_rows : Store
no_rows = record created { run = none; checkpoint = none }

-- The rows after a transaction that went through.
abbrev pub rows_of {ℓ} : {A : Type ℓ} → Result (A × Store) → Store
rows_of (ok (_, s)) = s
rows_of (err _) = no_rows

-- A stale run is parked.
abbrev pub park : Resolver
park _ = (interrupted, none)

abbrev pub claim_of : String → String → ClaimRequest
claim_of key token = record {
  user_id = "u1";
  request_key = key;
  request_digest = "d";
  token = token;
  lease = 60;
}

abbrev pub step_row : StepRow
step_row = record {
  step_index = pos 0;
  status = "succeeded";
  action_type = "tool_call";
  tool = some "clock";
  args = end;
  action_result = str "12:00";
  error = none;
  elapsed_ms = 0;
}

abbrev pub commit_of : String → Checkpoint → Option RunStatus → Option String → CommitRequest
commit_of token checkpoint terminal answer = record {
  user_id = "u1";
  token = token;
  expected_revision = pos 0;
  committed = checkpoint;
  pause = after_step;
  pause_when_interrupted = true;
  terminal = terminal;
  steps = step_row ∷ [];
  answer = answer;
}
