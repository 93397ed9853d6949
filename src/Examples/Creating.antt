-- ===== src/Examples/Creating.antt =====
-- The theorems on the creation of runs at empty tables and a sample request.
use mathlib.Core.Bool.{false≢true}
use agent_backend.Checkpoint.Validate.{
  validate_counts, validate_steps, validate_header, validate_checkpoint,
}
use agent_backend.Checkpoint.Encode.{encode_checkpoint}
use agent_backend.Store.Rows.{encode}
use agent_backend.Examples.Agents.{unary_int}
use agent_backend.Prelude.{eq_iff, ◌≢◌, ◌≡◌, refl, false, none, some, [], pos, ok, inr}
use agent_backend.Json.{end}
use agent_backend.Checkpoint.{Checkpoint, to_payload, routing}
use agent_backend.Store.{Store, running}
use agent_backend.Store.Claim.{claim_managed_run}
use agent_backend.Creation.{created_rows, Tables, CreateRequest, RunStart, create_managed_run}
use agent_backend.Execution.Opened.{AsAsked, create_run-claim}
use agent_backend.Store.Starting.{Started}
use agent_backend.Creation.Once.{create_again}
use agent_backend.Creation.Handover.{rows_of_run}
use agent_backend.Creation.Invariant.{TablesFit, create-TablesFit}
use agent_backend.Execution.CreateRun.{
  RunRequest, create_run, create_request, entrypoint_definition,
}
use agent_backend.Examples.{backend, started, park, claim_of}
use agent_backend.Examples.Executing.{service}

abbrev empty : Tables
empty = record { sessions = []; messages = []; runs = []; checkpoints = [] }

abbrev asked : CreateRequest
asked = record {
  user_id = "u1";
  run_id = "r1";
  session_id = "s1";
  user_message_id = "m1";
  entrypoint = "chat";
  agent_name = "agent_chat";
  question = "what time is it?";
  max_steps = pos 5;
  request_key = "k1";
  request_digest = "d1";
  execution_version = "v1";
  checkpoint = started;
  requested_session_id = none;
  route = none;
}

-- The same request, sent again: its identifiers are new.
abbrev asked_again : CreateRequest
asked_again = record asked {
  run_id = "r2";
  session_id = "s2";
  user_message_id = "m2";
  checkpoint = record started { run_id = "r2" };
}

abbrev begun : RunStart
begun = record { session_id = "s1"; run_id = "r1"; user_message_id = "m1" }

abbrev filled : Tables
filled = created_rows 50 asked (to_payload started) none empty

created_ok : create_managed_run backend 50 asked empty empty ≡ ok (begun, filled)
unfolding create_managed_run encode encode_checkpoint validate_checkpoint validate_header
    validate_steps validate_counts
created_ok = refl

again_encoded : encode backend asked_again.checkpoint ≡ ok (to_payload asked_again.checkpoint)
unfolding encode encode_checkpoint validate_checkpoint validate_header validate_steps
    validate_counts
again_encoded = refl

-- The second request saw the empty tables too.
create_again_example :
    create_managed_run backend 51 asked_again empty filled
    ≡ ok (record begun { user_message_id = "" }, filled)
create_again_example =
    create_again backend 50 51 asked asked_again empty empty empty begun refl created_ok refl refl
      refl (inr (refl, refl, refl)) again_encoded

create-TablesFit_example : TablesFit filled
create-TablesFit_example =
    create-TablesFit backend 50 asked empty empty created_ok (λ known. known)
      (record { distinct = tt; tallied = tt; keyed = tt; housed = tt })

abbrev ordered : RunRequest
ordered = record {
  user_id = "u1";
  entrypoint = "chat";
  question = "what time is it?";
  session_id = none;
  max_steps = pos 5;
  request_key = "k1";
  run_id = "r1";
  fresh_session_id = "s1";
  user_message_id = "m1";
  session_context = end;
}

chat_known : entrypoint_definition ordered.entrypoint ≡ ok ("agent_chat", none, routing)
unfolding entrypoint_definition
chat_known = refl

version_not_empty : service.definitions.definition_version ≢ ""
version_not_empty h = false≢true ((eq_iff "v1" "").1 h)

abbrev first_request : CreateRequest
first_request =
    create_request service (λ text. "digest") unary_int ordered ("agent_chat", none, routing)

abbrev opened : Tables
opened = created_rows 50 first_request (to_payload first_request.checkpoint) none empty

opened_ok :
    create_run service (λ text. "digest") unary_int backend 50 ordered empty empty
    ≡ ok (begun, opened)
unfolding create_run entrypoint_definition create_managed_run encode encode_checkpoint
    validate_checkpoint validate_header validate_steps validate_counts
opened_ok = refl

create_run-claim_example :
    (c : Checkpoint) × (taken : Store) × AsAsked service ordered c
    × (claim_managed_run backend 100 park (claim_of "k1" "t1") (rows_of_run "u1" "s1" "r1" opened)
        ≡ ok (
          record {
            status = running;
            attempt_no = 1;
            checkpoint = some c;
            lease_token = some "t1";
            replayed = false;
          },
          taken,
        ))
    × Started 100 (claim_of "k1" "t1") (rows_of_run "u1" "s1" "r1" opened) taken 1
create_run-claim_example =
    create_run-claim service (λ text. "digest") unary_int backend 50 100 park ordered
      (claim_of "k1" "t1") empty empty refl refl opened_ok refl
