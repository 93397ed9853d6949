-- ===== src/Examples/Agents.antt =====
-- The theorems on stored actions, steps and resumes at a sample agent with one tool.
use agent_backend.Store.Rows.{truncate}
use mathlib.Core.Bool.{false≢true}
use agent_backend.Checkpoint.Validate.{
  validate_counts, validate_step, validate_steps, validate_header, validate_checkpoint,
}
use agent_backend.Agent.Resume.{with_tool, assess_resume}
use agent_backend.Agent.Restore.{restore-persist, stored_steps}
use agent_backend.Checkpoint.{to_payload, tool_in_flight, non_replayable}
use agent_backend.Checkpoint.Encode.{bytes, encode_checkpoint}
use agent_backend.Agent.Verdict.{assess_resume-Verdict, Verdict}
use agent_backend.Agent.Actions.{
  step_record_to_checkpoint_step, state_from_checkpoint, serialize_agent_action,
}
use agent_backend.Checkpoint.Decode.{parsed, decode_checkpoint}
use agent_backend.Prelude.{
  ◌<>◌, ◌∙◌, str_eq, eq_iff, Bool, sym, ◌>>=◌, ◌≢◌, ap, ℕ, zero, suc, String, ◌≡◌, refl, true,
  false, none, some, [], ◌∷◌, ℤ, pos, negsuc, ok,
}
use agent_backend.Examples.{
  in_flight, tool_action, obj, end, before_action, str, Checkpoint, Option, platform, started,
}
use agent_backend.Agent.{
  require_recovery, tool_call, AgentAction, AgentStepRecord, step_completed, running,
  StructuredTool,
}

abbrev pub clock_call : AgentAction
clock_call = tool_call "clock" end (some "call_7")

pub not_empty : (clock_call_name : String) → clock_call_name ≡ "clock" → clock_call_name ≢ ""
not_empty name e h = false≢true ((eq_iff "clock" "").1 (sym e ∙ h))

abbrev pub clock_step : AgentStepRecord
clock_step = record {
  index = pos 0;
  action = clock_call;
  status = step_completed;
  action_result = str "12:00";
  error = none;
  elapsed_ms = 0;
}

abbrev clock_id : AgentStepRecord → Option String
clock_id _ = some "r1:0"

abbrev persisted : Checkpoint
persisted = record started {
  phase = before_action;
  next_step_index = pos 1;
  steps = stored_steps clock_id (clock_step ∷ []);
  revision = pos 1;
}

persisted_encoded : encode_checkpoint (λ _. bytes 10) 100 persisted ≡ ok (to_payload persisted)
unfolding encode_checkpoint validate_checkpoint validate_header validate_steps validate_step
    validate_counts step_record_to_checkpoint_step serialize_agent_action
persisted_encoded = refl

id_not_empty : (id : String) → id ≡ "r1:0" → id ≢ ""
id_not_empty id e h = false≢true ((eq_iff "r1:0" "").1 (sym e ∙ h))

restore-persist_example :
    (decode_checkpoint platform 100 (parsed (obj (to_payload persisted))) >>= state_from_checkpoint)
    ≡ ok (record {
      run_id = "r1";
      user_input = "what time is it?";
      max_steps = pos 5;
      status = running;
      steps = clock_step ∷ [];
      final_answer = none;
    })
restore-persist_example =
    restore-persist platform (λ _. bytes 10) 100 persisted clock_id (clock_step ∷ []) refl
      ((not_empty "clock" refl, id_not_empty "r1:0" refl), tt) refl tt persisted_encoded

-- Numbers in unary, as an example of a text that determines its number.
abbrev unary : ℕ → String
unary zero = ""
unary (suc n) = "1" <> unary n

abbrev pub unary_int : ℤ → String
unary_int (pos n) = "+" <> unary n
unary_int (negsuc n) = "-" <> unary n

unary_injective : (m n : ℕ) → unary m ≡ unary n → m ≡ n
unary_injective zero zero h = refl
unary_injective zero (suc n) h = cc h
unary_injective (suc m) zero h = cc h
unary_injective (suc m) (suc n) h = ap suc (unary_injective m n (cc h))

abbrev has_plus : String → Bool
has_plus s = str_eq (truncate 1 s) "+"

unary_int_injective : (m n : ℤ) → unary_int m ≡ unary_int n → m ≡ n
unary_int_injective (pos m) (pos n) h = ap pos (unary_injective m n (cc h))
unary_int_injective (negsuc m) (negsuc n) h = ap negsuc (unary_injective m n (cc h))
unary_int_injective (pos m) (negsuc n) h = absurd (false≢true (ap has_plus (sym h)))
unary_int_injective (negsuc m) (pos n) h = absurd (false≢true (ap has_plus h))

abbrev pub clock_tool : StructuredTool
clock_tool = record { name = "clock"; is_readonly = true; replay_policy = non_replayable }

pub clock_assessed :
    assess_resume "v1" (clock_tool ∷ []) in_flight
    ≡ ok (with_tool require_recovery tool_in_flight clock_tool false)
unfolding assess_resume
clock_assessed = refl

assess_resume-Verdict_example :
    Verdict
      (clock_tool ∷ [])
      tool_in_flight
      (some tool_action)
      (with_tool require_recovery tool_in_flight clock_tool false)
assess_resume-Verdict_example =
    assess_resume-Verdict "v1" (clock_tool ∷ []) in_flight clock_assessed
