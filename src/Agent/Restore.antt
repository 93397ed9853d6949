-- ===== src/Agent/Restore.antt =====
-- What pkg/agents/react.py stores of an action, a step and a state, and reads back.
use mathlib.Core.Bool.{false≢true}
use agent_backend.Checkpoint.Roundtrip.{decode-encode, PendingFits}
use agent_backend.Checkpoint.Encode.{encode_checkpoint, Dumped}
use agent_backend.Checkpoint.Validate.{is_empty}
use agent_backend.Json.{obj, is_non_empty_str, str}
use agent_backend.Prelude.{
  ◌<>◌, ◌>>=◌, sym, ◌∙◌, ok_injective, ltb_ℤ, raise_if, true, >>-eq-ok, String, ◌≡◌, ◌≢◌, refl,
  Option, none, some, List, [], ◌∷◌, map, arith, ok, eq_iff, All, ℤ, pos,
}
use agent_backend.Checkpoint.{opt_str, Checkpoint, CheckpointStep}
use agent_backend.Checkpoint.Decode.{
  parsed, decode_checkpoint, validate_tool_call_identity, Platform, check_step_action,
  check_pending_action,
}
use agent_backend.Agent.{
  ℕ, Value, Fields, AgentAction, tool_call, final, AgentStepRecord, AgentStepStatus, step_completed,
  step_failed, step_status_value, running,
}
use agent_backend.Agent.Actions.{
  parse_agent_action, serialize_agent_action, step_record_to_checkpoint_step,
  checkpoint_step_to_record, state_from_checkpoint, records_of, status_of_text, stable_tool_call_id,
  call_id_of, tool_of,
}

-- A tool call names its tool.
abbrev pub IsNamed : AgentAction → Type 0
IsNamed (tool_call name args call_id) = name ≢ ""
IsNamed (final answer) = Unit

call_id_back : (o : Option String) → call_id_of (opt_str o) ≡ ok o
call_id_back none = refl
call_id_back (some id) = refl

tool_back : (name : String) → name ≢ "" → tool_of (str name) ≡ ok name
tool_back name n = ground (arith, eq_iff name "")

-- An action that names its tool, if it calls one, is parsed back from what is stored of it,
-- whatever stable identifier is stored with it.
pub parse-serialize :
    (a : AgentAction) (id : Option String)
    → IsNamed a
    → parse_agent_action (serialize_agent_action a id) ≡ ok a
unfolding parse_agent_action serialize_agent_action
parse-serialize (final answer) id n = refl
parse-serialize (tool_call name args call_id) id n =
    rw (tool_back name n) (rw (call_id_back call_id))

status_back : (s : AgentStepStatus) → status_of_text (step_status_value s) ≡ ok s
status_back step_completed = refl
status_back step_failed = refl

record_back :
    (s : AgentStepRecord) (id : Option String)
    → IsNamed s.action
    → checkpoint_step_to_record (step_record_to_checkpoint_step s id) ≡ ok s
unfolding checkpoint_step_to_record step_record_to_checkpoint_step
record_back s id n = rw (status_back s.status) (rw (parse-serialize s.action id n))

-- The steps of a checkpoint, each stored with the identifier that `ids` gives it.
abbrev pub stored_steps :
    (AgentStepRecord → Option String) → List AgentStepRecord → List CheckpointStep
stored_steps ids = map λ (s : AgentStepRecord). step_record_to_checkpoint_step s (ids s)

records_back :
    (ids : AgentStepRecord → Option String) (steps : List AgentStepRecord)
    → All (λ (s : AgentStepRecord). IsNamed s.action) steps
    → records_of (stored_steps ids steps) ≡ ok steps
records_back ids [] h = refl
records_back ids (s ∷ ss) (n, rest) = rw (record_back s (ids s) n) (rw (records_back ids ss rest))

abbrev IdFits : Option String → Type 0
IdFits none = Unit
IdFits (some id) = id ≢ ""

identity_fits :
    (name : String) (args : Fields) (call_id id : Option String)
    → IdFits id
    → validate_tool_call_identity (serialize_agent_action (tool_call name args call_id) id) ≡ ok tt
unfolding serialize_agent_action
identity_fits name args none none h = refl
identity_fits name args (some c) none h = refl
identity_fits name args none (some id) h = ground (arith, eq_iff id "")
identity_fits name args (some c) (some id) h = ground (arith, eq_iff id "")

non_empty_text : (name : String) → name ≢ "" → is_non_empty_str (str name) ≡ true
non_empty_text name n = ground (arith, eq_iff name "")

-- Before a tool is called its action is stored as one that decoding accepts.
pending_fits :
    (name : String) (args : Fields) (call_id id : Option String)
    → name ≢ ""
    → IdFits id
    → check_pending_action (serialize_agent_action (tool_call name args call_id) id) ≡ ok tt
unfolding check_pending_action serialize_agent_action
pending_fits name args call_id id n h =
    rw (non_empty_text name n) (identity_fits name args call_id id h)

step_fits :
    (a : AgentAction) (id : Option String)
    → IsNamed a
    → IdFits id
    → check_step_action (serialize_agent_action a id) ≡ ok tt
unfolding check_step_action serialize_agent_action
step_fits (final answer) id n h = refl
step_fits (tool_call name args call_id) id n h =
    rw (non_empty_text name n) (identity_fits name args call_id id h)

status_named : (s : AgentStepStatus) → step_status_value s ≢ ""
status_named step_completed h = false≢true ((eq_iff "completed" "").1 h)
status_named step_failed h = false≢true ((eq_iff "failed" "").1 h)

steps_fit :
    (ids : AgentStepRecord → Option String) (steps : List AgentStepRecord)
    → All (λ (s : AgentStepRecord). IsNamed s.action × IdFits (ids s)) steps
    → All
        (λ (s : CheckpointStep). (check_step_action s.action ≡ ok tt) × (s.status ≢ ""))
        (stored_steps ids steps)
unfolding step_record_to_checkpoint_step
steps_fit ids [] h = tt
steps_fit ids (s ∷ ss) (fits, rest) =
    ((step_fits s.action (ids s) fits.0 fits.1, status_named s.status), steps_fit ids ss rest)

steps-IsNamed :
    (ids : AgentStepRecord → Option String) (steps : List AgentStepRecord)
    → All (λ (s : AgentStepRecord). IsNamed s.action × IdFits (ids s)) steps
    → All (λ (s : AgentStepRecord). IsNamed s.action) steps
steps-IsNamed ids [] h = tt
steps-IsNamed ids (s ∷ ss) (fits, rest) = (fits.0, steps-IsNamed ids ss rest)

restored :
    (c : Checkpoint) (ids : AgentStepRecord → Option String) (steps : List AgentStepRecord)
    → c.steps ≡ stored_steps ids steps
    → All (λ (s : AgentStepRecord). IsNamed s.action × IdFits (ids s)) steps
    → state_from_checkpoint c
      ≡ ok (record {
        run_id = c.run_id;
        user_input = c.user_input;
        max_steps = c.max_steps;
        status = running;
        steps = steps;
        final_answer = c.final_answer;
      })
unfolding state_from_checkpoint
restored c ids steps e h = rw e (rw (records_back ids steps (steps-IsNamed ids steps h)))

-- An executor's progress survives: a checkpoint of the supported version, which holds a run's
-- steps as they are stored, each with a named tool and an identifier that is not empty if there is
-- one, and a pending action that decoding accepts, is encoded to a payload from which another
-- executor rebuilds exactly those steps.
pub restore-persist :
    (p : Platform) (dumps : Value → Dumped) (max_bytes : ℕ) (c : Checkpoint)
    (ids : AgentStepRecord → Option String) (steps : List AgentStepRecord) {payload : Fields}
    → c.steps ≡ stored_steps ids steps
    → All (λ (s : AgentStepRecord). IsNamed s.action × IdFits (ids s)) steps
    → c.schema_version ≡ pos 1
    → PendingFits c.pending_action
    → encode_checkpoint dumps max_bytes c ≡ ok payload
    → (decode_checkpoint p max_bytes (parsed (obj payload)) >>= state_from_checkpoint)
      ≡ ok (record {
        run_id = c.run_id;
        user_input = c.user_input;
        max_steps = c.max_steps;
        status = running;
        steps = steps;
        final_answer = c.final_answer;
      })
restore-persist p dumps max_bytes c ids steps e h version pending encoded =
    rw
      (decode-encode p dumps max_bytes c
        (record { version = version; actions = rw e (steps_fit ids steps h); pending = pending })
        encoded)
      (restored c ids steps e h)

-- Text that starts alike and is equal ends alike.
append_cancel : (s t u : String) → s <> t ≡ s <> u → t ≡ u
append_cancel String.[] t u h = h
append_cancel (String.◌∷◌ c s) t u h = append_cancel s t u (cc h)

-- Two steps of one run have the same stable identifier only if they are the same step, if Python's
-- text of an integer determines it.
pub stable_tool_call_id-injective :
    (str_of_int : ℤ → String) (run_id id : String) (i j : ℤ)
    → ((m n : ℤ) → str_of_int m ≡ str_of_int n → m ≡ n)
    → stable_tool_call_id str_of_int run_id i ≡ ok id
    → stable_tool_call_id str_of_int run_id j ≡ ok id
    → i ≡ j
unfolding stable_tool_call_id
stable_tool_call_id-injective str_of_int run_id id i j distinct h k =
    let (_, h₁) = >>-eq-ok (raise_if (is_empty run_id) _) _ h in
    let (_, h₂) = >>-eq-ok (raise_if (ltb_ℤ i (pos 0)) _) _ h₁ in
    let (_, k₁) = >>-eq-ok (raise_if (is_empty run_id) _) _ k in
    let (_, k₂) = >>-eq-ok (raise_if (ltb_ℤ j (pos 0)) _) _ k₁ in
    let same : run_id <> (":" <> str_of_int i) ≡ run_id <> (":" <> str_of_int j) =
      ok_injective h₂ ∙ sym (ok_injective k₂) in
    distinct i j (append_cancel ":" _ _ (append_cancel run_id _ _ same))
