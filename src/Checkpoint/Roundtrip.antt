-- ===== src/Checkpoint/Roundtrip.antt =====
-- Encoding a checkpoint and decoding it again, and what a decoded checkpoint satisfies: both
-- directions of the codec of pkg/agents/state.py.
use mathlib.Core.Path.{subst}
use agent_backend.Prelude.{
  ℕ, String, ◌≡◌, ◌≢◌, ◌≤◌, ◌⊎◌, inl, inr, refl, false, Option, none, some, List, [], ◌∷◌, ℤ, pos,
  All, eq_iff, arith, ok, err, type_error, >>-eq-ok, >>=-eq-ok,
}
use agent_backend.Json.{Value, Items, Fields, str, arr, obj, get, int}
use agent_backend.Checkpoint.{
  null, Phase, routing, before_action, before_tool, tool_in_flight, final_ready, CheckpointStep,
  Checkpoint, phase_value, steps_payload, step_payload, to_payload, opt_str, opt_obj,
}
use agent_backend.Checkpoint.Readers.{as_optional_str}
use agent_backend.Checkpoint.Validate.{validate_checkpoint, is_empty}
use agent_backend.Checkpoint.WellFormed.{IsWellFormed, validate_checkpoint_iff}
use agent_backend.Checkpoint.Encode.{
  Dumped, bytes, not_serializable, not_encodable, encode_checkpoint, check_size,
}
use agent_backend.Checkpoint.Decode.{
  Payload, parsed, Platform, check_step_action, check_pending_action, decode_step, decode_items,
  decode_optional_action, decode_phase, decode_version, decode_raw, load_payload, decode_checkpoint,
  action_of,
}

-- What decoding asks of an action beyond what validation does.
abbrev pub PendingFits : Option Fields → Type 0
PendingFits none = Unit
PendingFits (some action) = check_pending_action action ≡ ok tt

pub record IsStorable (c : Checkpoint) : Type 0 where
  pub version : c.schema_version ≡ pos 1
  pub actions :
      All (λ (s : CheckpointStep). (check_step_action s.action ≡ ok tt) × (s.status ≢ "")) c.steps
  pub pending : PendingFits c.pending_action

-- A JSON array or object.
abbrev unhashable : Items ⊎ Fields → Value
unhashable (inl items) = arr items
unhashable (inr fields) = obj fields

version_back : (v : ℤ) → v ≡ pos 1 → decode_version (int v) ≡ ok v
version_back v h = rw h

size_ok :
    (d : Dumped) (max_bytes : ℕ) (fs : Fields) {payload : Fields}
    → check_size d max_bytes fs ≡ ok payload
    → (n : ℕ) × (d ≡ bytes n) × (n ≤ max_bytes) × (payload ≡ fs)
size_ok (bytes n) max_bytes fs h = (n, refl, ground arith, ground arith)
size_ok not_serializable max_bytes fs h = cc
size_ok not_encodable max_bytes fs h = cc

pub not_is_empty : (s : String) → s ≢ "" → is_empty s ≡ false
not_is_empty s n = ground (arith, n, eq_iff s "")

optional_back : (o : Option String) → as_optional_str (opt_str o) ≡ ok o
optional_back none = refl
optional_back (some s) = refl

phase_back : (f : Phase) → decode_phase (str (phase_value f)) ≡ ok f
phase_back routing = refl
phase_back before_action = refl
phase_back before_tool = refl
phase_back tool_in_flight = refl
phase_back final_ready = refl

pending_back : (o : Option Fields) → PendingFits o → decode_optional_action (opt_obj o) ≡ ok o
pending_back none h = refl
pending_back (some action) h = rw h

decode_step-payload :
    (f : ℤ → Option ℕ) (s : CheckpointStep)
    → check_step_action s.action ≡ ok tt
    → s.status ≢ ""
    → decode_step f (obj (step_payload s)) ≡ ok s
unfolding decode_step
decode_step-payload f s h n = rw (h, optional_back s.error, not_is_empty s.status n)

decode_items-payload :
    (f : ℤ → Option ℕ) (ss : List CheckpointStep)
    → All (λ (s : CheckpointStep). (check_step_action s.action ≡ ok tt) × (s.status ≢ "")) ss
    → decode_items f (steps_payload ss) ≡ ok ss
unfolding decode_items
decode_items-payload f [] h = refl
decode_items-payload f (s ∷ ss) (h, rest) =
    rw (decode_step-payload f s h.0 h.1) (rw (decode_items-payload f ss rest))

decode_raw-payload :
    (f : ℤ → Option ℕ) (c : Checkpoint)
    → IsWellFormed c
    → IsStorable c
    → decode_raw f (to_payload c) ≡ ok c
unfolding decode_raw
decode_raw-payload f c w h = rw (
  version_back c.schema_version h.version,
  decode_items-payload f c.steps h.actions,
  pending_back c.pending_action h.pending,
  phase_back c.phase,
  not_is_empty c.run_id w.header.named,
  not_is_empty c.definition_version w.header.versioned,
  optional_back c.route,
  optional_back c.agent_name,
  optional_back c.final_answer,
)

-- An encoded checkpoint is well formed, its JSON text fits the limit, and its payload is the
-- checkpoint's.
pub encode_ok :
    (dumps : Value → Dumped) (max_bytes : ℕ) (c : Checkpoint) {payload : Fields}
    → encode_checkpoint dumps max_bytes c ≡ ok payload
    → IsWellFormed c
      × (payload ≡ to_payload c)
      × ((n : ℕ) × (dumps (obj (to_payload c)) ≡ bytes n) × (n ≤ max_bytes))
unfolding encode_checkpoint
encode_ok dumps max_bytes c h =
    let (valid, sized) = >>-eq-ok (validate_checkpoint c) _ h in
    let (n, written, small, same) =
      size_ok (dumps (obj (to_payload c))) max_bytes (to_payload c) sized in
    ((validate_checkpoint_iff c).0 valid, same, (n, written, small))

pub decode_parsed :
    (p : Platform) (max_bytes : ℕ) (c : Checkpoint)
    → IsWellFormed c
    → IsStorable c
    → decode_checkpoint p max_bytes (parsed (obj (to_payload c))) ≡ ok c
unfolding decode_checkpoint
decode_parsed p max_bytes c w h =
    rw (decode_raw-payload p.float_of_int c w h, (validate_checkpoint_iff c).1 w)

-- A storable checkpoint that was encoded is decoded to itself, field by field, from the payload
-- that the encoding returned.
pub decode-encode :
    (p : Platform) (dumps : Value → Dumped) (max_bytes : ℕ) (c : Checkpoint) {payload : Fields}
    → IsStorable c
    → encode_checkpoint dumps max_bytes c ≡ ok payload
    → decode_checkpoint p max_bytes (parsed (obj payload)) ≡ ok c
decode-encode p dumps max_bytes c storable h =
    let (w, same, _) = encode_ok dumps max_bytes c h in
    rw same (decode_parsed p max_bytes c w storable)

-- Whatever the payload, a checkpoint that is decoded is well formed.
pub decode-IsWellFormed :
    (p : Platform) (max_bytes : ℕ) (payload : Payload) {c : Checkpoint}
    → decode_checkpoint p max_bytes payload ≡ ok c
    → IsWellFormed c
unfolding decode_checkpoint
decode-IsWellFormed p max_bytes payload {c} h =
    let (value, _, h₁) = >>=-eq-ok (load_payload p max_bytes payload) _ h in
    let (raw, _, h₂) = >>=-eq-ok (action_of value) _ h₁ in
    let (c', _, h₃) = >>=-eq-ok (decode_raw p.float_of_int raw) _ h₂ in
    let (valid, same) = >>-eq-ok (validate_checkpoint c') (ok c') h₃ in
    subst IsWellFormed (cc same) ((validate_checkpoint_iff c').0 valid)

unhashable-action_type :
    (action : Fields) (k : Items ⊎ Fields)
    → get action "type" ≡ unhashable k
    → decode_optional_action (obj action) ≡ err type_error
unfolding check_pending_action
unhashable-action_type action (inl items) h = rw h
unhashable-action_type action (inr fields) h = rw h

-- A payload of the supported version, with no steps and a pending action whose type is a list or
-- a dictionary, makes decoding raise Python's `TypeError`, which is no `CheckpointError`,
-- whatever else the payload and the action hold.
pub decode_unhashable :
    (p : Platform) (max_bytes : ℕ) (raw action : Fields) (k : Items ⊎ Fields)
    → get raw "schema_version" ≡ int (pos 1)
    → get raw "steps" ≡ null
    → get raw "pending_action" ≡ obj action
    → get action "type" ≡ unhashable k
    → decode_checkpoint p max_bytes (parsed (obj raw)) ≡ err type_error
unfolding decode_checkpoint decode_raw
decode_unhashable p max_bytes raw action k version steps pending h =
    rw (version, steps, pending, unhashable-action_type action k h)
