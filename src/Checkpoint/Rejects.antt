-- ===== src/Checkpoint/Rejects.antt =====
-- What an ill-formed checkpoint meets: `_validate_checkpoint` and `encode_checkpoint` of
-- pkg/agents/state.py, and `_encode` of internal/services/agents/conversation.py.
use agent_backend.Prelude.{
  ℕ, suc, String, ◌≡◌, refl, ◌⊎◌, inl, inr, Bool, true, false, Option, none, some, List, [], ◌∷◌,
  Result, ok, err, ◌>>◌, raise_if, checkpoint_validation,
}
use agent_backend.Json.{Value, Fields}
use agent_backend.Checkpoint.{
  Checkpoint, Phase, routing, before_action, before_tool, tool_in_flight, final_ready,
  CheckpointStep,
}
use agent_backend.Checkpoint.Validate.{
  validate_header, validate_step, validate_steps, validate_counts, validate_phase,
  validate_tool_phase, validate_checkpoint,
}
use agent_backend.Checkpoint.Encode.{Dumped, encode_checkpoint}
use agent_backend.Checkpoint.WellFormed.{IsWellFormed, validate_checkpoint_iff}

-- A check that passes, or fails with a `CheckpointValidationError`.
abbrev Checks : Result (Unit {0}) → Type 0
Checks m = (m ≡ ok tt) ⊎ (m ≡ err checkpoint_validation)

raise_if-Checks : (t : Bool) → Checks (raise_if t checkpoint_validation)
raise_if-Checks true = inr refl
raise_if-Checks false = inl refl

>>-Checks : (m k : Result (Unit {0})) → Checks m → Checks k → Checks (m >> k)
>>-Checks m k (inl e) c = rw e c
>>-Checks m k (inr e) c = inr (rw e)

ruleset check_rules = (raise_if-Checks, >>-Checks)

header-Checks : (c : Checkpoint) → Checks (validate_header c)
unfolding validate_header
header-Checks c = search check_rules

step-Checks : (n : ℕ) (s : CheckpointStep) → Checks (validate_step n s)
unfolding validate_step
step-Checks n s = search check_rules

steps-Checks : (n : ℕ) (ss : List CheckpointStep) → Checks (validate_steps n ss)
unfolding validate_steps
steps-Checks n [] = inl refl
steps-Checks n (s ∷ ss) = >>-Checks _ _ (step-Checks n s) (steps-Checks (suc n) ss)

counts-Checks : (c : Checkpoint) → Checks (validate_counts c)
unfolding validate_counts
counts-Checks c = search check_rules

tool_phase-Checks : (p : Option Fields) (a : Option String) → Checks (validate_tool_phase p a)
tool_phase-Checks none a = inr refl
tool_phase-Checks (some fs) a = search check_rules

phase-Checks : (f : Phase) (p : Option Fields) (a : Option String) → Checks (validate_phase f p a)
phase-Checks final_ready p a = search check_rules
phase-Checks before_tool p a = tool_phase-Checks p a
phase-Checks tool_in_flight p a = tool_phase-Checks p a
phase-Checks routing p a = search check_rules
phase-Checks before_action p a = search check_rules

validate-Checks : (c : Checkpoint) → Checks (validate_checkpoint c)
unfolding validate_checkpoint
validate-Checks c = >>-Checks _ _ (header-Checks c) (
    >>-Checks _ _ (steps-Checks 0 c.steps)
      (>>-Checks _ _ (counts-Checks c) (phase-Checks c.phase c.pending_action c.final_answer)))

validate_ill_formed :
    (c : Checkpoint) → ¬ IsWellFormed c → validate_checkpoint c ≡ err checkpoint_validation
validate_ill_formed c bad = elim (validate-Checks c) [
  | inl good ↦ absurd (bad ((validate_checkpoint_iff c).0 good))
  | inr e ↦ e
]

pub encode_ill_formed :
    (dumps : Value → Dumped) (max_bytes : ℕ) (c : Checkpoint)
    → ¬ IsWellFormed c
    → encode_checkpoint dumps max_bytes c ≡ err checkpoint_validation
unfolding encode_checkpoint
encode_ill_formed dumps max_bytes c bad = rw (validate_ill_formed c bad)
