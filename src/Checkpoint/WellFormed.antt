-- ===== src/Checkpoint/WellFormed.antt =====
-- What `_validate_checkpoint` of pkg/agents/state.py accepts, as a description that does not
-- follow its tests.
use agent_backend.Prelude.{
  ℕ, suc, String, ◌≡◌, ◌≢◌, ◌⊎◌, ◌↔◌, inl, inr, refl, true, false, Option, none, some, List, [],
  ◌∷◌, pos, ◌≤ℤ◌, length, eq_iff, arith, ok, >>-eq-ok, sym, ap,
}
use mathlib.Core.Bool.{false≢true}
use agent_backend.Json.{
  Value, Fields, null, bool, int, float, str, arr, obj, opaque, get, is_non_empty_str,
}
use agent_backend.Checkpoint.{
  Phase, routing, before_action, before_tool, tool_in_flight, final_ready, CheckpointStep,
  Checkpoint, action_type, tool,
}
use agent_backend.Checkpoint.Validate.{
  validate_header, validate_step, validate_steps, validate_counts, validate_tool_phase,
  validate_phase, validate_checkpoint, lacks_tool, is_tool_call,
}

pub record HeaderFits (c : Checkpoint) : Type 0 where
  pub named : c.run_id ≢ ""
  pub room : pos 1 ≤ℤ c.max_steps
  pub revised : pos 0 ≤ℤ c.revision
  pub versioned : c.definition_version ≢ ""

-- A tool call with a name, or a final answer.
abbrev pub IsStepAction : CheckpointStep → Type 0
IsStepAction s =
    ((action_type s ≡ "tool_call") × ((t : String) × (tool s ≡ some t) × (t ≢ "")))
    ⊎ (action_type s ≡ "final")

-- The indices count up from `position`.
abbrev pub StepsFit : ℕ → List CheckpointStep → Type 0
StepsFit position [] = Unit
StepsFit position (s ∷ ss) = (s.index ≡ pos position) × IsStepAction s × StepsFit (suc position) ss

abbrev IsPendingTool : Fields → Type 0
IsPendingTool fs =
    (get fs "type" ≡ str "tool_call") × ((t : String) × (get fs "tool" ≡ str t) × (t ≢ ""))

-- What may be pending in each phase.
abbrev pub PhaseFits : Phase → Option Fields → Option String → Type 0
PhaseFits final_ready pending final_answer =
    ((a : String) × (final_answer ≡ some a)) × (pending ≡ none)
PhaseFits before_tool pending final_answer =
    ((fs : Fields) × (pending ≡ some fs) × IsPendingTool fs) × (final_answer ≡ none)
PhaseFits tool_in_flight pending final_answer =
    ((fs : Fields) × (pending ≡ some fs) × IsPendingTool fs) × (final_answer ≡ none)
PhaseFits _ pending final_answer = (pending ≡ none) × (final_answer ≡ none)

pub record IsWellFormed (c : Checkpoint) : Type 0 where
  pub header : HeaderFits c
  pub steps_fit : StepsFit 0 c.steps
  pub counted : c.next_step_index ≡ pos (length c.steps)
  pub within : c.next_step_index ≤ℤ c.max_steps
  pub phase_fits : PhaseFits c.phase c.pending_action c.final_answer

header_sound : (c : Checkpoint) → validate_header c ≡ ok tt → HeaderFits c
unfolding validate_header
header_sound c h = ground (arith, eq_iff c.run_id "", eq_iff c.definition_version "")

header_complete : (c : Checkpoint) → HeaderFits c → validate_header c ≡ ok tt
unfolding validate_header
header_complete c h = ground (
  arith,
  h.named,
  h.room,
  h.revised,
  h.versioned,
  eq_iff c.run_id "",
  eq_iff c.definition_version "",
)

named_tool : (o : Option String) → lacks_tool o ≡ false → (t : String) × (o ≡ some t) × (t ≢ "")
named_tool none h = absurd (false≢true (sym h))
named_tool (some t) h = (t, refl, ground (arith, eq_iff t ""))

tool_named : (o : Option String) → ((t : String) × (o ≡ some t) × (t ≢ "")) → lacks_tool o ≡ false
tool_named o (t, e, n) = rw e (ground (arith, n, eq_iff t ""))

non_empty_str : (v : Value) → is_non_empty_str v ≡ true → (t : String) × (v ≡ str t) × (t ≢ "")
non_empty_str (str t) h = (t, refl, ground (arith, eq_iff t ""))
non_empty_str null h = cc
non_empty_str (bool _) h = cc
non_empty_str (int _) h = cc
non_empty_str (float _) h = cc
non_empty_str (arr _) h = cc
non_empty_str (obj _) h = cc
non_empty_str (opaque _) h = cc

str_non_empty : (t : String) → t ≢ "" → is_non_empty_str (str t) ≡ true
str_non_empty t n = ground (arith, n, eq_iff t "")

tool_call_str : (v : Value) → is_tool_call v ≡ true → v ≡ str "tool_call"
tool_call_str (str s) h = ap str ((eq_iff s "tool_call").0 h)
tool_call_str null h = cc
tool_call_str (bool _) h = cc
tool_call_str (int _) h = cc
tool_call_str (float _) h = cc
tool_call_str (arr _) h = cc
tool_call_str (obj _) h = cc
tool_call_str (opaque _) h = cc

step_sound :
    (n : ℕ) (s : CheckpointStep) → validate_step n s ≡ ok tt → (s.index ≡ pos n) × IsStepAction s
unfolding validate_step
step_sound n s h =
    ground (
      arith,
      named_tool (tool s),
      eq_iff (action_type s) "tool_call",
      eq_iff (action_type s) "final",
    )

step_complete :
    (n : ℕ) (s : CheckpointStep) → s.index ≡ pos n → IsStepAction s → validate_step n s ≡ ok tt
unfolding validate_step
step_complete n s i (inl (t, named)) = rw (i, t) (ground (arith, tool_named (tool s) named))
step_complete n s i (inr f) = rw (i, f) (ground arith)

steps_sound : (n : ℕ) (ss : List CheckpointStep) → validate_steps n ss ≡ ok tt → StepsFit n ss
unfolding validate_steps
steps_sound n [] h = tt
steps_sound n (s ∷ ss) h =
    let (first, rest) = >>-eq-ok (validate_step n s) (validate_steps (suc n) ss) h in
    let (i, a) = step_sound n s first in (i, a, steps_sound (suc n) ss rest)

steps_complete : (n : ℕ) (ss : List CheckpointStep) → StepsFit n ss → validate_steps n ss ≡ ok tt
unfolding validate_steps
steps_complete n [] h = refl
steps_complete n (s ∷ ss) (i, a, rest) = rw (step_complete n s i a) (steps_complete (suc n) ss rest)

counts_sound :
    (c : Checkpoint)
    → validate_counts c ≡ ok tt
    → (c.next_step_index ≡ pos (length c.steps)) × (c.next_step_index ≤ℤ c.max_steps)
unfolding validate_counts
counts_sound c h = ground arith

counts_complete :
    (c : Checkpoint)
    → c.next_step_index ≡ pos (length c.steps)
    → c.next_step_index ≤ℤ c.max_steps
    → validate_counts c ≡ ok tt
unfolding validate_counts
counts_complete c h k = ground arith

tool_phase_sound :
    (p : Option Fields) (a : Option String)
    → validate_tool_phase p a ≡ ok tt
    → ((fs : Fields) × (p ≡ some fs) × IsPendingTool fs) × (a ≡ none)
tool_phase_sound none a h = cc
tool_phase_sound (some fs) none h = (
  (
    fs,
    refl,
    (tool_call_str (get fs "type") (ground arith), non_empty_str (get fs "tool") (ground arith)),
  ),
  refl,
)
tool_phase_sound (some fs) (some a) h = ground arith

tool_phase_complete : (fs : Fields) → IsPendingTool fs → validate_tool_phase (some fs) none ≡ ok tt
tool_phase_complete fs (k, (t, e, n)) = rw (k, e) (ground (arith, n, eq_iff t ""))

phase_sound :
    (f : Phase) (p : Option Fields) (a : Option String)
    → validate_phase f p a ≡ ok tt
    → PhaseFits f p a
phase_sound final_ready p a h = ground arith
phase_sound before_tool p a h = tool_phase_sound p a h
phase_sound tool_in_flight p a h = tool_phase_sound p a h
phase_sound routing p a h = ground arith
phase_sound before_action p a h = ground arith

phase_complete :
    (f : Phase) (p : Option Fields) (a : Option String)
    → PhaseFits f p a
    → validate_phase f p a ≡ ok tt
phase_complete final_ready p a ((t, e), n) = rw (e, n)
phase_complete before_tool p a ((fs, e, w), n) = rw (e, n) (tool_phase_complete fs w)
phase_complete tool_in_flight p a ((fs, e, w), n) = rw (e, n) (tool_phase_complete fs w)
phase_complete routing p a (e, n) = rw (e, n)
phase_complete before_action p a (e, n) = rw (e, n)

-- A checkpoint passes `_validate_checkpoint` exactly when it is well formed: named, with at least
-- one step allowed and a revision of at least 0, its steps indexed from 0 without a gap and each
-- a named tool call or a final answer, as many as `next_step_index` says and no more than
-- `max_steps`, and with a pending action and a final answer only where its phase has them.
pub validate_checkpoint_iff : (c : Checkpoint) → (validate_checkpoint c ≡ ok tt) ↔ IsWellFormed c
unfolding validate_checkpoint
validate_checkpoint_iff c = (
  λ h.
      let (a, rest) = >>-eq-ok (validate_header c) _ h in
      let (b, rest') = >>-eq-ok (validate_steps 0 c.steps) _ rest in
      let (d, e) = >>-eq-ok (validate_counts c) _ rest' in
      record {
        header = header_sound c a;
        steps_fit = steps_sound 0 c.steps b;
        counted = (counts_sound c d).0;
        within = (counts_sound c d).1;
        phase_fits = phase_sound c.phase c.pending_action c.final_answer e;
      },
  λ w. rw (header_complete c w.header) (
      rw (steps_complete 0 c.steps w.steps_fit) (
        rw (counts_complete c w.counted w.within)
          (phase_complete c.phase c.pending_action c.final_answer w.phase_fits))),
)
