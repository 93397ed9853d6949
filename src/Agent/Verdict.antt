-- ===== src/Agent/Verdict.antt =====
-- What an assessment by `ReActAgent.assess_resume` of pkg/agents/react.py depends on.
use agent_backend.Store.Rows.{found}
use agent_backend.Prelude.{
  ok_injective, unknown_tool, String, ◌≡◌, ◌≢◌, ◌↔◌, refl, true, false, Option, none, some, List,
  arith, ok, eq_iff, >>=-eq-ok, >>-eq-ok, not, str_eq, is_none, raise_if,
}
use agent_backend.Json.{Value, Fields, null, bool, int, float, str, arr, obj, opaque, get}
use agent_backend.Checkpoint.{
  Phase, routing, before_action, before_tool, tool_in_flight, final_ready, Checkpoint, ReplayPolicy,
  replay_safe, idempotent, non_replayable,
}
use agent_backend.Agent.{StructuredTool, AgentResumeAssessment, resume, require_recovery, find_tool}
use agent_backend.Agent.Resume.{
  check_tools, pending_name, pending_tool, assess_in_flight, assess_phase, assess_resume,
}

-- The pending action names the registered tool `t`.
pub record PendingFound (tools : List StructuredTool) (pending : Option Fields) (t : StructuredTool)
    : Type 0 where
  pub action : Fields
  pub name : String
  pub is_pending : pending ≡ some action
  pub names : get action "tool" ≡ str name
  pub named : name ≢ ""
  pub registered : find_tool tools name ≡ some t

name_sound : (v : Value) {name : String} → pending_name v ≡ ok name → (v ≡ str name) × (name ≢ "")
name_sound (str s) h = ground (arith, eq_iff s "")
name_sound null h = cc
name_sound (bool _) h = cc
name_sound (int _) h = cc
name_sound (float _) h = cc
name_sound (arr _) h = cc
name_sound (obj _) h = cc
name_sound (opaque _) h = cc

found_sound :
    (o : Option StructuredTool) {t : StructuredTool} → found o unknown_tool ≡ ok t → o ≡ some t
found_sound none h = cc
found_sound (some t) h = ground arith

pub pending_tool_sound :
    (tools : List StructuredTool) (pending : Option Fields) {t : StructuredTool}
    → pending_tool tools pending ≡ ok t
    → PendingFound tools pending t
pending_tool_sound tools none h = cc
pending_tool_sound tools (some fs) h =
    let (name, e, f) = >>=-eq-ok (pending_name (get fs "tool")) _ h in
    let (v, n) = name_sound (get fs "tool") e in
    record {
      action = fs;
      name = name;
      is_pending = refl;
      names = v;
      named = n;
      registered = found_sound (find_tool tools name) f;
    }

name_complete : (name : String) → name ≢ "" → pending_name (str name) ≡ ok name
name_complete name n = ground (arith, eq_iff name "")

pub pending_tool_complete :
    (tools : List StructuredTool) (pending : Option Fields) {t : StructuredTool}
    → PendingFound tools pending t
    → pending_tool tools pending ≡ ok t
pending_tool_complete tools pending f =
    rw f.is_pending (rw f.names (rw (name_complete f.name f.named) (rw f.registered)))

-- What an assessment says of the phase and the pending action: a replay and a recovery both come
-- only of a tool that was in flight, and the tool's policy decides between them.
pub record Verdict (tools : List StructuredTool) (p : Phase) (pending : Option Fields)
    (a : AgentResumeAssessment) : Type 0 where
  pub same_phase : a.phase ≡ p
  pub recovers : (a.decision ≡ require_recovery) ↔ (
      (p ≡ tool_in_flight)
      × ((t : StructuredTool) × PendingFound tools pending t × (t.replay_policy ≡ non_replayable)))
  pub replays : (a.replayed ≡ true) ↔ (
      (p ≡ tool_in_flight)
      × ((t : StructuredTool) × PendingFound tools pending t × (t.replay_policy ≢ non_replayable)))

in_flight_recovers :
    (p : ReplayPolicy) (t : StructuredTool)
    → ((assess_in_flight p t).decision ≡ require_recovery) ↔ (p ≡ non_replayable)
in_flight_recovers replay_safe t = (λ h. cc h, λ h. cc h)
in_flight_recovers idempotent t = (λ h. cc h, λ h. cc h)
in_flight_recovers non_replayable t = (λ _. refl, λ _. refl)

in_flight_replays :
    (p : ReplayPolicy) (t : StructuredTool)
    → ((assess_in_flight p t).replayed ≡ true) ↔ (p ≢ non_replayable)
in_flight_replays replay_safe t = (λ _ h. cc h, λ _. refl)
in_flight_replays idempotent t = (λ _ h. cc h, λ _. refl)
in_flight_replays non_replayable t = (λ h _. cc h, λ h. absurd (h refl))

in_flight_phase :
    (p : ReplayPolicy) (t : StructuredTool) → (assess_in_flight p t).phase ≡ tool_in_flight
in_flight_phase replay_safe t = refl
in_flight_phase idempotent t = refl
in_flight_phase non_replayable t = refl

pub same_tool :
    (tools : List StructuredTool) (pending : Option Fields) {t u : StructuredTool}
    → PendingFound tools pending t
    → PendingFound tools pending u
    → t ≡ u
same_tool tools pending f g =
    cc (pending_tool_complete tools pending f, pending_tool_complete tools pending g)

in_flight-Verdict :
    (tools : List StructuredTool) (pending : Option Fields) (t : StructuredTool)
    → PendingFound tools pending t
    → Verdict tools tool_in_flight pending (assess_in_flight t.replay_policy t)
in_flight-Verdict tools pending t f = record {
  same_phase = in_flight_phase t.replay_policy t;
  recovers = (
    λ h. (refl, (t, f, (in_flight_recovers t.replay_policy t).0 h)),
    λ (_, known).
        let (u, g, e) = known in
        (in_flight_recovers t.replay_policy t).1 (rw (same_tool tools pending f g) e),
  );
  replays = (
    λ h. (refl, (t, f, (in_flight_replays t.replay_policy t).0 h)),
    λ (_, known).
        let (u, g, e) = known in
        (in_flight_replays t.replay_policy t).1 (rw (same_tool tools pending f g) e),
  );
}

quiet-Verdict :
    (tools : List StructuredTool) (p : Phase) (pending : Option Fields) (a : AgentResumeAssessment)
    → p ≢ tool_in_flight
    → a.phase ≡ p
    → a.decision ≡ resume
    → a.replayed ≡ false
    → Verdict tools p pending a
quiet-Verdict tools p pending a n e d r = record {
  same_phase = e;
  recovers = (λ h. cc (d, h), λ (x, _). absurd (n x));
  replays = (λ h. cc (r, h), λ (x, _). absurd (n x));
}

assess_phase-Verdict :
    (tools : List StructuredTool) (p : Phase) (pending : Option Fields)
    (final_answer : Option String) {a : AgentResumeAssessment}
    → assess_phase tools p pending final_answer ≡ ok a
    → Verdict tools p pending a
assess_phase-Verdict tools routing pending final_answer h =
    rw (← ok_injective h) (quiet-Verdict tools routing pending _ (λ e. cc e) refl refl refl)
assess_phase-Verdict tools before_action pending final_answer h =
    rw (← ok_injective h) (quiet-Verdict tools before_action pending _ (λ e. cc e) refl refl refl)
assess_phase-Verdict tools final_ready pending final_answer h =
    let (_, e) = >>-eq-ok (raise_if (is_none final_answer) _) _ h in
    rw (← ok_injective e) (quiet-Verdict tools final_ready pending _ (λ e. cc e) refl refl refl)
assess_phase-Verdict tools before_tool pending final_answer h =
    let (t, _, e) = >>=-eq-ok (pending_tool tools pending) _ h in
    rw (← ok_injective e) (quiet-Verdict tools before_tool pending _ (λ e. cc e) refl refl refl)
assess_phase-Verdict tools tool_in_flight pending final_answer h =
    let (t, found, e) = >>=-eq-ok (pending_tool tools pending) _ h in
    rw (← ok_injective e)
      (in_flight-Verdict tools pending t (pending_tool_sound tools pending found))

-- An assessment that is made has the checkpoint's phase; it asks for recovery exactly when a
-- registered tool that may not be replayed was in flight, and announces a replay exactly when one
-- that may be replayed was.
pub assess_resume-Verdict :
    (definition_version : String) (tools : List StructuredTool) (c : Checkpoint)
    {a : AgentResumeAssessment}
    → assess_resume definition_version tools c ≡ ok a
    → Verdict tools c.phase c.pending_action a
unfolding assess_resume
assess_resume-Verdict definition_version tools c h =
    let (_, rest) =
      >>-eq-ok (raise_if (not (str_eq c.definition_version definition_version)) _) _ h in
    let (_, e) = >>-eq-ok (check_tools tools c.steps) _ rest in
    assess_phase-Verdict tools c.phase c.pending_action c.final_answer e
