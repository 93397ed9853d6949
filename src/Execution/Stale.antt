-- ===== src/Execution/Stale.antt =====
-- When internal/services/agents/execution.py lets a stale run go on, and that it agrees with
-- `ReActAgent.assess_resume` of pkg/agents/react.py.
use agent_backend.Agent.Admission.{assess_resume_iff, PendingKnown}
use agent_backend.Checkpoint.Roundtrip.{not_is_empty}
use agent_backend.Checkpoint.WellFormed.{IsWellFormed}
use agent_backend.Prelude.{
  String, ◌≡◌, ◌↔◌, refl, true, false, not, Option, none, some, List, arith, ok, Bool-cases, inl,
  inr, >>-eq-ok, raise_if,
}
use agent_backend.Json.{Value, Fields, get}
use agent_backend.Checkpoint.{
  Checkpoint, Phase, routing, before_action, before_tool, tool_in_flight, final_ready, ReplayPolicy,
  replay_safe, idempotent, non_replayable,
}
use agent_backend.Agent.{StructuredTool, AgentResumeAssessment, require_recovery, find_tool}
use agent_backend.Agent.Resume.{or_empty, assess_resume}
use agent_backend.Agent.Verdict.{same_tool, Verdict, PendingFound, assess_resume-Verdict}
use agent_backend.Store.{RunState, is_active, recovery_required}
use agent_backend.Execution.Definitions.{
  Definitions, supports, resolve_tools, tool_replay_policy, resolve_stale_status, judge,
  judge_phase, judge_tool, judge_policy, is_supported_agent,
}

judge_policy_quiet : (p : ReplayPolicy) (name : String) → is_active (judge_policy p name).0 ≡ false
judge_policy_quiet replay_safe name = refl
judge_policy_quiet idempotent name = refl
judge_policy_quiet non_replayable name = refl

judge_tool_quiet :
    (d : Definitions) (agent_name : String) (v : Value)
    → is_active (judge_tool d agent_name v).0 ≡ false
judge_tool_quiet d agent_name v =
    ground
      (arith, λ (name : String). judge_policy_quiet (tool_replay_policy d agent_name name) name)

judge_phase_quiet :
    (d : Definitions) (agent_name : String) (p : Phase) (pending : Option Fields)
    → is_active (judge_phase d agent_name p pending).0 ≡ false
judge_phase_quiet d agent_name routing pending = refl
judge_phase_quiet d agent_name before_action pending = refl
judge_phase_quiet d agent_name before_tool pending = refl
judge_phase_quiet d agent_name final_ready pending = refl
judge_phase_quiet d agent_name tool_in_flight pending =
    judge_tool_quiet d agent_name (get (or_empty pending) "tool")

judge_quiet :
    (d : Definitions) (agent_name : String) (c : Option Checkpoint)
    → is_active (judge d agent_name c).0 ≡ false
judge_quiet d agent_name none = refl
judge_quiet d agent_name (some c) = elim (Bool-cases (supports d c.definition_version)) [
  | inl e ↦ rw e (judge_phase_quiet d agent_name c.phase c.pending_action)
  | inr e ↦ rw e refl
]

-- A stale run never gets an active status back.
pub resolve_stale_status_quiet :
    (d : Definitions) (state : RunState) → is_active (resolve_stale_status d state).0 ≡ false
unfolding resolve_stale_status
resolve_stale_status_quiet d state = judge_quiet d state.run.agent_name state.checkpoint

supported :
    (d : Definitions) (agent_name version : String) {tools : List StructuredTool}
    → resolve_tools d agent_name version ≡ ok tools
    → is_supported_agent agent_name ≡ true
unfolding resolve_tools
supported d agent_name version h = ground arith

policy_found :
    (d : Definitions) (agent_name tool_name : String) {tools : List StructuredTool}
    {t : StructuredTool}
    → resolve_tools d agent_name d.definition_version ≡ ok tools
    → find_tool tools tool_name ≡ some t
    → tool_replay_policy d agent_name tool_name ≡ t.replay_policy
unfolding tool_replay_policy
policy_found d agent_name tool_name h f =
    rw (supported d agent_name d.definition_version h) (rw h (rw f))

judged_recovery :
    (p : ReplayPolicy) (name : String)
    → ((judge_policy p name).0 ≡ recovery_required) ↔ (p ≡ non_replayable)
judged_recovery replay_safe name = (λ h. cc h, λ h. cc h)
judged_recovery idempotent name = (λ h. cc h, λ h. cc h)
judged_recovery non_replayable name = (λ _. refl, λ _. refl)

judge_found :
    (d : Definitions) (agent_name : String) (pending : Option Fields) {tools : List StructuredTool}
    {t : StructuredTool}
    → resolve_tools d agent_name d.definition_version ≡ ok tools
    → (f : PendingFound tools pending t)
    → judge_phase d agent_name tool_in_flight pending ≡ judge_policy t.replay_policy f.name
judge_found d agent_name pending h f = rw f.is_pending (
    rw f.names
      (rw (not_is_empty f.name f.named) (rw (policy_found d agent_name f.name h f.registered))))

phase_agrees :
    (d : Definitions) (agent_name : String) (p : Phase) (pending : Option Fields)
    {tools : List StructuredTool} {a : AgentResumeAssessment}
    → resolve_tools d agent_name d.definition_version ≡ ok tools
    → Verdict tools p pending a
    → PendingKnown tools p pending
    → ((judge_phase d agent_name p pending).0 ≡ recovery_required) ↔ (a.decision ≡ require_recovery)
phase_agrees d agent_name routing pending h v k = (λ e. cc e, λ e. cc (v.recovers.0 e).0)
phase_agrees d agent_name before_action pending h v k = (λ e. cc e, λ e. cc (v.recovers.0 e).0)
phase_agrees d agent_name before_tool pending h v k = (λ e. cc e, λ e. cc (v.recovers.0 e).0)
phase_agrees d agent_name final_ready pending h v k = (λ e. cc e, λ e. cc (v.recovers.0 e).0)
phase_agrees d agent_name tool_in_flight pending {tools} h v (t, f) = (
  λ e. v.recovers.1 (
    refl,
    (
      t,
      f,
      (judged_recovery t.replay_policy f.name).0 (rw (← judge_found d agent_name pending h f) e),
    ),
  ),
  λ e.
      let known = (v.recovers.0 e).1 in
      let (u, g, n) = known in
      rw (judge_found d agent_name pending h f)
        ((judged_recovery t.replay_policy f.name).1 (rw (same_tool tools pending f g) n)),
)

version_supported :
    (d : Definitions) (tools : List StructuredTool) (c : Checkpoint) {a : AgentResumeAssessment}
    → assess_resume d.definition_version tools c ≡ ok a
    → supports d c.definition_version ≡ true
unfolding assess_resume
version_supported d tools c h =
    let (v, _) = >>-eq-ok (raise_if (not (supports d c.definition_version)) _) _ h in
    ground (arith, v)

-- The judgement of a stale run agrees with the agent's own assessment: for a well-formed checkpoint
-- that the agent assesses with the tools of the run's agent, the run needs recovery by the one
-- exactly when it does by the other.
pub stale-assess :
    (d : Definitions) (state : RunState) (c : Checkpoint) (tools : List StructuredTool)
    {a : AgentResumeAssessment}
    → state.checkpoint ≡ some c
    → IsWellFormed c
    → resolve_tools d state.run.agent_name d.definition_version ≡ ok tools
    → assess_resume d.definition_version tools c ≡ ok a
    → ((resolve_stale_status d state).0 ≡ recovery_required) ↔ (a.decision ≡ require_recovery)
unfolding resolve_stale_status
stale-assess d state c tools {a} is w h assessed =
    let known = (assess_resume_iff d.definition_version tools c w).0 (a, assessed) in
    rw is (
      rw (version_supported d tools c assessed) (
        phase_agrees d state.run.agent_name c.phase c.pending_action h
          (assess_resume-Verdict d.definition_version tools c assessed) known.2))
