-- ===== src/Agent/Admission.antt =====
-- Which checkpoints `ReActAgent.assess_resume` of pkg/agents/react.py assesses at all.
use agent_backend.Prelude.{
  Option-cases, String, ◌≡◌, ◌↔◌, refl, true, false, Option, none, some, List, [], ◌∷◌, arith, ok,
  eq_iff, All, >>=-eq-ok, >>-eq-ok, not, ◌&&◌, Bool-cases, inl, inr, str_eq, raise_if,
}
use agent_backend.Checkpoint.{
  Phase, routing, before_action, before_tool, tool_in_flight, final_ready, CheckpointStep,
  Checkpoint, action_type, tool,
}
use agent_backend.Checkpoint.WellFormed.{IsWellFormed, PhaseFits}
use agent_backend.Agent.{resume, Fields, StructuredTool, AgentResumeAssessment, find_tool}
use agent_backend.Agent.Resume.{
  with_tool, go_on, is_known, check_tools, pending_tool, assess_phase, assess_resume,
  assess_in_flight,
}
use agent_backend.Agent.Verdict.{PendingFound, pending_tool_sound, pending_tool_complete}

-- Every tool that a step called is registered.
abbrev pub ToolsKnown : List StructuredTool → List CheckpointStep → Type 0
ToolsKnown tools = All λ (s : CheckpointStep).
    action_type s ≡ "tool_call"
    → (name : String) × (t : StructuredTool) × (tool s ≡ some name)
      × (find_tool tools name ≡ some t)

-- Before and in a tool call, the pending action's tool is registered.
abbrev pub PendingKnown : List StructuredTool → Phase → Option Fields → Type 0
PendingKnown tools before_tool pending = (t : StructuredTool) × PendingFound tools pending t
PendingKnown tools tool_in_flight pending = (t : StructuredTool) × PendingFound tools pending t
PendingKnown tools _ pending = Unit

known_sound :
    (tools : List StructuredTool) (o : Option String)
    → is_known tools o ≡ true
    → (name : String) × (t : StructuredTool) × (o ≡ some name) × (find_tool tools name ≡ some t)
known_sound tools none h = cc
known_sound tools (some name) h = elim (Option-cases (find_tool tools name)) [
  | inl e ↦ cc (e, h)
  | inr (t, e) ↦ (name, t, refl, e)
]

known_complete :
    (tools : List StructuredTool) (o : Option String) (name : String) (t : StructuredTool)
    → o ≡ some name
    → find_tool tools name ≡ some t
    → is_known tools o ≡ true
known_complete tools o name t e f = rw e (rw f)

tools_sound :
    (tools : List StructuredTool) (ss : List CheckpointStep)
    → check_tools tools ss ≡ ok tt
    → ToolsKnown tools ss
tools_sound tools [] h = tt
tools_sound tools (s ∷ ss) h =
    let (a, rest) =
      >>-eq-ok (raise_if (str_eq (action_type s) "tool_call" && not (is_known tools (tool s))) _) _
        h in
    (
      λ e. known_sound tools (tool s) (ground (arith, (eq_iff (action_type s) "tool_call").1 e, a)),
      tools_sound tools ss rest,
    )

tools_complete :
    (tools : List StructuredTool) (ss : List CheckpointStep)
    → ToolsKnown tools ss
    → check_tools tools ss ≡ ok tt
tools_complete tools [] h = refl
tools_complete tools (s ∷ ss) (known, rest) =
    elim (Bool-cases (str_eq (action_type s) "tool_call")) [
      | inl e ↦
          let (name, t, is, found) = known ((eq_iff (action_type s) "tool_call").0 e) in
          rw e (rw (known_complete tools (tool s) name t is found) (tools_complete tools ss rest))
      | inr e ↦ rw e (tools_complete tools ss rest)
    ]

phase_known :
    (tools : List StructuredTool) (p : Phase) (pending : Option Fields)
    (final_answer : Option String) {a : AgentResumeAssessment}
    → assess_phase tools p pending final_answer ≡ ok a
    → PendingKnown tools p pending
phase_known tools routing pending final_answer h = tt
phase_known tools before_action pending final_answer h = tt
phase_known tools final_ready pending final_answer h = tt
phase_known tools before_tool pending final_answer h =
    let (t, found, _) = >>=-eq-ok (pending_tool tools pending) _ h in
    (t, pending_tool_sound tools pending found)
phase_known tools tool_in_flight pending final_answer h =
    let (t, found, _) = >>=-eq-ok (pending_tool tools pending) _ h in
    (t, pending_tool_sound tools pending found)

phase_assessed :
    (tools : List StructuredTool) (p : Phase) (pending : Option Fields)
    (final_answer : Option String)
    → PhaseFits p pending final_answer
    → PendingKnown tools p pending
    → (a : AgentResumeAssessment) × (assess_phase tools p pending final_answer ≡ ok a)
phase_assessed tools routing pending final_answer w k = (_, refl)
phase_assessed tools before_action pending final_answer w k = (_, refl)
phase_assessed tools final_ready pending final_answer ((answer, e), _) k = (go_on final_ready, rw e)
phase_assessed tools before_tool pending final_answer w (t, f) =
    (with_tool resume before_tool t false, rw (pending_tool_complete tools pending f))
phase_assessed tools tool_in_flight pending final_answer w (t, f) =
    (assess_in_flight t.replay_policy t, rw (pending_tool_complete tools pending f))

-- A well-formed checkpoint is assessed exactly when it was made by this version of the agent,
-- every tool that its steps called is registered, and so is the tool of its pending action where
-- the phase has one.
pub assess_resume_iff :
    (definition_version : String) (tools : List StructuredTool) (c : Checkpoint)
    → IsWellFormed c
    → ((a : AgentResumeAssessment) × (assess_resume definition_version tools c ≡ ok a)) ↔ (
        (c.definition_version ≡ definition_version)
        × ToolsKnown tools c.steps
        × PendingKnown tools c.phase c.pending_action)
unfolding assess_resume
assess_resume_iff definition_version tools c w = (
  λ (a, h).
      let (v, rest) =
        >>-eq-ok (raise_if (not (str_eq c.definition_version definition_version)) _) _ h in
      let (k, e) = >>-eq-ok (check_tools tools c.steps) _ rest in
      (
        ground (arith, eq_iff c.definition_version definition_version, v),
        tools_sound tools c.steps k,
        phase_known tools c.phase c.pending_action c.final_answer e,
      ),
  λ (v, k, p).
      let (a, e) = phase_assessed tools c.phase c.pending_action c.final_answer w.phase_fits p in
      (
        a,
        rw ((eq_iff c.definition_version definition_version).1 v)
            (rw (tools_complete tools c.steps k) e),
      ),
)
