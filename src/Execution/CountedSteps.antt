-- ===== src/Execution/CountedSteps.antt =====
-- `_with_result_steps` of internal/services/agents/execution.py: the checkpoint of a run's end has
-- every step of the result.
use agent_backend.Checkpoint.Roundtrip.{not_is_empty}
use agent_backend.Prelude.{
  ◌<>◌, pos_part, eqb_ℤ→eq, sym, Option, ap, ◌∙◌, ℕ, suc, ℤ, pos, String, ◌≡◌, ◌≢◌, refl, false,
  Bool-cases, inl, inr, List, [], ◌∷◌, ◌++◌, length, length-append, ltb_ℤ, ◌+◌, ◌≤◌, ok, arith,
  eqb_ℤ, some,
}
use agent_backend.Checkpoint.{Checkpoint, CheckpointStep}
use agent_backend.Checkpoint.WellFormed.{StepsFit, IsStepAction}
use agent_backend.Agent.{AgentStepRecord, AgentAction, final, tool_call}
use agent_backend.Agent.Actions.{
  step_record_to_checkpoint_step, serialize_agent_action, stable_tool_call_id,
}
use agent_backend.Agent.Restore.{IsNamed}
use agent_backend.Agent.Loop.{AgentRunResult}
use agent_backend.Execution.StepRecords.{if_longer, append_step, append_steps, with_result_steps}

-- The steps of a result are numbered from `position` and name their tools.
abbrev pub Numbered : ℕ → List AgentStepRecord → Type 0
Numbered position [] = Unit
Numbered position (s ∷ ss) =
    (s.index ≡ pos position) × IsNamed s.action × Numbered (suc position) ss

action_named :
    (s : CheckpointStep) (a : AgentAction) (id : Option String)
    → s.action ≡ serialize_agent_action a id
    → IsNamed a
    → IsStepAction s
unfolding serialize_agent_action
action_named s (final answer) id h named = inr (rw h refl)
action_named s (tool_call name args call_id) id h named = inl (rw h refl, (name, rw h refl, named))

fit_append :
    (position : ℕ) (steps : List CheckpointStep) (s : CheckpointStep)
    → StepsFit position steps
    → s.index ≡ pos (position + length steps)
    → IsStepAction s
    → StepsFit position (steps ++ s ∷ [])
fit_append position [] s fits i a = (i ∙ ap pos (omega arith), a, tt)
fit_append position (x ∷ xs) s (ix, ax, fits) i a =
    (ix, ax, fit_append (suc position) xs s fits (i ∙ ap pos (omega arith)) a)

-- Steps that fit, at least `position` and at most `bound` of them.
abbrev Between : ℕ → ℕ → List CheckpointStep → Type 0
Between position bound steps = StepsFit 0 steps × (position ≤ length steps) × (length steps ≤ bound)

not_negative : (n : ℕ) → ltb_ℤ (pos n) (pos 0) ≡ false
not_negative n = ground arith

reached : (p l : ℕ) → ltb_ℤ (pos p) (pos l) ≡ false → p ≤ l → p ≡ l
reached p l h least = ground arith

module _ (str_of_int : ℤ → String) (run_id : String) (named_run : run_id ≢ "") where
  step_appended :
      (steps : List CheckpointStep) (s : AgentStepRecord) (position bound : ℕ)
      → Between position bound steps
      → suc position ≤ bound
      → s.index ≡ pos position
      → IsNamed s.action
      → (longer : List CheckpointStep) × (append_step str_of_int run_id steps s ≡ ok longer)
        × Between (suc position) bound longer
  unfolding stable_tool_call_id step_record_to_checkpoint_step
  step_appended steps s position bound (fits, least, most) room at named =
      elim (Bool-cases (ltb_ℤ (pos position) (pos (length steps)))) [
        | inl stored ↦ (steps, rw (at, stored) refl, (fits, ground arith, most))
        | inr fresh ↦
            let id = run_id <> (":" <> str_of_int s.index) in
            let met = reached position (length steps) fresh least in
            let stored = step_record_to_checkpoint_step s (some id) in
            (
              steps ++ stored ∷ [],
              rw (at, fresh, not_is_empty run_id named_run, not_negative position) refl,
              (
                fit_append 0 steps stored fits (at ∙ ap pos (omega (arith, met)))
                    (action_named stored s.action (some id) refl named),
                omega (arith, met, length-append steps (stored ∷ [])),
                omega (arith, met, room, length-append steps (stored ∷ [])),
              ),
            )
      ]

  steps_appended :
      (steps : List CheckpointStep) (rest : List AgentStepRecord) (position : ℕ)
      → Between position (position + length rest) steps
      → Numbered position rest
      → (longer : List CheckpointStep) × (append_steps str_of_int run_id steps rest ≡ ok longer)
        × Between (position + length rest) (position + length rest) longer
  unfolding append_steps
  steps_appended steps [] position (fits, least, most) numbered =
      (steps, refl, (fits, omega (arith, least), most))
  steps_appended steps (s ∷ rest) position (fits, least, most) (at, named, numbered) =
      let (longer, appended, (fits', least', most')) =
        step_appended steps s position (position + length (s ∷ rest)) (fits, least, most)
          (omega arith) at named in
      let (all, all_appended, (fits'', least'', most'')) =
        steps_appended longer rest (suc position) (fits', least', omega (arith, most')) numbered in
      (
        all,
        rw (appended, all_appended) refl,
        (fits'', omega (arith, least''), omega (arith, most'')),
      )

if_longer_counted :
    (c : Checkpoint) (steps : List CheckpointStep)
    → c.next_step_index ≡ pos (length c.steps)
    → StepsFit 0 c.steps
    → StepsFit 0 steps
    → StepsFit 0 (if_longer c steps).steps
      × ((if_longer c steps).next_step_index ≡ pos (length steps))
      × (length (if_longer c steps).steps ≡ length steps)
if_longer_counted c steps counted fits fits' =
    elim (Bool-cases (eqb_ℤ (pos (length steps)) (pos (length c.steps)))) [
      | inl same ↦
          let e = eqb_ℤ→eq (pos (length steps)) (pos (length c.steps)) same in
          rw same (fits, counted ∙ sym e, sym (ap pos_part e))
      | inr more ↦ rw more (fits', refl, refl)
    ]

-- The end of a run keeps all its steps: if the run is named, the checkpoint's steps fit and are no
-- more than the result's, and these count up from 0 and name their tools, the checkpoint that
-- `_with_result_steps` makes has steps that fit, as many as the result, and counts them.
pub with_result_steps-StepsFit :
    (str_of_int : ℤ → String) (run_id : String) (c : Checkpoint) (result : AgentRunResult)
    → run_id ≢ ""
    → StepsFit 0 c.steps
    → c.next_step_index ≡ pos (length c.steps)
    → length c.steps ≤ length result.steps
    → Numbered 0 result.steps
    → (c' : Checkpoint) × (with_result_steps str_of_int run_id c result ≡ ok c')
      × StepsFit 0 c'.steps
      × (c'.next_step_index ≡ pos (length result.steps))
      × (length c'.steps ≡ length result.steps)
unfolding with_result_steps
with_result_steps-StepsFit str_of_int run_id c result named fits counted most numbered =
    let (steps, appended, (fits', least, most')) =
      steps_appended str_of_int run_id named c.steps result.steps 0
        (fits, omega arith, omega (arith, most)) numbered in
    let same : length steps ≡ length result.steps = omega (arith, least, most') in
    let (fitting, next, long) = if_longer_counted c steps counted fits fits' in
    (if_longer c steps, rw appended refl, fitting, next ∙ ap pos same, long ∙ same)
