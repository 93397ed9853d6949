-- ===== src/Execution/Failing.antt =====
-- What an attempt of internal/services/agents/execution.py that raises leaves in the run's row, where
-- its last transaction goes through and where it does not.
use mathlib.Core.Bool.{false≢true}
use agent_backend.Prelude.{
  [], ◌∙◌, sym, eq_iff, if◌then◌else◌, ℕ, String, ◌≡◌, ◌≢◌, ◌↔◌, ◌⊎◌, refl, true, Bool-cases, inl,
  inr, Option, none, some, arith, err, Error, AppError, app, checkpoint_error,
  checkpoint_validation, checkpoint_serialization, unsupported_checkpoint_version, unknown_tool,
  unsafe_agent_resume, agent_resume_unsafe, agent_definition_incompatible, type_error,
  overflow_error, attribute_error, value_error, index_error, invalid_agent_action, tool_execution,
  runtime_error, integrity_error,
}
use agent_backend.Checkpoint.{Checkpoint, Phase, tool_in_flight}
use agent_backend.Checkpoint.Roundtrip.{not_is_empty}
use agent_backend.Store.{Attempt, Store, Run, failed, recovery_required}
use agent_backend.Store.Rows.{attempt_by_no, opt_str_eq-some}
use agent_backend.Store.Control.{add_elapsed, end_run, holds_token, Ending, finish_managed_attempt}
use agent_backend.Execution.{turn, World, Executor}
use agent_backend.Execution.Attempt.{run_agent_events}
use agent_backend.Execution.Checks.{Service}
use agent_backend.Execution.Finish.{attempt, error_ending, app_ending}

-- The errors after which the run may not go on by itself.
abbrev pub IsUnsafe : Error → Type 0
IsUnsafe x =
    (x ≡ checkpoint_error)
    ⊎ (x ≡ checkpoint_validation)
    ⊎ (x ≡ checkpoint_serialization)
    ⊎ (x ≡ unsupported_checkpoint_version)
    ⊎ (x ≡ unknown_tool)
    ⊎ (x ≡ unsafe_agent_resume)
    ⊎ (x ≡ app agent_resume_unsafe)
    ⊎ (x ≡ app agent_definition_incompatible)

-- The end of the attempt goes through, under the token that the run's row holds.
abbrev pub EndsUnder : {V : Type 0} → Executor → World V → Run → Type 0
EndsUnder e w r =
    (e.finishes w.tick ≡ true) × (e.lease_token ≢ "") × (r.lease_token ≡ some e.lease_token)

-- What the row `r` of the run has become.
abbrev pub AfterFailure : Type 0 → Error → Phase → Run → Run → Type 0
AfterFailure ends x phase r r' =
    (ends
      × (phase ≢ tool_in_flight)
      × (¬ IsUnsafe x)
      × (r'.status ≡ failed)
      × (r'.lease_token ≡ none))
    ⊎ (ends
        × ((phase ≡ tool_in_flight) ⊎ IsUnsafe x)
        × (r'.status ≡ recovery_required)
        × (r'.lease_token ≡ none))
    ⊎ ((¬ ends) × (r'.status ≡ r.status) × (r'.lease_token ≡ r.lease_token))

-- How the three `except` clauses choose the status.
abbrev Chosen : Error → Phase → Ending → Type 0
Chosen x phase ending =
    ((phase ≢ tool_in_flight) × (¬ IsUnsafe x) × (ending.status ≡ failed))
    ⊎ (((phase ≡ tool_in_flight) ⊎ IsUnsafe x) × (ending.status ≡ recovery_required))

app_ending-Chosen :
    (e : AppError) (phase : Phase) (message : String)
    → Chosen (app e) phase (app_ending e phase message)
app_ending-Chosen e phase message = ground arith

error_ending-Chosen :
    (x : Error) (phase : Phase) (message : String) → Chosen x phase (error_ending x phase message)
error_ending-Chosen (app e) phase message = app_ending-Chosen e phase message
error_ending-Chosen checkpoint_error phase message = ground arith
error_ending-Chosen checkpoint_validation phase message = ground arith
error_ending-Chosen checkpoint_serialization phase message = ground arith
error_ending-Chosen unsupported_checkpoint_version phase message = ground arith
error_ending-Chosen type_error phase message = ground arith
error_ending-Chosen overflow_error phase message = ground arith
error_ending-Chosen attribute_error phase message = ground arith
error_ending-Chosen value_error phase message = ground arith
error_ending-Chosen index_error phase message = ground arith
error_ending-Chosen invalid_agent_action phase message = ground arith
error_ending-Chosen unknown_tool phase message = ground arith
error_ending-Chosen tool_execution phase message = ground arith
error_ending-Chosen unsafe_agent_resume phase message = ground arith
error_ending-Chosen runtime_error phase message = ground arith
error_ending-Chosen integrity_error phase message = ground arith

holds_token_iff :
    (r : Run) (token : String)
    → (holds_token r token ≡ true) ↔ ((token ≢ "") × (r.lease_token ≡ some token))
holds_token_iff r token = (
  λ h. (
    λ empty. absurd cc (h, (eq_iff token "").1 empty),
    opt_str_eq-some r.lease_token token (ground arith),
  ),
  λ (filled, held). rw (held, not_is_empty token filled, (eq_iff token token).1 refl) refl,
)

elapsed_keeps :
    (a : Option Attempt) (now : ℕ) (r : Run)
    → ((add_elapsed a now r).status ≡ r.status)
      × ((add_elapsed a now r).lease_token ≡ r.lease_token)
elapsed_keeps none now r = (refl, refl)
elapsed_keeps (some a) now r = ground arith

-- The run's row after `finish_managed_attempt`.
abbrev finished_run : ℕ → String → ℕ → Ending → Store → Run → Run
finished_run now token attempt_no ending s r =
    let r' = add_elapsed (attempt_by_no attempt_no s.attempts) now r in
    if holds_token r token then end_run ending now r' else r'

finish_run :
    (now : ℕ) (user_id token : String) (attempt_no : ℕ) (ending : Ending) (s : Store) (r : Run)
    → s.run ≡ some r
    → r.user_id ≡ user_id
    → (finish_managed_attempt now user_id token attempt_no ending s).run
      ≡ some (finished_run now token attempt_no ending s r)
unfolding finish_managed_attempt
finish_run now user_id token attempt_no ending s r is own =
    rw is (rw ((eq_iff r.user_id user_id).1 own) refl)

closed_run :
    (now : ℕ) (token : String) (attempt_no : ℕ) (ending : Ending) (s : Store) (r : Run) (x : Error)
    (phase : Phase) {ends : Type 0}
    → ((token ≢ "") × (r.lease_token ≡ some token) → ends)
    → (ends → (token ≢ "") × (r.lease_token ≡ some token))
    → Chosen x phase ending
    → AfterFailure ends x phase r (finished_run now token attempt_no ending s r)
closed_run now token attempt_no ending s r x phase enough needed chosen =
    elim (Bool-cases (holds_token r token)) [
      | inl held ↦
          let ends = enough ((holds_token_iff r token).0 held) in
          rw held (elim chosen [
            | inl (quiet, safe, status) ↦ inl (ends, quiet, safe, status, refl)
            | inr (bad, status) ↦ inr (inl (ends, bad, status, refl))
          ])
      | inr lost ↦
          let (status, token_kept) = elapsed_keeps (attempt_by_no attempt_no s.attempts) now r in
          rw lost (
            inr (
              inr (
                λ ends. absurd cc (lost, (holds_token_iff r token).1 (needed ends)),
                status,
                token_kept,
              )))
    ]

-- An attempt raised an error, and `r` is the user's run as the attempt's last transaction finds it, in the
-- phase that the attempt had reached. Where that transaction goes through under the token that the row
-- holds, the run gives the lease back and is failed if no tool was in flight and the error is neither a
-- checkpoint error, an unknown tool, an unsafe resume nor an incompatible definition, and it asks for
-- recovery otherwise. Where it does not go through, or another token stands in the row, the status and
-- the lease stay as they were.
pub attempt_failed :
    {V : Type 0} (e : Executor) (svc : Service V) (attempt_no : ℕ) (c : Checkpoint) (w : World V)
    (x : Error) (r : Run)
    → (attempt e svc attempt_no c w).0 ≡ err x
    → (turn e (run_agent_events e svc attempt_no c (w, [])).1.0).store.run ≡ some r
    → r.user_id ≡ e.user_id
    → (r' : Run) × ((attempt e svc attempt_no c w).1.0.store.run ≡ some r')
      × AfterFailure
          (EndsUnder e (run_agent_events e svc attempt_no c (w, [])).1.0 r)
          x
          (run_agent_events e svc attempt_no c (w, [])).1.0.checkpoint.phase
          r
          r'
unfolding attempt
attempt_failed e svc attempt_no c w x r raised is own =
    let ran = run_agent_events e svc attempt_no c (w, []) in
    let now = e.clock ran.1.0.tick in
    let phase = ran.1.0.checkpoint.phase in
    let ending = error_ending x phase (svc.text_of_error x) in
    let rows = (turn e ran.1.0).store in
    elim (Bool-cases (e.finishes ran.1.0.tick)) [
      | inl through ↦ (
        finished_run now e.lease_token attempt_no ending rows r,
        rw (through, raised)
            (finish_run now e.user_id e.lease_token attempt_no ending rows r is own),
        closed_run now e.lease_token attempt_no ending rows r x phase
            (λ (filled, held). (through, filled, held)) (λ (_, filled, held). (filled, held))
            (error_ending-Chosen x phase (svc.text_of_error x)),
      )
      | inr cut ↦
          (r, rw cut is, inr (inr (λ (through, _, _). false≢true (sym cut ∙ through), refl, refl)))
    ]
