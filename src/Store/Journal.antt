-- ===== src/Store/Journal.antt =====
-- What the rows of a run record, over any sequence of transactions: one revision in two columns,
-- steps that are only added, and numbered attempts.
pub mod Traces
use agent_backend.Prelude.{
  ℕ, zero, suc, ◌+◌, ◌-◌, ◌≤◌, ◌<◌, String, ◌≡◌, refl, sym, ap, ◌∙◌, ◌≢◌, ◌↔◌, ◌⊎◌, inl, inr, Bool,
  true, false, not, ◌&&◌, ◌||◌, Option, none, some, List, [], ◌∷◌, ◌++◌, map, arith, str_eq, eq_iff,
  ltb, leb, ◌==◌, if◌then◌else◌, is_none, is_some, Bool-cases, Option-cases, length, length-append,
  All, All-append, ℤ, pos, negsuc, pos_part, neg_part, sub_ℕ, ◌+ℤ◌, ltb_ℤ, eqb_ℤ, ◌≤ℤ◌, eqb_ℤ→eq,
  eqb_ℤ_refl, AppError, Error, Result, ok, err, app, ◌>>=◌, ◌>>◌, raise_if, >>=-eq-ok, >>-eq-ok,
  not_found, bad_request, agent_resume_unsafe, agent_run_state_conflict, idempotency_conflict,
  agent_definition_incompatible, service_unavailable, checkpoint_error, checkpoint_validation,
  checkpoint_serialization, unsupported_checkpoint_version, type_error, overflow_error,
  invalid_agent_action, unknown_tool, tool_execution, unsafe_agent_resume, runtime_error,
}
use agent_backend.Json.{
  Value, Items, Fields, null, bool, int, float, str, arr, obj, opaque, nil, cons, end, field, get,
  get_or, is_non_empty_str,
}
use agent_backend.Checkpoint.{
  Checkpoint, Phase, routing, before_action, before_tool, tool_in_flight, final_ready, ReplayPolicy,
  replay_safe, idempotent, non_replayable, CheckpointStep, next_revision, to_payload, action_type,
  tool, phase_value, text_of, text_of?,
}
use agent_backend.Store.{
  Store, CheckpointRow, Run, RunStatus, RunState, StepRow, Attempt, ready, running,
  interrupt_requested, interrupted, recovery_required, completed, max_steps_reached, failed,
  is_active, is_terminal, is_resumable, is_interrupted, status_value,
}
use agent_backend.Store.Rows.{
  Backend, find_run, require_run, found, owns_lease, lease_alive, opt_str_eq, opt_str_eq-some,
  encode, decode_checkpoint_row, decoded, build_run_state, attempt_by_key, attempt_by_no,
  max_attempt_no, latest_attempt_no,
}
use agent_backend.Store.Claim.{
  Resolver, ClaimRequest, ClaimResult, load_managed_run, claim_managed_run, recovered,
  recover_stale_run, is_stale, started_rows, leased, new_attempt, next_attempt_no, start_attempt,
}
use agent_backend.Store.Control.{
  finish_row, ControlResult, Ending, request_run_interrupt, read_managed_control_state,
  renew_managed_lease, heartbeat_managed_run, mark_run_recovery_required, finish_managed_attempt,
}
use agent_backend.Store.Commit.{
  with_message, final_text, CommitRequest, CommitResult, commit_managed_state, check_fence,
  committed_rows, has_step, missing_steps, insert_missing_steps, chosen, is_paused,
}
use agent_backend.Store.Shapes.{
  load_shape, claim_shape, commit_shape, ClaimShape, replays, resumes, parks, takes_over,
  rows_recovered,
}
use agent_backend.Store.Steps.{
  Step, load, claim, interrupt, renew, heartbeat, give_up, finish, commit, Trace, here, next,
  LeaseFits, EndsRun, Step-LeaseFits, Trace-LeaseFits, IssuesOther,
}
use agent_backend.Store.Control.{close_attempt, end_attempt}
use agent_backend.Store.StepRows.{DistinctSteps, insert-DistinctSteps}

-- The run's `checkpoint_revision` column and the checkpoint's row hold the same number.
abbrev SameRevision : Option Run → Option CheckpointRow → Type 0
SameRevision (some r) (some row) = r.checkpoint_revision ≡ some row.revision
SameRevision _ _ = Unit

pub interrupt-SameRevision :
    (now : ℕ) (user_id : String) (reason : Option String) (s : Store) {status : RunStatus}
    {s' : Store}
    → request_run_interrupt now user_id reason s ≡ ok (status, s')
    → SameRevision s.run s.checkpoint
    → SameRevision s'.run s'.checkpoint
unfolding request_run_interrupt
interrupt-SameRevision now user_id reason s h n = ground arith

pub renew-SameRevision :
    (now : ℕ) (user_id token : String) (lease : ℕ) (s : Store)
    → SameRevision s.run s.checkpoint
    → SameRevision
        (renew_managed_lease now user_id token lease s).1.run
        (renew_managed_lease now user_id token lease s).1.checkpoint
unfolding renew_managed_lease
renew-SameRevision now user_id token lease s n = ground arith

pub heartbeat-SameRevision :
    (now : ℕ) (user_id token : String) (lease : ℕ) (s : Store) {result : ControlResult} {s' : Store}
    → heartbeat_managed_run now user_id token lease s ≡ ok (result, s')
    → SameRevision s.run s.checkpoint
    → SameRevision s'.run s'.checkpoint
unfolding heartbeat_managed_run
heartbeat-SameRevision now user_id token lease s h n = ground arith

pub give_up-SameRevision :
    (now : ℕ) (user_id token reason : String) (s : Store)
    → SameRevision s.run s.checkpoint
    → SameRevision
        (mark_run_recovery_required now user_id token reason s).run
        (mark_run_recovery_required now user_id token reason s).checkpoint
unfolding mark_run_recovery_required
give_up-SameRevision now user_id token reason s n = ground arith

finish-SameRevision :
    (now : ℕ) (user_id token : String) (k : ℕ) (e : Ending) (s : Store)
    → SameRevision s.run s.checkpoint
    → SameRevision
        (finish_managed_attempt now user_id token k e s).run
        (finish_managed_attempt now user_id token k e s).checkpoint
unfolding finish_managed_attempt
finish-SameRevision now user_id token k e s n = ground arith

commit-SameRevision :
    (now : ℕ) (q : CommitRequest) (r : Run) (row : CheckpointRow) (payload : Fields) (s : Store)
    → SameRevision
        (committed_rows now q r row payload s).run
        (committed_rows now q r row payload s).checkpoint
unfolding committed_rows
commit-SameRevision now q r row payload s = ground arith

-- The attempts count up from `k`.
abbrev Numbered : ℕ → List Attempt → Type 0
Numbered k [] = Unit
Numbered k (a ∷ rest) = (a.attempt_no ≡ k) × Numbered (suc k) rest

Numbered-max :
    (k : ℕ) (xs : List Attempt)
    → Numbered (suc k) xs
    → (xs ≡ []) ⊎ (max_attempt_no xs ≡ k + length xs)
Numbered-max k [] n = inl refl
Numbered-max k (a ∷ []) n = inr (omega arith)
Numbered-max k (a ∷ b ∷ rest) n = inr (more (Numbered-max (suc k) (b ∷ rest) n.1))
  where
    more :
        (b ∷ rest ≡ []) ⊎ (max_attempt_no (b ∷ rest) ≡ suc k + length (b ∷ rest))
        → max_attempt_no (a ∷ b ∷ rest) ≡ k + length (a ∷ b ∷ rest)
    more (inl e) = cc e
    more (inr e) = omega arith

Numbered-append :
    (k : ℕ) (xs : List Attempt) (a : Attempt)
    → Numbered k xs
    → a.attempt_no ≡ k + length xs
    → Numbered k (xs ++ a ∷ [])
Numbered-append k [] a n e = (omega arith, tt)
Numbered-append k (x ∷ xs) a (h, n) e = (h, Numbered-append (suc k) xs a n (omega arith))

next_attempt_no-eq : (s : Store) → Numbered 1 s.attempts → next_attempt_no s ≡ 1 + length s.attempts
next_attempt_no-eq s n = next_of s.attempts (Numbered-max 0 s.attempts n)
  where
    next_of :
        (xs : List Attempt)
        → (xs ≡ []) ⊎ (max_attempt_no xs ≡ 0 + length xs)
        → max_attempt_no xs + 1 ≡ 1 + length xs
    next_of xs (inl e) = rw e
    next_of xs (inr e) = omega arith

started-Numbered :
    (now : ℕ) (q : ClaimRequest) (r : Run) (s : Store)
    → Numbered 1 s.attempts
    → Numbered 1 (started_rows now q r s).attempts
started-Numbered now q r s n =
    Numbered-append 1 s.attempts (new_attempt now q (next_attempt_no s)) n (next_attempt_no-eq s n)

end-Numbered :
    (k n now : ℕ) (status : RunStatus) (xs : List Attempt)
    → Numbered k xs
    → Numbered k (end_attempt n now status xs)
end-Numbered k n now status [] h = tt
end-Numbered k n now status (a ∷ rest) (h, hs) = elim (Bool-cases (a.attempt_no == n)) [
  | inl e ↦ rw e (h, hs)
  | inr e ↦ rw e (h, end-Numbered (suc k) n now status rest hs)
]

close-Numbered :
    (k now : ℕ) (status : RunStatus) (o : Option Attempt) (xs : List Attempt)
    → Numbered k xs
    → Numbered k (close_attempt o now status xs)
close-Numbered k now status none xs h = h
close-Numbered k now status (some a) xs h = elim (Option-cases a.ended_at) [
  | inl e ↦ rw e (end-Numbered k a.attempt_no now status xs h)
  | inr (t, e) ↦ rw e h
]

-- What every transaction keeps: the two revision columns agree, no step index has two rows, and
-- the attempts are numbered from 1 in the order in which they were made.
pub record JournalFits (s : Store) : Type 0 where
  pub revision : SameRevision s.run s.checkpoint
  pub steps : DistinctSteps s.steps
  pub attempts : Numbered 1 s.attempts

-- The steps of one commit have distinct indices.
abbrev pub CommitsDistinct :
    {b : Backend} {resolve : Resolver} {s s' : Store} → Step b resolve s s' → Type 0
CommitsDistinct (commit now q _ h) = DistinctSteps q.steps
CommitsDistinct _ = Unit

pub recovered-JournalFits :
    (now : ℕ) (resolve : Resolver) (asked : RunState) (r : Run) (s : Store)
    → s.run ≡ some r
    → JournalFits s
    → JournalFits (rows_recovered now resolve asked r s)
unfolding recovered
recovered-JournalFits now resolve asked r s is j = record {
  revision = rw is at j.revision;
  steps = j.steps;
  attempts = j.attempts;
}

pub started-JournalFits :
    (now : ℕ) (q : ClaimRequest) (r : Run) (s : Store)
    → s.run ≡ some r
    → JournalFits s
    → JournalFits (started_rows now q r s)
started-JournalFits now q r s is j = record {
  revision = rw is at j.revision;
  steps = j.steps;
  attempts = started-Numbered now q r s j.attempts;
}

-- A change of the run's row alone.
pub same_rows-JournalFits :
    (s s' : Store)
    → s'.steps ≡ s.steps
    → s'.attempts ≡ s.attempts
    → SameRevision s'.run s'.checkpoint
    → JournalFits s
    → JournalFits s'
same_rows-JournalFits s s' e f rev j = record {
  revision = rev;
  steps = rw e j.steps;
  attempts = rw f j.attempts;
}

pub interrupt_rows :
    (now : ℕ) (user_id : String) (reason : Option String) (s : Store) {status : RunStatus}
    {s' : Store}
    → request_run_interrupt now user_id reason s ≡ ok (status, s')
    → (s'.steps ≡ s.steps) × (s'.attempts ≡ s.attempts)
unfolding request_run_interrupt
interrupt_rows now user_id reason s h = ground arith

pub renew_rows :
    (now : ℕ) (user_id token : String) (lease : ℕ) (s : Store)
    → let s' = (renew_managed_lease now user_id token lease s).1 in
      (s'.steps ≡ s.steps) × (s'.attempts ≡ s.attempts)
unfolding renew_managed_lease
renew_rows now user_id token lease s = ground arith

pub heartbeat_rows :
    (now : ℕ) (user_id token : String) (lease : ℕ) (s : Store) {result : ControlResult} {s' : Store}
    → heartbeat_managed_run now user_id token lease s ≡ ok (result, s')
    → (s'.steps ≡ s.steps) × (s'.attempts ≡ s.attempts)
unfolding heartbeat_managed_run
heartbeat_rows now user_id token lease s h = ground arith

pub give_up_rows :
    (now : ℕ) (user_id token reason : String) (s : Store)
    → let s' = mark_run_recovery_required now user_id token reason s in
      (s'.steps ≡ s.steps) × (s'.attempts ≡ s.attempts)
unfolding mark_run_recovery_required
give_up_rows now user_id token reason s = ground arith

finish_steps :
    (now : ℕ) (user_id token : String) (k : ℕ) (e : Ending) (s : Store)
    → (finish_managed_attempt now user_id token k e s).steps ≡ s.steps
unfolding finish_managed_attempt
finish_steps now user_id token k e s = ground arith

finish_row-Numbered :
    (now : ℕ) (token : String) (k : ℕ) (e : Ending) (o : Option Run) (s : Store)
    → Numbered 1 s.attempts
    → Numbered 1 (finish_row o now token k e s).attempts
finish_row-Numbered now token k e none s n = n
finish_row-Numbered now token k e (some r) s n =
    close-Numbered 1 now e.status (attempt_by_no k s.attempts) s.attempts n

pub finish-JournalFits :
    (now : ℕ) (user_id token : String) (k : ℕ) (e : Ending) (s : Store)
    → JournalFits s
    → JournalFits (finish_managed_attempt now user_id token k e s)
unfolding finish_managed_attempt
finish-JournalFits now user_id token k e s j = record {
  revision = finish-SameRevision now user_id token k e s j.revision;
  steps = rw (finish_steps now user_id token k e s) j.steps;
  attempts = finish_row-Numbered now token k e (find_run user_id s) s j.attempts;
}

message_attempts :
    (now : ℕ) (o : Option String) (s : Store) → (with_message now o s).attempts ≡ s.attempts
message_attempts now none s = refl
message_attempts now (some answer) s = refl

pub committed-JournalFits :
    (now : ℕ) (q : CommitRequest) (r : Run) (row : CheckpointRow) (payload : Fields) (s : Store)
    → DistinctSteps q.steps
    → JournalFits s
    → JournalFits (committed_rows now q r row payload s)
unfolding committed_rows
committed-JournalFits now q r row payload s d j = record {
  revision = commit-SameRevision now q r row payload s;
  steps = insert-DistinctSteps s.steps q.steps j.steps d;
  attempts =
      rw (message_attempts now (final_text (is_paused q r) q.terminal q.answer) s) j.attempts;
}
