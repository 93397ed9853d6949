-- ===== src/Store/Outcome.antt =====
-- What no later transaction undoes: a run with a terminal status stays as it is, over the
-- transactions of internal/services/agents/conversation.py.
use agent_backend.Store.Shapes.{
  commit_shape, takes_over, parks, resumes, replays, claim_shape, load_shape,
}
use agent_backend.Store.Rows.{Backend}
use agent_backend.Store.Claim.{Resolver, is_stale}
use agent_backend.Prelude.{
  inr, inl, false, ◌∙◌, ℕ, String, ◌≡◌, ◌≢◌, refl, true, Option, none, some, arith, ok,
}
use agent_backend.Store.{RunState, Store, Run, RunStatus, is_active, is_terminal, is_resumable}
use agent_backend.Store.Control.{
  ControlResult, Ending, request_run_interrupt, renew_managed_lease, heartbeat_managed_run,
  mark_run_recovery_required, finish_managed_attempt,
}
use agent_backend.Store.Commit.{CommitRequest, check_fence}
use agent_backend.Store.Steps.{
  here, commit, finish, give_up, heartbeat, renew, interrupt, claim, Trace-LeaseFits, next, Trace,
  load, Step, LeaseFits,
}

abbrev status_of : Option Run → Option RunStatus
status_of none = none
status_of (some r) = some r.status

-- What a client reads of the end of a run.
pub record SameOutcome (s s' : Store) : Type 0 where
  pub status : status_of s'.run ≡ status_of s.run
  pub steps : s'.steps ≡ s.steps
  pub checkpoint : s'.checkpoint ≡ s.checkpoint
  pub assistant : s'.assistant ≡ s.assistant
  pub count : s'.message_count ≡ s.message_count

abbrev pub HasEnded : Option Run → Type 0
HasEnded none = ⊥
HasEnded (some r) = is_terminal r.status ≡ true

SameOutcome-refl : (s : Store) → SameOutcome s s
SameOutcome-refl s = record {
  status = refl;
  steps = refl;
  checkpoint = refl;
  assistant = refl;
  count = refl;
}

interrupt_ended :
    (now : ℕ) (user_id : String) (reason : Option String) (s : Store) {status : RunStatus}
    {s' : Store}
    → HasEnded s.run
    → request_run_interrupt now user_id reason s ≡ ok (status, s')
    → SameOutcome s s'
unfolding request_run_interrupt
interrupt_ended now user_id reason s e h = ground arith

pub renew_ended :
    (now : ℕ) (user_id token : String) (lease : ℕ) (s : Store)
    → SameOutcome s (renew_managed_lease now user_id token lease s).1
unfolding renew_managed_lease
renew_ended now user_id token lease s = ground arith

pub heartbeat_ended :
    (now : ℕ) (user_id token : String) (lease : ℕ) (s : Store) {result : ControlResult} {s' : Store}
    → heartbeat_managed_run now user_id token lease s ≡ ok (result, s')
    → SameOutcome s s'
unfolding heartbeat_managed_run
heartbeat_ended now user_id token lease s h = ground arith

give_up_ended :
    (now : ℕ) (user_id token reason : String) (s : Store)
    → HasEnded s.run
    → LeaseFits s.run
    → SameOutcome s (mark_run_recovery_required now user_id token reason s)
unfolding mark_run_recovery_required
give_up_ended now user_id token reason s e w = ground arith

finish_ended :
    (now : ℕ) (user_id token : String) (n : ℕ) (e : Ending) (s : Store)
    → HasEnded s.run
    → LeaseFits s.run
    → SameOutcome s (finish_managed_attempt now user_id token n e s)
unfolding finish_managed_attempt
finish_ended now user_id token n e s t w = ground arith

check_fence_ended :
    (now : ℕ) (q : CommitRequest) (r : Run)
    → is_terminal r.status ≡ true
    → LeaseFits (some r)
    → check_fence now q r ≢ ok tt
unfolding check_fence
check_fence_ended now q r t w h = ground arith

ended_not_resumable :
    (status : RunStatus) → is_terminal status ≡ true → is_resumable status ≡ true → ⊥
ended_not_resumable status t h = ground arith

ended_not_active : (status : RunStatus) → is_terminal status ≡ true → is_active status ≡ true → ⊥
ended_not_active status t h = ground arith

stale_not_ended : (now : ℕ) (r : Run) → is_stale now r ≡ true → is_terminal r.status ≡ true → ⊥
stale_not_ended now r h t = ground arith

Step-SameOutcome :
    {b : Backend} {resolve : Resolver} {s s' : Store}
    → HasEnded s.run
    → LeaseFits s.run
    → Step b resolve s s'
    → SameOutcome s s'
Step-SameOutcome {b} {resolve} {s} e w (load now user_id h) =
    elim (load_shape b now resolve user_id s h) [
      | inl same ↦ rw same (SameOutcome-refl s)
      | inr (r, is, asked, stale, rows) ↦ absurd (stale_not_ended now r stale (rw is at e))
    ]
Step-SameOutcome {b} {resolve} {s} e w (claim now q h) =
    let (r, is, shape) = claim_shape b now resolve q s h in
    elim shape [
      | replays _ same ↦ rw same (SameOutcome-refl s)
      | resumes free rows ↦ absurd (ended_not_resumable r.status (rw is at e) free)
      | parks asked busy _ rows ↦ absurd (ended_not_active r.status (rw is at e) busy)
      | takes_over asked busy _ rows ↦ absurd (ended_not_active r.status (rw is at e) busy)
    ]
Step-SameOutcome {s} e w (interrupt now user_id reason h) = interrupt_ended now user_id reason s e h
Step-SameOutcome {s} e w (renew now user_id token lease h) =
    rw (← h) (renew_ended now user_id token lease s)
Step-SameOutcome {s} e w (heartbeat now user_id token lease h) =
    heartbeat_ended now user_id token lease s h
Step-SameOutcome {s} e w (give_up now user_id token reason h) =
    rw (← h) (give_up_ended now user_id token reason s e w)
Step-SameOutcome {s} e w (finish now user_id token n ending _ h) =
    rw (← h) (finish_ended now user_id token n ending s e w)
Step-SameOutcome {b} {s} e w (commit now q _ h) =
    let (r, row, payload, is, fence, _, _, _, _, _) = commit_shape b now q s h in
    absurd (check_fence_ended now q r (rw is at e) (rw is at w) fence)

SameOutcome-trans : {s t u : Store} → SameOutcome s t → SameOutcome t u → SameOutcome s u
SameOutcome-trans p q = record {
  status = q.status ∙ p.status;
  steps = q.steps ∙ p.steps;
  checkpoint = q.checkpoint ∙ p.checkpoint;
  assistant = q.assistant ∙ p.assistant;
  count = q.count ∙ p.count;
}

pub HasEnded-SameOutcome : {s t : Store} → SameOutcome s t → HasEnded s.run → HasEnded t.run
HasEnded-SameOutcome {s} {t} p e = ended_of s.run t.run p.status e
  where
    ended_of : (o o' : Option Run) → status_of o' ≡ status_of o → HasEnded o → HasEnded o'
    ended_of none o' h e = absurd e
    ended_of (some r) none h e = cc h
    ended_of (some r) (some r') h e = ground arith

-- Once a run that fits the lease invariant has a terminal status, no sequence of transactions
-- changes its status, its steps, its checkpoint, its answer, or its session's message count.
pub terminal_absorbs :
    {b : Backend} {resolve : Resolver} {s s' : Store}
    → ((st : RunState) → is_active (resolve st).0 ≡ false)
    → Trace b resolve s s'
    → LeaseFits s.run
    → HasEnded s.run
    → SameOutcome s s'
terminal_absorbs {s} quiet here w e = SameOutcome-refl s
terminal_absorbs quiet (next t st) w e =
    let same = terminal_absorbs quiet t w e in
    SameOutcome-trans same
      (Step-SameOutcome (HasEnded-SameOutcome same e) (Trace-LeaseFits quiet t w) st)
