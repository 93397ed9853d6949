-- ===== src/Store/Answer.antt =====
-- The answer of a run: `_insert_assistant_message_once` and `_bump_session_message_count` of
-- internal/services/agents/conversation.py over any sequence of transactions.
use agent_backend.Store.Outcome.{
  heartbeat_ended, renew_ended, HasEnded-SameOutcome, SameOutcome, HasEnded,
}
use agent_backend.Store.Shapes.{
  commit_shape, takes_over, parks, resumes, replays, claim_shape, load_shape,
}
use agent_backend.Store.Rows.{Backend}
use agent_backend.Store.Claim.{Resolver, is_stale}
use agent_backend.Prelude.{
  ap, inr, inl, false, ◌∙◌, ◌+◌, ℕ, String, ◌≡◌, refl, true, Option, none, some, arith, ok,
}
use agent_backend.Store.{
  RunState, Fields, CheckpointRow, Store, Run, RunStatus, is_active, is_terminal, is_resumable,
}
use agent_backend.Store.Control.{
  Ending, request_run_interrupt, mark_run_recovery_required, finish_managed_attempt,
}
use agent_backend.Store.Commit.{committed_rows, CommitRequest, check_fence}
use agent_backend.Store.Steps.{
  here, commit, finish, give_up, heartbeat, renew, interrupt, claim, Trace-LeaseFits, next, Trace,
  load, Step, EndsRun, LeaseFits,
}

-- The answer of a run is counted once: `base` is what its session counted before.
abbrev pub Answered : ℕ → Option String → ℕ → Option Run → Type 0
Answered base none count o = count ≡ base
Answered base (some answer) count o = (count ≡ base + 1) × HasEnded o

abbrev pub AnsweredOnce : ℕ → Store → Type 0
AnsweredOnce base s = Answered base s.assistant s.message_count s.run

committed-AnsweredOnce :
    (base now : ℕ) (q : CommitRequest) (r : Run) (row : CheckpointRow) (payload : Fields)
    (s : Store)
    → EndsRun q.terminal
    → s.run ≡ some r
    → is_active r.status ≡ true
    → AnsweredOnce base s
    → AnsweredOnce base (committed_rows now q r row payload s)
unfolding committed_rows
committed-AnsweredOnce base now q r row payload s t is busy h = ground arith

check_fence_active :
    (now : ℕ) (q : CommitRequest) (r : Run)
    → check_fence now q r ≡ ok tt
    → LeaseFits (some r)
    → is_active r.status ≡ true
unfolding check_fence
check_fence_active now q r h w = ground arith

interrupt-AnsweredOnce :
    (base now : ℕ) (user_id : String) (reason : Option String) (s : Store) {status : RunStatus}
    {s' : Store}
    → request_run_interrupt now user_id reason s ≡ ok (status, s')
    → AnsweredOnce base s
    → AnsweredOnce base s'
unfolding request_run_interrupt
interrupt-AnsweredOnce base now user_id reason s h w = ground arith

kept-AnsweredOnce :
    (base : ℕ) {s s' : Store} → SameOutcome s s' → AnsweredOnce base s → AnsweredOnce base s'
kept-AnsweredOnce base {s} {s'} p h = kept s.assistant s'.assistant p.assistant h
  where
    kept :
        (a a' : Option String)
        → a' ≡ a
        → Answered base a s.message_count s.run
        → Answered base a' s'.message_count s'.run
    kept none none e c = p.count ∙ c
    kept none (some x) e c = cc e
    kept (some x) none e c = cc e
    kept (some x) (some y) e (c, ended) = (p.count ∙ c, HasEnded-SameOutcome p ended)

-- A run that has not ended has no answer, so every change but a commit leaves none.
open_unanswered :
    (base : ℕ) (s : Store) {r : Run}
    → s.run ≡ some r
    → is_terminal r.status ≡ false
    → AnsweredOnce base s
    → (s.assistant ≡ none) × (s.message_count ≡ base)
open_unanswered base s is t h = ground arith

unanswered :
    (base : ℕ) (s : Store) → (s.assistant ≡ none) × (s.message_count ≡ base) → AnsweredOnce base s
unanswered base s h = ground arith

still_open :
    (base : ℕ) (s s' : Store) {r : Run}
    → s.run ≡ some r
    → is_terminal r.status ≡ false
    → s'.assistant ≡ s.assistant
    → s'.message_count ≡ s.message_count
    → AnsweredOnce base s
    → AnsweredOnce base s'
still_open base s s' is t same count a =
    let (none_yet, counted) = open_unanswered base s is t a in
    unanswered base s' (same ∙ none_yet, count ∙ counted)

give_up-AnsweredOnce :
    (base now : ℕ) (user_id token reason : String) (s : Store)
    → LeaseFits s.run
    → AnsweredOnce base s
    → AnsweredOnce base (mark_run_recovery_required now user_id token reason s)
unfolding mark_run_recovery_required
give_up-AnsweredOnce base now user_id token reason s w h = ground arith

finish-AnsweredOnce :
    (base now : ℕ) (user_id token : String) (n : ℕ) (e : Ending) (s : Store)
    → LeaseFits s.run
    → AnsweredOnce base s
    → AnsweredOnce base (finish_managed_attempt now user_id token n e s)
unfolding finish_managed_attempt
finish-AnsweredOnce base now user_id token n e s w h = ground arith

active_open : (status : RunStatus) → is_active status ≡ true → is_terminal status ≡ false
active_open status h = ground arith

resumable_open : (status : RunStatus) → is_resumable status ≡ true → is_terminal status ≡ false
resumable_open status h = ground arith

stale_active : (now : ℕ) (r : Run) → is_stale now r ≡ true → is_active r.status ≡ true
stale_active now r h = ground arith

Step-AnsweredOnce :
    (base : ℕ) {b : Backend} {resolve : Resolver} {s s' : Store}
    → Step b resolve s s'
    → LeaseFits s.run
    → AnsweredOnce base s
    → AnsweredOnce base s'
Step-AnsweredOnce base {b} {resolve} {s} {s'} (load now user_id h) w a =
    elim (load_shape b now resolve user_id s h) [
      | inl same ↦ rw same a
      | inr (r, is, asked, stale, rows) ↦
          still_open base s s' is (active_open _ (stale_active now r stale))
            (ap (λ (t : Store). t.assistant) rows) (ap (λ (t : Store). t.message_count) rows) a
    ]
Step-AnsweredOnce base {b} {resolve} {s} {s'} (claim now q h) w a =
    let (r, is, shape) = claim_shape b now resolve q s h in
    elim shape [
      | replays _ same ↦ rw same a
      | resumes free rows ↦
          still_open base s s' is (resumable_open _ free) (ap (λ (t : Store). t.assistant) rows)
            (ap (λ (t : Store). t.message_count) rows) a
      | parks asked busy _ rows ↦
          still_open base s s' is (active_open _ busy) (ap (λ (t : Store). t.assistant) rows)
            (ap (λ (t : Store). t.message_count) rows) a
      | takes_over asked busy _ rows ↦
          still_open base s s' is (active_open _ busy) (ap (λ (t : Store). t.assistant) rows)
            (ap (λ (t : Store). t.message_count) rows) a
    ]
Step-AnsweredOnce base {s} (interrupt now user_id reason h) w a =
    interrupt-AnsweredOnce base now user_id reason s h a
Step-AnsweredOnce base {s} (renew now user_id token lease h) w a =
    rw (← h) (kept-AnsweredOnce base (renew_ended now user_id token lease s) a)
Step-AnsweredOnce base {s} (heartbeat now user_id token lease h) w a =
    kept-AnsweredOnce base (heartbeat_ended now user_id token lease s h) a
Step-AnsweredOnce base {s} (give_up now user_id token reason h) w a =
    rw (← h) (give_up-AnsweredOnce base now user_id token reason s w a)
Step-AnsweredOnce base {s} (finish now user_id token n e _ h) w a =
    rw (← h) (finish-AnsweredOnce base now user_id token n e s w a)
Step-AnsweredOnce base {b} {s} (commit now q t h) w a =
    let (r, row, payload, is, fence, _, _, rows, _, _) = commit_shape b now q s h in
    rw rows (
      committed-AnsweredOnce base now q r row payload s t is
        (check_fence_active now q r fence (rw is at w)) a)

-- From rows that fit and hold no answer, after any sequence of transactions the session has
-- counted one more message if there is an answer and none more if there is none, and a run with
-- an answer has a terminal status.
pub answered_once :
    {b : Backend} {resolve : Resolver} {s s' : Store}
    → ((st : RunState) → is_active (resolve st).0 ≡ false)
    → Trace b resolve s s'
    → LeaseFits s.run
    → s.assistant ≡ none
    → AnsweredOnce s.message_count s'
answered_once {s} quiet here w none_yet = unanswered s.message_count s (none_yet, refl)
answered_once {s} quiet (next t st) w none_yet =
    Step-AnsweredOnce s.message_count st (Trace-LeaseFits quiet t w)
      (answered_once quiet t w none_yet)
