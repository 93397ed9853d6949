-- ===== src/Store/Fence.antt =====
-- Fencing: an executor whose token is no longer in the run's row can write nothing any more,
-- whatever happens in between, as long as no claim hands its token out again.
use agent_backend.Store.Shapes.{
  takes_over, parks, resumes, replays, claim_shape, load_shape, commit_shape,
}
use agent_backend.Store.Steps.{
  commit, finish, give_up, heartbeat, renew, interrupt, claim, here, load, IssuesOther, next, Trace,
  Step,
}
use agent_backend.Store.Control.{
  ControlResult, Ending, mark_run_recovery_required, request_run_interrupt, finish_managed_attempt,
  renew_managed_lease, heartbeat_managed_run,
}
use agent_backend.Store.Claim.{started_rows, Resolver, ClaimRequest, recovered}
use agent_backend.Store.Rows.{opt_str_eq-some, Backend}
use agent_backend.Store.Commit.{
  commit_managed_state, CommitResult, CommitRequest, committed_rows, check_fence,
}
use agent_backend.Prelude.{inr, inl, ok, arith, none, ◌≢◌, some, Option, ℕ, String, ◌≡◌}
use agent_backend.Store.{Fields, CheckpointRow, RunStatus, Run, Store}

-- The token is not the one in the run's row.
abbrev pub NotHeld : String → Option Run → Type 0
NotHeld t none = Unit
NotHeld t (some r) = r.lease_token ≢ some t

-- A sequence none of whose claims hands out `t`, as `uuid7_unique_str_id` guarantees of a token
-- that was handed out before.
abbrev Spares :
    {b : Backend} {resolve : Resolver} {s s' : Store} → String → Trace b resolve s s' → Type 0
Spares t here = Unit
Spares t (next before st) = Spares t before × IssuesOther t st

interrupt-NotHeld :
    (t : String) (now : ℕ) (user_id : String) (reason : Option String) (s : Store)
    {status : RunStatus} {s' : Store}
    → request_run_interrupt now user_id reason s ≡ ok (status, s')
    → NotHeld t s.run
    → NotHeld t s'.run
unfolding request_run_interrupt
interrupt-NotHeld t now user_id reason s h n = ground arith

renew-NotHeld :
    (t : String) (now : ℕ) (user_id token : String) (lease : ℕ) (s : Store)
    → NotHeld t s.run
    → NotHeld t (renew_managed_lease now user_id token lease s).1.run
unfolding renew_managed_lease
renew-NotHeld t now user_id token lease s n = ground arith

heartbeat-NotHeld :
    (t : String) (now : ℕ) (user_id token : String) (lease : ℕ) (s : Store) {result : ControlResult}
    {s' : Store}
    → heartbeat_managed_run now user_id token lease s ≡ ok (result, s')
    → NotHeld t s.run
    → NotHeld t s'.run
unfolding heartbeat_managed_run
heartbeat-NotHeld t now user_id token lease s h n = ground arith

give_up-NotHeld :
    (t : String) (now : ℕ) (user_id token reason : String) (s : Store)
    → NotHeld t s.run
    → NotHeld t (mark_run_recovery_required now user_id token reason s).run
unfolding mark_run_recovery_required
give_up-NotHeld t now user_id token reason s n = ground arith

finish-NotHeld :
    (t : String) (now : ℕ) (user_id token : String) (k : ℕ) (e : Ending) (s : Store)
    → NotHeld t s.run
    → NotHeld t (finish_managed_attempt now user_id token k e s).run
unfolding finish_managed_attempt
finish-NotHeld t now user_id token k e s n = ground arith

commit-NotHeld :
    (t : String) (now : ℕ) (q : CommitRequest) (r : Run) (row : CheckpointRow) (payload : Fields)
    (s : Store)
    → NotHeld t (some r)
    → NotHeld t (committed_rows now q r row payload s).run
unfolding committed_rows
commit-NotHeld t now q r row payload s n = ground arith

recovered-NotHeld :
    (t : String) (now : ℕ) (status : RunStatus) (reason : Option String) (r : Run)
    → NotHeld t (some (recovered now status reason r))
unfolding recovered
recovered-NotHeld t now status reason r h = cc

started-NotHeld :
    (t : String) (now : ℕ) (q : ClaimRequest) (r : Run) (s : Store)
    → q.token ≢ t
    → NotHeld t (started_rows now q r s).run
started-NotHeld t now q r s other h = other (cc h)

Step-NotHeld :
    (t : String) {b : Backend} {resolve : Resolver} {s s' : Store} (st : Step b resolve s s')
    → IssuesOther t st
    → NotHeld t s.run
    → NotHeld t s'.run
Step-NotHeld t {b} {resolve} {s} (load now user_id h) other n =
    elim (load_shape b now resolve user_id s h) [
      | inl same ↦ rw same n
      | inr (r, is, asked, stale, rows) ↦ rw rows (recovered-NotHeld t now _ _ r)
    ]
Step-NotHeld t {b} {resolve} {s} (claim now q h) other n =
    let (r, is, shape) = claim_shape b now resolve q s h in
    elim shape [
      | replays _ same ↦ rw same n
      | resumes free rows ↦ rw rows (started-NotHeld t now q r s other)
      | parks asked busy _ rows ↦ rw rows (recovered-NotHeld t now _ _ r)
      | takes_over asked busy _ rows ↦ rw rows (started-NotHeld t now q r s other)
    ]
Step-NotHeld t {s} (interrupt now user_id reason h) other n =
    interrupt-NotHeld t now user_id reason s h n
Step-NotHeld t {s} (renew now user_id token lease h) other n =
    rw (← h) (renew-NotHeld t now user_id token lease s n)
Step-NotHeld t {s} (heartbeat now user_id token lease h) other n =
    heartbeat-NotHeld t now user_id token lease s h n
Step-NotHeld t {s} (give_up now user_id token reason h) other n =
    rw (← h) (give_up-NotHeld t now user_id token reason s n)
Step-NotHeld t {s} (finish now user_id token k e _ h) other n =
    rw (← h) (finish-NotHeld t now user_id token k e s n)
Step-NotHeld t {b} {s} (commit now q _ h) other n =
    let (r, row, payload, is, _, _, _, rows, _, _) = commit_shape b now q s h in
    rw rows (commit-NotHeld t now q r row payload s (rw is at n))

Trace-NotHeld :
    (t : String) {b : Backend} {resolve : Resolver} {s s' : Store} (tr : Trace b resolve s s')
    → Spares t tr
    → NotHeld t s.run
    → NotHeld t s'.run
Trace-NotHeld t here spares n = n
Trace-NotHeld t (next before st) spares n =
    Step-NotHeld t st spares.1 (Trace-NotHeld t before spares.0 n)

fence_refuses :
    (t : String) (now : ℕ) (q : CommitRequest) (r : Run)
    → q.token ≡ t
    → NotHeld t (some r)
    → check_fence now q r ≢ ok tt
unfolding check_fence
fence_refuses t now q r e n h = ground (arith, opt_str_eq-some r.lease_token q.token)

-- A token that the row does not hold is refused by every later commit: after any sequence of
-- transactions that hands it to nobody, no commit with it goes through, with any content.
pub fenced_out :
    (t : String) {b : Backend} {resolve : Resolver} {s s' : Store} (tr : Trace b resolve s s')
    → Spares t tr
    → NotHeld t s.run
    → (now : ℕ) (q : CommitRequest) (result : CommitResult) (s'' : Store) → q.token ≡ t
    → commit_managed_state b now q s' ≢ ok (result, s'')
fenced_out t {b} {s' = s'} tr spares n now q result s'' e h =
    let (r, _, _, is, fence, _, _, _, _, _) = commit_shape b now q s' h in
    fence_refuses t now q r e (rw is at (Trace-NotHeld t tr spares n)) fence
