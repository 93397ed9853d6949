-- ===== src/Store/Steps.antt =====
-- One transaction after another on the rows of a run, in any order and from any client: a step
-- relation, and the lease invariant that every step keeps.
use agent_backend.Prelude.{
  ◌≢◌, ℕ, String, ◌≡◌, inl, inr, refl, true, false, Option, none, some, arith, ok, is_some,
}
use agent_backend.Json.{Fields}
use agent_backend.Store.{
  is_terminal, Store, CheckpointRow, Run, RunStatus, RunState, running, interrupt_requested,
  is_active,
}
use agent_backend.Store.Rows.{Backend}
use agent_backend.Store.Claim.{
  Resolver, ClaimRequest, ClaimResult, load_managed_run, claim_managed_run, recovered,
}
use agent_backend.Store.Control.{
  ControlResult, Ending, request_run_interrupt, renew_managed_lease, heartbeat_managed_run,
  mark_run_recovery_required, finish_managed_attempt,
}
use agent_backend.Store.Shapes.{
  load_shape, claim_shape, commit_shape, replays, resumes, parks, takes_over,
}
use agent_backend.Store.Commit.{CommitRequest, CommitResult, commit_managed_state, committed_rows}

-- The lease goes with the active statuses: an active run has a token and an expiry, any other
-- run has neither.
abbrev LeaseOf : RunStatus → Option String → Option ℕ → Type 0
LeaseOf running token expiry = (is_some token ≡ true) × (is_some expiry ≡ true)
LeaseOf interrupt_requested token expiry = (is_some token ≡ true) × (is_some expiry ≡ true)
LeaseOf _ token expiry = (token ≡ none) × (expiry ≡ none)

abbrev pub LeaseFits : Option Run → Type 0
LeaseFits none = Unit
LeaseFits (some r) = LeaseOf r.status r.lease_token r.lease_expires_at

-- What the callers of the storage keep to: a final commit has a terminal status, and an attempt
-- ends in a status that is not active.
abbrev pub EndsRun : Option RunStatus → Type 0
EndsRun none = Unit
EndsRun (some status) = is_terminal status ≡ true

-- A step of the rows under a resolver. A transaction that raises leaves the rows as they were and
-- is no step.
pub data Step (b : Backend) (resolve : Resolver) (s : Store) (s' : Store) : Type 0 where
  load :
      (now : ℕ) (user_id : String) {state : Option RunState}
      → load_managed_run b now (some resolve) user_id s ≡ ok (state, s')
      → Step b resolve s s'
  claim :
      (now : ℕ) (q : ClaimRequest) {result : ClaimResult}
      → claim_managed_run b now resolve q s ≡ ok (result, s')
      → Step b resolve s s'
  interrupt :
      (now : ℕ) (user_id : String) (reason : Option String) {status : RunStatus}
      → request_run_interrupt now user_id reason s ≡ ok (status, s')
      → Step b resolve s s'
  renew :
      (now : ℕ) (user_id token : String) (lease : ℕ)
      → (renew_managed_lease now user_id token lease s).1 ≡ s'
      → Step b resolve s s'
  heartbeat :
      (now : ℕ) (user_id token : String) (lease : ℕ) {result : ControlResult}
      → heartbeat_managed_run now user_id token lease s ≡ ok (result, s')
      → Step b resolve s s'
  give_up :
      (now : ℕ) (user_id token reason : String)
      → mark_run_recovery_required now user_id token reason s ≡ s'
      → Step b resolve s s'
  finish :
      (now : ℕ) (user_id token : String) (attempt_no : ℕ) (e : Ending)
      → is_active e.status ≡ false
      → finish_managed_attempt now user_id token attempt_no e s ≡ s'
      → Step b resolve s s'
  commit :
      (now : ℕ) (q : CommitRequest) {result : CommitResult}
      → EndsRun q.terminal
      → commit_managed_state b now q s ≡ ok (result, s')
      → Step b resolve s s'

interrupt-LeaseFits :
    (now : ℕ) (user_id : String) (reason : Option String) (s : Store) {status : RunStatus}
    {s' : Store}
    → request_run_interrupt now user_id reason s ≡ ok (status, s')
    → LeaseFits s.run
    → LeaseFits s'.run
unfolding request_run_interrupt
interrupt-LeaseFits now user_id reason s h w = ground arith

renew-LeaseFits :
    (now : ℕ) (user_id token : String) (lease : ℕ) (s : Store)
    → LeaseFits s.run
    → LeaseFits (renew_managed_lease now user_id token lease s).1.run
unfolding renew_managed_lease
renew-LeaseFits now user_id token lease s w = ground arith

finish-LeaseFits :
    (now : ℕ) (user_id token : String) (n : ℕ) (e : Ending) (s : Store)
    → is_active e.status ≡ false
    → LeaseFits s.run
    → LeaseFits (finish_managed_attempt now user_id token n e s).run
unfolding finish_managed_attempt
finish-LeaseFits now user_id token n e s a w = ground arith

committed_rows-LeaseFits :
    (now : ℕ) (q : CommitRequest) (r : Run) (row : CheckpointRow) (payload : Fields) (s : Store)
    → EndsRun q.terminal
    → LeaseFits (some r)
    → LeaseFits (committed_rows now q r row payload s).run
unfolding committed_rows
committed_rows-LeaseFits now q r row payload s a w = ground arith

heartbeat-LeaseFits :
    (now : ℕ) (user_id token : String) (lease : ℕ) (s : Store) {result : ControlResult} {s' : Store}
    → heartbeat_managed_run now user_id token lease s ≡ ok (result, s')
    → LeaseFits s.run
    → LeaseFits s'.run
unfolding heartbeat_managed_run
heartbeat-LeaseFits now user_id token lease s h w = ground arith

give_up-LeaseFits :
    (now : ℕ) (user_id token reason : String) (s : Store)
    → LeaseFits s.run
    → LeaseFits (mark_run_recovery_required now user_id token reason s).run
unfolding mark_run_recovery_required
give_up-LeaseFits now user_id token reason s w = ground arith

recovered-LeaseFits :
    (now : ℕ) (status : RunStatus) (reason : Option String) (r : Run)
    → is_active status ≡ false
    → LeaseFits (some (recovered now status reason r))
unfolding recovered
recovered-LeaseFits now status reason r h = ground arith

-- The lease invariant is kept by every step, if the resolver never answers an active status.
pub Step-LeaseFits :
    {b : Backend} {resolve : Resolver} {s s' : Store}
    → ((st : RunState) → is_active (resolve st).0 ≡ false)
    → Step b resolve s s'
    → LeaseFits s.run
    → LeaseFits s'.run
Step-LeaseFits {b} {resolve} {s} quiet (load now user_id h) w =
    elim (load_shape b now resolve user_id s h) [
      | inl e ↦ rw e w
      | inr (r, _, asked, _, rows) ↦ rw rows (recovered-LeaseFits now _ _ r (quiet asked))
    ]
Step-LeaseFits {b} {resolve} {s} quiet (claim now q h) w =
    let (r, e, shape) = claim_shape b now resolve q s h in
    elim shape [
      | replays _ same ↦ rw same w
      | resumes _ rows ↦ rw rows (refl, refl)
      | parks asked _ _ rows ↦ rw rows (recovered-LeaseFits now _ _ r (quiet asked))
      | takes_over asked _ _ rows ↦ rw rows (refl, refl)
    ]
Step-LeaseFits {s} quiet (interrupt now user_id reason h) w =
    interrupt-LeaseFits now user_id reason s h w
Step-LeaseFits {s} quiet (renew now user_id token lease h) w =
    rw (← h) (renew-LeaseFits now user_id token lease s w)
Step-LeaseFits {s} quiet (heartbeat now user_id token lease h) w =
    heartbeat-LeaseFits now user_id token lease s h w
Step-LeaseFits {s} quiet (give_up now user_id token reason h) w =
    rw (← h) (give_up-LeaseFits now user_id token reason s w)
Step-LeaseFits {s} quiet (finish now user_id token n e a h) w =
    rw (← h) (finish-LeaseFits now user_id token n e s a w)
Step-LeaseFits {b} {s} quiet (commit now q a h) w =
    let (r, row, payload, e, _, _, _, rows, _, _) = commit_shape b now q s h in
    rw rows (committed_rows-LeaseFits now q r row payload s a (rw e at w))

-- A sequence of steps, none of whose claims hands out the token `t`.
abbrev pub IssuesOther :
    {b : Backend} {resolve : Resolver} {s s' : Store} → String → Step b resolve s s' → Type 0
IssuesOther t (claim now q h) = q.token ≢ t
IssuesOther t _ = Unit

pub data Trace (b : Backend) (resolve : Resolver) (s : Store) : Store → Type 0 where
  here : Trace b resolve s s
  next : {u v : Store} → Trace b resolve s u → Step b resolve u v → Trace b resolve s v

-- From rows that fit, every sequence of transactions keeps the lease invariant: a token and an
-- expiry stand in the run's row exactly while its status is `running` or `interrupt_requested`.
pub Trace-LeaseFits :
    {b : Backend} {resolve : Resolver} {s s' : Store}
    → ((st : RunState) → is_active (resolve st).0 ≡ false)
    → Trace b resolve s s'
    → LeaseFits s.run
    → LeaseFits s'.run
Trace-LeaseFits quiet here w = w
Trace-LeaseFits quiet (next t st) w = Step-LeaseFits quiet st (Trace-LeaseFits quiet t w)
