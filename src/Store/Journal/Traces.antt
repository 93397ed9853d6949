-- ===== src/Store/Journal/Traces.antt =====
-- The journal invariant over sequences of transactions.
use agent_backend.Prelude.{ℕ, ◌≡◌, refl, inl, inr, some}
use agent_backend.Store.{Store, Run, RunState}
use agent_backend.Store.Rows.{Backend}
use agent_backend.Store.Claim.{Resolver, ClaimRequest, recovered, started_rows}
use agent_backend.Store.Shapes.{
  load_shape, claim_shape, commit_shape, replays, resumes, parks, takes_over, rows_recovered,
}
use agent_backend.Store.Steps.{
  Step, load, claim, interrupt, renew, heartbeat, give_up, finish, commit, Trace, here, next,
}
use agent_backend.Store.Journal.{
  JournalFits, CommitsDistinct, interrupt-SameRevision, renew-SameRevision, heartbeat-SameRevision,
  give_up-SameRevision, recovered-JournalFits, started-JournalFits, same_rows-JournalFits,
  interrupt_rows, renew_rows, heartbeat_rows, give_up_rows, finish-JournalFits,
  committed-JournalFits,
}

takeover-JournalFits :
    (now : ℕ) (resolve : Resolver) (q : ClaimRequest) (asked : RunState) (r : Run) (s : Store)
    → s.run ≡ some r
    → JournalFits s
    → JournalFits (
        started_rows now q
          (recovered now (resolve asked).0 (resolve asked).1 r)
          (rows_recovered now resolve asked r s))
takeover-JournalFits now resolve q asked r s is j =
    started-JournalFits now q (recovered now (resolve asked).0 (resolve asked).1 r)
      (rows_recovered now resolve asked r s) refl (recovered-JournalFits now resolve asked r s is j)

Step-JournalFits :
    {b : Backend} {resolve : Resolver} {s s' : Store} (st : Step b resolve s s')
    → CommitsDistinct st
    → JournalFits s
    → JournalFits s'
Step-JournalFits {b} {resolve} {s} (load now user_id h) d j =
    elim (load_shape b now resolve user_id s h) [
      | inl same ↦ rw same j
      | inr (r, is, asked, stale, rows) ↦ rw rows (recovered-JournalFits now resolve asked r s is j)
    ]
Step-JournalFits {b} {resolve} {s} (claim now q h) d j =
    let (r, is, shape) = claim_shape b now resolve q s h in
    elim shape [
      | replays _ same ↦ rw same j
      | resumes free rows ↦ rw rows (started-JournalFits now q r s is j)
      | parks asked busy _ rows ↦ rw rows (recovered-JournalFits now resolve asked r s is j)
      | takes_over asked busy _ rows ↦ rw rows (takeover-JournalFits now resolve q asked r s is j)
    ]
Step-JournalFits {s} {s'} (interrupt now user_id reason h) d j =
    let (e, f) = interrupt_rows now user_id reason s h in
    same_rows-JournalFits s s' e f (interrupt-SameRevision now user_id reason s h j.revision) j
Step-JournalFits {s} (renew now user_id token lease h) d j =
    let (e, f) = renew_rows now user_id token lease s in
    rw (← h)
      (same_rows-JournalFits s _ e f (renew-SameRevision now user_id token lease s j.revision) j)
Step-JournalFits {s} {s'} (heartbeat now user_id token lease h) d j =
    let (e, f) = heartbeat_rows now user_id token lease s h in
    same_rows-JournalFits s s' e f (heartbeat-SameRevision now user_id token lease s h j.revision) j
Step-JournalFits {s} (give_up now user_id token reason h) d j =
    let (e, f) = give_up_rows now user_id token reason s in
    rw (← h)
      (same_rows-JournalFits s _ e f (give_up-SameRevision now user_id token reason s j.revision) j)
Step-JournalFits {s} (finish now user_id token k e _ h) d j =
    rw (← h) (finish-JournalFits now user_id token k e s j)
Step-JournalFits {b} {s} (commit now q _ h) d j =
    let (r, row, payload, is, _, _, _, rows, _, _) = commit_shape b now q s h in
    rw rows (committed-JournalFits now q r row payload s d j)

abbrev AllDistinct :
    {b : Backend} {resolve : Resolver} {s s' : Store} → Trace b resolve s s' → Type 0
AllDistinct here = Unit
AllDistinct (next before st) = AllDistinct before × CommitsDistinct st

-- If each commit brings steps with distinct indices, every sequence of transactions keeps the
-- journal: the run's revision column is that of the checkpoint's row, no step index has two rows,
-- and the attempts are numbered 1, 2, 3, … in the order in which they were made.
pub Trace-JournalFits :
    {b : Backend} {resolve : Resolver} {s s' : Store} (t : Trace b resolve s s')
    → AllDistinct t
    → JournalFits s
    → JournalFits s'
Trace-JournalFits here d j = j
Trace-JournalFits (next before st) d j = Step-JournalFits st d.1 (Trace-JournalFits before d.0 j)
