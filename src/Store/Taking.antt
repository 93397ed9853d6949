-- ===== src/Store/Taking.antt =====
-- What a claim that goes through does: what it hands out, and what other claims then get.
use agent_backend.Prelude.{
  ℕ, ◌+◌, ◌<◌, String, ◌≡◌, ◌≢◌, refl, sym, ◌∙◌, inl, inr, true, false, Option, none, some, List,
  [], ◌∷◌, ◌++◌, arith, str_eq, eq_iff, is_none, Bool-cases, ok, err, app, agent_run_state_conflict,
}
use agent_backend.Checkpoint.{Checkpoint}
use agent_backend.Store.{Store, Run, Attempt, running}
use agent_backend.Store.Rows.{Backend, lease_alive, decoded, attempt_by_key}
use agent_backend.Store.Claim.{
  Resolver, ClaimRequest, claim_managed_run, started_rows, leased, new_attempt, next_attempt_no,
}
use agent_backend.Store.Totals.{owned_found, claim_rows}
use agent_backend.Store.Starting.{Started, CanStart, started_rows-Started, claim_resumable}

-- A claim by the user with a new key of a managed run that is ready or interrupted, or whose lease has run
-- out and which the resolver takes for interrupted, goes through if the checkpoint row decodes: it hands out the stored checkpoint and the request's token with the next attempt's number,
-- and leaves the run running under that token until the lease ends, with that attempt open. The same key
-- and digest again, at any time, return the same attempt and checkpoint without a token, as a replay, and
-- change no row.
pub claim_again :
    (b : Backend) (now later : ℕ) (resolve : Resolver) (q q' : ClaimRequest) (s : Store) (r : Run)
    {c : Option Checkpoint}
    → s.run ≡ some r
    → r.user_id ≡ q.user_id
    → is_none r.execution_version ≡ false
    → CanStart now resolve c r
    → attempt_by_key q.request_key s.attempts ≡ none
    → decoded b s.checkpoint ≡ ok c
    → q'.user_id ≡ q.user_id
    → q'.request_key ≡ q.request_key
    → q'.request_digest ≡ q.request_digest
    → (n : ℕ) × (s' : Store) × (claim_managed_run b now resolve q s
        ≡ ok (
          record {
            status = running;
            attempt_no = n;
            checkpoint = c;
            lease_token = some q.token;
            replayed = false;
          },
          s',
        ))
      × Started now q s s' n
      × (claim_managed_run b later resolve q' s'
          ≡ ok (
            record {
              status = running;
              attempt_no = n;
              checkpoint = c;
              lease_token = none;
              replayed = true;
            },
            s',
          ))
claim_again b now later resolve q q' s r is own managed can new read u k d =
    let (r', own', managed', free, same) =
      claim_resumable b now resolve q s r is own managed can new read in
    let s₁ = record s { run = some r' } in
    let (first, again) =
      claim_rows b now later resolve q q' s₁ r' refl own' managed' free new read u k d in
    (
      next_attempt_no s,
      started_rows now q r' s₁,
      same ∙ first,
      started_rows-Started now q r' s,
      again,
    )

by_key-other :
    (key : String) (xs : List Attempt) (a : Attempt)
    → attempt_by_key key xs ≡ none
    → a.request_key ≢ key
    → attempt_by_key key (xs ++ a ∷ []) ≡ none
by_key-other key [] a h differ = ground (arith, differ, (eq_iff a.request_key key).0)
by_key-other key (x ∷ xs) a h differ = elim (Bool-cases (str_eq x.request_key key)) [
  | inl f ↦ cc (rw f at h)
  | inr f ↦ rw f (by_key-other key xs a (rw f at h) differ)
]

lease_open : (later t : ℕ) → later < t → lease_alive (some t) later ≡ true
lease_open later t h = ground arith

-- While its lease is alive, an active run is not claimed with a new key.
claim_leased :
    (b : Backend) (later : ℕ) (resolve : Resolver) (q : ClaimRequest) (s : Store) (r : Run)
    → s.run ≡ some r
    → r.user_id ≡ q.user_id
    → is_none r.execution_version ≡ false
    → r.status ≡ running
    → lease_alive r.lease_expires_at later ≡ true
    → attempt_by_key q.request_key s.attempts ≡ none
    → claim_managed_run b later resolve q s ≡ err (app agent_run_state_conflict)
unfolding claim_managed_run
claim_leased b later resolve q s r is own managed busy alive new =
    rw (owned_found q.user_id s.run r is own) (rw (managed, new) (rw busy (rw alive refl)))

-- A claim by the user with a new key of a managed run that is ready or interrupted, or whose lease has run
-- out and which the resolver takes for interrupted, goes through if the checkpoint row decodes, and shuts
-- out other executors until its lease ends: on the rows that it leaves, a claim by the same user with
-- another new key, before the time of the lease is over, is refused with the state conflict.
pub claim_excludes :
    (b : Backend) (now later : ℕ) (resolve : Resolver) (q q' : ClaimRequest) (s : Store) (r : Run)
    {c : Option Checkpoint}
    → s.run ≡ some r
    → r.user_id ≡ q.user_id
    → is_none r.execution_version ≡ false
    → CanStart now resolve c r
    → attempt_by_key q.request_key s.attempts ≡ none
    → decoded b s.checkpoint ≡ ok c
    → q'.user_id ≡ q.user_id
    → q.request_key ≢ q'.request_key
    → attempt_by_key q'.request_key s.attempts ≡ none
    → later < now + q.lease
    → (n : ℕ) × (s' : Store) × (claim_managed_run b now resolve q s
        ≡ ok (
          record {
            status = running;
            attempt_no = n;
            checkpoint = c;
            lease_token = some q.token;
            replayed = false;
          },
          s',
        ))
      × Started now q s s' n
      × (claim_managed_run b later resolve q' s' ≡ err (app agent_run_state_conflict))
claim_excludes b now later resolve q q' s r is own managed can new read u differ new' soon =
    let (r', own', managed', free, same) =
      claim_resumable b now resolve q s r is own managed can new read in
    let s₁ = record s { run = some r' } in
    let (first, _) =
      claim_rows b now later resolve q q s₁ r' refl own' managed' free new read refl refl refl in
    (
      next_attempt_no s,
      started_rows now q r' s₁,
      same ∙ first,
      started_rows-Started now q r' s,
      claim_leased b later resolve q' (started_rows now q r' s₁) (leased now q r') refl
          (own' ∙ sym u) managed' refl (lease_open later (now + q.lease) soon)
          (by_key-other q'.request_key s.attempts (new_attempt now q (next_attempt_no s)) new'
            differ),
    )
