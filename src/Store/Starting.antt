-- ===== src/Store/Starting.antt =====
-- The rows that a claim leaves, by columns, and when a claim can start an attempt.
use agent_backend.Prelude.{
  ℕ, ◌+◌, ◌≤◌, ◌<◌, ◌≡◌, refl, sym, ap, ◌∙◌, ◌⊎◌, inl, inr, true, false, Option, none, some, List,
  [], ◌∷◌, ◌++◌, All, arith, is_none, ok,
}
use agent_backend.Checkpoint.{Checkpoint}
use agent_backend.Store.{
  Store, Run, RunStatus, Attempt, running, interrupted, is_active, is_resumable,
}
use agent_backend.Store.Rows.{Backend, lease_alive, decoded, attempt_by_key, max_attempt_no}
use agent_backend.Store.Claim.{
  Resolver, ClaimRequest, claim_managed_run, started_rows, leased, new_attempt, next_attempt_no,
  start_attempt, recovered, recover_stale_run,
}
use agent_backend.Store.Totals.{owned_found, build_run_state_total}

-- The least number from one on that is above those of all the attempts.
abbrev pub IsNext : ℕ → List Attempt → Type 0
IsNext n attempts =
    (1 ≤ n)
    × All (λ a. a.attempt_no < n) attempts
    × ((k : ℕ) → 1 ≤ k → All (λ a. a.attempt_no < k) attempts → n ≤ k)

-- The rows after a claim: the run is running under the request's token for the time of its lease,
-- with no interrupt left, one open attempt was added for the request's key with the next number, and
-- the checkpoint, the steps, the answer and the count of messages are as before.
pub record Started (now : ℕ) (q : ClaimRequest) (s s' : Store) (n : ℕ) : Type 0 where
  pub is_leased :
      (r : Run) × (s'.run ≡ some r)
      × (r.status ≡ running)
      × (r.lease_token ≡ some q.token)
      × (r.lease_expires_at ≡ some (now + q.lease))
      × (r.interrupt_requested_at ≡ none)
      × (r.interrupted_at ≡ none)
  pub has_attempt :
      (a : Attempt) × (s'.attempts ≡ s.attempts ++ (a ∷ []))
      × (a.attempt_no ≡ n)
      × (a.request_key ≡ q.request_key)
      × (a.request_digest ≡ q.request_digest)
      × (a.user_id ≡ q.user_id)
      × (a.status ≡ running)
      × (a.started_at ≡ now)
      × (a.ended_at ≡ none)
  pub numbered : IsNext n s.attempts
  pub kept :
      (s'.checkpoint ≡ s.checkpoint)
      × (s'.steps ≡ s.steps)
      × (s'.assistant ≡ s.assistant)
      × (s'.message_count ≡ s.message_count)

above_max :
    (n : ℕ) (attempts : List Attempt)
    → max_attempt_no attempts < n
    → All (λ a. a.attempt_no < n) attempts
above_max n [] h = tt
above_max n (a ∷ rest) h = (ground arith, above_max n rest (ground arith))

max_below :
    (k : ℕ) (attempts : List Attempt)
    → 1 ≤ k
    → All (λ a. a.attempt_no < k) attempts
    → max_attempt_no attempts < k
max_below k [] room h = omega (arith, room)
max_below k (a ∷ rest) room (here, later) = let more = max_below k rest room later in ground arith

next_attempt_no-IsNext : (s : Store) → IsNext (next_attempt_no s) s.attempts
next_attempt_no-IsNext s = (
  omega arith,
  above_max (max_attempt_no s.attempts + 1) s.attempts (omega arith),
  λ k room h. let below = max_below k s.attempts room h in omega (arith, below),
)

pub started_rows-Started :
    (now : ℕ) (q : ClaimRequest) (r : Run) (s : Store)
    → Started now q s (started_rows now q r s) (next_attempt_no s)
started_rows-Started now q r s = record {
  is_leased = (leased now q r, refl, refl, refl, refl, refl, refl);
  has_attempt =
      (new_attempt now q (next_attempt_no s), refl, refl, refl, refl, refl, refl, refl, refl);
  numbered = next_attempt_no-IsNext s;
  kept = (refl, refl, refl, refl);
}

-- What a claim needs of the run: it is ready or interrupted, or its executor has let the lease run out
-- and the resolver, asked with the run and its checkpoint, says that it was interrupted.
abbrev pub CanStart : ℕ → Resolver → Option Checkpoint → Run → Type 0
CanStart now resolve c r =
    (is_resumable r.status ≡ true)
    ⊎ ((is_active r.status ≡ true)
        × (lease_alive r.lease_expires_at now ≡ false)
        × ((resolve (record { run = r; attempt_no = 0; checkpoint = c })).0 ≡ interrupted))

active_not_resumable : (status : RunStatus) → is_active status ≡ true → is_resumable status ≡ false
active_not_resumable status h = ground arith

-- A stale run that the resolver takes for interrupted is claimed as the interrupted run that it becomes.
claim_stale :
    (b : Backend) (now : ℕ) (resolve : Resolver) (q : ClaimRequest) (s : Store) (r : Run)
    {c : Option Checkpoint}
    → s.run ≡ some r
    → r.user_id ≡ q.user_id
    → is_none r.execution_version ≡ false
    → is_active r.status ≡ true
    → lease_alive r.lease_expires_at now ≡ false
    → (resolve (record { run = r; attempt_no = 0; checkpoint = c })).0 ≡ interrupted
    → attempt_by_key q.request_key s.attempts ≡ none
    → decoded b s.checkpoint ≡ ok c
    → (r' : Run) × (r'.user_id ≡ q.user_id)
      × (is_none r'.execution_version ≡ false)
      × (is_resumable r'.status ≡ true)
      × (claim_managed_run b now resolve q s
          ≡ start_attempt b now q r' (record s { run = some r' }))
unfolding claim_managed_run recover_stale_run recovered
claim_stale b now resolve q s r {c} is own managed busy dead judged new read =
    let verdict = resolve (record { run = r; attempt_no = 0; checkpoint = c }) in
    let r' = recovered now verdict.0 verdict.1 r in
    (
      r',
      own,
      managed,
      ap is_resumable judged,
      rw (owned_found q.user_id s.run r is own) (
          rw (managed, new)
            (rw (active_not_resumable r.status busy) (
              rw busy (
                rw dead (
                  rw (build_run_state_total b r 0 s read) (
                    rw (build_run_state_total b r' 0 (record s { run = some r' }) read)
                      (rw judged refl))))))),
    )

-- A claim of a resumable run with a new key starts an attempt.
claim_started :
    (b : Backend) (now : ℕ) (resolve : Resolver) (q : ClaimRequest) (s : Store) (r : Run)
    → s.run ≡ some r
    → r.user_id ≡ q.user_id
    → is_none r.execution_version ≡ false
    → is_resumable r.status ≡ true
    → attempt_by_key q.request_key s.attempts ≡ none
    → claim_managed_run b now resolve q s ≡ start_attempt b now q r s
unfolding claim_managed_run
claim_started b now resolve q s r is own managed free new =
    rw (owned_found q.user_id s.run r is own) (rw (managed, new) (rw free refl))

-- A claim that can start does what the claim of a resumable run does at the same rows.
pub claim_resumable :
    (b : Backend) (now : ℕ) (resolve : Resolver) (q : ClaimRequest) (s : Store) (r : Run)
    {c : Option Checkpoint}
    → s.run ≡ some r
    → r.user_id ≡ q.user_id
    → is_none r.execution_version ≡ false
    → CanStart now resolve c r
    → attempt_by_key q.request_key s.attempts ≡ none
    → decoded b s.checkpoint ≡ ok c
    → (r' : Run) × (r'.user_id ≡ q.user_id)
      × (is_none r'.execution_version ≡ false)
      × (is_resumable r'.status ≡ true)
      × (claim_managed_run b now resolve q s
          ≡ claim_managed_run b now resolve q (record s { run = some r' }))
unfolding start_attempt
claim_resumable b now resolve q s r is own managed (inl free) new read = (
  r,
  own,
  managed,
  free,
  claim_started b now resolve q s r is own managed free new
      ∙ sym (claim_started b now resolve q (record s { run = some r }) r refl own managed free new),
)
claim_resumable b now resolve q s r is own managed (inr (busy, dead, judged)) new read =
    let (r', own', managed', free, same) =
      claim_stale b now resolve q s r is own managed busy dead judged new read in
    (
      r',
      own',
      managed',
      free,
      same
          ∙ sym (
              claim_started b now resolve q (record s { run = some r' }) r' refl own' managed' free
                new),
    )
