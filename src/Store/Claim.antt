-- ===== src/Store/Claim.antt =====
-- Loading and claiming a managed run: `load_managed_run`,
-- `_recover_stale_run` and `claim_managed_run` of internal/services/agents/conversation.py.
use agent_backend.Prelude.{
  ℕ, ◌+◌, String, Bool, true, false, not, ◌&&◌, Option, none, some, [], ◌∷◌, ◌++◌, pos, str_eq,
  if◌then◌else◌, Result, ok, err, app, agent_resume_unsafe, agent_run_state_conflict,
  idempotency_conflict, ◌>>=◌, ◌>>◌, raise_if, is_some, is_none,
}
use agent_backend.Checkpoint.{Checkpoint}
use agent_backend.Store.{
  Store, Run, RunStatus, RunState, Attempt, running, is_active, is_resumable, is_interrupted,
  is_recovery_required,
}
use agent_backend.Store.Rows.{
  Backend, find_run, require_run, build_run_state, attempt_by_key, max_attempt_no,
  latest_attempt_no, lease_alive,
}

-- The `StaleRunResolver` that the execution service passes in.
abbrev pub Resolver : Type 0
Resolver = RunState → RunStatus × Option String

abbrev when {ℓ} : {A : Type ℓ} → Bool → A → Option A
when true a = some a
when false a = none

-- The update of `_recover_stale_run`.
unfoldable pub recovered : ℕ → RunStatus → Option String → Run → Run
recovered now status reason r = record r {
  status = status;
  lease_token = none;
  lease_expires_at = none;
  interrupted_at = when (is_interrupted status) now;
  interrupt_requested_at = none;
  interrupt_reason = reason;
  error_code = when (is_recovery_required status) "recovery_required";
  error_message = if is_recovery_required status then reason else none;
}

-- `_recover_stale_run`, which the caller enters with the run's row locked.
unfoldable pub recover_stale_run : Backend → ℕ → Resolver → Run → Store → Result (RunState × Store)
recover_stale_run b now resolve r s = do
  state ← build_run_state b r 0 s
  let r' = recovered now (resolve state).0 (resolve state).1 r
  state' ← build_run_state b r' 0 (record s { run = some r' })
  ok (state', record s { run = some r' })

-- The condition under which `load_managed_run` recovers.
abbrev pub is_stale : ℕ → Run → Bool
is_stale now r =
    is_some r.execution_version && (is_active r.status && not (lease_alive r.lease_expires_at now))

abbrev pub load_found :
    Backend → ℕ → Option Resolver → String → Run → Store → Result (Option RunState × Store)
load_found b now none user_id r s = do
  state ← build_run_state b r (latest_attempt_no user_id s.attempts) s
  ok (some state, s)
load_found b now (some resolve) user_id r s =
    if is_stale now r
    then (do
      recovery ← recover_stale_run b now resolve r s
      state ← build_run_state b recovery.0.run (latest_attempt_no user_id s.attempts) recovery.1
      ok (some state, recovery.1))
    else do state ← build_run_state b r (latest_attempt_no user_id s.attempts) s; ok (some state, s)

abbrev pub load_optional :
    Backend → ℕ → Option Resolver → String → Option Run → Store → Result (Option RunState × Store)
load_optional b now resolve user_id none s = ok (none, s)
load_optional b now resolve user_id (some r) s = load_found b now resolve user_id r s

-- `load_managed_run`
unfoldable pub load_managed_run :
    Backend → ℕ → Option Resolver → String → Store → Result (Option RunState × Store)
load_managed_run b now resolve user_id s =
    load_optional b now resolve user_id (find_run user_id s) s

-- AgentRunClaimDTO
pub record ClaimResult : Type 0 where
  pub status : RunStatus
  pub attempt_no : ℕ
  pub checkpoint : Option Checkpoint
  pub lease_token : Option String
  pub replayed : Bool

-- What a claim is asked with; `token` is the fresh `uuid7_unique_str_id()`.
pub record ClaimRequest : Type 0 where
  pub user_id : String
  pub request_key : String
  pub request_digest : String
  pub token : String
  pub lease : ℕ

abbrev pub new_attempt : ℕ → ClaimRequest → ℕ → Attempt
new_attempt now q attempt_no = record {
  user_id = q.user_id;
  attempt_no = attempt_no;
  request_key = q.request_key;
  request_digest = q.request_digest;
  status = running;
  started_at = now;
  ended_at = none;
  elapsed = pos 0;
}

-- The update that hands the lease to the new attempt.
abbrev pub leased : ℕ → ClaimRequest → Run → Run
leased now q r = record r {
  status = running;
  lease_token = some q.token;
  lease_expires_at = some (now + q.lease);
  interrupt_requested_at = none;
  interrupted_at = none;
}

-- The next attempt's number.
abbrev pub next_attempt_no : Store → ℕ
next_attempt_no s = max_attempt_no s.attempts + 1

abbrev pub started_rows : ℕ → ClaimRequest → Run → Store → Store
started_rows now q r s = record s {
  attempts = s.attempts ++ new_attempt now q (next_attempt_no s) ∷ [];
  run = some (leased now q r);
}

-- The end of the claim's transaction: a new attempt, and the lease.
unfoldable pub start_attempt :
    Backend → ℕ → ClaimRequest → Run → Store → Result (ClaimResult × Store)
start_attempt b now q r s = do
  state ← build_run_state b (leased now q r) (next_attempt_no s) (started_rows now q r s)
  ok (
    record {
      status = running;
      attempt_no = next_attempt_no s;
      checkpoint = state.checkpoint;
      lease_token = some q.token;
      replayed = false;
    },
    started_rows now q r s,
  )

-- The same `request_key` again returns the state of its own attempt.
abbrev pub replay_attempt :
    Backend → ClaimRequest → Run → Attempt → Store → Result (ClaimResult × Store)
replay_attempt b q r a s = do
  raise_if (not (str_eq a.request_digest q.request_digest)) (app idempotency_conflict)
  state ← build_run_state b r a.attempt_no s
  ok (
    record {
      status = a.status;
      attempt_no = a.attempt_no;
      checkpoint = state.checkpoint;
      lease_token = none;
      replayed = true;
    },
    s,
  )

abbrev pub after_recovery :
    Backend → ℕ → ClaimRequest → RunState × Store → Result (ClaimResult × Store)
after_recovery b now q (state, s) =
    if is_interrupted state.run.status
    then start_attempt b now q state.run s
    else ok (
      record {
        status = state.run.status;
        attempt_no = 0;
        checkpoint = state.checkpoint;
        lease_token = none;
        replayed = false;
      },
      s,
    )

abbrev pub claim_new :
    Backend → ℕ → Resolver → ClaimRequest → Run → Store → Result (ClaimResult × Store)
claim_new b now resolve q r s =
    if is_resumable r.status
    then start_attempt b now q r s
    else if is_active r.status
    then (do
      raise_if (lease_alive r.lease_expires_at now) (app agent_run_state_conflict)
      recovery ← recover_stale_run b now resolve r s
      after_recovery b now q recovery)
    else err (app agent_run_state_conflict)

abbrev pub claim_keyed :
    Backend
    → ℕ
    → Resolver
    → ClaimRequest
    → Run
    → Option Attempt
    → Store
    → Result (ClaimResult × Store)
claim_keyed b now resolve q r (some a) s = replay_attempt b q r a s
claim_keyed b now resolve q r none s = claim_new b now resolve q r s

-- `claim_managed_run`
unfoldable pub claim_managed_run :
    Backend → ℕ → Resolver → ClaimRequest → Store → Result (ClaimResult × Store)
claim_managed_run b now resolve q s = do
  r ← require_run q.user_id s
  raise_if (is_none r.execution_version) (app agent_resume_unsafe)
  claim_keyed b now resolve q r (attempt_by_key q.request_key s.attempts) s
