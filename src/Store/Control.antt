-- ===== src/Store/Control.antt =====
-- Interrupts, the lease and the end of an attempt: `request_run_interrupt`,
-- `renew_managed_lease`, `read_managed_control_state`, `heartbeat_managed_run`,
-- `mark_run_recovery_required` and `finish_managed_attempt` of
-- internal/services/agents/conversation.py.
use agent_backend.Prelude.{
  ℕ, ◌+◌, String, Bool, true, false, not, ◌&&◌, Option, none, some, List, [], ◌∷◌, ℤ, ◌+ℤ◌, ◌==◌,
  str_eq, if◌then◌else◌, Result, ok, err, app, agent_resume_unsafe, agent_run_state_conflict, ◌>>=◌,
  ◌>>◌, raise_if, is_none,
}
use agent_backend.Store.{
  Store, Run, RunStatus, Attempt, running, interrupt_requested, interrupted, recovery_required,
  is_active, is_terminal, is_interrupted, is_interrupt_requested,
}
use agent_backend.Store.Rows.{
  find_run, require_run, owns_lease, latest_attempt_no, attempt_by_no, revision_or_zero, truncate,
  elapsed_between, opt_str_eq,
}

-- The rest of `request_run_interrupt`, by the status that the run has.
abbrev interrupt_by_status :
    RunStatus → ℕ → Option String → Run → Store → Result (RunStatus × Store)
interrupt_by_status interrupt_requested now reason r s = ok (interrupt_requested, s)
interrupt_by_status interrupted now reason r s = ok (interrupted, s)
interrupt_by_status running now reason r s = ok (
  interrupt_requested,
  record s {
    run = some (record r {
      status = interrupt_requested;
      interrupt_requested_at = some now;
      interrupt_reason = reason;
    });
  },
)
interrupt_by_status _ now reason r s = err (app agent_run_state_conflict)

-- `request_run_interrupt`
unfoldable pub request_run_interrupt :
    ℕ → String → Option String → Store → Result (RunStatus × Store)
request_run_interrupt now user_id reason s = do
  r ← require_run user_id s
  raise_if (is_none r.execution_version) (app agent_resume_unsafe)
  interrupt_by_status r.status now reason r s

-- AgentRunControlDTO
pub record ControlResult : Type 0 where
  pub status : RunStatus
  pub revision : ℤ
  pub attempt_no : ℕ
  pub lease_owned : Bool
  pub interrupted : Bool

abbrev control_of : Run → ℕ → Bool → ControlResult
control_of r attempt_no lease_owned = record {
  status = r.status;
  revision = revision_or_zero r.checkpoint_revision;
  attempt_no = attempt_no;
  lease_owned = lease_owned;
  interrupted = is_interrupt_requested r.status;
}

-- `read_managed_control_state`, which reads only.
unfoldable pub read_managed_control_state : ℕ → String → String → Store → Result ControlResult
read_managed_control_state now user_id token s = do
  r ← require_run user_id s
  ok (control_of r (latest_attempt_no user_id s.attempts) (owns_lease r token now))

-- The condition of the two renewals: the token, an unexpired lease, and an active status.
abbrev may_renew : Run → String → ℕ → Bool
may_renew r token now = owns_lease r token now && is_active r.status

abbrev renewed : Run → ℕ → Run
renewed r expiry = record r { lease_expires_at = some expiry }

abbrev renew_row : Option Run → String → ℕ → ℕ → Store → Bool × Store
renew_row none token now lease s = (false, s)
renew_row (some r) token now lease s =
    if may_renew r token now
    then (true, record s { run = some (renewed r (now + lease)) })
    else (false, s)

-- `renew_managed_lease`: one conditional UPDATE, and whether it hit a row.
unfoldable pub renew_managed_lease : ℕ → String → String → ℕ → Store → Bool × Store
renew_managed_lease now user_id token lease s = renew_row (find_run user_id s) token now lease s

-- `heartbeat_managed_run`
unfoldable pub heartbeat_managed_run :
    ℕ → String → String → ℕ → Store → Result (ControlResult × Store)
heartbeat_managed_run now user_id token lease s = do
  r ← require_run user_id s
  ok (
    control_of r (latest_attempt_no user_id s.attempts) (may_renew r token now),
    if may_renew r token now then record s { run = some (renewed r (now + lease)) } else s,
  )

abbrev give_up_row : Option Run → String → ℕ → String → Store → Store
give_up_row none token now reason s = s
give_up_row (some r) token now reason s =
    if opt_str_eq r.lease_token (some token)
    then record s {
      run = some (record r {
        status = recovery_required;
        lease_token = none;
        lease_expires_at = none;
        ended_at = some now;
        error_code = some "recovery_required";
        error_message = some (truncate 2000 reason);
      });
    }
    else s

-- `mark_run_recovery_required`
unfoldable pub mark_run_recovery_required : ℕ → String → String → String → Store → Store
mark_run_recovery_required now user_id token reason s =
    give_up_row (find_run user_id s) token now reason s

-- How an attempt ended.
pub record Ending : Type 0 where
  pub status : RunStatus
  pub error_code : Option String
  pub error_message : Option String

abbrev pub end_attempt : ℕ → ℕ → RunStatus → List Attempt → List Attempt
end_attempt n now status [] = []
end_attempt n now status (a ∷ rest) =
    if a.attempt_no == n
    then record a {
      status = status;
      ended_at = some now;
      elapsed = elapsed_between a.started_at now;
    }
      ∷ rest
    else a ∷ end_attempt n now status rest

-- The open attempt's time is added to the run's.
abbrev pub add_elapsed : Option Attempt → ℕ → Run → Run
add_elapsed none now r = r
add_elapsed (some a) now r =
    if is_none a.ended_at
    then record r { elapsed = r.elapsed +ℤ elapsed_between a.started_at now }
    else r

abbrev pub close_attempt : Option Attempt → ℕ → RunStatus → List Attempt → List Attempt
close_attempt none now status attempts = attempts
close_attempt (some a) now status attempts =
    if is_none a.ended_at then end_attempt a.attempt_no now status attempts else attempts

abbrev or_else {ℓ} : {A : Type ℓ} → Option A → Option A → Option A
or_else none d = d
or_else (some a) d = some a

abbrev truncated : Option String → Option String
truncated none = none
truncated (some text) = some (truncate 2000 text)

-- The columns that only the holder of the token may write.
abbrev pub end_run : Ending → ℕ → Run → Run
end_run e now r = record r {
  lease_token = none;
  lease_expires_at = none;
  status = e.status;
  interrupt_requested_at = none;
  interrupted_at = if is_interrupted e.status then some now else r.interrupted_at;
  ended_at =
      if is_interrupted e.status
      then r.ended_at
      else if is_terminal e.status
      then some now
      else r.ended_at;
  error_code = or_else e.error_code r.error_code;
  error_message = or_else (truncated e.error_message) r.error_message;
}

-- `lease_token and run.lease_token == lease_token`
abbrev pub holds_token : Run → String → Bool
holds_token r token = not (str_eq token "") && opt_str_eq r.lease_token (some token)

abbrev pub finish_row : Option Run → ℕ → String → ℕ → Ending → Store → Store
finish_row none now token attempt_no e s = s
finish_row (some r) now token attempt_no e s =
    let attempt = attempt_by_no attempt_no s.attempts in
    let r' = add_elapsed attempt now r in
    record s {
      attempts = close_attempt attempt now e.status s.attempts;
      run = some (if holds_token r token then end_run e now r' else r');
    }

-- `finish_managed_attempt`
unfoldable pub finish_managed_attempt : ℕ → String → String → ℕ → Ending → Store → Store
finish_managed_attempt now user_id token attempt_no e s =
    finish_row (find_run user_id s) now token attempt_no e s
