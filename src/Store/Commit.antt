-- ===== src/Store/Commit.antt =====
-- The single write path of an executor: `_commit_managed_state` and its parts, with
-- `commit_managed_checkpoint`, `commit_managed_step` and `commit_managed_terminal`, of
-- internal/services/agents/conversation.py.
use agent_backend.Prelude.{
  ℕ, ◌+◌, String, Bool, true, false, not, ◌&&◌, ◌||◌, Option, none, some, List, [], ◌∷◌, ◌++◌, ℤ,
  pos, ltb_ℤ, eqb_ℤ, str_eq, if◌then◌else◌, Result, ok, app, agent_run_state_conflict, ◌>>=◌, ◌>>◌,
  raise_if,
}
use agent_backend.Json.{Fields}
use agent_backend.Checkpoint.{Checkpoint}
use agent_backend.Store.{
  Store, Run, RunStatus, StepRow, CheckpointRow, running, interrupted, failed,
  is_interrupt_requested, recovery_required,
}
use agent_backend.Store.Rows.{Backend, require_run, found, opt_str_eq, lease_alive, encode}

-- `step.index in existing`
abbrev pub has_step : ℤ → List StepRow → Bool
has_step i [] = false
has_step i (row ∷ rows) = eqb_ℤ row.step_index i || has_step i rows

abbrev pub missing_steps : List StepRow → List StepRow → List StepRow
missing_steps existing [] = []
missing_steps existing (row ∷ rows) =
    let rest = missing_steps existing rows in
    if has_step row.step_index existing then rest else row ∷ rest

-- `_insert_missing_steps`
unfoldable pub insert_missing_steps : List StepRow → List StepRow → List StepRow
insert_missing_steps existing steps = existing ++ missing_steps existing steps

-- `_insert_assistant_message_once`
abbrev insert_assistant_message_once : Option String → String → Option String
insert_assistant_message_once none answer = some answer
insert_assistant_message_once (some content) answer = some content

-- What an executor commits. `terminal` is the status of a final commit.
pub record CommitRequest : Type 0 where
  pub user_id : String
  pub token : String
  pub expected_revision : ℤ
  pub committed : Checkpoint
  pub pause : Checkpoint
  pub pause_when_interrupted : Bool
  pub terminal : Option RunStatus
  pub steps : List StepRow
  pub answer : Option String

-- AgentRunCommitDTO
pub record CommitResult : Type 0 where
  pub status : RunStatus
  pub revision : ℤ
  pub checkpoint : Checkpoint
  pub paused : Bool

-- The fence: the token, an unexpired lease, and the expected revision.
abbrev pub revision_matches : Option ℤ → ℤ → Bool
revision_matches none expected = false
revision_matches (some n) expected = eqb_ℤ n expected

unfoldable pub check_fence : ℕ → CommitRequest → Run → Result (Unit {0})
check_fence now q r = do
  raise_if (not (opt_str_eq r.lease_token (some q.token))) (app agent_run_state_conflict)
  raise_if (not (lease_alive r.lease_expires_at now)) (app agent_run_state_conflict)
  raise_if
      (not (ltb_ℤ q.expected_revision (pos 0))
        && not (revision_matches r.checkpoint_revision q.expected_revision))
      (app agent_run_state_conflict)

abbrev pub is_paused : CommitRequest → Run → Bool
is_paused q r = q.pause_when_interrupted && is_interrupt_requested r.status

abbrev pub chosen : CommitRequest → Run → Checkpoint
chosen q r = if is_paused q r then q.pause else q.committed

abbrev pub written_row : Checkpoint → Fields → CheckpointRow → CheckpointRow
written_row c payload row = record row {
  schema_version = c.schema_version;
  revision = c.revision;
  phase = c.phase;
  next_step_index = c.next_step_index;
  payload = payload;
}

abbrev some_or : Option String → String → String
some_or none d = d
some_or (some a) d = a

abbrev route_or : Option String → Option String → Option String
route_or none d = d
route_or (some a) d = some a

-- The columns that follow the chosen checkpoint.
abbrev pub with_checkpoint : Checkpoint → Run → Run
with_checkpoint c r = record r {
  checkpoint_revision = some c.revision;
  route = route_or c.route r.route;
  agent_name = some_or c.agent_name r.agent_name;
}

abbrev pub paused_run : ℕ → Run → Run
paused_run now r = record r {
  status = interrupted;
  interrupted_at = some now;
  interrupt_requested_at = none;
  lease_token = none;
  lease_expires_at = none;
}

abbrev terminal_error : RunStatus → Option String
terminal_error recovery_required = some "recovery_required"
terminal_error failed = some "failed"
terminal_error _ = none

abbrev ended_run : ℕ → RunStatus → Run → Run
ended_run now status r = record r {
  status = status;
  ended_at = some now;
  lease_token = none;
  lease_expires_at = none;
  error_code = terminal_error status;
}

abbrev updated_run : ℕ → Bool → Option RunStatus → Run → Run
updated_run now true terminal r = paused_run now r
updated_run now false (some status) r = ended_run now status r
updated_run now false none r = r

-- `not paused and terminal_status is not None and answer`
abbrev pub final_text : Bool → Option RunStatus → Option String → Option String
final_text false (some status) (some answer) = if str_eq answer "" then none else some answer
final_text _ _ _ = none

-- The message and the session's counters. The counter goes up whether or not the message is new.
abbrev pub with_message : ℕ → Option String → Store → Store
with_message now none s = s
with_message now (some answer) s = record s {
  assistant = insert_assistant_message_once s.assistant answer;
  message_count = s.message_count + 1;
  last_message_at = some now;
}

abbrev pub status_after : Bool → Option RunStatus → RunStatus
status_after true terminal = interrupted
status_after false (some status) = status
status_after false none = running

-- The rows after a commit of `payload`.
unfoldable pub committed_rows : ℕ → CommitRequest → Run → CheckpointRow → Fields → Store → Store
committed_rows now q r row payload s =
    let paused = is_paused q r in
    let s' = with_message now (final_text paused q.terminal q.answer) s in
    record s' {
      checkpoint = some (written_row (chosen q r) payload row);
      steps = insert_missing_steps s.steps q.steps;
      run = some (updated_run now paused q.terminal (with_checkpoint (chosen q r) r));
    }

-- `_commit_managed_state`
unfoldable pub commit_managed_state :
    Backend → ℕ → CommitRequest → Store → Result (CommitResult × Store)
commit_managed_state b now q s = do
  r ← require_run q.user_id s
  check_fence now q r
  payload ← encode b (chosen q r)
  row ← found s.checkpoint (app agent_run_state_conflict)
  ok (
    record {
      status = status_after (is_paused q r) q.terminal;
      revision = (chosen q r).revision;
      checkpoint = chosen q r;
      paused = is_paused q r;
    },
    committed_rows now q r row payload s,
  )
