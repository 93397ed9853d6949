-- ===== src/Creation.antt =====
-- `create_managed_run` of internal/services/agents/conversation.py: the session, the user's message,
-- the run and its first checkpoint, made once for each key of a user. The columns that no modelled
-- code reads are left out, and the newest row of a table stands first.
pub mod Once
pub mod Handover
pub mod Tally
pub mod Invariant
use agent_backend.Prelude.{
  ℕ, suc, String, Bool, true, false, ◌&&◌, ◌||◌, Option, none, some, List, [], ◌∷◌, ℤ, pos, str_eq,
  if◌then◌else◌, Result, ok, err, app, not_found, idempotency_conflict, integrity_error, ◌>>=◌,
  ◌>>◌, raise_if, is_none, is_some,
}
use agent_backend.Json.{Fields}
use agent_backend.Checkpoint.{Checkpoint}
use agent_backend.Store.{Run, ready, CheckpointRow}
use agent_backend.Store.Rows.{Backend, encode, opt_str_eq}

-- AgentSession
pub record Session : Type 0 where
  pub session_id : String
  pub user_id : String
  pub entrypoint : String
  pub message_count : ℕ
  pub last_message_at : Option ℕ

-- AgentMessage
pub record Message : Type 0 where
  pub message_id : String
  pub session_id : String
  pub run_id : String
  pub user_id : String
  pub role : String
  pub content : String
  pub created_at : ℕ

pub record Tables : Type 0 where
  pub sessions : List Session
  pub messages : List Message
  pub runs : List Run
  pub checkpoints : List CheckpointRow

-- The arguments of `create_managed_run`.
pub record CreateRequest : Type 0 where
  pub user_id : String
  pub run_id : String
  pub session_id : String
  pub user_message_id : String
  pub entrypoint : String
  pub agent_name : String
  pub question : String
  pub max_steps : ℤ
  pub request_key : String
  pub request_digest : String
  pub execution_version : String
  pub checkpoint : Checkpoint
  pub requested_session_id : Option String
  pub route : Option String

-- AgentRunStartDTO
pub record RunStart : Type 0 where
  pub session_id : String
  pub run_id : String
  pub user_message_id : String

abbrev pub has_key : String → String → Run → Bool
has_key user_id key r = str_eq r.user_id user_id && opt_str_eq r.create_request_key (some key)

-- `_get_run_by_create_key_for_update`
abbrev pub run_by_key : String → String → List Run → Option Run
run_by_key user_id key [] = none
run_by_key user_id key (r ∷ runs) =
    if has_key user_id key r then some r else run_by_key user_id key runs

abbrev pub is_session : String → String → Session → Bool
is_session user_id session_id s = str_eq s.session_id session_id && str_eq s.user_id user_id

-- `_get_session_for_update`
abbrev pub session_of : String → String → List Session → Option Session
session_of user_id session_id [] = none
session_of user_id session_id (s ∷ sessions) =
    if is_session user_id session_id s then some s else session_of user_id session_id sessions

-- Whether a row has the identifier that is unique in its table.
abbrev pub any {ℓ} : {A : Type ℓ} → (A → Bool) → List A → Bool
any p [] = false
any p (x ∷ xs) = p x || any p xs

-- The answer to a key that a run has already.
abbrev pub same_run : CreateRequest → Run → Result RunStart
same_run q r =
    if opt_str_eq r.create_request_digest (some q.request_digest)
    then ok (record { session_id = r.session_id; run_id = r.run_id; user_message_id = "" })
    else err (app idempotency_conflict)

-- `message_count + 1` in the session's row.
abbrev pub count_message : String → String → ℕ → List Session → List Session
count_message user_id session_id now [] = []
count_message user_id session_id now (s ∷ sessions) =
    if is_session user_id session_id s
    then record s { message_count = suc s.message_count; last_message_at = some now } ∷ sessions
    else s ∷ count_message user_id session_id now sessions

abbrev pub new_session : ℕ → CreateRequest → Session
new_session now q = record {
  session_id = q.session_id;
  user_id = q.user_id;
  entrypoint = q.entrypoint;
  message_count = 1;
  last_message_at = some now;
}

abbrev pub user_message : ℕ → CreateRequest → Message
user_message now q = record {
  message_id = q.user_message_id;
  session_id = q.session_id;
  run_id = q.run_id;
  user_id = q.user_id;
  role = "user";
  content = q.question;
  created_at = now;
}

abbrev pub new_run : ℕ → CreateRequest → Run
new_run now q = record {
  run_id = q.run_id;
  session_id = q.session_id;
  user_id = q.user_id;
  agent_name = q.agent_name;
  route = q.route;
  status = ready;
  max_steps = q.max_steps;
  started_at = now;
  ended_at = none;
  elapsed = pos 0;
  error_code = none;
  error_message = none;
  execution_version = some q.execution_version;
  checkpoint_revision = some q.checkpoint.revision;
  lease_token = none;
  lease_expires_at = none;
  interrupt_requested_at = none;
  interrupted_at = none;
  interrupt_reason = none;
  create_request_key = some q.request_key;
  create_request_digest = some q.request_digest;
}

abbrev pub new_checkpoint : CreateRequest → Fields → CheckpointRow
new_checkpoint q payload = record {
  run_id = q.run_id;
  schema_version = q.checkpoint.schema_version;
  revision = q.checkpoint.revision;
  phase = q.checkpoint.phase;
  next_step_index = q.checkpoint.next_step_index;
  payload = payload;
}

-- The session that the transaction saw decides between an update and a new row.
abbrev with_session : ℕ → CreateRequest → Option Session → List Session → List Session
with_session now q none sessions = new_session now q ∷ sessions
with_session now q (some s) sessions = count_message q.user_id q.session_id now sessions

abbrev pub created_rows : ℕ → CreateRequest → Fields → Option Session → Tables → Tables
created_rows now q payload session s = record {
  sessions = with_session now q session s.sessions;
  messages = user_message now q ∷ s.messages;
  runs = new_run now q ∷ s.runs;
  checkpoints = new_checkpoint q payload ∷ s.checkpoints;
}

-- An identifier is taken in the rows that the insertions meet. Where the key is taken too, which
-- constraint a database names first is its choice; here it is not the key's.
abbrev pub is_taken : CreateRequest → Option Session → Tables → Bool
is_taken q session s =
    (is_none session && any (λ (x : Session). str_eq x.session_id q.session_id) s.sessions)
    || any (λ (x : Message). str_eq x.message_id q.user_message_id) s.messages
    || any (λ (x : Run). str_eq x.run_id q.run_id) s.runs
    || any (λ (x : CheckpointRow). str_eq x.run_id q.run_id) s.checkpoints

abbrev pub answer : CreateRequest → Run → Tables → Result (RunStart × Tables)
answer q r s = do start ← same_run q r; ok (start, s)

-- The insertions, on rows `s` that other requests may have added to. If the key is taken, the
-- transaction is rolled back and the winner is read.
abbrev pub insert_rows :
    ℕ → CreateRequest → Fields → Option Session → Option Run → Tables → Result (RunStart × Tables)
insert_rows now q payload session (some winner) s = answer q winner s
insert_rows now q payload session none s = ok (
  record { session_id = q.session_id; run_id = q.run_id; user_message_id = q.user_message_id },
  created_rows now q payload session s,
)

abbrev pub create_keyed :
    ℕ → CreateRequest → Fields → Option Run → Option Session → Tables → Result (RunStart × Tables)
create_keyed now q payload (some r) session s = answer q r s
create_keyed now q payload none session s = do
  raise_if (is_some q.requested_session_id && is_none session) (app not_found)
  raise_if (is_taken q session s) integrity_error
  insert_rows now q payload session (run_by_key q.user_id q.request_key s.runs) s

-- `create_managed_run`: its reads saw the tables `seen`, and its insertions meet `s`, to which
-- requests that run at the same time may have added.
unfoldable pub create_managed_run :
    Backend → ℕ → CreateRequest → Tables → Tables → Result (RunStart × Tables)
create_managed_run b now q seen s = do
  payload ← encode b q.checkpoint
  create_keyed now q payload (run_by_key q.user_id q.request_key seen.runs)
      (session_of q.user_id q.session_id seen.sessions) s
