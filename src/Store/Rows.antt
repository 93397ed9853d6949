-- ===== src/Store/Rows.antt =====
-- Reading rows, the lease test, and `_build_run_state` and `decode_checkpoint_row` of
-- internal/services/agents/conversation.py.
use Prim.Native.Nat.{max}
use agent_backend.Prelude.{
  eq_iff, ap, ◌≡◌, ℕ, zero, suc, String, Bool, true, false, not, ◌&&◌, Option, none, some, List, [],
  ◌∷◌, ℤ, pos, eqb_ℤ, sub_ℕ, ltb, ◌==◌, str_eq, if◌then◌else◌, Result, ok, err, Error, app,
  not_found, agent_resume_unsafe, checkpoint_error, checkpoint_validation, checkpoint_serialization,
  unsupported_checkpoint_version, ◌>>=◌, ◌>>◌, raise_if,
}
use agent_backend.Json.{Value, Fields, obj}
use agent_backend.Checkpoint.{Checkpoint}
use agent_backend.Checkpoint.Encode.{Dumped, encode_checkpoint}
use agent_backend.Checkpoint.Decode.{Platform, parsed, decode_checkpoint}
use agent_backend.Store.{Store, Run, RunState, Attempt, CheckpointRow}

-- The limit of the settings and what third-party code does for the codec.
pub record Backend : Type 0 where
  pub platform : Platform
  pub dumps : Value → Dumped
  pub max_bytes : ℕ

abbrev pub owned_by : String → Option Run → Option Run
owned_by user_id none = none
owned_by user_id (some r) = if str_eq r.user_id user_id then some r else none

-- `_get_managed_run_for_update`, `get_by_run_id_for_user`
abbrev pub find_run : String → Store → Option Run
find_run user_id s = owned_by user_id s.run

-- `if run is None: raise AppException(errors.NotFound)`
abbrev pub found {ℓ} : {A : Type ℓ} → Option A → Error → Result A
found none e = err e
found (some a) e = ok a

abbrev pub require_run : String → Store → Result Run
require_run user_id s = found (find_run user_id s) (app not_found)

abbrev pub opt_str_eq : Option String → Option String → Bool
opt_str_eq none none = true
opt_str_eq (some a) (some b) = str_eq a b
opt_str_eq _ _ = false

-- `run.lease_expires_at is not None and run.lease_expires_at > now`
abbrev pub lease_alive : Option ℕ → ℕ → Bool
lease_alive none now = false
lease_alive (some t) now = ltb now t

abbrev pub owns_lease : Run → String → ℕ → Bool
owns_lease r token now = opt_str_eq r.lease_token (some token) && lease_alive r.lease_expires_at now

-- `text[:n]`
abbrev pub truncate : ℕ → String → String
truncate zero s = ""
truncate (suc n) String.[] = ""
truncate (suc n) (String.◌∷◌ c s) = String.◌∷◌ c (truncate n s)

-- `_encode`: only a `CheckpointSerializationError` becomes a business error.
abbrev pub as_business_error {ℓ} : {A : Type ℓ} → Result A → Result A
as_business_error (ok a) = ok a
as_business_error (err checkpoint_serialization) = err (app agent_resume_unsafe)
as_business_error (err e) = err e

unfoldable pub encode : Backend → Checkpoint → Result Fields
encode b c = as_business_error (encode_checkpoint b.dumps b.max_bytes c)

-- `decode_checkpoint_row`
unfoldable pub decode_checkpoint_row : Backend → CheckpointRow → Result Checkpoint
decode_checkpoint_row b row = do
  checkpoint ← decode_checkpoint b.platform b.max_bytes (parsed (obj row.payload))
  raise_if (not (eqb_ℤ checkpoint.revision row.revision)) checkpoint_error
  raise_if (not (str_eq checkpoint.run_id row.run_id)) checkpoint_error
  ok checkpoint

-- `except CheckpointError`: its subclasses are swallowed, any other exception goes on.
abbrev caught : Result Checkpoint → Result (Option Checkpoint)
caught (ok c) = ok (some c)
caught (err checkpoint_error) = ok none
caught (err checkpoint_validation) = ok none
caught (err checkpoint_serialization) = ok none
caught (err unsupported_checkpoint_version) = ok none
caught (err e) = err e

abbrev pub decoded : Backend → Option CheckpointRow → Result (Option Checkpoint)
decoded b none = ok none
decoded b (some row) = caught (decode_checkpoint_row b row)

-- `_build_run_state`
unfoldable pub build_run_state : Backend → Run → ℕ → Store → Result RunState
build_run_state b r attempt_no s = do
  checkpoint ← decoded b s.checkpoint
  ok (record { run = r; attempt_no = attempt_no; checkpoint = checkpoint })

-- `_get_attempt_by_request_key`
abbrev pub attempt_by_key : String → List Attempt → Option Attempt
attempt_by_key key [] = none
attempt_by_key key (a ∷ rest) = if str_eq a.request_key key then some a else attempt_by_key key rest

-- `_get_attempt`
abbrev pub attempt_by_no : ℕ → List Attempt → Option Attempt
attempt_by_no n [] = none
attempt_by_no n (a ∷ rest) = if a.attempt_no == n then some a else attempt_by_no n rest

-- `max_attempt_no`
abbrev pub max_attempt_no : List Attempt → ℕ
max_attempt_no [] = 0
max_attempt_no (a ∷ rest) = max a.attempt_no (max_attempt_no rest)

-- `attempt.attempt_no if attempt is not None else 0`, for `_get_latest_attempt` of a user.
abbrev pub latest_attempt_no : String → List Attempt → ℕ
latest_attempt_no user_id [] = 0
latest_attempt_no user_id (a ∷ rest) =
    max (if str_eq a.user_id user_id then a.attempt_no else 0) (latest_attempt_no user_id rest)

-- `run.checkpoint_revision or 0`
abbrev pub revision_or_zero : Option ℤ → ℤ
revision_or_zero none = pos 0
revision_or_zero (some n) = n

-- `_elapsed_ms`, in thousandths of a millisecond, to which the source rounds.
abbrev pub elapsed_between : ℕ → ℕ → ℤ
elapsed_between started_at ended_at = sub_ℕ ended_at started_at

pub opt_str_eq-some : (o : Option String) (t : String) → opt_str_eq o (some t) ≡ true → o ≡ some t
opt_str_eq-some none t h = cc
opt_str_eq-some (some a) t h = ap some ((eq_iff a t).0 h)
