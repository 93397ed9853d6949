-- ===== src/Creation/Handover.antt =====
-- A run that `create_managed_run` of internal/services/agents/conversation.py made, as the
-- transactions on one run find it.
use agent_backend.Prelude.{
  ℕ, String, ◌≡◌, refl, sym, ap, ok_injective, false, ◌&&◌, Option, none, some, List, [], ◌∷◌,
  str_eq, if◌then◌else◌, ok, >>=-eq-ok, >>-eq-ok, is_none, is_some, eq_iff, raise_if,
}
use agent_backend.Json.{Fields}
use agent_backend.Checkpoint.Roundtrip.{IsStorable}
use agent_backend.Store.{Store, Run, running, CheckpointRow}
use agent_backend.Store.Rows.{Backend, encode}
use agent_backend.Store.Claim.{Resolver, ClaimRequest, claim_managed_run, started_rows}
use agent_backend.Store.Handoff.{decode_written}
use agent_backend.Store.Totals.{claim_rows}
use agent_backend.Creation.Once.{raised_not}
use agent_backend.Creation.{
  Tables, Session, CreateRequest, RunStart, run_by_key, session_of, is_taken, create_managed_run,
  new_run, new_checkpoint, created_rows,
}

abbrev pub run_row : String → List Run → Option Run
run_row run_id [] = none
run_row run_id (r ∷ runs) = if str_eq r.run_id run_id then some r else run_row run_id runs

abbrev pub checkpoint_row : String → List CheckpointRow → Option CheckpointRow
checkpoint_row run_id [] = none
checkpoint_row run_id (c ∷ rows) =
    if str_eq c.run_id run_id then some c else checkpoint_row run_id rows

abbrev pub counted_messages : Option Session → ℕ
counted_messages none = 0
counted_messages (some s) = s.message_count

abbrev pub last_message : Option Session → Option ℕ
last_message none = none
last_message (some s) = s.last_message_at

-- The rows of a run without attempts, steps or an answer.
abbrev pub rows_of_run : String → String → String → Tables → Store
rows_of_run user_id session_id run_id s = record {
  run = run_row run_id s.runs;
  checkpoint = checkpoint_row run_id s.checkpoints;
  attempts = [];
  steps = [];
  assistant = none;
  message_count = counted_messages (session_of user_id session_id s.sessions);
  last_message_at = last_message (session_of user_id session_id s.sessions);
}

-- A creation that found its key free in both reads wrote the new rows.
create_shape :
    (b : Backend) (now : ℕ) (q : CreateRequest) (seen s : Tables) {start : RunStart} {s' : Tables}
    → run_by_key q.user_id q.request_key seen.runs ≡ none
    → run_by_key q.user_id q.request_key s.runs ≡ none
    → create_managed_run b now q seen s ≡ ok (start, s')
    → (payload : Fields) × (encode b q.checkpoint ≡ ok payload)
      × (is_taken q (session_of q.user_id q.session_id seen.sessions) s ≡ false)
      × (s' ≡ created_rows now q payload (session_of q.user_id q.session_id seen.sessions) s)
unfolding create_managed_run
create_shape b now q seen s new free h =
    let (payload, written, h₁) = >>=-eq-ok (encode b q.checkpoint) _ h in
    let session = session_of q.user_id q.session_id seen.sessions in
    let (_, h₂) =
      >>-eq-ok (raise_if (is_some q.requested_session_id && is_none session) _) _ (rw new at h₁) in
    let (taken, h₃) = >>-eq-ok (raise_if (is_taken q session s) _) _ h₂ in
    (
      payload,
      written,
      raised_not (is_taken q session s) taken,
      sym (ap (λ (x : RunStart × Tables). x.1) (ok_injective (rw free at h₃))),
    )

-- A run that was just created can be claimed by its user: the claim hands over the checkpoint that
-- the creation was given, field by field, if it is storable and names the run.
pub create-claim :
    (b : Backend) (now later : ℕ) (resolve : Resolver) (q : CreateRequest) (p : ClaimRequest)
    (seen s : Tables) {start : RunStart} {s' : Tables}
    → run_by_key q.user_id q.request_key seen.runs ≡ none
    → run_by_key q.user_id q.request_key s.runs ≡ none
    → create_managed_run b now q seen s ≡ ok (start, s')
    → IsStorable q.checkpoint
    → q.checkpoint.run_id ≡ q.run_id
    → p.user_id ≡ q.user_id
    → claim_managed_run b later resolve p (rows_of_run q.user_id q.session_id q.run_id s')
      ≡ ok (
        record {
          status = running;
          attempt_no = 1;
          checkpoint = some q.checkpoint;
          lease_token = some p.token;
          replayed = false;
        },
        started_rows later p (new_run now q) (rows_of_run q.user_id q.session_id q.run_id s'),
      )
create-claim b now later resolve q p seen s new free h storable named own =
    let (payload, written, _, rows) = create_shape b now q seen s new free h in
    let named' = (eq_iff q.run_id q.run_id).1 refl in
    let session = session_of q.user_id q.session_id seen.sessions in
    rw rows
      (claim_rows b later later resolve p p
        (rows_of_run q.user_id q.session_id q.run_id (created_rows now q payload session s))
        (new_run now q) (rw named' refl) (sym own) refl refl refl
        (rw
          (
            named',
            decode_written b q.checkpoint (new_checkpoint q payload) written storable (sym named),
          )
          refl)
        refl refl refl).0
