-- ===== src/Store/Totals.antt =====
-- When a transaction goes through at all: the exact condition of a commit, and the rows of a claim and
-- of its repetition.
use agent_backend.Checkpoint.Rejects.{encode_ill_formed}
use agent_backend.Checkpoint.WellFormed.{IsWellFormed}
use agent_backend.Prelude.{
  ℕ, ◌<◌, String, ◌≡◌, refl, sym, ◌∙◌, ◌⊎◌, inl, inr, true, false, Option, none, some, List, [],
  ◌∷◌, ◌++◌, str_eq, eq_iff, is_none, Bool-cases, pos, ltb_ℤ, ok, err, app, not_found,
  checkpoint_validation,
}
use agent_backend.Json.{Fields}
use agent_backend.Checkpoint.{Checkpoint}
use agent_backend.Store.{Store, CheckpointRow, Run, Attempt, running, is_resumable}
use agent_backend.Store.Rows.{
  owned_by, Backend, found, encode, decoded, build_run_state, attempt_by_key,
}
use agent_backend.Store.Claim.{
  Resolver, ClaimRequest, claim_managed_run, started_rows, leased, new_attempt, next_attempt_no,
  start_attempt,
}
use agent_backend.Store.Commit.{CommitRequest, commit_managed_state, check_fence, chosen}

-- Everything that `_commit_managed_state` asks for.
pub record MayCommit (b : Backend) (now : ℕ) (q : CommitRequest) (s : Store) (r : Run)
    : Type 0 where
  pub is_run : s.run ≡ some r
  pub owner : r.user_id ≡ q.user_id
  pub token : r.lease_token ≡ some q.token
  pub alive : (t : ℕ) × (r.lease_expires_at ≡ some t) × (now < t)
  pub revision :
      (ltb_ℤ q.expected_revision (pos 0) ≡ true)
      ⊎ (r.checkpoint_revision ≡ some q.expected_revision)
  pub encoded : (payload : Fields) × (encode b (chosen q r) ≡ ok payload)
  pub has_row : (row : CheckpointRow) × (s.checkpoint ≡ some row)

pub owned_found :
    (user_id : String) (o : Option Run) (r : Run)
    → o ≡ some r
    → r.user_id ≡ user_id
    → found (owned_by user_id o) (app not_found) ≡ ok r
owned_found user_id o r e own = rw e (rw ((eq_iff r.user_id user_id).1 own))

by_key-append :
    (key : String) (xs : List Attempt) (a : Attempt)
    → attempt_by_key key xs ≡ none
    → a.request_key ≡ key
    → attempt_by_key key (xs ++ a ∷ []) ≡ some a
by_key-append key [] a h e = rw ((eq_iff a.request_key key).1 e)
by_key-append key (x ∷ xs) a h e = elim (Bool-cases (str_eq x.request_key key)) [
  | inl f ↦ cc (rw f at h)
  | inr f ↦ rw f (by_key-append key xs a (rw f at h) e)
]

pub build_run_state_total :
    (b : Backend) (r : Run) (n : ℕ) (s : Store) {c : Option Checkpoint}
    → decoded b s.checkpoint ≡ ok c
    → build_run_state b r n s ≡ ok (record { run = r; attempt_no = n; checkpoint = c })
unfolding build_run_state
build_run_state_total b r n s h = rw h

-- The result and the rows of a claim of a resumable run with a new key, and of its repetition.
pub claim_rows :
    (b : Backend) (now later : ℕ) (resolve : Resolver) (q q' : ClaimRequest) (s : Store) (r : Run)
    {c : Option Checkpoint}
    → s.run ≡ some r
    → r.user_id ≡ q.user_id
    → is_none r.execution_version ≡ false
    → is_resumable r.status ≡ true
    → attempt_by_key q.request_key s.attempts ≡ none
    → decoded b s.checkpoint ≡ ok c
    → q'.user_id ≡ q.user_id
    → q'.request_key ≡ q.request_key
    → q'.request_digest ≡ q.request_digest
    → (claim_managed_run b now resolve q s
        ≡ ok (
          record {
            status = running;
            attempt_no = next_attempt_no s;
            checkpoint = c;
            lease_token = some q.token;
            replayed = false;
          },
          started_rows now q r s,
        ))
      × (claim_managed_run b later resolve q' (started_rows now q r s)
          ≡ ok (
            record {
              status = running;
              attempt_no = next_attempt_no s;
              checkpoint = c;
              lease_token = none;
              replayed = true;
            },
            started_rows now q r s,
          ))
unfolding claim_managed_run start_attempt
claim_rows b now later resolve q q' s r is own managed free new read u k d = (
  rw (owned_found q.user_id s.run r is own) (
      rw (managed, new)
        (rw free (
          rw (
            build_run_state_total b (leased now q r) (next_attempt_no s) (started_rows now q r s)
              read)))),
  rw (owned_found q'.user_id (some (leased now q r)) (leased now q r) refl (own ∙ sym u)) (
      rw managed (
        rw
          (by_key-append q'.request_key s.attempts (new_attempt now q (next_attempt_no s))
            (rw k new) (sym k))
          (rw ((eq_iff q.request_digest q'.request_digest).1 (sym d)) (
            rw (
              build_run_state_total b (leased now q r) (next_attempt_no s) (started_rows now q r s)
                read))))),
)

-- An ill-formed checkpoint is refused with the `CheckpointValidationError` of the codec, which
-- `_encode` does not turn into a business error: so a commit that passes the fence and chooses
-- one raises it.
pub commit_ill_formed :
    (b : Backend) (now : ℕ) (q : CommitRequest) (s : Store) (r : Run)
    → s.run ≡ some r
    → r.user_id ≡ q.user_id
    → check_fence now q r ≡ ok tt
    → ¬ IsWellFormed (chosen q r)
    → commit_managed_state b now q s ≡ err checkpoint_validation
unfolding commit_managed_state encode
commit_ill_formed b now q s r is own fence bad =
    rw (owned_found q.user_id s.run r is own)
      (rw fence (rw (encode_ill_formed b.dumps b.max_bytes (chosen q r) bad)))
