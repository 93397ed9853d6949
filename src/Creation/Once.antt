-- ===== src/Creation/Once.antt =====
-- That a key makes one run: what `create_managed_run` of internal/services/agents/conversation.py
-- answers to a request that is repeated, one after the other or at the same time.
use agent_backend.Prelude.{
  ok_injective, ap, ℕ, ◌≡◌, refl, sym, ◌⊎◌, inl, inr, Bool, true, false, ◌&&◌, Option, none, some,
  ok, integrity_error, >>=-eq-ok, >>-eq-ok, is_none, is_some, arith, eq_iff, raise_if,
}
use agent_backend.Json.{Fields}
use agent_backend.Store.{Run}
use agent_backend.Store.Rows.{Backend, encode, opt_str_eq-some}
use agent_backend.Creation.{
  created_rows, answer, Tables, Session, CreateRequest, RunStart, run_by_key, has_key, session_of,
  same_run, is_taken, insert_rows, create_keyed, create_managed_run, new_run,
}

-- The key has a run whose answer is `start`, but for the message's identifier.
abbrev Bound : CreateRequest → RunStart → Tables → Type 0
Bound q start s =
    (r : Run) × (run_by_key q.user_id q.request_key s.runs ≡ some r)
    × (r.create_request_digest ≡ some q.request_digest)
    × (r.run_id ≡ start.run_id)
    × (r.session_id ≡ start.session_id)

same_run-Bound :
    (q : CreateRequest) (r : Run) (s : Tables) {start : RunStart}
    → run_by_key q.user_id q.request_key s.runs ≡ some r
    → same_run q r ≡ ok start
    → Bound q start s
same_run-Bound q r s found h = (
  r,
  found,
  ground (arith, opt_str_eq-some r.create_request_digest q.request_digest),
  ground arith,
  ground arith,
)

-- An answer with a run that has the key already leaves the rows as they are.
answered :
    (q : CreateRequest) (r : Run) (s : Tables) {start : RunStart} {s' : Tables}
    → answer q r s ≡ ok (start, s')
    → (same_run q r ≡ ok start) × (s' ≡ s)
answered q r s h = ground arith

key_taken : (now : ℕ) (q : CreateRequest) → has_key q.user_id q.request_key (new_run now q) ≡ true
key_taken now q =
    rw ((eq_iff q.user_id q.user_id).1 refl, (eq_iff q.request_key q.request_key).1 refl) refl

inserted-Bound :
    (now : ℕ) (q : CreateRequest) (payload : Fields) (session : Option Session) (s : Tables)
    (winner : Option Run) {start : RunStart} {s' : Tables}
    → run_by_key q.user_id q.request_key s.runs ≡ winner
    → insert_rows now q payload session winner s ≡ ok (start, s')
    → Bound q start s'
inserted-Bound now q payload session s (some winner) {s' = s'} is h =
    let (answering, same) = answered q winner s h in
    same_run-Bound q winner s' (rw same is) answering
inserted-Bound now q payload session s none is h =
    rw
      (
        sym (ap (λ (x : RunStart × Tables). x.1) (ok_injective h)),
        sym (ap (λ (x : RunStart × Tables). x.0) (ok_injective h)),
      )
      (new_run now q, rw (key_taken now q) refl, refl, refl, refl)

-- A request whose key was new to it, and that went through, bound the key to its answer.
create-Bound :
    (b : Backend) (now : ℕ) (q : CreateRequest) (seen s : Tables) {start : RunStart} {s' : Tables}
    → run_by_key q.user_id q.request_key seen.runs ≡ none
    → create_managed_run b now q seen s ≡ ok (start, s')
    → Bound q start s'
unfolding create_managed_run
create-Bound b now q seen s new h =
    let (payload, _, h₁) = >>=-eq-ok (encode b q.checkpoint) _ h in
    let session = session_of q.user_id q.session_id seen.sessions in
    let (_, h₂) =
      >>-eq-ok (raise_if (is_some q.requested_session_id && is_none session) _) _ (rw new at h₁) in
    let (_, h₃) = >>-eq-ok (raise_if (is_taken q session s) _) _ h₂ in
    inserted-Bound now q payload session s (run_by_key q.user_id q.request_key s.runs) refl h₃

-- What a repeated request saw: the rows as they are, or rows from before the first one, in which
-- the session that it asks for stood, and the identifiers it made are free.
abbrev Saw : CreateRequest → Tables → Tables → Type 0
Saw q seen s =
    (seen ≡ s)
    ⊎ ((run_by_key q.user_id q.request_key seen.runs ≡ none)
        × ((is_some q.requested_session_id
              && is_none (session_of q.user_id q.session_id seen.sessions))
            ≡ false)
        × (is_taken q (session_of q.user_id q.session_id seen.sessions) s ≡ false))

answer_again :
    (q : CreateRequest) (r : Run) (start : RunStart)
    → r.create_request_digest ≡ some q.request_digest
    → r.run_id ≡ start.run_id
    → r.session_id ≡ start.session_id
    → same_run q r ≡ ok (record start { user_message_id = "" })
answer_again q r start d i s = rw (d, (eq_iff q.request_digest q.request_digest).1 refl, i, s) refl

repeated_answer :
    (b : Backend) (now : ℕ) (q : CreateRequest) (seen s : Tables) (start : RunStart)
    {payload : Fields}
    → Bound q start s
    → Saw q seen s
    → encode b q.checkpoint ≡ ok payload
    → create_managed_run b now q seen s ≡ ok (record start { user_message_id = "" }, s)
unfolding create_managed_run
repeated_answer b now q seen s start (r, found, d, i, n) (inl same) written =
    rw (written, same, found, answer_again q r start d i n) refl
repeated_answer b now q seen s start (r, found, d, i, n) (inr (new, known, free)) written =
    rw (written, new, known, free, found, answer_again q r start d i n) refl

-- A key makes one run: after a request whose key was new to it went through, any request of the user
-- with the same key and digest answers with the same run and session and changes nothing, whether it
-- saw the rows that the first one left or only those before it; its own checkpoint can be encoded.
pub create_again :
    (b : Backend) (now later : ℕ) (q q' : CreateRequest) (seen s seen' : Tables) (start : RunStart)
    {s' : Tables} {payload : Fields}
    → run_by_key q.user_id q.request_key seen.runs ≡ none
    → create_managed_run b now q seen s ≡ ok (start, s')
    → q'.user_id ≡ q.user_id
    → q'.request_key ≡ q.request_key
    → q'.request_digest ≡ q.request_digest
    → Saw q' seen' s'
    → encode b q'.checkpoint ≡ ok payload
    → create_managed_run b later q' seen' s' ≡ ok (record start { user_message_id = "" }, s')
create_again b now later q q' seen s seen' start {s' = s'} new h u k d saw written =
    let (r, found, digest, i, n) = create-Bound b now q seen s new h in
    repeated_answer b later q' seen' s' start (r, rw (u, k) found, rw d digest, i, n) saw written

inserted_outcome :
    (now : ℕ) (q : CreateRequest) (payload : Fields) (session : Option Session) (s : Tables)
    (winner : Option Run) {start : RunStart} {s' : Tables}
    → insert_rows now q payload session winner s ≡ ok (start, s')
    → (s' ≡ s) ⊎ ((winner ≡ none) × (s' ≡ created_rows now q payload session s))
inserted_outcome now q payload session s (some winner) h = inl (answered q winner s h).1
inserted_outcome now q payload session s none h =
    inr (refl, sym (ap (λ (x : RunStart × Tables). x.1) (ok_injective h)))

pub raised_not : (test : Bool) → raise_if test integrity_error ≡ ok tt → test ≡ false
raised_not test h = ground arith

keyed_outcome :
    (now : ℕ) (q : CreateRequest) (payload : Fields) (earlier : Option Run)
    (session : Option Session) (s : Tables) {start : RunStart} {s' : Tables}
    → create_keyed now q payload earlier session s ≡ ok (start, s')
    → (s' ≡ s)
      ⊎ ((is_taken q session s ≡ false)
          × (run_by_key q.user_id q.request_key s.runs ≡ none)
          × (s' ≡ created_rows now q payload session s))
keyed_outcome now q payload (some r) session s h = inl (answered q r s h).1
keyed_outcome now q payload none session s h =
    let (_, h₁) = >>-eq-ok (raise_if (is_some q.requested_session_id && is_none session) _) _ h in
    let (free, h₂) = >>-eq-ok (raise_if (is_taken q session s) _) _ h₁ in
    elim (inserted_outcome now q payload session s (run_by_key q.user_id q.request_key s.runs) h₂) [
      | inl same ↦ inl same
      | inr (new, rows) ↦ inr (raised_not (is_taken q session s) free, new, rows)
    ]

-- A creation that goes through leaves the rows as they are, or adds the new ones where nothing had
-- their identifiers or the key.
pub create_outcome :
    (b : Backend) (now : ℕ) (q : CreateRequest) (seen s : Tables) {start : RunStart} {s' : Tables}
    → create_managed_run b now q seen s ≡ ok (start, s')
    → (payload : Fields) × (encode b q.checkpoint ≡ ok payload)
      × ((s' ≡ s)
          ⊎ ((is_taken q (session_of q.user_id q.session_id seen.sessions) s ≡ false)
              × (run_by_key q.user_id q.request_key s.runs ≡ none)
              × (s'
                  ≡ created_rows now q payload
                      (session_of q.user_id q.session_id seen.sessions)
                      s)))
unfolding create_managed_run
create_outcome b now q seen s h =
    let (payload, written, h₁) = >>=-eq-ok (encode b q.checkpoint) _ h in
    (
      payload,
      written,
      keyed_outcome now q payload (run_by_key q.user_id q.request_key seen.runs)
          (session_of q.user_id q.session_id seen.sessions) s h₁,
    )
