-- ===== src/Store/Shapes.antt =====
-- What a successful load or claim did to the rows, as equations: the proofs about sequences of
-- transactions go by these.
use agent_backend.Prelude.{
  ℕ, String, ◌≡◌, ◌⊎◌, inl, inr, refl, Bool, true, false, Option, none, some, arith, Bool-cases, ok,
  Error, ◌∙◌, is_none, >>=-eq-ok, >>-eq-ok, ◌>>=◌, raise_if,
}
use agent_backend.Json.{Fields}
use agent_backend.Store.Commit.{
  CommitRequest, CommitResult, check_fence, chosen, is_paused, committed_rows, commit_managed_state,
}
use agent_backend.Store.{
  CheckpointRow, Store, Run, RunState, Attempt, is_active, is_resumable, is_interrupted,
}
use agent_backend.Store.Rows.{
  Backend, encode, found, build_run_state, find_run, require_run, lease_alive, attempt_by_key,
  decoded,
}
use agent_backend.Store.Claim.{
  Resolver, ClaimRequest, ClaimResult, load_managed_run, load_found, load_optional,
  claim_managed_run, claim_new, claim_keyed, after_recovery, start_attempt, recover_stale_run,
  recovered, started_rows, is_stale, replay_attempt,
}

build_run_state-run :
    (b : Backend) (r : Run) (n : ℕ) (s : Store) {state : RunState}
    → build_run_state b r n s ≡ ok state
    → (state.run ≡ r) × (state.attempt_no ≡ n) × (decoded b s.checkpoint ≡ ok state.checkpoint)
unfolding build_run_state
build_run_state-run b r n s h = ground arith

-- The rows after `_recover_stale_run`, for the state that the resolver was asked about.
abbrev pub rows_recovered : ℕ → Resolver → RunState → Run → Store → Store
rows_recovered now resolve state r s = record s {
  run = some (recovered now (resolve state).0 (resolve state).1 r);
}

recover_shape :
    (b : Backend) (now : ℕ) (resolve : Resolver) (r : Run) (s : Store) {state : RunState}
    {s' : Store}
    → recover_stale_run b now resolve r s ≡ ok (state, s')
    → (asked : RunState) × (build_run_state b r 0 s ≡ ok asked)
      × (state.run ≡ recovered now (resolve asked).0 (resolve asked).1 r)
      × (s' ≡ rows_recovered now resolve asked r s)
unfolding recover_stale_run
recover_shape b now resolve r s {state} {s'} h =
    let (asked, e, h₁) = >>=-eq-ok (build_run_state b r 0 s) _ h in
    let r' = recovered now (resolve asked).0 (resolve asked).1 r in
    let (after, e', h₂) = >>=-eq-ok (build_run_state b r' 0 (record s { run = some r' })) _ h₁ in
    (asked, e, cc (h₂, (build_run_state-run b r' 0 (record s { run = some r' }) e').0), cc h₂)

start_shape :
    (b : Backend) (now : ℕ) (q : ClaimRequest) (r : Run) (s : Store) {result : ClaimResult}
    {s' : Store}
    → start_attempt b now q r s ≡ ok (result, s')
    → s' ≡ started_rows now q r s
unfolding start_attempt
start_shape b now q r s h = ground arith

-- The four ways in which a claim goes through.
pub data ClaimShape (now : ℕ) (resolve : Resolver) (q : ClaimRequest) (r : Run) (s : Store)
    (s' : Store) : Type 0 where
  replays :
      {a : Attempt}
      → attempt_by_key q.request_key s.attempts ≡ some a
      → s' ≡ s
      → ClaimShape now resolve q r s s'
  resumes :
      is_resumable r.status ≡ true → s' ≡ started_rows now q r s → ClaimShape now resolve q r s s'
  parks :
      (asked : RunState)
      → is_active r.status ≡ true
      → lease_alive r.lease_expires_at now ≡ false
      → s' ≡ rows_recovered now resolve asked r s
      → ClaimShape now resolve q r s s'
  takes_over :
      (asked : RunState)
      → is_active r.status ≡ true
      → lease_alive r.lease_expires_at now ≡ false
      → s'
        ≡ started_rows now q
            (recovered now (resolve asked).0 (resolve asked).1 r)
            (rows_recovered now resolve asked r s)
      → ClaimShape now resolve q r s s'

after_recovery_shape :
    (b : Backend) (now : ℕ) (q : ClaimRequest) (state : RunState) (s : Store) {result : ClaimResult}
    {s' : Store}
    → after_recovery b now q (state, s) ≡ ok (result, s')
    → (s' ≡ s) ⊎ (s' ≡ started_rows now q state.run s)
after_recovery_shape b now q state s h = elim (Bool-cases (is_interrupted state.run.status)) [
  | inl e ↦ inr (start_shape b now q state.run s (rw e at h))
  | inr e ↦ inl (ground arith)
]

raise_if-ok : (t : Bool) (e : Error) → raise_if t e ≡ ok tt → t ≡ false
raise_if-ok true e h = cc
raise_if-ok false e h = refl

claim_stale_shape :
    (b : Backend) (now : ℕ) (resolve : Resolver) (q : ClaimRequest) (r : Run) (s : Store)
    {result : ClaimResult} {s' : Store}
    → is_active r.status ≡ true
    → lease_alive r.lease_expires_at now ≡ false
    → (recover_stale_run b now resolve r s >>= λ recovery. after_recovery b now q recovery)
      ≡ ok (result, s')
    → ClaimShape now resolve q r s s'
claim_stale_shape b now resolve q r s a l h =
    let ((state, t), e, h₁) = >>=-eq-ok (recover_stale_run b now resolve r s) _ h in
    let (asked, _, same, rows) = recover_shape b now resolve r s e in
    elim (after_recovery_shape b now q state t h₁) [
      | inl kept ↦ parks asked a l (kept ∙ rows)
      | inr started ↦ takes_over asked a l (cc (started, same, rows))
    ]

claim_new_shape :
    (b : Backend) (now : ℕ) (resolve : Resolver) (q : ClaimRequest) (r : Run) (s : Store)
    {result : ClaimResult} {s' : Store}
    → claim_new b now resolve q r s ≡ ok (result, s')
    → ClaimShape now resolve q r s s'
claim_new_shape b now resolve q r s h = elim (Bool-cases (is_resumable r.status)) [
  | inl e ↦ resumes e (start_shape b now q r s (rw e at h))
  | inr e ↦ elim (Bool-cases (is_active r.status)) [
    | inl a ↦
        let (alive, h₁) =
          >>-eq-ok (raise_if (lease_alive r.lease_expires_at now) _) _ (rw (e, a) at h) in
        claim_stale_shape b now resolve q r s a (raise_if-ok _ _ alive) h₁
    | inr a ↦ absurd (ground arith)
  ]
]

replay_shape :
    (b : Backend) (q : ClaimRequest) (r : Run) (a : Attempt) (s : Store) {result : ClaimResult}
    {s' : Store}
    → replay_attempt b q r a s ≡ ok (result, s')
    → s' ≡ s
replay_shape b q r a s h = ground arith

claim_keyed_shape :
    (b : Backend) (now : ℕ) (resolve : Resolver) (q : ClaimRequest) (r : Run) (o : Option Attempt)
    (s : Store) {result : ClaimResult} {s' : Store}
    → attempt_by_key q.request_key s.attempts ≡ o
    → claim_keyed b now resolve q r o s ≡ ok (result, s')
    → ClaimShape now resolve q r s s'
claim_keyed_shape b now resolve q r (some a) s e h = replays e (replay_shape b q r a s h)
claim_keyed_shape b now resolve q r none s e h = claim_new_shape b now resolve q r s h

-- A row that a user finds is the run's row.
find_run-run :
    (user_id : String) (s : Store) {r : Run} → find_run user_id s ≡ some r → s.run ≡ some r
find_run-run user_id s h = ground arith

pub require_run-run :
    (user_id : String) (s : Store) {r : Run} → require_run user_id s ≡ ok r → s.run ≡ some r
require_run-run user_id s h = ground arith

pub claim_shape :
    (b : Backend) (now : ℕ) (resolve : Resolver) (q : ClaimRequest) (s : Store)
    {result : ClaimResult} {s' : Store}
    → claim_managed_run b now resolve q s ≡ ok (result, s')
    → (r : Run) × (s.run ≡ some r) × ClaimShape now resolve q r s s'
unfolding claim_managed_run
claim_shape b now resolve q s h =
    let (r, e, h₁) = >>=-eq-ok (require_run q.user_id s) _ h in
    let (_, h₂) = >>-eq-ok (raise_if (is_none r.execution_version) _) _ h₁ in
    (r, require_run-run q.user_id s e, claim_keyed_shape b now resolve q r _ s refl h₂)

load_some_shape :
    (b : Backend) (now : ℕ) (resolve : Resolver) (user_id : String) (r : Run) (s : Store)
    {state : Option RunState} {s' : Store}
    → load_found b now (some resolve) user_id r s ≡ ok (state, s')
    → (s' ≡ s)
      ⊎ ((asked : RunState) × (is_stale now r ≡ true) × (s' ≡ rows_recovered now resolve asked r s))
load_some_shape b now resolve user_id r s h = elim (Bool-cases (is_stale now r)) [
  | inl e ↦
      let ((state, t), e₁, h₁) = >>=-eq-ok (recover_stale_run b now resolve r s) _ (rw e at h) in
      let (asked, _, _, rows) = recover_shape b now resolve r s e₁ in
      let (_, _, h₂) = >>=-eq-ok (build_run_state b state.run _ t) _ h₁ in
      inr (asked, e, cc (rows, h₂))
  | inr e ↦ let (_, _, h₁) = >>=-eq-ok (build_run_state b r _ s) _ (rw e at h) in inl (cc h₁)
]

load_optional_shape :
    (b : Backend) (now : ℕ) (resolve : Resolver) (user_id : String) (o : Option Run) (s : Store)
    {state : Option RunState} {s' : Store}
    → load_optional b now (some resolve) user_id o s ≡ ok (state, s')
    → (s' ≡ s)
      ⊎ ((r : Run) × (o ≡ some r)
          × (asked : RunState) × (is_stale now r ≡ true)
          × (s' ≡ rows_recovered now resolve asked r s))
load_optional_shape b now resolve user_id none s h = inl (cc h)
load_optional_shape b now resolve user_id (some r) s h =
    elim (load_some_shape b now resolve user_id r s h) [
      | inl e ↦ inl e
      | inr (asked, stale, rows) ↦ inr (r, refl, asked, stale, rows)
    ]

-- A load changes nothing, or recovers a run whose lease has run out.
pub load_shape :
    (b : Backend) (now : ℕ) (resolve : Resolver) (user_id : String) (s : Store)
    {state : Option RunState} {s' : Store}
    → load_managed_run b now (some resolve) user_id s ≡ ok (state, s')
    → (s' ≡ s)
      ⊎ ((r : Run) × (s.run ≡ some r)
          × (asked : RunState) × (is_stale now r ≡ true)
          × (s' ≡ rows_recovered now resolve asked r s))
unfolding load_managed_run
load_shape b now resolve user_id s h =
    elim (load_optional_shape b now resolve user_id (find_run user_id s) s h) [
      | inl e ↦ inl e
      | inr (r, e, asked, stale, rows) ↦ inr (r, find_run-run user_id s e, asked, stale, rows)
    ]

found-some {ℓ} : {A : Type ℓ} (o : Option A) (e : Error) {a : A} → found o e ≡ ok a → o ≡ some a
found-some none e h = cc
found-some (some a) e h = cc

-- A commit that goes through passed the fence and was encoded, and wrote `committed_rows`.
pub commit_shape :
    (b : Backend) (now : ℕ) (q : CommitRequest) (s : Store) {result : CommitResult} {s' : Store}
    → commit_managed_state b now q s ≡ ok (result, s')
    → (r : Run) × (row : CheckpointRow) × (payload : Fields) × (s.run ≡ some r)
      × (check_fence now q r ≡ ok tt)
      × (encode b (chosen q r) ≡ ok payload)
      × (s.checkpoint ≡ some row)
      × (s' ≡ committed_rows now q r row payload s)
      × (result.checkpoint ≡ chosen q r)
      × (result.paused ≡ is_paused q r)
unfolding commit_managed_state
commit_shape b now q s h =
    let (r, e, h₁) = >>=-eq-ok (require_run q.user_id s) _ h in
    let (fence, h₂) = >>-eq-ok (check_fence now q r) _ h₁ in
    let (payload, written, h₃) = >>=-eq-ok (encode b (chosen q r)) _ h₂ in
    let (row, held, h₄) = >>=-eq-ok (found s.checkpoint _) _ h₃ in
    (
      r,
      row,
      payload,
      require_run-run q.user_id s e,
      fence,
      written,
      found-some s.checkpoint _ held,
      cc h₄,
      cc h₄,
      cc h₄,
    )
