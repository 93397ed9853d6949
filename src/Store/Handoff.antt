-- ===== src/Store/Handoff.antt =====
-- From one executor to the next: what a commit wrote is what the next claim reads, an interrupt
-- request stops the executor at its next commit, and a claim that is repeated changes nothing.
use agent_backend.Checkpoint.Encode.{encode_checkpoint}
use agent_backend.Prelude.{
  ℕ, String, ◌≡◌, refl, sym, ap, ◌∙◌, inl, inr, true, Option, none, some, arith, eq_iff, is_none,
  Bool-cases, eqb_ℤ_refl, Result, ok, err, raise_if, >>=-eq-ok, >>-eq-ok, checkpoint_serialization,
}
use agent_backend.Json.{Fields}
use agent_backend.Checkpoint.{Checkpoint}
use agent_backend.Store.{
  Store, CheckpointRow, Run, RunState, Attempt, interrupt_requested, interrupted, is_active,
  is_resumable, is_interrupted,
}
use agent_backend.Store.Rows.{
  as_business_error, Backend, require_run, lease_alive, encode, decode_checkpoint_row, decoded,
  build_run_state, attempt_by_key,
}
use agent_backend.Store.Claim.{
  after_recovery, claim_new, claim_keyed, replay_attempt, Resolver, ClaimRequest, ClaimResult,
  claim_managed_run, recover_stale_run, start_attempt,
}
use agent_backend.Store.Control.{request_run_interrupt}
use agent_backend.Store.Commit.{
  with_checkpoint, paused_run, written_row, CommitRequest, CommitResult, commit_managed_state,
  committed_rows, chosen, is_paused,
}
use agent_backend.Store.Shapes.{commit_shape}
use agent_backend.Checkpoint.Roundtrip.{IsStorable, encode_ok, decode_parsed}

encode-payload :
    (b : Backend) (c : Checkpoint) {payload : Fields}
    → encode b c ≡ ok payload
    → (encode_checkpoint b.dumps b.max_bytes c ≡ ok payload)
unfolding encode
encode-payload b c h = as_business-ok (encode_checkpoint b.dumps b.max_bytes c) h
  where
    as_business-ok : (m : Result Fields) {fs : Fields} → as_business_error m ≡ ok fs → m ≡ ok fs
    as_business-ok (ok a) h = h
    as_business-ok (err checkpoint_serialization) h = cc
    as_business-ok (err e) h = cc

pub decode_written :
    (b : Backend) (c : Checkpoint) (row : CheckpointRow) {payload : Fields}
    → encode b c ≡ ok payload
    → IsStorable c
    → row.run_id ≡ c.run_id
    → decode_checkpoint_row b (written_row c payload row) ≡ ok c
unfolding decode_checkpoint_row
decode_written b c row h storable named =
    let (w, same, _) = encode_ok b.dumps b.max_bytes c (encode-payload b c h) in
    rw same (
      rw (decode_parsed b.platform b.max_bytes c w storable)
        (ground (arith, eqb_ℤ_refl c.revision, eq_iff c.run_id row.run_id)))

-- A commit that went through left a checkpoint row that decodes to the checkpoint it chose.
committed_decodes :
    (b : Backend) (now : ℕ) (q : CommitRequest) (s : Store) {result : CommitResult} {s' : Store}
    {row : CheckpointRow}
    → s.checkpoint ≡ some row
    → row.run_id ≡ result.checkpoint.run_id
    → IsStorable result.checkpoint
    → commit_managed_state b now q s ≡ ok (result, s')
    → decoded b s'.checkpoint ≡ ok (some result.checkpoint)
unfolding committed_rows
committed_decodes b now q s {row = row'} at_row named storable h =
    let (r, row, payload, is, _, written, held, rows, same, _) = commit_shape b now q s h in
    let e : row' ≡ row = cc (at_row, held) in
    ap (λ (x : Store). decoded b x.checkpoint) rows
    ∙ (rw same (
        rw (
          decode_written b (chosen q r) row written (rw same at storable)
            (ap (λ (x : CheckpointRow). x.run_id) (sym e) ∙ (rw same at named)))))

start_checkpoint :
    (b : Backend) (now : ℕ) (q : ClaimRequest) (r : Run) (s : Store) {result : ClaimResult}
    {s' : Store}
    → start_attempt b now q r s ≡ ok (result, s')
    → decoded b s.checkpoint ≡ ok result.checkpoint
unfolding start_attempt build_run_state
start_checkpoint b now q r s h = ground arith

replay_checkpoint :
    (b : Backend) (q : ClaimRequest) (r : Run) (a : Attempt) (s : Store) {result : ClaimResult}
    {s' : Store}
    → replay_attempt b q r a s ≡ ok (result, s')
    → decoded b s.checkpoint ≡ ok result.checkpoint
unfolding build_run_state
replay_checkpoint b q r a s h = ground arith

recover_checkpoint :
    (b : Backend) (now : ℕ) (resolve : Resolver) (r : Run) (s : Store) {state : RunState}
    {s' : Store}
    → recover_stale_run b now resolve r s ≡ ok (state, s')
    → (decoded b s.checkpoint ≡ ok state.checkpoint) × (s'.checkpoint ≡ s.checkpoint)
unfolding recover_stale_run build_run_state
recover_checkpoint b now resolve r s h = ground arith

after_recovery_checkpoint :
    (b : Backend) (now : ℕ) (q : ClaimRequest) (state : RunState) (s : Store) {result : ClaimResult}
    {s' : Store}
    → decoded b s.checkpoint ≡ ok state.checkpoint
    → after_recovery b now q (state, s) ≡ ok (result, s')
    → decoded b s.checkpoint ≡ ok result.checkpoint
after_recovery_checkpoint b now q state s e h =
    elim (Bool-cases (is_interrupted state.run.status)) [
      | inl i ↦ start_checkpoint b now q state.run s (rw i at h)
      | inr i ↦ ground arith
    ]

claim_new_checkpoint :
    (b : Backend) (now : ℕ) (resolve : Resolver) (q : ClaimRequest) (r : Run) (s : Store)
    {result : ClaimResult} {s' : Store}
    → claim_new b now resolve q r s ≡ ok (result, s')
    → decoded b s.checkpoint ≡ ok result.checkpoint
claim_new_checkpoint b now resolve q r s h = elim (Bool-cases (is_resumable r.status)) [
  | inl e ↦ start_checkpoint b now q r s (rw e at h)
  | inr e ↦ elim (Bool-cases (is_active r.status)) [
    | inl a ↦
        let (_, h₁) =
          >>-eq-ok (raise_if (lease_alive r.lease_expires_at now) _) _ (rw (e, a) at h) in
        let ((state, t), f, h₂) = >>=-eq-ok (recover_stale_run b now resolve r s) _ h₁ in
        let (read, same) = recover_checkpoint b now resolve r s f in
        rw same at (after_recovery_checkpoint b now q state t (rw same read) h₂)
    | inr a ↦ absurd (ground arith)
  ]
]

claim_keyed_checkpoint :
    (b : Backend) (now : ℕ) (resolve : Resolver) (q : ClaimRequest) (r : Run) (o : Option Attempt)
    (s : Store) {result : ClaimResult} {s' : Store}
    → claim_keyed b now resolve q r o s ≡ ok (result, s')
    → decoded b s.checkpoint ≡ ok result.checkpoint
claim_keyed_checkpoint b now resolve q r (some a) s h = replay_checkpoint b q r a s h
claim_keyed_checkpoint b now resolve q r none s h = claim_new_checkpoint b now resolve q r s h

-- However a claim goes through, it hands over what the checkpoint's row decodes to.
claim_checkpoint :
    (b : Backend) (now : ℕ) (resolve : Resolver) (q : ClaimRequest) (s : Store)
    {result : ClaimResult} {s' : Store}
    → claim_managed_run b now resolve q s ≡ ok (result, s')
    → decoded b s.checkpoint ≡ ok result.checkpoint
unfolding claim_managed_run
claim_checkpoint b now resolve q s h =
    let (r, _, h₁) = >>=-eq-ok (require_run q.user_id s) _ h in
    let (_, h₂) = >>-eq-ok (raise_if (is_none r.execution_version) _) _ h₁ in
    claim_keyed_checkpoint b now resolve q r (attempt_by_key q.request_key s.attempts) s h₂

-- After a commit whose checkpoint is storable and names the run of its row, a claim that goes
-- through hands over exactly the checkpoint that the commit chose, field by field.
pub claim-commit :
    (b : Backend) (now later : ℕ) (resolve : Resolver) (q : CommitRequest) (p : ClaimRequest)
    (s : Store) {result : CommitResult} {s' s'' : Store} {row : CheckpointRow}
    {claimed : ClaimResult}
    → s.checkpoint ≡ some row
    → row.run_id ≡ result.checkpoint.run_id
    → IsStorable result.checkpoint
    → commit_managed_state b now q s ≡ ok (result, s')
    → claim_managed_run b later resolve p s' ≡ ok (claimed, s'')
    → claimed.checkpoint ≡ some result.checkpoint
claim-commit b now later resolve q p s {result} {s'} at_row named storable h k = cc (
  committed_decodes b now q s {result = result} at_row named storable h,
  claim_checkpoint b later resolve p s' k,
)

paused_rows :
    (now : ℕ) (q : CommitRequest) (r : Run) (row : CheckpointRow) (payload : Fields) (s : Store)
    → r.status ≡ interrupt_requested
    → q.pause_when_interrupted ≡ true
    → (chosen q r ≡ q.pause)
      × (is_paused q r ≡ true)
      × ((committed_rows now q r row payload s).run
          ≡ some (paused_run now (with_checkpoint q.pause r)))
      × ((committed_rows now q r row payload s).assistant ≡ s.assistant)
      × ((committed_rows now q r row payload s).message_count ≡ s.message_count)
unfolding committed_rows
paused_rows now q r row payload s e p = rw (e, p) (refl, refl, refl, refl, refl)

requested_status :
    (now : ℕ) (user_id : String) (reason : Option String) (s : Store) {s' : Store}
    → request_run_interrupt now user_id reason s ≡ ok (interrupt_requested, s')
    → (r : Run) → s'.run ≡ some r
    → r.status ≡ interrupt_requested
unfolding request_run_interrupt
requested_status now user_id reason s h r is = ground arith

-- After an accepted interrupt request, a commit that pauses and goes through does so at its pause
-- checkpoint: it reports the pause, the run is interrupted and holds no lease, and no answer is
-- written or counted, also where the commit was to end the run.
pub commit-interrupt :
    (b : Backend) (now later : ℕ) (user_id : String) (reason : Option String) (q : CommitRequest)
    (s : Store) {s' s'' : Store} {result : CommitResult}
    → request_run_interrupt now user_id reason s ≡ ok (interrupt_requested, s')
    → q.pause_when_interrupted ≡ true
    → commit_managed_state b later q s' ≡ ok (result, s'')
    → (result.paused ≡ true)
      × (result.checkpoint ≡ q.pause)
      × ((r : Run) × (s''.run ≡ some r) × (r.status ≡ interrupted) × (r.lease_token ≡ none))
      × (s''.assistant ≡ s'.assistant)
      × (s''.message_count ≡ s'.message_count)
commit-interrupt b now later user_id reason q s {s'} h p k =
    let (r, row, payload, is, _, _, _, rows, same, paused) = commit_shape b later q s' k in
    let (a, c, d, e, f) =
      paused_rows later q r row payload s' (requested_status now user_id reason s h r is) p in
    (
      paused ∙ c,
      same ∙ a,
      (
        paused_run later (with_checkpoint q.pause r),
        ap (λ (x : Store). x.run) rows ∙ d,
        refl,
        refl,
      ),
      ap (λ (x : Store). x.assistant) rows ∙ e,
      ap (λ (x : Store). x.message_count) rows ∙ f,
    )
