-- ===== src/Execution/Rereading.antt =====
-- What `get_run` and `_replayed_resume` of internal/services/agents/execution.py leave of the rows.
use agent_backend.Store.Shapes.{load_shape}
use agent_backend.Store.Rows.{Backend, lease_alive, require_run, attempt_by_key}
use agent_backend.Prelude.{
  String, ◌⊎◌, raise_if, >>-eq-ok, >>=-eq-ok, arith, none, inr, inl, true, false, is_none, ℕ, ◌≡◌,
  refl, Option, some, Result, ok, err,
}
use agent_backend.Store.{is_active, Attempt, Run, Store, RunState}
use agent_backend.Store.Claim.{
  is_stale, recovered, replay_attempt, Resolver, claim_managed_run, ClaimRequest, ClaimResult,
  load_managed_run,
}
use agent_backend.Execution.{Executor}
use agent_backend.Execution.Definitions.{resolve_stale_status}
use agent_backend.Execution.Checks.{Service}
use agent_backend.Execution.Resume.{resume_claimed, Surroundings, settled, others_turn}

-- Nothing of the rows changed but the run's own row, and that only if the run was active and its lease
-- had run out: then its lease was taken away.
abbrev pub OnlyRecovered : ℕ → Store → Store → Type 0
OnlyRecovered now s s' =
    (s'.checkpoint ≡ s.checkpoint)
    × (s'.attempts ≡ s.attempts)
    × (s'.steps ≡ s.steps)
    × (s'.assistant ≡ s.assistant)
    × (s'.message_count ≡ s.message_count)
    × (s'.last_message_at ≡ s.last_message_at)
    × ((s'.run ≡ s.run)
        ⊎ ((r : Run) × (r' : Run) × (s.run ≡ some r)
            × (is_active r.status ≡ true)
            × (lease_alive r.lease_expires_at now ≡ false)
            × (s'.run ≡ some r')
            × (r'.lease_token ≡ none)
            × (r'.lease_expires_at ≡ none)))

OnlyRecovered-refl : (now : ℕ) (s : Store) → OnlyRecovered now s s
OnlyRecovered-refl now s = (refl, refl, refl, refl, refl, refl, inl refl)

stale_lease :
    (now : ℕ) (r : Run)
    → is_stale now r ≡ true
    → (is_active r.status ≡ true) × (lease_alive r.lease_expires_at now ≡ false)
stale_lease now r h = ground arith

-- A load of a run, with the resolver of stale runs.
load-OnlyRecovered :
    (b : Backend) (now : ℕ) (resolve : Resolver) (user_id : String) (s : Store)
    {state : Option RunState} {s' : Store}
    → load_managed_run b now (some resolve) user_id s ≡ ok (state, s')
    → OnlyRecovered now s s'
unfolding recovered
load-OnlyRecovered b now resolve user_id s {state} {s'} h =
    elim (load_shape b now resolve user_id s h) [
      | inl same ↦ rw same (OnlyRecovered-refl now s)
      | inr (r, is, asked, stale, rows) ↦
          let (busy, dead) = stale_lease now r stale in
          rw rows (refl, refl, refl, refl, refl, refl, inr (r, _, is, busy, dead, refl, refl, refl))
    ]

-- What is left after a read of the run: the rest of the world as it was, and of the rows, after the
-- others' turn, at most the recovery of the run's own row.
abbrev pub OnlyRead : {V : Type 0} → Executor → Surroundings V → Surroundings V → Type 0
OnlyRead e x y =
    (y.outside ≡ x.outside) × OnlyRecovered (e.clock x.tick) (e.others x.tick x.store) y.store

loaded-OnlyRead :
    {V : Type 0} (e : Executor) (svc : Service V) (x : Surroundings V)
    (r : Result (Option RunState × Store))
    → load_managed_run e.backend
        (e.clock x.tick)
        (some (resolve_stale_status svc.definitions))
        e.user_id
        (others_turn e x).store
      ≡ r
    → OnlyRead e x (settled (others_turn e x) r).1
loaded-OnlyRead e svc x (ok (state, s')) h = (
  refl,
  load-OnlyRecovered e.backend (e.clock x.tick) (resolve_stale_status svc.definitions) e.user_id
      (others_turn e x).store h,
)
loaded-OnlyRead e svc x (err raised) h =
    (refl, OnlyRecovered-refl (e.clock x.tick) (others_turn e x).store)

replay_replayed :
    (b : Backend) (q : ClaimRequest) (r : Run) (a : Attempt) (s : Store) {c : ClaimResult}
    {s' : Store}
    → replay_attempt b q r a s ≡ ok (c, s')
    → (c.replayed ≡ true) × (s' ≡ s)
replay_replayed b q r a s h = ground arith

pub claim_replayed :
    (b : Backend) (now : ℕ) (resolve : Resolver) (q : ClaimRequest) (s : Store) (a : Attempt)
    {c : ClaimResult} {s' : Store}
    → attempt_by_key q.request_key s.attempts ≡ some a
    → claim_managed_run b now resolve q s ≡ ok (c, s')
    → (c.replayed ≡ true) × (s' ≡ s)
unfolding claim_managed_run
claim_replayed b now resolve q s a known h =
    let (r, _, h₁) = >>=-eq-ok (require_run q.user_id s) _ h in
    let (_, h₂) = >>-eq-ok (raise_if (is_none r.execution_version) _) _ h₁ in
    replay_replayed b q r a s (rw known at h₂)

-- Either the claim was refused, and the rows are those of the others' turn before it, or the run was
-- read after one more turn of theirs.
abbrev pub Reread : {V : Type 0} → Executor → Surroundings V → Surroundings V → Type 0
Reread e x y =
    ((y.outside ≡ x.outside) × (y.store ≡ (others_turn e x).store)) ⊎ OnlyRead e (others_turn e x) y

pub claimed-Reread :
    {V : Type 0} (e : Executor) (svc : Service V) (x : Surroundings V)
    (r : Result (ClaimResult × Store))
    → ((c : ClaimResult) (s' : Store)
        → r ≡ ok (c, s')
        → (c.replayed ≡ true) × (s' ≡ (others_turn e x).store))
    → Reread e x (resume_claimed e svc (settled (others_turn e x) r)).1
claimed-Reread e svc x (err raised) replays = inl (refl, refl)
claimed-Reread e svc x (ok (c, s')) replays =
    let (replayed, same) = replays c s' refl in
    rw (replayed, same) (inr (loaded-OnlyRead e svc (others_turn e x) _ refl))
