-- ===== src/Execution/Resumed.antt =====
-- What `resume_run` of internal/services/agents/execution.py does to the rows, and what it answers to a
-- repeated key and where the checkpoint cannot be read.
use agent_backend.Execution.Rereading.{OnlyRecovered, claimed-Reread, claim_replayed}
use agent_backend.Execution.Composition.{attempt-Trace}
use agent_backend.Store.Starting.{Started}
use agent_backend.Store.Taking.{claim_excludes}
use agent_backend.Execution.Finish.{attempt}
use agent_backend.Store.Rows.{decoded, attempt_by_key}
use agent_backend.Prelude.{
  ◌⊎◌, app, agent_run_state_conflict, ◌≢◌, ◌<◌, ◌+◌, suc, attribute_error, none, inr, inl, not,
  true, ◌||◌, false, Bool-cases, is_none, ℕ, ◌≡◌, refl, Option, some, Result, ok, err,
}
use agent_backend.Checkpoint.{Checkpoint}
use agent_backend.Store.{is_resumable, Attempt, Run, Store, RunState}
use agent_backend.Store.Claim.{claim_managed_run, ClaimRequest, ClaimResult, load_managed_run}
use agent_backend.Store.Steps.{claim, here, Trace, next, load}
use agent_backend.Agent.Loop.{Log}
use agent_backend.Execution.{World, Executor}
use agent_backend.Execution.Interleaving.{trans, OthersStep}
use agent_backend.Execution.Definitions.{resolve_stale_status}
use agent_backend.Execution.Checks.{Service}
use agent_backend.Execution.Resume.{
  is_running, claimed_token, resume_claimed, execute_claim, resume_run, Surroundings, settled,
  others_turn, get_run, after_attempt,
}

module _ {V : Type 0} (e : Executor) (svc : Service V)
    (others : OthersStep e (resolve_stale_status svc.definitions)) (s : Store) where
  turn-Trace :
      (x : Surroundings V)
      → Trace e.backend (resolve_stale_status svc.definitions) s x.store
      → Trace e.backend (resolve_stale_status svc.definitions) s (others_turn e x).store
  turn-Trace x t = trans t (others x.tick x.store)

  loaded-Trace :
      (now : ℕ) (x : Surroundings V) (r : Result (Option RunState × Store))
      → load_managed_run e.backend now
          (some (resolve_stale_status svc.definitions))
          e.user_id
          x.store
        ≡ r
      → Trace e.backend (resolve_stale_status svc.definitions) s x.store
      → Trace e.backend (resolve_stale_status svc.definitions) s (settled x r).1.store
  loaded-Trace now x (ok (state, s')) h t = next t (load now e.user_id h)
  loaded-Trace now x (err raised) h t = t

  get_run-Trace :
      (x : Surroundings V)
      → Trace e.backend (resolve_stale_status svc.definitions) s x.store
      → Trace e.backend (resolve_stale_status svc.definitions) s (get_run e svc x).1.store
  get_run-Trace x t = loaded-Trace (e.clock x.tick) (others_turn e x) _ refl (turn-Trace x t)

  after_attempt-Trace :
      (c : ClaimResult) (k : Checkpoint) (r : Result (Unit {0}) × (World V × Log))
      → Trace e.backend (resolve_stale_status svc.definitions) s r.1.0.store
      → Trace e.backend (resolve_stale_status svc.definitions) s (after_attempt e svc c k r).1.store
  after_attempt-Trace c k (err raised, (w, l)) t = t
  after_attempt-Trace c k (ok _, (w, l)) t =
      get_run-Trace (record { store = w.store; tick = w.tick; outside = w.outside }) t

  execute_claim-Trace :
      (c : ClaimResult) (k : Option Checkpoint) (x : Surroundings V)
      → Trace e.backend (resolve_stale_status svc.definitions) s x.store
      → Trace e.backend (resolve_stale_status svc.definitions) s (execute_claim e svc c k x).1.store
  execute_claim-Trace c none x t = t
  execute_claim-Trace c (some k) x t =
      let owner = record e { lease_token = claimed_token c.lease_token } in
      let w : World V = record {
        store = x.store;
        checkpoint = k;
        revision = k.revision;
        tick = x.tick;
        outside = x.outside;
      } in
      after_attempt-Trace c k (attempt owner svc c.attempt_no k w) (
        trans t
          (attempt-Trace owner svc (resolve_stale_status svc.definitions) c.attempt_no k w others))

  resume_claimed-Trace :
      (now : ℕ) (q : ClaimRequest) (x : Surroundings V) (r : Result (ClaimResult × Store))
      → claim_managed_run e.backend now (resolve_stale_status svc.definitions) q x.store ≡ r
      → Trace e.backend (resolve_stale_status svc.definitions) s x.store
      → Trace e.backend
          (resolve_stale_status svc.definitions)
          s
          (resume_claimed e svc (settled x r)).1.store
  resume_claimed-Trace now q x (err raised) h t = t
  resume_claimed-Trace now q x (ok (c, s')) h t =
      let claimed = record x { store = s' } in
      let taken = next t (claim now q h) in
      elim (Bool-cases (c.replayed || not (is_running c.status))) [
        | inl old ↦ rw old (get_run-Trace claimed taken)
        | inr new ↦ rw new (execute_claim-Trace c c.checkpoint claimed taken)
      ]

-- Whatever other clients do in between and however it ends, a resume takes the rows to rows that a
-- sequence of transactions reaches.
pub resume-Trace :
    {V : Type 0} (e : Executor) (svc : Service V) (q : ClaimRequest) (x : Surroundings V)
    → OthersStep e (resolve_stale_status svc.definitions)
    → Trace e.backend (resolve_stale_status svc.definitions) x.store (resume_run e svc q x).1.store
unfolding resume_run
resume-Trace e svc q x others =
    resume_claimed-Trace e svc others x.store (e.clock x.tick) q (others_turn e x) _ refl
      (turn-Trace e svc others x.store x here)

-- A resume by the user of a managed ready or interrupted run, with a new key, where the checkpoint's
-- row decodes to nothing, raises Python's AttributeError after its claim has gone through: no model is
-- asked and no tool called, the run stays running under the token of the claim with the attempt open, and
-- until that lease ends the same user's claim with another new key is refused with the state conflict.
pub resume_unreadable :
    {V : Type 0} (e : Executor) (svc : Service V) (q q' : ClaimRequest) (x : Surroundings V)
    (r : Run) (later : ℕ)
    → (others_turn e x).store.run ≡ some r
    → r.user_id ≡ q.user_id
    → is_none r.execution_version ≡ false
    → is_resumable r.status ≡ true
    → attempt_by_key q.request_key (others_turn e x).store.attempts ≡ none
    → decoded e.backend (others_turn e x).store.checkpoint ≡ ok none
    → q'.user_id ≡ q.user_id
    → q.request_key ≢ q'.request_key
    → attempt_by_key q'.request_key (others_turn e x).store.attempts ≡ none
    → later < e.clock x.tick + q.lease
    → (n : ℕ) × (s' : Store) × (resume_run e svc q x
        ≡ (err attribute_error, record { store = s'; tick = suc x.tick; outside = x.outside }))
      × Started (e.clock x.tick) q (others_turn e x).store s' n
      × (claim_managed_run e.backend later (resolve_stale_status svc.definitions) q' s'
          ≡ err (app agent_run_state_conflict))
unfolding resume_run
resume_unreadable e svc q q' x r later is own managed free new lost u differ new' soon =
    let (n, s', first, rows, shut) =
      claim_excludes e.backend (e.clock x.tick) later (resolve_stale_status svc.definitions) q q'
        (others_turn e x).store r is own managed (inl free) new lost u differ new' soon in
    (n, s', rw first refl, rows, shut)

-- A resume with a key that has an attempt already asks no model and calls no tool: the world outside the
-- rows stays as it was. Of the rows, after what the other clients did before its transactions, it leaves
-- the attempts, steps, checkpoint, answer and messages as they were, and it changes the run's own row at
-- most where the run was active with its lease run out, whose lease the read of the run then takes away.
pub resume_repeated :
    {V : Type 0} (e : Executor) (svc : Service V) (q : ClaimRequest) (x : Surroundings V)
    (a : Attempt)
    → attempt_by_key q.request_key (others_turn e x).store.attempts ≡ some a
    → ((resume_run e svc q x).1.outside ≡ x.outside)
      × (((resume_run e svc q x).1.store ≡ (others_turn e x).store)
          ⊎ OnlyRecovered
              (e.clock (suc x.tick))
              (e.others (suc x.tick) (others_turn e x).store)
              (resume_run e svc q x).1.store)
unfolding resume_run
resume_repeated e svc q x a known =
    elim (claimed-Reread e svc x _ λ c s' h.
      claim_replayed e.backend (e.clock x.tick) (resolve_stale_status svc.definitions) q
        (others_turn e x).store a known h) [
          | inl (out, rows) ↦ (out, inl rows)
          | inr (out, rows) ↦ (out, inr rows)
        ]
