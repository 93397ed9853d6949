-- ===== src/Execution/Opened.antt =====
-- What the claim of a run that `create_run` of internal/services/agents/execution.py made hands over.
use agent_backend.Prelude.{
  false, Bool-cases, eq_iff, ◌⊎◌, inl, inr, ℕ, String, ◌≡◌, refl, Option, none, some, [], ℤ, pos,
  str_eq, ok, >>=-eq-ok,
}
use agent_backend.Json.{str, get}
use agent_backend.Store.Starting.{Started, started_rows-Started}
use agent_backend.Checkpoint.{Checkpoint, Phase, routing, before_action}
use agent_backend.Store.{Store, running}
use agent_backend.Store.Rows.{Backend}
use agent_backend.Store.Claim.{Resolver, ClaimRequest, claim_managed_run, started_rows}
use agent_backend.Creation.{Tables, RunStart, run_by_key, new_run}
use agent_backend.Creation.Handover.{rows_of_run, create-claim}
use agent_backend.Execution.Checks.{Service, or_text}
use agent_backend.Execution.CreateRun.{
  entrypoint_definition, RunRequest, initial_checkpoint, create_request, create_run,
  initial_checkpoint-IsStorable,
}

-- The agent's name, the route and the first phase of a run at an entry point.
abbrev pub StartsAt : String → Checkpoint → Type 0
StartsAt entrypoint c =
    ((entrypoint ≡ "chat")
      × (c.agent_name ≡ some "agent_chat")
      × (c.route ≡ none)
      × (c.phase ≡ routing))
    ⊎ ((entrypoint ≡ "order_support")
        × (c.agent_name ≡ some "order_support")
        × (c.route ≡ some "order")
        × (c.phase ≡ before_action))
    ⊎ ((entrypoint ≡ "payment_support")
        × (c.agent_name ≡ some "payment_support")
        × (c.route ≡ some "payment")
        × (c.phase ≡ before_action))

-- The checkpoint is what was asked for, with the version and the model that serve now, and nothing was
-- done yet.
pub record AsAsked {V : Type 0} (svc : Service V) (q : RunRequest) (c : Checkpoint) : Type 0 where
  pub named : c.run_id ≡ q.run_id
  pub question : c.user_input ≡ q.question
  pub room : c.max_steps ≡ q.max_steps
  pub context : c.session_context ≡ q.session_context
  pub version : c.definition_version ≡ svc.definitions.definition_version
  pub provider : get c.model_config "provider" ≡ str svc.provider
  pub model : get c.model_config "model" ≡ str svc.model
  pub unstarted :
      (c.steps ≡ [])
      × (c.pending_action ≡ none)
      × (c.final_answer ≡ none)
      × (c.next_step_index ≡ pos 0)
      × (c.revision ≡ pos 0)
  pub starts : StartsAt q.entrypoint c

entrypoint_table :
    {V : Type 0} (svc : Service V) (q : RunRequest) (entrypoint : String)
    {definition : String × Option String × Phase}
    → entrypoint_definition entrypoint ≡ ok definition
    → StartsAt entrypoint (initial_checkpoint svc q definition)
unfolding entrypoint_definition
entrypoint_table svc q entrypoint h = elim (Bool-cases (str_eq entrypoint "chat")) [
  | inl e ↦ inl ((eq_iff entrypoint "chat").0 e, cc (rw e at h), cc (rw e at h), cc (rw e at h))
  | inr e ↦ elim (Bool-cases (str_eq entrypoint "order_support")) [
    | inl f ↦
        let g = rw (e, f) at h in
        inr (inl ((eq_iff entrypoint "order_support").0 f, cc g, cc g, cc g))
    | inr f ↦ elim (Bool-cases (str_eq entrypoint "payment_support")) [
      | inl k ↦
          let g = rw (e, f, k) at h in
          inr (inr ((eq_iff entrypoint "payment_support").0 k, cc g, cc g, cc g))
      | inr k ↦ absurd cc (rw (e, f, k) at h)
    ]
  ]
]

initial_checkpoint-AsAsked :
    {V : Type 0} (svc : Service V) (q : RunRequest) {definition : String × Option String × Phase}
    → entrypoint_definition q.entrypoint ≡ ok definition
    → AsAsked svc q (initial_checkpoint svc q definition)
initial_checkpoint-AsAsked svc q h = record {
  named = refl;
  question = refl;
  room = refl;
  context = refl;
  version = refl;
  provider = refl;
  model = refl;
  unstarted = (refl, refl, refl, refl, refl);
  starts = entrypoint_table svc q q.entrypoint h;
}

-- A run that `create_run` made under a new key is claimed by its user as the run's first attempt, with the
-- request's token and lease. The claim hands over a checkpoint of the run with the question, the steps
-- allowed and the session's context as they were asked, the version and the model that served at its
-- creation, the agent, route and first phase of its entry point, and no step, pending action or answer.
pub create_run-claim :
    {V : Type 0} (svc : Service V) (sha256 : String → String) (str_of_int : ℤ → String)
    (b : Backend) (now later : ℕ) (resolve : Resolver) (q : RunRequest) (p : ClaimRequest)
    (seen s : Tables) {start : RunStart} {s' : Tables}
    → run_by_key q.user_id q.request_key seen.runs ≡ none
    → run_by_key q.user_id q.request_key s.runs ≡ none
    → create_run svc sha256 str_of_int b now q seen s ≡ ok (start, s')
    → p.user_id ≡ q.user_id
    → (c : Checkpoint) × (claimed : Store) × AsAsked svc q c
      × (claim_managed_run b later resolve p
            (rows_of_run q.user_id (or_text q.session_id q.fresh_session_id) q.run_id s')
          ≡ ok (
            record {
              status = running;
              attempt_no = 1;
              checkpoint = some c;
              lease_token = some p.token;
              replayed = false;
            },
            claimed,
          ))
      × Started later p
          (rows_of_run q.user_id (or_text q.session_id q.fresh_session_id) q.run_id s')
          claimed
          1
unfolding create_run
create_run-claim svc sha256 str_of_int b now later resolve q p seen s {s' = s'} new free h own =
    let (definition, known, h₁) = >>=-eq-ok (entrypoint_definition q.entrypoint) _ h in
    let asked = create_request svc sha256 str_of_int q definition in
    let rows = rows_of_run q.user_id (or_text q.session_id q.fresh_session_id) q.run_id s' in
    (
      initial_checkpoint svc q definition,
      started_rows later p (new_run now asked) rows,
      initial_checkpoint-AsAsked svc q known,
      create-claim b now later resolve asked p seen s new free h₁
          (initial_checkpoint-IsStorable svc q definition) refl own,
      started_rows-Started later p (new_run now asked) rows,
    )
