-- ===== src/Execution/Interleaving.antt =====
-- A run of the loop of pkg/agents/react.py over the runtime of internal/services/agents/execution.py
-- is a sequence of the storage's transactions, with those of other clients between them.
use agent_backend.Prelude.{Bool, ℕ, ◌≡◌, refl, true, some, ok, err, Result, arith}
use agent_backend.Checkpoint.{Checkpoint}
use agent_backend.Store.{Store}
use agent_backend.Store.Claim.{Resolver}
use agent_backend.Store.Commit.{CommitRequest, CommitResult, commit_managed_state}
use agent_backend.Store.Steps.{commit, Trace, here, next, EndsRun}
use agent_backend.Agent.{AgentRunState, AgentStepRecord, AgentRunStatus}
use agent_backend.Agent.Loop.{Log, ReActAgent, AgentRunResult}
use agent_backend.Agent.Loop.Drive.{drive}
use agent_backend.Agent.Loop.World.{Keeps, is_final}
use agent_backend.Agent.Loop.Frame.{drive-Stays}
use agent_backend.Execution.{Backend, World, Executor, turn}
use agent_backend.Execution.Runtime.{
  database_runtime, applied, submit, submit_step, submit_terminal,
}
use agent_backend.Execution.StepRecords.{with_step, with_result_steps, run_status}

pub trans :
    {b : Backend} {resolve : Resolver} {s t u : Store}
    → Trace b resolve s t
    → Trace b resolve t u
    → Trace b resolve s u
trans first here = first
trans first (next rest step) = next (trans first rest) step

-- The other clients only make transactions.
abbrev pub OthersStep : Executor → Resolver → Type 0
OthersStep e resolve = (n : ℕ) (s : Store) → Trace e.backend resolve s (e.others n s)

-- The rows were reached from `s` by transactions.
abbrev pub Reached : {V : Type 0} → Executor → Resolver → Store → World V → Type 0
Reached e resolve s w = Trace e.backend resolve s w.store

final_ends : (status : AgentRunStatus) → is_final status ≡ true → EndsRun (some (run_status status))
final_ends status h = ground arith

module _ {V : Type 0} (e : Executor) (resolve : Resolver) (others : OthersStep e resolve)
    (s : Store) where
  pub turn-Reached : (w : World V) → Reached e resolve s w → Reached e resolve s (turn e w)
  turn-Reached w t = trans t (others w.tick w.store)

  applied-Reached :
      (now : ℕ) (q : CommitRequest) (w : World V) (x : Result (CommitResult × Store))
      → commit_managed_state e.backend now q w.store ≡ x
      → EndsRun q.terminal
      → Reached e resolve s w
      → Reached e resolve s (applied w x).1
  applied-Reached now q w (ok (result, s')) h ends t = next t (commit now q ends h)
  applied-Reached now q w (err x) h ends t = t

  pub submit-Reached :
      (q : CommitRequest) (w : World V)
      → EndsRun q.terminal
      → Reached e resolve s w
      → Reached e resolve s (submit e q w).1
  unfolding submit
  submit-Reached q w ends t =
      applied-Reached (e.clock w.tick) q (turn e w)
        (commit_managed_state e.backend (e.clock w.tick) q (turn e w).store) refl ends
        (turn-Reached w t)

  submit_step-Reached :
      (step : AgentStepRecord) (x : Result Checkpoint) (w : World V)
      → Reached e resolve s w
      → Reached e resolve s (submit_step e step x w).1
  submit_step-Reached step (ok c) w t = submit-Reached _ w tt t
  submit_step-Reached step (err x) w t = t

  pub submit_terminal-Reached :
      (may_pause : Bool) (c : Checkpoint) (result : AgentRunResult) (x : Result Checkpoint)
      (w : World V)
      → is_final result.status ≡ true
      → Reached e resolve s w
      → Reached e resolve s (submit_terminal e may_pause c result x w).1
  submit_terminal-Reached may_pause c result (ok committed) w ends t =
      submit-Reached _ w (final_ends result.status ends) t
  submit_terminal-Reached may_pause c result (err x) w ends t = t

-- The action maker, the tools and the clock of an agent, which act outside the rows.
abbrev pub lifted : {V : Type 0} → ReActAgent V → ReActAgent (World V)
lifted a = record {
  make_next_action =
      λ s w. let r = a.make_next_action s w.outside in (r.0, record w { outside = r.1 });
  call_handler = λ name args w.
      let r = a.call_handler name args w.outside in (r.0, record w { outside = r.1 });
  elapsed_ms = λ w. let r = a.elapsed_ms w.outside in (r.0, record w { outside = r.1 });
  str_of_int = a.str_of_int;
  tools = a.tools;
  capture_tool_errors = a.capture_tool_errors;
  definition_version = a.definition_version;
}

pub runtime-Keeps :
    {V : Type 0} (e : Executor) (resolve : Resolver) (others : OthersStep e resolve) (s : Store)
    (a : ReActAgent V)
    → Keeps (Reached e resolve s) (lifted a) (database_runtime e)
runtime-Keeps e resolve others s a = record {
  load_checkpoint = λ w t. t;
  load_control_state = λ w t. turn-Reached e resolve others s w t;
  commit_checkpoint = λ c w t. submit-Reached e resolve others s _ w tt t;
  commit_step = λ step c w t.
      submit_step-Reached e resolve others s step (with_step e.str_of_int e.run_id c step) w t;
  commit_terminal = λ c result w ends t.
      submit_terminal-Reached e resolve others s true c result
        (with_result_steps e.str_of_int e.run_id c result) w ends t;
  make_next_action = λ s w t. t;
  call_handler = λ name args w t. t;
  elapsed_ms = λ w t. t;
}

-- Whatever the model and the tools do and however other clients' transactions fall between the
-- executor's, a run of the loop takes the rows to rows that a sequence of transactions reaches.
drive-Trace :
    {V : Type 0} (e : Executor) (resolve : Resolver) (a : ReActAgent V) (s : AgentRunState)
    (c : Checkpoint) (w : World V) (l : Log)
    → OthersStep e resolve
    → Trace e.backend resolve w.store (drive (lifted a) (database_runtime e) s c (w, l)).1.0.store
drive-Trace e resolve a s c w l others =
    (drive-Stays (lifted a) (database_runtime e) (runtime-Keeps e resolve others w.store a) s
        c).stay
      w l here
