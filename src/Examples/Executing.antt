-- ===== src/Examples/Executing.antt =====
-- The theorems on the execution of managed runs at sample rows and a sample service.
use agent_backend.Store.Claim.{new_attempt, claim_managed_run, leased}
use agent_backend.Execution.Rereading.{OnlyRecovered}
use agent_backend.Execution.Resumed.{resume_unreadable, resume-Trace, resume_repeated}
use agent_backend.Execution.Failing.{attempt_failed, AfterFailure, EndsUnder}
use agent_backend.Execution.Attempt.{run_agent_events}
use agent_backend.Execution.Checks.{verify_compatibility}
use agent_backend.Store.Starting.{Started}
use agent_backend.Checkpoint.Decode.{decode_raw, decode_checkpoint}
use agent_backend.Execution.Resume.{Surroundings, resume_run}
use mathlib.Core.Bool.{false≢true}
use agent_backend.Execution.CountedSteps.{with_result_steps-StepsFit}
use agent_backend.Checkpoint.WellFormed.{StepsFit}
use agent_backend.Store.Rows.{decoded, decode_checkpoint_row}
use agent_backend.Execution.StepRecords.{with_result_steps}
use agent_backend.Agent.Loop.{AgentRunResult, ◌>>=◌}
use agent_backend.Prelude.{
  true, ℕ, ◌⊎◌, app, agent_run_state_conflict, attribute_error, eq_iff, arith, length, ◌≡◌, ◌≢◌,
  ◌↔◌, refl, none, some, [], ◌∷◌, pos, ok, runtime_error,
}
use agent_backend.Checkpoint.{routing, Checkpoint}
use agent_backend.Agent.{AgentRunStatus, require_recovery}
use agent_backend.Store.{Run, RunState, recovery_required, running}
use agent_backend.Store.Steps.{Trace, here, LeaseFits}
use agent_backend.Store.Answer.{AnsweredOnce}
use agent_backend.Execution.{World, Executor, turn}
use agent_backend.Execution.Definitions.{Definitions, resolve_stale_status, resolve_tools}
use agent_backend.Execution.Stale.{stale-assess}
use agent_backend.Execution.Checks.{Service, AgentRoute}
use agent_backend.Execution.Finish.{attempt}
use agent_backend.Execution.Composition.{attempt-Trace, attempt-AnsweredOnce}
use agent_backend.Examples.{
  err, claim_of, end, Store, created, ready_run, backend, started, in_flight, park,
}
use agent_backend.Examples.Agents.{not_empty, clock_step, unary_int, clock_tool, clock_assessed}
use agent_backend.Examples.Codec.{in_flight-IsWellFormed}
use agent_backend.Examples.Driving.{clock_agent}
use agent_backend.Examples.Fencing.{claimed}

-- The executor that holds the token "t1"; no other client makes a transaction.
abbrev executor : Executor
executor = record {
  backend = backend;
  user_id = "u1";
  run_id = "r1";
  lease_token = "t1";
  clock = λ _. 110;
  others = λ n s. s;
  str_of_int = unary_int;
  str_of_object = λ n. "object";
  finishes = λ n. true;
}

abbrev claimed_world : World (Unit {0})
claimed_world = record {
  store = claimed;
  checkpoint = started;
  revision = pos 0;
  tick = 0;
  outside = tt;
}

-- A registry whose order agent has the clock.
abbrev definitions : Definitions
definitions = record {
  definition_version = "v1";
  order_tools = clock_tool ∷ [];
  payment_tools = [];
}

abbrev stale_run : RunState
stale_run = record {
  run = record ready_run { agent_name = "order_support"; status = running };
  checkpoint = some in_flight;
  attempt_no = 1;
}

order_tools_resolved : resolve_tools definitions "order_support" "v1" ≡ ok (clock_tool ∷ [])
unfolding resolve_tools
order_tools_resolved = refl

-- The clock that was in flight may not be replayed.
stale-assess_example :
    ((resolve_stale_status definitions stale_run).0 ≡ recovery_required)
    ↔ (require_recovery ≡ require_recovery)
stale-assess_example =
    stale-assess definitions stale_run in_flight (clock_tool ∷ []) refl in_flight-IsWellFormed
      order_tools_resolved clock_assessed

-- A service whose router sends every question to the order agent.
abbrev pub service : Service (Unit {0})
service = record {
  definitions = definitions;
  order_agent = λ max_steps session_context. clock_agent;
  payment_agent = λ max_steps session_context. clock_agent;
  provider = "openai";
  model = "m1";
  route = λ question w. (ok AgentRoute.order, w);
  get_pending_action = λ token w. (ok none, w);
  text_of_error = λ e. "error";
}

attempt-Trace_example :
    Trace backend park claimed (attempt executor service 1 started claimed_world).1.0.store
attempt-Trace_example = attempt-Trace executor service park 1 started claimed_world λ n s. here

claimed-LeaseFits : LeaseFits claimed.run
claimed-LeaseFits = (refl, refl)

attempt-AnsweredOnce_example :
    AnsweredOnce 4 (attempt executor service 1 started claimed_world).1.0.store
attempt-AnsweredOnce_example =
    attempt-AnsweredOnce executor service 1 started claimed_world (λ n s. here) claimed-LeaseFits
      refl

token_not_empty : executor.lease_token ≢ ""
token_not_empty h = false≢true ((eq_iff "t1" "").1 h)

abbrev result : AgentRunResult
result = record {
  run_id = "r1";
  status = AgentRunStatus.completed;
  final_answer = some "noon";
  steps = clock_step ∷ [];
}

pub run_not_empty : executor.run_id ≢ ""
run_not_empty h = false≢true ((eq_iff "r1" "").1 h)

with_result_steps-StepsFit_example :
    (c' : Checkpoint) × (with_result_steps unary_int "r1" started result ≡ ok c')
    × StepsFit 0 c'.steps
    × (c'.next_step_index ≡ pos 1)
    × (length c'.steps ≡ 1)
with_result_steps-StepsFit_example =
    with_result_steps-StepsFit unary_int "r1" started result run_not_empty tt refl (omega arith)
      (refl, not_empty "clock" refl, tt)

-- The executor whose clock has passed the lease.
abbrev late_executor : Executor
late_executor = record executor { clock = λ _. 200 }

keys_differ : (claim_of "k1" "t1").request_key ≢ (claim_of "k2" "t2").request_key
keys_differ h = false≢true ((eq_iff "k1" "k2").1 h)

abbrev leased_run : Run
leased_run = leased 100 (claim_of "k1" "t1") ready_run

abbrev resumable : Surroundings (Unit {0})
resumable = record { store = created; tick = 0; outside = tt }

resume-Trace_example :
    Trace backend
      (resolve_stale_status definitions)
      created
      (resume_run executor service (claim_of "k1" "t1") resumable).1.store
resume-Trace_example = resume-Trace executor service (claim_of "k1" "t1") resumable λ n s. here

-- A checkpoint row whose payload has no field.
abbrev unreadable : Store
unreadable = record created {
  checkpoint = some (record {
    run_id = "r1";
    schema_version = pos 1;
    revision = pos 0;
    phase = routing;
    next_step_index = pos 0;
    payload = end;
  });
}

nothing_decoded : decoded backend unreadable.checkpoint ≡ ok none
unfolding decode_checkpoint_row decode_checkpoint decode_raw
nothing_decoded = refl

resume_unreadable_example :
    (n : ℕ) × (s' : Store) × (resume_run executor service
        (claim_of "k1" "t1")
        (record resumable { store = unreadable })
      ≡ (err attribute_error, record resumable { store = s'; tick = 1 }))
    × Started 110 (claim_of "k1" "t1") unreadable s' n
    × (claim_managed_run backend 150 (resolve_stale_status definitions) (claim_of "k2" "t2") s'
        ≡ err (app agent_run_state_conflict))
resume_unreadable_example =
    resume_unreadable executor service (claim_of "k1" "t1") (claim_of "k2" "t2")
      (record resumable { store = unreadable }) ready_run 150 refl refl refl refl refl
      nothing_decoded refl keys_differ refl (omega arith)

-- The lease of the first claim has run out when the same key comes again.
resume_repeated_example :
    ((resume_run late_executor service
        (claim_of "k1" "t2")
        (record resumable { store = claimed })).1.outside
      ≡ tt)
    × (((resume_run late_executor service
            (claim_of "k1" "t2")
            (record resumable { store = claimed })).1.store
          ≡ claimed)
        ⊎ OnlyRecovered 200 claimed
            (resume_run late_executor service
              (claim_of "k1" "t2")
              (record resumable { store = claimed })).1.store)
resume_repeated_example =
    resume_repeated late_executor service (claim_of "k1" "t2")
      (record resumable { store = claimed }) (new_attempt 100 (claim_of "k1" "t1") 1) refl

-- A service whose router is out of order.
abbrev broken : Service (Unit {0})
broken = record service { route = λ question w. (err runtime_error, w) }

broken_raised : (attempt executor broken 1 started claimed_world).0 ≡ err runtime_error
unfolding attempt run_agent_events verify_compatibility ◌>>=◌
broken_raised = refl

broken_row :
    (turn executor (run_agent_events executor broken 1 started (claimed_world, [])).1.0).store.run
    ≡ some leased_run
unfolding run_agent_events verify_compatibility ◌>>=◌
broken_row = refl

attempt_failed_example :
    (r' : Run) × ((attempt executor broken 1 started claimed_world).1.0.store.run ≡ some r')
    × AfterFailure
        (EndsUnder executor
          (run_agent_events executor broken 1 started (claimed_world, [])).1.0
          leased_run)
        runtime_error
        (run_agent_events executor broken 1 started (claimed_world, [])).1.0.checkpoint.phase
        leased_run
        r'
attempt_failed_example =
    attempt_failed executor broken 1 started claimed_world runtime_error leased_run broken_raised
      broken_row refl
