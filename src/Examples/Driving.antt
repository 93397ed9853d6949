-- ===== src/Examples/Driving.antt =====
-- The theorem on the durable loop at a sample agent and runtime.
use agent_backend.Checkpoint.{next_revision}
use agent_backend.Agent.Actions.{serialize_agent_action, action_tool_call_id, stable_tool_call_id}
use agent_backend.Agent.Loop.Safety.{calls, Halted, Ended}
use agent_backend.Agent.Loop.Hoare.{Post}
use agent_backend.Agent.Loop.Drive.{
  run_tool, launch, follow, choose, settle, control_stop_reason, rounds, drive,
}
use agent_backend.Prelude.{◌≡◌, refl, true, false, none, some, List, [], ◌∷◌, pos, ok, inl}
use agent_backend.Json.{str}
use agent_backend.Agent.{AgentAction, final, AgentStepRecord, AgentRunState, running}
use agent_backend.Agent.Loop.{
  ◌>>=◌, commit_final, execute_tool_call, ReActAgent, Runtime, committed,
}
use agent_backend.Agent.Loop.Whole.{drive_fits}
use agent_backend.Examples.{RunStatus, started}
use agent_backend.Examples.Agents.{unary_int, clock_call, clock_tool}

abbrev next_of : List AgentStepRecord → AgentAction
next_of [] = clock_call
next_of (_ ∷ _) = final "noon"

-- An agent that asks for the clock and then answers, in a world without state.
abbrev pub clock_agent : ReActAgent (Unit {0})
clock_agent = record {
  make_next_action = λ s w. (ok (some (next_of s.steps)), w);
  call_handler = λ name args w. (inl (str "12:00"), w);
  elapsed_ms = λ w. (0, w);
  str_of_int = unary_int;
  tools = clock_tool ∷ [];
  capture_tool_errors = true;
  definition_version = "v1";
}

-- A runtime that stores every commit and never asks to stop.
abbrev calm : Runtime (Unit {0})
calm = record {
  load_checkpoint = λ w. (ok none, w);
  load_control_state = λ w. (
    ok (record {
      status = RunStatus.running;
      revision = pos 0;
      attempt_no = 1;
      interrupt_requested = false;
      lease_owned = true;
      stop_reason = none;
    }),
    w,
  );
  commit_checkpoint =
      λ c w. (ok (record { checkpoint = c; paused = false; stop_reason = none }), w);
  commit_step = λ step c w. (ok (record { checkpoint = c; paused = false; stop_reason = none }), w);
  commit_terminal =
      λ c result w. (ok (record { checkpoint = c; paused = false; stop_reason = none }), w);
}

abbrev pub fresh_state : AgentRunState
fresh_state = record {
  run_id = "r1";
  user_input = "what time is it?";
  max_steps = pos 5;
  status = running;
  steps = [];
  final_answer = none;
}

drive_fits_example :
    Post
      (λ _. Ended 5)
      (Halted 5)
      (drive clock_agent calm fresh_state started (tt, committed started false ∷ []))
drive_fits_example = drive_fits clock_agent calm fresh_state started tt

-- The run calls the clock once.
calls_clock :
    calls (drive clock_agent calm fresh_state started (tt, committed started false ∷ [])).1.1 ≡ 1
unfolding drive rounds control_stop_reason settle choose follow launch run_tool execute_tool_call
    commit_final stable_tool_call_id action_tool_call_id serialize_agent_action next_revision ◌>>=◌
calls_clock = refl
