-- ===== src/Agent/Loop/Frame.antt =====
-- The stages of `_drive` of pkg/agents/react.py keep what the runtime and the agent keep of the
-- world.
use agent_backend.Prelude.{
  ℕ, zero, suc, String, ◌≡◌, refl, Bool, true, false, ◌&&◌, Option, none, some, ℤ, pos, ◌+ℤ◌,
  Result, Error, ◌⊎◌, inl, inr, length,
}
use agent_backend.Json.{Value, Fields}
use agent_backend.Checkpoint.{
  Checkpoint, Phase, routing, before_action, before_tool, tool_in_flight, final_ready,
  next_revision,
}
use agent_backend.Agent.{
  AgentRunState, AgentStepRecord, AgentAction, tool_call, final, max_steps_reached, StructuredTool,
  find_tool,
}
use agent_backend.Agent.Loop.{
  with_status, should_stop, Proc, Runtime, ReActAgent, AgentCheckpointCommit, AgentControlState,
  commit_with, tool_error, tool_outcome, call_registered, execute_tool_call, commit_ending,
  commit_final, commit_max_steps, tool_args,
}
use agent_backend.Agent.Loop.Drive.{
  Next, settle, control_stop_reason, run_tool, launch, follow, choose, rounds, from_phase, drive,
  rounds_left, if_room,
}
use agent_backend.Agent.Loop.World.{
  Stays, Keeps, is_final, >>=-Stays, if-Stays, act-Stays, read-Stays, give-Stays, log-Stays,
}

module _ {W : Type 0} {I : W → Type 0} (a : ReActAgent W) (rt : Runtime W)
    (keeps : Keeps I a rt) where
  commit_with-Stays :
      (c : Checkpoint) (f : W → Result AgentCheckpointCommit × W)
      → ((w : W) → I w → I (f w).1)
      → Stays I (commit_with c f)
  commit_with-Stays c f h =
      >>=-Stays (act-Stays f h) λ commit. >>=-Stays (log-Stays _ refl) λ _. give-Stays _

  commit_ending-Stays :
      (s : AgentRunState) (commit : AgentCheckpointCommit)
      → is_final s.status ≡ true
      → Stays I (commit_ending {W = W} s commit)
  commit_ending-Stays s commit e = if-Stays commit.paused (log-Stays _ refl) (log-Stays _ e)

  commit_final-Stays :
      (s : AgentRunState) (c : Checkpoint) (step : AgentStepRecord)
      → is_final s.status ≡ true
      → Stays I (commit_final rt s c step)
  unfolding commit_final
  commit_final-Stays s c step e =
      >>=-Stays (commit_with-Stays c _ λ w. keeps.commit_terminal c _ w e)
        λ commit. >>=-Stays (log-Stays _ refl) λ _. commit_ending-Stays s commit e

  commit_max_steps-Stays :
      (index : ℤ) (s : AgentRunState) (c : Checkpoint) → Stays I (commit_max_steps rt index s c)
  unfolding commit_max_steps
  commit_max_steps-Stays index s c =
      >>=-Stays (commit_with-Stays _ _ λ w. keeps.commit_terminal _ _ w refl)
        λ commit. commit_ending-Stays (with_status max_steps_reached s) commit refl

  tool_error-Stays :
      (capture : Bool) (text : String) (e : Error) → Stays I (tool_error {W = W} capture text e)
  tool_error-Stays true text e = give-Stays _
  tool_error-Stays false text e = give-Stays _

  tool_outcome-Stays :
      (capture : Bool) (outcome : Value ⊎ String) → Stays I (tool_outcome {W = W} capture outcome)
  tool_outcome-Stays capture (inl value) = give-Stays _
  tool_outcome-Stays capture (inr text) = tool_error-Stays capture text _

  call_registered-Stays :
      (t : Option StructuredTool) (name : String) (args : Fields) (id : String)
      → Stays I (call_registered a t name args id)
  call_registered-Stays none name args id = tool_error-Stays a.capture_tool_errors _ _
  call_registered-Stays (some t) name args id = >>=-Stays (log-Stays _ refl) λ _.
      >>=-Stays (read-Stays _ (keeps.call_handler name (tool_args t.replay_policy args id)))
        λ outcome. tool_outcome-Stays a.capture_tool_errors outcome

  execute_tool_call-Stays :
      (name : String) (args : Fields) (id : String) → Stays I (execute_tool_call a name args id)
  unfolding execute_tool_call
  execute_tool_call-Stays name args id = call_registered-Stays (find_tool a.tools name) name args id

  settle-Stays : (control : AgentControlState) → Stays I (settle rt control)
  unfolding settle
  settle-Stays control =
      if-Stays (control.lease_owned && control.interrupt_requested)
        (>>=-Stays (act-Stays _ keeps.load_checkpoint) λ loaded. >>=-Stays (give-Stays _) λ c.
          >>=-Stays (commit_with-Stays _ _ (keeps.commit_checkpoint (next_revision (λ c. c) c)))
            λ _. give-Stays _)
        (give-Stays _)

  control_stop_reason-Stays : Stays I (control_stop_reason rt)
  unfolding control_stop_reason
  control_stop_reason-Stays = >>=-Stays (act-Stays _ keeps.load_control_state) λ control.
      if-Stays (should_stop control) (>>=-Stays (settle-Stays control) λ _. give-Stays _)
        (give-Stays _)

  module _ (next : Next W)
      (k : (index : ℤ) (s : AgentRunState) (c : Checkpoint) → Stays I (next index s c)) where
    run_tool-Stays :
        (name : String) (args : Fields) (call_id : Option String) (index : ℤ) (s : AgentRunState)
        (c : Checkpoint)
        → Stays I (run_tool a rt next name args call_id index s c)
    unfolding run_tool
    run_tool-Stays name args call_id index s c = >>=-Stays (give-Stays _) λ payload.
        >>=-Stays (give-Stays _) λ id. >>=-Stays (execute_tool_call-Stays name args id) λ outcome.
          >>=-Stays (read-Stays _ keeps.elapsed_ms) λ elapsed.
            >>=-Stays (commit_with-Stays _ _ (keeps.commit_step _ _)) λ commit.
              >>=-Stays (log-Stays _ refl) λ _.
                if-Stays commit.paused (log-Stays _ refl) (k (index +ℤ pos 1) _ commit.checkpoint)

    launch-Stays :
        (name : String) (args : Fields) (call_id : Option String) (index : ℤ) (s : AgentRunState)
        (c : Checkpoint)
        → Stays I (launch a rt next name args call_id index s c)
    unfolding launch
    launch-Stays name args call_id index s c =
        >>=-Stays (commit_with-Stays _ _ (keeps.commit_checkpoint _)) λ commit.
          if-Stays commit.paused (log-Stays _ refl)
            (run_tool-Stays name args call_id index s commit.checkpoint)

    follow-Stays :
        (index : ℤ) (s : AgentRunState) (c : Checkpoint) (action : Option AgentAction)
        → Stays I (follow a rt next index s c action)
    unfolding follow
    follow-Stays index s c none = give-Stays _
    follow-Stays index s c (some (final answer)) =
        >>=-Stays (read-Stays _ keeps.elapsed_ms) λ elapsed. commit_final-Stays _ _ _ refl
    follow-Stays index s c (some (tool_call name args call_id)) = >>=-Stays (give-Stays _) λ id.
        >>=-Stays (commit_with-Stays _ _ (keeps.commit_checkpoint _)) λ commit.
          if-Stays commit.paused (log-Stays _ refl)
            (launch-Stays name args call_id index s commit.checkpoint)

    choose-Stays :
        (index : ℤ) (s : AgentRunState) (c : Checkpoint) (stop : Option String)
        → Stays I (choose a rt next index s c stop)
    unfolding choose
    choose-Stays index s c (some reason) =
        >>=-Stays (act-Stays _ keeps.load_checkpoint) λ loaded. log-Stays _ refl
    choose-Stays index s c none = >>=-Stays (log-Stays _ refl) λ _.
        >>=-Stays (act-Stays _ (keeps.make_next_action s)) λ action. follow-Stays index s c action

  rounds-Stays :
      (n : ℕ) (index : ℤ) (s : AgentRunState) (c : Checkpoint) → Stays I (rounds a rt n index s c)
  unfolding rounds
  rounds-Stays zero index s c = commit_max_steps-Stays index s c
  rounds-Stays (suc n) index s c =
      >>=-Stays control_stop_reason-Stays
        λ stop. choose-Stays (rounds a rt n) (rounds-Stays n) index s c stop

  if_room-Stays :
      (n : ℕ) (index : ℤ) (s : AgentRunState) (c : Checkpoint) (stage : ℕ → Proc W (Unit {0}))
      → ((m : ℕ) → Stays I (stage m))
      → Stays I (if_room rt n index s c stage)
  if_room-Stays zero index s c stage h = commit_max_steps-Stays index s c
  if_room-Stays (suc m) index s c stage h = h m

  from_phase-Stays :
      (p : Phase) (n : ℕ) (index : ℤ) (s : AgentRunState) (c : Checkpoint)
      → Stays I (from_phase a rt p n index s c)
  from_phase-Stays routing n index s c = rounds-Stays n index s c
  from_phase-Stays before_action n index s c = rounds-Stays n index s c
  from_phase-Stays before_tool n index s c = >>=-Stays (give-Stays _) λ call.
      if_room-Stays n index s c _
        λ m. launch-Stays (rounds a rt m) (rounds-Stays m) call.0 call.1 call.2 index s c
  from_phase-Stays tool_in_flight n index s c = >>=-Stays (give-Stays _) λ call.
      if_room-Stays n index s c _
        λ m. run_tool-Stays (rounds a rt m) (rounds-Stays m) call.0 call.1 call.2 index s c
  from_phase-Stays final_ready n index s c = commit_final-Stays _ c _ refl

  -- Whatever the runtime and the agent keep of the world, a whole run keeps.
  pub drive-Stays : (s : AgentRunState) (c : Checkpoint) → Stays I (drive a rt s c)
  unfolding drive
  drive-Stays s c =
      from_phase-Stays c.phase (rounds_left s.max_steps (length s.steps)) (pos (length s.steps)) s c
