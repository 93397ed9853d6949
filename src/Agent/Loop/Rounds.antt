-- ===== src/Agent/Loop/Rounds.antt =====
-- The stages of `_drive` of pkg/agents/react.py put together: what a whole run does, in which
-- order, and how often.
use agent_backend.Prelude.{
  ℕ, zero, suc, String, ◌≡◌, refl, Bool, true, false, ◌&&◌, Option, none, some, arith, ℤ, pos, ◌+ℤ◌,
  if◌then◌else◌,
}
use agent_backend.Json.{Fields, null}
use agent_backend.Checkpoint.{Checkpoint, next_revision}
use agent_backend.Agent.{
  interrupted, completed, AgentRunState, AgentStepRecord, AgentAction, tool_call, final,
}
use agent_backend.Agent.Loop.{
  run_interrupted, with_status, serialize_agent_action, stable_tool_call_id, end_event,
  action_tool_call_id, step_event, log, Log, Proc, Runtime, ReActAgent, AgentCheckpointCommit,
  AgentControlState, should_stop, step_checkpoint, flight_checkpoint, action_checkpoint,
  answer_checkpoint, yielded, asked_model, add_step,
}
use agent_backend.Agent.Loop.Drive.{
  pending_payload, or_requested, require_checkpoint, step_of, Next, settle, control_stop_reason,
  run_tool, launch, follow, stop_run, choose, rounds,
}
use agent_backend.Agent.Loop.Hoare.{
  Runs, >>=-Runs, if-Runs, act-Runs, give-Runs, read-Runs, log-Runs, weaken-Runs, give_ok-Runs,
}
use agent_backend.Agent.Loop.Safety.{
  Going, Halted, Ended, Answered, Launching, Going-Halted, commit_with-Runs, pause-Runs,
  commit_final-Runs, commit_max_steps-Runs, execute_tool_call-Runs,
}

-- After a commit: the run goes on unless it paused.
abbrev MayGo : ℕ → ℕ → Bool → Log → Type 0
MayGo b m paused l = Halted b l × ((paused ≡ false) → Going b m l)

paused-Runs :
    {W A : Type 0} {Q : A → Log → Type 0} (b : ℕ) (R : Log → Type 0) (paused : Bool)
    (x y : Proc W A)
    → Runs (Halted b) x Q (Halted b)
    → Runs R y Q (Halted b)
    → Runs (λ l. Halted b l × ((paused ≡ false) → R l)) (if paused then x else y) Q (Halted b)
paused-Runs b R true x y h k = weaken-Runs (λ l q. q.0) h
paused-Runs b R false x y h k = weaken-Runs (λ l q. q.1 refl) k

step_event-Runs :
    {W : Type 0} (b m : ℕ) (s : AgentRunState) (step : AgentStepRecord) (c : Checkpoint)
    (commit : AgentCheckpointCommit)
    → Runs {W = W}
        (Answered b m c commit)
        (log (yielded (step_event s step commit.checkpoint)))
        (λ _. MayGo b m commit.paused)
        (Halted b)
step_event-Runs b m s step c commit =
    log-Runs (yielded (step_event s step commit.checkpoint))
      λ l q. (let h = q.0 in ground (arith, h), λ e. let g = q.1 e in ground (arith, g))

Launching-Halted : (b m : ℕ) (l : Log) → Launching b m l → Halted b l
Launching-Halted b m l g = ground (arith, g)

pub run_tool-Runs :
    {W : Type 0} (b m : ℕ) (a : ReActAgent W) (rt : Runtime W) (next : Next W) (name : String)
    (args : Fields) (call_id : Option String) (index : ℤ) (s : AgentRunState) (c : Checkpoint)
    → ((index : ℤ) (s : AgentRunState) (c : Checkpoint)
        → Runs (Going b m) (next index s c) (λ _. Ended b) (Halted b))
    → Runs
        (Launching b m)
        (run_tool a rt next name args call_id index s c)
        (λ _. Ended b)
        (Halted b)
unfolding run_tool
run_tool-Runs b m a rt next name args call_id index s c k =
    >>=-Runs (λ _. Launching b m)
      (give-Runs (pending_payload c.pending_action) (Launching-Halted b m))
      λ payload.
        >>=-Runs (λ _. Launching b m)
          (give-Runs (action_tool_call_id a.str_of_int payload s.run_id index)
            (Launching-Halted b m))
          λ id.
            >>=-Runs (λ _. Going b m) (execute_tool_call-Runs b m a name args id)
              λ outcome.
                >>=-Runs (λ _. Going b m) (read-Runs a.elapsed_ms)
                  λ elapsed.
                    >>=-Runs (Answered b m (step_checkpoint (index +ℤ pos 1) c))
                      (commit_with-Runs b m (step_checkpoint (index +ℤ pos 1) c) _)
                      λ commit.
                        >>=-Runs (λ _. MayGo b m commit.paused)
                          (step_event-Runs b m
                            (add_step
                              (step_of index (tool_call name args call_id) outcome.0 outcome.1
                                elapsed)
                              s)
                            (step_of index (tool_call name args call_id) outcome.0 outcome.1
                              elapsed)
                            (step_checkpoint (index +ℤ pos 1) c) commit)
                          λ _.
                            paused-Runs b (Going b m) commit.paused _ _
                              (pause-Runs b
                                (add_step
                                  (step_of index (tool_call name args call_id) outcome.0 outcome.1
                                    elapsed)
                                  s)
                                commit)
                              (k (index +ℤ pos 1)
                                (add_step
                                  (step_of index (tool_call name args call_id) outcome.0 outcome.1
                                    elapsed)
                                  s)
                                commit.checkpoint)

pub launch-Runs :
    {W : Type 0} (b m : ℕ) (a : ReActAgent W) (rt : Runtime W) (next : Next W) (name : String)
    (args : Fields) (call_id : Option String) (index : ℤ) (s : AgentRunState) (c : Checkpoint)
    → ((index : ℤ) (s : AgentRunState) (c : Checkpoint)
        → Runs (Going b m) (next index s c) (λ _. Ended b) (Halted b))
    → Runs
        (Going b (suc m))
        (launch a rt next name args call_id index s c)
        (λ _. Ended b)
        (Halted b)
unfolding launch next_revision
launch-Runs b m a rt next name args call_id index s c k =
    >>=-Runs (Answered b (suc m) (flight_checkpoint c))
      (commit_with-Runs b (suc m) (flight_checkpoint c) _)
      λ commit.
        weaken-Runs (λ l q. (q.0, λ e. let (g, f) = q.1 e in (g, f)))
          (paused-Runs b (Launching b m) commit.paused _ _ (pause-Runs b s commit)
            (run_tool-Runs b m a rt next name args call_id index s commit.checkpoint k))

-- After the control state asked to stop, the run may be settled by a commit, and only ends.
abbrev Stopping : ℕ → ℕ → Option String → Log → Type 0
Stopping b m none l = Going b m l
Stopping b m (some reason) l = Halted b l

settle-Runs :
    {W : Type 0} (b m : ℕ) (rt : Runtime W) (control : AgentControlState)
    → Runs (Going b m) (settle rt control) (λ _. Halted b) (Halted b)
unfolding settle
settle-Runs b m rt control =
    if-Runs (control.lease_owned && control.interrupt_requested)
      (>>=-Runs (λ _. Going b m) (act-Runs rt.load_checkpoint (Going-Halted b m))
        λ loaded.
          >>=-Runs (λ _. Going b m) (give-Runs (require_checkpoint loaded) (Going-Halted b m))
            λ c.
              >>=-Runs (Answered b m (next_revision (λ c. c) c))
                (commit_with-Runs b m (next_revision (λ c. c) c) _)
                λ commit. give_ok-Runs tt (λ l q. q.0))
      (give_ok-Runs tt (Going-Halted b m))

control_stop_reason-Runs :
    {W : Type 0} (b m : ℕ) (rt : Runtime W)
    → Runs (Going b m) (control_stop_reason rt) (Stopping b m) (Halted b)
unfolding control_stop_reason
control_stop_reason-Runs b m rt =
    >>=-Runs (λ _. Going b m) (act-Runs rt.load_control_state (Going-Halted b m))
      λ control.
        if-Runs (should_stop control)
          (>>=-Runs (λ _. Halted b) (settle-Runs b m rt control)
            λ _. give_ok-Runs (some (or_requested control.stop_reason)) (λ l q. q))
          (give_ok-Runs none (λ l q. q))

stop_run-Runs :
    {W : Type 0} (b : ℕ) (rt : Runtime W) (s : AgentRunState) (reason : String)
    → Runs (Halted b) (stop_run rt s reason) (λ _. Ended b) (Halted b)
stop_run-Runs b rt s reason =
    >>=-Runs (λ _. Halted b) (act-Runs rt.load_checkpoint (λ l q. q))
      λ c.
        log-Runs (yielded (end_event run_interrupted (with_status interrupted s) c (some reason)))
          λ l h. ground (arith, h)

follow-Runs :
    {W : Type 0} (b m : ℕ) (a : ReActAgent W) (rt : Runtime W) (next : Next W) (index : ℤ)
    (s : AgentRunState) (c : Checkpoint) (action : Option AgentAction)
    → ((index : ℤ) (s : AgentRunState) (c : Checkpoint)
        → Runs (Going b m) (next index s c) (λ _. Ended b) (Halted b))
    → Runs (Going b (suc m)) (follow a rt next index s c action) (λ _. Ended b) (Halted b)
unfolding follow
follow-Runs b m a rt next index s c none k = record { run = λ w l g. Going-Halted b (suc m) l g }
follow-Runs b m a rt next index s c (some (final answer)) k =
    >>=-Runs (λ _. Going b (suc m)) (read-Runs a.elapsed_ms)
      λ elapsed.
        commit_final-Runs b (suc m) rt
          (record (add_step (step_of index (final answer) null none elapsed) s) {
            final_answer = some answer;
            status = completed;
          })
          (answer_checkpoint answer c) (step_of index (final answer) null none elapsed)
follow-Runs b m a rt next index s c (some (tool_call name args call_id)) k =
    >>=-Runs (λ _. Going b (suc m))
      (give-Runs (stable_tool_call_id a.str_of_int s.run_id index) (Going-Halted b (suc m)))
      λ id.
        >>=-Runs
          (Answered b (suc m)
            (action_checkpoint (serialize_agent_action (tool_call name args call_id) (some id)) c))
          (commit_with-Runs b (suc m)
            (action_checkpoint (serialize_agent_action (tool_call name args call_id) (some id)) c)
            _)
          λ commit.
            weaken-Runs (λ l q. (q.0, λ e. (q.1 e).0))
              (paused-Runs b (Going b (suc m)) commit.paused _ _ (pause-Runs b s commit)
                (launch-Runs b m a rt next name args call_id index s commit.checkpoint k))

choose-Runs :
    {W : Type 0} (b m : ℕ) (a : ReActAgent W) (rt : Runtime W) (next : Next W) (index : ℤ)
    (s : AgentRunState) (c : Checkpoint) (stop : Option String)
    → ((index : ℤ) (s : AgentRunState) (c : Checkpoint)
        → Runs (Going b m) (next index s c) (λ _. Ended b) (Halted b))
    → Runs (Stopping b (suc m) stop) (choose a rt next index s c stop) (λ _. Ended b) (Halted b)
unfolding choose
choose-Runs b m a rt next index s c (some reason) k = stop_run-Runs b rt s reason
choose-Runs b m a rt next index s c none k =
    >>=-Runs (λ _. Going b (suc m)) (log-Runs asked_model (λ l g. ground (arith, g)))
      λ _.
        >>=-Runs (λ _. Going b (suc m)) (act-Runs (a.make_next_action s) (Going-Halted b (suc m)))
          λ action. follow-Runs b m a rt next index s c action k

pub rounds-Runs :
    {W : Type 0} (b : ℕ) (a : ReActAgent W) (rt : Runtime W) (n : ℕ) (index : ℤ) (s : AgentRunState)
    (c : Checkpoint)
    → Runs (Going b n) (rounds a rt n index s c) (λ _. Ended b) (Halted b)
unfolding rounds
rounds-Runs b a rt zero index s c = commit_max_steps-Runs b 0 rt index s c
rounds-Runs b a rt (suc n) index s c =
    >>=-Runs (Stopping b (suc n)) (control_stop_reason-Runs b (suc n) rt)
      λ stop. choose-Runs b n a rt (rounds a rt n) index s c stop (rounds-Runs b a rt n)
