-- ===== src/Agent/Loop/Safety.antt =====
-- The order in which the loop of pkg/agents/react.py commits, asks the model, calls tools and
-- yields events.
use agent_backend.Prelude.{
  ◌<>◌, ℕ, suc, ◌+◌, ◌≤◌, String, ◌≡◌, refl, Bool, true, false, not, ◌&&◌, ◌||◌, Option, none, some,
  [], ◌∷◌, arith, inl, inr, Result, Error, ◌⊎◌,
}
use agent_backend.Checkpoint.{Checkpoint, Phase, tool_in_flight}
use agent_backend.Agent.{
  max_steps_reached, StructuredTool, Value, find_tool, ℤ, Fields, AgentRunState, AgentStepRecord,
}
use agent_backend.Agent.Loop.{
  run_interrupted, run_completed, tool_args, tool_execution, tool_outcome, unknown_tool,
  with_status, call_registered, step_checkpoint, tool_error, Log, asked_model, called_tool,
  committed, yielded, AgentRunEventType, AgentCheckpointCommit, Runtime, ReActAgent, commit_with,
  pause, commit_ending, commit_final, commit_max_steps, execute_tool_call,
}
use agent_backend.Agent.Loop.Hoare.{
  Runs, >>=-Runs, if-Runs, act-Runs, give-Runs, read-Runs, log-Runs, weaken-Runs, give_ok-Runs,
}

abbrev is_end : AgentRunEventType → Bool
is_end run_interrupted = true
is_end run_completed = true
is_end _ = false

abbrev paused_in : Log → Bool
paused_in [] = false
paused_in (committed c paused ∷ l) = paused || paused_in l
paused_in (_ ∷ l) = paused_in l

abbrev ended_in : Log → Bool
ended_in [] = false
ended_in (yielded e ∷ l) = is_end e.kind || ended_in l
ended_in (_ ∷ l) = ended_in l

abbrev pub is_flight : Phase → Bool
is_flight tool_in_flight = true
is_flight _ = false

-- The last thing done is a commit that marks a tool as in flight, and did not pause.
abbrev pub flying : Log → Bool
flying (committed c false ∷ l) = is_flight c.phase
flying _ = false

abbrev pub calls : Log → ℕ
calls [] = 0
calls (called_tool name args ∷ l) = suc (calls l)
calls (_ ∷ l) = calls l

-- A tool is called only right after its commit as in flight; after a commit that paused there is
-- no call, no question to the model and no commit; and nothing is yielded after an event that ends
-- the run.
abbrev in_order : Log → Bool
in_order [] = true
in_order (asked_model ∷ l) = not (paused_in l) && in_order l
in_order (called_tool name args ∷ l) = flying l && (not (paused_in l) && in_order l)
in_order (committed c paused ∷ l) = not (paused_in l) && in_order l
in_order (yielded e ∷ l) = not (ended_in l) && in_order l

-- The run goes on, and may call `m` more tools of `b`.
abbrev pub Going : ℕ → ℕ → Log → Type 0
Going b m l = (in_order l ≡ true) × (paused_in l ≡ false) × (ended_in l ≡ false) × (calls l + m ≤ b)

abbrev pub Halted : ℕ → Log → Type 0
Halted b l = (in_order l ≡ true) × (ended_in l ≡ false) × (calls l ≤ b)

abbrev ends : Log → Bool
ends (yielded e ∷ l) = is_end e.kind
ends _ = false

abbrev pub Ended : ℕ → Log → Type 0
Ended b l = (in_order l ≡ true) × (ends l ≡ true) × (calls l ≤ b)

abbrev pub Answered : ℕ → ℕ → Checkpoint → AgentCheckpointCommit → Log → Type 0
Answered b m c commit l =
    Halted b l × ((commit.paused ≡ false) → Going b m l × (flying l ≡ is_flight c.phase))

pub Going-Halted : (b m : ℕ) (l : Log) → Going b m l → Halted b l
Going-Halted b m l g = ground arith

pub commit_with-Runs :
    {W : Type 0} (b m : ℕ) (c : Checkpoint) (f : W → Result AgentCheckpointCommit × W)
    → Runs (Going b m) (commit_with c f) (Answered b m c) (Halted b)
commit_with-Runs b m c f =
    >>=-Runs (λ _. Going b m) (act-Runs f (Going-Halted b m))
      λ commit.
        >>=-Runs (λ _. Answered b m c commit)
          (log-Runs (committed c commit.paused) (λ l g. logged l commit.paused g))
          λ _. give_ok-Runs commit (λ l q. q)
  where
    logged :
        (l : Log) (p : Bool)
        → Going b m l
        → Halted b (committed c p ∷ l)
          × ((p ≡ false)
              → Going b m (committed c p ∷ l) × (flying (committed c p ∷ l) ≡ is_flight c.phase))
    logged l true g = (ground arith, λ e. cc e)
    logged l false g = (ground arith, λ _. (ground arith, refl))

-- The stages that end the run leave one event that does so, and it is the last.
pub pause-Runs :
    {W : Type 0} (b : ℕ) (s : AgentRunState) (commit : AgentCheckpointCommit)
    → Runs {W = W} (Halted b) (pause s commit) (λ _. Ended b) (Halted b)
pause-Runs b s commit = log-Runs _ λ l h. ground arith

commit_ending-Runs :
    {W : Type 0} (b : ℕ) (s : AgentRunState) (commit : AgentCheckpointCommit)
    → Runs {W = W} (Halted b) (commit_ending s commit) (λ _. Ended b) (Halted b)
commit_ending-Runs b s commit =
    if-Runs commit.paused (pause-Runs b s commit) (log-Runs _ λ l h. ground arith)

pub commit_final-Runs :
    {W : Type 0} (b m : ℕ) (rt : Runtime W) (s : AgentRunState) (c : Checkpoint)
    (step : AgentStepRecord)
    → Runs (Going b m) (commit_final rt s c step) (λ _. Ended b) (Halted b)
unfolding commit_final
commit_final-Runs b m rt s c step = >>=-Runs (Answered b m c) (commit_with-Runs b m c _) λ commit.
    >>=-Runs (λ _. Halted b) (log-Runs _ (λ l q. ground (arith, q)))
      λ _. commit_ending-Runs b s commit

pub commit_max_steps-Runs :
    {W : Type 0} (b m : ℕ) (rt : Runtime W) (index : ℤ) (s : AgentRunState) (c : Checkpoint)
    → Runs (Going b m) (commit_max_steps rt index s c) (λ _. Ended b) (Halted b)
unfolding commit_max_steps
commit_max_steps-Runs b m rt index s c =
    >>=-Runs (Answered b m (step_checkpoint index c))
      (commit_with-Runs b m (step_checkpoint index c) _)
      λ commit.
        weaken-Runs (λ l q. q.0) (commit_ending-Runs b (with_status max_steps_reached s) commit)

-- Just before the tool of a round is called.
abbrev pub Launching : ℕ → ℕ → Log → Type 0
Launching b m l = Going b (suc m) l × (flying l ≡ true)

tool_error-Runs :
    {W : Type 0} (b m : ℕ) (capture : Bool) (text : String) (e : Error)
    → Runs {W = W} (Going b m) (tool_error capture text e) (λ _. Going b m) (Halted b)
tool_error-Runs b m true text e = give-Runs _ (Going-Halted b m)
tool_error-Runs b m false text e = give-Runs _ (Going-Halted b m)

tool_outcome-Runs :
    {W : Type 0} (b m : ℕ) (capture : Bool) (outcome : Value ⊎ String)
    → Runs {W = W} (Going b m) (tool_outcome capture outcome) (λ _. Going b m) (Halted b)
tool_outcome-Runs b m capture (inl value) = give-Runs _ (Going-Halted b m)
tool_outcome-Runs b m capture (inr text) = tool_error-Runs b m capture text tool_execution

call_registered-Runs :
    {W : Type 0} (b m : ℕ) (a : ReActAgent W) (t : Option StructuredTool) (name : String)
    (args : Fields) (id : String)
    → Runs (Launching b m) (call_registered a t name args id) (λ _. Going b m) (Halted b)
call_registered-Runs b m a none name args id =
    weaken-Runs (λ l g. ground (arith, g))
      (tool_error-Runs b m a.capture_tool_errors ("unknown tool: " <> name) unknown_tool)
call_registered-Runs b m a (some t) name args id =
    >>=-Runs (λ _. Going b m)
      (log-Runs (called_tool name (tool_args t.replay_policy args id)) (λ l g. ground (arith, g)))
      λ _.
        >>=-Runs (λ _. Going b m)
          (read-Runs (a.call_handler name (tool_args t.replay_policy args id)))
          λ outcome. tool_outcome-Runs b m a.capture_tool_errors outcome

pub execute_tool_call-Runs :
    {W : Type 0} (b m : ℕ) (a : ReActAgent W) (name : String) (args : Fields) (id : String)
    → Runs (Launching b m) (execute_tool_call a name args id) (λ _. Going b m) (Halted b)
unfolding execute_tool_call
execute_tool_call-Runs b m a name args id =
    call_registered-Runs b m a (find_tool a.tools name) name args id
