-- ===== src/Agent/Loop/Whole.antt =====
-- A whole run of `_drive` of pkg/agents/react.py with a runtime, from any phase.
use agent_backend.Prelude.{
  ℕ, zero, suc, String, ◌≡◌, refl, false, Option, [], ◌∷◌, arith, ℤ, pos, length,
}
use agent_backend.Checkpoint.{
  Checkpoint, Phase, routing, before_action, before_tool, tool_in_flight, final_ready,
}
use agent_backend.Agent.{Fields, completed, AgentRunState}
use agent_backend.Agent.Actions.{parse_agent_action}
use agent_backend.Agent.Resume.{or_empty}
use agent_backend.Agent.Loop.{Log, committed, Runtime, ReActAgent, add_step}
use agent_backend.Agent.Loop.Drive.{
  if_room, rounds, from_phase, drive, rounds_left, restored_call, final_step, launch, run_tool,
}
use agent_backend.Agent.Loop.Hoare.{Post, Runs, >>=-Runs, give-Runs, weaken-Runs}
use agent_backend.Agent.Loop.Safety.{
  Going, Halted, Ended, Going-Halted, commit_final-Runs, commit_max_steps-Runs, flying, is_flight,
}
use agent_backend.Agent.Loop.Rounds.{run_tool-Runs, launch-Runs, rounds-Runs}

-- All rounds are left, and the last thing done is the commit of the phase.
abbrev Starting : ℕ → Phase → Log → Type 0
Starting n p l = Going n n l × (flying l ≡ is_flight p)

Starting-Halted : (n : ℕ) (p : Phase) (l : Log) → Starting n p l → Halted n l
Starting-Halted n p l g = Going-Halted n n l g.0

if_room-launch :
    {W : Type 0} (n : ℕ) (a : ReActAgent W) (rt : Runtime W)
    (call : String × Fields × Option String) (index : ℤ) (s : AgentRunState) (c : Checkpoint)
    → Runs
        (Starting n before_tool)
        (if_room rt n index s c (λ m. launch a rt (rounds a rt m) call.0 call.1 call.2 index s c))
        (λ _. Ended n)
        (Halted n)
if_room-launch zero a rt call index s c =
    weaken-Runs (λ l g. g.0) (commit_max_steps-Runs 0 0 rt index s c)
if_room-launch (suc m) a rt call index s c =
    weaken-Runs (λ l g. g.0)
      (launch-Runs (suc m) m a rt (rounds a rt m) call.0 call.1 call.2 index s c
        (rounds-Runs (suc m) a rt m))

if_room-run_tool :
    {W : Type 0} (n : ℕ) (a : ReActAgent W) (rt : Runtime W)
    (call : String × Fields × Option String) (index : ℤ) (s : AgentRunState) (c : Checkpoint)
    → Runs
        (Starting n tool_in_flight)
        (if_room rt n index s c (λ m. run_tool a rt (rounds a rt m) call.0 call.1 call.2 index s c))
        (λ _. Ended n)
        (Halted n)
if_room-run_tool zero a rt call index s c =
    weaken-Runs (λ l g. g.0) (commit_max_steps-Runs 0 0 rt index s c)
if_room-run_tool (suc m) a rt call index s c =
    run_tool-Runs (suc m) m a rt (rounds a rt m) call.0 call.1 call.2 index s c
      (rounds-Runs (suc m) a rt m)

from_phase-Runs :
    {W : Type 0} (p : Phase) (n : ℕ) (a : ReActAgent W) (rt : Runtime W) (index : ℤ)
    (s : AgentRunState) (c : Checkpoint)
    → Runs (Starting n p) (from_phase a rt p n index s c) (λ _. Ended n) (Halted n)
from_phase-Runs routing n a rt index s c = weaken-Runs (λ l g. g.0) (rounds-Runs n a rt n index s c)
from_phase-Runs before_action n a rt index s c =
    weaken-Runs (λ l g. g.0) (rounds-Runs n a rt n index s c)
from_phase-Runs before_tool n a rt index s c =
    >>=-Runs (λ _. Starting n before_tool)
      (give-Runs (restored_call (parse_agent_action (or_empty c.pending_action)))
        (Starting-Halted n before_tool))
      λ call. if_room-launch n a rt call index s c
from_phase-Runs tool_in_flight n a rt index s c =
    >>=-Runs (λ _. Starting n tool_in_flight)
      (give-Runs (restored_call (parse_agent_action (or_empty c.pending_action)))
        (Starting-Halted n tool_in_flight))
      λ call. if_room-run_tool n a rt call index s c
from_phase-Runs final_ready n a rt index s c =
    weaken-Runs (λ l g. g.0)
      (commit_final-Runs n n rt
        (record (add_step (final_step index c.final_answer) s) {
          final_answer = c.final_answer;
          status = completed;
        })
        c (final_step index c.final_answer))

-- A run from a committed checkpoint, whatever the runtime, the model and the tools answer, keeps to
-- the order: it calls a tool only right after it committed that a tool is in flight (or the
-- checkpoint it starts from says so), and after a commit that paused it commits nothing, asks no
-- model and calls no tool. It calls no more tools than there are steps left. If it returns, the
-- last thing it did is to yield the only event that ends the run; if it raises, it has yielded none.
pub drive_fits :
    {W : Type 0} (a : ReActAgent W) (rt : Runtime W) (s : AgentRunState) (c : Checkpoint) (w : W)
    → Post
        (λ _. Ended (rounds_left s.max_steps (length s.steps)))
        (Halted (rounds_left s.max_steps (length s.steps)))
        (drive a rt s c (w, committed c false ∷ []))
unfolding drive
drive_fits a rt s c w =
    (from_phase-Runs c.phase (rounds_left s.max_steps (length s.steps)) a rt (pos (length s.steps))
        s c).run
      w (committed c false ∷ []) (ground arith, refl)
