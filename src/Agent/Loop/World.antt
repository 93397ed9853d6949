-- ===== src/Agent/Loop/World.antt =====
-- What the loop of pkg/agents/react.py does to the world it runs in: nothing but what the runtime,
-- the action maker, the tools and the clock do.
use agent_backend.Prelude.{
  [], ◌∷◌, arith, String, ◌≡◌, Bool, true, false, ◌&&◌, Result, ok, err, if◌then◌else◌,
}
use agent_backend.Json.{Fields}
use agent_backend.Checkpoint.{Checkpoint}
use agent_backend.Agent.{
  ◌∷◌, AgentRunState, AgentStepRecord, AgentRunStatus, completed, max_steps_reached,
}
use agent_backend.Agent.Loop.{
  run_completed, asked_model, yielded, committed, called_tool, AgentRunEventType, Log, Effect, Proc,
  Runtime, ReActAgent, AgentRunResult, give, log, act, read, then_do, ◌>>=◌,
}

-- A status that the loop ends a run with.
abbrev pub is_final : AgentRunStatus → Bool
is_final completed = true
is_final max_steps_reached = true
is_final _ = false

abbrev pub is_clean_event : AgentRunEventType → AgentRunStatus → Bool
is_clean_event run_completed status = is_final status
is_clean_event _ status = true

-- An event that completes the run says so by its status.
abbrev is_clean : Effect → Bool
is_clean asked_model = true
is_clean (called_tool name args) = true
is_clean (committed c paused) = true
is_clean (yielded e) = is_clean_event e.kind e.status

abbrev pub clean : Log → Bool
clean [] = true
clean (e ∷ l) = is_clean e && clean l

-- A piece of the loop that keeps what holds of the world, and the log clean, whether it returns or
-- raises.
pub record Stays {W A : Type 0} (I : W → Type 0) (m : Proc W A) : Type 0 where
  pub stay : (w : W) (l : Log) → I w → I (m (w, l)).1.0
  pub tidy : (w : W) (l : Log) → clean l ≡ true → clean (m (w, l)).1.1 ≡ true

-- The runtime and the agent keep it; a run is only ended with a status that ends it.
pub record Keeps {W : Type 0} (I : W → Type 0) (a : ReActAgent W) (rt : Runtime W) : Type 0 where
  pub load_checkpoint : (w : W) → I w → I (rt.load_checkpoint w).1
  pub load_control_state : (w : W) → I w → I (rt.load_control_state w).1
  pub commit_checkpoint : (c : Checkpoint) (w : W) → I w → I (rt.commit_checkpoint c w).1
  pub commit_step :
      (step : AgentStepRecord) (c : Checkpoint) (w : W) → I w → I (rt.commit_step step c w).1
  pub commit_terminal :
      (c : Checkpoint) (result : AgentRunResult) (w : W)
      → is_final result.status ≡ true
      → I w
      → I (rt.commit_terminal c result w).1
  pub make_next_action : (s : AgentRunState) (w : W) → I w → I (a.make_next_action s w).1
  pub call_handler :
      (name : String) (args : Fields) (w : W) → I w → I (a.call_handler name args w).1
  pub elapsed_ms : (w : W) → I w → I (a.elapsed_ms w).1

then_stays :
    {W A B : Type 0} (I : W → Type 0) (x : Result A × (W × Log)) (f : A → Proc W B)
    → ((a : A) → Stays I (f a))
    → I x.1.0
    → I (then_do f x).1.0
then_stays I (ok a, (w, l)) f k i = (k a).stay w l i
then_stays I (err e, (w, l)) f k i = i

then_tidy :
    {W A B : Type 0} (I : W → Type 0) (x : Result A × (W × Log)) (f : A → Proc W B)
    → ((a : A) → Stays I (f a))
    → clean x.1.1 ≡ true
    → clean (then_do f x).1.1 ≡ true
then_tidy I (ok a, (w, l)) f k c = (k a).tidy w l c
then_tidy I (err e, (w, l)) f k c = c

pub >>=-Stays :
    {W A B : Type 0} {I : W → Type 0} {m : Proc W A} {f : A → Proc W B}
    → Stays I m
    → ((a : A) → Stays I (f a))
    → Stays I (m >>= f)
unfolding ◌>>=◌
>>=-Stays {I = I} {m = m} {f = f} h k = record {
  stay = λ w l i. then_stays I (m (w, l)) f k (h.stay w l i);
  tidy = λ w l c. then_tidy I (m (w, l)) f k (h.tidy w l c);
}

pub if-Stays :
    {W A : Type 0} {I : W → Type 0} (b : Bool) {x y : Proc W A}
    → Stays I x
    → Stays I y
    → Stays I (if b then x else y)
if-Stays true h k = h
if-Stays false h k = k

pub act-Stays :
    {W A : Type 0} {I : W → Type 0} (f : W → Result A × W)
    → ((w : W) → I w → I (f w).1)
    → Stays I (act f)
act-Stays f h = record { stay = λ w l i. h w i; tidy = λ w l c. c }

pub read-Stays :
    {W A : Type 0} {I : W → Type 0} (f : W → A × W) → ((w : W) → I w → I (f w).1) → Stays I (read f)
read-Stays f h = record { stay = λ w l i. h w i; tidy = λ w l c. c }

pub give-Stays : {W A : Type 0} {I : W → Type 0} (r : Result A) → Stays I (give r)
give-Stays r = record { stay = λ w l i. i; tidy = λ w l c. c }

pub log-Stays : {W : Type 0} {I : W → Type 0} (e : Effect) → is_clean e ≡ true → Stays I (log e)
log-Stays e h = record { stay = λ w l i. i; tidy = λ w l c. ground arith }
