-- ===== src/Agent/Loop/Events.antt =====
-- `run_events` and `resume_events` of pkg/agents/react.py with a runtime: what comes before the
-- loop.
use agent_backend.Prelude.{
  refl, String, not, none, some, Result, ok, err, checkpoint_validation, unsafe_agent_resume,
  str_eq, raise_if,
}
use agent_backend.Checkpoint.{Checkpoint}
use agent_backend.Agent.{AgentRunState, AgentResumeDecision, resume, require_recovery}
use agent_backend.Agent.Actions.{state_from_checkpoint}
use agent_backend.Agent.Resume.{assess_resume}
use agent_backend.Agent.Loop.{
  Proc, Runtime, ReActAgent, AgentRunEvent, AgentRunEventType, run_started, run_resumed, give, log,
  act, yielded, ◌>>=◌, ◌>>◌,
}
use agent_backend.Agent.Loop.Drive.{drive, require_checkpoint}
use agent_backend.Agent.Loop.World.{Stays, Keeps, >>=-Stays, act-Stays, give-Stays, log-Stays}
use agent_backend.Agent.Loop.Frame.{drive-Stays}

-- The event before the first action.
abbrev begin_event : AgentRunEventType → AgentRunState → Checkpoint → AgentRunEvent
begin_event kind s c = record {
  kind = kind;
  run_id = s.run_id;
  status = s.status;
  step = none;
  result = none;
  checkpoint_revision = some c.revision;
  stop_reason = none;
}

-- `run_events`
unfoldable pub run_events : {W : Type 0} → ReActAgent W → Runtime W → String → Proc W (Unit {0})
run_events a rt run_id = do
  loaded ← act rt.load_checkpoint
  c ← give (require_checkpoint loaded)
  give (raise_if (not (str_eq c.run_id run_id)) checkpoint_validation)
  s ← give (state_from_checkpoint c)
  log (yielded (begin_event run_started s c))
  drive a rt s c

abbrev pub refuse_unsafe : AgentResumeDecision → Result (Unit {0})
refuse_unsafe resume = ok tt
refuse_unsafe require_recovery = err unsafe_agent_resume

-- `resume_events`
unfoldable pub resume_events :
    {W : Type 0} → ReActAgent W → Runtime W → Checkpoint → Proc W (Unit {0})
resume_events a rt c = do
  assessment ← give (assess_resume a.definition_version a.tools c)
  give (refuse_unsafe assessment.decision)
  s ← give (state_from_checkpoint c)
  log (yielded (begin_event run_resumed s c))
  drive a rt s c

module _ {W : Type 0} {I : W → Type 0} (a : ReActAgent W) (rt : Runtime W)
    (keeps : Keeps I a rt) where
  pub run_events-Stays : (run_id : String) → Stays I (run_events a rt run_id)
  unfolding run_events
  run_events-Stays run_id = >>=-Stays (act-Stays _ keeps.load_checkpoint) λ loaded.
      >>=-Stays (give-Stays _) λ c. >>=-Stays (give-Stays _) λ _.
        >>=-Stays (give-Stays _) λ s. >>=-Stays (log-Stays _ refl) λ _. drive-Stays a rt keeps s c

  pub resume_events-Stays : (c : Checkpoint) → Stays I (resume_events a rt c)
  unfolding resume_events
  resume_events-Stays c = >>=-Stays (give-Stays _) λ assessment. >>=-Stays (give-Stays _) λ _.
      >>=-Stays (give-Stays _) λ s. >>=-Stays (log-Stays _ refl) λ _. drive-Stays a rt keeps s c
