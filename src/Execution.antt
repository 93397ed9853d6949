-- ===== src/Execution.antt =====
-- The execution of managed runs: internal/services/agents/execution.py puts the agent's loop on the
-- rows of the storage. Other clients may run transactions before each one of the executor's.
pub mod StepRecords
pub mod CountedSteps
pub mod Runtime
pub mod Interleaving
pub mod Definitions
pub mod Stale
pub mod Checks
pub mod Router
pub mod Routing
pub mod Attempt
pub mod Finish
pub mod Failing
pub mod Composition
pub mod CreateRun
pub mod Opened
pub mod Resume
pub mod Rereading
pub mod Resumed
use agent_backend.Prelude.{ℕ, suc, String, Bool, Result, ℤ}
use agent_backend.Checkpoint.{Checkpoint}
use agent_backend.Store.{Store}
use agent_backend.Store.Rows.{Backend}

-- What an executor works on: the rows, the last checkpoint and revision that its runtime holds, how
-- many transactions it has made, and the rest of the world, in which the model and the tools act.
pub record World (V : Type 0) : Type 0 where
  pub store : Store
  pub checkpoint : Checkpoint
  pub revision : ℤ
  pub tick : ℕ
  pub outside : V

-- What `DatabaseAgentRunRuntime` is built with, the clock, what the other clients do before each
-- transaction, Python's texts of an integer and of an object, and at which transactions the end of an
-- attempt goes through, which may also fail or run out of its time.
pub record Executor : Type 0 where
  pub backend : Backend
  pub user_id : String
  pub run_id : String
  pub lease_token : String
  pub clock : ℕ → ℕ
  pub others : ℕ → Store → Store
  pub str_of_int : ℤ → String
  pub str_of_object : ℕ → String
  pub finishes : ℕ → Bool

-- The others' turn before a transaction.
abbrev pub turn : {V : Type 0} → Executor → World V → World V
turn e w = record w { store = e.others w.tick w.store; tick = suc w.tick }
