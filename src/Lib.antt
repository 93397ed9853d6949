-- ===== src/Lib.antt =====
-- The durable agent runs of agent-backend: an agent's run is a row with a checkpoint, steps
-- and attempts; executors claim it under a lease, advance it by commits that carry the whole
-- state, and hand it over by the checkpoint when they pause or die. Beside them stand the
-- retrieval of hits, the assembly of a prompt's context from them, and the guard of the
-- endpoints.
--
-- Checkpoint models pkg/agents/state.py: the data (Checkpoint), `_validate_checkpoint`
-- (Checkpoint/Validate), `encode_checkpoint` (Checkpoint/Encode), `decode_checkpoint` with its
-- readers (Checkpoint/Decode, Checkpoint/Readers), and what is proved of them
-- (Checkpoint/WellFormed, Checkpoint/Roundtrip, Checkpoint/Rejects). Json has the dynamic
-- values that a payload holds.
--
-- Store models the managed half of `DatabaseAgentStorageBackend` in
-- internal/services/agents/conversation.py over the tables of
-- internal/models/agent_conversation.py: the rows of one run (Store), reading them
-- (Store/Rows), `load_managed_run` and `claim_managed_run` (Store/Claim), interrupts, leases,
-- heartbeats and the end of an attempt (Store/Control), and `_commit_managed_state`, the one
-- write path of the three commits (Store/Commit). Store/Steps makes each transaction a step on
-- the rows, so that a trace of steps is any interleaving of clients; Store/Shapes says once
-- what a successful transaction did to the rows. Store/Fence, Store/Outcome, Store/Answer,
-- Store/Journal, Store/Handoff, Store/Totals, Store/Starting, Store/Taking and Store/StepRows
-- hold the proofs. Each transaction locks the run's row, and an exception rolls it back, so a
-- transaction is a function of the rows whose error carries no rows.
--
-- Agent models pkg/agents/react.py: actions and steps as they are stored and read back, with
-- `stable_tool_call_id` (Agent/Actions), `assess_resume` (Agent/Resume), and the durable loop:
-- its pieces (Agent/Loop) and the stages of `_drive` (Agent/Loop/Drive) over a world of any
-- type, with a log of what the loop does, and `run_events` and `resume_events`
-- (Agent/Loop/Events). The proofs are in Agent/Restore, Agent/Verdict and Agent/Admission, and
-- for the loop in Agent/Loop/Safety, Agent/Loop/Rounds and Agent/Loop/Whole, by the rules of
-- Agent/Loop/Hoare; what the loop keeps of its world is in Agent/Loop/World and
-- Agent/Loop/Frame. Examples applies the theorems at sample rows and agents.
--
-- Creation models `create_managed_run` over the tables of all runs: what the transaction
-- reads, the rows it inserts, and the unique constraints that decide between requests that run
-- at the same time (Creation). That a key makes one run is in Creation/Once, the tables'
-- invariants in Creation/Tally and Creation/Invariant, and the way from a new run to its first
-- claim in Creation/Handover.
--
-- Execution models internal/services/agents/execution.py: `DatabaseAgentRunRuntime`, the
-- loop's runtime over the rows (Execution/Runtime, Execution/StepRecords), the registry of
-- internal/agents/registry.py and the judgement of stale runs (Execution/Definitions), the
-- checks before an agent runs (Execution/Checks), the rules of internal/agents/router.py
-- (Execution/Router), `_run_agent_events` (Execution/Attempt), the end of an attempt
-- (Execution/Finish), `create_run` (Execution/CreateRun) and `resume_run` (Execution/Resume).
-- Other clients may make transactions before each one of the executor's, the heartbeat among
-- them; a cancelled task is not modelled. Where the last transaction of an attempt goes
-- through is a parameter (`finishes`), since `_finalize_attempt` logs a failure and goes on,
-- and gives up after its time. The proofs are in Execution/Interleaving, Execution/Stale,
-- Execution/Composition, Execution/Failing, Execution/CountedSteps, Execution/Routing,
-- Execution/Opened, Execution/Rereading and Execution/Resumed.
--
-- Retrieval models pkg/vectors/post_retrieval.py: the dotted paths by which fields are read
-- (Retrieval/Paths), Python's stable sort (Retrieval/Sorting), the order of hits and documents
-- (Retrieval/Ranking), `_deduplicate_hits` (Retrieval/Dedup), `_collapse_hits`
-- (Retrieval/Collapse) and `run` (Retrieval/Pipeline). The proofs are in the child modules.
-- Floats are ordered by a parameter; the theorems on order assume that it is a weak order, as
-- it is without NaN.
--
-- Context models pkg/vectors/context_assembly.py, which the documents of a retrieval go to:
-- values and headers (Context/Values), the order of chunks (Context/Chunks), windows
-- (Context/Windows), the character budget of a document (Context/Fitting) and `assemble`
-- (Context/Assembly). `sorted` raises a type error where a group of sort keys mixes numbers
-- and texts. The proofs are in Context/Windows/Grouping, Context/Windows/Partition,
-- Context/Fitting/Bounds and Context/Assembly/Budget; that the context of a retrieval cites
-- only its hits is in Context/Assembly/Cited.
--
-- Guard models internal/middlewares/endpoint_guard.py: the rules and their parsing (Guard),
-- matching (Guard/Matching), the providers (Guard/Providers) and the decision on a request
-- (Guard/Requests). The proofs are in Guard/Matching/Segments, Guard/Providers/LastGood,
-- Guard/Requests/Refusal and Guard/Requests/Decision.
--
-- Parameters, since their code is not in the repository: the JSON parser and printer (Platform
-- and Backend), the clock (an argument of each transaction, in microseconds) and the fresh
-- lease tokens (an argument of a claim), Python's text of an integer, the texts of objects and
-- exceptions, Python's functions on texts and floats (Texts and Python), the reading of a
-- rule's fields and the glob match (Web), the rerankers, the hash of a request, the language
-- model that routes a question, and for the loop the runtime, the model, the tools' handlers
-- and the clock. A theorem that needs a token to be fresh says so. The cache of actions to
-- confirm and the context of a session, which are in the repository, are arguments too. The
-- resolver of stale runs is an argument of the transactions, as in the code. Floats are bit
-- patterns.
--
-- The definitions need no fuel: every loop runs over a list, or over the rounds that
-- `max_steps` leaves. Deleted rows count as absent, the transactions after the creation are
-- modelled on one run's rows, and log lines and error messages are left out. The loop without
-- a runtime, the unmanaged conversation API, vector stores and the HTTP surface are not
-- modelled.
pub mod Prelude
pub mod Json
pub mod Checkpoint
pub mod Store
pub mod Agent
pub mod Creation
pub mod Execution
pub mod Retrieval
pub mod Context
pub mod Guard
pub mod Examples
