-- ===== src/Execution/Definitions.antt =====
-- `AgentDefinitionRegistry` of internal/agents/registry.py, and the judgement of stale runs in
-- internal/services/agents/execution.py: `_resolve_stale_status` and `_tool_replay_policy`.
use agent_backend.Prelude.{
  ◌<>◌, String, Bool, not, ◌||◌, Option, none, some, List, str_eq, if◌then◌else◌, Result, ok, err,
  app, agent_definition_incompatible, ◌>>◌, raise_if,
}
use agent_backend.Json.{Value, Fields, str, get}
use agent_backend.Checkpoint.{Checkpoint, Phase, tool_in_flight, ReplayPolicy, non_replayable}
use agent_backend.Checkpoint.Validate.{is_empty}
use agent_backend.Agent.{StructuredTool, find_tool}
use agent_backend.Agent.Resume.{or_empty}
use agent_backend.Store.{RunStatus, RunState, interrupted, recovery_required}

-- AgentDefinitionRegistry: its version and the tools that the two builders build.
pub record Definitions : Type 0 where
  pub definition_version : String
  pub order_tools : List StructuredTool
  pub payment_tools : List StructuredTool

-- `supports`
abbrev pub supports : Definitions → String → Bool
supports d definition_version = str_eq definition_version d.definition_version

-- `require_supported`
abbrev pub require_supported : Definitions → String → Result (Unit {0})
require_supported d definition_version =
    raise_if (not (supports d definition_version)) (app agent_definition_incompatible)

-- `resolve_tools`
unfoldable pub resolve_tools : Definitions → String → String → Result (List StructuredTool)
resolve_tools d agent_name definition_version = do
  require_supported d definition_version
  if str_eq agent_name "order_support"
      then ok d.order_tools
      else if str_eq agent_name "payment_support"
      then ok d.payment_tools
      else err (app agent_definition_incompatible)

-- `agent_name in SUPPORTED_AGENT_NAMES`
abbrev pub is_supported_agent : String → Bool
is_supported_agent name = str_eq name "order_support" || str_eq name "payment_support"

abbrev pub policy_of : Option StructuredTool → ReplayPolicy
policy_of none = non_replayable
policy_of (some t) = t.replay_policy

-- `except AppException`: any other exception would go on, but `resolve_tools` raises no other.
abbrev policy_in : Result (List StructuredTool) → String → ReplayPolicy
policy_in (ok tools) tool_name = policy_of (find_tool tools tool_name)
policy_in (err e) tool_name = non_replayable

-- `_tool_replay_policy`
unfoldable pub tool_replay_policy : Definitions → String → String → ReplayPolicy
tool_replay_policy d agent_name tool_name =
    if is_supported_agent agent_name
    then policy_in (resolve_tools d agent_name d.definition_version) tool_name
    else non_replayable

abbrev pub judge_policy : ReplayPolicy → String → RunStatus × Option String
judge_policy non_replayable tool_name =
    (recovery_required, some ("工具 " <> (tool_name <> " 在飞行中且声明为 non_replayable")))
judge_policy _ tool_name = (interrupted, some "stale_executor")

abbrev pub judge_tool : Definitions → String → Value → RunStatus × Option String
judge_tool d agent_name (str tool_name) =
    if is_empty tool_name
    then (recovery_required, some "tool_in_flight 现场缺少工具标识")
    else judge_policy (tool_replay_policy d agent_name tool_name) tool_name
judge_tool d agent_name _ = (recovery_required, some "tool_in_flight 现场缺少工具标识")

abbrev pub judge_phase : Definitions → String → Phase → Option Fields → RunStatus × Option String
judge_phase d agent_name tool_in_flight pending =
    judge_tool d agent_name (get (or_empty pending) "tool")
judge_phase d agent_name _ pending = (interrupted, some "stale_executor")

abbrev pub judge : Definitions → String → Option Checkpoint → RunStatus × Option String
judge d agent_name none = (recovery_required, some "执行现场缺失或无法解析，禁止自动重放")
judge d agent_name (some c) =
    if supports d c.definition_version
    then judge_phase d agent_name c.phase c.pending_action
    else (recovery_required, some "definition_version 不兼容，需由支持该版本的实例处理")

-- `_resolve_stale_status`
unfoldable pub resolve_stale_status : Definitions → RunState → RunStatus × Option String
resolve_stale_status d state = judge d state.run.agent_name state.checkpoint
