-- ===== src/Agent/Session.antt =====
-- Session of backend/bothesis/agent/session.py: the tools of a step, and the turn that runs with
-- them. Tracing, the resolution of settings and the sandbox's own state are left out.
pub mod Answers
mod Tests
use bo_thesis.Base.Dict.{get}
use bo_thesis.Base.Json.{Json, object, Fields, end, Loads}
use bo_thesis.Base.Sort.{WeakOrder}
use bo_thesis.Base.Keys.{is_found}
use bo_thesis.Base.{
  ℕ, Bool, true, false, not, ◌&&◌, Option, none, some, List, [], ◌∷◌, Str, strip, is_empty, map,
  ltb, list_eq, nat_eq, if◌then◌else◌,
}
use bo_thesis.Agent.Orchestrator.{ToolCall, Handled, ToolRouter}
use bo_thesis.Agent.Turn.{Response, TurnLimits, TurnState, Session}
use bo_thesis.Agent.Tools.Registry.{
  ToolRegistry, FunctionTool, arguments_are_valid, is_tool_arguments_payload, router_names,
  is_exposed, model_visible_specs,
}

-- The configuration, the services and the context of the request that the tools depend on.
pub record SessionServices : Type 0 where
  pub tool_registry : ToolRegistry
  pub allowed_tool_names : Option (List Str)
  pub sandbox_available : Bool
  pub max_tool_rounds : ℕ
  pub max_tool_calls : ℕ
  pub loads : Loads
  pub dumps : Json → Str

abbrev pub as_mapping : Option Json → Option Json
as_mapping (some (object fields)) = some (object fields)
as_mapping _ = none

-- FunctionCallItem.parsed_arguments; `none` stands for `ValueError`.
unfoldable pub parsed_arguments : Loads → Str → Option Json
parsed_arguments loads arguments =
    if is_empty (strip arguments) then some (object end) else as_mapping (loads arguments)

-- `names is None or bool(names)`
abbrev pub allows_some : Option (List Str) → Bool
allows_some none = true
allows_some (some names) = not (is_empty names)

module _ (services : SessionServices) where
  -- The condition of `_tool_router`.
  unfoldable pub tools_allowed : (tool_round tool_call_count : ℕ) → Bool
  tools_allowed tool_round tool_call_count =
      ltb tool_round services.max_tool_rounds
      && (ltb tool_call_count services.max_tool_calls && allows_some services.allowed_tool_names)

  -- Session._tool_router, by the names that it keeps
  unfoldable pub turn_router : (tool_round tool_call_count : ℕ) → List Str
  unfolding tools_allowed router_names
  turn_router tool_round tool_call_count =
      router_names services.tool_registry
        (if tools_allowed tool_round tool_call_count then services.allowed_tool_names else some [])
        services.sandbox_available

  -- The tool names of the step that `capture_step_context` fixes.
  unfoldable pub step_tool_names : (tool_round tool_call_count : ℕ) → List Str
  unfolding turn_router model_visible_specs
  step_tool_names tool_round tool_call_count =
      map (λ (tool : FunctionTool). tool.name)
        (model_visible_specs services.tool_registry (turn_router tool_round tool_call_count))

  -- Session.tool_router, with the registry's checks of a call
  unfoldable pub step_router : (tool_names : List Str) → ToolRouter
  unfolding parsed_arguments is_exposed router_names arguments_are_valid
  step_router tool_names = record {
    parsed_arguments = parsed_arguments services.loads;
    is_exposed =
        is_exposed
          (router_names services.tool_registry (some tool_names) services.sandbox_available);
    is_registered = λ name. is_found (get services.tool_registry name);
    arguments_are_valid = arguments_are_valid services.tool_registry;
    dumps = services.dumps;
  }

  -- A session in which `sample` answers and `handle` runs tools.
  unfoldable pub session_of :
      {S : Type 0}
      → WeakOrder S
      → (max_model_turns max_output_characters : ℕ) → (TurnState S → Option Response)
      → (TurnState S → (index : ℕ) → ToolCall → Json → Handled S)
      → Session S
  unfolding step_tool_names step_router is_tool_arguments_payload
  session_of order max_model_turns max_output_characters sample handle = record {
    order = order;
    limits = record {
      max_model_turns = max_model_turns;
      max_tool_calls = services.max_tool_calls;
      max_output_characters = max_output_characters;
    };
    sample = sample;
    tool_names = λ turn. step_tool_names turn.tool_round turn.tool_call_count;
    router = λ turn. step_router (step_tool_names turn.tool_round turn.tool_call_count);
    handle = handle;
    is_tool_arguments_payload = λ answer names.
        is_tool_arguments_payload services.loads services.tool_registry answer (some names);
  }
