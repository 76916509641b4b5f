-- ===== src/Agent/Tools/Registry.antt =====
-- ToolRegistry and ToolRouter of backend/bothesis/agent/tools/core/registry.py and router.py. An
-- executor is its declaration: `handle` is given where tools are run.
use bo_thesis.Base.Json.{Json, object, Fields, Loads}
use bo_thesis.Base.Dict.{Dict, get, put}
use bo_thesis.Base.Result.{Result, ok, err, require, ◌>>◌}
use bo_thesis.Base.{
  Bool, true, false, not, ◌&&◌, ◌||◌, Option, none, some, List, [], ◌∷◌, Str, strip, is_empty, map,
  gather, keep, any, contains, nat_eq, list_eq,
}
use bo_thesis.Base.Keys.{keys, is_found}
use bo_thesis.Agent.Tools.Schema.{matches_schema}

pub data ToolExposure : Type 0 where
  direct deferred hidden : ToolExposure

-- The parts of `spec()` that registration and exposure read, and `exposure()`.
pub record Tool : Type 0 where
  pub name : Str
  pub input_schema : Fields
  pub requires_sandbox : Bool
  pub exposure : ToolExposure

-- The provider-neutral declaration.
pub record FunctionTool : Type 0 where
  pub name : Str
  pub parameters : Fields

abbrev pub ToolRegistry : Type 0
ToolRegistry = Dict Str Tool

pub data RegistrationError : Type 0 where
  empty_name : RegistrationError
  already_registered : Str → RegistrationError

-- ToolRegistry.register
unfoldable pub register : ToolRegistry → Tool → Result RegistrationError ToolRegistry
unfolding get put
register tools tool =
    let name = strip tool.name in
    require (not (is_empty name)) empty_name
    >> (require (not (is_found (get tools name))) (already_registered name)
        >> ok (put tools name tool))

unfoldable pub register_all : ToolRegistry → List Tool → Result RegistrationError ToolRegistry
unfolding register
register_all tools [] = ok tools
register_all tools (tool ∷ rest) = elim (register tools tool) [
  | ok more ↦ register_all more rest
  | err e ↦ err e
]

-- `allowed is None or name in allowed`
abbrev pub is_allowed : Option (List Str) → Str → Bool
is_allowed none name = true
is_allowed (some allowed) name = contains allowed name

abbrev pub as_function_tool : Tool → FunctionTool
as_function_tool tool = record { name = tool.name; parameters = tool.input_schema }

-- ToolRegistry.function_tools
unfoldable pub function_tools : ToolRegistry → Option (List Str) → List FunctionTool
function_tools tools allowed =
    map (λ (p : Str × Tool). as_function_tool p.1)
      (keep (λ (p : Str × Tool). is_allowed allowed p.0) tools)

abbrev pub matches_tool : Option Tool → Json → Bool
matches_tool none arguments = false
matches_tool (some tool) arguments = matches_schema arguments tool.input_schema

-- ToolRegistry.arguments_are_valid
unfoldable pub arguments_are_valid : ToolRegistry → Str → Json → Bool
unfolding get
arguments_are_valid tools name arguments = matches_tool (get tools name) arguments

abbrev pub is_mapping_for : ToolRegistry → Option (List Str) → Option Json → Bool
is_mapping_for tools allowed (some (object payload)) =
    any
      (λ (p : Str × Tool).
        is_allowed allowed p.0 && matches_schema (object payload) p.1.input_schema)
      tools
is_mapping_for tools allowed _ = false

-- ToolRegistry.is_tool_arguments_payload
unfoldable pub is_tool_arguments_payload : Loads → ToolRegistry → Str → Option (List Str) → Bool
is_tool_arguments_payload loads tools text allowed = is_mapping_for tools allowed (loads text)

abbrev pub is_direct : ToolExposure → Bool
is_direct direct = true
is_direct _ = false

-- What lets a registered tool be exposed.
abbrev pub can_expose : Option (List Str) → (sandbox_available : Bool) → Str → Tool → Bool
can_expose allowed sandbox_available name tool =
    is_allowed allowed name
    && (is_direct tool.exposure && (sandbox_available || not tool.requires_sandbox))

-- The names that ToolRouter keeps.
unfoldable pub router_names :
    ToolRegistry → Option (List Str) → (sandbox_available : Bool) → List Str
router_names tools allowed sandbox_available =
    keys (keep (λ (p : Str × Tool). can_expose allowed sandbox_available p.0 p.1) tools)

-- ToolRouter.is_exposed
unfoldable pub is_exposed : List Str → Str → Bool
is_exposed names name = contains names name

abbrev pub visible_spec : Option Tool → List FunctionTool
visible_spec none = []
visible_spec (some tool) = as_function_tool tool ∷ []

-- ToolRouter.model_visible_specs
unfoldable pub model_visible_specs : ToolRegistry → List Str → List FunctionTool
unfolding get
model_visible_specs tools names = gather (λ name. visible_spec (get tools name)) names
