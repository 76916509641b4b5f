-- ===== src/Agent/Session/Tests.antt =====
-- A registry with one tool, and the theorems about tools and sessions at it.
use bo_thesis.Base.Dict.{get, put}
use bo_thesis.Base.Json.{Json, null, integer, string, array, object, nil, cons, end, field}
use bo_thesis.Base.{
  ℕ, ◌≡◌, ◌↔◌, inl, inr, refl, true, false, Option, none, some, [], ◌∷◌, codes, strip, is_empty,
  list_beq, Bool-cases, if◌then◌else◌, list_eq, nat_eq, arith,
}
use bo_thesis.Knowledge.Samples.{by_size}
use bo_thesis.Agent.Orchestrator.{ToolCall, Handled, handled, execute}
use bo_thesis.Agent.Turn.{Response, TurnState, Ending, answered, run_turn}
use bo_thesis.Agent.Tools.Schema.{matches_schema, kind_of}
use bo_thesis.Agent.Tools.Typing.{HasType}
use bo_thesis.Agent.Tools.Sound.{matches_schema_iff}
use bo_thesis.Agent.Tools.Registry.{
  ToolExposure, Tool, ToolRegistry, register, router_names, is_exposed,
}
use bo_thesis.Agent.Tools.Exposed.{IsRegistered, register-IsRegistered, Exposes, is_exposed_iff}
use bo_thesis.Agent.Session.{SessionServices, step_tool_names, session_of}
use bo_thesis.Agent.Session.Answers.{
  EndsInRounds, run_turn-EndsInRounds, HasAnswer, run_turn-HasAnswer, Responds,
}

abbrev find : Tool
find = record {
  name = codes " find ";
  input_schema = field (codes "type") (string (codes "object")) (
      field (codes "properties")
        (object (
          field (codes "query")
            (object (
              field (codes "type") (string (codes "string"))
                (field (codes "minLength") (integer (codes "1")) end)))
            (field (codes "limit")
              (object (
                field (codes "type")
                  (array (cons (string (codes "integer")) (cons (string (codes "null")) nil))) end))
              end)))
        (field (codes "required") (array (cons (string (codes "query")) nil)) end));
  requires_sandbox = false;
  exposure = ToolExposure.direct;
}

abbrev query : Json
query = object (field (codes "query") (string (codes "tea")) (field (codes "limit") null end))

accepted : matches_schema query find.input_schema ≡ true
unfolding matches_schema kind_of
accepted = refl

refused : matches_schema (object (field (codes "limit") null end)) find.input_schema ≡ false
unfolding matches_schema kind_of
refused = refl

matches_schema_iff_example :
    (matches_schema query find.input_schema ≡ true) ↔ HasType query find.input_schema
matches_schema_iff_example = matches_schema_iff query find.input_schema

abbrev registry : ToolRegistry
registry = (codes "find", find) ∷ []

register-IsRegistered_example : IsRegistered [] find registry
unfolding register strip get put
register-IsRegistered_example = register-IsRegistered [] find (refl, tt) refl

is_exposed_iff_example :
    (is_exposed (router_names registry none false) (codes "find") ≡ true)
    ↔ Exposes registry none false (codes "find")
unfolding strip
is_exposed_iff_example =
    is_exposed_iff registry none false (codes "find") (refl, ((refl, λ e. cc), tt))

abbrev services : SessionServices
services = record {
  tool_registry = (codes "find", record find { name = codes "find" }) ∷ [];
  allowed_tool_names = none;
  sandbox_available = false;
  max_tool_rounds = 2;
  max_tool_calls = 5;
  loads = λ text. if list_beq text (codes "{}") then some query else none;
  dumps = λ arguments. codes "{}";
}

abbrev wanted : ToolCall
wanted = record { call_id = codes "1"; name = codes "find"; arguments = codes "{}" }

-- A model that asks for a tool as long as there is one, and then answers.
abbrev eager : TurnState ℕ → Response
eager turn = record {
  is_completed = true;
  output = [];
  function_calls =
      if is_empty (step_tool_names services turn.tool_round turn.tool_call_count)
      then []
      else wanted ∷ [];
  final_answer_text = codes " done ";
}

abbrev handle : TurnState ℕ → ℕ → ToolCall → Json → Handled ℕ
handle turn index call arguments = handled (record {
  content = codes "found";
  evidence = [];
  error = none;
  outcome = none;
  model_content = [];
})

abbrev started : TurnState ℕ
started = record {
  model_iteration = 0;
  tool_round = 0;
  tool_call_count = 0;
  context = record { executed_tool_signatures = []; evidence = [] };
  items = [];
}

abbrev IsDone : Option (Ending × TurnState ℕ) → Type 0
IsDone none = ⊥
IsDone (some (ending, final)) =
    (ending ≡ answered (codes "done")) × (final.tool_round ≡ 2) × (final.tool_call_count ≡ 1)

done :
    IsDone
      (run_turn (session_of services by_size 4 100 (λ turn. some (eager turn)) handle) 3 started)
unfolding run_turn session_of strip execute get kind_of matches_schema
done = (refl, refl, refl)

run_turn-EndsInRounds_example :
    EndsInRounds services by_size 4 100
      (λ turn. some (eager turn))
      handle
      (run_turn (session_of services by_size 4 100 (λ turn. some (eager turn)) handle) 3 started)
run_turn-EndsInRounds_example =
    run_turn-EndsInRounds services by_size 4 100 (λ turn. some (eager turn)) handle 3 started
      (omega arith) refl (omega arith) (omega arith)

eager-Responds :
    (turn : TurnState ℕ) → Responds services by_size 4 100 (λ turn. some (eager turn)) handle turn
unfolding session_of strip
eager-Responds turn =
    elim (Bool-cases (is_empty (step_tool_names services turn.tool_round turn.tool_call_count))) [
      | inl without ↦ (eager turn, refl, refl, inr (rw without refl, refl, refl))
      | inr offered ↦ (eager turn, refl, refl, inl (rw offered refl, offered))
    ]

run_turn-HasAnswer_example :
    HasAnswer services by_size 4 100
      (λ turn. some (eager turn))
      handle
      (run_turn (session_of services by_size 4 100 (λ turn. some (eager turn)) handle) 3 started)
run_turn-HasAnswer_example =
    run_turn-HasAnswer services by_size 4 100 (λ turn. some (eager turn)) handle 3 started
      (omega arith) refl (omega arith) (omega arith) eager-Responds
