-- ===== src/Agent/Turn.antt =====
-- `run_turn` of backend/bothesis/agent/turn.py. What a sampling request answers is a function of the
-- state of the turn, as are the tools and the router of a step. Events, tracing, durations, the
-- observation of the sandbox, and exceptions of the provider, which pass through, are left out.
pub mod Bounds
use bo_thesis.Base.Json.{Json}
use bo_thesis.Base.Sort.{WeakOrder}
use bo_thesis.Base.{
  ℕ, zero, suc, ◌+◌, ◌-◌, Bool, true, false, not, ◌&&◌, ◌||◌, Option, none, some, List, [], ◌∷◌,
  ◌++◌, map, Str, strip, is_empty, length, leb, if◌then◌else◌,
}
use bo_thesis.Agent.Orchestrator.{
  ToolCall, Handled, ToolRouter, FunctionCallOutput, ToolExecutionBatch, TurnContext, execute,
}

pub data ConversationItem : Type 0 where
  model_output : Str → ConversationItem
  tool_output : FunctionCallOutput → ConversationItem
  user_message : List Str → ConversationItem

-- `is_completed` is `status == "completed"`.
pub record Response : Type 0 where
  pub is_completed : Bool
  pub output : List Str
  pub function_calls : List ToolCall
  pub final_answer_text : Str

pub record TurnLimits : Type 0 where
  pub max_model_turns : ℕ
  pub max_tool_calls : ℕ
  pub max_output_characters : ℕ

pub record TurnState (S : Type 0) : Type 0 where
  pub model_iteration : ℕ
  pub tool_round : ℕ
  pub tool_call_count : ℕ
  pub context : TurnContext S
  pub items : List ConversationItem

-- `AgentExecutionError` by its message.
pub data TurnError : Type 0 where
  sampling_limit no_response tool_after_limit no_answer : TurnError

-- A turn that returns has an answer, or the response did not complete.
pub data Ending : Type 0 where
  answered : Str → Ending
  incomplete : Ending
  failed_with : TurnError → Ending

-- One round of the loop: it ends, or goes on.
pub data Round (S : Type 0) : Type 0 where
  ends : Ending → TurnState S → Round S
  continues : TurnState S → Round S

pub record Session (S : Type 0) : Type 0 where
  pub order : WeakOrder S
  pub limits : TurnLimits
  pub sample : TurnState S → Option Response
  pub tool_names : TurnState S → List Str
  pub router : TurnState S → ToolRouter
  pub handle : TurnState S → (index : ℕ) → ToolCall → Json → Handled S
  pub is_tool_arguments_payload : Str → List Str → Bool

module _ {S : Type 0} (session : Session S) where
  abbrev pub record_items : TurnState S → List ConversationItem → TurnState S
  record_items turn items = record turn { items = turn.items ++ items }

  -- The part of a round after the tools ran.
  unfoldable pub after_tools : TurnState S → TurnContext S → ToolExecutionBatch → TurnState S
  after_tools turn context batch =
      let counted = record turn {
        tool_call_count = turn.tool_call_count + batch.executed_call_count;
        context = context;
      } in
      let observed = record_items counted (map tool_output batch.output_items) in
      if is_empty batch.model_content
      then observed
      else record_items observed (user_message batch.model_content ∷ [])

  unfoldable pub run_tools : TurnState S → List ToolCall → TurnState S
  unfolding execute after_tools
  run_tools turn calls =
      let started = record turn { tool_round = suc turn.tool_round } in
      let (context, batch) =
        execute session.order session.limits.max_output_characters (session.router turn)
          (session.handle turn) (session.limits.max_tool_calls - turn.tool_call_count) turn.context
          calls in
      after_tools started context batch

  unfoldable pub answer_round : TurnState S → (tool_names : List Str) → Str → Round S
  answer_round turn tool_names text =
      let answer = strip text in
      if is_empty answer || session.is_tool_arguments_payload answer tool_names
      then ends (failed_with no_answer) turn
      else ends (answered answer) turn

  unfoldable pub completed_round : TurnState S → (tool_names : List Str) → Response → Round S
  unfolding run_tools answer_round
  completed_round turn tool_names response =
      let recorded = record_items turn (map model_output response.output) in
      if is_empty response.function_calls
      then answer_round recorded tool_names response.final_answer_text
      else if is_empty tool_names
      then ends (failed_with tool_after_limit) recorded
      else continues (run_tools recorded response.function_calls)

  unfoldable pub response_round : TurnState S → (tool_names : List Str) → Option Response → Round S
  unfolding completed_round
  response_round turn tool_names none = ends (failed_with no_response) turn
  response_round turn tool_names (some response) =
      if response.is_completed
      then completed_round turn tool_names response
      else ends incomplete turn

  unfoldable pub round : TurnState S → Round S
  unfolding response_round
  round turn =
      let started = record turn { model_iteration = suc turn.model_iteration } in
      if leb session.limits.max_model_turns turn.model_iteration
      then ends (failed_with sampling_limit) turn
      else response_round started (session.tool_names started) (session.sample started)

  -- The loop on fuel; `none` stands for a turn that has not ended.
  unfoldable pub run_turn : (fuel : ℕ) → TurnState S → Option (Ending × TurnState S)
  unfolding round
  run_turn zero turn = none
  run_turn (suc fuel) turn = elim (round turn) [
    | ends ending final ↦ some (ending, final)
    | continues next ↦ run_turn fuel next
  ]
