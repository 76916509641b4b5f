-- ===== src/Agent/Orchestrator.antt =====
-- ToolOrchestrator of backend/bothesis/agent/tools/core/orchestrator.py. Tracing, progress reports
-- and durations are left out. The executions run concurrently, and each result goes to the place
-- of its call; they are given by a function of that place.
pub mod Limits
pub mod Best
use bo_thesis.Base.Dict.{Dict, get, put}
use bo_thesis.Base.Json.{Json}
use bo_thesis.Base.Sort.{WeakOrder}
use bo_thesis.Base.{
  ℕ, zero, suc, ◌+◌, ◌-◌, Bool, true, false, not, ◌&&◌, ◌||◌, Option, none, some, List, [], ◌∷◌,
  ◌++◌, map, gather, Str, codes, is_empty, rstrip, length, take, contains, leb, ltb, max, list_eq,
  nat_eq, if◌then◌else◌,
}
use bo_thesis.Knowledge.{Evidence}

pub record ToolCall : Type 0 where
  pub call_id : Str
  pub name : Str
  pub arguments : Str

-- `outcome` is `metadata.get("outcome")`.
pub record ToolResult (S : Type 0) : Type 0 where
  pub content : Str
  pub evidence : List (Evidence S)
  pub error : Option Str
  pub outcome : Option Str
  pub model_content : List Str

pub record ToolObservation (S : Type 0) : Type 0 where
  pub call : ToolCall
  pub result : ToolResult S

pub data Handled (S : Type 0) : Type 0 where
  handled : ToolResult S → Handled S
  timed_out failed : Handled S

-- The router of the step, the decoder of arguments and the canonical JSON text of them.
pub record ToolRouter : Type 0 where
  pub parsed_arguments : Str → Option Json
  pub is_exposed : Str → Bool
  pub is_registered : Str → Bool
  pub arguments_are_valid : Str → Json → Bool
  pub dumps : Json → Str

-- What the checks make of a call.
pub data Slot : Type 0 where
  refused : (error outcome : Str) → Slot
  pending : (arguments : Json) → (signature : Str) → Slot

pub record FunctionCallOutput : Type 0 where
  pub call_id : Str
  pub output : Str

pub record ToolExecutionBatch : Type 0 where
  pub output_items : List FunctionCallOutput
  pub model_content : List Str
  pub executed_call_count : ℕ

abbrev pub unexecuted_outcomes : List Str
unexecuted_outcomes =
    codes "duplicate_call"
    ∷ (codes "invalid_arguments"
        ∷ (codes "tool_call_limit" ∷ (codes "tool_not_exposed" ∷ (codes "unknown_tool" ∷ []))))

module _ (router : ToolRouter) where
  abbrev pub tool_signature : Str → Json → Str
  tool_signature name arguments = name ++ (codes ":" ++ router.dumps arguments)

  unfoldable pub check_new : (executed : List Str) (pending_count remaining : ℕ) → Json → Str → Slot
  check_new executed pending_count remaining arguments signature =
      if contains executed signature
      then refused (codes "This exact tool request was already executed in this run.")
          (codes "duplicate_call")
      else if leb remaining pending_count
      then refused (codes "The tool-call limit was reached for this run.") (codes "tool_call_limit")
      else pending arguments signature

  unfoldable pub check_decoded :
      (executed : List Str) (pending_count remaining : ℕ) → ToolCall → Option Json → Slot
  unfolding check_new
  check_decoded executed pending_count remaining call none =
      refused (codes "Invalid arguments for tool.") (codes "invalid_arguments")
  check_decoded executed pending_count remaining call (some arguments) =
      if not (router.is_exposed call.name)
      then refused (codes "Tool is not exposed for this sampling step.") (codes "tool_not_exposed")
      else if not (router.is_registered call.name)
      then refused (codes "Unknown tool: " ++ call.name) (codes "unknown_tool")
      else if not (router.arguments_are_valid call.name arguments)
      then refused (codes "Invalid arguments for tool: " ++ call.name) (codes "invalid_arguments")
      else check_new executed pending_count remaining arguments (tool_signature call.name arguments)

  unfoldable pub check_call : (executed : List Str) (pending_count remaining : ℕ) → ToolCall → Slot
  unfolding check_decoded
  check_call executed pending_count remaining call =
      check_decoded executed pending_count remaining call (router.parsed_arguments call.arguments)

  abbrev pub counted_slot : ℕ → Slot → ℕ
  counted_slot n (refused _ _) = n
  counted_slot n (pending _ _) = suc n

  abbrev pub signed_slot : List Str → Slot → List Str
  signed_slot executed (refused _ _) = executed
  signed_slot executed (pending _ signature) = executed ++ (signature ∷ [])

  -- The first loop: the slot of each call, and the signatures executed after it.
  unfoldable pub check_calls :
      (executed : List Str) (pending_count remaining : ℕ) → List ToolCall → List Slot × List Str
  unfolding check_call
  check_calls executed pending_count remaining [] = ([], executed)
  check_calls executed pending_count remaining (call ∷ calls) =
      let slot = check_call executed pending_count remaining call in
      let (slots, after) =
        check_calls (signed_slot executed slot) (counted_slot pending_count slot) remaining calls in
      (slot ∷ slots, after)

unfoldable pub clipped : ℕ → Str → Str
clipped limit text =
    if ltb limit (length text) then rstrip (take (max 1 (limit - 1)) text) ++ (8230 ∷ []) else text

-- The part of a turn that the orchestrator changes.
pub record TurnContext (S : Type 0) : Type 0 where
  pub executed_tool_signatures : List Str
  pub evidence : Dict Str (Evidence S)

module _ {S : Type 0} where
  abbrev pub error_result : (error outcome : Str) → ToolResult S
  error_result error outcome = record {
    content = [];
    evidence = [];
    error = some error;
    outcome = some outcome;
    model_content = [];
  }

  unfoldable pub result_of_handled : Handled S → ToolResult S
  result_of_handled (handled result) = result
  result_of_handled timed_out = error_result (codes "Tool execution timed out.") (codes "timeout")
  result_of_handled failed = error_result (codes "Tool execution failed.") (codes "failed")

  module _ (handle : (index : ℕ) → ToolCall → Json → Handled S) where
    unfoldable pub result_of_slot : ℕ → ToolCall → Slot → ToolResult S
    unfolding result_of_handled
    result_of_slot index call (refused error outcome) = error_result error outcome
    result_of_slot index call (pending arguments signature) =
        result_of_handled (handle index call arguments)

    unfoldable pub observations_from : ℕ → List ToolCall → List Slot → List (ToolObservation S)
    unfolding result_of_slot
    observations_from index (call ∷ calls) (slot ∷ slots) =
        record { call = call; result = result_of_slot index call slot }
        ∷ observations_from (suc index) calls slots
    observations_from index _ _ = []

  abbrev pub is_executed : ToolObservation S → Bool
  is_executed o = elim o.result.outcome [
    | none ↦ true
    | some outcome ↦ not (contains unexecuted_outcomes outcome)
  ]

  abbrev pub executed_count : List (ToolObservation S) → ℕ
  executed_count [] = 0
  executed_count (o ∷ os) =
      let later = executed_count os in if is_executed o then suc later else later

  abbrev pub output_text : ToolResult S → Str
  output_text result =
      let plain =
        if is_empty result.content
        then codes "Tool completed without a textual result."
        else result.content in
      elim result.error [
        | none ↦ plain
        | some error ↦ if is_empty error then plain else codes "Tool error: " ++ error
      ]

  unfoldable pub output_item : ℕ → ToolObservation S → FunctionCallOutput
  unfolding clipped
  output_item limit o = record {
    call_id = o.call.call_id;
    output = clipped limit (output_text o.result);
  }

  -- The second score is there, and the first is missing or lower.
  abbrev pub is_lower : WeakOrder S → Option S → Option S → Bool
  is_lower order existing none = false
  is_lower order none (some score) = true
  is_lower order (some held) (some score) = order.lt held score

  -- A source replaces one of the same id if it has a higher score.
  abbrev pub is_better : WeakOrder S → Option (Evidence S) → Evidence S → Bool
  is_better order none source = true
  is_better order (some existing) source =
      is_lower order existing.relevance_score source.relevance_score

  unfoldable pub keep_evidence :
      WeakOrder S → Dict Str (Evidence S) → List (Evidence S) → Dict Str (Evidence S)
  keep_evidence order evidence [] = evidence
  keep_evidence order evidence (source ∷ sources) =
      keep_evidence order
        (if is_better order (get evidence source.id) source
          then put evidence source.id source
          else evidence)
        sources

  unfoldable pub execute :
      WeakOrder S
      → (max_output_characters : ℕ) → ToolRouter
      → ((index : ℕ) → ToolCall → Json → Handled S)
      → (remaining_calls : ℕ) → TurnContext S
      → List ToolCall
      → TurnContext S × ToolExecutionBatch
  unfolding check_calls observations_from output_item keep_evidence
  execute order limit router handle remaining turn calls =
      let (slots, executed) = check_calls router turn.executed_tool_signatures 0 remaining calls in
      let completed = observations_from handle 0 calls slots in
      (
        record {
          executed_tool_signatures = executed;
          evidence =
              keep_evidence order turn.evidence
                (gather (λ (o : ToolObservation S). o.result.evidence) completed);
        },
        record {
          output_items = map (output_item limit) completed;
          model_content = gather (λ (o : ToolObservation S). o.result.model_content) completed;
          executed_call_count = executed_count completed;
        },
      )
