-- ===== src/Agent/Orchestrator/Limits.antt =====
-- What one batch of calls may execute.
use bo_thesis.Base.Json.{Json}
use bo_thesis.Base.{
  ℕ, suc, ◌+◌, ◌≤◌, ◌<◌, ◌≡◌, true, false, List, [], ◌∷◌, ◌++◌, map, Str, length, All, contains,
  is_unique, list_eq, nat_eq,
}
use bo_thesis.Agent.Orchestrator.{
  ToolCall, Slot, refused, pending, FunctionCallOutput, ToolExecutionBatch, TurnContext,
  unexecuted_outcomes,
}

-- A pending call is new and within the limit, a refused one counts as not executed.
abbrev IsChecked : (executed : List Str) (pending_count remaining : ℕ) → Slot → Type 0
IsChecked executed pending_count remaining (refused error outcome) =
    contains unexecuted_outcomes outcome ≡ true
IsChecked executed pending_count remaining (pending arguments signature) =
    (contains executed signature ≡ false) × (pending_count < remaining)

abbrev pendings : List Slot → ℕ
pendings [] = 0
pendings (refused _ _ ∷ slots) = pendings slots
pendings (pending _ _ ∷ slots) = suc (pendings slots)

abbrev IsRefusal : Slot → Type 0
IsRefusal (refused error outcome) = contains unexecuted_outcomes outcome ≡ true
IsRefusal (pending arguments signature) = Unit

-- What the first loop leaves: a slot per call, pending ones within the limit, new signatures.
record AreChecked (executed : List Str) (n remaining : ℕ) (calls : List ToolCall)
    (result : List Slot × List Str) : Type 0 where
  aligned : length result.0 ≡ length calls
  limited : n + pendings result.0 ≤ remaining
  refusals : All IsRefusal result.0
  unique : is_unique result.1 ≡ true
  longer : (added : List Str) × (result.1 ≡ executed ++ added) × (length added ≡ pendings result.0)

-- Every call is answered, in the order of the calls; no more of them are executed than remained; and
-- a turn executes no request twice: it remembers each once, those of before first.
pub record IsLimited {S : Type 0} (remaining : ℕ) (turn : TurnContext S) (calls : List ToolCall)
    (result : TurnContext S × ToolExecutionBatch) : Type 0 where
  pub answered :
      map (λ (item : FunctionCallOutput). item.call_id) result.1.output_items
      ≡ map (λ (call : ToolCall). call.call_id) calls
  pub limited : result.1.executed_call_count ≤ remaining
  pub unique : is_unique result.0.executed_tool_signatures ≡ true
  pub remembered :
      (added : List Str) × (result.0.executed_tool_signatures
        ≡ turn.executed_tool_signatures ++ added)
      × (length added ≤ remaining)
