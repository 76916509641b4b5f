-- ===== src/Agent/Turn/Bounds.antt =====
-- The end of a turn, and the counts that it keeps.
use bo_thesis.Base.{ℕ, ◌≤◌, ◌≡◌, ◌≢◌, true, Option, none, some, [], is_unique, list_eq, nat_eq}
use bo_thesis.Agent.Turn.{TurnState, Ending, answered, Round, ends, continues, Session}

module _ {S : Type 0} (session : Session S) where
  -- The counts of a turn are within the limits, and no request was executed twice.
  pub record IsBounded (turn : TurnState S) : Type 0 where
    pub iterations : turn.model_iteration ≤ session.limits.max_model_turns
    pub calls : turn.tool_call_count ≤ session.limits.max_tool_calls
    pub requests : is_unique turn.context.executed_tool_signatures ≡ true

  abbrev pub IsAnswered : Ending → Type 0
  IsAnswered (answered answer) = answer ≢ []
  IsAnswered _ = Unit

  -- A round keeps the counts in bounds; one that goes on has used up a sampling request.
  abbrev IsRound : ℕ → Round S → Type 0
  IsRound iteration (ends ending turn) = IsBounded turn × IsAnswered ending
  IsRound iteration (continues turn) = IsBounded turn × (turn.model_iteration ≡ iteration)

  -- A turn has ended, with its counts in bounds; if with an answer, then not with an empty one.
  abbrev pub HasEnded : Option (Ending × TurnState S) → Type 0
  HasEnded none = ⊥
  HasEnded (some (ending, final)) = IsBounded final × IsAnswered ending
