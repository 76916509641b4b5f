-- ===== src/Agent/Session/Answers.antt =====
-- The rounds of a turn with the tools of a session, backend/bothesis/agent/session.py and turn.py.
use Prim.{absurd}
use bo_thesis.Base.Json.{Json}
use bo_thesis.Base.Sort.{WeakOrder}
use bo_thesis.Base.{
  ℕ, zero, suc, ◌+◌, ◌≤◌, ◌<◌, ◌≡◌, ◌≢◌, ◌⊎◌, inl, inr, refl, ap, Bool, true, false, ◌||◌, Option,
  none, some, List, [], ◌∷◌, Str, strip, is_empty, map, leb, ltb, Bool-cases, if◌then◌else◌,
  list_eq, nat_eq, arith,
}
use bo_thesis.Agent.Orchestrator.{ToolCall, Handled, ToolExecutionBatch, TurnContext}
use bo_thesis.Agent.Turn.{
  model_output, Response, TurnState, Ending, answered, incomplete, failed_with, sampling_limit,
  tool_after_limit, no_answer, Round, ends, continues, Session, after_tools, run_tools,
  answer_round, completed_round, response_round, round, run_turn, record_items,
}
use bo_thesis.Agent.Tools.Registry.{ToolRegistry, router_names, model_visible_specs}
use bo_thesis.Agent.Session.{
  SessionServices, tools_allowed, turn_router, step_tool_names, session_of,
}

keep-none :
    (registry : ToolRegistry) (sandbox_available : Bool)
    → router_names registry (some []) sandbox_available ≡ []
unfolding router_names
keep-none [] sandbox_available = refl
keep-none (p ∷ registry) sandbox_available = keep-none registry sandbox_available

-- After the last tool round no tool is offered.
step_tool_names-nil :
    (services : SessionServices) (tool_round tool_call_count : ℕ)
    → services.max_tool_rounds ≤ tool_round
    → step_tool_names services tool_round tool_call_count ≡ []
unfolding step_tool_names turn_router tools_allowed model_visible_specs
step_tool_names-nil services tool_round tool_call_count le =
    let over : ltb tool_round services.max_tool_rounds ≡ false = ground arith in
    rw over (rw (keep-none services.tool_registry services.sandbox_available) refl)

module _ {S : Type 0} (session : Session S) where
  after_tools-counts :
      (turn : TurnState S) (context : TurnContext S) (batch : ToolExecutionBatch)
      → ((after_tools session turn context batch).model_iteration ≡ turn.model_iteration)
        × ((after_tools session turn context batch).tool_round ≡ turn.tool_round)
  unfolding after_tools
  after_tools-counts turn context batch = elim (Bool-cases (is_empty batch.model_content)) [
    | inl without ↦ rw without (refl, refl)
    | inr content ↦ rw content (refl, refl)
  ]

  -- A round that runs tools counts them; any other ends.
  abbrev pub IsCounted : (iteration tool_round : ℕ) → (tool_names : List Str) → Round S → Type 0
  IsCounted iteration tool_round tool_names (ends ending turn) =
      (ending ≢ failed_with sampling_limit) × (turn.tool_round ≡ tool_round)
  IsCounted iteration tool_round tool_names (continues turn) =
      (turn.model_iteration ≡ iteration)
      × (turn.tool_round ≡ suc tool_round)
      × (is_empty tool_names ≡ false)

  IsCounted-if :
      (n m : ℕ) (names : List Str) (b : Bool) (x y : Round S)
      → IsCounted n m names x
      → (b ≡ false → IsCounted n m names y)
      → IsCounted n m names (if b then x else y)
  IsCounted-if n m names true x y h k = h
  IsCounted-if n m names false x y h k = k refl

  completed_round-IsCounted :
      (turn : TurnState S) (names : List Str) (response : Response)
      → IsCounted turn.model_iteration turn.tool_round names
          (completed_round session turn names response)
  unfolding completed_round answer_round run_tools
  completed_round-IsCounted turn names response =
      let recorded = record_items session turn (map model_output response.output) in
      let n = turn.model_iteration in
      let m = turn.tool_round in
      IsCounted-if n m names (is_empty response.function_calls) _ _
        (by_answer (strip response.final_answer_text)
          (session.is_tool_arguments_payload (strip response.final_answer_text) names))
        λ calls.
          IsCounted-if n m names (is_empty names) (ends (failed_with tool_after_limit) recorded) _
            ((λ e. cc), refl)
            λ offered.
              let (iterations, rounds) =
                after_tools-counts (record recorded { tool_round = suc m }) _ _ in
              (iterations, rounds, offered)
    where
      by_answer :
          (answer : Str) (is_payload : Bool)
          → IsCounted turn.model_iteration turn.tool_round names (
              if is_empty answer || is_payload
              then ends
                  (failed_with no_answer)
                  (record_items session turn (map model_output response.output))
              else ends
                  (answered answer)
                  (record_items session turn (map model_output response.output)))
      by_answer [] is_payload = ((λ e. cc), refl)
      by_answer (c ∷ answer) true = ((λ e. cc), refl)
      by_answer (c ∷ answer) false = ((λ e. cc), refl)

  response_round-IsCounted :
      (turn : TurnState S) (names : List Str) (response : Option Response)
      → IsCounted turn.model_iteration turn.tool_round names
          (response_round session turn names response)
  unfolding response_round
  response_round-IsCounted turn names none = ((λ e. cc), refl)
  response_round-IsCounted turn names (some response) = by_status response.is_completed
    where
      by_status :
          (b : Bool)
          → IsCounted turn.model_iteration turn.tool_round names
              (if b then completed_round session turn names response else ends incomplete turn)
      by_status true = completed_round-IsCounted turn names response
      by_status false = ((λ e. cc), refl)

  -- A round before the limit on sampling requests.
  round-IsCounted :
      (turn : TurnState S)
      → turn.model_iteration < session.limits.max_model_turns
      → IsCounted
          (suc turn.model_iteration)
          turn.tool_round
          (session.tool_names (record turn { model_iteration = suc turn.model_iteration }))
          (round session turn)
  unfolding round
  round-IsCounted turn lt =
      let free : leb session.limits.max_model_turns turn.model_iteration ≡ false = ground arith in
      let started : TurnState S = record turn { model_iteration = suc turn.model_iteration } in
      rw free
        (response_round-IsCounted started (session.tool_names started) (session.sample started))

module _ {S : Type 0} (services : SessionServices) (order : WeakOrder S)
    (max_model_turns max_output_characters : ℕ) (sample : TurnState S → Option Response)
    (handle : TurnState S → (index : ℕ) → ToolCall → Json → Handled S) where
  abbrev pub the_session : Session S
  the_session = session_of services order max_model_turns max_output_characters sample handle

  -- A turn has ended, and has not met the limit on sampling requests, and has not run tools more often
  -- than allowed.
  abbrev pub EndsInRounds : Option (Ending × TurnState S) → Type 0
  EndsInRounds none = ⊥
  EndsInRounds (some (ending, final)) =
      (ending ≢ failed_with sampling_limit) × (final.tool_round ≤ services.max_tool_rounds)

  offered-lt :
      (tool_round tool_call_count : ℕ)
      → is_empty (step_tool_names services tool_round tool_call_count) ≡ false
      → tool_round < services.max_tool_rounds
  offered-lt tool_round tool_call_count offered =
      elim (Bool-cases (leb services.max_tool_rounds tool_round)) [
        | inl over ↦ cc (
          offered,
          ap is_empty
              (step_tool_names-nil services tool_round tool_call_count (ground (arith, over))),
        )
        | inr under ↦ ground (arith, under)
      ]

  -- A turn ends, never for the limit on sampling requests, and after at most the allowed number of
  -- tool rounds, if fewer tool rounds than sampling requests are configured, the turn starts with
  -- as many tool rounds as sampling requests, which are within the limit, and the fuel is more
  -- than the tool rounds that are left.
  pub run_turn-EndsInRounds :
      (fuel : ℕ) (turn : TurnState S)
      → services.max_tool_rounds < max_model_turns
      → turn.model_iteration ≡ turn.tool_round
      → turn.tool_round ≤ services.max_tool_rounds
      → services.max_tool_rounds < fuel + turn.tool_round
      → EndsInRounds (run_turn the_session fuel turn)
  unfolding run_turn session_of
  run_turn-EndsInRounds zero turn fewer same le enough = absurd (omega (arith, le, enough))
  run_turn-EndsInRounds (suc fuel) turn fewer same le enough =
      after_round (round the_session turn)
        (round-IsCounted the_session turn (omega (arith, fewer, same, le)))
        (λ next e f lt. run_turn-EndsInRounds fuel next fewer e f (omega (arith, enough, lt)))
    where
      after_round :
          (r : Round S)
          → IsCounted the_session
              (suc turn.model_iteration)
              turn.tool_round
              (step_tool_names services turn.tool_round turn.tool_call_count)
              r
          → ((next : TurnState S)
              → next.model_iteration ≡ next.tool_round
              → next.tool_round ≤ services.max_tool_rounds
              → turn.tool_round < next.tool_round
              → EndsInRounds (run_turn the_session fuel next))
          → EndsInRounds (elim r [
            | ends ending final ↦ some (ending, final)
            | continues next ↦ run_turn the_session fuel next
          ])
      after_round (ends ending final) (no_limit, rounds) later =
          (no_limit, omega (arith, rounds, le))
      after_round (continues next) (iterations, rounds, offered) later =
          later next (omega (arith, iterations, rounds, same))
            (omega (arith, rounds, offered-lt turn.tool_round turn.tool_call_count offered))
            (omega (arith, rounds))

  -- What is asked of the model at a state of the turn: a completed response, which requests a tool
  -- where tools are offered, or has an answer that is neither blank nor a tool's arguments.
  abbrev pub Responds : TurnState S → Type 0
  Responds turn =
      let names = step_tool_names services turn.tool_round turn.tool_call_count in
      (response : Response) × (sample turn ≡ some response)
      × (response.is_completed ≡ true)
      × ((is_empty response.function_calls ≡ false) × (is_empty names ≡ false)
          ⊎ (is_empty response.function_calls ≡ true)
            × (is_empty (strip response.final_answer_text) ≡ false)
            × (the_session.is_tool_arguments_payload (strip response.final_answer_text) names
                ≡ false))

  abbrev GoesWell : Round S → Type 0
  GoesWell (ends (answered answer) turn) = Unit
  GoesWell (ends _ turn) = ⊥
  GoesWell (continues turn) = Unit

  completed_round-GoesWell :
      (turn : TurnState S) (names : List Str) (response : Response)
      → (is_empty response.function_calls ≡ false) × (is_empty names ≡ false)
        ⊎ (is_empty response.function_calls ≡ true)
          × (is_empty (strip response.final_answer_text) ≡ false)
          × (the_session.is_tool_arguments_payload (strip response.final_answer_text) names ≡ false)
      → GoesWell (completed_round the_session turn names response)
  unfolding completed_round answer_round
  completed_round-GoesWell turn names response (inl (calls, offered)) = rw calls (rw offered tt)
  completed_round-GoesWell turn names response (inr (none_called, said, no_payload)) =
      rw none_called (rw said (rw no_payload tt))

  round-GoesWell :
      (turn : TurnState S)
      → turn.model_iteration < max_model_turns
      → Responds (record turn { model_iteration = suc turn.model_iteration })
      → GoesWell (round the_session turn)
  unfolding round response_round session_of
  round-GoesWell turn lt (response, answered_by, complete, well) =
      let free : leb max_model_turns turn.model_iteration ≡ false = ground arith in
      let started : TurnState S = record turn { model_iteration = suc turn.model_iteration } in
      let names = step_tool_names services turn.tool_round turn.tool_call_count in
      rw free (rw answered_by (rw complete (completed_round-GoesWell started names response well)))

  -- A turn has ended with an answer.
  abbrev pub HasAnswer : Option (Ending × TurnState S) → Type 0
  HasAnswer none = ⊥
  HasAnswer (some (answered answer, final)) = Unit
  HasAnswer (some (_, final)) = ⊥

  -- A turn whose model responds at every state ends with an answer, if fewer tool rounds than
  -- sampling requests are configured, it starts with as many tool rounds as sampling requests,
  -- which are within the limit, and the fuel is more than the tool rounds that are left. A model
  -- responds when it completes, and either requests a tool where tools are offered or gives a text
  -- that is neither blank nor the arguments of a tool.
  pub run_turn-HasAnswer :
      (fuel : ℕ) (turn : TurnState S)
      → services.max_tool_rounds < max_model_turns
      → turn.model_iteration ≡ turn.tool_round
      → turn.tool_round ≤ services.max_tool_rounds
      → services.max_tool_rounds < fuel + turn.tool_round
      → ((state : TurnState S) → Responds state)
      → HasAnswer (run_turn the_session fuel turn)
  unfolding run_turn session_of
  run_turn-HasAnswer zero turn fewer same le enough responds = absurd (omega (arith, le, enough))
  run_turn-HasAnswer (suc fuel) turn fewer same le enough responds =
      let lt : turn.model_iteration < max_model_turns = omega (arith, fewer, same, le) in
      after_round (round the_session turn) (round-IsCounted the_session turn lt)
        (round-GoesWell turn lt
          (responds (record turn { model_iteration = suc turn.model_iteration })))
        (λ next e f more.
          run_turn-HasAnswer fuel next fewer e f (omega (arith, enough, more)) responds)
    where
      after_round :
          (r : Round S)
          → IsCounted the_session
              (suc turn.model_iteration)
              turn.tool_round
              (step_tool_names services turn.tool_round turn.tool_call_count)
              r
          → GoesWell r
          → ((next : TurnState S)
              → next.model_iteration ≡ next.tool_round
              → next.tool_round ≤ services.max_tool_rounds
              → turn.tool_round < next.tool_round
              → HasAnswer (run_turn the_session fuel next))
          → HasAnswer (elim r [
            | ends ending final ↦ some (ending, final)
            | continues next ↦ run_turn the_session fuel next
          ])
      after_round (ends (answered answer) final) counted well later = tt
      after_round (ends incomplete final) counted well later = absurd well
      after_round (ends (failed_with e) final) counted well later = absurd well
      after_round (continues next) (iterations, rounds, offered) well later =
          later next (omega (arith, iterations, rounds, same))
            (omega (arith, rounds, offered-lt turn.tool_round turn.tool_call_count offered))
            (omega (arith, rounds))
