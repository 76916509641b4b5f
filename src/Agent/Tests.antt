-- ===== src/Agent/Tests.antt =====
-- A stream with one citation, and the theorems about citations at it.
use bo_thesis.Base.Dict.{Dict, get, put}
use bo_thesis.Base.{
  ℕ, ◌≡◌, ◌↔◌, refl, ap, Bool, true, false, some, [], ◌∷◌, Str, codes, Eq, decimal, arith, leb,
  ◌&&◌, nat_eq, list_eq, pair_eq, nat_beq, list_beq, list_beq_iff,
}
use bo_thesis.Agent.Citation.{CitationReferences, number, process_citation_buffer, find_pair}
use bo_thesis.Agent.Citation.Numbers.{IsNumbered, number-IsNumbered}
use bo_thesis.Agent.Citation.Markers.{IsProcessed, process_citation_buffer-IsProcessed}
use bo_thesis.Agent.Citation.Projection.{
  Annotation, document_citation, provider_annotation, StreamEvent, text_delta, CitationProjection,
  value, project,
}
use bo_thesis.Agent.Citation.Projection.Streamed.{Streams, project-Streams}
use bo_thesis.Agent.Citation.Projection.Brackets.{IsBracketed, annotations_of, project-IsBracketed}
use bo_thesis.Base.{strip, List}
use bo_thesis.Agent.Context.{
  Role, user, assistant, ConversationMessage, SessionConfiguration, window, relevant_window,
}
use bo_thesis.Agent.Context.Window.{
  IsWindow, window-IsWindow, IsRelevant, relevant_window-IsRelevant,
}
use bo_thesis.Base.{none}
use bo_thesis.Base.Json.{Json, null}
use bo_thesis.Knowledge.Samples.{by_size}
use bo_thesis.Agent.Orchestrator.{
  ToolCall, ToolResult, Handled, handled, ToolRouter, TurnContext, execute,
}
use bo_thesis.Base.{gather}
use bo_thesis.Agent.Orchestrator.{ToolObservation, observations_from, check_calls}
use bo_thesis.Agent.Orchestrator.Best.{KeepsBest, execute-KeepsBest}
use bo_thesis.Base.{if◌then◌else◌, length, Option, some}
use bo_thesis.Agent.Turn.{Session, TurnState, Ending, answered as answered_with, run_turn}

abbrev letter : ℕ → Bool
letter c = leb 48 c && leb c 122

abbrev annotation_beq : Annotation ℕ → Annotation ℕ → Bool
annotation_beq (document_citation s e n v) (document_citation s' e' n' v') =
    nat_beq s s' && (nat_beq e e' && (nat_beq n n' && nat_beq v v'))
annotation_beq (provider_annotation a) (provider_annotation b) = list_beq a b
annotation_beq _ _ = false

annotation_beq_iff : (a b : Annotation ℕ) → (annotation_beq a b ≡ true) ↔ (a ≡ b)
annotation_beq_iff (document_citation s e n v) (document_citation s' e' n' v') =
    (λ h. ground arith, λ h. ground arith)
annotation_beq_iff (provider_annotation a) (provider_annotation b) =
    (λ h. ap provider_annotation ((list_beq_iff a b).0 h), λ h. (list_beq_iff a b).1 (ground arith))
annotation_beq_iff (document_citation s e n v) (provider_annotation b) = (λ h. cc, λ h. cc)
annotation_beq_iff (provider_annotation a) (document_citation s e n v) = (λ h. cc, λ h. cc)

instance abbrev annotation_eq : Eq (Annotation ℕ)
annotation_eq = record { beq = annotation_beq; beq_iff = annotation_beq_iff }

abbrev fresh : CitationReferences
fresh = record { references = []; numbers = [] }

abbrev evidence : Dict Str ℕ
evidence = (codes "ref_1", 5) ∷ []

abbrev projection : CitationProjection ℕ
projection = record {
  evidence = evidence;
  references = fresh;
  buffers = [];
  texts = [];
  annotations = [];
  used_evidence_ids = [];
}

abbrev delta : StreamEvent ℕ
delta = text_delta (0, 0) (codes "So [[cite:ref_1]] is [[c")

projected : value (project letter projection delta).0 (0, 0) ≡ codes "So [1] is "
unfolding project value decimal find_pair get put number
projected = refl

held : get (project letter projection delta).0.buffers (0, 0) ≡ some (codes "[[c")
unfolding project find_pair get put
held = refl

number-IsNumbered_example : IsNumbered fresh (codes "ref_1") (number fresh (codes "ref_1"))
number-IsNumbered_example = number-IsNumbered fresh (codes "ref_1") refl

process_citation_buffer-IsProcessed_example :
    IsProcessed letter evidence
      (process_citation_buffer letter evidence (codes "So [[cite:ref_1]] is [[c"))
process_citation_buffer-IsProcessed_example =
    process_citation_buffer-IsProcessed letter evidence (codes "So [[cite:ref_1]] is [[c")

project-Streams_example : Streams projection (project letter projection delta)
project-Streams_example = project-Streams letter projection delta refl

nothing_marked : IsBracketed projection
unfolding annotations_of get
nothing_marked key = tt

project-IsBracketed_example : IsBracketed (project letter projection delta).0
project-IsBracketed_example = project-IsBracketed letter projection delta nothing_marked

abbrev said : Role → Str → ConversationMessage
said role content = record { role = role; content = content }

abbrev small : SessionConfiguration
small = record { max_history_messages = 4; max_history_characters = 8; recent_history_messages = 1 }

-- The first message does not fit, the blank one is left out, and the answer takes its question along.
abbrev history : List ConversationMessage
history =
    said user (codes "a long question")
    ∷ (said assistant (codes "no")
        ∷ (said user (codes " go ")
            ∷ (said assistant (codes "done") ∷ (said user (codes "  ") ∷ []))))

recent_pair : window small history ≡ record {
  older_messages = [];
  recent_messages = said user (codes "go") ∷ (said assistant (codes "done") ∷ []);
}
unfolding window strip
recent_pair = refl

window-IsWindow_example : IsWindow small history (window small history)
window-IsWindow_example = window-IsWindow small history

abbrev one_word : Str → List Str
one_word s = s ∷ []

-- Of the older messages the question "go" stays; the answer in front of it shares its term as well,
-- but is left out.
abbrev roomy : SessionConfiguration
roomy = record {
  max_history_messages = 9;
  max_history_characters = 90;
  recent_history_messages = 2;
}

abbrev longer : List ConversationMessage
longer = said user (codes "so") ∷ (said assistant (codes "go") ∷ (said user (codes "go") ∷ history))

relevant_older : relevant_window one_word [] roomy longer (codes "go") ≡ record {
  older_messages = said user (codes "go") ∷ [];
  recent_messages = (window roomy longer).recent_messages;
}
unfolding relevant_window window strip
relevant_older = refl

relevant_window-IsRelevant_example :
    IsRelevant one_word [] roomy longer
      (codes "go")
      (relevant_window one_word [] roomy longer (codes "go"))
relevant_window-IsRelevant_example =
    relevant_window-IsRelevant one_word [] roomy longer (codes "go")

abbrev router : ToolRouter
router = record {
  parsed_arguments = λ text. some null;
  is_exposed = λ name. true;
  is_registered = λ name. true;
  arguments_are_valid = λ name arguments. true;
  dumps = λ arguments. codes "{}";
}

abbrev answered : ToolResult ℕ
answered = record {
  content = codes "found";
  evidence = [];
  error = none;
  outcome = none;
  model_content = [];
}

abbrev tools : (index : ℕ) → ToolCall → Json → Handled ℕ
tools index call arguments = handled answered

abbrev turn : TurnContext ℕ
turn = record { executed_tool_signatures = []; evidence = [] }

abbrev call : Str → Str → ToolCall
call id name = record { call_id = id; name = name; arguments = codes "{}" }

-- The second call repeats the first, and the third is one too many.
abbrev calls : List ToolCall
calls =
    call (codes "1") (codes "a")
    ∷ (call (codes "2") (codes "a") ∷ (call (codes "3") (codes "b") ∷ []))

executed_one : (execute by_size 100 router tools 1 turn calls).1.executed_call_count ≡ 1
unfolding execute
executed_one = refl

execute-KeepsBest_example :
    KeepsBest by_size turn.evidence (execute by_size 100 router tools 1 turn calls).0.evidence (
      gather
        (λ (o : ToolObservation ℕ). o.result.evidence)
        (observations_from tools 0 calls (check_calls router [] 0 1 calls).0))
execute-KeepsBest_example = execute-KeepsBest by_size 100 router tools 1 turn calls

-- A model that asks for a tool at first, and then answers.
abbrev session : Session ℕ
session = record {
  order = by_size;
  limits = record { max_model_turns = 3; max_tool_calls = 1; max_output_characters = 100 };
  sample = λ state. some (record {
    is_completed = true;
    output = [];
    function_calls = if leb 2 state.model_iteration then [] else calls;
    final_answer_text = codes " done ";
  });
  tool_names = λ state. codes "a" ∷ [];
  router = λ state. router;
  handle = λ state. tools;
  is_tool_arguments_payload = λ answer names. false;
}

abbrev started : TurnState ℕ
started = record {
  model_iteration = 0;
  tool_round = 0;
  tool_call_count = 0;
  context = turn;
  items = [];
}

abbrev Finished : Option (Ending × TurnState ℕ) → Type 0
Finished none = ⊥
Finished (some (ending, final)) =
    (ending ≡ answered_with (codes "done")) × (final.tool_call_count ≡ 1) × (length final.items ≡ 3)

finished : Finished (run_turn session 4 started)
unfolding run_turn strip
finished = (refl, refl, refl)
