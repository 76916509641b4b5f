-- ===== src/Agent/Reducer/Tests.antt =====
-- A streamed answer, and the theorems about ResponseReducer at it.
use bo_thesis.Base.Dict.{get}
use bo_thesis.Base.Sorted.{sort_asc}
use bo_thesis.Base.{ℕ, ◌≡◌, refl, Option, none, some, [], ◌∷◌, Str, codes, nat_eq, list_eq}
use bo_thesis.Agent.Protocol.{
  output_text, summary_text, ItemStatus, MessageRole, MessagePhase, MessageItem, ReasoningItem,
  message, reasoning, ResponseStatus, Response, response_created, response_completed,
  output_item_added, output_text_delta, refusal_delta, reasoning_delta, final_answer_text,
}
use bo_thesis.Agent.Reducer.RoundTrip.Items.{IsFreshAt}
use bo_thesis.Agent.Reducer.State.{indices, Reducer, empty_reducer, reduced_response}
use bo_thesis.Agent.Reducer.Apply.{reduce, reduce_all, settle, open_response}
use bo_thesis.Agent.Reducer.Rebuilt.{IsRebuilt, reduce-IsRebuilt}
use bo_thesis.Agent.Reducer.Supplied.{IsSettled, settle-IsSettled}
use bo_thesis.Agent.Reducer.Chunks.{JoinsTo, reduce-JoinsTo}
use bo_thesis.Agent.Reducer.RoundTrip.Opened.{open_response-roundtrip}

abbrev started : MessageItem ℕ
started = record {
  role = MessageRole.assistant;
  content = [];
  id = some (codes "msg_1");
  status = none;
  phase = none;
}

abbrev opening : Response ℕ
opening = record {
  status = ResponseStatus.in_progress;
  id = codes "resp_1";
  created_at = 5;
  model = none;
  previous_response_id = none;
  output = [];
  error = none;
  details = [];
}

abbrev streaming : Reducer ℕ
streaming = reduce_all empty_reducer (
    response_created opening
    ∷ (output_item_added 0 (message started)
        ∷ (output_text_delta (codes "msg_1") 0 0 (codes "It ") ∷ [])))

answer : Option (Response ℕ) → Str
answer none = []
answer (some response) = final_answer_text response

-- The answer of a stream that completes.
streamed_answer :
    answer (
      reduced_response (
        reduce_all streaming (
          output_text_delta (codes "msg_1") 0 0 (codes "is 42.")
          ∷ (response_completed opening ∷ []))))
    ≡ codes "It is 42."
unfolding answer reduce_all reduce reduced_response final_answer_text get sort_asc
streamed_answer = refl

reduce-IsRebuilt_example : IsRebuilt (reduce empty_reducer (output_item_added 0 (message started)))
unfolding get
reduce-IsRebuilt_example =
    reduce-IsRebuilt empty_reducer (output_item_added 0 (message started)) (λ o. refl)

reduce-JoinsTo_example :
    JoinsTo streaming
      (output_text_delta (codes "msg_1") 0 0 (codes "is "))
      (output_text_delta (codes "msg_1") 0 0 (codes "42."))
      (output_text_delta (codes "msg_1") 0 0 (codes "is 42."))
    × JoinsTo streaming
        (refusal_delta (codes "msg_1") 0 0 (codes "is "))
        (refusal_delta (codes "msg_1") 0 0 (codes "42."))
        (refusal_delta (codes "msg_1") 0 0 (codes "is 42."))
    × JoinsTo streaming
        (reasoning_delta (codes "msg_1") 0 0 (codes "is "))
        (reasoning_delta (codes "msg_1") 0 0 (codes "42."))
        (reasoning_delta (codes "msg_1") 0 0 (codes "is 42."))
reduce-JoinsTo_example = reduce-JoinsTo streaming (codes "msg_1") 0 0 (codes "is ") (codes "42.")

abbrev thought : ReasoningItem ℕ
thought = record {
  id = some (codes "rs_1");
  content = [];
  summary = summary_text (codes "Look it up.") ∷ [];
  encrypted_content = none;
  status = some ItemStatus.completed;
}

abbrev finished : Response ℕ
finished = record opening {
  status = ResponseStatus.completed;
  output =
      reasoning thought
      ∷ (message (record started {
        content = output_text (codes "It is 42 [1].") (7 ∷ []) ∷ [];
        status = some ItemStatus.completed;
        phase = some MessagePhase.final_answer;
      })
          ∷ []);
}

open_response-roundtrip_example :
    reduced_response (open_response empty_reducer finished) ≡ some finished
open_response-roundtrip_example =
    open_response-roundtrip finished ((refl, (tt, (refl, tt))), ((refl, (refl, tt)), tt))

-- Nothing was streamed at the second index.
second_fresh : IsFreshAt streaming 1
unfolding reduce_all reduce get indices
second_fresh = record {
  content = record {
    parts = record { places = refl; fresh = λ c le. refl };
    text = λ c le. refl;
    annotations = λ c le. refl;
  };
  summary = record { parts = record { places = refl; fresh = λ c le. refl }; text = λ c le. refl };
  arguments = refl;
  items = refl;
}

settle-IsSettled_example :
    IsSettled streaming ResponseStatus.completed finished 1
      (settle streaming ResponseStatus.completed finished)
unfolding reduce_all reduce get
settle-IsSettled_example =
    settle-IsSettled streaming ResponseStatus.completed finished refl 1
      (λ missing. (second_fresh, (refl, (refl, tt))))
