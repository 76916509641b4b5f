-- ===== src/Agent/Reducer/State.antt =====
-- The state of ResponseReducer (backend/bothesis/agent/reducer.py) and what it shows of it: output,
-- response, _rebuild and the functions that it calls.
use bo_thesis.Base.Dict.{Dict, get, put, get_or}
use bo_thesis.Base.Sorted.{sort_asc}
use bo_thesis.Base.{
  ℕ, Option, none, some, List, [], ◌∷◌, Str, concat, gather, map, nat_beq, nat_eq, list_eq, pair_eq,
  if◌then◌else◌,
}
use bo_thesis.Agent.Protocol.{
  ContentPart, output_text, refusal, reasoning_text, summary_text, input_text, input_image,
  input_file, Item, message, reasoning, function_call, other, Response,
}

-- The output index with the content index or the summary index.
abbrev pub PartKey : Type 0
PartKey = ℕ × ℕ

pub record Reducer (A : Type 0) : Type 0 where
  pub envelope : Option (Response A)
  pub shells : Dict ℕ (Item A)
  pub items : Dict ℕ (Item A)
  pub parts : Dict PartKey (ContentPart A)
  pub text : Dict PartKey (List Str)
  pub annotations : Dict PartKey (List A)
  pub summary_parts : Dict PartKey (ContentPart A)
  pub summary_text : Dict PartKey (List Str)
  pub arguments : Dict ℕ (List Str)
  pub item_ids : Dict Str ℕ

-- The second indices of the keys whose first is `output_index`.
unfoldable pub indices : {V : Type 0} → Dict PartKey V → (output_index : ℕ) → List ℕ
indices [] output_index = []
indices (((i, c), v) ∷ d) output_index =
    let rest = indices d output_index in if nat_beq i output_index then c ∷ rest else rest

abbrev pub sorted_indices : {V : Type 0} → Dict PartKey V → ℕ → List ℕ
sorted_indices d output_index = sort_asc (λ i. i) (indices d output_index)

module _ {A : Type 0} where
  abbrev pub empty_reducer : Reducer A
  empty_reducer = record {
    envelope = none;
    shells = [];
    items = [];
    parts = [];
    text = [];
    annotations = [];
    summary_parts = [];
    summary_text = [];
    arguments = [];
    item_ids = [];
  }

  -- ResponseReducer.output
  unfoldable pub reduced_output : Reducer A → List (Item A)
  reduced_output r = map (λ (p : ℕ × Item A). p.1) (sort_asc (λ (p : ℕ × Item A). p.0) r.items)

  -- ResponseReducer.response
  unfoldable pub reduced_response : Reducer A → Option (Response A)
  unfolding reduced_output
  reduced_response r = elim r.envelope [
    | none ↦ none
    | some envelope ↦ some (record envelope { output = reduced_output r })
  ]

  abbrev pub materialized : ContentPart A → Str → List A → ContentPart A
  materialized (output_text _ _) text annotations = output_text text annotations
  materialized (refusal _) text annotations = refusal text
  materialized (reasoning_text _) text annotations = reasoning_text text
  materialized (summary_text _) text annotations = summary_text text
  materialized (input_text t) text annotations = input_text t
  materialized (input_image t) text annotations = input_image t
  materialized (input_file t) text annotations = input_file t

  -- `self._parts[key]` is there, as the key is taken from the dictionary.
  abbrev pub found_part : Option (ContentPart A) → Str → List A → List (ContentPart A)
  found_part none text annotations = []
  found_part (some part) text annotations = materialized part text annotations ∷ []

  unfoldable pub materialize_part : Reducer A → PartKey → List (ContentPart A)
  materialize_part r key =
      found_part (get r.parts key) (concat (get_or [] (get r.text key)))
        (get_or [] (get r.annotations key))

  -- _message_content and _reasoning_content
  unfoldable pub item_content : Reducer A → (output_index : ℕ) → List (ContentPart A)
  unfolding indices materialize_part
  item_content r output_index =
      gather (λ c. materialize_part r (output_index, c)) (sorted_indices r.parts output_index)

  unfoldable pub reasoning_summary : Reducer A → (output_index : ℕ) → List (ContentPart A)
  unfolding indices
  reasoning_summary r output_index =
      map (λ c. summary_text (concat (get_or [] (get r.summary_text (output_index, c)))))
        (sorted_indices r.summary_parts output_index)

  unfoldable pub rebuilt : Reducer A → (output_index : ℕ) → Item A → Item A
  unfolding item_content reasoning_summary
  rebuilt r output_index (message m) = message (record m { content = item_content r output_index })
  rebuilt r output_index (reasoning s) = reasoning (record s {
    content = item_content r output_index;
    summary = reasoning_summary r output_index;
  })
  rebuilt r output_index (function_call c) =
      function_call (record c { arguments = concat (get_or [] (get r.arguments output_index)) })
  rebuilt r output_index (other o) = other o

  unfoldable pub rebuild_shell : Reducer A → (output_index : ℕ) → Option (Item A) → Reducer A
  unfolding rebuilt
  rebuild_shell r output_index none = r
  rebuild_shell r output_index (some shell) = record r {
    items = put r.items output_index (rebuilt r output_index shell);
  }

  unfoldable pub rebuild : Reducer A → (output_index : ℕ) → Reducer A
  unfolding rebuild_shell
  rebuild r output_index = rebuild_shell r output_index (get r.shells output_index)
