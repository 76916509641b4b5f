-- ===== src/Agent/Reducer/Apply.antt =====
-- Items, snapshots and `apply` of ResponseReducer (backend/bothesis/agent/reducer.py).
use bo_thesis.Base.Dict.{Dict, get, put, get_or}
use bo_thesis.Base.{
  ℕ, zero, suc, Bool, true, false, Option, none, some, List, [], ◌∷◌, ◌++◌, Str, codes, contains,
  Eq, nat_eq, list_eq, pair_eq, if◌then◌else◌,
}
use bo_thesis.Agent.Protocol.{
  ContentPart, output_text, refusal, reasoning_text, ItemStatus, Item, message, reasoning,
  function_call, other, ResponseStatus, Response, StreamEvent, response_created, response_queued,
  response_in_progress, response_completed, response_incomplete, response_failed, error_event,
  output_item_added, output_item_done, content_part_added, content_part_done, output_text_delta,
  output_text_done, refusal_delta, refusal_done, reasoning_delta, reasoning_done,
  output_text_annotation_added, reasoning_summary_part_added, reasoning_summary_part_done,
  reasoning_summary_text_delta, reasoning_summary_text_done, function_call_arguments_delta,
  function_call_arguments_done, annotations_of, item_id, item_status, with_status,
}
use bo_thesis.Agent.Reducer.State.{PartKey, reduced_response, rebuild, Reducer}
use bo_thesis.Agent.Reducer.Writes.{
  adopted, appended, is_missing, text_or_refusal, append_text, set_text, add_annotation,
  place_summary_part, append_summary_text, set_summary_text, remember_item_id, updated, fail,
  resolve_phases,
}

-- `x or y` of a text, a number, and an optional text
abbrev pub text_or : Str → Str → Str
text_or [] y = y
text_or (c ∷ x) y = c ∷ x

abbrev pub number_or : ℕ → ℕ → ℕ
number_or zero y = y
number_or (suc x) y = suc x

abbrev pub optional_or : Option Str → Option Str → Option Str
optional_or none y = y
optional_or (some []) y = y
optional_or (some (c ∷ x)) y = some (c ∷ x)

abbrev pub code_or_default : Option Str → Str
code_or_default none = codes "stream_error"
code_or_default (some []) = codes "stream_error"
code_or_default (some (c ∷ code)) = c ∷ code

module _ {A : Type 0} ⦃same : Eq A⦄ where
  -- `if annotation not in existing: existing.append(annotation)`
  abbrev pub merged : List A → List A → List A
  merged existing [] = existing
  merged existing (a ∷ annotations) =
      merged (if contains existing a then existing else existing ++ (a ∷ [])) annotations

  abbrev pub adopted_annotations : Dict PartKey (List A) → PartKey → List A → Dict PartKey (List A)
  adopted_annotations d key [] = d
  adopted_annotations d key (a ∷ annotations) =
      put d key (merged (get_or [] (get d key)) (a ∷ annotations))

  unfoldable pub place_part : Reducer A → PartKey → ContentPart A → Reducer A
  unfolding adopted
  place_part r key part = record r {
    parts = put r.parts key part;
    text = adopted r.text key (text_or_refusal part);
    annotations = adopted_annotations r.annotations key (annotations_of part);
  }

  unfoldable pub place_parts :
      Reducer A → (output_index content_index : ℕ) → List (ContentPart A) → Reducer A
  unfolding place_part
  place_parts r output_index content_index [] = r
  place_parts r output_index content_index (part ∷ parts) =
      place_parts (place_part r (output_index, content_index) part) output_index (suc content_index)
        parts

  unfoldable pub place_summary_parts :
      Reducer A → (output_index summary_index : ℕ) → List (ContentPart A) → Reducer A
  unfolding place_summary_part
  place_summary_parts r output_index summary_index [] = r
  place_summary_parts r output_index summary_index (part ∷ parts) =
      place_summary_parts (place_summary_part r (output_index, summary_index) part) output_index
        (suc summary_index) parts

  unfoldable pub seed : Reducer A → (output_index : ℕ) → Item A → Reducer A
  unfolding place_parts place_summary_parts adopted
  seed r output_index (message m) = place_parts r output_index 0 m.content
  seed r output_index (reasoning s) =
      place_summary_parts (place_parts r output_index 0 s.content) output_index 0 s.summary
  seed r output_index (function_call c) = record r {
    arguments = adopted r.arguments output_index c.arguments;
  }
  seed r output_index (other o) = r

  -- The shell of an item: its status, or the one that the event implies.
  abbrev pub shell_of : (done : Bool) → Item A → Item A
  shell_of done item =
      with_status
        (get_or (if done then ItemStatus.completed else ItemStatus.in_progress) (item_status item))
        item

  unfoldable pub place_item : Reducer A → (output_index : ℕ) → Item A → (done : Bool) → Reducer A
  unfolding seed rebuild remember_item_id
  place_item r output_index item done =
      let shell = shell_of done item in
      let placed = record r { shells = put r.shells output_index shell } in
      rebuild (seed (remember_item_id placed (item_id shell) output_index) output_index shell)
        output_index

  unfoldable pub place_items : Reducer A → (output_index : ℕ) → List (Item A) → Reducer A
  unfolding place_item
  place_items r output_index [] = r
  place_items r output_index (item ∷ items) =
      place_items (place_item r output_index item true) (suc output_index) items

  unfoldable pub open_response : Reducer A → Response A → Reducer A
  unfolding place_items
  open_response r response =
      place_items (record r { envelope = some (record response { output = [] }) }) 0 response.output

  -- An item that was streamed is not replaced.
  unfoldable pub place_missing : Reducer A → (output_index : ℕ) → List (Item A) → Reducer A
  unfolding place_item
  place_missing r output_index [] = r
  place_missing r output_index (item ∷ items) =
      place_missing
        (if is_missing (get r.shells output_index) then place_item r output_index item true else r)
        (suc output_index) items

  unfoldable pub settled_envelope : Response A → (base : Response A) → ResponseStatus → Response A
  settled_envelope snapshot base status = record snapshot {
    output = [];
    status = status;
    id = text_or snapshot.id base.id;
    model = optional_or snapshot.model base.model;
    created_at = number_or snapshot.created_at base.created_at;
    previous_response_id = optional_or snapshot.previous_response_id base.previous_response_id;
  }

  -- The reducer after it; the response that is returned is `reduced_response` of that.
  unfoldable pub settle : Reducer A → ResponseStatus → (snapshot : Response A) → Reducer A
  unfolding place_missing settled_envelope resolve_phases
  settle r status snapshot =
      let placed = place_missing r 0 snapshot.output in
      resolve_phases (record placed {
        envelope = some (settled_envelope snapshot (get_or snapshot placed.envelope) status);
      })

  -- The response of a terminal event is the settled one.
  abbrev pub settled_event : (Response A → StreamEvent A) → Reducer A → Response A → StreamEvent A
  settled_event event r snapshot = event (get_or snapshot (reduced_response r))

  -- ResponseReducer.apply, without the event that it returns
  unfoldable pub reduce : Reducer A → StreamEvent A → Reducer A
  unfolding open_response settle fail place_item place_part append_text set_text add_annotation
      place_summary_part append_summary_text set_summary_text appended updated
  reduce r (response_created response) = open_response r response
  reduce r (response_queued response) = open_response r response
  reduce r (response_in_progress response) = open_response r response
  reduce r (response_completed response) = settle r ResponseStatus.completed response
  reduce r (response_incomplete response) = settle r ResponseStatus.incomplete response
  reduce r (response_failed response) = settle r ResponseStatus.failed response
  reduce r (error_event code text) = fail r (code_or_default code) text
  reduce r (output_item_added o item) = place_item r o item false
  reduce r (output_item_done o item) = place_item r o item true
  reduce r (content_part_added id o c part) = updated (place_part r (o, c) part) id o
  reduce r (content_part_done id o c part) = updated (place_part r (o, c) part) id o
  reduce r (output_text_delta id o c delta) =
      updated (append_text r (o, c) delta (output_text [] [])) id o
  reduce r (output_text_done id o c text) =
      updated (set_text r (o, c) text (output_text [] [])) id o
  reduce r (refusal_delta id o c delta) = updated (append_text r (o, c) delta (refusal [])) id o
  reduce r (refusal_done id o c text) = updated (set_text r (o, c) text (refusal [])) id o
  reduce r (reasoning_delta id o c delta) =
      updated (append_text r (o, c) delta (reasoning_text [])) id o
  reduce r (reasoning_done id o c text) = updated (set_text r (o, c) text (reasoning_text [])) id o
  reduce r (output_text_annotation_added id o c i annotation) =
      updated (add_annotation r (o, c) i annotation) id o
  reduce r (reasoning_summary_part_added id o s part) =
      updated (place_summary_part r (o, s) part) id o
  reduce r (reasoning_summary_part_done id o s part) =
      updated (place_summary_part r (o, s) part) id o
  reduce r (reasoning_summary_text_delta id o s delta) =
      updated (append_summary_text r (o, s) delta) id o
  reduce r (reasoning_summary_text_done id o s text) = updated (set_summary_text r (o, s) text) id o
  reduce r (function_call_arguments_delta id o delta) =
      updated (record r { arguments = appended r.arguments o delta }) id o
  reduce r (function_call_arguments_done id o text) =
      updated (record r { arguments = put r.arguments o (text ∷ []) }) id o

  unfoldable pub reduce_all : Reducer A → List (StreamEvent A) → Reducer A
  unfolding reduce
  reduce_all r [] = r
  reduce_all r (event ∷ events) = reduce_all (reduce r event) events

  unfoldable pub forwarded : Reducer A → StreamEvent A → StreamEvent A
  unfolding reduced_response
  forwarded r (response_completed snapshot) = settled_event response_completed r snapshot
  forwarded r (response_incomplete snapshot) = settled_event response_incomplete r snapshot
  forwarded r (response_failed snapshot) = settled_event response_failed r snapshot
  forwarded r event = event

  -- ResponseReducer.apply
  unfoldable pub apply : Reducer A → StreamEvent A → Reducer A × StreamEvent A
  unfolding reduce forwarded
  apply r event = let after = reduce r event in (after, forwarded after event)
