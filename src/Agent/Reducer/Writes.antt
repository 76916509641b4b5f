-- ===== src/Agent/Reducer/Writes.antt =====
-- The writes of ResponseReducer to its accumulators, _fail and _resolve_phases
-- (backend/bothesis/agent/reducer.py).
use bo_thesis.Base.Dict.{Dict, get, put, get_or, setdefault}
use bo_thesis.Base.{
  ℕ, Bool, true, false, ◌&&◌, Option, none, some, List, [], ◌∷◌, ◌++◌, Str, any, map, take, drop,
  length, min, Eq, nat_eq, list_eq, pair_eq, if◌then◌else◌,
}
use bo_thesis.Agent.Protocol.{
  ContentPart, output_text, refusal, summary_text, MessagePhase, commentary, final_answer, Item,
  message, ResponseStatus, Response, text_of, item_id, is_function_call, is_assistant,
}
use bo_thesis.Agent.Reducer.State.{PartKey, rebuild, Reducer}

-- A text that is not empty takes the place of what was accumulated.
unfoldable pub adopted : {K : Type 0} ⦃e : Eq K⦄ → Dict K (List Str) → K → Str → Dict K (List Str)
unfolding setdefault
adopted d key [] = setdefault d key []
adopted d key (c ∷ text) = put d key ((c ∷ text) ∷ [])

unfoldable pub appended : {K V : Type 0} ⦃e : Eq K⦄ → Dict K (List V) → K → V → Dict K (List V)
appended d key v = put d key (get_or [] (get d key) ++ (v ∷ []))

abbrev pub is_missing : {V : Type 0} → Option V → Bool
is_missing none = true
is_missing (some v) = false

module _ {A : Type 0} where
  -- getattr(part, "text", None) or getattr(part, "refusal", None)
  abbrev pub text_or_refusal : ContentPart A → Str
  text_or_refusal (refusal text) = text
  text_or_refusal part = text_of part

  unfoldable pub append_text :
      Reducer A → PartKey → (delta : Str) → (shell : ContentPart A) → Reducer A
  unfolding setdefault appended
  append_text r key delta shell = record r {
    parts = setdefault r.parts key shell;
    text = appended r.text key delta;
  }

  unfoldable pub set_text : Reducer A → PartKey → Str → (shell : ContentPart A) → Reducer A
  unfolding setdefault
  set_text r key text shell = record r {
    parts = setdefault r.parts key shell;
    text = put r.text key (text ∷ []);
  }

  -- annotations.insert(min(annotation_index, len(annotations)), annotation)
  abbrev pub inserted : ℕ → A → List A → List A
  inserted annotation_index annotation annotations =
      let position = min annotation_index (length annotations) in
      take position annotations ++ (annotation ∷ drop position annotations)

  unfoldable pub add_annotation : Reducer A → PartKey → (annotation_index : ℕ) → A → Reducer A
  unfolding setdefault
  add_annotation r key annotation_index annotation = record r {
    parts = setdefault r.parts key (output_text [] []);
    annotations =
        put r.annotations key
          (inserted annotation_index annotation (get_or [] (get r.annotations key)));
  }

  unfoldable pub place_summary_part : Reducer A → PartKey → ContentPart A → Reducer A
  unfolding adopted
  place_summary_part r key part = record r {
    summary_parts = put r.summary_parts key part;
    summary_text = adopted r.summary_text key (text_of part);
  }

  unfoldable pub append_summary_text : Reducer A → PartKey → Str → Reducer A
  unfolding setdefault appended
  append_summary_text r key delta = record r {
    summary_parts = setdefault r.summary_parts key (summary_text []);
    summary_text = appended r.summary_text key delta;
  }

  unfoldable pub set_summary_text : Reducer A → PartKey → Str → Reducer A
  unfolding setdefault
  set_summary_text r key text = record r {
    summary_parts = setdefault r.summary_parts key (summary_text []);
    summary_text = put r.summary_text key (text ∷ []);
  }

  unfoldable pub remember_item_id : Reducer A → Option Str → (output_index : ℕ) → Reducer A
  unfolding setdefault
  remember_item_id r none output_index = r
  remember_item_id r (some []) output_index = r
  remember_item_id r (some (c ∷ id)) output_index = record r {
    item_ids = setdefault r.item_ids (c ∷ id) output_index;
  }

  -- The end of `apply` for the events that name an item.
  unfoldable pub updated : Reducer A → (item_id : Str) → (output_index : ℕ) → Reducer A
  unfolding remember_item_id rebuild
  updated r item_id output_index =
      rebuild (remember_item_id r (some item_id) output_index) output_index

  unfoldable pub fail : Reducer A → (code text : Str) → Reducer A
  fail r code text =
      let blank : Response A = record {
        status = ResponseStatus.failed;
        id = [];
        created_at = 0;
        model = none;
        previous_response_id = none;
        output = [];
        error = none;
        details = [];
      } in
      record r {
        envelope = some (record (get_or blank r.envelope) {
          status = ResponseStatus.failed;
          error = some (record { code = code; message = text });
        });
      }

  abbrev pub has_function_call : Dict ℕ (Item A) → Bool
  has_function_call items = any (λ (p : ℕ × Item A). is_function_call p.1) items

  abbrev pub needs_phase : Item A → Bool
  needs_phase (message m) = is_assistant m.role && is_missing m.phase
  needs_phase _ = false

  -- An item and its shell are of one kind, so that only messages are updated.
  abbrev pub with_phase : MessagePhase → Item A → Item A
  with_phase phase (message m) = message (record m { phase = some phase })
  with_phase phase item = item

  abbrev pub phased_shell : Dict ℕ (Item A) → ℕ → MessagePhase → Option (Item A) → Dict ℕ (Item A)
  phased_shell shells output_index phase none = shells
  phased_shell shells output_index phase (some shell) =
      put shells output_index (with_phase phase shell)

  unfoldable pub phase_item :
      MessagePhase → Reducer A → (output_index : ℕ) → Option (Item A) → Reducer A
  phase_item phase r output_index none = r
  phase_item phase r output_index (some item) =
      if needs_phase item
      then record r {
        items = put r.items output_index (with_phase phase item);
        shells = phased_shell r.shells output_index phase (get r.shells output_index);
      }
      else r

  -- The loop over the items reads each as it is when its turn comes.
  unfoldable pub phase_items : MessagePhase → Reducer A → (output_indices : List ℕ) → Reducer A
  unfolding phase_item
  phase_items phase r [] = r
  phase_items phase r (output_index ∷ output_indices) =
      phase_items phase (phase_item phase r output_index (get r.items output_index)) output_indices

  abbrev pub observed_phase : Dict ℕ (Item A) → MessagePhase
  observed_phase items = if has_function_call items then commentary else final_answer

  unfoldable pub resolve_phases : Reducer A → Reducer A
  unfolding phase_items
  resolve_phases r = phase_items (observed_phase r.items) r (map (λ (p : ℕ × Item A). p.0) r.items)
