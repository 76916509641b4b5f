-- ===== src/Agent/Reducer/Rebuilt.antt =====
-- The items of ResponseReducer and what they are rebuilt from, backend/bothesis/agent/reducer.py.
use bo_thesis.Base.Dict.{Dict, get, put, get_or, get-put}
use bo_thesis.Base.{
  ℕ, suc, ◌≡◌, refl, sym, ap, ◌∙◌, map, Bool, true, false, Option, none, some, List, [], ◌∷◌, Str,
  nat_beq, nat_beq_iff, Bool-cases, inl, inr, Eq, nat_eq, list_eq, pair_eq, if◌then◌else◌, arith,
}
use bo_thesis.Agent.Protocol.{
  output_text, refusal, reasoning_text, Item, message, reasoning, function_call, other,
  MessagePhase, ResponseStatus, Response, item_id,
}
use bo_thesis.Agent.Protocol.{
  StreamEvent, response_created, response_queued, response_in_progress, response_completed,
  response_incomplete, response_failed, error_event, output_item_added, output_item_done,
  content_part_added, content_part_done, output_text_delta, output_text_done, refusal_delta,
  refusal_done, reasoning_delta, reasoning_done, output_text_annotation_added,
  reasoning_summary_part_added, reasoning_summary_part_done, reasoning_summary_text_delta,
  reasoning_summary_text_done, function_call_arguments_delta, function_call_arguments_done,
}
use bo_thesis.Agent.Reducer.State.{
  Reducer, item_content, reasoning_summary, rebuilt, rebuild_shell, rebuild,
}
use bo_thesis.Agent.Reducer.Writes.{
  remember_item_id, updated, fail, is_missing, needs_phase, with_phase, phased_shell, phase_item,
  phase_items, resolve_phases, observed_phase,
}
use bo_thesis.Agent.Reducer.Apply.{
  seed, shell_of, place_item, place_items, open_response, place_missing, settle, settled_envelope,
  code_or_default, reduce,
}
use bo_thesis.Agent.Reducer.Frame.{
  WritesAt, WritesAt-trans, rebuilt-WritesAt, arguments_write, put-ApartArguments,
  appended-ApartArguments,
}
use bo_thesis.Agent.Reducer.Frame.Each.{
  append_text-WritesAt, set_text-WritesAt, add_annotation-WritesAt, place_summary_part-WritesAt,
  append_summary_text-WritesAt, set_summary_text-WritesAt, remember_item_id-WritesAt,
  place_part-WritesAt, seed-WritesAt,
}

module _ {A : Type 0} where
  abbrev pub rebuilt_from : Reducer A → ℕ → Option (Item A) → Option (Item A)
  rebuilt_from r o none = none
  rebuilt_from r o (some shell) = some (rebuilt r o shell)

  -- Every item is what its shell and the accumulators make, and there is one for each shell.
  abbrev pub IsRebuilt : Reducer A → Type 0
  IsRebuilt r = (o : ℕ) → get r.items o ≡ rebuilt_from r o (get r.shells o)

  -- The same, but for the item at `o`, which is there only if its shell is.
  abbrev IsRebuiltApart : ℕ → Reducer A → Type 0
  IsRebuiltApart o r =
      ((j : ℕ) → nat_beq o j ≡ false → get r.items j ≡ rebuilt_from r j (get r.shells j))
      × (get r.shells o ≡ none → get r.items o ≡ none)

  rebuilt_from-WritesAt :
      (o j : ℕ) (r s : Reducer A) (shell : Option (Item A))
      → WritesAt o r s
      → nat_beq o j ≡ false
      → rebuilt_from s j shell ≡ rebuilt_from r j shell
  rebuilt_from-WritesAt o j r s none w h = refl
  rebuilt_from-WritesAt o j r s (some shell) w h = ap some (rebuilt-WritesAt o j r s shell w h)

  IsRebuilt→IsRebuiltApart : (o : ℕ) (r : Reducer A) → IsRebuilt r → IsRebuiltApart o r
  IsRebuilt→IsRebuiltApart o r v = (λ j h. v j, λ gone. v o ∙ ap (rebuilt_from r o) gone)

  WritesAt-IsRebuiltApart :
      (o : ℕ) (r s : Reducer A) → WritesAt o r s → IsRebuiltApart o r → IsRebuiltApart o s
  WritesAt-IsRebuiltApart o r s w v = (
    λ j h.
        ap (λ d. get d j) w.items
        ∙ v.0 j h
        ∙ sym (rebuilt_from-WritesAt o j r s (get r.shells j) w h)
        ∙ ap (λ d. rebuilt_from s j (get d j)) (sym w.shells),
    λ gone. ap (λ d. get d o) w.items ∙ v.1 (ap (λ d. get d o) (sym w.shells) ∙ gone),
  )

  -- The accumulators and the shells are not touched by a write to the items.
  items_write :
      (r : Reducer A) (items : Dict ℕ (Item A)) (j : ℕ) (shell : Option (Item A))
      → rebuilt_from (record r { items = items }) j shell ≡ rebuilt_from r j shell
  unfolding rebuilt item_content reasoning_summary
  items_write r items j none = refl
  items_write r items j (some (message m)) = refl
  items_write r items j (some (reasoning m)) = refl
  items_write r items j (some (function_call m)) = refl
  items_write r items j (some (other m)) = refl

  rebuild_shell-IsRebuilt :
      (r : Reducer A) (o : ℕ) (found : Option (Item A))
      → get r.shells o ≡ found
      → IsRebuiltApart o r
      → IsRebuilt (rebuild_shell r o found)
  unfolding rebuild_shell
  rebuild_shell-IsRebuilt r o none e v j = elim (Bool-cases (nat_beq o j)) [
    | inl same ↦
        let at = (nat_beq_iff o j).0 same in
        ap (λ k. get r.items k) (sym at)
        ∙ v.1 e
        ∙ ap (rebuilt_from r j) (sym (ap (λ k. get r.shells k) (sym at) ∙ e))
    | inr other_item ↦ v.0 j other_item
  ]
  rebuild_shell-IsRebuilt r o (some shell) e v j =
      get-put r.items o j (rebuilt r o shell) ∙ elim (Bool-cases (nat_beq o j)) [
        | inl same ↦
            let at = (nat_beq_iff o j).0 same in
            ap (λ b. if b then some (rebuilt r o shell) else get r.items j) same
            ∙ ap (λ k. rebuilt_from r k (some shell)) at
            ∙ ap (rebuilt_from r j) (sym (ap (λ k. get r.shells k) (sym at) ∙ e))
            ∙ sym (items_write r (put r.items o (rebuilt r o shell)) j (get r.shells j))
        | inr other_item ↦
            ap (λ b. if b then some (rebuilt r o shell) else get r.items j) other_item
            ∙ v.0 j other_item
            ∙ sym (items_write r (put r.items o (rebuilt r o shell)) j (get r.shells j))
      ]

  updated-IsRebuilt :
      (r s : Reducer A) (id : Str) (o : ℕ)
      → WritesAt o r s
      → IsRebuilt r
      → IsRebuilt (updated s id o)
  unfolding updated rebuild
  updated-IsRebuilt r s id o w v =
      let remembered = remember_item_id s (some id) o in
      rebuild_shell-IsRebuilt remembered o (get remembered.shells o) refl (
        WritesAt-IsRebuiltApart o r remembered
          (WritesAt-trans o r s remembered w (remember_item_id-WritesAt s o (some id) o))
          (IsRebuilt→IsRebuiltApart o r v))

  shells_write :
      (r : Reducer A) (shells items : Dict ℕ (Item A)) (j : ℕ) (shell : Option (Item A))
      → rebuilt_from (record r { shells = shells; items = items }) j shell ≡ rebuilt_from r j shell
  unfolding rebuilt item_content reasoning_summary
  shells_write r shells items j none = refl
  shells_write r shells items j (some (message m)) = refl
  shells_write r shells items j (some (reasoning m)) = refl
  shells_write r shells items j (some (function_call m)) = refl
  shells_write r shells items j (some (other m)) = refl

  with_phase-rebuilt :
      (phase : MessagePhase) (r : Reducer A) (o : ℕ) (shell : Item A)
      → with_phase phase (rebuilt r o shell) ≡ rebuilt r o (with_phase phase shell)
  unfolding rebuilt
  with_phase-rebuilt phase r o (message m) = refl
  with_phase-rebuilt phase r o (reasoning m) = refl
  with_phase-rebuilt phase r o (function_call m) = refl
  with_phase-rebuilt phase r o (other m) = refl

  -- An item and its shell that get a phase together.
  phased-IsRebuilt :
      (phase : MessagePhase) (r : Reducer A) (o : ℕ) (item : Item A) (found : Option (Item A))
      → get r.shells o ≡ found
      → some item ≡ rebuilt_from r o found
      → IsRebuilt r
      → IsRebuilt (record r {
        items = put r.items o (with_phase phase item);
        shells = phased_shell r.shells o phase found;
      })
  phased-IsRebuilt phase r o item none e h v j = cc
  phased-IsRebuilt phase r o item (some shell) e h v j =
      let items = put r.items o (with_phase phase item) in
      let shells = put r.shells o (with_phase phase shell) in
      let made : with_phase phase item ≡ rebuilt r o (with_phase phase shell) =
        ap (with_phase phase) (cc h) ∙ with_phase-rebuilt phase r o shell in
      get-put r.items o j (with_phase phase item)
      ∙ elim (Bool-cases (nat_beq o j)) [
        | inl same ↦
            let at = (nat_beq_iff o j).0 same in
            ap (λ b. if b then some (with_phase phase item) else get r.items j) same
            ∙ ap some made
            ∙ ap (λ k. rebuilt_from r k (some (with_phase phase shell))) at
            ∙ ap
                (λ b.
                  rebuilt_from r j (if b then some (with_phase phase shell) else get r.shells j))
                (sym same)
        | inr other_item ↦
            ap (λ b. if b then some (with_phase phase item) else get r.items j) other_item
            ∙ v j
            ∙ ap
                (λ b.
                  rebuilt_from r j (if b then some (with_phase phase shell) else get r.shells j))
                (sym other_item)
      ]
      ∙ ap (rebuilt_from r j) (sym (get-put r.shells o j (with_phase phase shell)))
      ∙ sym (shells_write r shells items j (get shells j))

  phase_item-IsRebuilt :
      (phase : MessagePhase) (r : Reducer A) (o : ℕ) (found : Option (Item A))
      → get r.items o ≡ found
      → IsRebuilt r
      → IsRebuilt (phase_item phase r o found)
  unfolding phase_item
  phase_item-IsRebuilt phase r o none e v = v
  phase_item-IsRebuilt phase r o (some item) e v = elim (Bool-cases (needs_phase item)) [
    | inl needed ↦ rw needed (phased-IsRebuilt phase r o item (get r.shells o) refl (sym e ∙ v o) v)
    | inr left_alone ↦ rw left_alone v
  ]

  phase_items-IsRebuilt :
      (phase : MessagePhase) (r : Reducer A) (os : List ℕ)
      → IsRebuilt r
      → IsRebuilt (phase_items phase r os)
  unfolding phase_items
  phase_items-IsRebuilt phase r [] v = v
  phase_items-IsRebuilt phase r (o ∷ os) v =
      phase_items-IsRebuilt phase (phase_item phase r o (get r.items o)) os
        (phase_item-IsRebuilt phase r o (get r.items o) refl v)

  envelope_write :
      (r : Reducer A) (envelope : Option (Response A))
      → IsRebuilt r
      → IsRebuilt (record r { envelope = envelope })
  unfolding rebuilt item_content reasoning_summary
  envelope_write r envelope v j = v j ∙ same_shell (get r.shells j)
    where
      same_shell :
          (shell : Option (Item A))
          → rebuilt_from r j shell ≡ rebuilt_from (record r { envelope = envelope }) j shell
      same_shell none = refl
      same_shell (some (message m)) = refl
      same_shell (some (reasoning m)) = refl
      same_shell (some (function_call m)) = refl
      same_shell (some (other m)) = refl

module _ {A : Type 0} ⦃same : Eq A⦄ where
  place_item-IsRebuilt :
      (r : Reducer A) (o : ℕ) (item : Item A) (done : Bool)
      → IsRebuilt r
      → IsRebuilt (place_item r o item done)
  unfolding place_item rebuild
  place_item-IsRebuilt r o item done v =
      let shell = shell_of done item in
      let placed : Reducer A = record r { shells = put r.shells o shell } in
      let remembered = remember_item_id placed (item_id shell) o in
      let seeded = seed remembered o shell in
      rebuild_shell-IsRebuilt seeded o (get seeded.shells o) refl (
        WritesAt-IsRebuiltApart o placed seeded
          (WritesAt-trans o placed remembered seeded
            (remember_item_id-WritesAt placed o (item_id shell) o)
            (seed-WritesAt remembered o shell))
          (
            λ j h.
                v j
                ∙ ap (λ b. rebuilt_from r j (if b then some shell else get r.shells j)) (sym h)
                ∙ ap (rebuilt_from r j) (sym (get-put r.shells o j shell))
                ∙ sym (shells_write r (put r.shells o shell) r.items j (get placed.shells j)),
            λ gone. ground (arith, get-put r.shells o o shell, nat_beq_iff o o),
          ))

  IsRebuilt-if :
      (b : Bool) (r s : Reducer A) → IsRebuilt r → IsRebuilt s → IsRebuilt (if b then r else s)
  IsRebuilt-if true r s v w = v
  IsRebuilt-if false r s v w = w

  place_items-IsRebuilt :
      (r : Reducer A) (o : ℕ) (items : List (Item A))
      → IsRebuilt r
      → IsRebuilt (place_items r o items)
  unfolding place_items
  place_items-IsRebuilt r o [] v = v
  place_items-IsRebuilt r o (item ∷ items) v =
      place_items-IsRebuilt (place_item r o item true) (suc o) items
        (place_item-IsRebuilt r o item true v)

  open_response-IsRebuilt :
      (r : Reducer A) (response : Response A) → IsRebuilt r → IsRebuilt (open_response r response)
  unfolding open_response
  open_response-IsRebuilt r response v =
      let envelope = some (record response { output = [] }) in
      place_items-IsRebuilt (record r { envelope = envelope }) 0 response.output
        (envelope_write r envelope v)

  place_missing-IsRebuilt :
      (r : Reducer A) (o : ℕ) (items : List (Item A))
      → IsRebuilt r
      → IsRebuilt (place_missing r o items)
  unfolding place_missing
  place_missing-IsRebuilt r o [] v = v
  place_missing-IsRebuilt r o (item ∷ items) v =
      place_missing-IsRebuilt (if is_missing (get r.shells o) then place_item r o item true else r)
        (suc o) items
        (IsRebuilt-if (is_missing (get r.shells o)) (place_item r o item true) r
          (place_item-IsRebuilt r o item true v) v)

  settle-IsRebuilt :
      (r : Reducer A) (status : ResponseStatus) (snapshot : Response A)
      → IsRebuilt r
      → IsRebuilt (settle r status snapshot)
  unfolding settle resolve_phases
  settle-IsRebuilt r status snapshot v =
      let placed = place_missing r 0 snapshot.output in
      let envelope = some (settled_envelope snapshot (get_or snapshot placed.envelope) status) in
      phase_items-IsRebuilt (observed_phase placed.items) (record placed { envelope = envelope })
        (map (λ (p : ℕ × Item A). p.0) placed.items)
        (envelope_write placed envelope (place_missing-IsRebuilt r 0 snapshot.output v))

  -- After every event each output item is what its shell and the accumulated parts, texts,
  -- annotations, summaries and arguments make; no item is stale or missing.
  pub reduce-IsRebuilt :
      (r : Reducer A) (event : StreamEvent A) → IsRebuilt r → IsRebuilt (reduce r event)
  unfolding reduce fail
  reduce-IsRebuilt r (response_created response) v = open_response-IsRebuilt r response v
  reduce-IsRebuilt r (response_queued response) v = open_response-IsRebuilt r response v
  reduce-IsRebuilt r (response_in_progress response) v = open_response-IsRebuilt r response v
  reduce-IsRebuilt r (response_completed response) v = settle-IsRebuilt r _ response v
  reduce-IsRebuilt r (response_incomplete response) v = settle-IsRebuilt r _ response v
  reduce-IsRebuilt r (response_failed response) v = settle-IsRebuilt r _ response v
  reduce-IsRebuilt r (error_event code text) v =
      envelope_write r (fail r (code_or_default code) text).envelope v
  reduce-IsRebuilt r (output_item_added o item) v = place_item-IsRebuilt r o item false v
  reduce-IsRebuilt r (output_item_done o item) v = place_item-IsRebuilt r o item true v
  reduce-IsRebuilt r (content_part_added id o c part) v =
      updated-IsRebuilt r _ id o (place_part-WritesAt r o c part) v
  reduce-IsRebuilt r (content_part_done id o c part) v =
      updated-IsRebuilt r _ id o (place_part-WritesAt r o c part) v
  reduce-IsRebuilt r (output_text_delta id o c delta) v =
      updated-IsRebuilt r _ id o (append_text-WritesAt r o c delta (output_text [] [])) v
  reduce-IsRebuilt r (output_text_done id o c text) v =
      updated-IsRebuilt r _ id o (set_text-WritesAt r o c text (output_text [] [])) v
  reduce-IsRebuilt r (refusal_delta id o c delta) v =
      updated-IsRebuilt r _ id o (append_text-WritesAt r o c delta (refusal [])) v
  reduce-IsRebuilt r (refusal_done id o c text) v =
      updated-IsRebuilt r _ id o (set_text-WritesAt r o c text (refusal [])) v
  reduce-IsRebuilt r (reasoning_delta id o c delta) v =
      updated-IsRebuilt r _ id o (append_text-WritesAt r o c delta (reasoning_text [])) v
  reduce-IsRebuilt r (reasoning_done id o c text) v =
      updated-IsRebuilt r _ id o (set_text-WritesAt r o c text (reasoning_text [])) v
  reduce-IsRebuilt r (output_text_annotation_added id o c i annotation) v =
      updated-IsRebuilt r _ id o (add_annotation-WritesAt r o c i annotation) v
  reduce-IsRebuilt r (reasoning_summary_part_added id o s part) v =
      updated-IsRebuilt r _ id o (place_summary_part-WritesAt r o s part) v
  reduce-IsRebuilt r (reasoning_summary_part_done id o s part) v =
      updated-IsRebuilt r _ id o (place_summary_part-WritesAt r o s part) v
  reduce-IsRebuilt r (reasoning_summary_text_delta id o s delta) v =
      updated-IsRebuilt r _ id o (append_summary_text-WritesAt r o s delta) v
  reduce-IsRebuilt r (reasoning_summary_text_done id o s text) v =
      updated-IsRebuilt r _ id o (set_summary_text-WritesAt r o s text) v
  reduce-IsRebuilt r (function_call_arguments_delta id o delta) v =
      updated-IsRebuilt r _ id o
        (arguments_write o r _ (appended-ApartArguments r.arguments o delta)) v
  reduce-IsRebuilt r (function_call_arguments_done id o text) v =
      updated-IsRebuilt r _ id o
        (arguments_write o r _ (put-ApartArguments r.arguments o (text ∷ []))) v
