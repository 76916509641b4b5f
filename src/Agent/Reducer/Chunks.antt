-- ===== src/Agent/Reducer/Chunks.antt =====
-- Text that ResponseReducer receives in pieces, backend/bothesis/agent/reducer.py.

use bo_thesis.Base.Sorted.{sort_asc}
use bo_thesis.Base.Dict.{Dict, get, put, get_or, setdefault, get-put, put-put, get_or-put}
use bo_thesis.Base.{
  ℕ, ◌≡◌, refl, sym, ap, ◌∙◌, Option, none, some, List, [], ◌∷◌, ◌++◌, append_assoc, Str, concat,
  concat-append, gather, map, Bool-cases, inl, inr, Eq, nat_eq, list_eq, pair_eq, pair_beq,
  beq_refl, if◌then◌else◌,
}
use bo_thesis.Agent.Protocol.{
  ContentPart, output_text, refusal, reasoning_text, summary_text, Item, message, reasoning,
  function_call, other, StreamEvent, output_text_delta, refusal_delta, reasoning_delta,
}
use bo_thesis.Agent.Reducer.State.{
  PartKey, Reducer, reduced_output, reduced_response, sorted_indices, materialize_part, found_part,
  item_content, reasoning_summary, rebuilt, rebuild_shell, rebuild,
}
use bo_thesis.Agent.Reducer.Writes.{appended, append_text, remember_item_id, updated}
use bo_thesis.Agent.Reducer.Apply.{reduce}

-- A second default for a key is not used.
setdefault_twice :
    {V : Type 0} (d : Dict PartKey V) (key : PartKey) (v : V)
    → setdefault (setdefault d key v) key v ≡ setdefault d key v
unfolding setdefault
setdefault_twice d key v =
    ap (λ found. put (put d key (get_or v (get d key))) key (get_or v found))
      (get-put d key key (get_or v (get d key))
        ∙ ap (λ b. if b then some (get_or v (get d key)) else get d key) (beq_refl key))
    ∙ put-put d key (get_or v (get d key)) (get_or v (get d key))

-- The text at a key after a piece.
concat-appended :
    (d : Dict PartKey (List Str)) (key k : PartKey) (s : Str)
    → concat (get_or [] (get (appended d key s) k)) ≡ (
        if pair_beq key k
        then concat (get_or [] (get d key)) ++ s
        else concat (get_or [] (get d k)))
unfolding appended
concat-appended d key k s =
    ap concat (get_or-put d key k [] (get_or [] (get d key) ++ (s ∷ [])))
    ∙ elim (Bool-cases (pair_beq key k)) [
      | inl same ↦ rw same (concat-append (get_or [] (get d key)) s)
      | inr apart ↦ rw apart refl
    ]

concat-appended_twice :
    (d : Dict PartKey (List Str)) (key k : PartKey) (s t : Str)
    → concat (get_or [] (get (appended (appended d key s) key t) k))
      ≡ concat (get_or [] (get (appended d key (s ++ t)) k))
concat-appended_twice d key k s t =
    concat-appended (appended d key s) key k t
    ∙ elim (Bool-cases (pair_beq key k)) [
      | inl same ↦ rw same (
          ap (λ x. x ++ t)
            (concat-appended d key key s
              ∙ ap
                  (λ b.
                    if b
                    then concat (get_or [] (get d key)) ++ s
                    else concat (get_or [] (get d key)))
                  (beq_refl key))
          ∙ append_assoc (concat (get_or [] (get d key))) s t)
      | inr apart ↦ rw apart (
          concat-appended d key k s
          ∙ ap
              (λ b. if b then concat (get_or [] (get d key)) ++ s else concat (get_or [] (get d k)))
              apart)
    ]
    ∙ sym (concat-appended d key k (s ++ t))

module _ {A : Type 0} where
  -- The accumulators, the shells and the envelope are the same.
  record SameAccumulators (r s : Reducer A) : Type 0 where
    envelope : s.envelope ≡ r.envelope
    shells : s.shells ≡ r.shells
    parts : s.parts ≡ r.parts
    text : s.text ≡ r.text
    annotations : s.annotations ≡ r.annotations
    summary_parts : s.summary_parts ≡ r.summary_parts
    summary_text : s.summary_text ≡ r.summary_text
    arguments : s.arguments ≡ r.arguments

  rebuild_shell-SameAccumulators :
      (r : Reducer A) (o : ℕ) (found : Option (Item A))
      → SameAccumulators r (rebuild_shell r o found)
  unfolding rebuild_shell
  rebuild_shell-SameAccumulators r o none = record {
    envelope = refl;
    shells = refl;
    parts = refl;
    text = refl;
    annotations = refl;
    summary_parts = refl;
    summary_text = refl;
    arguments = refl;
  }
  rebuild_shell-SameAccumulators r o (some shell) = record {
    envelope = refl;
    shells = refl;
    parts = refl;
    text = refl;
    annotations = refl;
    summary_parts = refl;
    summary_text = refl;
    arguments = refl;
  }

  updated-SameAccumulators :
      (r : Reducer A) (id : Str) (o : ℕ) → SameAccumulators r (updated r id o)
  unfolding updated rebuild remember_item_id
  updated-SameAccumulators r [] o = rebuild_shell-SameAccumulators r o (get r.shells o)
  updated-SameAccumulators r (c ∷ id) o =
      let s = remember_item_id r (some (c ∷ id)) o in
      let same = rebuild_shell-SameAccumulators s o (get r.shells o) in
      record {
        envelope = same.envelope;
        shells = same.shells;
        parts = same.parts;
        text = same.text;
        annotations = same.annotations;
        summary_parts = same.summary_parts;
        summary_text = same.summary_text;
        arguments = same.arguments;
      }

  -- An item is rebuilt from the whole texts, however they are kept.
  rebuilt-same :
      (r s : Reducer A) (o : ℕ) (shell : Item A)
      → s.parts ≡ r.parts
      → ((k : PartKey) → concat (get_or [] (get s.text k)) ≡ concat (get_or [] (get r.text k)))
      → s.annotations ≡ r.annotations
      → s.summary_parts ≡ r.summary_parts
      → s.summary_text ≡ r.summary_text
      → s.arguments ≡ r.arguments
      → rebuilt s o shell ≡ rebuilt r o shell
  unfolding rebuilt item_content reasoning_summary materialize_part
  rebuilt-same r s o shell parts text annotations summary_parts texts arguments = by_shell shell
    where
      content : item_content s o ≡ item_content r o
      content i =
          gather
            (λ c.
              found_part (get (parts i) (o, c)) (text (o, c) i)
                (get_or [] (get (annotations i) (o, c))))
            (sorted_indices (parts i) o)

      summary : reasoning_summary s o ≡ reasoning_summary r o
      summary i =
          map (λ c. summary_text (concat (get_or [] (get (texts i) (o, c)))))
            (sorted_indices (summary_parts i) o)

      by_shell : (shell : Item A) → rebuilt s o shell ≡ rebuilt r o shell
      by_shell (message m) = ap (λ c. message (record m { content = c })) content
      by_shell (reasoning m) =
          λ i. reasoning (record m { content = content i; summary = summary i })
      by_shell (function_call m) =
          ap (λ t. function_call (record m { arguments = concat (get_or [] (get t o)) })) arguments
      by_shell (other m) = refl

  abbrev rebuilt_items : Reducer A → ℕ → Option (Item A) → Dict ℕ (Item A)
  rebuilt_items r o none = r.items
  rebuilt_items r o (some shell) = put r.items o (rebuilt r o shell)

  updated-items :
      (r : Reducer A) (id : Str) (o : ℕ) (found : Option (Item A))
      → get r.shells o ≡ found
      → (updated r id o).items ≡ rebuilt_items r o found
  unfolding updated rebuild rebuild_shell remember_item_id rebuilt item_content reasoning_summary
  updated-items r [] o none e = rw e refl
  updated-items r [] o (some shell) e = rw e refl
  updated-items r (c ∷ id) o none e = rw e refl
  updated-items r (c ∷ id) o (some (message m)) e = rw e refl
  updated-items r (c ∷ id) o (some (reasoning m)) e = rw e refl
  updated-items r (c ∷ id) o (some (function_call m)) e = rw e refl
  updated-items r (c ∷ id) o (some (other m)) e = rw e refl

  response-same :
      (r s : Reducer A)
      → s.envelope ≡ r.envelope
      → s.items ≡ r.items
      → reduced_response s ≡ reduced_response r
  unfolding reduced_response reduced_output
  response-same r s envelope items i = elim (envelope i) [
    | none ↦ none
    | some response ↦ some (record response {
      output = map (λ (p : ℕ × Item A). p.1) (sort_asc (λ (p : ℕ × Item A). p.0) (items i));
    })
  ]

  -- The end of `reduce` after a piece of text.
  abbrev with_piece : Reducer A → Str → ℕ × ℕ → ContentPart A → Str → Reducer A
  with_piece r id key shell piece = updated (append_text r key piece shell) id key.0

  with_piece-envelope :
      (r : Reducer A) (id : Str) (key : PartKey) (shell : ContentPart A) (piece : Str)
      → (with_piece r id key shell piece).envelope ≡ r.envelope
  unfolding append_text
  with_piece-envelope r id key shell piece =
      (updated-SameAccumulators (append_text r key piece shell) id key.0).envelope

  with_piece_twice-items :
      (r : Reducer A) (id : Str) (key : PartKey) (shell : ContentPart A) (a b : Str)
      (found : Option (Item A))
      → get r.shells key.0 ≡ found
      → (with_piece (with_piece r id key shell a) id key shell b).items
        ≡ (with_piece r id key shell (a ++ b)).items
  unfolding append_text
  with_piece_twice-items r id key shell a b found e =
      let p = append_text r key a shell in
      let u = updated p id key.0 in
      let q = append_text u key b shell in
      let w = append_text r key (a ++ b) shell in
      let same = updated-SameAccumulators p id key.0 in
      updated-items q id key.0 found (ap (λ d. get d key.0) same.shells ∙ e)
      ∙ by_found found e
      ∙ sym (updated-items w id key.0 found e)
    where
      by_found :
          (found : Option (Item A))
          → get r.shells key.0 ≡ found
          → rebuilt_items
              (append_text (updated (append_text r key a shell) id key.0) key b shell)
              key.0
              found
            ≡ rebuilt_items (append_text r key (a ++ b) shell) key.0 found
      by_found none e = updated-items (append_text r key a shell) id key.0 none e
      by_found (some item) e =
          let p = append_text r key a shell in
          let u = updated p id key.0 in
          let q = append_text u key b shell in
          let w = append_text r key (a ++ b) shell in
          let same = updated-SameAccumulators p id key.0 in
          ap (λ items. put items key.0 (rebuilt q key.0 item))
            (updated-items p id key.0 (some item) e)
          ∙ put-put r.items key.0 (rebuilt p key.0 item) (rebuilt q key.0 item)
          ∙ ap (put r.items key.0) (
              rebuilt-same w q key.0 item
                (ap (λ d. setdefault d key shell) same.parts ∙ setdefault_twice r.parts key shell)
                (λ k.
                  ap (λ d. concat (get_or [] (get (appended d key b) k))) same.text
                  ∙ concat-appended_twice r.text key k a b)
                same.annotations same.summary_parts same.summary_text same.arguments)

  with_piece_twice :
      (r : Reducer A) (id : Str) (key : PartKey) (shell : ContentPart A) (a b : Str)
      → reduced_response (with_piece (with_piece r id key shell a) id key shell b)
        ≡ reduced_response (with_piece r id key shell (a ++ b))
  with_piece_twice r id key shell a b =
      response-same (with_piece r id key shell (a ++ b))
        (with_piece (with_piece r id key shell a) id key shell b)
        (with_piece-envelope (with_piece r id key shell a) id key shell b
          ∙ with_piece-envelope r id key shell a
          ∙ sym (with_piece-envelope r id key shell (a ++ b)))
        (with_piece_twice-items r id key shell a b (get r.shells key.0) refl)

module _ {A : Type 0} ⦃same : Eq A⦄ where
  -- Two events give the response that one event gives.
  abbrev pub JoinsTo : Reducer A → (first second joined : StreamEvent A) → Type 0
  JoinsTo r first second joined =
      reduced_response (reduce (reduce r first) second) ≡ reduced_response (reduce r joined)

  -- The response does not depend on how a text is cut into deltas: two deltas of a part in a row
  -- make the response that one delta of their concatenation makes, for output text, refusals and
  -- reasoning.
  pub reduce-JoinsTo :
      (r : Reducer A) (id : Str) (o c : ℕ) (a b : Str)
      → JoinsTo r
          (output_text_delta id o c a)
          (output_text_delta id o c b)
          (output_text_delta id o c (a ++ b))
        × JoinsTo r
            (refusal_delta id o c a)
            (refusal_delta id o c b)
            (refusal_delta id o c (a ++ b))
        × JoinsTo r
            (reasoning_delta id o c a)
            (reasoning_delta id o c b)
            (reasoning_delta id o c (a ++ b))
  unfolding reduce
  reduce-JoinsTo r id o c a b = (
    with_piece_twice r id (o, c) (output_text [] []) a b,
    with_piece_twice r id (o, c) (refusal []) a b,
    with_piece_twice r id (o, c) (reasoning_text []) a b,
  )
