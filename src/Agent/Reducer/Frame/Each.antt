-- ===== src/Agent/Reducer/Frame/Each.antt =====
-- The writes of ResponseReducer one by one, backend/bothesis/agent/reducer.py.

use bo_thesis.Base.Dict.{setdefault}
use bo_thesis.Base.{
  ℕ, suc, refl, Option, none, some, List, [], ◌∷◌, Str, Eq, nat_eq, list_eq, pair_eq,
}
use bo_thesis.Agent.Protocol.{
  ContentPart, output_text, Item, message, reasoning, function_call, other, summary_text, text_of,
  annotations_of,
}
use bo_thesis.Agent.Reducer.State.{Reducer}
use bo_thesis.Agent.Reducer.Writes.{
  adopted, append_text, set_text, add_annotation, place_summary_part, append_summary_text,
  set_summary_text, remember_item_id, text_or_refusal,
}
use bo_thesis.Agent.Reducer.Apply.{
  place_part, place_parts, place_summary_parts, seed, adopted_annotations,
}
use bo_thesis.Agent.Reducer.Frame.{
  Apart, ApartArguments, Apart-refl, put-Apart, put-ApartArguments, setdefault-Apart, adopted-Apart,
  appended-Apart, WritesAt, WritesAt-refl, WritesAt-trans, content_write, summary_write,
  arguments_write,
}

module _ {A : Type 0} where
  pub append_text-WritesAt :
      (r : Reducer A) (o c : ℕ) (delta : Str) (shell : ContentPart A)
      → WritesAt o r (append_text r (o, c) delta shell)
  unfolding append_text
  append_text-WritesAt r o c delta shell =
      content_write o r _ _ _ (setdefault-Apart r.parts o c shell) (appended-Apart r.text o c delta)
        (Apart-refl o r.annotations)

  pub set_text-WritesAt :
      (r : Reducer A) (o c : ℕ) (text : Str) (shell : ContentPart A)
      → WritesAt o r (set_text r (o, c) text shell)
  unfolding set_text
  set_text-WritesAt r o c text shell =
      content_write o r _ _ _ (setdefault-Apart r.parts o c shell)
        (put-Apart r.text o c (text ∷ [])) (Apart-refl o r.annotations)

  pub add_annotation-WritesAt :
      (r : Reducer A) (o c i : ℕ) (annotation : A)
      → WritesAt o r (add_annotation r (o, c) i annotation)
  unfolding add_annotation
  add_annotation-WritesAt r o c i annotation =
      content_write o r _ _ _ (setdefault-Apart r.parts o c (output_text [] []))
        (Apart-refl o r.text) (put-Apart r.annotations o c _)

  pub place_summary_part-WritesAt :
      (r : Reducer A) (o c : ℕ) (part : ContentPart A)
      → WritesAt o r (place_summary_part r (o, c) part)
  unfolding place_summary_part
  place_summary_part-WritesAt r o c part =
      summary_write o r _ _ (put-Apart r.summary_parts o c part)
        (adopted-Apart r.summary_text o c (text_of part))

  pub append_summary_text-WritesAt :
      (r : Reducer A) (o c : ℕ) (delta : Str) → WritesAt o r (append_summary_text r (o, c) delta)
  unfolding append_summary_text
  append_summary_text-WritesAt r o c delta =
      summary_write o r _ _ (setdefault-Apart r.summary_parts o c (summary_text []))
        (appended-Apart r.summary_text o c delta)

  pub set_summary_text-WritesAt :
      (r : Reducer A) (o c : ℕ) (text : Str) → WritesAt o r (set_summary_text r (o, c) text)
  unfolding set_summary_text
  set_summary_text-WritesAt r o c text =
      summary_write o r _ _ (setdefault-Apart r.summary_parts o c (summary_text []))
        (put-Apart r.summary_text o c (text ∷ []))

  pub remember_item_id-WritesAt :
      (r : Reducer A) (o : ℕ) (id : Option Str) (at : ℕ) → WritesAt o r (remember_item_id r id at)
  unfolding remember_item_id
  remember_item_id-WritesAt r o none at = WritesAt-refl o r
  remember_item_id-WritesAt r o (some []) at = WritesAt-refl o r
  remember_item_id-WritesAt r o (some (c ∷ id)) at = record {
    envelope = refl;
    shells = refl;
    items = refl;
    parts = Apart-refl o _;
    text = Apart-refl o _;
    annotations = Apart-refl o _;
    summary_parts = Apart-refl o _;
    summary_text = Apart-refl o _;
    arguments = λ j e. refl;
  }

module _ {A : Type 0} ⦃same : Eq A⦄ where
  pub place_part-WritesAt :
      (r : Reducer A) (o c : ℕ) (part : ContentPart A) → WritesAt o r (place_part r (o, c) part)
  unfolding place_part
  place_part-WritesAt r o c part =
      content_write o r _ _ _ (put-Apart r.parts o c part)
        (adopted-Apart r.text o c (text_or_refusal part)) (annotations_apart (annotations_of part))
    where
      annotations_apart :
          (annotations : List A)
          → Apart o r.annotations (adopted_annotations r.annotations (o, c) annotations)
      annotations_apart [] = Apart-refl o _
      annotations_apart (a ∷ annotations) = put-Apart r.annotations o c _

  place_parts-WritesAt :
      (r : Reducer A) (o c : ℕ) (parts : List (ContentPart A))
      → WritesAt o r (place_parts r o c parts)
  unfolding place_parts
  place_parts-WritesAt r o c [] = WritesAt-refl o r
  place_parts-WritesAt r o c (part ∷ parts) =
      WritesAt-trans o _ _ _ (place_part-WritesAt r o c part)
        (place_parts-WritesAt (place_part r (o, c) part) o (suc c) parts)

  place_summary_parts-WritesAt :
      (r : Reducer A) (o c : ℕ) (parts : List (ContentPart A))
      → WritesAt o r (place_summary_parts r o c parts)
  unfolding place_summary_parts
  place_summary_parts-WritesAt r o c [] = WritesAt-refl o r
  place_summary_parts-WritesAt r o c (part ∷ parts) =
      WritesAt-trans o _ _ _ (place_summary_part-WritesAt r o c part)
        (place_summary_parts-WritesAt (place_summary_part r (o, c) part) o (suc c) parts)

  pub seed-WritesAt : (r : Reducer A) (o : ℕ) (item : Item A) → WritesAt o r (seed r o item)
  unfolding seed adopted setdefault
  seed-WritesAt r o (message m) = place_parts-WritesAt r o 0 m.content
  seed-WritesAt r o (reasoning s) =
      WritesAt-trans o _ _ _ (place_parts-WritesAt r o 0 s.content)
        (place_summary_parts-WritesAt (place_parts r o 0 s.content) o 0 s.summary)
  seed-WritesAt r o (function_call c) = arguments_write o r _ (adopted_arguments c.arguments)
    where
      adopted_arguments : (text : Str) → ApartArguments o r.arguments (adopted r.arguments o text)
      adopted_arguments [] = put-ApartArguments r.arguments o _
      adopted_arguments (x ∷ text) = put-ApartArguments r.arguments o _
  seed-WritesAt r o (other c) = WritesAt-refl o r
