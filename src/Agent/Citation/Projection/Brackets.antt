-- ===== src/Agent/Citation/Projection/Brackets.antt =====
-- The annotations of CitationProjection, and the places in the text that they name.
use mathlib.Core.Path.{subst}
use bo_thesis.Base.Dict.{get, remove}
use bo_thesis.Base.{
  ℕ, ◌+◌, ◌≡◌, inl, inr, refl, sym, ap, ◌∙◌, Bool, true, false, List, [], ◌∷◌, ◌++◌, append_assoc,
  Str, is_empty, length, All, All-append, All-map, Eq, Bool-cases, pair_beq, pair_beq_iff, pair_eq,
  nat_eq, if◌then◌else◌,
}
use bo_thesis.Agent.Citation.{Fragment, visible, cited, number}
use bo_thesis.Base.Dict.{get_or}
use bo_thesis.Agent.Citation.Projection.{
  PartKey, Annotation, document_citation, provider_annotation, message, other_item, StreamEvent,
  text_delta, text_done, annotation_added, part_done, item_done, other_event, CitationProjection,
  marker_of, value, append_text, append_annotation, citation_events, fragment_events,
  fragments_events, touch, push, project_delta, flush, project_event, project,
}
use bo_thesis.Agent.Citation.Projection.Streamed.{
  get_or-put, streamed, value-append_text, value-touch,
}

module _ {E : Type 0} where
  -- The text from the start index to the end index is the marker with the number.
  abbrev pub IsMarked : Str → Annotation E → Type 0
  IsMarked text (document_citation start end_index n e) =
      (before : Str) × (after : Str) × (text ≡ before ++ (marker_of n ++ after))
      × (length before ≡ start)
      × (end_index ≡ start + length (marker_of n))
  IsMarked text (provider_annotation a) = Unit

  IsMarked-append :
      (text more : Str) (a : Annotation E) → IsMarked text a → IsMarked (text ++ more) a
  IsMarked-append text more (document_citation s e n ev) (before, after, split, start, end_index) =
      (
        before,
        after ++ more,
        ap (λ t. t ++ more) split
            ∙ append_assoc before (marker_of n ++ after) more
            ∙ ap (λ t. before ++ t) (append_assoc (marker_of n) after more),
        start,
        end_index,
      )
  IsMarked-append text more (provider_annotation a) h = tt

  unfoldable pub annotations_of : CitationProjection E → PartKey → List (Annotation E)
  annotations_of p key = get_or [] (get p.annotations key)

  -- The annotations that are kept for a part bracket markers of its text.
  abbrev pub IsBracketed : CitationProjection E → Type 0
  IsBracketed p = (key : PartKey) → All (IsMarked (value p key)) (annotations_of p key)

  append_text-IsBracketed :
      (p : CitationProjection E) (k : PartKey) (text : Str)
      → IsBracketed p
      → IsBracketed (append_text p k text)
  unfolding annotations_of append_text
  append_text-IsBracketed p k text h key = rw (value-append_text p k key text) (
      All-map (IsMarked-append (value p key) (streamed {E = E} key (text_delta k text ∷ [])))
        (annotations_of p key) (h key))

  touch-IsBracketed :
      (p : CitationProjection E) (k : PartKey) → IsBracketed p → IsBracketed (touch p k)
  unfolding annotations_of touch
  touch-IsBracketed p k h key = rw (value-touch p k key) (h key)

  append_annotation-IsBracketed :
      (p : CitationProjection E) (k : PartKey) (a : Annotation E)
      → IsMarked (value p k) a
      → IsBracketed p
      → IsBracketed (append_annotation p k a)
  unfolding annotations_of append_annotation value
  append_annotation-IsBracketed p k a new h key =
      subst (All (IsMarked (value p key))) (sym (get_or-put p.annotations k key _))
        (elim (Bool-cases (pair_beq k key)) [
          | inl same ↦ rw same (
              subst (λ j. All (IsMarked (value p j)) (annotations_of p k ++ (a ∷ [])))
                ((pair_beq_iff k key).0 same)
                (All-append (IsMarked (value p k)) (annotations_of p k) (a ∷ []) (h k) (new, tt)))
          | inr other ↦ rw other (h key)
        ])

  IsMarked-at_end :
      (p : CitationProjection E) (k : PartKey) (n : ℕ) (e : E)
      → IsMarked
          (value (append_text p k (marker_of n)) k)
          (document_citation (length (value p k)) (length (value p k) + length (marker_of n)) n e)
  IsMarked-at_end p k n e = (
    value p k,
    [],
    value-append_text p k k (marker_of n)
        ∙ ap (λ b. value p k ++ (if b then marker_of n ++ [] else [])) ((pair_beq_iff k k).1 refl),
    refl,
    refl,
  )

  citation_events-IsBracketed :
      (p : CitationProjection E) (k : PartKey) (id : Str) (e : E)
      → IsBracketed p
      → IsBracketed (citation_events p k id e).0
  unfolding citation_events value annotations_of
  citation_events-IsBracketed p k id e h =
      let (n, references) = number p.references id in
      let q : CitationProjection E = record p { references = references } in
      append_annotation-IsBracketed (append_text q k (marker_of n)) k _ (IsMarked-at_end q k n e)
        (append_text-IsBracketed q k (marker_of n) h)

  fragment_events-IsBracketed :
      (p : CitationProjection E) (k : PartKey) (f : Fragment E)
      → IsBracketed p
      → IsBracketed (fragment_events p k f).0
  unfolding fragment_events
  fragment_events-IsBracketed p k (visible []) h = h
  fragment_events-IsBracketed p k (visible (c ∷ s)) h = append_text-IsBracketed p k (c ∷ s) h
  fragment_events-IsBracketed p k (cited [] e) h = h
  fragment_events-IsBracketed p k (cited (c ∷ id) e) h =
      citation_events-IsBracketed p k (c ∷ id) e h

  fragments_events-IsBracketed :
      (p : CitationProjection E) (k : PartKey) (fs : List (Fragment E))
      → IsBracketed p
      → IsBracketed (fragments_events p k fs).0
  unfolding fragments_events
  fragments_events-IsBracketed p k [] h = h
  fragments_events-IsBracketed p k (f ∷ fs) h =
      fragments_events-IsBracketed (fragment_events p k f).0 k fs
        (fragment_events-IsBracketed p k f h)

module _ {E : Type 0} (is_alnum : ℕ → Bool) ⦃same : Eq (Annotation E)⦄ where
  project_delta-IsBracketed :
      (p : CitationProjection E) (k : PartKey) (delta : Str)
      → IsBracketed p
      → IsBracketed (project_delta is_alnum p k delta).0
  unfolding project_delta push value annotations_of
  project_delta-IsBracketed p k delta h =
      let (fragments, pushed) = push is_alnum p k delta in
      touch-IsBracketed (fragments_events pushed k fragments).0 k
        (fragments_events-IsBracketed pushed k fragments h)

  flush-IsBracketed :
      (p : CitationProjection E) (k : PartKey) → IsBracketed p → IsBracketed (flush is_alnum p k).0
  unfolding flush value annotations_of
  flush-IsBracketed p k h =
      fragment_events-IsBracketed (record p { buffers = remove p.buffers k }) k
        (visible (get_or [] (get p.buffers k))) h

  project_event-IsBracketed :
      (p : CitationProjection E) (event : StreamEvent E)
      → IsBracketed p
      → IsBracketed (project_event is_alnum p event).0
  unfolding project_event
  project_event-IsBracketed p (text_delta k delta) h = project_delta-IsBracketed p k delta h
  project_event-IsBracketed p (text_done k text) h = flush-IsBracketed p k h
  project_event-IsBracketed p (annotation_added k i a) h = h
  project_event-IsBracketed p (part_done k part) h = h
  project_event-IsBracketed p (item_done o (message content)) h = h
  project_event-IsBracketed p (item_done o (other_item t)) h = h
  project_event-IsBracketed p (other_event t) h = h

  chosen-IsBracketed :
      (b : Bool) (p : CitationProjection E) (event : StreamEvent E)
      → IsBracketed p
      → IsBracketed (if b then (p, event ∷ []) else project_event is_alnum p event).0
  chosen-IsBracketed true p event h = h
  chosen-IsBracketed false p event h = project_event-IsBracketed p event h

  -- Whatever event comes, if the annotations that the projection keeps bracket markers of the text
  -- of their parts, then they and the new ones do after the event.
  pub project-IsBracketed :
      (p : CitationProjection E) (event : StreamEvent E)
      → IsBracketed p
      → IsBracketed (project is_alnum p event).0
  unfolding project
  project-IsBracketed p event h = chosen-IsBracketed (is_empty p.evidence) p event h
