-- ===== src/Agent/Citation/Projection/Streamed.antt =====
-- The events that CitationProjection emits, and the text that it keeps.
use Prim.{absurd}
use bo_thesis.Base.Dict.{Dict, get, put, remove, get-put}
use bo_thesis.Base.{
  ℕ, ◌≡◌, inl, inr, refl, sym, ap, ◌∙◌, Bool, false, List, [], ◌∷◌, ◌++◌, append-nil, append_assoc,
  concat-append, Str, is_empty, All, All-append, Eq, Bool-cases, pair_beq, pair_beq_iff, pair_eq,
  nat_eq, if◌then◌else◌,
}
use bo_thesis.Agent.Citation.{Fragment, visible, cited, number}
use bo_thesis.Base.Dict.{get_or}
use bo_thesis.Base.{concat}
use bo_thesis.Agent.Citation.Projection.{
  PartKey, Annotation, message, other_item, StreamEvent, text_delta, text_done, annotation_added,
  part_done, item_done, other_event, CitationProjection, marker_of, value, append_text,
  append_annotation, citation_events, fragment_events, fragments_events, touch, push, project_delta,
  flush, project_event, project,
}

pub get_or-put :
    {V : Type 0} (d : Dict PartKey (List V)) (k key : PartKey) (xs : List V)
    → get_or [] (get (put d k xs) key) ≡ (if pair_beq k key then xs else get_or [] (get d key))
get_or-put d k key xs =
    rw (get-put d k key xs)
      elim (Bool-cases (pair_beq k key)) [ inl same ↦ rw same refl | inr other ↦ rw other refl ]

module _ {E : Type 0} where
  -- The text that the events add to the part of a key.
  abbrev pub streamed : PartKey → List (StreamEvent E) → Str
  streamed key [] = []
  streamed key (text_delta k delta ∷ events) =
      let later = streamed key events in if pair_beq k key then delta ++ later else later
  streamed key (_ ∷ events) = streamed key events

  streamed-append :
      (key : PartKey) (xs ys : List (StreamEvent E))
      → streamed key (xs ++ ys) ≡ streamed key xs ++ streamed key ys
  streamed-append key [] ys = refl
  streamed-append key (text_delta k delta ∷ xs) ys = elim (Bool-cases (pair_beq k key)) [
    | inl same ↦ rw same (
        ap (λ t. delta ++ t) (streamed-append key xs ys)
        ∙ sym (append_assoc delta (streamed key xs) (streamed key ys)))
    | inr other ↦ rw other (streamed-append key xs ys)
  ]
  streamed-append key (text_done k t ∷ xs) ys = streamed-append key xs ys
  streamed-append key (annotation_added k i a ∷ xs) ys = streamed-append key xs ys
  streamed-append key (part_done k p ∷ xs) ys = streamed-append key xs ys
  streamed-append key (item_done o i ∷ xs) ys = streamed-append key xs ys
  streamed-append key (other_event e ∷ xs) ys = streamed-append key xs ys

  pub value-append_text :
      (p : CitationProjection E) (k key : PartKey) (text : Str)
      → value (append_text p k text) key ≡ value p key ++ streamed key (text_delta k text ∷ [])
  unfolding value append_text
  value-append_text p k key text =
      ap concat (get_or-put p.texts k key _) ∙ elim (Bool-cases (pair_beq k key)) [
        | inl same ↦ rw same (
            concat-append (get_or [] (get p.texts k)) text
            ∙ ap (λ j. concat (get_or [] (get p.texts j)) ++ text) ((pair_beq_iff k key).0 same)
            ∙ ap (λ t. concat (get_or [] (get p.texts key)) ++ t) (sym (append-nil text)))
        | inr other ↦ rw other (sym (append-nil (concat (get_or [] (get p.texts key)))))
      ]

  pub value-touch :
      (p : CitationProjection E) (k key : PartKey) → value (touch p k) key ≡ value p key
  unfolding value touch
  value-touch p k key =
      ap concat (get_or-put p.texts k key _) ∙ elim (Bool-cases (pair_beq k key)) [
        | inl same ↦
            rw same (ap (λ j. concat (get_or [] (get p.texts j))) ((pair_beq_iff k key).0 same))
        | inr other ↦ rw other refl
      ]

  -- The events are what was added to the text of each part, and an event that says what the whole
  -- text is says it of the text after them.
  abbrev pub IsFinal : CitationProjection E → StreamEvent E → Type 0
  IsFinal p (text_done key text) = text ≡ value p key
  IsFinal p _ = Unit

  abbrev pub Streams : CitationProjection E → CitationProjection E × List (StreamEvent E) → Type 0
  Streams p (after, events) =
      ((key : PartKey) → value after key ≡ value p key ++ streamed key events)
      × All (IsFinal after) events

  abbrev IsQuiet : StreamEvent E → Type 0
  IsQuiet (text_done key text) = ⊥
  IsQuiet _ = Unit

  IsQuiet→IsFinal :
      (p : CitationProjection E) (events : List (StreamEvent E))
      → All IsQuiet events
      → All (IsFinal p) events
  IsQuiet→IsFinal p [] h = tt
  IsQuiet→IsFinal p (text_done k t ∷ events) h = absurd h.0
  IsQuiet→IsFinal p (text_delta k t ∷ events) h = (tt, IsQuiet→IsFinal p events h.1)
  IsQuiet→IsFinal p (annotation_added k i a ∷ events) h = (tt, IsQuiet→IsFinal p events h.1)
  IsQuiet→IsFinal p (part_done k t ∷ events) h = (tt, IsQuiet→IsFinal p events h.1)
  IsQuiet→IsFinal p (item_done k t ∷ events) h = (tt, IsQuiet→IsFinal p events h.1)
  IsQuiet→IsFinal p (other_event t ∷ events) h = (tt, IsQuiet→IsFinal p events h.1)

  -- The events of fragments: no event tells the whole text.
  abbrev Adds : CitationProjection E → CitationProjection E × List (StreamEvent E) → Type 0
  Adds p (after, events) =
      ((key : PartKey) → value after key ≡ value p key ++ streamed key events) × All IsQuiet events

  citation_events-Adds :
      (p : CitationProjection E) (k : PartKey) (id : Str) (e : E)
      → Adds p (citation_events p k id e)
  unfolding citation_events append_annotation value
  citation_events-Adds p k id e = (
    λ key.
        value-append_text (record p { references = (number p.references id).1 }) k key
          (marker_of (number p.references id).0),
    (tt, (tt, tt)),
  )

  fragment_events-Adds :
      (p : CitationProjection E) (k : PartKey) (f : Fragment E) → Adds p (fragment_events p k f)
  unfolding fragment_events
  fragment_events-Adds p k (visible []) = (λ key. sym (append-nil (value p key)), tt)
  fragment_events-Adds p k (visible (c ∷ s)) = (λ key. value-append_text p k key (c ∷ s), (tt, tt))
  fragment_events-Adds p k (cited [] e) = (λ key. sym (append-nil (value p key)), tt)
  fragment_events-Adds p k (cited (c ∷ id) e) = citation_events-Adds p k (c ∷ id) e

  Adds-join :
      (p p1 p2 : CitationProjection E) (xs ys : List (StreamEvent E))
      → Adds p (p1, xs)
      → Adds p1 (p2, ys)
      → Adds p (p2, xs ++ ys)
  Adds-join p p1 p2 xs ys h k = (
    λ key.
        k.0 key
        ∙ ap (λ t. t ++ streamed key ys) (h.0 key)
        ∙ append_assoc (value p key) (streamed key xs) (streamed key ys)
        ∙ ap (λ t. value p key ++ t) (sym (streamed-append key xs ys)),
    All-append IsQuiet xs ys h.1 k.1,
  )

  fragments_events-Adds :
      (p : CitationProjection E) (k : PartKey) (fs : List (Fragment E))
      → Adds p (fragments_events p k fs)
  unfolding fragments_events
  fragments_events-Adds p k [] = (λ key. sym (append-nil (value p key)), tt)
  fragments_events-Adds p k (f ∷ fs) =
      let first = fragment_events p k f in
      let rest = fragments_events first.0 k fs in
      Adds-join p first.0 rest.0 first.1 rest.1 (fragment_events-Adds p k f)
        (fragments_events-Adds first.0 k fs)

module _ {E : Type 0} (is_alnum : ℕ → Bool) ⦃same : Eq (Annotation E)⦄ where
  project_delta-Streams :
      (p : CitationProjection E) (k : PartKey) (delta : Str)
      → Streams p (project_delta is_alnum p k delta)
  unfolding project_delta push
  project_delta-Streams p k delta =
      let (fragments, pushed) = push is_alnum p k delta in
      let (p1, events) = fragments_events pushed k fragments in
      let (adds, quiet) = fragments_events-Adds pushed k fragments in
      (λ key. value-touch p1 k key ∙ adds key, IsQuiet→IsFinal (touch p1 k) events quiet)

  flush-Adds : (p : CitationProjection E) (k : PartKey) → Adds p (flush is_alnum p k)
  unfolding flush value
  flush-Adds p k =
      fragment_events-Adds (record p { buffers = remove p.buffers k }) k
        (visible (get_or [] (get p.buffers k)))

  streamed-done :
      (events : List (StreamEvent E)) (k key : PartKey) (text : Str)
      → streamed key (events ++ (text_done k text ∷ [])) ≡ streamed key events
  streamed-done events k key text =
      streamed-append key events (text_done k text ∷ []) ∙ append-nil (streamed key events)

  project_event-Streams :
      (p : CitationProjection E) (event : StreamEvent E)
      → Streams p (project_event is_alnum p event)
  unfolding project_event
  project_event-Streams p (text_delta k delta) = project_delta-Streams p k delta
  project_event-Streams p (text_done k text) =
      let (p1, flushed) = flush is_alnum p k in
      let (adds, quiet) = flush-Adds p k in
      (
        λ key.
            adds key ∙ ap (λ t. value p key ++ t) (sym (streamed-done flushed k key (value p1 k))),
        All-append (IsFinal p1) flushed (text_done k (value p1 k) ∷ [])
            (IsQuiet→IsFinal p1 flushed quiet) (refl, tt),
      )
  project_event-Streams p (annotation_added k i a) =
      (λ key. sym (append-nil (value p key)), (tt, tt))
  project_event-Streams p (part_done k part) = (λ key. sym (append-nil (value p key)), (tt, tt))
  project_event-Streams p (item_done o (message content)) =
      (λ key. sym (append-nil (value p key)), (tt, tt))
  project_event-Streams p (item_done o (other_item t)) =
      (λ key. sym (append-nil (value p key)), (tt, tt))
  project_event-Streams p (other_event t) = (λ key. sym (append-nil (value p key)), (tt, tt))

  -- When there is evidence, the text deltas that the projection emits for an event are what it
  -- adds to the text of each part, and a final text is the text of its part after the event.
  pub project-Streams :
      (p : CitationProjection E) (event : StreamEvent E)
      → is_empty p.evidence ≡ false
      → Streams p (project is_alnum p event)
  unfolding project
  project-Streams p event some_evidence = simp some_evidence (project_event-Streams p event)
