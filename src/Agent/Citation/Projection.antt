-- ===== src/Agent/Citation/Projection.antt =====
-- The state of CitationProjection and its operations. An event has the fields that the projection
-- reads or sets; the others are copied.
pub mod Streamed
pub mod Brackets
use bo_thesis.Base.Dict.{Dict, get, put, remove, get_or}
use bo_thesis.Base.{concat}
use bo_thesis.Base.{
  ℕ, zero, suc, ◌+◌, Bool, true, false, Option, none, some, List, [], ◌∷◌, ◌++◌, map, Str, codes,
  is_empty, length, contains, Eq, list_eq, nat_eq, pair_eq, if◌then◌else◌, decimal,
}
use bo_thesis.Agent.Citation.{
  Fragment, visible, cited, process_citation_buffer, CitationReferences, number,
}

-- The output index and the content index.
abbrev pub PartKey : Type 0
PartKey = ℕ × ℕ

-- An annotation that the projection makes; its other fields are those of the evidence. The model's
-- own annotations are passed on.
pub data Annotation (E : Type 0) : Type 0 where
  document_citation : (start_index end_index number : ℕ) → E → Annotation E
  provider_annotation : Str → Annotation E

pub data ContentPart (E : Type 0) : Type 0 where
  output_text : Str → List (Annotation E) → ContentPart E
  other_part : Str → ContentPart E

pub data OutputItem (E : Type 0) : Type 0 where
  message : List (ContentPart E) → OutputItem E
  other_item : Str → OutputItem E

pub data StreamEvent (E : Type 0) : Type 0 where
  text_delta : PartKey → Str → StreamEvent E
  text_done : PartKey → Str → StreamEvent E
  annotation_added : PartKey → (annotation_index : ℕ) → Annotation E → StreamEvent E
  part_done : PartKey → ContentPart E → StreamEvent E
  item_done : (output_index : ℕ) → OutputItem E → StreamEvent E
  other_event : Str → StreamEvent E

pub record CitationProjection (E : Type 0) : Type 0 where
  pub evidence : Dict Str E
  pub references : CitationReferences
  pub buffers : Dict PartKey Str
  pub texts : Dict PartKey (List Str)
  pub annotations : Dict PartKey (List (Annotation E))
  pub used_evidence_ids : List Str

abbrev pub marker_of : ℕ → Str
marker_of n = codes "[" ++ (decimal n ++ codes "]")

module _ {E : Type 0} where
  -- self._value(key)
  unfoldable pub value : CitationProjection E → PartKey → Str
  value p key = concat (get_or [] (get p.texts key))

  -- self._text.setdefault(key, []).append(text)
  unfoldable pub append_text : CitationProjection E → PartKey → Str → CitationProjection E
  append_text p key text = record p {
    texts = put p.texts key (get_or [] (get p.texts key) ++ (text ∷ []));
  }

  unfoldable pub append_annotation :
      CitationProjection E → PartKey → Annotation E → CitationProjection E
  append_annotation p key annotation = record p {
    annotations = put p.annotations key (get_or [] (get p.annotations key) ++ (annotation ∷ []));
  }

  unfoldable pub citation_events :
      CitationProjection E → PartKey → Str → E → CitationProjection E × List (StreamEvent E)
  unfolding value append_text append_annotation
  citation_events p key id e =
      let (n, references) = number p.references id in
      let marker = marker_of n in
      let start = length (value p key) in
      let annotation = document_citation start (start + length marker) n e in
      let annotation_index = length (get_or [] (get p.annotations key)) in
      (
        append_annotation (append_text (record p { references = references }) key marker) key
            annotation,
        text_delta key marker ∷ (annotation_added key annotation_index annotation ∷ []),
      )

  unfoldable pub fragment_events :
      CitationProjection E → PartKey → Fragment E → CitationProjection E × List (StreamEvent E)
  unfolding append_text citation_events
  fragment_events p key (visible []) = (p, [])
  fragment_events p key (visible (c ∷ s)) = (append_text p key (c ∷ s), text_delta key (c ∷ s) ∷ [])
  fragment_events p key (cited [] e) = (p, [])
  fragment_events p key (cited (c ∷ id) e) = citation_events p key (c ∷ id) e

  unfoldable pub fragments_events :
      CitationProjection E
      → PartKey
      → List (Fragment E)
      → CitationProjection E × List (StreamEvent E)
  unfolding fragment_events
  fragments_events p key [] = (p, [])
  fragments_events p key (fragment ∷ fragments) =
      let (p1, events) = fragment_events p key fragment in
      let (p2, later) = fragments_events p1 key fragments in (p2, events ++ later)

  abbrev pub use_ids : List Str → List (Fragment E) → List Str
  use_ids used [] = used
  use_ids used (visible _ ∷ fragments) = use_ids used fragments
  use_ids used (cited [] _ ∷ fragments) = use_ids used fragments
  use_ids used (cited (c ∷ id) _ ∷ fragments) =
      use_ids (if contains used (c ∷ id) then used else used ++ ((c ∷ id) ∷ [])) fragments

  -- self._text.setdefault(key, [])
  unfoldable pub touch : CitationProjection E → PartKey → CitationProjection E
  touch p key = record p { texts = put p.texts key (get_or [] (get p.texts key)) }

abbrev pub is_known : {V : Type 0} → Option V → Bool
is_known none = false
is_known (some v) = true

-- `is_alnum` is `str.isalnum` of one character, `==` of annotations that of Python.
module _ {E : Type 0} (is_alnum : ℕ → Bool) ⦃same : Eq (Annotation E)⦄ where
  -- The loop always ends; without an end nothing would come of the buffer.
  abbrev pub processed : Str → Option (List (Fragment E) × Str) → List (Fragment E) × Str
  processed buffer none = ([], buffer)
  processed buffer (some result) = result

  unfoldable pub push :
      CitationProjection E → PartKey → Str → List (Fragment E) × CitationProjection E
  unfolding process_citation_buffer
  push p key delta =
      let buffer = get_or [] (get p.buffers key) ++ delta in
      let (fragments, held) =
        processed buffer (process_citation_buffer is_alnum p.evidence buffer) in
      (
        fragments,
        record p {
          buffers = put p.buffers key held;
          used_evidence_ids = use_ids p.used_evidence_ids fragments;
        },
      )

  unfoldable pub project_delta :
      CitationProjection E → PartKey → Str → CitationProjection E × List (StreamEvent E)
  unfolding push fragments_events touch
  project_delta p key delta =
      let (fragments, pushed) = push p key delta in
      let (p1, events) = fragments_events pushed key fragments in (touch p1 key, events)

  unfoldable pub flush :
      CitationProjection E → PartKey → CitationProjection E × List (StreamEvent E)
  unfolding fragment_events
  flush p key =
      fragment_events (record p { buffers = remove p.buffers key }) key
        (visible (get_or [] (get p.buffers key)))

  abbrev pub merge : List (Annotation E) → List (Annotation E) → List (Annotation E)
  merge merged [] = merged
  merge merged (a ∷ annotations) =
      merge (if contains merged a then merged else merged ++ (a ∷ [])) annotations

  unfoldable pub projected_text :
      CitationProjection E → PartKey → List (Annotation E) → ContentPart E
  unfolding value
  projected_text p key existing =
      output_text (value p key) (merge existing (get_or [] (get p.annotations key)))

  unfoldable pub projected_part : CitationProjection E → PartKey → ContentPart E → ContentPart E
  unfolding projected_text
  projected_part p key (output_text text existing) =
      if is_known (get p.texts key)
      then projected_text p key existing
      else output_text text existing
  projected_part p key (other_part text) = other_part text

  abbrev pub projected_content :
      CitationProjection E
      → (output_index content_index : ℕ) → List (ContentPart E)
      → List (ContentPart E)
  projected_content p output_index content_index [] = []
  projected_content p output_index content_index (part ∷ content) =
      projected_part p (output_index, content_index) part
      ∷ projected_content p output_index (suc content_index) content

  unfoldable pub project_event :
      CitationProjection E → StreamEvent E → CitationProjection E × List (StreamEvent E)
  unfolding project_delta flush value projected_part
  project_event p (text_delta key delta) = project_delta p key delta
  project_event p (text_done key text) =
      let (p1, flushed) = flush p key in (p1, flushed ++ (text_done key (value p1 key) ∷ []))
  project_event p (part_done key part) = (p, part_done key (projected_part p key part) ∷ [])
  project_event p (item_done output_index (message content)) =
      (p, item_done output_index (message (projected_content p output_index 0 content)) ∷ [])
  project_event p event = (p, event ∷ [])

  -- CitationProjection.project
  unfoldable pub project :
      CitationProjection E → StreamEvent E → CitationProjection E × List (StreamEvent E)
  unfolding project_event
  project p event = if is_empty p.evidence then (p, event ∷ []) else project_event p event
