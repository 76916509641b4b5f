-- ===== src/Agent/Reducer/RoundTrip/Items.antt =====
-- The items of a response that opens a fresh ResponseReducer, backend/bothesis/agent/reducer.py.
use bo_thesis.Base.Sorted.{sort_asc}
use mathlib.Core.Path.{subst}
use bo_thesis.Base.Dict.{get, get_or}
use bo_thesis.Base.{
  ℕ, ◌≡◌, refl, sym, ap, ◌∙◌, true, false, Option, none, some, [], ◌++◌, All, Eq, nat_eq, list_eq,
  pair_eq,
}
use bo_thesis.Agent.Protocol.{
  ItemStatus, Item, message, reasoning, function_call, other, item_status,
}
use bo_thesis.Agent.Reducer.State.{Reducer, item_content, reasoning_summary, rebuilt}
use bo_thesis.Agent.Reducer.Writes.{is_missing}
use bo_thesis.Agent.Reducer.Apply.{place_parts, seed, shell_of}
use bo_thesis.Agent.Reducer.RoundTrip.Places.{HasPlaces}
use bo_thesis.Agent.Reducer.RoundTrip.Parts.{
  IsCanonicalPart, HasContent, place_parts-content, adopted-get,
}
use bo_thesis.Agent.Reducer.RoundTrip.Summaries.{
  IsCanonicalSummary, HasSummary, place_summary_parts-summary, place_summary_parts-content,
  place_parts-summary,
}

-- A status that is there is kept.
some-get_or :
    {V : Type 0} (found : Option V) (default : V)
    → is_missing found ≡ false
    → some (get_or default found) ≡ found
some-get_or none default h = cc
some-get_or (some v) default h = refl

module _ {A : Type 0} ⦃same : Eq A⦄ where
  -- An item as a reducer writes it: with a status, annotations that are not repeated, and a
  -- summary of summary texts.
  abbrev pub HasCanonicalContent : Item A → Type 0
  HasCanonicalContent (message m) = All IsCanonicalPart m.content
  HasCanonicalContent (reasoning s) =
      All IsCanonicalPart s.content × All IsCanonicalSummary s.summary
  HasCanonicalContent (function_call c) = Unit
  HasCanonicalContent (other o) = Unit

  abbrev pub IsCanonicalItem : Item A → Type 0
  IsCanonicalItem item = (is_missing (item_status item) ≡ false) × HasCanonicalContent item

  -- Nothing is kept of the item at `o`.
  pub record IsFreshAt (r : Reducer A) (o : ℕ) : Type 0 where
    pub content : HasContent r o 0
    pub summary : HasSummary r o 0
    pub arguments : get r.arguments o ≡ none
    pub items : get r.items o ≡ none

  pub shell_of-canonical :
      (item : Item A) → is_missing (item_status item) ≡ false → shell_of true item ≡ item
  shell_of-canonical (message m) h =
      ap (λ t. message (record m { status = t })) (some-get_or m.status ItemStatus.completed h)
  shell_of-canonical (reasoning m) h =
      ap (λ t. reasoning (record m { status = t })) (some-get_or m.status ItemStatus.completed h)
  shell_of-canonical (function_call m) h =
      ap (λ t. function_call (record m { status = t }))
        (some-get_or m.status ItemStatus.completed h)
  shell_of-canonical (other m) h =
      ap (λ t. other (record m { status = t })) (some-get_or m.status ItemStatus.completed h)

  content_nil : (r : Reducer A) (o : ℕ) → HasContent r o 0 → item_content r o ≡ []
  unfolding item_content sort_asc
  content_nil r o h = rw h.parts.places refl

  summary_nil : (r : Reducer A) (o : ℕ) → HasSummary r o 0 → reasoning_summary r o ≡ []
  unfolding reasoning_summary sort_asc
  summary_nil r o h = rw h.parts.places refl

  -- An item is rebuilt as it was placed.
  pub seed-rebuilt :
      (r : Reducer A) (o : ℕ) (item : Item A)
      → IsFreshAt r o
      → HasCanonicalContent item
      → rebuilt (seed r o item) o item ≡ item
  unfolding seed rebuilt
  seed-rebuilt r o (message m) h u =
      ap (λ c. message (record m { content = c }))
        (place_parts-content r o 0 m.content h.content u
          ∙ ap (λ t. t ++ m.content) (content_nil r o h.content))
  seed-rebuilt r o (reasoning m) h u =
      let placed = place_parts r o 0 m.content in
      let (parts, text) = place_parts-summary r o 0 o m.content in
      let fresh : HasSummary placed o 0 = record {
        parts = subst (λ d. HasPlaces d o 0) (sym parts) h.summary.parts;
        text = λ c le. ap (λ d. get d (o, c)) text ∙ h.summary.text c le;
      } in
      let content =
        place_summary_parts-content placed o 0 o m.summary
        ∙ place_parts-content r o 0 m.content h.content u.0
        ∙ ap (λ t. t ++ m.content) (content_nil r o h.content) in
      let summary =
        place_summary_parts-summary placed o 0 m.summary fresh u.1
        ∙ ap (λ t. t ++ m.summary) (summary_nil placed o fresh) in
      λ i. reasoning (record m { content = content i; summary = summary i })
  seed-rebuilt r o (function_call m) h u =
      ap (λ t. function_call (record m { arguments = t }))
        (adopted-get r.arguments o m.arguments h.arguments)
  seed-rebuilt r o (other m) h u = refl
