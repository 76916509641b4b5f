-- ===== src/Agent/Reducer/RoundTrip/Summaries.antt =====
-- The summary of an item that is placed in a fresh ResponseReducer,
-- backend/bothesis/agent/reducer.py.
use bo_thesis.Base.Sorted.{sort_asc}
use bo_thesis.Base.Dict.{get, get_or}
use bo_thesis.Base.{
  ℕ, suc, ◌≤◌, ◌≡◌, refl, sym, ap, ◌∙◌, none, List, [], ◌∷◌, ◌++◌, append-nil, append_assoc, concat,
  gather, All, Eq, nat_eq, list_eq, pair_eq, arith,
}
use bo_thesis.Agent.Protocol.{ContentPart, summary_text, text_of}
use bo_thesis.Agent.Reducer.State.{Reducer, indices, item_content, reasoning_summary}
use bo_thesis.Agent.Reducer.Writes.{place_summary_part}
use bo_thesis.Agent.Reducer.Apply.{place_part, place_parts, place_summary_parts}
use bo_thesis.Agent.Reducer.RoundTrip.Places.{
  below, sort-below, gather-below, map-gather, HasPlaces, put-HasPlaces,
}
use bo_thesis.Agent.Reducer.RoundTrip.Parts.{adopted-get, adopted-get_other}

module _ {A : Type 0} where
  abbrev pub IsCanonicalSummary : ContentPart A → Type 0
  IsCanonicalSummary part = summary_text (text_of part) ≡ part

  -- Nothing is kept of the summary of the item at `o` from the `n`-th part on.
  pub record HasSummary (r : Reducer A) (o n : ℕ) : Type 0 where
    pub parts : HasPlaces r.summary_parts o n
    pub text : (c : ℕ) → n ≤ c → get r.summary_text (o, c) ≡ none

  place_summary_part-HasSummary :
      (r : Reducer A) (o n : ℕ) (part : ContentPart A)
      → HasSummary r o n
      → HasSummary (place_summary_part r (o, n) part) o (suc n)
  unfolding place_summary_part
  place_summary_part-HasSummary r o n part h = record {
    parts = put-HasPlaces r.summary_parts o n part h.parts;
    text = λ c le.
        adopted-get_other r.summary_text o n c (text_of part) (ground arith)
        ∙ h.text c (omega arith);
  }

  abbrev summary_at : Reducer A → (o i : ℕ) → List (ContentPart A)
  summary_at r o i = summary_text (concat (get_or [] (get r.summary_text (o, i)))) ∷ []

  summary_places :
      (r : Reducer A) (o n : ℕ)
      → HasPlaces r.summary_parts o n
      → reasoning_summary r o ≡ gather (summary_at r o) (below n)
  unfolding reasoning_summary
  summary_places r o n h =
      map-gather (λ i. summary_text (concat (get_or [] (get r.summary_text (o, i)))))
        (sort_asc (λ i. i) (indices r.summary_parts o))
      ∙ ap (λ is. gather (summary_at r o) (sort_asc (λ i. i) is)) h.places
      ∙ ap (gather (summary_at r o)) (sort-below n)

  place_summary_part-summary :
      (r : Reducer A) (o n : ℕ) (part : ContentPart A)
      → HasSummary r o n
      → IsCanonicalSummary part
      → reasoning_summary (place_summary_part r (o, n) part) o
        ≡ reasoning_summary r o ++ (part ∷ [])
  unfolding place_summary_part
  place_summary_part-summary r o n part h u =
      let after = place_summary_part r (o, n) part in
      summary_places after o (suc n) (put-HasPlaces r.summary_parts o n part h.parts)
      ∙ gather-below (summary_at after o) (summary_at r o) n (λ i lt.
        ap (λ t. summary_text (concat (get_or [] t)) ∷ [])
          (adopted-get_other r.summary_text o n i (text_of part) (ground arith)))
      ∙ ap (λ t. t ++ summary_at after o n) (sym (summary_places r o n h.parts))
      ∙ ap (λ t. reasoning_summary r o ++ (t ∷ []))
          (ap summary_text
              (adopted-get r.summary_text (o, n) (text_of part) (h.text n (omega arith)))
            ∙ u)

module _ {A : Type 0} ⦃same : Eq A⦄ where
  pub place_summary_parts-summary :
      (r : Reducer A) (o n : ℕ) (parts : List (ContentPart A))
      → HasSummary r o n
      → All IsCanonicalSummary parts
      → reasoning_summary (place_summary_parts r o n parts) o ≡ reasoning_summary r o ++ parts
  unfolding place_summary_parts
  place_summary_parts-summary r o n [] h u = sym (append-nil (reasoning_summary r o))
  place_summary_parts-summary r o n (part ∷ parts) h u =
      place_summary_parts-summary (place_summary_part r (o, n) part) o (suc n) parts
        (place_summary_part-HasSummary r o n part h) u.1
      ∙ ap (λ t. t ++ parts) (place_summary_part-summary r o n part h u.0)
      ∙ append_assoc (reasoning_summary r o) (part ∷ []) parts

  -- The content is not touched.
  pub place_summary_parts-content :
      (r : Reducer A) (o n j : ℕ) (parts : List (ContentPart A))
      → item_content (place_summary_parts r o n parts) j ≡ item_content r j
  unfolding place_summary_parts place_summary_part item_content
  place_summary_parts-content r o n j [] = refl
  place_summary_parts-content r o n j (part ∷ parts) =
      place_summary_parts-content (place_summary_part r (o, n) part) o (suc n) j parts

  -- The summary is not touched.
  pub place_parts-summary :
      (r : Reducer A) (o n j : ℕ) (parts : List (ContentPart A))
      → ((place_parts r o n parts).summary_parts ≡ r.summary_parts)
        × ((place_parts r o n parts).summary_text ≡ r.summary_text)
  unfolding place_parts place_part
  place_parts-summary r o n j [] = (refl, refl)
  place_parts-summary r o n j (part ∷ parts) =
      place_parts-summary (place_part r (o, n) part) o (suc n) j parts
