-- ===== src/Knowledge/Retriever/Search.antt =====
-- What a search returns.
use bo_thesis.Base.Result.{ok, >>=-eq-ok, guarded_cases}
use bo_thesis.Base.{
  ℕ, ◌≤◌, ◌≡◌, ◌⊎◌, sym, true, Option, List, [], ◌∷◌, map, Str, All, max, is_empty, length,
  length-map, inl, inr, Bool-cases, arith, list_eq, nat_eq,
}
use bo_thesis.Knowledge.{Evidence, ContextualChunk}
use bo_thesis.Knowledge.Retriever.{
  Retriever, rank, evidence_from_chunk, is_in, visible, search_in, search, validate_search,
  validate_tenant_id,
}
use bo_thesis.Knowledge.Retriever.Ranking.{Keeps, rank-All, rank-length}

module _ {S : Type 0} (r : Retriever S) where
  abbrev pub InCollections : List Str → Option Str → Type 0
  InCollections collections c = is_in r collections c ≡ true

  All-visible :
      (collections : List Str) (chunks : List (ContextualChunk S))
      → All (λ c. InCollections collections c.collection_item_id) (visible r collections chunks)
  All-visible collections [] = tt
  All-visible collections (c ∷ cs) = elim (Bool-cases (is_in r collections c.collection_item_id)) [
    | inl shown ↦ rw shown (shown, All-visible collections cs)
    | inr hidden ↦ rw hidden (All-visible collections cs)
  ]

  All-evidence :
      (P : Option Str → Type 0) (chunks : List (ContextualChunk S))
      → All (λ c. P c.collection_item_id) chunks
      → All (λ e. P e.collection_item_id) (map (evidence_from_chunk r) chunks)
  unfolding evidence_from_chunk
  All-evidence P [] h = tt
  All-evidence P (c ∷ cs) h = (h.0, All-evidence P cs h.1)

  -- `found` is the evidence of the ranked visible chunks of an answer of the index.
  abbrev IsFoundIn : ℕ → List Str → List (Evidence S) → Type 0
  IsFoundIn limit collections found =
      (chunks : List (ContextualChunk S)) × (query : Str) × (found
        ≡ map (evidence_from_chunk r) (rank r (visible r collections chunks) query limit))

  search_in-eq-ok :
      (query : Str) (limit : ℕ) (tenant_id : Str) (collections : List Str)
      {found : List (Evidence S)}
      → search_in r query limit tenant_id collections ≡ ok found
      → IsFoundIn limit collections found
  unfolding search_in
  search_in-eq-ok query limit tenant_id collections e =
      let (chunks, _, same) =
        >>=-eq-ok (r.index query (max limit r.candidate_count) tenant_id collections) _ e in
      (chunks, query, cc)

  search-eq-ok :
      (query : Str) (limit : ℕ) (tenant_id : Str) (collections : List Str)
      {found : List (Evidence S)}
      → search r query limit tenant_id collections ≡ ok found
      → (found ≡ []) ⊎ IsFoundIn limit collections found
  unfolding search
  search-eq-ok query limit tenant_id collections e =
      let (q, _, e1) = >>=-eq-ok (validate_search query limit) _ e in
      let (t, _, e2) = >>=-eq-ok (validate_tenant_id tenant_id) _ e1 in
      elim (guarded_cases (is_empty collections) [] _ e2) [
        | inl nothing ↦ inl (sym nothing)
        | inr inside ↦ inr (search_in-eq-ok q limit t collections inside)
      ]

  -- Whoever reranks, if only chunks of the Collections come back from it when such went in: what is
  -- found lies in the Collections of the search, and is not more than was asked for.
  pub search_visible :
      (query : Str) (limit : ℕ) (tenant_id : Str) (collections : List Str)
      (found : List (Evidence S))
      → Keeps r (λ c. InCollections collections c.collection_item_id) r.reranker
      → search r query limit tenant_id collections ≡ ok found
      → All (λ e. InCollections collections e.collection_item_id) found × (length found ≤ limit)
  search_visible query limit tenant_id collections found keeps e =
      elim (search-eq-ok query limit tenant_id collections e) [
        | inl nothing ↦ rw nothing (tt, omega arith)
        | inr (chunks, normalized, ranked) ↦ rw ranked (
          All-evidence (InCollections collections) _ (
              rank-All r _ (visible r collections chunks) normalized limit keeps
                (All-visible collections chunks)),
          rw length-map (rank-length r (visible r collections chunks) normalized limit),
        )
      ]
