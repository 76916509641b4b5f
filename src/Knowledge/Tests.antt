-- ===== src/Knowledge/Tests.antt =====
-- The theorems about retrieval at the sample chunks.
use mathlib.Core.List.{Sublistᴰ}
use mathlib.Core.Option.{some-injective}
use bo_thesis.Base.Result.{ok, err}
use bo_thesis.Base.Sort.{sort_desc, IsDesc}
use bo_thesis.Base.{
  ℕ, ◌≤◌, ◌≡◌, ◌≢◌, refl, ap, ◌∙◌, true, false, some, List, [], ◌∷◌, map, codes, All, take, length,
  decimal, is_unique, arith, list_eq, nat_eq, pair_eq,
}
use bo_thesis.Knowledge.{Evidence, ContextualChunk}
use bo_thesis.Knowledge.ContextBuilder.{Limits, build, body, clip, identity}
use bo_thesis.Knowledge.ContextBuilder.Bounds.{length-build-le}
use bo_thesis.Knowledge.ContextBuilder.Clip.{length-body-le}
use bo_thesis.Knowledge.ContextBuilder.Included.{build_included}
use bo_thesis.Knowledge.Reranker.{rerank}
use bo_thesis.Knowledge.Reranker.Ordering.{IsOrdering, rerank-IsOrdering}
use bo_thesis.Knowledge.Retriever.{
  Retriever, Reranker, raised, search, rank, is_valid_ranking, score_key, evidence_from_chunk,
}
use bo_thesis.Knowledge.Retriever.Ranking.{rank_fails_open}
use bo_thesis.Knowledge.Retriever.Search.{InCollections}
use bo_thesis.Knowledge.SemanticSearch.{with_model, search-with_model, rank-with_model}
use bo_thesis.Knowledge.Samples.{by_size, low, high, retriever, model}

abbrev found : List (Evidence ℕ)
found =
    map (evidence_from_chunk retriever)
      (record low { rerank_score = some 2 } ∷ record high { rerank_score = some 1 } ∷ [])

rerank-model :
    rerank model (low ∷ high ∷ []) (codes "q") 2
    ≡ ok (record low { rerank_score = some 2 } ∷ record high { rerank_score = some 1 } ∷ [])
unfolding rerank
rerank-model = refl

rank-retriever : rank retriever (low ∷ high ∷ []) (codes "q") 2 ≡ high ∷ low ∷ []
unfolding rank
rank-retriever = refl

search-model :
    search (with_model retriever model) (codes " q ") 2 (codes "t") (codes "c1" ∷ []) ≡ ok found
unfolding search rerank
search-model = refl

search-with_model_example :
    All
      (λ e. InCollections (with_model retriever model) (codes "c1" ∷ []) e.collection_item_id)
      found
    × (length found ≤ 2)
search-with_model_example =
    search-with_model retriever model (codes " q ") 2 (codes "t") (codes "c1" ∷ []) found
      search-model

rank-with_model_example :
    rank (with_model retriever model) (low ∷ high ∷ []) (codes "q") 2
    ≡ record low { rerank_score = some 2 } ∷ record high { rerank_score = some 1 } ∷ []
rank-with_model_example =
    rank-with_model retriever model (low ∷ high ∷ []) (codes "q") 2
      (record low { rerank_score = some 2 } ∷ record high { rerank_score = some 1 } ∷ []) refl
      rerank-model

rerank-IsOrdering_example : IsOrdering (codes "a" ∷ codes "b" ∷ []) (codes "a" ∷ codes "b" ∷ [])
rerank-IsOrdering_example =
    rerank-IsOrdering model (low ∷ high ∷ []) (codes "q") 2
      (record low { rerank_score = some 2 } ∷ record high { rerank_score = some 1 } ∷ []) refl
      rerank-model

-- A reranker that raises.
abbrev broken : Reranker ℕ
broken chunks query limit = err (raised (codes "timeout"))

abbrev failing : Retriever ℕ
failing = record retriever { reranker = some broken }

no_answer :
    (rerank' : Reranker ℕ) (ranked : List (ContextualChunk ℕ))
    → failing.reranker ≡ some rerank'
    → rerank' (low ∷ high ∷ []) (codes "q") 1 ≡ ok ranked
    → is_valid_ranking failing (low ∷ high ∷ []) ranked ≢ true
no_answer rerank' ranked configured answered valid =
    let same : broken ≡ rerank' = some-injective _ _ configured in
    let raises : err (raised (codes "timeout")) ≡ ok ranked =
      ap (λ (f : Reranker ℕ). f (low ∷ high ∷ []) (codes "q") 1) same ∙ answered in
    cc

rank_fails_open_example :
    (rank failing (low ∷ high ∷ []) (codes "q") 1
      ≡ take 1 (sort_desc by_size (score_key 0) (low ∷ high ∷ [])))
    × IsDesc by_size (score_key 0) (rank failing (low ∷ high ∷ []) (codes "q") 1)
rank_fails_open_example = rank_fails_open failing (low ∷ high ∷ []) (codes "q") 1 no_answer

abbrev limits : Limits
limits = record {
  max_characters = 700;
  max_evidence_characters = 100;
  include_contextual_text = false;
}

abbrev evidence : List (Evidence ℕ)
evidence = map (evidence_from_chunk retriever) (low ∷ low ∷ high ∷ [])

build-evidence : length (build limits evidence).evidence ≡ 2
unfolding build evidence_from_chunk clip decimal
build-evidence = refl

length-build-le_example : length (build limits evidence).text ≤ 700
length-build-le_example = length-build-le limits evidence

build_included_example :
    Sublistᴰ (build limits evidence).evidence evidence
    × (is_unique (map identity (build limits evidence).evidence) ≡ true)
build_included_example = build_included limits evidence

length-body-le_example :
    length (
      body
        (record limits { include_contextual_text = true })
        (evidence_from_chunk retriever low)
        300)
    ≤ 300
length-body-le_example =
    length-body-le (record limits { include_contextual_text = true })
      (evidence_from_chunk retriever low) 300 (omega arith)
