-- ===== src/Knowledge/SemanticSearch.antt =====
-- The retriever with the semantic reranker, as backend/bothesis/runtime.py joins them.
use bo_thesis.Base.Result.{Result, ok, err}
use bo_thesis.Base.{
  ℕ, ◌≤◌, ◌≡◌, refl, ap, true, some, List, [], Str, All, take, length, is_unique, list_eq, nat_eq,
  arith,
}
use bo_thesis.Knowledge.{Evidence, ContextualChunk}
use bo_thesis.Knowledge.Reranker.{SemanticReranker, RerankError, ids, rerank}
use bo_thesis.Knowledge.Reranker.Ordering.{rerank-All, rerank-IsOrdering}
use bo_thesis.Knowledge.Retriever.{Retriever, Reranker, SearchError, raised, search, rank}
use bo_thesis.Knowledge.Retriever.Ranking.{Answer, rank_accepts}
use bo_thesis.Knowledge.Retriever.Search.{InCollections, search_visible}

module _ {S : Type 0} where
  -- The retriever sees of an exception of the reranker only that there was one.
  abbrev pub answer_of :
      Result RerankError (List (ContextualChunk S)) → Result SearchError (List (ContextualChunk S))
  answer_of (ok chunks) = ok chunks
  answer_of (err e) = err (raised [])

  abbrev pub as_reranker : SemanticReranker S → Reranker S
  as_reranker model chunks query limit = answer_of (rerank model chunks query limit)

  -- The retriever, given the semantic reranker.
  abbrev pub with_model : Retriever S → SemanticReranker S → Retriever S
  with_model r model = record r { reranker = some (as_reranker model); reranking_enabled = true }

  answer_of-All :
      (r : Retriever S) (P : ContextualChunk S → Type 0)
      (answer : Result RerankError (List (ContextualChunk S)))
      → ((result : List (ContextualChunk S)) → answer ≡ ok result → All P result)
      → Answer r P (answer_of answer)
  answer_of-All r P (ok chunks) h = h chunks refl
  answer_of-All r P (err e) h = tt

  -- With the semantic reranker, and whatever index and model answer, a search finds evidence of the
  -- Collections that it was restricted to, and not more of it than was asked for.
  pub search-with_model :
      (r : Retriever S) (model : SemanticReranker S) (query : Str) (limit : ℕ) (tenant_id : Str)
      (collections : List Str) (found : List (Evidence S))
      → search (with_model r model) query limit tenant_id collections ≡ ok found
      → All (λ e. InCollections (with_model r model) collections e.collection_item_id) found
        × (length found ≤ limit)
  search-with_model r model query limit tenant_id collections found e =
      search_visible (with_model r model) query limit tenant_id collections found
        (λ chunks q l h.
          answer_of-All r _ (rerank model chunks q l)
            λ result answered. rerank-All _ model chunks q l (λ c score shown. shown) h answered)
        e

  -- The order that the model chose is used: an answer of the reranker is never refused, if the
  -- candidates have different ids.
  pub rank-with_model :
      (r : Retriever S) (model : SemanticReranker S) (chunks : List (ContextualChunk S))
      (query : Str) (limit : ℕ) (result : List (ContextualChunk S))
      → is_unique (ids chunks) ≡ true
      → rerank model chunks query limit ≡ ok result
      → rank (with_model r model) chunks query limit ≡ take limit result
  rank-with_model r model chunks query limit result unique e =
      let (known, distinct) = rerank-IsOrdering model chunks query limit result unique e in
      rank_accepts (with_model r model) (as_reranker model) chunks query limit result refl refl
        (ap answer_of e) (ground (arith, known, distinct))
