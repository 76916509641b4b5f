-- ===== src/Knowledge/Retriever.antt =====
-- ItemKnowledgeRetriever of backend/bothesis/knowledge/retriever.py. The index, the reranker and
-- SHA-256 are parameters: the source calls them and does not implement them here.
pub mod Ranking
pub mod Search
use bo_thesis.Base.Result.{Result, ok, err, ◌>>=◌, ◌>>◌, require}
use bo_thesis.Base.Sort.{WeakOrder, sort_desc}
use bo_thesis.Base.{
  ℕ, Bool, true, false, not, ◌&&◌, ◌||◌, Option, none, some, List, [], ◌∷◌, ◌++◌, map, Str, codes,
  is_empty, strip, length, take, keep, all, contains, is_unique, max, leb, if◌then◌else◌, list_eq,
  nat_eq,
}
use bo_thesis.Knowledge.{Evidence, ContextualChunk}

-- What a search can raise: the `ValueError`s of the validation, and what the index raises.
pub data SearchError : Type 0 where
  empty_query bad_limit empty_tenant : SearchError
  raised : Str → SearchError

abbrev pub Reranker : Type 0 → Type 0
Reranker S =
    List (ContextualChunk S)
    → (query : Str) → (limit : ℕ) → Result SearchError (List (ContextualChunk S))

abbrev pub Index : Type 0 → Type 0
Index S =
    (query : Str) (limit : ℕ) (tenant_id : Str) (collection_item_ids : List Str)
    → Result SearchError (List (ContextualChunk S))

-- `neg_inf` is `float("-inf")`.
pub record Retriever (S : Type 0) : Type 0 where
  pub order : WeakOrder S
  pub neg_inf : S
  pub index : Index S
  pub reranker : Option (Reranker S)
  pub candidate_count : ℕ
  pub reranking_enabled : Bool
  pub sha256_hex : Str → Str

abbrev pub score_key : {S : Type 0} → S → ContextualChunk S → S
score_key neg_inf chunk = elim chunk.relevance_score [ none ↦ neg_inf | some score ↦ score ]

-- `item_id` and `chunk_id` are joined by a NUL character.
source_reference : (Str → Str) → Str → Str → Str
source_reference sha256_hex item_id chunk_id =
    codes "source-" ++ take 8 (sha256_hex (item_id ++ (0 ∷ chunk_id)))

validate_search : Str → ℕ → Result SearchError Str
unfolding strip
validate_search query limit = do
  let normalized_query = strip query
  require (not (is_empty normalized_query)) empty_query
  require (leb 1 limit) bad_limit
  ok normalized_query

validate_tenant_id : Str → Result SearchError Str
unfolding strip
validate_tenant_id tenant_id = do
  let normalized_tenant_id = strip tenant_id
  require (not (is_empty normalized_tenant_id)) empty_tenant
  ok normalized_tenant_id

module _ {S : Type 0} (r : Retriever S) where
  pub score_order : List (ContextualChunk S) → ℕ → List (ContextualChunk S)
  unfolding sort_desc
  score_order chunks limit = take limit (sort_desc r.order (score_key r.neg_inf) chunks)

  -- The reranker returned candidates only, none of them twice.
  abbrev pub is_valid_ranking : (chunks ranked : List (ContextualChunk S)) → Bool
  is_valid_ranking chunks ranked =
      let allowed_ids = map (λ (c : ContextualChunk S). c.id) chunks in
      let ranked_ids = map (λ (c : ContextualChunk S). c.id) ranked in
      all (contains allowed_ids) ranked_ids && is_unique ranked_ids

  -- An exception of the reranker, and an invalid answer, leave the order of the scores.
  pub accept_ranking :
      List (ContextualChunk S)
      → ℕ
      → Result SearchError (List (ContextualChunk S))
      → List (ContextualChunk S)
  accept_ranking chunks limit (err e) = score_order chunks limit
  accept_ranking chunks limit (ok ranked) =
      if is_valid_ranking chunks ranked then take limit ranked else score_order chunks limit

  rank_with :
      Bool → Option (Reranker S) → List (ContextualChunk S) → Str → ℕ → List (ContextualChunk S)
  unfolding accept_ranking score_order
  rank_with true (some rerank) chunks query limit =
      accept_ranking chunks limit (rerank chunks query limit)
  rank_with enabled reranker chunks query limit = score_order chunks limit

  unfoldable pub rank : List (ContextualChunk S) → Str → ℕ → List (ContextualChunk S)
  unfolding rank_with
  rank = rank_with r.reranking_enabled r.reranker

  unfoldable pub evidence_from_chunk : ContextualChunk S → Evidence S
  unfolding source_reference
  evidence_from_chunk chunk = record {
    id = source_reference r.sha256_hex chunk.item_id chunk.id;
    item_id = chunk.item_id;
    chunk_id = chunk.id;
    title = elim chunk.title [
      | none ↦ chunk.item_id
      | some title ↦ if is_empty title then chunk.item_id else title
    ];
    content = chunk.chunk_text;
    collection_item_id = chunk.collection_item_id;
    source = some chunk.source;
    citation = chunk.citation;
    section_path = chunk.section_path;
    contextual_text = some chunk.contextual_text;
    relevance_score = chunk.relevance_score;
    rerank_score = chunk.rerank_score;
  }

  -- chunk.collection_item_id in allowed_collections
  abbrev pub is_in : List Str → Option Str → Bool
  is_in collections none = false
  is_in collections (some collection) = contains collections collection

  abbrev pub visible : List Str → List (ContextualChunk S) → List (ContextualChunk S)
  visible collections = keep (λ chunk. is_in collections chunk.collection_item_id)

  -- The search in Collections that are not none.
  search_in : Str → ℕ → Str → List Str → Result SearchError (List (Evidence S))
  unfolding rank evidence_from_chunk
  search_in query limit tenant_id collections = do
    chunks ← r.index query (max limit r.candidate_count) tenant_id collections
    ok (map evidence_from_chunk (rank (visible collections chunks) query limit))

  unfoldable pub search :
      (query : Str) (limit : ℕ) (tenant_id : Str) (collection_item_ids : List Str)
      → Result SearchError (List (Evidence S))
  unfolding search_in validate_search validate_tenant_id
  search query limit tenant_id collections = do
    normalized_query ← validate_search query limit
    tenant ← validate_tenant_id tenant_id
    if is_empty collections then ok [] else search_in normalized_query limit tenant collections
