-- ===== src/Knowledge/Retriever/Ranking.antt =====
-- What `_rank` may return, whatever the reranker does.
use bo_thesis.Base.Result.{Result, ok, err}
use bo_thesis.Base.Sort.{sort_desc, All-sort_desc, sort_desc-IsDesc, IsDesc, IsDesc-take}
use bo_thesis.Base.{
  ℕ, ◌≤◌, ◌≡◌, ◌≢◌, ap, ◌∙◌, ◌⊎◌, refl, Bool, true, Option, none, some, List, Str, All, All-take,
  take, length, length-take-le, inl, inr, Bool-cases, list_eq, nat_eq,
}
use mathlib.Core.Path.{subst, ap₂}
use bo_thesis.Knowledge.{ContextualChunk}
use bo_thesis.Knowledge.Retriever.{
  Retriever, Reranker, SearchError, score_order, score_key, is_valid_ranking, accept_ranking,
  rank_with, rank,
}

module _ {S : Type 0} (r : Retriever S) where
  -- The list is the first `limit` chunks of a valid answer of the reranker.
  record IsReranked (reranker : Option (Reranker S)) (chunks : List (ContextualChunk S))
      (query : Str) (limit : ℕ) (result : List (ContextualChunk S)) : Type 0 where
    pub rerank : Reranker S
    pub configured : reranker ≡ some rerank
    pub ranked : List (ContextualChunk S)
    pub answered : rerank chunks query limit ≡ ok ranked
    pub valid : is_valid_ranking r chunks ranked ≡ true
    pub first : result ≡ take limit ranked

  accept_ranking_cases :
      (chunks : List (ContextualChunk S)) (limit : ℕ)
      (answer : Result SearchError (List (ContextualChunk S)))
      → (accept_ranking r chunks limit answer ≡ score_order r chunks limit)
        ⊎ (ranked : List (ContextualChunk S)) × (answer ≡ ok ranked)
          × (is_valid_ranking r chunks ranked ≡ true)
          × (accept_ranking r chunks limit answer ≡ take limit ranked)
  unfolding accept_ranking
  accept_ranking_cases chunks limit (err e) = inl refl
  accept_ranking_cases chunks limit (ok ranked) =
      elim (Bool-cases (is_valid_ranking r chunks ranked)) [
        | inl valid ↦ inr (ranked, refl, valid, rw valid)
        | inr invalid ↦ inl (rw invalid)
      ]

  rank_with_cases :
      (enabled : Bool) (reranker : Option (Reranker S)) (chunks : List (ContextualChunk S))
      (query : Str) (limit : ℕ)
      → (rank_with r enabled reranker chunks query limit ≡ score_order r chunks limit)
        ⊎ IsReranked reranker chunks query limit (rank_with r enabled reranker chunks query limit)
  unfolding rank_with
  rank_with_cases true (some rerank) chunks query limit =
      elim (accept_ranking_cases chunks limit (rerank chunks query limit)) [
        | inl same ↦ inl same
        | inr (ranked, answered, valid, first) ↦ inr (record {
          rerank = rerank;
          configured = refl;
          ranked = ranked;
          answered = answered;
          valid = valid;
          first = first;
        })
      ]
  rank_with_cases _ _ chunks query limit = inl refl

  rank_cases :
      (chunks : List (ContextualChunk S)) (query : Str) (limit : ℕ)
      → (rank r chunks query limit ≡ score_order r chunks limit)
        ⊎ IsReranked r.reranker chunks query limit (rank r chunks query limit)
  unfolding rank
  rank_cases = rank_with_cases r.reranking_enabled r.reranker

  abbrev pub Answer :
      (ContextualChunk S → Type 0) → Result SearchError (List (ContextualChunk S)) → Type 0
  Answer P (ok ranked) = All P ranked
  Answer P (err e) = Unit

  -- A reranker that hands back only chunks of which `P` holds, if it holds of those it is given.
  abbrev pub Keeps : (ContextualChunk S → Type 0) → Option (Reranker S) → Type 0
  Keeps P none = Unit
  Keeps P (some rerank) =
      (chunks : List (ContextualChunk S)) (query : Str) (limit : ℕ)
      → All P chunks
      → Answer P (rerank chunks query limit)

  Keeps-at :
      (P : ContextualChunk S → Type 0) {chunks result : List (ContextualChunk S)} {query : Str}
      {limit : ℕ} {reranker : Option (Reranker S)}
      → Keeps P reranker
      → All P chunks
      → (k : IsReranked reranker chunks query limit result) → All P k.ranked
  Keeps-at P keeps h k = subst (Answer P) k.answered ((subst (Keeps P) k.configured keeps) _ _ _ h)

  score_order-All :
      (P : ContextualChunk S → Type 0) (chunks : List (ContextualChunk S)) (limit : ℕ)
      → All P chunks
      → All P (score_order r chunks limit)
  unfolding score_order
  score_order-All P chunks limit h =
      All-take P limit _ (All-sort_desc r.order (score_key r.neg_inf) P chunks h)

  pub rank-All :
      (P : ContextualChunk S → Type 0) (chunks : List (ContextualChunk S)) (query : Str) (limit : ℕ)
      → Keeps P r.reranker
      → All P chunks
      → All P (rank r chunks query limit)
  rank-All P chunks query limit keeps h = elim (rank_cases chunks query limit) [
    | inl same ↦ rw same (score_order-All P chunks limit h)
    | inr k ↦ rw k.first (All-take P limit k.ranked (Keeps-at P keeps h k))
  ]

  score_order-length :
      (chunks : List (ContextualChunk S)) (limit : ℕ) → length (score_order r chunks limit) ≤ limit
  unfolding score_order
  score_order-length chunks limit = length-take-le limit _

  pub rank-length :
      (chunks : List (ContextualChunk S)) (query : Str) (limit : ℕ)
      → length (rank r chunks query limit) ≤ limit
  rank-length chunks query limit = elim (rank_cases chunks query limit) [
    | inl same ↦ rw same (score_order-length chunks limit)
    | inr k ↦ rw k.first (length-take-le limit k.ranked)
  ]

  -- A valid answer of the reranker is what is used.
  pub rank_accepts :
      (rerank : Reranker S) (chunks : List (ContextualChunk S)) (query : Str) (limit : ℕ)
      (ranked : List (ContextualChunk S))
      → r.reranking_enabled ≡ true
      → r.reranker ≡ some rerank
      → rerank chunks query limit ≡ ok ranked
      → is_valid_ranking r chunks ranked ≡ true
      → rank r chunks query limit ≡ take limit ranked
  unfolding rank accept_ranking
  rank_accepts rerank chunks query limit ranked enabled configured answered valid =
      ap₂ (λ b o. rank_with r b o chunks query limit) enabled configured
      ∙ ap (accept_ranking r chunks limit) answered
      ∙ rw valid

  score_order-IsDesc :
      (chunks : List (ContextualChunk S)) (limit : ℕ)
      → IsDesc r.order (score_key r.neg_inf) (score_order r chunks limit)
  unfolding score_order
  score_order-IsDesc chunks limit =
      IsDesc-take r.order (score_key r.neg_inf) limit _
        (sort_desc-IsDesc r.order (score_key r.neg_inf) chunks)

  -- Reranking fails open. If the reranker gives no valid answer (there is none, it raises, or it
  -- names chunks that are no candidates or one twice), the result is the first `limit` chunks in
  -- the order of their scores, the best first, a missing score counted as the lowest.
  pub rank_fails_open :
      (chunks : List (ContextualChunk S)) (query : Str) (limit : ℕ)
      → ((rerank : Reranker S) (ranked : List (ContextualChunk S))
          → r.reranker ≡ some rerank
          → rerank chunks query limit ≡ ok ranked
          → is_valid_ranking r chunks ranked ≢ true)
      → (rank r chunks query limit ≡ take limit (sort_desc r.order (score_key r.neg_inf) chunks))
        × IsDesc r.order (score_key r.neg_inf) (rank r chunks query limit)
  unfolding score_order
  rank_fails_open chunks query limit unanswered = elim (rank_cases chunks query limit) [
    | inl same ↦ (same, rw same (score_order-IsDesc chunks limit))
    | inr k ↦ absurd (unanswered k.rerank k.ranked k.configured k.answered k.valid)
  ]
