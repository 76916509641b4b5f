-- ===== src/Access/KnowledgeQuery.antt =====
-- KnowledgeQueryService of backend/bothesis/services/knowledge_query.py: authorization and retrieval
-- joined.
pub mod Restricted
use bo_thesis.Base.Result.{Result, ok, err, ◌>>=◌, ◌>>◌, require}
use bo_thesis.Base.{
  ℕ, Bool, true, false, not, Option, none, some, List, [], ◌∷◌, map, keep, Str, length, is_empty,
  contains, all, nat_eq, list_eq, if◌then◌else◌,
}
use bo_thesis.Access.{
  Database, AuthContext, AccessError, unavailable, collection_read, knowledge_read,
  require_tenant_permission, subject_id,
}
use bo_thesis.Access.Authorization.{allowed_collection_ids}
use bo_thesis.Knowledge.{Evidence, SourceIdentity, CitationInfo}
use bo_thesis.Knowledge.Retriever.{Retriever, SearchError, search}

pub data QueryError : Type 0 where
  denied : AccessError → QueryError
  search_failed : SearchError → QueryError

pub record ResultPayload (S : Type 0) : Type 0 where
  pub id : Str
  pub collection_item_id : Option Str
  pub title : Str
  pub excerpt : Str
  pub score : S
  pub url : Option Str
  pub chunk_id : Str
  pub section_path : List Str
  pub citation : CitationInfo
  pub source : Option SourceIdentity

pub record Found (S : Type 0) : Type 0 where
  pub results : List (ResultPayload S)
  pub total : ℕ

module _ {S : Type 0} where
  -- `no_score` is `0.0`.
  result_payload : S → Evidence S → ResultPayload S
  result_payload no_score item = record {
    id = item.item_id;
    collection_item_id = item.collection_item_id;
    title = item.title;
    excerpt = item.content;
    score = elim item.rerank_score [
      | some score ↦ score
      | none ↦ elim item.relevance_score [ some score ↦ score | none ↦ no_score ]
    ];
    url = elim item.source [ none ↦ none | some source ↦ source.url ];
    chunk_id = item.chunk_id;
    section_path = item.section_path;
    citation = item.citation;
    source = item.source;
  }

  abbrev pub has_collection : Evidence S → Bool
  has_collection item = elim item.collection_item_id [ none ↦ false | some _ ↦ true ]

  unfoldable pub found_of : S → List (Evidence S) → Found S
  unfolding result_payload
  found_of no_score evidence =
      let results = map (result_payload no_score) (keep has_collection evidence) in
      record { results = results; total = length results }

  abbrev pub searched : S → Result SearchError (List (Evidence S)) → Result QueryError (Found S)
  searched no_score (ok evidence) = ok (found_of no_score evidence)
  searched no_score (err e) = err (search_failed e)

pub lift_access : {A : Type 0} → Result AccessError A → Result QueryError A
lift_access (ok a) = ok a
lift_access (err e) = err (denied e)

-- dict.fromkeys: what was seen comes once, at its first place
abbrev pub distinct_from : (seen ids : List ℕ) → List ℕ
distinct_from seen [] = []
distinct_from seen (id ∷ ids) =
    let rest = distinct_from (if contains seen id then seen else id ∷ seen) ids in
    if contains seen id then rest else id ∷ rest

-- `uuid_text` is `str` of a UUID, `no_score` is `0.0`.
module _ {S : Type 0} (r : Retriever S) (uuid_text : ℕ → Str) (no_score : S) (db : Database)
    (depth : ℕ) where
  unfoldable pub search_in_collections :
      AuthContext
      → (query : Str) → (top_k tenant : ℕ) → (requested : List ℕ) → Result QueryError (Found S)
  unfolding found_of lift_access
  search_in_collections access query top_k tenant requested =
      if is_empty requested then ok (record { results = []; total = 0 }) else (do
        subject ← lift_access (subject_id access)
        searched no_score (search r query top_k (uuid_text tenant) (map uuid_text requested)))

  unfoldable pub search_knowledge :
      AuthContext
      → (query : Str) → (top_k : ℕ) → (collection_item_ids : List ℕ) → Result QueryError (Found S)
  unfolding search_in_collections lift_access
  search_knowledge access query top_k collection_item_ids = do
    tenant ← lift_access (require_tenant_permission access (knowledge_read ∷ []))
    let allowed_ids = allowed_collection_ids db depth access collection_read
    let requested_ids =
        distinct_from [] (if is_empty collection_item_ids then allowed_ids else collection_item_ids)
    require (all (contains allowed_ids) requested_ids) (denied unavailable)
    search_in_collections access query top_k tenant requested_ids
