-- ===== src/Access/KnowledgeQuery/Restricted.antt =====
-- What a knowledge query shows.

use mathlib.Core.Path.{subst}
use bo_thesis.Base.Result.{Result, ok, err, >>=-eq-ok, require-eq-ok}
use bo_thesis.Base.{
  ℕ, ◌≤◌, ◌≡◌, ◌⊎◌, inl, inr, refl, ap, Option, none, some, List, [], ◌∷◌, map, keep, Str, length,
  length-map, length-keep-le, is_empty, contains, all, All, All-keep, All-map, Member,
  Member-map_cases, contains→Member, all-Member, nat_eq, list_eq, arith, if◌then◌else◌,
}
use bo_thesis.Access.{
  Database, AuthContext, unavailable, collection_read, knowledge_read, require_tenant_permission,
  subject_id,
}
use bo_thesis.Access.Authorization.{allowed_collection_ids}
use bo_thesis.Access.Authorization.Inherited.{IsTree}
use bo_thesis.Access.Authorization.Descent.{IsSchema}
use bo_thesis.Access.Authorization.Allowed.{IsAllowed, allowed_collection_ids_iff}
use bo_thesis.Access.KnowledgeQuery.{
  denied, Found, result_payload, has_collection, found_of, searched, lift_access,
  search_in_collections, search_knowledge, distinct_from,
}
use bo_thesis.Knowledge.{Evidence}
use bo_thesis.Knowledge.Reranker.{SemanticReranker}
use bo_thesis.Knowledge.Retriever.{Retriever, SearchError}
use bo_thesis.Knowledge.Retriever.Search.{InCollections}
use bo_thesis.Knowledge.SemanticSearch.{with_model, search-with_model}

distinct_from-Member :
    (seen ids : List ℕ) (id : ℕ) → Member id (distinct_from seen ids) → Member id ids
distinct_from-Member seen [] id m = m
distinct_from-Member seen (x ∷ xs) id m =
    ground (arith, distinct_from-Member (if contains seen x then seen else x ∷ seen) xs id)

-- What was selected, or anything if nothing was.
abbrev pub IsSelected : List ℕ → ℕ → Type 0
IsSelected selected id = (selected ≡ []) ⊎ Member id selected

requested-IsSelected :
    (allowed selected : List ℕ) (id : ℕ)
    → Member id (distinct_from [] (if is_empty selected then allowed else selected))
    → IsSelected selected id
requested-IsSelected allowed [] id m = inl refl
requested-IsSelected allowed (x ∷ xs) id m = inr (distinct_from-Member [] (x ∷ xs) id m)

-- The id is that of one of the Collections, as text.
abbrev pub IsOneOf : (ℕ → Str) → List ℕ → Option Str → Type 0
IsOneOf uuid_text ids shown = (id : ℕ) × Member id ids × (shown ≡ some (uuid_text id))

module _ {S : Type 0} (r : Retriever S) (uuid_text : ℕ → Str) (no_score : S) (db : Database)
    (depth : ℕ) where
  InCollections-IsOneOf :
      (requested : List ℕ) (shown : Option Str)
      → InCollections r (map uuid_text requested) shown
      → IsOneOf uuid_text requested shown
  InCollections-IsOneOf requested none h = cc
  InCollections-IsOneOf requested (some text) h =
      let (id, m, same) = Member-map_cases text uuid_text requested (contains→Member _ text h) in
      (id, m, ap some same)

  results-All :
      (P : Option Str → Type 0) (evidence : List (Evidence S))
      → All (λ e. P e.collection_item_id) evidence
      → All (λ p. P p.collection_item_id) (map (result_payload no_score) evidence)
  unfolding result_payload
  results-All P [] h = tt
  results-All P (e ∷ es) h = (h.0, results-All P es h.1)

  -- Every result is of one of the Collections, there are at most `limit`, and `total` counts them.
  pub record IsRestricted (ids : List ℕ) (limit : ℕ) (found : Found S) : Type 0 where
    pub collections : All (λ p. IsOneOf uuid_text ids p.collection_item_id) found.results
    pub bounded : length found.results ≤ limit
    pub counted : found.total ≡ length found.results

module _ {S : Type 0} (r : Retriever S) (model : SemanticReranker S) (uuid_text : ℕ → Str)
    (no_score : S) (db : Database) (depth : ℕ) where
  found_of-IsRestricted :
      (requested : List ℕ) (limit : ℕ) (evidence : List (Evidence S))
      → All
          (λ e. InCollections (with_model r model) (map uuid_text requested) e.collection_item_id)
          evidence
      → length evidence ≤ limit
      → IsRestricted
          (with_model r model)
          uuid_text
          no_score
          db
          depth
          requested
          limit
          (found_of no_score evidence)
  unfolding found_of
  found_of-IsRestricted requested limit evidence h le = record {
    collections =
        results-All (with_model r model) uuid_text no_score db depth (IsOneOf uuid_text requested) _
          (All-keep (λ (e : Evidence S). IsOneOf uuid_text requested e.collection_item_id)
            has_collection evidence
            (All-map
              (λ (e : Evidence S).
                InCollections-IsOneOf (with_model r model) uuid_text no_score db depth requested
                  e.collection_item_id)
              evidence h));
    bounded = omega (
      arith,
      le,
      length-keep-le has_collection evidence,
      length-map (result_payload no_score) (keep has_collection evidence),
    );
    counted = refl;
  }

  searched-eq-ok :
      (answer : Result SearchError (List (Evidence S))) (found : Found S)
      → searched no_score answer ≡ ok found
      → (evidence : List (Evidence S)) × (answer ≡ ok evidence)
        × (found_of no_score evidence ≡ found)
  searched-eq-ok (ok evidence) found e = (evidence, refl, cc)
  searched-eq-ok (err e) found h = cc

  search_in_collections-IsRestricted :
      (access : AuthContext) (query : Str) (top_k tenant : ℕ) (requested : List ℕ) (found : Found S)
      → search_in_collections
          (with_model r model)
          uuid_text
          no_score
          db
          depth
          access
          query
          top_k
          tenant
          requested
        ≡ ok found
      → IsRestricted (with_model r model) uuid_text no_score db depth requested top_k found
  unfolding search_in_collections
  search_in_collections-IsRestricted access query top_k tenant [] found e =
      subst (IsRestricted (with_model r model) uuid_text no_score db depth [] top_k)
        {x = record { results = []; total = 0 }} (cc)
        (record { collections = tt; bounded = omega arith; counted = refl })
  search_in_collections-IsRestricted access query top_k tenant (id ∷ ids) found e =
      let (_, _, e1) = >>=-eq-ok (lift_access (subject_id access)) _ e in
      let (evidence, answered, same) = searched-eq-ok _ found e1 in
      let (visible, le) =
        search-with_model r model query top_k (uuid_text tenant) (map uuid_text (id ∷ ids)) evidence
          answered in
      subst (IsRestricted (with_model r model) uuid_text no_score db depth (id ∷ ids) top_k) same
        (found_of-IsRestricted (id ∷ ids) top_k evidence visible le)

  require_tenant-eq-ok :
      (access : AuthContext) (codes : List Str) (tenant : ℕ)
      → lift_access (require_tenant_permission access codes) ≡ ok tenant
      → access.tenant_id ≡ some tenant
  unfolding require_tenant_permission lift_access
  require_tenant-eq-ok access codes tenant e = ground arith

  -- A knowledge query that answers shows only evidence of live Collections of the actor's tenant on
  -- which reading is held, and of the selected ones, if any were selected; not more than was asked for;
  -- and counts it. Whatever the index and the model answer.
  pub search_knowledge-IsRestricted :
      (t : IsTree db depth) (schema : IsSchema db)
      → (access : AuthContext) (query : Str) (top_k : ℕ) (selected : List ℕ) (found : Found S)
      → search_knowledge
          (with_model r model)
          uuid_text
          no_score
          db
          depth
          access
          query
          top_k
          selected
        ≡ ok found
      → (tenant : ℕ) × (requested : List ℕ) × (access.tenant_id ≡ some tenant)
        × IsRestricted (with_model r model) uuid_text no_score db depth requested top_k found
        × ((id : ℕ)
            → Member id requested
            → IsAllowed db access tenant collection_read id × IsSelected selected id)
  unfolding search_knowledge
  search_knowledge-IsRestricted t schema access query top_k selected found e =
      let (tenant, let_in, e1) =
        >>=-eq-ok (lift_access (require_tenant_permission access (knowledge_read ∷ []))) _ e in
      let (known, e2) =
        require-eq-ok (all (contains (allowed_collection_ids db depth access collection_read)) _)
          (denied unavailable) _ e1 in
      let scoped = require_tenant-eq-ok access (knowledge_read ∷ []) tenant let_in in
      (
        tenant,
        _,
        scoped,
        search_in_collections-IsRestricted access query top_k tenant _ found e2,
        λ id m. (
          ((allowed_collection_ids_iff db depth access tenant collection_read t schema scoped).1
                id).0
              (contains→Member _ id (
                all-Member (contains (allowed_collection_ids db depth access collection_read)) _ id
                  known m)),
          requested-IsSelected (allowed_collection_ids db depth access collection_read) selected id
              m,
        ),
      )
