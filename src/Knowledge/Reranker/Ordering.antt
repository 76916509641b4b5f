-- ===== src/Knowledge/Reranker/Ordering.antt =====
-- The ids in an answer of SemanticReranker, and those of its candidates.
use bo_thesis.Base.Dict.{Dict, get, put, get-put_cases, get-nil}
use mathlib.Core.List.{map-append}
use bo_thesis.Base.Result.{ok, >>=-eq-ok, require-eq-ok, guarded_cases}
use bo_thesis.Base.{
  ℕ, ◌+◌, ◌≡◌, refl, sym, ap, ◌∙◌, Option-cases, true, false, not, Option, some, List, [], ◌∷◌,
  ◌++◌, map, Str, is_empty, strip, length, take, keep, All, all, contains, is_unique, list_eq,
  nat_eq, list_beq_iff, arith, inl, inr, all-contains_cons, All-append, all-append_true,
  is_unique-append_disjoint, All-map, All-contains_self, All-keep, max, min, leb, All-take,
  take-map, all-take, is_unique-take,
}
use mathlib.Core.Path.{subst}
use bo_thesis.Knowledge.{ContextualChunk}
use bo_thesis.Knowledge.Reranker.{
  SemanticReranker, unknown_chunk_id, not_unique, empty_query, bad_limit, candidate, text_of,
  json_object, chunk_ids_of, some_strings, ids, index_by_id, look_up_all, scored, ordered_ids,
  reordered, rerank_candidates, rerank,
}

-- What is asked of an ordering: ids of candidates, none of them twice.
abbrev pub IsOrdering : List Str → List Str → Type 0
IsOrdering candidates ordered =
    (all (contains candidates) ordered ≡ true) × (is_unique ordered ≡ true)

module _ {S : Type 0} where
  -- `result` is an ordering of the candidates, if they have different ids, and `P` holds of it.
  abbrev IsSound :
      (ContextualChunk S → Type 0) → (candidates result : List (ContextualChunk S)) → Type 0
  IsSound P candidates result =
      (is_unique (ids candidates) ≡ true → IsOrdering (ids candidates) (ids result)) × All P result

  All-trivial : (chunks : List (ContextualChunk S)) → All (λ _. Unit {0}) chunks
  All-trivial [] = tt
  All-trivial (c ∷ cs) = (tt, All-trivial cs)

  -- A dictionary that maps each id to a chunk of that id, of which `P` holds.
  abbrev IsIndex : (ContextualChunk S → Type 0) → Dict Str (ContextualChunk S) → Type 0
  IsIndex P d = (k : Str) (c : ContextualChunk S) → get d k ≡ some c → (c.id ≡ k) × P c

  put-IsIndex :
      (P : ContextualChunk S → Type 0) (d : Dict Str (ContextualChunk S))
      (chunk : ContextualChunk S)
      → IsIndex P d
      → P chunk
      → IsIndex P (put d chunk.id chunk)
  put-IsIndex P d chunk h p k c e = elim (get-put_cases d chunk.id k chunk c e) [
    | inl (same, new) ↦ (sym (ap (λ (x : ContextualChunk S). x.id) new) ∙ same, subst P new p)
    | inr old ↦ h k c old
  ]

  index_by_id-IsIndex :
      (P : ContextualChunk S → Type 0) (d : Dict Str (ContextualChunk S))
      (chunks : List (ContextualChunk S))
      → IsIndex P d
      → All P chunks
      → IsIndex P (index_by_id d chunks)
  unfolding index_by_id
  index_by_id-IsIndex P d [] h p = h
  index_by_id-IsIndex P d (chunk ∷ rest) h p =
      index_by_id-IsIndex P (put d chunk.id chunk) rest (put-IsIndex P d chunk h p.0) p.1

  look_up_all-eq-ok :
      (P : ContextualChunk S → Type 0) (d : Dict Str (ContextualChunk S)) (keys : List Str)
      (chunks : List (ContextualChunk S))
      → IsIndex P d
      → look_up_all d keys ≡ ok chunks
      → (ids chunks ≡ keys) × All P chunks
  unfolding look_up_all
  look_up_all-eq-ok P d [] [] h e = (refl, tt)
  look_up_all-eq-ok P d [] (c ∷ cs) h e = cc
  look_up_all-eq-ok P d (key ∷ keys) chunks h e = elim (Option-cases (get d key)) [
    | inl missing ↦ cc (rw (missing, look_up_all) at e)
    | inr (c, found) ↦
        let (more, looked_up, same) =
          >>=-eq-ok (look_up_all d keys) (λ more. ok (c ∷ more)) (rw (found, look_up_all) at e) in
        let (named, kept) = look_up_all-eq-ok P d keys more h looked_up in
        let same' : c ∷ more ≡ chunks = cc in
        subst (λ l. (ids l ≡ key ∷ keys) × All P l) same'
          (cc ((h key c found).0, named), ((h key c found).1, kept))
  ]

  ids-scored :
      (ratio : ℕ → ℕ → S) (denominator rank : ℕ) (chunks : List (ContextualChunk S))
      → ids (scored ratio denominator rank chunks) ≡ ids chunks
  unfolding scored
  ids-scored ratio denominator rank [] = refl
  ids-scored ratio denominator rank (c ∷ cs) =
      ap (λ l. c.id ∷ l) (ids-scored ratio denominator (rank + 1) cs)

  -- The candidates that the answer does not name.
  abbrev unnamed : List Str → List (ContextualChunk S) → List (ContextualChunk S)
  unnamed chunk_ids = keep (λ c. not (contains chunk_ids c.id))

  contains-unnamed :
      (chunk_ids : List Str) (chunks : List (ContextualChunk S)) (k : Str)
      → contains chunk_ids k ≡ true
      → contains (ids (unnamed chunk_ids chunks)) k ≡ false
  contains-unnamed chunk_ids [] k h = refl
  contains-unnamed chunk_ids (c ∷ cs) k h =
      ground (arith, contains-unnamed chunk_ids cs k, list_beq_iff c.id k)

  contains-unnamed_le :
      (chunk_ids : List Str) (chunks : List (ContextualChunk S)) (k : Str)
      → contains (ids chunks) k ≡ false
      → contains (ids (unnamed chunk_ids chunks)) k ≡ false
  contains-unnamed_le chunk_ids [] k h = refl
  contains-unnamed_le chunk_ids (c ∷ cs) k h = ground (arith, contains-unnamed_le chunk_ids cs k)

  is_unique-unnamed :
      (chunk_ids : List Str) (chunks : List (ContextualChunk S))
      → is_unique (ids chunks) ≡ true
      → is_unique (ids (unnamed chunk_ids chunks)) ≡ true
  is_unique-unnamed chunk_ids [] h = refl
  is_unique-unnamed chunk_ids (c ∷ cs) h =
      ground (arith, is_unique-unnamed chunk_ids cs, contains-unnamed_le chunk_ids cs c.id)

  all-unnamed :
      (chunk_ids : List Str) (chunks : List (ContextualChunk S))
      → all (contains (ids chunks)) (ids (unnamed chunk_ids chunks)) ≡ true
  all-unnamed chunk_ids [] = refl
  all-unnamed chunk_ids (c ∷ cs) = ground (
    arith,
    all-unnamed chunk_ids cs,
    list_beq_iff c.id c.id,
    all-contains_cons c.id (ids cs) (ids (unnamed chunk_ids cs)),
  )

  ordered_ids-eq-ok :
      (model : SemanticReranker S) (raw_text : Str) (candidates : List (ContextualChunk S))
      {chunk_ids : List Str}
      → ordered_ids model.loads raw_text candidates ≡ ok chunk_ids
      → IsOrdering (ids candidates) chunk_ids
  unfolding ordered_ids
  ordered_ids-eq-ok model raw_text candidates {chunk_ids} e =
      let (text, _, e1) = >>=-eq-ok (json_object raw_text) _ e in
      let (listed, _, e2) = >>=-eq-ok (chunk_ids_of (model.loads text)) _ e1 in
      let (named, _, e3) = >>=-eq-ok (some_strings listed) _ e2 in
      let (unique, e4) = require-eq-ok (is_unique named) not_unique _ e3 in
      let (known, same) =
        require-eq-ok (all (contains (ids candidates)) named) unknown_chunk_id _ e4 in
      let same' : named ≡ chunk_ids = cc in
      subst (IsOrdering (ids candidates)) same' (known, unique)

  reordered-eq-ok :
      (P : ContextualChunk S → Type 0) (candidates : List (ContextualChunk S))
      (chunk_ids : List Str) {ordered : List (ContextualChunk S)}
      → IsOrdering (ids candidates) chunk_ids
      → All P candidates
      → reordered candidates chunk_ids ≡ ok ordered
      → IsSound P candidates ordered
  unfolding reordered
  reordered-eq-ok P candidates chunk_ids {ordered} (known, distinct) h e =
      let by_id = index_by_id [] candidates in
      let (named, looked_up, same) = >>=-eq-ok (look_up_all by_id chunk_ids) _ e in
      let (named_ids, kept) =
        look_up_all-eq-ok P by_id chunk_ids named
          (index_by_id-IsIndex P [] candidates (λ k c found. cc (get-nil {V = ContextualChunk S} k))
            h)
          looked_up in
      let rest = unnamed chunk_ids candidates in
      let same' : named ++ rest ≡ ordered = cc in
      subst (IsSound P candidates) same' (
        λ unique.
            rw (map-append, named_ids)
              (
                all-append_true (contains (ids candidates)) chunk_ids (ids rest) known
                    (all-unnamed chunk_ids candidates),
                is_unique-append_disjoint chunk_ids (ids rest) distinct
                    (is_unique-unnamed chunk_ids candidates unique)
                    (All-map (λ k there. contains-unnamed chunk_ids candidates k there) chunk_ids
                      (All-contains_self chunk_ids)),
              ),
        All-append P named rest kept (All-keep P _ candidates h),
      )

  -- `P` does not look at the rerank score.
  abbrev pub IgnoresScore : (ContextualChunk S → Type 0) → Type 0
  IgnoresScore P =
      (c : ContextualChunk S) (score : Option S) → P c → P (record c { rerank_score = score })

  All-scored :
      (P : ContextualChunk S → Type 0) (ratio : ℕ → ℕ → S) (denominator rank : ℕ)
      (chunks : List (ContextualChunk S))
      → IgnoresScore P
      → All P chunks
      → All P (scored ratio denominator rank chunks)
  unfolding scored
  All-scored P ratio denominator rank [] blind h = tt
  All-scored P ratio denominator rank (c ∷ cs) blind h =
      (blind c _ h.0, All-scored P ratio denominator (rank + 1) cs blind h.1)

  scored-IsSound :
      (P : ContextualChunk S → Type 0) (ratio : ℕ → ℕ → S)
      (candidates ordered : List (ContextualChunk S)) (denominator limit : ℕ)
      → IgnoresScore P
      → IsSound P candidates ordered
      → IsSound P candidates (scored ratio denominator 0 (take limit ordered))
  scored-IsSound P ratio candidates ordered denominator limit blind (sound, h) = (
    λ distinct.
        let (known, unique) = sound distinct in
        rw (ids-scored, take-map)
          (all-take _ limit (ids ordered) known, is_unique-take limit (ids ordered) unique),
    All-scored P ratio denominator 0 (take limit ordered) blind (All-take P limit ordered h),
  )

  rerank_candidates-eq-ok :
      (P : ContextualChunk S → Type 0) (model : SemanticReranker S)
      (candidates : List (ContextualChunk S)) (query : Str) (limit : ℕ)
      {result : List (ContextualChunk S)}
      → IgnoresScore P
      → All P candidates
      → rerank_candidates model candidates query limit ≡ ok result
      → IsSound P candidates result
  unfolding rerank_candidates
  rerank_candidates-eq-ok P model candidates query limit {result} blind h e =
      let (answer, _, e1) =
        >>=-eq-ok
          (model.respond query (map (candidate model.max_candidate_characters) candidates)
            (min limit (length candidates)))
          _ e in
      let (raw_text, _, e2) = >>=-eq-ok (text_of answer) _ e1 in
      let (chunk_ids, listed, e3) = >>=-eq-ok (ordered_ids model.loads raw_text candidates) _ e2 in
      let (ordered, placed, same) = >>=-eq-ok (reordered candidates chunk_ids) _ e3 in
      let sound =
        reordered-eq-ok P candidates chunk_ids (ordered_ids-eq-ok model raw_text candidates listed)
          h placed in
      let selected = take limit ordered in
      let same' : scored model.ratio (max 1 (length selected)) 0 selected ≡ result = cc in
      subst (IsSound P candidates) same' (
        scored-IsSound P model.ratio candidates ordered (max 1 (length selected)) limit blind sound)

  rerank-IsSound :
      (P : ContextualChunk S → Type 0) (model : SemanticReranker S)
      (chunks : List (ContextualChunk S)) (query : Str) (limit : ℕ)
      {result : List (ContextualChunk S)}
      → IgnoresScore P
      → All P chunks
      → rerank model chunks query limit ≡ ok result
      → IsSound P chunks result
  unfolding rerank
  rerank-IsSound P model chunks query limit blind h e =
      let (_, e1) = require-eq-ok (not (is_empty (strip query))) empty_query _ e in
      let (_, e2) = require-eq-ok (leb 1 limit) bad_limit _ e1 in
      elim (guarded_cases (is_empty chunks) [] _ e2) [
        | inl nothing ↦ subst (IsSound P chunks) nothing (λ unique. (refl, refl), tt)
        | inr inside ↦ rerank_candidates-eq-ok P model chunks (strip query) limit blind h inside
      ]

  -- An answer holds chunks of which `P` holds, if it holds of the candidates whatever their score.
  pub rerank-All :
      (P : ContextualChunk S → Type 0) (model : SemanticReranker S)
      (chunks : List (ContextualChunk S)) (query : Str) (limit : ℕ)
      {result : List (ContextualChunk S)}
      → IgnoresScore P
      → All P chunks
      → rerank model chunks query limit ≡ ok result
      → All P result
  rerank-All P model chunks query limit blind h e =
      (rerank-IsSound P model chunks query limit blind h e).1

  -- Whatever the model writes, an answer of the reranker names candidates only, each at most once,
  -- if the candidates have different ids.
  pub rerank-IsOrdering :
      (model : SemanticReranker S) (chunks : List (ContextualChunk S)) (query : Str) (limit : ℕ)
      (result : List (ContextualChunk S))
      → is_unique (ids chunks) ≡ true
      → rerank model chunks query limit ≡ ok result
      → IsOrdering (ids chunks) (ids result)
  rerank-IsOrdering model chunks query limit result unique e =
      (rerank-IsSound (λ _. Unit) model chunks query limit (λ _ _ _. tt) (All-trivial chunks) e).0
        unique
