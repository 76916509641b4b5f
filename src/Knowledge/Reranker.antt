-- ===== src/Knowledge/Reranker.antt =====
-- SemanticReranker of backend/bothesis/knowledge/semantic_reranker.py. The prompt, the model's
-- transport and `json.loads` are parameters.
pub mod Ordering
use Prim.Native.Nat.{zero, suc}
use bo_thesis.Base.Dict.{Dict, get, put}
use bo_thesis.Base.Json.{Json, Items, Fields, Loads, string, array, object, nil, cons, end, field}
use bo_thesis.Base.Result.{Result, ok, err, ◌>>=◌, ◌>>◌, require}
use bo_thesis.Base.{
  ℕ, ◌+◌, ◌-◌, ◌*◌, ◌/◌, min, max, Bool, true, false, not, ◌&&◌, Option, none, some, List, [], ◌∷◌,
  ◌++◌, map, Str, codes, is_empty, strip, starts_with, length, take, drop, keep, all, contains,
  is_unique, leb, list_beq, nat_beq, if◌then◌else◌, list_eq, nat_eq,
}
use bo_thesis.Knowledge.{ContextualChunk}

pub data RerankError : Type 0 where
  empty_query bad_limit no_text no_object not_json bad_shape empty_list not_strings not_unique :
      RerankError
  unknown_chunk_id : RerankError
  transport_failed : RerankError

-- s.find(sub) for a text of one character, and s.rfind(sub)
index_of : ℕ → Str → Option ℕ
index_of c [] = none
index_of c (d ∷ s) =
    let later : Option ℕ = elim (index_of c s) [ none ↦ none | some i ↦ some (suc i) ] in
    if nat_beq c d then some 0 else later

last_index_of : ℕ → Str → Option ℕ
last_index_of c [] = none
last_index_of c (d ∷ s) = elim (last_index_of c s) [
  | none ↦ if nat_beq c d then some 0 else none
  | some i ↦ some (suc i)
]

-- s.split(sep): `skip` characters of a separator that was found are still to be passed over.
split_from : Str → (skip : ℕ) → (part : Str) → Str → List Str
split_from sep skip part [] = part ∷ []
split_from sep (suc skip) part (c ∷ s) = split_from sep skip part s
split_from sep zero part (c ∷ s) =
    let here = part ∷ split_from sep (length sep - 1) [] s in
    let later = split_from sep zero (part ++ c ∷ []) s in
    if starts_with sep (c ∷ s) then here else later

split : Str → Str → List Str
unfolding split_from
split sep s = split_from sep 0 [] s

-- body.split("\n", 1)[1] if "\n" in body else body
after_newline : Str → Str
after_newline s = elim (index_of 10 s) [ none ↦ s | some i ↦ drop (i + 1) s ]

-- The text of a fence: what stands between the first two fences, without a language tag.
unfenced : Str → List Str → Str
unfenced normalized (before ∷ body ∷ after ∷ rest) = strip (after_newline body)
unfenced normalized parts = normalized

between : Str → Option ℕ → Option ℕ → Result RerankError Str
between s (some start) (some last) =
    if leb last start then err no_object else ok (drop start (take (last + 1) s))
between s _ _ = err no_object

json_object : Str → Result RerankError Str
unfolding strip unfenced after_newline split between index_of last_index_of
json_object raw_text =
    let stripped = strip raw_text in
    let normalized =
      if starts_with (codes "```") stripped
      then unfenced stripped (split (codes "```") stripped)
      else stripped in
    between normalized (index_of b'{' normalized) (last_index_of b'}' normalized)

-- The strings of a list, if it holds strings alone.
strings : Items → Result RerankError (List Str)
strings nil = ok []
strings (cons (string s) rest) = do more ← strings rest; ok (s ∷ more)
strings (cons _ rest) = err not_strings

some_strings : Items → Result RerankError (List Str)
unfolding strings
some_strings nil = err empty_list
some_strings (cons value rest) = strings (cons value rest)

abbrev key_is : Str → Bool
key_is key = list_beq key (codes "chunk_ids")

-- `value["chunk_ids"]` of an object that has this key alone
chunk_ids_of : Option Json → Result RerankError Items
chunk_ids_of none = err not_json
chunk_ids_of (some (object (field key (array ids) end))) =
    if key_is key then ok ids else err bad_shape
chunk_ids_of (some (object (field key value end))) =
    if key_is key then err empty_list else err bad_shape
chunk_ids_of (some value) = err bad_shape

-- `raw_text` with a missing or blank text refused
text_of : Option Str → Result RerankError Str
unfolding strip
text_of none = err no_text
text_of (some raw_text) = if is_empty (strip raw_text) then err no_text else ok raw_text

-- One candidate as the prompt shows it.
pub record Candidate (S : Type 0) : Type 0 where
  pub chunk_id : Str
  pub title : Option Str
  pub section_path : List Str
  pub contextual_text : Str
  pub chunk_text : Str
  pub retrieval_score : Option S

-- `respond` renders the prompt, asks the model and reads `output_text` (`none`: it is no string);
-- `ratio a b` is the float `a / b`.
pub record SemanticReranker (S : Type 0) : Type 0 where
  pub respond :
      (query : Str) (candidates : List (Candidate S)) (result_limit : ℕ)
      → Result RerankError (Option Str)
  pub loads : Loads
  pub ratio : ℕ → ℕ → S
  pub max_candidate_characters : ℕ

module _ {S : Type 0} where
  abbrev pub ids : List (ContextualChunk S) → List Str
  ids chunks = map (λ (c : ContextualChunk S). c.id) chunks

  candidate : ℕ → ContextualChunk S → Candidate S
  candidate max_characters chunk =
      let contextual_budget = max_characters * 2 / 3 in
      record {
        chunk_id = chunk.id;
        title = chunk.title;
        section_path = chunk.section_path;
        contextual_text = take contextual_budget chunk.contextual_text;
        chunk_text = take (max_characters - contextual_budget) chunk.chunk_text;
        retrieval_score = chunk.relevance_score;
      }

  -- {chunk.id: chunk for chunk in candidates}
  index_by_id :
      Dict Str (ContextualChunk S) → List (ContextualChunk S) → Dict Str (ContextualChunk S)
  unfolding put
  index_by_id by_id [] = by_id
  index_by_id by_id (chunk ∷ rest) = index_by_id (put by_id chunk.id chunk) rest

  -- [by_id[chunk_id] for chunk_id in ordered_ids]
  look_up_all :
      Dict Str (ContextualChunk S) → List Str → Result RerankError (List (ContextualChunk S))
  unfolding get
  look_up_all by_id [] = ok []
  look_up_all by_id (id ∷ rest) = elim (get by_id id) [
    | none ↦ err unknown_chunk_id
    | some chunk ↦ do more ← look_up_all by_id rest; ok (chunk ∷ more)
  ]

  -- The scores fall from 1 by even steps.
  scored :
      (ℕ → ℕ → S) → (denominator rank : ℕ) → List (ContextualChunk S) → List (ContextualChunk S)
  scored ratio denominator rank [] = []
  scored ratio denominator rank (chunk ∷ rest) =
      record chunk { rerank_score = some (ratio (denominator - rank) denominator) }
      ∷ scored ratio denominator (rank + 1) rest

  pub ordered_ids : Loads → Str → List (ContextualChunk S) → Result RerankError (List Str)
  unfolding json_object chunk_ids_of some_strings
  ordered_ids loads raw_text candidates = do
    text ← json_object raw_text
    listed ← chunk_ids_of (loads text)
    chunk_ids ← some_strings listed
    require (is_unique chunk_ids) not_unique
    require (all (contains (ids candidates)) chunk_ids) unknown_chunk_id
    ok chunk_ids

  -- The candidates that were named, as they were named, and the others behind them.
  reordered : List (ContextualChunk S) → List Str → Result RerankError (List (ContextualChunk S))
  unfolding look_up_all index_by_id
  reordered candidates chunk_ids = do
    named ← look_up_all (index_by_id [] candidates) chunk_ids
    ok (named ++ keep (λ c. not (contains chunk_ids c.id)) candidates)

  rerank_candidates :
      SemanticReranker S
      → List (ContextualChunk S)
      → Str
      → ℕ
      → Result RerankError (List (ContextualChunk S))
  unfolding ordered_ids reordered scored text_of candidate
  rerank_candidates model candidates query limit = do
    answer ←
        model.respond query (map (candidate model.max_candidate_characters) candidates)
          (min limit (length candidates))
    raw_text ← text_of answer
    chunk_ids ← ordered_ids model.loads raw_text candidates
    ordered ← reordered candidates chunk_ids
    let selected = take limit ordered
    ok (scored model.ratio (max 1 (length selected)) 0 selected)

  unfoldable pub rerank :
      SemanticReranker S
      → (chunks : List (ContextualChunk S)) (query : Str) (limit : ℕ)
      → Result RerankError (List (ContextualChunk S))
  unfolding rerank_candidates strip
  rerank model chunks query limit = do
    let normalized_query = strip query
    require (not (is_empty normalized_query)) empty_query
    require (leb 1 limit) bad_limit
    if is_empty chunks then ok [] else rerank_candidates model chunks normalized_query limit
