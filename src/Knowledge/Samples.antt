-- ===== src/Knowledge/Samples.antt =====
-- Sample chunks, an index and a model for the tests.

use bo_thesis.Base.Json.{Loads, object, field, end, array, cons, nil, string}
use bo_thesis.Base.Result.{ok}
use bo_thesis.Base.Sort.{WeakOrder}
use bo_thesis.Base.{
  ℕ, ◌≡◌, true, false, Option, none, some, [], ◌∷◌, Str, codes, ltb, arith, list_eq, nat_eq,
  pair_eq,
}
use bo_thesis.Knowledge.{ContextualChunk}
use bo_thesis.Knowledge.Reranker.{SemanticReranker}
use bo_thesis.Knowledge.Retriever.{Retriever, Index}

pub ltb_asym : (a b : ℕ) → ltb a b ≡ true → ltb b a ≡ false
ltb_asym a b h = ground arith

pub not-ltb_trans : (a b c : ℕ) → ltb a b ≡ false → ltb b c ≡ false → ltb a c ≡ false
not-ltb_trans a b c h k = ground arith

abbrev pub by_size : WeakOrder ℕ
by_size = record { lt = ltb; lt_asym = ltb_asym; not-lt_trans = not-ltb_trans }

abbrev pub chunk : Str → Str → Option ℕ → ContextualChunk ℕ
chunk id collection score = record {
  id = id;
  item_id = codes "item";
  chunk_text = codes "text";
  contextual_text = codes "context";
  section_path = [];
  title = none;
  collection_item_id = some collection;
  source = record { provider = codes "file"; url = none };
  citation = record { anchor = none; page_start = some 3; page_end = none };
  relevance_score = score;
  rerank_score = none;
}

abbrev pub low : ContextualChunk ℕ
low = chunk (codes "a") (codes "c1") (some 2)

abbrev pub high : ContextualChunk ℕ
high = chunk (codes "b") (codes "c1") (some 7)

abbrev pub foreign : ContextualChunk ℕ
foreign = chunk (codes "z") (codes "c2") (some 9)

abbrev pub library : Index ℕ
library query limit tenant collections = ok (low ∷ foreign ∷ high ∷ [])

abbrev pub retriever : Retriever ℕ
retriever = record {
  order = by_size;
  neg_inf = 0;
  index = library;
  reranker = none;
  candidate_count = 20;
  reranking_enabled = true;
  sha256_hex = λ text. codes "0123456789abcdef";
}

-- The model answers with the lower chunk first.
abbrev pub answer : Loads
answer text = some (object (field (codes "chunk_ids") (array (cons (string (codes "a")) nil)) end))

abbrev pub model : SemanticReranker ℕ
model = record {
  respond = λ query candidates limit. ok (some (codes "{}"));
  loads = answer;
  ratio = λ a b. a;
  max_candidate_characters = 2400;
}
