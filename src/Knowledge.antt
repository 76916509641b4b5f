-- ===== src/Knowledge.antt =====
-- The evidence contracts of backend/bothesis/knowledge/__init__.py, with the parts of a chunk
-- (backend/bothesis/document_index/__init__.py) that retrieval reads.
pub mod ContextBuilder
pub mod Retriever
pub mod Reranker
pub mod SemanticSearch
pub mod Samples
mod Tests
use bo_thesis.Base.{ℕ, Option, List, Str}

-- The fields of `SourceIdentity` that evidence rendering reads; `provider` is its enum's value.
pub record SourceIdentity : Type 0 where
  pub provider : Str
  pub url : Option Str

-- The fields of `CitationInfo` that evidence rendering reads.
pub record CitationInfo : Type 0 where
  pub anchor : Option Str
  pub page_start : Option ℕ
  pub page_end : Option ℕ

-- `S` is the type of scores, Python's `float`.
pub record Evidence (S : Type 0) : Type 0 where
  pub id : Str
  pub item_id : Str
  pub chunk_id : Str
  pub title : Str
  pub content : Str
  pub collection_item_id : Option Str
  pub source : Option SourceIdentity
  pub citation : CitationInfo
  pub section_path : List Str
  pub contextual_text : Option Str
  pub relevance_score : Option S
  pub rerank_score : Option S

pub record EvidenceContext (S : Type 0) : Type 0 where
  pub text : Str
  pub evidence : List (Evidence S)

-- The fields of `ContextualChunk` that retrieval reads; `section_path` is that of its context.
pub record ContextualChunk (S : Type 0) : Type 0 where
  pub id : Str
  pub item_id : Str
  pub chunk_text : Str
  pub contextual_text : Str
  pub section_path : List Str
  pub title : Option Str
  pub collection_item_id : Option Str
  pub source : SourceIdentity
  pub citation : CitationInfo
  pub relevance_score : Option S
  pub rerank_score : Option S
