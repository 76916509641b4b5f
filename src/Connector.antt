-- ===== src/Connector.antt =====
-- The source contracts of backend/bothesis/connector/protocol/: changes.py, items.py, chunks.py. A
-- record has the fields that the pipeline reads.
pub mod Pipeline
mod Tests
use bo_thesis.Base.{ℕ, Option, Str}

pub data ChangeType : Type 0 where
  created updated deleted : ChangeType

pub data DocumentKind : Type 0 where
  page pdf document image issue message email note web_page record_kind : DocumentKind

-- `document_kind` is there for a `DocumentItem`, and missing for a `CollectionItem`; `provider` is
-- `source.provider.value`, `depth` is `hierarchy.depth`.
pub record AnyItem : Type 0 where
  pub id : Str
  pub provider : Str
  pub depth : ℕ
  pub document_kind : Option DocumentKind

pub record ItemChange : Type 0 where
  pub type : ChangeType
  pub item_id : Str
  pub item : Option AnyItem

pub record Chunk : Type 0 where
  pub id : Str
  pub item_id : Str
  pub chunk_index : ℕ
  pub chunk_text : Str

-- An exception, as a failure report shows it.
pub record Raised : Type 0 where
  pub error_type : Str
  pub message : Str
