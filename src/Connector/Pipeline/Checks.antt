-- ===== src/Connector/Pipeline/Checks.antt =====
-- Failure reports, the changes of one item, and the checks on loaded items and their chunks:
-- backend/bothesis/connector/pipeline.py.
pub mod Dedup
pub mod Chunks
use bo_thesis.Base.Dict.{Dict, put, remove}
use bo_thesis.Base.Result.{Result, ok, err}
use bo_thesis.Base.Effect.{Effect, pure, raise, lift, attempt, ◌>>=◌, ◌>>◌, continue}
use bo_thesis.Base.{
  ℕ, ◌+◌, Bool, true, false, not, ◌&&◌, ◌||◌, Option, none, some, List, [], ◌∷◌, ◌++◌, map, Str,
  codes, is_empty, strip, length, take, drop, keep, contains, ltb, nat_beq, list_beq, if◌then◌else◌,
  list_eq, nat_eq,
}
use bo_thesis.Connector.{
  ChangeType, created, updated, deleted, DocumentKind, image, AnyItem, ItemChange, Chunk, Raised,
}

pub record PipelineFailure : Type 0 where
  pub item_id : Str
  pub operation : Str
  pub error_type : Str
  pub message : Str

unfoldable pub failure : Str → Str → Raised → PipelineFailure
failure item_id operation exc =
    let message = strip exc.message in
    let short = if ltb 500 (length message) then take 497 message ++ codes "..." else message in
    record {
      item_id = item_id;
      operation = operation;
      error_type = exc.error_type;
      message = if is_empty short then exc.error_type else short;
    }

-- by_item_id, after the loop of `_deduplicate_changes`
unfoldable pub by_item_id : Dict Str ItemChange → List ItemChange → Dict Str ItemChange
by_item_id d [] = d
by_item_id d (change ∷ rest) = by_item_id (put (remove d change.item_id) change.item_id change) rest

unfoldable pub deduplicate_changes : List ItemChange → List ItemChange
unfolding by_item_id
deduplicate_changes changes = map (λ (p : Str × ItemChange). p.1) (by_item_id [] changes)

unfoldable pub value_error : Str → Raised
value_error message = record { error_type = codes "ValueError"; message = message }

-- The checks on a chunk and on those before it; the messages of the source name the ids as well.
unfoldable pub check_chunks :
    Str → (seen_ids : List Str) → (seen_indexes : List ℕ) → List Chunk → Result Raised Unit
unfolding value_error
check_chunks item_id seen_ids seen_indexes [] = ok tt
check_chunks item_id seen_ids seen_indexes (chunk ∷ rest) =
    let later =
      check_chunks item_id (chunk.id ∷ seen_ids) (chunk.chunk_index ∷ seen_indexes) rest in
    if not (list_beq chunk.item_id item_id)
    then err (value_error (codes "Chunk belongs to another item"))
    else if contains seen_ids chunk.id || contains seen_indexes chunk.chunk_index
    then err (value_error (codes "Document item has duplicate chunks"))
    else later

abbrev pub is_image : Option DocumentKind → Bool
is_image (some image) = true
is_image _ = false

-- The resolved chunks, if they may be written for the item.
unfoldable pub validated_chunks : AnyItem → List Chunk → Result Raised (List Chunk)
unfolding value_error check_chunks
validated_chunks item [] =
    if is_image item.document_kind
    then ok []
    else err (value_error (codes "Document item has no chunks"))
validated_chunks item (chunk ∷ rest) = elim (check_chunks item.id [] [] (chunk ∷ rest)) [
  | ok _ ↦ ok (chunk ∷ rest)
  | err e ↦ err e
]

-- The checks on an item that was loaded for a change.
unfoldable pub checked_item : Str → Str → AnyItem → Result Raised AnyItem
unfolding value_error
checked_item source item_id item =
    if not (list_beq item.id item_id)
    then err (value_error (codes "Connector returned another item"))
    else if not (list_beq item.provider source)
    then err (value_error (codes "Connector source returned another provider"))
    else elim item.document_kind [
      | none ↦ err (value_error (codes "Connector change did not produce a DocumentItem"))
      | some kind ↦ ok item
    ]
