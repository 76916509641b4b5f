-- ===== src/Connector/Tests.antt =====
-- A source of three changes, a sink that refuses one item, and the theorems about the pipeline at them.
use bo_thesis.Base.Dict.{put, remove}
use bo_thesis.Base.Result.{ok, err}
use bo_thesis.Base.{
  ℕ, ◌+◌, ◌≡◌, ◌≢◌, ◌⊎◌, refl, true, Option, none, some, List, [], ◌∷◌, Str, codes, length,
  is_unique, list_eq, nat_eq, list_beq, if◌then◌else◌,
}
use bo_thesis.Connector.{
  ChangeType, created, updated, deleted, DocumentKind, page, image, AnyItem, ItemChange, Chunk,
  Raised,
}
use bo_thesis.Connector.Pipeline.Checks.{deduplicate_changes, validated_chunks}
use bo_thesis.Connector.Pipeline.Checks.Chunks.{AreDistinct, validated_chunks-eq-ok}
use bo_thesis.Connector.Pipeline.Checks.Dedup.{item_ids, last_occurrences, deduplicate_changes_last}
use bo_thesis.Connector.Pipeline.Run.{
  Externals, Config, written, Outcome, returned, failed, raised, run_scope, is_deleted,
}
use bo_thesis.Connector.Pipeline.Run.Allowed.{MayWrite}
use bo_thesis.Base.{Member, false}

abbrev item : Str → AnyItem
item id = record { id = id; provider = codes "file"; depth = 0; document_kind = some page }

abbrev change : ChangeType → Str → ItemChange
change type id = record { type = type; item_id = id; item = none }

abbrev changes : List ItemChange
changes =
    change created (codes "a")
    ∷ change updated (codes "b")
    ∷ change deleted (codes "c")
    ∷ change updated (codes "a")
    ∷ []

abbrev chunk : Str → Chunk
chunk item_id = record {
  id = codes "k";
  item_id = item_id;
  chunk_index = 0;
  chunk_text = codes "text";
}

abbrev refusal : Raised
refusal = record { error_type = codes "SinkError"; message = codes "refused" }

-- The world counts the writes; the sink refuses the item "b".
abbrev externals : Externals ℕ ℕ
externals = record {
  source = codes "file";
  test_connection = λ w. (ok true, w);
  discover_changes = λ checkpoint w. (ok changes, w);
  fetch_hierarchy = λ w. (ok [], w);
  fetch_item = λ id w. (ok (item id), w);
  fetch_chunks = λ i w. (ok (some (chunk i.id ∷ [])), w);
  next_checkpoint = λ w. 9;
  chunk_item = λ i. ok [];
  write_item = λ i w. (ok tt, w);
  write = λ i chunks w.
      if list_beq i.id (codes "b") then (err refusal, w) else (ok (written (length chunks)), w + 1);
  soft_delete_item = λ id w. (ok tt, w);
}

abbrev config : Config
config = record { fetch_concurrency = 2; continue_on_error = true; fetch_hierarchy = true }

kept_ids : item_ids (deduplicate_changes changes) ≡ codes "b" ∷ codes "c" ∷ codes "a" ∷ []
unfolding deduplicate_changes put remove
kept_ids = refl

-- Of three changes one is a deletion, one is written and one fails.
abbrev Report : Outcome ℕ → Type 0
Report (returned r) =
    (r.checkpoint ≡ 4)
    × (r.tally.deleted_items ≡ 1)
    × (r.tally.processed_items ≡ 1)
    × (length r.tally.failures ≡ 1)
Report (failed r) = ⊥
Report (raised e) = ⊥

run : Report (run_scope externals config 4 true 0).0
unfolding run_scope put remove
run = (refl, refl, refl, refl)

-- A sink that refuses nothing, and a source whose checkpoint counts the writes.
abbrev agreeable : Externals ℕ ℕ
agreeable = record externals {
  write = λ i chunks w. (ok (written (length chunks)), w + 1);
  next_checkpoint = λ w. w + 5;
}

abbrev CleanReport : Outcome ℕ → Type 0
CleanReport (returned r) = (r.checkpoint ≡ 7) × (r.tally.processed_items ≡ 2)
CleanReport (failed r) = ⊥
CleanReport (raised e) = ⊥

clean_run : CleanReport (run_scope agreeable config 4 true 0).0
unfolding run_scope put remove
clean_run = (refl, refl)

deduplicate_changes_last_example :
    (deduplicate_changes changes ≡ last_occurrences changes)
    × (is_unique (item_ids (deduplicate_changes changes)) ≡ true)
deduplicate_changes_last_example = deduplicate_changes_last changes

valid_chunks :
    validated_chunks (item (codes "a")) (chunk (codes "a") ∷ []) ≡ ok (chunk (codes "a") ∷ [])
unfolding validated_chunks
valid_chunks = refl

validated_chunks-eq-ok_example :
    (◌≡◌ {A = List Chunk} (chunk (codes "a") ∷ []) (chunk (codes "a") ∷ []))
    × AreDistinct (codes "a") (chunk (codes "a") ∷ [])
    × ((◌≢◌ {A = List Chunk} (chunk (codes "a") ∷ []) [])
        ⊎ (◌≡◌ {A = Option DocumentKind} (some page) (some image)))
validated_chunks-eq-ok_example =
    validated_chunks-eq-ok (item (codes "a")) (chunk (codes "a") ∷ []) (chunk (codes "a") ∷ [])
      valid_chunks

-- What the sink is asked to write and to delete.
data SinkCall : Type 0 where
  wrote : AnyItem → List Chunk → SinkCall
  removed : Str → SinkCall

abbrev recording : Externals (List SinkCall) ℕ
recording = record {
  source = codes "file";
  test_connection = λ w. (ok true, w);
  discover_changes = λ checkpoint w. (ok changes, w);
  fetch_hierarchy = λ w. (ok [], w);
  fetch_item = λ id w. (ok (item id), w);
  fetch_chunks = λ i w. (ok (some (chunk i.id ∷ [])), w);
  next_checkpoint = λ w. 9;
  chunk_item = λ i. ok [];
  write_item = λ i w. (ok tt, w);
  write = λ i chunks w. (ok (written (length chunks)), wrote i chunks ∷ w);
  soft_delete_item = λ id w. (ok tt, removed id ∷ w);
}

abbrev IsAllowed : SinkCall → Type 0
IsAllowed (wrote i chunks) =
    (c : ItemChange) × Member c changes
    × (is_deleted c.type ≡ false)
    × MayWrite (codes "file") c i chunks
IsAllowed (removed id) =
    (c : ItemChange) × Member c changes × (is_deleted c.type ≡ true) × (id ≡ c.item_id)
