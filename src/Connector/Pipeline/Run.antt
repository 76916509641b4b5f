-- ===== src/Connector/Pipeline/Run.antt =====
-- `run_scope` of backend/bothesis/connector/pipeline.py. The source adapter, the index sink and the
-- chunker are parameters that change a world `W`.
pub mod Accounting
pub mod Reported
pub mod Allowed
pub mod Sink
use Prim.Native.Nat.{zero, suc}
use bo_thesis.Connector.Pipeline.Checks.{
  PipelineFailure, failure, deduplicate_changes, validated_chunks, checked_item,
}
use bo_thesis.Base.Dict.{Dict, put, remove}
use bo_thesis.Base.Result.{Result, ok, err}
use bo_thesis.Base.Effect.{Effect, pure, raise, lift, attempt, ◌>>=◌, ◌>>◌, continue}
use bo_thesis.Base.{
  ℕ, ◌+◌, Bool, true, false, not, ◌&&◌, ◌||◌, Option, none, some, List, [], ◌∷◌, ◌++◌, map, Str,
  codes, is_empty, strip, length, take, drop, keep, contains, ltb, nat_beq, list_beq, if◌then◌else◌,
  list_eq, nat_eq,
}
use bo_thesis.Connector.{
  ChangeType, created, updated, deleted, DocumentKind, image, AnyItem, ItemChange, Chunk, Raised,
}

-- What an index sink's `write` returns: a Python `int`.
pub data Written : Type 0 where
  written : ℕ → Written
  negative : Written

pub record Externals (W Checkpoint : Type 0) : Type 0 where
  pub source : Str
  pub test_connection : Effect Raised W Bool
  pub discover_changes : Checkpoint → Effect Raised W (List ItemChange)
  pub fetch_hierarchy : Effect Raised W (List AnyItem)
  pub fetch_item : Str → Effect Raised W AnyItem
  pub fetch_chunks : AnyItem → Effect Raised W (Option (List Chunk))
  pub next_checkpoint : W → Checkpoint
  pub chunk_item : AnyItem → Result Raised (List Chunk)
  pub write_item : AnyItem → Effect Raised W Unit
  pub write : AnyItem → List Chunk → Effect Raised W Written
  pub soft_delete_item : Str → Effect Raised W Unit

pub record Config : Type 0 where
  pub fetch_concurrency : ℕ
  pub continue_on_error : Bool
  pub fetch_hierarchy : Bool

-- The variables of `run_scope` that its loops change.
pub record Tally : Type 0 where
  pub failures : List PipelineFailure
  pub deleted_items : ℕ
  pub replaced_items : ℕ
  pub processed_items : ℕ
  pub written_chunks : ℕ

abbrev pub fail : Tally → PipelineFailure → Tally
fail t f = record t { failures = t.failures ++ f ∷ [] }

pub record PipelineResult (Checkpoint : Type 0) : Type 0 where
  pub checkpoint : Checkpoint
  pub checkpoint_advanced : Bool
  pub discovered_changes : ℕ
  pub hierarchy : List AnyItem
  pub tally : Tally

-- The outcome of a run: its result, `ConnectorPipelineError` with the result, or an exception from
-- before the loops.
pub data Outcome (Checkpoint : Type 0) : Type 0 where
  returned : PipelineResult Checkpoint → Outcome Checkpoint
  failed : PipelineResult Checkpoint → Outcome Checkpoint
  raised : Raised → Outcome Checkpoint

unfoldable pub finish_run :
    {Checkpoint : Type 0}
    → (continue_on_error : Bool) → PipelineResult Checkpoint
    → Outcome Checkpoint
finish_run continue_on_error result =
    if not (is_empty result.tally.failures) && not continue_on_error
    then failed result
    else returned result

-- An order of texts by their code points, and of items by depth and then by id.
unfoldable pub text_ltb : Str → Str → Bool
text_ltb s [] = false
text_ltb [] (d ∷ t) = true
text_ltb (c ∷ s) (d ∷ t) = ltb c d || (nat_beq c d && text_ltb s t)

unfoldable pub above : AnyItem → AnyItem → Bool
unfolding text_ltb
above a b = ltb a.depth b.depth || (nat_beq a.depth b.depth && text_ltb a.id b.id)

unfoldable pub insert_item : AnyItem → List AnyItem → List AnyItem
insert_item a [] = a ∷ []
insert_item a (b ∷ rest) =
    let later = insert_item a rest in if above b a then b ∷ later else a ∷ b ∷ rest

unfoldable pub parents_first : List AnyItem → List AnyItem
parents_first [] = []
parents_first (a ∷ rest) = insert_item a (parents_first rest)

-- range(0, len(xs), n) with the slices that it cuts; `length xs` rounds are enough where 0 < n.
unfoldable pub batches {ℓ} : {A : Type ℓ} → (rounds n : ℕ) → List A → List (List A)
batches zero n xs = []
batches (suc rounds) n [] = []
batches (suc rounds) n (x ∷ xs) = take n (x ∷ xs) ∷ batches rounds n (drop n (x ∷ xs))

unfoldable pub is_deleted : ChangeType → Bool
is_deleted deleted = true
is_deleted _ = false

module _ {W Checkpoint : Type 0} (x : Externals W Checkpoint) (config : Config) where
  unfoldable pub write_items : List AnyItem → Effect Raised W Unit
  write_items [] = pure tt
  write_items (item ∷ rest) = do x.write_item item; write_items rest

  -- The `try` block about the hierarchy, entered with no failure.
  unfoldable pub hierarchy_of :
      Result Raised (List AnyItem) → W → (List AnyItem × List PipelineFailure) × W
  unfolding write_items parents_first failure
  hierarchy_of (err e) w = (([], failure (codes "<scope>") (codes "hierarchy") e ∷ []), w)
  hierarchy_of (ok items) w =
      let (r, w') = write_items (parents_first items) w in
      (
        elim r [
          | ok _ ↦ (items, [])
          | err e ↦ (items, failure (codes "<scope>") (codes "hierarchy") e ∷ [])
        ],
        w',
      )

  unfoldable pub write_hierarchy : W → (List AnyItem × List PipelineFailure) × W
  unfolding hierarchy_of
  write_hierarchy w =
      if config.fetch_hierarchy
      then (let (r, w') = x.fetch_hierarchy w in hierarchy_of r w')
      else (([], []), w)

  unfoldable pub note_delete : Str → Tally → Result Raised Unit → Tally
  unfolding failure
  note_delete item_id t (ok _) = record t { deleted_items = t.deleted_items + 1 }
  note_delete item_id t (err e) = fail t (failure item_id (codes "delete") e)

  unfoldable pub delete_all : List ItemChange → Tally → W → Tally × W
  unfolding note_delete
  delete_all [] t w = (t, w)
  delete_all (change ∷ rest) t w =
      let (r, w') = x.soft_delete_item change.item_id w in
      delete_all rest (note_delete change.item_id t r) w'

  unfoldable pub load_item : ItemChange → Effect Raised W AnyItem
  unfolding checked_item
  load_item change = do
    item ← elim change.item [ none ↦ x.fetch_item change.item_id | some item ↦ pure item ]
    lift (checked_item x.source change.item_id item)

  -- asyncio.gather(..., return_exceptions=True), in the order of the changes
  unfoldable pub load_all : List ItemChange → W → List (ItemChange × Result Raised AnyItem) × W
  unfolding load_item
  load_all [] w = ([], w)
  load_all (change ∷ rest) w =
      let (r, w1) = load_item change w in
      let (more, w2) = load_all rest w1 in ((change, r) ∷ more, w2)

  unfoldable pub chunks_for : AnyItem → Effect Raised W (List Chunk)
  unfolding validated_chunks
  chunks_for item = do
    found ← x.fetch_chunks item
    resolved ← elim found [ none ↦ lift (x.chunk_item item) | some chunks ↦ pure chunks ]
    lift (validated_chunks item resolved)

  unfoldable pub write_count : Written → Effect Raised W ℕ
  write_count (written n) = pure n
  write_count negative = raise (record {
    error_type = codes "RuntimeError";
    message = codes "Index sink returned a negative write count";
  })

  unfoldable pub process_item : AnyItem → Effect Raised W ℕ
  unfolding chunks_for write_count
  process_item item = do chunks ← chunks_for item; count ← x.write item chunks; write_count count

  unfoldable pub note_process : Str → Tally → Result Raised ℕ → Tally
  unfolding failure
  note_process item_id t (err e) = fail t (failure item_id (codes "process") e)
  note_process item_id t (ok count) = record t {
    written_chunks = t.written_chunks + count;
    replaced_items = t.replaced_items + 1;
    processed_items = t.processed_items + 1;
  }

  unfoldable pub process_one : Str → Result Raised AnyItem → Tally → W → Tally × W
  unfolding failure process_item note_process
  process_one item_id (err e) t w = (fail t (failure item_id (codes "fetch") e), w)
  process_one item_id (ok item) t w =
      let (r, w') = process_item item w in (note_process item_id t r, w')

  unfoldable pub process_loaded : List (ItemChange × Result Raised AnyItem) → Tally → W → Tally × W
  unfolding process_one
  process_loaded [] t w = (t, w)
  process_loaded ((change, outcome) ∷ rest) t w =
      let (t', w') = process_one change.item_id outcome t w in process_loaded rest t' w'

  unfoldable pub process_batches : List (List ItemChange) → Tally → W → Tally × W
  unfolding load_all process_loaded
  process_batches [] t w = (t, w)
  process_batches (batch ∷ rest) t w =
      let (loaded, w1) = load_all batch w in
      let (t', w2) = process_loaded loaded t w1 in process_batches rest t' w2

  abbrev removed : List ItemChange → List ItemChange
  removed = keep (λ c. is_deleted c.type)

  abbrev changed : List ItemChange → List ItemChange
  changed = keep (λ c. not (is_deleted c.type))

  -- Everything behind the discovery: the hierarchy, the deletions, and then the batches.
  unfoldable pub process_changes : List ItemChange → W → (List AnyItem × Tally) × W
  unfolding write_hierarchy delete_all process_batches batches is_deleted
  process_changes changes w =
      let (found, w1) = write_hierarchy w in
      let begun : Tally = record {
        failures = found.1;
        deleted_items = 0;
        replaced_items = 0;
        processed_items = 0;
        written_chunks = 0;
      } in
      let (after_deletes, w2) = delete_all (removed changes) begun w1 in
      let to_load = changed changes in
      let (t, w3) =
        process_batches (batches (length to_load) config.fetch_concurrency to_load) after_deletes
          w2 in
      ((found.0, t), w3)

  unfoldable pub result_of : Checkpoint → ℕ → List AnyItem × Tally → W → PipelineResult Checkpoint
  result_of checkpoint discovered (hierarchy, t) w =
      let advanced = is_empty t.failures in
      record {
        checkpoint = if advanced then x.next_checkpoint w else checkpoint;
        checkpoint_advanced = advanced;
        discovered_changes = discovered;
        hierarchy = hierarchy;
        tally = t;
      }

  unfoldable pub run_changes :
      Checkpoint → Result Raised (List ItemChange) → W → Outcome Checkpoint × W
  unfolding deduplicate_changes process_changes result_of finish_run
  run_changes checkpoint (err e) w = (raised e, w)
  run_changes checkpoint (ok discovered) w =
      let changes = deduplicate_changes discovered in
      let (done, w') = process_changes changes w in
      (finish_run config.continue_on_error (result_of checkpoint (length changes) done w'), w')

  unfoldable pub connection_error : Raised
  connection_error = record {
    error_type = codes "ConnectionError";
    message = codes "Connector is unavailable";
  }

  unfoldable pub check_connection : Bool → Effect Raised W Unit
  unfolding connection_error
  check_connection false = pure tt
  check_connection true = do
    connected ← x.test_connection
    if connected then pure tt else raise connection_error

  unfoldable pub discovery :
      Checkpoint → (test_connection : Bool) → Effect Raised W (List ItemChange)
  unfolding check_connection
  discovery checkpoint test = do check_connection test; x.discover_changes checkpoint

  unfoldable pub run_scope : Checkpoint → (test_connection : Bool) → W → Outcome Checkpoint × W
  unfolding discovery run_changes
  run_scope checkpoint test w =
      let (r, w') = discovery checkpoint test w in run_changes checkpoint r w'
