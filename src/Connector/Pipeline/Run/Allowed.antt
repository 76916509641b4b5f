-- ===== src/Connector/Pipeline/Run/Allowed.antt =====
-- The calls of `run_scope` (backend/bothesis/connector/pipeline.py) about one item, and those that the
-- index sink may be asked for.

use mathlib.Core.Path.{subst}
use bo_thesis.Base.Result.{Result, ok, err}
use bo_thesis.Base.Effect.{Effect, ◌>>=◌, continue, lift, pure}
use bo_thesis.Base.{
  if◌then◌else◌, list_eq, nat_eq, ◌≡◌, ◌≢◌, ◌⊎◌, refl, sym, Bool, true, false, Option, none, some,
  List, [], ◌∷◌, Str, Member,
}
use bo_thesis.Connector.{image, AnyItem, ItemChange, Chunk, Raised}
use bo_thesis.Connector.Pipeline.Checks.{validated_chunks, checked_item}
use bo_thesis.Connector.Pipeline.Checks.Chunks.{
  AreDistinct, validated_chunks-eq-ok, checked_item-eq-ok,
}
use bo_thesis.Connector.Pipeline.Run.{
  Externals, Config, Tally, Written, written, negative, is_deleted, write_items, hierarchy_of,
  write_hierarchy, parents_first, load_item, chunks_for, write_count, process_item, process_one,
}

-- A document that was loaded for a change.
abbrev pub IsLoaded : (source : Str) → ItemChange → AnyItem → Type 0
IsLoaded source change item =
    (item.id ≡ change.item_id) × (item.provider ≡ source) × (item.document_kind ≢ none)

-- What may be written for a change: a document of the connector that it names, with chunks of its
-- own that differ in ids and positions, and with none only if it is an image.
abbrev pub MayWrite : (source : Str) → ItemChange → AnyItem → List Chunk → Type 0
MayWrite source change item chunks =
    IsLoaded source change item
    × AreDistinct item.id chunks
    × ((chunks ≢ []) ⊎ (item.document_kind ≡ some image))

abbrev pub IsRemoval : (discovered : List ItemChange) → ItemChange → Type 0
IsRemoval discovered change = Member change discovered × (is_deleted change.type ≡ true)

abbrev pub IsUpdate : (discovered : List ItemChange) → ItemChange → Type 0
IsUpdate discovered change = Member change discovered × (is_deleted change.type ≡ false)

-- What is known of a change and of what was loaded for it.
abbrev pub IsBatched :
    (source : Str) → (discovered : List ItemChange) → ItemChange × Result Raised AnyItem → Type 0
IsBatched source discovered (change, r) =
    IsUpdate discovered change × ((item : AnyItem) → r ≡ ok item → IsLoaded source change item)

module _ {W Checkpoint : Type 0} (x : Externals W Checkpoint) where
  -- A property of the world that the calls of a run keep, if they are those that are allowed for the
  -- discovered changes.
  pub record IsKept (discovered : List ItemChange) (P : W → Type 0) : Type 0 where
    pub fetch_hierarchy : (w : W) → P w → P (x.fetch_hierarchy w).1
    pub fetch_item : (id : Str) (w : W) → P w → P (x.fetch_item id w).1
    pub fetch_chunks : (item : AnyItem) (w : W) → P w → P (x.fetch_chunks item w).1
    pub write_item : (item : AnyItem) (w : W) → P w → P (x.write_item item w).1
    pub soft_delete_item :
        (change : ItemChange) (w : W)
        → Member change discovered
        → is_deleted change.type ≡ true
        → P w
        → P (x.soft_delete_item change.item_id w).1
    pub write :
        (change : ItemChange) (item : AnyItem) (chunks : List Chunk) (w : W)
        → Member change discovered
        → is_deleted change.type ≡ false
        → MayWrite x.source change item chunks
        → P w
        → P (x.write item chunks w).1

continue-kept :
    {E W A B : Type 0} (P : W → Type 0) (r : Result E A) (f : A → Effect E W B) (w : W)
    → P w
    → ((a : A) → r ≡ ok a → P (f a w).1)
    → P (continue r f w).1
continue-kept P (ok a) f w h next = next a refl
continue-kept P (err e) f w h next = h

module _ {W Checkpoint : Type 0} (x : Externals W Checkpoint) (config : Config)
    (discovered : List ItemChange) (P : W → Type 0) (k : IsKept x discovered P) where
  write_items-kept : (items : List AnyItem) (w : W) → P w → P (write_items x config items w).1
  unfolding write_items
  write_items-kept [] w h = h
  write_items-kept (item ∷ rest) w h =
      let (r, w') = x.write_item item w in
      let h' = k.write_item item w h in
      continue-kept P r (λ _. write_items x config rest) w' h' (λ _ e. write_items-kept rest w' h')

  hierarchy_of-kept :
      (r : Result Raised (List AnyItem)) (w : W) → P w → P (hierarchy_of x config r w).1
  unfolding hierarchy_of
  hierarchy_of-kept (err e) w h = h
  hierarchy_of-kept (ok items) w h = write_items-kept (parents_first items) w h

  pub write_hierarchy-kept : (w : W) → P w → P (write_hierarchy x config w).1
  unfolding write_hierarchy
  write_hierarchy-kept w h = by_test config.fetch_hierarchy
    where
      by_test :
          (b : Bool)
          → P
              (if b
                then hierarchy_of x config (x.fetch_hierarchy w).0 (x.fetch_hierarchy w).1
                else (([], []), w)).1
      by_test true =
          hierarchy_of-kept (x.fetch_hierarchy w).0 (x.fetch_hierarchy w).1 (k.fetch_hierarchy w h)
      by_test false = h

  -- What `load_item` leaves: the world, and the item if it gives one.
  abbrev IsLoad : ItemChange → Result Raised AnyItem × W → Type 0
  IsLoad change (r, w) = P w × ((item : AnyItem) → r ≡ ok item → IsLoaded x.source change item)

  checked-IsLoad :
      (change : ItemChange) (r : Result Raised AnyItem) (w : W)
      → P w
      → IsLoad change (continue r (λ item. lift (checked_item x.source change.item_id item)) w)
  checked-IsLoad change (err e) w h = (h, λ item e. cc)
  checked-IsLoad change (ok found) w h = (
    h,
    λ item e.
        let (same, id, provider, kind) = checked_item-eq-ok x.source change.item_id found item e in
        subst (IsLoaded x.source change) (sym same) (id, provider, kind),
  )

  pub load_item-IsLoad :
      (change : ItemChange) (w : W) → P w → IsLoad change (load_item x config change w)
  unfolding load_item
  load_item-IsLoad change w h = by_item change.item
    where
      by_item :
          (item : Option AnyItem)
          → IsLoad change (
              (elim item [ none ↦ x.fetch_item change.item_id | some item ↦ pure item ] >>= λ item.
              lift (checked_item x.source change.item_id item))
                w)
      by_item none =
          let (r, w') = x.fetch_item change.item_id w in
          checked-IsLoad change r w' (k.fetch_item change.item_id w h)
      by_item (some item) = checked-IsLoad change (ok item) w h

  -- What `chunks_for` leaves: the world, and the chunks that passed the checks if it gives any.
  abbrev IsResolved : AnyItem → Result Raised (List Chunk) × W → Type 0
  IsResolved item (r, w) =
      P w
      × ((chunks : List Chunk)
          → r ≡ ok chunks
          → (resolved : List Chunk) × (validated_chunks item resolved ≡ ok chunks))

  chunks_for-kept : (item : AnyItem) (w : W) → P w → IsResolved item (chunks_for x config item w)
  unfolding chunks_for
  chunks_for-kept item w h =
      let (found, w') = x.fetch_chunks item w in by_found found w' (k.fetch_chunks item w h)
    where
      by_chunks :
          (r : Result Raised (List Chunk)) (w : W)
          → P w
          → IsResolved item (continue r (λ resolved. lift (validated_chunks item resolved)) w)
      by_chunks (err e) w h = (h, λ chunks e. cc)
      by_chunks (ok resolved) w h = (h, λ chunks e. (resolved, e))

      by_found :
          (found : Result Raised (Option (List Chunk))) (w : W)
          → P w
          → IsResolved item (
              continue found
                (λ found.
                  elim found [ none ↦ lift (x.chunk_item item) | some chunks ↦ pure chunks ]
                  >>= λ resolved. lift (validated_chunks item resolved))
                w)
      by_found (err e) w h = (h, λ chunks e. cc)
      by_found (ok none) w h = by_chunks (x.chunk_item item) w h
      by_found (ok (some chunks)) w h = by_chunks (ok chunks) w h

  process_item-kept :
      (change : ItemChange) (item : AnyItem) (w : W)
      → IsUpdate discovered change
      → IsLoaded x.source change item
      → P w
      → P (process_item x config item w).1
  unfolding process_item write_count
  process_item-kept change item w u loaded h =
      let (r, w1) = chunks_for x config item w in
      let (h1, resolved) = chunks_for-kept item w h in
      continue-kept P r (λ chunks. x.write item chunks >>= λ count. write_count x config count) w1
        h1
        λ chunks e.
          let (given, checked) = resolved chunks e in
          let (same, distinct, some_or_image) = validated_chunks-eq-ok item given chunks checked in
          let h2 = k.write change item chunks w1 u.0 u.1 (loaded, distinct, some_or_image) h1 in
          let (written_r, w2) = x.write item chunks w1 in
          continue-kept P written_r (write_count x config) w2 h2 (λ count e. counted count w2 h2)
    where
      counted : (count : Written) (w : W) → P w → P (write_count x config count w).1
      counted (written n) w h = h
      counted negative w h = h

  pub process_one-kept :
      (change : ItemChange) (r : Result Raised AnyItem) (t : Tally) (w : W)
      → IsBatched x.source discovered (change, r)
      → P w
      → P (process_one x config change.item_id r t w).1
  unfolding process_one
  process_one-kept change (err e) t w b h = h
  process_one-kept change (ok item) t w b h = process_item-kept change item w b.0 (b.1 item refl) h
