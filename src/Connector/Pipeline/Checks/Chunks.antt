-- ===== src/Connector/Pipeline/Checks/Chunks.antt =====
-- What reaches the index sink.
use bo_thesis.Base.Result.{Result, ok, err}
use bo_thesis.Base.{
  ℕ, ◌≡◌, ◌≢◌, ◌⊎◌, refl, true, false, Option, none, some, List, [], ◌∷◌, map, Str, All, contains,
  is_unique, list_eq, nat_eq, list_beq_iff, arith, inl, inr,
}
use bo_thesis.Connector.{DocumentKind, image, AnyItem, Chunk, Raised}
use bo_thesis.Connector.Pipeline.Checks.{check_chunks, validated_chunks, checked_item, is_image}

abbrev pub chunk_ids : List Chunk → List Str
chunk_ids = map (λ (c : Chunk). c.id)

abbrev pub indexes : List Chunk → List ℕ
indexes = map (λ (c : Chunk). c.chunk_index)

-- Chunks of one item, with different ids and different positions.
pub record AreDistinct (item_id : Str) (chunks : List Chunk) : Type 0 where
  pub owned : All (λ c. c.item_id ≡ item_id) chunks
  pub unique_ids : is_unique (chunk_ids chunks) ≡ true
  pub unique_indexes : is_unique (indexes chunks) ≡ true

-- None of the chunks has an id or a position that was seen.
abbrev AreNew : List Str → List ℕ → List Chunk → Type 0
AreNew ids places chunks =
    All (λ (c : Chunk). (contains ids c.id ≡ false) × (contains places c.chunk_index ≡ false))
      chunks

AreNew-cons :
    (ids : List Str) (places : List ℕ) (id : Str) (place : ℕ) (chunks : List Chunk)
    → AreNew (id ∷ ids) (place ∷ places) chunks
    → AreNew ids places chunks
      × (contains (chunk_ids chunks) id ≡ false)
      × (contains (indexes chunks) place ≡ false)
AreNew-cons ids places id place [] h = (tt, refl, refl)
AreNew-cons ids places id place (c ∷ cs) h =
    let (rest, no_id, no_place) = AreNew-cons ids places id place cs h.1 in
    (
      (ground (arith, h.0), rest),
      ground (arith, h.0, no_id, list_beq_iff id c.id, list_beq_iff c.id id),
      ground (arith, h.0, no_place),
    )

check_chunks_cons :
    (item_id : Str) (ids : List Str) (places : List ℕ) (c : Chunk) (cs : List Chunk)
    → check_chunks item_id ids places (c ∷ cs) ≡ ok tt
    → (c.item_id ≡ item_id)
      × (contains ids c.id ≡ false)
      × (contains places c.chunk_index ≡ false)
      × (check_chunks item_id (c.id ∷ ids) (c.chunk_index ∷ places) cs ≡ ok tt)
unfolding check_chunks
check_chunks_cons item_id ids places c cs h = ground (arith, list_beq_iff c.item_id item_id)

check_chunks-eq-ok :
    (item_id : Str) (ids : List Str) (places : List ℕ) (chunks : List Chunk)
    → check_chunks item_id ids places chunks ≡ ok tt
    → AreDistinct item_id chunks × AreNew ids places chunks
check_chunks-eq-ok item_id ids places [] h =
    (record { owned = tt; unique_ids = refl; unique_indexes = refl }, tt)
check_chunks-eq-ok item_id ids places (c ∷ cs) h =
    let (owner, new_id, new_place, later) = check_chunks_cons item_id ids places c cs h in
    let (d, new) = check_chunks-eq-ok item_id (c.id ∷ ids) (c.chunk_index ∷ places) cs later in
    let (rest, no_id, no_place) = AreNew-cons ids places c.id c.chunk_index cs new in
    (
      record {
        owned = (owner, d.owned);
        unique_ids = rw no_id d.unique_ids;
        unique_indexes = rw no_place d.unique_indexes;
      },
      ((new_id, new_place), rest),
    )

image_cases : (kind : Option DocumentKind) → (kind ≡ some image) ⊎ (is_image kind ≡ false)
image_cases none = inr refl
image_cases (some image) = inl refl
image_cases (some _) = inr refl

checked_cases :
    (r : Result Raised Unit) (chunks : List Chunk) {result : List Chunk}
    → elim r [ ok _ ↦ ok chunks | err e ↦ err e ] ≡ ok result
    → (r ≡ ok tt) × (chunks ≡ result)
checked_cases (ok _) chunks h = (refl, cc)
checked_cases (err e) chunks h = cc

-- The chunks that may be written for an item are those that were resolved. They all belong to the
-- item, no two of them have one id or one position, and only an image may have none.
pub validated_chunks-eq-ok :
    (item : AnyItem) (chunks result : List Chunk)
    → validated_chunks item chunks ≡ ok result
    → (result ≡ chunks)
      × AreDistinct item.id result
      × ((result ≢ []) ⊎ (item.document_kind ≡ some image))
unfolding validated_chunks
validated_chunks-eq-ok item [] result h = elim (image_cases item.document_kind) [
  | inl is ↦
      let same : result ≡ [] = cc (rw (is, validated_chunks) at h) in
      rw same (refl, record { owned = tt; unique_ids = refl; unique_indexes = refl }, inr is)
  | inr other ↦ cc (rw (other, validated_chunks) at h)
]
validated_chunks-eq-ok item (c ∷ cs) result h =
    let (checked, same) = checked_cases (check_chunks item.id [] [] (c ∷ cs)) (c ∷ cs) h in
    rw (← same) (refl, (check_chunks-eq-ok item.id [] [] (c ∷ cs) checked).0, inl (λ e. cc))

-- An item that passes the checks on a loaded item is the item that the change names, it is of the
-- connector's own provider, and it is a document.
pub checked_item-eq-ok :
    (source item_id : Str) (item result : AnyItem)
    → checked_item source item_id item ≡ ok result
    → (result ≡ item) × (item.id ≡ item_id) × (item.provider ≡ source) × (item.document_kind ≢ none)
unfolding checked_item
checked_item-eq-ok source item_id item result h =
    ground (arith, list_beq_iff item.id item_id, list_beq_iff item.provider source)
