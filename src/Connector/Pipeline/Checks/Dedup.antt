-- ===== src/Connector/Pipeline/Checks/Dedup.antt =====
-- What `_deduplicate_changes` keeps.
use mathlib.Core.List.{map-append}
use bo_thesis.Base.Dict.{Dict, put, remove}
use bo_thesis.Base.{
  ◌≡◌, refl, sym, ap, ◌∙◌, true, not, List, [], ◌∷◌, ◌++◌, map, Str, keep, contains, is_unique,
  if◌then◌else◌, list_eq, nat_eq, list_beq_iff, append_assoc, append-nil, arith, Bool-cases, inl,
  inr,
}
use bo_thesis.Connector.{ItemChange}
use bo_thesis.Connector.Pipeline.Checks.{by_item_id, deduplicate_changes}

abbrev pub item_ids : List ItemChange → List Str
item_ids = map (λ (c : ItemChange). c.item_id)

-- The changes that no later change of the same item replaces, in their order.
abbrev pub last_occurrences : List ItemChange → List ItemChange
last_occurrences [] = []
last_occurrences (change ∷ rest) =
    let later = last_occurrences rest in
    if contains (item_ids rest) change.item_id then later else change ∷ later

abbrev without : List Str → Dict Str ItemChange → Dict Str ItemChange
without ids = keep (λ (p : Str × ItemChange). not (contains ids p.0))

put-remove :
    (d : Dict Str ItemChange) (k : Str) (change : ItemChange)
    → put (remove d k) k change ≡ remove d k ++ (k, change) ∷ []
unfolding put remove
put-remove [] k change = refl
put-remove ((j, old) ∷ d) k change = ground (arith, put-remove d k change)

without-append :
    (ids : List Str) (d e : Dict Str ItemChange)
    → without ids (d ++ e) ≡ without ids d ++ without ids e
without-append ids [] e = refl
without-append ids (p ∷ d) e = ground (arith, without-append ids d e)

without-remove :
    (ids : List Str) (k : Str) (d : Dict Str ItemChange)
    → without ids (remove d k) ≡ without (k ∷ ids) d
unfolding remove
without-remove ids k [] = refl
without-remove ids k ((j, old) ∷ d) =
    ground (arith, without-remove ids k d, list_beq_iff j k, list_beq_iff k j)

without-nil : (d : Dict Str ItemChange) → without [] d ≡ d
without-nil [] = refl
without-nil (p ∷ d) = ap (λ t. p ∷ t) (without-nil d)

abbrev values : Dict Str ItemChange → List ItemChange
values = map (λ (p : Str × ItemChange). p.1)

values-by_item_id :
    (d : Dict Str ItemChange) (changes : List ItemChange)
    → values (by_item_id d changes)
      ≡ values (without (item_ids changes) d) ++ last_occurrences changes
unfolding by_item_id
values-by_item_id d [] = rw without-nil (sym (append-nil (values d)))
values-by_item_id d (change ∷ rest) =
    let k = change.item_id in
    let ids = item_ids rest in
    values-by_item_id (put (remove d k) k change) rest
    ∙ rw
        (
          put-remove d k change,
          without-append ids (remove d k) ((k, change) ∷ []),
          without-remove ids k d,
          map-append,
        )
        (elim (Bool-cases (contains ids k)) [
          | inl again ↦
              rw again
                (ap (λ l. l ++ last_occurrences rest) (append-nil (values (without (k ∷ ids) d))))
          | inr last ↦
              rw last
                (append_assoc (values (without (k ∷ ids) d)) (change ∷ []) (last_occurrences rest))
        ])

contains-last_occurrences :
    (changes : List ItemChange) (k : Str)
    → contains (item_ids (last_occurrences changes)) k ≡ contains (item_ids changes) k
contains-last_occurrences [] k = refl
contains-last_occurrences (change ∷ rest) k =
    ground (arith, contains-last_occurrences rest k, list_beq_iff change.item_id k)

is_unique-last_occurrences :
    (changes : List ItemChange) → is_unique (item_ids (last_occurrences changes)) ≡ true
is_unique-last_occurrences [] = refl
is_unique-last_occurrences (change ∷ rest) =
    ground (arith, is_unique-last_occurrences rest, contains-last_occurrences rest change.item_id)

-- Of the changes of one item the last one is kept, the changes that are kept stand in the order of
-- the source, and no item has two of them.
pub deduplicate_changes_last :
    (changes : List ItemChange)
    → (deduplicate_changes changes ≡ last_occurrences changes)
      × (is_unique (item_ids (deduplicate_changes changes)) ≡ true)
unfolding deduplicate_changes
deduplicate_changes_last changes =
    let same = values-by_item_id [] changes in (same, rw same (is_unique-last_occurrences changes))
