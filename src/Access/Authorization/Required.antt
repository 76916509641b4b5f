-- ===== src/Access/Authorization/Required.antt =====
-- What `require_item` answers.
use bo_thesis.Base.Result.{Result, ok, err}
use mathlib.Core.Path.{subst}
use bo_thesis.Base.{
  ℕ, ◌≡◌, ◌⊎◌, inl, inr, refl, sym, true, false, ◌&&◌, some, List, [], ◌∷◌, Str, Member,
  Member-keep_cases, contains, contains→Member, Member→contains, nat_beq, arith, Bool-cases,
  list_eq, nat_eq,
}
use bo_thesis.Access.{
  Item, Database, AuthContext, AccessError, unauthorized, not_found, unavailable, collection_read,
}
use bo_thesis.Access.Authorization.{
  is_live, live_items, permissions_for_item, require_row, require_item,
}
use bo_thesis.Access.Authorization.Inherited.{IsTree, IsPermitted, permissions_for_item_iff}

-- What an answer says of the actor: the Item, if it is a live one of the tenant that the actor may
-- read and use; a refusal, if it may be read only; else that there is none, which is also said of an
-- Item that may not be read.
abbrev pub IsAnswer : Database → AuthContext → ℕ → ℕ → Str → Result AccessError Item → Type 0
IsAnswer db access tenant item_id permission (ok item) =
    Member item db.items
    × (item.id ≡ item_id)
    × (is_live tenant item ≡ true)
    × IsPermitted db access tenant item_id collection_read
    × IsPermitted db access tenant item_id permission
IsAnswer db access tenant item_id permission (err unauthorized) =
    IsPermitted db access tenant item_id collection_read
    × ¬ IsPermitted db access tenant item_id permission
IsAnswer db access tenant item_id permission (err not_found) =
    (live_items db tenant item_id ≡ []) ⊎ ¬ IsPermitted db access tenant item_id collection_read
IsAnswer db access tenant item_id permission (err unavailable) = ⊥

module _ (db : Database) (depth : ℕ) (access : AuthContext) (tenant item_id : ℕ)
    (t : IsTree db depth) (scoped : access.tenant_id ≡ some tenant) where
  held :
      (code : Str) (id : ℕ)
      → id ≡ item_id
      → contains (permissions_for_item db depth access id) code ≡ true
      → IsPermitted db access tenant item_id code
  held code id same h = (permissions_for_item_iff db depth access tenant item_id code t scoped).0 (
      contains→Member _ code
        (subst (λ i. contains (permissions_for_item db depth access i) code ≡ true) same h))

  not_held :
      (code : Str) (id : ℕ)
      → id ≡ item_id
      → contains (permissions_for_item db depth access id) code ≡ false
      → ¬ IsPermitted db access tenant item_id code
  not_held code id same h p =
      let m =
        Member→contains _ code
          ((permissions_for_item_iff db depth access tenant item_id code t scoped).1 p) in
      cc

  require_row-IsAnswer :
      (permission : Str) (item : Item) (rows : List Item)
      → Member item db.items
      → item.id ≡ item_id
      → is_live tenant item ≡ true
      → IsAnswer db access tenant item_id permission
          (require_row db depth access permission (item ∷ rows))
  unfolding require_row
  require_row-IsAnswer permission item rows stored same live =
      elim (Bool-cases (contains (permissions_for_item db depth access item.id) collection_read)) [
        | inr hidden ↦ rw hidden (inr (not_held collection_read item.id same hidden))
        | inl readable ↦
            rw readable
              elim (Bool-cases
                (contains (permissions_for_item db depth access item.id) permission)) [
                  | inr refused ↦ rw refused (
                    held collection_read item.id same readable,
                    not_held permission item.id same refused,
                  )
                  | inl allowed ↦ rw allowed (
                    stored,
                    same,
                    live,
                    held collection_read item.id same readable,
                    held permission item.id same allowed,
                  )
                ]
      ]

  require_rows-IsAnswer :
      (permission : Str) (rows : List Item)
      → live_items db tenant item_id ≡ rows
      → IsAnswer db access tenant item_id permission (require_row db depth access permission rows)
  unfolding require_row
  require_rows-IsAnswer permission [] e = inl e
  require_rows-IsAnswer permission (item ∷ rows) e =
      let (stored, h) =
        Member-keep_cases item (λ item. nat_beq item.id item_id && is_live tenant item) db.items
          (subst (λ t. Member item t) (sym e) (inl refl)) in
      require_row-IsAnswer permission item rows stored (ground (arith, h)) (ground (arith, h))

  require_item-eq :
      (permission : Str)
      → require_item db depth access item_id permission
        ≡ require_row db depth access permission (live_items db tenant item_id)
  unfolding require_item
  require_item-eq permission = rw scoped refl

  -- In a tree of Items that is not deeper than `depth`, `require_item` gives an actor of a tenant the
  -- live Item that was asked for, if both reading and the permission are held on it; refuses, if only
  -- reading is; and answers that there is no such Item, if there is none or it may not be read.
  pub require_item-IsAnswer :
      (permission : Str)
      → IsAnswer db access tenant item_id permission
          (require_item db depth access item_id permission)
  require_item-IsAnswer permission =
      rw (require_item-eq permission) (require_rows-IsAnswer permission _ refl)
