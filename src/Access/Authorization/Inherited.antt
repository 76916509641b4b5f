-- ===== src/Access/Authorization/Inherited.antt =====
-- `permissions_for_item` of authorization.py, and a description of inherited access without queries.

use Prim.{absurd}
use bo_thesis.Base.{
  ℕ, zero, suc, ◌≤◌, ◌<◌, ◌≡◌, ◌↔◌, ◌⊎◌, inl, inr, refl, true, false, ◌&&◌, ◌||◌, some, List, Str,
  Member, Member-keep, Member-keep_cases, Member-append_left, Member-if, Member-append_right,
  Member-append_cases, Member-gather, Member-gather_cases, gather, arith,
}
use bo_thesis.Access.{Item, Database, AuthContext}
use bo_thesis.Access.Authorization.{
  names, is_live, climb_from, climb, live_items, ancestry, granted_on, permissions_in,
  permissions_for_item,
}
use bo_thesis.Access.Authorization.Grants.{IsGranted, granted_on_iff}

-- Access to `ancestor` flows down to an Item: it is that Item, or it reaches the parent of an Item
-- that did not end inheritance. Parents are live Items of the tenant.
pub data Reaches (db : Database) (tenant : ℕ) (ancestor : Item) : Item → Type 0 where
  itself : Reaches db tenant ancestor ancestor
  above :
      (item parent : Item)
      → item.inherit_access ≡ true
      → names item.parent_item_id parent.id ≡ true
      → Member parent db.items
      → is_live tenant parent ≡ true
      → Reaches db tenant ancestor parent
      → Reaches db tenant ancestor item

-- A level for every Item, above the level of its parent, and none above `depth`: the tree has no
-- cycle.
pub record IsTree (db : Database) (depth : ℕ) : Type 0 where
  pub level : Item → ℕ
  pub level-le : (item : Item) → Member item db.items → level item ≤ depth
  pub level-parent :
      (item parent : Item)
      → Member item db.items
      → Member parent db.items
      → names item.parent_item_id parent.id ≡ true
      → level parent < level item

module _ (db : Database) (tenant : ℕ) where
  climb_from-eq :
      (item parent : Item)
      → Member parent (climb_from db tenant false item)
      → (item.inherit_access ≡ true)
        × (names item.parent_item_id parent.id ≡ true)
        × Member parent db.items
        × (is_live tenant parent ≡ true)
  climb_from-eq item parent m =
      let (inherits, kept) = Member-if parent (item.inherit_access || false) _ m in
      let (stored, h) =
        Member-keep_cases parent (λ p. names item.parent_item_id p.id && is_live tenant p) db.items
          kept in
      (ground (arith, inherits), ground (arith, h), stored, ground (arith, h))

  climb_from-intro :
      (item parent : Item)
      → item.inherit_access ≡ true
      → names item.parent_item_id parent.id ≡ true
      → Member parent db.items
      → is_live tenant parent ≡ true
      → Member parent (climb_from db tenant false item)
  climb_from-intro item parent inherits named stored live =
      rw inherits (Member-keep parent _ db.items stored (ground (arith, named, live)))

  climb-Reaches :
      (depth : ℕ) (rows : List Item) (ancestor : Item)
      → Member ancestor (climb db depth tenant false rows)
      → (item : Item) × Member item rows × Reaches db tenant ancestor item
  climb-Reaches zero rows ancestor m = (ancestor, m, itself)
  climb-Reaches (suc depth) rows ancestor m = elim (Member-append_cases ancestor rows _ m) [
    | inl here ↦ (ancestor, here, itself)
    | inr higher ↦
        let (parent, k, reaches) =
          climb-Reaches depth (gather (climb_from db tenant false) rows) ancestor higher in
        let (item, row, up) = Member-gather_cases (climb_from db tenant false) parent rows k in
        let (inherits, named, stored, live) = climb_from-eq item parent up in
        (item, row, above item parent inherits named stored live reaches)
  ]

  Reaches-climb :
      {deepest : ℕ} (t : IsTree db deepest)
      → (depth : ℕ) (rows : List Item) (ancestor item : Item) → t.level item ≤ depth
      → Member item db.items
      → Member item rows
      → Reaches db tenant ancestor item
      → Member ancestor (climb db depth tenant false rows)
  Reaches-climb t zero rows ancestor _ le known m itself = m
  Reaches-climb t zero rows ancestor _ le known m
        (above item parent inherits named stored live reaches) =
      absurd (omega (arith, le, t.level-parent item parent known stored named))
  Reaches-climb t (suc depth) rows ancestor _ le known m itself =
      Member-append_left ancestor rows _ m
  Reaches-climb t (suc depth) rows ancestor _ le known m
        (above item parent inherits named stored live reaches) =
      Member-append_right ancestor rows _ (
        Reaches-climb t depth (gather (climb_from db tenant false) rows) ancestor parent
          (omega (arith, le, t.level-parent item parent known stored named)) stored
          (Member-gather (climb_from db tenant false) item parent rows m
            (climb_from-intro item parent inherits named stored live))
          reaches)

-- What gives a permission on an Item: the actor holds it in the whole tenant, or a grant does, on the
-- Item itself or on one that its access flows from.
abbrev pub IsPermitted : Database → AuthContext → ℕ → ℕ → Str → Type 0
IsPermitted db access tenant item_id code =
    Member code access.permission_codes
    ⊎ ((item : Item) × Member item (live_items db tenant item_id)
        × (ancestor : Item) × Reaches db tenant ancestor item
        × IsGranted db access ancestor.id code)

module _ (db : Database) (depth : ℕ) (access : AuthContext) (tenant item_id : ℕ) (code : Str) where
  permissions_in→IsPermitted :
      Member code (permissions_in db depth tenant access item_id)
      → IsPermitted db access tenant item_id code
  unfolding permissions_in ancestry
  permissions_in→IsPermitted m = elim (Member-append_cases code access.permission_codes _ m) [
    | inl wide ↦ inl wide
    | inr granted ↦
        let (ancestor, reached, g) =
          Member-gather_cases (λ (item : Item). granted_on db access item.id) code _ granted in
        let (item, found, reaches) =
          climb-Reaches db tenant depth (live_items db tenant item_id) ancestor reached in
        inr (item, found, ancestor, reaches, (granted_on_iff db access ancestor.id code).0 g)
  ]

  IsPermitted→permissions_in :
      IsTree db depth
      → IsPermitted db access tenant item_id code
      → Member code (permissions_in db depth tenant access item_id)
  unfolding permissions_in ancestry
  IsPermitted→permissions_in t (inl wide) = Member-append_left code access.permission_codes _ wide
  IsPermitted→permissions_in t (inr (item, found, ancestor, reaches, g)) =
      Member-append_right code access.permission_codes _ (
        Member-gather (λ (item : Item). granted_on db access item.id) ancestor code _
          (Reaches-climb db tenant t depth (live_items db tenant item_id) ancestor item
            (t.level-le item (Member-keep_cases item _ db.items found).0)
            (Member-keep_cases item _ db.items found).0 found reaches)
          ((granted_on_iff db access ancestor.id code).1 g))

  permissions_for_item-eq :
      access.tenant_id ≡ some tenant
      → permissions_for_item db depth access item_id ≡ permissions_in db depth tenant access item_id
  unfolding permissions_for_item
  permissions_for_item-eq scoped = rw scoped refl

  -- In a tree of Items that is not deeper than `depth`, an actor of a tenant holds a permission on an
  -- Item exactly when it is held in the whole tenant, or by a live grant on that Item or on an
  -- ancestor that no Item in between cut off.
  pub permissions_for_item_iff :
      IsTree db depth
      → access.tenant_id ≡ some tenant
      → Member code (permissions_for_item db depth access item_id)
        ↔ IsPermitted db access tenant item_id code
  permissions_for_item_iff t scoped =
      rw (permissions_for_item-eq scoped) (permissions_in→IsPermitted, IsPermitted→permissions_in t)
