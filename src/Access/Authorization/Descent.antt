-- ===== src/Access/Authorization/Descent.antt =====
-- The recursive query of `allowed_collection_ids`: what its rounds reach from the grants.
use Prim.{absurd}
use mathlib.Core.Path.{subst}
use bo_thesis.Base.{
  ℕ, zero, suc, ◌≤◌, ◌≡◌, inl, inr, sym, Bool, true, false, ◌&&◌, Option, none, some, List, Str,
  Member, Member-keep, Member-keep_cases, Member-append_left, Member-append_right,
  Member-append_cases, Member-map, Member-map_cases, contains→Member, Member→contains, contains,
  arith, list_eq, nat_eq,
}
use bo_thesis.Access.{Item, RoleAssignment, Database, AuthContext}
use bo_thesis.Access.Authorization.{
  names, is_live, is_collection, is_active_collection, granted_on, descend, descendants,
  granted_collections,
}
use bo_thesis.Access.Authorization.Grants.{IsGranted, granted_on_iff}
use bo_thesis.Access.Authorization.Inherited.{IsTree, Reaches, itself, above}

-- What the downward search asks for: ids are different, as the schema keeps it, and parents and Items
-- with grants are Collections. The services also let a Document stand below a Document; the search
-- does not descend through one.
pub record IsSchema (db : Database) : Type 0 where
  pub unique_id : (a b : Item) → Member a db.items → Member b db.items → a.id ≡ b.id → a ≡ b
  pub collection_parent :
      (item parent : Item)
      → Member item db.items
      → Member parent db.items
      → names item.parent_item_id parent.id ≡ true
      → is_collection parent.item_type ≡ true
  pub collection_grant :
      (grant : RoleAssignment) (item : Item)
      → Member grant db.role_assignments
      → Member item db.items
      → names grant.item_id item.id ≡ true
      → is_collection item.item_type ≡ true

has_parent : (parent : Option ℕ) (reached : List ℕ) → Bool
has_parent parent reached = elim parent [ none ↦ false | some parent ↦ contains reached parent ]

names-contains :
    (parent : Option ℕ) (id : ℕ) (reached : List ℕ)
    → names parent id ≡ true
    → Member id reached
    → has_parent parent reached ≡ true
unfolding has_parent
names-contains none id reached h m = cc
names-contains (some p) id reached h m = ground (arith, Member→contains reached id m)

has_parent-names :
    (parent : Option ℕ) (reached : List ℕ)
    → has_parent parent reached ≡ true
    → (id : ℕ) × Member id reached × (names parent id ≡ true)
unfolding has_parent
has_parent-names none reached h = cc
has_parent-names (some p) reached h = (p, contains→Member reached p h, ground arith)

pub active-live :
    (tenant : ℕ) (item : Item)
    → is_active_collection tenant item ≡ true
    → is_live tenant item ≡ true
active-live tenant item h = ground (arith, h)

pub both : (a b : Bool) → (a && b) ≡ true → (a ≡ true) × (b ≡ true)
both a b h = ground arith

-- A live Collection with the id, that the grant of the permission on some Item reaches.
abbrev pub IsGranting : Database → AuthContext → ℕ → Str → ℕ → Type 0
IsGranting db access tenant code id =
    (item : Item) × Member item db.items
    × (item.id ≡ id)
    × (is_active_collection tenant item ≡ true)
    × (ancestor : Item) × Reaches db tenant ancestor item
    × IsGranted db access ancestor.id code

module _ (db : Database) (access : AuthContext) (tenant : ℕ) (code : Str) where
  unfoldable pub Granting : List ℕ → Type 0
  Granting rows = (id : ℕ) → Member id rows → IsGranting db access tenant code id

  pub granted_collections-Granting : Granting (granted_collections db access tenant code)
  unfolding Granting
  granted_collections-Granting id m =
      let (item, kept, same) = Member-map_cases id (λ (item : Item). item.id) _ m in
      let (stored, h) =
        Member-keep_cases item
          (λ item. is_active_collection tenant item && contains (granted_on db access item.id) code)
          db.items kept in
      (
        item,
        stored,
        sym same,
        ground (arith, h),
        item,
        itself,
        (granted_on_iff db access item.id code).0 (contains→Member _ code (ground (arith, h))),
      )

  descend-Granting : (rows : List ℕ) → Granting rows → Granting (descend db tenant rows)
  unfolding Granting has_parent
  descend-Granting rows granting id m =
      let (item, kept, same) = Member-map_cases id (λ (item : Item). item.id) _ m in
      let (stored, h) =
        Member-keep_cases item
          (λ item.
            is_active_collection tenant item
            && (item.inherit_access && has_parent item.parent_item_id rows))
          db.items kept in
      let (active, below) = both (is_active_collection tenant item) _ h in
      let (inherits, has) = both item.inherit_access _ below in
      let (parent_id, reached, named) = has_parent-names item.parent_item_id rows has in
      let (parent, parent_stored, parent_same, parent_active, ancestor, reaches, granted) =
        granting parent_id reached in
      (
        item,
        stored,
        sym same,
        active,
        ancestor,
        above item parent inherits
            (subst (λ i. names item.parent_item_id i ≡ true) (sym parent_same) named) parent_stored
            (active-live tenant parent parent_active) reaches,
        granted,
      )

  pub descendants-Granting :
      (depth : ℕ) (rows : List ℕ) → Granting rows → Granting (descendants db depth tenant rows)
  unfolding Granting
  descendants-Granting zero rows granting id m = granting id m
  descendants-Granting (suc depth) rows granting id m = elim (Member-append_cases id rows _ m) [
    | inl here ↦ granting id here
    | inr below ↦
        descendants-Granting depth (descend db tenant rows) (descend-Granting rows granting) id
          below
  ]

  child-descend :
      (rows : List ℕ) (item parent : Item)
      → Member item db.items
      → is_active_collection tenant item ≡ true
      → item.inherit_access ≡ true
      → names item.parent_item_id parent.id ≡ true
      → Member parent.id rows
      → Member item.id (descend db tenant rows)
  unfolding has_parent
  child-descend rows item parent stored active inherits named m =
      Member-map item (λ (item : Item). item.id) _
        (Member-keep item _ db.items stored (
          ground
            (arith, active, inherits, names-contains item.parent_item_id parent.id rows named m)))

  rows-descendants :
      (depth id : ℕ) (rows : List ℕ) → Member id rows → Member id (descendants db depth tenant rows)
  rows-descendants zero id rows m = m
  rows-descendants (suc depth) id rows m = Member-append_left id rows _ m

  child-descendants :
      (depth : ℕ) (rows : List ℕ) (item parent : Item)
      → Member item db.items
      → is_active_collection tenant item ≡ true
      → item.inherit_access ≡ true
      → names item.parent_item_id parent.id ≡ true
      → Member parent.id (descendants db depth tenant rows)
      → Member item.id (descendants db (suc depth) tenant rows)
  child-descendants zero rows item parent stored active inherits named m =
      Member-append_right item.id rows _
        (child-descend rows item parent stored active inherits named m)
  child-descendants (suc depth) rows item parent stored active inherits named m =
      Member-append_right item.id rows _ elim (Member-append_cases parent.id rows _ m) [
        | inl here ↦
            rows-descendants (suc depth) item.id _
              (child-descend rows item parent stored active inherits named here)
        | inr below ↦
            child-descendants depth (descend db tenant rows) item parent stored active inherits
              named below
      ]

  pub Reaches-descendants :
      {depth : ℕ} (t : IsTree db depth) (schema : IsSchema db)
      → (rows : List ℕ) (ancestor : Item) (rounds : ℕ) (item : Item) → t.level item ≤ rounds
      → Member ancestor.id rows
      → Member item db.items
      → is_active_collection tenant item ≡ true
      → Reaches db tenant ancestor item
      → Member item.id (descendants db rounds tenant rows)
  Reaches-descendants t schema rows ancestor rounds _ le m stored active itself =
      rows-descendants rounds ancestor.id rows m
  Reaches-descendants t schema rows ancestor zero _ le m stored active
        (above item parent inherits named parent_stored live reaches) =
      absurd (omega (arith, le, t.level-parent item parent stored parent_stored named))
  Reaches-descendants t schema rows ancestor (suc rounds) _ le m stored active
        (above item parent inherits named parent_stored live reaches) =
      child-descendants rounds rows item parent stored active inherits named (
        Reaches-descendants t schema rows ancestor rounds parent
          (omega (arith, le, t.level-parent item parent stored parent_stored named)) m parent_stored
          (ground (arith, live, schema.collection_parent item parent stored parent_stored named))
          reaches)

  pub Reaches-stored :
      (ancestor item : Item)
      → Member item db.items
      → is_live tenant item ≡ true
      → Reaches db tenant ancestor item
      → Member ancestor db.items × (is_live tenant ancestor ≡ true)
  Reaches-stored ancestor _ stored live itself = (stored, live)
  Reaches-stored ancestor _ stored live
        (above item parent inherits named parent_stored parent_live reaches) =
      Reaches-stored ancestor parent parent_stored parent_live reaches

  pub granted-collections :
      IsSchema db
      → (ancestor : Item) → Member ancestor db.items
      → is_live tenant ancestor ≡ true
      → IsGranted db access ancestor.id code
      → Member ancestor.id (granted_collections db access tenant code)
  granted-collections schema ancestor stored live g =
      Member-map ancestor (λ (item : Item). item.id) _
        (Member-keep ancestor _ db.items stored (
          ground (
            arith,
            live,
            schema.collection_grant g.grant ancestor g.grant_stored stored g.grant_scope,
            Member→contains (granted_on db access ancestor.id) code
                ((granted_on_iff db access ancestor.id code).1 g),
          )))
