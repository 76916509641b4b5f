-- ===== src/Access/Authorization.antt =====
-- AuthorizationService of backend/bothesis/services/identity_access/authorization.py. A query is the
-- list of its rows, a join a walk over the tables, and a recursive query its rounds, as many as the
-- number `depth` allows: a round is one level of the tree of Items.
pub mod Descent
pub mod Allowed
pub mod Inherited
pub mod Required
pub mod Grants
use bo_thesis.Base.Result.{Result, ok, err, ◌>>=◌, ◌>>◌, require}
use bo_thesis.Base.{
  ℕ, zero, suc, Bool, true, false, not, ◌&&◌, ◌||◌, Option, none, some, List, [], ◌∷◌, ◌++◌, map,
  Str, ltb, is_empty, contains, keep, gather, nat_beq, nat_eq, list_eq, if◌then◌else◌,
  distinct_ordered,
}
use bo_thesis.Access.{
  ItemType, collection, document, ItemStatus, deleted, Item, Role, RolePermission, RoleAssignment,
  Database, AuthContext, AccessError, unauthorized, not_found, collection_read,
}

-- column = value, for a column that may be NULL
abbrev pub names : Option ℕ → ℕ → Bool
names none value = false
names (some column) value = nat_beq column value

abbrev pub is_deleted_status : ItemStatus → Bool
is_deleted_status deleted = true
is_deleted_status _ = false

abbrev pub is_collection : ItemType → Bool
is_collection collection = true
is_collection document = false

abbrev pub is_live : ℕ → Item → Bool
is_live tenant item =
    nat_beq item.tenant_id tenant && (not (is_deleted_status item.status) && not item.is_deleted)

abbrev pub is_active_collection : ℕ → Item → Bool
is_active_collection tenant item = is_live tenant item && is_collection item.item_type

unfoldable pub principal_match : AuthContext → RoleAssignment → Bool
principal_match access grant = elim access.user_id [
  | none ↦ false
  | some user ↦
      names grant.user_id user
      || elim grant.group_id [ none ↦ false | some group ↦ contains access.group_ids group ]
]

module _ (db : Database) where
  abbrev pub climb_from : ℕ → Bool → Item → List Item
  climb_from tenant ignore_inheritance item =
      if item.inherit_access || ignore_inheritance
      then keep (λ parent. names item.parent_item_id parent.id && is_live tenant parent) db.items
      else []

  abbrev pub climb : ℕ → ℕ → Bool → List Item → List Item
  climb zero tenant ignore_inheritance rows = rows
  climb (suc depth) tenant ignore_inheritance rows =
      rows
      ++ climb depth tenant ignore_inheritance (gather (climb_from tenant ignore_inheritance) rows)

  abbrev pub live_items : ℕ → ℕ → List Item
  live_items tenant item_id = keep (λ item. nat_beq item.id item_id && is_live tenant item) db.items

  unfoldable pub ancestry : (depth tenant item_id : ℕ) → (ignore_inheritance : Bool) → List Item
  ancestry depth tenant item_id ignore_inheritance =
      climb depth tenant ignore_inheritance (live_items tenant item_id)

  -- RolePermission.granted_by
  abbrev pub granted_by : ℕ → List Str
  granted_by role_id =
      map (λ (p : RolePermission). p.permission_code)
        (keep (λ p. nat_beq p.role_id role_id && not p.is_deleted) db.role_permissions)

  abbrev pub granted_through : RoleAssignment → List Str
  granted_through grant =
      gather (λ (role : Role). granted_by role.id)
        (keep (λ role. nat_beq role.id grant.role_id && role.is_active) db.roles)

  -- The permissions that the grants on one Item give.
  unfoldable pub granted_on : AuthContext → ℕ → List Str
  unfolding principal_match
  granted_on access item_id = gather granted_through (
      keep
        (λ grant.
          names grant.item_id item_id && (not grant.is_deleted && principal_match access grant))
        db.role_assignments)

  unfoldable pub permissions_in : (depth tenant : ℕ) → AuthContext → (item_id : ℕ) → List Str
  unfolding ancestry granted_on
  permissions_in depth tenant access item_id =
      access.permission_codes
      ++ gather (λ (item : Item). granted_on access item.id) (ancestry depth tenant item_id false)

  unfoldable pub permissions_for_item : (depth : ℕ) → AuthContext → (item_id : ℕ) → List Str
  unfolding permissions_in
  permissions_for_item depth access item_id = elim access.tenant_id [
    | none ↦ []
    | some tenant ↦ permissions_in depth tenant access item_id
  ]

  -- The rest of `require_item`, from the rows that its query found.
  unfoldable pub require_row : (depth : ℕ) → AuthContext → Str → List Item → Result AccessError Item
  unfolding permissions_for_item
  require_row depth access permission [] = err not_found
  require_row depth access permission (item ∷ _) = do
    let effective = permissions_for_item depth access item.id
    require (contains effective collection_read) not_found
    require (contains effective permission) unauthorized
    ok item

  unfoldable pub require_item :
      (depth : ℕ) → AuthContext → (item_id : ℕ) → (permission : Str) → Result AccessError Item
  unfolding require_row
  require_item depth access item_id permission = elim access.tenant_id [
    | none ↦ err not_found
    | some tenant ↦ require_row depth access permission (live_items tenant item_id)
  ]

  -- The children of the Collections that a round has reached.
  abbrev pub descend : ℕ → List ℕ → List ℕ
  descend tenant reached =
      map (λ (item : Item). item.id)
        (keep
          (λ item.
            is_active_collection tenant item
            && (item.inherit_access && elim item.parent_item_id [
              | none ↦ false
              | some parent ↦ contains reached parent
            ]))
          db.items)

  abbrev pub descendants : ℕ → ℕ → List ℕ → List ℕ
  descendants zero tenant reached = reached
  descendants (suc depth) tenant reached =
      reached ++ descendants depth tenant (descend tenant reached)

  abbrev pub granted_collections : AuthContext → ℕ → Str → List ℕ
  granted_collections access tenant permission =
      map (λ (item : Item). item.id)
        (keep
          (λ item.
            is_active_collection tenant item && contains (granted_on access item.id) permission)
          db.items)

module _ (db : Database) where
  unfoldable pub allowed_collection_ids : (depth : ℕ) → AuthContext → (permission : Str) → List ℕ
  unfolding granted_on
  allowed_collection_ids depth access permission = elim access.tenant_id [
    | none ↦ []
    | some tenant ↦
        if contains access.permission_codes permission
        then distinct_ordered
            (map (λ (item : Item). item.id) (keep (is_active_collection tenant) db.items))
        else distinct_ordered
            (descendants db depth tenant (granted_collections db access tenant permission))
  ]

  -- The first Collection on the way up, the Item itself included.
  unfoldable pub governing_collection_id : (depth tenant item_id : ℕ) → Option ℕ
  unfolding ancestry
  governing_collection_id depth tenant item_id =
      elim (keep (λ (item : Item). is_collection item.item_type)
        (ancestry db depth tenant item_id true)) [ [] ↦ none | item ∷ _ ↦ some item.id ]
