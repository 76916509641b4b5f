-- ===== src/Access/RoleAssignments.antt =====
-- RoleAssignmentService of backend/bothesis/services/identity_access/role_assignments.py. The
-- constraints of the table, one principal and at most one scope to a row, are in its types, and
-- `is_deleted` is `deleted_at IS NOT NULL`. `casefold` is that of str. A flush that a unique index
-- refuses, and the views of grants, are left out.
pub mod Granted
pub mod Effective
mod Tests
use bo_thesis.Base.Result.{Result, ok, err, ◌>>=◌, require, ◌>>◌}
use bo_thesis.Base.{
  ℕ, Bool, true, false, not, ◌&&◌, ◌||◌, Option, none, some, List, [], ◌∷◌, ◌++◌, map, keep, any,
  all, gather, Str, codes, strip, is_empty, length, ltb, contains, is_unique, nat_beq, list_beq,
  nat_eq, list_eq, if◌then◌else◌,
}
use bo_thesis.Access.{Item, AccessError}
use bo_thesis.Access.Authorization.{is_deleted_status, is_collection}

pub data Principal : Type 0 where
  user group : ℕ → Principal

pub data Scope : Type 0 where
  platform : Scope
  tenant item : ℕ → Scope

pub data RoleScope : Type 0 where
  platform_scope tenant_scope collection_scope : RoleScope

-- Role, with the columns that assignments read
pub record ScopedRole : Type 0 where
  pub id : ℕ
  pub code : Str
  pub scope_type : RoleScope
  pub is_active : Bool
  pub tenant_id : Option ℕ

-- RoleAssignment
pub record Assignment : Type 0 where
  pub principal : Principal
  pub role_id : ℕ
  pub scope : Scope
  pub created_by_user_id : Option ℕ
  pub is_deleted : Bool

pub record User : Type 0 where
  pub id : ℕ
  pub is_active : Bool

-- Group and TenantMembership: an active one is not deleted and has the active status.
pub record Group : Type 0 where
  pub id : ℕ
  pub tenant_id : ℕ
  pub is_active : Bool

pub record TenantMembership : Type 0 where
  pub user_id : ℕ
  pub tenant_id : ℕ
  pub is_active : Bool

pub record Tables : Type 0 where
  pub items : List Item
  pub roles : List ScopedRole
  pub users : List User
  pub groups : List Group
  pub memberships : List TenantMembership
  pub assignments : List Assignment

-- ControlPlaneNotFoundError, ControlPlaneValidationError, ControlPlaneConflictError and
-- AuthorizationError; `crashed` is any other exception
pub data ServiceError : Type 0 where
  missing invalid conflict crashed : ServiceError
  forbidden : AccessError → ServiceError

abbrev pub principal_beq : Principal → Principal → Bool
principal_beq (user a) (user b) = nat_beq a b
principal_beq (group a) (group b) = nat_beq a b
principal_beq _ _ = false

abbrev pub scope_beq : Scope → Scope → Bool
scope_beq platform platform = true
scope_beq (tenant a) (tenant b) = nat_beq a b
scope_beq (item a) (item b) = nat_beq a b
scope_beq _ _ = false

abbrev pub role_scope_beq : RoleScope → RoleScope → Bool
role_scope_beq platform_scope platform_scope = true
role_scope_beq tenant_scope tenant_scope = true
role_scope_beq collection_scope collection_scope = true
role_scope_beq _ _ = false

-- The first row of a query, or an error.
abbrev pub one_of : {A : Type 0} → List A → Result ServiceError A
one_of [] = err missing
one_of (row ∷ rows) = ok row

abbrev pub is_live_at : Scope → Principal → Assignment → Bool
is_live_at scope principal grant =
    scope_beq grant.scope scope && (not grant.is_deleted && principal_beq grant.principal principal)

-- The live grants of a principal at a scope.
abbrev pub live_grants : Tables → Scope → Principal → List Assignment
live_grants db scope principal = keep (is_live_at scope principal) db.assignments

-- `_retire`: the rows that the test selects are deleted.
abbrev pub retired : (Assignment → Bool) → List Assignment → List Assignment
retired test grants =
    map (λ (g : Assignment). if test g then record g { is_deleted = true } else g) grants

-- Role.tenant_id IS NULL, or the tenant's
abbrev pub is_role_of : Option ℕ → Option ℕ → Bool
is_role_of owner none = elim owner [ none ↦ true | some t ↦ false ]
is_role_of owner (some tenant_id) = elim owner [ none ↦ true | some t ↦ nat_beq t tenant_id ]

-- collection_tenant_id
unfoldable pub collection_tenant_id : Tables → ℕ → Result ServiceError ℕ
collection_tenant_id db item_id = one_of (
    map (λ (row : Item). row.tenant_id)
      (keep
        (λ (row : Item).
          nat_beq row.id item_id
          && (is_collection row.item_type
              && (not (is_deleted_status row.status) && not row.is_deleted)))
        db.items))

abbrev pub is_member : Tables → ℕ → ℕ → Bool
is_member db tenant_id id =
    any (λ (u : User). nat_beq u.id id && u.is_active) db.users
    && any
        (λ (m : TenantMembership).
          nat_beq m.user_id id && (nat_beq m.tenant_id tenant_id && m.is_active))
        db.memberships

-- The test of _require_principal
unfoldable pub has_principal : Tables → ℕ → Principal → Bool
has_principal db tenant_id (user id) = is_member db tenant_id id
has_principal db tenant_id (group id) =
    any (λ (g : Group). nat_beq g.id id && (nat_beq g.tenant_id tenant_id && g.is_active)) db.groups

module _ (casefold : Str → Str) where
  -- _principal_type, joined with the principal's id
  unfoldable pub principal_of : (principal_type : Str) → ℕ → Result ServiceError Principal
  principal_of principal_type id =
      let normalized = casefold (strip principal_type) in
      if list_beq normalized (codes "user")
      then ok (user id)
      else if list_beq normalized (codes "group")
      then ok (group id)
      else err invalid

  -- _role
  unfoldable pub find_role :
      Tables
      → (role_code : Str) → (tenant_id : Option ℕ) → RoleScope
      → Result ServiceError ScopedRole
  find_role db role_code tenant_id scope =
      let code = casefold (strip role_code) in
      one_of (
        keep
          (λ (role : ScopedRole).
            list_beq role.code code
            && (role_scope_beq role.scope_type scope
                && (role.is_active && is_role_of role.tenant_id tenant_id)))
          db.roles)

  -- grant_collection_role: the new row, the role and the tables
  unfoldable pub grant_collection_role :
      Tables
      → (item_id : ℕ) → (principal_type : Str) → (principal_id : ℕ) → (role_code : Str)
      → (created_by_user_id : Option ℕ) → Result ServiceError (Assignment × ScopedRole × Tables)
  unfolding collection_tenant_id principal_of find_role has_principal
  grant_collection_role db item_id principal_type principal_id role_code created_by_user_id =
      collection_tenant_id db item_id >>= λ tenant_id.
      principal_of principal_type principal_id >>= λ principal.
      find_role db role_code (some tenant_id) collection_scope >>= λ role.
      require (has_principal db tenant_id principal) missing
      >> (let grant : Assignment = record {
        principal = principal;
        role_id = role.id;
        scope = item item_id;
        created_by_user_id = created_by_user_id;
        is_deleted = false;
      } in
          ok (
            grant,
            role,
            record db {
              assignments =
                  retired (is_live_at (item item_id) principal) db.assignments ++ (grant ∷ []);
            },
          ))

  -- revoke_collection_role
  unfoldable pub revoke_collection_role :
      Tables
      → (item_id : ℕ) → (principal_type : Str) → (principal_id : ℕ) → Result ServiceError Tables
  unfolding collection_tenant_id principal_of
  revoke_collection_role db item_id principal_type principal_id =
      collection_tenant_id db item_id >>= λ tenant_id.
      principal_of principal_type principal_id >>= λ principal.
      require (not (is_empty (live_grants db (item item_id) principal))) missing
      >> ok
          (record db { assignments = retired (is_live_at (item item_id) principal) db.assignments })

  -- ensure_tenant_role, ensure_platform_role: whether a grant was created
  unfoldable pub ensure_role :
      Tables → ScopedRole → Scope → Principal → (created_by_user_id : Option ℕ) → Bool × Tables
  ensure_role db role scope principal created_by_user_id =
      if any (λ (g : Assignment). nat_beq g.role_id role.id) (live_grants db scope principal)
      then (false, db)
      else (
        true,
        record db {
          assignments =
              db.assignments
              ++ (record {
                principal = principal;
                role_id = role.id;
                scope = scope;
                created_by_user_id = created_by_user_id;
                is_deleted = false;
              }
                  ∷ []);
        },
      )

  unfoldable pub ensure_tenant_role :
      Tables
      → (user_id tenant_id : ℕ) → (role_code : Str) → (created_by_user_id : Option ℕ)
      → Result ServiceError (Bool × Tables)
  unfolding has_principal find_role ensure_role
  ensure_tenant_role db user_id tenant_id role_code created_by_user_id =
      require (has_principal db tenant_id (user user_id)) missing
      >> (find_role db role_code (some tenant_id) tenant_scope >>= λ role.
          ok (ensure_role db role (tenant tenant_id) (user user_id) created_by_user_id))

  unfoldable pub ensure_platform_role :
      Tables → (user_id : ℕ) → (role_code : Str) → Result ServiceError (Bool × Tables)
  unfolding find_role ensure_role
  ensure_platform_role db user_id role_code = find_role db role_code none platform_scope >>= λ role.
      ok (ensure_role db role platform (user user_id) none)

abbrev pub role_ids_of : List Assignment → List ℕ
role_ids_of grants = map (λ (g : Assignment). g.role_id) grants

abbrev pub tenant_grants :
    ℕ → Principal → (created_by_user_id : Option ℕ) → List ℕ → List Assignment
tenant_grants tenant_id principal created_by_user_id role_ids =
    map
      (λ role_id. record {
        principal = principal;
        role_id = role_id;
        scope = tenant tenant_id;
        created_by_user_id = created_by_user_id;
        is_deleted = false;
      })
      role_ids

-- The roles of the tenant among the desired ones.
abbrev pub tenant_roles : Tables → ℕ → List ℕ → List ScopedRole
tenant_roles db tenant_id desired =
    keep
      (λ (role : ScopedRole).
        contains desired role.id
        && (role_scope_beq role.scope_type tenant_scope
            && (role.is_active && is_role_of role.tenant_id (some tenant_id))))
      db.roles

abbrev pub is_surplus : (desired : List ℕ) → Scope → Principal → Assignment → Bool
is_surplus desired scope principal grant =
    is_live_at scope principal grant && not (contains desired grant.role_id)

-- replace_tenant_roles, without the list of roles that it returns; a new row for each role that is
-- not held
unfoldable pub replace_tenant_roles :
    Tables
    → (user_id tenant_id : ℕ) → (role_ids : List ℕ) → (created_by_user_id : Option ℕ)
    → Result ServiceError Tables
replace_tenant_roles db user_id tenant_id role_ids created_by_user_id =
    let found = map (λ (role : ScopedRole). role.id) (tenant_roles db tenant_id role_ids) in
    let held = role_ids_of (live_grants db (tenant tenant_id) (user user_id)) in
    require (is_unique role_ids) invalid
    >> (require (all (contains found) role_ids && all (contains role_ids) found) missing
        >> ok (record db {
          assignments =
              retired (is_surplus role_ids (tenant tenant_id) (user user_id)) db.assignments
              ++ tenant_grants tenant_id (user user_id) created_by_user_id
                  (keep (λ role_id. not (contains held role_id)) role_ids);
        }))
