-- ===== src/Access/RoleAssignments/Effective.antt =====
-- The rows that RoleAssignmentService
-- (backend/bothesis/services/identity_access/role_assignments.py) writes, as AuthorizationService
-- (backend/bothesis/services/identity_access/authorization.py) reads them.
use bo_thesis.Base.{
  ℕ, Bool, false, Option, none, some, List, map, contains, nat_beq, nat_eq, list_eq,
}
use bo_thesis.Access.{Role, RolePermission, RoleAssignment, Database}
use bo_thesis.Access.RoleAssignments.{
  Principal, user, group, Scope, item, ScopedRole, Assignment, Tables,
}

-- The columns of a principal and of a scope.
abbrev pub user_of : Principal → Option ℕ
user_of (user id) = some id
user_of (group id) = none

abbrev pub group_of : Principal → Option ℕ
group_of (user id) = none
group_of (group id) = some id

abbrev pub item_of : Scope → Option ℕ
item_of (item id) = some id
item_of _ = none

abbrev pub row_of : Assignment → RoleAssignment
row_of grant = record {
  user_id = user_of grant.principal;
  group_id = group_of grant.principal;
  role_id = grant.role_id;
  item_id = item_of grant.scope;
  is_deleted = grant.is_deleted;
}

abbrev pub role_row : ScopedRole → Role
role_row role = record { id = role.id; is_active = role.is_active }

abbrev pub database_of : List RolePermission → Tables → Database
database_of permissions db = record {
  items = db.items;
  roles = map role_row db.roles;
  role_permissions = permissions;
  role_assignments = map row_of db.assignments;
}

-- The test of `principal_match` on a principal
abbrev pub is_actor : (actor : Option ℕ) → (group_ids : List ℕ) → Principal → Bool
is_actor none group_ids p = false
is_actor (some user_id) group_ids (user id) = nat_beq id user_id
is_actor (some user_id) group_ids (group id) = contains group_ids id
