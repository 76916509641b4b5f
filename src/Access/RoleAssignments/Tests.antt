-- ===== src/Access/RoleAssignments/Tests.antt =====
-- A tenant with a Collection, and the theorem about RoleAssignmentService at it.

use bo_thesis.Base.{ℕ, nat_eq, list_eq, Bool, true, false, none, some, List, [], ◌∷◌, Str, codes}
use bo_thesis.Access.{RolePermission, AuthContext, Item, collection, ready}
use bo_thesis.Access.RoleAssignments.{
  Principal, user, group, item, collection_scope, ScopedRole, Assignment, Tables,
}

abbrev handbook : Item
handbook = record {
  id = 1;
  tenant_id = 9;
  parent_item_id = none;
  item_type = collection;
  status = ready;
  is_deleted = false;
  inherit_access = true;
}

abbrev viewer : ScopedRole
viewer = record {
  id = 7;
  code = codes "viewer";
  scope_type = collection_scope;
  is_active = true;
  tenant_id = none;
}

abbrev grant_to : Principal → ℕ → Bool → Assignment
grant_to principal role_id is_deleted = record {
  principal = principal;
  role_id = role_id;
  scope = item 1;
  created_by_user_id = some 4;
  is_deleted = is_deleted;
}

abbrev with_grants : List Assignment → Tables
with_grants assignments = record {
  items = handbook ∷ [];
  roles = viewer ∷ [];
  users = record { id = 3; is_active = true } ∷ [];
  groups = [];
  memberships = record { user_id = 3; tenant_id = 9; is_active = true } ∷ [];
  assignments = assignments;
}

abbrev same_case : Str → Str
same_case s = s

abbrev before : Tables
before = with_grants (grant_to (user 3) 8 false ∷ (grant_to (group 3) 8 false ∷ []))

abbrev after : Tables
after =
    with_grants
      (grant_to (user 3) 8 true ∷ (grant_to (group 3) 8 false ∷ (grant_to (user 3) 7 false ∷ [])))

abbrev granted : Assignment × ScopedRole × Tables
granted = (grant_to (user 3) 7 false, viewer, after)

abbrev permissions : List RolePermission
permissions =
    record { role_id = 7; permission_code = codes "collection.read"; is_deleted = false }
    ∷ (record { role_id = 8; permission_code = codes "collection.update"; is_deleted = false } ∷ [])

abbrev member : AuthContext
member = record {
  user_id = some 3;
  tenant_id = some 9;
  permission_codes = [];
  group_ids = 5 ∷ [];
  session_id = none;
}
