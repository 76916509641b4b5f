-- ===== src/Access/Approvals/Tests.antt =====
-- A request for access that is made and approved, and the theorems about ApprovalRequestService at
-- it.
use bo_thesis.Base.Json.{Json, string}
use bo_thesis.Base.Dict.{Dict}
use bo_thesis.Base.Result.{ok}
use bo_thesis.Base.{
  ℕ, ◌≡◌, refl, true, false, Option, none, some, List, [], ◌∷◌, Str, codes, strip, list_beq, nat_eq,
  if◌then◌else◌, arith,
}
use bo_thesis.Access.{Item, collection, ready, AuthContext, require_tenant_permission}
use bo_thesis.Access.RoleAssignments.{
  user, item, collection_scope, ScopedRole, Assignment, Tables, find_role, principal_of,
  has_principal, collection_tenant_id, grant_collection_role,
}
use bo_thesis.Access.Approvals.{
  resource_access, approved, ApprovalRequest, Approvals, normalize_required_text,
  normalize_optional_text, collection_of, role_with_code, role_with_id, new_request, decided,
  event_of,
}
use bo_thesis.Access.Approvals.Targets.{
  request_type_of, status_of, resource_access_target, target_of,
}
use bo_thesis.Access.Approvals.Requests.{
  has_equivalent, recorded, apply_type, apply_approval, decide, create_request, update_request,
}
use bo_thesis.Access.Approvals.Decided.{IsDecided, update_request-IsDecided}
use bo_thesis.Access.Approvals.Pending.{created, updated, at_start, next, IsKept, reaches-IsKept}

abbrev handbook : Item
handbook = record {
  id = 1;
  tenant_id = 9;
  parent_item_id = none;
  item_type = collection;
  status = ready;
  is_deleted = false;
  inherit_access = true;
}

abbrev viewer : ScopedRole
viewer = record {
  id = 7;
  code = codes "collection_viewer";
  scope_type = collection_scope;
  is_active = true;
  tenant_id = none;
}

abbrev tables_with : List Assignment → Tables
tables_with assignments = record {
  items = handbook ∷ [];
  roles = viewer ∷ [];
  users = record { id = 3; is_active = true } ∷ [];
  groups = [];
  memberships = record { user_id = 3; tenant_id = 9; is_active = true } ∷ [];
  assignments = assignments;
}

abbrev granted : Assignment
granted = record {
  principal = user 3;
  role_id = 7;
  scope = item 1;
  created_by_user_id = some 4;
  is_deleted = false;
}

abbrev reviewer : AuthContext
reviewer = record {
  user_id = some 4;
  tenant_id = some 9;
  permission_codes = codes "access.manage" ∷ [];
  group_ids = [];
  session_id = none;
}

abbrev same_case : Str → Str
same_case s = s

abbrev parse_uuid : Str → Option ℕ
parse_uuid s = if list_beq s (codes "1") then some 1 else none

abbrev print_uuid : ℕ → Str
print_uuid id = codes "1"

abbrev details : Option (Dict Str Json)
details = some ((codes "role", string (codes "collection_viewer ")) ∷ [])

abbrev asked : ApprovalRequest
asked = new_request 50 9 3 resource_access (codes "1") (some 7) none

abbrev empty : Approvals
empty = record { tables = tables_with []; requests = []; audit = [] }

abbrev waiting : Approvals
waiting = record {
  tables = tables_with [];
  requests = asked ∷ [];
  audit = event_of (some 4) asked ∷ [];
}

abbrev approval : ApprovalRequest × Approvals
approval =
    recorded waiting (tables_with (granted ∷ [])) reviewer (decided asked approved (some 4) none 77)

create_asked :
    create_request same_case parse_uuid print_uuid empty reviewer
      (codes "resource_access")
      (codes " 1")
      details
      none
      (some 3)
      50
    ≡ ok (asked, waiting)
unfolding create_request request_type_of target_of resource_access_target normalize_required_text
    normalize_optional_text collection_of role_with_code has_equivalent require_tenant_permission
    strip
create_asked = refl

update_asked :
    update_request same_case parse_uuid waiting reviewer 50 (codes "approved") none 77 ≡ ok approval
unfolding update_request status_of decide apply_approval apply_type collection_of role_with_id
    grant_collection_role collection_tenant_id principal_of find_role has_principal
    normalize_optional_text require_tenant_permission strip
update_asked = refl

update_request-IsDecided_example :
    IsDecided same_case parse_uuid waiting reviewer 50 (codes "approved") 77 approval
update_request-IsDecided_example =
    update_request-IsDecided same_case parse_uuid waiting reviewer 50 (codes "approved") none 77
      {result = approval} update_asked

reaches-IsKept_example : IsKept empty approval.1
reaches-IsKept_example =
    reaches-IsKept same_case parse_uuid print_uuid empty approval.1
      (refl, λ tenant_id requester_id request_type target_id. omega arith)
      (next
        (next at_start (
          created reviewer (codes "resource_access") (codes " 1") details none (some 3) 50 asked
            refl create_asked))
        (updated reviewer 50 (codes "approved") none 77 approval.0 update_asked))
