-- ===== src/Access/Approvals.antt =====
-- ApprovalRequestService of backend/bothesis/services/approval_request.py, with
-- normalize_required_text of backend/bothesis/services/__init__.py. An exception undoes the writes
-- of the call, as its session does. The constraints of the table on the type and the status are in
-- their types, and `is_deleted` is `deleted_at IS NOT NULL`. `casefold` is that of str, `parse_uuid`
-- is UUID() and `print_uuid` its str(). The details that a row stores are
-- empty and left out, and the payload of a request is its row.
pub mod Targets
pub mod Requests
pub mod Effects
pub mod Decided
pub mod Table
pub mod Pending
mod Tests
use bo_thesis.Base.Json.{Json, string}
use bo_thesis.Base.Dict.{Dict}
use bo_thesis.Base.Result.{Result, ok, err, ◌>>=◌, require, ◌>>◌}
use bo_thesis.Base.{
  ℕ, Bool, true, false, not, ◌&&◌, ◌||◌, Option, none, some, List, [], ◌∷◌, ◌++◌, map, keep, any,
  contains, Str, codes, strip, is_empty, length, leb, nat_beq, list_beq, nat_eq, list_eq,
  if◌then◌else◌,
}
use bo_thesis.Access.{Item, AccessError, AuthContext, require_tenant_permission}
use bo_thesis.Access.Authorization.{is_deleted_status, is_collection}
use bo_thesis.Access.RoleAssignments.{
  Assignment, User, RoleScope, collection_scope, ScopedRole, Tables, ServiceError, missing, invalid,
  conflict, crashed, forbidden, one_of, is_member, role_scope_beq, grant_collection_role,
}

pub data RequestType : Type 0 where
  resource_access plugin_installation : RequestType

pub data RequestStatus : Type 0 where
  pending approved denied cancelled : RequestStatus

pub record ApprovalRequest : Type 0 where
  pub id : ℕ
  pub tenant_id : ℕ
  pub requester_user_id : ℕ
  pub request_type : RequestType
  pub target_id : Str
  pub requested_role_id : Option ℕ
  pub reason : Option Str
  pub status : RequestStatus
  pub decided_by_user_id : Option ℕ
  pub decision_note : Option Str
  pub decided_at : Option ℕ
  pub is_deleted : Bool

-- One row of the audit log: the type and the status that its action names, `pending` for the action
-- `created`.
pub record AuditEvent : Type 0 where
  pub actor_user_id : Option ℕ
  pub request_type : RequestType
  pub status : RequestStatus
  pub resource_id : ℕ
  pub target_id : Str

pub record Approvals : Type 0 where
  pub tables : Tables
  pub requests : List ApprovalRequest
  pub audit : List AuditEvent

abbrev pub request_type_beq : RequestType → RequestType → Bool
request_type_beq resource_access resource_access = true
request_type_beq plugin_installation plugin_installation = true
request_type_beq _ _ = false

abbrev pub is_pending : RequestStatus → Bool
is_pending pending = true
is_pending _ = false

abbrev pub access_manage : Str
access_manage = codes "access.manage"

abbrev pub source_manage : Str
source_manage = codes "source.manage"

-- AuthorizationError as an error of the service
abbrev pub permitted : {A : Type 0} → Result AccessError A → Result ServiceError A
permitted (ok a) = ok a
permitted (err e) = err (forbidden e)

-- normalize_required_text
unfoldable pub normalize_required_text : Str → (max_length : ℕ) → Result ServiceError Str
normalize_required_text value max_length =
    let normalized = strip value in
    require (not (is_empty normalized)) invalid
    >> (require (leb (length normalized) max_length) invalid >> ok normalized)

-- The same of an optional text.
unfoldable pub normalize_optional_text :
    Option Str → (max_length : ℕ) → Result ServiceError (Option Str)
unfolding normalize_required_text
normalize_optional_text none max_length = ok none
normalize_optional_text (some value) max_length =
    normalize_required_text value max_length >>= λ normalized. ok (some normalized)

abbrev pub review_permission : RequestType → Str
review_permission resource_access = access_manage
review_permission plugin_installation = source_manage

-- _require_reviewer
abbrev pub require_reviewer : AuthContext → RequestType → Result ServiceError ℕ
unfolding require_tenant_permission
require_reviewer actor request_type =
    permitted (require_tenant_permission actor (review_permission request_type ∷ []))

-- _collection
unfoldable pub collection_of : Tables → (tenant_id item_id : ℕ) → Result ServiceError Item
collection_of db tenant_id item_id = one_of (
    keep
      (λ (row : Item).
        nat_beq row.id item_id
        && (nat_beq row.tenant_id tenant_id
            && (is_collection row.item_type
                && (not (is_deleted_status row.status) && not row.is_deleted))))
      db.items)

-- `requester_id == actor.user_id`
abbrev pub is_same_user : Option ℕ → Option ℕ → Bool
is_same_user none none = true
is_same_user (some a) (some b) = nat_beq a b
is_same_user _ _ = false

-- `requester_user_id or actor.user_id`
abbrev pub requester_or : Option ℕ → Option ℕ → Option ℕ
requester_or none actor = actor
requester_or (some id) actor = some id

-- _tenant_user
abbrev pub tenant_user : Tables → ℕ → ℕ → Result ServiceError Unit
tenant_user db tenant_id id = require (is_member db tenant_id id) missing

-- The details of a request for access, a dict whose only key is "role".
abbrev pub role_detail : Option (Dict Str Json) → Result ServiceError Str
role_detail (some ((name, string role) ∷ [])) =
    if list_beq name (codes "role") then ok role else err invalid
role_detail _ = err invalid

abbrev pub has_details : Option (Dict Str Json) → Bool
has_details none = false
has_details (some details) = not (is_empty details)

abbrev pub collection_role_codes : List Str
collection_role_codes =
    codes "collection_owner" ∷ (codes "collection_editor" ∷ (codes "collection_viewer" ∷ []))

-- A row that is not found, or a value that is none, is invalid here.
abbrev pub valid : {A : Type 0} → Option A → Result ServiceError A
valid none = err invalid
valid (some a) = ok a

abbrev pub first_row : {A : Type 0} → List A → Option A
first_row [] = none
first_row (row ∷ rows) = some row

unfoldable pub role_with_code : Tables → Str → Option ScopedRole
role_with_code db code = first_row (
    keep
      (λ (role : ScopedRole).
        list_beq role.code code
        && (role_scope_beq role.scope_type collection_scope && role.is_active))
      db.roles)

-- session.get(Role, id)
unfoldable pub role_with_id : Tables → Option ℕ → Option ScopedRole
role_with_id db none = none
role_with_id db (some id) = first_row (keep (λ (role : ScopedRole). nat_beq role.id id) db.roles)

-- The pending requests of one requester for one target.
abbrev pub is_equivalent : (tenant_id requester_id : ℕ) → RequestType → Str → ApprovalRequest → Bool
is_equivalent tenant_id requester_id request_type target_id r =
    nat_beq r.tenant_id tenant_id
    && (nat_beq r.requester_user_id requester_id
        && (request_type_beq r.request_type request_type
            && (list_beq r.target_id target_id && (is_pending r.status && not r.is_deleted))))

-- The row that create_request adds.
abbrev pub new_request :
    (id tenant_id requester_id : ℕ) → RequestType → Str → Option ℕ → Option Str → ApprovalRequest
new_request id tenant_id requester_id request_type target_id requested_role_id reason = record {
  id = id;
  tenant_id = tenant_id;
  requester_user_id = requester_id;
  request_type = request_type;
  target_id = target_id;
  requested_role_id = requested_role_id;
  reason = reason;
  status = pending;
  decided_by_user_id = none;
  decision_note = none;
  decided_at = none;
  is_deleted = false;
}

abbrev pub decided :
    ApprovalRequest → RequestStatus → Option ℕ → Option Str → (now : ℕ) → ApprovalRequest
decided request status decided_by note now = record request {
  status = status;
  decided_by_user_id = decided_by;
  decision_note = note;
  decided_at = some now;
}

abbrev pub event_of : Option ℕ → ApprovalRequest → AuditEvent
event_of actor request = record {
  actor_user_id = actor;
  request_type = request.request_type;
  status = request.status;
  resource_id = request.id;
  target_id = request.target_id;
}

-- The query of update_request and of get_request
abbrev pub is_request : (tenant_id request_id : ℕ) → ApprovalRequest → Bool
is_request tenant_id request_id r =
    nat_beq r.id request_id && (nat_beq r.tenant_id tenant_id && not r.is_deleted)

abbrev pub store : ApprovalRequest → List ApprovalRequest → List ApprovalRequest
store request requests =
    map (λ (r : ApprovalRequest). if nat_beq r.id request.id then request else r) requests

-- `user_id` is a foreign key that may not be NULL.
abbrev pub known_user : Tables → Option ℕ → Result ServiceError ℕ
known_user db none = err crashed
known_user db (some id) =
    if any (λ (u : User). nat_beq u.id id) db.users then ok id else err crashed

abbrev pub has_user : Tables → ℕ → Option ℕ → Result ServiceError Unit
has_user db tenant_id none = err missing
has_user db tenant_id (some id) = tenant_user db tenant_id id
