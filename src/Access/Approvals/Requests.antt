-- ===== src/Access/Approvals/Requests.antt =====
-- The operations of ApprovalRequestService, backend/bothesis/services/approval_request.py.
use bo_thesis.Base.Json.{Json}
use bo_thesis.Base.Dict.{Dict}
use bo_thesis.Base.Result.{Result, ok, err, ◌>>=◌, require, ◌>>◌}
use bo_thesis.Base.{
  ℕ, Bool, false, not, Option, none, some, [], ◌∷◌, ◌++◌, keep, any, Str, codes, nat_eq, list_eq,
  if◌then◌else◌,
}
use bo_thesis.Access.{AuthContext, require_tenant_permission}
use bo_thesis.Access.RoleAssignments.{
  Assignment, ScopedRole, Tables, ServiceError, invalid, conflict, crashed, one_of,
  grant_collection_role,
}
use bo_thesis.Access.Approvals.{
  RequestType, resource_access, plugin_installation, RequestStatus, pending, approved, denied,
  cancelled, ApprovalRequest, Approvals, is_pending, permitted, normalize_optional_text,
  require_reviewer, collection_of, is_same_user, requester_or, tenant_user, valid, role_with_id,
  is_equivalent, new_request, decided, event_of, is_request, store, known_user,
}
use bo_thesis.Access.Approvals.Targets.{request_type_of, status_of, target_of}

-- Whether an equivalent request is pending
unfoldable pub has_equivalent : Approvals → ℕ → Option ℕ → RequestType → Str → Bool
has_equivalent db tenant_id none request_type target_id = false
has_equivalent db tenant_id (some requester_id) request_type target_id =
    any (is_equivalent tenant_id requester_id request_type target_id) db.requests

abbrev pub found_uuid : Option ℕ → Result ServiceError ℕ
found_uuid none = err crashed
found_uuid (some id) = ok id

abbrev pub tables_of : Assignment × ScopedRole × Tables → Tables
tables_of (grant, role, tables) = tables

-- get_request
unfoldable pub get_request : Approvals → AuthContext → ℕ → Result ServiceError ApprovalRequest
get_request db actor request_id = permitted (require_tenant_permission actor []) >>= λ tenant_id.
    one_of (keep (is_request tenant_id request_id) db.requests) >>= λ request.
    require_reviewer actor request.request_type >>= λ _. ok request

-- What update_request writes: the decided request and its event
abbrev pub recorded :
    Approvals → Tables → AuthContext → ApprovalRequest → ApprovalRequest × Approvals
recorded db tables actor row = (
  row,
  record {
    tables = tables;
    requests = store row db.requests;
    audit = db.audit ++ (event_of actor.user_id row ∷ []);
  },
)

module _ (casefold : Str → Str) (parse_uuid : Str → Option ℕ) where
  -- The effect of an approval of a type
  unfoldable pub apply_type :
      Tables → AuthContext → ApprovalRequest → RequestType → Result ServiceError Tables
  unfolding collection_of role_with_id grant_collection_role
  apply_type db actor request resource_access =
      found_uuid (parse_uuid request.target_id) >>= λ item_id.
      collection_of db request.tenant_id item_id >>= λ collection.
      valid (role_with_id db request.requested_role_id) >>= λ role.
      grant_collection_role casefold db collection.id (codes "user") request.requester_user_id
        role.code actor.user_id
      >>= λ granted. ok (tables_of granted)
  apply_type db actor request plugin_installation = ok db

  -- _apply_approval
  unfoldable pub apply_approval :
      Tables → AuthContext → ApprovalRequest → Result ServiceError Tables
  unfolding apply_type
  apply_approval db actor request = apply_type db actor request request.request_type

  -- What update_request checks and does before it writes the decision
  unfoldable pub decide :
      Tables → AuthContext → ApprovalRequest → RequestStatus → Result ServiceError Tables
  unfolding apply_approval
  decide db actor request pending = err invalid
  decide db actor request cancelled =
      if is_same_user (some request.requester_user_id) actor.user_id
      then ok db
      else require_reviewer actor request.request_type >>= λ _. ok db
  decide db actor request denied = require_reviewer actor request.request_type >>= λ _. ok db
  decide db actor request approved =
      require_reviewer actor request.request_type >>= λ _. apply_approval db actor request

  -- update_request
  unfoldable pub update_request :
      Approvals
      → AuthContext
      → (request_id : ℕ) → (status : Str) → (decision_note : Option Str) → (now : ℕ)
      → Result ServiceError (ApprovalRequest × Approvals)
  unfolding status_of decide normalize_optional_text
  update_request db actor request_id status decision_note now =
      permitted (require_tenant_permission actor []) >>= λ tenant_id.
      one_of (keep (is_request tenant_id request_id) db.requests) >>= λ request.
      require (is_pending request.status) conflict
      >> (status_of casefold status >>= λ next. decide db.tables actor request next >>= λ tables.
          normalize_optional_text decision_note 4000 >>= λ note.
          tenant_user tables tenant_id request.requester_user_id
          >> ok (recorded db tables actor (decided request next actor.user_id note now)))

  module _ (print_uuid : ℕ → Str) where
    -- create_request; the id is that of the new row.
    unfoldable pub create_request :
        Approvals
        → AuthContext
        → (request_type target_id : Str) → Option (Dict Str Json)
        → (reason : Option Str) → (requester_user_id : Option ℕ) → (new_id : ℕ)
        → Result ServiceError (ApprovalRequest × Approvals)
    unfolding request_type_of target_of normalize_optional_text has_equivalent
    create_request db actor request_type target_id details reason requester_user_id new_id =
        permitted (require_tenant_permission actor []) >>= λ tenant_id.
        request_type_of casefold request_type >>= λ type.
        let asked = requester_or requester_user_id actor.user_id in
        target_of casefold parse_uuid print_uuid db.tables actor tenant_id type asked target_id
          details
        >>= λ target. normalize_optional_text reason 4000 >>= λ normalized.
            require (not (has_equivalent db tenant_id asked type target.0)) conflict
            >> (known_user db.tables asked >>= λ requester_id.
                tenant_user db.tables tenant_id requester_id
                >> (let request =
                      new_request new_id tenant_id requester_id type target.0 target.1 normalized in
                    ok (
                      request,
                      record db {
                        requests = db.requests ++ (request ∷ []);
                        audit = db.audit ++ (event_of actor.user_id request ∷ []);
                      },
                    )))
