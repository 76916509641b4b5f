-- ===== src/Access/Approvals/Targets.antt =====
-- What a new approval request asks for, backend/bothesis/services/approval_request.py.
use bo_thesis.Base.Json.{Json}
use bo_thesis.Base.Dict.{Dict}
use bo_thesis.Base.Result.{Result, ok, err, ◌>>=◌, require, ◌>>◌}
use bo_thesis.Base.{
  ℕ, not, Option, none, some, contains, Str, codes, strip, nat_eq, list_beq, list_eq, if◌then◌else◌,
}
use bo_thesis.Access.{AuthContext}
use bo_thesis.Access.RoleAssignments.{Tables, ServiceError, invalid}
use bo_thesis.Access.Approvals.{
  RequestType, resource_access, plugin_installation, RequestStatus, pending, approved, denied,
  cancelled, normalize_required_text, require_reviewer, collection_of, is_same_user, role_detail,
  has_details, collection_role_codes, valid, role_with_code, has_user,
}

module _ (casefold : Str → Str) where
  -- _request_type
  unfoldable pub request_type_of : Str → Result ServiceError RequestType
  request_type_of value =
      let normalized = casefold (strip value) in
      if list_beq normalized (codes "resource_access")
      then ok resource_access
      else if list_beq normalized (codes "plugin_installation")
      then ok plugin_installation
      else err invalid

  -- _status
  unfoldable pub status_of : Str → Result ServiceError RequestStatus
  status_of value =
      let normalized = casefold (strip value) in
      if list_beq normalized (codes "pending")
      then ok pending
      else if list_beq normalized (codes "approved")
      then ok approved
      else if list_beq normalized (codes "denied")
      then ok denied
      else if list_beq normalized (codes "cancelled")
      then ok cancelled
      else err invalid

  -- _plugin_target
  unfoldable pub plugin_target : Str → Option (Dict Str Json) → Result ServiceError (Str × Option ℕ)
  unfolding normalize_required_text
  plugin_target target_id details =
      require (not (has_details details)) invalid
      >> (normalize_required_text target_id 64 >>= λ key. ok (casefold key, none))

  module _ (parse_uuid : Str → Option ℕ) (print_uuid : ℕ → Str) where
    -- _resource_access_target
    unfoldable pub resource_access_target :
        Tables → ℕ → Str → Option (Dict Str Json) → Result ServiceError (Str × Option ℕ)
    unfolding normalize_required_text collection_of role_with_code
    resource_access_target db tenant_id target_id details =
        normalize_required_text target_id 512 >>= λ text. valid (parse_uuid text) >>= λ item_id.
        collection_of db tenant_id item_id >>= λ collection. role_detail details >>= λ role.
        let role_code = casefold (strip role) in
        require (contains collection_role_codes role_code) invalid
        >> (valid (role_with_code db role_code) >>= λ found. ok (print_uuid item_id, some found.id))

    -- The target of a request, with the checks that its type asks for
    unfoldable pub target_of :
        Tables
        → AuthContext
        → ℕ
        → RequestType
        → Option ℕ
        → Str
        → Option (Dict Str Json)
        → Result ServiceError (Str × Option ℕ)
    unfolding resource_access_target plugin_target
    target_of db actor tenant_id resource_access requester target_id details =
        (if is_same_user requester actor.user_id
          then ok tenant_id
          else require_reviewer actor resource_access)
        >>= λ _.
            has_user db tenant_id requester >> resource_access_target db tenant_id target_id details
    target_of db actor tenant_id plugin_installation requester target_id details =
        require_reviewer actor plugin_installation >>= λ _. plugin_target target_id details
