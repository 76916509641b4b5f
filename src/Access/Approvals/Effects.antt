-- ===== src/Access/Approvals/Effects.antt =====
-- What a decision on an approval request does, backend/bothesis/services/approval_request.py.
use mathlib.Core.Path.{subst}
use bo_thesis.Base.Result.{Result, ok, err, ◌>>=◌, >>=-eq-ok}
use bo_thesis.Base.{
  ℕ, ◌≡◌, ◌⊎◌, inl, inr, refl, sym, ap, Bool, true, false, Option, none, some, List, Str, codes,
  contains, Member-keep_cases, nat_beq_iff, nat_eq, list_eq, if◌then◌else◌, arith,
}
use bo_thesis.Access.{Item, AccessError, AuthContext, require_tenant_permission}
use bo_thesis.Access.RoleAssignments.{Assignment, ScopedRole, Tables, grant_collection_role}
use bo_thesis.Access.RoleAssignments.Granted.{one_of-ok, IsGranted, grant_collection_role-IsGranted}
use bo_thesis.Access.Approvals.{
  RequestType, resource_access, plugin_installation, RequestStatus, pending, approved, denied,
  cancelled, ApprovalRequest, permitted, review_permission, require_reviewer, collection_of,
  is_same_user, valid, role_with_id,
}
use bo_thesis.Access.Approvals.Requests.{found_uuid, apply_type, apply_approval, decide}

-- A reviewer of the type, in the tenant.
abbrev pub IsReviewer : AuthContext → RequestType → Type 0
IsReviewer actor request_type =
    contains actor.permission_codes (review_permission request_type) ≡ true

abbrev pub MayDecide : AuthContext → ApprovalRequest → RequestStatus → Type 0
MayDecide actor request pending = ⊥
MayDecide actor request approved = IsReviewer actor request.request_type
MayDecide actor request denied = IsReviewer actor request.request_type
MayDecide actor request cancelled =
    (actor.user_id ≡ some request.requester_user_id) ⊎ IsReviewer actor request.request_type

module _ (casefold : Str → Str) (parse_uuid : Str → Option ℕ) where
  -- The grant of the requested role on the Collection that the request is for.
  abbrev pub GrantsRequested : Tables → ApprovalRequest → Tables → Type 0
  GrantsRequested db request after =
      (item_id : ℕ) × (parse_uuid request.target_id ≡ some item_id)
      × (role : ScopedRole) × (role_with_id db request.requested_role_id ≡ some role)
      × (grant : Assignment) × (granted_role : ScopedRole) × IsGranted casefold db item_id
          (codes "user") request.requester_user_id role.code (grant, granted_role, after)

  -- What a decision does to the tables besides the request.
  abbrev pub HasEffect : Tables → ApprovalRequest → RequestStatus → RequestType → Tables → Type 0
  HasEffect db request approved resource_access after = GrantsRequested db request after
  HasEffect db request approved plugin_installation after = after ≡ db
  HasEffect db request pending _ after = after ≡ db
  HasEffect db request denied _ after = after ≡ db
  HasEffect db request cancelled _ after = after ≡ db

pub found_uuid-ok : (found : Option ℕ) {id : ℕ} → found_uuid found ≡ ok id → found ≡ some id
found_uuid-ok none h = cc
found_uuid-ok (some id) h = cc

pub valid-ok : {A : Type 0} (found : Option A) {a : A} → valid found ≡ ok a → found ≡ some a
valid-ok none h = cc
valid-ok (some a) h = cc

pub permitted-ok :
    {A : Type 0} (call : Result AccessError A) {a : A} → permitted call ≡ ok a → call ≡ ok a
permitted-ok (ok a) h = cc
permitted-ok (err e) h = cc

pub tenant-ok :
    (actor : AuthContext) (required : List Str) {tenant_id : ℕ}
    → permitted (require_tenant_permission actor required) ≡ ok tenant_id
    → actor.tenant_id ≡ some tenant_id
unfolding require_tenant_permission
tenant-ok actor required h = ground arith

reviewer-ok :
    (actor : AuthContext) (request_type : RequestType) {tenant_id : ℕ}
    → require_reviewer actor request_type ≡ ok tenant_id
    → IsReviewer actor request_type
unfolding require_tenant_permission
reviewer-ok actor request_type h = ground arith

same_user-ok : (user : Option ℕ) (id : ℕ) → is_same_user (some id) user ≡ true → user ≡ some id
same_user-ok none id h = cc
same_user-ok (some a) id h = ap some (sym ((nat_beq_iff id a).0 h))

collection_id :
    (db : Tables) (tenant_id item_id : ℕ) {row : Item}
    → collection_of db tenant_id item_id ≡ ok row
    → row.id ≡ item_id
unfolding collection_of
collection_id db tenant_id item_id {row} h =
    let (there, kept) = Member-keep_cases row _ db.items (one_of-ok _ h) in
    (nat_beq_iff row.id item_id).0 (ground (arith, kept))

module _ (casefold : Str → Str) (parse_uuid : Str → Option ℕ) where
  apply_type-HasEffect :
      (db : Tables) (actor : AuthContext) (request : ApprovalRequest) (request_type : RequestType)
      {after : Tables}
      → apply_type casefold parse_uuid db actor request request_type ≡ ok after
      → HasEffect casefold parse_uuid db request approved request_type after
  unfolding apply_type
  apply_type-HasEffect db actor request plugin_installation h = cc
  apply_type-HasEffect db actor request resource_access {after} h =
      let (item_id, parsed, h1) = >>=-eq-ok (found_uuid (parse_uuid request.target_id)) _ h in
      let (row, there, h2) = >>=-eq-ok (collection_of db request.tenant_id item_id) _ h1 in
      let (role, named, h3) = >>=-eq-ok (valid (role_with_id db request.requested_role_id)) _ h2 in
      let ((grant, granted_role, tables), made, h4) =
        >>=-eq-ok
          (grant_collection_role casefold db row.id (codes "user") request.requester_user_id
            role.code actor.user_id)
          _ h3 in
      let granted =
        grant_collection_role-IsGranted casefold db row.id (codes "user") request.requester_user_id
          role.code actor.user_id made in
      let same : tables ≡ after = cc h4 in
      (
        item_id,
        found_uuid-ok (parse_uuid request.target_id) parsed,
        role,
        valid-ok (role_with_id db request.requested_role_id) named,
        grant,
        granted_role,
        subst
            (λ id.
              IsGranted casefold db id (codes "user") request.requester_user_id role.code
                (grant, granted_role, after))
            (collection_id db request.tenant_id item_id there)
            (subst
              (λ t.
                IsGranted casefold db row.id (codes "user") request.requester_user_id role.code
                  (grant, granted_role, t))
              same granted),
      )

  own-or_reviewed :
      (db : Tables) (actor : AuthContext) (request : ApprovalRequest) (own : Bool) {after : Tables}
      → is_same_user (some request.requester_user_id) actor.user_id ≡ own
      → (if own then ok db else (require_reviewer actor request.request_type >>= λ _. ok db))
        ≡ ok after
      → MayDecide actor request cancelled × (after ≡ db)
  own-or_reviewed db actor request true e h =
      (inl (same_user-ok actor.user_id request.requester_user_id e), cc)
  own-or_reviewed db actor request false e h =
      let (tenant_id, passed, same) = >>=-eq-ok (require_reviewer actor request.request_type) _ h in
      (inr (reviewer-ok actor request.request_type passed), cc same)

  pub decide-ok :
      (db : Tables) (actor : AuthContext) (request : ApprovalRequest) (next : RequestStatus)
      {after : Tables}
      → decide casefold parse_uuid db actor request next ≡ ok after
      → MayDecide actor request next
        × HasEffect casefold parse_uuid db request next request.request_type after
  unfolding decide apply_approval
  decide-ok db actor request pending h = cc
  decide-ok db actor request approved h =
      let (tenant_id, passed, applied) =
        >>=-eq-ok (require_reviewer actor request.request_type) _ h in
      (
        reviewer-ok actor request.request_type passed,
        apply_type-HasEffect db actor request request.request_type applied,
      )
  decide-ok db actor request denied h =
      let (tenant_id, passed, same) = >>=-eq-ok (require_reviewer actor request.request_type) _ h in
      (reviewer-ok actor request.request_type passed, cc same)
  decide-ok db actor request cancelled h = own-or_reviewed db actor request _ refl h
