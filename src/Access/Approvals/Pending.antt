-- ===== src/Access/Approvals/Pending.antt =====
-- What every series of writes to the approval requests keeps,
-- backend/bothesis/services/approval_request.py.
use Prim.{absurd}
use mathlib.Core.Path.{subst}
use bo_thesis.Base.Json.{Json}
use bo_thesis.Base.Dict.{Dict}
use bo_thesis.Base.Result.{ok_same, ok, >>=-eq-ok, require-eq-ok}
use bo_thesis.Base.{
  ℕ, ◌≡◌, refl, sym, ap, ◌∙◌, false, not, Option, none, some, [], ◌∷◌, ◌++◌, any, Str, contains,
  is_unique, is_unique-append, Member, Member-keep, Member-append_left, nat_beq, nat_eq, list_eq,
  arith,
}
use bo_thesis.Access.{AuthContext, require_tenant_permission}
use bo_thesis.Access.RoleAssignments.{Tables, missing, conflict, is_member}
use bo_thesis.Access.Approvals.{
  RequestStatus, pending, approved, denied, cancelled, ApprovalRequest, Approvals, is_pending,
  permitted, normalize_optional_text, requester_or, is_equivalent, known_user,
}
use bo_thesis.Access.Approvals.Targets.{request_type_of, target_of}
use bo_thesis.Access.Approvals.Requests.{has_equivalent, create_request, update_request}
use bo_thesis.Access.Approvals.Effects.{MayDecide}
use bo_thesis.Access.Approvals.Decided.{update_request-stored}
use bo_thesis.Access.Approvals.Table.{
  ids, IsSound, ids-store, append-HasOnePending, store-HasOnePending, ids-snoc, others-Member,
  decided-apart,
}

module _ (casefold : Str → Str) (parse_uuid : Str → Option ℕ) (print_uuid : ℕ → Str) where
  -- A call that writes and returns. The id of a new row is a new one.
  pub data Step : Approvals → Approvals → Type 0 where
    created :
        {db after : Approvals} (actor : AuthContext) (request_type target_id : Str)
        (details : Option (Dict Str Json)) (reason : Option Str) (requester_user_id : Option ℕ)
        (new_id : ℕ) (row : ApprovalRequest)
        → contains (ids db.requests) new_id ≡ false
        → create_request casefold parse_uuid print_uuid db actor request_type target_id details
            reason requester_user_id new_id
          ≡ ok (row, after)
        → Step db after
    updated :
        {db after : Approvals} (actor : AuthContext) (request_id : ℕ) (status : Str)
        (decision_note : Option Str) (now : ℕ) (row : ApprovalRequest)
        → update_request casefold parse_uuid db actor request_id status decision_note now
          ≡ ok (row, after)
        → Step db after

  pub data Reaches (start : Approvals) : Approvals → Type 0 where
    at_start : Reaches start start
    next : {db after : Approvals} → Reaches start db → Step db after → Reaches start after

known-ok : (db : Tables) (asked : Option ℕ) {id : ℕ} → known_user db asked ≡ ok id → asked ≡ some id
known-ok db none h = cc
known-ok db (some a) h = ground arith

module _ (casefold : Str → Str) (parse_uuid : Str → Option ℕ) (print_uuid : ℕ → Str) where
  -- A new request is pending, and none is equivalent to it.
  abbrev pub IsNew : Approvals → ApprovalRequest → Approvals → Type 0
  IsNew db row after =
      (row.status ≡ pending)
      × (any (is_equivalent row.tenant_id row.requester_user_id row.request_type row.target_id)
            db.requests
          ≡ false)
      × (after.requests ≡ db.requests ++ row ∷ [])

  create_request-IsNew :
      (db : Approvals) (actor : AuthContext) (request_type target_id : Str)
      (details : Option (Dict Str Json)) (reason : Option Str) (requester_user_id : Option ℕ)
      (new_id : ℕ) {row : ApprovalRequest} {after : Approvals}
      → create_request casefold parse_uuid print_uuid db actor request_type target_id details reason
          requester_user_id new_id
        ≡ ok (row, after)
      → IsNew db row after × (row.id ≡ new_id)
  unfolding create_request has_equivalent
  create_request-IsNew db actor request_type target_id details reason requester_user_id new_id {row}
        {after} h =
      let asked = requester_or requester_user_id actor.user_id in
      let (tenant_id, scoped, h1) =
        >>=-eq-ok (permitted (require_tenant_permission actor [])) _ h in
      let (type, named, h2) = >>=-eq-ok (request_type_of casefold request_type) _ h1 in
      let (target, held, h3) =
        >>=-eq-ok
          (target_of casefold parse_uuid print_uuid db.tables actor tenant_id type asked target_id
            details)
          _ h2 in
      let (normalized, noted, h4) = >>=-eq-ok (normalize_optional_text reason 4000) _ h3 in
      let (fresh, h5) =
        require-eq-ok (not (has_equivalent db tenant_id asked type target.0)) conflict _ h4 in
      let (requester_id, known, h6) = >>=-eq-ok (known_user db.tables asked) _ h5 in
      let (there, made) = require-eq-ok (is_member db.tables tenant_id requester_id) missing _ h6 in
      let alone : has_equivalent db tenant_id (some requester_id) type target.0 ≡ false =
        subst (λ a. has_equivalent db tenant_id a type target.0 ≡ false)
          (known-ok db.tables asked known) (ground (arith, fresh)) in
      let same = ok_same _ refl made in
      subst (λ (r : ApprovalRequest). IsNew db r after × (r.id ≡ new_id))
        (ap (λ (result : ApprovalRequest × Approvals). result.0) same)
        (
          (
            refl,
            alone,
            sym (ap (λ (result : ApprovalRequest × Approvals). result.1.requests) same),
          ),
          refl,
        )

decided-not_pending :
    (actor : AuthContext) (request : ApprovalRequest) (status : RequestStatus)
    → MayDecide actor request status
    → is_pending status ≡ false
decided-not_pending actor request pending may = absurd may
decided-not_pending actor request approved may = refl
decided-not_pending actor request denied may = refl
decided-not_pending actor request cancelled may = refl

-- A sound table stays sound, and the requests that are decided stay as they are.
abbrev pub IsKept : Approvals → Approvals → Type 0
IsKept db after =
    IsSound after.requests
    × ((r : ApprovalRequest)
        → Member r db.requests
        → is_pending r.status ≡ false
        → Member r after.requests)

module _ (casefold : Str → Str) (parse_uuid : Str → Option ℕ) (print_uuid : ℕ → Str) where
  step-IsKept :
      (db after : Approvals)
      → IsSound db.requests
      → Step casefold parse_uuid print_uuid db after
      → IsKept db after
  step-IsKept db after (u, one)
        (created actor request_type target_id details reason requester_user_id new_id row fresh h) =
      let ((status, alone, added), same) =
        create_request-IsNew casefold parse_uuid print_uuid db actor request_type target_id details
          reason requester_user_id new_id h in
      subst
        (λ requests.
          IsSound requests
          × ((r : ApprovalRequest)
              → Member r db.requests
              → is_pending r.status ≡ false
              → Member r requests))
        (sym added)
        (
          (
            ap is_unique (ids-snoc row db.requests)
                ∙ is_unique-append (ids db.requests) row.id u
                    (ap (contains (ids db.requests)) same ∙ fresh),
            append-HasOnePending row db.requests alone one,
          ),
          λ r m final. Member-append_left r db.requests (row ∷ []) m,
        )
  step-IsKept db after (u, one) (updated actor request_id status decision_note now row h) =
      let (
        (
          request, found, same, scoped, live, was_pending, named, made, may, effect, there, rest,
          logged,
        ),
        stored,
      ) =
        update_request-stored casefold parse_uuid db actor request_id status decision_note now h in
      (
        subst IsSound (sym stored) (
          ap is_unique (ids-store row db.requests) ∙ u,
          store-HasOnePending row db.requests (decided-not_pending actor request row.status may)
              one,
        ),
        λ r m final. others-Member r request_id after.requests (
            subst (Member r) (sym rest) (
              Member-keep r (λ (x : ApprovalRequest). not (nat_beq x.id request_id)) db.requests m
                (decided-apart r request db.requests request_id u m found same final was_pending))),
      )

  -- However many calls create and update requests, with new ids for new rows: ids stay unique, a
  -- requester never has two pending requests of one type for one target, and a request that is
  -- decided stays in the table as it is.
  pub reaches-IsKept :
      (db after : Approvals)
      → IsSound db.requests
      → Reaches casefold parse_uuid print_uuid db after
      → IsKept db after
  reaches-IsKept db after sound at_start = (sound, λ r m final. m)
  reaches-IsKept db after sound (next {db = middle} before step) =
      let (still, held) = reaches-IsKept db middle sound before in
      let (now, after_held) = step-IsKept middle after still step in
      (now, λ r m final. after_held r (held r m final) final)
