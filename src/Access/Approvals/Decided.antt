-- ===== src/Access/Approvals/Decided.antt =====
-- What update_request leaves, backend/bothesis/services/approval_request.py.
use mathlib.Core.Path.{subst}
use bo_thesis.Base.Result.{ok, >>=-eq-ok, require-eq-ok}
use bo_thesis.Base.{
  ℕ, ◌≡◌, inl, inr, refl, sym, ap, ◌∙◌, true, false, not, Option, some, List, [], ◌∷◌, ◌++◌, keep,
  Str, Member, Member-keep_cases, nat_beq, nat_beq_iff, Bool-cases, nat_eq, list_eq, if◌then◌else◌,
  arith,
}
use bo_thesis.Access.{AuthContext, require_tenant_permission}
use bo_thesis.Access.RoleAssignments.{Tables, is_member, missing, conflict, one_of}
use bo_thesis.Access.RoleAssignments.Granted.{one_of-ok}
use bo_thesis.Access.Approvals.{
  RequestStatus, pending, approved, denied, cancelled, ApprovalRequest, Approvals, is_pending,
  permitted, normalize_optional_text, decided, event_of, is_request, store,
}
use bo_thesis.Access.Approvals.Targets.{status_of}
use bo_thesis.Access.Approvals.Requests.{recorded, decide, update_request}
use bo_thesis.Access.Approvals.Effects.{MayDecide, HasEffect, tenant-ok, decide-ok}

abbrev pub others : ℕ → List ApprovalRequest → List ApprovalRequest
others request_id requests = keep (λ (r : ApprovalRequest). not (nat_beq r.id request_id)) requests

-- No other request is written, and the decided one is there.
others-store :
    (row : ApprovalRequest) (requests : List ApprovalRequest)
    → others row.id (store row requests) ≡ others row.id requests
others-store row [] = refl
others-store row (r ∷ requests) = elim (Bool-cases (nat_beq r.id row.id)) [
  | inl same ↦ rw same (
      ap
        (λ b.
          if not b
          then row ∷ others row.id (store row requests)
          else others row.id (store row requests))
        ((nat_beq_iff row.id row.id).1 refl)
      ∙ others-store row requests)
  | inr another ↦ rw another (
      ap
        (λ b.
          if not b
          then r ∷ others row.id (store row requests)
          else others row.id (store row requests))
        another
      ∙ ap (λ rest. r ∷ rest) (others-store row requests))
]

store-Member :
    (row request : ApprovalRequest) (requests : List ApprovalRequest)
    → request.id ≡ row.id
    → Member request requests
    → Member row (store row requests)
store-Member row request [] same m = m
store-Member row request (r ∷ requests) same (inl e) = inl (
    ap (λ b. if b then row else r)
      (sym ((nat_beq_iff r.id row.id).1 (sym (ap (λ (r : ApprovalRequest). r.id) e) ∙ same))))
store-Member row request (r ∷ requests) same (inr m) =
    inr (store-Member row request requests same m)

pending-ok : (status : RequestStatus) → is_pending status ≡ true → status ≡ pending
pending-ok pending h = refl
pending-ok approved h = cc
pending-ok denied h = cc
pending-ok cancelled h = cc

module _ (casefold : Str → Str) (parse_uuid : Str → Option ℕ) where
  abbrev pub IsDecided :
      Approvals
      → AuthContext
      → (request_id : ℕ) → (status : Str) → (now : ℕ) → ApprovalRequest × Approvals
      → Type 0
  IsDecided db actor request_id status now (row, after) =
      (request : ApprovalRequest) × Member request db.requests
      × (request.id ≡ request_id)
      × (actor.tenant_id ≡ some request.tenant_id)
      × (request.is_deleted ≡ false)
      × (request.status ≡ pending)
      × (status_of casefold status ≡ ok row.status)
      × (row ≡ decided request row.status actor.user_id row.decision_note now)
      × MayDecide actor request row.status
      × HasEffect casefold parse_uuid db.tables request row.status request.request_type after.tables
      × Member row after.requests
      × (others request_id after.requests ≡ others request_id db.requests)
      × (after.audit ≡ db.audit ++ (event_of actor.user_id row ∷ []))

  recorded-IsDecided :
      (db : Approvals) (actor : AuthContext) (request_id : ℕ) (status : Str) (now tenant_id : ℕ)
      (request : ApprovalRequest) (next : RequestStatus) (tables : Tables) (note : Option Str)
      → actor.tenant_id ≡ some tenant_id
      → Member request db.requests
      → is_request tenant_id request_id request ≡ true
      → is_pending request.status ≡ true
      → status_of casefold status ≡ ok next
      → MayDecide actor request next
      → HasEffect casefold parse_uuid db.tables request next request.request_type tables
      → IsDecided db actor request_id status now
          (recorded db tables actor (decided request next actor.user_id note now))
  recorded-IsDecided db actor request_id status now tenant_id request next tables note scoped found
        kept is_open named may effect =
      let (same, inside, live) = selected request kept in
      let row = decided request next actor.user_id note now in
      (
        request,
        found,
        same,
        scoped ∙ ap some (sym inside),
        live,
        pending-ok request.status is_open,
        named,
        refl,
        may,
        effect,
        store-Member row request db.requests refl found,
        subst (λ id. others id (store row db.requests) ≡ others id db.requests) same
            (others-store row db.requests),
        refl,
      )
    where
      selected :
          (r : ApprovalRequest)
          → is_request tenant_id request_id r ≡ true
          → (r.id ≡ request_id) × (r.tenant_id ≡ tenant_id) × (r.is_deleted ≡ false)
      selected r h = (
        (nat_beq_iff r.id request_id).0 (ground (arith, h)),
        (nat_beq_iff r.tenant_id tenant_id).0 (ground (arith, h)),
        ground (arith, h),
      )

  pub update_request-stored :
      (db : Approvals) (actor : AuthContext) (request_id : ℕ) (status : Str)
      (decision_note : Option Str) (now : ℕ) {result : ApprovalRequest × Approvals}
      → update_request casefold parse_uuid db actor request_id status decision_note now ≡ ok result
      → IsDecided db actor request_id status now result
        × (result.1.requests ≡ store result.0 db.requests)
  unfolding update_request
  update_request-stored db actor request_id status decision_note now {result} h =
      let (tenant_id, scoped, h1) =
        >>=-eq-ok (permitted (require_tenant_permission actor [])) _ h in
      let (request, selected, h2) =
        >>=-eq-ok (one_of (keep (is_request tenant_id request_id) db.requests)) _ h1 in
      let (is_open, h3) = require-eq-ok (is_pending request.status) conflict _ h2 in
      let (next, named, h4) = >>=-eq-ok (status_of casefold status) _ h3 in
      let (tables, made, h5) =
        >>=-eq-ok (decide casefold parse_uuid db.tables actor request next) _ h4 in
      let (note, noted, h6) = >>=-eq-ok (normalize_optional_text decision_note 4000) _ h5 in
      let (there, stored) =
        require-eq-ok (is_member tables tenant_id request.requester_user_id) missing _ h6 in
      let (found, kept) =
        Member-keep_cases request (is_request tenant_id request_id) db.requests
          (one_of-ok _ selected) in
      let (may, effect) = decide-ok casefold parse_uuid db.tables actor request next made in
      subst
        (λ (result : ApprovalRequest × Approvals).
          IsDecided db actor request_id status now result
          × (result.1.requests ≡ store result.0 db.requests))
        (cc stored)
        (
          (recorded-IsDecided db actor request_id status now tenant_id request next tables note
              (tenant-ok actor [] scoped) found kept is_open named may effect),
          refl,
        )

  -- A decision is made on a pending request of the actor's tenant, by a reviewer of its type or, to
  -- cancel it, by the requester, and never leaves it pending. An approval of access grants the
  -- requester the role on the Collection that the request names; any other decision leaves items,
  -- roles and grants as they are. No other request changes, and the decision is in the audit log.
  pub update_request-IsDecided :
      (db : Approvals) (actor : AuthContext) (request_id : ℕ) (status : Str)
      (decision_note : Option Str) (now : ℕ) {result : ApprovalRequest × Approvals}
      → update_request casefold parse_uuid db actor request_id status decision_note now ≡ ok result
      → IsDecided db actor request_id status now result
  update_request-IsDecided db actor request_id status decision_note now h =
      (update_request-stored db actor request_id status decision_note now h).0
