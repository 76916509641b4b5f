-- ===== src/Access/Approvals/Table.antt =====
-- The rows of the approval requests, backend/bothesis/services/approval_request.py.
use Prim.{absurd}
use bo_thesis.Base.{
  ℕ, ◌+◌, ◌≤◌, ◌≡◌, inl, inr, refl, sym, ap, ◌∙◌, Bool, true, false, not, List, [], ◌∷◌, ◌++◌, map,
  keep, any, length, Str, contains, is_unique, Member, Member-keep_cases, Member-map,
  Member→contains, nat_beq, nat_beq_iff, list_beq_iff, Bool-cases, nat_eq, list_eq, if◌then◌else◌,
  arith,
}
use bo_thesis.Access.Approvals.{
  RequestType, resource_access, plugin_installation, pending, ApprovalRequest, is_pending,
  is_equivalent, request_type_beq, store,
}
use bo_thesis.Access.Approvals.Decided.{others}

abbrev pub ids : List ApprovalRequest → List ℕ
ids requests = map (λ (r : ApprovalRequest). r.id) requests

abbrev pub HasOnePending : List ApprovalRequest → Type 0
HasOnePending requests =
    (tenant_id requester_id : ℕ) (request_type : RequestType) (target_id : Str)
    → length (keep (is_equivalent tenant_id requester_id request_type target_id) requests) ≤ 1

-- What the constraints of the table ask for: ids are unique, and a requester has at most one pending
-- request of a type for a target.
abbrev pub IsSound : List ApprovalRequest → Type 0
IsSound requests = (is_unique (ids requests) ≡ true) × HasOnePending requests

pub keep-store_le :
    (p : ApprovalRequest → Bool) (row : ApprovalRequest) (requests : List ApprovalRequest)
    → p row ≡ false
    → length (keep p (store row requests)) ≤ length (keep p requests)
keep-store_le p row [] h = omega arith
keep-store_le p row (r ∷ requests) h = elim (Bool-cases (nat_beq r.id row.id)) [
  | inl same ↦ rw same (ground (arith, keep-store_le p row requests h, h))
  | inr another ↦ rw another (ground (arith, keep-store_le p row requests h))
]

pub ids-store :
    (row : ApprovalRequest) (requests : List ApprovalRequest)
    → ids (store row requests) ≡ ids requests
ids-store row [] = refl
ids-store row (r ∷ requests) = elim (Bool-cases (nat_beq r.id row.id)) [
  | inl same ↦ rw same (
      ap (λ id. id ∷ ids (store row requests)) (sym ((nat_beq_iff r.id row.id).0 same))
      ∙ ap (λ rest. r.id ∷ rest) (ids-store row requests))
  | inr another ↦ rw another (ap (λ rest. r.id ∷ rest) (ids-store row requests))
]

keep-snoc :
    (p : ApprovalRequest → Bool) (row : ApprovalRequest) (requests : List ApprovalRequest)
    → length (keep p (requests ++ row ∷ [])) ≡ length (keep p requests) + (if p row then 1 else 0)
keep-snoc p row [] = ground arith
keep-snoc p row (r ∷ requests) = ground (arith, keep-snoc p row requests)

keep-any_none :
    (p : ApprovalRequest → Bool) (requests : List ApprovalRequest)
    → any p requests ≡ false
    → length (keep p requests) ≡ 0
keep-any_none p [] h = refl
keep-any_none p (r ∷ requests) h = ground (arith, keep-any_none p requests, h)

type_same : (a b : RequestType) → request_type_beq a b ≡ true → a ≡ b
type_same resource_access resource_access h = refl
type_same plugin_installation plugin_installation h = refl
type_same resource_access plugin_installation h = cc
type_same plugin_installation resource_access h = cc

-- The requests of which a given one is an equivalent are those equivalent to it.
equivalent_same :
    (r : ApprovalRequest) (tenant_id requester_id : ℕ) (request_type : RequestType)
    (target_id : Str)
    → is_equivalent tenant_id requester_id request_type target_id r ≡ true
    → is_equivalent r.tenant_id r.requester_user_id r.request_type r.target_id
      ≡ is_equivalent tenant_id requester_id request_type target_id
equivalent_same r tenant_id requester_id request_type target_id h =
    ap (λ t. is_equivalent t r.requester_user_id r.request_type r.target_id)
      ((nat_beq_iff r.tenant_id tenant_id).0 (ground (arith, h)))
    ∙ ap (λ u. is_equivalent tenant_id u r.request_type r.target_id)
        ((nat_beq_iff r.requester_user_id requester_id).0 (ground (arith, h)))
    ∙ ap (λ t. is_equivalent tenant_id requester_id t r.target_id)
        (type_same r.request_type request_type (ground (arith, h)))
    ∙ ap (is_equivalent tenant_id requester_id request_type)
        ((list_beq_iff r.target_id target_id).0 (ground (arith, h)))

pub append-HasOnePending :
    (row : ApprovalRequest) (requests : List ApprovalRequest)
    → any
        (is_equivalent row.tenant_id row.requester_user_id row.request_type row.target_id)
        requests
      ≡ false
    → HasOnePending requests
    → HasOnePending (requests ++ row ∷ [])
append-HasOnePending row requests fresh one tenant_id requester_id request_type target_id =
    let p = is_equivalent tenant_id requester_id request_type target_id in
    elim (Bool-cases (p row)) [
      | inl same ↦
          let none_yet = keep-any_none p requests (
            ap (λ q. any q requests)
              (sym (equivalent_same row tenant_id requester_id request_type target_id same))
            ∙ fresh) in
          omega
            (arith, keep-snoc p row requests, none_yet, ap {B = ℕ} (λ b. if b then 1 else 0) same)
      | inr another ↦ omega (
        arith,
        keep-snoc p row requests,
        ap {B = ℕ} (λ b. if b then 1 else 0) another,
        one tenant_id requester_id request_type target_id,
      )
    ]

pub store-HasOnePending :
    (row : ApprovalRequest) (requests : List ApprovalRequest)
    → is_pending row.status ≡ false
    → HasOnePending requests
    → HasOnePending (store row requests)
store-HasOnePending row requests h one tenant_id requester_id request_type target_id =
    let p = is_equivalent tenant_id requester_id request_type target_id in
    let dropped : p row ≡ false = ground (arith, h) in
    omega (
      arith,
      keep-store_le p row requests dropped,
      one tenant_id requester_id request_type target_id,
    )

-- Ids tell requests apart.
unique_row :
    (a b : ApprovalRequest) (requests : List ApprovalRequest)
    → is_unique (ids requests) ≡ true
    → Member a requests
    → Member b requests
    → a.id ≡ b.id
    → a ≡ b
unique_row a b [] u m n same = absurd m
unique_row a b (r ∷ requests) u (inl e) (inl f) same = e ∙ sym f
unique_row a b (r ∷ requests) u (inl e) (inr m) same =
    let again =
      Member→contains (ids requests) b.id
        (Member-map b (λ (r : ApprovalRequest). r.id) requests m) in
    let at : b.id ≡ r.id = sym same ∙ ap (λ (r : ApprovalRequest). r.id) e in
    ground (arith, ap (contains (ids requests)) at, again, u)
unique_row a b (r ∷ requests) u (inr m) (inl e) same =
    let again =
      Member→contains (ids requests) a.id
        (Member-map a (λ (r : ApprovalRequest). r.id) requests m) in
    let at : a.id ≡ r.id = same ∙ ap (λ (r : ApprovalRequest). r.id) e in
    ground (arith, ap (contains (ids requests)) at, again, u)
unique_row a b (r ∷ requests) u (inr m) (inr n) same =
    unique_row a b requests (ground (arith, u)) m n same

pub ids-snoc :
    (row : ApprovalRequest) (requests : List ApprovalRequest)
    → ids (requests ++ row ∷ []) ≡ ids requests ++ row.id ∷ []
ids-snoc row [] = refl
ids-snoc row (r ∷ requests) = ap (λ rest. r.id ∷ rest) (ids-snoc row requests)

pub others-Member :
    (r : ApprovalRequest) (id : ℕ) (requests : List ApprovalRequest)
    → Member r (others id requests)
    → Member r requests
others-Member r id requests m =
    (Member-keep_cases r (λ (x : ApprovalRequest). not (nat_beq x.id id)) requests m).0

-- A decided request is not the pending one with an id.
pub decided-apart :
    (r request : ApprovalRequest) (requests : List ApprovalRequest) (id : ℕ)
    → is_unique (ids requests) ≡ true
    → Member r requests
    → Member request requests
    → request.id ≡ id
    → is_pending r.status ≡ false
    → request.status ≡ pending
    → not (nat_beq r.id id) ≡ true
decided-apart r request requests id u m found same final was_pending =
    elim (Bool-cases (nat_beq r.id id)) [
      | inl equal ↦
          let one : r ≡ request =
            unique_row r request requests u m found ((nat_beq_iff r.id id).0 equal ∙ sym same) in
          let still = ap (λ (x : ApprovalRequest). is_pending x.status) one in
          let was = ap is_pending was_pending in cc (final, still, was)
      | inr another ↦ ap not another
    ]
