-- ===== src/Access/RoleAssignments/Granted.antt =====
-- The grants that RoleAssignmentService leaves,
-- backend/bothesis/services/identity_access/role_assignments.py.
use mathlib.Core.Path.{subst}
use bo_thesis.Base.Result.{ok, >>=-eq-ok, require-eq-ok}
use bo_thesis.Base.{
  ℕ, ◌≡◌, refl, sym, ap, ◌∙◌, Bool, true, false, not, ◌&&◌, Option, some, List, [], ◌∷◌, ◌++◌,
  append-nil, keep, Str, nat_beq_iff, Bool-cases, inl, inr, nat_eq, list_eq, if◌then◌else◌, arith,
}
use bo_thesis.Base.{Member}
use bo_thesis.Access.RoleAssignments.{
  one_of, Principal, user, group, Scope, platform, tenant, item, collection_scope, ScopedRole,
  Assignment, Tables, missing, principal_beq, scope_beq, is_live_at, live_grants, retired,
  collection_tenant_id, has_principal, principal_of, find_role, grant_collection_role,
}

keep-append :
    {A : Type 0} (p : A → Bool) (xs ys : List A) → keep p (xs ++ ys) ≡ keep p xs ++ keep p ys
keep-append p [] ys = refl
keep-append p (x ∷ xs) ys = elim (Bool-cases (p x)) [
  | inl kept ↦ rw kept (ap (λ t. x ∷ t) (keep-append p xs ys))
  | inr dropped ↦ rw dropped (keep-append p xs ys)
]

keep-same :
    {A : Type 0} (p q : A → Bool) (xs : List A) → ((x : A) → p x ≡ q x) → keep p xs ≡ keep q xs
keep-same p q [] h = refl
keep-same p q (x ∷ xs) h =
    ap (λ b. if b then x ∷ keep p xs else keep p xs) (h x)
    ∙ ap (λ t. if q x then x ∷ t else t) (keep-same p q xs h)

keep-none : {A : Type 0} (p : A → Bool) (xs : List A) → ((x : A) → p x ≡ false) → keep p xs ≡ []
keep-none p [] h = refl
keep-none p (x ∷ xs) h = ap (λ b. if b then x ∷ keep p xs else keep p xs) (h x) ∙ keep-none p xs h

-- The live grants after some were retired.
keep-retired :
    (test : Assignment → Bool) (scope : Scope) (principal : Principal) (grants : List Assignment)
    → keep (is_live_at scope principal) (retired test grants)
      ≡ keep (λ g. is_live_at scope principal g && not (test g)) grants
keep-retired test scope principal [] = refl
keep-retired test scope principal (g ∷ grants) = elim (Bool-cases (test g)) [
  | inl gone ↦ rw gone (ground (arith, keep-retired test scope principal grants))
  | inr stays ↦ rw stays (ground (arith, keep-retired test scope principal grants))
]

principal_same : (p q : Principal) → principal_beq p q ≡ true → p ≡ q
principal_same (user a) (user b) h = ap user ((nat_beq_iff a b).0 h)
principal_same (group a) (group b) h = ap group ((nat_beq_iff a b).0 h)
principal_same (user a) (group b) h = cc
principal_same (group a) (user b) h = cc

scope_same : (s t : Scope) → scope_beq s t ≡ true → s ≡ t
scope_same platform platform h = refl
scope_same (tenant a) (tenant b) h = ap tenant ((nat_beq_iff a b).0 h)
scope_same (item a) (item b) h = ap item ((nat_beq_iff a b).0 h)
scope_same platform (tenant b) h = cc
scope_same platform (item b) h = cc
scope_same (tenant a) platform h = cc
scope_same (tenant a) (item b) h = cc
scope_same (item a) platform h = cc
scope_same (item a) (tenant b) h = cc

abbrev pub is_same_place : Scope → Principal → Scope → Principal → Bool
is_same_place s p t q = scope_beq s t && principal_beq p q

scope_refl : (s : Scope) → scope_beq s s ≡ true
scope_refl platform = refl
scope_refl (tenant a) = (nat_beq_iff a a).1 refl
scope_refl (item a) = (nat_beq_iff a a).1 refl

principal_refl : (p : Principal) → principal_beq p p ≡ true
principal_refl (user a) = (nat_beq_iff a a).1 refl
principal_refl (group a) = (nat_beq_iff a a).1 refl

-- A grant is at one place.
live-apart :
    (s t : Scope) (p q : Principal) (g : Assignment)
    → is_same_place s p t q ≡ false
    → (is_live_at t q g && not (is_live_at s p g)) ≡ is_live_at t q g
live-apart s t p q g apart = by_tests (is_live_at t q g) (is_live_at s p g) refl refl
  where
    by_tests :
        (a b : Bool)
        → is_live_at t q g ≡ a
        → is_live_at s p g ≡ b
        → (is_live_at t q g && not (is_live_at s p g)) ≡ is_live_at t q g
    by_tests false b e f = rw e refl
    by_tests true false e f = rw e (rw f refl)
    by_tests true true e f =
        let scope : s ≡ t =
          sym (scope_same g.scope s (ground (arith, f)))
          ∙ scope_same g.scope t (ground (arith, e)) in
        let principal : p ≡ q =
          sym (principal_same g.principal p (ground (arith, f)))
          ∙ principal_same g.principal q (ground (arith, e)) in
        cc (
          apart,
          ap (λ u. scope_beq u t && principal_beq p q) scope,
          ap (λ u. scope_beq t t && principal_beq u q) principal,
          ap (λ b. b && principal_beq q q) (scope_refl t),
          principal_refl q,
        )

live-retired :
    (s t : Scope) (p q : Principal) (grants : List Assignment)
    → keep (is_live_at t q) (retired (is_live_at s p) grants)
      ≡ (if is_same_place s p t q then [] else keep (is_live_at t q) grants)
live-retired s t p q grants =
    keep-retired (is_live_at s p) t q grants ∙ elim (Bool-cases (is_same_place s p t q)) [
      | inl same ↦
          let scope : s ≡ t = scope_same s t (ground (arith, same)) in
          let principal : p ≡ q = principal_same p q (ground (arith, same)) in
          rw same (
            keep-none (λ g. is_live_at t q g && not (is_live_at s p g)) grants
              λ g.
                ap (λ u. is_live_at t q g && not (is_live_at u p g)) scope
                ∙ ap (λ u. is_live_at t q g && not (is_live_at t u g)) principal
                ∙ never (is_live_at t q g))
      | inr apart ↦ rw apart (
          keep-same (λ g. is_live_at t q g && not (is_live_at s p g)) (is_live_at t q) grants
            λ g. live-apart s t p q g apart)
    ]
  where
    never : (b : Bool) → (b && not b) ≡ false
    never true = refl
    never false = refl

live-new :
    (t : Scope) (q : Principal) (grants : List Assignment) (grant : Assignment)
    → grant.is_deleted ≡ false
    → keep
        (is_live_at t q)
        (retired (is_live_at grant.scope grant.principal) grants ++ (grant ∷ []))
      ≡ (if is_same_place grant.scope grant.principal t q
          then grant ∷ []
          else keep (is_live_at t q) grants)
live-new t q grants grant live =
    keep-append (is_live_at t q) (retired (is_live_at grant.scope grant.principal) grants)
      (grant ∷ [])
    ∙ ap (λ xs. xs ++ keep (is_live_at t q) (grant ∷ []))
        (live-retired grant.scope t grant.principal q grants)
    ∙ by_place (is_same_place grant.scope grant.principal t q) refl
  where
    by_place :
        (b : Bool)
        → is_same_place grant.scope grant.principal t q ≡ b
        → ((if b then [] else keep (is_live_at t q) grants) ++ keep (is_live_at t q) (grant ∷ []))
          ≡ (if b then grant ∷ [] else keep (is_live_at t q) grants)
    by_place true e =
        let kept : is_live_at t q grant ≡ true = ground (arith, e, live) in
        ap (λ b. if b then grant ∷ [] else []) kept
    by_place false e =
        let dropped : is_live_at t q grant ≡ false = ground (arith, e, live) in
        ap (λ b. keep (is_live_at t q) grants ++ (if b then grant ∷ [] else [])) dropped
        ∙ append-nil (keep (is_live_at t q) grants)

pub one_of-ok : {A : Type 0} (rows : List A) {a : A} → one_of rows ≡ ok a → Member a rows
one_of-ok [] h = cc
one_of-ok (row ∷ rows) h = inl (cc)

-- What a grant of a Collection role leaves: at its place it is the only live one, and every other
-- place is as it was.
abbrev pub HoldsOnly : Tables → Assignment → Tables → Type 0
HoldsOnly db grant after =
    (t : Scope) (q : Principal)
    → live_grants after t q
      ≡ (if is_same_place grant.scope grant.principal t q then grant ∷ [] else live_grants db t q)

abbrev pub IsGranted :
    (casefold : Str → Str)
    → Tables
    → (item_id : ℕ) → (principal_type : Str) → (principal_id : ℕ) → (role_code : Str)
    → Assignment × ScopedRole × Tables
    → Type 0
IsGranted casefold db item_id principal_type principal_id role_code (grant, role, after) =
    (tenant_id : ℕ) × (collection_tenant_id db item_id ≡ ok tenant_id)
    × (principal_of casefold principal_type principal_id ≡ ok grant.principal)
    × (find_role casefold db role_code (some tenant_id) collection_scope ≡ ok role)
    × (has_principal db tenant_id grant.principal ≡ true)
    × (grant.role_id ≡ role.id)
    × (grant.scope ≡ item item_id)
    × (after ≡ record db { assignments = after.assignments })
    × HoldsOnly db grant after

-- A Collection role that was granted is the one live role of the principal on the Collection, and
-- the live roles of every other principal and place are as they were. The Collection is live, the
-- principal belongs to its tenant, the role is the active Collection role of the given code, and
-- the other tables are left as they were.
pub grant_collection_role-IsGranted :
    (casefold : Str → Str) (db : Tables) (item_id : ℕ) (principal_type : Str) (principal_id : ℕ)
    (role_code : Str) (created_by_user_id : Option ℕ) {result : Assignment × ScopedRole × Tables}
    → grant_collection_role casefold db item_id principal_type principal_id role_code
        created_by_user_id
      ≡ ok result
    → IsGranted casefold db item_id principal_type principal_id role_code result
unfolding grant_collection_role
grant_collection_role-IsGranted casefold db item_id principal_type principal_id role_code
      created_by_user_id {result} h =
    let (tenant_id, owned, h1) = >>=-eq-ok (collection_tenant_id db item_id) _ h in
    let (principal, named, h2) =
      >>=-eq-ok (principal_of casefold principal_type principal_id) _ h1 in
    let (role, found, h3) =
      >>=-eq-ok (find_role casefold db role_code (some tenant_id) collection_scope) _ h2 in
    let (there, made) =
      require-eq-ok (has_principal db tenant_id principal) missing
        (ok (granted_by tenant_id principal role)) h3 in
    let same : granted_by tenant_id principal role ≡ result = cc made in
    subst (IsGranted casefold db item_id principal_type principal_id role_code) same (
      tenant_id,
      owned,
      named,
      found,
      there,
      refl,
      refl,
      refl,
      λ t q. live-new t q db.assignments (granted_by tenant_id principal role).0 refl,
    )
  where
    granted_by : ℕ → Principal → ScopedRole → Assignment × ScopedRole × Tables
    granted_by tenant_id principal role =
        let grant : Assignment = record {
          principal = principal;
          role_id = role.id;
          scope = item item_id;
          created_by_user_id = created_by_user_id;
          is_deleted = false;
        } in
        (
          grant,
          role,
          record db {
            assignments =
                retired (is_live_at (item item_id) principal) db.assignments ++ (grant ∷ []);
          },
        )
