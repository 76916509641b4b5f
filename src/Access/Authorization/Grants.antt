-- ===== src/Access/Authorization/Grants.antt =====
-- What a grant is, apart from the joins that find it, and how access flows down the tree of Items.
use mathlib.Core.Path.{subst}
use bo_thesis.Base.{
  ℕ, ◌≡◌, ◌↔◌, sym, true, false, Str, Member, Member-keep, Member-keep_cases, Member-gather,
  Member-gather_cases, Member-map, Member-map_cases, arith,
}
use bo_thesis.Access.{Role, RolePermission, RoleAssignment, Database, AuthContext}
use bo_thesis.Access.Authorization.{names, principal_match, granted_by, granted_through, granted_on}

-- A live grant on one Item to the actor or to a group of the actor, of an active role that holds the
-- permission.
pub record IsGranted (db : Database) (access : AuthContext) (item_id : ℕ) (code : Str)
    : Type 0 where
  pub grant : RoleAssignment
  pub role : Role
  pub permission : RolePermission
  pub grant_stored : Member grant db.role_assignments
  pub role_stored : Member role db.roles
  pub permission_stored : Member permission db.role_permissions
  pub grant_scope : names grant.item_id item_id ≡ true
  pub grant_live : grant.is_deleted ≡ false
  pub grant_principal : principal_match access grant ≡ true
  pub role_granted : role.id ≡ grant.role_id
  pub role_active : role.is_active ≡ true
  pub permission_role : permission.role_id ≡ role.id
  pub permission_live : permission.is_deleted ≡ false
  pub permission_code_is : code ≡ permission.permission_code

module _ (db : Database) (access : AuthContext) (item_id : ℕ) (code : Str) where
  granted_on-IsGranted :
      Member code (granted_on db access item_id) → IsGranted db access item_id code
  unfolding granted_on
  granted_on-IsGranted m =
      let (grant, g, n) = Member-gather_cases (granted_through db) code _ m in
      let (g_in, g_if) = Member-keep_cases grant _ db.role_assignments g in
      let (role, r, k) = Member-gather_cases (λ (role : Role). granted_by db role.id) code _ n in
      let (r_in, r_if) = Member-keep_cases role _ db.roles r in
      let (permission, p, same) =
        Member-map_cases code (λ (p : RolePermission). p.permission_code) _ k in
      let (p_in, p_if) = Member-keep_cases permission _ db.role_permissions p in
      record {
        grant = grant;
        role = role;
        permission = permission;
        grant_stored = g_in;
        role_stored = r_in;
        permission_stored = p_in;
        grant_scope = ground arith;
        grant_live = ground arith;
        grant_principal = ground arith;
        role_granted = ground arith;
        role_active = ground arith;
        permission_role = ground arith;
        permission_live = ground arith;
        permission_code_is = same;
      }

  IsGranted-granted_on :
      IsGranted db access item_id code → Member code (granted_on db access item_id)
  unfolding granted_on
  IsGranted-granted_on g =
      Member-gather (granted_through db) g.grant code _
        (Member-keep g.grant _ db.role_assignments g.grant_stored
          (ground (arith, g.grant_scope, g.grant_live, g.grant_principal)))
        (Member-gather (λ (role : Role). granted_by db role.id) g.role code _
          (Member-keep g.role _ db.roles g.role_stored
            (ground (arith, g.role_granted, g.role_active)))
          (subst (λ c. Member c (granted_by db g.role.id)) (sym g.permission_code_is)
            (Member-map g.permission (λ (p : RolePermission). p.permission_code) _
              (Member-keep g.permission _ db.role_permissions g.permission_stored
                (ground (arith, g.permission_role, g.permission_live))))))

  pub granted_on_iff : Member code (granted_on db access item_id) ↔ IsGranted db access item_id code
  granted_on_iff = (granted_on-IsGranted, IsGranted-granted_on)
