-- ===== src/Access/Authorization/Allowed.antt =====
-- `allowed_collection_ids` against the permissions of each Collection: the two directions in which
-- authorization.py reads the tree of Items.

use mathlib.Core.Path.{subst}
use bo_thesis.Base.{
  ℕ, ◌≡◌, ◌↔◌, inl, inr, refl, sym, ◌∙◌, true, false, ◌&&◌, some, map, Str, Member, Member-keep,
  Member-keep_cases, Member-map, Member-map_cases, contains→Member, Member→contains, keep, contains,
  nat_beq, nat_beq_iff, arith, Bool-cases, if◌then◌else◌, list_eq, nat_eq, distinct_ordered,
  Member-distinct_ordered_iff, distinct_ordered-IsAscending, IsAscending,
}
use bo_thesis.Access.{Item, Database, AuthContext}
use bo_thesis.Access.Authorization.{
  is_live, is_active_collection, live_items, descendants, granted_collections,
  allowed_collection_ids,
}
use bo_thesis.Access.Authorization.Inherited.{IsTree, IsPermitted, Reaches}
use bo_thesis.Access.Authorization.Descent.{
  IsSchema, Granting, active-live, both, granted_collections-Granting, descendants-Granting,
  Reaches-descendants, Reaches-stored, granted-collections,
}

-- A live Collection of the tenant on which the permission is held.
abbrev pub IsAllowed : Database → AuthContext → ℕ → Str → ℕ → Type 0
IsAllowed db access tenant code id =
    (item : Item) × Member item db.items
    × (item.id ≡ id)
    × (is_active_collection tenant item ≡ true)
    × IsPermitted db access tenant id code

module _ (db : Database) (depth : ℕ) (access : AuthContext) (tenant : ℕ) (code : Str)
    (t : IsTree db depth) (schema : IsSchema db) where
  live_items-intro :
      (id : ℕ) (item : Item)
      → Member item db.items
      → item.id ≡ id
      → is_active_collection tenant item ≡ true
      → Member item (live_items db tenant id)
  live_items-intro id item stored same active =
      Member-keep item _ db.items stored (ground (arith, same, active-live tenant item active))

  granted-IsAllowed :
      (id : ℕ)
      → Member id (descendants db depth tenant (granted_collections db access tenant code))
      → IsAllowed db access tenant code id
  unfolding Granting
  granted-IsAllowed id m =
      let (item, stored, same, active, ancestor, reaches, g) =
        descendants-Granting db access tenant code depth _
          (granted_collections-Granting db access tenant code) id m in
      (
        item,
        stored,
        same,
        active,
        inr (item, live_items-intro id item stored same active, ancestor, reaches, g),
      )

  IsAllowed-granted :
      (id : ℕ)
      → contains access.permission_codes code ≡ false
      → IsAllowed db access tenant code id
      → Member id (descendants db depth tenant (granted_collections db access tenant code))
  IsAllowed-granted id narrow (item, stored, same, active, inl wide) =
      let m = Member→contains access.permission_codes code wide in cc
  IsAllowed-granted id narrow
        (item, stored, same, active, inr (start, found, ancestor, reaches, g)) =
      let (start_stored, h) =
        Member-keep_cases start (λ i. nat_beq i.id id && is_live tenant i) db.items found in
      let one =
        schema.unique_id start item start_stored stored
          ((nat_beq_iff start.id id).0 (both (nat_beq start.id id) _ h).0 ∙ sym same) in
      let (ancestor_stored, ancestor_live) =
        Reaches-stored db access tenant code ancestor item stored (active-live tenant item active)
          (subst (Reaches db tenant ancestor) one reaches) in
      subst
        (λ i. Member i (descendants db depth tenant (granted_collections db access tenant code)))
        same
        (Reaches-descendants db access tenant code t schema _ ancestor depth item
          (t.level-le item stored)
          (granted-collections db access tenant code schema ancestor ancestor_stored ancestor_live
            g)
          stored active (subst (Reaches db tenant ancestor) one reaches))

  wide_iff :
      (id : ℕ)
      → contains access.permission_codes code ≡ true
      → Member id (map (λ (item : Item). item.id) (keep (is_active_collection tenant) db.items))
        ↔ IsAllowed db access tenant code id
  wide_iff id wide = (
    λ m.
        let (item, kept, same) = Member-map_cases id (λ (item : Item). item.id) _ m in
        let (stored, active) = Member-keep_cases item (is_active_collection tenant) db.items kept in
        (item, stored, sym same, active, inl (contains→Member _ code wide)),
    λ (item, stored, same, active, _).
        subst
          (λ i.
            Member i (map (λ (item : Item). item.id) (keep (is_active_collection tenant) db.items)))
          same
          (Member-map item (λ (item : Item). item.id) _
            (Member-keep item _ db.items stored active)),
  )

  allowed_collection_ids-eq :
      access.tenant_id ≡ some tenant
      → allowed_collection_ids db depth access code ≡ (
          if contains access.permission_codes code
          then distinct_ordered
              (map (λ (item : Item). item.id) (keep (is_active_collection tenant) db.items))
          else distinct_ordered
              (descendants db depth tenant (granted_collections db access tenant code)))
  unfolding allowed_collection_ids
  allowed_collection_ids-eq scoped = rw scoped refl

  both_iff : {P Q R : Type 0} → P ↔ Q → Q ↔ R → P ↔ R
  both_iff a b = (λ p. b.0 (a.0 p), λ r. a.1 (b.1 r))

  -- In a tree of Items that is not deeper than `depth`, with different ids and grants and parents that
  -- are Collections, the Collections of an actor of a tenant, found from the grants downward, are
  -- the live Collections on which the permission is held, looked up from the Item upward; each is
  -- listed once and in the order of the ids.
  pub allowed_collection_ids_iff :
      access.tenant_id ≡ some tenant
      → IsAscending (allowed_collection_ids db depth access code)
        × ((id : ℕ)
            → Member id (allowed_collection_ids db depth access code)
              ↔ IsAllowed db access tenant code id)
  allowed_collection_ids_iff scoped =
      rw (allowed_collection_ids-eq scoped)
        elim (Bool-cases (contains access.permission_codes code)) [
          | inl wide ↦ rw wide (
            distinct_ordered-IsAscending
                (map (λ (item : Item). item.id) (keep (is_active_collection tenant) db.items)),
            λ id. both_iff (Member-distinct_ordered_iff id _) (wide_iff id wide),
          )
          | inr narrow ↦ rw narrow (
            distinct_ordered-IsAscending
                (descendants db depth tenant (granted_collections db access tenant code)),
            λ id.
                both_iff (Member-distinct_ordered_iff id _)
                  (granted-IsAllowed id, IsAllowed-granted id narrow),
          )
        ]
