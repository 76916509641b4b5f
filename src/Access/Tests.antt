-- ===== src/Access/Tests.antt =====
-- A tenant with a shared Collection, and the theorems about access at it.
use Prim.{absurd}
use bo_thesis.Base.Result.{ok, err}
use bo_thesis.Base.{
  ℕ, ◌≤◌, ◌<◌, ◌≡◌, ◌↔◌, inl, inr, refl, sym, ap, Bool, true, false, Option, none, some, List, [],
  ◌∷◌, map, Str, codes, Member, IsAscending, arith, all, all-Member, not, ◌||◌, ltb, leb, nat_beq,
}
use bo_thesis.Access.{
  ItemType, collection, document, ready, Item, RoleAssignment, Database, AuthContext, not_found,
  unauthorized, collection_read, knowledge_read,
}
use bo_thesis.Access.Authorization.{
  names, is_collection, permissions_for_item, require_item, allowed_collection_ids,
  governing_collection_id,
}
use bo_thesis.Access.Authorization.Inherited.{IsTree, IsPermitted, permissions_for_item_iff}
use bo_thesis.Access.Authorization.Required.{IsAnswer, require_item-IsAnswer}
use bo_thesis.Access.Authorization.Descent.{IsSchema}
use bo_thesis.Access.Authorization.Allowed.{IsAllowed, allowed_collection_ids_iff}
use bo_thesis.Base.{if◌then◌else◌, ◌∙◌}
use bo_thesis.Access.{subject_id, require_tenant_permission}
use bo_thesis.Access.KnowledgeQuery.{Found, found_of, search_knowledge}
use bo_thesis.Access.KnowledgeQuery.Restricted.{
  IsRestricted, IsSelected, search_knowledge-IsRestricted,
}
use bo_thesis.Knowledge.Retriever.{search, evidence_from_chunk}
use bo_thesis.Knowledge.Reranker.{rerank}
use bo_thesis.Knowledge.SemanticSearch.{with_model}
use bo_thesis.Knowledge.Samples.{low, high, retriever, model}

abbrev item : ℕ → Option ℕ → ItemType → Bool → Item
item id parent type inherits = record {
  id = id;
  tenant_id = 9;
  parent_item_id = parent;
  item_type = type;
  status = ready;
  is_deleted = false;
  inherit_access = inherits;
}

abbrev shared : Item
shared = item 1 none collection true

abbrev inner : Item
inner = item 2 (some 1) collection true

abbrev closed : Item
closed = item 3 (some 1) collection false

abbrev note : Item
note = item 4 (some 2) document true

abbrev update : Str
update = codes "collection.update"

abbrev db : Database
db = record {
  items = shared ∷ inner ∷ closed ∷ note ∷ [];
  roles = record { id = 7; is_active = true } ∷ [];
  role_permissions =
      record { role_id = 7; permission_code = collection_read; is_deleted = false } ∷ [];
  role_assignments =
      record {
        user_id = none;
        group_id = some 6;
        role_id = 7;
        item_id = some 1;
        is_deleted = false;
      }
      ∷ [];
}

abbrev member : AuthContext
member = record {
  user_id = some 5;
  tenant_id = some 9;
  permission_codes = knowledge_read ∷ [];
  group_ids = 6 ∷ [];
  session_id = none;
}

-- The grant on Collection 1 reaches 2 and the note in it, but not 3.
allowed : allowed_collection_ids db 4 member collection_read ≡ 1 ∷ 2 ∷ []
unfolding allowed_collection_ids
allowed = refl

readable_note : require_item db 4 member 4 collection_read ≡ ok note
unfolding require_item
readable_note = refl

closed_is_hidden : require_item db 4 member 3 collection_read ≡ err not_found
unfolding require_item
closed_is_hidden = refl

update_is_refused : require_item db 4 member 4 update ≡ err unauthorized
unfolding require_item
update_is_refused = refl

governing : governing_collection_id db 4 9 4 ≡ some 2
unfolding governing_collection_id
governing = refl

abbrev is_below : Item → Item → Bool
is_below i p = not (names i.parent_item_id p.id) || ltb p.id i.id

level-parent :
    (item parent : Item)
    → Member item db.items
    → Member parent db.items
    → names item.parent_item_id parent.id ≡ true
    → parent.id < item.id
level-parent i p m n h =
    let row = all-Member (λ i. all (λ p. is_below i p) db.items) db.items i refl m in
    let cell = all-Member (λ p. is_below i p) db.items p row n in ground arith

level-le : (item : Item) → Member item db.items → item.id ≤ 4
level-le i m = let small = all-Member (λ (i : Item). leb i.id 4) db.items i refl m in ground arith

tree : IsTree db 4
tree = record { level = λ (i : Item). i.id; level-le = level-le; level-parent = level-parent }

abbrev holds_note : Item → Item → Bool
holds_note i p = not (names i.parent_item_id p.id) || is_collection p.item_type

collection_parent :
    (item parent : Item)
    → Member item db.items
    → Member parent db.items
    → names item.parent_item_id parent.id ≡ true
    → is_collection parent.item_type ≡ true
collection_parent i p m n h =
    let row = all-Member (λ i. all (λ p. holds_note i p) db.items) db.items i refl m in
    let cell = all-Member (λ p. holds_note i p) db.items p row n in ground arith

collection_grant :
    (grant : RoleAssignment) (item : Item)
    → Member grant db.role_assignments
    → Member item db.items
    → names grant.item_id item.id ≡ true
    → is_collection item.item_type ≡ true
collection_grant g i (inl e) m h =
    let cell =
      all-Member (λ (i : Item). not (nat_beq 1 i.id) || is_collection i.item_type) db.items i refl
        m in
    let first = ap (λ (g : RoleAssignment). names g.item_id i.id) e in ground arith
collection_grant g i (inr m) n h = absurd m

abbrev by_id : ℕ → Item
by_id id =
    if nat_beq id 1
    then shared
    else if nat_beq id 2
    then inner
    else if nat_beq id 3
    then closed
    else note

abbrev id_of : Item → ℕ
id_of i = i.id

by_id-row : (a : Item) → Member a db.items → a ≡ by_id (id_of a)
by_id-row a (inl e) = e ∙ ap (λ i. by_id (id_of i)) (sym e)
by_id-row a (inr (inl e)) = e ∙ ap (λ i. by_id (id_of i)) (sym e)
by_id-row a (inr (inr (inl e))) = e ∙ ap (λ i. by_id (id_of i)) (sym e)
by_id-row a (inr (inr (inr (inl e)))) = e ∙ ap (λ i. by_id (id_of i)) (sym e)
by_id-row a (inr (inr (inr (inr m)))) = absurd m

unique_id : (a b : Item) → Member a db.items → Member b db.items → a.id ≡ b.id → a ≡ b
unique_id a b m n h = by_id-row a m ∙ ap by_id h ∙ sym (by_id-row b n)

schema : IsSchema db
schema = record {
  unique_id = unique_id;
  collection_parent = collection_parent;
  collection_grant = collection_grant;
}

permissions_for_item_iff_example :
    Member collection_read (permissions_for_item db 4 member 4)
    ↔ IsPermitted db member 9 4 collection_read
permissions_for_item_iff_example =
    permissions_for_item_iff db 4 member 9 4 collection_read tree refl

require_item-IsAnswer_example : IsAnswer db member 9 4 update (require_item db 4 member 4 update)
require_item-IsAnswer_example = require_item-IsAnswer db 4 member 9 4 tree refl update

allowed_collection_ids_iff_example :
    IsAscending (allowed_collection_ids db 4 member collection_read)
    × ((id : ℕ)
        → Member id (allowed_collection_ids db 4 member collection_read)
          ↔ IsAllowed db member 9 collection_read id)
allowed_collection_ids_iff_example =
    allowed_collection_ids_iff db 4 member 9 collection_read tree schema refl

abbrev uuid_text : ℕ → Str
uuid_text id = if nat_beq id 1 then codes "c1" else codes "other"

abbrev found : Found ℕ
found = found_of 0 (
    map (evidence_from_chunk retriever)
      (record low { rerank_score = some 2 } ∷ record high { rerank_score = some 1 } ∷ []))

query_found :
    search_knowledge (with_model retriever model) uuid_text 0 db 4 member (codes "q") 2 (1 ∷ [])
    ≡ ok found
unfolding search_knowledge search rerank allowed_collection_ids subject_id require_tenant_permission
query_found = refl

search_knowledge-IsRestricted_example :
    (tenant : ℕ) × (requested : List ℕ) × (member.tenant_id ≡ some tenant)
    × IsRestricted (with_model retriever model) uuid_text 0 db 4 requested 2 found
    × ((id : ℕ)
        → Member id requested
        → IsAllowed db member tenant collection_read id × IsSelected (1 ∷ []) id)
search_knowledge-IsRestricted_example =
    search_knowledge-IsRestricted retriever model uuid_text 0 db 4 tree schema member (codes "q") 2
      (1 ∷ []) found query_found
