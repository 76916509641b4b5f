-- ===== src/Access.antt =====
-- The identity of a request and the tables that grants are read from:
-- backend/bothesis/services/__init__.py and backend/bothesis/db/models.py. A record has the columns
-- that authorization reads, `is_deleted` is `deleted_at IS NOT NULL`, and UUIDs are numbers.
pub mod Authorization
pub mod KnowledgeQuery
pub mod RoleAssignments
pub mod Approvals
mod Tests
use bo_thesis.Base.Result.{Result, ok, err}
use bo_thesis.Base.{
  ℕ, Bool, Option, none, some, List, [], ◌∷◌, Str, codes, all, contains, is_empty, nat_eq, list_eq,
  if◌then◌else◌,
}

pub data ItemType : Type 0 where
  collection document : ItemType

pub data ItemStatus : Type 0 where
  pending processing ready failed unsupported deleted : ItemStatus

pub record Item : Type 0 where
  pub id : ℕ
  pub tenant_id : ℕ
  pub parent_item_id : Option ℕ
  pub item_type : ItemType
  pub status : ItemStatus
  pub is_deleted : Bool
  pub inherit_access : Bool

pub record Role : Type 0 where
  pub id : ℕ
  pub is_active : Bool

pub record RolePermission : Type 0 where
  pub role_id : ℕ
  pub permission_code : Str
  pub is_deleted : Bool

pub record RoleAssignment : Type 0 where
  pub user_id : Option ℕ
  pub group_id : Option ℕ
  pub role_id : ℕ
  pub item_id : Option ℕ
  pub is_deleted : Bool

pub record Database : Type 0 where
  pub items : List Item
  pub roles : List Role
  pub role_permissions : List RolePermission
  pub role_assignments : List RoleAssignment

pub record AuthContext : Type 0 where
  pub user_id : Option ℕ
  pub tenant_id : Option ℕ
  pub permission_codes : List Str
  pub group_ids : List ℕ
  pub session_id : Option ℕ

-- `AuthorizationError`, `DocumentNotFoundError` and `PermissionError`.
pub data AccessError : Type 0 where
  unauthorized not_found unavailable : AccessError

-- The codes are those that `_permission_code` lets through unchanged.
abbrev pub has_permissions : AuthContext → List Str → Bool
has_permissions access required = all (contains access.permission_codes) required

unfoldable pub require_tenant_permission : AuthContext → List Str → Result AccessError ℕ
require_tenant_permission access required = elim access.tenant_id [
  | none ↦ err unauthorized
  | some tenant ↦ if has_permissions access required then ok tenant else err unauthorized
]

-- COLLECTION_READ_PERMISSION
abbrev pub collection_read : Str
collection_read = codes "collection.read"

-- KNOWLEDGE_READ_PERMISSION
abbrev pub knowledge_read : Str
knowledge_read = codes "knowledge.read"

-- The property `subject_id`.
unfoldable pub subject_id : AuthContext → Result AccessError ℕ
subject_id access = elim access.user_id [
  | some user ↦ ok user
  | none ↦ elim access.session_id [ none ↦ err unauthorized | some session ↦ ok session ]
]
