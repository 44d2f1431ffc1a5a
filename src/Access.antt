-- ===== src/Access.antt =====
-- Roles and permissions: the rows that src/modules/users, src/modules/roles and
-- src/modules/auth/authorization.middleware.js share, and the cache of each user's permissions.
-- Texts that are only compared (names, resources, actions, uuids) are numbers.
pub mod Authorizing
pub mod Granting
pub mod Managing
pub mod History
pub mod Deciding
pub mod Protecting
use backend_pluseops.Base.{
  ℕ, Bool, true, false, not, ◌&&◌, Option, none, some, List, [], ◌∷◌, map, nat_eq, pair_eq, ◌==◌,
  if◌then◌else◌,
}
use backend_pluseops.Base.Lists.{any, find, filter, length}
use backend_pluseops.Base.Tables.{Table}
use backend_pluseops.Auth.{Membership, is_active_membership}

pub record Role : Type 0 where
  pub id : ℕ
  pub tenant_id : ℕ
  pub name : ℕ
  pub description : Option ℕ
  pub is_system : Bool

pub record Permission : Type 0 where
  pub id : ℕ
  pub tenant_id : ℕ
  pub resource : ℕ
  pub action : ℕ

pub record UserRole : Type 0 where
  pub tenant_id : ℕ
  pub user_id : ℕ
  pub role_id : ℕ

pub record RolePermission : Type 0 where
  pub tenant_id : ℕ
  pub role_id : ℕ
  pub permission_id : ℕ

-- `cache` is the part of the cache under userPermissionsKey, by tenant and user.
pub record Access : Type 0 where
  pub memberships : List Membership
  pub roles : List Role
  pub permissions : List Permission
  pub user_roles : List UserRole
  pub role_permissions : List RolePermission
  pub cache : Table (ℕ × ℕ) (List Permission)

abbrev pub includes : ℕ → List ℕ → Bool
includes id ids = any (λ j. j == id) ids

abbrev pub has_membership : ℕ → ℕ → Membership → Bool
has_membership user tenant m = m.tenant_id == tenant && m.user_id == user

-- The status of `tenantMembership.findUnique({ where: { tenantId_userId } })`
unfoldable pub is_member : ℕ → ℕ → Access → Bool
is_member user tenant s = elim (find (has_membership user tenant) s.memberships) [
  | none ↦ false
  | some m ↦ is_active_membership m.status
]

abbrev pub is_role_of : ℕ → ℕ → UserRole → Bool
is_role_of user tenant r = r.tenant_id == tenant && r.user_id == user

abbrev pub role_of_row : UserRole → ℕ
role_of_row r = r.role_id

-- `userRole.findMany({ where: { userId, tenantId }, select: { roleId: true } })`
unfoldable pub role_ids : ℕ → ℕ → List UserRole → List ℕ
role_ids user tenant rows = map role_of_row (filter (is_role_of user tenant) rows)

abbrev pub is_grant_of : ℕ → List ℕ → RolePermission → Bool
is_grant_of tenant roles r = r.tenant_id == tenant && includes r.role_id roles

abbrev pub with_permission : Option Permission → List Permission → List Permission
with_permission none ps = ps
with_permission (some p) ps = p ∷ ps

-- `rolePermission.findMany({ where: { tenantId, roleId: { in: roleIds } } })`, with the permission
-- of each row.
unfoldable pub granted_by : ℕ → List ℕ → List Permission → List RolePermission → List Permission
granted_by tenant roles permissions [] = []
granted_by tenant roles permissions (r ∷ rs) =
    let rest = granted_by tenant roles permissions rs in
    if is_grant_of tenant roles r
    then with_permission (find (λ (p : Permission). p.id == r.permission_id) permissions) rest
    else rest

-- The permissions of a user in a tenant, by the rows.
unfoldable pub granted : ℕ → ℕ → Access → List Permission
granted user tenant s =
    granted_by tenant (role_ids user tenant s.user_roles) s.permissions s.role_permissions

abbrev pub of_tenant : ℕ → (ℕ × ℕ) × List Permission → Bool
of_tenant tenant entry = not (entry.0.0 == tenant)

abbrev pub of_holder : ℕ → ℕ → (ℕ × ℕ) × List Permission → Bool
of_holder tenant user entry = not (entry.0.0 == tenant && entry.0.1 == user)

-- `cache.del(userPermissionsKey(tenantId, userId))`
unfoldable pub forget_user : ℕ → ℕ → Access → Access
forget_user tenant user s = record s { cache = filter (of_holder tenant user) s.cache }

-- `invalidateTenantPermissionsCache`
unfoldable pub forget_tenant : ℕ → Access → Access
forget_tenant tenant s = record s { cache = filter (of_tenant tenant) s.cache }
