-- ===== src/Access/Managing.antt =====
-- The roles of a tenant: src/modules/roles/roles.service.js with roles.repository.js.
pub mod Immutable
pub mod Caching
use backend_pluseops.Base.{
  ℕ, Bool, true, false, not, ◌&&◌, Option, none, some, List, [], ◌∷◌, ◌++◌, map, Result, ok, err,
  nat_eq, ◌==◌, is_some, get_or, if◌then◌else◌, role_not_found, role_name_exists,
  system_role_immutable, invalid_permission_ids, permission_not_assigned, unique_violation,
}
use backend_pluseops.Base.Checks.{◌>>=◌, ◌>>◌, require, fail_if}
use backend_pluseops.Base.Lists.{any, find, filter, length}
use backend_pluseops.Access.{
  Access, Role, Permission, UserRole, RolePermission, includes, forget_tenant,
}
use backend_pluseops.Access.Granting.{find_role, has_role_id, unique}

-- `findByName`
unfoldable pub find_by_name : ℕ → ℕ → Access → Option Role
find_by_name name tenant s = find (λ r. r.name == name && r.tenant_id == tenant) s.roles

-- `create`; the id is the database's.
unfoldable pub create_role : ℕ → ℕ → ℕ → Option ℕ → Access → Result (Role × Access)
create_role id tenant name description s = do
  fail_if (is_some (find_by_name name tenant s)) role_name_exists
  let role : Role = record {
    id = id;
    tenant_id = tenant;
    name = name;
    description = description;
    is_system = false;
  }
  ok (role, record s { roles = role ∷ s.roles })

-- `isSystemRole`
unfoldable pub is_system_role : ℕ → ℕ → Access → Bool
is_system_role id tenant s = elim (find_role id tenant s) [
  | none ↦ false
  | some role ↦ role.is_system
]

-- Another role of the tenant has the name.
unfoldable pub is_name_taken : ℕ → ℕ → Option ℕ → Access → Bool
is_name_taken id tenant none s = false
is_name_taken id tenant (some name) s = elim (find_by_name name tenant s) [
  | none ↦ false
  | some r ↦ not (r.id == id)
]

abbrev or_keep : Option ℕ → Option ℕ → Option ℕ
or_keep none old = old
or_keep (some new) old = some new

unfoldable pub rewrite_role : ℕ → ℕ → Option ℕ → Option ℕ → Role → Role
rewrite_role id tenant name description r =
    if has_role_id id tenant r
    then record r { name = get_or name r.name; description = or_keep description r.description }
    else r

-- `update`: a role that is not there is a P2025 of the database, answered as ROLE_NOT_FOUND.
unfoldable pub update_role : ℕ → ℕ → Option ℕ → Option ℕ → Access → Result (Unit {0} × Access)
update_role id tenant name description s = do
  fail_if (is_system_role id tenant s) system_role_immutable
  fail_if (is_name_taken id tenant name s) role_name_exists
  found ← require (find_role id tenant s) role_not_found
  ok (tt, record s { roles = map (rewrite_role id tenant name description) s.roles })

-- `delete`: the foreign keys of user_roles and role_permissions cascade.
unfoldable pub drop_role : ℕ → ℕ → Access → Access
drop_role id tenant s = record s {
  roles = filter (λ r. not (has_role_id id tenant r)) s.roles;
  user_roles = filter (λ r. not (r.role_id == id)) s.user_roles;
  role_permissions = filter (λ r. not (r.role_id == id)) s.role_permissions;
}

unfoldable pub delete_role : ℕ → ℕ → Access → Result (Unit {0} × Access)
delete_role id tenant s = do
  fail_if (is_system_role id tenant s) system_role_immutable
  found ← require (find_role id tenant s) role_not_found
  ok (tt, forget_tenant tenant (drop_role id tenant s))

-- `getMutableRole`
unfoldable pub get_mutable_role : ℕ → ℕ → Access → Result Role
get_mutable_role id tenant s = do
  role ← require (find_role id tenant s) role_not_found
  fail_if role.is_system system_role_immutable
  ok role

-- `findPermissionsByIds`
unfoldable pub find_permissions : List ℕ → ℕ → Access → List Permission
find_permissions ids tenant s =
    filter (λ p. includes p.id ids && p.tenant_id == tenant) s.permissions

-- `assertTenantPermissions`
unfoldable pub assert_tenant_permissions : List ℕ → ℕ → Access → Result (Unit {0})
assert_tenant_permissions ids tenant s =
    fail_if (not (length (find_permissions ids tenant s) == length (unique ids)))
      invalid_permission_ids

abbrev pub is_grant : ℕ → ℕ → RolePermission → Bool
is_grant role tenant r = r.tenant_id == tenant && r.role_id == role

abbrev pub permission_of_row : RolePermission → ℕ
permission_of_row r = r.permission_id

-- The permissions of a role, by id.
unfoldable pub permission_ids : ℕ → ℕ → Access → List ℕ
permission_ids role tenant s =
    map permission_of_row (filter (is_grant role tenant) s.role_permissions)

abbrev pub new_grant : ℕ → ℕ → ℕ → RolePermission
new_grant role tenant permission = record {
  tenant_id = tenant;
  role_id = role;
  permission_id = permission;
}

-- `createMany({ …, skipDuplicates: true })` for a role.
unfoldable pub add_grants : ℕ → ℕ → List ℕ → Access → Access
add_grants role tenant ids s =
    let new = filter (λ id. not (includes id (permission_ids role tenant s))) (unique ids) in
    record s { role_permissions = map (new_grant role tenant) new ++ s.role_permissions }

unfoldable pub assign_permissions : ℕ → ℕ → List ℕ → Access → Result (List ℕ × Access)
assign_permissions id tenant ids s = do
  role ← get_mutable_role id tenant s
  assert_tenant_permissions ids tenant s
  let t = forget_tenant tenant (add_grants id tenant ids s)
  ok (permission_ids id tenant t, t)

-- `deleteMany({ where: { tenantId, roleId, permissionId: { notIn } } })`
unfoldable pub keep_grants : ℕ → ℕ → List ℕ → Access → Access
keep_grants role tenant ids s = record s {
  role_permissions =
      filter (λ r. not (is_grant role tenant r && not (includes r.permission_id ids)))
        s.role_permissions;
}

unfoldable pub replace_permissions : ℕ → ℕ → List ℕ → Access → Result (List ℕ × Access)
replace_permissions id tenant ids s = do
  role ← get_mutable_role id tenant s
  assert_tenant_permissions (unique ids) tenant s
  let t =
      forget_tenant tenant
        (add_grants id tenant (unique ids) (keep_grants id tenant (unique ids) s))
  ok (permission_ids id tenant t, t)

unfoldable pub remove_grant : ℕ → ℕ → ℕ → Access → Access
remove_grant role tenant permission s = record s {
  role_permissions =
      filter (λ r. not (is_grant role tenant r && r.permission_id == permission))
        s.role_permissions;
}

unfoldable pub remove_permission : ℕ → ℕ → ℕ → Access → Result (Unit {0} × Access)
remove_permission id tenant permission s = do
  role ← get_mutable_role id tenant s
  fail_if (not (includes permission (permission_ids id tenant s))) permission_not_assigned
  ok (tt, forget_tenant tenant (remove_grant id tenant permission s))
