-- ===== src/Access/Granting.antt =====
-- The roles of a user: assignRoles and removeRole of src/modules/users/users.service.js, with the
-- transactions of users.repository.js.
pub mod Admins
pub mod Caching
use backend_pluseops.Base.{
  ℕ, Bool, true, false, not, ◌&&◌, Option, none, some, List, [], ◌∷◌, ◌++◌, map, Result, ok, err,
  nat_eq, ◌==◌, ltb, leb, if◌then◌else◌, user_not_found, invalid_role_ids, role_not_found,
  last_admin_role, role_not_assigned,
}
use backend_pluseops.Base.Checks.{◌>>=◌, ◌>>◌, require, fail_if}
use backend_pluseops.Base.Lists.{any, find, filter, length}
use backend_pluseops.Access.{
  Access, Role, UserRole, includes, is_member, role_ids, is_role_of, forget_user,
}

-- TENANT_ADMIN_ROLE
abbrev pub tenant_admin_role : ℕ
tenant_admin_role = 0

-- `[...new Set(ids)]`, up to the order.
unfoldable pub unique : List ℕ → List ℕ
unique [] = []
unique (x ∷ xs) = let rest = unique xs in if includes x rest then rest else x ∷ rest

abbrev pub has_role_id : ℕ → ℕ → Role → Bool
has_role_id id tenant r = r.id == id && r.tenant_id == tenant

-- `findRoleById`
unfoldable pub find_role : ℕ → ℕ → Access → Option Role
find_role id tenant s = find (has_role_id id tenant) s.roles

-- `findRolesByIds`
unfoldable pub find_roles : List ℕ → ℕ → Access → List Role
find_roles ids tenant s = filter (λ r. includes r.id ids && r.tenant_id == tenant) s.roles

abbrev pub new_row : ℕ → ℕ → ℕ → UserRole
new_row tenant user role = record { tenant_id = tenant; user_id = user; role_id = role }

-- The transaction of assignRoles: rows for the roles that the user does not have yet.
unfoldable pub assign_rows : ℕ → ℕ → List ℕ → Access → Access
assign_rows user tenant ids s =
    let new = filter (λ id. not (includes id (role_ids user tenant s.user_roles))) ids in
    if is_member user tenant s
    then record s { user_roles = map (new_row tenant user) new ++ s.user_roles }
    else s

-- Whether `findByIdAndTenant` finds the user: `known` says that the user row exists.
unfoldable pub assign_roles : Bool → ℕ → ℕ → List ℕ → Access → Result (List ℕ × Access)
assign_roles known user tenant ids s = do
  fail_if (not (known && is_member user tenant s)) user_not_found
  let wanted = unique ids
  fail_if (not (length (find_roles wanted tenant s) == length wanted)) invalid_role_ids
  let t = forget_user tenant user (assign_rows user tenant wanted s)
  ok (role_ids user tenant t.user_roles, t)

abbrev pub is_holding : ℕ → ℕ → UserRole → Bool
is_holding tenant role r = r.tenant_id == tenant && r.role_id == role

-- `userRole.count({ where: { tenantId, roleId } })`
unfoldable pub holders : ℕ → ℕ → Access → ℕ
holders tenant role s = length (filter (is_holding tenant role) s.user_roles)

abbrev pub is_row : ℕ → ℕ → ℕ → UserRole → Bool
is_row user tenant role r = r.tenant_id == tenant && (r.user_id == user && r.role_id == role)

unfoldable pub delete_row : ℕ → ℕ → ℕ → Access → Access
delete_row user tenant role s = record s {
  user_roles = filter (λ r. not (is_row user tenant role r)) s.user_roles;
}

unfoldable pub remove_role : Bool → ℕ → ℕ → ℕ → Access → Result (List ℕ × Access)
remove_role known user tenant id s = do
  fail_if (not (known && is_member user tenant s)) user_not_found
  role ← require (find_role id tenant s) role_not_found
  fail_if (role.name == tenant_admin_role && leb (holders tenant id s) 1) last_admin_role
  fail_if (length (filter (is_row user tenant id) s.user_roles) == 0) role_not_assigned
  let t = forget_user tenant user (delete_row user tenant id s)
  ok (role_ids user tenant t.user_roles, t)
