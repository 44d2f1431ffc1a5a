-- ===== src/Access/Managing/Caching.antt =====
-- The cache of permissions after a change of the roles of a tenant.
use backend_pluseops.Base.{
  ℕ, ◌≡◌, refl, ◌∙◌, true, false, not, Option, List, ok, nat_eq, pair_eq, ◌==◌, arith, Option-cases,
  Result-cases, inl, inr,
}
use backend_pluseops.Base.Lists.{All, All-of, All-mono}
use backend_pluseops.Access.{
  Access, Role, UserRole, RolePermission, granted, role_ids, forget_tenant,
}
use backend_pluseops.Access.Authorizing.Coherent.{IsCoherent, kept-IsCoherent}
use backend_pluseops.Access.Granting.{unique, find_role}
use backend_pluseops.Access.Managing.{
  create_role, update_role, delete_role, drop_role, assign_permissions, replace_permissions,
  remove_permission, add_grants, keep_grants, remove_grant, get_mutable_role,
}
use backend_pluseops.Access.Authorizing.Forgetting.{
  role_ids-filter, granted_by-filter, granted_by-append, forget_tenant-IsCoherent,
}

-- The rows of a role belong to the tenant of the role.
pub record IsOwned (id tenant : ℕ) (s : Access) : Type 0 where
  pub holders :
      All (λ (r : UserRole). (r.role_id == id) ≡ true → (r.tenant_id == tenant) ≡ true) s.user_roles
  pub grants :
      All
        (λ (r : RolePermission). (r.role_id == id) ≡ true → (r.tenant_id == tenant) ≡ true)
        s.role_permissions

-- Names and descriptions of roles are not cached.
pub same_grants-IsCoherent :
    (s t : Access)
    → t.cache ≡ s.cache
    → ((user tenant : ℕ) → granted user tenant t ≡ granted user tenant s)
    → IsCoherent s
    → IsCoherent t
same_grants-IsCoherent s t same grants h =
    kept-IsCoherent s t h λ user tenant ps e. (rw same at e, grants user tenant)

pub create_role-IsCoherent :
    (id tenant name : ℕ) (description : Option ℕ) (role : Role) (s t : Access)
    → create_role id tenant name description s ≡ ok (role, t)
    → IsCoherent s
    → IsCoherent t
unfolding create_role granted
create_role-IsCoherent id tenant name description role s t e h =
    same_grants-IsCoherent s t (ground arith) (λ u k. ground arith) h

pub update_role-IsCoherent :
    (id tenant : ℕ) (name description : Option ℕ) (s t : Access)
    → update_role id tenant name description s ≡ ok (tt, t)
    → IsCoherent s
    → IsCoherent t
unfolding update_role granted
update_role-IsCoherent id tenant name description s t e h =
    elim (Option-cases (find_role id tenant s)) [
      | inl unknown ↦ ground arith
      | inr (role, found) ↦ same_grants-IsCoherent s t (ground arith) (λ u k. ground arith) h
    ]

pub drop_role-others :
    (id tenant u k : ℕ) (s : Access)
    → (k == tenant) ≡ false
    → IsOwned id tenant s
    → granted u k (drop_role id tenant s) ≡ granted u k s
unfolding drop_role granted
drop_role-others id tenant u k s apart owned =
    let roles =
      role_ids-filter u k (λ r. not (r.role_id == id)) s.user_roles
        (All-mono _ _ s.user_roles (λ r own theirs. ground arith) owned.holders) in
    let grants =
      granted_by-filter k (role_ids u k s.user_roles) s.permissions (λ r. not (r.role_id == id))
        s.role_permissions
        (All-mono _ _ s.role_permissions (λ r own theirs. ground arith) owned.grants) in
    rw roles grants

pub delete_role-IsCoherent :
    (id tenant : ℕ) (s t : Access)
    → delete_role id tenant s ≡ ok (tt, t)
    → IsOwned id tenant s
    → IsCoherent s
    → IsCoherent t
unfolding delete_role drop_role
delete_role-IsCoherent id tenant s t e owned h = elim (Option-cases (find_role id tenant s)) [
  | inl unknown ↦ ground arith
  | inr (role, found) ↦
      let rows : t ≡ forget_tenant tenant (drop_role id tenant s) = ground arith in
      rw rows (
        forget_tenant-IsCoherent tenant s (drop_role id tenant s) refl
          (λ u k apart. drop_role-others id tenant u k s apart owned) h)
]

pub add_grants-others :
    (role tenant : ℕ) (ids : List ℕ) (u k : ℕ) (s : Access)
    → (k == tenant) ≡ false
    → granted u k (add_grants role tenant ids s) ≡ granted u k s
unfolding add_grants granted
add_grants-others role tenant ids u k s apart =
    granted_by-append role tenant k (role_ids u k s.user_roles) s.permissions _ s.role_permissions
      (ground arith)

pub keep_grants-others :
    (role tenant : ℕ) (ids : List ℕ) (u k : ℕ) (s : Access)
    → (k == tenant) ≡ false
    → granted u k (keep_grants role tenant ids s) ≡ granted u k s
unfolding keep_grants granted
keep_grants-others role tenant ids u k s apart =
    granted_by-filter k (role_ids u k s.user_roles) s.permissions _ s.role_permissions
      (All-of _ s.role_permissions (λ r theirs. ground arith))

pub remove_grant-others :
    (role tenant permission u k : ℕ) (s : Access)
    → (k == tenant) ≡ false
    → granted u k (remove_grant role tenant permission s) ≡ granted u k s
unfolding remove_grant granted
remove_grant-others role tenant permission u k s apart =
    granted_by-filter k (role_ids u k s.user_roles) s.permissions _ s.role_permissions
      (All-of _ s.role_permissions (λ r theirs. ground arith))

pub assign_permissions-IsCoherent :
    (id tenant : ℕ) (ids answer : List ℕ) (s t : Access)
    → assign_permissions id tenant ids s ≡ ok (answer, t)
    → IsCoherent s
    → IsCoherent t
unfolding assign_permissions add_grants
assign_permissions-IsCoherent id tenant ids answer s t e h =
    elim (Result-cases (get_mutable_role id tenant s)) [
      | inr (why, refused) ↦ ground arith
      | inl (role, found) ↦
          let rows : t ≡ forget_tenant tenant (add_grants id tenant ids s) = ground arith in
          rw rows (
            forget_tenant-IsCoherent tenant s (add_grants id tenant ids s) refl
              (λ u k apart. add_grants-others id tenant ids u k s apart) h)
    ]

pub replace_permissions-IsCoherent :
    (id tenant : ℕ) (ids answer : List ℕ) (s t : Access)
    → replace_permissions id tenant ids s ≡ ok (answer, t)
    → IsCoherent s
    → IsCoherent t
unfolding replace_permissions add_grants keep_grants
replace_permissions-IsCoherent id tenant ids answer s t e h =
    elim (Result-cases (get_mutable_role id tenant s)) [
      | inr (why, refused) ↦ ground arith
      | inl (role, found) ↦
          let left = keep_grants id tenant (unique ids) s in
          let rows : t ≡ forget_tenant tenant (add_grants id tenant (unique ids) left) =
            ground arith in
          rw rows (
            forget_tenant-IsCoherent tenant s (add_grants id tenant (unique ids) left) refl
              (λ u k apart.
                add_grants-others id tenant (unique ids) u k left apart
                ∙ keep_grants-others id tenant (unique ids) u k s apart)
              h)
    ]

pub remove_permission-IsCoherent :
    (id tenant permission : ℕ) (s t : Access)
    → remove_permission id tenant permission s ≡ ok (tt, t)
    → IsCoherent s
    → IsCoherent t
unfolding remove_permission remove_grant
remove_permission-IsCoherent id tenant permission s t e h =
    elim (Result-cases (get_mutable_role id tenant s)) [
      | inr (why, refused) ↦ ground arith
      | inl (role, found) ↦
          let rows : t ≡ forget_tenant tenant (remove_grant id tenant permission s) =
            ground arith in
          rw rows (
            forget_tenant-IsCoherent tenant s (remove_grant id tenant permission s) refl
              (λ u k apart. remove_grant-others id tenant permission u k s apart) h)
    ]
