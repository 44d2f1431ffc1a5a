-- ===== src/Access/Protecting.antt =====
-- System roles over any sequence of calls.
use backend_pluseops.Base.{
  ℕ, ◌≡◌, refl, Bool, ◌&&◌, Option, none, some, List, ok, nat_eq, pair_eq, ◌==◌, arith,
  Option-cases, Bool-cases, Result-cases, inl, inr,
}
use backend_pluseops.Base.Tables.{lookup}
use backend_pluseops.Access.{Access, Role, forget_tenant, forget_user, is_member}
use backend_pluseops.Access.Authorizing.{
  Context, Demand, authorize, authorize_member, get_user_permissions, read_permissions,
}
use backend_pluseops.Access.Granting.{
  find_role, unique, assign_roles, assign_rows, remove_role, delete_row,
}
use backend_pluseops.Access.Managing.{
  create_role, assign_permissions, replace_permissions, remove_permission, add_grants, keep_grants,
  remove_grant, permission_ids, get_mutable_role,
}
use backend_pluseops.Access.Managing.Immutable.{
  Protected, mutable_other, kept-Protected, update_role-Protected, delete_role-Protected,
  add_grants-Protected, keep_grants-Protected, remove_grant-Protected,
}
use backend_pluseops.Access.History.{
  Step, authorized, roles_assigned, role_removed, role_created, role_updated, role_deleted,
  permissions_assigned, permissions_replaced, permission_removed, Run, done, call,
}

read_permissions-rows :
    (user tenant : ℕ) (o : Option _) (s : Access)
    → ((read_permissions user tenant o s).1.roles ≡ s.roles)
      × ((read_permissions user tenant o s).1.role_permissions ≡ s.role_permissions)
unfolding read_permissions
read_permissions-rows user tenant none s = (refl, refl)
read_permissions-rows user tenant (some ps) s = (refl, refl)

authorize-rows :
    (demand : Demand) (context : Context) (s : Access)
    → ((authorize demand context s).1.roles ≡ s.roles)
      × ((authorize demand context s).1.role_permissions ≡ s.role_permissions)
unfolding authorize authorize_member get_user_permissions
authorize-rows demand context s = elim (Option-cases context.user_id) [
  | inl nobody ↦ (ground arith, ground arith)
  | inr (user, known) ↦ elim (Option-cases context.tenant_id) [
    | inl nowhere ↦ (ground arith, ground arith)
    | inr (tenant, there) ↦
        let rows =
          read_permissions-rows user tenant (lookup ⦃e = pair_eq⦄ (tenant, user) s.cache) s in
        (ground arith, ground arith)
  ]
]

assign_roles-rows :
    (known : Bool) (user tenant : ℕ) (ids answer : List ℕ) (s t : Access)
    → assign_roles known user tenant ids s ≡ ok (answer, t)
    → (t.roles ≡ s.roles) × (t.role_permissions ≡ s.role_permissions)
unfolding assign_roles assign_rows forget_user
assign_roles-rows known user tenant ids answer s t e = elim (Bool-cases (is_member user tenant s)) [
  | inl member ↦ (ground arith, ground arith)
  | inr stranger ↦ (ground arith, ground arith)
]

remove_role-rows :
    (known : Bool) (user tenant id : ℕ) (answer : List ℕ) (s t : Access)
    → remove_role known user tenant id s ≡ ok (answer, t)
    → (t.roles ≡ s.roles) × (t.role_permissions ≡ s.role_permissions)
unfolding remove_role delete_row forget_user
remove_role-rows known user tenant id answer s t e = elim (Option-cases (find_role id tenant s)) [
  | inl unknown ↦ (ground arith, ground arith)
  | inr (role, found) ↦ (ground arith, ground arith)
]

module _ (id tenant : ℕ) (role : Role) (permissions : List ℕ) where
  same_rows-Protected :
      (s t : Access)
      → t.roles ≡ s.roles
      → t.role_permissions ≡ s.role_permissions
      → Protected id tenant role permissions s
      → Protected id tenant role permissions t
  unfolding find_role permission_ids
  same_rows-Protected s t roles grants h =
      kept-Protected id tenant role permissions s t (ground arith) (ground arith) h

  create_role-Protected :
      (i k name : ℕ) (description : Option ℕ) (r : Role) (s t : Access)
      → find_role i k s ≡ none
      → create_role i k name description s ≡ ok (r, t)
      → Protected id tenant role permissions s
      → Protected id tenant role permissions t
  unfolding create_role permission_ids find_role
  create_role-Protected i k name description r s t fresh e h =
      elim (Bool-cases (i == id && k == tenant)) [
        | inr other ↦
            let was = h.found in
            kept-Protected id tenant role permissions s t (ground arith) (ground arith) h
        | inl same ↦
            let p : i ≡ id = ground arith in
            let q : k ≡ tenant = ground arith in
            let taken : find_role i k s ≡ some role = rw (p, q) h.found in
            let gone = fresh in ground arith
      ]

  assign_permissions-Protected :
      (i k : ℕ) (ids answer : List ℕ) (s t : Access)
      → assign_permissions i k ids s ≡ ok (answer, t)
      → Protected id tenant role permissions s
      → Protected id tenant role permissions t
  unfolding assign_permissions
  assign_permissions-Protected i k ids answer s t e h =
      elim (Result-cases (get_mutable_role i k s)) [
        | inr (why, refused) ↦ ground arith
        | inl (r, there) ↦
            let other = mutable_other id tenant role i k s r h.found h.system there in
            let rows : t ≡ forget_tenant k (add_grants i k ids s) = ground arith in
            rw rows (add_grants-Protected id tenant role permissions i k ids s other h)
      ]

  replace_permissions-Protected :
      (i k : ℕ) (ids answer : List ℕ) (s t : Access)
      → replace_permissions i k ids s ≡ ok (answer, t)
      → Protected id tenant role permissions s
      → Protected id tenant role permissions t
  unfolding replace_permissions
  replace_permissions-Protected i k ids answer s t e h =
      elim (Result-cases (get_mutable_role i k s)) [
        | inr (why, refused) ↦ ground arith
        | inl (r, there) ↦
            let other = mutable_other id tenant role i k s r h.found h.system there in
            let left = keep_grants i k (unique ids) s in
            let rows : t ≡ forget_tenant k (add_grants i k (unique ids) left) = ground arith in
            rw rows (
              add_grants-Protected id tenant role permissions i k (unique ids) left other
                (keep_grants-Protected id tenant role permissions i k (unique ids) s other h))
      ]

  remove_permission-Protected :
      (i k permission : ℕ) (s t : Access)
      → remove_permission i k permission s ≡ ok (tt, t)
      → Protected id tenant role permissions s
      → Protected id tenant role permissions t
  unfolding remove_permission
  remove_permission-Protected i k permission s t e h =
      elim (Result-cases (get_mutable_role i k s)) [
        | inr (why, refused) ↦ ground arith
        | inl (r, there) ↦
            let other = mutable_other id tenant role i k s r h.found h.system there in
            let rows : t ≡ forget_tenant k (remove_grant i k permission s) = ground arith in
            rw rows (remove_grant-Protected id tenant role permissions i k permission s other h)
      ]

  Step-Protected :
      (s t : Access)
      → Step s t
      → Protected id tenant role permissions s
      → Protected id tenant role permissions t
  Step-Protected s t (authorized demand context e) h =
      let rows = authorize-rows demand context s in
      rw e at (same_rows-Protected s (authorize demand context s).1 rows.0 rows.1 h)
  Step-Protected s t (roles_assigned known user k ids answer e) h =
      let rows = assign_roles-rows known user k ids answer s t e in
      same_rows-Protected s t rows.0 rows.1 h
  Step-Protected s t (role_removed known user k i answer e) h =
      let rows = remove_role-rows known user k i answer s t e in
      same_rows-Protected s t rows.0 rows.1 h
  Step-Protected s t (role_created i k name description r fresh e) h =
      create_role-Protected i k name description r s t fresh e h
  Step-Protected s t (role_updated i k name description e) h =
      update_role-Protected id tenant role permissions i k name description s t e h
  Step-Protected s t (role_deleted i k owned e) h =
      delete_role-Protected id tenant role permissions i k s t owned e h
  Step-Protected s t (permissions_assigned i k ids answer e) h =
      assign_permissions-Protected i k ids answer s t e h
  Step-Protected s t (permissions_replaced i k ids answer e) h =
      replace_permissions-Protected i k ids answer s t e h
  Step-Protected s t (permission_removed i k permission e) h =
      remove_permission-Protected i k permission s t e h

  -- No sequence of checks of permissions and of changes to roles, their permissions and their
  -- holders changes the row of a system role or the permissions that it has.
  pub Run-Protected :
      (s t : Access)
      → Run s t
      → Protected id tenant role permissions s
      → Protected id tenant role permissions t
  Run-Protected s t done h = h
  Run-Protected s t (call {t = m} before step) h =
      Step-Protected m t step (Run-Protected s m before h)
