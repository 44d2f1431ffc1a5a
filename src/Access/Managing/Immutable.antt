-- ===== src/Access/Managing/Immutable.antt =====
-- System roles: their rows and their permissions are out of reach of the role service.
use backend_pluseops.Base.{
  ℕ, ◌≡◌, refl, sym, ap, ◌∙◌, true, false, not, ◌&&◌, Option, some, List, [], ◌∷◌, ◌++◌, map, ok,
  nat_eq, ◌==◌, arith, Option-cases, Bool-cases, inl, inr,
}
use backend_pluseops.Base.Lists.{filter, find, All-of, All-mono, filter-filter}
use backend_pluseops.Access.{Access, Role, RolePermission, forget_tenant}
use backend_pluseops.Access.Granting.{find_role, has_role_id}
use backend_pluseops.Access.Managing.{
  update_role, delete_role, drop_role, add_grants, keep_grants, remove_grant, new_grant, is_grant,
  permission_ids, permission_of_row, get_mutable_role, is_system_role, rewrite_role,
}
use backend_pluseops.Access.Managing.Caching.{IsOwned}

-- A system role with the permissions that it has.
pub record Protected (id tenant : ℕ) (role : Role) (permissions : List ℕ) (s : Access)
    : Type 0 where
  pub found : find_role id tenant s ≡ some role
  pub system : role.is_system ≡ true
  pub grants : permission_ids id tenant s ≡ permissions

module _ (id tenant : ℕ) (role : Role) where
  pub refused_system :
      (i k : ℕ) (s : Access)
      → find_role id tenant s ≡ some role
      → role.is_system ≡ true
      → is_system_role i k s ≡ false
      → (i == id && k == tenant) ≡ false
  unfolding is_system_role
  refused_system i k s found system free = elim (Bool-cases (i == id && k == tenant)) [
    | inr other ↦ other
    | inl same ↦
        let e : i ≡ id = ground arith in
        let f : k ≡ tenant = ground arith in
        ground (arith, ap (λ j. find_role j k s) e, ap (λ j. find_role id j s) f)
  ]

  pub mutable_other :
      (i k : ℕ) (s : Access) (r : Role)
      → find_role id tenant s ≡ some role
      → role.is_system ≡ true
      → get_mutable_role i k s ≡ ok r
      → (i == id && k == tenant) ≡ false
  unfolding get_mutable_role is_system_role
  mutable_other i k s r found system e = refused_system i k s found system (ground arith)

  find_role-rewrite :
      (i k : ℕ) (name description : Option ℕ) (roles : List Role)
      → (i == id && k == tenant) ≡ false
      → find (has_role_id id tenant) roles ≡ some role
      → find (has_role_id id tenant) (map (rewrite_role i k name description) roles) ≡ some role
  unfolding rewrite_role
  find_role-rewrite i k name description [] other e = ground arith
  find_role-rewrite i k name description (r ∷ rs) other e =
      ground (arith, find_role-rewrite i k name description rs other)

  find_role-drop :
      (i k : ℕ) (roles : List Role)
      → (i == id && k == tenant) ≡ false
      → find (has_role_id id tenant) roles ≡ some role
      → find (has_role_id id tenant) (filter (λ r. not (has_role_id i k r)) roles) ≡ some role
  find_role-drop i k [] other e = ground arith
  find_role-drop i k (r ∷ rs) other e = ground (arith, find_role-drop i k rs other)

grants-append :
    (id tenant i k : ℕ) (new : List ℕ) (rows : List RolePermission)
    → (i == id && k == tenant) ≡ false
    → filter (is_grant id tenant) (map (new_grant i k) new ++ rows)
      ≡ filter (is_grant id tenant) rows
grants-append id tenant i k [] rows other = refl
grants-append id tenant i k (x ∷ xs) rows other =
    ground (arith, grants-append id tenant i k xs rows other)

module _ (id tenant : ℕ) (role : Role) (permissions : List ℕ) where
  -- A call that changes neither the roles nor the grants of a role.
  pub kept-Protected :
      (s t : Access)
      → find_role id tenant t ≡ find_role id tenant s
      → permission_ids id tenant t ≡ permission_ids id tenant s
      → Protected id tenant role permissions s
      → Protected id tenant role permissions t
  kept-Protected s t roles grants h = record {
    found = roles ∙ h.found;
    system = h.system;
    grants = grants ∙ h.grants;
  }

  pub update_role-Protected :
      (i k : ℕ) (name description : Option ℕ) (s t : Access)
      → update_role i k name description s ≡ ok (tt, t)
      → Protected id tenant role permissions s
      → Protected id tenant role permissions t
  unfolding update_role find_role permission_ids
  update_role-Protected i k name description s t e h = elim (Option-cases (find_role i k s)) [
    | inl unknown ↦ ground arith
    | inr (r, there) ↦
        let other = refused_system id tenant role i k s h.found h.system (ground arith) in
        let same = find_role-rewrite id tenant role i k name description s.roles other h.found in
        kept-Protected s t (ground arith) (ground arith) h
  ]

  pub delete_role-Protected :
      (i k : ℕ) (s t : Access)
      → IsOwned i k s
      → delete_role i k s ≡ ok (tt, t)
      → Protected id tenant role permissions s
      → Protected id tenant role permissions t
  unfolding delete_role drop_role forget_tenant find_role permission_ids
  delete_role-Protected i k s t owned e h = elim (Option-cases (find_role i k s)) [
    | inl unknown ↦ ground arith
    | inr (r, there) ↦
        let other = refused_system id tenant role i k s h.found h.system (ground arith) in
        let same = find_role-drop id tenant role i k s.roles other h.found in
        let left =
          filter-filter (is_grant id tenant) (λ r. not (r.role_id == i)) s.role_permissions
            (All-mono _ _ s.role_permissions (λ r own theirs. ground arith) owned.grants) in
        let rows : t ≡ forget_tenant k (drop_role i k s) = ground arith in
        rw rows (
          kept-Protected s (forget_tenant k (drop_role i k s)) (same ∙ sym h.found)
            (ap (map permission_of_row) left) h)
  ]

  pub add_grants-Protected :
      (i k : ℕ) (ids : List ℕ) (s : Access)
      → (i == id && k == tenant) ≡ false
      → Protected id tenant role permissions s
      → Protected id tenant role permissions (forget_tenant k (add_grants i k ids s))
  unfolding add_grants forget_tenant find_role permission_ids
  add_grants-Protected i k ids s other h =
      kept-Protected s (forget_tenant k (add_grants i k ids s)) refl
        (ap (map permission_of_row) (grants-append id tenant i k _ s.role_permissions other)) h

  pub keep_grants-Protected :
      (i k : ℕ) (ids : List ℕ) (s : Access)
      → (i == id && k == tenant) ≡ false
      → Protected id tenant role permissions s
      → Protected id tenant role permissions (keep_grants i k ids s)
  unfolding keep_grants find_role permission_ids
  keep_grants-Protected i k ids s other h =
      kept-Protected s (keep_grants i k ids s) refl
        (ap (map permission_of_row) (
          filter-filter (is_grant id tenant) _ s.role_permissions
            (All-of _ s.role_permissions (λ r theirs. ground arith))))
        h

  pub remove_grant-Protected :
      (i k permission : ℕ) (s : Access)
      → (i == id && k == tenant) ≡ false
      → Protected id tenant role permissions s
      → Protected id tenant role permissions (forget_tenant k (remove_grant i k permission s))
  unfolding remove_grant forget_tenant find_role permission_ids
  remove_grant-Protected i k permission s other h =
      kept-Protected s (forget_tenant k (remove_grant i k permission s)) refl
        (ap (map permission_of_row) (
          filter-filter (is_grant id tenant) _ s.role_permissions
            (All-of _ s.role_permissions (λ r theirs. ground arith))))
        h
