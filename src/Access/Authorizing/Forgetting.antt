-- ===== src/Access/Authorizing/Forgetting.antt =====
-- What a change of the rows leaves of the permissions granted, and of the cache once the entries of a
-- user or of a tenant are dropped.
use backend_pluseops.Base.{
  ℕ, ◌≡◌, refl, ap, Bool, true, false, not, ◌&&◌, List, [], ◌∷◌, ◌++◌, map, nat_eq, pair_eq, ◌==◌,
  arith, Bool-cases, inl, inr,
}
use backend_pluseops.Base.Lists.{filter, All, filter-filter}
use backend_pluseops.Base.Tables.{lookup-filter}
use backend_pluseops.Access.{
  Access, Permission, UserRole, RolePermission, granted, granted_by, role_ids, is_role_of,
  role_of_row, forget_user, forget_tenant,
}
use backend_pluseops.Access.Authorizing.Coherent.{IsCoherent, kept-IsCoherent}
use backend_pluseops.Access.Granting.{new_row}
use backend_pluseops.Access.Managing.{new_grant}

pub role_ids-filter :
    (user tenant : ℕ) (keep : UserRole → Bool) (rows : List UserRole)
    → All (λ r. is_role_of user tenant r ≡ true → keep r ≡ true) rows
    → role_ids user tenant (filter keep rows) ≡ role_ids user tenant rows
unfolding role_ids
role_ids-filter user tenant keep rows h =
    ap (map role_of_row) (filter-filter (is_role_of user tenant) keep rows h)

pub role_ids-append :
    (user tenant u t : ℕ) (new : List ℕ) (rows : List UserRole)
    → (tenant == t && user == u) ≡ false
    → role_ids u t (map (new_row tenant user) new ++ rows) ≡ role_ids u t rows
unfolding role_ids
role_ids-append user tenant u t [] rows h = refl
role_ids-append user tenant u t (x ∷ xs) rows h =
    ground (arith, role_ids-append user tenant u t xs rows h)

pub granted_by-filter :
    (tenant : ℕ) (roles : List ℕ) (ps : List Permission) (keep : RolePermission → Bool)
    (rows : List RolePermission)
    → All (λ r. (r.tenant_id == tenant) ≡ true → keep r ≡ true) rows
    → granted_by tenant roles ps (filter keep rows) ≡ granted_by tenant roles ps rows
unfolding granted_by
granted_by-filter tenant roles ps keep [] h = refl
granted_by-filter tenant roles ps keep (r ∷ rs) h = elim (Bool-cases (r.tenant_id == tenant)) [
  | inl theirs ↦
      let kept = h.0 theirs in ground (arith, granted_by-filter tenant roles ps keep rs h.1)
  | inr other ↦ ground (arith, granted_by-filter tenant roles ps keep rs h.1)
]

pub granted_by-append :
    (role tenant t : ℕ) (roles : List ℕ) (ps : List Permission) (new : List ℕ)
    (rows : List RolePermission)
    → (tenant == t) ≡ false
    → granted_by t roles ps (map (new_grant role tenant) new ++ rows) ≡ granted_by t roles ps rows
unfolding granted_by
granted_by-append role tenant t roles ps [] rows h = refl
granted_by-append role tenant t roles ps (x ∷ xs) rows h =
    ground (arith, granted_by-append role tenant t roles ps xs rows h)

-- A call on the roles of a tenant, which then forgets what is cached of it.
pub forget_tenant-IsCoherent :
    (tenant : ℕ) (s t : Access)
    → t.cache ≡ s.cache
    → ((user other : ℕ) → (other == tenant) ≡ false → granted user other t ≡ granted user other s)
    → IsCoherent s
    → IsCoherent (forget_tenant tenant t)
unfolding forget_tenant granted
forget_tenant-IsCoherent tenant s t same others h =
    kept-IsCoherent s (forget_tenant tenant t) h λ u k ps e.
      let f = lookup-filter (λ key. not (key.0 == tenant)) (k, u) t.cache in
      let apart : (k == tenant) ≡ false = ground arith in (ground arith, others u k apart)

-- A call on the roles of a user, which then forgets what is cached of the user.
pub forget_user-IsCoherent :
    (tenant user : ℕ) (s t : Access)
    → t.cache ≡ s.cache
    → ((u k : ℕ) → (k == tenant && u == user) ≡ false → granted u k t ≡ granted u k s)
    → IsCoherent s
    → IsCoherent (forget_user tenant user t)
unfolding forget_user granted
forget_user-IsCoherent tenant user s t same others h =
    kept-IsCoherent s (forget_user tenant user t) h λ u k ps e.
      let f = lookup-filter (λ key. not (key.0 == tenant && key.1 == user)) (k, u) t.cache in
      let apart : (k == tenant && u == user) ≡ false = ground arith in
      (ground arith, others u k apart)
