-- ===== src/Access/Granting/Admins.antt =====
-- The last admin of a tenant.
use backend_pluseops.Base.{
  ℕ, ◌+◌, ◌≤◌, ◌≡◌, ap, Bool, false, not, ◌&&◌, some, List, [], ◌∷◌, ok, nat_eq, ◌==◌, arith,
  Option-cases, Bool-cases, inl, inr,
}
use backend_pluseops.Base.Lists.{filter, length, All-of, filter-filter}
use backend_pluseops.Access.{Access, Role, UserRole, forget_user}
use backend_pluseops.Access.Granting.{
  find_role, holders, is_holding, is_row, delete_row, remove_role, tenant_admin_role,
}

-- Deleting the rows of one holder.
holders-left :
    (user tenant id : ℕ) (rows : List UserRole)
    → length (filter (is_holding tenant id) rows)
      ≤ length (filter (is_holding tenant id) (filter (λ r. not (is_row user tenant id r)) rows))
        + length (filter (is_row user tenant id) rows)
holders-left user tenant id [] = omega arith
holders-left user tenant id (r ∷ rs) = ground (arith, holders-left user tenant id rs)

-- Deleting rows of another role, or of another tenant.
holders-other :
    (user tenant id k removed : ℕ) (rows : List UserRole)
    → (removed == id && k == tenant) ≡ false
    → filter (is_holding tenant id) (filter (λ r. not (is_row user k removed r)) rows)
      ≡ filter (is_holding tenant id) rows
holders-other user tenant id k removed rows other =
    filter-filter (is_holding tenant id) (λ r. not (is_row user k removed r)) rows
      (All-of _ rows (λ r theirs. ground arith))

-- A removal of a role that succeeds leaves the admin role of every tenant a holder where it had one,
-- if the unique index on user_roles holds of the row that is removed.
pub remove_role-keeps_admin :
    (known : Bool) (user k removed tenant id : ℕ) (role : Role) (answer : List ℕ) (s t : Access)
    → find_role id tenant s ≡ some role
    → role.name ≡ tenant_admin_role
    → 1 ≤ holders tenant id s
    → length (filter (is_row user k removed) s.user_roles) ≤ 1
    → remove_role known user k removed s ≡ ok (answer, t)
    → 1 ≤ holders tenant id t
unfolding remove_role holders delete_row forget_user
remove_role-keeps_admin known user k removed tenant id role answer s t found admin held indexed e =
    elim (Bool-cases (removed == id && k == tenant)) [
      | inr other ↦ elim (Option-cases (find_role removed k s)) [
        | inl unknown ↦ ground arith
        | inr (r, there) ↦
            ground (arith, ap length (holders-other user tenant id k removed s.user_roles other))
      ]
      | inl same ↦
          let p : removed ≡ id = ground arith in
          let q : k ≡ tenant = ground arith in
          let there : find_role removed k s ≡ some role = rw (p, q) found in
          ground (arith, holders-left user k removed s.user_roles)
    ]
