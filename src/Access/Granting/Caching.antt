-- ===== src/Access/Granting/Caching.antt =====
-- The cache of permissions after a change of a user's roles.
use backend_pluseops.Base.{
  ℕ, ◌≡◌, refl, Bool, false, not, ◌&&◌, List, ok, nat_eq, pair_eq, ◌==◌, arith, Option-cases,
  Bool-cases, inl, inr,
}
use backend_pluseops.Base.Lists.{filter, All-of}
use backend_pluseops.Access.{Access, is_member, granted, role_ids, forget_user, includes}
use backend_pluseops.Access.Authorizing.Coherent.{IsCoherent}
use backend_pluseops.Access.Granting.{
  assign_roles, assign_rows, remove_role, delete_row, is_row, unique, find_role,
}
use backend_pluseops.Access.Authorizing.Forgetting.{
  role_ids-filter, role_ids-append, forget_user-IsCoherent,
}

pub assign_rows-others :
    (user tenant u k : ℕ) (ids : List ℕ) (s : Access)
    → (k == tenant && u == user) ≡ false
    → granted u k (assign_rows user tenant ids s) ≡ granted u k s
unfolding assign_rows granted
assign_rows-others user tenant u k ids s apart = elim (Bool-cases (is_member user tenant s)) [
  | inr stranger ↦ rw stranger refl
  | inl member ↦
      rw
        (
          member,
          role_ids-append user tenant u k
              (filter (λ id. not (includes id (role_ids user tenant s.user_roles))) ids)
              s.user_roles (ground arith),
        )
        refl
]

pub assign_rows-cache :
    (user tenant : ℕ) (ids : List ℕ) (s : Access) → (assign_rows user tenant ids s).cache ≡ s.cache
unfolding assign_rows
assign_rows-cache user tenant ids s = ground arith

pub delete_row-others :
    (user tenant id u k : ℕ) (s : Access)
    → (k == tenant && u == user) ≡ false
    → granted u k (delete_row user tenant id s) ≡ granted u k s
unfolding delete_row granted
delete_row-others user tenant id u k s apart =
    let kept =
      role_ids-filter u k (λ r. not (is_row user tenant id r)) s.user_roles
        (All-of _ s.user_roles (λ r theirs. ground arith)) in
    rw kept refl

pub assign_roles-IsCoherent :
    (known : Bool) (user tenant : ℕ) (ids answer : List ℕ) (s t : Access)
    → assign_roles known user tenant ids s ≡ ok (answer, t)
    → IsCoherent s
    → IsCoherent t
unfolding assign_roles
assign_roles-IsCoherent known user tenant ids answer s t e h =
    let rows : t ≡ forget_user tenant user (assign_rows user tenant (unique ids) s) =
      ground arith in
    rw rows (
      forget_user-IsCoherent tenant user s (assign_rows user tenant (unique ids) s)
        (assign_rows-cache user tenant (unique ids) s)
        (λ u k apart. assign_rows-others user tenant u k (unique ids) s apart) h)

pub remove_role-IsCoherent :
    (known : Bool) (user tenant id : ℕ) (answer : List ℕ) (s t : Access)
    → remove_role known user tenant id s ≡ ok (answer, t)
    → IsCoherent s
    → IsCoherent t
unfolding remove_role delete_row
remove_role-IsCoherent known user tenant id answer s t e h =
    elim (Option-cases (find_role id tenant s)) [
      | inl unknown ↦ ground arith
      | inr (role, found) ↦
          let rows : t ≡ forget_user tenant user (delete_row user tenant id s) = ground arith in
          rw rows (
            forget_user-IsCoherent tenant user s (delete_row user tenant id s) refl
              (λ u k apart. delete_row-others user tenant id u k s apart) h)
    ]
