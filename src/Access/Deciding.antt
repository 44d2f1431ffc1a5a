-- ===== src/Access/Deciding.antt =====
-- What `authorize` of src/modules/auth/authorization.middleware.js decides, after any calls before.
use backend_pluseops.Base.{
  ℕ, Bool, false, ◌&&◌, ◌||◌, ◌≡◌, refl, ap, ◌∙◌, Option, none, some, List, [], ◌∷◌, is_ok, nat_eq,
  ◌==◌, arith, Option-cases, Bool-cases, inl, inr,
}
use backend_pluseops.Base.Lists.{any, find}
use backend_pluseops.Auth.{Scope, support_scope, tenant_scope, platform_scope, customer_scope}
use backend_pluseops.Access.{
  Access, Permission, UserRole, RolePermission, is_member, granted, granted_by, role_ids,
  is_role_of, is_grant_of,
}
use backend_pluseops.Access.Authorizing.{Context, Demand, satisfies, authorize, read_action}
use backend_pluseops.Access.Authorizing.Coherent.{IsCoherent, authorize_member-granted}
use backend_pluseops.Access.History.{Run, Run-IsCoherent}

-- The permission of an id is the one that is asked for.
abbrev names : Demand → ℕ → List Permission → Bool
names demand id ps = elim (find (λ (p : Permission). p.id == id) ps) [
  | none ↦ false
  | some p ↦ p.resource == demand.resource && p.action == demand.action
]

-- A row gives a role of the tenant the permission.
abbrev gives : Demand → ℕ → List Permission → ℕ → RolePermission → Bool
gives demand tenant ps role q =
    q.tenant_id == tenant && (role == q.role_id && names demand q.permission_id ps)

-- Some role that the user has in the tenant is given the permission.
unfoldable pub is_permitted : Demand → ℕ → ℕ → Access → Bool
is_permitted demand user tenant s =
    any
      (λ (r : UserRole).
        (r.tenant_id == tenant && r.user_id == user)
        && any (gives demand tenant s.permissions r.role_id) s.role_permissions)
      s.user_roles

module _ (demand : Demand) (tenant : ℕ) (ps : List Permission) where
  granted_by-names :
      (roles : List ℕ) (rs : List RolePermission)
      → any (satisfies demand) (granted_by tenant roles ps rs)
        ≡ any
            (λ (q : RolePermission). is_grant_of tenant roles q && names demand q.permission_id ps)
            rs
  unfolding granted_by
  granted_by-names roles [] = refl
  granted_by-names roles (q ∷ rs) =
      elim (Option-cases (find (λ (p : Permission). p.id == q.permission_id) ps)) [
        | inl missing ↦ ground (arith, granted_by-names roles rs)
        | inr (p, found) ↦ ground (arith, granted_by-names roles rs)
      ]

  first_role :
      (k : ℕ) (roles : List ℕ) (rs : List RolePermission)
      → any
          (λ (q : RolePermission).
            is_grant_of tenant (k ∷ roles) q && names demand q.permission_id ps)
          rs
        ≡ (any (gives demand tenant ps k) rs
            || any
                (λ (q : RolePermission).
                  is_grant_of tenant roles q && names demand q.permission_id ps)
                rs)
  first_role k roles [] = refl
  first_role k roles (q ∷ rs) = ground (arith, first_role k roles rs)

  no_role :
      (rs : List RolePermission)
      → any (λ (q : RolePermission). is_grant_of tenant [] q && names demand q.permission_id ps) rs
        ≡ false
  no_role [] = refl
  no_role (q ∷ rs) = ground (arith, no_role rs)

  role_by_role :
      (user : ℕ) (rs : List RolePermission) (rows : List UserRole)
      → any
          (λ (q : RolePermission).
            is_grant_of tenant (role_ids user tenant rows) q && names demand q.permission_id ps)
          rs
        ≡ any
            (λ (r : UserRole).
              (r.tenant_id == tenant && r.user_id == user)
              && any (gives demand tenant ps r.role_id) rs)
            rows
  unfolding role_ids
  role_by_role user rs [] = no_role rs
  role_by_role user rs (r ∷ rows) = elim (Bool-cases (is_role_of user tenant r)) [
    | inl mine ↦ rw mine (
        first_role r.role_id (role_ids user tenant rows) rs
        ∙ ap (λ b. any (gives demand tenant ps r.role_id) rs || b) (role_by_role user rs rows))
    | inr other ↦ rw other (role_by_role user rs rows)
  ]

granted-is_permitted :
    (demand : Demand) (user tenant : ℕ) (s : Access)
    → any (satisfies demand) (granted user tenant s) ≡ is_permitted demand user tenant s
unfolding granted is_permitted
granted-is_permitted demand user tenant s =
    granted_by-names demand tenant s.permissions (role_ids user tenant s.user_roles)
      s.role_permissions
    ∙ role_by_role demand tenant s.permissions user s.role_permissions s.user_roles

-- Who may do what, by the rows alone: support reads, and a member has a role with the permission.
unfoldable pub is_allowed : Demand → Option ℕ → Option ℕ → Scope → Access → Bool
is_allowed demand none tenant scope s = false
is_allowed demand (some user) none scope s = false
is_allowed demand (some user) (some tenant) support_scope s = demand.action == read_action
is_allowed demand (some user) (some tenant) scope s =
    is_member user tenant s && is_permitted demand user tenant s

authorize-is_allowed :
    (demand : Demand) (user tenant : Option ℕ) (scope : Scope) (s : Access)
    → IsCoherent s
    → is_ok (authorize demand (record { user_id = user; tenant_id = tenant; scope = scope }) s).0
      ≡ is_allowed demand user tenant scope s
unfolding authorize is_allowed
authorize-is_allowed demand none tenant scope s h = refl
authorize-is_allowed demand (some user) none scope s h = refl
authorize-is_allowed demand (some user) (some tenant) support_scope s h = ground arith
authorize-is_allowed demand (some user) (some tenant) tenant_scope s h =
    authorize_member-granted demand user tenant s h
    ∙ ap (λ b. is_member user tenant s && b) (granted-is_permitted demand user tenant s)
authorize-is_allowed demand (some user) (some tenant) platform_scope s h =
    authorize_member-granted demand user tenant s h
    ∙ ap (λ b. is_member user tenant s && b) (granted-is_permitted demand user tenant s)
authorize-is_allowed demand (some user) (some tenant) customer_scope s h =
    authorize_member-granted demand user tenant s h
    ∙ ap (λ b. is_member user tenant s && b) (granted-is_permitted demand user tenant s)

-- After any sequence of checks of permissions and of changes to roles, their permissions and their
-- holders, with a cache that carries out every deletion and agreed with the rows before it,
-- `authorize` decides by the rows that are there then: it refuses a request without a user or a tenant,
-- lets support read and do nothing else, and lets anyone else through exactly when the user is an
-- active member of the tenant and has a role in it that is given the permission.
pub Run-is_allowed :
    (s t : Access) (demand : Demand) (context : Context)
    → Run s t
    → IsCoherent s
    → is_ok (authorize demand context t).0
      ≡ is_allowed demand context.user_id context.tenant_id context.scope t
Run-is_allowed s t demand context run h =
    authorize-is_allowed demand context.user_id context.tenant_id context.scope t
      (Run-IsCoherent s t run h)
