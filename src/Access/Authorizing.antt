-- ===== src/Access/Authorizing.antt =====
-- `authorize` and `getUserPermissions` of src/modules/auth/authorization.middleware.js.
pub mod Coherent
pub mod Forgetting
use backend_pluseops.Base.{
  ℕ, Bool, true, false, not, ◌&&◌, Option, none, some, List, [], ◌∷◌, Result, ok, err, nat_eq,
  pair_eq, ◌==◌, if◌then◌else◌, unauthorized, forbidden, support_read_only,
}
use backend_pluseops.Base.Lists.{any}
use backend_pluseops.Base.Tables.{lookup, upsert}
use backend_pluseops.Auth.{Scope, support_scope}
use backend_pluseops.Access.{Access, Permission, is_member, granted}

-- `req.context`
pub record Context : Type 0 where
  pub user_id : Option ℕ
  pub tenant_id : Option ℕ
  pub scope : Scope

-- A permission `resource:action`.
pub record Demand : Type 0 where
  pub resource : ℕ
  pub action : ℕ

-- The action `read`.
abbrev pub read_action : ℕ
read_action = 0

abbrev pub satisfies : Demand → Permission → Bool
satisfies demand p = p.resource == demand.resource && p.action == demand.action

-- With what the cache has: the rows are read where it has nothing, and then cached.
unfoldable pub read_permissions :
    ℕ → ℕ → Option (List Permission) → Access → List Permission × Access
read_permissions user tenant (some cached) s = (cached, s)
read_permissions user tenant none s =
    let result = granted user tenant s in
    (result, record s { cache = upsert (tenant, user) result s.cache })

unfoldable pub get_user_permissions : ℕ → ℕ → Access → List Permission × Access
get_user_permissions user tenant s = read_permissions user tenant (lookup (tenant, user) s.cache) s

unfoldable pub authorize_member : Demand → ℕ → ℕ → Access → Result (Unit {0}) × Access
authorize_member demand user tenant s =
    let found = get_user_permissions user tenant s in
    if is_member user tenant s
    then (if any (satisfies demand) found.0 then ok tt else err forbidden, found.1)
    else (err forbidden, s)

abbrev pub is_support : Scope → Bool
is_support support_scope = true
is_support _ = false

-- `authorize(permission)`: `ok` where it calls `next()` without an error.
unfoldable pub authorize : Demand → Context → Access → Result (Unit {0}) × Access
authorize demand context s = elim context.user_id [
  | none ↦ (err unauthorized, s)
  | some user ↦ elim context.tenant_id [
    | none ↦ (err unauthorized, s)
    | some tenant ↦
        if is_support context.scope
        then (if demand.action == read_action then ok tt else err support_read_only, s)
        else authorize_member demand user tenant s
  ]
]
