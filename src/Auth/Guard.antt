-- ===== src/Auth/Guard.antt =====
-- `authenticate` and `authenticatePlatform` of src/modules/auth/auth.middleware.js, on a token that
-- the JWT library verified.
pub mod Ended
use backend_pluseops.Base.{
  ℕ, Bool, true, false, not, ◌&&◌, Option, none, some, List, Result, ok, err, nat_eq, ◌==◌, is_some,
  get_or, if◌then◌else◌, invalid_token_claims, customer_token_forbidden, support_token_forbidden,
  session_revoked, support_read_only, platform_token_forbidden, user_not_found, tenant_inactive,
  platform_tenant_forbidden, platform_auth_required, platform_access_denied,
}
use backend_pluseops.Base.Checks.{◌>>=◌, ◌>>◌, require, fail_if}
use backend_pluseops.Auth.{
  Scope, tenant_scope, platform_scope, support_scope, customer_scope, Identity, User,
  is_session_active, find_user_by_id_and_tenant, find_user_by_id, find_tenant_by_id, is_active_user,
  is_open, has_platform_role, platform_tenant_slug,
}

-- The claims of the token, `is_uuid` telling whether the session id has the form of a uuid.
pub record Decoded : Type 0 where
  pub sub : Option ℕ
  pub session_id : Option ℕ
  pub is_uuid : Bool
  pub tenant_id : Option ℕ
  pub scope : Option Scope

-- What a request is let through as: `req.context`.
pub record Caller : Type 0 where
  pub user_id : ℕ
  pub tenant_id : ℕ
  pub session_id : ℕ
  pub scope : Scope

-- `assertSessionActive`
unfoldable pub assert_session_active : Bool → ℕ → ℕ → ℕ → Identity → Result (Unit {0})
assert_session_active is_uuid session user now s = do
  fail_if (not is_uuid) invalid_token_claims
  fail_if (not (is_session_active session user now s)) session_revoked
  ok tt

abbrev pub caller : ℕ → ℕ → ℕ → Scope → Caller
caller user tenant session scope = record {
  user_id = user;
  tenant_id = tenant;
  session_id = session;
  scope = scope;
}

-- `authenticateSupport`: whether the support service has an active session, and whether the method
-- only reads, come with the request.
unfoldable pub authenticate_support : Bool → Bool → Bool → ℕ → ℕ → Option ℕ → Result Caller
authenticate_support is_uuid is_active reads user session tenant = do
  fail_if (not is_uuid) invalid_token_claims
  k ← require tenant invalid_token_claims
  fail_if (not is_active) session_revoked
  fail_if (not reads) support_read_only
  ok (caller user k session support_scope)

unfoldable pub authenticate_tenant : Bool → ℕ → ℕ → Option ℕ → ℕ → Identity → Result Caller
authenticate_tenant is_uuid user session tenant now s = do
  k ← require tenant invalid_token_claims
  assert_session_active is_uuid session user now s
  found ← require (find_user_by_id_and_tenant user k s) user_not_found
  fail_if (not (is_active_user found.status)) user_not_found
  t ← require (find_tenant_by_id k s) tenant_inactive
  fail_if (not (is_open t.status)) tenant_inactive
  fail_if (t.slug == platform_tenant_slug) platform_tenant_forbidden
  ok (caller user k session tenant_scope)

-- `authenticate({ allowSupport })`
unfoldable pub authenticate : Bool → Bool → Bool → Decoded → ℕ → Identity → Result Caller
authenticate allow_support support_active reads d now s = do
  user ← require d.sub invalid_token_claims
  session ← require d.session_id invalid_token_claims
  elim (get_or d.scope tenant_scope) [
    | customer_scope ↦ err customer_token_forbidden
    | support_scope ↦ do
      fail_if (not allow_support) support_token_forbidden
      authenticate_support d.is_uuid support_active reads user session d.tenant_id
    | platform_scope ↦ err platform_token_forbidden
    | tenant_scope ↦ authenticate_tenant d.is_uuid user session d.tenant_id now s
  ]

abbrev is_platform_claim : Option Scope → Bool
is_platform_claim (some platform_scope) = true
is_platform_claim _ = false

-- `authenticatePlatform`
unfoldable pub authenticate_platform : Decoded → ℕ → Identity → Result Caller
authenticate_platform d now s = do
  user ← require d.sub invalid_token_claims
  session ← require d.session_id invalid_token_claims
  fail_if (not (is_platform_claim d.scope)) platform_auth_required
  tenant ← require d.tenant_id invalid_token_claims
  assert_session_active d.is_uuid session user now s
  fail_if (not (has_platform_role user s)) platform_access_denied
  found ← require (find_user_by_id user s) user_not_found
  fail_if (not (is_active_user found.status)) user_not_found
  ok (caller user tenant session platform_scope)
