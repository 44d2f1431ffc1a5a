-- ===== src/Auth/Sessions.antt =====
-- Login sessions in src/modules/auth/auth.service.js: refresh, logout, revokeSession, logoutAll,
-- listSessions, changePassword, and what `login` and `refresh` share.
pub mod Rotating
pub mod Single
use backend_pluseops.Base.{
  ℕ, ◌+◌, ◌*◌, Bool, true, false, not, ◌&&◌, Option, none, some, List, [], ◌∷◌, map, Result, ok,
  err, nat_eq, ◌==◌, ltb, is_some, get_or, if◌then◌else◌, invalid_refresh_token,
  refresh_token_expired, refresh_token_revoked, user_not_found, platform_access_denied,
  tenant_inactive, session_not_found, invalid_current_password, password_unchanged,
}
use backend_pluseops.Base.Checks.{◌>>=◌, ◌>>◌, require, fail_if}
use backend_pluseops.Base.Lists.{filter, any}
use backend_pluseops.Auth.{
  Tenant, User, Scope, tenant_scope, platform_scope, RefreshToken, Identity, Crypto, Fresh, Client,
  platform_tenant_slug, is_open, is_active_user, find_tenant_by_id, find_user_by_id,
  find_user_by_email, find_user_by_id_and_tenant, has_platform_role, find_refresh_token, is_live,
  revoke_row, revoke_where, revocable, of_session, of_user, of_other_session, update_user,
  is_session,
}

-- The claims that `generateAccessToken` signs.
pub record Claims : Type 0 where
  pub sub : ℕ
  pub tenant_id : ℕ
  pub session_id : ℕ
  pub email : ℕ
  pub scope : Scope

-- The answer of `login` and `refresh`; the user of it is the claims' `sub`.
pub record Session : Type 0 where
  pub access_token : Claims
  pub refresh_token : ℕ
  pub session_id : ℕ
  pub scope : Scope

-- `new Date(Date.now() + parseExpiry('7d'))`, in milliseconds
abbrev pub seven_days : ℕ
seven_days = 7 * 24 * 60 * 60 * 1000

abbrev pub claims : User → ℕ → ℕ → Scope → Claims
claims user session tenant scope = record {
  sub = user.id;
  tenant_id = tenant;
  session_id = session;
  email = user.email;
  scope = scope;
}

unfoldable pub add_refresh_token : RefreshToken → Identity → Identity
add_refresh_token t s = record s { refresh_tokens = t ∷ s.refresh_tokens }

abbrev some_of : Option ℕ → Option ℕ → Option ℕ
some_of none other = other
some_of (some a) other = some a

-- The row that `refresh` creates in place of the stored one.
abbrev pub successor : Crypto → Client → Fresh → User → ℕ → RefreshToken → RefreshToken
successor crypto client fresh user session stored = record {
  id = fresh.row_id;
  tenant_id = stored.tenant_id;
  user_id = user.id;
  token_hash = crypto.hash_token fresh.raw_token;
  expires_at = fresh.now + seven_days;
  revoked_at = none;
  session_id = some session;
  user_agent = some_of client.user_agent stored.user_agent;
  ip_address = some_of client.ip_address stored.ip_address;
  last_used_at = some fresh.now;
}

-- `hasActiveTenant`, for a user read with the ACTIVE memberships of the tenant alone.
unfoldable pub has_active_tenant : ℕ → Identity → Bool
has_active_tenant tenant s = elim (find_tenant_by_id tenant s) [
  | none ↦ false
  | some t ↦ is_open t.status
]

-- The scope of a stored token, by the slug of its tenant.
unfoldable pub scope_of : ℕ → Identity → Scope
scope_of tenant s = elim (find_tenant_by_id tenant s) [
  | none ↦ tenant_scope
  | some t ↦ if t.slug == platform_tenant_slug then platform_scope else tenant_scope
]

-- `findUserByEmail(storedToken.user?.email ?? '')`, and the fallback by id.
unfoldable pub find_platform_user : ℕ → Identity → Option User
find_platform_user id s = elim (find_user_by_id id s) [
  | none ↦ none
  | some u ↦ elim (find_user_by_email u.email s) [ none ↦ some u | some v ↦ some v ]
]

unfoldable pub check_platform_holder : RefreshToken → Identity → Result User
check_platform_holder stored s = do
  user ← require (find_platform_user stored.user_id s) user_not_found
  fail_if (not (is_active_user user.status)) user_not_found
  fail_if (not (has_platform_role user.id s)) platform_access_denied
  ok user

unfoldable pub check_tenant_holder : RefreshToken → Identity → Result User
check_tenant_holder stored s = do
  user ← require (find_user_by_id_and_tenant stored.user_id stored.tenant_id s) user_not_found
  fail_if (not (is_active_user user.status)) user_not_found
  fail_if (not (has_active_tenant stored.tenant_id s)) tenant_inactive
  ok user

-- The checks of the user to whom the stored token belongs.
unfoldable pub check_holder : Scope → RefreshToken → Identity → Result User
check_holder scope stored s = elim scope [
  | platform_scope ↦ check_platform_holder stored s
  | _ ↦ check_tenant_holder stored s
]

-- The transaction of the rotation: it finds the row again, and does not look whether it is revoked.
unfoldable pub rotate : ℕ → ℕ → RefreshToken → Identity → Result (Unit {0} × Identity)
rotate hash now next s = do
  old ← require (find_refresh_token hash s) invalid_refresh_token
  ok (tt, add_refresh_token next (revoke_row old.id now s))

-- A token that is neither expired nor revoked.
unfoldable pub renew :
    Crypto → Client → Fresh → ℕ → RefreshToken → Identity → Result (Session × Identity)
renew crypto client fresh hash stored s = do
  let scope = scope_of stored.tenant_id s
  user ← check_holder scope stored s
  let session = get_or stored.session_id fresh.session_id
  done ← rotate hash fresh.now (successor crypto client fresh user session stored) s
  let answer : Session = record {
    access_token = claims user session stored.tenant_id scope;
    refresh_token = fresh.raw_token;
    session_id = session;
    scope = scope;
  }
  ok (answer, done.1)

-- The rows that the replay of a revoked token ends: its session, or every session of its user where
-- it has none.
unfoldable pub family : RefreshToken → RefreshToken → Bool
family stored t = elim stored.session_id [
  | none ↦ of_user stored.user_id t
  | some session ↦ of_session session stored.user_id stored.tenant_id t
]

unfoldable pub end_family : RefreshToken → ℕ → Identity → Identity
end_family stored now s = revoke_where (family stored) now s

-- An error of the checks leaves the rows as they were.
abbrev pub settle {ℓ} : {A : Type ℓ} → Result (A × Identity) → Identity → Result A × Identity
settle (ok r) s = (ok r.0, r.1)
settle (err e) s = (err e, s)

unfoldable pub refresh_stored :
    Crypto → Client → Fresh → ℕ → Option RefreshToken → Identity → Result Session × Identity
refresh_stored crypto client fresh hash none s = (err invalid_refresh_token, s)
refresh_stored crypto client fresh hash (some stored) s =
    if ltb stored.expires_at fresh.now
    then (err refresh_token_expired, s)
    else if is_some stored.revoked_at
    then (err refresh_token_revoked, end_family stored fresh.now s)
    else settle (renew crypto client fresh hash stored s) s

-- `refresh`: the replay of a revoked token is answered with an error and writes all the same, so
-- the rows come with either answer.
unfoldable pub refresh : Crypto → Client → Fresh → ℕ → Identity → Result Session × Identity
refresh crypto client fresh raw s =
    let hash = crypto.hash_token raw in
    refresh_stored crypto client fresh hash (find_refresh_token hash s) s

-- `logout` answers alike whether the token is known or not.
unfoldable pub logout : Crypto → Fresh → ℕ → Identity → Identity
logout crypto fresh raw s = elim (find_refresh_token (crypto.hash_token raw) s) [
  | none ↦ s
  | some t ↦ revoke_row t.id fresh.now s
]

-- `revokeSession`
unfoldable pub revoke_session : ℕ → ℕ → ℕ → ℕ → Identity → Result (Unit {0} × Identity)
revoke_session user tenant session now s = do
  fail_if (revocable (of_session session user tenant) s == 0) session_not_found
  ok (tt, revoke_where (of_session session user tenant) now s)

-- `logoutAll`, with the count that it answers.
unfoldable pub logout_all : ℕ → ℕ → Identity → ℕ × Identity
logout_all user now s =
    (revocable (of_other_session user none) s, revoke_where (of_other_session user none) now s)

-- `findActiveUser`
unfoldable pub find_active_user : ℕ → Identity → Result User
find_active_user id s = do
  user ← require (find_user_by_id id s) user_not_found
  fail_if (not (is_active_user user.status)) user_not_found
  ok user

abbrev pub set_password : ℕ → User → User
set_password hash u = record u { password_hash = hash }

-- `changePassword`, with the count of the other sessions that it ends.
unfoldable pub change_password :
    Crypto → Fresh → ℕ → Option ℕ → ℕ → ℕ → Identity → Result (ℕ × Identity)
change_password crypto fresh user session current next s = do
  found ← find_active_user user s
  fail_if (not (crypto.verify_password found.password_hash current)) invalid_current_password
  fail_if (crypto.verify_password found.password_hash next) password_unchanged
  let changed = update_user user (set_password (crypto.hash_password fresh.salt next)) s
  ok (
    revocable (of_other_session user session) changed,
    revoke_where (of_other_session user session) fresh.now changed,
  )
