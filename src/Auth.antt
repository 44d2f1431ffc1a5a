-- ===== src/Auth.antt =====
-- The rows that src/modules/auth reads and writes, and the queries of auth.repository.js.
-- Texts that are only compared (emails, slugs, names, hashes, uuids) are numbers, as is the time.
pub mod Sessions
pub mod Signing
pub mod Accounts
pub mod Guard
pub mod History
use backend_pluseops.Base.{
  ℕ, Bool, true, false, not, ◌&&◌, Option, none, some, List, [], ◌∷◌, map, nat_eq, ◌==◌, ltb,
  is_some, if◌then◌else◌,
}
use backend_pluseops.Base.Lists.{any, find, filter, length}

pub data TenantStatus : Type 0 where
  active suspended trial cancelled : TenantStatus

pub data UserStatus : Type 0 where
  active inactive suspended : UserStatus

pub data MembershipStatus : Type 0 where
  active inactive suspended : MembershipStatus

pub data Scope : Type 0 where
  tenant_scope platform_scope support_scope customer_scope : Scope

pub record Tenant : Type 0 where
  pub id : ℕ
  pub slug : ℕ
  pub status : TenantStatus

pub record User : Type 0 where
  pub id : ℕ
  pub tenant_id : ℕ
  pub email : ℕ
  pub password_hash : ℕ
  pub first_name : ℕ
  pub last_name : ℕ
  pub status : UserStatus
  pub email_verified : Bool
  pub last_login_at : Option ℕ

pub record Membership : Type 0 where
  pub tenant_id : ℕ
  pub user_id : ℕ
  pub status : MembershipStatus

pub record RefreshToken : Type 0 where
  pub id : ℕ
  pub tenant_id : ℕ
  pub user_id : ℕ
  pub token_hash : ℕ
  pub expires_at : ℕ
  pub revoked_at : Option ℕ
  pub session_id : Option ℕ
  pub user_agent : Option ℕ
  pub ip_address : Option ℕ
  pub last_used_at : Option ℕ

-- A row of password_reset_tokens or of email_verification_tokens.
pub record OneTimeToken : Type 0 where
  pub id : ℕ
  pub tenant_id : ℕ
  pub user_id : ℕ
  pub token_hash : ℕ
  pub expires_at : ℕ
  pub used_at : Option ℕ

pub data MailKind : Type 0 where
  reset verify : MailKind

-- What `deliverAuthEmail` puts on the email queue; the wording is left out.
pub record Mail : Type 0 where
  pub tenant_id : ℕ
  pub recipient : ℕ
  pub kind : MailKind
  pub raw_token : ℕ

-- `platform_roles` holds the user of each row of platform_user_roles.
pub record Identity : Type 0 where
  pub tenants : List Tenant
  pub users : List User
  pub memberships : List Membership
  pub platform_roles : List ℕ
  pub refresh_tokens : List RefreshToken
  pub reset_tokens : List OneTimeToken
  pub verification_tokens : List OneTimeToken
  pub mails : List Mail

-- SHA-256 and argon2, which are libraries. The first argument of `hash_password` is the salt.
pub record Crypto : Type 0 where
  pub hash_token : ℕ → ℕ
  pub hash_password : ℕ → ℕ → ℕ
  pub verify_password : ℕ → ℕ → Bool

-- What a call draws from outside: uuids, random bytes, a salt, the clock, and whether the email
-- queue takes a mail.
pub record Fresh : Type 0 where
  pub user_id : ℕ
  pub row_id : ℕ
  pub session_id : ℕ
  pub raw_token : ℕ
  pub salt : ℕ
  pub now : ℕ
  pub queue_takes : Bool

-- The agent and the address of the request.
pub record Client : Type 0 where
  pub user_agent : Option ℕ
  pub ip_address : Option ℕ

-- PLATFORM_TENANT_SLUG
abbrev pub platform_tenant_slug : ℕ
platform_tenant_slug = 0

abbrev pub is_open : TenantStatus → Bool
is_open active = true
is_open trial = true
is_open suspended = false
is_open cancelled = false

abbrev pub is_active_user : UserStatus → Bool
is_active_user active = true
is_active_user inactive = false
is_active_user suspended = false

abbrev pub is_active_membership : MembershipStatus → Bool
is_active_membership active = true
is_active_membership inactive = false
is_active_membership suspended = false

-- The membership row that `memberships: { some: { tenantId, status: 'ACTIVE' } }` asks for.
unfoldable pub is_active_member : ℕ → ℕ → Identity → Bool
is_active_member user tenant s =
    any (λ m. m.tenant_id == tenant && (m.user_id == user && is_active_membership m.status))
      s.memberships

unfoldable pub find_tenant_by_id : ℕ → Identity → Option Tenant
find_tenant_by_id id s = find (λ t. t.id == id) s.tenants

unfoldable pub find_tenant_by_slug : ℕ → Identity → Option Tenant
find_tenant_by_slug slug s = find (λ t. t.slug == slug) s.tenants

unfoldable pub find_user_by_id : ℕ → Identity → Option User
find_user_by_id id s = find (λ u. u.id == id) s.users

unfoldable pub find_user_by_email : ℕ → Identity → Option User
find_user_by_email email s = find (λ u. u.email == email) s.users

unfoldable pub find_user_by_email_and_tenant : ℕ → ℕ → Identity → Option User
unfolding is_active_member
find_user_by_email_and_tenant email tenant s =
    find (λ u. u.email == email && is_active_member u.id tenant s) s.users

unfoldable pub find_user_by_id_and_tenant : ℕ → ℕ → Identity → Option User
unfolding is_active_member
find_user_by_id_and_tenant id tenant s =
    find (λ u. u.id == id && is_active_member u.id tenant s) s.users

unfoldable pub has_platform_role : ℕ → Identity → Bool
has_platform_role user s = any (λ u. u == user) s.platform_roles

unfoldable pub find_refresh_token : ℕ → Identity → Option RefreshToken
find_refresh_token hash s = find (λ t. t.token_hash == hash) s.refresh_tokens

unfoldable pub is_live : ℕ → RefreshToken → Bool
is_live now t = not (is_some t.revoked_at) && ltb now t.expires_at

abbrev pub is_session : Option ℕ → ℕ → Bool
is_session none id = false
is_session (some k) id = k == id

-- `isSessionActive`
unfoldable pub is_session_active : ℕ → ℕ → ℕ → Identity → Bool
unfolding is_live
is_session_active session user now s =
    any (λ t. is_session t.session_id session && (t.user_id == user && is_live now t))
      s.refresh_tokens

-- `updateMany({ where: { …, revokedAt: null }, data: { revokedAt: new Date() } })`
unfoldable pub revoke_token : (RefreshToken → Bool) → ℕ → RefreshToken → RefreshToken
revoke_token test now t =
    if test t && not (is_some t.revoked_at) then record t { revoked_at = some now } else t

unfoldable pub revoke_where : (RefreshToken → Bool) → ℕ → Identity → Identity
unfolding revoke_token
revoke_where test now s = record s { refresh_tokens = map (revoke_token test now) s.refresh_tokens }

-- `update({ where: { id }, data: { revokedAt: new Date() } })`
unfoldable pub mark_revoked : ℕ → ℕ → RefreshToken → RefreshToken
mark_revoked id now t = if t.id == id then record t { revoked_at = some now } else t

unfoldable pub revoke_row : ℕ → ℕ → Identity → Identity
unfolding mark_revoked
revoke_row id now s = record s { refresh_tokens = map (mark_revoked id now) s.refresh_tokens }

-- The count that `updateMany` answers.
unfoldable pub revocable : (RefreshToken → Bool) → Identity → ℕ
revocable test s = length (filter (λ t. test t && not (is_some t.revoked_at)) s.refresh_tokens)

abbrev pub of_session : ℕ → ℕ → ℕ → RefreshToken → Bool
of_session session user tenant t =
    is_session t.session_id session && (t.user_id == user && t.tenant_id == tenant)

abbrev pub of_user : ℕ → RefreshToken → Bool
of_user user t = t.user_id == user

-- Those of a user outside the session to keep; without one, all of them.
unfoldable pub of_other_session : ℕ → Option ℕ → RefreshToken → Bool
of_other_session user none t = t.user_id == user
of_other_session user (some kept) t = t.user_id == user && not (is_session t.session_id kept)

-- `user.update({ where: { id } })` with a change of columns.
unfoldable pub update_user : ℕ → (User → User) → Identity → Identity
update_user id change s = record s { users = map (λ u. if u.id == id then change u else u) s.users }
