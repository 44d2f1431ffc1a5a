-- ===== src/Auth/Signing.antt =====
-- `login` of src/modules/auth/auth.service.js: platformLogin and tenantLogin.
pub mod Admitted
use backend_pluseops.Base.{
  ℕ, ◌+◌, Bool, true, false, not, ◌&&◌, Option, none, some, List, [], ◌∷◌, map, Result, ok, err,
  nat_eq, ◌==◌, ltb, is_some, get_or, if◌then◌else◌, invalid_credentials, account_inactive,
  platform_access_denied, tenant_inactive, tenant_not_found, platform_tenant_forbidden,
  use_platform_login, tenant_required,
}
use backend_pluseops.Base.Checks.{◌>>=◌, ◌>>◌, require, fail_if}
use backend_pluseops.Base.Lists.{filter, find}
use backend_pluseops.Auth.{
  Tenant, User, Membership, Scope, tenant_scope, platform_scope, support_scope, customer_scope,
  RefreshToken, Identity, Crypto, Fresh, Client, platform_tenant_slug, is_open, is_active_user,
  is_active_membership, find_tenant_by_id, find_tenant_by_slug, find_user_by_email,
  find_user_by_email_and_tenant, has_platform_role, update_user,
}
use backend_pluseops.Auth.Sessions.{
  Session, seven_days, claims, add_refresh_token, has_active_tenant,
}

-- The row of `generateRefreshToken`.
abbrev pub first_token : Crypto → Client → Fresh → User → ℕ → RefreshToken
first_token crypto client fresh user tenant = record {
  id = fresh.row_id;
  tenant_id = tenant;
  user_id = user.id;
  token_hash = crypto.hash_token fresh.raw_token;
  expires_at = fresh.now + seven_days;
  revoked_at = none;
  session_id = some fresh.session_id;
  user_agent = client.user_agent;
  ip_address = client.ip_address;
  last_used_at = some fresh.now;
}

-- `updateLastLogin`
abbrev pub seen : ℕ → User → User
seen now u = record u { last_login_at = some now }

-- What both logins do once the user is admitted: updateLastLogin and the tokens.
unfoldable pub start_session :
    Crypto → Client → Fresh → Scope → User → ℕ → Identity → Session × Identity
start_session crypto client fresh scope user tenant s =
    let answer : Session = record {
      access_token = claims user fresh.session_id tenant scope;
      refresh_token = fresh.raw_token;
      session_id = fresh.session_id;
      scope = scope;
    } in
    (
      answer,
      add_refresh_token (first_token crypto client fresh user tenant)
          (update_user user.id (seen fresh.now) s),
    )

-- `m.tenant?.slug === PLATFORM_TENANT_SLUG`
unfoldable pub is_platform_tenant : ℕ → Identity → Bool
is_platform_tenant tenant s = elim (find_tenant_by_id tenant s) [
  | none ↦ false
  | some t ↦ t.slug == platform_tenant_slug
]

-- `user.memberships`
unfoldable pub memberships_of : ℕ → Identity → List Membership
memberships_of user s = filter (λ m. m.user_id == user) s.memberships

-- `platformTenantId`: by the user's memberships, by the slug, else the user's home tenant.
unfoldable pub platform_tenant_of : User → Identity → ℕ
unfolding memberships_of is_platform_tenant
platform_tenant_of user s =
    elim (find (λ m. is_platform_tenant m.tenant_id s) (memberships_of user.id s)) [
      | some m ↦ m.tenant_id
      | none ↦ elim (find_tenant_by_slug platform_tenant_slug s) [
        | some t ↦ t.id
        | none ↦ user.tenant_id
      ]
    ]

abbrev pub is_shut : Option Tenant → Bool
is_shut none = false
is_shut (some t) = not (is_open t.status)

unfoldable pub admit_platform : Crypto → ℕ → ℕ → Identity → Result (User × ℕ)
admit_platform crypto email password s = do
  user ← require (find_user_by_email email s) invalid_credentials
  fail_if (not (is_active_user user.status)) account_inactive
  fail_if (not (crypto.verify_password user.password_hash password)) invalid_credentials
  fail_if (not (has_platform_role user.id s)) platform_access_denied
  let tenant = platform_tenant_of user s
  fail_if (is_shut (find_tenant_by_id tenant s)) tenant_inactive
  ok (user, tenant)

unfoldable pub platform_login :
    Crypto → Client → Fresh → ℕ → ℕ → Identity → Result (Session × Identity)
platform_login crypto client fresh email password s = do
  found ← admit_platform crypto email password s
  ok (start_session crypto client fresh platform_scope found.0 found.1 s)

pub record LoginRequest : Type 0 where
  pub email : ℕ
  pub password : ℕ
  pub scope : Option Scope
  pub tenant_id : Option ℕ
  pub tenant_slug : Option ℕ

-- The tenant that the request names, by slug or by id; a slug of the platform is refused.
unfoldable pub named_tenant : LoginRequest → Identity → Result (Option ℕ)
named_tenant body s = elim body.tenant_slug [
  | none ↦ ok body.tenant_id
  | some slug ↦ do
    t ← require (find_tenant_by_slug slug s) tenant_not_found
    fail_if (t.slug == platform_tenant_slug) platform_tenant_forbidden
    ok (some t.id)
]

-- The memberships that auto-resolve looks at.
unfoldable pub business_memberships : ℕ → Identity → List Membership
unfolding memberships_of is_platform_tenant
business_memberships user s =
    filter (λ m. not (is_platform_tenant m.tenant_id s) && is_active_membership m.status)
      (memberships_of user s)

-- The error for a user without a business tenant: the platform account is named only to someone
-- who knows its password.
unfoldable pub without_tenant : Crypto → ℕ → User → Identity → Result ℕ
without_tenant crypto password user s = do
  fail_if (not (crypto.verify_password user.password_hash password)) invalid_credentials
  fail_if (has_platform_role user.id s) use_platform_login
  err tenant_not_found

abbrev pub only_tenant : Crypto → ℕ → User → Identity → List Membership → Result ℕ
only_tenant crypto password user s [] = without_tenant crypto password user s
only_tenant crypto password user s (m ∷ []) = ok m.tenant_id
only_tenant crypto password user s (m ∷ (n ∷ ms)) = err tenant_required

-- `effectiveTenantId`
unfoldable pub effective_tenant : Crypto → LoginRequest → Identity → Result ℕ
effective_tenant crypto body s = do
  named ← named_tenant body s
  elim named [
    | some tenant ↦ ok tenant
    | none ↦ do
      user ← require (find_user_by_email body.email s) invalid_credentials
      only_tenant crypto body.password user s (business_memberships user.id s)
  ]

unfoldable pub admit_tenant : Crypto → LoginRequest → Identity → Result (User × ℕ)
admit_tenant crypto body s = do
  tenant ← effective_tenant crypto body s
  user ← require (find_user_by_email_and_tenant body.email tenant s) invalid_credentials
  t ← require (find_tenant_by_id tenant s) tenant_not_found
  fail_if (not (is_open t.status)) tenant_inactive
  fail_if (not (has_active_tenant tenant s)) tenant_inactive
  fail_if (not (is_active_user user.status)) account_inactive
  fail_if (not (crypto.verify_password user.password_hash body.password)) invalid_credentials
  ok (user, tenant)

unfoldable pub tenant_login :
    Crypto → Client → Fresh → LoginRequest → Identity → Result (Session × Identity)
tenant_login crypto client fresh body s = do
  found ← admit_tenant crypto body s
  ok (start_session crypto client fresh tenant_scope found.0 found.1 s)

abbrev pub is_platform : Option Scope → Bool
is_platform (some platform_scope) = true
is_platform _ = false

unfoldable pub login :
    Crypto → Client → Fresh → LoginRequest → Identity → Result (Session × Identity)
login crypto client fresh body s =
    if is_platform body.scope
    then platform_login crypto client fresh body.email body.password s
    else tenant_login crypto client fresh body s
