-- ===== src/Auth/Signing/Admitted.antt =====
-- Who gets a session from `login`, and which.
use backend_pluseops.Base.{
  ℕ, ◌≡◌, true, false, some, ok, arith, Option-cases, Bool-cases, Result-cases, inl, inr,
  if◌then◌else◌, ◌==◌, ◌&&◌, nat_eq,
}
use backend_pluseops.Base.Lists.{find-test}
use backend_pluseops.Auth.{
  Scope, tenant_scope, platform_scope, User, Identity, Crypto, Fresh, Client, find_user_by_email,
  find_user_by_email_and_tenant, find_tenant_by_id, has_platform_role, is_active_member,
  is_active_user, is_session_active, is_live, update_user,
}
use backend_pluseops.Auth.Sessions.{Session, claims, add_refresh_token}
use backend_pluseops.Auth.Signing.{
  LoginRequest, admit_platform, admit_tenant, effective_tenant, platform_login, tenant_login,
  start_session, first_token, seen, login, is_platform, is_shut,
}

-- What stands behind a session that `login` gave out.
pub record Admitted (crypto : Crypto) (client : Client) (fresh : Fresh) (body : LoginRequest)
    (answer : Session) (s t : Identity) : Type 0 where
  pub user : User
  pub tenant : ℕ
  pub email : user.email ≡ body.email
  pub active : is_active_user user.status ≡ true
  pub password : crypto.verify_password user.password_hash body.password ≡ true
  pub right :
      if is_platform body.scope
      then has_platform_role user.id s ≡ true
      else is_active_member user.id tenant s ≡ true
  pub shut : is_shut (find_tenant_by_id tenant s) ≡ false
  pub token : answer.access_token ≡ claims user answer.session_id tenant answer.scope
  pub rows :
      t
      ≡ add_refresh_token
          (first_token crypto client fresh user tenant)
          (update_user user.id (seen fresh.now) s)
  pub session : is_session_active answer.session_id user.id fresh.now t ≡ true

-- A new session is live at once.
start_session-live :
    (crypto : Crypto) (client : Client) (fresh : Fresh) (scope : Scope) (user : User) (tenant : ℕ)
    (s : Identity)
    → is_session_active fresh.session_id user.id fresh.now
        (start_session crypto client fresh scope user tenant s).1
      ≡ true
unfolding is_session_active start_session add_refresh_token is_live
start_session-live crypto client fresh scope user tenant s = ground arith

find_user_by_email-email :
    (email : ℕ) (s : Identity) (u : User) → find_user_by_email email s ≡ some u → u.email ≡ email
unfolding find_user_by_email
find_user_by_email-email email s u e =
    ground (arith, find-test (λ (v : User). v.email == email) s.users u e)

find_user_by_email_and_tenant-member :
    (email tenant : ℕ) (s : Identity) (u : User)
    → find_user_by_email_and_tenant email tenant s ≡ some u
    → (u.email ≡ email) × (is_active_member u.id tenant s ≡ true)
unfolding find_user_by_email_and_tenant
find_user_by_email_and_tenant-member email tenant s u e =
    let t =
      find-test (λ (v : User). v.email == email && is_active_member v.id tenant s) s.users u e in
    (ground arith, ground arith)

admit_platform-right :
    (crypto : Crypto) (email password : ℕ) (s : Identity) (user : User) (tenant : ℕ)
    → admit_platform crypto email password s ≡ ok (user, tenant)
    → (user.email ≡ email)
      × (is_active_user user.status ≡ true)
      × (crypto.verify_password user.password_hash password ≡ true)
      × (has_platform_role user.id s ≡ true)
      × (is_shut (find_tenant_by_id tenant s) ≡ false)
unfolding admit_platform
admit_platform-right crypto email password s user tenant e =
    elim (Option-cases (find_user_by_email email s)) [
      | inl unknown ↦ ground arith
      | inr (u, found) ↦ (
        ground (arith, find_user_by_email-email email s u found),
        ground arith,
        ground arith,
        ground arith,
        ground arith,
      )
    ]

admit_tenant-right :
    (crypto : Crypto) (body : LoginRequest) (s : Identity) (user : User) (tenant : ℕ)
    → admit_tenant crypto body s ≡ ok (user, tenant)
    → (user.email ≡ body.email)
      × (is_active_user user.status ≡ true)
      × (crypto.verify_password user.password_hash body.password ≡ true)
      × (is_active_member user.id tenant s ≡ true)
      × (is_shut (find_tenant_by_id tenant s) ≡ false)
unfolding admit_tenant
admit_tenant-right crypto body s user tenant e =
    elim (Result-cases (effective_tenant crypto body s)) [
      | inr (why, refused) ↦ ground arith
      | inl (k, named) ↦ elim (Option-cases (find_user_by_email_and_tenant body.email k s)) [
        | inl unknown ↦ ground arith
        | inr (u, found) ↦
            let m = find_user_by_email_and_tenant-member body.email k s u found in
            (ground (arith, m), ground arith, ground arith, ground (arith, m), ground arith)
      ]
    ]

-- The session that is started for an admitted user.
start_session-Admitted :
    (crypto : Crypto) (client : Client) (fresh : Fresh) (scope : Scope) (body : LoginRequest)
    (user : User) (tenant : ℕ) (s : Identity) (answer : Session) (t : Identity)
    → user.email ≡ body.email
    → is_active_user user.status ≡ true
    → crypto.verify_password user.password_hash body.password ≡ true
    → (if is_platform body.scope
        then has_platform_role user.id s ≡ true
        else is_active_member user.id tenant s ≡ true)
    → is_shut (find_tenant_by_id tenant s) ≡ false
    → start_session crypto client fresh scope user tenant s ≡ (answer, t)
    → Admitted crypto client fresh body answer s t
unfolding start_session
start_session-Admitted crypto client fresh scope body user tenant s answer t mail active pass right
      shut e =
    record {
      user = user;
      tenant = tenant;
      email = mail;
      active = active;
      password = pass;
      right = right;
      shut = shut;
      token = ground arith;
      rows = ground arith;
      session = ground (arith, start_session-live crypto client fresh scope user tenant s);
    }

platform_login-Admitted :
    (crypto : Crypto) (client : Client) (fresh : Fresh) (body : LoginRequest) (s : Identity)
    (answer : Session) (t : Identity)
    → is_platform body.scope ≡ true
    → platform_login crypto client fresh body.email body.password s ≡ ok (answer, t)
    → Admitted crypto client fresh body answer s t
unfolding platform_login
platform_login-Admitted crypto client fresh body s answer t scoped e =
    elim (Result-cases (admit_platform crypto body.email body.password s)) [
      | inr (why, refused) ↦ ground arith
      | inl ((user, tenant), admitted) ↦
          let r = admit_platform-right crypto body.email body.password s user tenant admitted in
          start_session-Admitted crypto client fresh platform_scope body user tenant s answer t r.0
            r.1 r.2 (rw scoped r.3) r.4 (ground arith)
    ]

tenant_login-Admitted :
    (crypto : Crypto) (client : Client) (fresh : Fresh) (body : LoginRequest) (s : Identity)
    (answer : Session) (t : Identity)
    → is_platform body.scope ≡ false
    → tenant_login crypto client fresh body s ≡ ok (answer, t)
    → Admitted crypto client fresh body answer s t
unfolding tenant_login
tenant_login-Admitted crypto client fresh body s answer t scoped e =
    elim (Result-cases (admit_tenant crypto body s)) [
      | inr (why, refused) ↦ ground arith
      | inl ((user, tenant), admitted) ↦
          let r = admit_tenant-right crypto body s user tenant admitted in
          start_session-Admitted crypto client fresh tenant_scope body user tenant s answer t r.0
            r.1 r.2 (rw scoped r.3) r.4 (ground arith)
    ]

-- A login that succeeds is of an active user with the email and the right password of the request,
-- who holds a platform role (platform scope) or an active membership of the tenant (otherwise), in
-- a tenant that is not shut. It records the login and puts in one token row, whose session is live,
-- and the access token names that user, tenant and session.
pub login-Admitted :
    (crypto : Crypto) (client : Client) (fresh : Fresh) (body : LoginRequest) (s : Identity)
    (answer : Session) (t : Identity)
    → login crypto client fresh body s ≡ ok (answer, t)
    → Admitted crypto client fresh body answer s t
unfolding login
login-Admitted crypto client fresh body s answer t e = elim (Bool-cases (is_platform body.scope)) [
  | inl scoped ↦ platform_login-Admitted crypto client fresh body s answer t scoped (rw scoped at e)
  | inr scoped ↦ tenant_login-Admitted crypto client fresh body s answer t scoped (rw scoped at e)
]
