-- ===== src/Auth/Accounts.antt =====
-- Accounts in src/modules/auth/auth.service.js: register, resendVerification, updateMe,
-- forgotPassword, resetPassword, verifyEmail and getMe.
pub mod Resetting
pub mod Registering
pub mod Tokens
use backend_pluseops.Base.{
  ℕ, ◌+◌, ◌*◌, Bool, true, false, not, ◌&&◌, Option, none, some, List, [], ◌∷◌, map, Result, ok,
  err, nat_eq, ◌==◌, ltb, is_some, get_or, if◌then◌else◌, tenant_required, tenant_not_found,
  tenant_inactive, platform_tenant_forbidden, user_already_exists, unique_violation,
  email_already_verified, invalid_reset_token, reset_token_expired, reset_token_used,
  invalid_verification_token, verification_token_expired, verification_token_used, user_not_found,
  account_inactive,
}
use backend_pluseops.Base.Checks.{◌>>=◌, ◌>>◌, require, fail_if}
use backend_pluseops.Base.Lists.{filter, find, length}
use backend_pluseops.Plans.{assert_within_plan}
use backend_pluseops.Auth.{
  Tenant, User, UserStatus, Membership, MembershipStatus, OneTimeToken, Mail, MailKind, Identity,
  Crypto, Fresh, platform_tenant_slug, is_open, is_active_user, is_active_membership,
  find_tenant_by_id, find_tenant_by_slug, find_user_by_id, find_user_by_email,
  find_user_by_email_and_tenant, find_user_by_id_and_tenant, update_user, revoke_where, of_user,
}
use backend_pluseops.Auth.Sessions.{find_active_user, has_active_tenant, set_password}
use backend_pluseops.Auth.Signing.{business_memberships}

-- parseExpiry('24h') and parseExpiry('1h'), in milliseconds
abbrev pub one_day : ℕ
one_day = 24 * 60 * 60 * 1000

abbrev pub one_hour : ℕ
one_hour = 60 * 60 * 1000

-- `deliverAuthEmail`: a queue that fails is only logged.
unfoldable pub deliver_mail : Fresh → ℕ → Option User → MailKind → Identity → Identity
deliver_mail fresh tenant none kind s = s
deliver_mail fresh tenant (some user) kind s =
    if fresh.queue_takes
    then record s {
      mails =
          record {
            tenant_id = tenant;
            recipient = user.email;
            kind = kind;
            raw_token = fresh.raw_token;
          }
          ∷ s.mails;
    }
    else s

abbrev pub one_time_token : Crypto → Fresh → ℕ → ℕ → ℕ → OneTimeToken
one_time_token crypto fresh tenant user life = record {
  id = fresh.row_id;
  tenant_id = tenant;
  user_id = user;
  token_hash = crypto.hash_token fresh.raw_token;
  expires_at = fresh.now + life;
  used_at = none;
}

-- `sendEmailVerification`, with the token that it echoes where `expose` is set.
unfoldable pub send_email_verification :
    Bool → Crypto → Fresh → ℕ → ℕ → Identity → Option ℕ × Identity
send_email_verification expose crypto fresh user tenant s =
    let t = record s {
      verification_tokens = one_time_token crypto fresh tenant user one_day ∷ s.verification_tokens;
    } in
    (
      if expose then some fresh.raw_token else none,
      deliver_mail fresh tenant (find_user_by_id user t) MailKind.verify t,
    )

pub record RegisterRequest : Type 0 where
  pub email : ℕ
  pub password : ℕ
  pub first_name : ℕ
  pub last_name : ℕ
  pub tenant_id : Option ℕ

-- `tenantMembership.count({ where: { tenantId, status: 'ACTIVE' } })`
unfoldable pub active_members : ℕ → Identity → ℕ
active_members tenant s =
    length (filter (λ m. m.tenant_id == tenant && is_active_membership m.status) s.memberships)

abbrev pub new_user : Crypto → Fresh → RegisterRequest → ℕ → User
new_user crypto fresh body tenant = record {
  id = fresh.user_id;
  tenant_id = tenant;
  email = body.email;
  password_hash = crypto.hash_password fresh.salt body.password;
  first_name = body.first_name;
  last_name = body.last_name;
  status = UserStatus.active;
  email_verified = false;
  last_login_at = none;
}

abbrev pub new_membership : ℕ → ℕ → Membership
new_membership tenant user = record {
  tenant_id = tenant;
  user_id = user;
  status = MembershipStatus.active;
}

-- `createUser`, with the unique index on the email.
unfoldable pub create_user : User → Identity → Result (Unit {0} × Identity)
create_user user s = do
  fail_if (is_some (find_user_by_email user.email s)) unique_violation
  ok (
    tt,
    record s {
      users = user ∷ s.users;
      memberships = new_membership user.tenant_id user.id ∷ s.memberships;
    },
  )

-- `register`; `limits` is the limit on users of the plan of a tenant.
unfoldable pub register :
    Bool → Crypto → Fresh → (ℕ → Option ℕ) → RegisterRequest → Identity → Result (User × Identity)
register expose crypto fresh limits body s = do
  tenant ← require body.tenant_id tenant_required
  t ← require (find_tenant_by_id tenant s) tenant_not_found
  fail_if (not (is_open t.status)) tenant_inactive
  fail_if (t.slug == platform_tenant_slug) platform_tenant_forbidden
  assert_within_plan (limits tenant) (active_members tenant s)
  fail_if (is_some (find_user_by_email_and_tenant body.email tenant s)) user_already_exists
  let user = new_user crypto fresh body tenant
  created ← create_user user s
  ok (user, (send_email_verification expose crypto fresh user.id tenant created.1).1)

abbrev pub use_up : ℕ → ℕ → OneTimeToken → OneTimeToken
use_up user now t =
    if t.user_id == user && not (is_some t.used_at) then record t { used_at = some now } else t

-- `invalidateUnusedEmailVerificationTokens`
unfoldable pub invalidate_unused : ℕ → ℕ → Identity → Identity
invalidate_unused user now s = record s {
  verification_tokens = map (use_up user now) s.verification_tokens;
}

-- `resendVerification`: the tokens that were out are used up first.
unfoldable pub resend_verification :
    Bool → Crypto → Fresh → ℕ → ℕ → Identity → Result (Option ℕ × Identity)
resend_verification expose crypto fresh user tenant s = do
  found ← find_active_user user s
  fail_if found.email_verified email_already_verified
  ok (send_email_verification expose crypto fresh user tenant (invalidate_unused user fresh.now s))

abbrev pub rename : Option ℕ → Option ℕ → User → User
rename first last u = record u {
  first_name = get_or first u.first_name;
  last_name = get_or last u.last_name;
}

-- `getMe` of a tenant, up to the roles, which are read.
unfoldable pub get_me : ℕ → ℕ → Identity → Result User
get_me user tenant s = do
  found ← require (find_user_by_id_and_tenant user tenant s) user_not_found
  fail_if (not (is_active_user found.status)) account_inactive
  fail_if (not (has_active_tenant tenant s)) tenant_inactive
  ok found

-- `updateMe`: the names are written before the answer is read, which may be refused.
unfoldable pub update_me : ℕ → ℕ → Option ℕ → Option ℕ → Identity → Result User × Identity
update_me user tenant first last s = elim (find_active_user user s) [
  | err e ↦ (err e, s)
  | ok found ↦ let t = update_user user (rename first last) s in (get_me user tenant t, t)
]

-- The tenant that `forgotPassword` settles on, or none where it answers at once.
unfoldable pub reset_tenant : ℕ → Option ℕ → Option ℕ → Identity → Option ℕ
reset_tenant email tenant (some slug) s = elim (find_tenant_by_slug slug s) [
  | none ↦ none
  | some t ↦ some t.id
]
reset_tenant email (some tenant) none s = some tenant
reset_tenant email none none s = elim (find_user_by_email email s) [
  | none ↦ none
  | some u ↦ elim (business_memberships u.id s) [
    | [] ↦ none
    | m ∷ ms ↦ elim ms [ [] ↦ some m.tenant_id | _ ∷ _ ↦ none ]
  ]
]

-- The answer of `forgotPassword` is the token to echo, if any; the text of it is always the same.
unfoldable pub request_reset :
    Bool → Crypto → Fresh → Option User → ℕ → Identity → Option ℕ × Identity
request_reset expose crypto fresh none tenant s = (none, s)
request_reset expose crypto fresh (some user) tenant s = (
  if expose then some fresh.raw_token else none,
  deliver_mail fresh tenant (some user) MailKind.reset (record s {
    reset_tokens = one_time_token crypto fresh tenant user.id one_hour ∷ s.reset_tokens;
  }),
)

unfoldable pub forgot_password :
    Bool → Crypto → Fresh → ℕ → Option ℕ → Option ℕ → Identity → Option ℕ × Identity
forgot_password expose crypto fresh email tenant slug s = elim (reset_tenant email tenant slug s) [
  | none ↦ (none, s)
  | some k ↦ request_reset expose crypto fresh (find_user_by_email_and_tenant email k s) k s
]

unfoldable pub find_token : ℕ → List OneTimeToken → Option OneTimeToken
find_token hash ts = find (λ t. t.token_hash == hash) ts

-- `update({ where: { id }, data: { usedAt: new Date() } })`
unfoldable pub mark_used : ℕ → ℕ → OneTimeToken → OneTimeToken
mark_used id now t = if t.id == id then record t { used_at = some now } else t

-- `markPasswordResetTokenUsed`, `markEmailVerificationTokenUsed`
unfoldable pub mark_token_used : ℕ → ℕ → List OneTimeToken → List OneTimeToken
mark_token_used hash now ts = elim (find_token hash ts) [
  | none ↦ ts
  | some t ↦ map (mark_used t.id now) ts
]

unfoldable pub reset_password : Crypto → Fresh → ℕ → ℕ → Identity → Result (Unit {0} × Identity)
reset_password crypto fresh token password s = do
  let hash = crypto.hash_token token
  stored ← require (find_token hash s.reset_tokens) invalid_reset_token
  fail_if (ltb stored.expires_at fresh.now) reset_token_expired
  fail_if (is_some stored.used_at) reset_token_used
  let changed =
      update_user stored.user_id (set_password (crypto.hash_password fresh.salt password)) s
  let used = record changed { reset_tokens = mark_token_used hash fresh.now changed.reset_tokens }
  ok (tt, revoke_where (of_user stored.user_id) fresh.now used)

abbrev pub verify_user : User → User
verify_user u = record u { email_verified = true }

unfoldable pub verify_email : Crypto → Fresh → ℕ → Identity → Result (Unit {0} × Identity)
verify_email crypto fresh token s = do
  let hash = crypto.hash_token token
  stored ← require (find_token hash s.verification_tokens) invalid_verification_token
  fail_if (ltb stored.expires_at fresh.now) verification_token_expired
  fail_if (is_some stored.used_at) verification_token_used
  let changed = update_user stored.user_id verify_user s
  ok (
    tt,
    record changed {
      verification_tokens = mark_token_used hash fresh.now changed.verification_tokens;
    },
  )
