-- ===== src/Auth/Accounts/Tokens.antt =====
-- Calls on accounts that leave the refresh tokens alone.
use backend_pluseops.Base.{
  ℕ, ◌≡◌, refl, Bool, Option, none, some, ok, arith, Option-cases, Result-cases, inl, inr,
}
use backend_pluseops.Auth.{
  User, MailKind, Identity, Crypto, Fresh, update_user, find_user_by_email_and_tenant,
}
use backend_pluseops.Auth.Sessions.{find_active_user}
use backend_pluseops.Auth.Accounts.{
  RegisterRequest, register, create_user, new_user, send_email_verification, deliver_mail,
  resend_verification, invalidate_unused, update_me, forgot_password, request_reset, reset_tenant,
  verify_email,
}

deliver_mail-tokens :
    (fresh : Fresh) (tenant : ℕ) (user : Option User) (kind : MailKind) (s : Identity)
    → (deliver_mail fresh tenant user kind s).refresh_tokens ≡ s.refresh_tokens
unfolding deliver_mail
deliver_mail-tokens fresh tenant none kind s = refl
deliver_mail-tokens fresh tenant (some user) kind s = ground arith

send_email_verification-tokens :
    (expose : Bool) (crypto : Crypto) (fresh : Fresh) (user tenant : ℕ) (s : Identity)
    → (send_email_verification expose crypto fresh user tenant s).1.refresh_tokens
      ≡ s.refresh_tokens
unfolding send_email_verification
send_email_verification-tokens expose crypto fresh user tenant s =
    deliver_mail-tokens fresh tenant _ MailKind.verify _

create_user-tokens :
    (user : User) (s t : Identity)
    → create_user user s ≡ ok (tt, t)
    → t.refresh_tokens ≡ s.refresh_tokens
unfolding create_user
create_user-tokens user s t e = ground arith

pub register-tokens :
    (expose : Bool) (crypto : Crypto) (fresh : Fresh) (limits : ℕ → Option ℕ)
    (body : RegisterRequest) (s : Identity) (user : User) (t : Identity)
    → register expose crypto fresh limits body s ≡ ok (user, t)
    → t.refresh_tokens ≡ s.refresh_tokens
unfolding register
register-tokens expose crypto fresh limits body s user t e = elim (Option-cases body.tenant_id) [
  | inl nowhere ↦ ground arith
  | inr (tenant, given) ↦
      let new = new_user crypto fresh body tenant in
      elim (Result-cases (create_user new s)) [
        | inr (why, refused) ↦ ground arith
        | inl ((x, c), created) ↦ ground (
          arith,
          create_user-tokens new s c created,
          send_email_verification-tokens expose crypto fresh new.id tenant c,
        )
      ]
]

request_reset-tokens :
    (expose : Bool) (crypto : Crypto) (fresh : Fresh) (user : Option User) (tenant : ℕ)
    (s : Identity)
    → (request_reset expose crypto fresh user tenant s).1.refresh_tokens ≡ s.refresh_tokens
unfolding request_reset
request_reset-tokens expose crypto fresh none tenant s = refl
request_reset-tokens expose crypto fresh (some user) tenant s =
    deliver_mail-tokens fresh tenant (some user) MailKind.reset _

pub forgot_password-tokens :
    (expose : Bool) (crypto : Crypto) (fresh : Fresh) (email : ℕ) (tenant slug : Option ℕ)
    (s : Identity)
    → (forgot_password expose crypto fresh email tenant slug s).1.refresh_tokens ≡ s.refresh_tokens
unfolding forgot_password
forgot_password-tokens expose crypto fresh email tenant slug s =
    elim (Option-cases (reset_tenant email tenant slug s)) [
      | inl unknown ↦ ground arith
      | inr (k, settled) ↦ ground (
        arith,
        request_reset-tokens expose crypto fresh (find_user_by_email_and_tenant email k s) k s,
      )
    ]

pub verify_email-tokens :
    (crypto : Crypto) (fresh : Fresh) (token : ℕ) (s t : Identity)
    → verify_email crypto fresh token s ≡ ok (tt, t)
    → t.refresh_tokens ≡ s.refresh_tokens
unfolding verify_email update_user
verify_email-tokens crypto fresh token s t e = ground arith

pub resend_verification-tokens :
    (expose : Bool) (crypto : Crypto) (fresh : Fresh) (user tenant : ℕ) (s : Identity)
    (echo : Option ℕ) (t : Identity)
    → resend_verification expose crypto fresh user tenant s ≡ ok (echo, t)
    → t.refresh_tokens ≡ s.refresh_tokens
unfolding resend_verification invalidate_unused
resend_verification-tokens expose crypto fresh user tenant s echo t e =
    let tokens =
      send_email_verification-tokens expose crypto fresh user tenant
        (invalidate_unused user fresh.now s) in
    elim (Result-cases (find_active_user user s)) [
      | inr (why, refused) ↦ ground arith
      | inl (u, found) ↦ ground arith
    ]

pub update_me-tokens :
    (user tenant : ℕ) (first last : Option ℕ) (s : Identity)
    → (update_me user tenant first last s).1.refresh_tokens ≡ s.refresh_tokens
unfolding update_me update_user
update_me-tokens user tenant first last s = elim (Result-cases (find_active_user user s)) [
  | inl (u, found) ↦ ground arith
  | inr (why, refused) ↦ ground arith
]
