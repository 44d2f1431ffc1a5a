-- ===== src/Auth/Accounts/Registering.antt =====
-- Registration: the plan's limit on users, and one account for each email.
use backend_pluseops.Base.{
  ℕ, suc, ◌≤◌, ◌≡◌, refl, Bool, false, Option, none, some, List, [], ◌∷◌, ok, nat_eq, ◌==◌, arith,
  Option-cases, Result-cases, inl, inr,
}
use backend_pluseops.Base.Lists.{All, find-none}
use backend_pluseops.Plans.{assert_within_plan}
use backend_pluseops.Auth.{User, Identity, Crypto, MailKind, Fresh, find_user_by_email}
use backend_pluseops.Auth.Accounts.{
  RegisterRequest, new_membership, active_members, new_user, create_user, send_email_verification,
  deliver_mail, register,
}

-- The unique index on the emails of users.
unfoldable pub EmailsApart : List User → Type 0
EmailsApart [] = Unit
EmailsApart (u ∷ us) = All (λ v. (v.email == u.email) ≡ false) us × EmailsApart us

-- What a registration leaves behind.
pub record Registered (limits : ℕ → Option ℕ) (body : RegisterRequest) (user : User)
    (s t : Identity) : Type 0 where
  pub tenant : body.tenant_id ≡ some user.tenant_id
  pub email : user.email ≡ body.email
  pub users : t.users ≡ user ∷ s.users
  pub members : active_members user.tenant_id t ≡ suc (active_members user.tenant_id s)
  pub within :
      (limit : ℕ) → limits user.tenant_id ≡ some limit → active_members user.tenant_id t ≤ limit
  pub apart : EmailsApart s.users → EmailsApart t.users

within_plan-le : (limit used : ℕ) → assert_within_plan (some limit) used ≡ ok tt → suc used ≤ limit
unfolding assert_within_plan
within_plan-le limit used e = ground arith

deliver_mail-users :
    (fresh : Fresh) (tenant : ℕ) (user : Option User) (kind : MailKind) (s : Identity)
    → ((deliver_mail fresh tenant user kind s).users ≡ s.users)
      × ((deliver_mail fresh tenant user kind s).memberships ≡ s.memberships)
unfolding deliver_mail
deliver_mail-users fresh tenant none kind s = (refl, refl)
deliver_mail-users fresh tenant (some user) kind s = (ground arith, ground arith)

send_email_verification-users :
    (expose : Bool) (crypto : Crypto) (fresh : Fresh) (user tenant : ℕ) (s : Identity)
    → ((send_email_verification expose crypto fresh user tenant s).1.users ≡ s.users)
      × ((send_email_verification expose crypto fresh user tenant s).1.memberships ≡ s.memberships)
unfolding send_email_verification
send_email_verification-users expose crypto fresh user tenant s =
    deliver_mail-users fresh tenant _ MailKind.verify _

create_user-rows :
    (user : User) (s t : Identity)
    → create_user user s ≡ ok (tt, t)
    → (t.users ≡ user ∷ s.users)
      × (t.memberships ≡ new_membership user.tenant_id user.id ∷ s.memberships)
      × (EmailsApart s.users → EmailsApart t.users)
unfolding create_user EmailsApart find_user_by_email
create_user-rows user s t e = elim (Option-cases (find_user_by_email user.email s)) [
  | inr (u, taken) ↦ ground arith
  | inl free ↦ (
    ground arith,
    ground arith,
    λ apart.
        let rows : t.users ≡ user ∷ s.users = ground arith in
        rw rows (find-none (λ (v : User). v.email == user.email) s.users free, apart),
  )
]

active_members-new :
    (tenant user : ℕ) (s t : Identity)
    → t.memberships ≡ new_membership tenant user ∷ s.memberships
    → active_members tenant t ≡ suc (active_members tenant s)
unfolding active_members
active_members-new tenant user s t e = rw e (ground arith)

-- A registration that succeeds is into the tenant of the request, adds one user with the email of
-- the request and one active member of that tenant, whose active members are then within the limit
-- of its plan where there is one. Emails that differed still differ.
pub register-Registered :
    (expose : Bool) (crypto : Crypto) (fresh : Fresh) (limits : ℕ → Option ℕ)
    (body : RegisterRequest) (s : Identity) (user : User) (t : Identity)
    → register expose crypto fresh limits body s ≡ ok (user, t)
    → Registered limits body user s t
unfolding register
register-Registered expose crypto fresh limits body s user t e =
    elim (Option-cases body.tenant_id) [
      | inl nowhere ↦ ground arith
      | inr (tenant, given) ↦
          let new = new_user crypto fresh body tenant in
          elim (Result-cases (create_user new s)) [
            | inr (why, refused) ↦ ground arith
            | inl ((done, c), created) ↦
                let rows = create_user-rows new s c created in
                let same = send_email_verification-users expose crypto fresh new.id tenant c in
                let who : user ≡ new = ground arith in
                let grown : active_members tenant t ≡ suc (active_members tenant s) =
                  active_members-new tenant new.id s t (ground arith) in
                let listed : t.users ≡ c.users = ground arith in
                record {
                  tenant = ground arith;
                  email = ground arith;
                  users = ground arith;
                  members = rw who grown;
                  within = λ limit planned.
                      rw (who, grown)
                        (within_plan-le limit (active_members tenant s) (ground arith));
                  apart = λ apart. rw listed (rows.2 apart);
                }
          ]
    ]
