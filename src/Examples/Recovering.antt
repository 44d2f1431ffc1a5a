-- ===== src/Examples/Recovering.antt =====
-- Passwords and registrations at concrete inputs.
use backend_pluseops.Base.{ℕ, ◌≡◌, refl, false, Option, none, some, [], ◌∷◌, ok, pair_eq}
use backend_pluseops.Plans.{assert_within_plan}
use backend_pluseops.Auth.{
  User, UserStatus, MembershipStatus, MailKind, Identity, is_active_member, find_tenant_by_id,
  find_user_by_id, find_user_by_email, find_user_by_email_and_tenant,
}
use backend_pluseops.Auth.Accounts.{
  RegisterRequest, register, active_members, create_user, send_email_verification, deliver_mail,
}
use backend_pluseops.Auth.Accounts.Registering.{Registered, register-Registered}
use backend_pluseops.Examples.People.{
  crypto, first_draw, clerk, clerk_token, reset_link, people, entered,
}

abbrev recovered : Identity
recovered = record people {
  users = record clerk { password_hash = 1006 } ∷ [];
  reset_tokens = record reset_link { used_at = some 1000 } ∷ [];
  refresh_tokens = record clerk_token { revoked_at = some 1000 } ∷ [];
}

abbrev changed_people : Identity
changed_people = record entered {
  users = record clerk { last_login_at = some 1000; password_hash = 1006 } ∷ [];
  refresh_tokens =
      record clerk_token {
        id = 2;
        token_hash = 112;
        expires_at = 604801000;
        session_id = some 22;
        user_agent = some 1;
        last_used_at = some 1000;
      }
      ∷ record clerk_token { revoked_at = some 2000 }
      ∷ [];
}

abbrev limits : ℕ → Option ℕ
limits tenant = some 2

abbrev application : RegisterRequest
application = record { email = 80; password = 2; first_name = 3; last_name = 4; tenant_id = some 1 }

abbrev newcomer : User
newcomer = record {
  id = 8;
  tenant_id = 1;
  email = 80;
  password_hash = 1002;
  first_name = 3;
  last_name = 4;
  status = UserStatus.active;
  email_verified = false;
  last_login_at = none;
}

abbrev grown : Identity
grown = record people {
  users = newcomer ∷ clerk ∷ [];
  memberships =
      record { tenant_id = 1; user_id = 8; status = MembershipStatus.active } ∷ people.memberships;
  verification_tokens =
      record reset_link { id = 2; user_id = 8; token_hash = 112; expires_at = 86401000 } ∷ [];
  mails = record { tenant_id = 1; recipient = 80; kind = MailKind.verify; raw_token = 12 } ∷ [];
}

joins : register false crypto first_draw limits application people ≡ ok (newcomer, grown)
unfolding register find_tenant_by_id assert_within_plan active_members find_user_by_email_and_tenant
    is_active_member create_user find_user_by_email send_email_verification deliver_mail
    find_user_by_id
joins = refl

register-Registered_example : Registered limits application newcomer people grown
register-Registered_example =
    register-Registered false crypto first_draw limits application people newcomer grown joins
