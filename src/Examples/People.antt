-- ===== src/Examples/People.antt =====
-- Sessions at concrete inputs.
use backend_pluseops.Base.{
  ◌≡◌, ◌==◌, ◌+◌, ◌&&◌, refl, true, false, none, some, [], ◌∷◌, ok, err, arith,
  refresh_token_revoked, pair_eq,
}
use backend_pluseops.Base.Lists.{any}
use backend_pluseops.Auth.{
  Tenant, TenantStatus, User, UserStatus, MembershipStatus, RefreshToken, OneTimeToken, Identity,
  Crypto, Fresh, Client, tenant_scope, is_live, is_active_member, find_refresh_token,
  find_tenant_by_id, find_tenant_by_slug, find_user_by_email_and_tenant, find_user_by_id_and_tenant,
  mark_revoked, revoke_row, update_user,
}
use backend_pluseops.Auth.Sessions.{
  Session, refresh, refresh_stored, renew, rotate, scope_of, check_holder, check_tenant_holder,
  has_active_tenant, add_refresh_token, logout, logout_all,
}
use backend_pluseops.Auth.Sessions.Rotating.{is_kin, refresh_replayed}
use backend_pluseops.Auth.Sessions.Single.{IsSingle, open_tokens}
use backend_pluseops.Auth.Signing.{
  LoginRequest, login, tenant_login, admit_tenant, effective_tenant, named_tenant, start_session,
}
use backend_pluseops.Auth.Signing.Admitted.{Admitted, login-Admitted}
use backend_pluseops.Auth.History.{done, call, signed_in, signed_out, Run-IsSingle}
use backend_pluseops.Auth.Guard.{Decoded}
use backend_pluseops.Auth.Guard.Ended.{IsRefused, logout_ends, logout_all_ends}

-- Hashes that shift, so that distinct tokens have distinct hashes.
abbrev pub crypto : Crypto
crypto = record {
  hash_token = λ n. n + 100;
  hash_password = λ salt p. p + 1000;
  verify_password = λ h p. h == p + 1000;
}

abbrev browser : Client
browser = record { user_agent = some 1; ip_address = none }

abbrev pub first_draw : Fresh
first_draw = record {
  user_id = 8;
  row_id = 2;
  session_id = 22;
  raw_token = 12;
  salt = 4;
  now = 1000;
  queue_takes = true;
}

abbrev pub second_draw : Fresh
second_draw = record {
  user_id = 9;
  row_id = 3;
  session_id = 23;
  raw_token = 13;
  salt = 5;
  now = 2000;
  queue_takes = true;
}

abbrev shop : Tenant
shop = record { id = 1; slug = 5; status = TenantStatus.active }

abbrev pub clerk : User
clerk = record {
  id = 7;
  tenant_id = 1;
  email = 70;
  password_hash = 1003;
  first_name = 1;
  last_name = 2;
  status = UserStatus.active;
  email_verified = true;
  last_login_at = none;
}

abbrev pub clerk_token : RefreshToken
clerk_token = record {
  id = 1;
  tenant_id = 1;
  user_id = 7;
  token_hash = 111;
  expires_at = 5000;
  revoked_at = none;
  session_id = some 21;
  user_agent = none;
  ip_address = none;
  last_used_at = none;
}

abbrev pub reset_link : OneTimeToken
reset_link = record {
  id = 4;
  tenant_id = 1;
  user_id = 7;
  token_hash = 140;
  expires_at = 5000;
  used_at = none;
}

abbrev pub people : Identity
people = record {
  tenants = shop ∷ [];
  users = clerk ∷ [];
  memberships = record { tenant_id = 1; user_id = 7; status = MembershipStatus.active } ∷ [];
  platform_roles = [];
  refresh_tokens = clerk_token ∷ [];
  reset_tokens = reset_link ∷ [];
  verification_tokens = [];
  mails = [];
}

people-IsSingle : IsSingle people
unfolding open_tokens
people-IsSingle = record { one = λ k. ground arith }

abbrev renewed : Session
renewed = record {
  access_token = record {
    sub = 7;
    tenant_id = 1;
    session_id = 21;
    email = 70;
    scope = tenant_scope;
  };
  refresh_token = 12;
  session_id = 21;
  scope = tenant_scope;
}

abbrev rotated : Identity
rotated = record people {
  refresh_tokens =
      record clerk_token {
        id = 2;
        token_hash = 112;
        expires_at = 604801000;
        user_agent = some 1;
        last_used_at = some 1000;
      }
      ∷ record clerk_token { revoked_at = some 1000 }
      ∷ [];
}

rotates : refresh crypto browser first_draw 11 people ≡ (ok renewed, rotated)
unfolding refresh refresh_stored find_refresh_token renew scope_of check_holder check_tenant_holder
    find_tenant_by_id find_user_by_id_and_tenant is_active_member has_active_tenant rotate
    add_refresh_token revoke_row mark_revoked
rotates = refl

refresh_replayed_example :
    ((refresh crypto browser second_draw 11 rotated).0 ≡ err refresh_token_revoked)
    × (any
          (λ x. is_kin clerk_token x && is_live 3000 x)
          (refresh crypto browser second_draw 11 rotated).1.refresh_tokens
        ≡ false)
unfolding find_refresh_token
refresh_replayed_example =
    refresh_replayed crypto browser browser first_draw second_draw 11 people renewed rotated
      clerk_token 3000 rotates refl (λ e. omega (arith, e)) refl

abbrev request : LoginRequest
request = record { email = 70; password = 3; scope = none; tenant_id = none; tenant_slug = some 5 }

abbrev opened : Session
opened = record {
  access_token = record {
    sub = 7;
    tenant_id = 1;
    session_id = 22;
    email = 70;
    scope = tenant_scope;
  };
  refresh_token = 12;
  session_id = 22;
  scope = tenant_scope;
}

abbrev pub entered : Identity
entered = record people {
  users = record clerk { last_login_at = some 1000 } ∷ [];
  refresh_tokens =
      record clerk_token {
        id = 2;
        token_hash = 112;
        expires_at = 604801000;
        session_id = some 22;
        user_agent = some 1;
        last_used_at = some 1000;
      }
      ∷ clerk_token
      ∷ [];
}

enters : login crypto browser first_draw request people ≡ ok (opened, entered)
unfolding login tenant_login admit_tenant effective_tenant named_tenant find_tenant_by_slug
    find_user_by_email_and_tenant find_tenant_by_id is_active_member has_active_tenant start_session
    add_refresh_token update_user
enters = refl

login-Admitted_example : Admitted crypto browser first_draw request opened people entered
login-Admitted_example =
    login-Admitted crypto browser first_draw request people opened entered enters

-- A login, and a logout with the token of the other session.
abbrev left : Identity
left = record entered {
  refresh_tokens =
      record clerk_token {
        id = 2;
        token_hash = 112;
        expires_at = 604801000;
        session_id = some 22;
        user_agent = some 1;
        last_used_at = some 1000;
      }
      ∷ record clerk_token { revoked_at = some 2000 }
      ∷ [];
}

leaves : logout crypto second_draw 11 entered ≡ left
unfolding logout find_refresh_token revoke_row mark_revoked
leaves = refl

Run-IsSingle_example : IsSingle left
unfolding open_tokens
Run-IsSingle_example =
    Run-IsSingle crypto people left
      (call (call done (signed_in browser first_draw request opened refl enters))
        (signed_out second_draw 11 leaves))
      people-IsSingle

-- The claims of the clerk's access token
abbrev access : Decoded
access = record {
  sub = some 7;
  session_id = some 21;
  is_uuid = true;
  tenant_id = some 1;
  scope = some tenant_scope;
}

logout_ends_example : IsRefused access 3000 (logout crypto second_draw 11 people)
unfolding find_refresh_token
logout_ends_example =
    logout_ends crypto second_draw 11 people clerk_token 21 3000 access people-IsSingle refl refl
      refl refl refl

logout_all_ends_example : IsRefused access 3000 (logout_all 7 2000 people).1
logout_all_ends_example = logout_all_ends 7 2000 3000 access people refl refl
