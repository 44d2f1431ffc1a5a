-- ===== src/Auth/Guard/Ended.antt =====
-- Access tokens of sessions that were ended.
use backend_pluseops.Base.{
  ℕ, ◌≡◌, refl, sym, ap, ◌∙◌, Option-cases, Bool, true, false, ◌&&◌, Option, none, some, List, [],
  ◌∷◌, map, ok, is_ok, nat_eq, ◌==◌, arith, inl, inr,
}
use backend_pluseops.Base.Lists.{any}
use backend_pluseops.Auth.{
  Scope, support_scope, RefreshToken, Identity, Crypto, Fresh, User, is_live, is_session,
  is_session_active, of_user, of_other_session, revoke_where, revoke_token, revoke_row,
  mark_revoked, find_refresh_token, update_user,
}
use backend_pluseops.Auth.Sessions.{logout, logout_all, find_active_user, set_password}
use backend_pluseops.Auth.Sessions.Rotating.{none_live-revoke_where}
use backend_pluseops.Auth.Sessions.Single.{IsSingle, open_tokens, open_tokens-found}
use backend_pluseops.Auth.Guard.{
  Decoded, authenticate, authenticate_platform, authenticate_tenant, assert_session_active,
}

some-inj : (a b : ℕ) → some a ≡ some b → a ≡ b
some-inj a b e = cc

-- A session none of whose rows is open is not active.
closed_session :
    (session user now : ℕ) (ts : List RefreshToken)
    → open_tokens session ts ≡ 0
    → any (λ t. is_session t.session_id session && (t.user_id == user && is_live now t)) ts ≡ false
unfolding open_tokens is_live
closed_session session user now [] e = refl
closed_session session user now (t ∷ ts) e = ground (arith, closed_session session user now ts)

-- Where no row of a user is live, no session of the user is active.
signed_out_session :
    (session user now : ℕ) (ts : List RefreshToken)
    → any (λ t. of_user user t && is_live now t) ts ≡ false
    → any (λ t. is_session t.session_id session && (t.user_id == user && is_live now t)) ts ≡ false
signed_out_session session user now [] e = refl
signed_out_session session user now (t ∷ ts) e =
    ground (arith, signed_out_session session user now ts)

abbrev pub is_support_claim : Option Scope → Bool
is_support_claim (some support_scope) = true
is_support_claim _ = false

-- Neither `authenticate`, in any of its forms, nor `authenticatePlatform` lets the claims through.
pub record IsRefused (d : Decoded) (now : ℕ) (s : Identity) : Type 0 where
  pub tenant :
      (allow_support support_active reads : Bool)
      → is_ok (authenticate allow_support support_active reads d now s) ≡ false
  pub platform : is_ok (authenticate_platform d now s) ≡ false

module _ (d : Decoded) (now : ℕ) (s : Identity)
    (ended : (user session : ℕ)
      → d.sub ≡ some user
      → d.session_id ≡ some session
      → is_session_active session user now s ≡ false) where
  authenticate_platform-refused : is_ok (authenticate_platform d now s) ≡ false
  unfolding authenticate_platform assert_session_active
  authenticate_platform-refused = elim (Option-cases d.sub) [
    | inl nobody ↦ ground arith
    | inr (user, named) ↦ elim (Option-cases d.session_id) [
      | inl nowhere ↦ ground arith
      | inr (session, held) ↦ ground (arith, ended user session named held)
    ]
  ]

  authenticate-refused :
      (allow_support support_active reads : Bool)
      → is_support_claim d.scope ≡ false
      → is_ok (authenticate allow_support support_active reads d now s) ≡ false
  unfolding authenticate authenticate_tenant assert_session_active
  authenticate-refused allow_support support_active reads login = elim (Option-cases d.sub) [
    | inl nobody ↦ ground arith
    | inr (user, named) ↦ elim (Option-cases d.session_id) [
      | inl nowhere ↦ ground arith
      | inr (session, held) ↦ ground (arith, ended user session named held)
    ]
  ]

  session-IsRefused : is_support_claim d.scope ≡ false → IsRefused d now s
  session-IsRefused login = record {
    tenant = λ allow_support support_active reads.
        authenticate-refused allow_support support_active reads login;
    platform = authenticate_platform-refused;
  }

logged_out_session :
    (crypto : Crypto) (fresh : Fresh) (raw : ℕ) (s : Identity) (stored : RefreshToken)
    (session user now : ℕ)
    → IsSingle s
    → find_refresh_token (crypto.hash_token raw) s ≡ some stored
    → stored.session_id ≡ some session
    → stored.revoked_at ≡ none
    → is_session_active session user now (logout crypto fresh raw s) ≡ false
unfolding is_session_active logout revoke_row find_refresh_token
logged_out_session crypto fresh raw s stored session user now single found there unrevoked =
    let one_off =
      open_tokens-found (crypto.hash_token raw) fresh.now session s.refresh_tokens stored found
        there unrevoked in
    let at_most = single.one session in
    let shut =
      closed_session session user now (map (mark_revoked stored.id fresh.now) s.refresh_tokens)
        (ground arith) in
    ground arith

-- After a logout with a refresh token of a session that is on record and not yet revoked, no access
-- token of that session is let through by `authenticate` or `authenticatePlatform` from then on,
-- whatever else it claims, unless it claims to be a support token, if the session had at most one
-- refresh token that was not revoked. A logout with a token that is already revoked is left out.
pub logout_ends :
    (crypto : Crypto) (fresh : Fresh) (raw : ℕ) (s : Identity) (stored : RefreshToken)
    (session now : ℕ) (d : Decoded)
    → IsSingle s
    → find_refresh_token (crypto.hash_token raw) s ≡ some stored
    → stored.session_id ≡ some session
    → stored.revoked_at ≡ none
    → d.session_id ≡ some session
    → is_support_claim d.scope ≡ false
    → IsRefused d now (logout crypto fresh raw s)
logout_ends crypto fresh raw s stored session now d single found there unrevoked held login =
    session-IsRefused d now (logout crypto fresh raw s)
      (λ user other named claimed.
        ap (λ k. is_session_active k user now (logout crypto fresh raw s))
          (some-inj other session (sym claimed ∙ held))
        ∙ logged_out_session crypto fresh raw s stored session user now single found there
            unrevoked)
      login

no_session :
    (user session now later : ℕ) (s : Identity)
    → is_session_active session user later (logout_all user now s).1 ≡ false
unfolding is_session_active logout_all revoke_where of_other_session
no_session user session now later s =
    signed_out_session session user later (map (revoke_token (of_user user) now) s.refresh_tokens)
      (none_live-revoke_where (of_user user) now later s.refresh_tokens (λ t at. refl))

-- After logoutAll, no access token of the user is let through by `authenticate` or
-- `authenticatePlatform`, whatever session, tenant and scope it claims, but for a support token, whose
-- session is the support service's.
pub logout_all_ends :
    (user now later : ℕ) (d : Decoded) (s : Identity)
    → d.sub ≡ some user
    → is_support_claim d.scope ≡ false
    → IsRefused d later (logout_all user now s).1
logout_all_ends user now later d s named login =
    session-IsRefused d later (logout_all user now s).1
      (λ other session claimed held.
        ap (λ k. is_session_active session k later (logout_all user now s).1)
          (some-inj other user (sym claimed ∙ named))
        ∙ no_session user session now later s)
      login

-- What a change of the password leaves behind.
pub record PasswordChanged (crypto : Crypto) (fresh : Fresh) (user kept : ℕ) (current next : ℕ)
    (s t : Identity) : Type 0 where
  pub before : User
  pub found : find_active_user user s ≡ ok before
  pub knew : crypto.verify_password before.password_hash current ≡ true
  pub differs : crypto.verify_password before.password_hash next ≡ false
  pub users :
      t.users ≡ (update_user user (set_password (crypto.hash_password fresh.salt next)) s).users
  pub stays : (now : ℕ) → is_session_active kept user now t ≡ is_session_active kept user now s
  pub others :
      (session now : ℕ) (tenant : Option ℕ) (is_uuid : Bool)
      → (session == kept) ≡ false
      → is_ok (authenticate_tenant is_uuid user session tenant now t) ≡ false
