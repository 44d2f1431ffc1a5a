-- ===== src/Auth/History.antt =====
-- Sequences of calls of src/modules/auth/auth.service.js, each run to its end before the next.
use backend_pluseops.Base.{
  ℕ, ◌≡◌, refl, Bool, Option, none, ok, arith, Option-cases, Result-cases, inl, inr,
}
use backend_pluseops.Auth.{
  User, RefreshToken, Identity, Crypto, Fresh, Client, revoke_row, revoke_where, find_refresh_token,
  update_user, of_session, of_other_session, of_user,
}
use backend_pluseops.Auth.Sessions.{
  Session, add_refresh_token, refresh, logout, revoke_session, logout_all, find_active_user,
  change_password, set_password,
}
use backend_pluseops.Auth.Sessions.Single.{
  IsSingle, IsUnused, open_tokens-added, open_tokens-mark_revoked, revoke_where-IsSingle,
  refresh-IsSingle,
}
use backend_pluseops.Auth.Signing.{LoginRequest, login}
use backend_pluseops.Auth.Signing.Admitted.{Admitted, login-Admitted}
use backend_pluseops.Auth.Accounts.{
  RegisterRequest, register, resend_verification, update_me, forgot_password, reset_password,
  verify_email, find_token, mark_token_used,
}
use backend_pluseops.Auth.Accounts.Tokens.{
  register-tokens, forgot_password-tokens, verify_email-tokens, resend_verification-tokens,
  update_me-tokens,
}

-- One call, whatever it answers: a call that raises before it writes leaves the rows as they were
-- and is no step.
pub data Step (crypto : Crypto) : Identity → Identity → Type 0 where
  signed_in :
      {s t : Identity} (client : Client) (fresh : Fresh) (body : LoginRequest) (answer : Session)
      → IsUnused fresh s
      → login crypto client fresh body s ≡ ok (answer, t)
      → Step crypto s t
  refreshed :
      {s t : Identity} (client : Client) (fresh : Fresh) (raw : ℕ)
      → IsUnused fresh s
      → (refresh crypto client fresh raw s).1 ≡ t
      → Step crypto s t
  signed_out :
      {s t : Identity} (fresh : Fresh) (raw : ℕ) → logout crypto fresh raw s ≡ t → Step crypto s t
  session_revoked :
      {s t : Identity} (user tenant session now : ℕ)
      → revoke_session user tenant session now s ≡ ok (tt, t)
      → Step crypto s t
  signed_out_everywhere :
      {s t : Identity} (user now : ℕ) → (logout_all user now s).1 ≡ t → Step crypto s t
  password_changed :
      {s t : Identity} (fresh : Fresh) (user : ℕ) (session : Option ℕ) (current next count : ℕ)
      → change_password crypto fresh user session current next s ≡ ok (count, t)
      → Step crypto s t
  password_reset :
      {s t : Identity} (fresh : Fresh) (token password : ℕ)
      → reset_password crypto fresh token password s ≡ ok (tt, t)
      → Step crypto s t
  reset_asked :
      {s t : Identity} (expose : Bool) (fresh : Fresh) (email : ℕ) (tenant slug : Option ℕ)
      → (forgot_password expose crypto fresh email tenant slug s).1 ≡ t
      → Step crypto s t
  registered :
      {s t : Identity} (expose : Bool) (fresh : Fresh) (limits : ℕ → Option ℕ)
      (body : RegisterRequest) (user : User)
      → register expose crypto fresh limits body s ≡ ok (user, t)
      → Step crypto s t
  email_verified :
      {s t : Identity} (fresh : Fresh) (token : ℕ)
      → verify_email crypto fresh token s ≡ ok (tt, t)
      → Step crypto s t
  verification_resent :
      {s t : Identity} (expose : Bool) (fresh : Fresh) (user tenant : ℕ) (echo : Option ℕ)
      → resend_verification expose crypto fresh user tenant s ≡ ok (echo, t)
      → Step crypto s t
  renamed :
      {s t : Identity} (user tenant : ℕ) (first last : Option ℕ)
      → (update_me user tenant first last s).1 ≡ t
      → Step crypto s t

pub data Run (crypto : Crypto) : Identity → Identity → Type 0 where
  done : {s : Identity} → Run crypto s s
  call : {s t u : Identity} → Run crypto s t → Step crypto t u → Run crypto s u

same_tokens-IsSingle :
    (s t : Identity) → t.refresh_tokens ≡ s.refresh_tokens → IsSingle s → IsSingle t
same_tokens-IsSingle s t e single = record { one = λ k. rw e (single.one k) }

login-IsSingle :
    (crypto : Crypto) (client : Client) (fresh : Fresh) (body : LoginRequest) (answer : Session)
    (s t : Identity)
    → Admitted crypto client fresh body answer s t
    → IsUnused fresh s
    → IsSingle s
    → IsSingle t
unfolding add_refresh_token update_user
login-IsSingle crypto client fresh body answer s t a unused single = record {
  one = λ k.
      rw a.rows
        (open_tokens-added k fresh.session_id _ _ refl (λ same. rw same at unused) (single.one k));
}

logout-IsSingle :
    (crypto : Crypto) (fresh : Fresh) (raw : ℕ) (s : Identity)
    → IsSingle s
    → IsSingle (logout crypto fresh raw s)
unfolding logout revoke_row
logout-IsSingle crypto fresh raw s single =
    elim (Option-cases (find_refresh_token (crypto.hash_token raw) s)) [
      | inl unknown ↦ record { one = λ k. ground (arith, single.one k) }
      | inr (old, found) ↦ record {
        one = λ k.
            ground
              (arith, single.one k, open_tokens-mark_revoked old.id fresh.now k s.refresh_tokens);
      }
    ]

revoke_session-IsSingle :
    (user tenant session now : ℕ) (s t : Identity)
    → revoke_session user tenant session now s ≡ ok (tt, t)
    → IsSingle s
    → IsSingle t
unfolding revoke_session
revoke_session-IsSingle user tenant session now s t e single =
    let rows : t ≡ revoke_where (of_session session user tenant) now s = ground arith in
    rw rows (revoke_where-IsSingle (of_session session user tenant) now s single)

-- Writes to users and then a revocation.
revoked_after-IsSingle :
    (test : RefreshToken → Bool) (now : ℕ) (s t u : Identity)
    → u ≡ revoke_where test now t
    → t.refresh_tokens ≡ s.refresh_tokens
    → IsSingle s
    → IsSingle u
revoked_after-IsSingle test now s t u rows same single =
    rw rows (revoke_where-IsSingle test now t (same_tokens-IsSingle s t same single))

change_password-IsSingle :
    (crypto : Crypto) (fresh : Fresh) (user : ℕ) (session : Option ℕ) (current next count : ℕ)
    (s t : Identity)
    → change_password crypto fresh user session current next s ≡ ok (count, t)
    → IsSingle s
    → IsSingle t
unfolding change_password update_user
change_password-IsSingle crypto fresh user session current next count s t e single =
    elim (Result-cases (find_active_user user s)) [
      | inr (why, refused) ↦ ground arith
      | inl (u, found) ↦
          revoked_after-IsSingle (of_other_session user session) fresh.now s
            (update_user user (set_password (crypto.hash_password fresh.salt next)) s) t
            (ground arith) refl single
    ]

reset_password-IsSingle :
    (crypto : Crypto) (fresh : Fresh) (token password : ℕ) (s t : Identity)
    → reset_password crypto fresh token password s ≡ ok (tt, t)
    → IsSingle s
    → IsSingle t
unfolding reset_password update_user
reset_password-IsSingle crypto fresh token password s t e single =
    elim (Option-cases (find_token (crypto.hash_token token) s.reset_tokens)) [
      | inl unknown ↦ ground arith
      | inr (stored, found) ↦
          revoked_after-IsSingle (of_user stored.user_id) fresh.now s
            (record (update_user stored.user_id
              (set_password (crypto.hash_password fresh.salt password)) s) {
                reset_tokens = mark_token_used (crypto.hash_token token) fresh.now s.reset_tokens;
              })
            t (ground arith) refl single
    ]

Step-IsSingle : (crypto : Crypto) (s t : Identity) → Step crypto s t → IsSingle s → IsSingle t
unfolding logout_all
Step-IsSingle crypto s t (signed_in client fresh body answer unused e) h =
    login-IsSingle crypto client fresh body answer s t
      (login-Admitted crypto client fresh body s answer t e) unused h
Step-IsSingle crypto s t (refreshed client fresh raw unused e) h =
    rw e at (refresh-IsSingle crypto client fresh raw s unused h)
Step-IsSingle crypto s t (signed_out fresh raw e) h = rw e at (logout-IsSingle crypto fresh raw s h)
Step-IsSingle crypto s t (session_revoked user tenant session now e) h =
    revoke_session-IsSingle user tenant session now s t e h
Step-IsSingle crypto s t (signed_out_everywhere user now e) h =
    rw e at (revoke_where-IsSingle (of_other_session user none) now s h)
Step-IsSingle crypto s t (password_changed fresh user session current next count e) h =
    change_password-IsSingle crypto fresh user session current next count s t e h
Step-IsSingle crypto s t (password_reset fresh token password e) h =
    reset_password-IsSingle crypto fresh token password s t e h
Step-IsSingle crypto s t (reset_asked expose fresh email tenant slug e) h = rw e at (
    same_tokens-IsSingle s (forgot_password expose crypto fresh email tenant slug s).1
      (forgot_password-tokens expose crypto fresh email tenant slug s) h)
Step-IsSingle crypto s t (registered expose fresh limits body user e) h =
    same_tokens-IsSingle s t (register-tokens expose crypto fresh limits body s user t e) h
Step-IsSingle crypto s t (email_verified fresh token e) h =
    same_tokens-IsSingle s t (verify_email-tokens crypto fresh token s t e) h
Step-IsSingle crypto s t (verification_resent expose fresh user tenant echo e) h =
    same_tokens-IsSingle s t (resend_verification-tokens expose crypto fresh user tenant s echo t e)
      h
Step-IsSingle crypto s t (renamed user tenant first last e) h = rw e at (
    same_tokens-IsSingle s (update_me user tenant first last s).1
      (update_me-tokens user tenant first last s) h)

-- After any sequence of calls, each run to its end before the next and each drawing a uuid for a
-- session that is not in use, every session has at most one refresh token that is not revoked, if
-- that was so before.
pub Run-IsSingle : (crypto : Crypto) (s t : Identity) → Run crypto s t → IsSingle s → IsSingle t
Run-IsSingle crypto s t done h = h
Run-IsSingle crypto s t (call {t = m} before step) h =
    Step-IsSingle crypto m t step (Run-IsSingle crypto s m before h)
