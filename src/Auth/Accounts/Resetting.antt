-- ===== src/Auth/Accounts/Resetting.antt =====
-- A password reset: what it changes, and that its token works once.
use backend_pluseops.Base.{
  ℕ, ◌≡◌, refl, false, ◌&&◌, none, some, List, [], ◌∷◌, map, ok, is_ok, nat_eq, ltb, arith,
  Option-cases, inl, inr,
}
use backend_pluseops.Base.Lists.{any}
use backend_pluseops.Auth.{
  OneTimeToken, Identity, Crypto, Fresh, update_user, revoke_where, of_user, is_live,
}
use backend_pluseops.Auth.Sessions.Rotating.{none_live-revoke_where}
use backend_pluseops.Auth.Accounts.{find_token, mark_used, mark_token_used, reset_password}
use backend_pluseops.Auth.Sessions.{set_password}

-- A reset that succeeded.
pub record Reset (crypto : Crypto) (fresh : Fresh) (token password : ℕ) (s t : Identity)
    : Type 0 where
  pub stored : OneTimeToken
  pub found : find_token (crypto.hash_token token) s.reset_tokens ≡ some stored
  pub unused : stored.used_at ≡ none
  pub unexpired : ltb stored.expires_at fresh.now ≡ false
  pub users :
      t.users
      ≡ (update_user stored.user_id
          (set_password (crypto.hash_password fresh.salt password))
          s).users
  pub tokens : t.reset_tokens ≡ mark_token_used (crypto.hash_token token) fresh.now s.reset_tokens
  pub signed_out :
      (time : ℕ) → any (λ x. of_user stored.user_id x && is_live time x) t.refresh_tokens ≡ false

pub reset_password-Reset :
    (crypto : Crypto) (fresh : Fresh) (token password : ℕ) (s t : Identity)
    → reset_password crypto fresh token password s ≡ ok (tt, t)
    → Reset crypto fresh token password s t
unfolding reset_password update_user revoke_where
reset_password-Reset crypto fresh token password s t e =
    elim (Option-cases (find_token (crypto.hash_token token) s.reset_tokens)) [
      | inl unknown ↦ ground arith
      | inr (stored, found) ↦ record {
        stored = stored;
        found = found;
        unused = ground arith;
        unexpired = ground arith;
        users = ground arith;
        tokens = ground arith;
        signed_out = λ time.
            let dead =
              none_live-revoke_where (of_user stored.user_id) fresh.now time s.refresh_tokens
                (λ x at. refl) in
            ground arith;
      }
    ]

find-mark_used :
    (hash id now : ℕ) (ts : List OneTimeToken) (t : OneTimeToken)
    → find_token hash ts ≡ some t
    → find_token hash (map (mark_used id now) ts) ≡ some (mark_used id now t)
unfolding find_token mark_used
find-mark_used hash id now [] t e = ground arith
find-mark_used hash id now (u ∷ us) t e = ground (arith, find-mark_used hash id now us t)

mark_token_used-found :
    (hash now : ℕ) (ts : List OneTimeToken) (t : OneTimeToken)
    → find_token hash ts ≡ some t
    → find_token hash (mark_token_used hash now ts) ≡ some (record t { used_at = some now })
unfolding mark_token_used mark_used
mark_token_used-found hash now ts t e = ground (arith, find-mark_used hash t.id now ts t e)

-- A token that reset a password resets none again, whenever and with whatever password.
pub reset_password_once :
    (crypto : Crypto) (fresh again : Fresh) (token password other : ℕ) (s t : Identity)
    → reset_password crypto fresh token password s ≡ ok (tt, t)
    → is_ok (reset_password crypto again token other t) ≡ false
unfolding reset_password
reset_password_once crypto fresh again token password other s t e =
    let r = reset_password-Reset crypto fresh token password s t e in
    let gone =
      mark_token_used-found (crypto.hash_token token) fresh.now s.reset_tokens r.stored r.found in
    rw (r.tokens, gone) (ground arith)
