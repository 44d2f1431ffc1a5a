-- ===== src/Auth/Sessions/Rotating.antt =====
-- The rotation of refresh tokens: what a refresh does to the rows, and what the replay of a rotated
-- token does.
use mathlib.Core.Path.{fun_ext}
use backend_pluseops.Base.{
  ℕ, ◌≡◌, ◌≢◌, refl, sym, ap, ◌∙◌, Bool, true, false, ◌&&◌, Option, none, some, List, [], ◌∷◌, map,
  ok, err, nat_eq, ◌==◌, ltb, get_or, arith, Option-cases, Result-cases, inl, inr,
  refresh_token_revoked,
}
use backend_pluseops.Base.Lists.{find, any}
use backend_pluseops.Auth.{
  is_session, Scope, tenant_scope, platform_scope, support_scope, customer_scope, User,
  RefreshToken, Identity, Crypto, Fresh, Client, find_refresh_token, mark_revoked, revoke_row,
  revoke_token, revoke_where, is_live, is_active_user,
}
use backend_pluseops.Auth.Sessions.{
  Session, successor, add_refresh_token, check_holder, check_platform_holder, check_tenant_holder,
  scope_of, rotate, renew, refresh_stored, family, end_family, refresh,
}

-- One refresh that succeeds: the stored token was neither revoked nor expired, its row is revoked
-- and a row for the new token is put in, in the same session where there is one.
pub record Rotated (crypto : Crypto) (client : Client) (fresh : Fresh) (raw : ℕ) (answer : Session)
    (s t : Identity) : Type 0 where
  pub stored : RefreshToken
  pub user : User
  pub found : find_refresh_token (crypto.hash_token raw) s ≡ some stored
  pub unrevoked : stored.revoked_at ≡ none
  pub unexpired : ltb stored.expires_at fresh.now ≡ false
  pub active : is_active_user user.status ≡ true
  pub holder : check_holder (scope_of stored.tenant_id s) stored s ≡ ok user
  pub session : answer.session_id ≡ get_or stored.session_id fresh.session_id
  pub token : answer.refresh_token ≡ fresh.raw_token
  pub rows :
      t
      ≡ add_refresh_token
          (successor crypto client fresh user answer.session_id stored)
          (revoke_row stored.id fresh.now s)

check_platform_holder-active :
    (stored : RefreshToken) (s : Identity) (user : User)
    → check_platform_holder stored s ≡ ok user
    → is_active_user user.status ≡ true
unfolding check_platform_holder
check_platform_holder-active stored s user e = ground arith

check_tenant_holder-active :
    (stored : RefreshToken) (s : Identity) (user : User)
    → check_tenant_holder stored s ≡ ok user
    → is_active_user user.status ≡ true
unfolding check_tenant_holder
check_tenant_holder-active stored s user e = ground arith

check_holder-active :
    (scope : Scope) (stored : RefreshToken) (s : Identity) (user : User)
    → check_holder scope stored s ≡ ok user
    → is_active_user user.status ≡ true
unfolding check_holder
check_holder-active tenant_scope stored s user e = check_tenant_holder-active stored s user e
check_holder-active platform_scope stored s user e = check_platform_holder-active stored s user e
check_holder-active support_scope stored s user e = check_tenant_holder-active stored s user e
check_holder-active customer_scope stored s user e = check_tenant_holder-active stored s user e

renew-Rotated :
    (crypto : Crypto) (client : Client) (fresh : Fresh) (raw : ℕ) (stored : RefreshToken)
    (s : Identity) (answer : Session) (t : Identity)
    → find_refresh_token (crypto.hash_token raw) s ≡ some stored
    → stored.revoked_at ≡ none
    → ltb stored.expires_at fresh.now ≡ false
    → renew crypto client fresh (crypto.hash_token raw) stored s ≡ ok (answer, t)
    → Rotated crypto client fresh raw answer s t
unfolding renew rotate
renew-Rotated crypto client fresh raw stored s answer t found unrevoked unexpired e =
    elim (Result-cases (check_holder (scope_of stored.tenant_id s) stored s)) [
      | inl (user, held) ↦ record {
        stored = stored;
        user = user;
        found = found;
        unrevoked = unrevoked;
        unexpired = unexpired;
        active = check_holder-active _ stored s user held;
        holder = held;
        session = ground arith;
        token = ground arith;
        rows = ground arith;
      }
      | inr (why, refused) ↦ ground arith
    ]

-- A refresh that is answered with a session found an unrevoked, unexpired row of the token, whose
-- user is active and passes the checks of its scope. It revokes that row and puts one in for the
-- new token, of the same session where the row had one, and changes nothing else.
pub refresh-Rotated :
    (crypto : Crypto) (client : Client) (fresh : Fresh) (raw : ℕ) (s : Identity) (answer : Session)
    (t : Identity)
    → refresh crypto client fresh raw s ≡ (ok answer, t)
    → Rotated crypto client fresh raw answer s t
unfolding refresh refresh_stored
refresh-Rotated crypto client fresh raw s answer t e =
    elim (Option-cases (find_refresh_token (crypto.hash_token raw) s)) [
      | inl unknown ↦ ground arith
      | inr (stored, found) ↦
          elim (Result-cases (renew crypto client fresh (crypto.hash_token raw) stored s)) [
            | inl (r, renewed) ↦
                renew-Rotated crypto client fresh raw stored s answer t found (ground arith)
                  (ground arith) (ground arith)
            | inr (why, refused) ↦ ground arith
          ]
    ]

pub none_live-revoke_where :
    (test : RefreshToken → Bool) (now later : ℕ) (ts : List RefreshToken)
    → ((t : RefreshToken) (at : Option ℕ) → test (record t { revoked_at = at }) ≡ test t)
    → any (λ t. test t && is_live later t) (map (revoke_token test now) ts) ≡ false
unfolding revoke_token is_live
none_live-revoke_where test now later [] same = refl
none_live-revoke_where test now later (t ∷ ts) same =
    ground (arith, none_live-revoke_where test now later ts same, same t (some now))

find-mark_revoked :
    (hash id now : ℕ) (ts : List RefreshToken) (t : RefreshToken)
    → find (λ t. t.token_hash == hash) ts ≡ some t
    → find (λ t. t.token_hash == hash) (map (mark_revoked id now) ts) ≡ some (mark_revoked id now t)
unfolding mark_revoked
find-mark_revoked hash id now [] t e = ground arith
find-mark_revoked hash id now (u ∷ us) t e = ground (arith, find-mark_revoked hash id now us t)

family-same :
    (stored t : RefreshToken) (time : Option ℕ)
    → family stored (record t { revoked_at = time }) ≡ family stored t
unfolding family
family-same stored t time = elim (Option-cases stored.session_id) [
  | inl none_there ↦ ground arith
  | inr (k, there) ↦ ground arith
]

-- Marking a row leaves its family.
family-mark_revoked :
    (stored t : RefreshToken) (id now : ℕ) → family (mark_revoked id now stored) t ≡ family stored t
unfolding family mark_revoked
family-mark_revoked stored t id now = ground arith

-- The row of a token that was rotated is found again, revoked.
refresh-found :
    (crypto : Crypto) (client : Client) (fresh : Fresh) (raw : ℕ) (answer : Session)
    (s t : Identity)
    → (r : Rotated crypto client fresh raw answer s t)
    → crypto.hash_token fresh.raw_token ≢ crypto.hash_token raw
    → find_refresh_token (crypto.hash_token raw) t
      ≡ some (mark_revoked r.stored.id fresh.now r.stored)
unfolding find_refresh_token add_refresh_token revoke_row
refresh-found crypto client fresh raw answer s t r differ = rw r.rows (
    ground (
      arith,
      find-mark_revoked (crypto.hash_token raw) r.stored.id fresh.now s.refresh_tokens r.stored
          r.found,
    ))

-- What the replay of a token with a revoked row does.
refresh_stored-ends :
    (crypto : Crypto) (client : Client) (fresh : Fresh) (hash : ℕ) (row : RefreshToken) (id now : ℕ)
    (t : Identity)
    → row.id ≡ id
    → ltb row.expires_at fresh.now ≡ false
    → refresh_stored crypto client fresh hash (some (mark_revoked id now row)) t
      ≡ (err refresh_token_revoked, end_family (mark_revoked id now row) fresh.now t)
unfolding refresh_stored mark_revoked
refresh_stored-ends crypto client fresh hash row id now t same early = ground arith

-- A row that the replay of another is to end: one of its session, user and tenant, or of its user
-- where it has no session.
abbrev pub is_kin : RefreshToken → RefreshToken → Bool
is_kin stored t = elim stored.session_id [
  | none ↦ t.user_id == stored.user_id
  | some session ↦
      is_session t.session_id session
      && (t.user_id == stored.user_id && t.tenant_id == stored.tenant_id)
]

-- After a refresh that succeeded with one token, the same token is answered with
-- REFRESH_TOKEN_REVOKED, as long as it is not expired and the hashes of the two tokens differ. Then
-- no row of its session (of its user, where the row had no session) is live at any time.
pub refresh_replayed :
    (crypto : Crypto) (client other : Client) (fresh again : Fresh) (raw : ℕ) (s : Identity)
    (answer : Session) (t : Identity) (stored : RefreshToken) (time : ℕ)
    → refresh crypto client fresh raw s ≡ (ok answer, t)
    → find_refresh_token (crypto.hash_token raw) s ≡ some stored
    → crypto.hash_token fresh.raw_token ≢ crypto.hash_token raw
    → ltb stored.expires_at again.now ≡ false
    → ((refresh crypto other again raw t).0 ≡ err refresh_token_revoked)
      × (any
            (λ x. is_kin stored x && is_live time x)
            (refresh crypto other again raw t).1.refresh_tokens
          ≡ false)
unfolding refresh end_family revoke_where family
refresh_replayed crypto client other fresh again raw s answer t stored time e known differ early =
    let r = refresh-Rotated crypto client fresh raw s answer t e in
    let same : r.stored ≡ stored = ground (arith, r.found) in
    let row = mark_revoked r.stored.id fresh.now r.stored in
    let ends =
      refresh_stored-ends crypto other again (crypto.hash_token raw) r.stored r.stored.id fresh.now
        t refl (rw same early) in
    let dead =
      none_live-revoke_where (family row) again.now time t.refresh_tokens (family-same row) in
    let kin : family row ≡ family stored =
      rw same (fun_ext (λ x. family-mark_revoked stored x stored.id fresh.now)) in
    let gone : any (λ x. family stored x && is_live time x)
          (map (revoke_token (family row) again.now) t.refresh_tokens)
        ≡ false =
      ap
        (λ (test : RefreshToken → Bool).
          any (λ x. test x && is_live time x)
            (map (revoke_token (family row) again.now) t.refresh_tokens))
        (sym kin)
      ∙ dead in
    rw (refresh-found crypto client fresh raw answer s t r differ, ends) (refl, gone)
