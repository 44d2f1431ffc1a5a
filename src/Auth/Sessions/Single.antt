-- ===== src/Auth/Sessions/Single.antt =====
-- A session has at most one refresh token that is not revoked, whatever calls are made one after
-- another.
use backend_pluseops.Base.{
  ℕ, ◌+◌, ◌≤◌, ◌≡◌, refl, Bool, not, ◌&&◌, none, some, List, [], ◌∷◌, map, err, nat_eq, ◌==◌, ltb,
  is_some, if◌then◌else◌, arith, Option-cases, Bool-cases, Result-cases, inl, inr, ◌⊎◌, Error,
}
use backend_pluseops.Base.Lists.{find, sum_of}
use backend_pluseops.Auth.{
  RefreshToken, Identity, Crypto, Fresh, Client, find_refresh_token, mark_revoked, revoke_row,
  revoke_token, revoke_where, is_session,
}
use backend_pluseops.Auth.Sessions.{
  Session, add_refresh_token, renew, refresh_stored, family, end_family, refresh,
}
use backend_pluseops.Auth.Sessions.Rotating.{Rotated, refresh-Rotated}

-- Rows of a session that are not revoked.
abbrev is_open_in : ℕ → RefreshToken → Bool
is_open_in k t = is_session t.session_id k && not (is_some t.revoked_at)

unfoldable pub open_tokens : ℕ → List RefreshToken → ℕ
unfolding is_open_in
open_tokens k ts = sum_of (λ t. if is_open_in k t then 1 else 0) ts

pub record IsSingle (s : Identity) : Type 0 where
  pub one : (k : ℕ) → open_tokens k s.refresh_tokens ≤ 1

-- The uuid that a call drew for a session is not in use.
abbrev pub IsUnused : Fresh → Identity → Type 0
IsUnused fresh s = open_tokens fresh.session_id s.refresh_tokens ≡ 0

pub open_tokens-revoke_token :
    (test : RefreshToken → Bool) (now k : ℕ) (ts : List RefreshToken)
    → open_tokens k (map (revoke_token test now) ts) ≤ open_tokens k ts
unfolding open_tokens revoke_token
open_tokens-revoke_token test now k [] = omega arith
open_tokens-revoke_token test now k (t ∷ ts) =
    ground (arith, open_tokens-revoke_token test now k ts)

pub open_tokens-mark_revoked :
    (id now k : ℕ) (ts : List RefreshToken)
    → open_tokens k (map (mark_revoked id now) ts) ≤ open_tokens k ts
unfolding open_tokens mark_revoked
open_tokens-mark_revoked id now k [] = omega arith
open_tokens-mark_revoked id now k (t ∷ ts) = ground (arith, open_tokens-mark_revoked id now k ts)

-- Marking an open row that was found takes one off.
pub open_tokens-found :
    (hash now k : ℕ) (ts : List RefreshToken) (old : RefreshToken)
    → find (λ t. t.token_hash == hash) ts ≡ some old
    → old.session_id ≡ some k
    → old.revoked_at ≡ none
    → open_tokens k (map (mark_revoked old.id now) ts) + 1 ≤ open_tokens k ts
unfolding open_tokens mark_revoked
open_tokens-found hash now k [] old e there unrevoked = ground arith
open_tokens-found hash now k (t ∷ ts) old e there unrevoked =
    ground (arith, open_tokens-found hash now k ts old, open_tokens-mark_revoked old.id now k ts)

-- A refresh that is refused either wrote nothing or ended the family of its token.
pub refresh_refused :
    (crypto : Crypto) (client : Client) (fresh : Fresh) (raw : ℕ) (s : Identity) (e : Error)
    (t : Identity)
    → refresh crypto client fresh raw s ≡ (err e, t)
    → (t ≡ s) ⊎ ((stored : RefreshToken) × (t ≡ end_family stored fresh.now s))
unfolding refresh refresh_stored
refresh_refused crypto client fresh raw s e t h =
    elim (Option-cases (find_refresh_token (crypto.hash_token raw) s)) [
      | inl unknown ↦ inl (ground arith)
      | inr (stored, found) ↦ elim (Bool-cases (ltb stored.expires_at fresh.now)) [
        | inl expired ↦ inl (ground arith)
        | inr early ↦ elim (Bool-cases (is_some stored.revoked_at)) [
          | inl revoked ↦ inr (stored, ground arith)
          | inr unrevoked ↦
              elim (Result-cases (renew crypto client fresh (crypto.hash_token raw) stored s)) [
                | inl (r, renewed) ↦ ground arith
                | inr (why, refused) ↦ inl (ground arith)
              ]
        ]
      ]
    ]

-- A new row of a session without open rows.
pub open_tokens-added :
    (k j : ℕ) (t : RefreshToken) (ts : List RefreshToken)
    → t.session_id ≡ some j
    → (j ≡ k → open_tokens k ts ≡ 0)
    → open_tokens k ts ≤ 1
    → open_tokens k (t ∷ ts) ≤ 1
unfolding open_tokens
open_tokens-added k j t ts there free single = elim (Bool-cases (j == k)) [
  | inl same ↦ let none_left = free (ground arith) in ground arith
  | inr other ↦ ground arith
]

-- A rotation leaves its session without an open row before it puts the new one in.
Rotated-free :
    (crypto : Crypto) (client : Client) (fresh : Fresh) (raw : ℕ) (answer : Session)
    (s t : Identity)
    → (r : Rotated crypto client fresh raw answer s t) → IsUnused fresh s
    → IsSingle s
    → open_tokens answer.session_id (map (mark_revoked r.stored.id fresh.now) s.refresh_tokens) ≡ 0
unfolding find_refresh_token
Rotated-free crypto client fresh raw answer s t r unused single =
    elim (Option-cases r.stored.session_id) [
      | inl legacy ↦
          let same : answer.session_id ≡ fresh.session_id = ground (arith, r.session) in
          rw same (
            ground (
              arith,
              unused,
              open_tokens-mark_revoked r.stored.id fresh.now fresh.session_id s.refresh_tokens,
            ))
      | inr (j, there) ↦
          let same : answer.session_id ≡ j = ground (arith, r.session) in
          rw same (
            ground (
              arith,
              single.one j,
              open_tokens-found (crypto.hash_token raw) fresh.now j s.refresh_tokens r.stored
                  r.found there r.unrevoked,
            ))
    ]

Rotated-IsSingle :
    (crypto : Crypto) (client : Client) (fresh : Fresh) (raw : ℕ) (answer : Session)
    (s t : Identity)
    → Rotated crypto client fresh raw answer s t
    → IsUnused fresh s
    → IsSingle s
    → IsSingle t
unfolding add_refresh_token revoke_row
Rotated-IsSingle crypto client fresh raw answer s t r unused single = record {
  one = λ k. rw r.rows (
      open_tokens-added k answer.session_id _ _ refl
        (λ same. rw same at (Rotated-free crypto client fresh raw answer s t r unused single))
        (ground (
          arith,
          single.one k,
          open_tokens-mark_revoked r.stored.id fresh.now k s.refresh_tokens,
        )));
}

pub revoke_where-IsSingle :
    (test : RefreshToken → Bool) (now : ℕ) (s : Identity)
    → IsSingle s
    → IsSingle (revoke_where test now s)
unfolding revoke_where
revoke_where-IsSingle test now s single = record {
  one = λ k. ground (arith, single.one k, open_tokens-revoke_token test now k s.refresh_tokens);
}

-- Whatever refresh answers, each session keeps at most one row that is not revoked, as long as the
-- uuid drawn for a session is not in use.
pub refresh-IsSingle :
    (crypto : Crypto) (client : Client) (fresh : Fresh) (raw : ℕ) (s : Identity)
    → IsUnused fresh s
    → IsSingle s
    → IsSingle (refresh crypto client fresh raw s).1
unfolding end_family
refresh-IsSingle crypto client fresh raw s unused single =
    elim (Result-cases (refresh crypto client fresh raw s).0) [
      | inl (answer, e) ↦
          Rotated-IsSingle crypto client fresh raw answer s _
            (refresh-Rotated crypto client fresh raw s answer _
              (λ i. (e i, (refresh crypto client fresh raw s).1)))
            unused single
      | inr (why, e) ↦
          elim (refresh_refused crypto client fresh raw s why _
            (λ i. (e i, (refresh crypto client fresh raw s).1))) [
              | inl same ↦ rw same single
              | inr (stored, ended) ↦
                  rw ended (revoke_where-IsSingle (family stored) fresh.now s single)
            ]
    ]
