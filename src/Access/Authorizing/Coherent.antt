-- ===== src/Access/Authorizing/Coherent.antt =====
-- The cache of permissions agrees with the rows, so that `authorize` decides by the rows.
use backend_pluseops.Base.{
  ℕ, ◌≡◌, sym, ◌∙◌, ◌&&◌, Option, none, some, List, is_ok, nat_eq, pair_eq, pair_iff, arith,
  Option-cases, Bool-cases, inl, inr,
}
use backend_pluseops.Base.Lists.{any}
use backend_pluseops.Base.Tables.{lookup, lookup-upsert}
use backend_pluseops.Access.{Access, Permission, is_member, granted}
use backend_pluseops.Access.Authorizing.{
  Context, Demand, satisfies, read_permissions, get_user_permissions, authorize_member, authorize,
  is_support,
}

-- What is cached for a user is what the rows grant.
pub record IsCoherent (s : Access) : Type 0 where
  pub agrees :
      (user tenant : ℕ) (ps : List Permission)
      → lookup (tenant, user) s.cache ≡ some ps
      → ps ≡ granted user tenant s

get_user_permissions-granted :
    (user tenant : ℕ) (s : Access)
    → IsCoherent s
    → (get_user_permissions user tenant s).0 ≡ granted user tenant s
unfolding get_user_permissions read_permissions
get_user_permissions-granted user tenant s h = elim (Option-cases (lookup (tenant, user) s.cache)) [
  | inl unread ↦ ground arith
  | inr (ps, cached) ↦ ground (arith, h.agrees user tenant ps cached)
]

-- The answer to a member, cached or not, is that of the rows.
pub authorize_member-granted :
    (demand : Demand) (user tenant : ℕ) (s : Access)
    → IsCoherent s
    → is_ok (authorize_member demand user tenant s).0
      ≡ (is_member user tenant s && any (satisfies demand) (granted user tenant s))
unfolding authorize_member
authorize_member-granted demand user tenant s h =
    ground (arith, get_user_permissions-granted user tenant s h)

pub read_permissions-IsCoherent :
    (user tenant : ℕ) (o : Option (List Permission)) (s : Access)
    → IsCoherent s
    → IsCoherent (read_permissions user tenant o s).1
unfolding read_permissions granted
read_permissions-IsCoherent user tenant (some ps) s h = h
read_permissions-IsCoherent user tenant none s h = record {
  agrees = λ u t ps e. ground (
    arith,
    h.agrees u t ps,
    lookup-upsert (tenant, user) (t, u) (granted user tenant s) s.cache,
    pair_iff (tenant, user) (t, u),
  );
}

-- Rows that grant as before, with a cache that has nothing new.
pub kept-IsCoherent :
    (s t : Access)
    → IsCoherent s
    → ((user tenant : ℕ) (ps : List Permission)
        → lookup (tenant, user) t.cache ≡ some ps
        → (lookup (tenant, user) s.cache ≡ some ps)
          × (granted user tenant t ≡ granted user tenant s))
    → IsCoherent t
kept-IsCoherent s t h k = record {
  agrees = λ user tenant ps e.
      let (old, same) = k user tenant ps e in h.agrees user tenant ps old ∙ sym same;
}

-- `authorize` only fills the cache.
pub authorize-IsCoherent :
    (demand : Demand) (context : Context) (s : Access)
    → IsCoherent s
    → IsCoherent (authorize demand context s).1
unfolding authorize authorize_member get_user_permissions
authorize-IsCoherent demand context s h = elim (Option-cases context.user_id) [
  | inl nobody ↦ rw nobody h
  | inr (user, known) ↦ elim (Option-cases context.tenant_id) [
    | inl nowhere ↦ rw (known, nowhere) h
    | inr (tenant, there) ↦ elim (Bool-cases (is_support context.scope)) [
      | inl support ↦ rw (known, there, support) h
      | inr staff ↦ elim (Bool-cases (is_member user tenant s)) [
        | inl member ↦
            rw (known, there, staff, member)
              (read_permissions-IsCoherent user tenant (lookup (tenant, user) s.cache) s h)
        | inr stranger ↦ rw (known, there, staff, stranger) h
      ]
    ]
  ]
]
