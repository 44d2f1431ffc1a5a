-- ===== src/Base/Tables.antt =====
-- A database table with a unique index: rows found by key, an upsert, and sums over the rows.
use Prim.Native.Nat.{ℕ, ◌+◌}
use mathlib.Core.Path.{◌≡◌, refl, ap}
use mathlib.Core.Logic.{inl, inr}
use mathlib.Core.Bool.{Bool}
use mathlib.Core.Option.{Option, none, some}
use mathlib.Core.List.{List, [], ◌∷◌}
use native.Mathlib.Omega.{arith}
use backend_pluseops.Base.Tests.{Eq, if◌then◌else◌, get_or, Bool-cases}
use backend_pluseops.Base.Lists.{filter}

abbrev pub Table : Type 0 → Type 0 → Type 0
Table K V = List (K × V)

module _ {K V : Type 0} ⦃e : Eq K⦄ where
  -- SELECT … WHERE key = k
  unfoldable pub lookup : K → Table K V → Option V
  lookup k [] = none
  lookup k ((j, v) ∷ t) = if e.beq j k then some v else lookup k t

  -- UPDATE of the row with this key, or INSERT of one
  unfoldable pub upsert : K → V → Table K V → Table K V
  upsert k v [] = (k, v) ∷ []
  upsert k v ((j, w) ∷ t) = if e.beq j k then (k, v) ∷ t else (j, w) ∷ upsert k v t

  pub lookup-upsert :
      (k j : K) (v : V) (t : Table K V)
      → lookup j (upsert k v t) ≡ (if e.beq k j then some v else lookup j t)
  unfolding lookup upsert
  lookup-upsert k j v [] = refl
  lookup-upsert k j v ((i, w) ∷ t) =
      ground (arith, e.beq_iff k j, e.beq_iff i k, e.beq_iff i j, lookup-upsert k j v t)

  pub lookup-upsert_self : (k : K) (v : V) (t : Table K V) → lookup k (upsert k v t) ≡ some v
  lookup-upsert_self k v t = ground (arith, lookup-upsert k k v t, e.beq_iff k k)

  -- DELETE of the rows whose key fails a test
  pub lookup-filter :
      (keep : K → Bool) (k : K) (t : Table K V)
      → lookup k (filter (λ r. keep r.0) t) ≡ (if keep k then lookup k t else none)
  unfolding lookup
  lookup-filter keep k [] = ground arith
  lookup-filter keep k ((j, w) ∷ t) = elim (Bool-cases (e.beq j k)) [
    | inl same ↦
        let key : j ≡ k = (e.beq_iff j k).0 same in
        ground (arith, lookup-filter keep k t, ap keep key)
    | inr other ↦ ground (arith, lookup-filter keep k t)
  ]

-- Columns of quantities.
module _ {K : Type 0} ⦃e : Eq K⦄ where
  -- `rows.length > 0 ? rows[0].quantity : 0`
  abbrev pub quantity : K → Table K ℕ → ℕ
  quantity k t = get_or (lookup k t) 0

  -- SELECT SUM(quantity) … WHERE p
  unfoldable pub total : (K → Bool) → Table K ℕ → ℕ
  total p [] = 0
  total p ((k, n) ∷ t) = (if p k then n else 0) + total p t

  pub total-upsert :
      (p : K → Bool) (k : K) (n : ℕ) (t : Table K ℕ)
      → total p (upsert k n t) + (if p k then quantity k t else 0)
        ≡ total p t + (if p k then n else 0)
  unfolding total upsert lookup
  total-upsert p k n [] = ground arith
  total-upsert p k n ((j, m) ∷ t) = ground (arith, e.beq_iff j k, total-upsert p k n t)
