-- ===== src/Base/Unique.antt =====
-- Tables in which no two rows clash, as by a unique column.
use Prim.Native.Nat.{ℕ}
use mathlib.Core.Path.{◌≡◌, sym, ap, ◌∙◌}
use mathlib.Core.Logic.{inl, inr}
use mathlib.Core.Bool.{Bool, false, not}
use mathlib.Core.Option.{some}
use mathlib.Core.List.{[], ◌∷◌}
use native.Mathlib.Omega.{arith}
use backend_pluseops.Base.Tests.{nat_eq, ◌==◌, ==_iff, Bool-cases}
use backend_pluseops.Base.Lists.{any, filter}
use backend_pluseops.Base.Tables.{Table, lookup, upsert, lookup-upsert, lookup-filter}

module _ {V : Type 0} where
  -- A row that is found passes no test that all rows fail.
  pub any-lookup :
      (test : ℕ × V → Bool) (rows : Table ℕ V) (k : ℕ) (v : V)
      → any test rows ≡ false
      → lookup k rows ≡ some v
      → test (k, v) ≡ false
  unfolding lookup
  any-lookup test [] k v h e = ground arith
  any-lookup test ((j, w) ∷ rows) k v h e = elim (Bool-cases (j == k)) [
    | inl same ↦
        let key : j ≡ k = (==_iff j k).0 same in
        let row : w ≡ v = ground arith in
        ap test (ap (λ i. (i, v)) (sym key) ∙ ap (λ u. (j, u)) (sym row)) ∙ ground arith
    | inr other ↦ any-lookup test rows k v (ground arith) (ground arith)
  ]

  module _ (Clash : V → V → Type 0) where
    abbrev pub IsUnique : Table ℕ V → Type 0
    IsUnique rows =
        (i j : ℕ) (r q : V) → lookup i rows ≡ some r → lookup j rows ≡ some q → Clash r q → i ≡ j

    pub upsert-IsUnique :
        (k : ℕ) (v : V) (rows : Table ℕ V)
        → ((r q : V) → Clash r q → Clash q r)
        → ((j : ℕ) (q : V) → lookup j rows ≡ some q → Clash v q → k ≡ j)
        → IsUnique rows
        → IsUnique (upsert k v rows)
    upsert-IsUnique k v rows flip new h i j r q e f c = elim (Bool-cases (k == i)) [
      | inl first ↦ elim (Bool-cases (k == j)) [
        | inl second ↦ sym ((==_iff k i).0 first) ∙ (==_iff k j).0 second
        | inr other ↦
            let mine : v ≡ r = ground (arith, lookup-upsert k i v rows, e) in
            let theirs : lookup j rows ≡ some q = ground (arith, lookup-upsert k j v rows, f) in
            sym ((==_iff k i).0 first) ∙ new j q theirs (rw mine c)
      ]
      | inr other ↦
          let first : lookup i rows ≡ some r = ground (arith, lookup-upsert k i v rows, e) in
          elim (Bool-cases (k == j)) [
            | inl second ↦
                let mine : v ≡ q = ground (arith, lookup-upsert k j v rows, f) in
                sym (sym ((==_iff k j).0 second) ∙ new i r first (flip r v (rw mine c)))
            | inr another ↦
                let theirs : lookup j rows ≡ some q = ground (arith, lookup-upsert k j v rows, f) in
                h i j r q first theirs c
          ]
    ]

    pub filter-IsUnique :
        (id : ℕ) (rows : Table ℕ V) → IsUnique rows → IsUnique (filter (λ r. not (r.0 == id)) rows)
    filter-IsUnique id rows h i j r q e f c =
        h i j r q (ground (arith, lookup-filter (λ k. not (k == id)) i rows, e))
          (ground (arith, lookup-filter (λ k. not (k == id)) j rows, f)) c
