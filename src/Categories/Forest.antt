-- ===== src/Categories/Forest.antt =====
-- The categories of a tenant form a forest: from every category the walk over the parents ends.
use backend_pluseops.Base.{
  ℕ, zero, suc, ◌≤◌, ◌≡◌, refl, true, false, Option, none, some, nat_eq, ◌==◌, is_some, arith,
  Option-cases, Bool-cases, inl, inr,
}
use backend_pluseops.Categories.{Shelf, parent_of, would_create_cycle}

-- The walk of `n` steps up the tree, by any function for the parent.
unfoldable pub walk : (ℕ → Option ℕ) → ℕ → Option ℕ → Option ℕ
walk up n none = none
walk up zero (some x) = some x
walk up (suc n) (some x) = walk up n (up x)

pub record IsForest (tenant : ℕ) (s : Shelf) : Type 0 where
  pub ends : (x : ℕ) → (n : ℕ) × (walk (λ y. parent_of y tenant s) n (some x) ≡ none)

-- Where the walk ends, so does the search for a cycle, with one step of fuel for each of the walk.
pub cycle_search_ends :
    (n fuel id tenant : ℕ) (o : Option ℕ) (s : Shelf)
    → walk (λ y. parent_of y tenant s) n o ≡ none
    → n ≤ fuel
    → is_some (would_create_cycle fuel id tenant o s) ≡ true
unfolding walk would_create_cycle
cycle_search_ends n fuel id tenant none s e h = ground arith
cycle_search_ends zero fuel id tenant (some x) s e h = ground arith
cycle_search_ends (suc n) zero id tenant (some x) s e h = ground arith
cycle_search_ends (suc n) (suc fuel) id tenant (some x) s e h =
    ground (arith, cycle_search_ends n fuel id tenant (parent_of x tenant s) s e)

-- Another way up that agrees away from `id`.
pub agree_apart :
    (id : ℕ) (up down : ℕ → Option ℕ) (n : ℕ) (x : ℕ) (m : ℕ) (p : Option ℕ)
    → ((y : ℕ) → (y == id) ≡ false → down y ≡ up y)
    → down id ≡ p
    → walk down m p ≡ none
    → walk up n (some x) ≡ none
    → (k : ℕ) × (walk down k (some x) ≡ none)
unfolding walk
agree_apart id up down zero x m p same here top e = ground arith
agree_apart id up down (suc n) x m p same here top e = elim (Bool-cases (x == id)) [
  | inl hit ↦ let at_id : x ≡ id = ground arith in (suc m, rw (at_id, here) top)
  | inr apart ↦ elim (Option-cases (up x)) [
    | inl root ↦ (1, rw (same x apart, root) refl)
    | inr (y, above) ↦
        let rest = agree_apart id up down n y m p same here top (rw above at e) in
        (suc rest.0, rw (same x apart, above) rest.1)
  ]
]

-- A search that answers `false` met `id` nowhere, so that its walk ends in the new tree as well.
pub clear_search :
    (fuel id tenant : ℕ) (o : Option ℕ) (s : Shelf) (down : ℕ → Option ℕ)
    → ((y : ℕ) → (y == id) ≡ false → down y ≡ parent_of y tenant s)
    → would_create_cycle fuel id tenant o s ≡ some false
    → walk down fuel o ≡ none
unfolding walk would_create_cycle
clear_search fuel id tenant none s down same e = refl
clear_search zero id tenant (some x) s down same e = ground arith
clear_search (suc fuel) id tenant (some x) s down same e = elim (Bool-cases (x == id)) [
  | inl hit ↦ ground arith
  | inr apart ↦
      rw (same x apart)
        (clear_search fuel id tenant (parent_of x tenant s) s down same (rw apart at e))
]
