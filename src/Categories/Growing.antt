-- ===== src/Categories/Growing.antt =====
-- Each operation keeps the forest, and the search for a cycle ends on one.
use backend_pluseops.Base.{
  ℕ, zero, suc, ◌≤◌, ◌≡◌, refl, sym, ap, ◌∙◌, Bool, true, false, Option, none, some, List, [], ◌∷◌,
  map, ok, nat_eq, ◌==◌, is_some, arith, Option-cases, Bool-cases, Result-cases, inl, inr,
}
use backend_pluseops.Base.Lists.{find, find-test, find-map}
use backend_pluseops.Categories.{
  Category, Shelf, CategoryChange, Change, set, keep, is_category, find_category, parent_of,
  would_create_cycle, changed, named_parent, change_category, rewritten, apply_change, check_change,
  finish_change, update,
}
use backend_pluseops.Categories.Forest.{
  walk, IsForest, cycle_search_ends, agree_apart, clear_search,
}

change_category-key :
    (y tenant id : ℕ) (body : CategoryChange) (c : Category)
    → is_category y tenant (change_category id body c) ≡ is_category y tenant c
unfolding change_category rewritten
change_category-key y tenant id body c = elim (Bool-cases (c.id == id)) [
  | inl named ↦ rw named refl
  | inr other ↦ rw other refl
]

change_category-other :
    (id : ℕ) (body : CategoryChange) (c : Category)
    → (c.id == id) ≡ false
    → change_category id body c ≡ c
unfolding change_category
change_category-other id body c other = rw other refl

find-changed :
    (id tenant y : ℕ) (body : CategoryChange) (cs : List Category)
    → (y == id) ≡ false
    → find (is_category y tenant) (map (change_category id body) cs)
      ≡ find (is_category y tenant) cs
find-changed id tenant y body [] other = refl
find-changed id tenant y body (c ∷ cs) other =
    let rest = find-changed id tenant y body cs other in
    elim (Bool-cases (c.id == id)) [
      | inl named ↦
          let key = change_category-key y tenant id body c in
          let miss : is_category y tenant c ≡ false = ground arith in rw (key, miss) rest
      | inr plain ↦ rw (change_category-other id body c plain, rest) refl
    ]

parent_of-changed :
    (id tenant y : ℕ) (body : CategoryChange) (s : Shelf)
    → (y == id) ≡ false
    → parent_of y tenant (apply_change id body s) ≡ parent_of y tenant s
unfolding parent_of find_category apply_change
parent_of-changed id tenant y body s other =
    ground (arith, find-changed id tenant y body s.categories other)

change_category-parent :
    (id : ℕ) (body : CategoryChange) (c : Category)
    → (c.id == id) ≡ true
    → (change_category id body c).parent_id ≡ changed body.parent_id c.parent_id
unfolding change_category rewritten
change_category-parent id body c named = rw named refl

parent_of-changed_self :
    (id tenant : ℕ) (body : CategoryChange) (s : Shelf) (c : Category)
    → find_category id tenant s ≡ some c
    → parent_of id tenant (apply_change id body s) ≡ changed body.parent_id c.parent_id
unfolding parent_of find_category apply_change
parent_of-changed_self id tenant body s c found =
    let e = find-test (is_category id tenant) s.categories c found in
    let f =
      find-map (is_category id tenant) (change_category id body) s.categories c
        (change_category-key id tenant id body) found in
    ground (arith, change_category-parent id body c (ground arith))

parent_of-found :
    (id tenant : ℕ) (s : Shelf) (c : Category)
    → find_category id tenant s ≡ some c
    → parent_of id tenant s ≡ c.parent_id
unfolding parent_of
parent_of-found id tenant s c found = ground arith

walk-same :
    (up down : ℕ → Option ℕ) (n : ℕ) (o : Option ℕ)
    → ((y : ℕ) → down y ≡ up y)
    → walk down n o ≡ walk up n o
unfolding walk
walk-same up down n none same = refl
walk-same up down zero (some x) same = refl
walk-same up down (suc n) (some x) same = rw (same x) (walk-same up down n (up x) same)

-- A change of the parent whose new parent has a walk that ends in the new tree.
pub moved-IsForest :
    (id tenant m : ℕ) (p : Option ℕ) (s t : Shelf)
    → ((y : ℕ) → (y == id) ≡ false → parent_of y tenant t ≡ parent_of y tenant s)
    → parent_of id tenant t ≡ p
    → walk (λ y. parent_of y tenant t) m p ≡ none
    → IsForest tenant s
    → IsForest tenant t
moved-IsForest id tenant m p s t same here top h = record {
  ends = λ x.
      let (n, e) = h.ends x in
      agree_apart id (λ y. parent_of y tenant s) (λ y. parent_of y tenant t) n x m p same here top
        e;
}

same_parents-IsForest :
    (tenant : ℕ) (s t : Shelf)
    → ((y : ℕ) → parent_of y tenant t ≡ parent_of y tenant s)
    → IsForest tenant s
    → IsForest tenant t
same_parents-IsForest tenant s t same h = record {
  ends = λ x.
      let (n, e) = h.ends x in
      (n, walk-same (λ y. parent_of y tenant s) (λ y. parent_of y tenant t) n (some x) same ∙ e);
}

-- A change that leaves the parent.
kept_parent :
    (id tenant : ℕ) (body : CategoryChange) (s : Shelf) (c : Category)
    → body.parent_id ≡ keep
    → find_category id tenant s ≡ some c
    → parent_of id tenant (apply_change id body s) ≡ parent_of id tenant s
kept_parent id tenant body s c asked found =
    parent_of-changed_self id tenant body s c found
    ∙ ap (λ (a : Change). changed a c.parent_id) asked
    ∙ sym (parent_of-found id tenant s c found)

apply_change-IsForest :
    (fuel id tenant : ℕ) (body : CategoryChange) (change : Change) (s : Shelf) (c : Category)
    → body.parent_id ≡ change
    → find_category id tenant s ≡ some c
    → would_create_cycle fuel id tenant (named_parent change) s ≡ some false
    → IsForest tenant s
    → IsForest tenant (apply_change id body s)
apply_change-IsForest fuel id tenant body keep s c asked found clear h =
    same_parents-IsForest tenant s (apply_change id body s)
      (λ y. elim (Bool-cases (y == id)) [
        | inr other ↦ parent_of-changed id tenant y body s other
        | inl same ↦
            let at_id : y ≡ id = ground arith in
            rw at_id (kept_parent id tenant body s c asked found)
      ])
      h
apply_change-IsForest fuel id tenant body (set p) s c asked found clear h =
    let here = parent_of-changed_self id tenant body s c found in
    moved-IsForest id tenant fuel p s (apply_change id body s)
      (λ y other. parent_of-changed id tenant y body s other) (ground arith)
      (clear_search fuel id tenant p s (λ y. parent_of y tenant (apply_change id body s))
        (λ y other. parent_of-changed id tenant y body s other) clear)
      h

-- A change of a category that succeeds keeps the forest.
pub update-IsForest :
    (fuel id tenant : ℕ) (body : CategoryChange) (s t : Shelf)
    → update fuel id tenant body s ≡ some (ok (tt, t))
    → IsForest tenant s
    → IsForest tenant t
unfolding update finish_change check_change
update-IsForest fuel id tenant body s t e h = elim (Option-cases (find_category id tenant s)) [
  | inl unknown ↦ ground arith
  | inr (c, found) ↦
      let rows : t ≡ apply_change id body s = ground arith in
      rw rows
        (apply_change-IsForest fuel id tenant body body.parent_id s c refl found (ground arith) h)
]

finish_change-some :
    (id : ℕ) (body : CategoryChange) (o : Option Bool) (s : Shelf)
    → is_some (finish_change id body o s) ≡ is_some o
unfolding finish_change
finish_change-some id body none s = refl
finish_change-some id body (some cycle) s = refl

search_ends :
    (id tenant : ℕ) (o : Option ℕ) (s : Shelf)
    → IsForest tenant s
    → (n : ℕ) × ((fuel : ℕ) → n ≤ fuel → is_some (would_create_cycle fuel id tenant o s) ≡ true)
unfolding walk
search_ends id tenant none s h =
    (0, λ fuel enough. cycle_search_ends 0 fuel id tenant none s refl enough)
search_ends id tenant (some p) s h =
    let (n, e) = h.ends p in
    (n, λ fuel enough. cycle_search_ends n fuel id tenant (some p) s e enough)

-- The search for a cycle ends on a forest: from some amount of fuel on, a change is always answered.
pub update_ends :
    (id tenant : ℕ) (body : CategoryChange) (s : Shelf)
    → IsForest tenant s
    → (n : ℕ) × ((fuel : ℕ) → n ≤ fuel → is_some (update fuel id tenant body s) ≡ true)
unfolding update
update_ends id tenant body s h =
    let found = search_ends id tenant (named_parent body.parent_id) s h in
    (
      found.0,
      λ fuel enough.
          let o = would_create_cycle fuel id tenant (named_parent body.parent_id) s in
          elim (Result-cases (check_change id tenant body s)) [
            | inr (why, refused) ↦ ground arith
            | inl (checked, passed) ↦
                ground (arith, finish_change-some id body o s, found.1 fuel enough)
          ],
    )
