-- ===== src/Categories/Pruning.antt =====
-- New and deleted categories, and any sequence of operations.
use backend_pluseops.Base.{
  ℕ, zero, suc, ◌≡◌, refl, ap, false, not, ◌&&◌, Option, none, some, List, [], ◌∷◌, ok, nat_eq,
  ◌==◌, arith, Option-cases, Bool-cases, Result-cases, inl, inr,
}
use backend_pluseops.Base.Lists.{find, filter, any-find, find-test}
use backend_pluseops.Categories.{
  Category, NewCategory, new_category, Shelf, CategoryChange, is_category, find_category, parent_of,
  update, create, check_parent, delete, has_children,
}
use backend_pluseops.Categories.Forest.{walk, IsForest}
use backend_pluseops.Categories.Growing.{moved-IsForest, update-IsForest}

find-deleted :
    (id tenant y : ℕ) (cs : List Category)
    → (y == id) ≡ false
    → find (is_category y tenant) (filter (λ c. not (c.id == id)) cs)
      ≡ find (is_category y tenant) cs
find-deleted id tenant y [] other = refl
find-deleted id tenant y (c ∷ cs) other = ground (arith, find-deleted id tenant y cs other)

find-deleted_self :
    (id tenant : ℕ) (cs : List Category)
    → find (is_category id tenant) (filter (λ c. not (c.id == id)) cs) ≡ none
find-deleted_self id tenant [] = refl
find-deleted_self id tenant (c ∷ cs) = ground (arith, find-deleted_self id tenant cs)

same_parent :
    (y tenant : ℕ) (s t : Shelf)
    → find (is_category y tenant) t.categories ≡ find (is_category y tenant) s.categories
    → parent_of y tenant t ≡ parent_of y tenant s
unfolding parent_of find_category
same_parent y tenant s t e =
    ap (λ (o : Option Category). elim o as (λ _. Option ℕ) [ none ↦ none | some c ↦ c.parent_id ]) e

delete-IsForest :
    (id tenant : ℕ) (s t : Shelf)
    → delete id tenant s ≡ ok (tt, t)
    → IsForest tenant s
    → IsForest tenant t
unfolding delete parent_of find_category walk
delete-IsForest id tenant s t e h = elim (Option-cases (find_category id tenant s)) [
  | inl unknown ↦ ground arith
  | inr (c, found) ↦
      let rows : t.categories ≡ filter (λ c. not (c.id == id)) s.categories = ground arith in
      moved-IsForest id tenant 0 none s t
        (λ y other.
          same_parent y tenant s t (rw rows (find-deleted id tenant y s.categories other)))
        (ground (arith, find-deleted_self id tenant s.categories)) refl h
]

-- No category has a new id for its parent, since the foreign key was checked when it was written.
unparented :
    (id tenant x y : ℕ) (s : Shelf)
    → has_children id tenant s ≡ false
    → parent_of x tenant s ≡ some y
    → (y == id) ≡ false
unfolding has_children parent_of find_category
unparented id tenant x y s childless above = elim (Option-cases (find_category x tenant s)) [
  | inl unknown ↦ ground arith
  | inr (c, found) ↦
      let none_child =
        any-find (is_category x tenant)
          (λ (d : Category).
            elim d.parent_id [ none ↦ false | some p ↦ p == id ] && d.tenant_id == tenant)
          s.categories c found childless in
      let there = find-test (is_category x tenant) s.categories c found in ground arith
]

-- A walk that starts away from an id that nobody has for its parent stays away.
avoids :
    (id : ℕ) (up down : ℕ → Option ℕ) (n x : ℕ)
    → ((y : ℕ) → (y == id) ≡ false → down y ≡ up y)
    → ((y z : ℕ) → up y ≡ some z → (z == id) ≡ false)
    → (x == id) ≡ false
    → walk up n (some x) ≡ none
    → walk down n (some x) ≡ none
unfolding walk
avoids id up down zero x same free apart e = ground arith
avoids id up down (suc n) x same free apart e = elim (Option-cases (up x)) [
  | inl root ↦ rw (same x apart, root) refl
  | inr (y, above) ↦
      rw (same x apart, above) (avoids id up down n y same free (free x y above) (rw above at e))
]

find-created :
    (id tenant y : ℕ) (body : NewCategory) (cs : List Category)
    → (y == id) ≡ false
    → find (is_category y tenant) (new_category id tenant body ∷ cs)
      ≡ find (is_category y tenant) cs
find-created id tenant y body cs other = ground arith

-- The id of a new category: no category has it, for itself or for its parent.
pub record IsNew (id tenant : ℕ) (s : Shelf) : Type 0 where
  pub absent : find_category id tenant s ≡ none
  pub childless : has_children id tenant s ≡ false

parent_of-created :
    (id tenant y : ℕ) (body : NewCategory) (s t : Shelf)
    → t.categories ≡ new_category id tenant body ∷ s.categories
    → (y == id) ≡ false
    → parent_of y tenant t ≡ parent_of y tenant s
unfolding parent_of find_category
parent_of-created id tenant y body s t rows other =
    same_parent y tenant s t (rw rows (find-created id tenant y body s.categories other))

parent_of-created_self :
    (id tenant : ℕ) (body : NewCategory) (s t : Shelf)
    → t.categories ≡ new_category id tenant body ∷ s.categories
    → parent_of id tenant t ≡ body.parent_id
unfolding parent_of find_category
parent_of-created_self id tenant body s t rows = rw rows (ground arith)

create_rows :
    (id tenant : ℕ) (body : NewCategory) (c : Category) (s t : Shelf)
    → create id tenant body s ≡ ok (c, t)
    → (t.categories ≡ new_category id tenant body ∷ s.categories)
      × (check_parent body.parent_id tenant s ≡ ok tt)
unfolding create
create_rows id tenant body c s t e = elim (Result-cases (check_parent body.parent_id tenant s)) [
  | inr (why, refused) ↦ ground arith
  | inl (checked, passed) ↦ (ground arith, passed)
]

-- The parent that was checked is not the new category.
parent_apart :
    (id tenant p : ℕ) (s : Shelf)
    → find_category id tenant s ≡ none
    → check_parent (some p) tenant s ≡ ok tt
    → (p == id) ≡ false
unfolding check_parent
parent_apart id tenant p s absent passed = elim (Bool-cases (p == id)) [
  | inr other ↦ other
  | inl same ↦
      let at_id : p ≡ id = ground arith in
      let gone : find_category p tenant s ≡ none = rw at_id absent in ground arith
]

placed-IsForest :
    (id tenant : ℕ) (parent : Option ℕ) (s t : Shelf)
    → ((y : ℕ) → (y == id) ≡ false → parent_of y tenant t ≡ parent_of y tenant s)
    → parent_of id tenant t ≡ parent
    → check_parent parent tenant s ≡ ok tt
    → IsNew id tenant s
    → IsForest tenant s
    → IsForest tenant t
unfolding walk
placed-IsForest id tenant none s t same here passed new h =
    moved-IsForest id tenant 0 none s t same here refl h
placed-IsForest id tenant (some p) s t same here passed new h =
    let (n, e) = h.ends p in
    moved-IsForest id tenant n (some p) s t same here
      (avoids id (λ y. parent_of y tenant s) (λ y. parent_of y tenant t) n p same
        (λ y z above. unparented id tenant y z s new.childless above)
        (parent_apart id tenant p s new.absent passed) e)
      h

create-IsForest :
    (id tenant : ℕ) (body : NewCategory) (c : Category) (s t : Shelf)
    → create id tenant body s ≡ ok (c, t)
    → IsNew id tenant s
    → IsForest tenant s
    → IsForest tenant t
create-IsForest id tenant body c s t e new h =
    let (rows, passed) = create_rows id tenant body c s t e in
    placed-IsForest id tenant body.parent_id s t
      (λ y other. parent_of-created id tenant y body s t rows other)
      (parent_of-created_self id tenant body s t rows) passed new h

-- One operation on the categories of a tenant.
pub data Step (tenant : ℕ) : Shelf → Shelf → Type 0 where
  created :
      {s t : Shelf} (id : ℕ) (body : NewCategory) (c : Category)
      → IsNew id tenant s
      → create id tenant body s ≡ ok (c, t)
      → Step tenant s t
  updated :
      {s t : Shelf} (fuel id : ℕ) (body : CategoryChange)
      → update fuel id tenant body s ≡ some (ok (tt, t))
      → Step tenant s t
  deleted : {s t : Shelf} (id : ℕ) → delete id tenant s ≡ ok (tt, t) → Step tenant s t

pub data Run (tenant : ℕ) : Shelf → Shelf → Type 0 where
  done : {s : Shelf} → Run tenant s s
  call : {s t u : Shelf} → Run tenant s t → Step tenant t u → Run tenant s u

Step-IsForest : (tenant : ℕ) (s t : Shelf) → Step tenant s t → IsForest tenant s → IsForest tenant t
Step-IsForest tenant s t (created id body c new e) h = create-IsForest id tenant body c s t e new h
Step-IsForest tenant s t (updated fuel id body e) h = update-IsForest fuel id tenant body s t e h
Step-IsForest tenant s t (deleted id e) h = delete-IsForest id tenant s t e h

-- However categories of a tenant are created, changed and deleted, one call after another, the walk
-- over the parents ends from every category, if it did before. The id of a new category is one that
-- no category has, for itself or for its parent.
pub Run-IsForest :
    (tenant : ℕ) (s t : Shelf) → Run tenant s t → IsForest tenant s → IsForest tenant t
Run-IsForest tenant s t done h = h
Run-IsForest tenant s t (call {t = m} before step) h =
    Step-IsForest tenant m t step (Run-IsForest tenant s m before h)
