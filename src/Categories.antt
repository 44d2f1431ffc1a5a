-- ===== src/Categories.antt =====
-- The category tree: src/modules/categories/categories.service.js with categories.repository.js.
-- Texts that are only compared or copied are numbers. The walk over the parents takes fuel: `none`
-- is a walk that did not end within it.
pub mod Forest
pub mod Growing
pub mod Pruning
use backend_pluseops.Base.{
  ℕ, zero, suc, Bool, true, false, not, ◌&&◌, ◌||◌, Option, none, some, List, [], ◌∷◌, map, Result,
  ok, err, nat_eq, ◌==◌, is_some, get_or, if◌then◌else◌, category_not_found, category_slug_exists,
  parent_category_not_found, invalid_parent_category, category_cycle_detected,
  category_has_children, category_has_products,
}
use backend_pluseops.Base.Checks.{◌>>=◌, ◌>>◌, require, fail_if}
use backend_pluseops.Base.Lists.{any, find, filter}

pub record Category : Type 0 where
  pub id : ℕ
  pub tenant_id : ℕ
  pub parent_id : Option ℕ
  pub name : ℕ
  pub slug : ℕ
  pub description : Option ℕ
  pub sort_order : ℕ
  pub is_active : Bool

-- `products` holds the category and the tenant of each row of product_categories.
pub record Shelf : Type 0 where
  pub categories : List Category
  pub products : List (ℕ × ℕ)

abbrev pub is_category : ℕ → ℕ → Category → Bool
is_category id tenant c = c.id == id && c.tenant_id == tenant

-- `findById`, `getById`
unfoldable pub find_category : ℕ → ℕ → Shelf → Option Category
find_category id tenant s = find (is_category id tenant) s.categories

-- `existsBySlug`
unfoldable pub exists_by_slug : ℕ → ℕ → Option ℕ → Shelf → Bool
exists_by_slug slug tenant excluded s =
    any
      (λ c.
        c.slug == slug
        && (c.tenant_id == tenant && not (elim excluded [ none ↦ false | some id ↦ c.id == id ])))
      s.categories

pub record NewCategory : Type 0 where
  pub parent_id : Option ℕ
  pub name : ℕ
  pub slug : ℕ
  pub description : Option ℕ
  pub sort_order : Option ℕ
  pub is_active : Option Bool

-- `parent?.parentId ?? null`
unfoldable pub parent_of : ℕ → ℕ → Shelf → Option ℕ
parent_of id tenant s = elim (find_category id tenant s) [ none ↦ none | some c ↦ c.parent_id ]

abbrev pub new_category : ℕ → ℕ → NewCategory → Category
new_category id tenant body = record {
  id = id;
  tenant_id = tenant;
  parent_id = body.parent_id;
  name = body.name;
  slug = body.slug;
  description = body.description;
  sort_order = get_or body.sort_order 0;
  is_active = get_or body.is_active true;
}

-- The parent that a request names is there.
unfoldable pub check_parent : Option ℕ → ℕ → Shelf → Result (Unit {0})
check_parent none tenant s = ok tt
check_parent (some p) tenant s =
    fail_if (not (is_some (find_category p tenant s))) parent_category_not_found

-- `create`; the id is the database's.
unfoldable pub create : ℕ → ℕ → NewCategory → Shelf → Result (Category × Shelf)
create id tenant body s = do
  fail_if (exists_by_slug body.slug tenant none s) category_slug_exists
  check_parent body.parent_id tenant s
  let c = new_category id tenant body
  ok (c, record s { categories = c ∷ s.categories })

-- `wouldCreateCycle`: the walk from `current` upwards.
unfoldable pub would_create_cycle : ℕ → ℕ → ℕ → Option ℕ → Shelf → Option Bool
would_create_cycle fuel id tenant none s = some false
would_create_cycle zero id tenant (some current) s = none
would_create_cycle (suc fuel) id tenant (some current) s =
    let rest = would_create_cycle fuel id tenant (parent_of current tenant s) s in
    if current == id then some true else rest

-- A field of the body: `undefined` leaves the column, `null` clears it.
pub data Change : Type 0 where
  keep : Change
  set : Option ℕ → Change

pub record CategoryChange : Type 0 where
  pub parent_id : Change
  pub name : Option ℕ
  pub slug : Option ℕ
  pub description : Change
  pub sort_order : Option ℕ
  pub is_active : Option Bool

abbrev pub changed : Change → Option ℕ → Option ℕ
changed keep old = old
changed (set new) old = new

-- `data.parentId`, where it is truthy
abbrev pub named_parent : Change → Option ℕ
named_parent keep = none
named_parent (set o) = o

abbrev pub named_slug : ℕ → ℕ → Option ℕ → Shelf → Bool
named_slug id tenant none s = false
named_slug id tenant (some slug) s = exists_by_slug slug tenant (some id) s

unfoldable pub rewritten : CategoryChange → Category → Category
rewritten body c = record c {
  parent_id = changed body.parent_id c.parent_id;
  name = get_or body.name c.name;
  slug = get_or body.slug c.slug;
  description = changed body.description c.description;
  sort_order = get_or body.sort_order c.sort_order;
  is_active = get_or body.is_active c.is_active;
}

unfoldable pub change_category : ℕ → CategoryChange → Category → Category
change_category id body c = if c.id == id then rewritten body c else c

-- The checks of `update` up to the walk.
unfoldable pub check_change : ℕ → ℕ → CategoryChange → Shelf → Result (Unit {0})
check_change id tenant body s = do
  found ← require (find_category id tenant s) category_not_found
  fail_if (named_slug id tenant body.slug s) category_slug_exists
  fail_if (elim (named_parent body.parent_id) [ none ↦ false | some p ↦ p == id ])
      invalid_parent_category
  check_parent (named_parent body.parent_id) tenant s

unfoldable pub apply_change : ℕ → CategoryChange → Shelf → Shelf
apply_change id body s = record s { categories = map (change_category id body) s.categories }

-- The answer after the walk.
unfoldable pub finish_change :
    ℕ → CategoryChange → Option Bool → Shelf → Option (Result (Unit {0} × Shelf))
finish_change id body none s = none
finish_change id body (some cycle) s =
    some (fail_if cycle category_cycle_detected >> ok (tt, apply_change id body s))

unfoldable pub update : ℕ → ℕ → ℕ → CategoryChange → Shelf → Option (Result (Unit {0} × Shelf))
update fuel id tenant body s = elim (check_change id tenant body s) [
  | err e ↦ some (err e)
  | ok checked ↦
      finish_change id body (would_create_cycle fuel id tenant (named_parent body.parent_id) s) s
]

-- `hasChildren`
unfoldable pub has_children : ℕ → ℕ → Shelf → Bool
has_children id tenant s =
    any (λ c. elim c.parent_id [ none ↦ false | some p ↦ p == id ] && c.tenant_id == tenant)
      s.categories

-- `hasProducts`
unfoldable pub has_products : ℕ → ℕ → Shelf → Bool
has_products id tenant s = any (λ r. r.0 == id && r.1 == tenant) s.products

unfoldable pub delete : ℕ → ℕ → Shelf → Result (Unit {0} × Shelf)
delete id tenant s = do
  found ← require (find_category id tenant s) category_not_found
  fail_if (has_children id tenant s) category_has_children
  fail_if (has_products id tenant s) category_has_products
  ok (tt, record s { categories = filter (λ c. not (c.id == id)) s.categories })
