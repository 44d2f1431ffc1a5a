-- ===== src/Variants/Running.antt =====
-- Any sequence of requests on variants and attribute definitions, one after another.
use backend_pluseops.Base.{ℕ, Bool, Option, List, [], ◌∷◌, Result, ok, err, arith}
use backend_pluseops.Base.Checks.{Holds}
use backend_pluseops.Base.Tables.{lookup}
use backend_pluseops.Variants.{DataType, Range, Entry, set_attributes}
use backend_pluseops.Variants.Requests.{NewVariant, VariantChange, create, update, delete}
use backend_pluseops.Variants.Attributes.{create_definition, update_definition, delete_definition}
use backend_pluseops.Variants.Typed.{IsSound}
use backend_pluseops.Variants.Keeping.{create-IsSound}
use backend_pluseops.Variants.Updating.{update-IsSound, delete-IsSound, set_attributes-IsSound}
use backend_pluseops.Variants.Defining.{
  create_definition-IsSound, update_definition-IsSound, delete_definition-IsSound,
}

-- The first number is the tenant of the request. `referenced` tells whether other tables hold on to
-- the variant.
pub data Request : Type 0 where
  create_variant : ℕ → (product : ℕ) → NewVariant → Request
  update_variant : ℕ → (id : ℕ) → Option ℕ → VariantChange → Request
  delete_variant : ℕ → (referenced : Bool) → (id : ℕ) → Option ℕ → Request
  describe_variant : ℕ → (id : ℕ) → Option ℕ → List Entry → Request
  add_definition : ℕ → (code : ℕ) → DataType → Request
  change_definition : ℕ → (id : ℕ) → (code : Option ℕ) → Option DataType → Request
  remove_definition : ℕ → (id : ℕ) → Request

-- A request that raises leaves the tables as they were.
unfoldable pub or_unchanged : Result Range → Range → Range
or_unchanged (ok t) s = t
or_unchanged (err e) s = s

-- Tables without variants, attributes and definitions
abbrev pub empty : List (ℕ × ℕ) → Range
empty products = record {
  products = products;
  variants = [];
  definitions = [];
  attributes = [];
  next_id = 1;
}

module _ (numeric : ℕ → Bool) where
  unfoldable pub answer : Request → Range → Range
  answer (create_variant tenant product body) s = (create numeric product tenant body s).1
  answer (update_variant tenant id product c) s =
      or_unchanged (update numeric id tenant product c s) s
  answer (delete_variant tenant referenced id product) s =
      or_unchanged (delete referenced id tenant product s) s
  answer (describe_variant tenant id product es) s =
      or_unchanged (set_attributes numeric id tenant product es s) s
  answer (add_definition tenant code kind) s = or_unchanged (create_definition tenant code kind s) s
  answer (change_definition tenant id code kind) s =
      or_unchanged (update_definition id tenant code kind s) s
  answer (remove_definition tenant id) s = or_unchanged (delete_definition id tenant s) s

  unfoldable pub run : List Request → Range → Range
  run [] s = s
  run (q ∷ qs) s = run qs (answer q s)

  or_unchanged-IsSound :
      (r : Result Range) (s : Range)
      → IsSound numeric s
      → Holds (IsSound numeric) r
      → IsSound numeric (or_unchanged r s)
  unfolding or_unchanged
  or_unchanged-IsSound (ok t) s h k = k
  or_unchanged-IsSound (err e) s h k = h

  answer-IsSound : (q : Request) (s : Range) → IsSound numeric s → IsSound numeric (answer q s)
  unfolding answer
  answer-IsSound (create_variant tenant product body) s h =
      create-IsSound numeric product tenant body s h
  answer-IsSound (update_variant tenant id product c) s h =
      or_unchanged-IsSound _ s h (update-IsSound numeric id tenant product c s h)
  answer-IsSound (delete_variant tenant referenced id product) s h =
      or_unchanged-IsSound _ s h (delete-IsSound numeric referenced id tenant product s h)
  answer-IsSound (describe_variant tenant id product es) s h =
      or_unchanged-IsSound _ s h (set_attributes-IsSound numeric id tenant product es s h)
  answer-IsSound (add_definition tenant code kind) s h =
      or_unchanged-IsSound _ s h (create_definition-IsSound numeric tenant code kind s h)
  answer-IsSound (change_definition tenant id code kind) s h =
      or_unchanged-IsSound _ s h (update_definition-IsSound numeric id tenant code kind s h)
  answer-IsSound (remove_definition tenant id) s h =
      or_unchanged-IsSound _ s h (delete_definition-IsSound numeric id tenant s h)

  run-IsSound_from :
      (qs : List Request) (s : Range) → IsSound numeric s → IsSound numeric (run qs s)
  unfolding run
  run-IsSound_from [] s h = h
  run-IsSound_from (q ∷ qs) s h = run-IsSound_from qs (answer q s) (answer-IsSound q s h)

  empty-IsSound : (products : List (ℕ × ℕ)) → IsSound numeric (empty products)
  unfolding lookup
  empty-IsSound products = record {
    variants = λ i j r q e. ground arith;
    definitions = λ i j r q e. ground arith;
    numbered = λ id d e. ground arith;
    attributes = tt;
  }

  -- After any sequence of requests, each run to its end before the next and refused ones among them,
  -- that create, change, delete and describe variants and create, change and delete attribute
  -- definitions, starting from empty tables: no two variants of a tenant share a sku, or a barcode
  -- that is not empty; no two definitions of a tenant share a code; and every attribute belongs to a
  -- definition that is there, is of the attribute's tenant, and has a type that takes its value.
  pub run-IsSound :
      (products : List (ℕ × ℕ)) (qs : List Request) → IsSound numeric (run qs (empty products))
  run-IsSound products qs = run-IsSound_from qs (empty products) (empty-IsSound products)
