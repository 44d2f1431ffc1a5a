-- ===== src/Variants/Keeping.antt =====
-- New variants, and what they keep.
use backend_pluseops.Base.{
  ℕ, Bool, false, not, ◌+◌, ◌≡◌, ◌≢◌, sym, inl, inr, Option, none, some, List, [], ◌∷◌, Result, ok,
  err, nat_eq, arith, Result-cases, product_not_found, sku_exists, barcode_exists,
}
use backend_pluseops.Base.Checks.{Holds, Holds-fail_if, Holds-ok, Holds-check}
use backend_pluseops.Base.Lists.{any}
use backend_pluseops.Base.Tables.{lookup}
use backend_pluseops.Base.Unique.{any-lookup, upsert-IsUnique}
use backend_pluseops.Variants.{ProductVariant, Range, Entry, has_sku, has_barcode, is_barcode_taken}
use backend_pluseops.Variants.Requests.{
  NewVariant, is_product, created_variant, with_variant, check_new, add_attributes, insert_variant,
  or_keep, create,
}
use backend_pluseops.Variants.Typed.{Clash, IsSound, set_attribute_rows-IsSound}

Clash-sym : (v w : ProductVariant) → Clash v w → Clash w v
Clash-sym v w (same, inl sku) = (sym same, inl (sym sku))
Clash-sym v w (same, inr (b, full, mine, theirs)) = (sym same, inr (b, full, theirs, mine))

-- The tenant has no variant of the sku.
pub sku_free :
    (sku tenant : ℕ) (s : Range) (j : ℕ) (q : ProductVariant)
    → any (has_sku sku tenant) s.variants ≡ false
    → lookup j s.variants ≡ some q
    → tenant ≡ q.tenant_id
    → sku ≢ q.sku
sku_free sku tenant s j q free found same equal =
    let fails : has_sku sku tenant (j, q) ≡ false =
      any-lookup (has_sku sku tenant) s.variants j q free found in
    ground arith

pub barcode_free :
    (o : Option ℕ) (b tenant : ℕ) (s : Range) (j : ℕ) (q : ProductVariant)
    → is_barcode_taken o tenant s ≡ false
    → o ≡ some b
    → b ≢ 0
    → lookup j s.variants ≡ some q
    → tenant ≡ q.tenant_id
    → q.barcode ≢ some b
unfolding is_barcode_taken
barcode_free none b tenant s j q free eq full found same equal = ground arith
barcode_free (some c) b tenant s j q free eq full found same equal =
    let code : c ≡ b = ground arith in
    let clear : any (has_barcode c tenant) s.variants ≡ false = ground arith in
    let fails : has_barcode c tenant (j, q) ≡ false =
      any-lookup (has_barcode c tenant) s.variants j q clear found in
    ground (arith, fails, eq)

module _ (numeric : ℕ → Bool) where
  pub with_variant-IsSound :
      (id : ℕ) (v : ProductVariant) (s : Range)
      → IsSound numeric s
      → ((j : ℕ) (q : ProductVariant) → lookup j s.variants ≡ some q → Clash v q → id ≡ j)
      → IsSound numeric (with_variant id v s)
  with_variant-IsSound id v s h new = record {
    variants = upsert-IsUnique Clash id v s.variants Clash-sym new h.variants;
    definitions = h.definitions;
    numbered = h.numbered;
    attributes = h.attributes;
  }

  add_attributes-IsSound :
      (id tenant : ℕ) (es : List Entry) (s : Range)
      → IsSound numeric s
      → Holds (IsSound numeric) (add_attributes numeric id tenant es s)
  unfolding add_attributes
  add_attributes-IsSound id tenant [] s h = h
  add_attributes-IsSound id tenant (e ∷ es) s h =
      set_attribute_rows-IsSound numeric id tenant (e ∷ es) s h

  -- No variant of the tenant has the sku, or the barcode.
  abbrev IsFree : ℕ → NewVariant → Range → Type 0
  IsFree tenant body s =
      (any (has_sku body.sku tenant) s.variants ≡ false)
      × (is_barcode_taken body.barcode tenant s ≡ false)

  check_new-IsFree :
      (product tenant : ℕ) (body : NewVariant) (s : Range)
      → Holds (λ passed. IsFree tenant body s) (check_new product tenant body s)
  unfolding check_new
  check_new-IsFree product tenant body s =
      let P : Unit {0} → Type 0 = λ passed. IsFree tenant body s in
      Holds-fail_if P (not (any (is_product product tenant) s.products)) product_not_found _
        (λ there. Holds-fail_if P (any (has_sku body.sku tenant) s.variants) sku_exists _ (λ sku.
          Holds-check P (is_barcode_taken body.barcode tenant s) barcode_exists
            (λ barcode. (sku, barcode))))

  or_keep-IsSound :
      (r : Result Range) (id : ℕ) (s : Range)
      → Holds (IsSound numeric) r
      → IsSound numeric s
      → IsSound numeric (or_keep r id s).1
  or_keep-IsSound (ok t) id s h k = h
  or_keep-IsSound (err e) id s h k = k

  created_new :
      (product tenant : ℕ) (body : NewVariant) (s : Range) (j : ℕ) (q : ProductVariant)
      → IsFree tenant body s
      → lookup j s.variants ≡ some q
      → Clash (created_variant product tenant body) q
      → s.next_id ≡ j
  created_new product tenant body s j q (sku, barcode) found (same, inl equal) =
      elim (sku_free body.sku tenant s j q sku found same equal) [ ]
  created_new product tenant body s j q (sku, barcode) found (same, inr (b, full, mine, theirs)) =
      elim (barcode_free body.barcode b tenant s j q barcode mine full found same theirs) [ ]

  counted-IsSound :
      (s : Range) → IsSound numeric s → IsSound numeric (record s { next_id = s.next_id + 1 })
  counted-IsSound s h = record {
    variants = h.variants;
    definitions = h.definitions;
    numbered = λ id d found. ground (arith, h.numbered id d found);
    attributes = h.attributes;
  }

  insert_variant-IsSound :
      (product tenant : ℕ) (body : NewVariant) (s : Range)
      → IsSound numeric s
      → IsFree tenant body s
      → IsSound numeric (insert_variant numeric product tenant body s).1
  unfolding insert_variant
  insert_variant-IsSound product tenant body s h free =
      let next : Range = record s { next_id = s.next_id + 1 } in
      let v : ProductVariant = created_variant product tenant body in
      let t : Range = with_variant s.next_id v next in
      let sound : IsSound numeric t =
        with_variant-IsSound s.next_id v next (counted-IsSound s h)
          (λ j q. created_new product tenant body s j q free) in
      or_keep-IsSound (add_attributes numeric s.next_id tenant body.attributes t) s.next_id t
        (add_attributes-IsSound s.next_id tenant body.attributes t sound) sound

  pub create-IsSound :
      (product tenant : ℕ) (body : NewVariant) (s : Range)
      → IsSound numeric s
      → IsSound numeric (create numeric product tenant body s).1
  unfolding create
  create-IsSound product tenant body s h = elim (Result-cases (check_new product tenant body s)) [
    | inl (passed, eq) ↦
        rw (eq, create)
          (insert_variant-IsSound product tenant body s h (
            Holds-ok _ (check_new product tenant body s) passed
              (check_new-IsFree product tenant body s) eq))
    | inr (e, eq) ↦ rw (eq, create) h
  ]
