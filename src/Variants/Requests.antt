-- ===== src/Variants/Requests.antt =====
-- src/modules/variants/variants.service.js: create, update and delete.
use backend_pluseops.Base.{
  ℕ, Bool, true, false, not, ◌&&◌, ◌+◌, Option, none, some, List, [], ◌∷◌, Result, ok, err, nat_eq,
  ◌==◌, get_or, product_not_found, sku_exists, barcode_exists, variant_not_found,
  foreign_key_violation,
}
use backend_pluseops.Base.Checks.{◌>>=◌, ◌>>◌, require, fail_if}
use backend_pluseops.Base.Lists.{any, filter}
use backend_pluseops.Base.Tables.{upsert}
use backend_pluseops.Variants.{
  draft, VariantStatus, ProductVariant, VariantAttribute, Range, Entry, find_variant, has_sku,
  is_barcode_taken, set_attribute_rows,
}

pub record NewVariant : Type 0 where
  pub sku : ℕ
  pub barcode : Option ℕ
  pub price : ℕ
  pub cost_price : Option ℕ
  pub mrp : Option ℕ
  pub status : Option VariantStatus
  pub attributes : List Entry

-- An absent field is `none`; a barcode can be set to null, which is `some none`.
pub record VariantChange : Type 0 where
  pub sku : Option ℕ
  pub barcode : Option (Option ℕ)
  pub price : Option ℕ
  pub cost_price : Option (Option ℕ)
  pub mrp : Option (Option ℕ)
  pub status : Option VariantStatus
  pub attributes : Option (List Entry)

abbrev pub created_variant : ℕ → ℕ → NewVariant → ProductVariant
created_variant product tenant body = record {
  tenant_id = tenant;
  product_id = product;
  sku = body.sku;
  barcode = body.barcode;
  price = body.price;
  cost_price = body.cost_price;
  mrp = body.mrp;
  status = get_or body.status draft;
}

abbrev pub changed_variant : ProductVariant → VariantChange → ProductVariant
changed_variant v c = record v {
  sku = get_or c.sku v.sku;
  barcode = get_or c.barcode v.barcode;
  price = get_or c.price v.price;
  cost_price = get_or c.cost_price v.cost_price;
  mrp = get_or c.mrp v.mrp;
  status = get_or c.status v.status;
}

abbrev pub is_other : Option ℕ → ℕ → Bool
is_other none b = true
is_other (some c) b = not (c == b)

-- `data.sku && data.sku !== variant.sku`, with a variant that has it; a request has no empty sku
unfoldable pub is_new_sku_taken : Option ℕ → ProductVariant → ℕ → Range → Bool
is_new_sku_taken none v tenant s = false
is_new_sku_taken (some sku) v tenant s = not (sku == v.sku) && any (has_sku sku tenant) s.variants

-- `data.barcode && data.barcode !== variant.barcode`, with a variant that has it
unfoldable pub is_new_barcode_taken : Option (Option ℕ) → ProductVariant → ℕ → Range → Bool
is_new_barcode_taken (some (some b)) v tenant s =
    is_other v.barcode b && is_barcode_taken (some b) tenant s
is_new_barcode_taken _ v tenant s = false

abbrev pub is_product : ℕ → ℕ → ℕ × ℕ → Bool
is_product id tenant p = p.0 == id && p.1 == tenant

-- What `create` checks.
unfoldable pub check_new : ℕ → ℕ → NewVariant → Range → Result (Unit {0})
check_new product tenant body s = do
  fail_if (not (any (is_product product tenant) s.products)) product_not_found
  fail_if (any (has_sku body.sku tenant) s.variants) sku_exists
  fail_if (is_barcode_taken body.barcode tenant s) barcode_exists

abbrev pub with_variant : ℕ → ProductVariant → Range → Range
with_variant id v s = record s { variants = upsert id v s.variants }

-- An error of a later statement keeps what the earlier ones wrote.
abbrev pub or_keep : Result Range → ℕ → Range → Result ℕ × Range
or_keep (ok t) id s = (ok id, t)
or_keep (err e) id s = (err e, s)

-- What `update` checks.
unfoldable pub check_changes : ℕ → ℕ → Option ℕ → VariantChange → Range → Result ProductVariant
check_changes id tenant product c s = do
  v ← require (find_variant id tenant product s) variant_not_found
  fail_if (is_new_sku_taken c.sku v tenant s) sku_exists
  fail_if (is_new_barcode_taken c.barcode v tenant s) barcode_exists
  ok v

-- `delete`, with the attributes that go with the variant; `referenced` tells whether other tables
-- hold on to it.
unfoldable pub delete : Bool → ℕ → ℕ → Option ℕ → Range → Result Range
delete referenced id tenant product s = do
  v ← require (find_variant id tenant product s) variant_not_found
  fail_if referenced foreign_key_violation
  ok (record s {
    variants = filter (λ r. not (r.0 == id)) s.variants;
    attributes = filter (λ (a : VariantAttribute). not (a.variant_id == id)) s.attributes;
  })

-- `numeric` is that of `validate_attribute_value`.
module _ (numeric : ℕ → Bool) where
  -- `setAttributes`, if there are any
  unfoldable pub add_attributes : ℕ → ℕ → List Entry → Range → Result Range
  add_attributes id tenant [] s = ok s
  add_attributes id tenant (e ∷ es) s = set_attribute_rows numeric id tenant (e ∷ es) s

  -- The end of `create`: the variant, and then its attributes in a transaction of their own.
  unfoldable pub insert_variant : ℕ → ℕ → NewVariant → Range → Result ℕ × Range
  insert_variant product tenant body s =
      let id = s.next_id in
      let t =
        with_variant id (created_variant product tenant body) (record s { next_id = id + 1 }) in
      or_keep (add_attributes id tenant body.attributes t) id t

  -- `create`
  unfoldable pub create : ℕ → ℕ → NewVariant → Range → Result ℕ × Range
  create product tenant body s = elim (check_new product tenant body s) [
    | err e ↦ (err e, s)
    | ok passed ↦ insert_variant product tenant body s
  ]

  -- `setAttributes`, if the request has any
  unfoldable pub replace_attributes : ℕ → ℕ → Option (List Entry) → Range → Result Range
  replace_attributes id tenant none s = ok s
  replace_attributes id tenant (some es) s = set_attribute_rows numeric id tenant es s

  -- `update`
  unfoldable pub update : ℕ → ℕ → Option ℕ → VariantChange → Range → Result Range
  update id tenant product c s = do
    v ← check_changes id tenant product c s
    t ← replace_attributes id tenant c.attributes s
    ok (with_variant id (changed_variant v c) t)
