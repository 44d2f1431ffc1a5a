-- ===== src/Variants.antt =====
-- src/modules/variants and src/modules/attributes: the variants of products and the attributes that
-- describe them. Texts are numbers, as they are only compared; 0 is the empty one.
pub mod Requests
pub mod Typed
pub mod Keeping
pub mod Updating
pub mod Running
pub mod Attributes
pub mod Fitting
pub mod Defining
use backend_pluseops.Base.{
  ℕ, Bool, true, false, not, ◌&&◌, ◌||◌, ◌+◌, Option, none, some, List, [], ◌∷◌, ◌++◌, map, Result,
  ok, err, nat_eq, ◌==◌, get_or, is_some, if◌then◌else◌, product_not_found, sku_exists,
  barcode_exists, variant_not_found, attribute_not_found, invalid_attribute_value, unique_violation,
  foreign_key_violation,
}
use backend_pluseops.Base.Checks.{◌>>=◌, ◌>>◌, require, fail_if}
use backend_pluseops.Base.Lists.{any, filter}
use backend_pluseops.Base.Tables.{Table, lookup, upsert}

pub data DataType : Type 0 where
  text number boolean option : DataType

pub data VariantStatus : Type 0 where
  active inactive draft : VariantStatus

pub record ProductVariant : Type 0 where
  pub tenant_id : ℕ
  pub product_id : ℕ
  pub sku : ℕ
  pub barcode : Option ℕ
  pub price : ℕ
  pub cost_price : Option ℕ
  pub mrp : Option ℕ
  pub status : VariantStatus

pub record AttributeDefinition : Type 0 where
  pub tenant_id : ℕ
  pub code : ℕ
  pub data_type : DataType

pub record VariantAttribute : Type 0 where
  pub tenant_id : ℕ
  pub variant_id : ℕ
  pub definition_id : ℕ
  pub value : ℕ

-- `products` are the products with their tenants, which are only read.
pub record Range : Type 0 where
  pub products : List (ℕ × ℕ)
  pub variants : Table ℕ ProductVariant
  pub definitions : Table ℕ AttributeDefinition
  pub attributes : List VariantAttribute
  pub next_id : ℕ

-- An entry of `data.attributes`
pub record Entry : Type 0 where
  pub definition_id : ℕ
  pub value : ℕ

-- The texts `true` and `false`
abbrev pub true_text : ℕ
true_text = 1

abbrev pub false_text : ℕ
false_text = 2

abbrev pub is_same : Option ℕ → ℕ → Bool
is_same none b = true
is_same (some a) b = b == a

-- `findById` and `getById`, with the product where one is given
unfoldable pub find_variant : ℕ → ℕ → Option ℕ → Range → Option ProductVariant
find_variant id tenant product s = elim (lookup id s.variants) [
  | none ↦ none
  | some v ↦ if v.tenant_id == tenant && is_same product v.product_id then some v else none
]

-- `findBySku`
abbrev pub has_sku : ℕ → ℕ → ℕ × ProductVariant → Bool
has_sku sku tenant row = row.1.sku == sku && row.1.tenant_id == tenant

abbrev pub is_barcode : Option ℕ → ℕ → Bool
is_barcode none b = false
is_barcode (some c) b = c == b

abbrev pub has_barcode : ℕ → ℕ → ℕ × ProductVariant → Bool
has_barcode barcode tenant row = is_barcode row.1.barcode barcode && row.1.tenant_id == tenant

-- `if (data.barcode)`, with a variant that has the barcode
unfoldable pub is_barcode_taken : Option ℕ → ℕ → Range → Bool
is_barcode_taken none tenant s = false
is_barcode_taken (some b) tenant s = not (b == 0) && any (has_barcode b tenant) s.variants

unfoldable pub find_definition : ℕ → ℕ → Range → Option AttributeDefinition
find_definition id tenant s = elim (lookup id s.definitions) [
  | none ↦ none
  | some d ↦ if d.tenant_id == tenant then some d else none
]

abbrev pub is_attribute_of : ℕ → ℕ → VariantAttribute → Bool
is_attribute_of variant tenant a = a.variant_id == variant && a.tenant_id == tenant

abbrev pub attribute_row : ℕ → ℕ → Entry → VariantAttribute
attribute_row variant tenant e = record {
  tenant_id = tenant;
  variant_id = variant;
  definition_id = e.definition_id;
  value = e.value;
}

-- `numeric` tells of a text whether `Number` makes a number of it.
module _ (numeric : ℕ → Bool) where
  -- `validateAttributeValue`, of a text
  unfoldable pub validate_attribute_value : DataType → ℕ → Bool
  validate_attribute_value number value = numeric value
  validate_attribute_value boolean value = value == true_text || value == false_text
  validate_attribute_value option value = true
  validate_attribute_value text value = true

  unfoldable pub check_attributes : ℕ → List Entry → Range → Result (Unit {0})
  check_attributes tenant [] s = ok tt
  check_attributes tenant (e ∷ es) s = do
    d ← require (find_definition e.definition_id tenant s) attribute_not_found
    fail_if (not (validate_attribute_value d.data_type e.value)) invalid_attribute_value
    check_attributes tenant es s

  -- `setAttributes` of the repository, a transaction. There is no unique index for skipDuplicates.
  unfoldable pub set_attribute_rows : ℕ → ℕ → List Entry → Range → Result Range
  set_attribute_rows variant tenant es s = do
    check_attributes tenant es s
    ok (record s {
      attributes =
          filter (λ a. not (is_attribute_of variant tenant a)) s.attributes
          ++ map (attribute_row variant tenant) es;
    })

  -- `setAttributes`
  unfoldable pub set_attributes : ℕ → ℕ → Option ℕ → List Entry → Range → Result Range
  set_attributes id tenant product es s = do
    found ← require (find_variant id tenant product s) variant_not_found
    set_attribute_rows id tenant es s
