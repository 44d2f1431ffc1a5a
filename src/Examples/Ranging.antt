-- ===== src/Examples/Ranging.antt =====
-- A product with variants and attributes.
use backend_pluseops.Base.{ℕ, Bool, ◌≡◌, refl, none, some, List, [], ◌∷◌, nat_eq, ◌==◌}
use backend_pluseops.Base.Tables.{lookup, upsert}
use backend_pluseops.Variants.{
  Range, number, text, active, set_attributes, find_variant, is_barcode_taken, find_definition,
  validate_attribute_value, check_attributes, set_attribute_rows,
}
use backend_pluseops.Variants.Requests.{
  NewVariant, VariantChange, create, update, delete, is_new_sku_taken, is_new_barcode_taken,
  check_new, add_attributes, insert_variant, check_changes, replace_attributes,
}
use backend_pluseops.Variants.Attributes.{
  is_used, is_code_taken, is_locked, create_definition, update_definition, delete_definition,
}
use backend_pluseops.Variants.Typed.{IsSound}
use backend_pluseops.Variants.Running.{
  Request, create_variant, update_variant, add_definition, change_definition, remove_definition,
  or_unchanged, answer, run, empty, run-IsSound,
}

abbrev is_seven : ℕ → Bool
is_seven value = value == 7

-- A shirt with its size, 7; the shirt of the second request has the size 8, which is no number here.
abbrev shirt : (sku size : ℕ) → NewVariant
shirt sku size = record {
  sku = sku;
  barcode = some 900;
  price = 500;
  cost_price = none;
  mrp = none;
  status = some active;
  attributes = record { definition_id = 1; value = size } ∷ [];
}

abbrev new_barcode : VariantChange
new_barcode = record {
  sku = none;
  barcode = some none;
  price = none;
  cost_price = none;
  mrp = none;
  status = none;
  attributes = none;
}

abbrev requests : List Request
requests =
    add_definition 5 60 number
    ∷ create_variant 5 3 (shirt 70 7)
    ∷ create_variant 5 3 (shirt 71 7)
    ∷ update_variant 5 2 (some 3) new_barcode
    ∷ create_variant 5 3 (shirt 71 8)
    ∷ change_definition 5 1 none (some text)
    ∷ remove_definition 5 1
    ∷ []

-- The third request is refused for its barcode and the last two as the definition is in use; the
-- fifth one fails at the attribute and leaves its variant behind.
abbrev served : Range
served = record {
  products = (3, 5) ∷ [];
  variants =
      (
        2,
        record {
          tenant_id = 5;
          product_id = 3;
          sku = 70;
          barcode = none;
          price = 500;
          cost_price = none;
          mrp = none;
          status = active;
        },
      )
      ∷ (
        3,
        record {
          tenant_id = 5;
          product_id = 3;
          sku = 71;
          barcode = some 900;
          price = 500;
          cost_price = none;
          mrp = none;
          status = active;
        },
      )
      ∷ [];
  definitions = (1, record { tenant_id = 5; code = 60; data_type = number }) ∷ [];
  attributes = record { tenant_id = 5; variant_id = 2; definition_id = 1; value = 7 } ∷ [];
  next_id = 4;
}

after_requests : run is_seven requests (empty ((3, 5) ∷ [])) ≡ served
unfolding run answer create update delete set_attributes find_variant is_barcode_taken
    is_new_sku_taken is_new_barcode_taken find_definition validate_attribute_value check_attributes
    set_attribute_rows check_new add_attributes insert_variant check_changes replace_attributes
    is_used is_code_taken is_locked create_definition update_definition delete_definition
    or_unchanged lookup upsert
after_requests = refl

run-IsSound_example : IsSound is_seven (run is_seven requests (empty ((3, 5) ∷ [])))
run-IsSound_example = run-IsSound is_seven ((3, 5) ∷ []) requests
