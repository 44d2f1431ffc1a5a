-- ===== src/Variants/Updating.antt =====
-- Updates of variants, their deletion, and their attributes.
use backend_pluseops.Base.{
  ℕ, Bool, false, ◌≡◌, ◌≢◌, refl, sym, ap, ◌∙◌, inl, inr, Option, none, some, List, nat_eq, ◌==◌,
  ==_iff, get_or, arith, Bool-cases, sku_exists, barcode_exists, variant_not_found,
  foreign_key_violation,
}
use backend_pluseops.Base.Checks.{Holds, Holds-bind, Holds-fail_if, Holds-require, Holds-ok}
use backend_pluseops.Base.Tables.{lookup}
use backend_pluseops.Base.Unique.{IsUnique, filter-IsUnique}
use backend_pluseops.Variants.{
  ProductVariant, Range, Entry, find_variant, is_barcode_taken, set_attributes, set_attribute_rows,
  check_attributes,
}
use backend_pluseops.Variants.Requests.{
  VariantChange, is_new_sku_taken, is_new_barcode_taken, is_other, changed_variant, check_changes,
  replace_attributes, update, delete,
}
use backend_pluseops.Variants.Keeping.{sku_free, barcode_free, with_variant-IsSound}
use backend_pluseops.Variants.Typed.{Clash, Fits, IsSound, All-filter, set_attribute_rows-IsSound}

is_other-same : (o : Option ℕ) (x : ℕ) → is_other o x ≡ false → o ≡ some x
is_other-same none x h = ground arith
is_other-same (some c) x h = ap some ((==_iff c x).0 (ground arith))

module _ (numeric : ℕ → Bool) where
  set_attribute_rows-variants :
      (id tenant : ℕ) (es : List Entry) (s : Range)
      → Holds (λ t. t.variants ≡ s.variants) (set_attribute_rows numeric id tenant es s)
  unfolding set_attribute_rows
  set_attribute_rows-variants id tenant es s =
      Holds-bind (λ (t : Range). t.variants ≡ s.variants) (check_attributes numeric tenant es s) _
        (λ passed e. refl)

  replace_attributes-IsSound :
      (id tenant : ℕ) (o : Option (List Entry)) (s : Range)
      → IsSound numeric s
      → Holds (IsSound numeric) (replace_attributes numeric id tenant o s)
  unfolding replace_attributes
  replace_attributes-IsSound id tenant none s h = h
  replace_attributes-IsSound id tenant (some es) s h =
      set_attribute_rows-IsSound numeric id tenant es s h

  replace_attributes-variants :
      (id tenant : ℕ) (o : Option (List Entry)) (s : Range)
      → Holds (λ t. t.variants ≡ s.variants) (replace_attributes numeric id tenant o s)
  unfolding replace_attributes
  replace_attributes-variants id tenant none s = refl
  replace_attributes-variants id tenant (some es) s = set_attribute_rows-variants id tenant es s

  -- The variant is the tenant's, and what changes of it is free.
  record CanChange (id owner : ℕ) (c : VariantChange) (s : Range) (v : ProductVariant)
      : Type 0 where
    pub found : lookup id s.variants ≡ some v
    pub tenant : v.tenant_id ≡ owner
    pub sku : is_new_sku_taken c.sku v owner s ≡ false
    pub barcode : is_new_barcode_taken c.barcode v owner s ≡ false

  find_variant-found :
      (id tenant : ℕ) (product : Option ℕ) (s : Range) (v : ProductVariant)
      → find_variant id tenant product s ≡ some v
      → (lookup id s.variants ≡ some v) × (v.tenant_id ≡ tenant)
  unfolding find_variant
  find_variant-found id tenant product s v h = (ground (arith, h), ground (arith, h))

  check_changes-CanChange :
      (id tenant : ℕ) (product : Option ℕ) (c : VariantChange) (s : Range)
      → Holds (CanChange id tenant c s) (check_changes id tenant product c s)
  unfolding check_changes
  check_changes-CanChange id tenant product c s =
      let P : ProductVariant → Type 0 = CanChange id tenant c s in
      Holds-require P (find_variant id tenant product s) variant_not_found _ (λ v found.
        Holds-fail_if P (is_new_sku_taken c.sku v tenant s) sku_exists _ (λ sku.
          Holds-fail_if P (is_new_barcode_taken c.barcode v tenant s) barcode_exists _ (λ barcode.
            record {
              found = (find_variant-found id tenant product s v found).0;
              tenant = (find_variant-found id tenant product s v found).1;
              sku = sku;
              barcode = barcode;
            })))

  module _ (id : ℕ) (s : Range) (v : ProductVariant) (unique : IsUnique Clash s.variants)
      (mine : lookup id s.variants ≡ some v) (j : ℕ) (q : ProductVariant)
      (found : lookup j s.variants ≡ some q) (same : v.tenant_id ≡ q.tenant_id) (tenant : ℕ)
      (owned : v.tenant_id ≡ tenant) where
    changed_sku :
        (o : Option ℕ) → is_new_sku_taken o v tenant s ≡ false → get_or o v.sku ≡ q.sku → id ≡ j
    unfolding is_new_sku_taken
    changed_sku none free equal = unique id j v q mine found (same, inl equal)
    changed_sku (some sku) free equal = elim (Bool-cases (sku == v.sku)) [
      | inl old ↦ unique id j v q mine found (same, inl (sym ((==_iff sku v.sku).0 old) ∙ equal))
      | inr new ↦
          elim (sku_free sku tenant s j q (ground (arith, free, new)) found (sym owned ∙ same)
            equal) [ ]
    ]

    changed_barcode :
        (o : Option (Option ℕ)) (b : ℕ)
        → is_new_barcode_taken o v tenant s ≡ false
        → b ≢ 0
        → get_or o v.barcode ≡ some b
        → q.barcode ≡ some b
        → id ≡ j
    unfolding is_new_barcode_taken
    changed_barcode none b free full ours theirs =
        unique id j v q mine found (same, inr (b, full, ours, theirs))
    changed_barcode (some none) b free full ours theirs = ground arith
    changed_barcode (some (some x)) b free full ours theirs =
        elim (Bool-cases (is_other v.barcode x)) [
          | inl new ↦
              let clear : is_barcode_taken (some x) tenant s ≡ false = ground (arith, free, new) in
              elim (barcode_free (some x) b tenant s j q clear ours full found (sym owned ∙ same)
                theirs) [ ]
          | inr old ↦
              unique id j v q mine found
                (same, inr (b, full, is_other-same v.barcode x old ∙ ours, theirs))
        ]

  changed_new :
      (id tenant : ℕ) (c : VariantChange) (s : Range) (v : ProductVariant)
      → IsUnique Clash s.variants
      → CanChange id tenant c s v
      → (j : ℕ) (q : ProductVariant) → lookup j s.variants ≡ some q
      → Clash (changed_variant v c) q
      → id ≡ j
  changed_new id tenant c s v unique can j q found (same, inl equal) =
      changed_sku id s v unique can.found j q found same tenant can.tenant c.sku can.sku equal
  changed_new id tenant c s v unique can j q found (same, inr (b, full, ours, theirs)) =
      changed_barcode id s v unique can.found j q found same tenant can.tenant c.barcode b
        can.barcode full ours theirs

  pub update-IsSound :
      (id tenant : ℕ) (product : Option ℕ) (c : VariantChange) (s : Range)
      → IsSound numeric s
      → Holds (IsSound numeric) (update numeric id tenant product c s)
  unfolding update
  update-IsSound id tenant product c s h =
      let P : Range → Type 0 = IsSound numeric in
      Holds-bind P (check_changes id tenant product c s) _ (λ v passed.
        Holds-bind P (replace_attributes numeric id tenant c.attributes s) _ (λ t done.
          let can : CanChange id tenant c s v =
            Holds-ok _ (check_changes id tenant product c s) v
              (check_changes-CanChange id tenant product c s) passed in
          let kept : t.variants ≡ s.variants =
            Holds-ok (λ (r : Range). r.variants ≡ s.variants)
              (replace_attributes numeric id tenant c.attributes s) t
              (replace_attributes-variants id tenant c.attributes s) done in
          let sound : IsSound numeric t =
            Holds-ok P (replace_attributes numeric id tenant c.attributes s) t
              (replace_attributes-IsSound id tenant c.attributes s h) done in
          with_variant-IsSound numeric id (changed_variant v c) t sound (λ j q found.
            changed_new id tenant c s v h.variants can j q (sym (ap (lookup j) kept) ∙ found))))

  pub set_attributes-IsSound :
      (id tenant : ℕ) (product : Option ℕ) (es : List Entry) (s : Range)
      → IsSound numeric s
      → Holds (IsSound numeric) (set_attributes numeric id tenant product es s)
  unfolding set_attributes
  set_attributes-IsSound id tenant product es s h =
      Holds-require (IsSound numeric) (find_variant id tenant product s) variant_not_found _
        (λ v found. set_attribute_rows-IsSound numeric id tenant es s h)

  pub delete-IsSound :
      (referenced : Bool) (id tenant : ℕ) (product : Option ℕ) (s : Range)
      → IsSound numeric s
      → Holds (IsSound numeric) (delete referenced id tenant product s)
  unfolding delete
  delete-IsSound referenced id tenant product s h =
      let P : Range → Type 0 = IsSound numeric in
      Holds-require P (find_variant id tenant product s) variant_not_found _ (λ v found.
        Holds-fail_if P referenced foreign_key_violation _ (λ free. record {
          variants = filter-IsUnique Clash id s.variants h.variants;
          definitions = h.definitions;
          numbered = h.numbered;
          attributes = All-filter (Fits numeric s.definitions) _ s.attributes h.attributes;
        }))
