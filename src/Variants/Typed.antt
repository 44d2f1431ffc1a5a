-- ===== src/Variants/Typed.antt =====
-- The variants and their attributes after any sequence of requests.
use backend_pluseops.Base.{
  ℕ, Bool, true, false, not, ◌<◌, ◌≡◌, ◌≢◌, ◌⊎◌, inl, inr, some, List, [], ◌∷◌, ◌++◌, map, nat_eq,
  arith, Bool-cases,
}
use backend_pluseops.Base.Checks.{
  Holds, Holds-bind, Holds-fail_if, Holds-require, Holds-map, Holds-ok,
}
use backend_pluseops.Base.Lists.{filter, All}
use backend_pluseops.Base.Tables.{Table, lookup}
use backend_pluseops.Base.Unique.{IsUnique}
use backend_pluseops.Variants.{
  ProductVariant, AttributeDefinition, VariantAttribute, Range, Entry, find_definition,
  attribute_row, validate_attribute_value, check_attributes, set_attribute_rows,
}

-- Two rows that share their sku, or a barcode that is not empty, in a tenant.
abbrev pub Clash : ProductVariant → ProductVariant → Type 0
Clash v w =
    (v.tenant_id ≡ w.tenant_id)
    × ((v.sku ≡ w.sku) ⊎ ((b : ℕ) × (b ≢ 0) × (v.barcode ≡ some b) × (w.barcode ≡ some b)))

abbrev pub SameCode : AttributeDefinition → AttributeDefinition → Type 0
SameCode d e = (d.tenant_id ≡ e.tenant_id) × (d.code ≡ e.code)

pub All-append {ℓ κ} :
    {A : Type ℓ} (P : A → Type κ) (xs ys : List A) → All P xs → All P ys → All P (xs ++ ys)
All-append P [] ys h k = k
All-append P (x ∷ xs) ys h k = (h.0, All-append P xs ys h.1 k)

pub All-filter {ℓ κ} :
    {A : Type ℓ} (P : A → Type κ) (test : A → Bool) (xs : List A)
    → All P xs
    → All P (filter test xs)
All-filter P test [] h = tt
All-filter P test (x ∷ xs) h = elim (Bool-cases (test x)) [
  | inl kept ↦ rw kept (h.0, All-filter P test xs h.1)
  | inr gone ↦ rw gone (All-filter P test xs h.1)
]

module _ (numeric : ℕ → Bool) where
  -- The definition is there, of the same tenant, and takes the value.
  abbrev pub Fits : Table ℕ AttributeDefinition → VariantAttribute → Type 0
  Fits definitions a =
      (d : AttributeDefinition) × (lookup a.definition_id definitions ≡ some d)
      × (d.tenant_id ≡ a.tenant_id)
      × (validate_attribute_value numeric d.data_type a.value ≡ true)

  pub record IsSound (s : Range) : Type 0 where
    pub variants : IsUnique Clash s.variants
    pub definitions : IsUnique SameCode s.definitions
    pub numbered :
        (id : ℕ) (d : AttributeDefinition) → lookup id s.definitions ≡ some d → id < s.next_id
    pub attributes : All (Fits s.definitions) s.attributes

  found-Fits :
      (variant tenant : ℕ) (e : Entry) (d : AttributeDefinition) (s : Range)
      → find_definition e.definition_id tenant s ≡ some d
      → not (validate_attribute_value numeric d.data_type e.value) ≡ false
      → Fits s.definitions (attribute_row variant tenant e)
  unfolding find_definition
  found-Fits variant tenant e d s found h =
      (d, ground (arith, found), ground (arith, found), ground (arith, h))

  check_attributes-Fits :
      (variant tenant : ℕ) (es : List Entry) (s : Range)
      → Holds
          (λ passed. All (Fits s.definitions) (map (attribute_row variant tenant) es))
          (check_attributes numeric tenant es s)
  unfolding check_attributes
  check_attributes-Fits variant tenant [] s = tt
  check_attributes-Fits variant tenant (e ∷ es) s =
      Holds-require _ (find_definition e.definition_id tenant s) _ _ (λ d found.
        Holds-fail_if _ (not (validate_attribute_value numeric d.data_type e.value)) _ _ (λ fine.
          Holds-map _ _ (check_attributes numeric tenant es s)
            (λ passed h. (found-Fits variant tenant e d s found fine, h))
            (check_attributes-Fits variant tenant es s)))

  pub set_attribute_rows-IsSound :
      (variant tenant : ℕ) (es : List Entry) (s : Range)
      → IsSound s
      → Holds IsSound (set_attribute_rows numeric variant tenant es s)
  unfolding set_attribute_rows
  set_attribute_rows-IsSound variant tenant es s h =
      Holds-bind IsSound (check_attributes numeric tenant es s) _ (λ passed e. record {
        variants = h.variants;
        definitions = h.definitions;
        numbered = h.numbered;
        attributes =
            All-append (Fits s.definitions) _ _
              (All-filter (Fits s.definitions) _ s.attributes h.attributes)
              (Holds-ok _ (check_attributes numeric tenant es s) passed
                (check_attributes-Fits variant tenant es s) e);
      })
