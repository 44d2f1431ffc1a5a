-- ===== src/Variants/Defining.antt =====
-- The requests on attribute definitions, and what they keep.
use backend_pluseops.Base.{
  ℕ, Bool, false, not, ◌+◌, ◌<◌, ◌≡◌, ◌≢◌, refl, sym, inl, inr, Option, none, some, nat_eq, ◌==◌,
  ==_iff, get_or, arith, Bool-cases, attribute_not_found, attribute_code_exists, attribute_in_use,
}
use backend_pluseops.Base.Checks.{Holds, Holds-fail_if, Holds-require}
use backend_pluseops.Base.Lists.{any, filter, All-mono}
use backend_pluseops.Base.Tables.{Table, lookup, upsert, lookup-upsert, lookup-filter}
use backend_pluseops.Base.Unique.{any-lookup, IsUnique, upsert-IsUnique, filter-IsUnique}
use backend_pluseops.Variants.{
  DataType, AttributeDefinition, VariantAttribute, Range, find_definition,
}
use backend_pluseops.Variants.Attributes.{
  has_code, has_code_else, is_used, create_definition, is_code_taken, is_locked, update_definition,
  delete_definition,
}
use backend_pluseops.Variants.Fitting.{All-unless, other-Fits, changed-Fits}
use backend_pluseops.Variants.Typed.{SameCode, Fits, IsSound}

SameCode-sym : (d e : AttributeDefinition) → SameCode d e → SameCode e d
SameCode-sym d e (tenant, code) = (sym tenant, sym code)

find_definition-found :
    (id tenant : ℕ) (s : Range) (d : AttributeDefinition)
    → find_definition id tenant s ≡ some d
    → (lookup id s.definitions ≡ some d) × (d.tenant_id ≡ tenant)
unfolding find_definition
find_definition-found id tenant s d h = (ground (arith, h), ground (arith, h))

numbered_upsert :
    (n id : ℕ) (d : AttributeDefinition) (rows : Table ℕ AttributeDefinition)
    → id < n
    → ((j : ℕ) (x : AttributeDefinition) → lookup j rows ≡ some x → j < n)
    → (j : ℕ) (x : AttributeDefinition) → lookup j (upsert id d rows) ≡ some x
    → j < n
numbered_upsert n id d rows below h j x found = elim (Bool-cases (id == j)) [
  | inl same ↦ ground (arith, (==_iff id j).0 same)
  | inr other ↦ h j x (ground (arith, lookup-upsert id j d rows, found, other))
]

module _ (numeric : ℕ → Bool) where
  code_free :
      (code tenant : ℕ) (s : Range) (j : ℕ) (q : AttributeDefinition)
      → any (has_code code tenant) s.definitions ≡ false
      → lookup j s.definitions ≡ some q
      → tenant ≡ q.tenant_id
      → code ≢ q.code
  code_free code tenant s j q free found same equal =
      let fails : has_code code tenant (j, q) ≡ false =
        any-lookup (has_code code tenant) s.definitions j q free found in
      ground arith

  pub create_definition-IsSound :
      (tenant code : ℕ) (kind : DataType) (s : Range)
      → IsSound numeric s
      → Holds (IsSound numeric) (create_definition tenant code kind s)
  unfolding create_definition
  create_definition-IsSound tenant code kind s h =
      let P : Range → Type 0 = IsSound numeric in
      let d : AttributeDefinition = record { tenant_id = tenant; code = code; data_type = kind } in
      Holds-fail_if P (any (has_code code tenant) s.definitions) attribute_code_exists _ (λ free.
        record {
          variants = h.variants;
          definitions =
              upsert-IsUnique SameCode s.next_id d s.definitions SameCode-sym
                (λ j q found (same, equal).
                  elim (code_free code tenant s j q free found same equal) [ ])
                h.definitions;
          numbered =
              numbered_upsert (s.next_id + 1) s.next_id d s.definitions (ground arith)
                (λ j x there. ground (arith, h.numbered j x there));
          attributes =
              All-mono (Fits numeric s.definitions)
                (Fits numeric (upsert s.next_id d s.definitions)) s.attributes
                (λ a fits.
                  other-Fits numeric s.next_id d s a
                    (ground (arith, h.numbered a.definition_id fits.0 fits.1)) fits)
                h.attributes;
        })

  pub delete_definition-IsSound :
      (id tenant : ℕ) (s : Range)
      → IsSound numeric s
      → Holds (IsSound numeric) (delete_definition id tenant s)
  unfolding delete_definition is_used
  delete_definition-IsSound id tenant s h =
      let P : Range → Type 0 = IsSound numeric in
      let rest : Table ℕ AttributeDefinition = filter (λ r. not (r.0 == id)) s.definitions in
      Holds-require P (find_definition id tenant s) attribute_not_found _ (λ d found.
        Holds-fail_if P (is_used id s) attribute_in_use _ (λ free. record {
          variants = h.variants;
          definitions = filter-IsUnique SameCode id s.definitions h.definitions;
          numbered = λ j x there.
              h.numbered j x
                (ground (arith, lookup-filter (λ k. not (k == id)) j s.definitions, there));
          attributes =
              All-unless (Fits numeric s.definitions) (Fits numeric rest)
                (λ (a : VariantAttribute). a.definition_id == id) s.attributes free
                (λ a other (y, there, owned, valid). (
                  y,
                  ground (
                    arith,
                    lookup-filter (λ k. not (k == id)) a.definition_id s.definitions,
                    there,
                    other,
                  ),
                  owned,
                  valid,
                ))
                h.attributes;
        }))

  -- The new code is no other definition's.
  code_kept :
      (o : Option ℕ) (id tenant : ℕ) (s : Range) (d : AttributeDefinition)
      → lookup id s.definitions ≡ some d
      → d.tenant_id ≡ tenant
      → is_code_taken o id tenant s ≡ false
      → IsUnique SameCode s.definitions
      → (j : ℕ) (q : AttributeDefinition) → lookup j s.definitions ≡ some q
      → d.tenant_id ≡ q.tenant_id
      → get_or o d.code ≡ q.code
      → id ≡ j
  unfolding is_code_taken
  code_kept none id tenant s d found owned free unique j q there same equal =
      unique id j d q found there (same, equal)
  code_kept (some code) id tenant s d found owned free unique j q there same equal =
      let fails : has_code_else code tenant id (j, q) ≡ false =
        any-lookup (has_code_else code tenant id) s.definitions j q free there in
      ground arith

  pub update_definition-IsSound :
      (id tenant : ℕ) (code : Option ℕ) (kind : Option DataType) (s : Range)
      → IsSound numeric s
      → Holds (IsSound numeric) (update_definition id tenant code kind s)
  unfolding update_definition
  update_definition-IsSound id tenant code kind s h =
      let P : Range → Type 0 = IsSound numeric in
      Holds-require P (find_definition id tenant s) attribute_not_found _ (λ d found.
        Holds-fail_if P (is_code_taken code id tenant s) attribute_code_exists _ (λ free.
          Holds-fail_if P (is_locked kind d id s) attribute_in_use _ (λ loose.
            let x : AttributeDefinition = record d {
              code = get_or code d.code;
              data_type = get_or kind d.data_type;
            } in
            let own : (lookup id s.definitions ≡ some d) × (d.tenant_id ≡ tenant) =
              find_definition-found id tenant s d found in
            record {
              variants = h.variants;
              definitions =
                  upsert-IsUnique SameCode id x s.definitions SameCode-sym
                    (λ j q there (same, equal).
                      code_kept code id tenant s d own.0 own.1 free h.definitions j q there same
                        equal)
                    h.definitions;
              numbered =
                  numbered_upsert s.next_id id x s.definitions (h.numbered id d own.0) h.numbered;
              attributes = changed-Fits numeric id kind d x s own.0 refl refl loose h.attributes;
            })))
