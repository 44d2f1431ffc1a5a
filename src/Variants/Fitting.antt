-- ===== src/Variants/Fitting.antt =====
-- Attributes and the definitions that they have, when a definition is written.
use backend_pluseops.Base.{
  ℕ, Bool, true, false, ◌≡◌, refl, sym, ap, ◌∙◌, ◌⊎◌, inl, inr, Option, none, some, List, [], ◌∷◌,
  nat_eq, ◌==◌, ==_iff, get_or, arith, Bool-cases,
}
use backend_pluseops.Base.Lists.{any, All, All-mono}
use backend_pluseops.Base.Tables.{lookup, upsert, lookup-upsert}
use backend_pluseops.Variants.{
  DataType, text, number, boolean, option, AttributeDefinition, VariantAttribute, Range,
  validate_attribute_value,
}
use backend_pluseops.Variants.Attributes.{same_type, is_used, is_locked}
use backend_pluseops.Variants.Typed.{Fits}

some-inj : (d e : AttributeDefinition) → some d ≡ some e → d ≡ e
some-inj d e h = cc

-- What holds of all rows and is kept by those that fail a test that none passes
pub All-unless {ℓ κ μ} :
    {A : Type ℓ} (P : A → Type κ) (Q : A → Type μ) (test : A → Bool) (xs : List A)
    → any test xs ≡ false
    → ((x : A) → test x ≡ false → P x → Q x)
    → All P xs
    → All Q xs
All-unless P Q test [] none_passes f h = tt
All-unless P Q test (x ∷ xs) none_passes f h =
    (f x (ground arith) h.0, All-unless P Q test xs (ground arith) f h.1)

same_type-eq : (a b : DataType) → same_type a b ≡ true → a ≡ b
same_type-eq text text h = refl
same_type-eq number number h = refl
same_type-eq boolean boolean h = refl
same_type-eq option option h = refl
same_type-eq text number h = ground arith
same_type-eq text boolean h = ground arith
same_type-eq text option h = ground arith
same_type-eq number text h = ground arith
same_type-eq number boolean h = ground arith
same_type-eq number option h = ground arith
same_type-eq boolean text h = ground arith
same_type-eq boolean number h = ground arith
same_type-eq boolean option h = ground arith
same_type-eq option text h = ground arith
same_type-eq option number h = ground arith
same_type-eq option boolean h = ground arith

-- A definition that is not locked keeps its type, or is not used.
unlocked :
    (kind : Option DataType) (d : AttributeDefinition) (id : ℕ) (s : Range)
    → is_locked kind d id s ≡ false
    → (d.data_type ≡ get_or kind d.data_type) ⊎ (is_used id s ≡ false)
unfolding is_locked
unlocked none d id s h = inl refl
unlocked (some kind) d id s h = elim (Bool-cases (same_type d.data_type kind)) [
  | inl same ↦ inl (same_type-eq d.data_type kind same)
  | inr other ↦ inr (ground arith)
]

module _ (numeric : ℕ → Bool) where
  -- A definition is written under an id that no attribute has.
  pub other-Fits :
      (id : ℕ) (d : AttributeDefinition) (s : Range) (a : VariantAttribute)
      → (a.definition_id == id) ≡ false
      → Fits numeric s.definitions a
      → Fits numeric (upsert id d s.definitions) a
  other-Fits id d s a other (x, found, same, valid) = (
    x,
    ground (arith, lookup-upsert id a.definition_id d s.definitions, found, other),
    same,
    valid,
  )

  typed-Fits :
      (id : ℕ) (d x : AttributeDefinition) (s : Range) (a : VariantAttribute)
      → lookup id s.definitions ≡ some d
      → x.tenant_id ≡ d.tenant_id
      → d.data_type ≡ x.data_type
      → Fits numeric s.definitions a
      → Fits numeric (upsert id x s.definitions) a
  typed-Fits id d x s a mine owner kind (y, found, owned, valid) =
      elim (Bool-cases (a.definition_id == id)) [
        | inr other ↦ other-Fits id x s a other (y, found, owned, valid)
        | inl same ↦
            let key : a.definition_id ≡ id = (==_iff a.definition_id id).0 same in
            let row : d ≡ y =
              some-inj d y (sym mine ∙ ap (λ k. lookup k s.definitions) (sym key) ∙ found) in
            let written : lookup a.definition_id (upsert id x s.definitions) ≡ some x =
              ground (arith, lookup-upsert id a.definition_id x s.definitions, key) in
            (
              x,
              written,
              owner ∙ ap (λ (e : AttributeDefinition). e.tenant_id) row ∙ owned,
              ap (λ k. validate_attribute_value numeric k a.value)
                    (sym kind ∙ ap (λ (e : AttributeDefinition). e.data_type) row)
                  ∙ valid,
            )
      ]

  -- A definition changes: in use it keeps its type, and otherwise no attribute has it.
  pub changed-Fits :
      (id : ℕ) (kind : Option DataType) (d x : AttributeDefinition) (s : Range)
      → lookup id s.definitions ≡ some d
      → x.tenant_id ≡ d.tenant_id
      → x.data_type ≡ get_or kind d.data_type
      → is_locked kind d id s ≡ false
      → All (Fits numeric s.definitions) s.attributes
      → All (Fits numeric (upsert id x s.definitions)) s.attributes
  unfolding is_used
  changed-Fits id kind d x s found owner typed free h = elim (unlocked kind d id s free) [
    | inl same ↦
        All-mono (Fits numeric s.definitions) (Fits numeric (upsert id x s.definitions))
          s.attributes (λ a. typed-Fits id d x s a found owner (same ∙ sym typed)) h
    | inr unused ↦
        All-unless (Fits numeric s.definitions) (Fits numeric (upsert id x s.definitions))
          (λ (a : VariantAttribute). a.definition_id == id) s.attributes unused
          (λ a. other-Fits id x s a) h
  ]
