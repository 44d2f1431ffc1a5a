-- ===== src/Addresses/Apart.antt =====
-- Writes to the addresses of one type leave those of any other alone, and the ids of all.
use backend_pluseops.Base.{
  ℕ, ◌≡◌, refl, ◌∙◌, Bool, true, false, not, ◌⊎◌, inl, inr, List, [], ◌∷◌, ◌++◌, nat_eq, ◌==◌,
  ==_iff, if◌then◌else◌, arith, Bool-cases,
}
use backend_pluseops.Base.Lists.{filter, sum_of, All}
use backend_pluseops.Orders.Planning.{AddressType}
use backend_pluseops.Addresses.{
  CustomerAddress, same_kind, is_of, clear_default, promote_oldest, ensure_default, make_way,
}
use backend_pluseops.Addresses.Default.{defaults, addresses, IsSettled}

-- The rows of an id.
unfoldable pub occurrences : ℕ → List CustomerAddress → ℕ
occurrences id rows = sum_of (λ (a : CustomerAddress). if a.id == id then 1 else 0) rows

pub same_kind-eq : (j k : AddressType) → same_kind j k ≡ true → j ≡ k
same_kind-eq AddressType.shipping AddressType.shipping h = refl
same_kind-eq AddressType.billing AddressType.billing h = refl
same_kind-eq AddressType.shipping AddressType.billing h = ground arith
same_kind-eq AddressType.billing AddressType.shipping h = ground arith

pub same_kind_apart :
    (i j k : AddressType) → same_kind j k ≡ false → same_kind i j ≡ true → same_kind i k ≡ false
same_kind_apart i j k h e = rw (same_kind-eq i j e) h

-- No address is of both.
abbrev pub IsApart : ℕ → ℕ → AddressType → ℕ → ℕ → AddressType → Type 0
IsApart t c j tenant customer kind =
    (a : CustomerAddress) → is_of t c j a ≡ true → is_of tenant customer kind a ≡ false

pub same_or_apart :
    (t c : ℕ) (j : AddressType) (tenant customer : ℕ) (kind : AddressType)
    → ((t ≡ tenant) × (c ≡ customer) × (j ≡ kind)) ⊎ IsApart t c j tenant customer kind
same_or_apart t c j tenant customer kind = elim (Bool-cases (t == tenant)) [
  | inr other ↦ inr (λ a h. ground arith)
  | inl one ↦ elim (Bool-cases (c == customer)) [
    | inr other ↦ inr (λ a h. ground arith)
    | inl two ↦ elim (Bool-cases (same_kind j kind)) [
      | inl three ↦
          inl ((==_iff t tenant).0 one, (==_iff c customer).0 two, same_kind-eq j kind three)
      | inr other ↦ inr (λ a h. ground (arith, same_kind_apart a.kind j kind other))
    ]
  ]
]

-- As many addresses of a type, and as many defaults.
abbrev pub IsSame : ℕ → ℕ → AddressType → List CustomerAddress → List CustomerAddress → Type 0
IsSame t c j rows later =
    (defaults t c j later ≡ defaults t c j rows) × (addresses t c j later ≡ addresses t c j rows)

pub IsSame-trans :
    (t c : ℕ) (j : AddressType) (rows mid later : List CustomerAddress)
    → IsSame t c j rows mid
    → IsSame t c j mid later
    → IsSame t c j rows later
IsSame-trans t c j rows mid later a b = (b.0 ∙ a.0, b.1 ∙ a.1)

pub same-IsSettled :
    (t c : ℕ) (j : AddressType) (rows later : List CustomerAddress)
    → IsSame t c j rows later
    → IsSettled t c j rows
    → IsSettled t c j later
same-IsSettled t c j rows later same h = record {
  at_most = rw same.0 h.at_most;
  some_default = rw (same.0, same.1) h.some_default;
}

module _ (tenant customer : ℕ) (kind : AddressType) where
  pub clear_default-occurrences :
      (id : ℕ) (rows : List CustomerAddress)
      → occurrences id (clear_default tenant customer kind rows) ≡ occurrences id rows
  unfolding occurrences clear_default
  clear_default-occurrences id [] = refl
  clear_default-occurrences id (a ∷ rows) = ground (arith, clear_default-occurrences id rows)

  promote_oldest-occurrences :
      (id : ℕ) (rows : List CustomerAddress)
      → occurrences id (promote_oldest tenant customer kind rows) ≡ occurrences id rows
  unfolding occurrences promote_oldest
  promote_oldest-occurrences id [] = refl
  promote_oldest-occurrences id (a ∷ rows) = ground (arith, promote_oldest-occurrences id rows)

  pub ensure_default-occurrences :
      (id : ℕ) (rows : List CustomerAddress)
      → occurrences id (ensure_default tenant customer kind rows) ≡ occurrences id rows
  unfolding ensure_default
  ensure_default-occurrences id rows = ground (arith, promote_oldest-occurrences id rows)

  pub make_way-occurrences :
      (wanted : Bool) (id : ℕ) (rows : List CustomerAddress)
      → occurrences id (make_way wanted tenant customer kind rows) ≡ occurrences id rows
  unfolding make_way
  make_way-occurrences true id rows = clear_default-occurrences id rows
  make_way-occurrences false id rows = refl

  module _ (t c : ℕ) (j : AddressType) where
    module _ (apart : IsApart t c j tenant customer kind) where
      clear_default-IsSame :
          (rows : List CustomerAddress)
          → IsSame t c j rows (clear_default tenant customer kind rows)
      unfolding defaults addresses clear_default
      clear_default-IsSame [] = (refl, refl)
      clear_default-IsSame (a ∷ rows) =
          let ih = clear_default-IsSame rows in
          (ground (arith, ih.0, apart a), ground (arith, ih.1, apart a))

      promote_oldest-IsSame :
          (rows : List CustomerAddress)
          → IsSame t c j rows (promote_oldest tenant customer kind rows)
      unfolding defaults addresses promote_oldest
      promote_oldest-IsSame [] = (refl, refl)
      promote_oldest-IsSame (a ∷ rows) =
          let ih = promote_oldest-IsSame rows in
          (ground (arith, ih.0, apart a), ground (arith, ih.1, apart a))

      pub ensure_default-IsSame :
          (rows : List CustomerAddress)
          → IsSame t c j rows (ensure_default tenant customer kind rows)
      unfolding ensure_default
      ensure_default-IsSame rows =
          let p = promote_oldest-IsSame rows in (ground (arith, p.0), ground (arith, p.1))

      pub make_way-IsSame :
          (wanted : Bool) (rows : List CustomerAddress)
          → IsSame t c j rows (make_way wanted tenant customer kind rows)
      unfolding make_way
      make_way-IsSame true rows = clear_default-IsSame rows
      make_way-IsSame false rows = (refl, refl)

      pub append-IsSame :
          (a : CustomerAddress) (rows : List CustomerAddress)
          → is_of tenant customer kind a ≡ true
          → IsSame t c j rows (rows ++ (a ∷ []))
      unfolding defaults addresses
      append-IsSame a [] mine = (ground (arith, apart a), ground (arith, apart a))
      append-IsSame a (b ∷ rows) mine =
          let ih = append-IsSame a rows mine in (omega (arith, ih.0), omega (arith, ih.1))

      -- The rows of an id that are of the type go.
      pub filter-IsSame :
          (id : ℕ) (rows : List CustomerAddress)
          → All
              (λ (a : CustomerAddress). (a.id == id) ≡ true → is_of tenant customer kind a ≡ true)
              rows
          → IsSame t c j rows (filter (λ (a : CustomerAddress). not (a.id == id)) rows)
      unfolding defaults addresses
      filter-IsSame id [] own = (refl, refl)
      filter-IsSame id (a ∷ rows) own =
          let ih = filter-IsSame id rows own.1 in
          (ground (arith, ih.0, own.0, apart a), ground (arith, ih.1, own.0, apart a))
