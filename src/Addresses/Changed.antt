-- ===== src/Addresses/Changed.antt =====
-- The row that updateAddress writes, and the row of an id.
use backend_pluseops.Base.{
  ℕ, ◌≤◌, ◌≡◌, refl, sym, ap, ◌∙◌, Bool, true, false, ◌&&◌, inl, inr, Option, some, List, [], ◌∷◌,
  map, nat_eq, ◌==◌, get_or, arith, Bool-cases, Option-cases,
}
use backend_pluseops.Base.Lists.{any, find-test, All, All-mono}
use backend_pluseops.Orders.Planning.{AddressType}
use backend_pluseops.Addresses.{
  CustomerAddress, same_kind, is_of, is_default_of, is_rival, clear_default, make_way, find_address,
  changed,
}
use backend_pluseops.Addresses.Default.{defaults, addresses}
use backend_pluseops.Addresses.Apart.{occurrences, IsApart, IsSame}

pub true_or_false : true ≡ false → ⊥
true_or_false h = cc

pub same_kind_refl : (k : AddressType) → same_kind k k ≡ true
same_kind_refl AddressType.shipping = refl
same_kind_refl AddressType.billing = refl

module _ (id : ℕ) (e : CustomerAddress) where
  -- Every row of the id is the one that was found.
  abbrev pub IsOnly : List CustomerAddress → Type 0
  IsOnly rows = All (λ (a : CustomerAddress). (a.id == id) ≡ true → a ≡ e) rows

  IsOnly-none : (rows : List CustomerAddress) → occurrences id rows ≡ 0 → IsOnly rows
  unfolding occurrences
  IsOnly-none [] h = tt
  IsOnly-none (a ∷ rows) h = (λ same. ground arith, IsOnly-none rows (ground arith))

  module _ (tenant customer : ℕ) where
    found_occurs :
        (rows : List CustomerAddress)
        → find_address id tenant customer rows ≡ some e
        → 1 ≤ occurrences id rows
    unfolding occurrences find_address
    found_occurs [] h = ground arith
    found_occurs (a ∷ rows) h = ground (arith, found_occurs rows)

    pub found-IsOnly :
        (rows : List CustomerAddress)
        → occurrences id rows ≤ 1
        → find_address id tenant customer rows ≡ some e
        → IsOnly rows
    unfolding occurrences find_address
    found-IsOnly [] h found = tt
    found-IsOnly (a ∷ rows) h found = elim (Bool-cases (a.id == id)) [
      | inr other ↦ (λ same. ground arith, found-IsOnly rows (ground arith) (ground arith))
      | inl same ↦ elim (Bool-cases (a.customer_id == customer && a.tenant_id == tenant)) [
        | inl ours ↦ (λ it. ground arith, IsOnly-none rows (ground arith))
        | inr theirs ↦
            let later : 1 ≤ occurrences id rows = found_occurs rows (ground arith) in
            (λ it. ground arith, IsOnly-none rows (ground arith))
      ]
    ]

    pub found-is_of :
        (rows : List CustomerAddress)
        → find_address id tenant customer rows ≡ some e
        → is_of tenant customer e.kind e ≡ true
    unfolding find_address
    found-is_of rows h =
        let test =
          find-test
            (λ (a : CustomerAddress).
              a.id == id && (a.customer_id == customer && a.tenant_id == tenant))
            rows e h in
        ground (arith, same_kind_refl e.kind)

-- The rows of the id are of the type.
abbrev pub IsOwn : ℕ → ℕ → ℕ → AddressType → List CustomerAddress → Type 0
IsOwn id tenant customer kind rows =
    All (λ (a : CustomerAddress). (a.id == id) ≡ true → is_of tenant customer kind a ≡ true) rows

pub IsOnly-IsOwn :
    (id tenant customer : ℕ) (e : CustomerAddress) (rows : List CustomerAddress)
    → is_of tenant customer e.kind e ≡ true
    → IsOnly id e rows
    → IsOwn id tenant customer e.kind rows
IsOnly-IsOwn id tenant customer e rows ours only =
    All-mono _ _ rows (λ a it same. ap (is_of tenant customer e.kind) (it same) ∙ ours) only

module _ (id tenant customer : ℕ) (own : AddressType) (kind : Option AddressType)
    (asked : Option Bool) where
  abbrev to : AddressType
  to = get_or kind own

  abbrev pub written : List CustomerAddress → List CustomerAddress
  written rows = map (changed id kind asked) rows

  pub written-occurrences :
      (j : ℕ) (rows : List CustomerAddress) → occurrences j (written rows) ≡ occurrences j rows
  unfolding occurrences
  written-occurrences j [] = refl
  written-occurrences j (a ∷ rows) = ground (arith, written-occurrences j rows)

  pub cleared-IsOwn :
      (asks : Bool) (way : AddressType) (rows : List CustomerAddress)
      → IsOwn id tenant customer own rows
      → IsOwn id tenant customer own (make_way asks tenant customer way rows)
  unfolding make_way clear_default
  cleared-IsOwn false way rows h = h
  cleared-IsOwn true way [] h = tt
  cleared-IsOwn true way (a ∷ rows) h =
      (λ same. ground (arith, h.0), cleared-IsOwn true way rows h.1)

  changed-is_of :
      (a : CustomerAddress)
      → (a.id == id) ≡ true
      → is_of tenant customer own a ≡ true
      → is_of tenant customer to (changed id kind asked a) ≡ true
  changed-is_of a same ours = elim (Option-cases kind) [
    | inl kept ↦ rw kept (ground (arith, ours, same))
    | inr (k, given) ↦ rw given (ground (arith, same_kind_refl k, ours, same))
  ]

  not_of :
      (t c : ℕ) (j k : AddressType)
      → IsApart t c j tenant customer k
      → (a : CustomerAddress) → is_of tenant customer k a ≡ true
      → is_of t c j a ≡ false
  not_of t c j k apart a ours = elim (Bool-cases (is_of t c j a)) [
    | inr other ↦ other
    | inl both ↦ absurd (true_or_false (sym ours ∙ apart a both))
  ]

  -- A type that is neither the one the row had nor the one it gets
  pub written-IsSame :
      (t c : ℕ) (j : AddressType)
      → IsApart t c j tenant customer own
      → IsApart t c j tenant customer to
      → (rows : List CustomerAddress) → IsOwn id tenant customer own rows
      → IsSame t c j rows (written rows)
  unfolding defaults addresses
  written-IsSame t c j was is [] h = (refl, refl)
  written-IsSame t c j was is (a ∷ rows) h = elim (Bool-cases (a.id == id)) [
    | inr other ↦
        let ih = written-IsSame t c j was is rows h.1 in
        (ground (arith, ih.0, other), ground (arith, ih.1, other))
    | inl same ↦
        let ih = written-IsSame t c j was is rows h.1 in
        let now = changed-is_of a same (h.0 same) in
        let old : is_of t c j a ≡ false = not_of t c j own was a (h.0 same) in
        let new : is_of t c j (changed id kind asked a) ≡ false =
          not_of t c j to is (changed id kind asked a) now in
        (rw (old, new) (omega (arith, ih.0)), rw (old, new) (omega (arith, ih.1)))
  ]

  -- The mark is free: no other row has it.
  pub marked-le :
      (rows : List CustomerAddress)
      → any (is_rival id customer to) rows ≡ false
      → defaults tenant customer to (written rows) ≤ occurrences id rows
  unfolding defaults occurrences
  marked-le [] h = omega arith
  marked-le (a ∷ rows) h = elim (Bool-cases (a.id == id)) [
    | inl same ↦ let ih = marked-le rows (ground (arith, h)) in ground (arith, ih, same)
    | inr other ↦ let ih = marked-le rows (ground (arith, h)) in ground (arith, ih, h, other)
  ]

  -- The row has no mark afterwards.
  pub unmarked-le :
      (t c : ℕ) (j : AddressType) (rows : List CustomerAddress)
      → All (λ (a : CustomerAddress). (a.id == id) ≡ true → get_or asked a.is_default ≡ false) rows
      → defaults t c j (written rows) ≤ defaults t c j rows
  unfolding defaults
  unmarked-le t c j [] h = omega arith
  unmarked-le t c j (a ∷ rows) h = elim (Bool-cases (a.id == id)) [
    | inl same ↦
        let ih = unmarked-le t c j rows h.1 in
        let mark = h.0 same in
        let gone : is_default_of t c j (changed id kind asked a) ≡ false =
          ground (arith, mark, same) in
        rw gone (ground (arith, ih))
    | inr other ↦ let ih = unmarked-le t c j rows h.1 in ground (arith, ih, other)
  ]

  -- The row leaves the type that it had.
  pub left-le :
      IsApart tenant customer own tenant customer to
      → (rows : List CustomerAddress) → IsOwn id tenant customer own rows
      → defaults tenant customer own (written rows) ≤ defaults tenant customer own rows
  unfolding defaults
  left-le apart [] h = omega arith
  left-le apart (a ∷ rows) h = elim (Bool-cases (a.id == id)) [
    | inl same ↦
        let ih = left-le apart rows h.1 in
        let gone : is_of tenant customer own (changed id kind asked a) ≡ false =
          not_of tenant customer own to apart (changed id kind asked a)
            (changed-is_of a same (h.0 same)) in
        rw gone (ground (arith, ih))
    | inr other ↦ let ih = left-le apart rows h.1 in ground (arith, ih, other)
  ]

  pub make_way-le :
      (asks : Bool) (way : AddressType) (t c : ℕ) (j : AddressType) (rows : List CustomerAddress)
      → defaults t c j (make_way asks tenant customer way rows) ≤ defaults t c j rows
  unfolding defaults make_way clear_default
  make_way-le false way t c j rows = omega arith
  make_way-le true way t c j [] = omega arith
  make_way-le true way t c j (a ∷ rows) = ground (arith, make_way-le true way t c j rows)
