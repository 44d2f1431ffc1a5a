-- ===== src/Addresses/Default.antt =====
-- The default of each type of address: clearDefault and ensureDefault of customers.repository.js.
use backend_pluseops.Base.{
  ℕ, ◌+◌, ◌≤◌, ◌≡◌, refl, Bool, true, false, ◌&&◌, List, [], ◌∷◌, ◌++◌, nat_eq, ◌==◌, if◌then◌else◌,
  arith, Bool-cases, inl, inr,
}
use backend_pluseops.Base.Lists.{any, filter, sum_of}
use backend_pluseops.Orders.Planning.{AddressType}
use backend_pluseops.Addresses.{
  CustomerAddress, same_kind, is_of, is_default_of, clear_default, promote_oldest, ensure_default,
  make_way, new_address,
}

module _ (tenant customer : ℕ) (kind : AddressType) where
  -- The defaults of the type, and the addresses of it.
  unfoldable pub defaults : List CustomerAddress → ℕ
  defaults rows =
      sum_of
        (λ a.
          if (a.tenant_id == tenant && (a.customer_id == customer && same_kind a.kind kind))
            && a.is_default
          then 1
          else 0)
        rows

  unfoldable pub addresses : List CustomerAddress → ℕ
  addresses rows =
      sum_of
        (λ a.
          if a.tenant_id == tenant && (a.customer_id == customer && same_kind a.kind kind)
          then 1
          else 0)
        rows

  pub record IsSettled (rows : List CustomerAddress) : Type 0 where
    pub at_most : defaults rows ≤ 1
    pub some_default : 1 ≤ addresses rows → 1 ≤ defaults rows

  any_default :
      (rows : List CustomerAddress)
      → (any (is_default_of tenant customer kind) rows ≡ true → 1 ≤ defaults rows)
        × (any (is_default_of tenant customer kind) rows ≡ false → defaults rows ≡ 0)
  unfolding defaults
  any_default [] = (λ e. ground arith, λ e. refl)
  any_default (a ∷ rows) =
      let ih = any_default rows in (λ e. ground (arith, ih), λ e. ground (arith, ih))

  promoted :
      (rows : List CustomerAddress)
      → defaults rows ≡ 0
      → (defaults (promote_oldest tenant customer kind rows) ≤ 1)
        × (1 ≤ addresses (promote_oldest tenant customer kind rows)
            → 1 ≤ defaults (promote_oldest tenant customer kind rows))
  unfolding defaults addresses promote_oldest
  promoted [] e = (omega arith, λ h. omega arith)
  promoted (a ∷ rows) e = elim (Bool-cases (is_of tenant customer kind a)) [
    | inl ours ↦ (ground arith, λ h. ground arith)
    | inr other ↦
        let ih = promoted rows (ground arith) in (ground (arith, ih.0), λ h. ground (arith, ih.1))
  ]

  pub ensure_default-IsSettled :
      (rows : List CustomerAddress)
      → defaults rows ≤ 1
      → IsSettled (ensure_default tenant customer kind rows)
  unfolding ensure_default
  ensure_default-IsSettled rows h =
      elim (Bool-cases (any (is_default_of tenant customer kind) rows)) [
        | inl there ↦
            rw there (record { at_most = h; some_default = λ n. (any_default rows).0 there })
        | inr nowhere ↦
            let p = promoted rows ((any_default rows).1 nowhere) in
            rw nowhere (record { at_most = p.0; some_default = p.1 })
      ]

  pub clear_default-none :
      (rows : List CustomerAddress) → defaults (clear_default tenant customer kind rows) ≡ 0
  unfolding defaults clear_default
  clear_default-none [] = refl
  clear_default-none (a ∷ rows) = ground (arith, clear_default-none rows)

  pub defaults-append :
      (rows : List CustomerAddress)
      → (a : CustomerAddress)
      → defaults (rows ++ (a ∷ []))
        ≡ defaults rows + (if is_default_of tenant customer kind a then 1 else 0)
  unfolding defaults
  defaults-append [] a = omega arith
  defaults-append (b ∷ rows) a = ground (arith, defaults-append rows a)

  pub defaults-filter :
      (p : CustomerAddress → Bool)
      → (rows : List CustomerAddress) → defaults (filter p rows) ≤ defaults rows
  unfolding defaults
  defaults-filter p [] = omega arith
  defaults-filter p (a ∷ rows) = ground (arith, defaults-filter p rows)

  undecided : (b : Bool) → let zero : ℕ = 0 in (if b && false then 1 else 0) ≡ zero
  undecided true = refl
  undecided false = refl

  single_default :
      (rows : List CustomerAddress)
      → (a : CustomerAddress) → defaults rows ≡ 0
      → defaults (rows ++ (a ∷ [])) ≤ 1
  single_default rows a none_left = elim (Bool-cases (is_default_of tenant customer kind a)) [
    | inl chosen ↦ rw (defaults-append rows a, none_left, chosen) (omega arith)
    | inr plain ↦ rw (defaults-append rows a, none_left, plain) (omega arith)
  ]

  pub added_row :
      (id : ℕ)
      → (wanted : Bool) → (rows : List CustomerAddress) → defaults rows ≤ 1
      → defaults (
          make_way wanted tenant customer kind rows
          ++ (new_address id tenant customer kind wanted ∷ []))
        ≤ 1
  unfolding make_way new_address
  added_row id true rows before = single_default _ _ (clear_default-none rows)
  added_row id false rows before = rw (defaults-append rows _, undecided _) (omega (arith, before))
