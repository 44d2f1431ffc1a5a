-- ===== src/Orders/Changing/Succeeding.antt =====
-- When `cancel` of src/modules/orders/orders.service.js succeeds.
use Prim.Native.String.{String}
use backend_pluseops.Base.{
  ℕ, ◌+◌, ◌==◌, nat_eq, ◌≡◌, refl, sym, ap, ◌∙◌, inl, inr, Bool, true, false, List, [], ◌∷◌, Option,
  none, some, ok, err, Result, Tx, Succeeds, Succeeds-follow, arith, Bool-cases, Option-cases,
  is_ok, get_or, given_text,
}
use backend_pluseops.Base.Lists.{filter}
use backend_pluseops.Base.Tables.{quantity, lookup}
use backend_pluseops.Base.Int.{abs}
use backend_pluseops.Stock.{Key, key_instance, Movement, Stock, write_inventory}
use backend_pluseops.Db.{
  Line, Db, Order, OrderStatus, on_stock, draft, pending, confirmed, processing, shipped, delivered,
  cancelled, refunded, partially_refunded,
}
use backend_pluseops.Stock.Matching.{
  IsMatched, write_both-IsMatched, write_inventory-IsMatched, record_movement-IsMatched,
}
use backend_pluseops.Orders.Status.{includes, index, cancellable_statuses}
use backend_pluseops.Orders.Changing.{
  reserved_for, restore_movement, restore_movements, restore_item, restore_items, restore_rows,
  restore_found, restore_fallback, first_row, release, cancel, get_by_id, order_of, cancel_tx,
  set_status,
}

module _ (user id : ℕ) (reason : String) where
  restore_rows-IsMatched :
      (k : Key) (n : ℕ) (s : Stock) → IsMatched s → Succeeds IsMatched (restore_rows k n s)
  unfolding restore_rows IsMatched
  restore_rows-IsMatched k n s h = elim (Option-cases (lookup k s.inventory)) [
    | inr (q, found) ↦ rw (found, restore_rows) (write_both-IsMatched k n s h)
    | inl gone ↦ rw (gone, h k gone, restore_rows) (write_both-IsMatched k n s h)
  ]

  restore_movement-IsMatched :
      (m : Movement) (s : Stock)
      → IsMatched s
      → Succeeds IsMatched (restore_movement user id reason m s)
  unfolding restore_movement
  restore_movement-IsMatched m s h =
      let before = quantity m.key s.inventory in
      let amount = abs m.quantity_changed in
      Succeeds-follow IsMatched IsMatched (restore_rows m.key (before + amount) s) _
        (restore_rows-IsMatched m.key (before + amount) s h)
        (λ x t k. record_movement-IsMatched (release m.key before amount id reason user) t k)

  restore_movements-IsMatched :
      (ms : List Movement) (s : Stock)
      → IsMatched s
      → Succeeds IsMatched (restore_movements user id reason ms s)
  unfolding restore_movements
  restore_movements-IsMatched [] s h = h
  restore_movements-IsMatched (m ∷ ms) s h =
      Succeeds-follow IsMatched IsMatched (restore_movement user id reason m s) _
        (restore_movement-IsMatched m s h) (λ x t k. restore_movements-IsMatched ms t k)

  module _ (tenant : ℕ) where
    restore_fallback-IsMatched :
        (amount : ℕ) (o : Option (Key × ℕ)) (s : Stock)
        → IsMatched s
        → Succeeds IsMatched (restore_fallback user id reason amount o s)
    unfolding restore_fallback
    restore_fallback-IsMatched amount none s h = h
    restore_fallback-IsMatched amount (some r) s h =
        record_movement-IsMatched _ (write_inventory r.0 (r.1 + amount) s)
          (write_inventory-IsMatched r.0 (r.1 + amount) s h)

    restore_found-IsMatched :
        (item : Line) (ms : List Movement) (s : Stock)
        → IsMatched s
        → Succeeds IsMatched (restore_found tenant user id reason item ms s)
    unfolding restore_found
    restore_found-IsMatched item [] s h =
        restore_fallback-IsMatched item.quantity (first_row tenant item.variant s) s h
    restore_found-IsMatched item (m ∷ ms) s h = restore_movements-IsMatched (m ∷ ms) s h

    restore_items-IsMatched :
        (items : List Line) (s : Stock)
        → IsMatched s
        → Succeeds IsMatched (restore_items tenant user id reason items s)
    unfolding restore_items restore_item
    restore_items-IsMatched [] s h = h
    restore_items-IsMatched (item ∷ items) s h =
        Succeeds-follow IsMatched IsMatched (restore_item tenant user id reason item s) _
          (restore_found-IsMatched item (filter (reserved_for tenant id item.variant) s.movements) s
            h)
          (λ x t k. restore_items-IsMatched items t k)

-- Before the goods are on their way
abbrev pub is_unshipped : OrderStatus → Bool
is_unshipped draft = true
is_unshipped pending = true
is_unshipped confirmed = true
is_unshipped processing = true
is_unshipped _ = false

abbrev pub is_cancellable : Option Order → Bool
is_cancellable none = false
is_cancellable (some o) = is_unshipped o.status

includes-is_unshipped : (o : OrderStatus) → includes cancellable_statuses o ≡ is_unshipped o
includes-is_unshipped draft = refl
includes-is_unshipped pending = refl
includes-is_unshipped confirmed = refl
includes-is_unshipped processing = refl
includes-is_unshipped shipped = refl
includes-is_unshipped delivered = refl
includes-is_unshipped cancelled = refl
includes-is_unshipped refunded = refl
includes-is_unshipped partially_refunded = refl

not_cancelled :
    (o : OrderStatus)
    → includes cancellable_statuses o ≡ true
    → (index o == index OrderStatus.cancelled) ≡ false
not_cancelled o h = ground (arith, h)

stock_result-Succeeds :
    {A : Type 0} (P : Stock → Type 0) (s : Db) (r : Result (A × Stock))
    → Succeeds P r
    → Succeeds
        (λ t. P t.stock × (t.orders ≡ s.orders))
        (elim r [ ok q ↦ ok (q.0, record s { stock = q.1 }) | err e ↦ err e ])
stock_result-Succeeds P s (ok (a, t)) h = (h, refl)
stock_result-Succeeds P s (err e) h = elim h [ ]

Succeeds-on_stock :
    {A : Type 0} (P : Stock → Type 0) (m : Tx Stock A) (s : Db)
    → Succeeds P (m s.stock)
    → Succeeds (λ t. P t.stock × (t.orders ≡ s.orders)) (on_stock m s)
Succeeds-on_stock P m s h = stock_result-Succeeds P s (m s.stock) h

Succeeds-is_ok :
    {S A : Type 0} (P : S → Type 0) (r : Result (A × S)) → Succeeds P r → is_ok r ≡ true
Succeeds-is_ok P (ok r) h = refl
Succeeds-is_ok P (err e) h = elim h [ ]

module _ (tenant user id : ℕ) (reason : Option String) (s : Db) where
  cancel_tx-Succeeds :
      (o : Order)
      → order_of tenant id s ≡ some o
      → IsMatched s.stock
      → Succeeds (λ t. Unit) (cancel_tx o tenant user id reason s)
  unfolding cancel_tx set_status
  cancel_tx-Succeeds o found h =
      let note = get_or (given_text reason) "ORDER_CANCELLED" in
      let there : lookup id s.orders ≡ some o = ground (arith, found) in
      Succeeds-follow (λ t. IsMatched t.stock × (t.orders ≡ s.orders)) (λ t. Unit)
        (on_stock (restore_items tenant user id note o.items) s) _
        (Succeeds-on_stock IsMatched (restore_items tenant user id note o.items) s
          (restore_items-IsMatched user id note tenant o.items s.stock h))
        (λ x t k.
          Succeeds-follow (λ u. Unit) (λ u. Unit) (set_status id OrderStatus.cancelled t) _
            (rw (ap (lookup id) k.1 ∙ there, set_status) tt) (λ y u z. tt))

  -- Where every row of the warehouses has its row in the inventory, `cancel` succeeds exactly for an
  -- order of the tenant whose status is DRAFT, PENDING, CONFIRMED or PROCESSING.
  pub cancel-is_cancellable :
      IsMatched s.stock
      → is_ok (cancel tenant user id reason s) ≡ is_cancellable (order_of tenant id s)
  unfolding cancel get_by_id
  cancel-is_cancellable h = elim (Option-cases (order_of tenant id s)) [
    | inl gone ↦ rw gone refl
    | inr (o, found) ↦ elim (Bool-cases (includes cancellable_statuses o.status)) [
      | inr other ↦ rw (found, other) (sym other ∙ includes-is_unshipped o.status)
      | inl open_order ↦
          rw (found, open_order, not_cancelled o.status open_order)
            (Succeeds-is_ok (λ t. Unit) (cancel_tx o tenant user id reason s)
                (cancel_tx-Succeeds o found h)
              ∙ sym open_order
              ∙ includes-is_unshipped o.status)
    ]
  ]
