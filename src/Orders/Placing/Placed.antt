-- ===== src/Orders/Placing/Placed.antt =====
-- What `create` of src/modules/orders/orders.service.js leaves in the database.
use backend_pluseops.Base.{
  customer_not_found, ℕ, ◌≤◌, ◌≡◌, refl, List, [], ◌∷◌, ok, Tx, Ensures, Ensures-follow,
  Ensures-mono, Ensures-ok, arith,
}
use backend_pluseops.Base.Lists.{All}
use backend_pluseops.Base.Checks.{require, Holds, Holds-bind, Holds-ok, lift, lift-eq}
use backend_pluseops.Stock.{Key, key_instance, Stock}
use backend_pluseops.Stock.Ledger.{IsAccounted}
use backend_pluseops.Catalog.{Variant}
use backend_pluseops.Db.{on_stock, on_stock-eq, Db, Order, Line, put_order, add_history, add_audit}
use backend_pluseops.Retry.{Faults}
use backend_pluseops.Retry.Laws.{execute-Ensures}
use backend_pluseops.Orders.Pricing.{
  Item, Terms, Totals, price_line, no_totals, add_line, price_items, figure_line,
}
use backend_pluseops.Plans.{assert_within_plan}
use backend_pluseops.Orders.Planning.{
  AddressType, resolve_order_address, find_variants, check_warehouses, Reads, OrderRequest,
  OrderPlan, plan_order,
}
use backend_pluseops.Orders.Placing.{reserve_lines, next_invoice, place_tx, create}
use backend_pluseops.Orders.Placing.Reserving.{
  Reserved, Booked, reserve_lines-Reserved, record_reservations-Booked, reserve-IsAccounted,
}

-- Every line wants a piece at least.
abbrev pub HasPieces : List Line → Type 0
HasPieces = All (λ (l : Line). 1 ≤ l.quantity)

price_line-pieces :
    (terms : Terms) (item : Item) (v : Variant) (l : Line)
    → price_line terms item v ≡ ok l
    → 1 ≤ l.quantity
unfolding price_line figure_line
price_line-pieces terms item v l h = ground arith

price_items-HasPieces :
    (terms : Terms) (t : Totals) (items : List (Item × Variant))
    → Holds (λ r. HasPieces r.1) (price_items terms t items)
unfolding price_items
price_items-HasPieces terms t [] = tt
price_items-HasPieces terms t ((item, v) ∷ items) =
    Holds-bind _ (price_line terms item v) _ λ l priced.
      Holds-bind _ (price_items terms (add_line t l) items) _ λ r e. (
        price_line-pieces terms item v l priced,
        Holds-ok _ _ r (price_items-HasPieces terms (add_line t l) items) e,
      )

-- A plan is of the tenant that asks, and its lines are the priced items, in the order given.
abbrev IsPlanned : ℕ → OrderPlan → Type 0
IsPlanned tenant plan =
    HasPieces plan.lines
    × (plan.tenant ≡ tenant)
    × ((terms : Terms) × (items : List (Item × Variant)) × (price_items terms no_totals items
          ≡ ok (plan.totals, plan.lines)))

plan_order-IsPlanned :
    (reads : Reads) (tenant : ℕ) (body : OrderRequest)
    → Holds (IsPlanned tenant) (plan_order reads tenant body)
unfolding plan_order
plan_order-IsPlanned reads tenant body =
    let P = IsPlanned tenant in
    let kind_check = resolve_order_address reads body.customer_id tenant in
    Holds-bind P (require (reads.customer tenant body.customer_id) customer_not_found) _
      λ customer _.
        Holds-bind P
          (assert_within_plan (reads.order_limit tenant) (reads.orders_this_month tenant)) _
          λ within _.
            Holds-bind P (kind_check AddressType.shipping body.shipping_address_id) _ λ ship_to _.
              Holds-bind P (kind_check AddressType.billing body.billing_address_id) _ λ bill_to _.
                Holds-bind P (find_variants reads.catalog tenant body.items) _ λ found _.
                  Holds-bind P (check_warehouses reads.catalog tenant body.items) _ λ stored _.
                    Holds-bind P (price_items _ no_totals found) _ λ priced e. (
                      Holds-ok _ _ priced (price_items-HasPieces _ no_totals found) e,
                      refl,
                      (_, found, e),
                    )

-- The hook touches neither the stock, nor the orders and invoice numbers.
pub record IsApart (hook : ℕ → Order → Tx Db Unit) : Type 0 where
  pub stock : (id : ℕ) (o : Order) (s : Db) → Ensures (λ _ s'. s'.stock ≡ s.stock) (hook id o s)

module _ (plan : OrderPlan) (user year : ℕ) (hook : ℕ → Order → Tx Db Unit) (apart : IsApart hook)
    (s : Db) where
  -- The stock after `create`: the pieces of the lines are off the shelf and in the books.
  abbrev Sold : ℕ → Db → Type 0
  Sold id s' =
      (t : Stock) × Reserved plan.tenant plan.lines s.stock t
      × Booked plan.tenant plan.lines t s'.stock

  place_tx-Sold : HasPieces plan.lines → Ensures Sold (place_tx plan user year hook s)
  unfolding place_tx put_order add_history add_audit next_invoice
  place_tx-Sold h = Ensures-follow _ (on_stock (reserve_lines plan.tenant plan.lines) s) _ λ x t e.
      let took = (on_stock-eq (reserve_lines plan.tenant plan.lines) s x t e).0 in
      Ensures-follow _ (hook t.next_id _ _) _ λ y u f. (
        t.stock,
        Ensures-ok _ _ x t.stock (reserve_lines-Reserved plan.tenant plan.lines s.stock h) took,
        rw (Ensures-ok _ (hook t.next_id _ _) y u (apart.stock t.next_id _ _) f)
            (record_reservations-Booked plan.tenant user t.next_id plan.lines t.stock),
      )

-- Where the movements account for the stock and the mirror agrees with it, and the hook leaves the
-- stock alone, the same holds after an order that is placed, whichever attempts the database aborts.
pub create-IsAccounted :
    (opening : Key → ℕ) (reads : Reads) (faults : Faults) (tenant user year : ℕ)
    (body : OrderRequest) (hook : ℕ → Order → Tx Db Unit) (s : Db)
    → IsApart hook
    → IsAccounted opening s.stock
    → Ensures
        (λ _ s'. IsAccounted opening s'.stock)
        (create reads faults tenant user year body hook s)
unfolding create
create-IsAccounted opening reads faults tenant user year body hook s apart v =
    let P : ℕ → Db → Type 0 = λ _ s'. IsAccounted opening s'.stock in
    Ensures-follow P (lift (plan_order reads tenant body) s) _ λ plan t e.
      let planned = lift-eq (plan_order reads tenant body) s plan t e in
      let known = Holds-ok _ _ plan (plan_order-IsPlanned reads tenant body) planned.0 in
      let m = place_tx plan user year hook in
      rw planned.1 (
        execute-Ensures faults m s P (
          Ensures-mono _ P (m s) (place_tx-Sold plan user year hook apart s known.0)
            (λ id s' sold. reserve-IsAccounted plan.tenant v sold.1 sold.2)))
