-- ===== src/Orders/Placing/Returned.antt =====
-- An order that is placed and then cancelled gives back what it took.
use Prim.Native.String.{String}
use backend_pluseops.Base.{
  ℕ, ◌+◌, ◌≡◌, refl, ap, ◌∙◌, Option, some, List, [], ◌∷◌, ok, Ensures, Ensures-ok, Ensures-follow,
  pure, arith, nat_eq, pair_eq, ==_iff, get_or, Result, err, is_ok, true,
}
use backend_pluseops.Base.Lists.{filter, sum_of, All}
use backend_pluseops.Base.Tables.{quantity, lookup, lookup-upsert_self}
use backend_pluseops.Stock.{Key, key_instance, Stock, record_movement}
use backend_pluseops.Db.{
  Db, Line, Order, OrderStatus, on_stock, on_stock-eq, put_order, add_history, add_audit,
}
use backend_pluseops.Orders.Planning.{OrderPlan}
use backend_pluseops.Orders.Placing.{
  reservation, record_reservations, reserve_lines, place_tx, new_order, next_invoice,
}
use backend_pluseops.Orders.Placing.Reserving.{
  Reserved, demand, reserve_lines-Reserved, record_reservations-Booked,
}
use backend_pluseops.Orders.Placing.Recorded.{
  IsDistinct, IsUnreserved, recorded-demand, recorded-HasMovements,
}
use backend_pluseops.Orders.Placing.Placed.{HasPieces}
use backend_pluseops.Orders.Changing.{reserved_for, order_of, cancel}
use backend_pluseops.Stock.Matching.{IsMatched, record_movement-IsMatched}
use backend_pluseops.Orders.Changing.Succeeding.{
  is_unshipped, is_cancellable, cancel-is_cancellable,
}
use backend_pluseops.Orders.Changing.Cancelling.{taken_for, HasMovements, cancel-Cancelled}

-- What `create` leaves, seen by `cancel`.
record Placed (plan : OrderPlan) (user : ℕ) (s : Db) (id : ℕ) (t : Db) : Type 0 where
  pub before : Stock
  pub reserved : Reserved plan.tenant plan.lines s.stock before
  pub stock : t.stock ≡ record_reservations plan.tenant user id plan.lines before
  pub new_id : id ≡ s.next_id
  pub order : Order
  pub found : order_of plan.tenant id t ≡ some order
  pub items : order.items ≡ plan.lines
  pub status : order.status ≡ OrderStatus.pending

place_tx-Placed :
    (plan : OrderPlan) (user year : ℕ) (s : Db)
    → HasPieces plan.lines
    → Ensures (Placed plan user s) (place_tx plan user year (λ id o. pure tt) s)
unfolding place_tx put_order add_history add_audit next_invoice
place_tx-Placed plan user year s h =
    Ensures-follow (Placed plan user s) (on_stock (reserve_lines plan.tenant plan.lines) s) _
      λ x t e.
        let took = on_stock-eq (reserve_lines plan.tenant plan.lines) s x t e in
        let order = new_order plan year (get_or (lookup (plan.tenant, year) t.sequences) 0 + 1) in
        record {
          before = t.stock;
          reserved =
              Ensures-ok _ _ x t.stock (reserve_lines-Reserved plan.tenant plan.lines s.stock h)
                took.0;
          stock = refl;
          new_id = ap (λ (w : Db). w.next_id) took.1;
          order = order;
          found =
              ground (
                arith,
                lookup-upsert_self t.next_id order t.orders,
                ==_iff plan.tenant plan.tenant,
              );
          items = refl;
          status = refl;
        }

record_reservations-IsMatched :
    (tenant user id : ℕ) (lines : List Line) (s : Stock)
    → IsMatched s
    → IsMatched (record_reservations tenant user id lines s)
unfolding record_reservations
record_reservations-IsMatched tenant user id [] s h = h
record_reservations-IsMatched tenant user id (l ∷ lines) s h =
    record_reservations-IsMatched tenant user id lines
      (record_movement (reservation tenant user id l s) s)
      (record_movement-IsMatched (reservation tenant user id l s) s h)

-- A result that is not an error
is_ok-value : (r : Result (Unit {0} × Db)) → is_ok r ≡ true → (u : Db) × (r ≡ ok (tt, u))
is_ok-value (ok (tt, u)) h = (u, refl)
is_ok-value (err e) h = cc

given_back :
    (plan : OrderPlan) (user year other : ℕ) (reason : Option String) (s : Db) (id : ℕ) (t u : Db)
    → HasPieces plan.lines
    → IsDistinct plan.lines
    → IsUnreserved plan.tenant s.next_id s.stock
    → place_tx plan user year (λ id o. pure tt) s ≡ ok (id, t)
    → cancel plan.tenant other id reason t ≡ ok (tt, u)
    → (k : Key) → quantity k u.stock.inventory ≡ quantity k s.stock.inventory
unfolding IsUnreserved
given_back plan user year other reason s id t u pieces distinct unreserved placing cancelling k =
    let p =
      Ensures-ok (Placed plan user s) _ id t (place_tx-Placed plan user year s pieces) placing in
    let tenant = plan.tenant in
    let lines = plan.lines in
    let clean : IsUnreserved tenant id p.before = λ v.
      rw p.new_id
        (ap (filter (reserved_for tenant s.next_id v)) p.reserved.movements ∙ unreserved v) in
    let there : All (HasMovements tenant id t.stock) p.order.items =
      rw (p.items, p.stock) (recorded-HasMovements tenant user id lines p.before pieces) in
    let c =
      Ensures-ok _ _ tt u (cancel-Cancelled tenant other id reason p.order t p.found there)
        cancelling in
    let back : sum_of (taken_for tenant id t.stock k) p.order.items ≡ demand tenant k lines =
      rw (p.items, p.stock) (recorded-demand tenant user id lines p.before k distinct clean) in
    let shelf : quantity k t.stock.inventory ≡ quantity k p.before.inventory =
      ap (λ (w : Stock). quantity k w.inventory) p.stock
      ∙ ap (quantity k) (record_reservations-Booked tenant user id lines p.before).inventory in
    omega (arith, c.gained k, back, shelf, p.reserved.taken k)

-- An order of lines on different variants, placed under an id that no reservation on record has, and
-- cancelled at once, where every row of the warehouses has its row in the inventory: if it could be
-- placed, it can be cancelled, and then every row of the inventory has what it had before the order.
pub cancel-place_tx :
    (plan : OrderPlan) (user year other : ℕ) (reason : Option String) (s : Db) (id : ℕ) (t : Db)
    → HasPieces plan.lines
    → IsDistinct plan.lines
    → IsUnreserved plan.tenant s.next_id s.stock
    → IsMatched s.stock
    → place_tx plan user year (λ id o. pure tt) s ≡ ok (id, t)
    → (u : Db) × (cancel plan.tenant other id reason t ≡ ok (tt, u))
      × ((k : Key) → quantity k u.stock.inventory ≡ quantity k s.stock.inventory)
cancel-place_tx plan user year other reason s id t pieces distinct unreserved matched placing =
    let p =
      Ensures-ok (Placed plan user s) _ id t (place_tx-Placed plan user year s pieces) placing in
    let shelved : IsMatched t.stock = rw p.stock (
      record_reservations-IsMatched plan.tenant user id plan.lines p.before
        (p.reserved.matched matched)) in
    let done = is_ok-value (cancel plan.tenant other id reason t) (
      cancel-is_cancellable plan.tenant other id reason t shelved
      ∙ ap is_cancellable p.found
      ∙ ap is_unshipped p.status) in
    (
      done.0,
      done.1,
      given_back plan user year other reason s id t done.0 pieces distinct unreserved placing
          done.1,
    )
