-- ===== src/Orders/Changing/Updating.antt =====
-- What `updateStatus` and the end of `cancel` do to the orders and their history.
use Prim.Native.String.{String}
use backend_pluseops.Base.{
  given_text, ℕ, ◌≡◌, refl, true, not, ◌∷◌, Option, some, ok, inl, inr, Ensures, Ensures-follow,
  Ensures-mono, Ensures-or_raise, Ensures-raise_if, ◌>>◌, arith, Option-cases, nat_eq,
  order_not_found, invalid_status_transition,
}
use backend_pluseops.Base.Tables.{lookup, lookup-upsert_self}
use backend_pluseops.Db.{Db, Order, OrderStatus, HistoryEntry, put_order, add_history, add_audit}
use backend_pluseops.Orders.Status.{is_valid_transition}
use backend_pluseops.Orders.Changing.{
  order_of, get_by_id, set_status, log_change, update_tx, update_status,
}

-- The order has the status, the stock is as before, and the history has one entry more, from the
-- status before.
pub record Changed (id : ℕ) (from to : OrderStatus) (s s' : Db) : Type 0 where
  pub status : (o : Order) × (lookup id s'.orders ≡ some o) × (o.status ≡ to)
  pub stock : s'.stock ≡ s.stock
  pub history :
      (h : HistoryEntry) × (s'.history ≡ h ∷ s.history)
      × (h.order_id ≡ id)
      × (h.from_status ≡ some from)
      × (h.to_status ≡ to)

pub set_status-eq :
    (id : ℕ) (to : OrderStatus) (s t : Db)
    → set_status id to s ≡ ok (tt, t)
    → (o : Order) × (t ≡ put_order id (record o { status = to }) s)
unfolding set_status
set_status-eq id to s t e = elim (Option-cases (lookup id s.orders)) [
  | inl gone ↦ ground arith
  | inr (o, found) ↦ (o, ground arith)
]

pub set_status-Changed :
    (tenant user id : ℕ) (from to : OrderStatus) (reason : Option String) (activity : String)
    (s : Db)
    → Ensures
        (λ _ s'. Changed id from to s s')
        ((set_status id to >> log_change tenant user id from to reason activity) s)
unfolding put_order log_change add_history add_audit
set_status-Changed tenant user id from to reason activity s =
    Ensures-follow _ (set_status id to s) _ λ x t e.
      let written = set_status-eq id to s t e in
      let changed = record written.0 { status = to } in
      rw written.1 (record {
        status = (changed, lookup-upsert_self id changed s.orders, refl);
        stock = refl;
        history = (_, refl, refl, refl, refl);
      })

-- The order that was found, the status it had, and what became of it.
abbrev pub Updated : ℕ → ℕ → OrderStatus → Db → Db → Type 0
Updated tenant id to s s' =
    (o : Order) × (order_of tenant id s ≡ some o)
    × (is_valid_transition (some o.status) to ≡ true)
    × Changed id o.status to s s'

-- A change of status that succeeds is of an order of the tenant and along an arrow of the table; the
-- order then has the status asked for, the history has one entry more, from the status it had, and
-- the stock is not touched.
pub update_status-Updated :
    (tenant user id : ℕ) (to : OrderStatus) (reason : Option String) (s : Db)
    → Ensures (λ _ s'. Updated tenant id to s s') (update_status tenant user id to reason s)
unfolding update_status get_by_id update_tx
update_status-Updated tenant user id to reason s =
    let P : Unit {0} → Db → Type 0 = λ _ s'. Updated tenant id to s s' in
    Ensures-or_raise P (order_of tenant id s) order_not_found _ s λ o found.
      Ensures-raise_if P (not (is_valid_transition (some o.status) to)) invalid_status_transition _
        s
        λ c.
          Ensures-mono (λ _ s'. Changed id o.status to s s') P _
            (set_status-Changed tenant user id o.status to (given_text reason) "order.status_update"
              s)
            (λ x t r. (o, found, ground (arith, c), r))
