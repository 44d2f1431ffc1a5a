-- ===== src/Orders/Changing/Cancelling.antt =====
-- What `cancel` does to the stock.
use Prim.Native.String.{String}
use backend_pluseops.Base.{
  ℕ, ◌+◌, ◌≡◌, ◌≢◌, ◌∙◌, inl, inr, refl, sym, ap, List, [], ◌∷◌, Option, some, ok, Ensures,
  Ensures-follow, Ensures-ok, Ensures-mono, arith, if◌then◌else◌, Option-cases, Ensures-raise_if,
  not, cancellation_not_allowed, already_cancelled, get_or, given_text, nat_eq, ◌==◌,
}
use backend_pluseops.Base.Lists.{filter, sum_of, All}
use backend_pluseops.Base.Tables.{quantity, lookup}
use backend_pluseops.Base.Int.{abs}
use backend_pluseops.Stock.{
  Key, key_eq, key_iff, key_instance, Movement, Stock, write_both, record_movement,
}
use backend_pluseops.Stock.Ledger.{IsAccounted, quantity-upsert, post-IsAccounted}
use backend_pluseops.Db.{Line, Db, Order, OrderStatus, HistoryEntry, on_stock, on_stock-eq}
use backend_pluseops.Orders.Status.{includes, index, cancellable_statuses}
use backend_pluseops.Orders.Changing.{
  reserved_for, restore_movement, restore_movements, restore_item, restore_items, restore_rows,
  restore_found, release, cancel, get_by_id, order_of, cancel_tx,
}
use backend_pluseops.Orders.Changing.Updating.{Changed, set_status-Changed}

-- What a movement took from a row.
abbrev pub taken_by : Key → Movement → ℕ
taken_by k m = if key_eq m.key k then abs m.quantity_changed else 0

-- The stock has `gain` more in each row, with movements that account for it; the reservations on
-- record are the ones there were.
pub record Restored (gain : Key → ℕ) (s s' : Stock) : Type 0 where
  pub gained : (k : Key) → quantity k s'.inventory ≡ quantity k s.inventory + gain k
  pub books : (opening : Key → ℕ) → IsAccounted opening s → IsAccounted opening s'
  pub reservations :
      (tenant id variant : ℕ)
      → filter (reserved_for tenant id variant) s'.movements
        ≡ filter (reserved_for tenant id variant) s.movements

module _ (tenant id : ℕ) (s : Stock) where
  -- The item was reserved by movements.
  abbrev pub HasMovements : Line → Type 0
  HasMovements item = filter (reserved_for tenant id item.variant) s.movements ≢ []

  -- What the movements of an item took from a row.
  abbrev pub taken_for : Key → Line → ℕ
  taken_for k item = sum_of (taken_by k) (filter (reserved_for tenant id item.variant) s.movements)

Restored-follow :
    (f g h : Key → ℕ) (s t u : Stock)
    → Restored f s t
    → Restored g t u
    → ((k : Key) → h k ≡ f k + g k)
    → Restored h s u
Restored-follow f g h s t u a b e = record {
  gained = λ k. omega (arith, a.gained k, b.gained k, e k);
  books = λ opening v. b.books opening (a.books opening v);
  reservations =
      λ tenant id variant. b.reservations tenant id variant ∙ a.reservations tenant id variant;
}

module _ (user id : ℕ) (reason : String) where
  write-Restored :
      (m : Movement) (s : Stock)
      → let before = quantity m.key s.inventory in
        let amount = abs m.quantity_changed in
        Restored
          (λ k. taken_by k m)
          s
          (record_movement
            (release m.key before amount id reason user)
            (write_both m.key (before + amount) s))
  unfolding write_both record_movement reserved_for
  write-Restored m s =
      let before = quantity m.key s.inventory in
      let amount = abs m.quantity_changed in
      record {
        gained = λ k.
            ground (arith, key_iff m.key k, quantity-upsert m.key k (before + amount) s.inventory);
        books = λ opening v.
            post-IsAccounted (release m.key before amount id reason user) v (omega arith);
        reservations = λ t i v. ground arith;
      }

  restore_rows-eq :
      (k : Key) (n : ℕ) (s t : Stock) → restore_rows k n s ≡ ok (tt, t) → t ≡ write_both k n s
  unfolding restore_rows
  restore_rows-eq k n s t e = elim (Option-cases (lookup k s.inventory)) [
    | inl gone ↦ ground arith
    | inr (q, found) ↦ ground arith
  ]

  restore_movement-Restored :
      (m : Movement) (s : Stock)
      → Ensures (λ _ s'. Restored (λ k. taken_by k m) s s') (restore_movement user id reason m s)
  unfolding restore_movement
  restore_movement-Restored m s =
      let after = quantity m.key s.inventory + abs m.quantity_changed in
      Ensures-follow _ (restore_rows m.key after s) _
        λ x t e. rw (restore_rows-eq m.key after s t e) (write-Restored m s)

  restore_movements-Restored :
      (ms : List Movement) (s : Stock)
      → Ensures
          (λ _ s'. Restored (λ k. sum_of (taken_by k) ms) s s')
          (restore_movements user id reason ms s)
  unfolding restore_movements
  restore_movements-Restored [] s = record {
    gained = λ k. omega arith;
    books = λ o v. v;
    reservations = λ t i v. refl;
  }
  restore_movements-Restored (m ∷ ms) s =
      Ensures-follow _ (restore_movement user id reason m s) _ λ x t e.
        Ensures-mono _ _ (restore_movements user id reason ms t) (restore_movements-Restored ms t)
          (λ y u r.
            Restored-follow _ _ _ s t u
              (Ensures-ok _ (restore_movement user id reason m s) x t
                (restore_movement-Restored m s) e)
              r (λ k. refl))

  module _ (tenant : ℕ) where
    found-Restored :
        (item : Line) (ms : List Movement) (s : Stock)
        → ms ≢ []
        → Ensures
            (λ _ s'. Restored (λ k. sum_of (taken_by k) ms) s s')
            (restore_found tenant user id reason item ms s)
    unfolding restore_found
    found-Restored item [] s h = elim (h refl) [ ]
    found-Restored item (m ∷ ms) s h = restore_movements-Restored (m ∷ ms) s

    restore_item-Restored :
        (item : Line) (s : Stock)
        → HasMovements tenant id s item
        → Ensures
            (λ _ s'.
              Restored
                (λ k.
                  sum_of (taken_by k) (filter (reserved_for tenant id item.variant) s.movements))
                s
                s')
            (restore_item tenant user id reason item s)
    unfolding restore_item
    restore_item-Restored item s h =
        found-Restored item (filter (reserved_for tenant id item.variant) s.movements) s h

    restore_items-Restored :
        (items : List Line) (s t : Stock)
        → ((variant : ℕ)
            → filter (reserved_for tenant id variant) t.movements
              ≡ filter (reserved_for tenant id variant) s.movements)
        → All (HasMovements tenant id s) items
        → Ensures
            (λ _ u. Restored (λ k. sum_of (taken_for tenant id s k) items) t u)
            (restore_items tenant user id reason items t)
    unfolding restore_items
    restore_items-Restored [] s t same h = record {
      gained = λ k. omega arith;
      books = λ o v. v;
      reservations = λ t i v. refl;
    }
    restore_items-Restored (item ∷ items) s t same h =
        let first = restore_item-Restored item t (λ e. h.0 (sym (same item.variant) ∙ e)) in
        Ensures-follow _ (restore_item tenant user id reason item t) _ λ x u e.
          let r = Ensures-ok _ (restore_item tenant user id reason item t) x u first e in
          Ensures-mono _ _ (restore_items tenant user id reason items u)
            (restore_items-Restored items s u (λ v. r.reservations tenant id v ∙ same v) h.1)
            (λ y w q. Restored-follow _ _ _ t u w r q (λ k. rw (same item.variant) refl))

-- What a cancellation leaves.
record Undone (tenant id : ℕ) (o : Order) (s s' : Db) : Type 0 where
  pub stock : Restored (λ k. sum_of (taken_for tenant id s.stock k) o.items) s.stock s'.stock
  pub status : (c : Order) × (lookup id s'.orders ≡ some c) × (c.status ≡ OrderStatus.cancelled)
  pub history :
      (e : HistoryEntry) × (s'.history ≡ e ∷ s.history)
      × (e.from_status ≡ some o.status)
      × (e.to_status ≡ OrderStatus.cancelled)

cancel-Undone :
    (tenant user id : ℕ) (reason : Option String) (o : Order) (s : Db)
    → order_of tenant id s ≡ some o
    → All (HasMovements tenant id s.stock) o.items
    → Ensures (λ _ s'. Undone tenant id o s s') (cancel tenant user id reason s)
unfolding cancel get_by_id cancel_tx
cancel-Undone tenant user id reason o s found h =
    let note = get_or (given_text reason) "ORDER_CANCELLED" in
    let P : Unit {0} → Db → Type 0 = λ _ s'. Undone tenant id o s s' in
    rw found (
      Ensures-raise_if P (not (includes cancellable_statuses o.status)) cancellation_not_allowed _ s
        λ c.
          Ensures-raise_if P (index o.status == index OrderStatus.cancelled) already_cancelled _ s
            λ d.
              Ensures-follow P (on_stock (restore_items tenant user id note o.items) s) _ λ x t e.
                let took = on_stock-eq (restore_items tenant user id note o.items) s x t e in
                Ensures-mono (λ _ s'. Changed id o.status OrderStatus.cancelled t s') P _
                  (set_status-Changed tenant user id o.status OrderStatus.cancelled
                    (some (get_or (given_text reason) "Order cancelled")) "order.cancel" t)
                  (λ y u changed. record {
                    stock = rw changed.stock (
                        Ensures-ok _ _ x t.stock
                          (restore_items-Restored user id note tenant o.items s.stock s.stock
                            (λ v. refl) h)
                          took.0);
                    status = changed.status;
                    history = (
                      changed.history.0,
                      changed.history.1 ∙ ap (λ (w : Db). changed.history.0 ∷ w.history) took.1,
                      changed.history.3,
                      changed.history.4,
                    );
                  }))

-- The rows have what the movements of each item took, the order is CANCELLED, and the history has a
-- new entry from the status it had.
pub record Cancelled (tenant id : ℕ) (o : Order) (s s' : Db) : Type 0 where
  pub gained :
      (k : Key)
      → quantity k s'.stock.inventory
        ≡ quantity k s.stock.inventory + sum_of (taken_for tenant id s.stock k) o.items
  pub status : (c : Order) × (lookup id s'.orders ≡ some c) × (c.status ≡ OrderStatus.cancelled)
  pub history :
      (e : HistoryEntry) × (s'.history ≡ e ∷ s.history)
      × (e.from_status ≡ some o.status)
      × (e.to_status ≡ OrderStatus.cancelled)

module _ (tenant user id : ℕ) (reason : Option String) (o : Order) (s : Db)
    (found : order_of tenant id s ≡ some o)
    (reserved : All (HasMovements tenant id s.stock) o.items) where
  -- An order whose items were reserved by movements, once cancelled, has given back to every row
  -- what the movements of each of its items took from it; the order is CANCELLED, and the history
  -- has a new entry from the status it had.
  pub cancel-Cancelled :
      Ensures (λ _ s'. Cancelled tenant id o s s') (cancel tenant user id reason s)
  cancel-Cancelled =
      Ensures-mono (λ _ s'. Undone tenant id o s s') _ (cancel tenant user id reason s)
        (cancel-Undone tenant user id reason o s found reserved)
        (λ x t u. record { gained = u.stock.gained; status = u.status; history = u.history })

  -- Cancelling an order whose items were reserved by movements leaves the movements accounting for
  -- the stock and the mirror in agreement, if they were before.
  pub cancel-IsAccounted :
      (opening : Key → ℕ)
      → IsAccounted opening s.stock
      → Ensures (λ _ s'. IsAccounted opening s'.stock) (cancel tenant user id reason s)
  cancel-IsAccounted opening v =
      Ensures-mono (λ _ s'. Undone tenant id o s s') _ (cancel tenant user id reason s)
        (cancel-Undone tenant user id reason o s found reserved) (λ x t u. u.stock.books opening v)
