-- ===== src/Stock/Ledger.antt =====
-- The invariant of the stock tables, and how each write moves it.
use backend_pluseops.Base.{ℕ, ◌+◌, ◌≡◌, arith, if◌then◌else◌}
use backend_pluseops.Base.Lists.{sum_of}
use backend_pluseops.Base.Tables.{Table, upsert, quantity, lookup-upsert}
use backend_pluseops.Base.Int.{pos_part, neg_part}
use backend_pluseops.Stock.{
  key_instance, Key, key_eq, key_iff, Movement, Stock, write_both, record_movement,
}

-- What the movements of a key have brought in, and taken out.
abbrev inflow : Key → Movement → ℕ
inflow k m = if key_eq m.key k then pos_part m.quantity_changed else 0

abbrev outflow : Key → Movement → ℕ
outflow k m = if key_eq m.key k then neg_part m.quantity_changed else 0

abbrev pub moved_in : Key → Stock → ℕ
moved_in k s = sum_of (inflow k) s.movements

abbrev pub moved_out : Key → Stock → ℕ
moved_out k s = sum_of (outflow k) s.movements

-- The movements account for the stock of every key, from what it had at the start, and the mirror
-- has the quantities of the inventory.
pub record IsAccounted (opening : Key → ℕ) (s : Stock) : Type 0 where
  pub ledger : (k : Key) → quantity k s.inventory + moved_out k s ≡ opening k + moved_in k s
  pub mirror : (k : Key) → quantity k s.warehouse_inventory ≡ quantity k s.inventory

-- The quantity of a key after a write.
pub quantity-upsert :
    (k j : Key) (n : ℕ) (t : Table Key ℕ)
    → quantity j (upsert k n t) ≡ (if key_eq k j then n else quantity j t)
quantity-upsert k j n t = ground (arith, lookup-upsert k j n t)

-- A write of both tables with a movement of the same size keeps the invariant.
pub post-IsAccounted :
    {opening : Key → ℕ} {s : Stock} (m : Movement)
    → IsAccounted opening s
    → quantity m.key s.inventory + pos_part m.quantity_changed
      ≡ m.quantity_after + neg_part m.quantity_changed
    → IsAccounted opening (record_movement m (write_both m.key m.quantity_after s))
unfolding record_movement write_both
post-IsAccounted {opening} {s} m v e = record {
  ledger = λ k.
      ground
        (arith, v.ledger k, key_iff m.key k, quantity-upsert m.key k m.quantity_after s.inventory);
  mirror = λ k. ground (
    arith,
    v.mirror k,
    quantity-upsert m.key k m.quantity_after s.inventory,
    quantity-upsert m.key k m.quantity_after s.warehouse_inventory,
  );
}
