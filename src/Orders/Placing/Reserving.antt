-- ===== src/Orders/Placing/Reserving.antt =====
-- What the two loops of `create` do to the stock.
use backend_pluseops.Base.{
  ℕ, ◌+◌, ◌-◌, ◌≤◌, ◌≡◌, refl, true, List, [], ◌∷◌, ok, err, Ensures, Ensures-follow, ap,
  Ensures-mono, Ensures-ok, insufficient_stock, ◌∙◌, ◌↔◌, leb, leb→le, Option-cases, Bool-cases,
  inl, inr, arith, if◌then◌else◌, is_ok, Result-cases,
}
use backend_pluseops.Base.Lists.{sum_of, All}
use backend_pluseops.Base.Tables.{Table, lookup, quantity}
use backend_pluseops.Base.Int.{pos, -ℤ_parts}
use backend_pluseops.Stock.{
  Movement, Key, key_eq, key_iff, key_instance, Stock, write_both, record_movement,
}
use backend_pluseops.Stock.Matching.{IsMatched, write_both-IsMatched}
use backend_pluseops.Stock.Ledger.{IsAccounted, quantity-upsert, moved_in, moved_out}
use backend_pluseops.Db.{Line}
use backend_pluseops.Orders.Placing.{
  line_key, reserve_line, reserve_lines, reservation, record_reservations,
}

module _ (tenant : ℕ) where
  -- The pieces that the lines want of a row.
  abbrev wanted : Key → Line → ℕ
  wanted k l = if key_eq (line_key tenant l) k then l.quantity else 0

  abbrev pub demand : Key → List Line → ℕ
  demand k lines = sum_of (wanted k) lines

  -- The pieces are off the shelf in both tables, and the movements are not yet written.
  pub record Reserved (lines : List Line) (s s' : Stock) : Type 0 where
    pub taken : (k : Key) → quantity k s'.inventory + demand k lines ≡ quantity k s.inventory
    pub mirror :
        ((k : Key) → quantity k s.warehouse_inventory ≡ quantity k s.inventory)
        → (k : Key) → quantity k s'.warehouse_inventory ≡ quantity k s'.inventory
    pub movements : s'.movements ≡ s.movements
    pub matched : IsMatched s → IsMatched s'

  write_both-Reserved :
      (l : Line) (s : Stock)
      → l.quantity ≤ quantity (line_key tenant l) s.inventory
      → Reserved
          (l ∷ [])
          s
          (write_both (line_key tenant l) (quantity (line_key tenant l) s.inventory - l.quantity) s)
  unfolding write_both
  write_both-Reserved l s enough =
      let k = line_key tenant l in
      let n = quantity k s.inventory - l.quantity in
      record {
        taken = λ j. ground (arith, key_iff k j, quantity-upsert k j n s.inventory);
        mirror = λ same j. ground (
          arith,
          same j,
          quantity-upsert k j n s.inventory,
          quantity-upsert k j n s.warehouse_inventory,
        );
        movements = refl;
        matched = write_both-IsMatched k n s;
      }

  -- A line is reserved exactly when its row has enough pieces.
  reserve_line_lem :
      (l : Line) (s : Stock)
      → 1 ≤ l.quantity
      → reserve_line tenant l s ≡ (
          if leb l.quantity (quantity (line_key tenant l) s.inventory)
          then ok (
            tt,
            write_both
                (line_key tenant l)
                (quantity (line_key tenant l) s.inventory - l.quantity)
                s,
          )
          else err insufficient_stock)
  unfolding reserve_line
  reserve_line_lem l s p = elim (Option-cases (lookup (line_key tenant l) s.inventory)) [
    | inl gone ↦ ground arith
    | inr (q, found) ↦ ground arith
  ]

  reserve_line-Reserved :
      (l : Line) (s : Stock)
      → 1 ≤ l.quantity
      → Ensures (λ _ s'. Reserved (l ∷ []) s s') (reserve_line tenant l s)
  reserve_line-Reserved l s p =
      let enough = leb l.quantity (quantity (line_key tenant l) s.inventory) in
      rw (reserve_line_lem l s p) (elim (Bool-cases enough) [
        | inl e ↦ rw e (write_both-Reserved l s (leb→le _ _ e))
        | inr e ↦ rw e tt
      ])

  Reserved-cons :
      (l : Line) (lines : List Line) (s t u : Stock)
      → Reserved (l ∷ []) s t
      → Reserved lines t u
      → Reserved (l ∷ lines) s u
  Reserved-cons l lines s t u a b = record {
    taken = λ k. omega (arith, a.taken k, b.taken k);
    mirror = λ same. b.mirror (a.mirror same);
    movements = b.movements ∙ a.movements;
    matched = λ h. b.matched (a.matched h);
  }

  -- All lines.
  pub reserve_lines-Reserved :
      (lines : List Line) (s : Stock)
      → All (λ (l : Line). 1 ≤ l.quantity) lines
      → Ensures (λ _ s'. Reserved lines s s') (reserve_lines tenant lines s)
  unfolding reserve_lines
  reserve_lines-Reserved [] s h = record {
    taken = λ k. omega arith;
    mirror = λ same. same;
    movements = refl;
    matched = λ h. h;
  }
  reserve_lines-Reserved (l ∷ lines) s h = Ensures-follow _ (reserve_line tenant l s) _ λ x t e.
      Ensures-mono _ _ (reserve_lines tenant lines t) (reserve_lines-Reserved lines t h.1) (λ y u r.
        Reserved-cons l lines s t u
          (Ensures-ok _ (reserve_line tenant l s) x t (reserve_line-Reserved l s h.0) e) r)

  reserve_lines_short :
      (lines : List Line) (s : Stock)
      → All (λ (l : Line). 1 ≤ l.quantity) lines
      → is_ok (reserve_lines tenant lines s) ≡ true
      → (k : Key) → demand k lines ≤ quantity k s.inventory
  reserve_lines_short lines s h done k = elim (Result-cases (reserve_lines tenant lines s)) [
    | inl ((x, t), e) ↦
        let r = Ensures-ok _ _ x t (reserve_lines-Reserved lines s h) e in omega (arith, r.taken k)
    | inr (x, e) ↦ cc
  ]

  reserve_lines_total :
      (lines : List Line) (s : Stock)
      → All (λ (l : Line). 1 ≤ l.quantity) lines
      → ((k : Key) → demand k lines ≤ quantity k s.inventory)
      → is_ok (reserve_lines tenant lines s) ≡ true
  unfolding reserve_lines
  reserve_lines_total [] s h enough = refl
  reserve_lines_total (l ∷ lines) s h enough =
      let k = line_key tenant l in
      let fits : l.quantity ≤ quantity k s.inventory = ground (arith, enough k, key_iff k k) in
      let t = write_both k (quantity k s.inventory - l.quantity) s in
      let r = write_both-Reserved l s fits in
      let ih = reserve_lines_total lines t h.1 (λ j. omega (arith, r.taken j, enough j)) in
      ground (arith, reserve_line_lem l s h.0, ih)

  -- The reservation goes through exactly when every row has the pieces that all lines together
  -- want of it.
  pub reserve_lines-enough :
      (lines : List Line) (s : Stock)
      → All (λ (l : Line). 1 ≤ l.quantity) lines
      → (is_ok (reserve_lines tenant lines s) ≡ true)
        ↔ ((k : Key) → demand k lines ≤ quantity k s.inventory)
  reserve_lines-enough lines s h = (reserve_lines_short lines s h, reserve_lines_total lines s h)

  -- The movements take the demand of every row out of the books.
  pub record Booked (lines : List Line) (s s' : Stock) : Type 0 where
    pub inventory : s'.inventory ≡ s.inventory
    pub warehouse_inventory : s'.warehouse_inventory ≡ s.warehouse_inventory
    pub came_in : (k : Key) → moved_in k s' ≡ moved_in k s
    pub went_out : (k : Key) → moved_out k s' ≡ moved_out k s + demand k lines

  pub record_reservations-Booked :
      (user order_id : ℕ) (lines : List Line) (s : Stock)
      → Booked lines s (record_reservations tenant user order_id lines s)
  unfolding record_reservations record_movement
  record_reservations-Booked user order_id [] s = record {
    inventory = refl;
    warehouse_inventory = refl;
    came_in = λ k. refl;
    went_out = λ k. omega arith;
  }
  record_reservations-Booked user order_id (l ∷ lines) s =
      let m = reservation tenant user order_id l s in
      let t = record_movement m s in
      let ih = record_reservations-Booked user order_id lines t in
      record {
        inventory = ih.inventory;
        warehouse_inventory = ih.warehouse_inventory;
        came_in = λ k. ground (arith, ih.came_in k, -ℤ_parts (pos 0) (pos l.quantity));
        went_out = λ k. ground (arith, ih.went_out k, -ℤ_parts (pos 0) (pos l.quantity));
      }

  -- Both loops together keep the books.
  pub reserve-IsAccounted :
      {opening : Key → ℕ} {lines : List Line} {s t u : Stock}
      → IsAccounted opening s
      → Reserved lines s t
      → Booked lines t u
      → IsAccounted opening u
  reserve-IsAccounted {opening} {lines} {s} {t} {u} v r b = record {
    ledger = λ k. omega (
      arith,
      v.ledger k,
      r.taken k,
      b.came_in k,
      b.went_out k,
      ap (λ (x : Table Key ℕ). quantity k x) b.inventory,
      ap (λ (x : List Movement). moved_in k (record s { movements = x })) r.movements,
      ap (λ (x : List Movement). moved_out k (record s { movements = x })) r.movements,
    );
    mirror = λ k. rw (b.inventory, b.warehouse_inventory) (r.mirror v.mirror k);
  }
