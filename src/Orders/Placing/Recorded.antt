-- ===== src/Orders/Placing/Recorded.antt =====
-- What the reservations on record for an order took.
use backend_pluseops.Base.{
  ℕ, ◌+◌, ◌≤◌, ◌≡◌, refl, ap, ◌∙◌, false, List, [], ◌∷◌, arith, if◌then◌else◌, Bool-cases, inl, inr,
  nat_eq, pair_eq, ◌==◌,
}
use backend_pluseops.Base.Lists.{filter, sum_of, All, All-mono}
use backend_pluseops.Base.Int.{pos, -ℤ_parts}
use backend_pluseops.Stock.{Key, key_eq, key_iff, key_instance, Movement, Stock, record_movement}
use backend_pluseops.Db.{Line}
use backend_pluseops.Orders.Placing.{line_key, reservation, record_reservations}
use backend_pluseops.Orders.Placing.Reserving.{demand}
use backend_pluseops.Orders.Placing.Placed.{HasPieces}
use backend_pluseops.Orders.Changing.{reserved_for}
use backend_pluseops.Orders.Changing.Cancelling.{taken_by, taken_for, HasMovements}

module _ (tenant : ℕ) where
  -- What a line wants of a row, if it is of a variant.
  unfoldable pub wants : ℕ → Key → Line → ℕ
  wants v k l =
      if l.variant == v then (if key_eq (line_key tenant l) k then l.quantity else 0) else 0

  module _ (user id : ℕ) where
    reservation-found :
        (v : ℕ) (l : Line) (s : Stock)
        → reserved_for tenant id v (reservation tenant user id l s) ≡ (l.variant == v)
    unfolding reserved_for reservation
    reservation-found v l s = ground arith

    reservation-takes :
        (k : Key) (l : Line) (s : Stock)
        → taken_by k (reservation tenant user id l s)
          ≡ (if key_eq (line_key tenant l) k then l.quantity else 0)
    unfolding reservation
    reservation-takes k l s = ground (arith, -ℤ_parts (pos 0) (pos l.quantity))

    -- What the reservations on record for a variant took, after the loop that records them.
    recorded-takes :
        (v : ℕ) (k : Key) (lines : List Line) (s : Stock)
        → sum_of (taken_by k) (
            filter
              (reserved_for tenant id v)
              (record_reservations tenant user id lines s).movements)
          ≡ sum_of (taken_by k) (filter (reserved_for tenant id v) s.movements)
            + sum_of (wants v k) lines
    unfolding record_reservations record_movement wants
    recorded-takes v k [] s = omega arith
    recorded-takes v k (l ∷ lines) s =
        let m = reservation tenant user id l s in
        let ih = recorded-takes v k lines (record_movement m s) in
        elim (Bool-cases (l.variant == v)) [
          | inl same ↦ ground (arith, ih, reservation-found v l s, reservation-takes k l s)
          | inr other ↦ ground (arith, ih, reservation-found v l s)
        ]

-- The variants of the lines differ.
unfoldable pub IsDistinct : List Line → Type 0
IsDistinct [] = Unit
IsDistinct (l ∷ lines) = All (λ m. (m.variant == l.variant) ≡ false) lines × IsDistinct lines

module _ (tenant : ℕ) (k : Key) where
  wants-none :
      (v : ℕ) (lines : List Line)
      → All (λ m. (m.variant == v) ≡ false) lines
      → sum_of (wants tenant v k) lines ≡ 0
  unfolding wants
  wants-none v [] h = refl
  wants-none v (l ∷ lines) h = ground (arith, wants-none v lines h.1)

  wants-other :
      (l : Line) (items lines : List Line)
      → All (λ m. (m.variant == l.variant) ≡ false) items
      → sum_of (λ i. sum_of (wants tenant i.variant k) (l ∷ lines)) items
        ≡ sum_of (λ i. sum_of (wants tenant i.variant k) lines) items
  unfolding wants
  wants-other l [] lines h = refl
  wants-other l (i ∷ items) lines h = ground (arith, wants-other l items lines h.1)

  -- Each variant stands in one line, so that summing by variant and summing by line agree.
  wants-demand :
      (lines : List Line)
      → IsDistinct lines
      → sum_of (λ i. sum_of (wants tenant i.variant k) lines) lines ≡ demand tenant k lines
  unfolding IsDistinct wants
  wants-demand [] h = refl
  wants-demand (l ∷ lines) h =
      ground (
        arith,
        wants-none l.variant lines h.0,
        wants-other l lines lines h.0,
        wants-demand lines h.1,
      )

  sum_of-same :
      (f g : Line → ℕ) (lines : List Line)
      → ((l : Line) → f l ≡ g l)
      → sum_of f lines ≡ sum_of g lines
  sum_of-same f g [] e = refl
  sum_of-same f g (l ∷ lines) e = omega (arith, e l, sum_of-same f g lines e)

-- No reservation for the id is on record.
unfoldable pub IsUnreserved : ℕ → ℕ → Stock → Type 0
IsUnreserved tenant id s = (v : ℕ) → filter (reserved_for tenant id v) s.movements ≡ []

module _ (tenant user id : ℕ) (lines : List Line) (s : Stock) where
  -- Over all items, the reservations took the demand.
  pub recorded-demand :
      (k : Key)
      → IsDistinct lines
      → IsUnreserved tenant id s
      → sum_of (taken_for tenant id (record_reservations tenant user id lines s) k) lines
        ≡ demand tenant k lines
  unfolding IsUnreserved
  recorded-demand k distinct unreserved =
      sum_of-same tenant k _ (λ i. sum_of (wants tenant i.variant k) lines) lines
        (λ l. omega (
          arith,
          recorded-takes tenant user id l.variant k lines s,
          ap (λ (ms : List Movement). sum_of (taken_by k) ms) (unreserved l.variant),
        ))
      ∙ wants-demand tenant k lines distinct

wants-own :
    (tenant : ℕ) (lines : List Line)
    → HasPieces lines
    → All (λ l. 1 ≤ sum_of (wants tenant l.variant (line_key tenant l)) lines) lines
unfolding wants
wants-own tenant [] h = tt
wants-own tenant (l ∷ lines) h = (
  ground (arith, h.0, key_iff (line_key tenant l) (line_key tenant l)),
  All-mono _ _ lines (λ m own. ground (arith, own)) (wants-own tenant lines h.1),
)

module _ (tenant user id : ℕ) (lines : List Line) (s : Stock) where
  pub recorded-HasMovements :
      HasPieces lines
      → All (HasMovements tenant id (record_reservations tenant user id lines s)) lines
  recorded-HasMovements h =
      All-mono _ _ lines
        (λ l own gone.
          let k = line_key tenant l in
          let took = recorded-takes tenant user id l.variant k lines s in
          let zero_took = ap (λ (ms : List Movement). sum_of (taken_by k) ms) gone in omega arith)
        (wants-own tenant lines h)
