-- ===== src/Razorpay/Marking.antt =====
-- A captured payment is marked paid once.
use backend_pluseops.Base.{
  ℕ, ◌≡◌, refl, ap, sym, ◌∙◌, ◌∷◌, true, some, ok, err, pure, inl, inr, arith, nat_eq, ==_iff, ◌==◌,
  Option-cases,
}
use backend_pluseops.Base.Tables.{lookup, lookup-upsert_self}
use backend_pluseops.Db.{Db, Payment, PaymentStatus, put_payment, add_transaction}
use backend_pluseops.Payments.{payment_of, charge_entry}
use backend_pluseops.Payments.Status.{is_active}
use backend_pluseops.Razorpay.{is_some_of, mark, mark_paid}

-- The payment once it is marked.
abbrev pub marked : ℕ → Payment → Payment
marked captured p = record p {
  status = PaymentStatus.completed;
  razorpay_payment_id = some captured;
}

own_tenant :
    (tenant id : ℕ) (p : Payment) (s : Db) → payment_of tenant id s ≡ some p → p.tenant ≡ tenant
own_tenant tenant id p s e = elim (Option-cases (lookup id s.payments)) [
  | inl gone ↦ ground arith
  | inr (q, found) ↦ ground arith
]

abbrev after : ℕ → ℕ → Payment → Db → Db
after id captured p s =
    add_transaction (charge_entry id p.amount PaymentStatus.completed captured p)
      (put_payment id (marked captured p) s)

mark_first :
    (tenant id captured : ℕ) (p : Payment) (s : Db)
    → payment_of tenant id s ≡ some p
    → is_active p.status ≡ true
    → mark_paid tenant id captured (pure tt) s ≡ ok (tt, after id captured p s)
unfolding mark_paid mark
mark_first tenant id captured p s found active = rw (found, active) refl

mark_again :
    (tenant id captured : ℕ) (p : Payment) (s : Db)
    → payment_of tenant id s ≡ some (marked captured p)
    → mark_paid tenant id captured (pure tt) s ≡ ok (tt, s)
unfolding mark_paid mark is_some_of
mark_again tenant id captured p s found =
    let same : (captured == captured) ≡ true = ground (arith, ==_iff captured captured) in
    rw (found, same) refl

payment_of-after :
    (tenant id captured : ℕ) (p : Payment) (s : Db)
    → payment_of tenant id s ≡ some p
    → payment_of tenant id (after id captured p s) ≡ some (marked captured p)
unfolding add_transaction put_payment
payment_of-after tenant id captured p s found =
    ground
      (arith, own_tenant tenant id p s found, lookup-upsert_self id (marked captured p) s.payments)

-- Marking an active payment of the tenant makes it COMPLETED with the captured payment on record,
-- and its amount is charged once; marking it again for the same capture changes nothing.
pub mark_paid_once :
    (tenant id captured : ℕ) (p : Payment) (s t : Db)
    → payment_of tenant id s ≡ some p
    → is_active p.status ≡ true
    → mark_paid tenant id captured (pure tt) s ≡ ok (tt, t)
    → (payment_of tenant id t ≡ some (marked captured p))
      × (t.transactions
          ≡ charge_entry id p.amount PaymentStatus.completed captured p ∷ s.transactions)
      × (mark_paid tenant id captured (pure tt) t ≡ ok (tt, t))
unfolding add_transaction put_payment
mark_paid_once tenant id captured p s t found active e =
    let same : t ≡ after id captured p s =
      ap (λ r. elim r as (λ _. Db) [ ok x ↦ x.1 | err x ↦ s ])
        (sym e ∙ mark_first tenant id captured p s found active) in
    let now = payment_of-after tenant id captured p s found in
    rw same (now, refl, mark_again tenant id captured p (after id captured p s) now)
