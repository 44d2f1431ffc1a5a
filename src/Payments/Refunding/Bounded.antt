-- ===== src/Payments/Refunding/Bounded.antt =====
-- What a refund adds, and its bound.
use backend_pluseops.Base.{
  ℕ, ◌+◌, ◌≤◌, ◌<◌, ◌≡◌, refl, ap, ◌∙◌, true, not, ◌&&◌, some, Ensures, Ensures-follow, Ensures-ok,
  Ensures-mono, Ensures-or_raise, Ensures-raise_if, modify, arith, Option-cases, Bool-cases, inl,
  inr, nat_eq, ltb, ◌==◌, if◌then◌else◌, database_fault, excessive_refund, invalid_refund_state,
  invalid_state_transition, payment_not_found, invalid_refund_amount,
}
use backend_pluseops.Base.Tables.{upsert}
use backend_pluseops.Db.{Db, Payment, PaymentStatus, put_payment, add_refund, add_transaction}
use backend_pluseops.Payments.{payment_of}
use backend_pluseops.Payments.Status.{is_refundable, is_valid_transition, same}
use backend_pluseops.Payments.Refunding.{
  RefundApi, refunded_amount, refund_at_provider, provider_refund_id, write_refund, refund_tx,
  refund, is_razorpay, status_after, settle,
}

-- The payment had the amount left; every sum of refunds is as before but that of the payment, which
-- has the amount more; the payment is REFUNDED when nothing is left.
pub record Refunded (tenant id paid amount : ℕ) (s s' : Db) : Type 0 where
  pub payment :
      (p : Payment) × (payment_of tenant id s ≡ some p)
      × (refunded_amount tenant id s + amount ≤ p.amount)
      × (is_refundable p.status ≡ true)
      × ((status : PaymentStatus) × (s'.payments
            ≡ upsert id (record p { status = status }) s.payments)
          × (paid ≤ refunded_amount tenant id s + amount → status ≡ PaymentStatus.refunded)
          × (refunded_amount tenant id s + amount < paid
              → status ≡ PaymentStatus.partially_refunded))
  pub sums :
      (t j : ℕ)
      → refunded_amount t j s'
        ≡ refunded_amount t j s + (if id == j && tenant == t then amount else 0)

-- Asking the provider touches no payment and no refund.
provider_refund_id-keeps :
    (api : RefundApi) (p : Payment) (amount : ℕ) (s : Db)
    → Ensures
        (λ _ s'. (s'.payments ≡ s.payments) × (s'.refunds ≡ s.refunds))
        (provider_refund_id api p amount s)
unfolding provider_refund_id refund_at_provider
provider_refund_id-keeps api p amount s = elim (Bool-cases (is_razorpay p.provider)) [
  | inl own ↦ elim (Option-cases p.razorpay_payment_id) [
    | inl gone ↦ ground arith
    | inr (c, found) ↦ elim (Option-cases (api.refund_payment p.tenant c amount)) [
      | inl gone ↦ ground arith
      | inr (i, made) ↦ ground arith
    ]
  ]
  | inr other ↦ ground arith
]

abbrev Adds : ℕ → ℕ → ℕ → Db → Db → Type 0
Adds tenant id amount s s' =
    (s'.payments ≡ s.payments)
    × ((t j : ℕ)
        → refunded_amount t j s'
          ≡ refunded_amount t j s + (if id == j && tenant == t then amount else 0))

write_refund-Adds :
    (tenant id amount provider_id : ℕ) (s : Db)
    → Ensures (λ _ s'. Adds tenant id amount s s') (write_refund tenant id amount provider_id s)
unfolding write_refund add_refund add_transaction refunded_amount
write_refund-Adds tenant id amount provider_id s = (refl, λ t j. ground arith)

refunded_amount-eq :
    (t j : ℕ) (s s' : Db) → s'.refunds ≡ s.refunds → refunded_amount t j s' ≡ refunded_amount t j s
unfolding refunded_amount
refunded_amount-eq t j s s' e = rw e refl

refund_tx-Refunded :
    (api : RefundApi) (tenant id paid amount : ℕ) (s : Db)
    → Ensures (λ _ s'. Refunded tenant id paid amount s s') (refund_tx api tenant id paid amount s)
unfolding refund_tx put_payment refunded_amount
refund_tx-Refunded api tenant id paid amount s =
    let P : Unit {0} → Db → Type 0 = λ _ s'. Refunded tenant id paid amount s s' in
    Ensures-or_raise P (payment_of tenant id s) database_fault _ s λ p found.
      Ensures-raise_if P (ltb p.amount (refunded_amount tenant id s + amount)) excessive_refund _ s
        λ fits. Ensures-raise_if P (not (is_refundable p.status)) invalid_refund_state _ s λ state.
          Ensures-follow P (provider_refund_id api p amount s) _ λ x t e.
            let kept = Ensures-ok _ _ x t (provider_refund_id-keeps api p amount s) e in
            let status = status_after paid (refunded_amount tenant id s + amount) in
            Ensures-follow P (write_refund tenant id amount x t) (λ _. settle id p status)
              λ y u f.
                let w =
                  Ensures-ok (λ _ s'. Adds tenant id amount t s')
                    (write_refund tenant id amount x t) y u (write_refund-Adds tenant id amount x t)
                    f in
                Ensures-raise_if P
                  (not (is_valid_transition p.status status) && not (same p.status status))
                  invalid_state_transition (modify (put_payment id (record p { status = status })))
                  u
                  λ valid. record {
                    payment = (
                      p,
                      found,
                      ground arith,
                      ground arith,
                      (
                        status,
                        rw (w.0, kept.0) refl,
                        λ all_back. ground arith,
                        λ some_left. ground arith,
                      ),
                    );
                    sums = λ j k.
                        w.1 j k
                        ∙ ap (λ n. n + (if id == k && tenant == j then amount else 0))
                            (refunded_amount-eq j k s t kept.1);
                  }

-- A refund that succeeds was of a payment of the tenant with the amount left to refund, in a state
-- that allows it, and of more than nothing; it adds the amount to the refunds of that payment and to
-- no other's, and leaves the payment REFUNDED when the refunds have reached its amount and
-- PARTIALLY_REFUNDED when they have not.
pub refund-Refunded :
    (api : RefundApi) (tenant id amount : ℕ) (s : Db)
    → Ensures
        (λ _ s'.
          (p : Payment) × (1 ≤ amount)
          × (payment_of tenant id s ≡ some p)
          × Refunded tenant id p.amount amount s s')
        (refund api tenant id amount s)
unfolding refund
refund-Refunded api tenant id amount s =
    let P : Unit {0} → Db → Type 0 = λ _ s'.
      (p : Payment) × (1 ≤ amount)
      × (payment_of tenant id s ≡ some p)
      × Refunded tenant id p.amount amount s s' in
    Ensures-or_raise P (payment_of tenant id s) payment_not_found _ s λ p found.
      Ensures-raise_if P (not (is_refundable p.status)) invalid_refund_state _ s λ state.
        Ensures-raise_if P (amount == 0) invalid_refund_amount _ s λ some_amount.
          Ensures-raise_if P (ltb p.amount (refunded_amount tenant id s + amount)) excessive_refund
            _ s
            λ fits.
              Ensures-mono (λ _ s'. Refunded tenant id p.amount amount s s') P _
                (refund_tx-Refunded api tenant id p.amount amount s)
                λ x t r. (p, ground arith, found, r)
