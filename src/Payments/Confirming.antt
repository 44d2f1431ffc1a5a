-- ===== src/Payments/Confirming.antt =====
-- `confirm`, once.
use backend_pluseops.Base.{
  ℕ, ◌≡◌, refl, ap, ◌∙◌, true, false, not, Option, some, ok, err, Ensures, Ensures-follow,
  Ensures-ok, Ensures-or_raise, Ensures-raise_if, arith, nat_eq, get_or, if◌then◌else◌,
  Option-cases, inl, inr, payment_not_found, invalid_state_transition,
}
use backend_pluseops.Base.Tables.{lookup, lookup-upsert_self}
use backend_pluseops.Db.{Db, Payment, PaymentStatus, put_payment, add_transaction}
use backend_pluseops.Payments.{
  ConfirmRequest, payment_of, find_payment, with_id, confirm_tx, confirm,
}
use backend_pluseops.Payments.Status.{is_active, is_valid_transition}

-- The payment was active, and has the status that the request wants.
pub record Confirmed (tenant id : ℕ) (target : PaymentStatus) (s t : Db) : Type 0 where
  pub before : Payment
  pub after : Payment
  pub found : payment_of tenant id s ≡ some before
  pub active : is_active before.status ≡ true
  pub now : payment_of tenant id t ≡ some after
  pub status : after.status ≡ target
  pub amount : after.amount ≡ before.amount

payment_of-tenant :
    (tenant id : ℕ) (p : Payment) (s : Db) → payment_of tenant id s ≡ some p → p.tenant ≡ tenant
payment_of-tenant tenant id p s e = elim (Option-cases (lookup id s.payments)) [
  | inl gone ↦ ground arith
  | inr (q, found) ↦ ground arith
]

confirm_tx-Confirmed :
    (tenant id : ℕ) (target : PaymentStatus) (provider_id : Option ℕ) (s : Db)
    → Ensures (λ _ t. Confirmed tenant id target s t) (confirm_tx tenant id target provider_id s)
unfolding confirm_tx put_payment add_transaction
confirm_tx-Confirmed tenant id target provider_id s =
    let P : Unit {0} → Db → Type 0 = λ _ t. Confirmed tenant id target s t in
    Ensures-or_raise P (payment_of tenant id s) invalid_state_transition _ s λ p found.
      Ensures-raise_if P (not (is_active p.status)) invalid_state_transition _ s λ active.
        let q = record p {
          status = target;
          provider_payment_id = get_or provider_id p.provider_payment_id;
        } in
        record {
          before = p;
          after = q;
          found = found;
          active = ground arith;
          now =
              ground
                (arith, lookup-upsert_self id q s.payments, payment_of-tenant tenant id p s found);
          status = refl;
          amount = refl;
        }

abbrev pub target_of : ConfirmRequest → PaymentStatus
target_of body = if body.simulate_failure then PaymentStatus.failed else PaymentStatus.completed

closed :
    (body : ConfirmRequest) (p : Payment) → p.status ≡ target_of body → is_active p.status ≡ false
closed body p e = ground arith

confirm-closed :
    (tenant id : ℕ) (body : ConfirmRequest) (p : Payment) (s : Db)
    → body.payment_id ≡ some id
    → payment_of tenant id s ≡ some p
    → is_active p.status ≡ false
    → confirm tenant body s ≡ err invalid_state_transition
unfolding confirm find_payment
confirm-closed tenant id body p s named found shut =
    let r : find_payment tenant body.payment_id body.provider_payment_id s ≡ some (id, p) =
      ap (λ o. find_payment tenant o body.provider_payment_id s) named ∙ ap (with_id id) found in
    rw (r, shut) refl

-- A confirmation that succeeds was of an active payment, whose amount it keeps and which it leaves
-- COMPLETED, or FAILED for a simulated failure.
pub confirm-Confirmed :
    (tenant : ℕ) (body : ConfirmRequest) (s : Db)
    → Ensures (λ id t. Confirmed tenant id (target_of body) s t) (confirm tenant body s)
unfolding confirm
confirm-Confirmed tenant body s =
    let P : ℕ → Db → Type 0 = λ id t. Confirmed tenant id (target_of body) s t in
    Ensures-or_raise P (find_payment tenant body.payment_id body.provider_payment_id s)
      payment_not_found _ s
      λ r found.
        Ensures-raise_if P (not (is_active r.1.status)) invalid_state_transition _ s λ active.
          Ensures-raise_if P (not (is_valid_transition r.1.status (target_of body)))
            invalid_state_transition _ s
            λ valid.
              let m = confirm_tx tenant r.0 (target_of body) body.provider_payment_id in
              Ensures-follow P (m s) _ λ x t e.
                Ensures-ok (λ _ t. Confirmed tenant r.0 (target_of body) s t) (m s) x t
                  (confirm_tx-Confirmed tenant r.0 (target_of body) body.provider_payment_id s) e

-- After a confirmation, a second one that names the same payment is refused, whatever it asks for.
pub confirm_again :
    (tenant id : ℕ) (body again : ConfirmRequest) (s t : Db)
    → confirm tenant body s ≡ ok (id, t)
    → again.payment_id ≡ some id
    → confirm tenant again t ≡ err invalid_state_transition
confirm_again tenant id body again s t e named =
    let P : ℕ → Db → Type 0 = λ i u. Confirmed tenant i (target_of body) s u in
    let c = Ensures-ok P (confirm tenant body s) id t (confirm-Confirmed tenant body s) e in
    confirm-closed tenant id again c.after t named c.now (closed body c.after c.status)
