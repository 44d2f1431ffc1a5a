-- ===== src/Payments/Webhooks/Once.antt =====
-- An event is handled once.
use backend_pluseops.Base.{
  ℕ, ◌≡◌, ◌⊎◌, inl, inr, refl, Bool, true, Option, none, some, Result, ok, err, Ensures, arith,
  Bool-cases, nat_eq, ==_iff,
}
use backend_pluseops.Base.Tables.{upsert}
use backend_pluseops.Db.{
  Db, Payment, PaymentStatus, put_payment, add_transaction, add_webhook_event,
}
use backend_pluseops.Payments.{payment_of}
use backend_pluseops.Payments.Status.{is_valid_transition}
use backend_pluseops.Payments.Webhooks.{
  WebhookRequest, target_status, resolve, apply_status, advance, is_recorded, webhook_tx,
  handle_webhook, answer, has_transaction, advance_to, advance_fresh, handle_resolved,
}

-- A payment of the tenant moved along an arrow of the table.
pub record Advanced (tenant : ℕ) (s s' : Db) : Type 0 where
  pub id : ℕ
  pub fresh : Payment
  pub to : PaymentStatus
  pub found : payment_of tenant id s ≡ some fresh
  pub valid : is_valid_transition fresh.status to ≡ true
  pub payments : s'.payments ≡ upsert id (record fresh { status = to }) s.payments

apply_status-keeps :
    (body : WebhookRequest) (event_id tenant id : ℕ) (to : PaymentStatus) (fresh : Payment) (s : Db)
    → ((apply_status body event_id tenant id to fresh s).webhook_events ≡ s.webhook_events)
      × ((apply_status body event_id tenant id to fresh s).payments
          ≡ upsert id (record fresh { status = to }) s.payments)
unfolding apply_status put_payment add_transaction
apply_status-keeps body event_id tenant id to fresh s =
    elim (Bool-cases (has_transaction tenant body.provider_transaction_id s)) [
      | inl e ↦ rw e (refl, refl)
      | inr e ↦ rw e (refl, refl)
    ]

-- The events are as they were, and so are the payments, or one has moved on.
abbrev Moved : ℕ → Db → Db → Type 0
Moved tenant s s' =
    (s'.webhook_events ≡ s.webhook_events) × ((s'.payments ≡ s.payments) ⊎ Advanced tenant s s')

advance_fresh-Moved :
    (body : WebhookRequest) (event_id tenant id : ℕ) (to : PaymentStatus) (o : Option Payment)
    (s : Db)
    → payment_of tenant id s ≡ o
    → Moved tenant s (advance_fresh body event_id tenant id to o s)
unfolding advance_fresh
advance_fresh-Moved body event_id tenant id to none s found = (refl, inl refl)
advance_fresh-Moved body event_id tenant id to (some fresh) s found =
    elim (Bool-cases (is_valid_transition fresh.status to)) [
      | inr h ↦ rw h (refl, inl refl)
      | inl h ↦
          let k = apply_status-keeps body event_id tenant id to fresh s in
          let moved : Advanced tenant s (apply_status body event_id tenant id to fresh s) = record {
            id = id;
            fresh = fresh;
            to = to;
            found = found;
            valid = h;
            payments = k.1;
          } in
          rw h (k.0, inr moved)
    ]

advance_to-Moved :
    (body : WebhookRequest) (event_id tenant id : ℕ) (read : Payment) (o : Option PaymentStatus)
    (s : Db)
    → Moved tenant s (advance_to body event_id tenant id read o s)
unfolding advance_to
advance_to-Moved body event_id tenant id read none s = (refl, inl refl)
advance_to-Moved body event_id tenant id read (some to) s =
    elim (Bool-cases (is_valid_transition read.status to)) [
      | inr h ↦ rw h (refl, inl refl)
      | inl h ↦ rw h (advance_fresh-Moved body event_id tenant id to _ s refl)
    ]

-- The event is on record, and the payments are as they were or one has moved on.
abbrev Recorded : ℕ → ℕ → Db → Db → Type 0
Recorded event_id tenant s t =
    (is_recorded event_id t ≡ true) × ((t.payments ≡ s.payments) ⊎ Advanced tenant s t)

advance-Recorded :
    (body : WebhookRequest) (event_id tenant id : ℕ) (read : Payment) (s : Db)
    → Recorded event_id tenant s (
        advance body event_id tenant id read (
          add_webhook_event
            (record { tenant = tenant; payment_id = some id; event_id = event_id })
            s))
unfolding add_webhook_event advance
advance-Recorded body event_id tenant id read s =
    let t =
      add_webhook_event (record { tenant = tenant; payment_id = some id; event_id = event_id }) s in
    let m = advance_to-Moved body event_id tenant id read (target_status body.kind) t in
    (
      rw m.0 (ground (arith, ==_iff event_id event_id)),
      elim m.1 [
        | inl e ↦ inl e
        | inr a ↦ inr (record {
          id = a.id;
          fresh = a.fresh;
          to = a.to;
          found = a.found;
          valid = a.valid;
          payments = a.payments;
        })
      ],
    )

-- A webhook whose event is on record, and which resolves to a payment, is a duplicate and changes
-- nothing.
pub handle_webhook_repeated :
    (body : WebhookRequest) (s : Db) (r : ℕ × ℕ × ℕ × Payment)
    → resolve body s ≡ ok r
    → is_recorded r.0 s ≡ true
    → handle_webhook body s ≡ ok (true, s)
unfolding handle_webhook handle_resolved webhook_tx answer
handle_webhook_repeated body s r e known = rw (e, known) refl

-- The answer is of a resolved event; it is a duplicate of an event on record, or the event is put on
-- record now.
abbrev pub Handled : WebhookRequest → Db → Bool → Db → Type 0
Handled body s duplicate t =
    (r : ℕ × ℕ × ℕ × Payment) × (resolve body s ≡ ok r)
    × (is_recorded r.0 s ≡ duplicate)
    × (is_recorded r.0 t ≡ true)
    × ((t.payments ≡ s.payments) ⊎ Advanced r.1 s t)

handle_resolved-Handled :
    (body : WebhookRequest) (r : Result (ℕ × ℕ × ℕ × Payment)) (s : Db)
    → resolve body s ≡ r
    → Ensures (Handled body s) (handle_resolved body r s)
unfolding handle_resolved answer webhook_tx
handle_resolved-Handled body (err e) s found = tt
handle_resolved-Handled body (ok r) s found = elim (Bool-cases (is_recorded r.0 s)) [
  | inl known ↦ rw known (r, found, known, known, inl refl)
  | inr new ↦ let w = advance-Recorded body r.0 r.1 r.2 r.3 s in rw new (r, found, new, w.0, w.1)
]

-- A webhook that is answered had a right signature and a payment to be about. It is a duplicate
-- exactly when its event was on record; the event is on record afterwards; and the payments are as
-- they were, or one of the tenant has moved along an arrow of the table.
pub handle_webhook-Handled :
    (body : WebhookRequest) (s : Db) → Ensures (Handled body s) (handle_webhook body s)
unfolding handle_webhook
handle_webhook-Handled body s = handle_resolved-Handled body (resolve body s) s refl
