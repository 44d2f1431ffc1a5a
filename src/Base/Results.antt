-- ===== src/Base/Results.antt =====
-- AppError as a value, and a database transaction: a step on the state that is rolled back by an
-- error, so that only a success carries a new state.
use mathlib.Core.Path.{◌≡◌, refl}
use mathlib.Core.Logic.{◌⊎◌, inl, inr}
use mathlib.Core.Bool.{Bool, true, false}
use mathlib.Core.Option.{Option, none, some}

-- The `code` of an AppError.
pub data Error : Type 0 where
  customer_not_found variant_not_found variant_not_sellable warehouse_not_found : Error
  invalid_quantity invalid_money invalid_line_total insufficient_stock : Error
  validation_error same_warehouse plan_limit_reached : Error
  address_not_found address_type_mismatch : Error
  order_not_found invalid_status_transition cancellation_not_allowed already_cancelled : Error
  order_not_eligible payment_already_pending invalid_amount payment_not_found : Error
  invalid_state_transition invalid_refund_state invalid_refund_amount excessive_refund : Error
  invalid_webhook invalid_webhook_signature integration_error : Error
  payment_gateway_not_configured order_already_paid invalid_payment_signature : Error
  upi_payment_not_received upi_payment_already_used : Error
  payment_total_mismatch cash_short register_closed no_warehouse : Error
  register_not_found register_already_open cash_session_not_found : Error
  cash_session_closed insufficient_cash : Error
  tenant_required tenant_not_found tenant_inactive platform_tenant_forbidden : Error
  user_already_exists invalid_credentials account_inactive platform_access_denied : Error
  use_platform_login invalid_refresh_token refresh_token_expired refresh_token_revoked : Error
  user_not_found invalid_current_password password_unchanged email_already_verified : Error
  session_not_found session_revoked invalid_reset_token reset_token_expired reset_token_used : Error
  invalid_verification_token verification_token_expired verification_token_used : Error
  unauthorized forbidden support_read_only support_token_forbidden : Error
  customer_token_forbidden platform_token_forbidden platform_auth_required : Error
  invalid_token_claims : Error
  role_not_found role_name_exists system_role_immutable invalid_role_ids last_admin_role : Error
  role_not_assigned invalid_permission_ids permission_not_assigned : Error
  category_not_found category_slug_exists parent_category_not_found : Error
  invalid_parent_category category_cycle_detected category_has_children : Error
  category_has_products : Error
  product_not_found sku_exists barcode_exists : Error
  attribute_not_found invalid_attribute_value attribute_code_exists attribute_in_use : Error
  report_not_found report_not_ready report_too_large : Error
  report_schedule_not_found invalid_recipients : Error
  -- an `Error` that is no AppError, for a missing argument
  missing_argument : Error
  -- a Prisma P2002 or P2003, a serialization failure or deadlock, and any other fault of the database
  unique_violation foreign_key_violation serialization_failure database_fault max_retries : Error

pub data Result {ℓ} (A : Type ℓ) : Type ℓ where
  ok : A → Result A
  err : Error → Result A

abbrev pub Tx : Type 0 → Type 0 → Type 0
Tx S A = S → Result (A × S)

module _ {S A : Type 0} where
  abbrev pub pure : A → Tx S A
  pure a s = ok (a, s)

  abbrev pub raise : Error → Tx S A
  raise e s = err e

  abbrev pub gets : (S → A) → Tx S A
  gets f s = ok (f s, s)

  abbrev pub or_raise : Option A → Error → Tx S A
  or_raise none e s = err e
  or_raise (some a) e s = ok (a, s)

abbrev pub raise_if : {S : Type 0} → Bool → Error → Tx S (Unit {0})
raise_if true e s = err e
raise_if false e s = ok (tt, s)

abbrev pub modify : {S : Type 0} → (S → S) → Tx S (Unit {0})
modify f s = ok (tt, f s)

-- The rest of a block, after a step that came to `r`.
abbrev pub follow : {S A B : Type 0} → Result (A × S) → (A → Tx S B) → Result (B × S)
follow (ok r) f = f r.0 r.1
follow (err e) f = err e

infixl 5 ◌>>=◌ ◌>>◌
abbrev pub ◌>>=◌ : {S A B : Type 0} → Tx S A → (A → Tx S B) → Tx S B
◌>>=◌ m f s = follow (m s) f

abbrev pub ◌>>◌ : {S A B : Type 0} → Tx S A → Tx S B → Tx S B
m >> k = m >>= λ _. k

pub Result-cases {ℓ} :
    {A : Type ℓ} (r : Result A) → ((a : A) × (r ≡ ok a)) ⊎ ((e : Error) × (r ≡ err e))
Result-cases (ok a) = inl (a, refl)
Result-cases (err e) = inr (e, refl)

-- What holds of the value and the new state of a transaction that succeeds.
abbrev pub Ensures : {S A : Type 0} → (A → S → Type 0) → Result (A × S) → Type 0
Ensures P (ok r) = P r.0 r.1
Ensures P (err e) = Unit

module _ {S A : Type 0} (P : A → S → Type 0) where
  pub Ensures-ok : (m : Result (A × S)) (a : A) (s : S) → Ensures P m → m ≡ ok (a, s) → P a s
  Ensures-ok m a s h e = rw e at h

module _ {S B : Type 0} (P : B → S → Type 0) where
  pub Ensures-follow :
      {A : Type 0} (r : Result (A × S)) (f : A → Tx S B)
      → ((a : A) (t : S) → r ≡ ok (a, t) → Ensures P (f a t))
      → Ensures P (follow r f)
  Ensures-follow (ok (a, t)) f h = h a t refl
  Ensures-follow (err e) f h = tt

  pub Ensures-or_raise :
      {A : Type 0} (o : Option A) (e : Error) (f : A → Tx S B) (s : S)
      → ((a : A) → o ≡ some a → Ensures P (f a s))
      → Ensures P ((or_raise o e >>= f) s)
  Ensures-or_raise none e f s h = tt
  Ensures-or_raise (some a) e f s h = h a refl

  pub Ensures-raise_if :
      (c : Bool) (e : Error) (m : Tx S B) (s : S)
      → (c ≡ false → Ensures P (m s))
      → Ensures P ((raise_if c e >> m) s)
  Ensures-raise_if true e m s h = tt
  Ensures-raise_if false e m s h = h refl

  pub ruleset ensures_rules = (Ensures-or_raise, Ensures-raise_if, Ensures-follow)

pub Ensures-mono :
    {S A : Type 0} (P Q : A → S → Type 0) (r : Result (A × S))
    → Ensures P r
    → ((a : A) (s : S) → P a s → Q a s)
    → Ensures Q r
Ensures-mono P Q (ok (a, s)) h f = f a s h
Ensures-mono P Q (err e) h f = tt

-- A transaction that succeeds, with a new state of which P holds.
abbrev pub Succeeds : {S A : Type 0} → (S → Type 0) → Result (A × S) → Type 0
Succeeds P (ok r) = P r.1
Succeeds P (err e) = ⊥

pub Succeeds-follow :
    {S A B : Type 0} (P Q : S → Type 0) (r : Result (A × S)) (f : A → Tx S B)
    → Succeeds P r
    → ((a : A) (t : S) → P t → Succeeds Q (f a t))
    → Succeeds Q (follow r f)
Succeeds-follow P Q (ok (a, t)) f h k = k a t h
Succeeds-follow P Q (err e) f h k = elim h [ ]

abbrev pub is_ok {ℓ} : {A : Type ℓ} → Result A → Bool
is_ok (ok a) = true
is_ok (err e) = false
