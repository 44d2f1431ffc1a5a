-- ===== src/CashRegister/Drawer.antt =====
-- What is in the drawer.
use backend_pluseops.Base.{
  ℕ, ◌+◌, ◌≡◌, refl, true, false, not, ◌&&◌, none, some, ok, err, Ensures, Ensures-ok,
  Ensures-or_raise, Ensures-raise_if, arith, nat_eq, ==_iff, inl, inr, Option-cases,
  cash_session_not_found, cash_session_closed, insufficient_cash,
}
use backend_pluseops.Base.Tables.{lookup, lookup-upsert_self}
use backend_pluseops.Base.Int.{
  ℤ, pos, pos_part, neg_part, ◌+ℤ◌, ◌-ℤ◌, ◌≤ℤ◌, ltb_ℤ, +ℤ_parts, -ℤ_parts, eq_of_parts,
}
use backend_pluseops.Db.{
  Db, Action, Resource, CashSession, sale, cash_refund, cash_in, cash_out, put_session,
  add_cash_movement, add_audit,
}
use backend_pluseops.CashRegister.{
  amount_of, expected_cash, session_of, Direction, into, out, type_of, is_out, activity_of, log,
  add_movement, close,
}

-- The drawer holds at least nothing.
abbrev pub IsCovered : ℕ → CashSession → Db → Type 0
IsCovered id c s = pos 0 ≤ℤ expected_cash id c s

expected_cash_sums :
    (id : ℕ) (c : CashSession) (s : Db)
    → pos_part (expected_cash id c s) + amount_of id cash_refund s + amount_of id cash_out s
      ≡ neg_part (expected_cash id c s)
        + c.opening_float
        + amount_of id sale s
        + amount_of id cash_in s
unfolding expected_cash
expected_cash_sums id c s =
    let a = pos c.opening_float +ℤ pos (amount_of id sale s) in
    let b = a -ℤ pos (amount_of id cash_refund s) in
    let d = b +ℤ pos (amount_of id cash_in s) in
    omega (
      arith,
      +ℤ_parts (pos c.opening_float) (pos (amount_of id sale s)),
      -ℤ_parts a (pos (amount_of id cash_refund s)),
      +ℤ_parts b (pos (amount_of id cash_in s)),
      -ℤ_parts d (pos (amount_of id cash_out s)),
    )

-- Cash put in, or taken out.
abbrev pub change : Direction → ℕ → ℤ
change into n = pos n
change out n = pos 0 -ℤ pos n

-- The state after a movement of cash by staff.
abbrev after : ℕ → ℕ → ℕ → Direction → ℕ → Db → Db
after tenant user id direction amount s =
    add_audit
      (record {
        tenant = tenant;
        user = user;
        action = Action.update;
        resource = Resource.cash_register;
        resource_id = id;
        activity = activity_of direction;
      })
      (add_cash_movement
        (record {
          tenant = tenant;
          session_id = id;
          kind = type_of direction;
          amount = amount;
          order_id = none;
          payment_id = none;
        })
        s)

expected_cash-after :
    (tenant user id : ℕ) (c : CashSession) (direction : Direction) (amount : ℕ) (s : Db)
    → expected_cash id c (after tenant user id direction amount s)
      ≡ expected_cash id c s +ℤ change direction amount
unfolding amount_of add_cash_movement add_audit type_of
expected_cash-after tenant user id c into amount s = eq_of_parts _ _ (
    ground (
      arith,
      ==_iff id id,
      expected_cash_sums id c s,
      expected_cash_sums id c (after tenant user id into amount s),
      +ℤ_parts (expected_cash id c s) (pos amount),
    ))
expected_cash-after tenant user id c out amount s = eq_of_parts _ _ (
    ground (
      arith,
      ==_iff id id,
      expected_cash_sums id c s,
      expected_cash_sums id c (after tenant user id out amount s),
      -ℤ_parts (pos 0) (pos amount),
      +ℤ_parts (expected_cash id c s) (pos 0 -ℤ pos amount),
    ))

change_covered :
    (direction : Direction) (amount : ℕ) (e : ℤ)
    → (is_out direction && ltb_ℤ e (pos amount)) ≡ false
    → pos 0 ≤ℤ e
    → pos 0 ≤ℤ (e +ℤ change direction amount)
unfolding is_out
change_covered into amount e enough h = ground (arith, +ℤ_parts e (pos amount))
change_covered out amount e enough h =
    ground (arith, -ℤ_parts (pos 0) (pos amount), +ℤ_parts e (pos 0 -ℤ pos amount))

-- The session was open, and the drawer is to hold the change more; it is covered if it was.
pub record Moved (tenant id : ℕ) (direction : Direction) (amount : ℕ) (s t : Db) : Type 0 where
  pub session : CashSession
  pub found : session_of tenant id s ≡ some session
  pub opened : session.is_open ≡ true
  pub expected : expected_cash id session t ≡ expected_cash id session s +ℤ change direction amount

-- A movement of cash by staff that succeeds is in an open session of the tenant, and what the
-- drawer should hold changes by its amount.
pub add_movement-Moved :
    (tenant user id : ℕ) (direction : Direction) (amount : ℕ) (s : Db)
    → Ensures
        (λ _ t. Moved tenant id direction amount s t)
        (add_movement tenant user id direction amount s)
unfolding add_movement log
add_movement-Moved tenant user id direction amount s =
    let P : Unit {0} → Db → Type 0 = λ _ t. Moved tenant id direction amount s t in
    Ensures-or_raise P (session_of tenant id s) cash_session_not_found _ s λ c found.
      Ensures-raise_if P (not c.is_open) cash_session_closed _ s λ opened.
        Ensures-raise_if P (is_out direction && ltb_ℤ (expected_cash id c s) (pos amount))
          insufficient_cash _ s
          λ enough. record {
            session = c;
            found = found;
            opened = ground arith;
            expected = expected_cash-after tenant user id c direction amount s;
          }

-- Where a session's drawer should hold at least nothing, it should after a movement of cash by
-- staff: nothing is taken out that was not there.
pub add_movement-IsCovered :
    (tenant user id : ℕ) (direction : Direction) (amount : ℕ) (c : CashSession) (s : Db)
    → session_of tenant id s ≡ some c
    → IsCovered id c s
    → Ensures (λ _ t. IsCovered id c t) (add_movement tenant user id direction amount s)
unfolding add_movement log
add_movement-IsCovered tenant user id direction amount c s found h =
    let P : Unit {0} → Db → Type 0 = λ _ t. IsCovered id c t in
    rw found (
      Ensures-raise_if P (not c.is_open) cash_session_closed _ s λ opened.
        Ensures-raise_if P (is_out direction && ltb_ℤ (expected_cash id c s) (pos amount))
          insufficient_cash _ s
          λ enough.
            rw (expected_cash-after tenant user id c direction amount s)
              (change_covered direction amount (expected_cash id c s) enough h))

-- The session was open and is so no more; its expected cash is what the drawer should hold, and
-- with the variance that makes the cash counted.
pub record Balanced (tenant id counted : ℕ) (s t : Db) : Type 0 where
  pub session : CashSession
  pub variance : ℤ
  pub found : session_of tenant id s ≡ some session
  pub opened : session.is_open ≡ true
  pub closed :
      session_of tenant id t
      ≡ some (record session {
        is_open = false;
        expected_cash = some (expected_cash id session s);
        counted_cash = some counted;
        variance = some variance;
      })
  pub sum : expected_cash id session s +ℤ variance ≡ pos counted

session_of-tenant :
    (tenant id : ℕ) (c : CashSession) (s : Db) → session_of tenant id s ≡ some c → c.tenant ≡ tenant
session_of-tenant tenant id c s e = elim (Option-cases (lookup id s.sessions)) [
  | inl gone ↦ ground arith
  | inr (q, found) ↦ ground arith
]

-- A session that is closed was open, of the tenant; it is open no more, its expected cash is what
-- the drawer should hold, and with the variance that makes the cash counted.
pub close-Balanced :
    (tenant user id counted : ℕ) (s : Db)
    → Ensures (λ _ t. Balanced tenant id counted s t) (close tenant user id counted s)
unfolding close log put_session add_audit
close-Balanced tenant user id counted s =
    let P : Unit {0} → Db → Type 0 = λ _ t. Balanced tenant id counted s t in
    Ensures-or_raise P (session_of tenant id s) cash_session_not_found _ s λ c found.
      Ensures-raise_if P (not c.is_open) cash_session_closed _ s λ opened.
        let e = expected_cash id c s in
        let d = record c {
          is_open = false;
          expected_cash = some e;
          counted_cash = some counted;
          variance = some (pos counted -ℤ e);
        } in
        record {
          session = c;
          variance = pos counted -ℤ e;
          found = found;
          opened = ground arith;
          closed =
              ground
                (arith, lookup-upsert_self id d s.sessions, session_of-tenant tenant id c s found);
          sum =
              eq_of_parts _ _
                (ground (arith, -ℤ_parts (pos counted) e, +ℤ_parts e (pos counted -ℤ e)));
        }

close-closed :
    (tenant user id counted : ℕ) (c : CashSession) (s : Db)
    → session_of tenant id s ≡ some c
    → c.is_open ≡ false
    → close tenant user id counted s ≡ err cash_session_closed
unfolding close
close-closed tenant user id counted c s found shut = rw (found, shut) refl

-- A session that was closed cannot be closed again.
pub close_again :
    (tenant user id counted by now : ℕ) (s t : Db)
    → close tenant user id counted s ≡ ok (tt, t)
    → close tenant by id now t ≡ err cash_session_closed
close_again tenant user id counted by now s t e =
    let b =
      Ensures-ok (λ _ u. Balanced tenant id counted s u) (close tenant user id counted s) tt t
        (close-Balanced tenant user id counted s) e in
    close-closed tenant by id now _ t b.closed refl
