-- ===== src/CashRegister.antt =====
-- The cash drawer: src/modules/pos/cash-register.service.js.
-- A register has shifts (sessions); `sessionTotals` says what should be in the drawer. `list`,
-- `current`, `getSession` and `listSessions` only read, and `ensureDefault` and `create` add a
-- register, a row that is left out here: `known` says which registers there are.
pub mod Drawer
use Prim.Native.String.{String}
use backend_pluseops.Base.{
  ℕ, ◌+◌, Bool, true, false, not, ◌&&◌, Option, none, some, List, [], ◌∷◌, Error, ok, err, Tx,
  ◌>>=◌, ◌>>◌, raise_if, or_raise, raise, pure, modify, nat_eq, ◌==◌, is_some, get_or,
  if◌then◌else◌, register_not_found, register_already_open, cash_session_not_found,
  cash_session_closed, insufficient_cash,
}
use backend_pluseops.Base.Lists.{find, sum_of}
use backend_pluseops.Base.Tables.{lookup}
use backend_pluseops.Base.Int.{ℤ, pos, ◌+ℤ◌, ◌-ℤ◌, ltb_ℤ}
use backend_pluseops.Db.{
  Db, CashSession, CashMovement, CashType, sale, cash_refund, cash_in, cash_out, AuditEntry, Action,
  Resource, fresh_id, put_session, add_cash_movement, add_audit,
}

abbrev pub type_index : CashType → ℕ
type_index sale = 0
type_index cash_refund = 1
type_index cash_in = 2
type_index cash_out = 3

-- `by[type]` after the loop over the movements of a session.
unfoldable pub amount_of : ℕ → CashType → Db → ℕ
amount_of session_id kind s =
    sum_of
      (λ (m : CashMovement).
        if m.session_id == session_id && type_index m.kind == type_index kind then m.amount else 0)
      s.cash_movements

-- `expected` of `sessionTotals`
unfoldable pub expected_cash : ℕ → CashSession → Db → ℤ
expected_cash id c s =
    pos c.opening_float
    +ℤ pos (amount_of id sale s)
    -ℤ pos (amount_of id cash_refund s)
    +ℤ pos (amount_of id cash_in s)
    -ℤ pos (amount_of id cash_out s)

-- `log`
log : ℕ → ℕ → Action → ℕ → String → Tx Db Unit
log tenant user action id activity = modify (
    add_audit (record {
      tenant = tenant;
      user = user;
      action = action;
      resource = Resource.cash_register;
      resource_id = id;
      activity = activity;
    }))

-- The OPEN session of a register, which the partial unique index keeps single.
abbrev pub open_session : ℕ → Db → Option (ℕ × CashSession)
open_session register s = find (λ r. r.1.register == register && r.1.is_open) s.sessions

-- `openSessionFor`
unfoldable pub open_session_for : ℕ → ℕ → Db → Option (ℕ × CashSession)
open_session_for tenant register s =
    find (λ r. r.1.tenant == tenant && (r.1.register == register && r.1.is_open)) s.sessions

-- `open`; the violation of the index is what a second open session of the register is.
unfoldable pub open_register : (ℕ → ℕ → Bool) → ℕ → ℕ → ℕ → ℕ → Tx Db ℕ
unfolding log
open_register known tenant user register opening_float s =
    (do
      raise_if (not (known tenant register)) register_not_found
      raise_if (is_some (open_session register s)) register_already_open
      id ← fresh_id
      modify (
          put_session id (record {
            tenant = tenant;
            register = register;
            opening_float = opening_float;
            is_open = true;
            expected_cash = none;
            counted_cash = none;
            variance = none;
          }))
      log tenant user Action.create id "cash_register.open"
      pure id)
      s

-- `findFirst({ where: { id: sessionId, tenantId } })`
abbrev pub session_of : ℕ → ℕ → Db → Option CashSession
session_of tenant id s = elim (lookup id s.sessions) [
  | none ↦ none
  | some c ↦ if c.tenant == tenant then some c else none
]

-- Cash put in by staff, or taken out.
pub data Direction : Type 0 where
  into out : Direction

type_of : Direction → CashType
type_of into = cash_in
type_of out = cash_out

is_out : Direction → Bool
is_out into = false
is_out out = true

activity_of : Direction → String
activity_of into = "cash_register.cash_in"
activity_of out = "cash_register.cash_out"

-- `addMovement`
unfoldable pub add_movement : ℕ → ℕ → ℕ → Direction → ℕ → Tx Db Unit
unfolding type_of is_out activity_of log
add_movement tenant user id direction amount s =
    (do
      c ← or_raise (session_of tenant id s) cash_session_not_found
      raise_if (not c.is_open) cash_session_closed
      raise_if (is_out direction && ltb_ℤ (expected_cash id c s) (pos amount)) insufficient_cash
      modify (
          add_cash_movement (record {
            tenant = tenant;
            session_id = id;
            kind = type_of direction;
            amount = amount;
            order_id = none;
            payment_id = none;
          }))
      log tenant user Action.update id (activity_of direction))
      s

-- `close`
unfoldable pub close : ℕ → ℕ → ℕ → ℕ → Tx Db Unit
unfolding log
close tenant user id counted s =
    (do
      c ← or_raise (session_of tenant id s) cash_session_not_found
      raise_if (not c.is_open) cash_session_closed
      modify (
          put_session id (record c {
            is_open = false;
            expected_cash = some (expected_cash id c s);
            counted_cash = some counted;
            variance = some (pos counted -ℤ expected_cash id c s);
          }))
      log tenant user Action.update id "cash_register.close")
      s

-- `recordSale`, which a counter sale calls in its transaction
unfoldable pub record_sale : ℕ → ℕ → ℕ → ℕ → ℕ → Tx Db Unit
record_sale tenant id amount order_id payment_id = modify (
    add_cash_movement (record {
      tenant = tenant;
      session_id = id;
      kind = sale;
      amount = amount;
      order_id = some order_id;
      payment_id = some payment_id;
    }))
