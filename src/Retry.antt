-- ===== src/Retry.antt =====
-- The retry wrapper round a transaction: `execute` in src/modules/inventory/inventory.service.js
-- (adjust and transfer) and in src/modules/orders/orders.service.js (create).
pub mod Laws
use backend_pluseops.Base.{
  ℕ, zero, suc, ◌-◌, Bool, true, false, ◌&&◌, Option, none, some, Error, Result, ok, err, Tx,
  serialization_failure, max_retries, ltb, if◌then◌else◌,
}

-- What the database does to each attempt: it lets the transaction run, or aborts it by an error.
abbrev pub Faults : Type 0
Faults = ℕ → Option Error

-- `isRetryable || isSerRetry`: `serialization_failure` stands for every error that they take, which
-- are those with the code P2010, 40001 or 40P01, and those with one of the two messages
unfoldable pub is_retryable : Error → Bool
is_retryable serialization_failure = true
is_retryable _ = false

module _ {S A : Type 0} where
  abbrev pub run_attempt : Option Error → Tx S A → Tx S A
  run_attempt none body s = body s
  run_attempt (some e) body s = err e

  -- The loop from `attempt` on, with `left` rounds to go; its end is "Max retries exceeded".
  unfoldable pub execute_from : ℕ → ℕ → ℕ → Faults → Tx S A → Tx S A
  execute_from retries zero attempt faults body s = err max_retries
  execute_from retries (suc left) attempt faults body s =
      let rest = execute_from retries left (suc attempt) faults body s in
      elim (run_attempt (faults attempt) body s) [
        | ok r ↦ ok r
        | err e ↦ (if is_retryable e && ltb attempt (retries - 1) then rest else err e)
      ]

  -- `execute(maxRetries = 3)`
  unfoldable pub execute : Faults → Tx S A → Tx S A
  unfolding execute_from is_retryable
  execute faults body = execute_from 3 3 0 faults body
