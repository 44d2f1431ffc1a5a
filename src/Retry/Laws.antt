-- ===== src/Retry/Laws.antt =====
-- What the retries can and cannot change.
use backend_pluseops.Base.{
  Ensures, ℕ, zero, suc, ◌+◌, ◌-◌, ◌<◌, ◌≤◌, ◌≡◌, refl, ◌⊎◌, inl, inr, ◌&&◌, none, some, Error,
  Result, err, Tx, serialization_failure, arith, Bool-cases, Option-cases, Result-cases, ltb,
}
use backend_pluseops.Retry.{Faults, is_retryable, execute_from, execute}

module _ {S A : Type 0} (faults : Faults) (body : Tx S A) (s : S) where
  -- One run of the body, or an error that the database raised on one of the attempts.
  abbrev Settled : ℕ → Result (A × S) → Type 0
  Settled retries r =
      (r ≡ body s) ⊎ ((i : ℕ) × (e : Error) × (i < retries) × (faults i ≡ some e) × (r ≡ err e))

  -- One round: it settles, or it goes on to the next, and then it is not the last.
  execute_from-round :
      (retries left attempt : ℕ)
      → attempt + suc left ≡ retries
      → Settled retries (execute_from retries (suc left) attempt faults body s)
        ⊎ ((1 ≤ left)
            × (execute_from retries (suc left) attempt faults body s
                ≡ execute_from retries left (suc attempt) faults body s))
  unfolding execute_from
  execute_from-round retries left attempt h = elim (Option-cases (faults attempt)) [
    | inl runs ↦ elim (Result-cases (body s)) [
      | inl (r, e) ↦ inl (inl (ground arith))
      | inr (x, e) ↦ elim (Bool-cases (is_retryable x && ltb attempt (retries - 1))) [
        | inl again ↦ inr (ground arith, ground arith)
        | inr last ↦ inl (inl (ground arith))
      ]
    ]
    | inr (x, e) ↦ elim (Bool-cases (is_retryable x && ltb attempt (retries - 1))) [
      | inl again ↦ inr (ground arith, ground arith)
      | inr last ↦ inl (inr (attempt, x, omega arith, e, ground arith))
    ]
  ]

  execute_from-Settled :
      (left retries attempt : ℕ)
      → attempt + suc left ≡ retries
      → Settled retries (execute_from retries (suc left) attempt faults body s)
  execute_from-Settled zero retries attempt h = elim (execute_from-round retries zero attempt h) [
    | inl settled ↦ settled
    | inr (more, e) ↦ absurd (omega arith)
  ]
  execute_from-Settled (suc left) retries attempt h =
      elim (execute_from-round retries (suc left) attempt h) [
        | inl settled ↦ settled
        | inr (more, e) ↦ rw e (execute_from-Settled left retries (suc attempt) (omega arith))
      ]

  -- Whatever the database aborts, the result is that of one run of the transaction on the state
  -- before, or an error that the database raised on one of the three attempts. So a success has
  -- run once, and the end of the loop is never reached.
  pub execute-cases :
      (execute faults body s ≡ body s)
      ⊎ ((i : ℕ) × (e : Error) × (i < 3) × (faults i ≡ some e) × (execute faults body s ≡ err e))
  unfolding execute
  execute-cases = execute_from-Settled 2 3 0 refl

  -- Two aborted attempts are survived: where the first two are let run or fail to serialize and
  -- the third is let run, the result is that of the transaction.
  pub execute_tolerates :
      ((faults 0 ≡ none) ⊎ (faults 0 ≡ some serialization_failure))
      → ((faults 1 ≡ none) ⊎ (faults 1 ≡ some serialization_failure))
      → faults 2 ≡ none
      → execute faults body s ≡ body s
  unfolding execute
  execute_tolerates a b c = elim (Result-cases (body s)) [
    | inl (r, e) ↦ ground arith
    | inr (x, e) ↦ elim (Bool-cases (is_retryable x)) [
      | inl again ↦ ground arith
      | inr last ↦ ground arith
    ]
  ]

  -- What a transaction ensures, it ensures under retries.
  pub execute-Ensures :
      (P : A → S → Type 0) → Ensures P (body s) → Ensures P (execute faults body s)
  execute-Ensures P h = elim execute-cases [
    | inl once ↦ rw once h
    | inr (i, e, below, aborted, failed) ↦ rw failed tt
  ]
