-- ===== src/HttpClient/Retrying.antt =====
-- How often requestWithRetry calls, and what it answers.
use backend_pluseops.Base.{
  ℕ, zero, suc, Bool, true, false, ◌||◌, ◌+◌, ◌-◌, ◌≤◌, ◌<◌, ◌≡◌, refl, arith, List, [], ◌∷◌,
  if◌then◌else◌, leb→le, sym, Bool-cases, inl, inr, ◌⊎◌, leb, nat_eq, ◌*◌,
}
use backend_pluseops.HttpClient.{
  Failure, Reply, Outcome, success, failure, is_success, is_retryable_status, is_retryable,
  status_failure, fetch_with_timeout, Call, Step, return, throw, again, caught, round, ends_with,
  attempt_from, request_with_retry,
}

-- A fault that is worth another try.
abbrev pub IsTransient : Outcome → Type 0
IsTransient (success s) =
    (is_success s ≡ false)
    × ((is_retryable_status s ≡ true) ⊎ (is_retryable (status_failure s) ≡ true))
IsTransient (failure f) = is_retryable f ≡ true

-- The answer to a last outcome.
abbrev pub settled : Outcome → Outcome
settled (success s) = if is_success s then success s else failure (status_failure s)
settled (failure f) = failure f

module _ (idempotent : Bool) (replies : ℕ → Reply) where
  abbrev pub outcome_at : ℕ → Outcome
  outcome_at n = fetch_with_timeout (replies n)

  -- From the attempt `first` on, with `left` attempts after it.
  pub record IsRetried (first left : ℕ) (c : Call) : Type 0 where
    pub from : first ≤ c.attempts
    pub within : c.attempts ≤ first + left
    pub answer : c.outcome ≡ settled (outcome_at c.attempts)
    pub earlier : (n : ℕ) → first ≤ n → n < c.attempts → IsTransient (outcome_at n)
    pub final : (c.attempts ≡ first + left) ⊎ (IsTransient (outcome_at c.attempts) → ⊥)

  -- A round ends with the answer of its outcome, unless the outcome is transient and a try is left.
  abbrev Ends : Bool → Outcome → Step → Type 0
  Ends b o (return p) = (p ≡ settled o) × ((b ≡ true) ⊎ (IsTransient o → ⊥))
  Ends b o (throw p) = (p ≡ settled o) × ((b ≡ true) ⊎ (IsTransient o → ⊥))
  Ends b o again = IsTransient o × (b ≡ false)

  caught_last : (f : Failure) → caught idempotent true f ≡ throw (failure f)
  unfolding caught
  caught_last f = ground arith

  caught_more :
      (f : Failure) → idempotent ≡ true → is_retryable f ≡ true → caught idempotent false f ≡ again
  unfolding caught
  caught_more f h t = ground arith

  caught_lasting :
      (b : Bool) (f : Failure) → is_retryable f ≡ false → caught idempotent b f ≡ throw (failure f)
  unfolding caught
  caught_lasting b f t = ground arith

  failure-Ends :
      (b : Bool) (f : Failure)
      → (b ≡ false → idempotent ≡ true)
      → Ends b (failure f) (caught idempotent b f)
  failure-Ends true f h = rw (caught_last f) (refl, inl refl)
  failure-Ends false f h = elim (Bool-cases (is_retryable f)) [
    | inl transient ↦ rw (caught_more f (h refl) transient) (transient, refl)
    | inr lasting ↦
        rw (caught_lasting false f lasting) (refl, inr (λ t. ground (arith, t, lasting)))
  ]

  settled-success : (s : ℕ) → is_success s ≡ true → success s ≡ settled (success s)
  settled-success s h = ground arith

  settled-failure :
      (s : ℕ) → is_success s ≡ false → failure (status_failure s) ≡ settled (success s)
  settled-failure s h = ground arith

  round_fine :
      (b : Bool) (s : ℕ) → is_success s ≡ true → round idempotent b (success s) ≡ return (success s)
  unfolding round
  round_fine b s h = ground arith

  round_last :
      (s : ℕ)
      → is_success s ≡ false
      → round idempotent true (success s) ≡ throw (failure (status_failure s))
  unfolding round
  round_last s h = ground arith

  round_again :
      (s : ℕ)
      → idempotent ≡ true
      → is_success s ≡ false
      → (is_retryable_status s || is_retryable (status_failure s)) ≡ true
      → round idempotent false (success s) ≡ again
  unfolding round
  round_again s h e t = ground arith

  round_lasting :
      (s : ℕ)
      → is_success s ≡ false
      → (is_retryable_status s || is_retryable (status_failure s)) ≡ false
      → round idempotent false (success s) ≡ throw (failure (status_failure s))
  unfolding round
  round_lasting s e t = ground arith

  either : (a b : Bool) → (a || b) ≡ true → (a ≡ true) ⊎ (b ≡ true)
  either true b h = inl refl
  either false b h = inr h

  neither : (a b : Bool) → (a || b) ≡ false → (a ≡ true) ⊎ (b ≡ true) → ⊥
  neither a b h (inl e) = ground arith
  neither a b h (inr e) = ground arith

  bad-Ends :
      (b : Bool) (s : ℕ)
      → is_success s ≡ false
      → (b ≡ false → idempotent ≡ true)
      → Ends b (success s) (round idempotent b (success s))
  bad-Ends true s bad h = rw (round_last s bad) (settled-failure s bad, inl refl)
  bad-Ends false s bad h =
      elim (Bool-cases (is_retryable_status s || is_retryable (status_failure s))) [
        | inl transient ↦
            rw (round_again s (h refl) bad transient) ((bad, either _ _ transient), refl)
        | inr lasting ↦
            rw (round_lasting s bad lasting)
              (settled-failure s bad, inr (λ t. neither _ _ lasting t.1))
      ]

  round-Ends :
      (b : Bool) (o : Outcome) → (b ≡ false → idempotent ≡ true) → Ends b o (round idempotent b o)
  round-Ends b (failure f) h = unfold round in failure-Ends b f h
  round-Ends b (success s) h = elim (Bool-cases (is_success s)) [
    | inl fine ↦
        rw (round_fine b s fine) (settled-success s fine, inr (λ t. ground (arith, t.0, fine)))
    | inr bad ↦ bad-Ends b s bad h
  ]

  last_or :
      {b : Bool} {first left : ℕ} {P : Type 0}
      → (b ≡ true → left ≡ 0)
      → (b ≡ true) ⊎ P
      → (first ≡ first + left) ⊎ P
  last_or {first = first} {left = left} z (inl e) = inl (omega (arith, z e))
  last_or z (inr p) = inr p

  moved :
      {attempts : ℕ} {P : Type 0} (first left : ℕ)
      → 1 ≤ left
      → (attempts ≡ first + 1 + (left - 1)) ⊎ P
      → (attempts ≡ first + left) ⊎ P
  moved first left h (inl e) = inl (omega (arith, e, h))
  moved first left h (inr p) = inr p

  earlier_or :
      (first attempts : ℕ)
      → IsTransient (outcome_at first)
      → ((n : ℕ) → first + 1 ≤ n → n < attempts → IsTransient (outcome_at n))
      → (n : ℕ) → first ≤ n
      → n < attempts
      → IsTransient (outcome_at n)
  earlier_or first attempts here later n l k = elim (Bool-cases (leb (first + 1) n)) [
    | inl beyond ↦ later n (leb→le (first + 1) n beyond) k
    | inr at ↦ let same : first ≡ n = ground arith in rw (sym same) here
  ]

  ends_with-IsRetried :
      (b : Bool) (first left : ℕ) (waits : List ℕ) (rest : Call) (step : Step)
      → (b ≡ true → left ≡ 0)
      → (b ≡ false → IsRetried (first + 1) (left - 1) rest × (1 ≤ left))
      → Ends b (outcome_at first) step
      → IsRetried first left (ends_with step first waits rest)
  ends_with-IsRetried b first left waits rest (return p) z h e = record {
    from = omega arith;
    within = omega arith;
    answer = e.0;
    earlier = λ n l k. absurd (omega (arith, l, k));
    final = last_or z e.1;
  }
  ends_with-IsRetried b first left waits rest (throw p) z h e = record {
    from = omega arith;
    within = omega arith;
    answer = e.0;
    earlier = λ n l k. absurd (omega (arith, l, k));
    final = last_or z e.1;
  }
  ends_with-IsRetried b first left waits rest again z h e =
      let (r, more) = h e.1 in
      record {
        from = omega (arith, r.from);
        within = omega (arith, r.within, more);
        answer = r.answer;
        earlier = earlier_or first rest.attempts e.0 r.earlier;
        final = moved first left more r.final;
      }

  pred_suc : (n : ℕ) → suc n - 1 ≡ n
  pred_suc n = omega arith

  tries : (retries : ℕ) → 1 ≤ (if idempotent then retries else 0) → idempotent ≡ true
  tries retries h = ground arith

  attempt_from-IsRetried :
      (delay left first : ℕ) (waits : List ℕ)
      → (1 ≤ left → idempotent ≡ true)
      → IsRetried first left (attempt_from idempotent delay replies left first waits)
  unfolding attempt_from
  attempt_from-IsRetried delay zero first waits h =
      ends_with-IsRetried true first 0 waits _ _ (λ e. refl) (λ e. cc)
        (round-Ends true (outcome_at first) (λ e. cc))
  attempt_from-IsRetried delay (suc left) first waits h =
      ends_with-IsRetried false first (suc left) waits _ _ (λ e. cc)
        (λ e. (
          rw (pred_suc left) (
              attempt_from-IsRetried delay left (first + 1) ((delay * first) ∷ waits)
                (λ l. h (omega arith))),
          omega arith,
        ))
        (round-Ends false (outcome_at first) (λ e. h (omega arith)))

  -- requestWithRetry makes one attempt, and up to `retries` more for a request that is idempotent. It
  -- tries again exactly after a transient outcome: a response with a retryable status or with a status
  -- whose error is retryable, or a retryable error of fetch. Its answer is that of the last attempt: a
  -- response that is ok, or else the error.
  pub request_with_retry-IsRetried :
      (retries delay : ℕ)
      → IsRetried 1
          (if idempotent then retries else 0)
          (request_with_retry idempotent retries delay replies)
  unfolding request_with_retry
  request_with_retry-IsRetried retries delay =
      attempt_from-IsRetried delay (if idempotent then retries else 0) 1 [] (λ h. tries retries h)
