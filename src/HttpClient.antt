-- ===== src/HttpClient.antt =====
-- src/integrations/http/http-client.js: fetchWithTimeout and requestWithRetry, with
-- src/integrations/errors/integration-error.js. What `fetch` does at each attempt is an argument.
pub mod Retrying
use backend_pluseops.Base.{
  ℕ, zero, suc, Bool, true, false, not, ◌&&◌, ◌||◌, Option, none, some, List, [], ◌∷◌, ◌+◌, ◌*◌,
  nat_eq, ◌==◌, ltb, leb, if◌then◌else◌,
}

-- IntegrationErrorCode
pub data Code : Type 0 where
  timeout unavailable authentication validation rejection : Code
  code_not_found rate_limit configuration unknown : Code

-- An IntegrationError: its `code` and its `statusCode`.
pub record Failure : Type 0 where
  pub code : Code
  pub status : ℕ

-- What normalizeProviderError looks at in an error that fetch throws.
pub record Fault : Type 0 where
  pub is_abort : Bool
  pub says_timeout : Bool
  pub is_network : Bool
  pub status : Option ℕ

pub data Reply : Type 0 where
  response : ℕ → Reply
  thrown : Fault → Reply

pub data Outcome : Type 0 where
  success : ℕ → Outcome
  failure : Failure → Outcome

-- `response.ok`
abbrev pub is_success : ℕ → Bool
is_success status = leb 200 status && ltb status 300

-- `isRetryableStatus`
unfoldable pub is_retryable_status : ℕ → Bool
is_retryable_status s = s == 408 || s == 429 || s == 502 || s == 503 || s == 504

abbrev pub is_client_fault : ℕ → Bool
is_client_fault s = leb 400 s && (ltb s 500 && (not (s == 408) && not (s == 429)))

abbrev pub by_status : ℕ → Bool
by_status s = if is_client_fault s then false else s == 429 || s == 408 || leb 500 s

-- `isRetryable`
unfoldable pub is_retryable : Failure → Bool
is_retryable f = elim f.code [
  | validation ↦ false
  | authentication ↦ false
  | configuration ↦ false
  | code_not_found ↦ false
  | rejection ↦ false
  | timeout ↦ not (is_client_fault f.status)
  | unavailable ↦ not (is_client_fault f.status)
  | rate_limit ↦ by_status f.status
  | unknown ↦ by_status f.status
]

-- `mapHttpStatusToCode`
unfoldable pub map_http_status_to_code : ℕ → Code
map_http_status_to_code s =
    if s == 408 || s == 504
    then timeout
    else if s == 429
    then rate_limit
    else if s == 401 || s == 403
    then authentication
    else if s == 404
    then code_not_found
    else if s == 400 || s == 422
    then validation
    else if leb 500 s
    then unavailable
    else rejection

abbrev pub of_status : Option ℕ → Failure
of_status none = record { code = unknown; status = 502 }
of_status (some s) = record {
  code = map_http_status_to_code s;
  status = if leb 400 s && ltb s 600 then s else 502;
}

-- `normalizeProviderError`, of an error that is no AppError; a status of 0 is none.
unfoldable pub normalize_provider_error : Fault → Failure
normalize_provider_error f =
    if f.is_abort || f.says_timeout
    then record { code = timeout; status = 504 }
    else if f.is_network
    then record { code = unavailable; status = 502 }
    else of_status f.status

-- `fetchWithTimeout`: an abort is its own timeout.
unfoldable pub fetch_with_timeout : Reply → Outcome
fetch_with_timeout (response status) = success status
fetch_with_timeout (thrown f) =
    if f.is_abort
    then failure (record { code = timeout; status = 504 })
    else failure (normalize_provider_error f)

-- The error of a response that is not ok.
unfoldable pub status_failure : ℕ → Failure
status_failure s = record {
  code =
      if s == 429
      then rate_limit
      else if s == 404
      then code_not_found
      else if s == 401 || s == 403
      then authentication
      else if leb 500 s
      then unavailable
      else rejection;
  status = s;
}

-- What becomes of a call: its outcome, the attempts made, and the times slept, newest first.
pub record Call : Type 0 where
  pub outcome : Outcome
  pub attempts : ℕ
  pub waits : List ℕ

-- The round's next step: to return, to throw, or to sleep and try again.
pub data Step : Type 0 where
  return throw : Outcome → Step
  again : Step

-- The `catch` block.
unfoldable pub caught : Bool → Bool → Failure → Step
caught idempotent is_last f =
    if not (is_retryable f) || not idempotent || is_last then throw (failure f) else again

-- The body of a round. The error of a response is thrown into the round's own catch.
unfoldable pub round : Bool → Bool → Outcome → Step
unfolding caught
round idempotent is_last (failure f) = caught idempotent is_last f
round idempotent is_last (success s) =
    if is_success s
    then return (success s)
    else if is_retryable_status s && not is_last
    then again
    else if is_retryable (status_failure s) && (idempotent && not is_last)
    then again
    else caught idempotent is_last (status_failure s)

abbrev pub ends_with : Step → ℕ → List ℕ → Call → Call
ends_with (return o) attempt waits rest = record { outcome = o; attempts = attempt; waits = waits }
ends_with (throw o) attempt waits rest = record { outcome = o; attempts = attempt; waits = waits }
ends_with again attempt waits rest = rest

-- The loop, with `left` attempts after this one.
unfoldable pub attempt_from : Bool → ℕ → (ℕ → Reply) → ℕ → ℕ → List ℕ → Call
attempt_from idempotent delay replies zero attempt waits =
    let step = round idempotent true (fetch_with_timeout (replies attempt)) in
    ends_with step attempt waits
      (record { outcome = fetch_with_timeout (replies attempt); attempts = attempt; waits = waits })
attempt_from idempotent delay replies (suc left) attempt waits =
    let step = round idempotent false (fetch_with_timeout (replies attempt)) in
    let rest =
      attempt_from idempotent delay replies left (attempt + 1) ((delay * attempt) ∷ waits) in
    ends_with step attempt waits rest

-- `requestWithRetry`
unfoldable pub request_with_retry : Bool → ℕ → ℕ → (ℕ → Reply) → Call
request_with_retry idempotent retries delay replies =
    attempt_from idempotent delay replies (if idempotent then retries else 0) 1 []
