-- ===== src/Http/Client/Retry.antt =====
-- layer2/src/http.cpp: Client::execute, which retries. An attempt, `execute_async`, is I/O: what the
-- attempts give, by their number, is a parameter.
use async_uv.Base.{
  ℕ, zero, suc, ◌+◌, ◌-◌, ◌*◌, ◌≤◌, ◌<◌, ◌≡◌, ◌⊎◌, inl, inr, true, not, ◌||◌, List, [], ◌∷◌, arith,
  ltb, if◌then◌else◌, Bool-cases, length, All,
}
use async_uv.Base.Bytes.{Bytes}
use async_uv.Http.Client.{
  HttpError, invalid_request, no_error, RetryPolicy, should_retry_error, retry_backoff,
  backoff_factor,
}

pub data Attempt (R : Type 0) : Type 0 where
  done : R → Attempt R
  failed : HttpError → Attempt R

abbrev pub not_executed : HttpError
not_executed = record { code = invalid_request; status_code = 0; transport_kind = no_error }

abbrev pub attempts_of : RetryPolicy → ℕ
attempts_of policy = if ltb 1 policy.max_attempts then policy.max_attempts else 1

module _ {R : Type 0} (exec : ℕ → Attempt R) (policy : RetryPolicy) (method : Bytes) where
  -- What the failure of an attempt leads to, where `more` is what the attempts after it give.
  abbrev pub after_failure : ℕ → HttpError → Attempt R × List ℕ → Attempt R × List ℕ
  after_failure attempt error more =
      if should_retry_error policy error method (attempt + 1)
      then (more.0, retry_backoff policy attempt ∷ more.1)
      else (failed error, [])

  abbrev pub after_attempt : ℕ → Attempt R → (HttpError → Attempt R × List ℕ) → Attempt R × List ℕ
  after_attempt attempt (done response) more = (done response, [])
  after_attempt attempt (failed error) more = after_failure attempt error (more error)

  -- The loop, with the last error: how it ends, and the waits between the attempts.
  unfoldable pub attempt_loop : ℕ → ℕ → HttpError → Attempt R × List ℕ
  unfolding should_retry_error retry_backoff
  attempt_loop zero attempt last_error = (failed last_error, [])
  attempt_loop (suc rounds) attempt last_error =
      after_attempt attempt (exec attempt) (attempt_loop rounds (suc attempt))

  unfoldable pub execute : Attempt R × List ℕ
  unfolding attempt_loop
  execute = attempt_loop (attempts_of policy) 1 not_executed

retry_backoff_le :
    (policy : RetryPolicy) (attempt : ℕ) → retry_backoff policy attempt ≤ policy.max_backoff
unfolding retry_backoff
retry_backoff_le policy attempt =
    elim (Bool-cases
      (ltb policy.max_backoff (policy.base_backoff * backoff_factor (attempt - 1) 1))) [
        | inl long ↦ rw (retry_backoff, long) (omega arith)
        | inr short ↦ rw (retry_backoff, short) (ground (arith, short))
      ]

retried_again :
    (policy : RetryPolicy) (error : HttpError) (method : Bytes) (attempt : ℕ)
    → should_retry_error policy error method attempt ≡ true
    → attempt ≤ policy.max_attempts
unfolding should_retry_error
retried_again policy error method attempt h =
    elim (Bool-cases (not policy.enabled || ltb policy.max_attempts attempt)) [
      | inl over ↦ cc (rw (should_retry_error, over) at h)
      | inr within ↦ ground (arith, within)
    ]

module _ {R : Type 0} (exec : ℕ → Attempt R) (policy : RetryPolicy) (method : Bytes) where
  -- The waits behind an attempt: none is longer than the policy allows, and an attempt follows each.
  abbrev Waits : ℕ → List ℕ → Type 0
  Waits attempt waits =
      All (λ w. w ≤ policy.max_backoff) waits
      × ((length waits ≡ 0) ⊎ (attempt + length waits ≤ policy.max_attempts))

  after_attempt-Waits :
      (attempt : ℕ) (outcome : Attempt R) (more : HttpError → Attempt R × List ℕ)
      → ((error : HttpError) → Waits (suc attempt) (more error).1)
      → Waits attempt (after_attempt exec policy method attempt outcome more).1
  after_attempt-Waits attempt (done response) more h = (tt, inl (omega arith))
  after_attempt-Waits attempt (failed error) more h =
      elim (Bool-cases (should_retry_error policy error method (attempt + 1))) [
        | inr last ↦ rw last (tt, inl (omega arith))
        | inl again ↦
            let (short, few) = h error in
            let next = retried_again policy error method (attempt + 1) again in
            rw again (
              (retry_backoff_le policy attempt, short),
              inr (elim few [
                | inl ended ↦ omega (arith, ended, next)
                | inr rest ↦ omega (arith, rest)
              ]),
            )
      ]

  attempt_loop-Waits :
      (rounds attempt : ℕ) (last : HttpError)
      → Waits attempt (attempt_loop exec policy method rounds attempt last).1
  unfolding attempt_loop
  attempt_loop-Waits zero attempt last = (tt, inl (omega arith))
  attempt_loop-Waits (suc rounds) attempt last =
      after_attempt-Waits attempt (exec attempt)
        (attempt_loop exec policy method rounds (suc attempt))
        (λ error. attempt_loop-Waits rounds (suc attempt) error)

  -- Whatever the attempts give, a request is sent again fewer times than the policy has attempts, or
  -- not at all if it has none, and no wait before it is longer than the longest backoff.
  pub execute_bounded :
      All (λ w. w ≤ policy.max_backoff) (execute exec policy method).1
      × (length (execute exec policy method).1 < attempts_of policy)
  unfolding execute
  execute_bounded =
      let (short, few) = attempt_loop-Waits (attempts_of policy) 1 not_executed in
      (short, elim few [ inl once ↦ ground (arith, once) | inr more ↦ ground (arith, more) ])
