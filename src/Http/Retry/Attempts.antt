-- ===== src/Http/Retry/Attempts.antt =====
-- How often a request is sent.
use enterprise_platform.Common.{
  ℕ, zero, suc, ◌+◌, ◌≤◌, ◌<◌, String, Bool, true, false, includes, upper, if◌then◌else◌, leb, ◌≡◌,
  ◌⊎◌, refl, arith, leb-false_of_lt, subst, sym, ◌∙◌, ℕ_discrete, Bool-cases, inl, inr,
}
use mathlib.Core.Bool.{false≢true}
use enterprise_platform.Models.{ApiError}
use enterprise_platform.Http.Errors.{HttpErrorResponse}
use enterprise_platform.Http.Retry.{
  http, api, status_of, is_retryable, Outcome, done, failed, retry_loop, retry_interceptor, handled,
  retry_around_error, safe_methods,
}

module _ {A : Type 0} where
  -- A failure that the retry does not let stand while it may try again.
  abbrev pub IsTransient : Outcome A → Type 0
  IsTransient (done a) = ⊥
  IsTransient (failed e) = is_retryable (status_of e) ≡ true

  -- Every subscription from `i` up to and without `n` fails with a retryable status.
  abbrev pub AllTransient : (ℕ → Outcome A) → ℕ → ℕ → Type 0
  AllTransient server i n = (j : ℕ) → i ≤ j → j < n → IsTransient (server j)

  -- The retry ends at a subscription `last`: all before it failed with a retryable status, and
  -- either the count is used up or the last outcome is no such failure.
  abbrev pub Ends : ℕ → (ℕ → Outcome A) → ℕ → Outcome A × ℕ → Type 0
  Ends count server i result =
      (last : ℕ) × (result ≡ (server last, last + 1))
      × (i ≤ last)
      × (last ≤ i + count)
      × AllTransient server i last
      × ((last ≡ i + count) ⊎ (¬ IsTransient (server last)))

  stops :
      (count : ℕ) (server : ℕ → Outcome A) (i : ℕ)
      → ¬ IsTransient (server i)
      → Ends (suc count) server i (server i, i + 1)
  stops count server i h =
      (i, refl, omega arith, omega arith, λ j lo hi. absurd (omega arith), inr h)

  goes_on :
      (count : ℕ) (server : ℕ → Outcome A) (i : ℕ) (result : Outcome A × ℕ)
      → IsTransient (server i)
      → Ends count server (i + 1) result
      → Ends (suc count) server i result
  goes_on count server i result h (last, e, lo, hi, before, ends) = (
    last,
    e,
    omega arith,
    omega arith,
    λ j from to. elim (ℕ_discrete i j) [
      | yes same ↦ subst (λ k. IsTransient (server k)) same h
      | no other ↦ before j (omega arith) to
    ],
    elim ends [ inl all ↦ inl (omega arith) | inr last_stands ↦ inr last_stands ],
  )

  retry_loop-Ends :
      (count : ℕ) (server : ℕ → Outcome A) (i : ℕ) → Ends count server i (retry_loop count server i)
  unfolding retry_loop
  retry_loop-Ends zero server i =
      (i, refl, omega arith, omega arith, λ j lo hi. absurd (omega arith), inl (omega arith))
  retry_loop-Ends (suc count) server i =
      split (server i) refl (retry_loop-Ends count server (i + 1))
    where
      split :
          (o : Outcome A)
          → server i ≡ o
          → Ends count server (i + 1) (retry_loop count server (i + 1))
          → Ends (suc count) server i (retry_loop (suc count) server i)
      split (done a) e more =
          subst (Ends (suc count) server i) (rw (e, retry_loop))
            (stops count server i (λ t. rw e at t))
      split (failed t) e more = elim (Bool-cases (is_retryable (status_of t))) [
        | inl again ↦
            goes_on count server i (retry_loop (suc count) server i) (rw e again)
              (subst (Ends count server (i + 1)) (rw (e, retry_loop, again)) more)
        | inr final ↦
            subst (Ends (suc count) server i) (rw (e, retry_loop, final))
              (stops count server i (λ h. false≢true (sym final ∙ (rw e at h))))
      ]

  -- A GET, HEAD or OPTIONS without the skip header is sent at most `max_retries + 1` times: again
  -- after each failure with status 502, 503 or 504, and no more after anything else. The outcome is
  -- that of the last time it was sent. Any other request is sent once, and its outcome stands.
  pub retry_interceptor_lem :
      (max_retries : ℕ) (skip : Bool) (method : String) (server : ℕ → Outcome A)
      → ((skip ≡ false) × (includes (upper method) safe_methods ≡ true)
          → Ends max_retries server 0 (retry_interceptor max_retries skip method server))
        × ((skip ≡ true) ⊎ (includes (upper method) safe_methods ≡ false)
            → retry_interceptor max_retries skip method server ≡ (server 0, 1))
  unfolding retry_interceptor
  retry_interceptor_lem max_retries skip method server =
      (λ (sent, safe). rw (sent, safe) (capped max_retries), λ h. ground (arith, h))
    where
      capped : (n : ℕ) → Ends n server 0 (if leb n 0 then (server 0, 1) else retry_loop n server 0)
      capped zero = retry_loop-Ends zero server 0
      capped (suc n) =
          rw (leb-false_of_lt (suc n) 0 (omega arith)) (retry_loop-Ends (suc n) server 0)

  never_again :
      (caught : HttpErrorResponse → ApiError) (o : Outcome A) → ¬ IsTransient (handled caught o)
  unfolding handled is_retryable status_of
  never_again caught (done a) h = h
  never_again caught (failed (http e)) h = cc
  never_again caught (failed (api e)) h = cc

  loop_once :
      (server : ℕ → Outcome A)
      → ¬ IsTransient (server 0)
      → (count : ℕ) → retry_loop count server 0 ≡ (server 0, 1)
  unfolding retry_loop
  loop_once server h zero = refl
  loop_once server h (suc count) = split (server 0) refl
    where
      split : (o : Outcome A) → server 0 ≡ o → retry_loop (suc count) server 0 ≡ (server 0, 1)
      split (done a) e = rw (e, retry_loop)
      split (failed t) e = elim (Bool-cases (is_retryable (status_of t))) [
        | inl again ↦ absurd (h (rw e again))
        | inr final ↦ rw (e, retry_loop, final)
      ]

  -- In the order in which the application installs the interceptors every request is sent exactly
  -- once, whatever its method and its failure: the error interceptor has turned each failure into
  -- an `ApiError`, which has no `status`, before the retry can read it.
  pub retry_around_error-once :
      (caught : HttpErrorResponse → ApiError) (max_retries : ℕ) (skip : Bool) (method : String)
      (server : ℕ → Outcome A)
      → retry_around_error caught max_retries skip method server ≡ (handled caught (server 0), 1)
  unfolding retry_around_error
  retry_around_error-once caught max_retries skip method server = ground (
    arith,
    loop_once (λ i. handled caught (server i)) (never_again caught (server 0)) max_retries,
  )
