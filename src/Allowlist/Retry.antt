-- ===== src/Allowlist/Retry.antt =====
-- `with_lock_retry` and the tests on the service's errors.
use telemetry_platform.Base.{
  ℕ, zero, suc, ◌≡◌, Bool, true, false, Exc, ok, raised, optimistic_lock, unavailable_entity,
  nonexistent_item, allowlist_error, arith, Answer-cases, Bool-cases, inl, inr,
}
use telemetry_platform.Base.Int.{ℤ, pos, negsuc}
use telemetry_platform.Allowlist.Client.{Call}

-- _is_optimistic_lock_error
unfoldable pub is_optimistic_lock_error : Exc → Bool
is_optimistic_lock_error optimistic_lock = true
is_optimistic_lock_error _ = false

-- _is_retryable_waf_error
unfoldable pub is_retryable_waf_error : Exc → Bool
is_retryable_waf_error optimistic_lock = true
is_retryable_waf_error unavailable_entity = true
is_retryable_waf_error _ = false

-- _is_nonexistent_item_error
unfoldable pub is_nonexistent_item_error : Exc → Bool
is_nonexistent_item_error nonexistent_item = true
is_nonexistent_item_error _ = false

-- len(range(retries, -1, -1))
unfoldable pub tries : ℤ → ℕ
tries (pos retries) = suc retries
tries (negsuc n) = 0

module _ {S A : Type 0} (attempt : Call S A) where
  -- The loop, `left` attempts to go; the pause between two attempts changes nothing here.
  unfoldable pub retry : ℕ → Call S A
  unfolding is_retryable_waf_error
  retry zero s = (raised allowlist_error, s)
  retry (suc left) s =
      let (r, s') = attempt s in
      elim r [
        | ok a ↦ (ok a, s')
        | raised e ↦ elim (is_retryable_waf_error e) [
          | true ↦ retry left s'
          | false ↦ (raised e, s')
        ]
      ]

  unfoldable pub with_lock_retry : ℤ → Call S A
  unfolding retry tries
  with_lock_retry retries = retry (tries retries)

  -- A property of every attempt that returns, whatever the server it starts from, holds of the whole.
  pub retry-returns :
      (P : A → S → Type 0)
      → ((s s' : S) (a : A) → attempt s ≡ (ok a, s') → P a s')
      → (left : ℕ) (s s' : S) (a : A) → retry left s ≡ (ok a, s')
      → P a s'
  unfolding retry
  retry-returns P once zero s s' a h = cc
  retry-returns P once (suc left) s s' a h = elim (Answer-cases (attempt s)) [
    | inr (b, did) ↦ let after = rw (did, retry) at h in once s s' a (cc (did, after))
    | inl (e, failed) ↦
        let after = rw (failed, retry) at h in
        elim (Bool-cases (is_retryable_waf_error e)) [
          | inl again ↦ retry-returns P once left _ s' a (rw again at after)
          | inr stop ↦ let bad = rw stop at after in cc
        ]
  ]

  -- The server that an attempt starts from: the one given, or one that a failed attempt left.
  pub data Retried : S → S → Type 0 where
    first_try : (s : S) → Retried s s
    next_try :
        (s t u : S) (e : Exc)
        → attempt s ≡ (raised e, t)
        → is_retryable_waf_error e ≡ true
        → Retried t u
        → Retried s u

  -- Where the whole returns, an attempt has, each attempt before it having failed retryably.
  pub retry-Retried :
      (left : ℕ) (s s' : S) (a : A)
      → retry left s ≡ (ok a, s')
      → (start : S) × Retried s start × (attempt start ≡ (ok a, s'))
  unfolding retry
  retry-Retried zero s s' a h = cc
  retry-Retried (suc left) s s' a h = elim (Answer-cases (attempt s)) [
    | inr (b, did) ↦ let after = rw (did, retry) at h in (s, first_try s, cc (did, after))
    | inl (e, failed) ↦
        let after = rw (failed, retry) at h in
        elim (Bool-cases (is_retryable_waf_error e)) [
          | inl more ↦
              let (start, tried, did) = retry-Retried left _ s' a (rw more at after) in
              (start, next_try s _ start e failed more tried, did)
          | inr stop ↦ let bad = rw stop at after in cc
        ]
  ]

  -- A retryable error never leaves the loop.
  pub with_lock_retry-ne-retryable :
      (retries : ℤ) (s s' : S) (e : Exc)
      → with_lock_retry retries s ≡ (raised e, s')
      → is_retryable_waf_error e ≡ false
  unfolding with_lock_retry
  with_lock_retry-ne-retryable retries s s' e h = go (tries retries) s h
    where
      go : (left : ℕ) (s : S) → retry left s ≡ (raised e, s') → is_retryable_waf_error e ≡ false
      go zero s h = ground arith
      go (suc left) s h = elim (Answer-cases (attempt s)) [
        | inr (b, did) ↦ let after = rw (did, retry) at h in cc
        | inl (x, failed) ↦
            let after = rw (failed, retry) at h in
            elim (Bool-cases (is_retryable_waf_error x)) [
              | inl again ↦ go left _ (rw again at after)
              | inr stop ↦ let last = rw stop at after in ground arith
            ]
      ]
