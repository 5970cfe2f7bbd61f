-- ===== src/Engine/Health/Failing.antt =====
-- An engine that fails call after call, and its return.
use native.Mathlib.Decide.{dec_lt}
use native.Mathlib.Nat.{div-lt_iff_lt-mul}
use cattle.Prelude.{
  ◌*◌, ◌/◌, Bool-cases, inl, inr, ◌-◌, ℕ, ◌+◌, ◌<◌, ◌≤◌, ◌^◌, ◌≡◌, refl, ap, ◌∙◌, true, false, List,
  [], ◌∷◌, ◌++◌, some, Text, text, ℤ, pos, add64, add64_small, arith, length, All, append-nil, leb,
}
use cattle.Engine.Health.Indicator.{health_indicator_up}
use cattle.Engine.Data.{unhealthy, healthy, Engine, ApiError}
use cattle.Engine.Health.{
  inc_failure_count, check_connection_err, failed, answered, is_connection_error, emit,
  health_indicator,
}

-- Calls of the daemon that end in errors, one after the other.
abbrev pub fail_all : List (ℤ × ApiError) → Engine → Engine × List Text
unfolding check_connection_err
fail_all [] e = (e, [])
fail_all ((now, x) ∷ calls) e =
    let (e', events) = check_connection_err now (some x) e in
    let (e'', more) = fail_all calls e' in (e'', events ++ more)

module _ (retry : ℕ) (small : retry < 2 ^ 63) where
  -- A healthy engine that has failed `count` times, and an unhealthy one.
  pub record Failed (e : Engine) (count : ℕ) : Type 0 where
    pub up : e.engine_state ≡ healthy
    pub counted : e.failure_count ≡ pos count
    pub limit : e.failure_retry ≡ pos retry

  one_more :
      (e : Engine) (count : ℕ)
      → Failed e count
      → count < retry
      → add64 e.failure_count (pos 1) ≡ pos (count + 1)
  one_more e count f h = ap (λ n. add64 n (pos 1)) f.counted ∙ add64_small count 1 (omega arith)

  stays_up :
      (now : ℤ) (x : ApiError) (e : Engine) (count : ℕ)
      → is_connection_error x ≡ true
      → Failed e count
      → count + 1 < retry
      → Failed (check_connection_err now (some x) e).0 (count + 1)
        × ((check_connection_err now (some x) e).1 ≡ [])
  unfolding check_connection_err failed inc_failure_count
  stays_up now x e count lost f more =
      let few : leb retry (count + 1) ≡ false = ground arith in
      rw (lost, f.up, one_more e count f (omega arith), f.limit, few)
        (record { up = refl; counted = refl; limit = refl }, refl)

  goes_down :
      (now : ℤ) (x : ApiError) (e : Engine) (count : ℕ)
      → is_connection_error x ≡ true
      → Failed e count
      → count + 1 ≡ retry
      → ((check_connection_err now (some x) e).0.engine_state ≡ unhealthy)
        × ((check_connection_err now (some x) e).1 ≡ emit (text "engine_disconnect") e)
  unfolding check_connection_err failed inc_failure_count
  goes_down now x e count lost f last =
      let many : leb retry (count + 1) ≡ true = ground arith in
      rw (lost, f.up, one_more e count f (omega arith), f.limit, many) (refl, refl)

  stays_down :
      (now : ℤ) (x : ApiError) (e : Engine)
      → e.engine_state ≡ unhealthy
      → ((check_connection_err now (some x) e).0.engine_state ≡ unhealthy)
        × ((check_connection_err now (some x) e).1 ≡ [])
  unfolding check_connection_err failed inc_failure_count
  stays_down now x e down = elim (Bool-cases (is_connection_error x)) [
    | inl lost ↦ rw (lost, down) (refl, refl)
    | inr other ↦ rw (other, down) (refl, refl)
  ]

  all_stay_down :
      (calls : List (ℤ × ApiError)) (e : Engine)
      → e.engine_state ≡ unhealthy
      → ((fail_all calls e).0.engine_state ≡ unhealthy) × ((fail_all calls e).1 ≡ [])
  unfolding fail_all
  all_stay_down [] e down = (down, refl)
  all_stay_down ((now, x) ∷ calls) e down =
      let (down', silent) = stays_down now x e down in
      let (down'', silent') = all_stay_down calls (check_connection_err now (some x) e).0 down' in
      (down'', rw (silent, silent') refl)

  has_handler_same :
      (now : ℤ) (x : ApiError) (e : Engine)
      → (check_connection_err now (some x) e).0.has_handler ≡ e.has_handler
  unfolding check_connection_err failed inc_failure_count
  has_handler_same now x e = ground arith

  same_emit :
      (e : Engine) (now : ℤ) (x : ApiError)
      → emit (text "engine_disconnect") (check_connection_err now (some x) e).0
        ≡ emit (text "engine_disconnect") e
  unfolding emit
  same_emit e now x = rw (has_handler_same now x e) refl

  fail_from :
      (calls : List (ℤ × ApiError)) (e : Engine) (count : ℕ)
      → All (λ (call : ℤ × ApiError). is_connection_error call.1 ≡ true) calls
      → Failed e count
      → count < retry
      → (count + length calls < retry
          → ((fail_all calls e).0.engine_state ≡ healthy) × ((fail_all calls e).1 ≡ []))
        × (retry ≤ count + length calls
            → ((fail_all calls e).0.engine_state ≡ unhealthy)
              × ((fail_all calls e).1 ≡ emit (text "engine_disconnect") e))
  unfolding fail_all
  fail_from [] e count lost f more = (λ h. (f.up, refl), λ h. absurd (omega arith))
  fail_from ((now, x) ∷ calls) e count lost f more = elim (dec_lt (count + 1) retry) [
    | yes few ↦
        let (f', silent) = stays_up now x e count lost.0 f few in
        let rest =
          fail_from calls (check_connection_err now (some x) e).0 (count + 1) lost.1 f' few in
        (
          λ h. let r = rest.0 (omega arith) in (r.0, rw silent r.1),
          λ h. let r = rest.1 (omega arith) in (r.0, rw silent (r.1 ∙ same_emit e now x)),
        )
    | no many ↦
        let (down, told) = goes_down now x e count lost.0 f (omega arith) in
        let (down', silent) = all_stay_down calls (check_connection_err now (some x) e).0 down in
        (
          λ h. absurd (omega arith),
          λ h. (down', rw (told, silent) (append-nil (emit (text "engine_disconnect") e))),
        )
  ]

-- For a healthy engine without failures and a FailureRetry `retry` that is positive and below
-- 2^63, after calls that all end in connection errors: with fewer than `retry` of them it is
-- still healthy and has emitted nothing; with `retry` or more it is unhealthy and has emitted
-- one engine_disconnect, where a handler listens.
pub fail_all_threshold :
    (calls : List (ℤ × ApiError)) (e : Engine) (retry : ℕ)
    → All (λ (call : ℤ × ApiError). is_connection_error call.1 ≡ true) calls
    → e.engine_state ≡ healthy
    → e.failure_count ≡ pos 0
    → e.failure_retry ≡ pos retry
    → 0 < retry
    → retry < 2 ^ 63
    → (length calls < retry
        → ((fail_all calls e).0.engine_state ≡ healthy) × ((fail_all calls e).1 ≡ []))
      × (retry ≤ length calls
          → ((fail_all calls e).0.engine_state ≡ unhealthy)
            × ((fail_all calls e).1 ≡ emit (text "engine_disconnect") e))
fail_all_threshold calls e retry lost up none_yet limit some_retry small =
    let both =
      fail_from retry small calls e 0 lost (record { up = up; counted = none_yet; limit = limit })
        some_retry in
    (λ h. both.0 (omega arith), λ h. both.1 (omega arith))

no_failures : (retry : ℕ) → 0 < retry → 100 - 0 * 100 / retry ≡ 100
no_failures retry some_retry =
    let nothing =
      (div-lt_iff_lt-mul {k = retry} {x = 0 * 100} {y = 1} some_retry).1 (omega arith) in
    omega (arith, nothing)

-- One call without an error makes an unhealthy engine with a positive FailureRetry healthy,
-- with a health indicator of 100, and emits engine_reconnect where a handler listens.
pub answered_recovers :
    (now : ℤ) (e : Engine) (retry : ℕ)
    → e.engine_state ≡ unhealthy
    → e.failure_retry ≡ pos retry
    → 0 < retry
    → ((answered now e).0.engine_state ≡ healthy)
      × (health_indicator (answered now e).0 ≡ pos 100)
      × ((answered now e).1 ≡ emit (text "engine_reconnect") e)
unfolding answered emit
answered_recovers now e retry down limit some_retry =
    let up : (answered now e).0.engine_state ≡ healthy = rw down refl in
    let count : (answered now e).0.failure_count ≡ pos 0 = rw down refl in
    let same : (answered now e).0.failure_retry ≡ pos retry = rw down limit in
    (
      up,
      health_indicator_up (answered now e).0 0 retry up count same (omega arith) some_retry
          ∙ ap pos (no_failures retry some_retry),
      rw down refl,
    )
