-- ===== src/Engine/Health/Indicator.antt =====
-- What HealthIndicator tells the scheduler.
use native.Mathlib.Nat.{div-lt_iff_lt-mul}
use cattle.Prelude.{
  mul64_small, div64_small, Bool-cases, inl, inr, ℕ, ◌*◌, ◌/◌, ◌^◌, ◌-◌, ◌<◌, ◌≤◌, ◌≡◌, refl, true,
  false, ◌↔◌, pos, sub64_small, leb, arith,
}
use cattle.Engine.Data.{EngineState, pending, unhealthy, healthy, disconnected, Engine}
use cattle.Engine.Health.{is_healthy_state, health_indicator}

below_hundred : (count retry : ℕ) → count < retry → count * 100 / retry < 100
below_hundred count retry h =
    (div-lt_iff_lt-mul {k = retry} {x = count * 100} {y = 100} (omega arith)).1 (omega arith)

pub is_healthy_state_iff : (s : EngineState) → (is_healthy_state s ≡ true) ↔ (s ≡ healthy)
is_healthy_state_iff pending = (λ h. cc, λ h. cc)
is_healthy_state_iff unhealthy = (λ h. cc, λ h. cc)
is_healthy_state_iff healthy = (λ h. refl, λ h. refl)
is_healthy_state_iff disconnected = (λ h. cc, λ h. cc)

pub health_indicator_up :
    (e : Engine) (count retry : ℕ)
    → e.engine_state ≡ healthy
    → e.failure_count ≡ pos count
    → e.failure_retry ≡ pos retry
    → count * 100 < 2 ^ 63
    → count < retry
    → health_indicator e ≡ pos (100 - count * 100 / retry)
unfolding health_indicator
health_indicator_up e count retry up c r small h =
    let few : leb retry count ≡ false = ground arith in
    let part = below_hundred count retry h in
    rw
      (
        up,
        c,
        r,
        few,
        mul64_small count 100 small,
        div64_small (count * 100) retry small,
        sub64_small 100 (count * 100 / retry) (omega arith) (omega arith),
      )
      (ground arith)

-- For a failure count that is not negative and small enough not to overflow, and a
-- FailureRetry that is not negative, HealthIndicator is between 0 and 100, and it is above 0
-- exactly when the engine is healthy and has failed less often than FailureRetry.
pub health_indicator_bounds :
    (e : Engine) (count retry : ℕ)
    → e.failure_count ≡ pos count
    → e.failure_retry ≡ pos retry
    → count * 100 < 2 ^ 63
    → (k : ℕ) × (health_indicator e ≡ pos k)
      × (k ≤ 100)
      × ((0 < k) ↔ ((e.engine_state ≡ healthy) × (count < retry)))
unfolding health_indicator
health_indicator_bounds e count retry c r small =
    let iff = is_healthy_state_iff e.engine_state in
    elim (Bool-cases (is_healthy_state e.engine_state)) [
      | inr down ↦ (
        0,
        rw down refl,
        omega arith,
        (λ h. absurd (omega arith), λ h. let up = iff.1 h.0 in cc (up, down)),
      )
      | inl up ↦ elim (Bool-cases (leb retry count)) [
        | inl many ↦ (
          0,
          rw (up, c, r, many) refl,
          omega arith,
          (λ h. absurd (omega arith), λ h. absurd (ground arith)),
        )
        | inr few ↦
            let h : count < retry = ground arith in
            let part = below_hundred count retry h in
            (
              100 - count * 100 / retry,
              health_indicator_up e count retry (iff.0 up) c r small h,
              omega arith,
              (λ _. (iff.0 up, h), λ _. omega arith),
            )
      ]
    ]
