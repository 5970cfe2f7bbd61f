-- ===== src/Engine/Health/Backoff.antt =====
-- When a pending engine is validated again.
use native.Mathlib.Nat.{pow-suc}
use native.Mathlib.Decide.{dec_lt}
use cattle.Prelude.{
  ℕ, suc, zero, ◌+◌, ◌*◌, ◌%◌, ◌^◌, ◌-◌, ◌<◌, ◌≤◌, ◌≡◌, refl, Bool, true, ◌↔◌, ◌⊎◌, ℤ, pos, wrap64,
  ◌&&◌, arith, eqb_ℤ, subst,
}
use cattle.Engine.Data.{pending, Engine}
use cattle.Engine.Health.{time_to_validate, validation_backoff, shift_one, min_failure_backoff}

-- The tests below a bound, by evaluation.
all_below : ℕ → (ℕ → Bool) → Bool
all_below zero p = true
all_below (suc n) p = p n && all_below n p

all_below_lem : (n : ℕ) (p : ℕ → Bool) (k : ℕ) → all_below n p ≡ true → k < n → p k ≡ true
unfolding all_below
all_below_lem zero p k h lt = absurd (omega arith)
all_below_lem (suc n) p k h lt = ground (arith, all_below_lem n p k)

eqb-eq : (a b : ℤ) → eqb_ℤ a b ≡ true → a ≡ b
eqb-eq a b h = ground arith

exact_table :
    all_below 34 (λ n. eqb_ℤ (validation_backoff (pos n)) (pos (2 ^ n * 1000000000 + 30000000000)))
    ≡ true
unfolding all_below validation_backoff
exact_table = refl

floor_table :
    all_below 9 (λ k. eqb_ℤ (validation_backoff (pos (k + 55))) min_failure_backoff) ≡ true
unfolding all_below validation_backoff
floor_table = refl

high_power : (k : ℕ) → 2 ^ (k + 64) % 2 ^ 64 ≡ 0
high_power zero = refl
high_power (suc k) =
    let shift : suc k + 64 ≡ suc (k + 64) = omega arith in
    rw (shift, pow-suc 2 (k + 64)) (omega (arith, high_power k))

shift_lost : (k : ℕ) → shift_one (pos (k + 64)) ≡ pos 0
unfolding shift_one
shift_lost k = rw (high_power k, wrap64) refl

floor_from_64 : (k : ℕ) → validation_backoff (pos (k + 64)) ≡ min_failure_backoff
unfolding validation_backoff
floor_from_64 k = rw (shift_lost k) refl

validation_backoff_exact :
    (n : ℕ) → n < 34 → validation_backoff (pos n) ≡ pos (2 ^ n * 1000000000 + 30000000000)
validation_backoff_exact n h = eqb-eq _ _ (all_below_lem 34 _ n exact_table h)

validation_backoff_lost : (n : ℕ) → 55 ≤ n → validation_backoff (pos n) ≡ min_failure_backoff
validation_backoff_lost n h = elim (dec_lt n 64) [
  | yes small ↦
      let e : n - 55 + 55 ≡ n = omega arith in
      subst (λ m. validation_backoff (pos m) ≡ min_failure_backoff) e
        (eqb-eq _ _ (all_below_lem 9 _ (n - 55) floor_table (omega arith)))
  | no large ↦
      let e : n - 64 + 64 ≡ n = omega arith in
      subst (λ m. validation_backoff (pos m) ≡ min_failure_backoff) e (floor_from_64 (n - 64))
]

time_to_validate_iff :
    (e : Engine) (n since : ℕ)
    → e.engine_state ≡ pending
    → e.failure_count ≡ pos n
    → n < 34
    → (time_to_validate (pos since) e ≡ true)
      ↔ ((14400000000000 < since) ⊎ (2 ^ n * 1000000000 + 30000000000 < since))
unfolding time_to_validate
time_to_validate_iff e n since waits count small =
    rw (waits, count, validation_backoff_exact n small) (λ h. ground arith, λ h. ground arith)

time_to_validate_lost :
    (e : Engine) (n since : ℕ)
    → e.engine_state ≡ pending
    → e.failure_count ≡ pos n
    → 55 ≤ n
    → (time_to_validate (pos since) e ≡ true) ↔ (30000000000 < since)
unfolding time_to_validate
time_to_validate_lost e n since waits count large =
    rw (waits, count, validation_backoff_lost n large) (λ h. ground arith, λ h. ground arith)

-- For a pending engine with failure count `n`: below 34 failures TimeToValidate is true
-- exactly when four hours have passed or 2^n + 30 seconds have; from 55 failures on the
-- shifted number of seconds overflows to 0 and it is true exactly when 30 seconds have passed.
pub time_to_validate_regimes :
    (e : Engine) (n since : ℕ)
    → e.engine_state ≡ pending
    → e.failure_count ≡ pos n
    → (n < 34
        → (time_to_validate (pos since) e ≡ true)
          ↔ ((14400000000000 < since) ⊎ (2 ^ n * 1000000000 + 30000000000 < since)))
      × (55 ≤ n → (time_to_validate (pos since) e ≡ true) ↔ (30000000000 < since))
time_to_validate_regimes e n since waits count = (
  λ small. time_to_validate_iff e n since waits count small,
  λ large. time_to_validate_lost e n since waits count large,
)
