-- ===== src/Prelude/Outcomes.antt =====
-- The outcome of a Go function that may return an error or panic.
use mathlib.Core.Path.{◌≡◌, refl}

pub data Outcome {ℓ} (E : Type 0) (A : Type ℓ) : Type ℓ where
  panic : Outcome E A
  err : (error : E) → Outcome E A
  ok : (result : A) → Outcome E A

-- The next call, after one that returned; `return err` and a panic end the function.
infixl 5 ◌>>=◌
abbrev pub ◌>>=◌ {ℓ κ} :
    {E : Type 0} {A : Type ℓ} {B : Type κ} → Outcome E A → (A → Outcome E B) → Outcome E B
panic >>= next = panic
err error >>= next = err error
ok result >>= next = next result

pub ok-injective {ℓ} :
    {E : Type 0} {A : Type ℓ} (a b : A) → ◌≡◌ {A = Outcome E A} (ok a) (ok b) → a ≡ b
ok-injective a b h = cc

-- A sequence returns only where its first call does, and then its next one.
pub >>=-eq-ok {ℓ κ} :
    {E : Type 0} {A : Type ℓ} {B : Type κ} (first : Outcome E A) (next : A → Outcome E B) {end : B}
    → (first >>= next) ≡ ok end
    → (result : A) × (first ≡ ok result) × (next result ≡ ok end)
>>=-eq-ok panic next h = cc
>>=-eq-ok (err error) next h = cc
>>=-eq-ok (ok result) next h = (result, refl, h)
