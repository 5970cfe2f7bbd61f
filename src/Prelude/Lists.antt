-- ===== src/Prelude/Lists.antt =====
-- Lists measured by native numbers, Boolean filters, and predicates on lists.
use Prim.Native.Nat.{ℕ, zero, suc, ◌+◌, ◌-◌, ◌≤◌, min}
use mathlib.Core.Path.{◌≡◌, refl, ap}
use mathlib.Core.Bool.{Bool, true, false, ◌&&◌, ◌||◌}
use mathlib.Core.List.{List, [], ◌∷◌, ◌++◌, reverse, reverse-cons}
use mathlib.Core.Option.{Option, none, some}
use native.Mathlib.Omega.{arith}
use cattle.Prelude.Tests.{if◌then◌else◌}

module _ {ℓ} {A : Type ℓ} where
  abbrev pub length : List A → ℕ
  length [] = 0
  length (x ∷ xs) = suc (length xs)

  abbrev pub take : ℕ → List A → List A
  take zero xs = []
  take (suc n) [] = []
  take (suc n) (x ∷ xs) = x ∷ take n xs

  abbrev pub drop : ℕ → List A → List A
  drop zero xs = xs
  drop (suc n) [] = []
  drop (suc n) (x ∷ xs) = drop n xs

  -- The elements that pass a Boolean test: `for ... { if p(x) { append } }`.
  unfoldable pub keep : (A → Bool) → List A → List A
  keep p [] = []
  keep p (x ∷ xs) = if p x then x ∷ keep p xs else keep p xs

  unfoldable pub any : (A → Bool) → List A → Bool
  any p [] = false
  any p (x ∷ xs) = p x || any p xs

  unfoldable pub all : (A → Bool) → List A → Bool
  all p [] = true
  all p (x ∷ xs) = p x && all p xs

  -- The first element that passes a test.
  unfoldable pub find : (A → Bool) → List A → Option A
  find p [] = none
  find p (x ∷ xs) = if p x then some x else find p xs

  abbrev pub All {κ} : (A → Type κ) → List A → Type κ
  All P [] = Unit
  All P (x ∷ xs) = P x × All P xs

  -- The kept elements in order, with elements left out in between.
  pub data Within : List A → List A → Type ℓ where
    done : Within [] []
    skip : {x : A} {xs ys : List A} → Within xs ys → Within xs (x ∷ ys)
    pick : {x : A} {xs ys : List A} → Within xs ys → Within (x ∷ xs) (x ∷ ys)

module _ {ℓ} {A : Type ℓ} where
  pub length-append : (xs ys : List A) → length (xs ++ ys) ≡ length xs + length ys
  length-append [] ys = omega arith
  length-append (x ∷ xs) ys = omega (arith, length-append xs ys)

  pub length-take : (n : ℕ) (xs : List A) → length (take n xs) ≡ min n (length xs)
  length-take zero xs = omega arith
  length-take (suc n) [] = omega arith
  length-take (suc n) (x ∷ xs) = omega (arith, length-take n xs)

  pub length-drop : (n : ℕ) (xs : List A) → length (drop n xs) ≡ length xs - n
  length-drop zero xs = omega arith
  length-drop (suc n) [] = omega arith
  length-drop (suc n) (x ∷ xs) = omega (arith, length-drop n xs)

  pub Within-refl : (xs : List A) → Within xs xs
  Within-refl [] = done
  Within-refl (x ∷ xs) = pick (Within-refl xs)

  pub Within-nil : (xs : List A) → Within [] xs
  Within-nil [] = done
  Within-nil (x ∷ xs) = skip (Within-nil xs)

  pub Within-trans : {ys zs : List A} → Within ys zs → {xs : List A} → Within xs ys → Within xs zs
  Within-trans done w = w
  Within-trans (skip v) w = skip (Within-trans v w)
  Within-trans (pick v) (skip w) = skip (Within-trans v w)
  Within-trans (pick v) (pick w) = pick (Within-trans v w)

  pub length-Within : {xs ys : List A} → Within xs ys → length xs ≤ length ys
  length-Within done = omega arith
  length-Within (skip w) = omega (arith, length-Within w)
  length-Within (pick w) = omega (arith, length-Within w)

  pub take-Within : (n : ℕ) (xs : List A) → Within (take n xs) xs
  take-Within zero xs = Within-nil xs
  take-Within (suc n) [] = done
  take-Within (suc n) (x ∷ xs) = pick (take-Within n xs)

  pub drop-Within : (n : ℕ) (xs : List A) → Within (drop n xs) xs
  drop-Within zero xs = Within-refl xs
  drop-Within (suc n) [] = done
  drop-Within (suc n) (x ∷ xs) = skip (drop-Within n xs)

  pub keep-Within : (p : A → Bool) (xs : List A) → Within (keep p xs) xs
  unfolding keep
  keep-Within p [] = done
  keep-Within p (x ∷ xs) = keep_step (p x) (keep-Within p xs)
    where
      keep_step :
          (b : Bool) {ys : List A} → Within ys xs → Within (if b then x ∷ ys else ys) (x ∷ xs)
      keep_step true w = pick w
      keep_step false w = skip w

  pub All-Within {κ} : (P : A → Type κ) {xs ys : List A} → Within xs ys → All P ys → All P xs
  All-Within P done h = h
  All-Within P (skip w) h = All-Within P w h.1
  All-Within P (pick w) h = (h.0, All-Within P w h.1)

  pub keep-All : (p : A → Bool) (xs : List A) → All (λ x. p x ≡ true) (keep p xs)
  unfolding keep
  keep-All p [] = tt
  keep-All p (x ∷ xs) = keep_step (p x) refl (keep-All p xs)
    where
      keep_step :
          (b : Bool)
          → p x ≡ b
          → All (λ y. p y ≡ true) (keep p xs)
          → All (λ y. p y ≡ true) (if b then x ∷ keep p xs else keep p xs)
      keep_step true e h = (e, h)
      keep_step false e h = h

  pub keep-append : (p : A → Bool) (xs ys : List A) → keep p (xs ++ ys) ≡ keep p xs ++ keep p ys
  unfolding keep
  keep-append p [] ys = refl
  keep-append p (x ∷ xs) ys = ground (arith, keep-append p xs ys)

  -- Elements that follow those which are taken do not matter.
  pub take-append_le : (n : ℕ) (xs ys : List A) → n ≤ length xs → take n (xs ++ ys) ≡ take n xs
  take-append_le zero xs ys h = refl
  take-append_le (suc n) [] ys h = absurd (omega arith)
  take-append_le (suc n) (x ∷ xs) ys h = ap (λ l. x ∷ l) (take-append_le n xs ys (omega arith))

  pub length-reverse : (xs : List A) → length (reverse xs) ≡ length xs
  length-reverse [] = refl
  length-reverse (x ∷ xs) =
      rw (reverse-cons x xs) (omega (arith, length-append (reverse xs) (x ∷ []), length-reverse xs))

  pub take-all : (n : ℕ) (xs : List A) → length xs ≤ n → take n xs ≡ xs
  take-all zero [] h = refl
  take-all zero (x ∷ xs) h = absurd (omega arith)
  take-all (suc n) [] h = refl
  take-all (suc n) (x ∷ xs) h = ap (λ l. x ∷ l) (take-all n xs (omega arith))

  pub take-append_length : (xs ys : List A) → take (length xs) (xs ++ ys) ≡ xs
  take-append_length [] ys = refl
  take-append_length (x ∷ xs) ys = ap (λ l. x ∷ l) (take-append_length xs ys)

  pub drop-append_length : (xs ys : List A) → drop (length xs) (xs ++ ys) ≡ ys
  drop-append_length [] ys = refl
  drop-append_length (x ∷ xs) ys = drop-append_length xs ys
