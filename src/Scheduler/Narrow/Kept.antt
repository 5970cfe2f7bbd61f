-- ===== src/Scheduler/Narrow/Kept.antt =====
-- Narrowing keeps exactly the elements that pass.
use cattle.Prelude.{
  ◌≡◌, ◌≢◌, refl, sym, ap, ◌∙◌, Bool, true, false, ◌&&◌, List, [], ◌∷◌, Outcome, ok, err, panic,
  ◌>>=◌, >>=-eq-ok, ok-injective, keep, All, if◌then◌else◌, arith,
}
use cattle.Scheduler.Narrow.{keep_where, or_error, narrow, narrow_all}

abbrev pub passes : {E : Type 0} → Outcome E Bool → Bool
passes panic = false
passes (err e) = false
passes (ok b) = b

-- A test that returns.
abbrev pub Returns : {E : Type 0} → Outcome E Bool → Type 0
Returns m = (b : Bool) × (m ≡ ok b)

module _ {A : Type 0} where
  pub keep-keep : (p q : A → Bool) (xs : List A) → keep q (keep p xs) ≡ keep (λ x. p x && q x) xs
  unfolding keep
  keep-keep p q [] = refl
  keep-keep p q (x ∷ xs) = ground (arith, keep-keep p q xs)

  pub keep_all : (xs : List A) → keep (λ x. true) xs ≡ xs
  unfolding keep
  keep_all [] = refl
  keep_all (x ∷ xs) = ap (λ l. x ∷ l) (keep_all xs)

  pub keep_nil : (p : A → Bool) → keep p [] ≡ []
  unfolding keep
  keep_nil p = refl

  pub keep_same : (p q : A → Bool) → ((x : A) → p x ≡ q x) → (xs : List A) → keep p xs ≡ keep q xs
  unfolding keep
  keep_same p q same [] = refl
  keep_same p q same (x ∷ xs) =
      rw (same x) (ap (λ l. if q x then x ∷ l else l) (keep_same p q same xs))

module _ {E A : Type 0} where
  keep_where-eq :
      (test : A → Outcome E Bool) (xs ys : List A)
      → keep_where test xs ≡ ok ys
      → ys ≡ keep (λ x. passes (test x)) xs
  unfolding keep_where keep
  keep_where-eq test [] ys h = cc h
  keep_where-eq test (x ∷ xs) ys h =
      let (b, e, h1) =
        >>=-eq-ok (test x) (λ b. keep_where test xs >>= λ cs. ok (if b then x ∷ cs else cs)) h in
      let (cs, e', h2) = >>=-eq-ok (keep_where test xs) (λ cs. ok (if b then x ∷ cs else cs)) h1 in
      sym (ok-injective (if b then x ∷ cs else cs) ys h2)
      ∙ rw e (ap (λ l. if b then x ∷ l else l) (keep_where-eq test xs cs e'))

  keep_where_total :
      (test : A → Outcome E Bool)
      → ((x : A) → Returns (test x))
      → (xs : List A) → keep_where test xs ≡ ok (keep (λ x. passes (test x)) xs)
  unfolding keep_where keep
  keep_where_total test returns [] = refl
  keep_where_total test returns (x ∷ xs) = rw ((returns x).1, keep_where_total test returns xs) refl

  pub or_error-eq : (error : E) (xs ys : List A) → or_error error xs ≡ ok ys → ys ≡ xs
  unfolding or_error
  or_error-eq error [] ys h = cc h
  or_error-eq error (x ∷ xs) ys h = sym (ok-injective (x ∷ xs) ys h)

  pub or_error-some : (error : E) (xs : List A) → xs ≢ [] → or_error error xs ≡ ok xs
  unfolding or_error
  or_error-some error [] h = absurd (h refl)
  or_error-some error (x ∷ xs) h = refl

  pub narrow-eq :
      (error : E) (test : A → Outcome E Bool) (xs ys : List A)
      → narrow error test xs ≡ ok ys
      → ys ≡ keep (λ x. passes (test x)) xs
  unfolding narrow
  narrow-eq error test xs ys h =
      let (cs, e, h1) = >>=-eq-ok (keep_where test xs) (or_error error) h in
      or_error-eq error cs ys h1 ∙ keep_where-eq test xs cs e

  pub narrow_total :
      (error : E) (test : A → Outcome E Bool)
      → ((x : A) → Returns (test x))
      → (xs : List A) → narrow error test xs ≡ or_error error (keep (λ x. passes (test x)) xs)
  unfolding narrow
  narrow_total error test returns xs = rw (keep_where_total test returns xs)

  -- What all rounds keep.
  abbrev pub passes_all : {B : Type 0} → (B → A → Outcome E Bool) → List B → A → Bool
  passes_all test [] x = true
  passes_all test (b ∷ bs) x = passes (test b x) && passes_all test bs x

  pub narrow_all-eq :
      {B : Type 0} (error : B → E) (test : B → A → Outcome E Bool) (bs : List B) (xs ys : List A)
      → narrow_all error test bs xs ≡ ok ys
      → ys ≡ keep (passes_all test bs) xs
  unfolding narrow_all
  narrow_all-eq error test [] xs ys h = sym (ok-injective xs ys h) ∙ sym (keep_all xs)
  narrow_all-eq error test (b ∷ bs) xs ys h =
      let (cs, e, h1) = >>=-eq-ok (narrow (error b) (test b) xs) (narrow_all error test bs) h in
      narrow_all-eq error test bs cs ys h1
      ∙ ap (keep (passes_all test bs)) (narrow-eq (error b) (test b) xs cs e)
      ∙ keep-keep (λ x. passes (test b x)) (passes_all test bs) xs

  -- Where some element passes all rounds, they keep all that do.
  pub narrow_all-some :
      {B : Type 0} (error : B → E) (test : B → A → Outcome E Bool) (bs : List B)
      → All (λ b. (x : A) → Returns (test b x)) bs
      → (xs : List A) → keep (passes_all test bs) xs ≢ []
      → narrow_all error test bs xs ≡ ok (keep (passes_all test bs) xs)
  unfolding narrow_all
  narrow_all-some error test [] returns xs h = ap ok (sym (keep_all xs))
  narrow_all-some error test (b ∷ bs) returns xs h =
      let first = keep (λ x. passes (test b x)) xs in
      let both = keep-keep (λ x. passes (test b x)) (passes_all test bs) xs in
      let rest_some : keep (passes_all test bs) first ≢ [] = λ e. h (sym both ∙ e) in
      let some_first : first ≢ [] = λ e. rest_some (rw e (keep_nil (passes_all test bs))) in
      rw (narrow_total (error b) (test b) returns.0 xs, or_error-some (error b) first some_first)
        (narrow_all-some error test bs returns.1 first rest_some ∙ ap ok both)

  or_error_returns :
      {B : Type 0} (error : E) (xs : List A) (next : List A → Outcome E B)
      → ((ys : List A) → next ys ≢ panic)
      → (or_error error xs >>= next) ≢ panic
  unfolding or_error
  or_error_returns error [] next returns h = cc h
  or_error_returns error (x ∷ xs) next returns h = returns (x ∷ xs) h

  -- Tests that return make no round panic.
  pub narrow_all-Returns :
      {B : Type 0} (error : B → E) (test : B → A → Outcome E Bool) (bs : List B)
      → All (λ b. (x : A) → Returns (test b x)) bs
      → (xs : List A) → narrow_all error test bs xs ≢ panic
  unfolding narrow_all
  narrow_all-Returns error test [] returns xs h = cc h
  narrow_all-Returns error test (b ∷ bs) returns xs h =
      or_error_returns (error b) (keep (λ x. passes (test b x)) xs) (narrow_all error test bs)
        (λ ys. narrow_all-Returns error test bs returns.1 ys)
        (rw (narrow_total (error b) (test b) returns.0 xs) at h)

  pub or_error_no_panic : (error : E) (xs : List A) → or_error error xs ≢ panic
  unfolding or_error
  or_error_no_panic error [] h = cc h
  or_error_no_panic error (x ∷ xs) h = cc h
