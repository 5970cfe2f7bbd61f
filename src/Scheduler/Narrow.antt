-- ===== src/Scheduler/Narrow.antt =====
-- The loop that all filters share: the candidates that pass a test, in order, and an error where none does.
pub mod Kept
use cattle.Prelude.{Bool, true, false, List, [], ◌∷◌, Outcome, ok, err, panic, ◌>>=◌, if◌then◌else◌}

module _ {E A : Type 0} where
  unfoldable pub keep_where : (A → Outcome E Bool) → List A → Outcome E (List A)
  keep_where test [] = ok []
  keep_where test (x ∷ xs) = do
    b ← test x
    candidates ← keep_where test xs
    ok (if b then x ∷ candidates else candidates)

  -- if len(candidates) == 0 { return nil, err }
  unfoldable pub or_error : E → List A → Outcome E (List A)
  or_error error [] = err error
  or_error error (x ∷ xs) = ok (x ∷ xs)

  unfoldable pub narrow : E → (A → Outcome E Bool) → List A → Outcome E (List A)
  unfolding keep_where or_error
  narrow error test xs = do candidates ← keep_where test xs; or_error error candidates

  -- Rounds of a loop that each narrow the candidates.
  unfoldable pub narrow_all :
      {B : Type 0} → (B → E) → (B → A → Outcome E Bool) → List B → List A → Outcome E (List A)
  unfolding narrow
  narrow_all error test [] xs = ok xs
  narrow_all error test (b ∷ bs) xs = do
    candidates ← narrow (error b) (test b) xs
    narrow_all error test bs candidates
