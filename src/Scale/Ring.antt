-- ===== src/Scale/Ring.antt =====
-- container/ring as cluster/swarm/task.go uses it: a ring with a `Head` element that holds no value
-- and a `Current` pointer.
use mathlib.Core.List.{reverse, reverse-reverse}
use cattle.Prelude.{◌≡◌, refl, List, [], ◌∷◌, ◌++◌}

-- Behind `Head` stand the elements of `behind`, in reverse, and then those of `ahead`, whose first
-- one is `Current`. Where `ahead` is empty, `Current` is `Head`.
pub record Ring {ℓ} (A : Type ℓ) : Type ℓ where
  pub behind : List A
  pub ahead : List A

module _ {ℓ} {A : Type ℓ} where
  -- Head := ring.New(1), Current := Head
  abbrev pub lone_head : Ring A
  lone_head = record { behind = []; ahead = [] }

  -- The elements in the order of the ring, from `Head` on.
  abbrev pub elements : Ring A → List A
  elements r = reverse r.behind ++ r.ahead

  -- The elements in the order of the ring, from `Current` on.
  abbrev pub upcoming : Ring A → List A
  upcoming r = r.ahead ++ reverse r.behind

  next_of : List A → List A → Ring A
  next_of b [] = record { behind = []; ahead = reverse b }
  next_of b (c ∷ a) = record { behind = c ∷ b; ahead = a }

  -- Current = Current.Next()
  unfoldable pub next : Ring A → Ring A
  unfolding next_of
  next r = next_of r.behind r.ahead

  prev_of : List A → List A → Ring A
  prev_of [] a = record { behind = reverse a; ahead = [] }
  prev_of (p ∷ b) a = record { behind = b; ahead = p ∷ a }

  -- Current = Current.Prev()
  unfoldable pub prev : Ring A → Ring A
  unfolding prev_of
  prev r = prev_of r.behind r.ahead

  link_of : A → List A → List A → Ring A
  link_of x b [] = record { behind = x ∷ []; ahead = reverse b }
  link_of x b (c ∷ a) = record { behind = x ∷ c ∷ b; ahead = a }

  -- Current = Current.Link(temp) for a ring `temp` of the one element `x`: it is put behind
  -- `Current`, and the result is the element that stood there.
  unfoldable pub link : A → Ring A → Ring A
  unfolding link_of
  link x r = link_of x r.behind r.ahead

  tail : List A → List A
  tail [] = []
  tail (x ∷ xs) = xs

  unlink_of : List A → List A → Ring A
  unfolding tail
  unlink_of b [] = record { behind = reverse (tail (reverse b)); ahead = [] }
  unlink_of b (c ∷ a) = record { behind = b; ahead = c ∷ tail a }

  -- Current.Unlink(1): the element behind `Current` is taken out. (It is never `Head` where the
  -- program calls this.)
  unfoldable pub unlink_next : Ring A → Ring A
  unfolding unlink_of
  unlink_next r = unlink_of r.behind r.ahead

  -- Taking the current element out and going on leaves all others in place.
  pub remove_current :
      (t : A) (b a : List A)
      → next (unlink_next (prev (record { behind = b; ahead = t ∷ a })))
        ≡ record { behind = b; ahead = a }
  unfolding next prev unlink_next
  remove_current t [] a = rw (reverse-reverse (t ∷ a)) (rw (reverse-reverse a))
  remove_current t (p ∷ b) a = refl
