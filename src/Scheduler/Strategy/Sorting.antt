-- ===== src/Scheduler/Strategy/Sorting.antt =====
-- What `sort.Sort` does with a comparison that is a strict weak order, and an insertion sort that does it.
use mathlib.Core.List.{Perm}
use mathlib.Core.List.Perm
use cattle.Prelude.{◌≡◌, Bool, true, false, List, [], ◌∷◌, Bool-cases, inl, inr, ◌⊎◌, if◌then◌else◌}
use cattle.Scheduler.Strategy.{WeightedNode, Sort}

pub record IsOrder (before : WeightedNode → WeightedNode → Bool) : Type 0 where
  pub asymmetric : (a b : WeightedNode) → before a b ≡ true → before b a ≡ false
  pub between :
      (a b c : WeightedNode) → before a c ≡ true → (before a b ≡ true) ⊎ (before b c ≡ true)

-- No element stands directly behind one that it is before of.
abbrev pub Ordered : (WeightedNode → WeightedNode → Bool) → List WeightedNode → Type 0
Ordered before [] = Unit
Ordered before (w ∷ []) = Unit
Ordered before (v ∷ w ∷ ws) = (before w v ≡ false) × Ordered before (w ∷ ws)

pub record Sorts (sort : Sort) : Type 0 where
  pub same :
      (before : WeightedNode → WeightedNode → Bool) (ws : List WeightedNode)
      → Perm (sort before ws) ws
  pub ordered :
      (before : WeightedNode → WeightedNode → Bool) (ws : List WeightedNode)
      → IsOrder before
      → Ordered before (sort before ws)

module _ (before : WeightedNode → WeightedNode → Bool) where
  abbrev pub place : WeightedNode → List WeightedNode → List WeightedNode
  place w [] = w ∷ []
  place w (v ∷ vs) = let later = place w vs in if before v w then v ∷ later else w ∷ v ∷ vs

  place-perm : (w : WeightedNode) (vs : List WeightedNode) → Perm (place w vs) (w ∷ vs)
  place-perm w [] = Perm.refl (w ∷ [])
  place-perm w (v ∷ vs) = elim (Bool-cases (before v w)) [
    | inl later ↦ rw later (Perm.trans (Perm.cons v (place-perm w vs)) (Perm.swap w v vs))
    | inr here ↦ rw here (Perm.refl (w ∷ v ∷ vs))
  ]

  head-Ordered :
      (u w : WeightedNode) (vs : List WeightedNode)
      → before w u ≡ false
      → Ordered before (u ∷ vs)
      → Ordered before (place w vs)
      → Ordered before (u ∷ place w vs)
  head-Ordered u w [] h old new = (h, tt)
  head-Ordered u w (v ∷ vs) h old new = elim (Bool-cases (before v w)) [
    | inl later ↦ rw later (old.0, rw later at new)
    | inr here ↦ rw here (h, rw here at new)
  ]

  tail-Ordered :
      (v : WeightedNode) (vs : List WeightedNode) → Ordered before (v ∷ vs) → Ordered before vs
  tail-Ordered v [] h = tt
  tail-Ordered v (w ∷ vs) h = h.1

  place-Ordered :
      (order : IsOrder before) (w : WeightedNode) (vs : List WeightedNode)
      → Ordered before vs
      → Ordered before (place w vs)
  place-Ordered order w [] h = tt
  place-Ordered order w (v ∷ vs) h = elim (Bool-cases (before v w)) [
    | inl later ↦ rw later (
        head-Ordered v w vs (order.asymmetric v w later) h
          (place-Ordered order w vs (tail-Ordered v vs h)))
    | inr here ↦ rw here (here, h)
  ]

  abbrev pub insertion_sort : List WeightedNode → List WeightedNode
  insertion_sort [] = []
  insertion_sort (w ∷ ws) = place w (insertion_sort ws)

  insertion_sort-perm : (ws : List WeightedNode) → Perm (insertion_sort ws) ws
  insertion_sort-perm [] = Perm.refl []
  insertion_sort-perm (w ∷ ws) =
      Perm.trans (place-perm w (insertion_sort ws)) (Perm.cons w (insertion_sort-perm ws))

  insertion_sort-Ordered :
      IsOrder before → (ws : List WeightedNode) → Ordered before (insertion_sort ws)
  insertion_sort-Ordered order [] = tt
  insertion_sort-Ordered order (w ∷ ws) =
      place-Ordered order w (insertion_sort ws) (insertion_sort-Ordered order ws)

pub insertion_sort-Sorts : Sorts insertion_sort
insertion_sort-Sorts = record {
  same = insertion_sort-perm;
  ordered = λ before ws order. insertion_sort-Ordered before order ws;
}
