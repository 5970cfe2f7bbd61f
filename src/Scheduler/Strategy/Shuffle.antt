-- ===== src/Scheduler/Strategy/Shuffle.antt =====
-- scheduler/strategy/random.go: the loop that swaps each node with one that is drawn. The numbers of
-- `rand.Intn(i + 1)` are a parameter; they are within the list, where Go reads and writes it.
use mathlib.Core.List.{Perm}
use mathlib.Core.List.Perm
use cattle.Prelude.{
  subst, ℕ, zero, suc, ◌-◌, ◌≡◌, refl, List, [], ◌∷◌, Option, none, some, length, ok, Option-cases,
  inl, inr, sym,
}
use cattle.Scheduler.Strategy.{Strategy}

module _ {A : Type 0} where
  abbrev pub get_elem? : ℕ → List A → Option A
  get_elem? i [] = none
  get_elem? zero (x ∷ xs) = some x
  get_elem? (suc i) (x ∷ xs) = get_elem? i xs

  abbrev pub set_elem : ℕ → A → List A → List A
  set_elem i y [] = []
  set_elem zero y (x ∷ xs) = y ∷ xs
  set_elem (suc i) y (x ∷ xs) = x ∷ set_elem i y xs

  -- nodes[i], nodes[j] = nodes[j], nodes[i]
  unfoldable pub swap : ℕ → ℕ → List A → List A
  swap i j xs = elim (get_elem? i xs) [
    | none ↦ xs
    | some x ↦ elim (get_elem? j xs) [ none ↦ xs | some y ↦ set_elem i y (set_elem j x xs) ]
  ]

  -- The rounds for the indices from `i` down to 1.
  unfoldable pub shuffle : (ℕ → ℕ) → ℕ → List A → List A
  unfolding swap
  shuffle draw zero xs = xs
  shuffle draw (suc i) xs = shuffle draw i (swap (suc i) (draw (suc i)) xs)

  some_eq : (x y : A) → ◌≡◌ {A = Option A} (some x) (some y) → x ≡ y
  some_eq x y h = cc h

  set_elem-perm :
      (i : ℕ) (x y : A) (xs : List A)
      → get_elem? i xs ≡ some x
      → Perm (x ∷ set_elem i y xs) (y ∷ xs)
  set_elem-perm i x y [] h = cc h
  set_elem-perm zero x y (z ∷ xs) h =
      let e : z ≡ x = some_eq z x h in
      subst (λ w. Perm (x ∷ y ∷ xs) (y ∷ w ∷ xs)) (sym e) (Perm.swap y x xs)
  set_elem-perm (suc i) x y (z ∷ xs) h =
      Perm.trans (Perm.swap z x (set_elem i y xs))
        (Perm.trans (Perm.cons z (set_elem-perm i x y xs h)) (Perm.swap y z xs))

  -- Setting an element to what stands at `i` does not change what stands there.
  get_elem-set_elem :
      (i j : ℕ) (x : A) (xs : List A)
      → get_elem? i xs ≡ some x
      → get_elem? i (set_elem j x xs) ≡ some x
  get_elem-set_elem i j x [] h = h
  get_elem-set_elem zero zero x (z ∷ xs) h = refl
  get_elem-set_elem zero (suc j) x (z ∷ xs) h = h
  get_elem-set_elem (suc i) zero x (z ∷ xs) h = h
  get_elem-set_elem (suc i) (suc j) x (z ∷ xs) h = get_elem-set_elem i j x xs h

  swap-perm : (i j : ℕ) (xs : List A) → Perm (swap i j xs) xs
  unfolding swap
  swap-perm i j xs = elim (Option-cases (get_elem? i xs)) [
    | inl outside ↦ rw (outside, swap) (Perm.refl xs)
    | inr (x, at_i) ↦ elim (Option-cases (get_elem? j xs)) [
      | inl outside ↦ rw (at_i, outside, swap) (Perm.refl xs)
      | inr (y, at_j) ↦
          rw (at_i, at_j, swap)
            (Perm.cons_inv (
              Perm.trans (set_elem-perm i x y (set_elem j x xs) (get_elem-set_elem i j x xs at_i))
                (set_elem-perm j y x xs at_j)))
    ]
  ]

  -- The loop of the random strategy only reorders a list, whatever numbers are drawn and from
  -- whatever index it starts.
  pub shuffle-perm : (draw : ℕ → ℕ) (i : ℕ) (xs : List A) → Perm (shuffle draw i xs) xs
  unfolding shuffle
  shuffle-perm draw zero xs = Perm.refl xs
  shuffle-perm draw (suc i) xs =
      Perm.trans (shuffle-perm draw i (swap (suc i) (draw (suc i)) xs))
        (swap-perm (suc i) (draw (suc i)) xs)

-- RandomPlacementStrategy.RankAndSort
unfoldable pub random : (ℕ → ℕ) → Strategy
unfolding shuffle
random draw config nodes = ok (shuffle draw (length nodes - 1) nodes)
