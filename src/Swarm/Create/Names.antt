-- ===== src/Swarm/Create/Names.antt =====
-- The name of a new container is no other's.
use cattle.Prelude.{
  ℕ, ◌≡◌, ◌≢◌, ◌↔◌, refl, Bool, true, false, not, ◌&&◌, ◌||◌, List, [], ◌∷◌, ◌++◌, Text, text,
  text_eq, text_eq_distinct, text_eq_apart, any, All, Bool-cases, inl, inr,
}
use cattle.Cluster.Data.{Container}
use cattle.Engine.Data.{Engine}
use cattle.Swarm.Data.{PendingContainer}
use cattle.Swarm.Views.{check_name_uniqueness, bears_name, pends_name, all_containers}

-- A container does not bear the name, with or without a slash.
abbrev pub IsOther : Text → Container → Type 0
IsOther name c = All (λ n. (n ≢ name) × (n ≢ text "/" ++ name)) c.names

module _ {A : Type 0} (p : A → Bool) (P : A → Type 0) (reads : (x : A) → (p x ≡ false) ↔ P x) where
  none_of : (xs : List A) → any p xs ≡ false → All P xs
  unfolding any
  none_of [] h = tt
  none_of (x ∷ xs) h = elim (Bool-cases (p x)) [
    | inl t ↦ let h' : true ≡ false = rw t at h in cc h'
    | inr f ↦ ((reads x).0 f, none_of xs (rw (f, any) at h))
  ]

  of_none : (xs : List A) → All P xs → any p xs ≡ false
  unfolding any
  of_none [] h = refl
  of_none (x ∷ xs) h = rw ((reads x).1 h.0) (of_none xs h.1)

  pub any_none_iff : (xs : List A) → (any p xs ≡ false) ↔ All P xs
  any_none_iff xs = (none_of xs, of_none xs)

other_name_iff :
    (name n : Text)
    → ((text_eq n name || text_eq n (text "/" ++ name)) ≡ false)
      ↔ ((n ≢ name) × (n ≢ text "/" ++ name))
other_name_iff name n = (
  (λ h. elim (Bool-cases (text_eq n name)) [
    | inl t ↦ let h' : true ≡ false = rw t at h in cc h'
    | inr f ↦ (text_eq_apart n name f, text_eq_apart n (text "/" ++ name) (rw f at h))
  ]),
  (λ h. rw (text_eq_distinct n name h.0) (text_eq_distinct n (text "/" ++ name) h.1)),
)

bears_name_iff : (name : Text) (c : Container) → (bears_name name c ≡ false) ↔ IsOther name c
unfolding bears_name
bears_name_iff name c =
    any_none_iff (λ n. text_eq n name || text_eq n (text "/" ++ name))
      (λ n. (n ≢ name) × (n ≢ text "/" ++ name)) (other_name_iff name) c.names

pends_name_iff :
    (name : Text) (e : Text × PendingContainer)
    → (pends_name name e ≡ false) ↔ (e.1.pending_name ≢ name)
unfolding pends_name
pends_name_iff name e =
    (λ h. text_eq_apart e.1.pending_name name h, λ h. text_eq_distinct e.1.pending_name name h)

both_not : (a b : Bool) → (not a && not b) ≡ true → (a ≡ false) × (b ≡ false)
both_not true b h = cc h
both_not false true h = cc h
both_not false false h = (refl, refl)

-- For a name that is not empty, checkNameUniqueness is true exactly when no container of an
-- engine has the name, with or without a slash before it, and no pending container has it.
pub check_name_uniqueness_iff :
    (b : ℕ) (name : Text) (es : List (Text × Engine)) (ps : List (Text × PendingContainer))
    → (check_name_uniqueness (b ∷ name) es ps ≡ true)
      ↔ (All (IsOther (b ∷ name)) (all_containers es) × All (λ e. e.1.pending_name ≢ b ∷ name) ps)
unfolding check_name_uniqueness pends_name
check_name_uniqueness_iff b name es ps =
    let containers =
      any_none_iff (bears_name (b ∷ name)) (IsOther (b ∷ name)) (bears_name_iff (b ∷ name))
        (all_containers es) in
    let pending =
      any_none_iff (pends_name (b ∷ name)) (λ e. e.1.pending_name ≢ b ∷ name)
        (pends_name_iff (b ∷ name)) ps in
    (
      (λ h.
          let (c, p) =
            both_not (any (bears_name (b ∷ name)) (all_containers es))
              (any (pends_name (b ∷ name)) ps) h in
          (containers.0 c, pending.0 p)),
      (λ h. rw (containers.1 h.0, pending.1 h.1) refl),
    )
