-- ===== src/Mesos/Entries.antt =====
-- Lemmas on the maps of cluster/mesos.
use cattle.Prelude.{
  ◌≡◌, refl, ap, subst, Bool, ◌&&◌, ◌||◌, true, false, List, [], ◌∷◌, Option, some, Text, text_eq,
  text_eq→eq, text_eq_refl, All, Bool-cases, inl, inr,
}
use cattle.Cluster.Data.{lookup, insert, delete}
use cattle.Mesos.Agents.{is_nil}

module _ {V : Type 0} (P : Text × V → Type 0) where
  pub All-insert :
      (k : Text) (v : V) (m : List (Text × V)) → P (k, v) → All P m → All P (insert k v m)
  unfolding insert
  All-insert k v [] p h = (p, tt)
  All-insert k v ((j, u) ∷ m) p h = elim (Bool-cases (text_eq j k)) [
    | inl same ↦ rw same (p, h.1)
    | inr other ↦ rw other (h.0, All-insert k v m p h.1)
  ]

  pub All-delete : (k : Text) (m : List (Text × V)) → All P m → All P (delete k m)
  unfolding delete
  All-delete k [] h = tt
  All-delete k ((j, u) ∷ m) h = elim (Bool-cases (text_eq j k)) [
    | inl same ↦ rw same (All-delete k m h.1)
    | inr other ↦ rw other (h.0, All-delete k m h.1)
  ]

  pub All-lookup :
      (k : Text) (v : V) (m : List (Text × V)) → lookup k m ≡ some v → All P m → P (k, v)
  unfolding lookup
  All-lookup k v [] found h = cc found
  All-lookup k v ((j, u) ∷ m) found h = elim (Bool-cases (text_eq j k)) [
    | inl same ↦
        let here : ◌≡◌ {A = Option V} (some u) (some v) = rw (same, lookup) at found in
        let at : u ≡ v = cc here in
        subst (λ x. P (k, x)) at (subst (λ x. P (x, u)) (text_eq→eq j k same) h.0)
    | inr other ↦ All-lookup k v m (rw (other, lookup) at found) h.1
  ]

pub or_true : (a b : Bool) → b ≡ true → (a || b) ≡ true
or_true true b h = refl
or_true false b h = h

pub and_false : (b : Bool) → (b && false) ≡ false
and_false true = refl
and_false false = refl

module _ {V : Type 0} where
  pub insert_twice :
      (k : Text) (v w : V) (m : List (Text × V)) → insert k v (insert k w m) ≡ insert k v m
  unfolding insert
  insert_twice k v w [] = rw (text_eq_refl k) refl
  insert_twice k v w ((j, u) ∷ m) = elim (Bool-cases (text_eq j k)) [
    | inl same ↦ rw same (rw (text_eq_refl k) refl)
    | inr other ↦ rw other (rw other (ap (λ rest. (j, u) ∷ rest) (insert_twice k v w m)))
  ]

  pub is_nil-insert : (k : Text) (v : V) (m : List (Text × V)) → is_nil (insert k v m) ≡ false
  unfolding insert
  is_nil-insert k v [] = refl
  is_nil-insert k v ((j, u) ∷ m) = elim (Bool-cases (text_eq j k)) [
    | inl same ↦ rw same refl
    | inr other ↦ rw other refl
  ]
