-- ===== src/Engine/Networks/Unique.antt =====
-- The networks after Uniq: one for each identifier that the networks had.
use cattle.Prelude.{
  ◌≡◌, refl, sym, ap, ◌∙◌, subst, Bool, true, false, ◌||◌, List, [], ◌∷◌, Option, some, Text,
  text_eq, text_eq→eq, any, map, All, Bool-cases, Option-cases, inl, inr,
}
use cattle.Cluster.Data.{lookup, insert}
use cattle.Engine.Data.{Network}
use cattle.Engine.Mirror.{Distinct, keys}
use cattle.Engine.Networks.{uniq, uniq_loop, uniq_step, entries_of}

module _ {V : Type 0} where
  All-insert :
      (P : Text → Type 0) (k : Text) (v : V) (m : List (Text × V))
      → P k
      → All P (keys m)
      → All P (keys (insert k v m))
  unfolding insert
  All-insert P k v [] p h = (p, tt)
  All-insert P k v ((j, u) ∷ m) p h = elim (Bool-cases (text_eq j k)) [
    | inl same ↦ rw same (p, h.1)
    | inr other ↦ rw other (h.0, All-insert P k v m p h.1)
  ]

  insert-Distinct :
      (k : Text) (v : V) (m : List (Text × V)) → Distinct (keys m) → Distinct (keys (insert k v m))
  unfolding insert
  insert-Distinct k v [] h = (tt, tt)
  insert-Distinct k v ((j, u) ∷ m) h = elim (Bool-cases (text_eq j k)) [
    | inl same ↦
        rw same
          (subst (λ x. All (λ i. text_eq x i ≡ false) (keys m)) (text_eq→eq j k same) h.0, h.1)
    | inr other ↦
        rw other (All-insert (λ i. text_eq j i ≡ false) k v m other h.0, insert-Distinct k v m h.1)
  ]

-- Every network stands under its identifier.
abbrev IsById : List (Text × Network) → Type 0
IsById [] = Unit
IsById ((k, n) ∷ m) = (n.network_id ≡ k) × IsById m

insert-IsById :
    (k : Text) (n : Network) (m : List (Text × Network))
    → n.network_id ≡ k
    → IsById m
    → IsById (insert k n m)
unfolding insert
insert-IsById k n [] same h = (same, tt)
insert-IsById k n ((j, o) ∷ m) same h = elim (Bool-cases (text_eq j k)) [
  | inl here ↦ rw here (same, h.1)
  | inr other ↦ rw other (h.0, insert-IsById k n m same h.1)
]

found_id :
    (k : Text) (n : Network) (m : List (Text × Network))
    → IsById m
    → lookup k m ≡ some n
    → n.network_id ≡ k
unfolding lookup
found_id k n [] h by = cc by
found_id k n ((j, o) ∷ m) h by = elim (Bool-cases (text_eq j k)) [
  | inl same ↦
      let by' : ◌≡◌ {A = Option Network} (some o) (some n) = rw (same, lookup) at by in
      let on : o ≡ n = cc by' in
      sym (ap (λ (x : Network). x.network_id) on) ∙ h.0 ∙ text_eq→eq j k same
  | inr other ↦ found_id k n m h.1 (rw (other, lookup) at by)
]

-- What the map holds after one more network.
record IsIndex (m : List (Text × Network)) : Type 0 where
  distinct : Distinct (keys m)
  by_id : IsById m

or_twice : (a b : Bool) → (a || (a || b)) ≡ (a || b)
or_twice true b = refl
or_twice false b = refl

or_swap : (a b c : Bool) → (a || (b || c)) ≡ (b || (a || c))
or_swap true true c = refl
or_swap true false c = refl
or_swap false b c = refl

or_assoc : (a b c : Bool) → ((a || b) || c) ≡ (a || (b || c))
or_assoc true b c = refl
or_assoc false b c = refl

or_false : (a : Bool) → (a || false) ≡ a
or_false true = refl
or_false false = refl

key-insert :
    {V : Type 0} (q k : Text) (v : V) (m : List (Text × V))
    → any (λ j. text_eq j q) (keys (insert k v m))
      ≡ (text_eq k q || any (λ j. text_eq j q) (keys m))
unfolding insert any
key-insert q k v [] = refl
key-insert q k v ((j, u) ∷ m) = elim (Bool-cases (text_eq j k)) [
  | inl same ↦
      let ids : j ≡ k = text_eq→eq j k same in
      rw (same, ids) (sym (or_twice (text_eq k q) (any (λ i. text_eq i q) (keys m))))
  | inr other ↦
      rw (other, key-insert q k v m)
        (or_swap (text_eq j q) (text_eq k q) (any (λ i. text_eq i q) (keys m)))
]

step-IsIndex : (n : Network) (m : List (Text × Network)) → IsIndex m → IsIndex (uniq_step n m)
unfolding uniq_step
step-IsIndex n m i = elim (Option-cases (lookup n.network_id m)) [
  | inl new ↦
      rw (uniq_step, new)
        (record {
          distinct = insert-Distinct n.network_id _ m i.distinct;
          by_id = insert-IsById n.network_id _ m refl i.by_id;
        })
  | inr (known, there) ↦
      rw (uniq_step, there)
        (record {
          distinct = insert-Distinct n.network_id _ m i.distinct;
          by_id =
              insert-IsById n.network_id _ m (found_id n.network_id known m i.by_id there) i.by_id;
        })
]

loop-IsIndex :
    (ns : List Network) (m : List (Text × Network)) → IsIndex m → IsIndex (uniq_loop ns m)
unfolding uniq_loop
loop-IsIndex [] m i = i
loop-IsIndex (n ∷ ns) m i = loop-IsIndex ns (uniq_step n m) (step-IsIndex n m i)

step_keys :
    (q : Text) (n : Network) (m : List (Text × Network))
    → any (λ j. text_eq j q) (keys (uniq_step n m))
      ≡ (text_eq n.network_id q || any (λ j. text_eq j q) (keys m))
unfolding uniq_step
step_keys q n m = elim (Option-cases (lookup n.network_id m)) [
  | inl new ↦ rw (uniq_step, new) (key-insert q n.network_id _ m)
  | inr (known, there) ↦ rw (uniq_step, there) (key-insert q n.network_id _ m)
]

loop_keys :
    (q : Text) (ns : List Network) (m : List (Text × Network))
    → any (λ j. text_eq j q) (keys (uniq_loop ns m))
      ≡ (any (λ (n : Network). text_eq n.network_id q) ns || any (λ j. text_eq j q) (keys m))
unfolding uniq_loop any
loop_keys q [] m = refl
loop_keys q (n ∷ ns) m =
    loop_keys q ns (uniq_step n m)
    ∙ ap (λ x. any (λ (o : Network). text_eq o.network_id q) ns || x) (step_keys q n m)
    ∙ or_swap (any (λ (o : Network). text_eq o.network_id q) ns) (text_eq n.network_id q)
        (any (λ j. text_eq j q) (keys m))
    ∙ sym (
        or_assoc (text_eq n.network_id q) (any (λ (o : Network). text_eq o.network_id q) ns)
          (any (λ j. text_eq j q) (keys m)))

entries_ids :
    (m : List (Text × Network))
    → IsById m
    → map (λ (n : Network). n.network_id) (entries_of m) ≡ keys m
entries_ids [] h = refl
entries_ids ((k, n) ∷ m) h = rw (h.0, entries_ids m h.1) refl

-- The networks that Uniq returns have different identifiers, and an identifier is that of one
-- of them exactly when it is that of a given network.
pub uniq_ids :
    (ns : List Network) (q : Text)
    → Distinct (map (λ (n : Network). n.network_id) (uniq ns))
      × (any (λ k. text_eq k q) (map (λ (n : Network). n.network_id) (uniq ns))
          ≡ any (λ (n : Network). text_eq n.network_id q) ns)
unfolding uniq any
uniq_ids ns q =
    let i = loop-IsIndex ns [] (record { distinct = tt; by_id = tt }) in
    let ids = entries_ids (uniq_loop ns []) i.by_id in
    (
      rw ids i.distinct,
      rw ids (loop_keys q ns [] ∙ or_false (any (λ (n : Network). text_eq n.network_id q) ns)),
    )
