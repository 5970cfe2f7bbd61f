-- ===== src/Swarm/Registry/Addresses.antt =====
-- Each address stands once among the engines of a cluster.
use cattle.Prelude.{
  ℕ, ◌+◌, ◌≤◌, ◌≡◌, refl, sym, ap, ◌∙◌, true, false, List, [], ◌∷◌, Option, none, some, Text,
  text_eq, text_eq→eq, find, Bool-cases, inl, inr, if◌then◌else◌, arith, subst,
}
use cattle.Cluster.Data.{lookup, insert, delete}
use cattle.Engine.Data.{Engine}
use cattle.Swarm.Registry.{has_addr}

-- The entries whose engine has the address.
unfoldable pub count : Text → List (Text × Engine) → ℕ
unfolding text_eq
count a [] = 0
count a ((k, e) ∷ m) = (if text_eq e.about.engine_addr a then 1 else 0) + count a m

-- Every engine stands under its address.
abbrev pub IsKeyed : List (Text × Engine) → Type 0
IsKeyed [] = Unit
IsKeyed ((k, e) ∷ m) = (k ≡ e.about.engine_addr) × IsKeyed m

lookup_here :
    (k j : Text) (w : Engine) (e : Engine) (m : List (Text × Engine))
    → text_eq j k ≡ true
    → lookup k ((j, e) ∷ m) ≡ some w
    → e ≡ w
unfolding lookup
lookup_here k j w e m same h =
    let h' : ◌≡◌ {A = Option Engine} (some e) (some w) = rw (same, lookup) at h in cc h'

lookup_later :
    (k j : Text) (r : Option Engine) (e : Engine) (m : List (Text × Engine))
    → text_eq j k ≡ false
    → lookup k ((j, e) ∷ m) ≡ r
    → lookup k m ≡ r
unfolding lookup
lookup_later k j r e m other h = rw (other, lookup) at h

lookup_not :
    (k j : Text) (e : Engine) (m : List (Text × Engine))
    → lookup k ((j, e) ∷ m) ≡ none
    → text_eq j k ≡ false
unfolding lookup
lookup_not k j e m h = elim (Bool-cases (text_eq j k)) [
  | inl same ↦ let h' : ◌≡◌ {A = Option Engine} (some e) none = rw (same, lookup) at h in cc h'
  | inr other ↦ other
]

pub count-delete_le : (a k : Text) (m : List (Text × Engine)) → count a (delete k m) ≤ count a m
unfolding delete count
count-delete_le a k [] = omega arith
count-delete_le a k ((j, e) ∷ m) = elim (Bool-cases (text_eq j k)) [
  | inl same ↦ rw same (omega (arith, count-delete_le a k m))
  | inr other ↦ rw other (omega (arith, count-delete_le a k m))
]

pub count-delete_self : (k : Text) (m : List (Text × Engine)) → IsKeyed m → count k (delete k m) ≡ 0
unfolding delete count
count-delete_self k [] h = refl
count-delete_self k ((j, e) ∷ m) h = elim (Bool-cases (text_eq j k)) [
  | inl same ↦ rw same (count-delete_self k m h.1)
  | inr other ↦
      let other' : text_eq e.about.engine_addr k ≡ false =
        subst (λ x. text_eq x k ≡ false) h.0 other in
      rw (other, other') (omega (arith, count-delete_self k m h.1))
]

pub count-insert_new :
    (a k : Text) (e : Engine) (m : List (Text × Engine))
    → lookup k m ≡ none
    → count a (insert k e m) ≡ count a m + (if text_eq e.about.engine_addr a then 1 else 0)
unfolding insert count
count-insert_new a k e [] h = omega arith
count-insert_new a k e ((j, f) ∷ m) h =
    let other = lookup_not k j f m h in
    rw other (omega (arith, count-insert_new a k e m (lookup_later k j none f m other h)))

pub count-insert_old :
    (a k : Text) (e w : Engine) (m : List (Text × Engine))
    → lookup k m ≡ some w
    → e.about.engine_addr ≡ w.about.engine_addr
    → count a (insert k e m) ≡ count a m
unfolding insert lookup count
count-insert_old a k e w [] h same_addr = cc h
count-insert_old a k e w ((j, f) ∷ m) h same_addr = elim (Bool-cases (text_eq j k)) [
  | inl same ↦
      let found = lookup_here k j w f m same h in
      rw same (
        ap (λ x. (if text_eq x a then 1 else 0) + count a m)
          (same_addr ∙ sym (ap (λ (x : Engine). x.about.engine_addr) found)))
  | inr other ↦ rw other (
      ap (λ n. (if text_eq f.about.engine_addr a then 1 else 0) + n)
        (count-insert_old a k e w m (lookup_later k j (some w) f m other h) same_addr))
]

pub found_addr :
    (k : Text) (w : Engine) (m : List (Text × Engine))
    → IsKeyed m
    → lookup k m ≡ some w
    → w.about.engine_addr ≡ k
unfolding lookup
found_addr k w [] keyed h = cc h
found_addr k w ((j, f) ∷ m) keyed h = elim (Bool-cases (text_eq j k)) [
  | inl same ↦
      let found = lookup_here k j w f m same h in
      sym (ap (λ (x : Engine). x.about.engine_addr) found) ∙ sym keyed.0 ∙ text_eq→eq j k same
  | inr other ↦ found_addr k w m keyed.1 (lookup_later k j (some w) f m other h)
]

pub count_found :
    (k : Text) (w : Engine) (m : List (Text × Engine))
    → IsKeyed m
    → lookup k m ≡ some w
    → 1 ≤ count k m
unfolding lookup count
count_found k w [] keyed h = cc h
count_found k w ((j, f) ∷ m) keyed h = elim (Bool-cases (text_eq j k)) [
  | inl same ↦
      let here : text_eq f.about.engine_addr k ≡ true =
        subst (λ x. text_eq x k ≡ true) keyed.0 same in
      rw here (omega arith)
  | inr other ↦ omega (arith, count_found k w m keyed.1 (lookup_later k j (some w) f m other h))
]

pub count-none :
    (k : Text) (m : List (Text × Engine)) → IsKeyed m → lookup k m ≡ none → count k m ≡ 0
unfolding lookup count
count-none k [] keyed h = refl
count-none k ((j, f) ∷ m) keyed h =
    let other = lookup_not k j f m h in
    let other' : text_eq f.about.engine_addr k ≡ false =
      subst (λ x. text_eq x k ≡ false) keyed.0 other in
    rw other' (omega (arith, count-none k m keyed.1 (lookup_later k j none f m other h)))

pub count_unfound :
    (a : Text) (m : List (Text × Engine)) → find (has_addr a) m ≡ none → count a m ≡ 0
unfolding find has_addr count
count_unfound a [] h = refl
count_unfound a ((j, f) ∷ m) h = elim (Bool-cases (text_eq f.about.engine_addr a)) [
  | inl same ↦
      let h' : ◌≡◌ {A = Option (Text × Engine)} (some (j, f)) none = rw (same, find) at h in cc h'
  | inr other ↦
      let rest = count_unfound a m (rw (other, find) at h) in rw other (omega (arith, rest))
]

pub delete-IsKeyed : (k : Text) (m : List (Text × Engine)) → IsKeyed m → IsKeyed (delete k m)
unfolding delete
delete-IsKeyed k [] h = tt
delete-IsKeyed k ((j, e) ∷ m) h = elim (Bool-cases (text_eq j k)) [
  | inl same ↦ rw same (delete-IsKeyed k m h.1)
  | inr other ↦ rw other (h.0, delete-IsKeyed k m h.1)
]

pub insert-IsKeyed :
    (e : Engine) (m : List (Text × Engine)) → IsKeyed m → IsKeyed (insert e.about.engine_addr e m)
unfolding insert
insert-IsKeyed e [] h = (refl, tt)
insert-IsKeyed e ((j, f) ∷ m) h = elim (Bool-cases (text_eq j e.about.engine_addr)) [
  | inl same ↦ rw same (refl, h.1)
  | inr other ↦ rw other (h.0, insert-IsKeyed e m h.1)
]
