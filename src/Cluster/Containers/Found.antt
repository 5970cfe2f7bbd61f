-- ===== src/Cluster/Containers/Found.antt =====
-- What Containers.Get finds.
use cattle.Prelude.{
  ◌≡◌, ◌≢◌, refl, Bool, true, false, List, [], ◌∷◌, ◌++◌, Option, none, some, Text, keep, find,
  Within, Within-nil, skip, pick, Bool-cases, Option-cases, inl, inr, All, subst, ap, ◌∙◌,
}
use cattle.Cluster.Data.{Container}
use cattle.Cluster.Containers.{has_name, only_one, by_prefix, by_name, has_id, has_swarm_id, get}

-- An element of the list that passes a test.
pub record Passes {ℓ} {A : Type ℓ} (test : A → Bool) (cs : List A) (c : A) : Type ℓ where
  pub listed : Within (c ∷ []) cs
  pub passed : test c ≡ true

some_eq {ℓ} : {A : Type ℓ} (c d : A) → ◌≡◌ {A = Option A} (some c) (some d) → c ≡ d
some_eq c d h = cc h

find-Passes {ℓ} :
    {A : Type ℓ} (test : A → Bool) (cs : List A) (c : A) → find test cs ≡ some c → Passes test cs c
unfolding find
find-Passes test [] c h = cc h
find-Passes {A = A} test (d ∷ cs) c h = elim (Bool-cases (test d)) [
  | inl here ↦
      let h' : ◌≡◌ {A = Option A} (some d) (some c) = rw here at h in
      let e : d ≡ c = some_eq d c h' in
      record {
        listed = subst (λ x. Within (x ∷ []) (d ∷ cs)) e (pick (Within-nil cs));
        passed = subst (λ x. test x ≡ true) e here;
      }
  | inr fails ↦
      let rest = find-Passes test cs c (rw fails at h) in
      record { listed = skip rest.listed; passed = rest.passed }
]

-- The tests of the five ways in which a container answers to a text.
pub data Answers (truncate_id : Text → Text) (q : Text) (cs : List Container) (c : Container)
    : Type 0 where
  by_id : Passes (has_id truncate_id q) cs c → Answers truncate_id q cs c
  by_swarm_id : Passes (has_swarm_id truncate_id q) cs c → Answers truncate_id q cs c
  by_the_name : keep (has_name q) cs ≡ c ∷ [] → Answers truncate_id q cs c
  by_the_prefix : keep (has_name q) cs ≡ [] → by_prefix q cs ≡ c ∷ [] → Answers truncate_id q cs c

only_one-eq : (cs : List Container) (c : Container) → only_one cs ≡ some c → cs ≡ c ∷ []
unfolding only_one
only_one-eq [] c h = cc h
only_one-eq (d ∷ []) c h = ap (λ x. x ∷ []) (some_eq d c h)
only_one-eq (d ∷ e ∷ cs) c h = cc h

by_name-Answers :
    (truncate_id : Text → Text) (q : Text) (cs : List Container) (c : Container)
    (candidates : List Container)
    → keep (has_name q) cs ≡ candidates
    → by_name q candidates cs ≡ some c
    → Answers truncate_id q cs c
unfolding by_name
by_name-Answers truncate_id q cs c [] e h = by_the_prefix e (only_one-eq (by_prefix q cs) c h)
by_name-Answers truncate_id q cs c (d ∷ ds) e h = by_the_name (e ∙ only_one-eq (d ∷ ds) c h)

-- A container that Get returns is in the list and answers the query: by its id, its swarm id,
-- its name as the only one, or the prefix of its id or swarm id as the only one.
pub get-Answers :
    (truncate_id : Text → Text) (q : Text) (cs : List Container) (c : Container)
    → get truncate_id q cs ≡ some c
    → Answers truncate_id q cs c
unfolding get
get-Answers truncate_id [] cs c h = cc h
get-Answers truncate_id (b ∷ q) cs c h =
    elim (Option-cases (find (has_id truncate_id (b ∷ q)) cs)) [
      | inr (d, e) ↦
          let h' : ◌≡◌ {A = Option Container} (some d) (some c) = rw (e, get) at h in
          by_id (find-Passes (has_id truncate_id (b ∷ q)) cs c (e ∙ h'))
      | inl no_id ↦ elim (Option-cases (find (has_swarm_id truncate_id (b ∷ q)) cs)) [
        | inr (d, e) ↦
            let h' : ◌≡◌ {A = Option Container} (some d) (some c) = rw (no_id, e, get) at h in
            by_swarm_id (find-Passes (has_swarm_id truncate_id (b ∷ q)) cs c (e ∙ h'))
        | inl no_swarm_id ↦
            by_name-Answers truncate_id (b ∷ q) cs c (keep (has_name (b ∷ q)) cs) refl
              (rw (no_id, no_swarm_id, get) at h)
      ]
    ]

find-here :
    (test : Container → Bool) (front : List Container) (c : Container) (back : List Container)
    → All (λ d. test d ≡ false) front
    → test c ≡ true
    → find test (front ++ c ∷ back) ≡ some c
unfolding find
find-here test [] c back none_here here = rw here
find-here test (d ∷ front) c back none_here here =
    rw none_here.0 (find-here test front c back none_here.1 here)

find-none :
    (test : Container → Bool) (cs : List Container)
    → All (λ d. test d ≡ false) cs
    → find test cs ≡ none
unfolding find
find-none test [] fails = refl
find-none test (d ∷ cs) fails = rw fails.0 (find-none test cs fails.1)

-- For a query that is not empty, Get returns the first container whose id or truncated id is
-- the query, wherever it stands in the list.
pub get_first_id :
    (truncate_id : Text → Text) (q : Text) (front : List Container) (c : Container)
    (back : List Container)
    → q ≢ []
    → All (λ d. has_id truncate_id q d ≡ false) front
    → has_id truncate_id q c ≡ true
    → get truncate_id q (front ++ c ∷ back) ≡ some c
unfolding get
get_first_id truncate_id [] front c back some_text none_here here = absurd (some_text refl)
get_first_id truncate_id (b ∷ q) front c back some_text none_here here =
    rw (find-here (has_id truncate_id (b ∷ q)) front c back none_here here, get)
