-- ===== src/Scale/Select/Base/ScaleDown.antt =====
-- How many containers `filterContainers` selects, and that it leaves the minimum number.
use cattle.Prelude.{
  ◌⊎◌, ℕ, ◌+◌, ◌-◌, ◌<◌, ◌≤◌, ◌^◌, min, leb, ◌≡◌, refl, ap, ◌∙◌, Bool, true, false, List, [], ◌∷◌,
  ◌++◌, Option, none, some, Text, subst, ◌≢◌, ok, panic, ◌>>=◌, if◌then◌else◌, pos, add64_small,
  leb→le, length, take, drop, keep, All, Within, done, take-Within, drop-Within, length-take,
  length-drop, length-append, take-append_le, append-nil, append_assoc, Bool-cases, inl, inr, arith,
}
use cattle.Cluster.Data.{Container}
use cattle.Scale.Tasks.{TaskType, Containers}
use cattle.Scale.Env.{get_min_num, has_constraint}
use cattle.Scale.Match.{Filter}
use cattle.Scale.Select.Base.{
  ContainerFilter, Run, items, slice_to, slice_from, abs_number, filter_container, collect,
  base_containers, filter_constraint_containers,
}

-- `wanted` containers of `matched`, but so many less that `least` are left.
abbrev pub scaled_down : (wanted least : ℕ) (matched : List Container) → Run Containers
scaled_down wanted least matched =
    if leb (wanted + least) (length matched)
    then ok (some (take wanted matched))
    else if leb least (length matched)
    then ok (some (drop least matched))
    else panic

abbrev pub selection : (wanted least : ℕ) (matched : List Container) → Run Containers
selection wanted least [] = ok none
selection wanted least (c ∷ cs) = scaled_down wanted least (c ∷ cs)

-- Every matching container asks for the same minimum number.
abbrev pub SameMin :
    (Text → Text → Option Bool) → TaskType → List Filter → ℕ → List Container → Type 0
SameMin match_string kind filters least = All (λ c.
    filter_container match_string kind filters c ≡ true → get_min_num c.config.env ≡ pos least)

module _ (match_string : Text → Text → Option Bool) (kind : TaskType) (filters : List Filter)
    (wanted least : ℕ) (small : wanted + least < 2 ^ 63) where
  abbrev matches : Container → Bool
  matches = filter_container match_string kind filters

  abbrev Same : List Container → Type 0
  Same = SameMin match_string kind filters least

  reached :
      (xs ys : List Container)
      → wanted + least ≤ length xs
      → scaled_down wanted least (xs ++ ys) ≡ ok (some (take wanted xs))
  reached xs ys h = ground (arith, length-append xs ys, take-append_le wanted xs ys (omega arith))

  -- One more matching container: the loop ends, or goes on with it.
  step_match :
      (out : List Container) (c : Container) (cs rest : List Container)
      → length out < wanted + least
      → (length (out ++ c ∷ []) < wanted + least
          → collect match_string (pos wanted) kind filters (some (out ++ c ∷ [])) (pos least) cs
            ≡ scaled_down wanted least ((out ++ c ∷ []) ++ rest))
      → (if leb (wanted + least) (length (out ++ c ∷ []))
          then slice_to (pos wanted) (some (out ++ c ∷ []))
          else collect match_string (pos wanted) kind filters (some (out ++ c ∷ [])) (pos least) cs)
        ≡ scaled_down wanted least ((out ++ c ∷ []) ++ rest)
  unfolding slice_to
  step_match out c cs rest short more =
      elim (Bool-cases (leb (wanted + least) (length (out ++ c ∷ [])))) [
        | inl enough ↦
            let h : wanted + least ≤ length (out ++ c ∷ []) = leb→le _ _ enough in
            rw (enough, reached (out ++ c ∷ []) rest h) (ground arith)
        | inr still ↦ rw still (more (ground arith))
      ]

  collect_more :
      (cs out : List Container)
      → length out < wanted + least
      → Same cs
      → collect match_string (pos wanted) kind filters (some out) (pos least) cs
        ≡ scaled_down wanted least (out ++ keep matches cs)
  unfolding collect keep
  collect_more [] out short same =
      rw (append-nil out) (rw (add64_small wanted least small) (unfold slice_from in ground arith))
  collect_more (c ∷ cs) out short same = elim (Bool-cases (matches c)) [
    | inl found ↦
        rw (found, same.0 found, add64_small wanted least small)
          (step_match out c cs (keep matches cs) short
              (λ shorter. collect_more cs (out ++ c ∷ []) shorter same.1)
            ∙ ap (scaled_down wanted least) (append_assoc out (c ∷ []) (keep matches cs)))
    | inr other ↦ rw other (collect_more cs out short same.1)
  ]

module _ (match_string : Text → Text → Option Bool) (kind : TaskType) (filters : List Filter)
    (wanted least : ℕ) (positive : 0 < wanted) (small : wanted + least < 2 ^ 63) where
  abbrev matching : List Container → List Container
  matching = keep (filter_container match_string kind filters)

  collect-selection :
      (cs : List Container)
      → SameMin match_string kind filters least cs
      → collect match_string (pos wanted) kind filters none (pos 0) cs
        ≡ selection wanted least (matching cs)
  unfolding collect keep
  collect-selection [] same =
      rw (add64_small wanted 0 (omega arith)) (unfold slice_from in ground arith)
  collect-selection (c ∷ cs) same =
      elim (Bool-cases (filter_container match_string kind filters c)) [
        | inl found ↦
            rw (found, same.0 found, add64_small wanted least small)
              (step_match match_string kind filters wanted least small [] c cs (matching cs)
                (omega arith)
                (λ shorter.
                  collect_more match_string kind filters wanted least small cs (c ∷ []) shorter
                    same.1))
        | inr other ↦ rw other (collect-selection cs same.1)
      ]

-- How many containers a selection has, and that it leaves the minimum number.
pub record IsSelection (wanted least : ℕ) (matched kept : List Container) : Type 0 where
  pub within : Within kept matched
  pub size : length kept ≡ min wanted (length matched - least)

take-IsSelection :
    (wanted least : ℕ) (cs : List Container)
    → wanted + least ≤ length cs
    → IsSelection wanted least cs (take wanted cs)
take-IsSelection wanted least cs h = record {
  within = take-Within wanted cs;
  size = omega (arith, length-take wanted cs);
}

drop-IsSelection :
    (wanted least : ℕ) (cs : List Container)
    → length cs < wanted + least
    → IsSelection wanted least cs (drop least cs)
drop-IsSelection wanted least cs h = record {
  within = drop-Within least cs;
  size = omega (arith, length-drop least cs);
}

scaled_down-ok :
    (wanted least : ℕ) (cs kept : List Container)
    → scaled_down wanted least cs ≡ ok (some kept)
    → IsSelection wanted least cs kept
scaled_down-ok wanted least cs kept h = elim (Bool-cases (leb (wanted + least) (length cs))) [
  | inl enough ↦
      subst (IsSelection wanted least cs) (ground arith)
        (take-IsSelection wanted least cs (leb→le _ _ enough))
  | inr few ↦
      let short : length cs < wanted + least = ground arith in
      let e : drop least cs ≡ kept = ground arith in
      subst (IsSelection wanted least cs) e (drop-IsSelection wanted least cs short)
]

selection-ok :
    (wanted least : ℕ) (cs : List Container) (kept : Containers)
    → selection wanted least cs ≡ ok kept
    → IsSelection wanted least cs (items kept)
selection-ok wanted least [] none h = record { within = done; size = omega arith }
selection-ok wanted least [] (some ks) h = cc
selection-ok wanted least (c ∷ cs) none h = ground arith
selection-ok wanted least (c ∷ cs) (some ks) h = scaled_down-ok wanted least (c ∷ cs) ks h

selection_total :
    (wanted least : ℕ) (cs : List Container)
    → (cs ≡ []) ⊎ (least ≤ length cs)
    → (kept : Containers) × (selection wanted least cs ≡ ok kept)
selection_total wanted least [] h = (none, refl)
selection_total wanted least (c ∷ cs) (inl nothing) =
    absurd (omega (arith, ap (λ (l : List Container). length l) nothing))
selection_total wanted least (c ∷ cs) (inr enough) =
    elim (Bool-cases (leb (wanted + least) (length (c ∷ cs)))) [
      | inl more ↦ (some (take wanted (c ∷ cs)), rw more)
      | inr few ↦ (some (drop least (c ∷ cs)), ground arith)
    ]

selection_panics :
    (wanted least : ℕ) (cs : List Container)
    → cs ≢ []
    → length cs < least
    → selection wanted least cs ≡ panic
selection_panics wanted least [] nonempty few = absurd (nonempty refl)
selection_panics wanted least (c ∷ cs) nonempty few = ground arith

-- What the theorems suppose of a filter: no constraint entry, one minimum number for all matches,
-- and numbers within `int`.
pub record Uniform (match_string : Text → Text → Option Bool) (f : ContainerFilter)
    (wanted least : ℕ) : Type 0 where
  pub asked : abs_number f.number ≡ pos wanted
  pub positive : 0 < wanted
  pub small : wanted + least < 2 ^ 63
  pub unconstrained : has_constraint f.envs ≡ false
  pub same : SameMin match_string f.task_type f.filters least (items f.containers)

-- The containers of a filter that match it.
abbrev pub matched : (Text → Text → Option Bool) → ContainerFilter → List Container
matched match_string f =
    keep (filter_container match_string f.task_type f.filters) (items f.containers)

module _ (match_string : Text → Text → Option Bool) (f : ContainerFilter) (wanted least : ℕ)
    (u : Uniform match_string f wanted least) where
  base_containers-selection : base_containers match_string f ≡ (
      selection wanted least (matched match_string f) >>= λ kept.
      ok (record f { containers = kept }))
  unfolding base_containers filter_constraint_containers
  base_containers-selection =
      rw (u.asked, u.unconstrained)
        (rw (
          collect-selection match_string f.task_type f.filters wanted least u.positive u.small
            (items f.containers) u.same))

  -- For a stop or destroy filter (or any other) whose number has absolute value `wanted`,
  -- which is positive, without a constraint entry, and where every matching container has the
  -- same MIN_NUMBER `least` and `wanted + least` is below 2^63: when nothing matches, or at
  -- least `least` containers match, filterContainers returns. It keeps containers that match,
  -- in their order, and their number is the smaller one of `wanted` and of what is over
  -- `least`.
  pub base_containers_selects :
      (matched match_string f ≡ []) ⊎ (least ≤ length (matched match_string f))
      → (f' : ContainerFilter) × (base_containers match_string f ≡ ok f')
        × IsSelection wanted least (matched match_string f) (items f'.containers)
  base_containers_selects enough =
      let (kept, chosen) = selection_total wanted least (matched match_string f) enough in
      (
        record f { containers = kept },
        base_containers-selection ∙ rw chosen refl,
        selection-ok wanted least (matched match_string f) kept chosen,
      )

  -- Under the same conditions on the filter, filterContainers panics when some container
  -- matches and fewer containers match than their MIN_NUMBER asks to be left.
  pub base_containers_panics :
      matched match_string f ≢ []
      → length (matched match_string f) < least
      → base_containers match_string f ≡ panic
  base_containers_panics nonempty few =
      base_containers-selection
      ∙ rw (selection_panics wanted least (matched match_string f) nonempty few)
