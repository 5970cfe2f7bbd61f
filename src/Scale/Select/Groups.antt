-- ===== src/Scale/Select/Groups.antt =====
-- The `filterService` methods of filter.go: the matching containers of a service, grouped by the
-- `app` label. The order in which Go visits a map is the parameter `visit`.
pub mod NoApp
use cattle.Prelude.{
  Bool, ◌≡◌, refl, ◌≢◌, leb_ℤ, ltb_ℤ, List, [], ◌∷◌, ◌++◌, Option, none, some, Text, length, ok,
  panic, ◌>>=◌, Outcome, if◌then◌else◌, ℤ, pos, add64, Bool-cases, inl, inr, ◌⊎◌,
}
use cattle.Cluster.Data.{Container, lookup, insert}
use cattle.Scale.Tasks.{TaskType, Containers}
use cattle.Scale.Env.{get_min_num}
use cattle.Scale.Match.{Filter, match_labels}
use cattle.Scale.Select.Base.{
  ContainerFilter, Run, items, extend, app_key, slice_to, slice_from, abs_number, filter_container,
}

abbrev pub Groups : Type 0
Groups = List (Text × List Container)

-- getMinNum(cs[0].Config.Env)
first_min : List Container → Run ℤ
unfolding get_min_num
first_min [] = panic
first_min (c ∷ _) = ok (get_min_num c.config.env)

module _ (match_string : Text → Text → Option Bool) (visit : Groups → Groups) where
  -- serviceApps[app] = append(serviceApps[app], c), while the group is short enough
  add_to_group : ℤ → Container → Text → Option (List Container) → Groups → Run Groups
  unfolding first_min insert add64
  add_to_group n c app none groups = ok (insert app (c ∷ []) groups)
  add_to_group n c app (some cs) groups = do
    least ← first_min cs
    ok (
        if ltb_ℤ (pos (length cs)) (add64 n least)
        then insert app (cs ++ c ∷ []) groups
        else groups)

  -- The loop over the containers; `none` where a matching one has no `app` label.
  group : ℤ → TaskType → List Filter → Groups → List Container → Run (Option Groups)
  unfolding add_to_group filter_container lookup
  group n kind filters groups [] = ok (some groups)
  group n kind filters groups (c ∷ cs) =
      let skipped = group n kind filters groups cs in
      let grouped = λ (app : Text).
        (add_to_group n c app (lookup app groups) groups >>= λ groups'.
        group n kind filters groups' cs) in
      if filter_container match_string kind filters c
      then elim (lookup app_key c.labels) [ none ↦ ok none | some app ↦ grouped app ]
      else skipped

  -- The slice of one group.
  slice_group : ℤ → List Container → Run Containers
  unfolding first_min slice_to slice_from add64
  slice_group n v = do
    least ← first_min v
    if leb_ℤ (add64 n least) (pos (length v))
        then slice_to n (some v)
        else slice_from least (some v)

  slice_groups : ℤ → Groups → Containers → Run Containers
  unfolding slice_group
  slice_groups n [] out = ok out
  slice_groups n ((app, v) ∷ groups) out = do
    part ← slice_group n v
    slice_groups n groups (extend out (items part))

  finish : ContainerFilter → Option Groups → Run ContainerFilter
  unfolding slice_groups abs_number
  finish f none = ok f
  finish f (some groups) = do
    kept ← slice_groups (abs_number f.number) (visit groups) none
    ok (record f { containers = kept })

  -- ContainerFilterBase.filterService: without an `app` label it returns nil, and `f.containers` is
  -- what it was.
  unfoldable pub base_service : ContainerFilter → Run ContainerFilter
  unfolding group finish abs_number
  base_service f = do
    groups ← group (abs_number f.number) f.task_type f.filters [] (items f.containers)
    finish f groups
