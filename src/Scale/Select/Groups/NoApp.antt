-- ===== src/Scale/Select/Groups/NoApp.antt =====
-- A matching container with no `app` label, and what `filterService` makes of it.
use cattle.Prelude.{◌≡◌, List, [], ◌∷◌, none, Text, Option, Bool, ok, true, false, inl, inr, ◌⊎◌, ℤ}
use cattle.Cluster.Data.{Container, lookup}
use cattle.Scale.Tasks.{TaskType}
use cattle.Scale.Match.{Filter}
use cattle.Scale.Select.Base.{ContainerFilter, items, app_key, filter_container, abs_number}
use cattle.Scale.Select.Groups.{Groups, base_service, group, finish}

-- The first container of a list that matches has no `app` label.
abbrev pub FirstHasNoApp : (Container → Bool) → List Container → Type 0
FirstHasNoApp matches [] = ⊥
FirstHasNoApp matches (c ∷ cs) =
    ((matches c ≡ true) × (lookup app_key c.labels ≡ none))
    ⊎ ((matches c ≡ false) × FirstHasNoApp matches cs)

module _ (match_string : Text → Text → Option Bool) (visit : Groups → Groups) (n : ℤ)
    (kind : TaskType) (filters : List Filter) where
  group_stops :
      (cs : List Container)
      → FirstHasNoApp (filter_container match_string kind filters) cs
      → group match_string visit n kind filters [] cs ≡ ok none
  unfolding group
  group_stops [] h = elim h [ ]
  group_stops (c ∷ cs) (inl h) = rw (h.0, h.1)
  group_stops (c ∷ cs) (inr h) = rw h.0 (group_stops cs h.1)

module _ (match_string : Text → Text → Option Bool) (visit : Groups → Groups) where
  -- The filter then keeps the containers that it had.
  pub base_service_no_app :
      (f : ContainerFilter)
      → FirstHasNoApp (filter_container match_string f.task_type f.filters) (items f.containers)
      → base_service match_string visit f ≡ ok f
  unfolding base_service finish
  base_service_no_app f h = rw (
      group_stops match_string visit (abs_number f.number) f.task_type f.filters
        (items f.containers) h)
