-- ===== src/Scale/Select/Kinds.antt =====
-- The four kinds of filter object of filter.go: their `Filter` methods, their `AddTasks` methods, and
-- `NewFilter`.
pub mod Counts
pub mod Fallback
use cattle.Prelude.{
  ℕ, zero, suc, ◌-◌, ◌==◌, leb, Bool, List, [], ◌∷◌, Option, none, some, Text, text, length, take,
  Outcome, ok, err, panic, ◌>>=◌, if◌then◌else◌, ℤ, pos, negsuc, leb_ℤ, ltb, has_prefix,
}
use cattle.Cluster.Data.{Container, ContainerConfig, insert, lookup}
use cattle.Scale.Tasks.{
  TaskType, create, destroy, start, stop, unknown, NoError, Containers, Tasks, add_tasks,
}
use cattle.Scale.Env.{has_constraint, get_constraint_strings, get_task_type, has_prifix}
use cattle.Scale.Match.{Filter, match_labels, parse_filter_string}
use cattle.Scale.Select.Base.{
  ContainerFilter, Run, items, push, extend, app_key, slice_to, abs_number, filter_container,
  base_containers,
}
use cattle.Scale.Select.Groups.{base_service}

module _ (match_string : Text → Text → Option Bool) where
  first_match : TaskType → List Filter → List Container → Option Container
  unfolding filter_container
  first_match kind filters [] = none
  first_match kind filters (c ∷ cs) =
      if filter_container match_string kind filters c then some c else first_match kind filters cs

module _ (match_string : Text → Text → Option Bool) (marshal : List Text → Text)
    (visit : List (Text × Container) → List (Text × Container)) where
  -- The loop of CreateContainerFilter.filterService: the last matching container of each app;
  -- `none` where one has no `app` label. The debug line reads through `Info.Config`.
  last_of_apps :
      List Filter
      → List (Text × Container)
      → List Container
      → Run (Option (List (Text × Container)))
  unfolding match_labels lookup insert
  last_of_apps filters apps [] = ok (some apps)
  last_of_apps filters apps (c ∷ cs) =
      let skipped = last_of_apps filters apps cs in
      let taken = λ (app : Text). last_of_apps filters (insert app c apps) cs in
      let visited =
        if match_labels match_string filters c.labels
        then elim (lookup app_key c.labels) [ none ↦ ok none | some app ↦ taken app ]
        else skipped in
      if c.info.has_config then visited else panic

  values : List (Text × Container) → Containers → Containers
  values [] out = out
  values ((app, c) ∷ apps) out = values apps (push out c)

  -- CreateContainerFilter.filterService. Without an `app` label `f.containers` is what it was.
  unfoldable pub create_service : ContainerFilter → Run ContainerFilter
  unfolding last_of_apps values
  create_service f = do
    found ← last_of_apps f.filters [] (items f.containers)
    ok (elim found [ none ↦ f | some apps ↦ record f { containers = values (visit apps) none } ])

  constraints_label : Text
  constraints_label = text "com.docker.swarm.constraints"

  with_constraints : List Text → Container → Container
  unfolding constraints_label insert
  with_constraints [] c = c
  with_constraints (k ∷ ks) c =
      let config = record (c.config) {
        config_labels = insert constraints_label (marshal (k ∷ ks)) c.config.config_labels;
      } in
      record c { config = config }

  constrained : List Text → Container → Container
  unfolding with_constraints has_constraint get_constraint_strings
  constrained envs c =
      if has_constraint envs then with_constraints (get_constraint_strings envs) c else c

  -- CreateContainerFilter.filterContainers: the first match, with the constraints of the item in its
  -- configuration. Without a match it returns nil, and `f.containers` is what it was.
  unfoldable pub create_containers : ContainerFilter → Run ContainerFilter
  unfolding first_match constrained
  create_containers f = elim (first_match match_string f.task_type f.filters (items f.containers)) [
    | none ↦ ok f
    | some c ↦ ok (record f { containers = some (constrained f.envs c ∷ []) })
  ]

module _ (match_string : Text → Text → Option Bool) where
  -- StartContainerFilter.filterContainers
  start_loop : ℤ → TaskType → List Filter → Containers → List Container → Run Containers
  unfolding filter_container slice_to
  start_loop n kind filters out [] = ok out
  start_loop n kind filters out (c ∷ cs) =
      let out' = push out c in
      let taken = start_loop n kind filters out' cs in
      let skipped = start_loop n kind filters out cs in
      if filter_container match_string kind filters c
      then (if leb_ℤ n (pos (length (items out'))) then slice_to n out' else taken)
      else skipped

  unfoldable pub start_containers : ContainerFilter → Run ContainerFilter
  unfolding start_loop abs_number
  start_containers f = do
    kept ← start_loop (abs_number f.number) f.task_type f.filters none (items f.containers)
    ok (record f { containers = kept })

-- The two map orders and the JSON encoder that the filters depend on.
pub record Environment : Type 0 where
  pub match_string : Text → Text → Option Bool
  pub marshal : List Text → Text
  pub visit_groups : List (Text × List Container) → List (Text × List Container)
  pub visit_apps : List (Text × Container) → List (Text × Container)

module _ (env : Environment) where
  open env use {match_string, marshal, visit_groups, visit_apps}

  -- filter.Filter(): the create and the start filter have methods of their own, the stop and the
  -- destroy filter have those of the base.
  unfoldable pub run_filter : ContainerFilter → Run ContainerFilter
  unfolding create_service create_containers start_containers base_service base_containers
  run_filter f = elim f.task_type [
    | create ↦
        if f.by_service
        then create_service match_string marshal visit_apps f
        else create_containers match_string marshal visit_apps f
    | start ↦
        if f.by_service
        then base_service match_string visit_groups f
        else start_containers match_string f
    | _ ↦
        if f.by_service
        then base_service match_string visit_groups f
        else base_containers match_string f
  ]

repeat_tasks : ℕ → Containers → Tasks → Tasks
unfolding add_tasks
repeat_tasks zero cs tasks = tasks
repeat_tasks (suc n) cs tasks = repeat_tasks n cs (add_tasks cs create tasks)

-- The rounds of `for i := from; i < number; i++`.
rounds : ℕ → ℤ → ℕ
rounds from (pos n) = n - from
rounds from (negsuc n) = 0

-- f.containers[0], which the create filter logs
create_tasks : List Container → ContainerFilter → Tasks → Run Tasks
unfolding repeat_tasks rounds
create_tasks [] f tasks = panic
create_tasks (c ∷ cs) f tasks = ok (repeat_tasks (rounds 0 f.number) f.containers tasks)

-- StartContainerFilter.AddTasks: what is missing is created from the first container.
start_tasks : List Container → ContainerFilter → Tasks → Tasks
unfolding repeat_tasks rounds
start_tasks [] f tasks = tasks
start_tasks (c ∷ cs) f tasks =
    repeat_tasks (rounds (length (c ∷ cs)) f.number) (some (c ∷ [])) tasks

-- filter.AddTasks(tasks)
unfoldable pub filter_tasks : ContainerFilter → Tasks → Run Tasks
unfolding create_tasks start_tasks add_tasks
filter_tasks f tasks = elim f.task_type [
  | create ↦ create_tasks (items f.containers) f tasks
  | start ↦ ok (start_tasks (items f.containers) f (add_tasks f.containers start tasks))
  | kind ↦ ok (add_tasks f.containers kind tasks)
]

pub record ScaleItem : Type 0 where
  pub item_filters : List Text
  pub item_number : ℤ
  pub item_envs : List Text

usable : TaskType → ContainerFilter → Option ContainerFilter
usable unknown f = none
usable _ f = some f

filter_for : List Container → ScaleItem → List Filter → ContainerFilter
unfolding get_task_type has_prifix
filter_for containers item filters = record {
  number = item.item_number;
  envs = item.item_envs;
  filters = filters;
  by_service = has_prifix item.item_filters (text "service");
  task_type = get_task_type item.item_number item.item_envs;
  containers = some containers;
}

-- NewFilter, for an item that does not seize resources. `none` is the nil filter, of an item that
-- does not parse or has number 0.
unfoldable pub new_filter : List Container → ScaleItem → Run (Option ContainerFilter)
unfolding usable filter_for parse_filter_string
new_filter containers item = elim (parse_filter_string item.item_filters) [
  | panic ↦ panic
  | err x ↦ ok none
  | ok filters ↦ let f = filter_for containers item filters in ok (usable f.task_type f)
]
