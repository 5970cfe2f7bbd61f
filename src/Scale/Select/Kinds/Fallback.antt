-- ===== src/Scale/Select/Kinds/Fallback.antt =====
-- Where a filter finds nothing to select, it keeps every container of the cluster.
use cattle.Prelude.{
  inr, inl, ◌⊎◌, Bool, ℕ, ◌*◌, ◌≡◌, refl, List, [], ◌∷◌, Option, none, some, Text, ok, ◌>>=◌,
  length, keep, arith, false, true, pos,
}
use cattle.Cluster.Data.{Container}
use cattle.Scale.Tasks.{TaskType, create, destroy, stop, Tasks, add_tasks, fill}
use cattle.Scale.Tasks.Adding.{queued}
use cattle.Scale.Match.{Filter}
use cattle.Scale.Select.Base.{ContainerFilter, items, filter_container}
use cattle.Scale.Select.Groups.{base_service}
use cattle.Scale.Select.Groups.NoApp.{FirstHasNoApp, base_service_no_app}
use cattle.Scale.Select.Base.ScaleDown.{matched}
use cattle.Scale.Select.Kinds.{
  Environment, run_filter, filter_tasks, first_match, create_containers,
}
use cattle.Scale.Select.Kinds.Counts.{create_tasks_count}

module _ (env : Environment) (f : ContainerFilter) where
  run_filter-service :
      (f.task_type ≡ destroy) ⊎ (f.task_type ≡ stop)
      → f.by_service ≡ true
      → run_filter env f ≡ base_service env.match_string env.visit_groups f
  unfolding run_filter
  run_filter-service (inl kind) service = rw (kind, service)
  run_filter-service (inr kind) service = rw (kind, service)

  run_filter-create :
      f.task_type ≡ create
      → f.by_service ≡ false
      → run_filter env f ≡ create_containers env.match_string env.marshal env.visit_apps f
  unfolding run_filter
  run_filter-create kind service = rw (kind, service)

filter_tasks-down :
    (f : ContainerFilter) (tasks : Tasks)
    → (f.task_type ≡ destroy) ⊎ (f.task_type ≡ stop)
    → filter_tasks f tasks ≡ ok (add_tasks f.containers f.task_type tasks)
unfolding filter_tasks
filter_tasks-down f tasks (inl kind) = rw kind
filter_tasks-down f tasks (inr kind) = rw kind

-- A stop or destroy filter for a service whose first matching container has no app label
-- queues a task for every container that the filter was given, whether it matches or not.
pub service_without_app :
    (env : Environment) (f : ContainerFilter) (cs : List Container)
    → (f.task_type ≡ destroy) ⊎ (f.task_type ≡ stop)
    → f.by_service ≡ true
    → f.containers ≡ some cs
    → FirstHasNoApp (filter_container env.match_string f.task_type f.filters) cs
    → (tasks : Tasks) × ((run_filter env f >>= λ f'. filter_tasks f' none) ≡ ok tasks)
      × (queued tasks ≡ fill f.task_type cs)
unfolding add_tasks
service_without_app env f cs kind service given first =
    let first' : FirstHasNoApp (filter_container env.match_string f.task_type f.filters)
        (items f.containers) =
      rw given first in
    (
      add_tasks f.containers f.task_type none,
      rw
          (
            run_filter-service env f kind service,
            base_service_no_app env.match_string env.visit_groups f first',
          )
          (filter_tasks-down f none kind),
      rw given,
    )

no_first_match :
    (match_string : Text → Text → Option Bool) (kind : TaskType) (filters : List Filter)
    (cs : List Container)
    → keep (filter_container match_string kind filters) cs ≡ []
    → first_match match_string kind filters cs ≡ none
unfolding first_match keep
no_first_match match_string kind filters [] h = refl
no_first_match match_string kind filters (c ∷ cs) h =
    ground (arith, no_first_match match_string kind filters cs)

-- A create filter, not for a service, with number `n` that no container matches queues `n`
-- tasks for each container that the filter was given.
pub create_without_match :
    (env : Environment) (f : ContainerFilter) (n : ℕ) (c : Container) (cs : List Container)
    → f.task_type ≡ create
    → f.by_service ≡ false
    → f.number ≡ pos n
    → f.containers ≡ some (c ∷ cs)
    → matched env.match_string f ≡ []
    → (tasks : Tasks) × ((run_filter env f >>= λ f'. filter_tasks f' none) ≡ ok tasks)
      × (length (queued tasks) ≡ n * length (c ∷ cs))
unfolding create_containers
create_without_match env f n c cs kind service number given nothing =
    let unfound =
      no_first_match env.match_string f.task_type f.filters (items f.containers) nothing in
    let (tasks, queued_all, size) = create_tasks_count f n c cs none kind number given (inl refl) in
    (
      tasks,
      rw (run_filter-create env f kind service) (rw (unfound, create_containers) queued_all),
      omega (arith, size),
    )
