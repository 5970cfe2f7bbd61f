-- ===== src/Scale/Run.antt =====
-- `Cluster.Scale` of cluster/swarm/cluster.go. The engines with their containers stand in the order in
-- which this run visits `c.engines`; the containers are those of the time of the call.
pub mod Ending
use cattle.Prelude.{List, [], ◌∷◌, ◌++◌, Option, none, some, Text, ok, ◌>>=◌, if◌then◌else◌}
use cattle.Cluster.Data.{Container, EngineData}
use cattle.Scale.Tasks.{Task, Tasks, do_tasks}
use cattle.Scale.Env.{is_resource_seize}
use cattle.Scale.Select.Base.{Run, ContainerFilter}
use cattle.Scale.Select.Kinds.{Environment, ScaleItem, new_filter, run_filter, filter_tasks}
use cattle.Scale.Seize.Data.{new_seize_filter}
use cattle.Scale.Seize.Pools.{seize, seize_tasks}

-- Cluster.Containers()
unfoldable pub all_containers : List (EngineData × List Container) → List Container
all_containers [] = []
all_containers ((e, cs) ∷ engines) = cs ++ all_containers engines

-- The names that DoTasks collected are dropped: it returns no error, and Scale returns them only
-- beside one.
unfoldable pub drop_names : {W : Type 0} → Option (List Text × W) → Option (List Text × W)
drop_names none = none
drop_names (some (names, w)) = some ([], w)

module _ (env : Environment) (engines : List (EngineData × List Container)) where
  seize_item : ScaleItem → Tasks → Run Tasks
  unfolding new_seize_filter seize seize_tasks
  seize_item item tasks = do
    f ← new_seize_filter item
    f' ← seize env.match_string engines f
    seize_tasks f'.filtered_out tasks

  -- A nil filter is skipped.
  select_with : Option ContainerFilter → Tasks → Run Tasks
  unfolding run_filter filter_tasks
  select_with none tasks = ok tasks
  select_with (some f) tasks = do f' ← run_filter env f; filter_tasks f' tasks

  select_item : ScaleItem → Tasks → Run Tasks
  unfolding new_filter select_with all_containers
  select_item item tasks = do f ← new_filter (all_containers engines) item; select_with f tasks

  -- The loop over the items.
  unfoldable pub queue_items : List ScaleItem → Tasks → Run Tasks
  unfolding seize_item select_item is_resource_seize
  queue_items [] tasks = ok tasks
  queue_items (item ∷ items) tasks = do
    tasks' ←
        (if is_resource_seize item.item_number item.item_envs
          then seize_item item tasks
          else select_item item tasks)
    queue_items items tasks'

  unfoldable pub scale :
      {W : Type 0}
      → (Task → W → Option Text × W)
      → List ScaleItem
      → W
      → Run (Option (List Text × W))
  unfolding queue_items drop_names
  scale process items w = do
    tasks ← queue_items items none
    ok (drop_names (do_tasks process tasks w))
