-- ===== src/Scale/Run/Ending.antt =====
-- Cluster.Scale ends, and what it returns.
use cattle.Prelude.{◌≡◌, refl, ap, ◌∙◌, List, [], Option, none, some, Text, ok}
use cattle.Cluster.Data.{Container, EngineData}
use cattle.Scale.Tasks.{Task, Tasks, do_tasks}
use cattle.Scale.Tasks.Running.{do_tasks_total}
use cattle.Scale.Select.Kinds.{Environment, ScaleItem}
use cattle.Scale.Run.{queue_items, scale, drop_names}

-- The tasks of a run that has none end at once.
tasks_end :
    {W : Type 0} (process : Task → W → Option Text × W) (tasks : Tasks) (w : W)
    → (out : List Text × W) × (do_tasks process tasks w ≡ some out)
unfolding do_tasks
tasks_end process none w = (([], w), refl)
tasks_end process (some r) w = do_tasks_total process r w

scale-queue_items :
    (env : Environment) (engines : List (EngineData × List Container)) {W : Type 0}
    (process : Task → W → Option Text × W) (items : List ScaleItem) (w : W) (tasks : Tasks)
    → queue_items env engines items none ≡ ok tasks
    → scale env engines process items w ≡ ok (drop_names (do_tasks process tasks w))
unfolding scale
scale-queue_items env engines process items w tasks h = rw h refl

-- Where every item of a request can be turned into tasks, Scale runs those tasks to their end,
-- for any processor of tasks, and returns no container name.
pub scale_ends :
    (env : Environment) (engines : List (EngineData × List Container)) {W : Type 0}
    (process : Task → W → Option Text × W) (items : List ScaleItem) (w : W) (tasks : Tasks)
    → queue_items env engines items none ≡ ok tasks
    → (names : List Text) × (w' : W) × (do_tasks process tasks w ≡ some (names, w'))
      × (scale env engines process items w ≡ ok (some ([], w')))
unfolding drop_names
scale_ends env engines process items w tasks h =
    let (out, e) = tasks_end process tasks w in
    (
      out.0,
      out.1,
      e,
      scale-queue_items env engines process items w tasks h ∙ ap (λ d. ok (drop_names d)) e,
    )
