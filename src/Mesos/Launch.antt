-- ===== src/Mesos/Launch.antt =====
-- cluster/mesos/cluster.go: LaunchTask as a whole.
use cattle.Prelude.{
  Bool, true, false, List, [], ◌∷◌, ◌++◌, Option, none, some, Text, text, text_eq, map, find,
  Outcome, ok, err, panic, ◌>>=◌, if◌then◌else◌,
}
use cattle.Cluster.Data.{Container, ContainerConfig, EngineData, lookup, insert, label_or_empty}
use cattle.Cluster.Config.{swarm_label}
use cattle.Engine.Data.{ApiError}
use cattle.Engine.Call.{Daemon, Machine, Call}
use cattle.Engine.Cache.{refresh_container, refresh_containers}
use cattle.Engine.Methods.{values}
use cattle.Scheduler.Node.{Node}
use cattle.Scheduler.Select.{SchedulerError}
use cattle.Mesos.Agents.{Offer, Task, Agent}
use cattle.Mesos.Offers.{Mesos, launched}
use cattle.Mesos.Tasks.{TaskStatus, Monitored, monitor, drop_task}

-- What LaunchTask reaches. `choose` is SelectNodesForContainer of listNodes, `launch` is LaunchTasks of
-- the driver with the identifiers of the offers, `next_status` waits for a status of the task,
-- `inspected` is the identifier in the data of a status, when they hold one inspection.
pub record Driver (W : Type 0) : Type 0 where
  pub choose : Mesos W → ContainerConfig → Outcome SchedulerError (List Node)
  pub launch : List Text → Task → W → Option ApiError × W
  pub next_status : Text → W → TaskStatus × W
  pub inspected : Text → Option Text
  pub daemon_of : EngineData → Daemon W

-- What the one who waits for the task gets: a container, an error, or nothing, as where the task has no
-- node or is stopped.
pub data Delivery : Type 0 where
  delivered : Option Container → Delivery
  failed_with : Text → Delivery
  nothing : Delivery

-- A container or an error for a task that may have been stopped.
abbrev pub unless_stopped : Task → Delivery → Delivery
unless_stopped t d = if t.done then nothing else d

-- The container with the identifier of the task in its label.
abbrev pub runs_task : Text → Container → Bool
unfolding text_eq label_or_empty
runs_task id c =
    text_eq (label_or_empty (swarm_label (text "mesos.task")) c.config.config_labels) id

abbrev pub found_container : Task → Option Container → Delivery
found_container t none = unless_stopped t (failed_with (text "Container failed to create"))
found_container t (some c) = unless_stopped t (delivered (some c))

module _ {W : Type 0} (driver : Driver W) where
  -- A call of the engine of the agent, once the driver has launched the task.
  abbrev pub after_call :
      {A : Type 0}
      → Text
      → Agent
      → Mesos W
      → Outcome ApiError A × Machine W
      → Outcome ApiError A × Mesos W
  unfolding insert
  after_call key a c (r, m) = (
    r,
    record c {
      agents = insert key (record a { engine = m.engine }) c.agents;
      world = m.world;
      events = c.events ++ m.events;
    },
  )

  unfoldable pub on_agent :
      {A : Type 0} → Text → (Daemon W → Call W A) → Mesos W → Outcome ApiError A × Mesos W
  unfolding lookup after_call
  on_agent key call c = elim (lookup key c.agents) [
    | none ↦ (panic, c)
    | some a ↦ after_call key a c (
        call (driver.daemon_of a.engine.about)
          (record { engine = a.engine; world = c.world; events = [] }))
  ]

  -- The containers of the engine of an agent.
  unfoldable pub listed : Text → Mesos W → List Container
  unfolding lookup
  listed key c = elim (lookup key c.agents) [ none ↦ [] | some a ↦ values a.engine.containers ]

  -- The search by the label, after a refresh whose error is not looked at.
  abbrev pub searched :
      Text → Task → Outcome ApiError (Unit {0}) × Mesos W → Outcome ApiError (Delivery × Mesos W)
  unfolding find runs_task listed
  searched key t (panic, c) = panic
  searched key t (ok _, c) = ok (found_container t (find (runs_task t.task_id) (listed key c)), c)
  searched key t (err _, c) = ok (found_container t (find (runs_task t.task_id) (listed key c)), c)

  unfoldable pub search : Text → Task → Mesos W → Outcome ApiError (Delivery × Mesos W)
  unfolding searched on_agent refresh_containers
  search key t c = searched key t (on_agent key (λ daemon. refresh_containers daemon true) c)

  abbrev pub refreshed :
      Text
      → Task
      → Outcome ApiError (Option Container) × Mesos W
      → Outcome ApiError (Delivery × Mesos W)
  unfolding search
  refreshed key t (panic, c) = panic
  refreshed key t (ok found, c) = ok (unless_stopped t (delivered found), c)
  refreshed key t (err _, c) = search key t c

  -- The container of a task that runs or has ended, by the data of its status.
  unfoldable pub by_data :
      Text → Task → Option Text → Mesos W → Outcome ApiError (Delivery × Mesos W)
  unfolding search refreshed on_agent refresh_container
  by_data key t none c = search key t c
  by_data key t (some bytes) c = elim (driver.inspected bytes) [
    | none ↦ search key t c
    | some id ↦ refreshed key t (on_agent key (λ daemon. refresh_container daemon id true) c)
  ]

  -- LaunchTask after its first status.
  unfoldable pub after_status :
      Text → Task → Monitored → Mesos W → Outcome ApiError (Delivery × Mesos W)
  unfolding drop_task by_data
  after_status key t r c = elim r.error_text [
    | some x ↦ ok (failed_with x, drop_task key t.task_id c)
    | none ↦ by_data key t r.status_data c
  ]

  -- LaunchTask after the answer of the driver.
  unfoldable pub after_answer :
      Text → Task → Option ApiError → Mesos W → Outcome ApiError (Delivery × Mesos W)
  unfolding after_status monitor
  after_answer key t (some x) c = ok (failed_with x.message, c)
  after_answer key t none c =
      let (s, w) = driver.next_status t.task_id c.world in
      after_status key t (monitor s) (record c { world = w })

  -- LaunchTask on the chosen agent. The task is launched there from then on.
  unfoldable pub launch_on : Text → Task → Mesos W → Outcome ApiError (Delivery × Mesos W)
  unfolding lookup launched after_answer
  launch_on key t c = elim (lookup key c.agents) [
    | none ↦ ok (failed_with (text "Unable to create on agent " ++ (b'"' ∷ key) ++ b'"' ∷ []), c)
    | some a ↦
        let t' = record t { launched_on = some key } in
        let (answer, w) =
          driver.launch (map (λ (o : Text × Offer). o.1.offer_id) a.offers) t' c.world in
        launched key a t' answer (record c { world = w }) >>= after_answer key t' answer
  ]

  abbrev pub done_with :
      Outcome ApiError (Delivery × Mesos W) → Outcome ApiError ((Bool × Delivery) × Mesos W)
  done_with r = r >>= λ (d, c). ok ((true, d), c)

  -- LaunchTask
  unfoldable pub launch_chosen :
      Task
      → Mesos W
      → Outcome SchedulerError (List Node)
      → Outcome ApiError ((Bool × Delivery) × Mesos W)
  unfolding launch_on
  launch_chosen t c panic = panic
  launch_chosen t c (err x) = ok ((false, nothing), c)
  launch_chosen t c (ok []) = panic
  launch_chosen t c (ok (n ∷ ns)) = done_with (launch_on n.node_id t c)

  unfoldable pub launch_task : Task → Mesos W → Outcome ApiError ((Bool × Delivery) × Mesos W)
  unfolding launch_chosen
  launch_task t c = launch_chosen t c (driver.choose c t.task_config)
