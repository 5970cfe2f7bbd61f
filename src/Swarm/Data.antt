-- ===== src/Swarm/Data.antt =====
-- The cluster of cluster/swarm/cluster.go as a whole, and a job on it. A job may fail, it acts on the
-- engines and the world outside, and it emits events.
use cattle.Prelude.{List, [], ◌++◌, none, some, Text, ℤ, Outcome, ok, err, panic}
use cattle.Cluster.Data.{ContainerConfig, EngineData, lookup, insert}
use cattle.Cluster.Config.{Json}
use cattle.Engine.Data.{Engine, ApiError}
use cattle.Engine.Call.{Daemon, Event, Machine, Call}
use cattle.Scheduler.Select.{Scheduler, SchedulerError}
use cattle.Swarm.Registry.{Registry}

-- pendingContainer
pub record PendingContainer : Type 0 where
  pub pending_config : ContainerConfig
  pub pending_name : Text
  pub pending_engine : EngineData

-- What a cluster is made with, and the libraries: `draws` are the results that
-- `stringid.GenerateRandomID` gives one after another, as many as are looked at, `ip_of` is the address
-- that an engine's name resolves to, `regexp_error` the text of an error of the regexp library.
pub record Settings (W : Type 0) : Type 0 where
  pub scheduler : Scheduler
  pub create_retry : ℤ
  pub json : Json
  pub truncate_id : Text → Text
  pub ip_of : Text → Text
  pub regexp_error : Text
  pub draws : W → List Text
  pub daemon_of : EngineData → Daemon W

-- Cluster. `gone` holds the engines that are out of the registry and that a job still points at.
pub record Fleet (W : Type 0) : Type 0 where
  pub registry : Registry
  pub pending_containers : List (Text × PendingContainer)
  pub gone : List (Text × Engine)
  pub world : W
  pub events : List Event

pub data SwarmError : Type 0 where
  name_conflict : Text → SwarmError
  draws_used_up : SwarmError
  scheduling_failed : SchedulerError → SwarmError
  not_created : SwarmError
  engine_failed : ApiError → SwarmError
  no_such_image : Text → SwarmError
  no_engine_found : Text → SwarmError
  joined : List (Text × ApiError) → SwarmError

abbrev pub Job : Type 0 → Type 0 → Type 0
Job W A = Fleet W → Outcome SwarmError A × Fleet W

abbrev pub of_call : {A : Type 0} → Outcome ApiError A → Outcome SwarmError A
of_call panic = panic
of_call (err x) = err (engine_failed x)
of_call (ok a) = ok a

module _ {W : Type 0} where
  unfoldable pub pure : {A : Type 0} → A → Job W A
  pure a f = (ok a, f)

  unfoldable pub fail : {A : Type 0} → SwarmError → Job W A
  fail x f = (err x, f)

  unfoldable pub next_job :
      {A B : Type 0}
      → (A → Job W B)
      → Outcome SwarmError A × Fleet W
      → Outcome SwarmError B × Fleet W
  next_job g (ok a, f) = g a f
  next_job g (err x, f) = (err x, f)
  next_job g (panic, f) = (panic, f)

  infixl 5 ◌>>=◌
  unfoldable pub ◌>>=◌ : {A B : Type 0} → Job W A → (A → Job W B) → Job W B
  unfolding next_job
  ◌>>=◌ job g f = next_job g (job f)

  -- A job whose error is looked at; a panic ends it all the same.
  unfoldable pub attempted :
      {A : Type 0}
      → Outcome SwarmError A × Fleet W
      → Outcome SwarmError (Outcome SwarmError A) × Fleet W
  attempted (panic, f) = (panic, f)
  attempted (err x, f) = (ok (err x), f)
  attempted (ok a, f) = (ok (ok a), f)

  unfoldable pub attempt : {A : Type 0} → Job W A → Job W (Outcome SwarmError A)
  unfolding attempted
  attempt job f = attempted (job f)

  unfoldable pub get_fleet : Job W (Fleet W)
  get_fleet f = (ok f, f)

  -- The fleet after a call of an engine that is registered, and of one that is gone.
  abbrev pub after_call :
      {A : Type 0}
      → Text
      → Fleet W
      → Outcome ApiError A × Machine W
      → Outcome SwarmError A × Fleet W
  unfolding insert
  after_call key f (r, m) = (
    of_call r,
    record f {
      registry = record f.registry { engines = insert key m.engine f.registry.engines };
      world = m.world;
      events = f.events ++ m.events;
    },
  )

  abbrev pub after_gone :
      {A : Type 0}
      → Text
      → Fleet W
      → Outcome ApiError A × Machine W
      → Outcome SwarmError A × Fleet W
  unfolding insert
  after_gone key f (r, m) = (
    of_call r,
    record f { gone = insert key m.engine f.gone; world = m.world; events = f.events ++ m.events },
  )

  abbrev pub machine_of : Engine → Fleet W → Machine W
  machine_of e f = record { engine = e; world = f.world; events = [] }

  -- A method of the engine with an identifier. A nil engine makes it panic.
  unfoldable pub on_engine : {A : Type 0} → Settings W → Text → (Daemon W → Call W A) → Job W A
  unfolding lookup after_call after_gone
  on_engine s key call f = elim (lookup key f.registry.engines) [
    | some e ↦ after_call key f (call (s.daemon_of e.about) (machine_of e f))
    | none ↦ elim (lookup key f.gone) [
      | some e ↦ after_gone key f (call (s.daemon_of e.about) (machine_of e f))
      | none ↦ (panic, f)
    ]
  ]
