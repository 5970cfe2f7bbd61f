-- ===== src/Lib.antt =====
-- A model of the decisions of this cluster manager, with the theorems that make them correct.
--
-- The manager groups Docker engines into one cluster. A request to scale (`POST /scale`, the type
-- `ScaleAPI` of common/define.go) is a list of items. For each item the manager selects containers,
-- or picks nodes whose containers give way, and queues tasks; then it runs the queue.
-- A request to create a container goes through the scheduler: the configuration is built, with the
-- placement expressions in its labels, filters narrow the nodes, and a strategy ranks what is left.
-- When that fails with the soft expressions, it is tried without them. The cluster then puts the
-- container among the pending ones, and the chosen engine creates it.
-- Discovery says which engines there are. The client of an engine tells by its errors whether the engine
-- is healthy, and the watchdog gives the containers of a lost engine to others.
--
-- Files:
--   Prelude        lists, Go integers of 64 bits (`ℤ` with its wrap-around), Go strings as lists of
--                  bytes with the functions of `strings` and `strconv`, and results with a panic
--   Cluster.Data       cluster/container.go, cluster/config.go, cluster/engine.go: the data
--   Cluster.Config     cluster/config.go: BuildContainerConfig, the expressions in labels, Validate
--   Cluster.Containers cluster/container.go: Containers.Get
--   Cluster.Images     cluster/image.go: Image.Match, ParseRepositoryTag
--   Scheduler.Node     scheduler/node/node.go
--   Scheduler.Narrow   the loop that the filters share
--   Scheduler.Exprs    scheduler/filter/expr.go: parseExprs and Match
--   Scheduler.Filters  scheduler/filter: the seven filters, New, ApplyFilters, listAllFilters
--   Scheduler.Strategy scheduler/strategy: spread, binpack, random
--   Scheduler.Select   scheduler/scheduler.go: SelectNodesForContainer
--   Scale.Ring     the `container/ring` of the language's library, as a list with a cursor
--   Scale.Tasks    cluster/swarm/task.go: the ring of tasks, AddTask, AddTasks, DoTasks
--   Scale.Env      cluster/swarm/utils.go: what environment entries say
--   Scale.Match    cluster/swarm/utils.go: parseFilterString and matchLabels
--   Scale.Select   cluster/swarm/filter.go: the filters that create, start, stop and destroy
--   Scale.Seize    cluster/swarm/resource_filter.go and task_filter.go: seizing nodes
--   Scale.Run      cluster/swarm/cluster.go: Scale
--   Engine.Data        cluster/engine.go: the engine, its network and volume
--   Engine.Health      cluster/engine.go: failures, states, validation, and when a pending engine is tried
--   Engine.Call        cluster/engine.go: a call of an engine on its client, as a record `Daemon`
--   Engine.Cache       cluster/engine.go: the refreshes of containers, images, networks and volumes
--   Engine.Specs       cluster/engine.go: updateSpecs
--   Engine.Float       cluster/engine.go: the float64 quotient of CreateContainer and its ceiling
--   Engine.Methods     cluster/engine.go: the methods on the daemon, and the handler of its events
--   Engine.Connect     cluster/engine.go: ConnectWithClient, the rounds of refreshLoop, the delayer
--   Engine.Networks    cluster/network.go, cluster/volume.go
--   Engine.Shares, Engine.Mirror, Engine.Keeping  theorems about cluster/engine.go
--   Swarm.Registry     cluster/swarm/cluster.go: addEngine, validatePendingEngine, removeEngine,
--                  monitorDiscovery
--   Swarm.Data         cluster/swarm/cluster.go: Cluster as a whole, and a job on it
--   Swarm.Discovery    cluster/swarm/cluster.go: removeEngine and monitorDiscovery with the events of the
--                  engines, one round of monitorPendingEngines
--   Swarm.Views        cluster/swarm/cluster.go: the views of all engines, checkNameUniqueness, listNodes;
--                  NewNode of scheduler/node/node.go
--   Swarm.Errors       the texts of errors, and which say that an image is missing
--   Swarm.Create       cluster/swarm/cluster.go: CreateContainer
--   Swarm.Methods, Swarm.Images, Swarm.Resources  cluster/swarm/cluster.go: the other operations
--   Swarm.Watchdog     cluster/watchdog.go
--   Mesos.Agents       cluster/mesos/agent.go
--   Mesos.Offers       cluster/mesos/scheduler.go, cluster/mesos/cluster.go: the life of offers and agents
--   Mesos.Tasks        cluster/mesos/task: the states of a task, the table of waiting tasks
--   Mesos.Views        cluster/mesos/cluster.go: the containers of the agents, names, CreateContainer
--   Mesos.Launch       cluster/mesos/cluster.go: LaunchTask
--   Mesos.Entries, Mesos.Busy, Mesos.Naming  theorems about cluster/mesos
--   Cluster.Examples, Engine.Examples, Mesos.Examples, Scale.Examples, Scheduler.Examples, Swarm.Examples  concrete data,
--                  and the theorems applied to it
--
-- State is passed on: a filter object is a record that its methods return anew, the ring is a list
-- on each side of the cursor, and the outside world of a task processor is a type `W` that it takes
-- and returns. A Go map is the list of its entries in the order in which a run visits them, where
-- the order matters as a parameter. A panic is a result of its own (`panic` of `Outcome`).
--
-- A method of an engine takes and returns the engine, the world behind its client, and the events it
-- emits. A method of the cluster takes and returns the tables of engines, the pending containers and that
-- world. An engine is known by its key in the table; one that has left the table but that a job still
-- points at is kept apart. What the code does under a lock is one step; what threads do in between is
-- stated by step relations (Swarm.Registry.Once, Swarm.Create.Interleaved, Engine.Health.States).
--
-- DoTasks has no bound in the code. The model runs it on fuel, one more than the number of attempts
-- that the tasks of the ring have, and it is a theorem that this is enough. CreateContainer makes its
-- attempts by the number of retries that is left. The loop of generateUniqueID runs over a list of draws,
-- and its end is an error of its own. All other loops are recursions on lists, or on the number that
-- bounds the loop.
--
-- Parameters: `regexp.Compile` and `regexp.MatchString`, `json.Marshal` and `json.Unmarshal`, the orders
-- of maps, `sort.Sort`, the draws of `math/rand`, `stringid.TruncateID`, `net.ParseIP`, the processor
-- of tasks, the clients of a daemon with their clock (`Daemon`), `versions.LessThan`, `filters.Args`,
-- `Entries.Diff` of discovery, the resolution of an address, `stringid.GenerateRandomID`, `DeclineOffer`,
-- the answers of the Mesos driver, and the nodes that it chooses among (`Driver`).
--
-- Not modelled: log lines (but the panics of those of AddTask, filterService, DoContainers and
-- doPriority are), transports and TLS, credentials of registries, the choice of the API version, times
-- of creation and start, and the streams of BuildImage, Load and Import. Info is a report. A panic of
-- the client library is not looked at. Go shares the spare capacity of a slice between appends; here
-- each append copies, and the copies of StartTaskFilter.DoContainers, which share one configuration,
-- keep the environment of their round. A write to the labels of a configuration gives a new
-- configuration, and other holders of the old one do not see it. The command line, the HTTP routes and
-- the clients of discovery are left out. Of the Mesos driver, what a task tells it (Build) and the
-- sums of offered resources.
pub mod Cluster
pub mod Engine
pub mod Mesos
pub mod Prelude
pub mod Scale
pub mod Scheduler
pub mod Swarm
