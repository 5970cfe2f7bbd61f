-- ===== src/Mesos/Views.antt =====
-- cluster/mesos/cluster.go: what the cluster shows of its agents, and the names of containers.
use cattle.Prelude.{
  Bool, true, false, not, ◌&&◌, ◌||◌, List, [], ◌∷◌, ◌++◌, Option, none, some, Text, text, text_eq,
  any, keep, pos, eqb_ℤ, Outcome, ok, err, panic, ◌>>=◌, if◌then◌else◌,
}
use cattle.Cluster.Data.{Container, ContainerConfig, lookup, label_or_empty}
use cattle.Cluster.Config.{swarm_label, set_label}
use cattle.Cluster.Containers.{get}
use cattle.Engine.Data.{Engine}
use cattle.Swarm.Views.{all_containers, bears_name}
use cattle.Mesos.Agents.{Task, Agent, is_some}

pub data MesosError : Type 0 where
  resources_needed : MesosError
  name_conflict : Text → MesosError

-- The loops over the engines of the agents are those of Swarm.Views.
unfoldable pub engines_of : List (Text × Agent) → List (Text × Engine)
engines_of [] = []
engines_of ((k, a) ∷ rest) = (k, a.engine) ∷ engines_of rest

-- formatContainer. Without any name, `Names[0]` panics.
unfoldable pub first_name : Text → List Text → Outcome MesosError (List Text)
unfolding text_eq
first_name name [] = panic
first_name name (n ∷ ns) =
    if text_eq n (text "/" ++ name) then ok (n ∷ ns) else ok ((text "/" ++ name) ∷ n ∷ ns)

abbrev pub named : Text → Container → Outcome MesosError Container
unfolding first_name
named [] c = ok c
named (b ∷ name) c = first_name (b ∷ name) c.names >>= λ ns. ok (record c { names = ns })

unfoldable pub format_container : Container → Outcome MesosError Container
unfolding named label_or_empty
format_container c =
    named (label_or_empty (swarm_label (text "mesos.name")) c.config.config_labels) c

abbrev pub is_task_container : Container → Bool
unfolding lookup
is_task_container c = is_some (lookup (swarm_label (text "mesos.task")) c.config.config_labels)

-- Containers changes the containers themselves, so it gives the agents with them.
unfoldable pub format_each : List (Text × Container) → Outcome MesosError (List (Text × Container))
unfolding format_container is_task_container
format_each [] = ok []
format_each ((k, c) ∷ rest) = (if is_task_container c then format_container c else ok c) >>= λ c'.
    format_each rest >>= λ rest'. ok ((k, c') ∷ rest')

unfoldable pub format_agents : List (Text × Agent) → Outcome MesosError (List (Text × Agent))
unfolding format_each
format_agents [] = ok []
format_agents ((k, a) ∷ rest) = format_each a.engine.containers >>= λ cs.
    format_agents rest >>= λ rest'.
    ok ((k, record a { engine = record a.engine { containers = cs } }) ∷ rest')

unfoldable pub task_containers :
    List (Text × Agent) → Outcome MesosError (List Container × List (Text × Agent))
unfolding format_agents is_task_container all_containers engines_of keep
task_containers agents = format_agents agents >>= λ agents'.
    ok (keep is_task_container (all_containers (engines_of agents')), agents')

-- Container
unfoldable pub task_container :
    (Text → Text)
    → Text
    → List (Text × Agent)
    → Outcome MesosError (Option Container × List (Text × Agent))
unfolding task_containers get format_container
task_container truncate_id [] agents = ok (none, agents)
task_container truncate_id (b ∷ q) agents = task_containers agents >>= λ (cs, agents').
    elim (get truncate_id (b ∷ q) cs) [
      | none ↦ ok (none, agents')
      | some c ↦ format_container c >>= λ c'. ok (some c', agents')
    ]

-- checkNameUniqueness
abbrev pub is_name : Text → Option Text → Bool
unfolding text_eq
is_name name none = false
is_name name (some n) = text_eq n name || text_eq n (text "/" ++ name)

unfoldable pub waits_with_name : Text → Text × Task → Bool
unfolding is_name lookup
waits_with_name name entry =
    is_name name (lookup (swarm_label (text "mesos.name")) entry.1.task_config.config_labels)

unfoldable pub check_name_uniqueness : Text → List (Text × Agent) → List (Text × Task) → Bool
unfolding any bears_name waits_with_name all_containers engines_of
check_name_uniqueness [] agents waiting = true
check_name_uniqueness (b ∷ name) agents waiting =
    not (any (bears_name (b ∷ name)) (all_containers (engines_of agents)))
    && not (any (waits_with_name (b ∷ name)) waiting)

-- NewTask, where `draw` is the truncated random identifier.
abbrev pub task_name : Text → Text → Text
task_name draw [] = draw
task_name draw (b ∷ name) = (b ∷ name) ++ text "." ++ draw

unfoldable pub new_task : Text → ContainerConfig → Text → Task
unfolding set_label
new_task draw config name = record {
  task_id = task_name draw name;
  task_config =
      set_label (text "mesos.task") (task_name draw name)
        (set_label (text "mesos.name") name config);
  launched_on = none;
  done = false;
}

-- CreateContainer, to the point where the task is handed on.
unfoldable pub begin_create :
    Text
    → ContainerConfig
    → Text
    → List (Text × Agent)
    → List (Text × Task)
    → Outcome MesosError Task
unfolding check_name_uniqueness new_task
begin_create draw config name agents waiting =
    if eqb_ℤ config.host_config.memory (pos 0) && eqb_ℤ config.host_config.cpu_shares (pos 0)
    then err resources_needed
    else if check_name_uniqueness name agents waiting
    then ok (new_task draw config name)
    else err (name_conflict name)
