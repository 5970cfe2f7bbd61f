-- ===== src/Swarm/Views.antt =====
-- cluster/swarm/cluster.go and scheduler/node/node.go: what the cluster shows of its engines.
use cattle.Prelude.{
  false, Bool, true, not, ◌&&◌, ◌||◌, List, [], ◌∷◌, ◌++◌, Option, none, some, Text, text, text_eq,
  any, ℤ, pos, add64, if◌then◌else◌,
}
use cattle.Cluster.Data.{Container, HostConfig}
use cattle.Cluster.Config.{swarm_id}
use cattle.Cluster.Images.{Image}
use cattle.Cluster.Containers.{get}
use cattle.Engine.Data.{Engine, Network, Volume}
use cattle.Engine.Health.{health_indicator}
use cattle.Engine.Methods.{used_memory, used_cpus, with_overcommit, find_image, values}
use cattle.Scheduler.Node.{Node, node_container, add_container}
use cattle.Swarm.Registry.{Registry}
use cattle.Swarm.Data.{PendingContainer}

-- Containers, Images, Networks, Volumes
unfoldable pub all_containers : List (Text × Engine) → List Container
all_containers [] = []
all_containers ((_, e) ∷ es) = values e.containers ++ all_containers es

unfoldable pub all_images : List (Text × Engine) → List Image
all_images [] = []
all_images ((_, e) ∷ es) = e.images ++ all_images es

unfoldable pub all_networks : List (Text × Engine) → List Network
all_networks [] = []
all_networks ((_, e) ∷ es) = values e.networks ++ all_networks es

unfoldable pub all_volumes : List (Text × Engine) → List Volume
all_volumes [] = []
all_volumes ((_, e) ∷ es) = values e.volumes ++ all_volumes es

-- Image
unfoldable pub first_image : Text → List (Text × Engine) → Option Image
unfolding find_image
first_image q [] = none
first_image q ((_, e) ∷ es) = elim (find_image q e.images) [
  | some i ↦ some i
  | none ↦ first_image q es
]

unfoldable pub cluster_image : Text → List (Text × Engine) → Option Image
unfolding first_image
cluster_image [] es = none
cluster_image (b ∷ q) es = first_image (b ∷ q) es

-- Container
unfoldable pub cluster_container : (Text → Text) → Text → List (Text × Engine) → Option Container
unfolding get all_containers
cluster_container truncate_id [] es = none
cluster_container truncate_id (b ∷ q) es = get truncate_id (b ∷ q) (all_containers es)

-- checkNameUniqueness
unfoldable pub bears_name : Text → Container → Bool
unfolding any text_eq
bears_name name c = any (λ n. text_eq n name || text_eq n (text "/" ++ name)) c.names

unfoldable pub pends_name : Text → Text × PendingContainer → Bool
unfolding text_eq
pends_name name entry = text_eq entry.1.pending_name name

unfoldable pub check_name_uniqueness :
    Text → List (Text × Engine) → List (Text × PendingContainer) → Bool
unfolding any bears_name pends_name all_containers
check_name_uniqueness [] es ps = true
check_name_uniqueness (b ∷ name) es ps =
    not (any (bears_name (b ∷ name)) (all_containers es)) && not (any (pends_name (b ∷ name)) ps)

-- ToContainer
abbrev pub no_host_config : HostConfig
no_host_config = record {
  network_mode = [];
  volumes_from = [];
  links = [];
  memory = pos 0;
  cpu_shares = pos 0;
  port_bindings = [];
}

abbrev pub slashed : Text → List Text
slashed [] = []
slashed (b ∷ name) = (text "/" ++ b ∷ name) ∷ []

unfoldable pub to_container : PendingContainer → Container
to_container p = record {
  ident = [];
  names = slashed p.pending_name;
  state = [];
  labels = p.pending_config.config_labels;
  config = p.pending_config;
  info = record {
    info_name = [];
    has_config = false;
    info_state = none;
    info_networks = none;
    info_host_config = some no_host_config;
    info_exposed_ports = [];
    network_ports = none;
  };
  engine = p.pending_engine;
}

-- NewNode
unfoldable pub new_node : (Text → Text) → Engine → Node
unfolding used_memory used_cpus with_overcommit health_indicator
new_node ip_of e = record {
  node_id = e.about.engine_id;
  node_ip = ip_of e.about.engine_addr;
  node_addr = e.about.engine_addr;
  node_name = e.about.engine_name;
  node_labels = e.about.engine_labels;
  node_containers = values e.containers;
  node_images = e.images;
  used_memory = used_memory e.containers;
  used_cpus = used_cpus e.containers;
  total_memory = with_overcommit e.overcommit_ratio e.memory;
  total_cpus = with_overcommit e.overcommit_ratio e.cpus;
  health_indicator = health_indicator e;
}

module _ (truncate_id : Text → Text) where
  -- A pending container on its node, where the node does not list it yet and has room for it.
  unfoldable pub with_pending : PendingContainer → Node → Node
  unfolding text_eq node_container swarm_id add_container to_container
  with_pending p n =
      if text_eq p.pending_engine.engine_id n.node_id
      then elim (node_container truncate_id (swarm_id p.pending_config) n) [
        | some c ↦ n
        | none ↦ elim (add_container (to_container p) n) [ some n' ↦ n' | none ↦ n ]
      ]
      else n

  unfoldable pub with_all_pending : List (Text × PendingContainer) → Node → Node
  unfolding with_pending
  with_all_pending [] n = n
  with_all_pending ((_, p) ∷ ps) n = with_all_pending ps (with_pending p n)

  -- listNodes
  unfoldable pub list_nodes :
      (Text → Text) → List (Text × PendingContainer) → List (Text × Engine) → List Node
  unfolding with_all_pending new_node
  list_nodes ip_of ps [] = []
  list_nodes ip_of ps ((_, e) ∷ es) =
      with_all_pending ps (new_node ip_of e) ∷ list_nodes ip_of ps es

-- listEngines
unfoldable pub list_engines : Registry → List Engine
list_engines r = values r.engines ++ values r.pending_engines

-- TotalMemory, TotalCpus
unfoldable pub cluster_memory : List (Text × Engine) → ℤ
unfolding add64 with_overcommit
cluster_memory [] = pos 0
cluster_memory ((_, e) ∷ es) =
    add64 (with_overcommit e.overcommit_ratio e.memory) (cluster_memory es)

unfoldable pub cluster_cpus : List (Text × Engine) → ℤ
unfolding add64 with_overcommit
cluster_cpus [] = pos 0
cluster_cpus ((_, e) ∷ es) = add64 (with_overcommit e.overcommit_ratio e.cpus) (cluster_cpus es)
