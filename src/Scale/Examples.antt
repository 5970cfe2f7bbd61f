-- ===== src/Scale/Examples.antt =====
-- Concrete containers, to which the theorems about the scale code are applied.
pub mod Selecting
pub mod Queueing
pub mod Seizing
use cattle.Prelude.{true, List, [], ◌∷◌, Option, none, some, Text, text, text_eq, Bool, ℤ, pos}
use cattle.Cluster.Data.{Labels, Container, ContainerConfig, HostConfig, ContainerInfo, EngineData}

abbrev pub host : HostConfig
host = record {
  network_mode = [];
  volumes_from = [];
  links = [];
  memory = pos 0;
  cpu_shares = pos 0;
  port_bindings = [];
}

abbrev pub node_one : EngineData
node_one = record {
  engine_id = text "id1";
  engine_name = text "node1";
  engine_addr = text "10.0.0.1:2375";
  engine_labels = [];
}

abbrev pub web_container : List Text → Labels → Text → Container
web_container envs labels state = record {
  ident = text "c1";
  names = text "/web" ∷ [];
  state = state;
  labels = labels;
  config = record {
    env = envs;
    config_labels = labels;
    image = text "nginx";
    exposed_ports = [];
    host_config = host;
  };
  info = record {
    info_name = [];
    has_config = true;
    info_state = none;
    info_networks = none;
    info_host_config = none;
    info_exposed_ports = [];
    network_ports = none;
  };
  engine = node_one;
}

abbrev pub web : Container
web = web_container (text "MIN_NUMBER=1" ∷ []) ((text "app", text "web") ∷ []) (text "running")

-- A pattern that matches itself.
abbrev pub exact : Text → Text → Option Bool
exact pattern label = some (text_eq pattern label)
