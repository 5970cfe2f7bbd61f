-- ===== src/Scheduler/Examples.antt =====
-- Two nodes, and the theorems about the scheduler applied to them.
pub mod Choosing
pub mod Weighing
use cattle.Prelude.{
  if◌then◌else◌, ℕ, ◌≡◌, ◌≢◌, refl, List, [], ◌∷◌, ◌++◌, Option, none, some, Text, text, text_eq,
  Bool, true, false, not, ◌||◌, ◌&&◌, ℤ, pos, any, trim_left,
}
use cattle.Cluster.Data.{Labels, Container, ContainerConfig, PortBinding}
use cattle.Cluster.Config.{swarm_label}
use cattle.Cluster.Examples.{codec, config_with, no_host, container_named}
use cattle.Scheduler.Exprs.{key_pattern, value_pattern}
use cattle.Scheduler.Node.{Node}
use cattle.Scheduler.Filters.Base.{Services}

abbrev pub is_empty : Text → Bool
is_empty [] = true
is_empty (c ∷ s) = false

-- The pattern of keys matches everything, that of values what is more than `~`, and any other pattern
-- itself.
unfoldable pub simple : Text → Option (Text → Bool)
unfolding text_eq trim_left
simple pattern = some (λ s.
    if text_eq pattern key_pattern
    then true
    else if text_eq pattern value_pattern
    then not (is_empty (trim_left b'~' s))
    else text_eq pattern (text "^" ++ s ++ text "$"))

abbrev pub services : Services
services = record {
  compile = simple;
  json = codec;
  truncate_id = λ s. s;
  is_unspecified = λ s. text_eq s (text "0.0.0.0");
}

abbrev pub node_named : Text → Node
node_named name = record {
  node_id = name;
  node_ip = [];
  node_addr = [];
  node_name = name;
  node_labels = [];
  node_containers = container_named (text "c1") (text "/web") ∷ [];
  node_images = [];
  used_memory = pos 10;
  used_cpus = pos 1;
  total_memory = pos 100;
  total_cpus = pos 4;
  health_indicator = pos 100;
}

abbrev pub nodes : List Node
nodes = node_named (text "n1") ∷ node_named (text "n2") ∷ []

-- A configuration with one constraint.
abbrev pub constrained_to : Text → ContainerConfig
constrained_to e = config_with [] ((swarm_label (text "constraints"), codec.marshal (e ∷ [])) ∷ [])
