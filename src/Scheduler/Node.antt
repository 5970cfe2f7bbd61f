-- ===== src/Scheduler/Node.antt =====
-- scheduler/node/node.go
pub mod Adding
use cattle.Prelude.{
  some, none, Bool, ◌||◌, List, [], ◌∷◌, ◌++◌, Option, Text, ℤ, pos, add64, sub64, ltb_ℤ,
  if◌then◌else◌,
}
use cattle.Cluster.Data.{Labels, Container}
use cattle.Cluster.Containers.{get}
use cattle.Cluster.Images.{Image}

pub record Node : Type 0 where
  pub node_id : Text
  pub node_ip : Text
  pub node_addr : Text
  pub node_name : Text
  pub node_labels : Labels
  pub node_containers : List Container
  pub node_images : List Image
  pub used_memory : ℤ
  pub used_cpus : ℤ
  pub total_memory : ℤ
  pub total_cpus : ℤ
  pub health_indicator : ℤ

-- IsHealthy
unfoldable pub is_healthy : Node → Bool
is_healthy n = ltb_ℤ (pos 0) n.health_indicator

-- Node.Container
unfoldable pub node_container : (Text → Text) → Text → Node → Option Container
unfolding get
node_container truncate_id q n = get truncate_id q n.node_containers

-- AddContainer, for a container with a configuration: `none` is the error.
unfoldable pub add_container : Container → Node → Option Node
unfolding add64 sub64
add_container c n =
    let memory = c.config.host_config.memory in
    let cpus = c.config.host_config.cpu_shares in
    if ltb_ℤ (sub64 n.total_memory memory) (pos 0) || ltb_ℤ (sub64 n.total_cpus cpus) (pos 0)
    then none
    else some (record n {
      used_memory = add64 n.used_memory memory;
      used_cpus = add64 n.used_cpus cpus;
      node_containers = n.node_containers ++ c ∷ [];
    })
