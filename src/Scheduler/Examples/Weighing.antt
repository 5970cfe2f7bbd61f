-- ===== src/Scheduler/Examples/Weighing.antt =====
-- Weighing two nodes, adding a container to one, and shuffling a list.
use cattle.Prelude.{◌≡◌, refl, ◌⊎◌, List, text, ok, err, arith}
use cattle.Cluster.Examples.{container_named}
use cattle.Cluster.Data.{ContainerConfig}
use cattle.Scheduler.Node.{Node}
use cattle.Scheduler.Node.Adding.{Sizes}
use cattle.Scheduler.Strategy.{no_resources_available, spread_factor, less, spread}
use cattle.Scheduler.Strategy.Sorting.{insertion_sort, insertion_sort-Sorts}
use cattle.Scheduler.Strategy.Ranking.{Ranked, spread_ranks}
use cattle.Scheduler.Examples.{node_named, nodes, constrained_to}

abbrev config : ContainerConfig
config = constrained_to (text "node==n2")

spread_ranks_example :
    ((ranked : List Node) × (spread insertion_sort config nodes ≡ ok ranked)
      × Ranked less config spread_factor nodes ranked)
    ⊎ (spread insertion_sort config nodes ≡ err no_resources_available)
spread_ranks_example = spread_ranks insertion_sort insertion_sort-Sorts config nodes

sizes : Sizes (container_named (text "c2") (text "/db")) (node_named (text "n1")) 0 0 10 1 100 4
sizes = record {
  asks_memory = refl;
  asks_cpus = refl;
  uses_memory = refl;
  uses_cpus = refl;
  has_memory = refl;
  has_cpus = refl;
  small_memory = (omega arith, omega arith);
  small_cpus = (omega arith, omega arith);
}
