-- ===== src/Scheduler/Strategy.antt =====
-- scheduler/strategy: weighted_node.go, spread.go and binpack.go. `sort.Sort` is a parameter, which takes the
-- comparison `Less`.
pub mod Weights
pub mod Sorting
pub mod Ranking
pub mod Shuffle
pub mod Table
use cattle.Prelude.{
  ℕ, ◌^◌, ◌-◌, ltb, Bool, ◌&&◌, ◌||◌, List, [], ◌∷◌, Option, none, some, Text, text, text_eq, map,
  length, ℤ, pos, negsuc, add64, mul64, div64, ltb_ℤ, leb_ℤ, eqb_ℤ, Outcome, ok, err, panic, ◌>>=◌,
  if◌then◌else◌,
}
use cattle.Cluster.Data.{ContainerConfig, HostConfig}
use cattle.Scheduler.Node.{Node}

pub data StrategyError : Type 0 where
  no_resources_available : StrategyError

pub record WeightedNode : Type 0 where
  pub weighted : Node
  pub weight : ℤ

-- `a / b` on int64.
unfoldable pub divide : ℤ → ℤ → Outcome StrategyError ℤ
unfolding div64
divide a b = if eqb_ℤ b (pos 0) then panic else ok (div64 a b)

-- The score of a resource: 100 where none of it is asked for.
unfoldable pub score : (used requested total : ℤ) → Outcome StrategyError ℤ
unfolding divide add64 mul64
score used requested total =
    if ltb_ℤ (pos 0) requested
    then divide (mul64 (add64 used requested) (pos 100)) total
    else ok (pos 100)

-- if cpuScore <= 100 && memoryScore <= 100
unfoldable pub weighted_with : ℤ → Node → ℤ → ℤ → Option WeightedNode
unfolding add64 mul64
weighted_with factor n cpu_score memory_score =
    if leb_ℤ cpu_score (pos 100) && leb_ℤ memory_score (pos 100)
    then some (record {
      weighted = n;
      weight = add64 (add64 cpu_score memory_score) (mul64 factor n.health_indicator);
    })
    else none

-- One round of weighNodes.
unfoldable pub weigh_node : ContainerConfig → ℤ → Node → Outcome StrategyError (Option WeightedNode)
unfolding score weighted_with
weigh_node config factor n =
    let memory = config.host_config.memory in
    let cpus = config.host_config.cpu_shares in
    if ltb_ℤ n.total_memory memory || ltb_ℤ n.total_cpus cpus then ok none else (do
      cpu_score ← score n.used_cpus cpus n.total_cpus
      memory_score ← score n.used_memory memory n.total_memory
      ok (weighted_with factor n cpu_score memory_score))

abbrev pub with_weight : Option WeightedNode → List WeightedNode → List WeightedNode
with_weight none ws = ws
with_weight (some w) ws = w ∷ ws

unfoldable pub weigh_loop :
    ContainerConfig → ℤ → List Node → Outcome StrategyError (List WeightedNode)
unfolding weigh_node
weigh_loop config factor [] = ok []
weigh_loop config factor (n ∷ ns) = do
  w ← weigh_node config factor n
  ws ← weigh_loop config factor ns
  ok (with_weight w ws)

abbrev pub some_weighted : List WeightedNode → Outcome StrategyError (List WeightedNode)
some_weighted [] = err no_resources_available
some_weighted (w ∷ ws) = ok (w ∷ ws)

-- weighNodes
unfoldable pub weigh_nodes :
    ContainerConfig → ℤ → List Node → Outcome StrategyError (List WeightedNode)
unfolding weigh_loop
weigh_nodes config factor nodes = do ws ← weigh_loop config factor nodes; some_weighted ws

-- Less
unfoldable pub less : WeightedNode → WeightedNode → Bool
less i j =
    if eqb_ℤ i.weight j.weight
    then ltb (length i.weighted.node_containers) (length j.weighted.node_containers)
    else ltb_ℤ i.weight j.weight

abbrev pub Sort : Type 0
Sort = (WeightedNode → WeightedNode → Bool) → List WeightedNode → List WeightedNode

abbrev pub Strategy : Type 0
Strategy = ContainerConfig → List Node → Outcome StrategyError (List Node)

abbrev pub health_factor : ℤ
health_factor = pos 10

abbrev pub spread_factor : ℤ
spread_factor = negsuc 9

-- SpreadPlacementStrategy.RankAndSort
unfoldable pub spread : Sort → Strategy
unfolding weigh_nodes
spread sort config nodes = do
  ws ← weigh_nodes config spread_factor nodes
  ok (map (λ (w : WeightedNode). w.weighted) (sort less ws))

-- BinpackPlacementStrategy.RankAndSort: sort.Reverse swaps the arguments of Less.
unfoldable pub binpack : Sort → Strategy
unfolding weigh_nodes
binpack sort config nodes = do
  ws ← weigh_nodes config health_factor nodes
  ok (map (λ (w : WeightedNode). w.weighted) (sort (λ i j. less j i) ws))
