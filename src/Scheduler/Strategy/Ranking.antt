-- ===== src/Scheduler/Strategy/Ranking.antt =====
-- The spread and the binpack strategy rank the nodes that have room.
use mathlib.Core.List.{Perm}
use cattle.Prelude.{
  ℕ, ◌≡◌, ◌≢◌, refl, Bool, true, false, ltb, List, [], inl, inr, ◌⊎◌, if◌then◌else◌, ℤ, pos, negsuc,
  ltb_ℤ, eqb_ℤ, length, arith, ok, err, Within,
}
use cattle.Cluster.Data.{ContainerConfig}
use cattle.Scheduler.Node.{Node}
use cattle.Scheduler.Strategy.{
  WeightedNode, Sort, no_resources_available, less, weigh_nodes, spread, binpack, spread_factor,
  health_factor,
}
use cattle.Scheduler.Strategy.Sorting.{IsOrder, Ordered, Sorts}
use cattle.Scheduler.Strategy.Weights.{nodes_of, weigh_nodes_result}

-- Less on a weight and a number of containers.
abbrev less_pair : (a b : ℤ) (m n : ℕ) → Bool
less_pair a b m n = if eqb_ℤ a b then ltb m n else ltb_ℤ a b

less_pair-asymmetric : (a b : ℤ) (m n : ℕ) → less_pair a b m n ≡ true → less_pair b a n m ≡ false
less_pair-asymmetric (pos a) (pos b) m n h = ground arith
less_pair-asymmetric (pos a) (negsuc b) m n h = ground arith
less_pair-asymmetric (negsuc a) (pos b) m n h = ground arith
less_pair-asymmetric (negsuc a) (negsuc b) m n h = ground arith

less_pair-between :
    (a b c : ℤ) (m n o : ℕ)
    → less_pair a c m o ≡ true
    → (less_pair a b m n ≡ true) ⊎ (less_pair b c n o ≡ true)
less_pair-between (pos a) (pos b) (pos c) m n o h = ground arith
less_pair-between (pos a) (pos b) (negsuc c) m n o h = ground arith
less_pair-between (pos a) (negsuc b) (pos c) m n o h = ground arith
less_pair-between (pos a) (negsuc b) (negsuc c) m n o h = ground arith
less_pair-between (negsuc a) (pos b) (pos c) m n o h = ground arith
less_pair-between (negsuc a) (pos b) (negsuc c) m n o h = ground arith
less_pair-between (negsuc a) (negsuc b) (pos c) m n o h = ground arith
less_pair-between (negsuc a) (negsuc b) (negsuc c) m n o h = ground arith

less-IsOrder : IsOrder less
unfolding less
less-IsOrder = record {
  asymmetric = λ a b.
      less_pair-asymmetric a.weight b.weight (length a.weighted.node_containers)
        (length b.weighted.node_containers);
  between = λ a b c.
      less_pair-between a.weight b.weight c.weight (length a.weighted.node_containers)
        (length b.weighted.node_containers) (length c.weighted.node_containers);
}

other_way :
    (before : WeightedNode → WeightedNode → Bool) → IsOrder before → IsOrder (λ i j. before j i)
other_way before order = record {
  asymmetric = λ a b h. order.asymmetric b a h;
  between = λ a b c h. elim (order.between c b a h) [ inl cb ↦ inr cb | inr ba ↦ inl ba ];
}

-- A ranking: weighed nodes that fit, sorted, and nothing else; or no node has room.
pub record Ranked (sort_before : WeightedNode → WeightedNode → Bool) (config : ContainerConfig)
    (factor : ℤ) (nodes ranked : List Node) : Type 0 where
  pub fitting : List WeightedNode
  pub best_first : List WeightedNode
  pub weighed : weigh_nodes config factor nodes ≡ ok fitting
  pub some_fit : fitting ≢ []
  pub from_nodes : Within (nodes_of fitting) nodes
  pub all_of_them : Perm best_first fitting
  pub in_order : Ordered sort_before best_first
  pub result : ranked ≡ nodes_of best_first

-- With a sort that permutes and orders, the spread strategy returns the nodes that weighNodes
-- gives a weight, some of them at least, in ascending order of weight and then of the number
-- of containers; or it fails with the error that no resources are available. It does not
-- panic.
pub spread_ranks :
    (sort : Sort)
    → Sorts sort
    → (config : ContainerConfig) (nodes : List Node)
    → ((ranked : List Node) × (spread sort config nodes ≡ ok ranked)
        × Ranked less config spread_factor nodes ranked)
      ⊎ (spread sort config nodes ≡ err no_resources_available)
unfolding spread
spread_ranks sort sorts config nodes = elim (weigh_nodes_result config spread_factor nodes) [
  | inl (ws, e, some_fit, within) ↦ inl (
    nodes_of (sort less ws),
    rw e refl,
    record {
      fitting = ws;
      best_first = sort less ws;
      weighed = e;
      some_fit = some_fit;
      from_nodes = within;
      all_of_them = sorts.same less ws;
      in_order = sorts.ordered less ws less-IsOrder;
      result = refl;
    },
  )
  | inr failed ↦ inr (rw failed refl)
]

-- With a sort that permutes and orders, the binpack strategy returns the nodes that weighNodes
-- gives a weight, some of them at least, in descending order of weight and then of the number
-- of containers; or it fails with the error that no resources are available. It does not
-- panic.
pub binpack_ranks :
    (sort : Sort)
    → Sorts sort
    → (config : ContainerConfig) (nodes : List Node)
    → ((ranked : List Node) × (binpack sort config nodes ≡ ok ranked)
        × Ranked (λ i j. less j i) config health_factor nodes ranked)
      ⊎ (binpack sort config nodes ≡ err no_resources_available)
unfolding binpack
binpack_ranks sort sorts config nodes = elim (weigh_nodes_result config health_factor nodes) [
  | inl (ws, e, some_fit, within) ↦ inl (
    nodes_of (sort (λ i j. less j i) ws),
    rw e refl,
    record {
      fitting = ws;
      best_first = sort (λ i j. less j i) ws;
      weighed = e;
      some_fit = some_fit;
      from_nodes = within;
      all_of_them = sorts.same (λ i j. less j i) ws;
      in_order = sorts.ordered (λ i j. less j i) ws (other_way less less-IsOrder);
      result = refl;
    },
  )
  | inr failed ↦ inr (rw failed refl)
]
