-- ===== src/Scheduler/Select.antt =====
-- scheduler/scheduler.go
pub mod Chosen
use cattle.Prelude.{
  Bool, true, false, List, [], ◌∷◌, Text, text, join, Outcome, ok, err, panic, ◌>>=◌,
}
use cattle.Cluster.Data.{ContainerConfig}
use cattle.Scheduler.Exprs.{FilterError}
use cattle.Scheduler.Node.{Node}
use cattle.Scheduler.Strategy.{Strategy, StrategyError}
use cattle.Scheduler.Filters.Base.{NodeFilter}
use cattle.Scheduler.Filters.Batch.{apply_filters, list_filters}

pub data SchedulerError : Type 0 where
  filters_failed : FilterError → SchedulerError
  no_node_available : SchedulerError
  strategy_failed : StrategyError → SchedulerError

-- Scheduler, without its lock.
pub record Scheduler : Type 0 where
  pub strategy : Strategy
  pub filters : List NodeFilter

abbrev pub from_filters : Outcome FilterError (List Node) → Outcome SchedulerError (List Node)
from_filters (ok ns) = ok ns
from_filters (err e) = err (filters_failed e)
from_filters panic = panic

abbrev pub from_strategy : Outcome StrategyError (List Node) → Outcome SchedulerError (List Node)
from_strategy (ok ns) = ok ns
from_strategy (err e) = err (strategy_failed e)
from_strategy panic = panic

module _ (s : Scheduler) where
  abbrev pub rank_accepted : ContainerConfig → List Node → Outcome SchedulerError (List Node)
  rank_accepted config [] = err no_node_available
  rank_accepted config (n ∷ ns) = from_strategy (s.strategy config (n ∷ ns))

  -- selectNodesForContainer
  unfoldable pub select_nodes :
      List Node → ContainerConfig → Bool → Outcome SchedulerError (List Node)
  unfolding apply_filters
  select_nodes nodes config soft = do
    accepted ← from_filters (apply_filters s.filters config nodes soft)
    rank_accepted config accepted

  -- SelectNodesForContainer: with the soft expressions first, and after an error without them.
  unfoldable pub select_nodes_for_container :
      List Node → ContainerConfig → Outcome SchedulerError (List Node)
  unfolding select_nodes
  select_nodes_for_container nodes config = elim (select_nodes nodes config true) [
    | ok candidates ↦ ok candidates
    | err e ↦ select_nodes nodes config false
    | panic ↦ panic
  ]

  -- Filters
  unfoldable pub filters_text : Text
  unfolding list_filters join
  filters_text = join (text ", ") (list_filters s.filters)
