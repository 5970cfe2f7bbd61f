-- ===== src/Scheduler/Select/Chosen.antt =====
-- Which nodes the scheduler chooses from.
use cattle.Prelude.{
  ◌≡◌, ◌≢◌, refl, ap, ◌∙◌, Bool, true, false, List, [], ◌∷◌, ok, err, keep, inl, inr,
}
use cattle.Cluster.Data.{ContainerConfig}
use cattle.Scheduler.Node.{Node}
use cattle.Scheduler.Strategy.{Strategy}
use cattle.Scheduler.Filters.Base.{Services}
use cattle.Scheduler.Filters.Batch.{all_filters}
use cattle.Scheduler.Filters.Standard.{
  accepts_node, MatchableConfig, apply_filters_accepted, apply_filters_some, apply_standard_returns,
}
use cattle.Scheduler.Select.{
  Scheduler, SchedulerError, no_node_available, filters_failed, from_strategy, rank_accepted,
  select_nodes, select_nodes_for_container,
}

module _ (services : Services) (strategy : Strategy) where
  -- A scheduler with all filters.
  abbrev pub standard_scheduler : Scheduler
  standard_scheduler = record { strategy = strategy; filters = all_filters services }

  rank_some :
      (config : ContainerConfig) (ns : List Node)
      → ns ≢ []
      → rank_accepted standard_scheduler config ns ≡ from_strategy (strategy config ns)
  rank_some config [] h = absurd (h refl)
  rank_some config (n ∷ ns) h = refl

  select_nodes_some :
      (config : ContainerConfig) (nodes : List Node) (soft : Bool)
      → MatchableConfig services config
      → keep (accepts_node services config soft) nodes ≢ []
      → select_nodes standard_scheduler nodes config soft
        ≡ from_strategy (strategy config (keep (accepts_node services config soft) nodes))
  unfolding select_nodes
  select_nodes_some config nodes soft m some_node =
      rw (apply_filters_some services config nodes soft m some_node)
        (rank_some config (keep (accepts_node services config soft) nodes) some_node)

  no_nodes_fail :
      (config : ContainerConfig) (nodes : List Node) (soft : Bool)
      → MatchableConfig services config
      → keep (accepts_node services config soft) nodes ≡ []
      → (e : SchedulerError) × (select_nodes standard_scheduler nodes config soft ≡ err e)
  unfolding select_nodes
  no_nodes_fail config nodes soft m nothing =
      elim (apply_standard_returns services config nodes soft m) [
        | inl (ns, e) ↦
            let empty = apply_filters_accepted services config nodes ns soft e ∙ nothing in
            (no_node_available, rw (e, empty) refl)
        | inr (x, e) ↦ (filters_failed x, rw e refl)
      ]

  -- With all filters and expressions that parse and can be matched: when some node is accepted
  -- with the soft expressions counted, and the strategy ranks the accepted nodes,
  -- SelectNodesForContainer returns that ranking.
  pub select_soft :
      (config : ContainerConfig) (nodes ranked : List Node)
      → MatchableConfig services config
      → keep (accepts_node services config true) nodes ≢ []
      → strategy config (keep (accepts_node services config true) nodes) ≡ ok ranked
      → select_nodes_for_container standard_scheduler nodes config ≡ ok ranked
  unfolding select_nodes_for_container
  select_soft config nodes ranked m some_node best =
      rw
        (
          select_nodes_some config nodes true m some_node ∙ ap from_strategy best,
          select_nodes_for_container,
        )
        refl

  -- With all filters and expressions that parse and can be matched: when no node is accepted
  -- with the soft expressions counted, some node is without them, and the strategy ranks those
  -- nodes, SelectNodesForContainer returns that ranking.
  pub select_hard :
      (config : ContainerConfig) (nodes ranked : List Node)
      → MatchableConfig services config
      → keep (accepts_node services config true) nodes ≡ []
      → keep (accepts_node services config false) nodes ≢ []
      → strategy config (keep (accepts_node services config false) nodes) ≡ ok ranked
      → select_nodes_for_container standard_scheduler nodes config ≡ ok ranked
  unfolding select_nodes_for_container
  select_hard config nodes ranked m nothing some_node best =
      let (e, fails) = no_nodes_fail config nodes true m nothing in
      rw (fails, select_nodes_for_container)
        (select_nodes_some config nodes false m some_node ∙ ap from_strategy best)

  -- With all filters and expressions that parse and can be matched: when no node is accepted,
  -- with or without the soft expressions, SelectNodesForContainer returns an error, and does
  -- not panic.
  pub select_none :
      (config : ContainerConfig) (nodes : List Node)
      → MatchableConfig services config
      → keep (accepts_node services config true) nodes ≡ []
      → keep (accepts_node services config false) nodes ≡ []
      → (e : SchedulerError) × (select_nodes_for_container standard_scheduler nodes config ≡ err e)
  unfolding select_nodes_for_container
  select_none config nodes m nothing nothing_hard =
      let (e, fails) = no_nodes_fail config nodes true m nothing in
      let (e', fails') = no_nodes_fail config nodes false m nothing_hard in
      (e', rw (fails, select_nodes_for_container) fails')
