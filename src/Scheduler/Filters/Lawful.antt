-- ===== src/Scheduler/Filters/Lawful.antt =====
-- The filters of health, slots, dependencies and ports keep exactly the nodes that they accept.
use cattle.Prelude.{
  panic, ◌≡◌, ◌≢◌, refl, sym, Bool, not, List, [], ◌∷◌, text, text_eq, ok, ok-injective, keep, All,
  Bool-cases, inl, inr, if◌then◌else◌,
}
use cattle.Cluster.Data.{ContainerConfig, PortBinding}
use cattle.Scheduler.Exprs.{FilterError, no_healthy_node, no_free_slots, port_exposed, port_used}
use cattle.Scheduler.Node.{Node, is_healthy}
use cattle.Scheduler.Narrow.Kept.{
  Returns, passes_all, or_error-eq, or_error-some, narrow_all-eq, narrow_all-some, keep_nil,
  narrow_all-Returns, or_error_no_panic,
}
use cattle.Scheduler.Filters.Base.{Services}
use cattle.Scheduler.Filters.Simple.{
  health_filter, slots_filter, has_slot, dependency_filter, filter_dependencies, has_dependencies,
}
use cattle.Scheduler.Filters.Port.{
  port_filter, filter_ports, port_already_exposed, port_already_in_use, bindings_of,
}
use cattle.Scheduler.Filters.Laws.{Keeps}

unfoldable pub health_laws : Keeps health_filter
health_laws = record {
  accepts = λ config soft. is_healthy;
  Usable = λ config. Unit;
  exact =
      λ config nodes result soft h. or_error-eq no_healthy_node (keep is_healthy nodes) result h;
  complete = λ config nodes soft usable h. or_error-some no_healthy_node (keep is_healthy nodes) h;
  returns = λ config nodes soft usable. or_error_no_panic no_healthy_node (keep is_healthy nodes);
  lists = λ config usable h. cc h;
}

unfoldable pub slots_laws : Keeps slots_filter
slots_laws = record {
  accepts = λ config soft. has_slot;
  Usable = λ config. Unit;
  exact = λ config nodes result soft h. or_error-eq no_free_slots (keep has_slot nodes) result h;
  complete = λ config nodes soft usable h. or_error-some no_free_slots (keep has_slot nodes) h;
  returns = λ config nodes soft usable. or_error_no_panic no_free_slots (keep has_slot nodes);
  lists = λ config usable h. cc h;
}

module _ (services : Services) where
  pub filter_dependencies-exact :
      (config : ContainerConfig) (nodes result : List Node)
      → filter_dependencies services config nodes ≡ ok result
      → result ≡ keep (has_dependencies services config) nodes
  unfolding filter_dependencies keep
  filter_dependencies-exact config [] result h = sym (ok-injective [] result h)
  filter_dependencies-exact config (n ∷ ns) result h =
      or_error-eq _ (keep (has_dependencies services config) (n ∷ ns)) result h

  pub filter_dependencies_complete :
      (config : ContainerConfig) (nodes : List Node)
      → keep (has_dependencies services config) nodes ≢ []
      → filter_dependencies services config nodes
        ≡ ok (keep (has_dependencies services config) nodes)
  unfolding filter_dependencies
  filter_dependencies_complete config [] h =
      absurd (h (keep_nil (has_dependencies services config)))
  filter_dependencies_complete config (n ∷ ns) h =
      or_error-some _ (keep (has_dependencies services config) (n ∷ ns)) h

  pub filter_dependencies_returns :
      (config : ContainerConfig) (nodes : List Node)
      → filter_dependencies services config nodes ≢ panic
  unfolding filter_dependencies
  filter_dependencies_returns config [] h = cc h
  filter_dependencies_returns config (n ∷ ns) h =
      or_error_no_panic _ (keep (has_dependencies services config) (n ∷ ns)) h

  unfoldable pub dependency_laws : Keeps (dependency_filter services)
  dependency_laws = record {
    accepts = λ config soft. has_dependencies services config;
    Usable = λ config. Unit;
    exact = λ config nodes result soft h. filter_dependencies-exact config nodes result h;
    complete = λ config nodes soft usable h. filter_dependencies_complete config nodes h;
    returns = λ config nodes soft usable. filter_dependencies_returns config nodes;
    lists = λ config usable h. cc h;
  }

  -- The nodes that have the ports free that a configuration asks for.
  unfoldable pub accepts_ports : ContainerConfig → Node → Bool
  accepts_ports config =
      if text_eq config.host_config.network_mode (text "host")
      then passes_all {E = FilterError} (λ port n. ok (not (port_already_exposed port n)))
          config.exposed_ports
      else passes_all {E = FilterError} (λ b n. ok (not (port_already_in_use services b n)))
          (bindings_of config.host_config.port_bindings)

  pub filter_ports-exact :
      (config : ContainerConfig) (nodes result : List Node)
      → filter_ports services config nodes ≡ ok result
      → result ≡ keep (accepts_ports config) nodes
  unfolding filter_ports accepts_ports
  filter_ports-exact config nodes result h =
      elim (Bool-cases (text_eq config.host_config.network_mode (text "host"))) [
        | inl host ↦ rw host (
            narrow_all-eq port_exposed (λ port n. ok (not (port_already_exposed port n)))
              config.exposed_ports nodes result (rw host at h))
        | inr bridge ↦ rw bridge (
            narrow_all-eq (λ (b : PortBinding). port_used b.host_port)
              (λ b n. ok (not (port_already_in_use services b n)))
              (bindings_of config.host_config.port_bindings) nodes result (rw bridge at h))
      ]

  all_return :
      {B : Type 0} (test : B → Node → Bool) (bs : List B)
      → All (λ b. (n : Node) → Returns {E = FilterError} (ok (test b n))) bs
  all_return test [] = tt
  all_return test (b ∷ bs) = ((λ n. (test b n, refl)), all_return test bs)

  pub filter_ports_complete :
      (config : ContainerConfig) (nodes : List Node)
      → keep (accepts_ports config) nodes ≢ []
      → filter_ports services config nodes ≡ ok (keep (accepts_ports config) nodes)
  unfolding filter_ports accepts_ports
  filter_ports_complete config nodes h =
      elim (Bool-cases (text_eq config.host_config.network_mode (text "host"))) [
        | inl host ↦ rw host (
            narrow_all-some port_exposed (λ port n. ok (not (port_already_exposed port n)))
              config.exposed_ports
              (all_return (λ port n. not (port_already_exposed port n)) config.exposed_ports) nodes
              (rw host at h))
        | inr bridge ↦ rw bridge (
            narrow_all-some (λ (b : PortBinding). port_used b.host_port)
              (λ b n. ok (not (port_already_in_use services b n)))
              (bindings_of config.host_config.port_bindings)
              (all_return (λ b n. not (port_already_in_use services b n))
                (bindings_of config.host_config.port_bindings))
              nodes (rw bridge at h))
      ]

  pub filter_ports_returns :
      (config : ContainerConfig) (nodes : List Node) → filter_ports services config nodes ≢ panic
  unfolding filter_ports
  filter_ports_returns config nodes h =
      elim (Bool-cases (text_eq config.host_config.network_mode (text "host"))) [
        | inl host ↦
            narrow_all-Returns port_exposed (λ port n. ok (not (port_already_exposed port n)))
              config.exposed_ports
              (all_return (λ port n. not (port_already_exposed port n)) config.exposed_ports) nodes
              (rw host at h)
        | inr bridge ↦
            narrow_all-Returns (λ (b : PortBinding). port_used b.host_port)
              (λ b n. ok (not (port_already_in_use services b n)))
              (bindings_of config.host_config.port_bindings)
              (all_return (λ b n. not (port_already_in_use services b n))
                (bindings_of config.host_config.port_bindings))
              nodes (rw bridge at h)
      ]

  unfoldable pub port_laws : Keeps (port_filter services)
  port_laws = record {
    accepts = λ config soft. accepts_ports config;
    Usable = λ config. Unit;
    exact = λ config nodes result soft h. filter_ports-exact config nodes result h;
    complete = λ config nodes soft usable h. filter_ports_complete config nodes h;
    returns = λ config nodes soft usable. filter_ports_returns config nodes;
    lists = λ config usable h. cc h;
  }
