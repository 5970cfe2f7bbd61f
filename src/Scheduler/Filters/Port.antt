-- ===== src/Scheduler/Filters/Port.antt =====
-- scheduler/filter/port.go
use cattle.Prelude.{
  Bool, false, not, ◌&&◌, ◌||◌, List, [], ◌∷◌, ◌++◌, Option, none, some, Text, text, text_eq, any,
  map, Outcome, ok, if◌then◌else◌,
}
use cattle.Cluster.Data.{ContainerConfig, Container, HostConfig, PortBinding, PortMap}
use cattle.Scheduler.Exprs.{FilterError, port_exposed, port_used}
use cattle.Scheduler.Narrow.{narrow_all}
use cattle.Scheduler.Node.{Node}
use cattle.Scheduler.Filters.Base.{Services, NodeFilter}

abbrev pub host_mode : Option HostConfig → Bool
unfolding text_eq
host_mode none = false
host_mode (some h) = text_eq h.network_mode (text "host")

-- portAlreadyExposed
unfoldable pub port_already_exposed : Text → Node → Bool
unfolding any host_mode text_eq
port_already_exposed port n =
    any
      (λ (c : Container).
        host_mode c.info.info_host_config && any (λ p. text_eq p port) c.info.info_exposed_ports)
      n.node_containers

-- All bindings of a port map, in the order of the two loops.
unfoldable pub bindings_of : PortMap → List PortBinding
bindings_of [] = []
bindings_of ((port, bindings) ∷ ports) = bindings ++ bindings_of ports

module _ (services : Services) where
  open services use {is_unspecified}

  unfoldable pub binds_all_interfaces : PortBinding → Bool
  unfolding text_eq
  binds_all_interfaces b = text_eq b.host_ip [] || is_unspecified b.host_ip

  -- Whether two bindings cannot stand on one host.
  unfoldable pub clashes : PortBinding → PortBinding → Bool
  unfolding text_eq binds_all_interfaces
  clashes requested b =
      not (text_eq b.host_port [])
      && (text_eq b.host_port requested.host_port
          && (text_eq requested.host_ip b.host_ip
              || binds_all_interfaces requested
              || binds_all_interfaces b))

  -- compare
  unfoldable pub compare_ports : PortBinding → PortMap → Bool
  unfolding any clashes bindings_of
  compare_ports requested ports = any (clashes requested) (bindings_of ports)

  abbrev pub in_host_config : PortBinding → Option HostConfig → Bool
  unfolding compare_ports
  in_host_config requested none = false
  in_host_config requested (some h) = compare_ports requested h.port_bindings

  abbrev pub in_network : PortBinding → Option PortMap → Bool
  unfolding compare_ports
  in_network requested none = false
  in_network requested (some ports) = compare_ports requested ports

  -- What one container of a node takes: a pending one, without an identifier, by its configuration.
  unfoldable pub takes_port : PortBinding → Container → Bool
  unfolding in_host_config in_network compare_ports text_eq
  takes_port requested c =
      if not (text_eq c.ident [])
      then in_host_config requested c.info.info_host_config
        || in_network requested c.info.network_ports
      else compare_ports requested c.config.host_config.port_bindings

  -- portAlreadyInUse
  unfoldable pub port_already_in_use : PortBinding → Node → Bool
  unfolding any takes_port
  port_already_in_use requested n = any (takes_port requested) n.node_containers

  unfoldable pub filter_ports : ContainerConfig → List Node → Outcome FilterError (List Node)
  unfolding narrow_all port_already_exposed port_already_in_use bindings_of text_eq
  filter_ports config nodes =
      if text_eq config.host_config.network_mode (text "host")
      then narrow_all port_exposed (λ port n. ok (not (port_already_exposed port n)))
          config.exposed_ports nodes
      else narrow_all (λ (b : PortBinding). port_used b.host_port)
          (λ b n. ok (not (port_already_in_use b n))) (bindings_of config.host_config.port_bindings)
          nodes

  abbrev pub list_ports : ContainerConfig → List Text
  unfolding bindings_of text_eq
  list_ports config =
      if text_eq config.host_config.network_mode (text "host")
      then map (λ port. text "port " ++ port ++ text " (Host mode)") config.exposed_ports
      else map (λ (b : PortBinding). text "port " ++ b.host_port ++ text " (Bridge mode)")
          (bindings_of config.host_config.port_bindings)

  abbrev pub port_filter : NodeFilter
  port_filter = record {
    filter_name = text "port";
    filter = λ config nodes soft. filter_ports config nodes;
    get_filters = λ config. ok (list_ports config);
  }
