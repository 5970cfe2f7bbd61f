-- ===== src/Scheduler/Examples/Choosing.antt =====
-- Choosing among two nodes.
use cattle.Prelude.{
  ◌≡◌, ◌≢◌, refl, ◌↔◌, List, [], ◌∷◌, Text, text, text_eq, Bool, true, false, All, some, ok, keep,
  sym, ap, ◌∙◌,
}
use cattle.Cluster.Data.{ContainerConfig}
use cattle.Cluster.Examples.{container_named}
use cattle.Scheduler.Exprs.{eq, not_eq, Expr, parse_exprs}
use cattle.Scheduler.Exprs.Parsed.{ValuesHaveText}
use cattle.Scheduler.Node.{Node, is_healthy}
use cattle.Scheduler.Strategy.{Strategy}
use cattle.Scheduler.Filters.Simple.{has_slot, has_dependencies}
use cattle.Scheduler.Filters.Port.{bindings_of, port_already_in_use}
use cattle.Scheduler.Filters.Lawful.{accepts_ports}
use cattle.Scheduler.Filters.Placement.{exprs_under, counts, constraint_test}
use cattle.Scheduler.Filters.Batch.{all_filters, apply_filters}
use cattle.Scheduler.Filters.Standard.{
  accepts_node, MatchableConfig, apply_filters_accepted, apply_filters_some,
}
use cattle.Scheduler.Filters.Matching.{usable-MatchableConfig}
use cattle.Scheduler.Filters.Names.{IsSupported}
use cattle.Scheduler.Filters.Ports.{Free, accepts_ports_iff}
use cattle.Scheduler.Exprs.{match_pattern, value_pattern}
use cattle.Prelude.{any, not, trim_left, ok-injective}
use cattle.Scheduler.Examples.{is_empty}
use cattle.Scheduler.Select.{select_nodes_for_container}
use cattle.Scheduler.Select.Chosen.{standard_scheduler, select_soft, select_hard}
use cattle.Scheduler.Examples.{services, simple, node_named, nodes, constrained_to}

-- The nodes as they come, ranked in no way.
abbrev as_they_are : Strategy
as_they_are config ns = ok ns

abbrev to_node : Text → Bool → Expr
to_node name soft = record { expr_key = text "node"; comparison = eq; value = name; is_soft = soft }

abbrev second_config : ContainerConfig
second_config = constrained_to (text "node==n2")

second_affinities : exprs_under services (text "affinities") second_config ≡ ok []
unfolding exprs_under text_eq
second_affinities = refl

second_whitelists : exprs_under services (text "whitelists") second_config ≡ ok []
unfolding exprs_under text_eq
second_whitelists = refl

second_constraints :
    exprs_under services (text "constraints") second_config ≡ ok (to_node (text "n2") false ∷ [])
unfolding exprs_under simple
second_constraints = refl

second_matchable : MatchableConfig services second_config
second_matchable =
    usable-MatchableConfig services second_config []
      (record { exprs = []; parsed = second_affinities; usable = tt })
      (record {
        exprs = to_node (text "n2") false ∷ [];
        parsed = second_constraints;
        usable = ((λ h. cc h, λ h. cc h), tt);
      })
      second_whitelists

second_kept_true :
    keep (accepts_node services second_config true) nodes ≡ node_named (text "n2") ∷ []
unfolding accepts_node simple keep is_healthy accepts_ports bindings_of has_slot has_dependencies
    exprs_under counts constraint_test
second_kept_true = refl

abbrev preferred_config : ContainerConfig
preferred_config = constrained_to (text "node==~n9")

preferred_affinities : exprs_under services (text "affinities") preferred_config ≡ ok []
unfolding exprs_under text_eq
preferred_affinities = refl

preferred_whitelists : exprs_under services (text "whitelists") preferred_config ≡ ok []
unfolding exprs_under text_eq
preferred_whitelists = refl

preferred_constraints :
    exprs_under services (text "constraints") preferred_config ≡ ok (to_node (text "n9") true ∷ [])
unfolding exprs_under simple
preferred_constraints = refl

preferred_matchable : MatchableConfig services preferred_config
preferred_matchable =
    usable-MatchableConfig services preferred_config []
      (record { exprs = []; parsed = preferred_affinities; usable = tt })
      (record {
        exprs = to_node (text "n9") true ∷ [];
        parsed = preferred_constraints;
        usable = ((λ h. cc h, λ h. cc h), tt);
      })
      preferred_whitelists

preferred_kept_true : keep (accepts_node services preferred_config true) nodes ≡ []
unfolding accepts_node simple keep is_healthy accepts_ports bindings_of has_slot has_dependencies
    exprs_under counts constraint_test
preferred_kept_true = refl

preferred_kept_false : keep (accepts_node services preferred_config false) nodes ≡ nodes
unfolding accepts_node simple keep is_healthy accepts_ports bindings_of has_slot has_dependencies
    exprs_under counts constraint_test
preferred_kept_false = refl

abbrev missing_config : ContainerConfig
missing_config = constrained_to (text "node==n9")

missing_affinities : exprs_under services (text "affinities") missing_config ≡ ok []
unfolding exprs_under text_eq
missing_affinities = refl

missing_whitelists : exprs_under services (text "whitelists") missing_config ≡ ok []
unfolding exprs_under text_eq
missing_whitelists = refl

missing_constraints :
    exprs_under services (text "constraints") missing_config ≡ ok (to_node (text "n9") false ∷ [])
unfolding exprs_under simple
missing_constraints = refl

missing_matchable : MatchableConfig services missing_config
missing_matchable =
    usable-MatchableConfig services missing_config []
      (record { exprs = []; parsed = missing_affinities; usable = tt })
      (record {
        exprs = to_node (text "n9") false ∷ [];
        parsed = missing_constraints;
        usable = ((λ h. cc h, λ h. cc h), tt);
      })
      missing_whitelists

missing_kept_true : keep (accepts_node services missing_config true) nodes ≡ []
unfolding accepts_node simple keep is_healthy accepts_ports bindings_of has_slot has_dependencies
    exprs_under counts constraint_test
missing_kept_true = refl

missing_kept_false : keep (accepts_node services missing_config false) nodes ≡ []
unfolding accepts_node simple keep is_healthy accepts_ports bindings_of has_slot has_dependencies
    exprs_under counts constraint_test
missing_kept_false = refl

second_some : keep (accepts_node services second_config true) nodes ≢ []
second_some h =
    let h' : ◌≡◌ {A = List Node} (node_named (text "n2") ∷ []) [] = sym second_kept_true ∙ h in
    cc h'

preferred_some : keep (accepts_node services preferred_config false) nodes ≢ []
preferred_some h = let h' : ◌≡◌ {A = List Node} nodes [] = sym preferred_kept_false ∙ h in cc h'

apply_filters_some_example :
    apply_filters (all_filters services) second_config nodes true
    ≡ ok (keep (accepts_node services second_config true) nodes)
apply_filters_some_example =
    apply_filters_some services second_config nodes true second_matchable second_some

apply_filters_accepted_example :
    node_named (text "n2") ∷ [] ≡ keep (accepts_node services second_config true) nodes
apply_filters_accepted_example =
    apply_filters_accepted services second_config nodes (node_named (text "n2") ∷ []) true (
      apply_filters_some services second_config nodes true second_matchable second_some
      ∙ ap ok second_kept_true)

select_soft_example :
    select_nodes_for_container (standard_scheduler services as_they_are) nodes second_config
    ≡ ok (keep (accepts_node services second_config true) nodes)
select_soft_example =
    select_soft services as_they_are second_config nodes
      (keep (accepts_node services second_config true) nodes) second_matchable second_some refl

select_hard_example :
    select_nodes_for_container (standard_scheduler services as_they_are) nodes preferred_config
    ≡ ok (keep (accepts_node services preferred_config false) nodes)
select_hard_example =
    select_hard services as_they_are preferred_config nodes
      (keep (accepts_node services preferred_config false) nodes) preferred_matchable
      preferred_kept_true preferred_some refl

slash_parsed :
    exprs_under services (text "constraints") (constrained_to (text "node==/"))
    ≡ ok (to_node (text "/") false ∷ [])
unfolding exprs_under simple
slash_parsed = refl

slash_counted : counts true (to_node (text "/") false) ≡ true
unfolding counts
slash_counted = refl

port_health : All (IsSupported (all_filters services)) (text "port" ∷ text "health" ∷ [])
unfolding all_filters IsSupported any text_eq
port_health = (refl, (refl, tt))

-- What `~` is trimmed off is not empty where a byte is left.
non_empty : (s : Text) → not (is_empty s) ≡ true → s ≢ []
non_empty [] h e = cc h
non_empty (c ∷ s) h e = cc e

simple-value :
    (v : Text) → match_pattern simple value_pattern v ≡ ok (not (is_empty (trim_left b'~' v)))
unfolding simple text_eq match_pattern
simple-value v = refl

simple_values : ValuesHaveText simple
simple_values v h = non_empty (trim_left b'~' v) (ok-injective _ true (sym (simple-value v) ∙ h))

both_parsed :
    parse_exprs simple (text "node==n1" ∷ text "node!=~n2" ∷ [])
    ≡ ok (
        to_node (text "n1") false
        ∷ (record {
          expr_key = text "node";
          comparison = not_eq;
          value = text "n2";
          is_soft = true;
        })
        ∷ [])
unfolding parse_exprs simple
both_parsed = refl

-- A configuration that asks for the port 80 on every address.
abbrev published : ContainerConfig
published = record second_config {
  host_config = record (second_config.host_config) {
    port_bindings =
        (text "80/tcp", record { host_ip = text "0.0.0.0"; host_port = text "80" } ∷ []) ∷ [];
  };
}

-- A node with a container that has got the port 80 on one address.
abbrev serving : Node
serving =
    let web = container_named (text "c1") (text "/web") in
    record (node_named (text "n1")) {
      node_containers =
          record web {
            info = record (web.info) {
              network_ports = some (
                  (text "80/tcp", record { host_ip = text "10.0.0.1"; host_port = text "80" } ∷ [])
                  ∷ []);
            };
          }
          ∷ [];
    }

published_bridge : text_eq published.host_config.network_mode (text "host") ≡ false
unfolding text_eq
published_bridge = refl

serving_test : accepts_ports services published serving ≡ false
unfolding accepts_ports text_eq bindings_of port_already_in_use
serving_test = refl

accepts_ports_iff_example :
    (accepts_ports services published serving ≡ true)
    ↔ All (Free services serving) (bindings_of published.host_config.port_bindings)
accepts_ports_iff_example = accepts_ports_iff services published serving published_bridge
