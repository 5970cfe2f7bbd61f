-- ===== src/Scheduler/Filters/Simple.antt =====
-- scheduler/filter/health.go, slots.go and dependency.go
use cattle.Prelude.{
  if◌then◌else◌, Bool, true, false, ◌&&◌, List, [], ◌∷◌, ◌++◌, Option, none, some, Text, text, atoi,
  ℤ, pos, ltb_ℤ, length, keep, all, before, trim_prefix, has_prefix, map, join, Outcome, ok,
}
use cattle.Cluster.Data.{ContainerConfig, Container, lookup}
use cattle.Scheduler.Exprs.{FilterError, no_healthy_node, no_free_slots, unmet_dependencies}
use cattle.Scheduler.Narrow.{or_error}
use cattle.Scheduler.Node.{Node, is_healthy, node_container}
use cattle.Scheduler.Filters.Base.{Services, NodeFilter}

abbrev pub health_filter : NodeFilter
health_filter = record {
  filter_name = text "health";
  filter = λ config nodes soft. or_error no_healthy_node (keep is_healthy nodes);
  get_filters = λ config. ok [];
}

abbrev slots_below : Option ℤ → ℤ → Bool
slots_below none used = true
slots_below (some slots) used = ltb_ℤ used slots

abbrev slots_of : Option Text → Option ℤ
unfolding atoi
slots_of none = none
slots_of (some label) = atoi label

-- The test of SlotsFilter: without a number in the label there is no limit.
unfoldable pub has_slot : Node → Bool
unfolding slots_of lookup
has_slot n =
    slots_below (slots_of (lookup (text "containerslots") n.node_labels))
      (pos (length n.node_containers))

abbrev pub slots_filter : NodeFilter
slots_filter = record {
  filter_name = text "containerslots";
  filter = λ config nodes soft. or_error no_free_slots (keep has_slot nodes);
  get_filters = λ config. ok (text "available container slots" ∷ []);
}

-- The container that `--net` points to.
abbrev net_target : Text → List Text
unfolding trim_prefix
net_target mode = elim (trim_prefix mode (text "container:")) [ none ↦ [] | some name ↦ name ∷ [] ]

abbrev net_option : Text → List Text
unfolding has_prefix
net_option mode = if has_prefix mode (text "container:") then (text "--net=" ++ mode) ∷ [] else []

-- DependencyFilter.GetFilters
unfoldable pub dependencies : ContainerConfig → List Text
unfolding net_option
dependencies c =
    map (λ v. text "--volumes-from=" ++ v) c.host_config.volumes_from
    ++ map (λ l. text "--link=" ++ l) c.host_config.links
    ++ net_option c.host_config.network_mode

abbrev is_found : Option Container → Bool
is_found none = false
is_found (some c) = true

module _ (services : Services) where
  -- check
  unfoldable pub has_all : List Text → Node → Bool
  unfolding all node_container
  has_all names n = all (λ name. is_found (node_container services.truncate_id name n)) names

  -- The three checks of DependencyFilter.
  unfoldable pub has_dependencies : ContainerConfig → Node → Bool
  unfolding has_all before net_target
  has_dependencies c n =
      has_all (map (λ v. before v (text ":")) c.host_config.volumes_from) n
      && has_all (map (λ l. before l (text ":")) c.host_config.links) n
      && has_all (net_target c.host_config.network_mode) n

  unfoldable pub filter_dependencies : ContainerConfig → List Node → Outcome FilterError (List Node)
  unfolding has_dependencies keep or_error dependencies join
  filter_dependencies c [] = ok []
  filter_dependencies c (n ∷ ns) =
      or_error (unmet_dependencies (join (text " ") (dependencies c)))
        (keep (has_dependencies c) (n ∷ ns))

  abbrev pub dependency_filter : NodeFilter
  dependency_filter = record {
    filter_name = text "dependency";
    filter = λ config nodes soft. filter_dependencies config nodes;
    get_filters = λ config. ok (dependencies config);
  }
