-- ===== src/Scale/Seize/Grow.antt =====
-- task_filter.go: the `DoContainers` methods, which put the containers to start or to create on a node.
-- (Those of the two scale-down filters do nothing and are never called.) `append` copies here: what
-- Go's sharing of spare capacity does to the environment of the copies is not modelled. The copies of
-- StartTaskFilter share one configuration with the container that they copy: here each keeps the
-- environment of its own round, while in the source each later round's empty entry shows in all.
use cattle.Prelude.{
  ℕ, zero, suc, ◌+◌, [], ◌∷◌, ◌++◌, none, some, Text, text, length, ℤ, pos, negsuc, sub64, ltb_ℤ,
  leb_ℤ, ok, panic, Bool, true, false, if◌then◌else◌,
}
use cattle.Cluster.Data.{ContainerConfig, EngineData, ContainerInfo}
use cattle.Scale.Tasks.{create, start}
use cattle.Scale.Select.Base.{Run}
use cattle.Scale.Seize.Data.{SeizeContainer, SeizeNode, SeizeFilter}

-- The rounds of a loop up to an `int`.
abbrev pub at_most : ℤ → ℕ
at_most (pos n) = n
at_most (negsuc n) = 0

-- &cluster.Container{Config: …}: the fields that are not set.
abbrev pub no_engine : EngineData
no_engine = record { engine_id = []; engine_name = []; engine_addr = []; engine_labels = [] }

abbrev pub no_info : ContainerInfo
no_info = record {
  info_name = [];
  has_config = false;
  info_state = none;
  info_networks = none;
  info_host_config = none;
  info_exposed_ports = [];
  network_ports = none;
}

abbrev pub with_env : ContainerConfig → Text → ContainerConfig
with_env config entry = record config { env = config.env ++ entry ∷ [] }

-- The container that CreateTaskFilter makes: the names and the configuration of the first one found.
unfoldable pub copy_for : Text → SeizeContainer → SeizeContainer
copy_for constraint first = record {
  taken = record {
    ident = [];
    names = first.taken.names;
    state = [];
    labels = [];
    config = with_env first.taken.config constraint;
    info = no_info;
    engine = no_engine;
  };
  priority = pos 0;
  kind = create;
}

abbrev pub node_constraint : SeizeNode → Text
node_constraint node = text "constraint:node==" ++ node.node_engine.engine_name

-- One more container on the node, and one more in `scaleUpedCount`.
unfoldable pub add_up : SeizeContainer → SeizeNode → SeizeNode
add_up c node = record node { scale_up = node.scale_up ++ c ∷ [] }

-- Whether `Names[0]` is there.
unfoldable pub is_named : SeizeContainer → Bool
is_named c = elim c.taken.names [ [] ↦ false | name ∷ names ↦ true ]

-- The loop of CreateTaskFilter.DoContainers. Without a container to copy it panics, and with one that
-- has no name, whose `Names[0]` a debug line reads.
unfoldable pub create_loop : ℕ → SeizeNode → SeizeFilter → Run (SeizeNode × SeizeFilter)
unfolding copy_for add_up is_named
create_loop zero node f = ok (node, f)
create_loop (suc k) node f =
    let more = λ (first : SeizeContainer).
      create_loop k (add_up (copy_for (node_constraint node) first) node)
        (record f { scaled_up = f.scaled_up + 1 }) in
    if leb_ℤ f.number (pos f.scaled_up) then ok (node, f) else elim f.create_container [
      | none ↦ panic
      | some first ↦ if is_named first then more first else panic
    ]

-- The smaller one of what the node has room for and of what the item still asks for.
unfoldable pub create_needs : SeizeNode → SeizeFilter → ℤ
unfolding sub64
create_needs node f =
    let room = sub64 f.app_lots (pos (length node.scale_up)) in
    let missing = sub64 f.number (pos f.scaled_up) in if ltb_ℤ room missing then room else missing

-- The loop of StartTaskFilter.DoContainers. The constraint is the empty text: the call of `Sprintf`
-- drops its result.
unfoldable pub start_loop : ℕ → SeizeNode → SeizeFilter → Run (SeizeNode × SeizeFilter)
unfolding add_up
start_loop zero node f = ok (node, f)
start_loop (suc k) node f =
    let more = λ (first : SeizeContainer).
      (let config = with_env first.taken.config [] in
        let grown : SeizeContainer = record first {
          taken = record (first.taken) { config = config };
        } in
        start_loop k (add_up grown node)
          (record f { scaled_up = f.scaled_up + 1; create_container = some grown })) in
    if leb_ℤ f.number (pos f.scaled_up)
    then ok (node, f)
    else elim f.create_container [ none ↦ panic | some first ↦ more first ]

-- scaleUpTaskFilter.DoContainers
unfoldable pub do_containers : SeizeNode → SeizeFilter → Run (SeizeNode × SeizeFilter)
unfolding create_loop create_needs start_loop sub64
do_containers node f = elim f.up_type [
  | start ↦
      let f' : SeizeFilter = record f { scaled_up = f.scaled_up + length node.scale_up } in
      start_loop (at_most (sub64 f.app_lots (pos (length node.scale_up)))) node f'
  | _ ↦ create_loop (at_most (create_needs node f)) node f
]
