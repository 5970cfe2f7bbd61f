-- ===== src/Swarm/Examples.antt =====
-- A cluster of one engine, and the theorems about cluster/swarm/cluster.go and cluster/watchdog.go
-- applied to it.
use cattle.Prelude.{
  text_eq, ℕ, ◌≤◌, ◌≡◌, ◌≢◌, ◌↔◌, refl, true, false, [], ◌∷◌, none, some, Text, text, text_eq, All,
  pos, ok, err, panic,
}
use cattle.Cluster.Data.{Container, ContainerConfig, lookup}
use cattle.Cluster.Config.{swarm_label, swarm_id}
use cattle.Cluster.Examples.{codec, config_with, container_named}
use cattle.Engine.Data.{Engine, healthy}
use cattle.Engine.Examples.{engine_in, daemon}
use cattle.Swarm.Registry.{Registry, add_engine, remove_engine, has_engine_by_addr}
use cattle.Swarm.Registry.Once.{added, start, more, total, Steps-once, remove_added_panics}
use cattle.Swarm.Data.{PendingContainer, Settings, Fleet, name_conflict}
use cattle.Swarm.Views.{check_name_uniqueness, all_containers}
use cattle.Swarm.Create.{begin_create, create_container}
use cattle.Swarm.Create.Names.{IsOther, check_name_uniqueness_iff}
use cattle.Swarm.Create.Reserved.{begin_create_reserves}
use cattle.Swarm.Create.Released.{IsSettled, create_container-IsSettled}
use cattle.Swarm.Create.Interleaved as Interleaved
use cattle.Swarm.Watchdog.{reschedule_container, bare_name}
use cattle.Swarm.Watchdog.Kept.{reschedule_unnamed_loses}

abbrev settings : Settings ℕ
settings = record {
  scheduler = record { strategy = λ c ns. ok ns; filters = [] };
  create_retry = pos 1;
  json = codec;
  truncate_id = λ s. s;
  ip_of = λ s. s;
  regexp_error = [];
  draws = λ w. text "d1" ∷ text "d2" ∷ [];
  daemon_of = λ e. daemon;
}

abbrev web : Container
web = container_named (text "c1") (text "/web")

abbrev with_web : Engine
with_web = record (engine_in healthy 0) { containers = (text "c1", web) ∷ [] }

abbrev empty_registry : Registry
empty_registry = record { engines = []; pending_engines = [] }

abbrev fleet_of : Engine → Fleet ℕ
fleet_of e = record {
  registry = record { engines = (text "e1", e) ∷ []; pending_engines = [] };
  pending_containers = [];
  gone = [];
  world = 0;
  events = [];
}

abbrev config_one : ContainerConfig
config_one = config_with [] ((swarm_label (text "id"), text "s1") ∷ [])

abbrev after_add : Registry
after_add = (add_engine (text "a1") (pos 5) (pos 3) (pos 0) empty_registry).0

Steps-once_example : total (text "a1") after_add ≤ 1
Steps-once_example =
    Steps-once after_add (text "a1")
      (more (start empty_registry) (added (text "a1") (pos 5) (pos 3) (pos 0) empty_registry))

remove_added_panics_example : remove_engine (text "a1") after_add ≡ panic
unfolding has_engine_by_addr
remove_added_panics_example =
    remove_added_panics (text "a1") (pos 5) (pos 3) (pos 0) empty_registry refl

check_name_uniqueness_iff_example :
    (check_name_uniqueness (text "web") (fleet_of with_web).registry.engines [] ≡ true) ↔ (
      All (IsOther (text "web")) (all_containers (fleet_of with_web).registry.engines)
      × All (λ (e : Text × PendingContainer). e.1.pending_name ≢ text "web") [])
check_name_uniqueness_iff_example =
    check_name_uniqueness_iff b'w' (text "eb") (fleet_of with_web).registry.engines []

abbrev begun : Fleet ℕ
begun = (begin_create settings (text "db") false config_one (fleet_of with_web)).1.1

begin_create_reserves_example :
    begin_create settings (text "db") true config_one (record begun { registry = empty_registry })
    ≡ (config_one, (err (name_conflict (text "db")), record begun { registry = empty_registry }))
unfolding begin_create
begin_create_reserves_example =
    begin_create_reserves settings b'd' (text "b") false config_one (text "s1", text "e1")
      (fleet_of with_web) begun refl true config_one empty_registry

create_container-IsSettled_example :
    IsSettled settings []
      (text "s1")
      (create_container settings (text "db") config_one (fleet_of with_web))
unfolding swarm_id lookup text_eq
create_container-IsSettled_example =
    create_container-IsSettled settings (text "db") b's' (text "1") config_one (fleet_of with_web)
      refl refl

Steps-apart_example : Interleaved.count (text "db") begun.pending_containers ≤ 1
Steps-apart_example =
    Interleaved.Steps-apart settings (fleet_of with_web) begun b'd' (text "b")
      (Interleaved.more (Interleaved.start (fleet_of with_web))
        (Interleaved.began (text "db") false config_one (fleet_of with_web)))
      refl

abbrev unnamed : Container
unnamed = record web {
  engine = (engine_in healthy 0).about;
  info = record web.info { info_name = text "/" };
}

reschedule_unnamed_loses_example :
    (e' : Engine) × ((reschedule_container settings unnamed (fleet_of with_web)).0 ≡ ok tt)
    × (lookup
          (text "e1")
          (reschedule_container settings unnamed (fleet_of with_web)).1.registry.engines
        ≡ some e')
    × (lookup (text "c1") e'.containers ≡ none)
unfolding lookup bare_name text_eq
reschedule_unnamed_loses_example =
    reschedule_unnamed_loses settings unnamed with_web (fleet_of with_web) refl refl
