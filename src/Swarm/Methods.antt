-- ===== src/Swarm/Methods.antt =====
-- cluster/swarm/cluster.go: the other methods of the cluster.
use cattle.Prelude.{Bool, true, List, [], ◌∷◌, Option, Text, text_eq, ok, err, panic, if◌then◌else◌}
use cattle.Cluster.Data.{Container, ContainerConfig, lookup}
use cattle.Engine.Data.{Engine}
use cattle.Engine.Cache.{refresh_containers}
use cattle.Engine.Methods as Method
use cattle.Scheduler.Node.{Node}
use cattle.Scheduler.Select.{select_nodes_for_container}
use cattle.Swarm.Data.{
  Settings, name_conflict, scheduling_failed, no_engine_found, Job, pure, fail, ◌>>=◌, get_fleet,
  on_engine,
}
use cattle.Swarm.Views.{check_name_uniqueness, list_nodes, no_host_config}

abbrev pub no_config : ContainerConfig
no_config = record {
  env = [];
  config_labels = [];
  image = [];
  exposed_ports = [];
  host_config = no_host_config;
}

abbrev pub keys_of : List (Text × Engine) → List Text
keys_of [] = []
keys_of ((k, _) ∷ es) = k ∷ keys_of es

module _ {W : Type 0} (s : Settings W) where
  -- StartContainer, RemoveContainer
  unfoldable pub start_container : Container → Job W (Unit {0})
  unfolding on_engine Method.start_container
  start_container c =
      on_engine s c.engine.engine_id (λ daemon. Method.start_container daemon c.ident)

  unfoldable pub remove_container : Container → Bool → Bool → Job W (Unit {0})
  unfolding on_engine Method.remove_container
  remove_container c force volumes =
      on_engine s c.engine.engine_id (λ daemon. Method.remove_container daemon c force volumes)

  -- RenameContainer
  unfoldable pub rename_container : Container → Text → Job W (Unit {0})
  unfolding on_engine Method.rename_container check_name_uniqueness
  rename_container c name f =
      if check_name_uniqueness name f.registry.engines f.pending_containers
      then on_engine s c.engine.engine_id (λ daemon. Method.rename_container daemon c name) f
      else (err (name_conflict name), f)

  -- The nodes for a configuration, the best first.
  unfoldable pub selected : ContainerConfig → Job W (List Node)
  unfolding select_nodes_for_container list_nodes
  selected c f =
      elim (select_nodes_for_container s.scheduler
        (list_nodes s.truncate_id s.ip_of f.pending_containers f.registry.engines) c) [
          | panic ↦ (panic, f)
          | err e ↦ (err (scheduling_failed e), f)
          | ok nodes ↦ (ok nodes, f)
        ]

  -- nodes[0].ID
  abbrev pub first_key : List Node → Job W Text
  first_key [] f = (panic, f)
  first_key (n ∷ ns) f = (ok n.node_id, f)

  -- RANDOMENGINE, the key of the engine and the engine: `none` where the map has none at it.
  unfoldable pub random_key : Job W Text
  unfolding selected
  random_key = do nodes ← selected no_config; first_key nodes

  unfoldable pub random_engine : Job W (Option Engine)
  unfolding random_key lookup
  random_engine = do key ← random_key; f ← get_fleet; pure (lookup key f.registry.engines)

  -- RefreshEngines
  unfoldable pub refresh_keys : List Text → Job W (Unit {0})
  unfolding on_engine refresh_containers
  refresh_keys [] = pure tt
  refresh_keys (k ∷ ks) = do
    _ ← on_engine s k (λ daemon. refresh_containers daemon true)
    refresh_keys ks

  unfoldable pub refresh_engines : Job W (Unit {0})
  unfolding refresh_keys
  refresh_engines f = refresh_keys (keys_of f.registry.engines) f

  -- RefreshEngine
  unfoldable pub refresh_named : Text → List (Text × Engine) → Job W (Unit {0})
  unfolding on_engine refresh_containers text_eq
  refresh_named host [] = fail (no_engine_found host)
  refresh_named host ((k, e) ∷ es) =
      if text_eq e.about.engine_name host
      then on_engine s k (λ daemon. refresh_containers daemon true)
      else refresh_named host es

  unfoldable pub refresh_engine : Text → Job W (Unit {0})
  unfolding refresh_named
  refresh_engine host f = refresh_named host f.registry.engines f
