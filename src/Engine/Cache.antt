-- ===== src/Engine/Cache.antt =====
-- cluster/engine.go: what the manager remembers of an engine, and how it is refreshed.
use cattle.Prelude.{
  Bool, false, ◌||◌, List, [], ◌∷◌, Option, none, some, Text, text, contains, ℤ, pos, mul64, div64,
  Outcome, ok, err, panic, if◌then◌else◌,
}
use cattle.Cluster.Data.{
  HostConfig, Container, ContainerConfig, ContainerInfo, EngineData, ContainerState, lookup, insert,
  delete,
}
use cattle.Cluster.Config.{Json, build_config}
use cattle.Engine.Data.{Engine, Network, Volume, ApiError}
use cattle.Engine.Call.{
  Inspection, Summary, Daemon, Call, pure, fail, ◌>>=◌, attempt, get_engine, change, checked_call,
}

abbrev pub index_networks :
    EngineData → List Network → List (Text × Network) → List (Text × Network)
unfolding insert
index_networks about [] index = index
index_networks about (n ∷ ns) index =
    index_networks about ns (insert n.network_id (record n { network_engine = about }) index)

abbrev pub index_volumes : EngineData → List Volume → List (Text × Volume) → List (Text × Volume)
unfolding insert
index_volumes about [] index = index
index_volumes about (v ∷ vs) index =
    index_volumes about vs (insert v.volume_name (record v { volume_engine = about }) index)

-- DeleteNetwork
unfoldable pub delete_network : Text → Engine → Engine
unfolding delete
delete_network id e = record e { networks = delete id e.networks }

-- AddNetwork
unfoldable pub add_network : Network → Engine → Engine
unfolding insert
add_network n e = record e {
  networks = insert n.network_id (record n { network_engine = e.about }) e.networks;
}

-- Whether the inspection that is known says that the container restarts.
abbrev pub is_restarting : Option ContainerState → Bool
is_restarting none = false
is_restarting (some s) = s.restarting

-- The CPU shares of the daemon as a number of CPUs: `CPUShares * e.Cpus / 1024`.
unfoldable pub cpus_of_shares : ℤ → ℤ → ℤ
unfolding mul64 div64
cpus_of_shares cpus shares = div64 (mul64 shares cpus) (pos 1024)

-- The configuration that an inspection gives.
unfoldable pub inspected_config : Json → ℤ → ContainerConfig → ContainerConfig
unfolding build_config cpus_of_shares
inspected_config json cpus raw =
    let c = build_config json raw in
    record c {
      host_config = record c.host_config {
        cpu_shares = cpus_of_shares cpus c.host_config.cpu_shares;
      };
    }

-- A container of a list, with the configuration and the inspection that are known.
abbrev pub container_of : Summary → EngineData → ContainerConfig → ContainerInfo → Container
container_of s about config info = record {
  ident = s.summary_id;
  names = s.summary_names;
  state = s.summary_state;
  labels = s.summary_labels;
  config = config;
  info = info;
  engine = about;
}

-- The configuration of an inspection; `none` where updateContainer reads through a nil pointer, which
-- are NetworkSettings, Config, HostConfig and State.
abbrev pub complete :
    Option (List (Text × Text))
    → Option HostConfig
    → Option ContainerState
    → Option ContainerConfig
    → Option ContainerConfig
complete (some networks) (some host) (some state) config = config
complete none host state config = none
complete (some networks) none state config = none
complete (some networks) (some host) none config = none

unfoldable pub config_of : Inspection → Option ContainerConfig
config_of i =
    complete i.raw_info.info_networks i.raw_info.info_host_config i.raw_info.info_state i.raw_config

module _ {W : Type 0} (daemon : Daemon W) where
  open daemon use {
    json, container_list, container_inspect, image_list, network_list, network_inspect, volume_list,
    volume_inspect,
  }

  -- RefreshImages
  unfoldable pub refresh_images : Call W (Unit {0})
  unfolding checked_call
  refresh_images = do
    images ← checked_call daemon image_list
    change (λ e. record e { images = images })

  -- RefreshNetworks
  unfoldable pub refresh_networks : Call W (Unit {0})
  unfolding checked_call index_networks
  refresh_networks = do
    networks ← checked_call daemon network_list
    change (λ e. record e { networks = index_networks e.about networks [] })

  -- RefreshVolumes
  unfoldable pub refresh_volumes : Call W (Unit {0})
  unfolding checked_call index_volumes
  refresh_volumes = do
    volumes ← checked_call daemon volume_list
    change (λ e. record e { volumes = index_volumes e.about volumes [] })

  -- The end of refreshNetwork. A network that is gone leaves the index.
  unfoldable pub store_network : Text → Outcome ApiError Network → Call W (Unit {0})
  unfolding insert delete_network contains
  store_network id (ok n) =
      change
        (λ e. record e { networks = insert id (record n { network_engine = e.about }) e.networks })
  store_network id (err x) =
      if contains x.message (text "No such network") then change (delete_network id) else fail x
  store_network id panic = λ m. (panic, m)

  -- refreshNetwork
  unfoldable pub refresh_network : Text → Call W (Unit {0})
  unfolding checked_call store_network
  refresh_network id = do
    result ← attempt (checked_call daemon (network_inspect id))
    store_network id result

  -- The end of refreshVolume.
  unfoldable pub store_volume : Text → Outcome ApiError Volume → Call W (Unit {0})
  unfolding insert delete contains
  store_volume name (ok v) = change (λ e. record e {
    volumes = insert v.volume_name (record v { volume_engine = e.about }) e.volumes;
  })
  store_volume name (err x) =
      if contains x.message (text "No such volume")
      then change (λ e. record e { volumes = delete name e.volumes })
      else fail x
  store_volume name panic = λ m. (panic, m)

  -- refreshVolume
  unfoldable pub refresh_volume : Text → Call W (Unit {0})
  unfolding checked_call store_volume
  refresh_volume name = do
    result ← attempt (checked_call daemon (volume_inspect name))
    store_volume name result

  -- updateContainer with an inspection.
  unfoldable pub known_as :
      Summary → Engine → ContainerInfo → Option ContainerConfig → Call W Container
  unfolding inspected_config
  known_as s e info none = λ m. (panic, m)
  known_as s e info (some raw) =
      pure (container_of s e.about (inspected_config json e.cpus raw) info)

  unfoldable pub inspect_container : Summary → Engine → Call W Container
  unfolding checked_call known_as config_of
  inspect_container s e = do
    i ← checked_call daemon (container_inspect s.summary_id)
    known_as s e i.raw_info (config_of i)

  -- updateContainer, by what is known of the container.
  unfoldable pub update_known : Summary → Bool → Engine → Option Container → Call W Container
  unfolding inspect_container
  update_known s full e none = inspect_container s e
  update_known s full e (some c) =
      if full || is_restarting c.info.info_state
      then inspect_container s e
      else pure (container_of s c.engine c.config c.info)

  -- updateContainer
  unfoldable pub update_container :
      Summary → List (Text × Container) → Bool → Call W (List (Text × Container))
  unfolding update_known insert lookup
  update_container s containers full = do
    e ← get_engine
    c ← update_known s full e (lookup s.summary_id e.containers)
    pure (insert c.ident c containers)

  -- A container that cannot be updated is left out.
  abbrev pub merged_or :
      List (Text × Container)
      → Outcome ApiError (List (Text × Container))
      → Call W (List (Text × Container))
  merged_or merged (ok m) = pure m
  merged_or merged (err x) = pure merged
  merged_or merged panic = λ m. (panic, m)

  -- RefreshContainers, the loop.
  unfoldable pub merge_all :
      List Summary → List (Text × Container) → Bool → Call W (List (Text × Container))
  unfolding update_container
  merge_all [] merged full = pure merged
  merge_all (s ∷ ss) merged full = do
    result ← attempt (update_container s merged full)
    merged' ← merged_or merged result
    merge_all ss merged' full

  -- RefreshContainers
  unfoldable pub refresh_containers : Bool → Call W (Unit {0})
  unfolding checked_call merge_all
  refresh_containers full = do
    summaries ← checked_call daemon (container_list none)
    merged ← merge_all summaries [] full
    change (λ e. record e { containers = merged })

  -- refreshContainer, by the containers that the daemon lists for the identifier.
  unfoldable pub refresh_listed : Text → Bool → List Summary → Call W (Option Container)
  unfolding update_container refresh_containers lookup delete
  refresh_listed id full [] = do
    _ ← change (λ e. record e { containers = delete id e.containers })
    pure none
  refresh_listed id full (s ∷ []) = do
    e ← get_engine
    containers ← update_container s e.containers full
    _ ← change (λ e. record e { containers = containers })
    pure (lookup s.summary_id containers)
  refresh_listed id full (s ∷ t ∷ ss) = do _ ← refresh_containers full; pure none

  -- refreshContainer
  unfoldable pub refresh_container : Text → Bool → Call W (Option Container)
  unfolding checked_call refresh_listed
  refresh_container id full = do
    summaries ← checked_call daemon (container_list (some id))
    refresh_listed id full summaries
