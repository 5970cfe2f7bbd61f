-- ===== src/Cluster/Data.antt =====
-- cluster/container.go, cluster/config.go, cluster/engine.go: the fields that the program's
-- decisions read. A Go map is the list of its entries in the order in which the run visits them.
-- A container's `Config` is never nil in the model, as for every container that an engine lists.
use cattle.Prelude.{List, [], ◌∷◌, Option, none, some, Text, text_eq, ℤ, if◌then◌else◌, Bool}

abbrev pub Labels : Type 0
Labels = List (Text × Text)

module _ {ℓ} {V : Type ℓ} where
  -- m[key], with its second result.
  unfoldable pub lookup : Text → List (Text × V) → Option V
  lookup key [] = none
  lookup key ((k, v) ∷ m) = if text_eq k key then some v else lookup key m

  -- m[key] = value: a key that is there keeps its place, a new one is visited last.
  unfoldable pub insert : Text → V → List (Text × V) → List (Text × V)
  insert key value [] = (key, value) ∷ []
  insert key value ((k, v) ∷ m) =
      if text_eq k key then (key, value) ∷ m else (k, v) ∷ insert key value m

  -- delete(m, key)
  unfoldable pub delete : Text → List (Text × V) → List (Text × V)
  delete key [] = []
  delete key ((k, v) ∷ m) = let rest = delete key m in if text_eq k key then rest else (k, v) ∷ rest

-- labels[key] where a missing key reads as the empty text.
unfoldable pub label_or_empty : Text → Labels → Text
unfolding lookup
label_or_empty key labels = elim (lookup key labels) [ none ↦ [] | some v ↦ v ]

pub record PortBinding : Type 0 where
  pub host_ip : Text
  pub host_port : Text

abbrev pub PortMap : Type 0
PortMap = List (Text × List PortBinding)

pub record HostConfig : Type 0 where
  pub network_mode : Text
  pub volumes_from : List Text
  pub links : List Text
  pub memory : ℤ
  pub cpu_shares : ℤ
  pub port_bindings : PortMap

pub record ContainerConfig : Type 0 where
  pub env : List Text
  pub config_labels : Labels
  pub image : Text
  pub exposed_ports : List Text
  pub host_config : HostConfig

-- types.ContainerState: the flags, and whether `StartedAt` parses to a time that is not zero.
pub record ContainerState : Type 0 where
  pub running : Bool
  pub paused : Bool
  pub restarting : Bool
  pub dead : Bool
  pub was_started : Bool

-- The inspection result: `HostConfig`, `NetworkSettings` and `State` are pointers that may be nil, and
-- so is `Config`, of which it is only known whether it is there. Of
-- the networks it has their names with the identifiers of the networks.
pub record ContainerInfo : Type 0 where
  pub info_name : Text
  pub has_config : Bool
  pub info_state : Option ContainerState
  pub info_networks : Option (List (Text × Text))
  pub info_host_config : Option HostConfig
  pub info_exposed_ports : List Text
  pub network_ports : Option PortMap

pub record EngineData : Type 0 where
  pub engine_id : Text
  pub engine_name : Text
  pub engine_addr : Text
  pub engine_labels : Labels

pub record Container : Type 0 where
  pub ident : Text
  pub names : List Text
  pub state : Text
  pub labels : Labels
  pub config : ContainerConfig
  pub info : ContainerInfo
  pub engine : EngineData
