-- ===== src/Engine/Methods.antt =====
-- cluster/engine.go: the methods that act on the daemon, and the handler of its events.
use cattle.Prelude.{
  Bool, true, false, not, ◌||◌, List, [], ◌∷◌, Option, none, some, Text, text, text_eq, has_prefix,
  any, ℤ, pos, mul64, add64, div64, Outcome, ok, err, panic, if◌then◌else◌,
}
use cattle.Cluster.Data.{Container, ContainerConfig, lookup, insert, delete}
use cattle.Cluster.Images.{Image, image_matches}
use cattle.Engine.Float.{float_ceil}
use cattle.Engine.Data.{Engine, Network, Volume, ApiError}
use cattle.Engine.Call.{
  Daemon, Call, pure, fail, ◌>>=◌, attempt, get_engine, change, checked_call, own_error,
  emit_events,
}
use cattle.Engine.Cache.{
  refresh_images, refresh_networks, refresh_volumes, refresh_network, refresh_volume,
  refresh_container, delete_network,
}
use cattle.Engine.Specs.{update_specs}

-- AddContainer and removeContainer, on the engine alone.
unfoldable pub add_container : Container → Engine → Option Engine
unfolding lookup insert
add_container c e = elim (lookup c.ident e.containers) [
  | some d ↦ none
  | none ↦ some (record e { containers = insert c.ident c e.containers })
]

unfoldable pub remove_known : Container → Engine → Option Engine
unfolding lookup delete
remove_known c e = elim (lookup c.ident e.containers) [
  | none ↦ none
  | some d ↦ some (record e { containers = delete c.ident e.containers })
]

-- A number of CPUs as the CPU shares of the daemon.
unfoldable pub shares_of_cpus : ℤ → ℤ → ℤ
unfolding float_ceil mul64
shares_of_cpus cpus shares = float_ceil (mul64 shares (pos 1024)) cpus

abbrev pub docker_config : ℤ → ContainerConfig → ContainerConfig
unfolding shares_of_cpus
docker_config cpus c = record c {
  host_config = record c.host_config { cpu_shares = shares_of_cpus cpus c.host_config.cpu_shares };
}

abbrev pub values : {V : Type 0} → List (Text × V) → List V
values [] = []
values ((_, v) ∷ m) = v ∷ values m

-- UsedMemory, UsedCpus, TotalMemory, TotalCpus
unfoldable pub used_memory : List (Text × Container) → ℤ
unfolding add64
used_memory [] = pos 0
used_memory ((_, c) ∷ cs) = add64 c.config.host_config.memory (used_memory cs)

unfoldable pub used_cpus : List (Text × Container) → ℤ
unfolding add64
used_cpus [] = pos 0
used_cpus ((_, c) ∷ cs) = add64 c.config.host_config.cpu_shares (used_cpus cs)

unfoldable pub with_overcommit : ℤ → ℤ → ℤ
unfolding add64 mul64 div64
with_overcommit ratio n = add64 n (div64 (mul64 n ratio) (pos 100))

-- Image
unfoldable pub find_image : Text → List Image → Option Image
unfolding image_matches
find_image q [] = none
find_image q (i ∷ is) = if image_matches i q true then some i else find_image q is

-- events.Message
pub record Message : Type 0 where
  pub kind : Text
  pub action : Text
  pub message_status : Text
  pub message_id : Text
  pub actor_id : Text
  pub message_from : Text

abbrev pub one_of : Text → List Text → Bool
unfolding any text_eq
one_of s names = any (λ name. text_eq name s) names

module _ {W : Type 0} (daemon : Daemon W) where
  -- Pull
  unfoldable pub pull : Text → Call W (Unit {0})
  unfolding checked_call refresh_images
  pull image = do
    body ← checked_call daemon (daemon.image_pull image)
    _ ← elim body [ some x ↦ fail x | none ↦ pure tt ]
    _ ← attempt (refresh_images daemon)
    pure tt

  -- CreateContainer, after a first attempt: pull the image where that is what is missing, and try again.
  unfoldable pub create_again : ContainerConfig → Text → Bool → Outcome ApiError Text → Call W Text
  unfolding checked_call pull
  create_again c name pull_image (ok id) = pure id
  create_again c name pull_image panic = λ m. (panic, m)
  create_again c name pull_image (err x) =
      if not x.is_image_missing || not pull_image
      then fail x
      else (do _ ← pull c.image; checked_call daemon (daemon.container_create c name))

  unfoldable pub reported : Text → Engine → Call W Container
  unfolding lookup
  reported id e = elim (lookup id e.containers) [
    | some c ↦ pure c
    | none ↦ fail (own_error (text "Container created but refresh didn't report it back"))
  ]

  -- CreateContainer
  unfoldable pub create_container : ContainerConfig → Text → Bool → Call W Container
  unfolding checked_call create_again refresh_container reported docker_config
  create_container config name pull_image = do
    e ← get_engine
    first ←
        attempt (checked_call daemon (daemon.container_create (docker_config e.cpus config) name))
    id ← create_again (docker_config e.cpus config) name pull_image first
    _ ← attempt (refresh_container daemon id true)
    e' ← get_engine
    reported id e'

  -- RemoveContainer
  unfoldable pub remove_container : Container → Bool → Bool → Call W (Unit {0})
  unfolding checked_call delete
  remove_container c force volumes = do
    _ ← checked_call daemon (daemon.container_remove c.ident force volumes)
    change (λ e. record e { containers = delete c.ident e.containers })

  -- StartContainer, without a host configuration.
  unfoldable pub start_container : Text → Call W (Unit {0})
  unfolding checked_call refresh_container
  start_container id = do
    _ ← checked_call daemon (daemon.container_start id)
    _ ← refresh_container daemon id true
    pure tt

  -- RenameContainer
  unfoldable pub rename_container : Container → Text → Call W (Unit {0})
  unfolding checked_call refresh_container
  rename_container c name = do
    _ ← checked_call daemon (daemon.container_rename c.ident name)
    _ ← refresh_container daemon c.ident true
    pure tt

  -- RemoveImage: the images are refreshed also after an error.
  unfoldable pub remove_image : Text → Bool → Call W (List Text)
  unfolding checked_call refresh_images
  remove_image name force = do
    result ← attempt (checked_call daemon (daemon.image_remove name force))
    _ ← attempt (refresh_images daemon)
    (λ m. (result, m))

  -- TagImage
  unfoldable pub tag_image : Text → Text → Call W (Unit {0})
  unfolding checked_call refresh_images
  tag_image q ref = do _ ← checked_call daemon (daemon.image_tag q ref); refresh_images daemon

  -- CreateNetwork
  unfoldable pub create_network : Text → Call W Text
  unfolding checked_call refresh_network
  create_network name = do
    id ← checked_call daemon (daemon.network_create name)
    _ ← attempt (refresh_network daemon id)
    pure id

  -- RemoveNetwork
  unfoldable pub remove_network : Network → Call W (Unit {0})
  unfolding checked_call delete_network
  remove_network n = do
    _ ← checked_call daemon (daemon.network_remove n.network_id)
    change (delete_network n.network_id)

  -- NetworkDisconnect
  unfoldable pub network_disconnect : Container → Network → Bool → Call W (Unit {0})
  unfolding checked_call refresh_networks
  network_disconnect c n force = do
    _ ← checked_call daemon (daemon.network_disconnect n.network_id c.ident force)
    refresh_networks daemon

  -- CreateVolume
  unfoldable pub create_volume : Text → Call W Volume
  unfolding checked_call refresh_volume
  create_volume name = do
    v ← checked_call daemon (daemon.volume_create name)
    _ ← attempt (refresh_volume daemon v.volume_name)
    pure v

  -- RemoveVolume
  unfoldable pub remove_volume : Text → Call W (Unit {0})
  unfolding checked_call delete
  remove_volume name = do
    _ ← checked_call daemon (daemon.volume_remove name)
    change (λ e. record e { volumes = delete name e.volumes })

  -- A call whose error is dropped.
  abbrev pub dropping : {A : Type 0} → Call W A → Call W (Unit {0})
  dropping call = do _ ← attempt call; pure tt

  -- The refresh that a message of a container asks for.
  unfoldable pub on_container : Message → Call W (Unit {0})
  unfolding refresh_images refresh_container one_of has_prefix text_eq
  on_container msg =
      let action =
        if has_prefix msg.action (text "health_status") then text "health_status" else msg.action in
      if text_eq action (text "commit")
      then dropping (refresh_images daemon)
      else if one_of action (
          text "die"
          ∷ text "kill"
          ∷ text "oom"
          ∷ text "pause"
          ∷ text "start"
          ∷ text "restart"
          ∷ text "stop"
          ∷ text "unpause"
          ∷ text "rename"
          ∷ text "update"
          ∷ text "health_status"
          ∷ [])
      then dropping (refresh_container daemon msg.message_id true)
      else if one_of action (
          text "top"
          ∷ text "resize"
          ∷ text "export"
          ∷ text "exec_create"
          ∷ text "exec_start"
          ∷ text "exec_detach"
          ∷ text "attach"
          ∷ text "detach"
          ∷ text "extract-to-dir"
          ∷ text "copy"
          ∷ text "archive-path"
          ∷ [])
      then pure tt
      else dropping (refresh_container daemon msg.message_id false)

  unfoldable pub refresh_all_of : Text → Bool → Call W (Unit {0})
  unfolding refresh_container refresh_volumes refresh_networks
  refresh_all_of id full = do
    _ ← dropping (refresh_container daemon id full)
    _ ← dropping (refresh_volumes daemon)
    dropping (refresh_networks daemon)

  -- The refresh that a message of an old daemon, without a type, asks for.
  unfoldable pub on_untyped : Message → Call W (Unit {0})
  unfolding refresh_images refresh_all_of one_of
  on_untyped msg =
      if one_of msg.message_status (text "pull" ∷ text "untag" ∷ text "delete" ∷ text "commit" ∷ [])
      then dropping (refresh_images daemon)
      else if one_of msg.message_status (
          text "die"
          ∷ text "kill"
          ∷ text "oom"
          ∷ text "pause"
          ∷ text "start"
          ∷ text "stop"
          ∷ text "unpause"
          ∷ text "rename"
          ∷ [])
      then refresh_all_of msg.message_id true
      else if one_of msg.message_status (
          text "top"
          ∷ text "resize"
          ∷ text "export"
          ∷ text "exec_create"
          ∷ text "exec_start"
          ∷ text "attach"
          ∷ text "extract-to-dir"
          ∷ text "copy"
          ∷ text "archive-path"
          ∷ [])
      then pure tt
      else refresh_all_of msg.message_id false

  unfoldable pub on_message : Message → Call W (Unit {0})
  unfolding on_container on_untyped refresh_network refresh_volume refresh_images update_specs
      text_eq
  on_message msg =
      if text_eq msg.kind (text "network")
      then dropping (refresh_network daemon msg.actor_id)
      else if text_eq msg.kind (text "volume")
      then dropping (refresh_volume daemon msg.actor_id)
      else if text_eq msg.kind (text "image")
      then dropping (refresh_images daemon)
      else if text_eq msg.kind (text "container")
      then on_container msg
      else if text_eq msg.kind (text "daemon")
      then (if text_eq msg.action (text "reload") then dropping (update_specs daemon) else pure tt)
      else if text_eq msg.kind []
      then on_untyped msg
      else pure tt

  -- handler
  unfoldable pub handler : Message → Call W (Unit {0})
  unfolding on_message emit_events
  handler msg = do
    _ ← on_message msg
    e ← get_engine
    (if e.has_handler
        then emit_events
            (record { from = msg.message_from; event_status = msg.message_status } ∷ [])
        else pure tt)
