-- ===== src/Swarm/Watchdog.antt =====
-- cluster/watchdog.go: what happens with the containers of an engine that leaves or comes back. Its
-- errors are logged only.
pub mod Kept
use cattle.Prelude.{
  Bool, true, false, not, ◌&&◌, ◌||◌, List, [], ◌∷◌, Option, none, some, Text, text, text_eq, ◌==◌,
  Outcome, ok, err, panic, if◌then◌else◌,
}
use cattle.Cluster.Data.{Container, ContainerConfig, lookup}
use cattle.Cluster.Config.{swarm_id, has_reschedule_policy}
use cattle.Engine.Data.{Engine, Network, ApiError}
use cattle.Engine.Networks.{uniq, get_network}
use cattle.Engine.Call.{Call, Event, change}
use cattle.Engine.Cache.{refresh_containers}
use cattle.Engine.Methods as Method
use cattle.Engine.Methods.{values, add_container, remove_known}
use cattle.Swarm.Data.{Settings, Fleet, SwarmError, Job, pure, ◌>>=◌, attempt, get_fleet, on_engine}
use cattle.Swarm.Views.{all_containers, all_networks}
use cattle.Swarm.Methods.{random_key, start_container}
use cattle.Swarm.Create.{create_container}

-- A container, or the engine as it was.
abbrev pub or_same : Option Engine → Engine → Engine
or_same none e = e
or_same (some e') e = e'

abbrev pub fleet_key : {W : Type 0} → Text → Fleet W → List Container
unfolding lookup
fleet_key key f = elim (lookup key f.registry.engines) [
  | some e ↦ values e.containers
  | none ↦ elim (lookup key f.gone) [ some e ↦ values e.containers | none ↦ [] ]
]

-- The name without the slash before it; `none` for no name.
unfoldable pub bare_name : Text → Option Text
bare_name [] = none
bare_name (c ∷ []) = if c == b'/' then none else some (c ∷ [])
bare_name (c ∷ d ∷ name) = some (if c == b'/' then d ∷ name else c ∷ d ∷ name)

module _ {W : Type 0} (s : Settings W) where
  -- A call whose error is only logged.
  abbrev pub dropping : {A : Type 0} → Job W A → Job W (Unit {0})
  dropping job = do _ ← attempt job; pure tt

  -- A call of the client itself, its error dropped.
  abbrev pub raw_call : (W → Outcome ApiError (Unit {0}) × W) → Call W (Unit {0})
  raw_call api m = let (r, w) = api m.world in (ok tt, record m { world = w })

  -- Whether the other container is the same one on another engine.
  unfoldable pub is_duplicate : Container → Container → Bool
  unfolding text_eq swarm_id
  is_duplicate c d =
      text_eq (swarm_id d.config) (swarm_id c.config)
      && not (text_eq d.engine.engine_id c.engine.engine_id)

  unfoldable pub remove_for : Text → Container → List Container → Job W (Unit {0})
  unfolding is_duplicate on_engine Method.remove_container
  remove_for key c [] = pure tt
  remove_for key c (d ∷ ds) = do
    _ ←
        (if is_duplicate c d
          then dropping (on_engine s key (λ daemon. Method.remove_container daemon c true true))
          else pure tt)
    remove_for key c ds

  unfoldable pub remove_if_duplicate : Text → Container → Job W (Unit {0})
  unfolding swarm_id remove_for all_containers
  remove_if_duplicate key c f = elim (swarm_id c.config) [
    | [] ↦ (ok tt, f)
    | b ∷ id ↦ remove_for key c (all_containers f.registry.engines) f
  ]

  unfoldable pub remove_each : Text → List Container → Job W (Unit {0})
  unfolding remove_if_duplicate
  remove_each key [] = pure tt
  remove_each key (c ∷ cs) = do _ ← remove_if_duplicate key c; remove_each key cs

  -- removeDuplicateContainers
  unfoldable pub remove_duplicate_containers : Text → Job W (Unit {0})
  unfolding remove_each fleet_key on_engine refresh_containers
  remove_duplicate_containers key = do
    _ ← dropping (on_engine s key (λ daemon. refresh_containers daemon false))
    f ← get_fleet
    remove_each key (fleet_key key f)

  -- The global networks among those of the container, each left by the container's name.
  abbrev pub is_global : Option Network → Bool
  unfolding text_eq
  is_global none = false
  is_global (some n) = text_eq n.scope (text "global")

  unfoldable pub leave_networks :
      Text → Text → List Network → List (Text × Text) → Job W (List Text)
  unfolding is_global get_network on_engine
  leave_networks random name known [] = pure []
  leave_networks random name known ((network, id) ∷ more) =
      if is_global (get_network s.truncate_id id known)
      then (do
        _ ← on_engine s random (λ daemon. raw_call (daemon.network_disconnect network name true))
        rest ← leave_networks random name known more
        pure (network ∷ rest))
      else leave_networks random name known more

  abbrev pub left_networks : Text → Option (List (Text × Text)) → Job W (List Text)
  unfolding random_key leave_networks uniq all_networks
  left_networks name none = pure []
  left_networks name (some []) = pure []
  left_networks name (some (n ∷ ns)) = do
    random ← random_key s
    f ← get_fleet
    leave_networks random name (uniq (all_networks f.registry.engines)) (n ∷ ns)

  unfoldable pub join_networks : Text → Text → List Text → Job W (Unit {0})
  unfolding on_engine
  join_networks key name [] = pure tt
  join_networks key name (network ∷ more) = do
    _ ← on_engine s key (λ daemon. raw_call (daemon.network_connect network name))
    join_networks key name more

  -- removeContainer and AddContainer of the container's engine, their errors dropped.
  unfoldable pub take_off : Container → Job W (Unit {0})
  unfolding on_engine remove_known change
  take_off c = on_engine s c.engine.engine_id (λ daemon. change (λ e. or_same (remove_known c e) e))

  unfoldable pub add_back : Container → Job W (Unit {0})
  unfolding on_engine add_container change
  add_back c =
      on_engine s c.engine.engine_id (λ daemon. change (λ e. or_same (add_container c e) e))

  -- The new container joins the networks, and runs where the old one did. A state that is nil panics.
  unfoldable pub finish_reschedule : Container → Text → List Text → Container → Job W (Unit {0})
  unfolding join_networks start_container
  finish_reschedule c name networks new = do
    _ ← join_networks new.engine.engine_id name networks
    elim c.info.info_state [
      | none ↦ (λ f. (panic, f))
      | some state ↦ if state.running then dropping (start_container s new) else pure tt
    ]

  abbrev pub replaced :
      Container
      → Text
      → List Text
      → ContainerConfig × (Outcome SwarmError Container × Fleet W)
      → Outcome SwarmError (Unit {0}) × Fleet W
  unfolding finish_reschedule add_back
  replaced c name networks (config, (panic, f)) = (panic, f)
  replaced c name networks (config, (err x, f)) = add_back (record c { config = config }) f
  replaced c name networks (config, (ok new, f)) = finish_reschedule c name networks new f

  unfoldable pub replace : Container → Text → Outcome SwarmError (List Text) → Job W (Unit {0})
  unfolding create_container replaced add_back
  replace c name panic f = (panic, f)
  replace c name (err x) f = add_back c f
  replace c name (ok networks) f =
      replaced c name networks (create_container s c.info.info_name c.config f)

  unfoldable pub replace_named : Container → Option Text → Job W (Unit {0})
  unfolding replace left_networks
  replace_named c none = pure tt
  replace_named c (some name) = do
    networks ← attempt (left_networks name c.info.info_networks)
    replace c name networks

  unfoldable pub reschedule_container : Container → Job W (Unit {0})
  unfolding take_off replace_named bare_name
  reschedule_container c = do _ ← take_off c; replace_named c (bare_name c.info.info_name)

  unfoldable pub reschedule_each : List Container → Job W (Unit {0})
  unfolding reschedule_container has_reschedule_policy
  reschedule_each [] = pure tt
  reschedule_each (c ∷ cs) = do
    _ ←
        (if has_reschedule_policy s.json (text "on-node-failure") c.config
          then reschedule_container c
          else pure tt)
    reschedule_each cs

  -- rescheduleContainers
  unfoldable pub reschedule_containers : Text → Job W (Unit {0})
  unfolding reschedule_each fleet_key
  reschedule_containers key f = reschedule_each (fleet_key key f) f

  -- Handle, for an event of an engine. The work is a thread of its own, under the watchdog's lock.
  unfoldable pub handle : Event → Text → Job W (Unit {0})
  unfolding text_eq remove_duplicate_containers reschedule_containers
  handle event key =
      if not (text_eq event.from (text "swarm"))
      then pure tt
      else if text_eq event.event_status (text "engine_connect")
          || text_eq event.event_status (text "engine_reconnect")
      then remove_duplicate_containers key
      else if text_eq event.event_status (text "engine_disconnect")
      then reschedule_containers key
      else pure tt
