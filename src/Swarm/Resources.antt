-- ===== src/Swarm/Resources.antt =====
-- cluster/swarm/cluster.go: the networks and volumes of the cluster.
pub mod Answers
use cattle.Prelude.{
  Bool, true, false, ◌&&◌, List, [], ◌∷◌, ◌++◌, Option, none, some, Text, text, text_eq, split2,
  Outcome, ok, err, panic, if◌then◌else◌,
}
use cattle.Cluster.Data.{ContainerConfig, lookup}
use cattle.Cluster.Config.{build_config}
use cattle.Engine.Data.{Engine, Network, Volume, ApiError}
use cattle.Engine.Networks.{get_network, get_volume}
use cattle.Engine.Call.{change}
use cattle.Engine.Cache.{add_network, delete_network}
use cattle.Engine.Methods as Method
use cattle.Engine.Methods.{values}
use cattle.Swarm.Data.{
  Settings, SwarmError, draws_used_up, engine_failed, Job, pure, fail, ◌>>=◌, attempt, get_fleet,
  on_engine,
}
use cattle.Swarm.Images.{with_error}
use cattle.Swarm.Methods.{no_config, keys_of, selected, first_key}

-- The configuration for a node that is named.
unfoldable pub node_config : ContainerConfig → Text → ContainerConfig
node_config c node = record c { env = (text "constraint:node==" ++ node) ∷ [] }

unfoldable pub others : Text → List Text → List Text
unfolding text_eq
others key [] = []
others key (k ∷ ks) = if text_eq k key then others key ks else k ∷ others key ks

abbrev pub is_unreachable : SwarmError → Bool
is_unreachable (engine_failed x) = x.is_connection_failed
is_unreachable other = false

-- The volume and the error so far, and the answer of one more engine.
abbrev pub kept_volume :
    Outcome SwarmError Volume
    → Option Volume × Option SwarmError
    → Option Volume × Option SwarmError
kept_volume (ok v) (found, e) = (some v, none)
kept_volume (err x) (some v, e) = (some v, e)
kept_volume (err x) (none, e) = (none, some x)
kept_volume panic known = known

-- The volume of the one engine. Its error is assigned to the `err` of the inner block, and is lost.
abbrev pub only_volume : Outcome SwarmError Volume → Option Volume
only_volume (ok v) = some v
only_volume (err x) = none
only_volume panic = none

abbrev pub volume_at : Text → Text → List (Text × Engine) → Option Volume
unfolding lookup get_volume
volume_at key name es = elim (lookup key es) [
  | none ↦ none
  | some e ↦ get_volume name (values e.volumes)
]

abbrev pub removed_volume :
    Text
    → Outcome SwarmError (Unit {0})
    → Bool × List (Text × ApiError)
    → Bool × List (Text × ApiError)
removed_volume engine_name (ok _) (found, errs) = (true, errs)
removed_volume engine_name (err (engine_failed x)) (found, errs) = (found, (engine_name, x) ∷ errs)
removed_volume engine_name (err other) known = known
removed_volume engine_name panic known = known

module _ {W : Type 0} (s : Settings W) where
  -- One change on several engines.
  unfoldable pub on_each : List Text → (Engine → Engine) → Job W (Unit {0})
  unfolding on_engine change
  on_each [] g = pure tt
  on_each (k ∷ ks) g = do _ ← on_engine s k (λ daemon. change g); on_each ks g

  -- The network that an engine has for an identifier.
  abbrev pub network_at : Text → Text → List (Text × Engine) → Option Network
  unfolding lookup get_network
  network_at key id es = elim (lookup key es) [
    | none ↦ none
    | some e ↦ get_network s.truncate_id id (values e.networks)
  ]

  -- A global network is known to every engine.
  abbrev pub spread_network : Text → Option Network → Job W (Unit {0})
  unfolding on_each others add_network text_eq
  spread_network key none f = (ok tt, f)
  spread_network key (some n) f =
      if text_eq n.scope (text "global")
      then on_each (others key (keys_of f.registry.engines)) (add_network n) f
      else (ok tt, f)

  -- CreateNetwork, on the configuration and the name.
  unfoldable pub create_network_on : ContainerConfig → Text → Job W Text
  unfolding selected on_engine Method.create_network spread_network network_at
  create_network_on c name = do
    nodes ← selected s c
    key ← first_key s nodes
    id ← on_engine s key (λ daemon. Method.create_network daemon name)
    f ← get_fleet
    _ ← spread_network key (network_at key id f.registry.engines)
    pure id

  -- CreateNetwork
  unfoldable pub create_network : Text → Job W Text
  unfolding create_network_on split2 build_config node_config
  create_network name = elim (split2 name (text "/")) [
    | none ↦ create_network_on no_config name
    | some (node, rest) ↦ create_network_on (build_config s.json (node_config no_config node)) rest
  ]

  -- RemoveNetwork on the other engines, until one of them takes it.
  unfoldable pub remove_from_any : Network → List Text → Job W Bool
  unfolding on_engine Method.remove_network
  remove_from_any n [] = pure false
  remove_from_any n (k ∷ ks) = do
    r ← attempt (on_engine s k (λ daemon. Method.remove_network daemon n))
    elim r [ ok _ ↦ pure true | err x ↦ remove_from_any n ks | panic ↦ pure false ]

  unfoldable pub forget_everywhere : Network → Job W (Unit {0})
  unfolding on_each delete_network
  forget_everywhere n f = on_each (keys_of f.registry.engines) (delete_network n.network_id) f

  unfoldable pub remove_elsewhere : Network → SwarmError → Job W (Unit {0})
  unfolding remove_from_any forget_everywhere
  remove_elsewhere n x f =
      (do
        removed ← remove_from_any n (keys_of f.registry.engines)
        (if removed then forget_everywhere n else fail x))
        f

  abbrev pub after_removal : Network → Outcome SwarmError (Unit {0}) → Job W (Unit {0})
  unfolding forget_everywhere remove_elsewhere text_eq
  after_removal n (ok _) = if text_eq n.scope (text "global") then forget_everywhere n else pure tt
  after_removal n (err x) =
      if is_unreachable x && text_eq n.scope (text "global") then remove_elsewhere n x else fail x
  after_removal n panic = λ f. (panic, f)

  -- RemoveNetwork
  unfoldable pub remove_network : Network → Job W (Unit {0})
  unfolding on_engine Method.remove_network after_removal
  remove_network n = do
    r ← attempt (on_engine s n.network_engine.engine_id (λ daemon. Method.remove_network daemon n))
    after_removal n r

  -- CreateVolume on every engine, in the order in which they answer.
  unfoldable pub create_on_all :
      Text
      → List Text
      → Option Volume × Option SwarmError
      → Job W (Option Volume × Option SwarmError)
  unfolding on_engine Method.create_volume
  create_on_all name [] known = pure known
  create_on_all name (k ∷ ks) known = do
    r ← attempt (on_engine s k (λ daemon. Method.create_volume daemon name))
    create_on_all name ks (kept_volume r known)

  unfoldable pub create_volume_on : Text → Text → Job W (Option Volume × Option SwarmError)
  unfolding selected on_engine Method.create_volume build_config node_config
  create_volume_on node name = do
    nodes ← selected s (build_config s.json (node_config no_config node))
    key ← first_key s nodes
    r ← attempt (on_engine s key (λ daemon. Method.create_volume daemon name))
    pure (only_volume r, none)

  abbrev pub create_drawn : List Text → Job W (Option Volume × Option SwarmError)
  unfolding create_on_all
  create_drawn [] = fail draws_used_up
  create_drawn (name ∷ draws) = λ f. create_on_all name (keys_of f.registry.engines) (none, none) f

  -- CreateVolume: the volume and the error.
  unfoldable pub create_volume : Text → Job W (Option Volume × Option SwarmError)
  unfolding create_on_all create_volume_on create_drawn split2
  create_volume [] f = create_drawn (s.draws f.world) f
  create_volume (b ∷ name) f = elim (split2 (b ∷ name) (text "/")) [
    | none ↦ create_on_all (b ∷ name) (keys_of f.registry.engines) (none, none) f
    | some ([], rest) ↦ create_on_all rest (keys_of f.registry.engines) (none, none) f
    | some (c ∷ node, rest) ↦ create_volume_on (c ∷ node) rest f
  ]

  unfoldable pub remove_volume_on :
      Text
      → Text
      → Option Volume
      → Job W (Bool × List (Text × ApiError))
      → Job W (Bool × List (Text × ApiError))
  unfolding on_engine Method.remove_volume
  remove_volume_on key engine_name none rest = rest
  remove_volume_on key engine_name (some v) rest = do
    r ← attempt (on_engine s key (λ daemon. Method.remove_volume daemon v.volume_name))
    known ← rest
    pure (removed_volume engine_name r known)

  unfoldable pub remove_volume_each :
      Text → List (Text × Engine) → Job W (Bool × List (Text × ApiError))
  unfolding remove_volume_on volume_at
  remove_volume_each name [] f = (ok (false, []), f)
  remove_volume_each name ((k, e) ∷ es) f =
      remove_volume_on k e.about.engine_name (volume_at k name f.registry.engines)
        (remove_volume_each name es) f

  -- RemoveVolumes
  unfoldable pub remove_volumes : Text → Job W (Bool × Option SwarmError)
  unfolding remove_volume_each
  remove_volumes name f = (do r ← remove_volume_each name f.registry.engines; pure (with_error r)) f
