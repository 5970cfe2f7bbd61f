-- ===== src/Swarm/Create.antt =====
-- cluster/swarm/cluster.go: the creation of a container.
pub mod Names
pub mod Reserved
pub mod Released
pub mod Interleaved
use cattle.Prelude.{
  zero, suc, not, ◌&&◌, negsuc, ◌-◌, suc, pos, ℕ, ℤ, Bool, true, false, List, [], ◌∷◌, ◌++◌, Option,
  none, some, Text, text, text_eq, find, Outcome, ok, err, panic, if◌then◌else◌,
}
use cattle.Cluster.Data.{Container, ContainerConfig, lookup, insert, delete}
use cattle.Cluster.Images.{Image}
use cattle.Engine.Methods as Method
use cattle.Swarm.Errors.{is_image_missing}
use cattle.Swarm.Views.{cluster_image}
use cattle.Cluster.Config.{swarm_id, set_swarm_id, add_expr, remove_expr, have_node_constraint}
use cattle.Engine.Data.{Engine, Network}
use cattle.Engine.Networks.{get_network}
use cattle.Scheduler.Node.{Node}
use cattle.Scheduler.Select.{SchedulerError, select_nodes_for_container}
use cattle.Swarm.Data.{
  on_engine, Settings, Fleet, SwarmError, name_conflict, draws_used_up, scheduling_failed,
  not_created,
}
use cattle.Swarm.Views.{all_networks, cluster_container, check_name_uniqueness, list_nodes}

-- generateUniqueID, on the draws of the loop: the first that names no container.
unfoldable pub is_free : (Text → Text) → List (Text × Engine) → Text → Bool
unfolding cluster_container
is_free truncate_id es id = elim (cluster_container truncate_id id es) [
  | none ↦ true
  | some c ↦ false
]

unfoldable pub generate_unique_id : (Text → Text) → List (Text × Engine) → List Text → Option Text
unfolding find is_free
generate_unique_id truncate_id es draws = find (is_free truncate_id es) draws

module _ {W : Type 0} (s : Settings W) where
  -- The configuration with an identifier of its own.
  unfoldable pub identified : ContainerConfig → Fleet W → Option ContainerConfig
  unfolding swarm_id set_swarm_id generate_unique_id
  identified c f = elim (swarm_id c) [
    | b ∷ id ↦ some c
    | [] ↦ elim (generate_unique_id s.truncate_id f.registry.engines (s.draws f.world)) [
      | none ↦ none
      | some id ↦ some (set_swarm_id id c)
    ]
  ]

  -- A configuration on a local network stays on the engine of the network.
  abbrev pub on_network : Option Network → ContainerConfig → ContainerConfig
  unfolding text_eq have_node_constraint add_expr
  on_network none c = c
  on_network (some n) c =
      if text_eq n.scope (text "local")
      then (let c1 : ContainerConfig =
            if have_node_constraint s.json c
            then c
            else add_expr s.json (text "constraints")
                (text "node==~" ++ n.network_engine.engine_name) c in
          record c1 { host_config = record c1.host_config { network_mode = n.network_name } })
      else c

  unfoldable pub attached : ContainerConfig → Fleet W → ContainerConfig
  unfolding on_network get_network all_networks
  attached c f =
      on_network
        (get_network s.truncate_id c.host_config.network_mode (all_networks f.registry.engines)) c

  -- The two sides of the selection with an image affinity.
  unfoldable pub with_affinity : Bool → ContainerConfig → ContainerConfig
  unfolding add_expr
  with_affinity image c =
      if image then add_expr s.json (text "affinities") (text "image==" ++ c.image) c else c

  unfoldable pub without_affinity : Bool → ContainerConfig → ContainerConfig
  unfolding remove_expr
  without_affinity image c =
      if image then remove_expr s.json (text "affinities") (text "image==" ++ c.image) c else c

  -- The engine of the first node.
  unfoldable pub chosen :
      Outcome SchedulerError (List Node) → List (Text × Engine) → Outcome SwarmError (Text × Engine)
  unfolding lookup
  chosen panic es = panic
  chosen (err e) es = err (scheduling_failed e)
  chosen (ok []) es = panic
  chosen (ok (n ∷ ns)) es = elim (lookup n.node_id es) [
    | none ↦ err not_created
    | some e ↦ ok (n.node_id, e)
  ]

  -- The entry of the container among the pending ones; the answer is its key, and that of its engine.
  abbrev pub entered :
      Text
      → ContainerConfig
      → Fleet W
      → Outcome SwarmError (Text × Engine)
      → Outcome SwarmError (Text × Text) × Fleet W
  unfolding insert swarm_id
  entered name c f panic = (panic, f)
  entered name c f (err x) = (err x, f)
  entered name c f (ok (key, e)) = (
    ok (swarm_id c, key),
    record f {
      pending_containers =
          insert (swarm_id c)
            (record { pending_config = c; pending_name = name; pending_engine = e.about })
            f.pending_containers;
    },
  )

  -- createContainer from the network on, under the scheduler's lock. The configuration is changed also
  -- where an error follows.
  unfoldable pub place :
      Text
      → Bool
      → ContainerConfig
      → Fleet W
      → ContainerConfig × (Outcome SwarmError (Text × Text) × Fleet W)
  unfolding attached with_affinity without_affinity chosen entered select_nodes_for_container
      list_nodes
  place name image c f =
      let asked = with_affinity image (attached c f) in
      let nodes =
        select_nodes_for_container s.scheduler
          (list_nodes s.truncate_id s.ip_of f.pending_containers f.registry.engines) asked in
      let kept = without_affinity image asked in
      (kept, entered name kept f (chosen nodes f.registry.engines))

  abbrev pub place_identified :
      Text
      → Bool
      → ContainerConfig
      → Option ContainerConfig
      → Fleet W
      → ContainerConfig × (Outcome SwarmError (Text × Text) × Fleet W)
  unfolding place
  place_identified name image c none f = (c, (err draws_used_up, f))
  place_identified name image c (some c') f = place name image c' f

  -- createContainer up to the release of the scheduler's lock.
  unfoldable pub begin_create :
      Text
      → Bool
      → ContainerConfig
      → Fleet W
      → ContainerConfig × (Outcome SwarmError (Text × Text) × Fleet W)
  unfolding check_name_uniqueness place_identified identified
  begin_create name image c f =
      if check_name_uniqueness name f.registry.engines f.pending_containers
      then place_identified name image c (identified c f) f
      else (c, (err (name_conflict name), f))

  -- delete(c.pendingContainers, swarmID), once the engine has answered.
  unfoldable pub finish_create :
      {A : Type 0} → Text → Outcome SwarmError A × Fleet W → Outcome SwarmError A × Fleet W
  unfolding delete
  finish_create id (panic, f) = (panic, f)
  finish_create id (err x, f) =
      (err x, record f { pending_containers = delete id f.pending_containers })
  finish_create id (ok a, f) =
      (ok a, record f { pending_containers = delete id f.pending_containers })

  unfoldable pub continue_create :
      Text
      → ContainerConfig
      → Outcome SwarmError (Text × Text) × Fleet W
      → Outcome SwarmError Container × Fleet W
  unfolding on_engine finish_create Method.create_container
  continue_create name c (panic, f) = (panic, f)
  continue_create name c (err x, f) = (err x, f)
  continue_create name c (ok (id, key), f) =
      finish_create id (on_engine s key (λ daemon. Method.create_container daemon c name true) f)

  -- createContainer
  unfoldable pub create_once :
      Text
      → Bool
      → ContainerConfig
      → Fleet W
      → ContainerConfig × (Outcome SwarmError Container × Fleet W)
  unfolding begin_create continue_create
  create_once name image c f =
      let (kept, started) = begin_create name image c f in (kept, continue_create name kept started)

  -- The number of rounds of the loop that are left after `retries` of them.
  unfoldable pub rounds : ℤ → ℕ → ℕ
  rounds (pos n) retries = n - retries
  rounds (negsuc n) retries = 0

  -- The loop over the retries.
  unfoldable pub retry :
      ℕ
      → Text
      → ContainerConfig × (Outcome SwarmError Container × Fleet W)
      → ContainerConfig × (Outcome SwarmError Container × Fleet W)
  unfolding create_once
  retry zero name r = r
  retry (suc n) name (c, (panic, f)) = (c, (panic, f))
  retry (suc n) name (c, (ok v, f)) = (c, (ok v, f))
  retry (suc n) name (c, (err x, f)) = retry n name (create_once name false c f)

  abbrev pub is_some_image : Option Image → Bool
  is_some_image none = false
  is_some_image (some i) = true

  -- Whether an error asks for the affinity to an image that the cluster has.
  unfoldable pub wants_affinity : SwarmError → ContainerConfig → Fleet W → Bool
  unfolding is_image_missing have_node_constraint cluster_image
  wants_affinity x c f =
      (is_image_missing s.regexp_error x && not (have_node_constraint s.json c))
      && is_some_image (cluster_image c.image f.registry.engines)

  unfoldable pub after_first :
      Text
      → ContainerConfig × (Outcome SwarmError Container × Fleet W)
      → ContainerConfig × (Outcome SwarmError Container × Fleet W)
  unfolding wants_affinity create_once retry rounds
  after_first name (c, (panic, f)) = (c, (panic, f))
  after_first name (c, (ok v, f)) = (c, (ok v, f))
  after_first name (c, (err x, f)) =
      if wants_affinity x c f
      then retry (rounds s.create_retry 1) name (create_once name true c f)
      else retry (rounds s.create_retry 0) name (c, (err x, f))

  -- CreateContainer
  unfoldable pub create_container :
      Text → ContainerConfig → Fleet W → ContainerConfig × (Outcome SwarmError Container × Fleet W)
  unfolding create_once after_first
  create_container name c f = after_first name (create_once name false c f)
