-- ===== src/Cluster/Containers.antt =====
-- cluster/container.go: finding a container by an identifier or a name. `stringid.TruncateID` is a
-- parameter.
pub mod Found
use cattle.Prelude.{
  Bool, true, false, ◌||◌, List, [], ◌∷◌, ◌++◌, Option, none, some, Text, text, text_eq, has_prefix,
  keep, any, find, if◌then◌else◌,
}
use cattle.Cluster.Data.{Container, ContainerState}
use cattle.Cluster.Config.{swarm_id}

-- Whether `name` is a name of the container, with or without its slash or its engine.
unfoldable pub is_name : Text → Container → Text → Bool
unfolding text_eq
is_name q c name =
    text_eq name q
    || text_eq name (text "/" ++ q)
    || text_eq (c.engine.engine_id ++ name) q
    || text_eq (c.engine.engine_name ++ name) q

unfoldable pub has_name : Text → Container → Bool
unfolding is_name any
has_name q c = any (is_name q c) c.names

-- The one candidate.
unfoldable pub only_one : List Container → Option Container
only_one [] = none
only_one (c ∷ []) = some c
only_one (c ∷ d ∷ cs) = none

unfoldable pub by_prefix : Text → List Container → List Container
unfolding keep has_prefix swarm_id
by_prefix q cs =
    keep (λ c. has_prefix c.ident q) cs ++ keep (λ c. has_prefix (swarm_id c.config) q) cs

-- From the candidates by name on.
unfoldable pub by_name : Text → List Container → List Container → Option Container
unfolding only_one by_prefix
by_name q [] cs = only_one (by_prefix q cs)
by_name q (c ∷ candidates) cs = only_one (c ∷ candidates)

module _ (truncate_id : Text → Text) where
  unfoldable pub has_id : Text → Container → Bool
  unfolding text_eq
  has_id q c = text_eq c.ident q || text_eq (truncate_id c.ident) q

  unfoldable pub has_swarm_id : Text → Container → Bool
  unfolding text_eq swarm_id
  has_swarm_id q c = text_eq (swarm_id c.config) q || text_eq (truncate_id (swarm_id c.config)) q

  -- Containers.Get
  unfoldable pub get : Text → List Container → Option Container
  unfolding find has_id has_swarm_id by_name has_name keep
  get [] cs = none
  get (b ∷ q) cs = elim (find (has_id (b ∷ q)) cs) [
    | some c ↦ some c
    | none ↦ elim (find (has_swarm_id (b ∷ q)) cs) [
      | some c ↦ some c
      | none ↦ by_name (b ∷ q) (keep (has_name (b ∷ q)) cs) cs
    ]
  ]

-- StateString
unfoldable pub state_string : ContainerState → Text
state_string s =
    if s.running
    then (if s.paused
        then text "paused"
        else if s.restarting
        then text "restarting"
        else text "running")
    else if s.dead
    then text "dead"
    else if s.was_started
    then text "exited"
    else text "created"
