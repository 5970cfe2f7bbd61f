-- ===== src/Engine/Networks.antt =====
-- cluster/network.go and cluster/volume.go. `filters.Args` is a parameter: the values that it has for a
-- key, and the matches of labels and of the driver.
pub mod Unique
use cattle.Prelude.{
  Bool, true, false, not, ◌&&◌, ◌||◌, List, [], ◌∷◌, ◌++◌, Option, none, some, Text, text, text_eq,
  has_prefix, contains, keep, any, find, if◌then◌else◌,
}
use cattle.Cluster.Data.{EngineData, lookup, insert}
use cattle.Engine.Data.{Network, Volume}

-- isPreDefined
unfoldable pub is_predefined : Network → Bool
unfolding text_eq
is_predefined n =
    text_eq n.network_name (text "none")
    || text_eq n.network_name (text "host")
    || text_eq n.network_name (text "bridge")

-- Every entry of one map into another.
abbrev pub insert_all : {V : Type 0} → List (Text × V) → List (Text × V) → List (Text × V)
unfolding insert
insert_all [] m = m
insert_all ((k, v) ∷ entries) m = insert_all entries (insert k v m)

-- One round of the loop of Uniq.
unfoldable pub uniq_step : Network → List (Text × Network) → List (Text × Network)
unfolding lookup insert insert_all
uniq_step n tmp = elim (lookup n.network_id tmp) [
  | some known ↦
      insert n.network_id (record known { endpoints = insert_all n.endpoints known.endpoints }) tmp
  | none ↦ insert n.network_id (record n { endpoints = insert_all n.endpoints [] }) tmp
]

unfoldable pub uniq_loop : List Network → List (Text × Network) → List (Text × Network)
unfolding uniq_step
uniq_loop [] tmp = tmp
uniq_loop (n ∷ ns) tmp = uniq_loop ns (uniq_step n tmp)

abbrev pub entries_of : {V : Type 0} → List (Text × V) → List V
entries_of [] = []
entries_of ((_, v) ∷ m) = v ∷ entries_of m

-- Networks.Uniq
unfoldable pub uniq : List Network → List Network
unfolding uniq_loop
uniq ns = entries_of (uniq_loop ns [])

-- RemoveDuplicateEndpoints, the index for each endpoint identifier: one that does not hold the
-- identifier is taken over one that does.
unfoldable pub endpoint_map : List (Text × Text) → List (Text × Text) → List (Text × Text)
unfolding lookup insert contains
endpoint_map [] m = m
endpoint_map ((index, endpoint) ∷ es) m = elim (lookup endpoint m) [
  | none ↦ endpoint_map es (insert endpoint index m)
  | some old ↦ endpoint_map es (if contains index endpoint then m else insert endpoint index m)
]

unfoldable pub endpoints_at :
    List (Text × Text) → List (Text × Text) → List (Text × Text) → List (Text × Text)
unfolding lookup insert
endpoints_at all [] kept = kept
endpoints_at all ((_, index) ∷ chosen) kept = elim (lookup index all) [
  | none ↦ endpoints_at all chosen (insert index [] kept)
  | some endpoint ↦ endpoints_at all chosen (insert index endpoint kept)
]

-- RemoveDuplicateEndpoints
unfoldable pub remove_duplicate_endpoints : Network → Network
unfolding endpoint_map endpoints_at
remove_duplicate_endpoints n = record n {
  endpoints = endpoints_at n.endpoints (endpoint_map n.endpoints []) [];
}

-- Match of a name, with or without the engine before a slash.
abbrev pub is_named : Text → EngineData → Text → Bool
unfolding text_eq
is_named q e name =
    text_eq name q
    || text_eq (e.engine_id ++ text "/" ++ name) q
    || text_eq (e.engine_name ++ text "/" ++ name) q

-- `candidates[0]`, where the networks have one identifier.
abbrev pub one_network : List Network → List Network → Option Network
one_network (u ∷ []) (n ∷ ns) = some n
one_network (u ∷ []) [] = none
one_network [] ns = none
one_network (u ∷ v ∷ us) ns = none

-- Get, when no network has the identifier or the name.
unfoldable pub get_loose : Text → List Network → Option Network
unfolding find has_prefix keep text_eq uniq
get_loose q ns = elim (find (λ (n : Network). text_eq n.network_name (text "/" ++ q)) ns) [
  | some n ↦ some n
  | none ↦
      let candidates = keep (λ (n : Network). has_prefix n.network_id q) ns in
      one_network (uniq candidates) candidates
]

-- Get, from the networks with the name on.
unfoldable pub get_named : Text → List Network → List Network → Option Network
unfolding get_loose uniq
get_named q [] ns = get_loose q ns
get_named q (n ∷ candidates) ns = one_network (uniq (n ∷ candidates)) (n ∷ candidates)

-- The arguments of Networks.Filter.
pub record FilterArgs : Type 0 where
  pub arg_types : List Text
  pub arg_names : List Text
  pub arg_ids : List Text
  pub matches_labels : Network → Bool
  pub matches_driver : Network → Bool

module _ (truncate_id : Text → Text) where
  -- Networks.Get
  unfoldable pub get_network : Text → List Network → Option Network
  unfolding find keep text_eq get_named
  get_network [] ns = none
  get_network (b ∷ q) ns =
      elim (find
        (λ (n : Network).
          text_eq n.network_id (b ∷ q) || text_eq (truncate_id n.network_id) (b ∷ q))
        ns) [
          | some n ↦ some n
          | none ↦
              get_named (b ∷ q)
                (keep (λ (n : Network). is_named (b ∷ q) n.network_engine n.network_name) ns) ns
        ]

  unfoldable pub include_network : FilterArgs → Network → Bool
  unfolding is_predefined any text_eq
  include_network args n =
      not (
        any
          (λ t.
            (text_eq t (text "custom") && is_predefined n)
            || (text_eq t (text "builtin") && not (is_predefined n)))
          args.arg_types)
      && (args.matches_labels n && args.matches_driver n)

  -- The networks of the names and identifiers, in their order.
  unfoldable pub get_each : FilterArgs → List Text → List Network → List Network
  unfolding get_network include_network
  get_each args [] ns = []
  get_each args (q ∷ qs) ns = elim (get_network q ns) [
    | none ↦ get_each args qs ns
    | some n ↦ if include_network args n then n ∷ get_each args qs ns else get_each args qs ns
  ]

  unfoldable pub filter_by : FilterArgs → List Text → List Network → List Network
  unfolding uniq keep get_each include_network
  filter_by args [] ns = keep (include_network args) (uniq ns)
  filter_by args (q ∷ qs) ns = get_each args (q ∷ qs) ns

  -- Networks.Filter
  unfoldable pub filter_networks : FilterArgs → List Network → List Network
  unfolding filter_by
  filter_networks args ns = filter_by args (args.arg_names ++ args.arg_ids) ns

-- Volumes.Get, from the volumes with the name on. Of several, the first with the very name on a driver
-- that is not local.
unfoldable pub volume_among : Text → List Volume → List Volume → Option Volume
unfolding find text_eq
volume_among q [] vs = find (λ (v : Volume). text_eq v.volume_name (text "/" ++ q)) vs
volume_among q (v ∷ []) vs = some v
volume_among q (v ∷ w ∷ candidates) vs =
    find (λ (u : Volume). text_eq u.volume_name q && not (text_eq u.volume_driver (text "local")))
      (v ∷ w ∷ candidates)

-- Volumes.Get
unfoldable pub get_volume : Text → List Volume → Option Volume
unfolding volume_among keep
get_volume [] vs = none
get_volume (b ∷ q) vs =
    volume_among (b ∷ q) (keep (λ (v : Volume). is_named (b ∷ q) v.volume_engine v.volume_name) vs)
      vs
