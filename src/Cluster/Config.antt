-- ===== src/Cluster/Config.antt =====
-- cluster/config.go: the expressions that a container's configuration carries in its labels. The JSON
-- decoder and encoder are parameters: what `Unmarshal` leaves in the slice, and the text of `Marshal`,
-- which does not fail on texts.
pub mod Stored
pub mod Build
use cattle.Prelude.{
  Bool, true, false, not, ◌&&◌, List, [], ◌∷◌, ◌++◌, Option, none, some, Text, text, text_eq,
  has_prefix, split2, keep, any, Outcome, ok, err, if◌then◌else◌,
}
use cattle.Cluster.Data.{ContainerConfig, lookup, insert, label_or_empty}

pub record Json : Type 0 where
  pub unmarshal : Text → List Text
  pub marshal : List Text → Text

-- SwarmLabelNamespace+"."+key
abbrev pub swarm_label : Text → Text
swarm_label key = text "com.docker.swarm" ++ text "." ++ key

-- SwarmID
unfoldable pub swarm_id : ContainerConfig → Text
unfolding label_or_empty
swarm_id c = label_or_empty (swarm_label (text "id")) c.config_labels

unfoldable pub set_label : Text → Text → ContainerConfig → ContainerConfig
unfolding insert
set_label key value c = record c { config_labels = insert (swarm_label key) value c.config_labels }

-- SetSwarmID
unfoldable pub set_swarm_id : Text → ContainerConfig → ContainerConfig
unfolding set_label
set_swarm_id id c = set_label (text "id") id c

-- parseEnv
unfoldable pub parse_env : Text → Option (Text × Text)
unfolding split2
parse_env e = split2 e (text ":")

-- The value of an entry `kind:value`.
unfoldable pub value_of : Text → Text → Option Text
unfolding parse_env text_eq
value_of kind e = elim (parse_env e) [
  | none ↦ none
  | some (key, value) ↦ if text_eq key kind then some value else none
]

abbrev pub add_value : Option Text → List Text → List Text
add_value none values = values
add_value (some v) values = v ∷ values

-- The values of the entries of one kind.
unfoldable pub values_of_kind : Text → List Text → List Text
unfolding value_of
values_of_kind kind [] = []
values_of_kind kind (e ∷ envs) = add_value (value_of kind e) (values_of_kind kind envs)

abbrev pub affinity : Text
affinity = text "affinity"

abbrev pub constraint : Text
constraint = text "constraint"

abbrev pub reschedule : Text
reschedule = text "reschedule"

abbrev pub whitelist : Text
whitelist = text "whitelist"

abbrev pub is_some : Option Text → Bool
is_some none = false
is_some (some v) = true

-- Whether the loop over the environment takes an entry out.
unfoldable pub is_swarm_entry : Text → Bool
unfolding value_of any
is_swarm_entry e =
    any (λ kind. is_some (value_of kind e)) (affinity ∷ constraint ∷ reschedule ∷ whitelist ∷ [])

module _ (json : Json) where
  open json use {unmarshal, marshal}

  unfoldable pub exprs_of : Option Text → List Text
  exprs_of none = []
  exprs_of (some labels) = unmarshal labels

  -- extractExprs
  unfoldable pub extract_exprs : Text → ContainerConfig → List Text
  unfolding exprs_of lookup
  extract_exprs key c = exprs_of (lookup (swarm_label key) c.config_labels)

  -- c.Labels[…] = string(json.Marshal(exprs))
  unfoldable pub store_exprs : Text → List Text → ContainerConfig → ContainerConfig
  unfolding set_label
  store_exprs key exprs c = set_label key (marshal exprs) c

  -- AddWhitelist, AddAffinity, AddConstraint
  unfoldable pub add_expr : Text → Text → ContainerConfig → ContainerConfig
  unfolding extract_exprs store_exprs
  add_expr key e c = store_exprs key (extract_exprs key c ++ e ∷ []) c

  -- RemoveWhitelist, RemoveAffinity
  unfoldable pub remove_expr : Text → Text → ContainerConfig → ContainerConfig
  unfolding extract_exprs store_exprs keep text_eq
  remove_expr key e c = store_exprs key (keep (λ a. not (text_eq a e)) (extract_exprs key c)) c

  -- HaveNodeConstraint
  unfoldable pub have_node_constraint : ContainerConfig → Bool
  unfolding extract_exprs any has_prefix
  have_node_constraint c =
      any (λ e. has_prefix e (text "node==") && not (has_prefix e (text "node==~")))
        (extract_exprs (text "constraints") c)

  -- HasReschedulePolicy
  unfoldable pub has_reschedule_policy : Text → ContainerConfig → Bool
  unfolding extract_exprs any text_eq
  has_reschedule_policy p c =
      any (λ policy. text_eq policy p) (extract_exprs (text "reschedule-policies") c)

  -- `if len(exprs) > 0`
  unfoldable pub store_some : Text → List Text → ContainerConfig → ContainerConfig
  unfolding store_exprs
  store_some key [] c = c
  store_some key (e ∷ es) c = store_exprs key (e ∷ es) c

  unfoldable pub gathered : Text → Text → ContainerConfig → List Text
  unfolding extract_exprs values_of_kind
  gathered key kind c = extract_exprs key c ++ values_of_kind kind c.env

  -- BuildContainerConfig, on a configuration with its host configuration in it.
  unfoldable pub build_config : ContainerConfig → ContainerConfig
  unfolding store_some gathered keep is_swarm_entry
  build_config c =
      let stripped : ContainerConfig = record c {
        env = keep (λ e. not (is_swarm_entry e)) c.env;
      } in
      store_some (text "whitelists") (gathered (text "whitelists") whitelist c) (
        store_some (text "reschedule-policies") (gathered (text "reschedule-policies") reschedule c)
          (store_some (text "constraints") (gathered (text "constraints") constraint c)
            (store_some (text "affinities") (gathered (text "affinities") affinity c) stripped)))

pub data ConfigError : Type 0 where
  too_many_policies : ConfigError
  invalid_policy : Text → ConfigError

-- Validate, on the reschedule policies of the configuration.
validate_policies : List Text → Outcome ConfigError (Unit {0})
unfolding any text_eq
validate_policies [] = ok tt
validate_policies (p ∷ []) =
    if any (λ valid. text_eq p valid) (text "off" ∷ text "on-node-failure" ∷ [])
    then ok tt
    else err (invalid_policy p)
validate_policies (p ∷ q ∷ ps) = err too_many_policies

unfoldable pub validate : Json → ContainerConfig → Outcome ConfigError (Unit {0})
unfolding validate_policies extract_exprs
validate json c = validate_policies (extract_exprs json (text "reschedule-policies") c)
