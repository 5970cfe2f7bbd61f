-- ===== src/Scale/Seize/Data.antt =====
-- resource_filter.go: SeizeContainer, SeizeNode, SeizeResourceFilter, and what they read from
-- environment entries. Of the log lines it has the `Names[0]` that some of them read. The fields
-- `scaleUpTaskFilter` and `scaleDownTaskFilter` are told by the two task types, since they are set
-- together.
use cattle.Prelude.{
  err, ℕ, Bool, List, [], ◌∷◌, Option, none, some, Text, text, contains, any, atoi, atoi_value, ℤ,
  pos, negsuc, ok, err, panic, ◌>>=◌, if◌then◌else◌,
}
use cattle.Cluster.Data.{Container, EngineData}
use cattle.Scale.Tasks.{TaskType, create, destroy, start, stop}
use cattle.Scale.Env.{get_env, get_inaffinity_strings, get_constraint_strings}
use cattle.Scale.Match.{Filter, parse_filter_string}
use cattle.Scale.Select.Base.{Run}
use cattle.Scale.Select.Kinds.{ScaleItem}

pub record SeizeContainer : Type 0 where
  pub taken : Container
  pub priority : ℤ
  pub kind : TaskType

pub record SeizeNode : Type 0 where
  pub node_engine : EngineData
  pub scale_up : List SeizeContainer
  pub scale_down : List SeizeContainer
  pub is_free : Bool
  pub cant_seize : Bool
  pub already_has_free : ℤ

pub record SeizeFilter : Type 0 where
  pub number : ℤ
  pub envs : List Text
  pub up_type : TaskType
  pub down_type : TaskType
  pub constraints : List Filter
  pub inaffinities : List Filter
  pub filters : List Filter
  pub app_priority : ℤ
  pub app_lots : ℤ
  pub scaled_up : ℕ
  pub need_free : ℤ
  pub create_container : Option SeizeContainer
  pub nodes : List SeizeNode
  pub free_nodes : List SeizeNode
  pub filtered_out : List SeizeContainer

abbrev pub default_priority : ℤ
default_priority = negsuc 0

abbrev pub no_lots : ℤ
no_lots = negsuc 0

-- setTaskType
set_up_type : List Text → TaskType
unfolding any contains
set_up_type values = if any (λ v. contains v (text "start")) values then start else create

set_down_type : List Text → TaskType
unfolding any contains
set_down_type values = if any (λ v. contains v (text "stop")) values then stop else destroy

first_priority : List Text → ℤ
unfolding atoi_value
first_priority [] = default_priority
first_priority (p ∷ _) = atoi_value p

-- getSeizeContainer
unfoldable pub get_seize_container : Container → TaskType → Run SeizeContainer
unfolding first_priority get_env
get_seize_container c kind =
    let found = get_env (text "PRIORITY") c.config.env in
    let taken : SeizeContainer = record {
      taken = c;
      priority = first_priority found;
      kind = kind;
    } in
    elim found [ [] ↦ ok taken | p ∷ ps ↦ elim c.names [ [] ↦ panic | name ∷ names ↦ ok taken ] ]

first_lots : List Text → Option ℤ
unfolding atoi
first_lots [] = none
first_lots (a ∷ _) = atoi a

-- getApplots: the entries of the item come before those of the container.
unfoldable pub get_applots : List Text → List Text → ℤ
unfolding first_lots get_env
get_applots item_envs envs = elim (first_lots (get_env (text "applots") item_envs)) [
  | some a ↦ a
  | none ↦ elim (first_lots (get_env (text "applots") envs)) [ some a ↦ a | none ↦ no_lots ]
]

-- An error of the parser leaves no filters, which every label set matches.
parsed : List Text → Run (List Filter)
unfolding parse_filter_string
parsed texts = elim (parse_filter_string texts) [
  | ok filters ↦ ok filters
  | err x ↦ ok []
  | panic ↦ panic
]

-- NewSeizeResourceFilter, for the positive number that IsResourceSeize asks for.
unfoldable pub new_seize_filter : ScaleItem → Run SeizeFilter
unfolding parsed set_up_type set_down_type get_env get_constraint_strings get_inaffinity_strings
new_seize_filter item = do
  constraints ← parsed (get_constraint_strings item.item_envs)
  inaffinities ← parsed (get_inaffinity_strings item.item_envs)
  filters ← parsed item.item_filters
  ok (record {
    number = item.item_number;
    envs = item.item_envs;
    up_type = set_up_type (get_env (text "TASK_TYPE") item.item_envs);
    down_type = set_down_type (get_env (text "TASK_TYPE") item.item_envs);
    constraints = constraints;
    inaffinities = inaffinities;
    filters = filters;
    app_priority = default_priority;
    app_lots = no_lots;
    scaled_up = 0;
    need_free = pos 0;
    create_container = none;
    nodes = [];
    free_nodes = [];
    filtered_out = [];
  })
