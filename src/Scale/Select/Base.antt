-- ===== src/Scale/Select/Base.antt =====
-- ContainerFilterBase, with its embeddings in the stop and the destroy filter, and the filters for
-- creating and starting.
pub mod ScaleDown
use cattle.Prelude.{
  false, ◌==◌, leb, Bool, true, ◌&&◌, ◌||◌, List, [], ◌∷◌, ◌++◌, Option, none, some, Text, text,
  text_eq, length, take, drop, Outcome, ok, err, panic, ◌>>=◌, if◌then◌else◌, ℤ, pos, negsuc, add64,
  neg64, leb_ℤ, ltb_ℤ,
}
use cattle.Cluster.Data.{Container, EngineData}
use cattle.Scale.Tasks.{TaskType, start, stop, Containers, NoError}
use cattle.Scale.Env.{get_min_num, has_constraint, get_constraint_strings}
use cattle.Scale.Match.{Filter, parse_filter_string, match_labels}

pub record ContainerFilter : Type 0 where
  pub number : ℤ
  pub envs : List Text
  pub filters : List Filter
  pub by_service : Bool
  pub task_type : TaskType
  pub containers : Containers

-- A result or a panic, in code that returns no error.
abbrev pub Run : Type 0 → Type 0
Run A = Outcome NoError A

abbrev pub items : Containers → List Container
items none = []
items (some cs) = cs

-- containers[:n]. Beyond the length Go would hand out nil entries while the capacity lasts, and the
-- program then panics on the first: that is a panic here.
unfoldable pub slice_to : ℤ → Containers → Run Containers
slice_to (negsuc n) cs = panic
slice_to (pos n) none = if n == 0 then ok none else panic
slice_to (pos n) (some cs) = if leb n (length cs) then ok (some (take n cs)) else panic

-- containers[n:]
unfoldable pub slice_from : ℤ → Containers → Run Containers
slice_from (negsuc n) cs = panic
slice_from (pos n) none = if n == 0 then ok none else panic
slice_from (pos n) (some cs) = if leb n (length cs) then ok (some (drop n cs)) else panic

unfoldable pub abs_number : ℤ → ℤ
unfolding neg64
abs_number number = if ltb_ℤ number (pos 0) then neg64 number else number

unfoldable pub state_fits : TaskType → Text → Bool
unfolding text_eq
state_fits stop state = text_eq state (text "paused") || text_eq state (text "running")
state_fits start state =
    text_eq state (text "paused")
    || text_eq state (text "created")
    || text_eq state (text "restarting")
    || text_eq state (text "exited")
state_fits _ state = true

abbrev pub push : Containers → Container → Containers
push none c = some (c ∷ [])
push (some cs) c = some (cs ++ c ∷ [])

-- append(out, cs...): appending nothing to a nil slice leaves it nil.
abbrev pub extend : Containers → List Container → Containers
extend none [] = none
extend none (c ∷ cs) = some (c ∷ cs)
extend (some out) cs = some (out ++ cs)

abbrev pub app_key : Text
app_key = text "app"

module _ (match_string : Text → Text → Option Bool) where
  -- ContainerFilterBase.filterContainer
  unfoldable pub filter_container : TaskType → List Filter → Container → Bool
  unfolding state_fits match_labels
  filter_container kind filters c =
      match_labels match_string filters c.labels && state_fits kind c.state

  -- filterConstraintNodeByENVs: an error of the parser is false.
  constraint_node : EngineData → List Text → Run Bool
  constraint_node e envs = elim (parse_filter_string (get_constraint_strings envs)) [
    | ok constraints ↦ ok (match_labels match_string constraints e.engine_labels)
    | err x ↦ ok false
    | panic ↦ panic
  ]

  constraint_loop : List Text → List Container → Containers → Run Containers
  unfolding constraint_node
  constraint_loop envs [] out = ok out
  constraint_loop envs (c ∷ cs) out = do
    fits ← constraint_node c.engine envs
    constraint_loop envs cs (if fits then push out c else out)

  -- filterConstraintContainers
  unfoldable pub filter_constraint_containers : Containers → List Text → Run Containers
  unfolding constraint_loop has_constraint
  filter_constraint_containers cs envs =
      if has_constraint envs then constraint_loop envs (items cs) none else ok cs

  -- The loop of filterContainers, and the slice after it.
  collect :
      (n : ℤ) (kind : TaskType) (filters : List Filter) (out : Containers) (min_num : ℤ)
      → List Container
      → Run Containers
  unfolding filter_container get_min_num slice_to slice_from add64
  collect n kind filters out min_num [] =
      if ltb_ℤ (pos (length (items out))) (add64 n min_num) then slice_from min_num out else ok out
  collect n kind filters out min_num (c ∷ cs) =
      let out' = push out c in
      let min' = get_min_num c.config.env in
      let rest = collect n kind filters out' min' cs in
      let skipped = collect n kind filters out min_num cs in
      if filter_container kind filters c
      then (if leb_ℤ (add64 n min') (pos (length (items out'))) then slice_to n out' else rest)
      else skipped

  -- ContainerFilterBase.filterContainers
  unfoldable pub base_containers : ContainerFilter → Run ContainerFilter
  unfolding collect filter_constraint_containers abs_number
  base_containers f = do
    let n = abs_number f.number
    constrained ← filter_constraint_containers f.containers f.envs
    kept ← collect n f.task_type f.filters none (pos 0) (items constrained)
    ok (record f { containers = kept })
