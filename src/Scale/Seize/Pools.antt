-- ===== src/Scale/Seize/Pools.antt =====
-- resource_filter.go: which nodes are free, which are seized, and the tasks that follow.
use cattle.Prelude.{
  ℕ, zero, suc, ◌+◌, ◌-◌, ◌/◌, ◌^◌, Bool, true, false, not, ◌&&◌, ◌||◌, List, [], ◌∷◌, ◌++◌, Option,
  none, some, Text, length, take, ℤ, pos, negsuc, sub64, mul64, add64, quot_ℤ, ltb_ℤ, leb_ℤ, eqb_ℤ,
  any, ok, panic, ◌>>=◌, if◌then◌else◌,
}
use cattle.Cluster.Data.{Container, EngineData}
use cattle.Scale.Tasks.{Tasks, add_task}
use cattle.Scale.Match.{match_labels}
use cattle.Scale.Select.Base.{Run, filter_container}
use cattle.Scale.Seize.Data.{
  SeizeContainer, SeizeNode, SeizeFilter, default_priority, no_lots, get_seize_container,
  get_applots,
}
use cattle.Scale.Seize.Grow.{do_containers, is_named}

or_first : Option SeizeContainer → SeizeContainer → Option SeizeContainer
or_first none c = some c
or_first (some first) c = some first

module _ (match_string : Text → Text → Option Bool) where
  -- filterNodeContainers, for a container of the app that is scaled up.
  count_up : Container → SeizeContainer → SeizeNode → SeizeFilter → SeizeNode × SeizeFilter
  unfolding get_applots or_first
  count_up c taken node f =
      let lots = get_applots f.envs c.config.env in
      let app_lots =
        if not (eqb_ℤ lots no_lots) && eqb_ℤ f.app_lots no_lots then lots else f.app_lots in
      let app_priority =
        if not (eqb_ℤ taken.priority default_priority) && eqb_ℤ f.app_priority default_priority
        then taken.priority
        else f.app_priority in
      let ups = node.scale_up ++ taken ∷ [] in
      let full = leb_ℤ app_lots (pos (length ups)) in
      (
        record node {
          scale_up = ups;
          is_free = not full;
          already_has_free = if full then pos 0 else add64 node.already_has_free (pos 1);
        },
        record f {
          app_lots = app_lots;
          app_priority = app_priority;
          create_container = or_first f.create_container taken;
          scaled_up = f.scaled_up + 1;
        },
      )

  count_down : SeizeContainer → SeizeNode → SeizeNode
  count_down taken node = record node {
    scale_down = node.scale_down ++ taken ∷ [];
    is_free = false;
  }

  -- filterNodeContainers
  filter_node_container : Container → SeizeNode → SeizeFilter → Run (SeizeNode × SeizeFilter)
  unfolding get_seize_container count_up count_down filter_container
  filter_node_container c node f = do
    up ←
        (if filter_container match_string f.up_type f.filters c
          then (do taken ← get_seize_container c f.up_type; ok (count_up c taken node f))
          else ok (node, f))
    node' ←
        (if filter_container match_string f.down_type f.inaffinities c
          then (do taken ← get_seize_container c f.down_type; ok (count_down taken up.0))
          else ok up.0)
    ok (node', up.1)

  filter_node : List Container → SeizeNode → SeizeFilter → Run (SeizeNode × SeizeFilter)
  unfolding filter_node_container
  filter_node [] node f = ok (node, f)
  filter_node (c ∷ cs) node f = do
    done ← filter_node_container c node f
    filter_node cs done.0 done.1

  new_node : EngineData → SeizeNode
  new_node e = record {
    node_engine = e;
    scale_up = [];
    scale_down = [];
    is_free = true;
    cant_seize = false;
    already_has_free = negsuc 0;
  }

  pool_node : SeizeNode → SeizeFilter → SeizeFilter
  pool_node node f =
      if node.is_free
      then record f { free_nodes = f.free_nodes ++ node ∷ [] }
      else if eqb_ℤ node.already_has_free (pos 0)
      then f
      else record f { nodes = f.nodes ++ node ∷ [] }

  -- The first loop of Filter, over the engines in the order of the run.
  pool_engines : List (EngineData × List Container) → SeizeFilter → Run SeizeFilter
  unfolding filter_node pool_node new_node match_labels
  pool_engines [] f = ok f
  pool_engines ((e, cs) ∷ engines) f = do
    f' ←
        (if match_labels match_string f.constraints e.engine_labels
          then (do done ← filter_node cs (new_node e) f; ok (pool_node done.0 done.1))
          else ok f)
    pool_engines engines f'

-- int(math.Ceil(float64(a)/float64(b))), for numbers that a float64 holds. Of the infinity that a zero
-- `b` gives, amd64 makes the least `int`.
unfoldable pub ceil_div : ℤ → ℤ → ℤ
unfolding quot_ℤ
ceil_div a (pos zero) = negsuc (2 ^ 63 - 1)
ceil_div (pos a) (pos (suc b)) = pos ((a + b) / suc b)
ceil_div (negsuc a) (pos (suc b)) = quot_ℤ (negsuc a) (pos (suc b))
ceil_div (pos a) (negsuc b) = quot_ℤ (pos a) (negsuc b)
ceil_div (negsuc a) (negsuc b) = pos ((a + b + 1) / suc b)

-- The default of AppLots, and whether nodes have to be seized at all.
plan_nodes : SeizeFilter → SeizeFilter
unfolding ceil_div mul64 sub64
plan_nodes f =
    let lots = if eqb_ℤ f.app_lots no_lots then pos 1 else f.app_lots in
    if leb_ℤ f.number (mul64 (pos (length f.free_nodes)) lots)
    then record f { app_lots = lots; nodes = [] }
    else record f {
      app_lots = lots;
      need_free = sub64 (ceil_div f.number lots) (pos (length f.free_nodes));
    }

-- Some container of the node may not be taken down for this app.
unfoldable pub too_high : ℤ → SeizeNode → Bool
unfolding any
too_high app_priority node = any (λ c. leb_ℤ c.priority app_priority) node.scale_down

unfoldable pub give_up : SeizeNode → SeizeNode
give_up node = record node { scale_up = []; scale_down = []; cant_seize = true }

-- The debug line of doPriority reads `Names[0]` of each container up to the first that is too high.
unfoldable pub readable : ℤ → List SeizeContainer → Bool
unfolding is_named
readable app_priority [] = true
readable app_priority (c ∷ cs) =
    is_named c && (leb_ℤ c.priority app_priority || readable app_priority cs)

-- One round of the loop of doPriority.
unfoldable pub priority_round : SeizeNode → SeizeFilter → Run (SeizeNode × SeizeFilter)
unfolding too_high give_up do_containers add64 readable
priority_round node f =
    if readable f.app_priority node.scale_down
    then (if too_high f.app_priority node
        then ok (give_up node, record f { need_free = add64 f.need_free (pos 1) })
        else do_containers node f)
    else panic

-- The loop of doPriority: the nodes as they are then, and the filter.
unfoldable pub priority_loop : List SeizeNode → SeizeFilter → Run (List SeizeNode × SeizeFilter)
unfolding priority_round
priority_loop [] f = ok ([], f)
priority_loop (node ∷ nodes) f = do
  done ← priority_round node f
  let rest = priority_loop nodes done.1
  later ← (if leb_ℤ done.1.number (pos done.1.scaled_up) then ok (nodes, done.1) else rest)
  ok (done.0 ∷ later.0, later.1)

unfoldable pub cut_nodes : ℤ → List SeizeNode → Run (List SeizeNode)
cut_nodes need nodes =
    if ltb_ℤ need (pos (length nodes))
    then elim need [ pos n ↦ ok (take n nodes) | negsuc n ↦ panic ]
    else ok nodes

-- doPriority
unfoldable pub do_priority : SeizeFilter → Run SeizeFilter
unfolding priority_loop cut_nodes
do_priority f = do
  looped ← priority_loop f.nodes f
  nodes ← cut_nodes looped.1.need_free looped.0
  ok (record (looped.1) { nodes = nodes })

free_loop : List SeizeNode → SeizeFilter → Run (List SeizeNode × SeizeFilter)
unfolding do_containers
free_loop [] f = ok ([], f)
free_loop (node ∷ nodes) f = do
  done ← do_containers node f
  later ← free_loop nodes done.1
  ok (done.0 ∷ later.0, later.1)

-- reorganizeContainers, over the free nodes; `none` is the early return.
from_free :
    ℕ
    → ℤ
    → List SeizeNode
    → List SeizeContainer
    → Option (List SeizeContainer) × List SeizeContainer
from_free count number [] out = (some out, out)
from_free count number (node ∷ nodes) out =
    let rest = from_free (count + length node.scale_up) number nodes (out ++ node.scale_up) in
    if ltb_ℤ number (pos count) then (none, out) else rest

from_nodes : List SeizeNode → List SeizeContainer
from_nodes [] = []
from_nodes (node ∷ nodes) = node.scale_down ++ node.scale_up ++ from_nodes nodes

-- reorganizeContainers
reorganize : SeizeFilter → SeizeFilter
unfolding from_free from_nodes
reorganize f =
    let (whole, part) = from_free 0 f.number f.free_nodes f.filtered_out in
    record f { filtered_out = elim whole [ none ↦ part | some out ↦ out ++ from_nodes f.nodes ] }

-- SeizeResourceFilter.Filter
unfoldable pub seize :
    (Text → Text → Option Bool) → List (EngineData × List Container) → SeizeFilter → Run SeizeFilter
unfolding pool_engines plan_nodes do_priority free_loop reorganize
seize match_string engines f = do
  pooled ← pool_engines match_string engines f
  ready ← do_priority (plan_nodes pooled)
  grown ← free_loop ready.free_nodes ready
  ok (reorganize (record (grown.1) { free_nodes = grown.0 }))

-- SeizeResourceFilter.AddTasks
unfoldable pub seize_tasks : List SeizeContainer → Tasks → Run Tasks
unfolding add_task
seize_tasks [] tasks = ok tasks
seize_tasks (c ∷ cs) tasks = do tasks' ← add_task c.taken c.kind tasks; seize_tasks cs tasks'
