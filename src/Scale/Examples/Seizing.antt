-- ===== src/Scale/Examples/Seizing.antt =====
-- Seizing the resources of two nodes, one of which runs an app of higher priority.
use cattle.Prelude.{
  ◌≡◌, refl, [], ◌∷◌, some, false, true, ℕ, List, take, ℤ, pos, negsuc, ok, length, arith, ◌≤◌, ◌+◌,
  ◌-◌,
}
use cattle.Scale.Examples.{web, node_one}
use cattle.Scale.Tasks.{create, destroy}
use cattle.Scale.Seize.Data.{SeizeContainer, SeizeNode, SeizeFilter}
use cattle.Scale.Seize.Grow.{do_containers, is_named}
use cattle.Scale.Seize.Pools.{do_priority}
use cattle.Scale.Seize.Loops.{Grown}
use cattle.Scale.Seize.Bounds.{do_containers_create}
use cattle.Scale.Seize.Walk.{Walk}
use cattle.Scale.Seize.Priority.{do_priority_walks}

abbrev first : SeizeContainer
first = record { taken = web; priority = pos 1; kind = create }

abbrev victim : ℤ → SeizeContainer
victim priority = record { taken = web; priority = priority; kind = destroy }

abbrev node_with : ℤ → SeizeNode
node_with priority = record {
  node_engine = node_one;
  scale_up = [];
  scale_down = victim priority ∷ [];
  is_free = false;
  cant_seize = false;
  already_has_free = negsuc 0;
}

-- Three containers are asked for, one runs, and a node has room for two.
abbrev three : SeizeFilter
three = record {
  number = pos 3;
  envs = [];
  up_type = create;
  down_type = destroy;
  constraints = [];
  inaffinities = [];
  filters = [];
  app_priority = pos 1;
  app_lots = pos 2;
  scaled_up = 1;
  need_free = pos 1;
  create_container = some first;
  nodes = node_with (pos 0) ∷ node_with (pos 5) ∷ [];
  free_nodes = [];
  filtered_out = [];
}

first-is_named : is_named first ≡ true
unfolding is_named
first-is_named = refl

victim-is_named : (priority : ℤ) → is_named (victim priority) ≡ true
unfolding is_named
victim-is_named priority = refl

do_containers_create_example :
    (result : SeizeNode × SeizeFilter) × (do_containers (node_with (pos 5)) three ≡ ok result)
    × Grown (node_with (pos 5)) result.0 three result.1
    × (length result.0.scale_up ≤ 0 + (2 - 0))
do_containers_create_example =
    do_containers_create (node_with (pos 5)) three first 2 refl refl first-is_named refl
      (omega arith) (omega arith)

do_priority_walks_example :
    (looped : List SeizeNode) × (g : SeizeFilter) × (m : ℕ) × Walk
      (pos 1)
      three.nodes
      three
      looped
      g
    × (g.need_free ≡ pos m)
    × (do_priority three ≡ ok (record g { nodes = take m looped }))
do_priority_walks_example =
    do_priority_walks three 1 (first, refl, first-is_named)
      ((victim-is_named (pos 0), tt), ((victim-is_named (pos 5), tt), tt)) refl (omega arith)
