-- ===== src/Scale/Seize/Bounds.antt =====
-- What a node gains from `DoContainers`.
use cattle.Prelude.{
  negsuc, sub64_small, ltb_ℤ, sub64, if◌then◌else◌, ◌-◌, ℕ, ◌+◌, ◌≤◌, ◌<◌, ◌^◌, ◌≡◌, refl, sym, ◌∙◌,
  true, some, length, ℤ, pos, ok, arith,
}
use cattle.Scale.Tasks.{TaskType, create, start, destroy, stop, unknown}
use cattle.Scale.Seize.Data.{SeizeContainer, SeizeNode, SeizeFilter}
use cattle.Scale.Seize.Grow.{
  create_loop, start_loop, create_needs, do_containers, at_most, is_named,
}
use cattle.Scale.Seize.Loops.{
  HasContainer, Grown, GrownBy, create_loop-Grown, start_loop-Grown, create_loop_total,
  start_loop_total,
}

at_most-smaller : (a b : ℤ) → at_most (if ltb_ℤ a b then a else b) ≤ at_most a
at_most-smaller (pos a) (pos b) = ground arith
at_most-smaller (pos a) (negsuc b) = omega arith
at_most-smaller (negsuc a) (pos b) = omega arith
at_most-smaller (negsuc a) (negsuc b) = ground arith

at_most-sub64 : (a b : ℕ) → a < 2 ^ 63 → b < 2 ^ 63 → at_most (sub64 (pos a) (pos b)) ≡ a - b
at_most-sub64 a b h k = rw (sub64_small a b h k) (ground arith)

-- What the create loop is asked for is at most the room that the node has.
at_most-create_needs :
    (node : SeizeNode) (f : SeizeFilter) (lots : ℕ)
    → f.app_lots ≡ pos lots
    → lots < 2 ^ 63
    → length node.scale_up < 2 ^ 63
    → at_most (create_needs node f) ≤ lots - length node.scale_up
unfolding create_needs
at_most-create_needs node f lots e small few =
    let room : at_most (sub64 f.app_lots (pos (length node.scale_up)))
        ≡ lots - length node.scale_up =
      rw e (at_most-sub64 lots (length node.scale_up) small few) in
    omega (
      arith,
      at_most-smaller (sub64 f.app_lots (pos (length node.scale_up)))
          (sub64 f.number (pos f.scaled_up)),
      room,
    )

do_containers-create :
    (node : SeizeNode) (f : SeizeFilter)
    → f.up_type ≡ create
    → do_containers node f ≡ create_loop (at_most (create_needs node f)) node f
unfolding do_containers
do_containers-create node f kind = rw kind

-- What every task type keeps.
abbrev Kept : SeizeNode → SeizeFilter → SeizeNode × SeizeFilter → Type 0
Kept node f result =
    (result.0.scale_down ≡ node.scale_down)
    × (result.1.app_priority ≡ f.app_priority)
    × (result.1.number ≡ f.number)
    × (result.1.need_free ≡ f.need_free)
    × (HasContainer f → HasContainer result.1)

GrownBy-Kept :
    (k : ℕ) (node : SeizeNode) (f : SeizeFilter) (result : SeizeNode × SeizeFilter)
    → GrownBy k node f result
    → Kept node f result
GrownBy-Kept k node f result (g, _) =
    (g.same_down, g.same_priority, g.same_number, g.same_need, g.still)

do_containers-destroy :
    (node : SeizeNode) (f : SeizeFilter)
    → f.up_type ≡ destroy
    → do_containers node f ≡ create_loop (at_most (create_needs node f)) node f
unfolding do_containers
do_containers-destroy node f kind = rw kind

do_containers-stop :
    (node : SeizeNode) (f : SeizeFilter)
    → f.up_type ≡ stop
    → do_containers node f ≡ create_loop (at_most (create_needs node f)) node f
unfolding do_containers
do_containers-stop node f kind = rw kind

do_containers-unknown :
    (node : SeizeNode) (f : SeizeFilter)
    → f.up_type ≡ unknown
    → do_containers node f ≡ create_loop (at_most (create_needs node f)) node f
unfolding do_containers
do_containers-unknown node f kind = rw kind

do_containers-start :
    (node : SeizeNode) (f : SeizeFilter)
    → f.up_type ≡ start
    → do_containers node f
      ≡ start_loop
          (at_most (sub64 f.app_lots (pos (length node.scale_up))))
          node
          (record f { scaled_up = f.scaled_up + length node.scale_up })
unfolding do_containers
do_containers-start node f kind = rw kind

kept :
    (kind : TaskType) (node : SeizeNode) (f : SeizeFilter) (result : SeizeNode × SeizeFilter)
    → f.up_type ≡ kind
    → do_containers node f ≡ ok result
    → Kept node f result
kept start node f result kind h =
    let f' : SeizeFilter = record f { scaled_up = f.scaled_up + length node.scale_up } in
    let k = at_most (sub64 f.app_lots (pos (length node.scale_up))) in
    GrownBy-Kept k node f' result
      (start_loop-Grown k node f' result (sym (do_containers-start node f kind) ∙ h))
kept create node f result kind h =
    let k = at_most (create_needs node f) in
    GrownBy-Kept k node f result
      (create_loop-Grown k node f result (sym (do_containers-create node f kind) ∙ h))
kept destroy node f result kind h =
    let k = at_most (create_needs node f) in
    GrownBy-Kept k node f result
      (create_loop-Grown k node f result (sym (do_containers-destroy node f kind) ∙ h))
kept stop node f result kind h =
    let k = at_most (create_needs node f) in
    GrownBy-Kept k node f result
      (create_loop-Grown k node f result (sym (do_containers-stop node f kind) ∙ h))
kept unknown node f result kind h =
    let k = at_most (create_needs node f) in
    GrownBy-Kept k node f result
      (create_loop-Grown k node f result (sym (do_containers-unknown node f kind) ∙ h))

-- Whatever the task type, what is taken down stays.
pub do_containers-Kept :
    (node : SeizeNode) (f : SeizeFilter) (result : SeizeNode × SeizeFilter)
    → do_containers node f ≡ ok result
    → Kept node f result
do_containers-Kept node f result h = kept f.up_type node f result refl h

total :
    (kind : TaskType) (node : SeizeNode) (f : SeizeFilter)
    → f.up_type ≡ kind
    → HasContainer f
    → (result : SeizeNode × SeizeFilter) × (do_containers node f ≡ ok result)
total start node f kind (c, e, _) =
    let f' : SeizeFilter = record f { scaled_up = f.scaled_up + length node.scale_up } in
    let (result, h) =
      start_loop_total (at_most (sub64 f.app_lots (pos (length node.scale_up)))) node f' c e in
    (result, do_containers-start node f kind ∙ h)
total create node f kind (c, e, named) =
    let (result, h) = create_loop_total (at_most (create_needs node f)) node f c e named in
    (result, do_containers-create node f kind ∙ h)
total destroy node f kind (c, e, named) =
    let (result, h) = create_loop_total (at_most (create_needs node f)) node f c e named in
    (result, do_containers-destroy node f kind ∙ h)
total stop node f kind (c, e, named) =
    let (result, h) = create_loop_total (at_most (create_needs node f)) node f c e named in
    (result, do_containers-stop node f kind ∙ h)
total unknown node f kind (c, e, named) =
    let (result, h) = create_loop_total (at_most (create_needs node f)) node f c e named in
    (result, do_containers-unknown node f kind ∙ h)

pub do_containers_total :
    (node : SeizeNode) (f : SeizeFilter)
    → HasContainer f
    → (result : SeizeNode × SeizeFilter) × (do_containers node f ≡ ok result)
do_containers_total node f has = total f.up_type node f refl has

-- DoContainers of the create filter, with a container to copy that has a name, a capacity
-- AppLots and a list on the node that are below 2^63, returns. The containers that it puts on
-- the node are counted in scaleUpedCount, which does not pass the number of the item, the list
-- on the node grows by at most the room that AppLots leaves, and what is to be taken down on
-- the node stays.
pub do_containers_create :
    (node : SeizeNode) (f : SeizeFilter) (first : SeizeContainer) (lots : ℕ)
    → f.up_type ≡ create
    → f.create_container ≡ some first
    → is_named first ≡ true
    → f.app_lots ≡ pos lots
    → lots < 2 ^ 63
    → length node.scale_up < 2 ^ 63
    → (result : SeizeNode × SeizeFilter) × (do_containers node f ≡ ok result)
      × Grown node result.0 f result.1
      × (length result.0.scale_up ≤ length node.scale_up + (lots - length node.scale_up))
do_containers_create node f first lots kind has_first named e small few =
    let (result, h) =
      create_loop_total (at_most (create_needs node f)) node f first has_first named in
    let (grown, bound) = create_loop-Grown (at_most (create_needs node f)) node f result h in
    (
      result,
      do_containers-create node f kind ∙ h,
      grown,
      omega (arith, bound, at_most-create_needs node f lots e small few),
    )
