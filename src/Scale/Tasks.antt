-- ===== src/Scale/Tasks.antt =====
-- cluster/swarm/task.go: the ring of tasks, and the loop that runs them. The processor's `Do` is a
-- parameter: from a task and the state of the outside world it returns the name of the container
-- that it handled, or `none` for an error, and the new state. `TaskID`, a random number that nothing
-- reads, is left out.
pub mod Fifo
pub mod Running
pub mod Sizes
pub mod Adding
use cattle.Prelude.{
  ℕ, zero, suc, ◌+◌, ◌-◌, ◌==◌, List, [], ◌∷◌, ◌++◌, Option, none, some, Text, Outcome, ok, panic,
  if◌then◌else◌,
}
use cattle.Cluster.Data.{Container}
use cattle.Scale.Ring.{Ring, lone_head, elements, next, prev, link, unlink_next}

-- The constants of common/define.go, and the -1 of `getTaskType`.
pub data TaskType : Type 0 where
  create destroy start stop unknown : TaskType

abbrev pub default_task_retry : ℕ
default_task_retry = 3

pub record Task : Type 0 where
  pub task_type : TaskType
  pub retry : ℕ
  pub container : Container

-- `Head` and `Current`; `none` where `Head` is nil.
abbrev pub Tasks : Type 0
Tasks = Option (Ring Task)

abbrev pub new_task : TaskType → Container → Task
new_task kind c = record { task_type = kind; retry = default_task_retry; container = c }

-- A slice of containers: `none` is the nil slice, which `AddTasks` tells from an empty one.
abbrev pub Containers : Type 0
Containers = Option (List Container)

-- Code that panics, and returns no error.
pub data NoError : Type 0 where

head_or_new : Tasks → Ring Task
head_or_new none = lone_head
head_or_new (some r) = r

-- The ring as AddTask makes it.
unfoldable pub with_task : Container → TaskType → Tasks → Tasks
unfolding head_or_new next link
with_task c kind tasks = some (next (link (new_task kind c) (head_or_new tasks)))

-- AddTask, for a container that is not nil. Its last debug line reads `Names[0]`.
unfoldable pub add_task : Container → TaskType → Tasks → Outcome NoError Tasks
unfolding with_task
add_task c kind tasks =
    let added = with_task c kind tasks in elim c.names [ [] ↦ panic | name ∷ names ↦ ok added ]

unfoldable pub fill : TaskType → List Container → List Task
fill kind [] = []
fill kind (c ∷ cs) = new_task kind c ∷ fill kind cs

link_all : TaskType → List Container → Ring Task → Ring Task
unfolding link
link_all kind [] r = r
link_all kind (c ∷ cs) r = link_all kind cs (link (new_task kind c) r)

-- Current = Head.Next()
to_first : Ring Task → Ring Task
to_first r = record { behind = []; ahead = elements r }

has_tasks : List Task → Ring Task → Ring Task → Ring Task
has_tasks [] filled r = r
has_tasks (t ∷ ts) filled r = filled

-- AddTasks. A ring that has only its head is left as it is.
unfoldable pub add_tasks : Containers → TaskType → Tasks → Tasks
unfolding fill link_all to_first has_tasks
add_tasks none kind tasks = tasks
add_tasks (some cs) kind none = some (record { behind = []; ahead = fill kind cs })
add_tasks (some cs) kind (some r) = some (has_tasks (elements r) (to_first (link_all kind cs r)) r)

replace_first : Task → List Task → List Task
replace_first t [] = []
replace_first t (_ ∷ a) = t ∷ a

-- t.Current.Value.Retry--, in place.
set_current : Task → Ring Task → Ring Task
unfolding replace_first
set_current t r = record r { ahead = replace_first t r.ahead }

-- What the loop of `DoTasks` does with the answer for the current task.
settle : Option Text → Task → Ring Task → List Text → Ring Task × List Text
unfolding next prev unlink_next set_current
settle (some name) t r names = (next (unlink_next (prev r)), names ++ name ∷ [])
settle none t r names =
    if t.retry == 0
    then (next (unlink_next (prev r)), names)
    else (next (set_current (record t { retry = t.retry - 1 }) r), names)

skip_of : List Task → List Task → Ring Task
unfolding next
skip_of b [] = next (record { behind = b; ahead = [] })
skip_of b (t ∷ a) = record { behind = b; ahead = t ∷ a }

-- if t.Current == t.Head { t.Current = t.Current.Next() }
skip_head : Ring Task → Ring Task
unfolding skip_of
skip_head r = skip_of r.behind r.ahead

-- The attempts that a list of tasks has left.
unfoldable pub attempts : List Task → ℕ
attempts [] = 0
attempts (t ∷ ts) = suc t.retry + attempts ts

module _ {W : Type 0} (process : Task → W → Option Text × W) where
  abbrev pub Runner : Type 0
  Runner = Ring Task → List Text → W → Option (List Text × W)

  -- One round: the loop ends where no element but `Head` is left.
  round : Runner → List Task → List Task → List Text → W → Option (List Text × W)
  unfolding settle
  round again b [] names w = some (names, w)
  round again b (t ∷ a) names w =
      let (answer, w') = process t w in
      let (r', names') = settle answer t (record { behind = b; ahead = t ∷ a }) names in
      again r' names' w'

  -- The loop, on fuel: `none` means that the fuel ran out.
  unfoldable pub run : ℕ → Runner
  unfolding round skip_head
  run zero r names w = none
  run (suc fuel) r names w = let s = skip_head r in round (run fuel) s.behind s.ahead names w

  -- DoTasks, with the number of attempts as fuel. A nil `Head` has length 0.
  unfoldable pub do_tasks : Tasks → W → Option (List Text × W)
  do_tasks none w = some ([], w)
  do_tasks (some r) w = run (suc (attempts (elements r))) r [] w
