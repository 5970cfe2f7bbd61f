-- ===== src/Scale/Select/Kinds/Counts.antt =====
-- How many tasks the create and the start filter queue.
use cattle.Prelude.{
  ◌⊎◌, take, Bool, Text, ok, inr, ap, ℕ, zero, suc, ◌+◌, ◌-◌, ◌*◌, ◌≡◌, ◌≢◌, refl, List, [], ◌∷◌,
  Option, none, some, length, arith, pos,
}
use cattle.Cluster.Data.{Container}
use mathlib.Core.List.{Perm}
use mathlib.Core.List.Perm
use cattle.Scale.Tasks.{TaskType, create, Task, Tasks, Containers, add_tasks}
use cattle.Scale.Tasks.Adding.{queued}
use cattle.Scale.Tasks.Sizes.{length-add_tasks}
use cattle.Scale.Select.Base.{ContainerFilter, filter_container}
use cattle.Scale.Select.Kinds.{Filter, repeat_tasks, rounds, create_tasks, filter_tasks}

-- The ring is new, or has a task.
abbrev pub Ready : Tasks → Type 0
Ready tasks = (tasks ≡ none) ⊎ (queued tasks ≢ [])

nonempty : (l : List Task) (n : ℕ) → length l ≡ suc n → l ≢ []
nonempty l n h e = omega (arith, ap (length {A = Task}) e)

add_tasks-Ready :
    (c : Container) (cs : List Container) (kind : TaskType) (tasks : Tasks)
    → Ready tasks
    → Ready (add_tasks (some (c ∷ cs)) kind tasks)
add_tasks-Ready c cs kind tasks h = inr (
    nonempty (queued (add_tasks (some (c ∷ cs)) kind tasks)) (length cs + length (queued tasks))
      (omega (arith, length-add_tasks (c ∷ cs) kind tasks h)))

length-repeat_tasks :
    (n : ℕ) (c : Container) (cs : List Container) (tasks : Tasks)
    → Ready tasks
    → length (queued (repeat_tasks n (some (c ∷ cs)) tasks))
      ≡ n * length (c ∷ cs) + length (queued tasks)
unfolding repeat_tasks
length-repeat_tasks zero c cs tasks h = omega arith
length-repeat_tasks (suc n) c cs tasks h = omega (
  arith,
  length-repeat_tasks n c cs (add_tasks (some (c ∷ cs)) create tasks)
      (add_tasks-Ready c cs create tasks h),
  length-add_tasks (c ∷ cs) create tasks h,
)

minus_zero : (n : ℕ) → n - 0 ≡ n
minus_zero n = omega arith

-- AddTasks of a create filter with number `n` and containers queues `n` tasks for each of its
-- containers, on a ring that is new or has a task.
pub create_tasks_count :
    (f : ContainerFilter) (n : ℕ) (c : Container) (cs : List Container) (tasks : Tasks)
    → f.task_type ≡ create
    → f.number ≡ pos n
    → f.containers ≡ some (c ∷ cs)
    → Ready tasks
    → (tasks' : Tasks) × (filter_tasks f tasks ≡ ok tasks')
      × (length (queued tasks') ≡ n * length (c ∷ cs) + length (queued tasks))
unfolding filter_tasks create_tasks rounds
create_tasks_count f n c cs tasks kind number chosen ready = (
  repeat_tasks n (some (c ∷ cs)) tasks,
  rw (kind, number, chosen, minus_zero n) refl,
  length-repeat_tasks n c cs tasks ready,
)

module _ (match_string : Text → Text → Option Bool) (kind : TaskType) (filters : List Filter)
    (n : ℕ) where
  abbrev fits : Container → Bool
  fits = filter_container match_string kind filters

  -- The first `n` matches, or all of them.
  abbrev started : List Container → Containers
  started [] = none
  started (c ∷ cs) = some (take n (c ∷ cs))

-- A task as often as a number says.
abbrev pub copies : ℕ → Task → List Task
copies zero t = []
copies (suc n) t = t ∷ copies n t
