-- ===== src/Scale/Tasks/Sizes.antt =====
-- How many tasks AddTasks leaves in the ring.
use mathlib.Core.List.{reverse}
use cattle.Prelude.{
  suc, ◌+◌, ◌≡◌, ◌≢◌, refl, List, [], ◌∷◌, ◌++◌, none, some, length, length-append, length-reverse,
  arith, ◌⊎◌, inl, inr,
}
use cattle.Cluster.Data.{Container}
use cattle.Scale.Ring.{Ring, elements, link}
use cattle.Scale.Tasks.{
  TaskType, Task, Tasks, new_task, add_tasks, fill, link_all, to_first, has_tasks,
}
use cattle.Scale.Tasks.Adding.{queued}

length-link :
    (x : Task) (b a : List Task)
    → length (elements (link x (record { behind = b; ahead = a }))) ≡ suc (length (reverse b ++ a))
unfolding link
length-link x b [] = omega (arith, length-append (reverse b) [])
length-link x b (c ∷ a) = omega (
  arith,
  length-append (reverse (x ∷ c ∷ b)) a,
  length-append (reverse b) (c ∷ a),
  length-reverse (x ∷ c ∷ b),
  length-reverse b,
)

length-fill : (kind : TaskType) (cs : List Container) → length (fill kind cs) ≡ length cs
unfolding fill
length-fill kind [] = refl
length-fill kind (c ∷ cs) = omega (arith, length-fill kind cs)

length-link_all :
    (kind : TaskType) (cs : List Container) (r : Ring Task)
    → length (elements (link_all kind cs r)) ≡ length cs + length (elements r)
unfolding link_all
length-link_all kind [] r = omega arith
length-link_all kind (c ∷ cs) r = omega (
  arith,
  length-link_all kind cs (link (new_task kind c) r),
  length-link (new_task kind c) r.behind r.ahead,
)

-- As many tasks more as there are containers, unless the ring has its head only.
pub length-add_tasks :
    (cs : List Container) (kind : TaskType) (tasks : Tasks)
    → (tasks ≡ none) ⊎ (queued tasks ≢ [])
    → length (queued (add_tasks (some cs) kind tasks)) ≡ length cs + length (queued tasks)
unfolding add_tasks
length-add_tasks cs kind none h = omega (arith, length-fill kind cs)
length-add_tasks cs kind (some r) h = at (elements r) refl
  where
    at :
        (l : List Task)
        → elements r ≡ l
        → length (elements (has_tasks l (to_first (link_all kind cs r)) r))
          ≡ length cs + length (elements r)
    at [] e = elim h [ inl isnone ↦ cc | inr more ↦ absurd (more e) ]
    at (t ∷ l) e = length-link_all kind cs r
