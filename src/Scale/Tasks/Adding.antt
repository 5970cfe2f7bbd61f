-- ===== src/Scale/Tasks/Adding.antt =====
-- AddTask and AddTasks put new tasks in the ring and lose none, but for a ring with its head only.
use mathlib.Core.List.{reverse, reverse-append, Perm, perm_middle}
use mathlib.Core.List.Perm
use cattle.Prelude.{
  ◌≡◌, ◌≢◌, refl, sym, List, [], ◌∷◌, ◌++◌, Option, none, some, append_assoc, append-nil, Text, ◌⊎◌,
  inl, inr, ok,
}
use cattle.Cluster.Data.{Container}
use cattle.Scale.Ring.{Ring, elements, next, link}
use cattle.Scale.Tasks.{
  TaskType, Task, Tasks, new_task, add_task, with_task, add_tasks, fill, link_all, to_first,
  has_tasks, run, do_tasks,
}

-- The tasks of a ring in its order; none where `Head` is nil.
abbrev pub queued : Tasks → List Task
queued none = []
queued (some r) = elements r

module _ {ℓ} {A : Type ℓ} where
  reverse_onto : (x : A) (b a : List A) → reverse (x ∷ b) ++ a ≡ reverse b ++ x ∷ a
  reverse_onto x b a = rw (reverse-append (x ∷ []) b) (append_assoc (reverse b) (x ∷ []) a)

  elements-next :
      (b a : List A) → elements (next (record { behind = b; ahead = a })) ≡ reverse b ++ a
  unfolding next
  elements-next b [] = sym (append-nil (reverse b))
  elements-next b (c ∷ a) = reverse_onto c b a

  elements-link-perm :
      (x : A) (b a : List A)
      → Perm (elements (link x (record { behind = b; ahead = a }))) (x ∷ reverse b ++ a)
  unfolding link
  elements-link-perm x b [] = rw (append-nil (reverse b)) (Perm.refl _)
  elements-link-perm x b (c ∷ a) = rw (reverse_onto x (c ∷ b) a) (
      Perm.trans (perm_middle (reverse (c ∷ b)) a)
        (Perm.cons x (rw (reverse_onto c b a) (Perm.refl _))))

with_task-perm :
    (c : Container) (kind : TaskType) (tasks : Tasks)
    → Perm (queued (with_task c kind tasks)) (new_task kind c ∷ queued tasks)
unfolding with_task
with_task-perm c kind none = Perm.refl _
with_task-perm c kind (some r) =
    let linked = link (new_task kind c) r in
    rw (elements-next linked.behind linked.ahead)
      (elements-link-perm (new_task kind c) r.behind r.ahead)

-- AddTask leaves the tasks of the ring and adds one new task with the default retries, up to
-- order, whatever the ring was before, for a container with a name.
pub add_task-perm :
    (c : Container) (kind : TaskType) (tasks : Tasks) (name : Text) (names : List Text)
    → c.names ≡ name ∷ names
    → (tasks' : Tasks) × (add_task c kind tasks ≡ ok tasks')
      × Perm (queued tasks') (new_task kind c ∷ queued tasks)
unfolding add_task
add_task-perm c kind tasks name names e =
    (with_task c kind tasks, rw e refl, with_task-perm c kind tasks)

link_all-perm :
    (kind : TaskType) (cs : List Container) (r : Ring Task)
    → Perm (elements (link_all kind cs r)) (fill kind cs ++ elements r)
unfolding link_all fill
link_all-perm kind [] r = Perm.refl _
link_all-perm kind (c ∷ cs) r =
    let first = new_task kind c in
    Perm.trans (link_all-perm kind cs (link first r)) (
      Perm.trans (Perm.append_left (fill kind cs) (elements-link-perm first r.behind r.ahead))
        (perm_middle (fill kind cs) (elements r)))

-- AddTasks of a slice that is not nil leaves the tasks of the ring and adds one new task for
-- each container, up to order, when the ring is new or has a task.
pub add_tasks-perm :
    (cs : List Container) (kind : TaskType) (tasks : Tasks)
    → (tasks ≡ none) ⊎ (queued tasks ≢ [])
    → Perm (queued (add_tasks (some cs) kind tasks)) (fill kind cs ++ queued tasks)
unfolding add_tasks
add_tasks-perm cs kind none h = rw (append-nil (fill kind cs)) (Perm.refl _)
add_tasks-perm cs kind (some r) h = at (elements r) refl
  where
    at :
        (l : List Task)
        → elements r ≡ l
        → Perm
            (elements (has_tasks l (to_first (link_all kind cs r)) r))
            (fill kind cs ++ elements r)
    at [] e = elim h [ inl isnone ↦ cc | inr more ↦ absurd (more e) ]
    at (t ∷ l) e = link_all-perm kind cs r

-- After AddTasks of an empty slice on a new ring, a further AddTasks loses its tasks: DoTasks
-- then calls the processor for none of them and returns no name.
pub add_tasks_dropped :
    {W : Type 0} (process : Task → W → Option Text × W) (cs : List Container)
    (kind kind' : TaskType) (w : W)
    → do_tasks process (add_tasks (some cs) kind (add_tasks (some []) kind' none)) w ≡ some ([], w)
unfolding add_tasks do_tasks run
add_tasks_dropped process cs kind kind' w = refl
