-- ===== src/Scale/Examples/Queueing.antt =====
-- Rings of tasks, run with concrete processors.
use cattle.Prelude.{
  rune_width, ◌==◌, if◌then◌else◌, ℕ, ◌≡◌, refl, List, [], ◌∷◌, ◌++◌, Option, none, some, Text,
  text, negsuc, ok, length, inr, ◌≤◌, ◌+◌,
}
use cattle.Cluster.Data.{Container, EngineData}
use cattle.Scale.Examples.{web, exact, node_one}
use cattle.Scale.Ring.{Ring, elements, upcoming}
use cattle.Scale.Tasks.{create, stop, Task, new_task, fill, do_tasks, add_tasks, attempts, run}
use cattle.Scale.Tasks.Adding.{queued, add_tasks-perm, add_tasks_dropped}
use cattle.Scale.Tasks.Running.{counting, do_tasks_calls}
use cattle.Scale.Tasks.Fifo.{serve, run-serve}
use cattle.Scale.Select.Kinds.{Environment, ScaleItem}
use cattle.Scale.Run.{queue_items, scale}
use cattle.Scale.Run.Ending.{scale_ends}
use mathlib.Core.List.{Perm}

abbrev two : Ring Task
two = record { behind = new_task stop web ∷ []; ahead = new_task create web ∷ [] }

-- The world counts the calls; the name of a task is that of its container.
abbrev succeed : Task → ℕ → Option Text × ℕ
succeed t w = (some t.container.ident, w + 1)

abbrev fail : Task → ℕ → Option Text × ℕ
fail t w = (none, w + 1)

-- Fails on every call but the third.
abbrev third : Task → ℕ → Option Text × ℕ
third t w = (if w == 2 then some t.container.ident else none, w + 1)

do_tasks_calls_example :
    (names : List Text) × (w' : ℕ) × (n : ℕ) × (do_tasks (counting third) (some two) (0, 0)
      ≡ some (names, (w', n)))
    × (2 ≤ n)
    × (n ≤ attempts (elements two))
    × (length names ≤ 2)
do_tasks_calls_example = do_tasks_calls third two 0

run-serve_example : run third 3 two [] 0 ≡ serve third 3 (upcoming two) [] 0
run-serve_example = run-serve third 3 two [] 0

add_tasks-perm_example :
    Perm
      (queued (add_tasks (some (web ∷ web ∷ [])) stop (some two)))
      (fill stop (web ∷ web ∷ []) ++ elements two)
add_tasks-perm_example = add_tasks-perm (web ∷ web ∷ []) stop (some two) (inr (λ e. cc e))

add_tasks_dropped_example :
    do_tasks succeed (add_tasks (some (web ∷ [])) stop (add_tasks (some []) create none)) 0
    ≡ some ([], 0)
add_tasks_dropped_example = add_tasks_dropped succeed (web ∷ []) stop create 0

abbrev plain : Environment
plain = record {
  match_string = exact;
  marshal = λ s. [];
  visit_groups = λ g. g;
  visit_apps = λ g. g;
}

abbrev stop_one : ScaleItem
stop_one = record {
  item_filters = text "app==web" ∷ [];
  item_number = negsuc 0;
  item_envs = text "TASK_TYPE=stop" ∷ [];
}

abbrev engines : List (EngineData × List Container)
engines = (node_one, web ∷ web ∷ []) ∷ []

stop_one_queued :
    queue_items plain engines (stop_one ∷ []) none ≡ ok (add_tasks (some (web ∷ [])) stop none)
unfolding queue_items rune_width
stop_one_queued = refl

scale_ends_example :
    (names : List Text) × (w' : ℕ) × (do_tasks third (add_tasks (some (web ∷ [])) stop none) 0
      ≡ some (names, w'))
    × (scale plain engines third (stop_one ∷ []) 0 ≡ ok (some ([], w')))
scale_ends_example =
    scale_ends plain engines third (stop_one ∷ []) 0 (add_tasks (some (web ∷ [])) stop none)
      stop_one_queued
