-- ===== src/Scale/Tasks/Running.antt =====
-- What DoTasks returns, and how often it calls the processor.
use mathlib.Core.List.{reverse}
use cattle.Prelude.{
  ℕ, zero, suc, ◌+◌, ◌-◌, ◌<◌, ◌≤◌, ◌≡◌, refl, ap, sym, ◌∙◌, List, [], ◌∷◌, ◌++◌, Option, none,
  some, Text, arith, append_assoc, append-nil, length, map, length-append,
}
use cattle.Scale.Ring.{Ring, upcoming, elements}
use cattle.Scale.Tasks.{Task, attempts, do_tasks}
use cattle.Scale.Tasks.Fifo.{serve, requeue, run-serve}

attempts-append : (p q : List Task) → attempts (p ++ q) ≡ attempts p + attempts q
unfolding attempts
attempts-append [] q = omega arith
attempts-append (t ∷ p) q = omega (arith, attempts-append p q)

-- A round uses up one attempt of the front task, or all that it has left.
attempts-requeue :
    (answer : Option Text) (t : Task) (q : List Task) (names : List Text)
    → attempts (requeue answer t q names).0 < attempts (t ∷ q)
unfolding attempts requeue
attempts-requeue (some name) t q names = omega arith
attempts-requeue none t q names =
    ground (arith, attempts-append q (record t { retry = t.retry - 1 } ∷ []))

module _ {W : Type 0} (process : Task → W → Option Text × W) where
  serve_total :
      (fuel : ℕ) (q : List Task) (names : List Text) (w : W)
      → attempts q < fuel
      → (out : List Text × W) × (serve process fuel q names w ≡ some out)
  unfolding serve
  serve_total zero q names w h = elim h [ ]
  serve_total (suc fuel) [] names w h = ((names, w), refl)
  serve_total (suc fuel) (t ∷ q) names w h =
      let next = requeue (process t w).0 t q names in
      serve_total fuel next.0 next.1 (process t w).1
        (omega (arith, attempts-requeue (process t w).0 t q names))

-- The processor, with a count of its calls beside the state of the outside world.
unfoldable pub counting :
    {W : Type 0} → (Task → W → Option Text × W) → Task → W × ℕ → Option Text × (W × ℕ)
counting process t (w, n) = let (answer, w') = process t w in (answer, (w', n + 1))

length-requeue :
    (answer : Option Text) (t : Task) (q : List Task) (names : List Text)
    → (length q ≤ length (requeue answer t q names).0)
      × (length (requeue answer t q names).1 + length (requeue answer t q names).0
          ≤ length names + length q + 1)
unfolding requeue
length-requeue (some name) t q names = (omega arith, omega (arith, length-append names (name ∷ [])))
length-requeue none t q names =
    ground (arith, length-append q (record t { retry = t.retry - 1 } ∷ []))

failed_requeue :
    (t : Task) (q : List Task) (names : List Text)
    → ((requeue none t q names).1 ≡ names)
      × (attempts (requeue none t q names).0 ≡ t.retry + attempts q)
unfolding requeue attempts
failed_requeue t q names = ground (arith, attempts-append q (record t { retry = t.retry - 1 } ∷ []))

-- The calls that a run makes, and the names that it collects.
record Tally (q : List Task) (names : List Text) (n : ℕ) (names' : List Text) (n' : ℕ)
    : Type 0 where
  each_once : n + length q ≤ n'
  no_more : n' ≤ n + attempts q
  named : length names' ≤ length names + length q

module _ {W : Type 0} (process : Task → W → Option Text × W) where
  serve-Tally :
      (fuel : ℕ) (q : List Task) (names : List Text) (w : W) (n : ℕ) (names' : List Text) (w' : W)
      (n' : ℕ)
      → serve (counting process) fuel q names (w, n) ≡ some (names', (w', n'))
      → Tally q names n names' n'
  unfolding serve counting attempts
  serve-Tally zero q names w n names' w' n' h = cc
  serve-Tally (suc fuel) [] names w n names' w' n' h = ground arith
  serve-Tally (suc fuel) (t ∷ q) names w n names' w' n' h =
      let answer = (process t w).0 in
      let next = requeue answer t q names in
      let rest = serve-Tally fuel next.0 next.1 (process t w).1 (n + 1) names' w' n' h in
      let used = attempts-requeue answer t q names in
      let kept = length-requeue answer t q names in
      record { each_once = omega arith; no_more = omega arith; named = omega arith }

  serve_all_ok :
      (name : Task → Text) (always : (t : Task) (w : W) → (process t w).0 ≡ some (name t))
      → (fuel : ℕ) (q : List Task) (names : List Text) (w : W) (names' : List Text) (w' : W)
      → serve process fuel q names w ≡ some (names', w')
      → names' ≡ names ++ map name q
  unfolding serve requeue
  serve_all_ok name always zero q names w names' w' h = cc
  serve_all_ok name always (suc fuel) [] names w names' w' h = cc (append-nil names)
  serve_all_ok name always (suc fuel) (t ∷ q) names w names' w' h =
      serve_all_ok name always fuel q (names ++ name t ∷ []) (process t w).1 names' w' (
        ap (λ a. serve process fuel (requeue a t q names).0 (requeue a t q names).1 (process t w).1)
          (sym (always t w))
        ∙ h)
      ∙ append_assoc names (name t ∷ []) (map name q)

  serve_all_failing :
      (always : (t : Task) (w : W) → (process t w).0 ≡ none)
      → (fuel : ℕ) (q : List Task) (names : List Text) (w : W) (n : ℕ)
      → (names' : List Text) (w' : W) (n' : ℕ)
      → serve (counting process) fuel q names (w, n) ≡ some (names', (w', n'))
      → (names' ≡ names) × (n' ≡ n + attempts q)
  unfolding serve counting attempts
  serve_all_failing always zero q names w n names' w' n' h = cc
  serve_all_failing always (suc fuel) [] names w n names' w' n' h = ground arith
  serve_all_failing always (suc fuel) (t ∷ q) names w n names' w' n' h =
      let next = requeue none t q names in
      let ih = serve_all_failing always fuel next.0 next.1 (process t w).1 (n + 1) names' w' n' (
        ap
          (λ a.
            serve (counting process) fuel (requeue a t q names).0 (requeue a t q names).1
              ((process t w).1, n + 1))
          (sym (always t w))
        ∙ h) in
      let failed = failed_requeue t q names in (ih.0 ∙ failed.0, omega (arith, ih.1, failed.1))

attempts-upcoming : (r : Ring Task) → attempts (upcoming r) ≡ attempts (elements r)
attempts-upcoming r =
    omega (
      arith,
      attempts-append r.ahead (reverse r.behind),
      attempts-append (reverse r.behind) r.ahead,
    )

length-upcoming : (r : Ring Task) → length (upcoming r) ≡ length (elements r)
length-upcoming r =
    omega
      (arith, length-append r.ahead (reverse r.behind), length-append (reverse r.behind) r.ahead)

module _ {W : Type 0} (process : Task → W → Option Text × W) (r : Ring Task) (w : W) where
  -- DoTasks with its fuel is the queue with enough fuel.
  do_tasks-serve :
      do_tasks process (some r) w ≡ serve process (suc (attempts (elements r))) (upcoming r) [] w
  unfolding do_tasks
  do_tasks-serve = run-serve process (suc (attempts (elements r))) r [] w

  pub do_tasks_total : (out : List Text × W) × (do_tasks process (some r) w ≡ some out)
  do_tasks_total =
      let (out, e) =
        serve_total process (suc (attempts (elements r))) (upcoming r) [] w
          (omega (arith, attempts-upcoming r)) in
      (out, do_tasks-serve ∙ e)

-- For any ring of tasks and any processor, DoTasks ends with the attempts that the tasks have
-- as fuel. It calls the processor at least once for each task and at most as often as the
-- tasks have attempts, and it returns at most one name for each task.
pub do_tasks_calls :
    {W : Type 0} (process : Task → W → Option Text × W) (r : Ring Task) (w : W)
    → (names : List Text) × (w' : W) × (n : ℕ) × (do_tasks (counting process) (some r) (w, 0)
        ≡ some (names, (w', n)))
      × (length (elements r) ≤ n)
      × (n ≤ attempts (elements r))
      × (length names ≤ length (elements r))
do_tasks_calls process r w =
    let (out, e) = do_tasks_total (counting process) r (w, 0) in
    let tally =
      serve-Tally process (suc (attempts (elements r))) (upcoming r) [] w 0 out.0 out.1.0 out.1.1
        (sym (do_tasks-serve (counting process) r (w, 0)) ∙ e) in
    (
      out.0,
      out.1.0,
      out.1.1,
      e,
      omega (arith, tally.each_once, length-upcoming r),
      omega (arith, tally.no_more, attempts-upcoming r),
      omega (arith, tally.named, length-upcoming r),
    )

-- When the processor succeeds on every task, in every state of the world, DoTasks returns the
-- name of each task of the ring, in the order in which the ring visits them from the cursor.
pub do_tasks_all_ok :
    {W : Type 0} (process : Task → W → Option Text × W) (name : Task → Text)
    → ((t : Task) (w : W) → (process t w).0 ≡ some (name t))
    → (r : Ring Task) (w : W)
    → (w' : W) × (do_tasks process (some r) w ≡ some (map name (upcoming r), w'))
do_tasks_all_ok process name always r w =
    let (out, e) = do_tasks_total process r w in
    let named =
      serve_all_ok process name always (suc (attempts (elements r))) (upcoming r) [] w out.0 out.1
        (sym (do_tasks-serve process r w) ∙ e) in
    (out.1, e ∙ ap (λ l. some (l, out.1)) named)

-- When the processor fails on every task, DoTasks returns no name and calls the processor
-- exactly as often as the tasks of the ring have attempts.
pub do_tasks_all_failing :
    {W : Type 0} (process : Task → W → Option Text × W)
    → ((t : Task) (w : W) → (process t w).0 ≡ none)
    → (r : Ring Task) (w : W)
    → (w' : W) × (do_tasks (counting process) (some r) (w, 0)
        ≡ some ([], (w', attempts (elements r))))
do_tasks_all_failing process always r w =
    let (out, e) = do_tasks_total (counting process) r (w, 0) in
    let all =
      serve_all_failing process always (suc (attempts (elements r))) (upcoming r) [] w 0 out.0
        out.1.0 out.1.1 (sym (do_tasks-serve (counting process) r (w, 0)) ∙ e) in
    let calls : out.1.1 ≡ attempts (elements r) = omega (arith, all.1, attempts-upcoming r) in
    (out.1.0, e ∙ λ i. some (all.0 i, (out.1.0, calls i)))
