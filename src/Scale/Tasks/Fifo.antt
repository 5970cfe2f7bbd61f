-- ===== src/Scale/Tasks/Fifo.antt =====
-- The ring of task.go is a queue: DoTasks takes the front task and puts a failed one at the back.
use mathlib.Core.List.{reverse, reverse-append}
use cattle.Prelude.{
  ℕ, zero, suc, ◌-◌, ◌==◌, ◌≡◌, refl, ap, sym, ◌∙◌, List, [], ◌∷◌, ◌++◌, Option, none, some, Text,
  if◌then◌else◌, append_assoc, append-nil, Bool-cases, inl, inr,
}
use cattle.Scale.Ring.{Ring, upcoming, remove_current}
use cattle.Scale.Tasks.{Task, settle, skip_head, round, run}

unfoldable pub requeue : Option Text → Task → List Task → List Text → List Task × List Text
requeue (some name) t q names = (q, names ++ name ∷ [])
requeue none t q names =
    if t.retry == 0 then (q, names) else (q ++ record t { retry = t.retry - 1 } ∷ [], names)

module _ (t : Task) (b a : List Task) (names : List Text) where
  abbrev at : Ring Task
  at = record { behind = b; ahead = t ∷ a }

  settle-requeue :
      (answer : Option Text)
      → (upcoming (settle answer t at names).0, (settle answer t at names).1)
        ≡ requeue answer t (a ++ reverse b) names
  unfolding settle requeue
  settle-requeue (some name) = rw (remove_current t b a)
  settle-requeue none = elim (Bool-cases (t.retry == 0)) [
    | inl last ↦ rw last (rw (remove_current t b a))
    | inr more ↦ rw more (
        ap (λ q. (q, names))
          (ap (λ q. a ++ q) (reverse-append (record t { retry = t.retry - 1 } ∷ []) b)
            ∙ sym (append_assoc a (reverse b) (record t { retry = t.retry - 1 } ∷ []))))
  ]

module _ {W : Type 0} (process : Task → W → Option Text × W) where
  -- The queue as a program: the reference for DoTasks.
  unfoldable pub serve : ℕ → List Task → List Text → W → Option (List Text × W)
  unfolding requeue
  serve zero q names w = none
  serve (suc fuel) [] names w = some (names, w)
  serve (suc fuel) (t ∷ q) names w =
      let (answer, w') = process t w in
      let (q', names') = requeue answer t q names in serve fuel q' names' w'

  abbrev pub Agrees : ℕ → Type 0
  Agrees fuel =
      (r : Ring Task) (names : List Text) (w : W)
      → run process fuel r names w ≡ serve fuel (upcoming r) names w

  -- One round of the loop is one round of the queue.
  round-serve :
      (fuel : ℕ) (ih : Agrees fuel) (t : Task) (b a : List Task) (names : List Text) (w : W)
      → round process (run process fuel) b (t ∷ a) names w
        ≡ serve (suc fuel) (t ∷ a ++ reverse b) names w
  unfolding round serve
  round-serve fuel ih t b a names w =
      let answer = (process t w).0 in
      let settled = settle answer t (at t b a names) names in
      ih settled.0 settled.1 (process t w).1
      ∙ ap (λ (p : List Task × List Text). serve fuel p.0 p.1 (process t w).1)
          (settle-requeue t b a names answer)

  from_head :
      (fuel : ℕ) (ih : Agrees fuel) (l : List Task) (names : List Text) (w : W)
      → round process (run process fuel) [] l names w ≡ serve (suc fuel) l names w
  unfolding round serve
  from_head fuel ih [] names w = refl
  from_head fuel ih (t ∷ l) names w =
      round-serve fuel ih t [] l names w ∙ ap (λ q. serve (suc fuel) (t ∷ q) names w) (append-nil l)

  run_step :
      (fuel : ℕ) (ih : Agrees fuel) (a b : List Task) (names : List Text) (w : W)
      → run process (suc fuel) (record { behind = b; ahead = a }) names w
        ≡ serve (suc fuel) (a ++ reverse b) names w
  unfolding run skip_head
  run_step fuel ih [] b names w = from_head fuel ih (reverse b) names w
  run_step fuel ih (t ∷ a) b names w = round-serve fuel ih t b a names w

  -- The loop over the ring refines a queue: with any fuel it returns what a queue returns that
  -- takes the front task, drops it when the processor succeeds or its retries are used up, and
  -- else puts it at the back with one retry less.
  pub run-serve : (fuel : ℕ) → Agrees fuel
  unfolding run serve
  run-serve zero r names w = refl
  run-serve (suc fuel) r names w = run_step fuel (run-serve fuel) r.ahead r.behind names w
