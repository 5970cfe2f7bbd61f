-- ===== src/Mesos/Busy/Life.antt =====
-- cluster/mesos: the agents of a cluster over time.
use cattle.Prelude.{
  any, text_eq, inl, inr, if◌then◌else◌, Option-cases, All, ◌≡◌, refl, true, List, [], ◌∷◌, Option,
  some, Text, text_eq_refl, ok,
}
use cattle.Cluster.Data.{lookup, delete}
use cattle.Cluster.Config.Stored.{lookup-insert}
use cattle.Engine.Data.{ApiError}
use cattle.Mesos.Entries.{or_true, All-insert, All-lookup}
use cattle.Mesos.Agents.{is_some, Offer, Task, Agent, remove_task, empty}
use cattle.Mesos.Offers.{Mesos, Outside, expire, offer_rescinded, resource_offers, launched}
use cattle.Mesos.Tasks.{TaskStatus, monitor, drop_task, first_status}
use cattle.Mesos.Busy.{
  IsBusyOr, AllBusy, resource_offers-AllBusy, rescinded-AllBusy, expire-AllBusy, launched-AllBusy,
}

-- A longer list of identifiers asks for less.
Busy-more :
    (key : Text) (failed : List Text) (m : List (Text × Agent))
    → All (IsBusyOr failed) m
    → All (IsBusyOr (key ∷ failed)) m
unfolding any
Busy-more key failed [] h = tt
Busy-more key failed ((k, a) ∷ m) h = (
  (
    elim h.0.0 [
      | inl busy ↦ inl busy
      | inr left ↦ inr (or_true (text_eq key k) (any (λ j. text_eq j k) failed) left)
    ],
    h.0.1,
  ),
  Busy-more key failed m h.1,
)

module _ {W : Type 0} where
  -- What happens to the agents, but for the end of LaunchTask.
  pub data Step (out : Outside W) : Mesos W → Mesos W → Type 0 where
    offered : {c d : Mesos W} (os : List Offer) → resource_offers out os c ≡ ok d → Step out c d
    rescinded : {c d : Mesos W} (id : Text) → offer_rescinded id c ≡ ok d → Step out c d
    expired : {c d : Mesos W} (o : Offer) → expire out o c ≡ ok d → Step out c d
    ran :
        {c d : Mesos W} (key : Text) (a : Agent) (t : Task) (answer : Option ApiError)
        → lookup key c.agents ≡ some a
        → launched key a t answer c ≡ ok d
        → Step out c d

  -- Steps, and the first statuses of launched tasks. The list has the agents that LaunchTask took a task
  -- from, since its first status was an error.
  pub data Steps (out : Outside W) : List Text → Mesos W → Mesos W → Type 0 where
    start : (c : Mesos W) → Steps out [] c c
    more :
        {failed : List Text} {c d e : Mesos W}
        → Steps out failed c d
        → Step out d e
        → Steps out failed c e
    told :
        {failed : List Text} {c d : Mesos W} (key id : Text) (s : TaskStatus)
        → Steps out failed c d
        → Steps out
            (if is_some (monitor s).error_text then key ∷ failed else failed)
            c
            (first_status key id s d)

  Step-AllBusy :
      (out : Outside W) (failed : List Text) {c d : Mesos W}
      → AllBusy failed c
      → Step out c d
      → AllBusy failed d
  Step-AllBusy out failed {c} {d} busy (offered os h) =
      resource_offers-AllBusy failed out os c d busy h
  Step-AllBusy out failed {c} {d} busy (rescinded id h) = rescinded-AllBusy failed id c d busy h
  Step-AllBusy out failed {c} {d} busy (expired o h) = expire-AllBusy failed out o c d busy h
  Step-AllBusy out failed {c} {d} busy (ran key a t answer here h) =
      launched-AllBusy failed key a t answer c d here busy h

  drop_task-AllBusy :
      (failed : List Text) (key id : Text) (c : Mesos W)
      → AllBusy failed c
      → AllBusy (key ∷ failed) (drop_task key id c)
  unfolding drop_task remove_task any
  drop_task-AllBusy failed key id c busy = elim (Option-cases (lookup key c.agents)) [
    | inl gone ↦ rw (gone, drop_task) (Busy-more key failed c.agents busy)
    | inr (a, here) ↦
        rw (here, drop_task)
          (All-insert (IsBusyOr (key ∷ failed)) key (remove_task id a).0 c.agents
            (
              inr (rw (text_eq_refl key) refl),
              (All-lookup (IsBusyOr failed) key a c.agents here busy).1,
            )
            (Busy-more key failed c.agents busy))
  ]

  told-AllBusy :
      (failed : List Text) (key id : Text) (s : TaskStatus) (c : Mesos W)
      → AllBusy failed c
      → AllBusy
          (if is_some (monitor s).error_text then key ∷ failed else failed)
          (first_status key id s c)
  unfolding first_status
  told-AllBusy failed key id s c busy = elim (Option-cases (monitor s).error_text) [
    | inl fine ↦ rw (fine, first_status) busy
    | inr (x, fails) ↦ rw (fails, first_status) (drop_task-AllBusy failed key id c busy)
  ]

  -- From a cluster without agents, in every order in which offers come, are rescinded, run
  -- out, and are used up by tasks that the driver launches or refuses, and in which the first
  -- statuses of tasks come: every agent of the cluster has an offer or a task, but for agents
  -- that LaunchTask took a task from because its first status was an error, and each offer of
  -- an agent is an offer of that agent and stands under its own identifier.
  pub Steps-AllBusy :
      (out : Outside W) {failed : List Text} {c d : Mesos W}
      → c.agents ≡ []
      → Steps out failed c d
      → AllBusy failed d
  Steps-AllBusy out none_yet (start c) = rw none_yet tt
  Steps-AllBusy out {failed} none_yet (more before step) =
      Step-AllBusy out failed (Steps-AllBusy out none_yet before) step
  Steps-AllBusy out none_yet (told key id s before) =
      told-AllBusy _ key id s _ (Steps-AllBusy out none_yet before)

  -- When an agent has no offer and one task, and the first status of the task is an error,
  -- LaunchTask takes the task from the agent and leaves the agent in the cluster with neither
  -- an offer nor a task.
  pub failed_task_idles :
      (key : Text) (a : Agent) (t : Task) (s : TaskStatus) (x : Text) (c : Mesos W)
      → lookup key c.agents ≡ some a
      → a.offers ≡ []
      → a.tasks ≡ (t.task_id, t) ∷ []
      → (monitor s).error_text ≡ some x
      → (b : Agent) × (lookup key (first_status key t.task_id s c).agents ≡ some b)
        × (empty b ≡ true)
  unfolding first_status drop_task remove_task empty delete
  failed_task_idles key a t s x c here no_offer one_task fails = (
    (remove_task t.task_id a).0,
    rw (fails, first_status, here, drop_task)
        (lookup-insert key (remove_task t.task_id a).0 c.agents),
    rw (no_offer, one_task, text_eq_refl t.task_id) refl,
  )
