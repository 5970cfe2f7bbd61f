-- ===== src/Mesos/Busy/Erased.antt =====
-- cluster/mesos/cluster.go: what LaunchTask leaves of an agent once the driver has answered.
use cattle.Prelude.{
  ◌≡◌, refl, sym, ◌∙◌, subst, Bool, true, false, List, [], ◌∷◌, ◌++◌, Option, none, some, Text,
  text, text_eq, text_eq_refl, text_eq_distinct, text_eq_apart, All, any, map, ok, Bool-cases, ◌⊎◌,
  inl, inr,
}
use cattle.Cluster.Data.{lookup, insert, delete}
use cattle.Cluster.Config.Stored.{lookup-insert}
use cattle.Engine.Data.{Engine, ApiError, disconnected}
use cattle.Engine.Call.{swarm_event}
use cattle.Engine.Health.{disconnect, is_disconnected, emit}
use cattle.Engine.Mirror.{lookup-delete}
use cattle.Mesos.Agents.{Offer, Task, Agent, add_task, empty, is_nil}
use cattle.Mesos.Agents as Agents
use cattle.Mesos.Offers.{Mesos, emptied, remove_offer, erase_offers, launched}
use cattle.Mesos.Entries.{and_false, or_true, is_nil-insert}
use cattle.Mesos.Busy.{IsOwn, IsBusy}

-- Every entry of the map has a key of the list.
abbrev Covers : {V : Type 0} → List (Text × V) → List (Text × V) → Type 0
Covers os m = All (λ p. any (λ q. text_eq q.0 p.0) os ≡ true) m

module _ {V : Type 0} where
  Covers-cons : (o : Text × V) (os m : List (Text × V)) → Covers os m → Covers (o ∷ os) m
  unfolding any
  Covers-cons o os [] h = tt
  Covers-cons o os ((k, v) ∷ m) h = (or_true (text_eq o.0 k) _ h.0, Covers-cons o os m h.1)

  Covers-refl : (m : List (Text × V)) → Covers m m
  unfolding any
  Covers-refl [] = tt
  Covers-refl ((k, v) ∷ m) = (rw (text_eq_refl k) refl, Covers-cons (k, v) m m (Covers-refl m))

  Covers-delete :
      (k : Text) (v : V) (os m : List (Text × V)) → Covers ((k, v) ∷ os) m → Covers os (delete k m)
  unfolding any delete
  Covers-delete k v os [] h = tt
  Covers-delete k v os ((j, u) ∷ m) h = elim (Bool-cases (text_eq j k)) [
    | inl same ↦ rw same (Covers-delete k v os m h.1)
    | inr other ↦
        let apart = text_eq_distinct k j (λ e. text_eq_apart j k other (sym e)) in
        rw other (rw apart at h.0, Covers-delete k v os m h.1)
  ]

  Covers-nil : (m : List (Text × V)) → Covers [] m → is_nil m ≡ true
  unfolding any
  Covers-nil [] h = refl
  Covers-nil ((k, v) ∷ m) h = cc h.0

nil_eq : {V : Type 0} (m : List V) → is_nil m ≡ true → m ≡ []
nil_eq [] h = refl
nil_eq (x ∷ m) h = cc h

nil_tasks : (a : Agent) → a.offers ≡ [] → is_nil a.tasks ≡ empty a
unfolding empty
nil_tasks a no_offer = rw no_offer refl

idle_tasks : (a : Agent) → empty a ≡ true → is_nil a.tasks ≡ true
unfolding empty
idle_tasks a idle = elim (Bool-cases (is_nil a.offers)) [
  | inl none_left ↦ rw none_left at idle
  | inr some_left ↦ let h = rw some_left at idle in cc h
]

-- The tasks of the agent, once the driver has launched the task or refused it.
abbrev pub tasks_after : Agent → Task → Option ApiError → List (Text × Task)
unfolding insert
tasks_after a t none = insert t.task_id t a.tasks
tasks_after a t (some x) = a.tasks

disconnect_returns :
    (e : Engine) → e.has_monitor ≡ true → (r : Engine × List Text) × (disconnect e ≡ ok r)
unfolding disconnect
disconnect_returns e monitored = elim (Bool-cases (is_disconnected e.engine_state)) [
  | inl gone ↦ ((e, []), rw gone refl)
  | inr connected ↦ (
    (record e { engine_state = disconnected }, emit (text "engine_disconnect") e),
    rw (connected, monitored) refl,
  )
]

module _ {W : Type 0} where
  -- An agent has these tasks and no offer; without a task it is not among the agents.
  abbrev pub HasOnly : Text → List (Text × Task) → Mesos W → Type 0
  unfolding lookup
  HasOnly key ts c =
      ((is_nil ts ≡ true) × (lookup key c.agents ≡ none))
      ⊎ ((b : Agent) × (lookup key c.agents ≡ some b)
          × (b.offers ≡ [])
          × (b.tasks ≡ ts)
          × (is_nil ts ≡ false))

  erase_gone :
      (key : Text) (os : List (Text × Offer)) (c : Mesos W)
      → lookup key c.agents ≡ none
      → All (IsOwn key) os
      → erase_offers os c ≡ ok c
  unfolding erase_offers remove_offer
  erase_gone key [] c gone own = refl
  erase_gone key ((k, o) ∷ os) c gone own =
      let gone' : lookup o.offer_agent c.agents ≡ none =
        subst (λ x. lookup x c.agents ≡ none) (sym own.0.0) gone in
      rw (gone', remove_offer) (erase_gone key os c gone own.1)

  -- removeOffer of an offer of the agent, by what is left of the agent.
  remove_last :
      (o : Offer) (a : Agent) (c : Mesos W)
      → lookup o.offer_agent c.agents ≡ some a
      → a.engine.has_monitor ≡ true
      → empty (Agents.remove_offer o.offer_id a).0 ≡ true
      → (r : Bool × Mesos W) × (remove_offer o c ≡ ok r) × (lookup o.offer_agent r.1.agents ≡ none)
  unfolding remove_offer emptied Agents.remove_offer
  remove_last o a c here monitored idle =
      let (gone, h) = disconnect_returns a.engine monitored in
      (
        (
          (Agents.remove_offer o.offer_id a).1,
          record c {
            agents = delete o.offer_agent c.agents;
            events = c.events ++ map swarm_event gone.1;
          },
        ),
        rw (here, remove_offer, idle, emptied, h) refl,
        lookup-delete o.offer_agent c.agents,
      )

  remove_some :
      (o : Offer) (a : Agent) (c : Mesos W)
      → lookup o.offer_agent c.agents ≡ some a
      → empty (Agents.remove_offer o.offer_id a).0 ≡ false
      → (r : Bool × Mesos W) × (remove_offer o c ≡ ok r)
        × (lookup o.offer_agent r.1.agents ≡ some (Agents.remove_offer o.offer_id a).0)
  unfolding remove_offer emptied
  remove_some o a c here still =
      let a' = (Agents.remove_offer o.offer_id a).0 in
      (
        (
          (Agents.remove_offer o.offer_id a).1,
          record c { agents = insert o.offer_agent a' c.agents },
        ),
        rw (here, remove_offer, still, emptied) refl,
        lookup-insert o.offer_agent a' c.agents,
      )

  -- The loop over the offers of an agent, from any part of it on.
  erase_only :
      (os : List (Text × Offer)) (key : Text) (a : Agent) (c : Mesos W)
      → lookup key c.agents ≡ some a
      → a.engine.has_monitor ≡ true
      → empty a ≡ false
      → All (IsOwn key) os
      → Covers os a.offers
      → (d : Mesos W) × (erase_offers os c ≡ ok d) × HasOnly key a.tasks d
  unfolding erase_offers empty
  erase_only [] key a c here monitored busy own covered =
      let no_offer = nil_eq a.offers (Covers-nil a.offers covered) in
      (c, refl, inr (a, here, no_offer, refl, nil_tasks a no_offer ∙ busy))
  erase_only ((k, o) ∷ os) key a c here monitored busy own covered =
      let a' = (Agents.remove_offer o.offer_id a).0 in
      let here' : lookup o.offer_agent c.agents ≡ some a =
        subst (λ x. lookup x c.agents ≡ some a) (sym own.0.0) here in
      elim (Bool-cases (empty a')) [
        | inl idle ↦
            let (r, removed, gone) = remove_last o a c here' monitored idle in
            let gone' = subst (λ x. lookup x r.1.agents ≡ none) own.0.0 gone in
            (r.1, rw removed (erase_gone key os r.1 gone' own.1), inl (idle_tasks a' idle, gone'))
        | inr still ↦
            let (r, removed, left) = remove_some o a c here' still in
            let left' = subst (λ x. lookup x r.1.agents ≡ some a') own.0.0 left in
            let covered' =
              subst (λ x. Covers os (delete x a.offers)) own.0.1
                (Covers-delete k o os a.offers covered) in
            let (d, erased, only) = erase_only os key a' r.1 left' monitored still own.1 covered' in
            (d, rw removed erased, only)
      ]

  -- For an agent that is busy, whose offers are its own, and whose engine has been connected:
  -- when the driver has answered LaunchTask, the erasing of the offers does not panic, and the
  -- agent has no offer left. It has the tasks that it had, and the new one when the driver
  -- took it; an agent that is left without a task is no longer among the agents.
  pub launched_erases :
      (key : Text) (a : Agent) (t : Task) (answer : Option ApiError) (c : Mesos W)
      → lookup key c.agents ≡ some a
      → IsBusy (key, a)
      → a.engine.has_monitor ≡ true
      → (d : Mesos W) × (launched key a t answer c ≡ ok d) × HasOnly key (tasks_after a t answer) d
  unfolding launched add_task empty
  launched_erases key a t (some x) c here busy monitored =
      erase_only a.offers key a c here monitored busy.0 busy.1 (Covers-refl a.offers)
  launched_erases key a t none c here busy monitored =
      erase_only a.offers key (add_task t a)
        (record c { agents = insert key (add_task t a) c.agents })
        (lookup-insert key (add_task t a) c.agents) monitored
        (rw (is_nil-insert t.task_id t a.tasks) (and_false (is_nil a.offers))) busy.1
        (Covers-refl a.offers)
