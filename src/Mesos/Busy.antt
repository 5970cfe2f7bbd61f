-- ===== src/Mesos/Busy.antt =====
-- cluster/mesos/cluster.go and scheduler.go: the agents that a cluster keeps.
pub mod Life
pub mod Erased
use cattle.Prelude.{
  any, ◌⊎◌, ◌≡◌, refl, sym, ap, ◌∙◌, subst, Bool, ◌&&◌, true, false, List, [], ◌∷◌, ◌++◌, Option,
  none, some, Text, text, text_eq, text_eq→eq, text_eq_refl, All, Outcome, ok, err, panic, ◌>>=◌,
  >>=-eq-ok, ok-injective, Bool-cases, Option-cases, inl, inr, if◌then◌else◌,
}
use cattle.Cluster.Data.{lookup, insert, delete}
use cattle.Cluster.Config.Stored.{lookup-insert}
use cattle.Engine.Data.{ApiError}
use cattle.Engine.Health.{disconnect}
use cattle.Engine.Call.{Machine}
use cattle.Mesos.Agents.{
  Offer, Task, Agent, new_agent, add_task, remove_task, empty, is_nil, docker_port,
}
use cattle.Mesos.Agents as Agents
use cattle.Mesos.Offers.{
  Mesos, Outside, add_offer, emptied, remove_offer, expire, find_offer, offer_rescinded, registered,
  connected, introduced, resource_offer, resource_offers, erase_offers, launched,
}
use cattle.Mesos.Tasks.{TaskStatus, monitor, drop_task, first_status}
use cattle.Mesos.Entries.{
  All-insert, All-delete, All-lookup, and_false, insert_twice, is_nil-insert,
}

-- An offer of the agent, under its own identifier.
abbrev pub IsOwn : Text → Text × Offer → Type 0
IsOwn k p = (p.1.offer_agent ≡ k) × (p.0 ≡ p.1.offer_id)

-- An agent under its identifier that has an offer or a task, and whose offers are its own.
abbrev pub IsBusy : Text × Agent → Type 0
IsBusy (k, a) = (empty a ≡ false) × All (IsOwn k) a.offers

-- The same, but for an agent whose identifier is in a list, which may be left with nothing.
abbrev pub IsBusyOr : List Text → Text × Agent → Type 0
IsBusyOr failed (k, a) =
    ((empty a ≡ false) ⊎ (any (λ j. text_eq j k) failed ≡ true)) × All (IsOwn k) a.offers

offer-IsBusyOr :
    (failed : List Text) (o : Offer) (a : Agent)
    → All (IsOwn o.offer_agent) a.offers
    → IsBusyOr failed (o.offer_agent, Agents.add_offer o a)
unfolding Agents.add_offer empty
offer-IsBusyOr failed o a own = (
  inl (rw (is_nil-insert o.offer_id o a.offers) refl),
  All-insert (IsOwn o.offer_agent) o.offer_id o a.offers (refl, refl) own,
)

abbrev pub AllBusy : {W : Type 0} → List Text → Mesos W → Type 0
AllBusy failed c = All (IsBusyOr failed) c.agents

module _ {W : Type 0} (failed : List Text) where
  emptied-AllBusy :
      (k : Text) (a : Agent) (c d : Mesos W)
      → All (IsOwn k) a.offers
      → AllBusy failed c
      → emptied k a c ≡ ok d
      → AllBusy failed d
  unfolding emptied
  emptied-AllBusy k a c d own busy h = elim (Bool-cases (empty a)) [
    | inl idle ↦
        let h' = rw idle at h in
        let (r, gone, end) = >>=-eq-ok (disconnect a.engine) _ h' in
        subst (AllBusy failed) (ok-injective _ d end) (All-delete (IsBusyOr failed) k c.agents busy)
    | inr is_busy ↦
        let h' = rw is_busy at h in
        subst (AllBusy failed) (ok-injective _ d h')
          (All-insert (IsBusyOr failed) k a c.agents (inl is_busy, own) busy)
  ]

  remove_offer-AllBusy :
      (o : Offer) (c : Mesos W) (r : Bool × Mesos W)
      → AllBusy failed c
      → remove_offer o c ≡ ok r
      → AllBusy failed r.1
  unfolding remove_offer Agents.remove_offer
  remove_offer-AllBusy o c r busy h = elim (Option-cases (lookup o.offer_agent c.agents)) [
    | inl gone ↦
        let h' = rw (gone, remove_offer) at h in
        subst (λ (x : Bool × Mesos W). AllBusy failed x.1) (ok-injective _ r h') busy
    | inr (a, here) ↦
        let h' = rw (here, remove_offer) at h in
        let a' = (Agents.remove_offer o.offer_id a).0 in
        let (c', left, end) = >>=-eq-ok (emptied o.offer_agent a' c) _ h' in
        let own =
          All-delete (IsOwn o.offer_agent) o.offer_id a.offers
            (All-lookup (IsBusyOr failed) o.offer_agent a c.agents here busy).1 in
        subst (λ (x : Bool × Mesos W). AllBusy failed x.1) (ok-injective _ r end)
          (emptied-AllBusy o.offer_agent a' c c' own busy left)
  ]

  erase_offers-AllBusy :
      (os : List (Text × Offer)) (c d : Mesos W)
      → AllBusy failed c
      → erase_offers os c ≡ ok d
      → AllBusy failed d
  unfolding erase_offers
  erase_offers-AllBusy [] c d busy h = subst (AllBusy failed) (ok-injective c d h) busy
  erase_offers-AllBusy ((k, o) ∷ os) c d busy h =
      let (r, first, rest) = >>=-eq-ok (remove_offer o c) _ h in
      erase_offers-AllBusy os r.1 d (remove_offer-AllBusy o c r busy first) rest

  pub rescinded-AllBusy :
      (id : Text) (c d : Mesos W)
      → AllBusy failed c
      → offer_rescinded id c ≡ ok d
      → AllBusy failed d
  unfolding offer_rescinded
  rescinded-AllBusy id c d busy h = elim (Option-cases (find_offer id c.agents)) [
    | inl unknown ↦
        subst (AllBusy failed) (ok-injective c d (rw (unknown, offer_rescinded) at h)) busy
    | inr (o, known) ↦
        let h' = rw (known, offer_rescinded) at h in
        let (r, removed, end) = >>=-eq-ok (remove_offer o c) _ h' in
        subst (AllBusy failed) (ok-injective r.1 d end) (remove_offer-AllBusy o c r busy removed)
  ]

  -- Only the agents count.
  pub expire-AllBusy :
      (out : Outside W) (o : Offer) (c d : Mesos W)
      → AllBusy failed c
      → expire out o c ≡ ok d
      → AllBusy failed d
  unfolding expire
  expire-AllBusy out o c d busy h =
      let ((found, c'), removed, end) = >>=-eq-ok (remove_offer o c) _ h in
      let busy' = remove_offer-AllBusy o c (found, c') busy removed in
      elim (Bool-cases found) [
        | inl was ↦ subst (AllBusy failed) (ok-injective _ d (rw was at end)) busy'
        | inr stale ↦ subst (AllBusy failed) (ok-injective _ d (rw stale at end)) busy'
      ]

  add_offer-AllBusy : (o : Offer) (c : Mesos W) → AllBusy failed c → AllBusy failed (add_offer o c)
  unfolding add_offer
  add_offer-AllBusy o c busy = elim (Option-cases (lookup o.offer_agent c.agents)) [
    | inl gone ↦ rw (gone, add_offer) busy
    | inr (a, here) ↦
        rw (here, add_offer)
          (All-insert (IsBusyOr failed) o.offer_agent (Agents.add_offer o a) c.agents
            (offer-IsBusyOr failed o a
              (All-lookup (IsBusyOr failed) o.offer_agent a c.agents here busy).1)
            busy)
  ]

  -- A new agent is idle for a moment, until it gets the offer.
  new_offer-AllBusy :
      (o : Offer) (a : Agent) (c d : Mesos W)
      → a.offers ≡ []
      → d.agents ≡ insert o.offer_agent a c.agents
      → AllBusy failed c
      → AllBusy failed (add_offer o d)
  unfolding add_offer
  new_offer-AllBusy o a c d fresh stored busy =
      rw
        (
          stored,
          add_offer,
          lookup-insert o.offer_agent a c.agents,
          stored,
          insert_twice o.offer_agent (Agents.add_offer o a) a c.agents,
        )
        (All-insert (IsBusyOr failed) o.offer_agent (Agents.add_offer o a) c.agents
          (offer-IsBusyOr failed o a (rw fresh tt)) busy)

  registered-AllBusy :
      (o : Offer) (q : Outcome ApiError (Unit {0}) × Machine W) (c d : Mesos W)
      → AllBusy failed c
      → registered o.offer_agent q c ≡ ok d
      → AllBusy failed (add_offer o d)
  unfolding registered new_agent
  registered-AllBusy o (panic, m) c d busy h = cc h
  registered-AllBusy o (err x, m) c d busy h =
      subst (λ x. AllBusy failed (add_offer o x)) (ok-injective _ d h) (add_offer-AllBusy o _ busy)
  registered-AllBusy o (ok u, m) c d busy h =
      subst (λ x. AllBusy failed (add_offer o x)) (ok-injective _ d h)
        (new_offer-AllBusy o _ c _ refl refl busy)

  introduced-AllBusy :
      (out : Outside W) (o : Offer) (c d : Mesos W)
      → AllBusy failed c
      → introduced out o c ≡ ok d
      → AllBusy failed (add_offer o d)
  unfolding introduced
  introduced-AllBusy out o c d busy h =
      registered-AllBusy o
        (connected out (o.hostname ++ text ":" ++ docker_port c.docker_engine_port o.attributes) c)
        c d busy h

  resource_offer-AllBusy :
      (out : Outside W) (o : Offer) (c d : Mesos W)
      → AllBusy failed c
      → resource_offer out o c ≡ ok d
      → AllBusy failed d
  unfolding resource_offer
  resource_offer-AllBusy out o c d busy h = elim (Option-cases (lookup o.offer_agent c.agents)) [
    | inl new ↦
        let h' = rw (new, resource_offer) at h in
        let (c', made, end) = >>=-eq-ok (introduced out o c) _ h' in
        subst (AllBusy failed) (ok-injective (add_offer o c') d end)
          (introduced-AllBusy out o c c' busy made)
    | inr (a, here) ↦
        subst (AllBusy failed) (ok-injective _ d (rw (here, resource_offer) at h))
          (add_offer-AllBusy o c busy)
  ]

  pub resource_offers-AllBusy :
      (out : Outside W) (os : List Offer) (c d : Mesos W)
      → AllBusy failed c
      → resource_offers out os c ≡ ok d
      → AllBusy failed d
  unfolding resource_offers
  resource_offers-AllBusy out [] c d busy h = subst (AllBusy failed) (ok-injective c d h) busy
  resource_offers-AllBusy out (o ∷ os) c d busy h =
      let (c', first, rest) = >>=-eq-ok (resource_offer out o c) _ h in
      resource_offers-AllBusy out os c' d (resource_offer-AllBusy out o c c' busy first) rest

  pub launched-AllBusy :
      (key : Text) (a : Agent) (t : Task) (answer : Option ApiError) (c d : Mesos W)
      → lookup key c.agents ≡ some a
      → AllBusy failed c
      → launched key a t answer c ≡ ok d
      → AllBusy failed d
  unfolding launched add_task empty
  launched-AllBusy key a t (some x) c d here busy h = erase_offers-AllBusy a.offers c d busy h
  launched-AllBusy key a t none c d here busy h =
      let own = (All-lookup (IsBusyOr failed) key a c.agents here busy).1 in
      let loaded : IsBusyOr failed (key, add_task t a) =
        (inl (rw (is_nil-insert t.task_id t a.tasks) (and_false (is_nil a.offers))), own) in
      erase_offers-AllBusy a.offers _ d
        (All-insert (IsBusyOr failed) key (add_task t a) c.agents loaded busy) h
