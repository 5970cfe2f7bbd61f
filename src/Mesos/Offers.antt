-- ===== src/Mesos/Offers.antt =====
-- cluster/mesos/scheduler.go and cluster.go: offers come, are taken back, run out and are used up.
use cattle.Prelude.{
  Bool, false, List, [], ◌∷◌, ◌++◌, Option, none, some, Text, text, ℤ, pos, map, Outcome, ok, err,
  panic, ◌>>=◌, if◌then◌else◌,
}
use cattle.Cluster.Data.{lookup, insert, delete}
use cattle.Engine.Data.{ApiError}
use cattle.Engine.Health.{disconnect, validation_complete}
use cattle.Engine.Call.{Daemon, Machine, Event, swarm_event}
use cattle.Engine.Connect.{connect_with_client}
use cattle.Swarm.Registry.{new_engine, register_event_handler, handled}
use cattle.Mesos.Agents.{Offer, Task, Agent, new_agent, add_task, empty, docker_port}
use cattle.Mesos.Agents as Agents

-- Cluster, with the world outside and the events for the handlers.
pub record Mesos (W : Type 0) : Type 0 where
  pub docker_engine_port : Text
  pub agents : List (Text × Agent)
  pub world : W
  pub events : List Event

-- What the cluster reaches outside: `dial` makes the client of the daemon at an address, or fails as
-- Connect does before it has a client; `decline` is DeclineOffer, whose error is only logged.
pub record Outside (W : Type 0) : Type 0 where
  pub dial : Text → W → Outcome ApiError (Daemon W) × W
  pub decline : Text → W → W
  pub now : W → ℤ
  pub failure_retry : ℤ

-- The agent with the offer that is taken back, the first one.
unfoldable pub find_offer : Text → List (Text × Agent) → Option Offer
unfolding lookup
find_offer id [] = none
find_offer id ((k, a) ∷ rest) = elim (lookup id a.offers) [
  | some o ↦ some o
  | none ↦ find_offer id rest
]

module _ {W : Type 0} where
  -- addOffer, without the thread that waits for the offer to run out.
  unfoldable pub add_offer : Offer → Mesos W → Mesos W
  unfolding lookup insert Agents.add_offer
  add_offer o c = elim (lookup o.offer_agent c.agents) [
    | none ↦ c
    | some a ↦ record c { agents = insert o.offer_agent (Agents.add_offer o a) c.agents }
  ]

  -- The end of removeOffer, by what is left of the agent.
  unfoldable pub emptied : Text → Agent → Mesos W → Outcome ApiError (Mesos W)
  unfolding empty disconnect delete insert
  emptied key a c =
      if empty a
      then (disconnect a.engine >>= λ (e, told).
          ok (record c { agents = delete key c.agents; events = c.events ++ map swarm_event told }))
      else ok (record c { agents = insert key a c.agents })

  -- removeOffer
  unfoldable pub remove_offer : Offer → Mesos W → Outcome ApiError (Bool × Mesos W)
  unfolding lookup emptied Agents.remove_offer
  remove_offer o c = elim (lookup o.offer_agent c.agents) [
    | none ↦ ok (false, c)
    | some a ↦ emptied o.offer_agent (Agents.remove_offer o.offer_id a).0 c >>= λ c'.
        ok ((Agents.remove_offer o.offer_id a).1, c')
  ]

  -- The thread of addOffer, after the time of the offer.
  unfoldable pub expire : Outside W → Offer → Mesos W → Outcome ApiError (Mesos W)
  unfolding remove_offer
  expire out o c = remove_offer o c >>= λ (found, c').
      ok (if found then record c' { world = out.decline o.offer_id c'.world } else c')

  -- OfferRescinded
  unfoldable pub offer_rescinded : Text → Mesos W → Outcome ApiError (Mesos W)
  unfolding find_offer remove_offer
  offer_rescinded id c = elim (find_offer id c.agents) [
    | none ↦ ok c
    | some o ↦ remove_offer o c >>= λ r. ok r.1
  ]

  -- Connect of a new engine.
  unfoldable pub connected : Outside W → Text → Mesos W → Outcome ApiError (Unit {0}) × Machine W
  unfolding connect_with_client new_engine
  connected out addr c =
      let e = new_engine addr (pos 0) out.failure_retry (out.now c.world) in
      let (client, w) = out.dial addr c.world in
      let m : Machine W = record { engine = e; world = w; events = [] } in
      elim client [
        | panic ↦ (panic, m)
        | err x ↦ (err x, m)
        | ok daemon ↦ connect_with_client daemon m
      ]

  -- The new agent of an offer, when its engine has been connected.
  unfoldable pub registered :
      Text → Outcome ApiError (Unit {0}) × Machine W → Mesos W → Outcome ApiError (Mesos W)
  unfolding validation_complete register_event_handler new_agent insert
  registered key (panic, m) c = panic
  registered key (err x, m) c = ok (record c { world = m.world; events = c.events ++ m.events })
  registered key (ok _, m) c =
      let e = validation_complete m.engine in
      ok (record c {
        agents = insert key (new_agent key (handled (register_event_handler e) e)) c.agents;
        world = m.world;
        events = c.events ++ m.events;
      })

  unfoldable pub introduced : Outside W → Offer → Mesos W → Outcome ApiError (Mesos W)
  unfolding registered connected docker_port
  introduced out o c =
      let addr = o.hostname ++ text ":" ++ docker_port c.docker_engine_port o.attributes in
      registered o.offer_agent (connected out addr c) c

  -- ResourceOffers, without the thread that tries the pending tasks again.
  unfoldable pub resource_offer : Outside W → Offer → Mesos W → Outcome ApiError (Mesos W)
  unfolding lookup add_offer introduced
  resource_offer out o c = elim (lookup o.offer_agent c.agents) [
    | some a ↦ ok (add_offer o c)
    | none ↦ introduced out o c >>= λ c'. ok (add_offer o c')
  ]

  unfoldable pub resource_offers : Outside W → List Offer → Mesos W → Outcome ApiError (Mesos W)
  unfolding resource_offer
  resource_offers out [] c = ok c
  resource_offers out (o ∷ os) c = resource_offer out o c >>= resource_offers out os

  -- The loops of LaunchTask that erase the offers of the agent.
  unfoldable pub erase_offers : List (Text × Offer) → Mesos W → Outcome ApiError (Mesos W)
  unfolding remove_offer
  erase_offers [] c = ok c
  erase_offers ((_, o) ∷ os) c = remove_offer o c >>= λ r. erase_offers os r.1

  -- LaunchTask on an agent, by the answer of the driver.
  unfoldable pub launched :
      Text → Agent → Task → Option ApiError → Mesos W → Outcome ApiError (Mesos W)
  unfolding erase_offers add_task insert
  launched key a t (some x) c = erase_offers a.offers c
  launched key a t none c =
      erase_offers a.offers (record c { agents = insert key (add_task t a) c.agents })
