-- ===== src/Mesos/Examples.antt =====
-- An offer, its agent and a task, and the theorems about cluster/mesos applied to them.
use cattle.Prelude.{
  Bool, false, ◌⊎◌, ℕ, Outcome, err, panic, ◌≡◌, refl, true, [], ◌∷◌, none, some, text, text_eq,
  pos, ok,
}
use cattle.Cluster.Data.{ContainerConfig, lookup}
use cattle.Cluster.Examples.{config_with}
use cattle.Engine.Data.{healthy, ApiError}
use cattle.Engine.Call as Call
use cattle.Engine.Examples.{engine_in, daemon}
use cattle.Mesos.Agents.{Offer, Agent, Task, scalar, empty}
use cattle.Mesos.Offers.{Mesos, Outside, resource_offers, launched}
use cattle.Mesos.Busy.Erased.{HasOnly, tasks_after, launched_erases}
use cattle.Mesos.Views.{begin_create, new_task, resources_needed, name_conflict}
use cattle.Mesos.Naming.{waiting_reserves}
use cattle.Mesos.Tasks.{add, TaskStatus, failed, monitor, first_status}
use cattle.Mesos.Busy.{AllBusy}
use cattle.Mesos.Busy.Life.{start, more, told, offered, Steps-AllBusy}

abbrev offer : Offer
offer = record {
  offer_id = text "o1";
  offer_agent = text "s1";
  hostname = text "h";
  attributes =
      record { attribute_name = text "docker_port"; attribute_value = scalar (pos 2376) } ∷ [];
}

abbrev config : ContainerConfig
config = record (config_with [] []) {
  host_config = record (config_with [] []).host_config { memory = pos 64 };
}

abbrev task : Task
task = record {
  task_id = text "t1";
  task_config = config_with [] [];
  launched_on = some (text "s1");
  done = true;
}

abbrev outside : Outside ℕ
outside = record {
  dial = λ addr w. (ok daemon, w);
  decline = λ id w. w;
  now = λ w. pos 0;
  failure_retry = pos 3;
}

abbrev empty_cluster : Mesos ℕ
empty_cluster = record { docker_engine_port = text "2375"; agents = []; world = 0; events = [] }

abbrev working : Agent
working = record {
  agent_id = text "s1";
  offers = [];
  tasks = (text "t1", task) ∷ [];
  engine = engine_in healthy 0;
}

abbrev cluster_of : Outcome ApiError (Mesos ℕ) → Mesos ℕ
cluster_of (ok c) = c
cluster_of (err x) = empty_cluster
cluster_of panic = empty_cluster

abbrev offered_one : Mesos ℕ
unfolding resource_offers
offered_one = cluster_of (resource_offers outside (offer ∷ []) empty_cluster)

-- The port is the one that the offer tells, and the agent has the offer.
one_agent_test :
    (a : Agent) × (lookup (text "s1") offered_one.agents ≡ some a)
    × (a.offers ≡ (text "o1", offer) ∷ [])
    × (a.engine.about.engine_addr ≡ text "h:2376")
unfolding lookup text_eq offered_one Call.◌>>=◌ Call.change Call.pure Call.get_engine Call.attempt
one_agent_test = (_, refl, refl, refl)

abbrev failing : TaskStatus
failing = record { state = failed; data_of = none; message_of = text "no" }

Steps-AllBusy_example :
    AllBusy (text "s1" ∷ []) (first_status (text "s1") (text "t1") failing offered_one)
unfolding offered_one lookup text_eq resource_offers monitor Call.◌>>=◌ Call.change Call.pure
    Call.get_engine Call.attempt
Steps-AllBusy_example =
    Steps-AllBusy outside {failed = text "s1" ∷ []}
      {d = first_status (text "s1") (text "t1") failing offered_one} refl
      (told (text "s1") (text "t1") failing (
        more {d = empty_cluster} {e = offered_one} (start empty_cluster)
          (offered (offer ∷ []) refl)))

abbrev one_task : Mesos ℕ
one_task = record empty_cluster { agents = (text "s1", working) ∷ [] }

-- An agent with two offers and a task.
abbrev offering : Agent
offering = record working {
  offers = (text "o1", offer) ∷ (text "o2", record offer { offer_id = text "o2" }) ∷ [];
}

abbrev two_offers : Mesos ℕ
two_offers = record empty_cluster { agents = (text "s1", offering) ∷ [] }

launched_erases_example :
    (d : Mesos ℕ) × (launched (text "s1") offering task none two_offers ≡ ok d)
    × HasOnly (text "s1") (tasks_after offering task none) d
unfolding lookup text_eq empty
launched_erases_example =
    launched_erases (text "s1") offering task none two_offers refl
      (refl, ((refl, refl), ((refl, refl), tt))) refl

abbrev refuses : Task → ℕ → Bool × ℕ
refuses t s = (false, s)

waiting_reserves_example :
    (begin_create
        (text "r2")
        config
        (text "web")
        []
        (add refuses (new_task (text "r1") config (text "web")) [] 0).0
      ≡ err resources_needed)
    ⊎ (begin_create
          (text "r2")
          config
          (text "web")
          []
          (add refuses (new_task (text "r1") config (text "web")) [] 0).0
        ≡ err (name_conflict (text "web")))
waiting_reserves_example =
    waiting_reserves refuses (text "r1") config b'w' (text "eb") [] 0 refl (text "r2") config []
