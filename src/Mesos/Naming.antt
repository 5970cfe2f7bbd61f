-- ===== src/Mesos/Naming.antt =====
-- cluster/mesos: the names of the tasks that wait for an offer, and which tasks wait.
use cattle.Prelude.{
  ℕ, ◌≡◌, refl, sym, ap, ◌∙◌, Bool, ◌&&◌, not, true, false, List, [], ◌∷◌, some, Text, text,
  text_eq, text_eq_refl, text_eq_apart, ok-injective, >>=-eq-ok, any, eqb_ℤ, pos, Outcome, ok, err,
  panic, Bool-cases, ◌⊎◌, inl, inr,
}
use cattle.Cluster.Data.{ContainerConfig, lookup, insert}
use cattle.Cluster.Config.{swarm_label, set_label}
use cattle.Cluster.Config.Stored.{lookup-insert, lookup-insert_other}
use cattle.Scheduler.Node.{Node}
use cattle.Scheduler.Select.{SchedulerError}
use cattle.Swarm.Views.{bears_name, all_containers}
use cattle.Mesos.Entries.{and_false, or_true}
use cattle.Mesos.Agents.{Task, Agent}
use cattle.Mesos.Offers.{Mesos}
use cattle.Mesos.Tasks.{add}
use cattle.Mesos.Views.{
  resources_needed, name_conflict, waits_with_name, check_name_uniqueness, new_task, begin_create,
  task_name, engines_of,
}
use cattle.Mesos.Launch.{Driver, Delivery, launch_task, launch_on, launch_chosen}

any-insert :
    {V : Type 0} (p : Text × V → Bool) (k : Text) (v : V) (m : List (Text × V))
    → p (k, v) ≡ true
    → any p (insert k v m) ≡ true
unfolding any insert
any-insert p k v [] h = rw h refl
any-insert p k v ((j, u) ∷ m) h = elim (Bool-cases (text_eq j k)) [
  | inl same ↦ rw (same, any, h) refl
  | inr other ↦ rw (other, any) (or_true (p (j, u)) _ (any-insert p k v m h))
]

new_task-waits :
    (draw : Text) (config : ContainerConfig) (b : ℕ) (name : Text) (k : Text)
    → waits_with_name (b ∷ name) (k, new_task draw config (b ∷ name)) ≡ true
unfolding waits_with_name new_task set_label
new_task-waits draw config b name k =
    let task_label = swarm_label (text "mesos.task") in
    let name_label = swarm_label (text "mesos.name") in
    let labels = insert name_label (b ∷ name) config.config_labels in
    let found : lookup name_label (insert task_label (task_name draw (b ∷ name)) labels)
        ≡ some (b ∷ name) =
      lookup-insert_other task_label name_label (task_name draw (b ∷ name)) labels
        (text_eq_apart task_label name_label refl)
      ∙ lookup-insert name_label (b ∷ name) config.config_labels in
    rw found (rw (text_eq_refl (b ∷ name)) refl)

-- A task with a name that is not empty, which CreateContainer makes and which cannot be
-- launched: as long as it waits, a further CreateContainer with the name ends with an error,
-- whatever the agents are and whatever the configuration, for want of resources or in the
-- conflict of the name.
pub waiting_reserves :
    {S : Type 0} (launch : Task → S → Bool × S) (draw : Text) (config : ContainerConfig) (b : ℕ)
    (name : Text) (waiting : List (Text × Task)) (s : S)
    → (launch (new_task draw config (b ∷ name)) s).0 ≡ false
    → (draw' : Text) (config' : ContainerConfig) (agents : List (Text × Agent))
    → (begin_create draw' config'
          (b ∷ name)
          agents
          (add launch (new_task draw config (b ∷ name)) waiting s).0
        ≡ err resources_needed)
      ⊎ (begin_create draw' config'
            (b ∷ name)
            agents
            (add launch (new_task draw config (b ∷ name)) waiting s).0
          ≡ err (name_conflict (b ∷ name)))
unfolding begin_create add check_name_uniqueness
waiting_reserves launch draw config b name waiting s refused draw' config' agents =
    let task = new_task draw config (b ∷ name) in
    let taken : check_name_uniqueness (b ∷ name) agents (add launch task waiting s).0 ≡ false =
      rw refused (
        rw
          (any-insert (waits_with_name (b ∷ name)) task.task_id task waiting
            (new_task-waits draw config b name task.task_id))
          (and_false (not (any (bears_name (b ∷ name)) (all_containers (engines_of agents)))))) in
    elim (Bool-cases
      (eqb_ℤ config'.host_config.memory (pos 0) && eqb_ℤ config'.host_config.cpu_shares (pos 0))) [
        | inl nothing_asked ↦ inl (rw (nothing_asked, begin_create) refl)
        | inr asked ↦ inr (rw (asked, begin_create, taken) refl)
      ]

module _ {W : Type 0} (driver : Driver W) where
  chosen_waits :
      (t : Task) (c d : Mesos W) (x : Delivery) (r : Outcome SchedulerError (List Node))
      → launch_chosen driver t c r ≡ ok ((false, x), d)
      → (e : SchedulerError) × (r ≡ err e) × (d ≡ c)
  unfolding launch_chosen
  chosen_waits t c d x panic h = cc h
  chosen_waits t c d x (err e) h = (
    e,
    refl,
    ap (λ (y : (Bool × Delivery) × Mesos W). y.1) (sym (ok-injective _ ((false, x), d) h)),
  )
  chosen_waits t c d x (ok []) h = cc h
  chosen_waits t c d x (ok (n ∷ ns)) h =
      let (r, launched, end) = >>=-eq-ok (launch_on driver n.node_id t c) _ h in
      let wrong : true ≡ false =
        ap (λ (y : (Bool × Delivery) × Mesos W). y.0.0) (ok-injective _ ((false, x), d) end) in
      cc wrong

  -- LaunchTask leaves a task to wait only where the scheduler finds no node for it, and then changes
  -- nothing and tells nobody.
  pub launch_task_waits :
      (t : Task) (c d : Mesos W) (x : Delivery)
      → launch_task driver t c ≡ ok ((false, x), d)
      → (e : SchedulerError) × (driver.choose c t.task_config ≡ err e) × (d ≡ c)
  unfolding launch_task
  launch_task_waits t c d x h = chosen_waits t c d x (driver.choose c t.task_config) h
