-- ===== src/Swarm/Discovery.antt =====
-- cluster/swarm/cluster.go: removeEngine and monitorDiscovery on the whole cluster, where the engines
-- report that they are disconnected, and the engines that monitorPendingEngines validates again.
use cattle.Prelude.{
  List, [], ◌∷◌, ◌++◌, Option, none, some, Text, ℤ, map, Outcome, panic, if◌then◌else◌, Bool, true,
  false, ◌≡◌, refl, ap, ◌∙◌, arith, ok, err,
}
use cattle.Cluster.Data.{lookup, insert}
use cattle.Engine.Data.{Engine, ApiError}
use cattle.Engine.Call.{swarm_event}
use cattle.Engine.Health.{disconnect, time_to_validate}
use cattle.Swarm.Data.{Fleet, Job, SwarmError, pure, ◌>>=◌, next_job, engine_failed}
use cattle.Swarm.Registry.{
  Registry, get_engine_by_addr, drop_engine, remove_engine, remove_found, remove_all, add_all,
  then_add, after_removal, discover,
}

-- An engine that leaves the table of the registered engines may still have a job that points at it.
abbrev pub kept_for_jobs : Option Engine → Engine → List (Text × Engine) → List (Text × Engine)
unfolding insert
kept_for_jobs (some waiting) e gone = gone
kept_for_jobs none e gone = insert e.about.engine_id e gone

-- The due part of the pending engines, in the order of the table, where `since` is time.Since.
unfoldable pub due_engines : (ℤ → ℤ) → List (Text × Engine) → List Engine
unfolding time_to_validate
due_engines since [] = []
due_engines since ((_, e) ∷ es) =
    let rest = due_engines since es in
    if time_to_validate (since e.updated_at) e then e ∷ rest else rest

after_removal_inv :
    (next : Registry → Outcome ApiError Registry) (q : Outcome ApiError (Registry × Bool))
    (r : Registry)
    → after_removal next q ≡ ok r
    → (r' : Registry) × (b : Bool) × (q ≡ ok (r', b)) × (next r' ≡ ok r)
after_removal_inv next panic r h = cc h
after_removal_inv next (err x) r h = cc h
after_removal_inv next (ok (r', b)) r h = (r', b, refl, h)

then_add_inv :
    (added : List Text) (ratio retry now : ℤ) (q : Outcome ApiError Registry) (r : Registry)
    → then_add added ratio retry now q ≡ ok r
    → (r' : Registry) × (q ≡ ok r') × (add_all added ratio retry now r' ≡ r)
unfolding add_all
then_add_inv added ratio retry now panic r h = cc h
then_add_inv added ratio retry now (err x) r h = cc h
then_add_inv added ratio retry now (ok r') r h = (r', refl, cc h)

module _ {W : Type 0} where
  unfoldable pub disconnected_entry : Text → Engine → Job W Bool
  unfolding disconnect lookup drop_engine
  disconnected_entry addr e f = elim (disconnect e) [
    | panic ↦ (panic, f)
    | err x ↦ (err (engine_failed x), f)
    | ok (e', names) ↦ (
      ok true,
      record f {
        registry = drop_engine addr e f.registry;
        gone = kept_for_jobs (lookup addr f.registry.pending_engines) e' f.gone;
        events = f.events ++ map swarm_event names;
      },
    )
  ]

  unfoldable pub remove_entry : Text → Job W Bool
  unfolding disconnected_entry get_engine_by_addr
  remove_entry addr f = elim (get_engine_by_addr addr f.registry) [
    | none ↦ (ok false, f)
    | some e ↦ disconnected_entry addr e f
  ]

  unfoldable pub remove_entries : List Text → Job W (Unit {0})
  unfolding remove_entry
  remove_entries [] = pure tt
  remove_entries (a ∷ addrs) = do _ ← remove_entry a; remove_entries addrs

  unfoldable pub added_entries : List Text → ℤ → ℤ → ℤ → Job W (Unit {0})
  unfolding add_all
  added_entries added ratio retry now f =
      (ok tt, record f { registry = add_all added ratio retry now f.registry })

  -- One round of monitorDiscovery; Swarm.Registry.discover is what it does to the registry.
  unfoldable pub discover_entries :
      (List Text → List Text → List Text × List Text)
      → List Text
      → List Text
      → ℤ
      → ℤ
      → ℤ
      → Job W (Unit {0})
  unfolding remove_entries added_entries
  discover_entries diff current entries ratio retry now = do
    _ ← remove_entries (diff current entries).1
    added_entries (diff current entries).0 ratio retry now

  -- When removeEngine does not panic, the cluster's registry and the result are those of
  -- Swarm.Registry.remove_engine.
  disconnected_entry-registry :
      (addr : Text) (e : Engine) (f : Fleet W) (r : Registry) (b : Bool)
      → remove_found addr (some e) f.registry ≡ ok (r, b)
      → ((disconnected_entry addr e f).0 ≡ ok b) × ((disconnected_entry addr e f).1.registry ≡ r)
  unfolding disconnected_entry remove_found
  disconnected_entry-registry addr e f r b h = ground arith

  remove_entry-registry :
      (addr : Text) (f : Fleet W) (r : Registry) (b : Bool)
      → remove_engine addr f.registry ≡ ok (r, b)
      → ((remove_entry addr f).0 ≡ ok b) × ((remove_entry addr f).1.registry ≡ r)
  unfolding remove_entry remove_engine
  remove_entry-registry addr f r b h =
      grind (arith, disconnected_entry-registry, disconnected_entry, remove_found)

  next_job_ok :
      {A B : Type 0} (g : A → Job W B) (q : Outcome SwarmError A × Fleet W) (a : A)
      → q.0 ≡ ok a
      → next_job g q ≡ g a q.1
  unfolding next_job
  next_job_ok g (ok a, f) b h = grind arith
  next_job_ok g (err x, f) b h = cc h
  next_job_ok g (panic, f) b h = cc h

  remove_entries-registry :
      (addrs : List Text) (f : Fleet W) (r : Registry)
      → remove_all addrs f.registry ≡ ok r
      → ((remove_entries addrs f).0 ≡ ok tt) × ((remove_entries addrs f).1.registry ≡ r)
  unfolding remove_all remove_entries ◌>>=◌ pure
  remove_entries-registry [] f r h = grind arith
  remove_entries-registry (a ∷ addrs) f r h =
      let (r', b, here, later) =
        after_removal_inv (remove_all addrs) (remove_engine a f.registry) r h in
      let (fine, same) = remove_entry-registry a f r' b here in
      rw (next_job_ok (λ _. remove_entries addrs) (remove_entry a f) b fine)
        (remove_entries-registry addrs (remove_entry a f).1 r (ap (remove_all addrs) same ∙ later))

  -- When no removal panics, a round of monitorDiscovery on the cluster ends, and its registry is that of
  -- Swarm.Registry.discover.
  pub discover_entries-registry :
      (diff : List Text → List Text → List Text × List Text) (current entries : List Text)
      (ratio retry now : ℤ) (f : Fleet W) (r : Registry)
      → discover diff current entries ratio retry now f.registry ≡ ok r
      → ((discover_entries diff current entries ratio retry now f).0 ≡ ok tt)
        × ((discover_entries diff current entries ratio retry now f).1.registry ≡ r)
  unfolding discover discover_entries added_entries ◌>>=◌
  discover_entries-registry diff current entries ratio retry now f r h =
      let (r', gone, rest) =
        then_add_inv (diff current entries).0 ratio retry now
          (remove_all (diff current entries).1 f.registry) r h in
      let (fine, same) = remove_entries-registry (diff current entries).1 f r' gone in
      rw
        (next_job_ok (λ _. added_entries (diff current entries).0 ratio retry now)
          (remove_entries (diff current entries).1 f) tt fine)
        (refl, ap (add_all (diff current entries).0 ratio retry now) same ∙ rest)
