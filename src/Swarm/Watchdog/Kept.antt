-- ===== src/Swarm/Watchdog/Kept.antt =====
-- The containers of an engine that was lost, after the watchdog.
use cattle.Prelude.{
  ◌≡◌, refl, ap, ◌∙◌, List, none, some, Text, Outcome, ok, err, Option-cases, inl, inr,
}
use cattle.Cluster.Data.{Container, ContainerConfig, lookup}
use cattle.Cluster.Config.Stored.{lookup-insert}
use cattle.Engine.Data.{Engine}
use cattle.Engine.Call.{change}
use cattle.Engine.Methods.{add_container, remove_known}
use cattle.Engine.Mirror.{lookup-delete}
use cattle.Swarm.Data.{pure, Settings, Fleet, SwarmError, pure, on_engine, ◌>>=◌, next_job}
use cattle.Swarm.Watchdog.{
  or_same, take_off, add_back, replaced, replace_named, reschedule_container, bare_name,
}

-- The engine lists the identifier.
abbrev pub Lists : Text → Engine → Type 0
Lists id e = (d : Container) × (lookup id e.containers ≡ some d)

added_there : (c : Container) (e : Engine) → Lists c.ident (or_same (add_container c e) e)
unfolding add_container
added_there c e = elim (Option-cases (lookup c.ident e.containers)) [
  | inr (d, there) ↦ (d, rw (add_container, there) there)
  | inl free ↦ (c, rw (add_container, free) (lookup-insert c.ident c e.containers))
]

removed_there :
    (c : Container) (e : Engine) → lookup c.ident (or_same (remove_known c e) e).containers ≡ none
unfolding remove_known
removed_there c e = elim (Option-cases (lookup c.ident e.containers)) [
  | inr (d, there) ↦ rw (remove_known, there) (lookup-delete c.ident e.containers)
  | inl free ↦ rw (remove_known, free) free
]

module _ {W : Type 0} (s : Settings W) where
  -- A change of an engine that is registered.
  changed_engine :
      (key : Text) (g : Engine → Engine) (e : Engine) (f : Fleet W)
      → lookup key f.registry.engines ≡ some e
      → lookup key (on_engine s key (λ daemon. change g) f).1.registry.engines ≡ some (g e)
  unfolding on_engine change
  changed_engine key g e f there =
      rw (on_engine, there) (lookup-insert key (g e) f.registry.engines)

  replaced_err_keeps :
      (c : Container) (name : Text) (networks : List Text) (config : ContainerConfig)
      (x : SwarmError) (e : Engine) (f : Fleet W)
      → lookup c.engine.engine_id f.registry.engines ≡ some e
      → (e' : Engine) × (lookup c.engine.engine_id
            (replaced s c name networks (config, (err x, f))).1.registry.engines
          ≡ some e')
        × Lists c.ident e'
  unfolding add_back replaced
  replaced_err_keeps c name networks config x e f there =
      let c' : Container = record c { config = config } in
      (
        or_same (add_container c' e) e,
        changed_engine c.engine.engine_id (λ o. or_same (add_container c' o) o) e f there,
        added_there c' e,
      )

  reschedule_unnamed :
      (c : Container) (e : Engine) (f : Fleet W)
      → bare_name c.info.info_name ≡ none
      → lookup c.engine.engine_id f.registry.engines ≡ some e
      → reschedule_container s c f ≡ (ok tt, (take_off s c f).1)
  unfolding reschedule_container take_off replace_named on_engine ◌>>=◌ next_job change pure
  reschedule_unnamed c e f unnamed there = rw (unnamed, take_off, on_engine, there) refl

  -- What the watchdog does for a container that it reschedules, where the container has no
  -- name and its engine is registered: the container is taken from its engine and not put
  -- back, so that the engine then lists no container with its identifier.
  pub reschedule_unnamed_loses :
      (c : Container) (e : Engine) (f : Fleet W)
      → bare_name c.info.info_name ≡ none
      → lookup c.engine.engine_id f.registry.engines ≡ some e
      → (e' : Engine) × ((reschedule_container s c f).0 ≡ ok tt)
        × (lookup c.engine.engine_id (reschedule_container s c f).1.registry.engines ≡ some e')
        × (lookup c.ident e'.containers ≡ none)
  unfolding take_off
  reschedule_unnamed_loses c e f unnamed there =
      let left = reschedule_unnamed c e f unnamed there in
      (
        or_same (remove_known c e) e,
        ap (λ (r : Outcome SwarmError (Unit {0}) × Fleet W). r.0) left,
        ap
              (λ (r : Outcome SwarmError (Unit {0}) × Fleet W).
                lookup c.engine.engine_id r.1.registry.engines)
              left
            ∙ changed_engine c.engine.engine_id (λ o. or_same (remove_known c o) o) e f there,
        removed_there c e,
      )
