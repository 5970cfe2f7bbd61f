-- ===== src/Engine/Keeping/Handling.antt =====
-- The methods of an engine and the handler of its events keep a healthy engine below its limit of failures.
use cattle.Prelude.{
  Bool, true, false, not, ◌||◌, List, [], ◌∷◌, Option, none, some, Text, text, text_eq, Outcome, ok,
  err, panic, eqb_ℤ, pos,
}
use cattle.Cluster.Data.{Labels, Container, ContainerConfig, lookup}
use cattle.Engine.Data.{Engine, pending, ApiError}
use cattle.Engine.Health.States.{IsSteady}
use cattle.Engine.Call.{Daemon, Call, Machine, SystemInfo, own_error, fail, pure}
use cattle.Engine.Specs.{
  finish_specs, store_specs, update_specs, with_specs, add_labels, system_labels_of, other_id,
}
use cattle.Engine.Methods.{
  Message, pull, create_again, reported, create_container, dropping, on_container, refresh_all_of,
  on_untyped, on_message, handler, docker_config,
}
use cattle.Engine.Keeping.{
  Keeps, bind-Keeps, attempt-Keeps, pure-Keeps, fail-Keeps, get_engine-Keeps, change-Keeps,
  emit_events-Keeps, give-Keeps, if-Keeps, checked_call-Keeps, refresh_images-Keeps,
  refresh_networks-Keeps, refresh_volumes-Keeps, refresh_network-Keeps, refresh_volume-Keeps,
  refresh_container-Keeps,
}

-- An engine that waits for its validation is steady when its limit is positive.
to_pending :
    (msg : Text) (e : Engine)
    → IsSteady e
    → IsSteady (record e { engine_state = pending; last_error = msg })
to_pending msg e h = (h.0, λ up. cc up)

module _ {W : Type 0} where
  finish_specs-Keeps :
      (info : SystemInfo) (r : Labels × Option Text) → Keeps (finish_specs {W = W} info r)
  unfolding finish_specs with_specs
  finish_specs-Keeps info (labels, none) = change-Keeps _ (λ e h. h)
  finish_specs-Keeps info (labels, some bad) =
      bind-Keeps (change-Keeps _ (λ e h. h)) (λ u. bind-Keeps get_engine-Keeps (λ e. fail-Keeps _))

  store_specs-Keeps :
      (info : SystemInfo) (version : Text) → Keeps (store_specs {W = W} info version)
  unfolding store_specs
  store_specs-Keeps info version =
      let rest = finish_specs-Keeps info (add_labels info.system_labels (system_labels_of info)) in
      bind-Keeps (change-Keeps _ (λ e h. h)) (λ u. bind-Keeps get_engine-Keeps (λ e.
        if-Keeps (text_eq e.about.engine_id []) (bind-Keeps (change-Keeps _ (λ f h. h)) (λ v. rest))
          (if-Keeps (text_eq e.about.engine_id info.system_id) rest (
            bind-Keeps (change-Keeps _ (to_pending (other_id info.system_id e)))
              (λ v. fail-Keeps _)))))

module _ {W : Type 0} (daemon : Daemon W) where
  pub update_specs-Keeps : Keeps (update_specs daemon)
  unfolding update_specs
  update_specs-Keeps = bind-Keeps (checked_call-Keeps daemon _) (λ info.
      bind-Keeps
        (if-Keeps (eqb_ℤ info.ncpu (pos 0) || eqb_ℤ info.mem_total (pos 0))
          (bind-Keeps get_engine-Keeps (λ e. fail-Keeps _)) (pure-Keeps tt))
        (λ u. bind-Keeps (checked_call-Keeps daemon _) (λ version.
          bind-Keeps
            (if-Keeps (daemon.less_than version (text "1.8.0"))
              (bind-Keeps get_engine-Keeps (λ e. fail-Keeps _)) (pure-Keeps tt))
            (λ v. store_specs-Keeps info version))))

  body-Keeps :
      (body : Option ApiError) → Keeps {W = W} (elim body [ some x ↦ fail x | none ↦ pure tt ])
  body-Keeps (some x) = fail-Keeps x
  body-Keeps none = pure-Keeps tt

  pull-Keeps : (image : Text) → Keeps (pull daemon image)
  unfolding pull
  pull-Keeps image = bind-Keeps (checked_call-Keeps daemon _) (λ body.
      bind-Keeps (body-Keeps body)
        (λ u. bind-Keeps (attempt-Keeps (refresh_images-Keeps daemon)) (λ r. pure-Keeps tt)))

  create_again-Keeps :
      (c : ContainerConfig) (name : Text) (pull_image : Bool) (r : Outcome ApiError Text)
      → Keeps (create_again daemon c name pull_image r)
  unfolding create_again
  create_again-Keeps c name pull_image (ok id) = pure-Keeps id
  create_again-Keeps c name pull_image panic = give-Keeps panic
  create_again-Keeps c name pull_image (err x) =
      if-Keeps (not x.is_image_missing || not pull_image) (fail-Keeps x)
        (bind-Keeps (pull-Keeps c.image) (λ u. checked_call-Keeps daemon _))

  reported-Keeps : (id : Text) (e : Engine) → Keeps (reported daemon id e)
  unfolding reported
  reported-Keeps id e =
      elim (lookup id e.containers)
        as (λ (known : Option Container). Keeps {W = W} {A = Container} (elim known [
          | some c ↦ pure c
          | none ↦ fail (own_error (text "Container created but refresh didn't report it back"))
        ])) [ some c ↦ pure-Keeps c | none ↦ fail-Keeps _ ]

  pub create_container-Keeps :
      (config : ContainerConfig) (name : Text) (pull_image : Bool)
      → Keeps (create_container daemon config name pull_image)
  unfolding create_container
  create_container-Keeps config name pull_image = bind-Keeps get_engine-Keeps (λ e.
      bind-Keeps (attempt-Keeps (checked_call-Keeps daemon _)) (λ first.
        bind-Keeps (create_again-Keeps (docker_config e.cpus config) name pull_image first) (λ id.
          bind-Keeps (attempt-Keeps (refresh_container-Keeps daemon id true))
            (λ r. bind-Keeps get_engine-Keeps (λ e'. reported-Keeps id e')))))

  dropping-Keeps : {A : Type 0} {call : Call W A} → Keeps call → Keeps (dropping daemon call)
  dropping-Keeps keeps = bind-Keeps (attempt-Keeps keeps) (λ r. pure-Keeps tt)

  on_container-Keeps : (msg : Message) → Keeps (on_container daemon msg)
  unfolding on_container
  on_container-Keeps msg = if-Keeps _ (dropping-Keeps (refresh_images-Keeps daemon)) (
      if-Keeps _ (dropping-Keeps (refresh_container-Keeps daemon msg.message_id true)) (
        if-Keeps _ (pure-Keeps tt)
          (dropping-Keeps (refresh_container-Keeps daemon msg.message_id false))))

  refresh_all_of-Keeps : (id : Text) (full : Bool) → Keeps (refresh_all_of daemon id full)
  unfolding refresh_all_of
  refresh_all_of-Keeps id full =
      bind-Keeps (dropping-Keeps (refresh_container-Keeps daemon id full)) (λ u.
        bind-Keeps (dropping-Keeps (refresh_volumes-Keeps daemon))
          (λ v. dropping-Keeps (refresh_networks-Keeps daemon)))

  on_untyped-Keeps : (msg : Message) → Keeps (on_untyped daemon msg)
  unfolding on_untyped
  on_untyped-Keeps msg = if-Keeps _ (dropping-Keeps (refresh_images-Keeps daemon)) (
      if-Keeps _ (refresh_all_of-Keeps msg.message_id true)
        (if-Keeps _ (pure-Keeps tt) (refresh_all_of-Keeps msg.message_id false)))

  on_message-Keeps : (msg : Message) → Keeps (on_message daemon msg)
  unfolding on_message
  on_message-Keeps msg =
      if-Keeps (text_eq msg.kind (text "network"))
        (dropping-Keeps (refresh_network-Keeps daemon msg.actor_id))
        (if-Keeps (text_eq msg.kind (text "volume"))
          (dropping-Keeps (refresh_volume-Keeps daemon msg.actor_id))
          (if-Keeps (text_eq msg.kind (text "image")) (dropping-Keeps (refresh_images-Keeps daemon))
            (if-Keeps (text_eq msg.kind (text "container")) (on_container-Keeps msg) (
              if-Keeps (text_eq msg.kind (text "daemon"))
                (if-Keeps (text_eq msg.action (text "reload")) (dropping-Keeps update_specs-Keeps)
                  (pure-Keeps tt))
                (if-Keeps (text_eq msg.kind []) (on_untyped-Keeps msg) (pure-Keeps tt))))))

  handler-Keeps : (msg : Message) → Keeps (handler daemon msg)
  unfolding handler
  handler-Keeps msg = bind-Keeps (on_message-Keeps msg) (λ u.
      bind-Keeps get_engine-Keeps
        (λ e. if-Keeps e.has_handler (emit_events-Keeps _) (pure-Keeps tt)))

  -- The engine after a list of messages.
  abbrev pub handle_all : List Message → Machine W → Machine W
  unfolding handler
  handle_all [] m = m
  handle_all (msg ∷ msgs) m = handle_all msgs (handler daemon msg m).1

  -- Whatever the daemon answers and whatever messages the handler gets: an engine with a
  -- positive FailureRetry that has failed less often than that while it is healthy stays so.
  pub handle_all-IsSteady :
      (msgs : List Message) (m : Machine W)
      → IsSteady m.engine
      → IsSteady (handle_all msgs m).engine
  unfolding handle_all
  handle_all-IsSteady [] m h = h
  handle_all-IsSteady (msg ∷ msgs) m h =
      handle_all-IsSteady msgs (handler daemon msg m).1 ((handler-Keeps msg).holds m h)
