-- ===== src/Engine/Connect.antt =====
-- cluster/engine.go: an engine is connected, and its loop of refreshes.
use cattle.Prelude.{
  Bool, true, false, not, ◌||◌, [], ◌∷◌, ◌++◌, Text, text, text_eq, ℤ, pos, add64, sub64, mul64,
  ltb_ℤ, Outcome, ok, err, panic, if◌then◌else◌,
}
use cattle.Cluster.Images.{Image}
use cattle.Engine.Data.{Engine, ApiError}
use cattle.Engine.Health.{is_healthy}
use cattle.Engine.Call.{
  Daemon, Call, pure, fail, ◌>>=◌, attempt, get_engine, change, own_error, emit_events, swarm_event,
}
use cattle.Engine.Cache.{refresh_images, refresh_networks, refresh_volumes, refresh_containers}
use cattle.Engine.Specs.{update_specs}

-- The factor by which an engine that keeps failing waits longer.
unfoldable pub backoff_factor : Engine → ℤ
unfolding sub64
backoff_factor e =
    let factor = sub64 e.failure_count e.failure_retry in
    if ltb_ℤ factor (pos 0) then pos 0 else if ltb_ℤ (pos 1000) factor then pos 1000 else factor

-- Wait of the delayer: the period, where `draw` is Int63n.
unfoldable pub wait_period : ℤ → ℤ → (ℤ → ℤ) → ℤ → ℤ
unfolding add64 sub64 mul64
wait_period range_min range_max draw factor =
    let period = mul64 range_min (add64 (pos 1) factor) in
    let delta = sub64 range_max range_min in
    if ltb_ℤ (pos 0) delta then add64 period (draw delta) else period

-- AddContainer's counterpart for images, and cleanupContainers.
unfoldable pub add_image : Image → Engine → Engine
add_image i e = record e { images = e.images ++ i ∷ [] }

unfoldable pub cleanup_containers : Engine → Engine
cleanup_containers e = record e { containers = [] }

-- String
unfoldable pub engine_text : Engine → Text
engine_text e = text "engine " ++ e.about.engine_id ++ text " addr " ++ e.about.engine_addr

module _ {W : Type 0} (daemon : Daemon W) where
  -- emitEvent
  unfoldable pub emit_event : Text → Call W (Unit {0})
  unfolding emit_events
  emit_event event = do
    e ← get_engine
    (if e.has_handler then emit_events (swarm_event event ∷ []) else pure tt)

  -- ConnectWithClient, without the thread that reads events.
  unfoldable pub connect_with_client : Call W (Unit {0})
  unfolding update_specs refresh_containers refresh_images refresh_volumes refresh_networks
      emit_event
  connect_with_client = do
    _ ← change (λ e. record e { has_monitor = true })
    _ ← update_specs daemon
    _ ← refresh_containers daemon true
    _ ← refresh_images daemon
    _ ← attempt (refresh_volumes daemon)
    _ ← attempt (refresh_networks daemon)
    emit_event (text "engine_connect")

  -- The rest of a round, by the result of the containers' refresh.
  abbrev pub refresh_rest : Outcome ApiError (Unit {0}) → Call W (Unit {0})
  unfolding refresh_images refresh_volumes refresh_networks
  refresh_rest (ok _) = do
    _ ← attempt (refresh_volumes daemon)
    _ ← attempt (refresh_networks daemon)
    _ ← attempt (refresh_images daemon)
    pure tt
  refresh_rest (err x) = pure tt
  refresh_rest panic = λ m. (panic, m)

  abbrev pub after_specs : Outcome ApiError (Unit {0}) → Call W Bool
  unfolding refresh_rest refresh_containers
  after_specs (ok _) = do
    refreshed ← attempt (refresh_containers daemon false)
    _ ← refresh_rest refreshed
    pure true
  after_specs (err x) = pure false
  after_specs panic = λ m. (panic, m)

  -- A round of refreshLoop after its wait. `late` says whether the specifications are older than five
  -- minutes; the answer, whether the round came to its refreshes.
  unfoldable pub refresh_round : Bool → Call W Bool
  unfolding is_healthy update_specs after_specs
  refresh_round late = do
    e ← get_engine
    specs ← (if not (is_healthy e) || late then attempt (update_specs daemon) else pure (ok tt))
    after_specs specs

  -- RefreshEngine
  unfoldable pub refresh_engine : Text → Call W (Unit {0})
  unfolding refresh_containers text_eq
  refresh_engine hostname = do
    e ← get_engine
    (if text_eq hostname e.about.engine_name
        then refresh_containers daemon true
        else fail (
            own_error (
              text "invalid engine name during refresh: "
              ++ hostname
              ++ text " vs "
              ++ e.about.engine_name)))
