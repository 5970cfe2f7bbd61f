-- ===== src/Engine/Call.antt =====
-- A call of an engine's method: it may fail, it changes the engine and the world outside, and it emits
-- events. The client of the daemon is a parameter.
use cattle.Prelude.{
  Bool, List, ◌++◌, Option, none, some, Text, text, ℤ, Outcome, ok, err, panic, map, false,
}
use cattle.Cluster.Data.{Labels, ContainerConfig, ContainerInfo}
use cattle.Cluster.Images.{Image}
use cattle.Cluster.Config.{Json}
use cattle.Engine.Data.{Engine, ApiError, Network, Volume}
use cattle.Engine.Health.{check_connection_err}

-- types.Container, as a list of containers gives it.
pub record Summary : Type 0 where
  pub summary_id : Text
  pub summary_names : List Text
  pub summary_state : Text
  pub summary_labels : Labels

-- types.ContainerJSON: the configuration as the daemon has it, a pointer that may be nil, and the rest,
-- whose `has_config` tells whether that pointer is not nil.
pub record Inspection : Type 0 where
  pub raw_config : Option ContainerConfig
  pub raw_info : ContainerInfo

-- types.Info, with the system time as its distance to that of the manager.
pub record SystemInfo : Type 0 where
  pub system_id : Text
  pub system_name : Text
  pub ncpu : ℤ
  pub mem_total : ℤ
  pub storage_driver : Text
  pub kernel_version : Text
  pub operating_system : Text
  pub system_labels : List Text
  pub system_delta : Option ℤ

-- The client of the daemon on a world `W`, with its clock.
pub record Daemon (W : Type 0) : Type 0 where
  pub clock : W → ℤ
  pub json : Json
  pub less_than : Text → Text → Bool
  pub get_info : W → Outcome ApiError SystemInfo × W
  pub server_version : W → Outcome ApiError Text × W
  pub container_list : Option Text → W → Outcome ApiError (List Summary) × W
  pub container_inspect : Text → W → Outcome ApiError Inspection × W
  pub container_create : ContainerConfig → Text → W → Outcome ApiError Text × W
  pub container_remove : Text → Bool → Bool → W → Outcome ApiError (Unit {0}) × W
  pub container_start : Text → W → Outcome ApiError (Unit {0}) × W
  pub container_rename : Text → Text → W → Outcome ApiError (Unit {0}) × W
  pub image_list : W → Outcome ApiError (List Image) × W
  pub image_pull : Text → W → Outcome ApiError (Option ApiError) × W
  pub image_remove : Text → Bool → W → Outcome ApiError (List Text) × W
  pub image_tag : Text → Text → W → Outcome ApiError (Unit {0}) × W
  pub network_list : W → Outcome ApiError (List Network) × W
  pub network_inspect : Text → W → Outcome ApiError Network × W
  pub network_create : Text → W → Outcome ApiError Text × W
  pub network_remove : Text → W → Outcome ApiError (Unit {0}) × W
  pub network_disconnect : Text → Text → Bool → W → Outcome ApiError (Unit {0}) × W
  pub network_connect : Text → Text → W → Outcome ApiError (Unit {0}) × W
  pub volume_list : W → Outcome ApiError (List Volume) × W
  pub volume_inspect : Text → W → Outcome ApiError Volume × W
  pub volume_create : Text → W → Outcome ApiError Volume × W
  pub volume_remove : Text → W → Outcome ApiError (Unit {0}) × W

-- An event that the handler gets: where it is from, and its status.
pub record Event : Type 0 where
  pub from : Text
  pub event_status : Text

pub record Machine (W : Type 0) : Type 0 where
  pub engine : Engine
  pub world : W
  pub events : List Event

abbrev pub Call : Type 0 → Type 0 → Type 0
Call W A = Machine W → Outcome ApiError A × Machine W

-- An error of the code's own.
abbrev pub own_error : Text → ApiError
own_error msg = record {
  message = msg;
  is_refused = false;
  is_connection_failed = false;
  is_image_missing = false;
}

abbrev pub swarm_event : Text → Event
swarm_event s = record { from = text "swarm"; event_status = s }

abbrev pub error_of : {A : Type 0} → Outcome ApiError A → Option ApiError
error_of panic = none
error_of (err x) = some x
error_of (ok a) = none

module _ {W : Type 0} where
  unfoldable pub pure : {A : Type 0} → A → Call W A
  pure a m = (ok a, m)

  unfoldable pub fail : {A : Type 0} → ApiError → Call W A
  fail x m = (err x, m)

  unfoldable pub next_call :
      {A B : Type 0}
      → (A → Call W B)
      → Outcome ApiError A × Machine W
      → Outcome ApiError B × Machine W
  next_call f (ok a, m) = f a m
  next_call f (err x, m) = (err x, m)
  next_call f (panic, m) = (panic, m)

  -- The next call, after one that returned no error.
  infixl 5 ◌>>=◌
  unfoldable pub ◌>>=◌ : {A B : Type 0} → Call W A → (A → Call W B) → Call W B
  unfolding next_call
  ◌>>=◌ call f m = next_call f (call m)

  -- A call whose result, error or not, is looked at.
  unfoldable pub attempt : {A : Type 0} → Call W A → Call W (Outcome ApiError A)
  attempt call m = let (r, m') = call m in (ok r, m')

  unfoldable pub get_engine : Call W Engine
  get_engine m = (ok m.engine, m)

  unfoldable pub change : (Engine → Engine) → Call W (Unit {0})
  change f m = (ok tt, record m { engine = f m.engine })

  -- A call of the daemon, and CheckConnectionErr on its error.
  unfoldable pub checked_call : {A : Type 0} → Daemon W → (W → Outcome ApiError A × W) → Call W A
  unfolding check_connection_err
  checked_call daemon api m =
      let (r, w) = api m.world in
      let (e, told) = check_connection_err (daemon.clock w) (error_of r) m.engine in
      (r, record { engine = e; world = w; events = m.events ++ map swarm_event told })

  -- emitEvent
  unfoldable pub emit_events : List Event → Call W (Unit {0})
  emit_events told m = (ok tt, record m { events = m.events ++ told })
