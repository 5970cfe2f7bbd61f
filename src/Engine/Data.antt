-- ===== src/Engine/Data.antt =====
-- The engine of cluster/engine.go, with the network and volume of cluster/network.go and volume.go.
-- `IP`, the clients, the delayer and the channels have no place in the model; `has_handler` says
-- whether an event handler is registered, `has_monitor` whether there is an events monitor. Times and durations are in nanoseconds.
use cattle.Prelude.{Bool, List, Text, text, ℤ}
use cattle.Cluster.Data.{Container, EngineData}
use cattle.Cluster.Images.{Image}

pub data EngineState : Type 0 where
  pending unhealthy healthy disconnected : EngineState

-- stateText
unfoldable pub state_text : EngineState → Text
state_text pending = text "Pending"
state_text unhealthy = text "Unhealthy"
state_text healthy = text "Healthy"
state_text disconnected = text "Disconnected"

-- A network, with the endpoint identifiers of its containers.
pub record Network : Type 0 where
  pub network_id : Text
  pub network_name : Text
  pub scope : Text
  pub driver : Text
  pub endpoints : List (Text × Text)
  pub network_engine : EngineData

pub record Volume : Type 0 where
  pub volume_name : Text
  pub volume_driver : Text
  pub volume_engine : EngineData

pub record Engine : Type 0 where
  pub about : EngineData
  pub cpus : ℤ
  pub memory : ℤ
  pub version : Text
  pub containers : List (Text × Container)
  pub images : List Image
  pub networks : List (Text × Network)
  pub volumes : List (Text × Volume)
  pub has_handler : Bool
  pub has_monitor : Bool
  pub engine_state : EngineState
  pub last_error : Text
  pub updated_at : ℤ
  pub failure_count : ℤ
  pub overcommit_ratio : ℤ
  pub failure_retry : ℤ
  pub delta_duration : ℤ

-- An error of a call of the engine, with the tests of the client libraries that the code makes:
-- ErrConnectionRefused, IsErrConnectionFailed, and the two of an image that is not found.
pub record ApiError : Type 0 where
  pub message : Text
  pub is_refused : Bool
  pub is_connection_failed : Bool
  pub is_image_missing : Bool
