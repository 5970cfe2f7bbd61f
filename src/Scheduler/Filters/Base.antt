-- ===== src/Scheduler/Filters/Base.antt =====
-- The interface of scheduler/filter/filter.go, and what the filters are given.
use cattle.Prelude.{Bool, List, Option, Text, Outcome}
use cattle.Cluster.Data.{ContainerConfig}
use cattle.Cluster.Config.{Json}
use cattle.Scheduler.Exprs.{FilterError}
use cattle.Scheduler.Node.{Node}

-- regexp.Compile, encoding/json, stringid.TruncateID, and the test that net.ParseIP gives an address
-- that is unspecified.
pub record Services : Type 0 where
  pub compile : Text → Option (Text → Bool)
  pub json : Json
  pub truncate_id : Text → Text
  pub is_unspecified : Text → Bool

pub record NodeFilter : Type 0 where
  pub filter_name : Text
  pub filter : ContainerConfig → List Node → Bool → Outcome FilterError (List Node)
  pub get_filters : ContainerConfig → Outcome FilterError (List Text)
