-- ===== src/ScaleView.antt =====
-- The data of scale views: apis/risingwave/v1alpha1/risingwave_scale_view_types.go, and the parts of
-- the RisingWave object (risingwave_types.go, risingwave_node_group.go) that scale views read and
-- write.
pub mod Split
pub mod Locks
pub mod Helper
pub mod Defaulting
pub mod Webhook
pub mod Controller
use risingwave_operator.Prelude.{ℤ, Bool, Option, List, String, Bytes}

-- RisingWaveScaleViewSpecScalePolicy
pub record ScalePolicy : Type 0 where
  pub group : String
  pub priority : ℤ
  pub max_replicas : Option ℤ

-- RisingWaveScaleViewTargetRef
pub record TargetRef : Type 0 where
  pub name : String
  pub component : String
  pub uid : String

-- RisingWaveScaleViewSpec
pub record Spec : Type 0 where
  pub target_ref : TargetRef
  pub replicas : Option ℤ
  pub label_selector : Bytes
  pub scale_policy : List ScalePolicy

-- RisingWaveScaleViewStatus
pub record Status : Type 0 where
  pub replicas : Option ℤ
  pub locked : Bool

-- RisingWaveScaleView, with the fields of its metadata that the code reads.
pub record ScaleView : Type 0 where
  pub name : String
  pub namespace : String
  pub uid : String
  pub generation : ℤ
  pub spec : Spec
  pub status : Status

-- RisingWaveScaleViewLockGroupLock
pub record GroupLock : Type 0 where
  pub name : String
  pub replicas : ℤ

-- RisingWaveScaleViewLock
pub record Lock : Type 0 where
  pub name : String
  pub uid : String
  pub component : String
  pub generation : ℤ
  pub group_locks : List GroupLock
