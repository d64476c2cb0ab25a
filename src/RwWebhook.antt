-- ===== src/RwWebhook.antt =====
-- The RisingWave object as its webhooks read it: apis/risingwave/v1alpha1/risingwave_types.go and
-- risingwave_node_group.go, and the outside world of pkg/webhook/risingwave_validating_webhook.go.
-- The replicas and names of the groups are those of ScaleView/Helper.antt, where scale views read them.
pub mod Checks
pub mod Locks
pub mod Groups
pub mod Backends
pub mod Accepts
pub mod Held
pub mod Updates
pub mod Moves
pub mod Samples
use risingwave_operator.Prelude.{ℕ, ℤ, Bool, Option, List, String, Bytes, map}
use risingwave_operator.Stores.{Fields, MetaStore, StateStore, PrivateKey}
use risingwave_operator.ScaleView.{Lock}
use risingwave_operator.ScaleView.Helper as Helper
use risingwave_operator.ScaleView.Helper.{NodeGroup}

-- intstr.IntOrString
pub data IntOrString : Type 0 where
  int : ℤ → IntOrString
  text : Bytes → IntOrString

-- RisingWaveNodeGroupRollingUpdate: the field that the webhook reads.
pub record RollingUpdate : Type 0 where
  pub partition : Option IntOrString

-- RisingWaveNodeGroupUpgradeStrategy
pub record UpgradeStrategy : Type 0 where
  pub kind : String
  pub rolling_update : Option RollingUpdate
  pub in_place_update_strategy : Option Fields

-- A ResourceList: the quantities of two of its keys.
pub record Resources : Type 0 where
  pub cpu : Option ℤ
  pub memory : Option ℤ

-- RisingWaveNodeGroup: `group` has its name and its replicas; of a map the keys, in some order.
pub record GroupSpec : Type 0 where
  pub group : NodeGroup
  pub image : String
  pub upgrade_strategy : UpgradeStrategy
  pub labels : List Bytes
  pub env : List String
  pub limits : Option Resources
  pub requests : Resources

-- RisingWaveConfigurationSpec: the reference to a ConfigMap.
pub record ConfigMapSource : Type 0 where
  pub name : String
  pub key : String

-- RisingWaveSpec, with the annotations and the status that the webhooks read.
pub record Object : Type 0 where
  pub uid : String
  pub annotations : List (String × Bytes)
  pub image : String
  pub frontend_service_labels : List Bytes
  pub meta_service_labels : List Bytes
  pub enable_open_kruise : Option Bool
  pub meta_store : MetaStore
  pub state_store : StateStore
  pub config_map : Option ConfigMapSource
  pub meta : List GroupSpec
  pub frontend : List GroupSpec
  pub compactor : List GroupSpec
  pub compute : List GroupSpec
  pub private_key : PrivateKey
  pub scale_views : List Lock

-- The object as the helper of scale views reads it.
abbrev pub view : Object → Helper.RisingWave
view obj = record {
  uid = obj.uid;
  meta = map (λ g. g.group) obj.meta;
  frontend = map (λ g. g.group) obj.frontend;
  compactor = map (λ g. g.group) obj.compactor;
  compute = map (λ g. g.group) obj.compute;
  scale_views = obj.scale_views;
}

-- The two regular expressions of the packages that the webhook calls:
-- validation.IsDNS1123Subdomain and reference.ReferenceRegexp.
pub record Patterns : Type 0 where
  pub is_dns1123_subdomain : String → Bool
  pub matches_reference : String → Bool
