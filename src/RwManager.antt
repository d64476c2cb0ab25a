-- ===== src/RwManager.antt =====
-- pkg/object/risingwave_manager.go: reading a RisingWave, and changing the copy of its status in
-- memory. The clock and the API server are parameters.
mod Status
pub mod Conditions
unfoldable pub use Status.*
pub mod Roots
pub mod Samples
use risingwave_operator.Prelude.{
  ℕ, zero, suc, ℤ, ltb_ℤ, Bool, true, false, ◌&&◌, ◌||◌, not, Option, none, some, or_default,
  is_none, List, [], ◌∷◌, Bytes, String, str_eq, if◌then◌else◌, Eq, equal, bool_eq,
}
use risingwave_operator.Stores.{Fields, Cloud, Rooted, StateStore}
use risingwave_operator.ScaleView.{GroupLock, Lock}
use risingwave_operator.ScaleView.Helper.{NodeGroup, unless_panic}

-- RisingWave, as far as the manager reads it.
pub record Instance : Type 0 where
  pub generation : ℤ
  pub state_store : StateStore
  pub enable_open_kruise : Option Bool
  pub enable_standalone_mode : Option Bool
  pub enable_advertising_with_ip : Option Bool
  pub meta : List NodeGroup
  pub frontend : List NodeGroup
  pub compactor : List NodeGroup
  pub compute : List NodeGroup
  pub status : InstanceStatus

-- RisingWaveReader.StateStoreRootPath
unfoldable pub state_store_root_path : StateStore → Bytes
state_store_root_path store = elim store.azure_blob [
  | some azure ↦ azure.root
  | none ↦ elim store.aliyun_oss [
    | some oss ↦ oss.root
    | none ↦ elim store.gcs [
      | some gcs ↦ gcs.root
      | none ↦ elim store.hdfs [
        | some hdfs ↦ hdfs.root
        | none ↦ elim store.web_hdfs [ some hdfs ↦ hdfs.root | none ↦ [] ]
      ]
    ]
  ]
]

abbrev pub is_observed_generation_outdated : Instance → Bool
is_observed_generation_outdated instance' =
    ltb_ℤ instance'.status.observed_generation instance'.generation

-- GetCondition: the first condition of a type.
unfoldable pub find_condition : String → List Condition → Option Condition
find_condition kind [] = none
find_condition kind (c ∷ conditions) =
    let rest = find_condition kind conditions in if str_eq c.kind kind then some c else rest

unfoldable pub get_condition : Instance → String → Option Condition
unfolding find_condition
get_condition obj kind = find_condition kind obj.status.conditions

unfoldable pub does_condition_exist_and_equal : Instance → String → Bool → Bool
unfolding get_condition
does_condition_exist_and_equal obj kind value = elim (get_condition obj kind) [
  | none ↦ false
  | some c ↦ equal (str_eq c.status "True") value
]

-- GetNodeGroups and GetNodeGroup: the outer `none` is the panic.
unfoldable pub get_node_groups : Instance → String → Option (List NodeGroup)
get_node_groups obj component =
    if str_eq component "meta"
    then some obj.meta
    else if str_eq component "compactor"
    then some obj.compactor
    else if str_eq component "frontend"
    then some obj.frontend
    else if str_eq component "compute"
    then some obj.compute
    else none

abbrev find_group : String → List NodeGroup → Option NodeGroup
find_group group [] = none
find_group group (g ∷ groups) = if str_eq g.name group then some g else find_group group groups

unfoldable pub get_node_group : Instance → String → String → Option (Option NodeGroup)
unfolding get_node_groups
get_node_group obj component group = unless_panic (find_group group) (get_node_groups obj component)

-- RisingWaveManager: the object as it was read, and the copy that is changed.
pub record Manager : Type 0 where
  pub risingwave : Instance
  pub mutable_risingwave : Instance
  pub openkruise_available : Bool

unfoldable pub new_risingwave_manager : Instance → Bool → Manager
new_risingwave_manager obj available = record {
  risingwave = obj;
  mutable_risingwave = obj;
  openkruise_available = available;
}

-- UpdateStatus, and the writes to the mutable status.
unfoldable pub update_status : (InstanceStatus → InstanceStatus) → Manager → Manager
update_status f mgr = record mgr {
  mutable_risingwave = record mgr.mutable_risingwave { status = f mgr.mutable_risingwave.status };
}

unfoldable pub sync_observed_generation : Manager → Manager
unfolding update_status
sync_observed_generation mgr =
    update_status
      (λ status. record status { observed_generation = mgr.mutable_risingwave.generation }) mgr

-- The first condition of the type is taken out.
unfoldable pub without_condition : String → List Condition → List Condition
without_condition kind [] = []
without_condition kind (c ∷ conditions) =
    let rest = without_condition kind conditions in
    if str_eq c.kind kind then conditions else c ∷ rest

unfoldable pub remove_condition : String → Manager → Manager
unfolding update_status without_condition
remove_condition kind mgr =
    update_status
      (λ status. record status { conditions = without_condition kind status.conditions }) mgr

-- The time is now, unless the object that was read has the condition with the same status.
unfoldable pub stamped : ℕ → Option Condition → Condition → Condition
stamped now none condition = record condition { last_transition_time = some now }
stamped now (some observed) condition =
    if str_eq observed.status condition.status
    then condition
    else record condition { last_transition_time = some now }

-- The first condition of the type is replaced, or else the condition appended.
unfoldable pub put_condition : Condition → List Condition → List Condition
put_condition condition [] = condition ∷ []
put_condition condition (c ∷ conditions) =
    let rest = put_condition condition conditions in
    if str_eq c.kind condition.kind then condition ∷ conditions else c ∷ rest

unfoldable pub update_condition : ℕ → Condition → Manager → Manager
unfolding stamped put_condition get_condition update_status
update_condition now condition mgr =
    let new = stamped now (get_condition mgr.risingwave condition.kind) condition in
    update_status (λ status. record status { conditions = put_condition new status.conditions }) mgr

unfoldable pub keep_lock : List Lock → Manager → Manager
unfolding update_status
keep_lock alive mgr = update_status (λ status. record status { scale_views = alive }) mgr

unfoldable pub is_open_kruise_enabled : Manager → Bool
is_open_kruise_enabled mgr =
    mgr.openkruise_available && or_default mgr.risingwave.enable_open_kruise false

abbrev pub is_standalone_mode_enabled : Instance → Bool
is_standalone_mode_enabled obj = or_default obj.enable_standalone_mode false

abbrev pub is_advertising_with_ip : Instance → Bool
is_advertising_with_ip obj = or_default obj.enable_advertising_with_ip false

-- The status that is sent to the API server, if any is.
unfoldable pub update_remote_risingwave_status : Manager → Option InstanceStatus
update_remote_risingwave_status mgr =
    if equal mgr.mutable_risingwave.status mgr.risingwave.status
    then none
    else some mgr.mutable_risingwave.status
