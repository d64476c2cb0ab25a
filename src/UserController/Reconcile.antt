-- ===== src/UserController/Reconcile.antt =====
-- Reconcile, reconcileNormal and reconcileDelete: the life of a user.
use risingwave_operator.Prelude.{
  ℤ, Bool, true, false, ◌&&◌, not, Option, none, some, is_none, List, [], ◌∷◌, ◌++◌, Bytes, codes,
  bytes_eq, exists_test, if◌then◌else◌,
}
use risingwave_operator.Passwords.{Source}
use risingwave_operator.UserWebhook.{UserObject}
use risingwave_operator.UserController.{Server, Orders}

-- metav1.Condition, without the times and the message.
pub record UserCondition : Type 0 where
  pub condition_type : Bytes
  pub status : Bool
  pub reason : Bytes

-- RisingWaveUserStatus: the fields that the controller writes.
pub record UserStatus : Type 0 where
  pub phase : Bytes
  pub conditions : List UserCondition
  pub user_created : Bool
  pub privileges_synced : Bool
  pub secret_created : Bool
  pub secret_name : Bytes
  pub observed_generation : ℤ
  pub connected : Bool

-- The object of a reconciliation; here the annotations have their values.
pub record Managed : Type 0 where
  pub object : UserObject
  pub annotations : List (Bytes × Bytes)
  pub finalizers : List Bytes
  pub is_deleted : Bool
  pub generation : ℤ
  pub status : UserStatus

-- The referenced RisingWave: the types of its conditions, and whether they are true.
pub record Cluster : Type 0 where
  pub name : Bytes
  pub namespace : Bytes
  pub conditions : List (Bytes × Bool)

-- What Get answers for a Secret.
pub data SecretAnswer : Type 0 where
  found : List (Bytes × Bytes) → SecretAnswer
  missing failed : SecretAnswer

-- What the controller sends, in its order. The statements of applyPrivileges stand in the history of the
-- connection.
pub data Event : Type 0 where
  ran : Bytes → Event
  ran_privileges : List (Option Bytes × Bytes) → Event
  wrote_secret : Bytes → List (Bytes × Bytes) → Event
  updated : Managed → Event
  sent_status : UserStatus → Event

-- The outside: the API server, the connection pool, the database and the source of randomness. A `false` or
-- `none` is an error. `get_service` answers the name and the namespace of a Service, `pool_get` is
-- ConnectionPool.Get (its key is a function of the arguments), `code_of` the SQLState of an error if it
-- is a *pq.Error, and `to_lower` strings.ToLower.
pub record World (S : Type 0) : Type 0 where
  pub server : Server S
  pub source : Source S
  pub orders : Orders
  pub entries : List (Bytes × (List Bytes × Bool)) → List (Bytes × (List Bytes × Bool))
  pub get_risingwave : S → Bytes → Bytes → Option Cluster
  pub get_secret : S → Bytes → Bytes → SecretAnswer
  pub put_secret : S → Bytes → List (Bytes × Bytes) → Bool × S
  pub get_service : S → Bytes → Bytes → Option (Bytes × Bytes)
  pub pool_get : S → Bytes → Option Cluster → Bytes → ℤ → Bytes × Bytes → Bool × S
  pub code_of : Bytes → Option Bytes
  pub to_lower : Bytes → Bytes
  pub update : S → Managed → Bool × S
  pub update_status : S → UserStatus → Bool × S

-- RisingWaveUserReconciler
pub record Reconciler (S : Type 0) : Type 0 where
  pub state : S
  pub user : Managed
  pub cluster : Option Cluster
  pub events : List Event

-- ctrl.Result and the error.
pub data Exit : Type 0 where
  finished requeue requeue_after_5s requeue_after_10s errored : Exit

abbrev pub finalizer : Bytes
finalizer = codes "risingwaveuser.risingwave.risingwavelabs.com/finalizer"

-- The value at a key of a map.
abbrev pub value_at : Bytes → List (Bytes × Bytes) → Option Bytes
value_at k [] = none
value_at k ((j, v) ∷ m) = if bytes_eq j k then some v else value_at k m

-- setCondition
unfoldable pub store_condition : UserCondition → List UserCondition → List UserCondition
store_condition c [] = c ∷ []
store_condition c (d ∷ conditions) =
    let rest = store_condition c conditions in
    if bytes_eq d.condition_type c.condition_type then c ∷ conditions else d ∷ rest

abbrev pub with_condition : Bytes → Bool → Bytes → UserStatus → UserStatus
with_condition t b reason s = record s {
  conditions =
      store_condition (record { condition_type = t; status = b; reason = reason }) s.conditions;
}

abbrev pub set_phase : Bytes → UserStatus → UserStatus
set_phase phase s = record s { phase = phase }

-- setErrorCondition
unfoldable pub set_error_condition : Bytes → UserStatus → UserStatus
unfolding store_condition
set_error_condition reason s = with_condition (codes "ConnectionError") true reason s

-- isRisingWaveReady
unfoldable pub is_risingwave_ready : Option Cluster → Bool
is_risingwave_ready none = false
is_risingwave_ready (some c) = exists_test (λ e. bytes_eq e.0 (codes "Running") && e.1) c.conditions

unfoldable pub uses_connection_ref : Managed → Bool
uses_connection_ref m = not (is_none m.object.connection_ref)

abbrev pub cluster_name : Option Cluster → Bytes
cluster_name none = []
cluster_name (some c) = c.name

-- getSecretName. The cluster is fetched where no connection is given.
unfoldable pub get_secret_name : Managed → Option Cluster → Bytes
unfolding uses_connection_ref
get_secret_name m cluster =
    if uses_connection_ref m
    then codes "risingwave-direct-" ++ m.object.user.object_name
    else codes "risingwave-" ++ (cluster_name cluster ++ (codes "-" ++ m.object.user.object_name))
