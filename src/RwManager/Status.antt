-- ===== src/RwManager/Status.antt =====
-- The status of a RisingWave as apis/risingwave/v1alpha1/risingwave_types.go has it, and the comparison
-- of equality.Semantic.DeepEqual on it.
use risingwave_operator.Prelude.{
  ℕ, ℤ, ◌≡◌, Bool, true, ◌&&◌, Option, List, String, Eq, equal, equal_sound, and_parts, int_eq,
  string_eq, nat_equality, list_eq, option_eq,
}
use risingwave_operator.Stores.{Fields}
use risingwave_operator.ScaleView.{GroupLock, Lock}

-- RisingWaveCondition: without a time where that is zero.
pub record Condition : Type 0 where
  pub kind : String
  pub status : String
  pub last_transition_time : Option ℕ
  pub reason : String
  pub message : String

-- RisingWaveStatus: `fields` is the rest of it.
pub record InstanceStatus : Type 0 where
  pub observed_generation : ℤ
  pub conditions : List Condition
  pub scale_views : List Lock
  pub fields : Fields

abbrev pub group_lock_equal : GroupLock → GroupLock → Bool
group_lock_equal a b = equal a.name b.name && (equal a.replicas b.replicas)

pub group_lock_sound : (a b : GroupLock) → group_lock_equal a b ≡ true → a ≡ b
group_lock_sound a b h =
    let (e_name, h0) = and_parts (equal a.name b.name) _ h in
    let p_name = equal_sound a.name b.name e_name in
    let p_replicas = equal_sound a.replicas b.replicas h0 in
    λ i. record { name = p_name i; replicas = p_replicas i }

instance abbrev pub group_lock_eq : Eq GroupLock
group_lock_eq = record { beq = group_lock_equal; sound = group_lock_sound }

abbrev pub lock_equal : Lock → Lock → Bool
lock_equal a b =
    equal a.name b.name
    && (equal a.uid b.uid
        && (equal a.component b.component
            && (equal a.generation b.generation && (equal a.group_locks b.group_locks))))

pub lock_sound : (a b : Lock) → lock_equal a b ≡ true → a ≡ b
lock_sound a b h =
    let (e_name, h0) = and_parts (equal a.name b.name) _ h in
    let (e_uid, h1) = and_parts (equal a.uid b.uid) _ h0 in
    let (e_component, h2) = and_parts (equal a.component b.component) _ h1 in
    let (e_generation, h3) = and_parts (equal a.generation b.generation) _ h2 in
    let p_name = equal_sound a.name b.name e_name in
    let p_uid = equal_sound a.uid b.uid e_uid in
    let p_component = equal_sound a.component b.component e_component in
    let p_generation = equal_sound a.generation b.generation e_generation in
    let p_group_locks = equal_sound a.group_locks b.group_locks h3 in
    λ i. record {
      name = p_name i;
      uid = p_uid i;
      component = p_component i;
      generation = p_generation i;
      group_locks = p_group_locks i;
    }

instance abbrev pub lock_eq : Eq Lock
lock_eq = record { beq = lock_equal; sound = lock_sound }

abbrev pub condition_equal : Condition → Condition → Bool
condition_equal a b =
    equal a.kind b.kind
    && (equal a.status b.status
        && (equal a.last_transition_time b.last_transition_time
            && (equal a.reason b.reason && (equal a.message b.message))))

pub condition_sound : (a b : Condition) → condition_equal a b ≡ true → a ≡ b
condition_sound a b h =
    let (e_kind, h0) = and_parts (equal a.kind b.kind) _ h in
    let (e_status, h1) = and_parts (equal a.status b.status) _ h0 in
    let (e_last_transition_time, h2) =
      and_parts (equal a.last_transition_time b.last_transition_time) _ h1 in
    let (e_reason, h3) = and_parts (equal a.reason b.reason) _ h2 in
    let p_kind = equal_sound a.kind b.kind e_kind in
    let p_status = equal_sound a.status b.status e_status in
    let p_last_transition_time =
      equal_sound a.last_transition_time b.last_transition_time e_last_transition_time in
    let p_reason = equal_sound a.reason b.reason e_reason in
    let p_message = equal_sound a.message b.message h3 in
    λ i. record {
      kind = p_kind i;
      status = p_status i;
      last_transition_time = p_last_transition_time i;
      reason = p_reason i;
      message = p_message i;
    }

instance abbrev pub condition_eq : Eq Condition
condition_eq = record { beq = condition_equal; sound = condition_sound }

abbrev pub instance_status_equal : InstanceStatus → InstanceStatus → Bool
instance_status_equal a b =
    equal a.observed_generation b.observed_generation
    && (equal a.conditions b.conditions
        && (equal a.scale_views b.scale_views && (equal a.fields b.fields)))

pub instance_status_sound : (a b : InstanceStatus) → instance_status_equal a b ≡ true → a ≡ b
instance_status_sound a b h =
    let (e_observed_generation, h0) =
      and_parts (equal a.observed_generation b.observed_generation) _ h in
    let (e_conditions, h1) = and_parts (equal a.conditions b.conditions) _ h0 in
    let (e_scale_views, h2) = and_parts (equal a.scale_views b.scale_views) _ h1 in
    let p_observed_generation =
      equal_sound a.observed_generation b.observed_generation e_observed_generation in
    let p_conditions = equal_sound a.conditions b.conditions e_conditions in
    let p_scale_views = equal_sound a.scale_views b.scale_views e_scale_views in
    let p_fields = equal_sound a.fields b.fields h2 in
    λ i. record {
      observed_generation = p_observed_generation i;
      conditions = p_conditions i;
      scale_views = p_scale_views i;
      fields = p_fields i;
    }

instance abbrev pub instance_status_eq : Eq InstanceStatus
instance_status_eq = record { beq = instance_status_equal; sound = instance_status_sound }
