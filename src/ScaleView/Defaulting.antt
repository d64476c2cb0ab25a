-- ===== src/ScaleView/Defaulting.antt =====
-- pkg/webhook/risingwave_scale_view_mutating_webhook.go: what a scale view is filled in with when it is
-- created. The client's Get is a parameter.
pub mod Reads
pub mod Samples
use risingwave_operator.Prelude.{
  ℕ, suc, ℤ, pos, ◌+ℤ◌, ltb_ℤ, int32, Bool, true, false, Option, none, some, List, [], ◌∷◌, ◌++◌,
  map, String, str_eq, Bytes, codes, is_empty, not, if◌then◌else◌,
}
use risingwave_operator.Lo.{Lo}
use risingwave_operator.ScaleView.{ScalePolicy, ScaleView}
use risingwave_operator.ScaleView.Helper.{
  RisingWave, unless_panic, read_replicas, list_component_groups,
}

-- What Get answers: the object, or NotFound, or another error.
pub data Answer : Type 0 where
  found : RisingWave → Answer
  not_found : Answer
  failed : Answer

pub data DefaultError : Type 0 where
  -- "uid must be empty and set by webhook"
  uid_not_empty : DefaultError
  -- "target risingwave not found"
  target_not_found : DefaultError
  -- "replicas of RisingWave out of range", with the policy's index and the replicas
  out_of_range : ℕ → ℤ → DefaultError
  -- "target group not found: ..."
  group_not_found : ℕ → String → DefaultError

pub data Defaulted : Type 0 where
  defaulted : ScaleView → Defaulted
  refused : List DefaultError → Defaulted
  crashed : Defaulted

-- strings.Join(groups, ",")
unfoldable pub join_names : List String → Bytes
join_names [] = []
join_names (g ∷ []) = codes g
join_names (g ∷ h ∷ gs) = codes g ++ (codes "," ++ join_names (h ∷ gs))

unfoldable pub set_label_selector : Lo → ScaleView → ScaleView
unfolding join_names
set_label_selector lo obj =
    let target = obj.spec.target_ref in
    let groups = lo.map ScalePolicy String obj.spec.scale_policy (λ t _. t.group) in
    record obj {
      spec = record obj.spec {
        label_selector =
            codes "risingwave/name="
            ++ (codes target.name
                ++ (codes ","
                    ++ (codes "risingwave/component="
                        ++ (codes target.component
                            ++ (codes ","
                                ++ (codes "risingwave/group in ("
                                    ++ (join_names groups ++ codes ")")))))));
      };
    }

-- A RisingWave that was declared and never filled.
abbrev pub zero_risingwave : RisingWave
zero_risingwave = record {
  uid = "";
  meta = [];
  frontend = [];
  compactor = [];
  compute = [];
  scale_views = [];
}

-- One policy: its errors, or a panic, and the sum with its replicas.
abbrev pub exceeds : Option ℤ → ℤ → Bool
exceeds none r = false
exceeds (some limit) r = ltb_ℤ limit r

abbrev pub policy_errors : ℕ → ScalePolicy → Option (Option ℤ) → Option (List DefaultError)
policy_errors i p none = none
policy_errors i p (some none) = some (group_not_found i p.group ∷ [])
policy_errors i p (some (some r)) =
    some (if exceeds p.max_replicas r then out_of_range i r ∷ [] else [])

abbrev pub add_read : ℤ → Option (Option ℤ) → ℤ
add_read total none = total
add_read total (some none) = total
add_read total (some (some r)) = int32 (total +ℤ r)

abbrev pub with_errors :
    Option (List DefaultError) → Option (ℤ × List DefaultError) → Option (ℤ × List DefaultError)
with_errors none rest = none
with_errors (some es) none = none
with_errors (some es) (some (total, more)) = some (total, es ++ more)

-- The loop over the policies.
unfoldable pub read_policies :
    RisingWave → String → ℕ → ℤ → List ScalePolicy → Option (ℤ × List DefaultError)
unfolding read_replicas
read_policies risingwave component i total [] = some (total, [])
read_policies risingwave component i total (p ∷ ps) =
    let r = read_replicas risingwave component p.group in
    with_errors (policy_errors i p r)
      (read_policies risingwave component (suc i) (add_read total r) ps)

-- A policy that only names its group.
abbrev pub default_policy : String → ScalePolicy
default_policy group = record { group = group; priority = pos 0; max_replicas = none }

unfoldable pub default_policies : RisingWave → ScaleView → Option (List ScalePolicy)
unfolding list_component_groups
default_policies risingwave obj =
    if is_empty obj.spec.scale_policy
    then unless_panic (map default_policy)
        (list_component_groups risingwave obj.spec.target_ref.component)
    else some obj.spec.scale_policy

abbrev pub filled : RisingWave → ScaleView → List ScalePolicy → ℤ → ScaleView
filled risingwave obj policies total = record obj {
  spec = record obj.spec {
    target_ref = record obj.spec.target_ref { uid = risingwave.uid };
    replicas = some total;
    scale_policy = policies;
  };
}

abbrev pub finish_read :
    RisingWave → ScaleView → List ScalePolicy → Option (ℤ × List DefaultError) → Defaulted
finish_read risingwave obj policies none = crashed
finish_read risingwave obj policies (some (total, [])) =
    defaulted (filled risingwave obj policies total)
finish_read risingwave obj policies (some (total, e ∷ es)) = refused (e ∷ es)

abbrev pub read_with : RisingWave → ScaleView → Option (List ScalePolicy) → Defaulted
read_with risingwave obj none = crashed
read_with risingwave obj (some policies) =
    finish_read risingwave obj policies
      (read_policies risingwave obj.spec.target_ref.component 0 (pos 0) policies)

-- readGroupReplicasFromRisingWave: an error other than NotFound is passed over.
unfoldable pub read_group_replicas_from_risingwave : Answer → ScaleView → Defaulted
unfolding default_policies read_policies
read_group_replicas_from_risingwave (found risingwave) obj =
    read_with risingwave obj (default_policies risingwave obj)
read_group_replicas_from_risingwave not_found obj = refused (target_not_found ∷ [])
read_group_replicas_from_risingwave failed obj =
    read_with zero_risingwave obj (default_policies zero_risingwave obj)

abbrev pub select : Lo → Defaulted → Defaulted
select lo (defaulted obj) = defaulted (set_label_selector lo obj)
select lo (refused es) = refused es
select lo crashed = crashed

unfoldable pub set_default : Lo → (String → String → Answer) → ScaleView → Defaulted
unfolding read_group_replicas_from_risingwave set_label_selector
set_default lo get obj =
    if not (str_eq obj.spec.target_ref.uid "")
    then refused (uid_not_empty ∷ [])
    else select lo
        (read_group_replicas_from_risingwave (get obj.namespace obj.spec.target_ref.name) obj)
