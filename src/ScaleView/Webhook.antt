-- ===== src/ScaleView/Webhook.antt =====
-- pkg/webhook/risingwave_scale_view_validating_webhook.go: admission of scale views. The errors of
-- `field` are told apart without their texts; the client's Get is a parameter.
pub mod Admits
pub mod Samples
use Prim.Native.String.{compare}
use text.Mathlib.Text.{is_lt}
use risingwave_operator.Prelude.{
  ℤ, pos, ◌+ℤ◌, eqb_ℤ, int32, max_int32, Bool, true, false, ◌&&◌, not, Option, none, some,
  or_default, is_none, List, [], ◌∷◌, ◌++◌, map, String, str_eq, bytes_eq, is_empty, sort_by,
  if◌then◌else◌,
}
use risingwave_operator.Lo.{Lo}
use risingwave_operator.ScaleView.{ScalePolicy, TargetRef, ScaleView, Lock}
use risingwave_operator.ScaleView.Locks.{
  LockError, Outcome, ok, err, panic, grab_scale_view_lock_for,
}
use risingwave_operator.ScaleView.Helper.{RisingWave}

pub data ViewError : Type 0 where
  -- "target name must be provided"
  name_required : ViewError
  -- "uid should be set by mutating webhook"
  uid_required : ViewError
  -- "must not be empty"
  policy_required : ViewError
  -- "at least one unlimited replicas"
  limited : ViewError
  -- "targetRefs should not be different"
  target_changed : ViewError
  -- "labelSelector should not be changed"
  selector_changed : ViewError
  -- "groups should no be changed"
  groups_changed : ViewError

-- The loop: the sum of the limits in int32, cut short by a group without a limit.
unfoldable pub max_from : ℤ → List ScalePolicy → ℤ
max_from max_value [] = max_value
max_from max_value (p ∷ ps) =
    let rest = max_from (int32 (max_value +ℤ or_default p.max_replicas (pos 0))) ps in
    if is_none p.max_replicas then pos max_int32 else rest

unfoldable pub get_scale_view_max_constraints : ScaleView → ℤ
unfolding max_from
get_scale_view_max_constraints obj = max_from (pos 0) obj.spec.scale_policy

abbrev pub check : Bool → ViewError → List ViewError
check b e = if b then e ∷ [] else []

unfoldable pub validate_object : ScaleView → List ViewError
unfolding get_scale_view_max_constraints
validate_object obj =
    check (str_eq obj.spec.target_ref.name "") name_required
    ++ (check (str_eq obj.spec.target_ref.uid "") uid_required
        ++ (check (is_empty obj.spec.scale_policy) policy_required
            ++ check (not (eqb_ℤ (get_scale_view_max_constraints obj) (pos max_int32))) limited))

-- The answers of ValidateCreate; `crashed` is a panic of the division.
pub data Creation : Type 0 where
  created : Creation
  rejected : List ViewError → Creation
  not_read : Creation
  other_uid : Creation
  conflict_detected : LockError → Creation
  crashed : Creation

abbrev pub grabbed_view : Outcome (List Lock) → Creation
grabbed_view (ok locks) = created
grabbed_view (err e) = conflict_detected e
grabbed_view panic = crashed

abbrev with_risingwave : Lo → ScaleView → Option RisingWave → Creation
with_risingwave lo obj none = not_read
with_risingwave lo obj (some risingwave) =
    if str_eq obj.spec.target_ref.uid risingwave.uid
    then grabbed_view (grab_scale_view_lock_for lo obj risingwave.scale_views)
    else other_uid

-- `read` is the client's Get of a RisingWave by namespace and name.
unfoldable pub validate_create : Lo → (String → String → Option RisingWave) → ScaleView → Creation
unfolding validate_object grab_scale_view_lock_for
validate_create lo read obj =
    let errors = validate_object obj in
    if is_empty errors
    then with_risingwave lo obj (read obj.namespace obj.spec.target_ref.name)
    else rejected errors

-- sort.Strings, and slices.Equal.
abbrev pub before : String → String → Bool
before a b = is_lt (compare a b)

abbrev pub sort_strings : List String → List String
sort_strings = sort_by before

abbrev pub lists_equal : List String → List String → Bool
lists_equal [] [] = true
lists_equal [] (t ∷ ts) = false
lists_equal (s ∷ ss) [] = false
lists_equal (s ∷ ss) (t ∷ ts) = str_eq s t && lists_equal ss ts

abbrev pub same_target : TargetRef → TargetRef → Bool
same_target a b = str_eq a.name b.name && (str_eq a.component b.component && str_eq a.uid b.uid)

abbrev pub group_list : Lo → ScaleView → List String
group_list lo obj = lo.map ScalePolicy String obj.spec.scale_policy (λ t _. t.group)

unfoldable pub update_errors : Lo → ScaleView → ScaleView → List ViewError
unfolding bytes_eq
update_errors lo old_obj new_obj =
    check (not (same_target old_obj.spec.target_ref new_obj.spec.target_ref)) target_changed
    ++ (check (not (bytes_eq old_obj.spec.label_selector new_obj.spec.label_selector))
          selector_changed
        ++ check
            (not (
              lists_equal (sort_strings (group_list lo old_obj))
                (sort_strings (group_list lo new_obj))))
            groups_changed)

unfoldable pub validate_update : Lo → ScaleView → ScaleView → List ViewError
unfolding validate_object update_errors
validate_update lo old_obj new_obj =
    let errors = validate_object new_obj in
    if is_empty errors then update_errors lo old_obj new_obj else errors
