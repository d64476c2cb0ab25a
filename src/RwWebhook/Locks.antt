-- ===== src/RwWebhook/Locks.antt =====
-- pkg/webhook/risingwave_validating_webhook.go: what an update may change, the locks of scale views
-- included, and the webhook's three entries. The reads of replicas are those of ScaleView/Helper.antt,
-- which panic on a component that does not exist.
use risingwave_operator.Prelude.{
  and_then, ℕ, ◌+◌, ℤ, pos, eqb_ℤ, Bool, ◌&&◌, ◌||◌, not, List, [], ◌∷◌, ◌++◌, Option, none, some,
  or_default, String, ltb, is_none, if◌then◌else◌, equal,
}
use risingwave_operator.Stores.{PrivateKey, meta_store_eq, state_store_eq, private_key_eq}
use risingwave_operator.UserWebhook.{Segment, index, forbidden, FieldError}
use risingwave_operator.UserWebhook.Checks.{at}
use risingwave_operator.ScaleView.{GroupLock, Lock}
use risingwave_operator.ScaleView.Helper.{RisingWave, read_replicas, get_group_index, unless_panic}
use risingwave_operator.RwWebhook.{Object, Patterns, view}
use risingwave_operator.RwWebhook.Checks.{spec_path, is_bypassed, validate_create}

unfoldable pub path_for_group_replicas : RisingWave → String → String → Option (List Segment)
path_for_group_replicas risingwave component group =
    unless_panic
      (λ found.
        at ((at (at (at spec_path "components") component) "nodeGroups") ++ index found.0 ∷ [])
          "replicas")
      (get_group_index risingwave component group)

abbrev pub locked_at : List Segment → List FieldError
locked_at path = record { kind = forbidden; path = path } ∷ []

-- The counters of groups that an update leaves alone and that it moves, in one scale view.
pub record Counters : Type 0 where
  pub unchanged : ℕ
  pub updated : ℕ

-- The switch on the new replicas.
unfoldable pub counted : Counters → ℤ → ℤ → ℤ → Counters
counted n cur lock old =
    if eqb_ℤ cur lock
    then record n { updated = n.updated + 1 }
    else if eqb_ℤ cur old
    then record n { unchanged = n.unchanged + 1 }
    else record n { updated = n.updated + 1 }

unfoldable pub breaks_lock : Counters → ℤ → ℤ → ℤ → Bool
breaks_lock n cur lock old =
    ltb 0 n.unchanged && not (eqb_ℤ cur old) || ltb 0 n.updated && not (eqb_ℤ cur lock)

-- One lock of a group, with the replicas that the old and the new object have for it.
unfoldable pub check_group_lock :
    RisingWave
    → RisingWave
    → String
    → Counters
    → GroupLock
    → Option ℤ
    → Option ℤ
    → Option (List FieldError × Counters)
unfolding path_for_group_replicas counted breaks_lock
check_group_lock old new component n lock before none =
    unless_panic (λ path. (locked_at path, n)) (path_for_group_replicas old component lock.name)
check_group_lock old new component n lock before (some cur) =
    let n' = counted n cur lock.replicas (or_default before (pos 0)) in
    if breaks_lock n' cur lock.replicas (or_default before (pos 0))
    then unless_panic (λ path. (locked_at path, n'))
        (path_for_group_replicas new component lock.name)
    else some ([], n')

unfoldable pub check_group_locks :
    RisingWave → RisingWave → String → Counters → List GroupLock → Option (List FieldError)
unfolding check_group_lock
check_group_locks old new component n [] = some []
check_group_locks old new component n (lock ∷ locks) =
    and_then (read_replicas old component lock.name) λ before.
      and_then (read_replicas new component lock.name) λ current.
        and_then (check_group_lock old new component n lock before current) λ (errors, n').
          unless_panic (λ rest. errors ++ rest) (check_group_locks old new component n' locks)

unfoldable pub check_scale_views : RisingWave → RisingWave → List Lock → Option (List FieldError)
unfolding check_group_locks
check_scale_views old new [] = some []
check_scale_views old new (scale_view ∷ scale_views) =
    and_then
      (check_group_locks old new scale_view.component (record { unchanged = 0; updated = 0 })
        scale_view.group_locks)
      λ errors. unless_panic (λ rest. errors ++ rest) (check_scale_views old new scale_views)

abbrev pub is_private_key_set : PrivateKey → Bool
is_private_key_set key = not (is_none key.value) || not (is_none key.secret_ref)

unfoldable pub is_secret_store_change_allowed : Object → Object → Bool
is_secret_store_change_allowed old new =
    not (is_private_key_set old.private_key) || equal old.private_key new.private_key

-- What the webhook answers: `crashed` is a panic.
pub data Answer : Type 0 where
  admitted : Answer
  refused : List FieldError → Answer
  crashed : Answer

abbrev pub answer : Option (List FieldError) → Answer
answer none = crashed
answer (some []) = admitted
answer (some (e ∷ es)) = refused (e ∷ es)

unfoldable pub update_answer : Object → Object → Answer
unfolding is_secret_store_change_allowed check_scale_views
update_answer old new =
    if not (equal old.meta_store new.meta_store)
    then refused (locked_at (at spec_path "metaStore"))
    else if not (equal old.state_store new.state_store)
    then refused (locked_at (at spec_path "stateStore"))
    else if not (is_secret_store_change_allowed old new)
    then refused (locked_at (at spec_path "secretStore"))
    else answer (check_scale_views (view old) (view new) new.scale_views)

-- The answer to the new object by itself comes first.
abbrev pub then_answer : Answer → Answer → Answer
then_answer admitted rest = rest
then_answer (refused errors) rest = refused errors
then_answer crashed rest = crashed

module _ (patterns : Patterns) (open_kruise_available : Bool) where
  -- ValidateCreate
  unfoldable pub admit_create : Object → Answer
  unfolding is_bypassed validate_create
  admit_create obj =
      if is_bypassed obj
      then admitted
      else answer (validate_create patterns open_kruise_available obj)

  -- ValidateUpdate
  unfoldable pub admit_update : Object → Object → Answer
  unfolding admit_create update_answer is_bypassed
  admit_update old new =
      if is_bypassed new then admitted else then_answer (admit_create new) (update_answer old new)
