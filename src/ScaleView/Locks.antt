-- ===== src/ScaleView/Locks.antt =====
-- pkg/object/scale_view_lock_manager.go: the lock records of scale views in the status of a
-- RisingWave object. The state is the list `.status.scaleViews`.
mod Checks
pub mod Exclusive
pub mod Grab
pub mod Update
pub mod Wanted
mod Samples
use risingwave_operator.Prelude.{
  ℕ, zero, suc, ℤ, eqb_ℤ, Bool, true, false, ◌&&◌, not, Option, none, some, is_none, List, [], ◌∷◌,
  ◌++◌, String, str_eq, if◌then◌else◌, take, drop,
}
use risingwave_operator.Lo.{Lo}
use risingwave_operator.ScaleView.{ScalePolicy, ScaleView, GroupLock, Lock}
use risingwave_operator.ScaleView.Split.{Replicas, get, split_replicas}

pub data LockError : Type 0 where
  -- "scale view found but uid mismatch"
  uid_mismatch : LockError
  -- "already grabbed"
  already_grabbed : LockError
  -- "lock conflict on group ..., already returnErr by ..."
  conflict : String → String → LockError

-- A result, an error, or the panic of the division.
pub data Outcome (A : Type 0) : Type 0 where
  ok : A → Outcome A
  err : LockError → Outcome A
  panic : Outcome A

-- s.Name == sv.Name && s.UID == sv.UID
pub is_lock_of : ScaleView → Lock → Bool
is_lock_of sv s = str_eq s.name sv.name && str_eq s.uid sv.uid

-- The index is that of the first lock of the scale view.
pub find_from : ScaleView → ℕ → List Lock → Option (ℕ × Lock)
find_from sv i [] = none
find_from sv i (s ∷ locks) = if is_lock_of sv s then some (i, s) else find_from sv (suc i) locks

pub get_scale_view_lock_index : ScaleView → List Lock → Option (ℕ × Lock)
unfolding find_from is_lock_of
get_scale_view_lock_index sv locks = find_from sv 0 locks

abbrev pub lock_of : Option (ℕ × Lock) → Option Lock
lock_of none = none
lock_of (some (i, lock)) = some lock

unfoldable pub get_scale_view_lock : ScaleView → List Lock → Option Lock
unfolding get_scale_view_lock_index
get_scale_view_lock sv locks = lock_of (get_scale_view_lock_index sv locks)

unfoldable pub is_scale_view_locked : ScaleView → List Lock → Bool
unfolding get_scale_view_lock
is_scale_view_locked sv locks = not (is_none (get_scale_view_lock sv locks))

-- The first policy whose group is locked already.
pub first_conflict : Lo → List String → List ScalePolicy → Option String
first_conflict lo locked_groups [] = none
first_conflict lo locked_groups (sp ∷ policies) =
    if lo.contains locked_groups sp.group
    then some sp.group
    else first_conflict lo locked_groups policies

-- One round of the loop over the locks.
pub check_lock : Lo → ScaleView → Lock → Option LockError
unfolding first_conflict is_lock_of
check_lock lo sv s =
    if str_eq s.name sv.name && not (str_eq s.uid sv.uid)
    then some uid_mismatch
    else if is_lock_of sv s
    then some already_grabbed
    else if str_eq s.component sv.spec.target_ref.component
    then elim (first_conflict lo (lo.map GroupLock String s.group_locks (λ t _. t.name))
        sv.spec.scale_policy) [ none ↦ none | some group ↦ some (conflict group s.name) ]
    else none

pub check_locks : Lo → ScaleView → List Lock → Option LockError
unfolding check_lock
check_locks lo sv [] = none
check_locks lo sv (s ∷ locks) = elim (check_lock lo sv s) [
  | none ↦ check_locks lo sv locks
  | some e ↦ some e
]

-- The locks of the groups, with the replicas that the division gives them.
pub group_locks_for : Lo → ScaleView → Replicas → List GroupLock
unfolding get
group_locks_for lo sv group_replicas =
    lo.map ScalePolicy GroupLock sv.spec.scale_policy
      (λ t _. record { name = t.group; replicas = get group_replicas t.group })

pub new_lock : Lo → ScaleView → Replicas → Lock
unfolding group_locks_for
new_lock lo sv group_replicas = record {
  name = sv.name;
  uid = sv.uid;
  component = sv.spec.target_ref.component;
  generation = sv.generation;
  group_locks = group_locks_for lo sv group_replicas;
}

-- The part of GrabScaleViewLockFor behind the division.
pub append_lock : Lo → ScaleView → List Lock → Replicas → Outcome (List Lock)
unfolding check_locks new_lock
append_lock lo sv locks group_replicas = elim (check_locks lo sv locks) [
  | none ↦ ok (locks ++ new_lock lo sv group_replicas ∷ [])
  | some e ↦ err e
]

pub grab_divided : Lo → ScaleView → List Lock → Option Replicas → Outcome (List Lock)
unfolding append_lock
grab_divided lo sv locks none = panic
grab_divided lo sv locks (some group_replicas) = append_lock lo sv locks group_replicas

unfoldable pub grab_scale_view_lock_for : Lo → ScaleView → List Lock → Outcome (List Lock)
unfolding grab_divided
grab_scale_view_lock_for lo sv locks = grab_divided lo sv locks (split_replicas lo sv)

-- A write through the pointer to the lock at an index.
pub set_lock : ℕ → Lock → List Lock → List Lock
set_lock i l [] = []
set_lock zero l (s ∷ locks) = l ∷ locks
set_lock (suc i) l (s ∷ locks) = s ∷ set_lock i l locks

pub refreshed : Lo → ScaleView → Lock → Replicas → Lock
unfolding group_locks_for
refreshed lo sv lock group_replicas = record lock {
  generation = sv.generation;
  group_locks = group_locks_for lo sv group_replicas;
}

-- The new locks, and whether they were updated.
grabbed : Outcome (List Lock) → Outcome (List Lock × Bool)
grabbed (ok locks) = ok (locks, true)
grabbed (err e) = err e
grabbed panic = panic

pub update_divided :
    Lo → ScaleView → List Lock → ℕ → Lock → Option Replicas → Outcome (List Lock × Bool)
unfolding set_lock refreshed
update_divided lo sv locks i lock none = panic
update_divided lo sv locks i lock (some group_replicas) =
    ok (set_lock i (refreshed lo sv lock group_replicas) locks, true)

pub update_lock : Lo → ScaleView → List Lock → ℕ → Lock → Outcome (List Lock × Bool)
unfolding update_divided
update_lock lo sv locks i lock =
    if eqb_ℤ lock.generation sv.generation
    then ok (locks, false)
    else update_divided lo sv locks i lock (split_replicas lo sv)

pub grab_or_update_at : Lo → ScaleView → List Lock → Option (ℕ × Lock) → Outcome (List Lock × Bool)
unfolding grabbed grab_scale_view_lock_for update_lock
grab_or_update_at lo sv locks none = grabbed (grab_scale_view_lock_for lo sv locks)
grab_or_update_at lo sv locks (some (i, lock)) = update_lock lo sv locks i lock

unfoldable pub grab_or_update_scale_view_lock_for :
    Lo → ScaleView → List Lock → Outcome (List Lock × Bool)
unfolding get_scale_view_lock_index grab_or_update_at
grab_or_update_scale_view_lock_for lo sv locks =
    grab_or_update_at lo sv locks (get_scale_view_lock_index sv locks)

pub release_at : List Lock → Option (ℕ × Lock) → List Lock × Bool
release_at locks none = (locks, false)
release_at locks (some (i, lock)) = (take i locks ++ drop (suc i) locks, true)

unfoldable pub release_lock_for : ScaleView → List Lock → List Lock × Bool
unfolding get_scale_view_lock_index release_at
release_lock_for sv locks = release_at locks (get_scale_view_lock_index sv locks)
