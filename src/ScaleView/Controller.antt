-- ===== src/ScaleView/Controller.antt =====
-- pkg/manager/risingwave_scale_view_controller_manager_impl.go: the four actions of the scale view
-- controller. Each is given the RisingWave that was fetched for it (`none` where there is none) and, as
-- `accepted`, whether the API server takes the request that the action may send. The workflow around
-- the actions is built by the ctrlkit package.
pub mod Scales
pub mod Reaches
pub mod Reports
pub mod Samples
use risingwave_operator.Prelude.{
  and_then, ℕ, ℤ, pos, ◌+ℤ◌, eqb_ℤ, int32, Bool, true, false, ◌&&◌, ◌||◌, not, Option, none, some,
  List, [], ◌∷◌, String, str_eq, if◌then◌else◌, equal, int_eq, option_eq, bool_equal,
}
use risingwave_operator.Lo.{Lo}
use risingwave_operator.ScaleView.{ScalePolicy, Status, ScaleView, GroupLock, Lock}
use risingwave_operator.ScaleView.Locks.{
  Outcome, ok, err, panic, get_scale_view_lock, grab_or_update_scale_view_lock_for,
}
use risingwave_operator.ScaleView.Helper.{RisingWave, write_replicas, unless_panic}

-- ComponentGroupReplicasStatus
pub record GroupStatus : Type 0 where
  pub name : String
  pub running : ℤ

-- RisingWaveComponentsReplicasStatus: the groups of the four components.
pub record ComponentReplicas : Type 0 where
  pub meta : List GroupStatus
  pub frontend : List GroupStatus
  pub compactor : List GroupStatus
  pub compute : List GroupStatus

-- A RisingWave with the part of its status that the controller reads.
pub record Target : Type 0 where
  pub risingwave : RisingWave
  pub component_replicas : ComponentReplicas

-- risingWaveScaleViewControllerManagerImpl: the scale view, and its status when it was fetched.
pub record Manager : Type 0 where
  pub scale_view : ScaleView
  pub status_copy : Status

-- What is sent to the API server.
pub data Request : Type 0 where
  status_of_risingwave : RisingWave → Request
  patch_of_risingwave : RisingWave → Request
  status_of_scale_view : ScaleView → Request

-- How the workflow goes on: `failed` is an error, `crashed` a panic.
pub data Next : Type 0 where
  continue : Next
  requeue_immediately : Next
  requeue_after_5ms : Next
  failed : Next
  crashed : Next

-- What an action does: the manager behind it, the request that it sends, and how to go on.
pub record Action : Type 0 where
  pub manager : Manager
  pub request : Option Request
  pub next : Next

abbrev pub quiet : Manager → Next → Action
quiet mgr next = record { manager = mgr; request = none; next = next }

abbrev status_equal : Status → Status → Bool
status_equal a b = equal a.replicas b.replicas && bool_equal a.locked b.locked

unfoldable pub is_status_changed : Manager → Bool
is_status_changed mgr = not (status_equal mgr.scale_view.status mgr.status_copy)

-- isTargetObjMatched: the fetched RisingWave, if its UID is that of the target reference.
unfoldable pub matched : Manager → Option Target → Option Target
matched mgr none = none
matched mgr (some target) =
    if str_eq target.risingwave.uid mgr.scale_view.spec.target_ref.uid then some target else none

unfoldable pub update_scale_view_status : Bool → Manager → Action
unfolding is_status_changed
update_scale_view_status accepted mgr =
    if is_status_changed mgr
    then record {
      manager = mgr;
      request = some (status_of_scale_view mgr.scale_view);
      next = if accepted then continue else failed;
    }
    else quiet mgr continue

abbrev pub with_status : Manager → Status → Manager
with_status mgr status = record mgr { scale_view = record mgr.scale_view { status = status } }

-- `mgr.scaleView.Status.Locked = true`
abbrev pub marked : Manager → Manager
marked mgr = with_status mgr (record mgr.scale_view.status { locked = true })

-- Behind the lock manager's call.
unfoldable pub grabbed_in_memory : Bool → Manager → RisingWave → Outcome (List Lock × Bool) → Action
grabbed_in_memory accepted mgr risingwave (ok (locks, true)) = record {
  manager = if accepted then marked mgr else mgr;
  request = some (status_of_risingwave (record risingwave { scale_views = locks }));
  next = if accepted then requeue_immediately else failed;
}
grabbed_in_memory accepted mgr risingwave (ok (locks, false)) = quiet mgr continue
grabbed_in_memory accepted mgr risingwave (err e) = quiet mgr failed
grabbed_in_memory accepted mgr risingwave panic = quiet mgr crashed

unfoldable pub grab_for : Lo → Bool → Manager → Option Target → Action
unfolding grabbed_in_memory
grab_for lo accepted mgr none = quiet mgr continue
grab_for lo accepted mgr (some target) =
    grabbed_in_memory accepted mgr target.risingwave
      (grab_or_update_scale_view_lock_for lo mgr.scale_view target.risingwave.scale_views)

unfoldable pub grab_or_update_scale_view_lock : Lo → Bool → Manager → Option Target → Action
unfolding grab_for matched
grab_or_update_scale_view_lock lo accepted mgr target =
    grab_for lo accepted mgr (matched mgr target)

-- The loop over the locks of the groups, and whether a write has changed something.
unfoldable pub write_locks :
    String → List GroupLock → RisingWave × Bool → Option (RisingWave × Bool)
write_locks component [] state = some state
write_locks component (lock ∷ locks) (risingwave, changed) =
    and_then (write_replicas risingwave component lock.name lock.replicas)
      λ (written, updated). write_locks component locks (written, changed || updated)

unfoldable pub patch : Bool → Manager → Option (RisingWave × Bool) → Action
patch accepted mgr none = quiet mgr crashed
patch accepted mgr (some (risingwave, true)) = record {
  manager = mgr;
  request = some (patch_of_risingwave risingwave);
  next = if accepted then continue else failed;
}
patch accepted mgr (some (risingwave, false)) = quiet mgr continue

unfoldable pub sync_lock : Bool → Manager → RisingWave → Option Lock → Action
unfolding patch write_locks
sync_lock accepted mgr risingwave none = quiet mgr requeue_after_5ms
sync_lock accepted mgr risingwave (some lock) =
    if eqb_ℤ lock.generation mgr.scale_view.generation
    then patch accepted mgr
        (write_locks mgr.scale_view.spec.target_ref.component lock.group_locks (risingwave, false))
    else quiet mgr requeue_after_5ms

unfoldable pub sync_for : Bool → Manager → Option Target → Action
unfolding sync_lock
sync_for accepted mgr none = quiet mgr continue
sync_for accepted mgr (some target) =
    sync_lock accepted mgr target.risingwave
      (get_scale_view_lock mgr.scale_view target.risingwave.scale_views)

unfoldable pub sync_group_replicas_to_risingwave : Bool → Manager → Option Target → Action
unfolding sync_for matched
sync_group_replicas_to_risingwave accepted mgr target = sync_for accepted mgr (matched mgr target)

-- lo.Find with the group's name; 0 where there is none.
unfoldable pub running_of : List GroupStatus → String → ℤ
running_of [] group = pos 0
running_of (g ∷ groups) group = if str_eq g.name group then g.running else running_of groups group

-- `none` is the panic.
unfoldable pub read_running_replicas : ComponentReplicas → String → String → Option ℤ
unfolding running_of
read_running_replicas replicas component group =
    if str_eq component "meta"
    then some (running_of replicas.meta group)
    else if str_eq component "frontend"
    then some (running_of replicas.frontend group)
    else if str_eq component "compactor"
    then some (running_of replicas.compactor group)
    else if str_eq component "compute"
    then some (running_of replicas.compute group)
    else none

-- The sum over the scale policy, in int32.
unfoldable pub sum_running : ComponentReplicas → String → List ScalePolicy → ℤ → Option ℤ
unfolding read_running_replicas
sum_running replicas component [] total = some total
sum_running replicas component (p ∷ policies) total =
    and_then (read_running_replicas replicas component p.group)
      λ r. sum_running replicas component policies (int32 (total +ℤ r))

abbrev pub report : Manager → Option ℤ → Action
report mgr none = quiet mgr crashed
report mgr (some total) =
    quiet (with_status mgr (record mgr.scale_view.status { replicas = some total })) continue

unfoldable pub status_for : Manager → Option Target → Action
unfolding sum_running
status_for mgr none =
    quiet (with_status mgr (record { replicas = some (pos 0); locked = false })) continue
status_for mgr (some target) = report mgr (
    sum_running target.component_replicas mgr.scale_view.spec.target_ref.component
      mgr.scale_view.spec.scale_policy (pos 0))

unfoldable pub sync_group_replicas_status_from_risingwave : Manager → Option Target → Action
unfolding status_for matched
sync_group_replicas_status_from_risingwave mgr target = status_for mgr (matched mgr target)
