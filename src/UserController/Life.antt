-- ===== src/UserController/Life.antt =====
-- Reconcile, reconcileNormal and reconcileDelete.
use risingwave_operator.Prelude.{
  Bool, true, false, ◌||◌, not, Option, none, some, or_default, is_none, List, [], ◌∷◌, ◌++◌, Bytes,
  codes, bytes_eq, keep, exists_test, if◌then◌else◌,
}
use risingwave_operator.Rwclient.Sql.{get_user_name, build_drop_user_sql}
use risingwave_operator.UserWebhook.{RisingWaveReference, get_auth_type}
use risingwave_operator.UserController.Reconcile.{
  Managed, Cluster, World, Reconciler, Exit, finished, requeue, requeue_after_5s, requeue_after_10s,
  errored, finalizer, value_at, with_condition, set_phase, set_error_condition, is_risingwave_ready,
  uses_connection_ref,
}
use risingwave_operator.UserController.Steps.{
  non_empty, on_status, run, send_status, update_user, establish_connection, get_password,
  create_or_update_secret, ensure_user_exists, reconcile_permissions, rotate_password,
  apply_user_privileges,
}

-- The loop that looks for the finalizer, and the one that drops it.
abbrev pub has_finalizer : List Bytes → Bool
has_finalizer = exists_test (λ f. bytes_eq f finalizer)

abbrev pub without_finalizer : List Bytes → List Bytes
without_finalizer = keep (λ f. not (bytes_eq f finalizer))

abbrev pub without_key : Bytes → List (Bytes × Bytes) → List (Bytes × Bytes)
without_key k = keep (λ e. not (bytes_eq e.0 k))

abbrev pub rotate_annotation : Bytes
rotate_annotation = codes "risingwave.risingwavelabs.com/rotate-password"

abbrev pub pause_annotation : Bytes
pause_annotation = codes "risingwave.risingwavelabs.com/pause-reconcile"

abbrev pub wants_rotation : Managed → Bool
wants_rotation m =
    bytes_eq (or_default (value_at rotate_annotation m.annotations) []) (codes "true")

-- The secret is written for users with a password.
abbrev pub has_password : Managed → Bool
has_password m = bytes_eq (get_auth_type m.object) (codes "password") || is_none m.object.auth

module _ {S : Type 0} (world : World S) where
  -- The status update, and the exit if it succeeds.
  abbrev pub exit_with : Exit → Bool × Reconciler S → Exit × Reconciler S
  exit_with exit (true, r) = (exit, r)
  exit_with exit (false, r) = (errored, r)

  -- The phase Failed and an error condition are reported.
  unfoldable pub fail : Bytes → Exit → Reconciler S → Exit × Reconciler S
  unfolding send_status set_error_condition
  fail reason exit r = exit_with exit (
      send_status world
        (on_status world (λ t. set_error_condition reason (set_phase (codes "Failed") t)) r))

  -- The end of a reconciliation that succeeds.
  abbrev pub ready_status : Reconciler S → Reconciler S
  ready_status r =
      on_status world
        (λ t.
          record (with_condition (codes "Ready") true (codes "Ready")
            (set_phase (codes "Ready") t)) {
              observed_generation = r.user.generation;
              connected = true;
            })
        r

  abbrev pub after_secret : Bool × Reconciler S → Exit × Reconciler S
  after_secret (false, r) = fail (codes "SecretCreationFailed") errored r
  after_secret (true, r) = exit_with finished (send_status world (ready_status r))

  abbrev pub secret_step : Bytes → Reconciler S → Bool × Reconciler S
  secret_step password r =
      if has_password r.user then create_or_update_secret world password r else (true, r)

  abbrev pub synced : Reconciler S → Reconciler S
  synced = on_status world (λ t.
      with_condition (codes "PrivilegesSynced") true (codes "PrivilegesSynced")
        (record t { privileges_synced = true }))

  abbrev pub after_privileges : Bytes → Bool × Reconciler S → Exit × Reconciler S
  after_privileges password (false, r) = fail (codes "PrivilegeSyncFailed") errored r
  after_privileges password (true, r) = after_secret (secret_step password (synced r))

  abbrev pub after_permissions : Bytes → Bool × Reconciler S → Exit × Reconciler S
  after_permissions password (false, r) = fail (codes "UserPermissionSyncFailed") errored r
  after_permissions password (true, r) =
      after_privileges password
        (apply_user_privileges world (on_status world (set_phase (codes "Updating")) r))

  abbrev pub after_user : Bytes → Bool × Reconciler S → Exit × Reconciler S
  after_user password (false, r) = fail (codes "UserCreationFailed") errored r
  after_user password (true, r) = after_permissions password (reconcile_permissions world r)

  abbrev pub after_password : Option Bytes × Reconciler S → Exit × Reconciler S
  after_password (none, r) = fail (codes "PasswordError") errored r
  after_password (some password, r) = after_user password (ensure_user_exists world password r)

  abbrev pub after_rotation : Bool × Reconciler S → Exit × Reconciler S
  after_rotation (false, r) = fail (codes "PasswordRotationFailed") errored r
  after_rotation (true, r) = exit_with requeue (
      update_user world
        (record r.user { annotations = without_key rotate_annotation r.user.annotations }) r)

  -- Behind the connection.
  unfoldable pub sync_user : Reconciler S → Exit × Reconciler S
  unfolding rotate_password update_user get_password ensure_user_exists reconcile_permissions
      apply_user_privileges create_or_update_secret send_status fail
  sync_user r =
      if wants_rotation r.user
      then after_rotation (rotate_password world r)
      else after_password (get_password world r)

  abbrev pub after_connection : Bool × Reconciler S → Exit × Reconciler S
  after_connection (false, r) = fail (codes "ConnectionFailed") requeue_after_5s r
  after_connection (true, r) = sync_user r

  -- With neither a risingWaveRef nor a connectionRef, which the webhook refuses, the code panics here.
  unfoldable pub fetch_risingwave : Reconciler S → Option RisingWaveReference → Option Cluster
  fetch_risingwave r none = none
  fetch_risingwave r (some ref) =
      world.get_risingwave r.state (non_empty ref.namespace r.user.object.namespace) ref.name

  -- The cluster is not ready.
  unfoldable pub report_pending : Reconciler S → Exit × Reconciler S
  unfolding send_status
  report_pending r = exit_with requeue_after_10s (
      send_status world (
        on_status world
          (λ t.
            with_condition (codes "Ready") false (codes "RisingWaveNotReady")
              (set_phase (codes "Pending") t))
          r))

  -- Behind the fetch of the cluster.
  abbrev pub after_cluster : Reconciler S → Option Cluster → Exit × Reconciler S
  after_cluster r none = fail (codes "FailedToFetchRisingWave") errored r
  after_cluster r (some c) =
      if is_risingwave_ready (some c)
      then after_connection (establish_connection world (record r { cluster = some c }))
      else report_pending (record r { cluster = some c })

  unfoldable pub reconcile_normal : Reconciler S → Exit × Reconciler S
  unfolding update_user sync_user fail report_pending establish_connection fetch_risingwave
      is_risingwave_ready uses_connection_ref
  reconcile_normal r =
      if not (has_finalizer r.user.finalizers)
      then exit_with requeue
          (update_user world (record r.user { finalizers = r.user.finalizers ++ finalizer ∷ [] }) r)
      else if uses_connection_ref r.user
      then after_connection (establish_connection world r)
      else after_cluster r (fetch_risingwave r r.user.object.risingwave_ref)

  -- The end of a deletion.
  unfoldable pub remove_finalizer : Reconciler S → Exit × Reconciler S
  unfolding update_user
  remove_finalizer r =
      exit_with finished
        (update_user world (record r.user { finalizers = without_finalizer r.user.finalizers }) r)

  abbrev pub after_drop : Option Bytes × Reconciler S → Exit × Reconciler S
  after_drop (some message, r) = (errored, r)
  after_drop (none, r) = remove_finalizer r

  abbrev pub drop_on : Bool × Reconciler S → Exit × Reconciler S
  drop_on (false, r) = remove_finalizer r
  drop_on (true, r) =
      after_drop (run world (build_drop_user_sql (get_user_name r.user.object.user)) r)

  abbrev pub drop_from : Reconciler S → Option Cluster → Exit × Reconciler S
  drop_from r none = (errored, r)
  drop_from r (some c) =
      if is_risingwave_ready (some c)
      then drop_on (establish_connection world (record r { cluster = some c }))
      else remove_finalizer (record r { cluster = some c })

  unfoldable pub reconcile_delete : Reconciler S → Exit × Reconciler S
  unfolding remove_finalizer run establish_connection fetch_risingwave is_risingwave_ready
      uses_connection_ref build_drop_user_sql get_user_name
  reconcile_delete r =
      let d = on_status world (set_phase (codes "Deleting")) r in
      if not d.user.status.user_created
      then remove_finalizer d
      else if uses_connection_ref d.user
      then drop_on (establish_connection world d)
      else drop_from d (fetch_risingwave d d.user.object.risingwave_ref)

  -- Reconcile, behind the Get of the user.
  unfoldable pub reconcile : Reconciler S → Exit × Reconciler S
  unfolding reconcile_normal reconcile_delete
  reconcile r =
      if not (is_none (value_at pause_annotation r.user.annotations))
      then (finished, r)
      else if r.user.is_deleted
      then reconcile_delete r
      else reconcile_normal r
