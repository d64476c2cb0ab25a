-- ===== src/UserController/Deletion.antt =====
-- reconcileDelete, for users with a connectionRef (pkg/controller/risingwave_user_controller.go).
use risingwave_operator.Prelude.{
  ◌≡◌, ℤ, pos, eqb_ℤ, Bool, true, false, Option, none, some, [], ◌∷◌, ◌++◌, Bytes, codes, is_empty,
  if◌then◌else◌,
}
use risingwave_operator.Rwclient.Sql.{get_user_name, build_drop_user_sql}
use risingwave_operator.UserController.Reconcile.{
  Managed, ran, updated, World, Reconciler, Exit, errored, set_phase,
}
use risingwave_operator.UserController.Steps.{on_status}
use risingwave_operator.UserController.Life.{has_finalizer}

-- A user that was created, with this connection: an address, an administrator and a password. An empty
-- name is that of root.
abbrev pub created_with : Bytes → ℤ → Bytes → Bytes → Managed → Managed
created_with host port name password m = record m {
  object = record m.object {
    connection_ref = some (record {
      host = host;
      port = port;
      credentials =
          some (record { username = name; password = password; password_secret_ref = none });
    });
  };
  status = record m.status { user_created = true };
}

module _ {S : Type 0} (world : World S) where
  abbrev pub drop_statement : Managed → Bytes
  drop_statement m = build_drop_user_sql (get_user_name m.object.user)

  -- What Pool.Get answers for the connection.
  abbrev pub connection : Bytes → ℤ → Bytes → Bytes → Reconciler S → Bool × S
  connection host port name password r =
      world.pool_get r.state r.user.object.namespace none host
        (if eqb_ℤ port (pos 0) then pos 4567 else port)
        (if is_empty name then codes "root" else name, password)

  -- The finalizer is gone from the object, which is sent in the last place.
  abbrev pub Released : Reconciler S → Exit × Reconciler S → Type 0
  Released r x =
      (has_finalizer x.1.user.finalizers ≡ false) × (x.1.events ≡ r.events ++ updated x.1.user ∷ [])

  -- The end of a deletion, by the answer of the pool and that to DROP USER.
  abbrev pub Deleted : Reconciler S → Bool → Option Bytes → Exit × Reconciler S → Type 0
  Deleted r true none x =
      (has_finalizer x.1.user.finalizers ≡ false)
      × (x.1.events ≡ (r.events ++ ran (drop_statement r.user) ∷ []) ++ updated x.1.user ∷ [])
  Deleted r true (some message) x =
      (x.0 ≡ errored)
      × (x.1.user.finalizers ≡ r.user.finalizers)
      × (x.1.events ≡ r.events ++ ran (drop_statement r.user) ∷ [])
  Deleted r false answer x = Released r x

  abbrev deleting : Bytes → ℤ → Bytes → Bytes → Reconciler S → Reconciler S
  deleting host port name password r =
      on_status world (set_phase (codes "Deleting"))
        (record r { user = created_with host port name password r.user })
