-- ===== src/UserController/Ready.antt =====
-- reconcileNormal, from its start (pkg/controller/risingwave_user_controller.go).
use risingwave_operator.Prelude.{◌≡◌, ◌∙◌, refl, ℤ, Bool, true, false, Option, none, some, Bytes}
use risingwave_operator.UserWebhook.{ConnectionRef, AdminCredentials}
use risingwave_operator.UserController.Reconcile.{Cluster, World, Reconciler}
use risingwave_operator.UserController.Steps.{
  pooled, connect_to, with_service, establish_connection_from_risingwave_ref,
  establish_connection_from_connection_ref, establish_connection, connect_by,
}
use risingwave_operator.UserController.Finished.{Script}

module _ {S : Type 0} (world : World S) where
  -- Another state of the same object, with nothing sent in between.
  abbrev pub Based : Reconciler S → Reconciler S → Type 0
  Based r d =
      (d.events ≡ r.events)
      × (d.user.object ≡ r.user.object)
      × (d.user.generation ≡ r.user.generation)

  pub Based-trans : (r d e : Reconciler S) → Based r d → Based d e → Based r e
  Based-trans r d e (a, b, c) (f, g, h) = (f ∙ a, g ∙ b, h ∙ c)

  pooled-Based : (r : Reconciler S) (b : Bool) (s : S) → Based r (pooled world r (b, s)).1
  pooled-Based r true s = (refl, refl, refl)
  pooled-Based r false s = (refl, refl, refl)

  connect_to-Based :
      (cluster : Option Cluster) (host : Bytes) (port : ℤ) (r : Reconciler S)
      (c : Option (Bytes × Bytes))
      → Based r (connect_to world cluster host port r c).1
  connect_to-Based cluster host port r none = (refl, refl, refl)
  connect_to-Based cluster host port r (some c) =
      let a = world.pool_get r.state r.user.object.namespace cluster host port c in
      pooled-Based r a.0 a.1

  with_service-Based :
      (cluster : Option Cluster) (creds : Option AdminCredentials) (r : Reconciler S)
      (s : Option (Bytes × Bytes))
      → Based r (with_service world cluster creds r s).1
  with_service-Based cluster creds r none = (refl, refl, refl)
  with_service-Based cluster creds r (some s) = connect_to-Based cluster _ _ r _

  from_cluster-Based :
      (cluster : Option Cluster) (r : Reconciler S)
      → Based r (establish_connection_from_risingwave_ref world cluster r).1
  unfolding establish_connection_from_risingwave_ref
  from_cluster-Based none r = (refl, refl, refl)
  from_cluster-Based (some c) r = with_service-Based (some c) _ r _

  connect_by-Based :
      (ref : Option ConnectionRef) (r : Reconciler S) → Based r (connect_by world ref r).1
  unfolding establish_connection_from_connection_ref
  connect_by-Based none r = from_cluster-Based r.cluster r
  connect_by-Based (some ref) r = connect_to-Based none _ _ r _

  pub establish_connection-Based : (r : Reconciler S) → Based r (establish_connection world r).1
  unfolding establish_connection
  establish_connection-Based r = connect_by-Based r.user.object.connection_ref r

  -- A reconciler with a connection, from which the script runs.
  abbrev pub Ran : Reconciler S → Reconciler S → Type 0
  Ran r d =
      (connected : Reconciler S) × (password : Bytes) × Based r connected
      × Script world password connected d
