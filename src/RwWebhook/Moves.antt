-- ===== src/RwWebhook/Moves.antt =====
-- Updates that write the replicas of locks (pkg/webhook/risingwave_validating_webhook.go).
use risingwave_operator.Prelude.{
  ◌≡◌, ◌+◌, refl, inl, inr, ℤ, eqb_ℤ_refl, true, Option-cases, List, [], ◌∷◌, Option, none, some,
  String, All, equal, arith,
}
use risingwave_operator.Stores.{meta_store_eq, state_store_eq, private_key_eq}
use risingwave_operator.ScaleView.{GroupLock, Lock}
use risingwave_operator.ScaleView.Helper.{RisingWave, read_replicas, get_replicas_ptr, node_groups}
use risingwave_operator.RwWebhook.{Object, view}
use risingwave_operator.RwWebhook.Locks.{
  Counters, counted, breaks_lock, check_group_lock, check_group_locks, check_scale_views, admitted,
  update_answer, is_secret_store_change_allowed,
}
use risingwave_operator.RwWebhook.Held.{IsAt}

panics_alike :
    (u v : RisingWave) (component group : String)
    → read_replicas v component group ≡ none
    → read_replicas u component group ≡ none
unfolding read_replicas get_replicas_ptr node_groups
panics_alike u v component group h = ground arith

reads :
    (u v : RisingWave) (component group : String) (x : Option ℤ)
    → read_replicas u component group ≡ some x
    → (y : Option ℤ) × (read_replicas v component group ≡ some y)
reads u v component group x h = elim (Option-cases (read_replicas v component group)) [
  | inl e ↦ absurd (let p = panics_alike u v component group e in cc)
  | inr y ↦ y
]

module _ (old new : RisingWave) (component : String) where
  check_group_lock-at :
      (n : Counters) (lock : GroupLock) (before : Option ℤ)
      → n.unchanged ≡ 0
      → (m : Counters) × (m.unchanged ≡ 0)
        × (check_group_lock old new component n lock before (some lock.replicas) ≡ some ([], m))
  unfolding check_group_lock counted breaks_lock
  check_group_lock-at n lock before h =
      (record n { updated = n.updated + 1 }, h, rw (eqb_ℤ_refl lock.replicas) (ground arith))

  IsAt-check_group_locks :
      (locks : List GroupLock) (n : Counters)
      → n.unchanged ≡ 0
      → All (IsAt old new component) locks
      → check_group_locks old new component n locks ≡ some []
  unfolding check_group_locks
  IsAt-check_group_locks [] n h k = refl
  IsAt-check_group_locks (lock ∷ locks) n h (a, k) =
      let (before, b) = reads new old component lock.name (some lock.replicas) a in
      let (m, c, d) = check_group_lock-at n lock before h in
      rw (b, a, d, IsAt-check_group_locks locks m c k) refl

IsAt-check_scale_views :
    (old new : RisingWave) (scale_views : List Lock)
    → All (λ scale_view. All (IsAt old new scale_view.component) scale_view.group_locks) scale_views
    → check_scale_views old new scale_views ≡ some []
unfolding check_scale_views
IsAt-check_scale_views old new [] h = refl
IsAt-check_scale_views old new (scale_view ∷ scale_views) (h, k) =
    rw
      (
        IsAt-check_group_locks old new scale_view.component scale_view.group_locks
            (record { unchanged = 0; updated = 0 }) refl h,
        IsAt-check_scale_views old new scale_views k,
      )
      refl

-- An update that keeps the stores and the private key, and after which every locked group of every scale
-- view in the new status has the replicas of its lock, passes the checks of updates.
pub update_answer-moves :
    (old new : Object)
    → equal old.meta_store new.meta_store ≡ true
    → equal old.state_store new.state_store ≡ true
    → is_secret_store_change_allowed old new ≡ true
    → All
        (λ scale_view. All (IsAt (view old) (view new) scale_view.component) scale_view.group_locks)
        new.scale_views
    → update_answer old new ≡ admitted
unfolding update_answer
update_answer-moves old new a b c h =
    rw (a, b, c, IsAt-check_scale_views (view old) (view new) new.scale_views h) refl
