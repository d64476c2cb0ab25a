-- ===== src/ScaleView/Controller/Scales.antt =====
-- Syncing the replicas of locked groups
-- (pkg/manager/risingwave_scale_view_controller_manager_impl.go).
use risingwave_operator.Prelude.{
  ◌≡◌, ◌∙◌, refl, sym, ap, subst, ℤ, eqb_ℤ, eqb_ℤ→eq, eqb_ℤ_refl, Bool, true, false, ◌||◌, not,
  Option, none, some, List, [], ◌∷◌, String, str_eq, str_eq_iff, All, arith,
}
use risingwave_operator.ScaleView.{GroupLock, Lock}
use risingwave_operator.ScaleView.Locks.{get_scale_view_lock}
use risingwave_operator.ScaleView.Helper.{RisingWave, read_replicas}
use risingwave_operator.ScaleView.Helper.Writes.{write_replicas-read_replicas}
use risingwave_operator.ScaleView.Controller.{
  Target, Manager, Request, patch_of_risingwave, status_of_risingwave, status_of_scale_view,
  continue, Action, matched, write_locks, patch, sync_lock, sync_for,
  sync_group_replicas_to_risingwave,
}

-- No group of the names is this one.
abbrev pub IsApart : String → List GroupLock → Type 0
IsApart name = All (λ lock. str_eq name lock.name ≡ false)

-- Each group is locked once.
abbrev pub AreApart : List GroupLock → Type 0
AreApart [] = Unit {0}
AreApart (lock ∷ locks) = IsApart lock.name locks × AreApart locks

module _ (component : String) where
  -- Every locked group has replicas in the RisingWave.
  abbrev pub AreThere : RisingWave → List GroupLock → Type 0
  AreThere risingwave =
      All (λ lock. (old : ℤ) × (read_replicas risingwave component lock.name ≡ some (some old)))

  -- Every locked group has the replicas of its lock.
  abbrev pub IsScaled : RisingWave → List GroupLock → Type 0
  IsScaled risingwave =
      All (λ lock. read_replicas risingwave component lock.name ≡ some (some lock.replicas))

  -- Groups that are not locked read alike.
  abbrev pub SameOthers : List GroupLock → RisingWave → RisingWave → Type 0
  SameOthers locks u v =
      (name : String)
      → IsApart name locks
      → read_replicas v component name ≡ read_replicas u component name

  -- What is read of the locked groups stays, if only another group is written.
  kept :
      (P : Option (Option ℤ) → GroupLock → Type 0) (u v : RisingWave) (name : String)
      (locks : List GroupLock)
      → ((other : String)
          → str_eq name other ≡ false
          → read_replicas v component other ≡ read_replicas u component other)
      → IsApart name locks
      → All (λ lock. P (read_replicas u component lock.name) lock) locks
      → All (λ lock. P (read_replicas v component lock.name) lock) locks
  kept P u v name [] same a h = tt
  kept P u v name (lock ∷ locks) same (a, rest) (p, h) =
      (subst (λ r. P r lock) (sym (same lock.name a)) p, kept P u v name locks same rest h)

  apart-sym : (a b : String) → str_eq a b ≡ false → str_eq b a ≡ false
  apart-sym a b h = ground (arith, str_eq_iff a b, str_eq_iff b a)

  -- The loop ends with every locked group at its lock and every other group as it was; it reports a
  -- change unless there was none to make.
  write_locks-scales :
      (locks : List GroupLock) (risingwave : RisingWave) (changed : Bool)
      → AreApart locks
      → AreThere risingwave locks
      → (after : RisingWave × Bool) × (write_locks component locks (risingwave, changed)
          ≡ some after)
        × IsScaled after.0 locks
        × SameOthers locks risingwave after.0
        × (after.1 ≡ false → (changed ≡ false) × IsScaled risingwave locks)
  unfolding write_locks
  write_locks-scales [] risingwave changed a h =
      ((risingwave, changed), refl, tt, λ name k. refl, λ e. (e, tt))
  write_locks-scales (lock ∷ locks) risingwave changed (a, apart) ((old, e), h) =
      let ((w, updated), e₁, (here, (others, u))) =
        write_replicas-read_replicas risingwave component lock.name old lock.replicas e in
      let there =
        kept (λ r l. (n : ℤ) × (r ≡ some (some n))) risingwave w lock.name locks others a h in
      let (after, e₂, scaled, same, c) =
        write_locks-scales locks w (changed || updated) apart there in
      (
        after,
        rw e₁ e₂,
        (same lock.name a ∙ here, scaled),
        λ name (k, rest). same name rest ∙ others name (apart-sym name lock.name k),
        λ f.
            let (g, t) = c f in
            let (p, q) = neither changed updated g in
            let z : old ≡ lock.replicas = eqb_ℤ→eq old lock.replicas (negated _ (sym u ∙ q)) in
            (
              p,
              (
                e ∙ ap (λ n. some (some n)) z,
                kept (λ r l. r ≡ some (some l.replicas)) w risingwave lock.name locks
                    (λ other n. sym (others other n)) a t,
              ),
            ),
      )
    where
      neither : (b d : Bool) → (b || d) ≡ false → (b ≡ false) × (d ≡ false)
      neither true d h = cc
      neither false d h = (refl, h)

      negated : (b : Bool) → not b ≡ false → b ≡ true
      negated true h = refl
      negated false h = cc

-- The RisingWave that the API server has after it takes a request.
abbrev pub taken : RisingWave → Option Request → RisingWave
taken risingwave none = risingwave
taken risingwave (some (patch_of_risingwave patched)) = patched
taken risingwave (some (status_of_risingwave updated)) = record risingwave {
  scale_views = updated.scale_views;
}
taken risingwave (some (status_of_scale_view sv)) = risingwave

-- The action goes on, and leaves every locked group at its lock and every other group as it was.
abbrev pub Synced : String → List GroupLock → RisingWave → Action → Type 0
Synced component locks risingwave action =
    (action.next ≡ continue)
    × IsScaled component (taken risingwave action.request) locks
    × SameOthers component locks risingwave (taken risingwave action.request)

patch-Synced :
    (mgr : Manager) (component : String) (locks : List GroupLock) (risingwave : RisingWave)
    (after : RisingWave × Bool)
    → IsScaled component after.0 locks
    → SameOthers component locks risingwave after.0
    → (after.1 ≡ false → IsScaled component risingwave locks)
    → Synced component locks risingwave (patch true mgr (some after))
unfolding patch
patch-Synced mgr component locks risingwave (after, true) h s u = (refl, h, s)
patch-Synced mgr component locks risingwave (after, false) h s u = (refl, u refl, λ name k. refl)

-- If the fetched RisingWave is the scale view's target and holds a lock of the scale view's generation,
-- whose groups are pairwise distinct and exist there, and the API server takes the patch, then syncing
-- goes on, every locked group has the replicas of its lock, and all other groups read as before.
pub sync-Synced :
    (mgr : Manager) (target : Target) (lock : Lock)
    → str_eq target.risingwave.uid mgr.scale_view.spec.target_ref.uid ≡ true
    → get_scale_view_lock mgr.scale_view target.risingwave.scale_views ≡ some lock
    → lock.generation ≡ mgr.scale_view.generation
    → AreApart lock.group_locks
    → AreThere mgr.scale_view.spec.target_ref.component target.risingwave lock.group_locks
    → Synced mgr.scale_view.spec.target_ref.component lock.group_locks target.risingwave
        (sync_group_replicas_to_risingwave true mgr (some target))
unfolding sync_group_replicas_to_risingwave matched sync_for sync_lock
sync-Synced mgr target lock u l g a t =
    let component = mgr.scale_view.spec.target_ref.component in
    let (after, e, scaled, same, c) =
      write_locks-scales component lock.group_locks target.risingwave false a t in
    let current : eqb_ℤ lock.generation mgr.scale_view.generation ≡ true =
      subst (λ z. eqb_ℤ lock.generation z ≡ true) g (eqb_ℤ_refl lock.generation) in
    rw (u, l, current, e)
      (patch-Synced mgr component lock.group_locks target.risingwave after scaled same
        (λ f. (c f).1))
