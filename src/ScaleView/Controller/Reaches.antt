-- ===== src/ScaleView/Controller/Reaches.antt =====
-- A grab and a sync, one after the other
-- (pkg/manager/risingwave_scale_view_controller_manager_impl.go).
use risingwave_operator.Prelude.{
  inl, inr, ◌≡◌, ◌∙◌, refl, sym, subst, ℤ, true, none, some, List, [], ◌∷◌, String, str_eq,
  str_eq_iff, All, Bool-cases,
}
use mathlib.Core.List.{Nodup, Nodup-cons, Mem, mem-cons}
use mathlib.Core.Logic.Or
use risingwave_operator.Lo.{Lo, IsDocumented}
use risingwave_operator.ScaleView.{GroupLock, Lock}
use risingwave_operator.ScaleView.Split.Grants.{group_names}
use risingwave_operator.ScaleView.Split.Total.{IsRegular, IsCovered}
use risingwave_operator.ScaleView.Locks.{
  ok, get_scale_view_lock, grab_scale_view_lock_for, grab_or_update_scale_view_lock_for,
}
use risingwave_operator.ScaleView.Locks.Exclusive.{locked_names}
use risingwave_operator.ScaleView.Locks.Wanted.{
  IsWanted, grab-IsWanted, get_scale_view_lock-alike, grab_or_update-grabs,
}
use risingwave_operator.ScaleView.Helper.{RisingWave, read_replicas, get_replicas_ptr, node_groups}
use risingwave_operator.ScaleView.Controller.{
  Target, Manager, status_of_risingwave, continue, requeue_immediately, Action, matched, marked,
  grab_for, grabbed_in_memory, grab_or_update_scale_view_lock, sync_group_replicas_to_risingwave,
}
use risingwave_operator.ScaleView.Controller.Scales.{
  IsApart, AreApart, AreThere, IsScaled, taken, sync-Synced,
}

-- Groups with pairwise distinct names are locked once each.
IsApart-of_not_mem :
    (name : String) (locks : List GroupLock) → ¬ Mem name (locked_names locks) → IsApart name locks
IsApart-of_not_mem name [] h = tt
IsApart-of_not_mem name (lock ∷ locks) h = (
  elim (Bool-cases (str_eq name lock.name)) [
    | inl e ↦ absurd (h (mem-cons.1 (Or.inl ((str_eq_iff name lock.name).0 e))))
    | inr e ↦ e
  ],
  IsApart-of_not_mem name locks (λ m. h (mem-cons.1 (Or.inr m))),
)

AreApart-of_Nodup : (locks : List GroupLock) → Nodup (locked_names locks) → AreApart locks
AreApart-of_Nodup [] h = tt
AreApart-of_Nodup (lock ∷ locks) h =
    let (n, d) = Nodup-cons.0 h in (IsApart-of_not_mem lock.name locks n, AreApart-of_Nodup locks d)

-- Every named group has replicas in the RisingWave.
abbrev pub HasGroups : String → RisingWave → List String → Type 0
HasGroups component risingwave =
    All (λ name. (old : ℤ) × (read_replicas risingwave component name ≡ some (some old)))

AreThere-of_names :
    (component : String) (risingwave : RisingWave) (after : List Lock) (locks : List GroupLock)
    → HasGroups component risingwave (locked_names locks)
    → AreThere component (record risingwave { scale_views = after }) locks
unfolding read_replicas get_replicas_ptr node_groups
AreThere-of_names component risingwave after [] h = tt
AreThere-of_names component risingwave after (lock ∷ locks) (g, h) =
    (g, AreThere-of_names component risingwave after locks h)

-- A first pass that grabs the lock, the target as the API server then has it, and a second pass that
-- syncs the replicas.
abbrev pub first_pass : Lo → Manager → Target → Action
first_pass lo mgr target = grab_or_update_scale_view_lock lo true mgr (some target)

abbrev pub fetched : Target → Action → Target
fetched target action = record target { risingwave = taken target.risingwave action.request }

abbrev pub second_pass : Lo → Manager → Target → Action
second_pass lo mgr target =
    let first = first_pass lo mgr target in
    sync_group_replicas_to_risingwave true first.manager (some (fetched target first))

first_pass-grabs :
    (lo : Lo) (mgr : Manager) (target : Target) (after : List Lock)
    → str_eq target.risingwave.uid mgr.scale_view.spec.target_ref.uid ≡ true
    → grab_or_update_scale_view_lock_for lo mgr.scale_view target.risingwave.scale_views
      ≡ ok (after, true)
    → first_pass lo mgr target ≡ record {
      manager = marked mgr;
      request = some (status_of_risingwave (record target.risingwave { scale_views = after }));
      next = requeue_immediately;
    }
unfolding grab_or_update_scale_view_lock matched grab_for grabbed_in_memory
first_pass-grabs lo mgr target after u h = rw (u, h) refl

-- The two passes go on, mark the scale view as locked, and leave the groups with the replicas of a
-- lock whose replicas add up to those of the scale view.
abbrev pub Reaches : Lo → Manager → Target → Type 0
Reaches lo mgr target =
    ((first_pass lo mgr target).next ≡ requeue_immediately)
    × ((first_pass lo mgr target).manager.scale_view.status.locked ≡ true)
    × ((second_pass lo mgr target).next ≡ continue)
    × ((lock : Lock) × IsWanted mgr.scale_view lock
        × IsScaled mgr.scale_view.spec.target_ref.component
            (taken (fetched target (first_pass lo mgr target)).risingwave
              (second_pass lo mgr target).request)
            lock.group_locks)

-- Take a scale view with distinct groups, no negative numbers and limits that cover the replicas asked
-- for, whose target has its UID, has no lock of it yet and has all of its groups. If the lock can be
-- grabbed, the API server takes both requests and nobody else writes in between, then a first pass
-- grabs the lock and a second pass leaves the groups of the RisingWave with the replicas of a lock that
-- add up to exactly the replicas asked for.
pub grab-sync-Reaches :
    (lo : Lo) (mgr : Manager) (target : Target) (after : List Lock)
    → IsDocumented lo
    → IsRegular mgr.scale_view
    → IsCovered mgr.scale_view
    → str_eq target.risingwave.uid mgr.scale_view.spec.target_ref.uid ≡ true
    → get_scale_view_lock mgr.scale_view target.risingwave.scale_views ≡ none
    → grab_scale_view_lock_for lo mgr.scale_view target.risingwave.scale_views ≡ ok after
    → HasGroups mgr.scale_view.spec.target_ref.component target.risingwave
        (group_names mgr.scale_view.spec.scale_policy)
    → Reaches lo mgr target
grab-sync-Reaches lo mgr target after laws r c u n g h =
    let sv = mgr.scale_view in
    let component = sv.spec.target_ref.component in
    let (lock, l, w) = grab-IsWanted lo sv target.risingwave.scale_views after laws r c g in
    let p =
      first_pass-grabs lo mgr target after u
        (grab_or_update-grabs lo sv target.risingwave.scale_views after n g) in
    let l' = get_scale_view_lock-alike (marked mgr).scale_view sv after refl refl ∙ l in
    let d = AreApart-of_Nodup lock.group_locks (subst Nodup (sym w.groups) r.distinct) in
    let t =
      AreThere-of_names component target.risingwave after lock.group_locks
        (subst (HasGroups component target.risingwave) (sym w.groups) h) in
    let s =
      sync-Synced (marked mgr)
        (record target { risingwave = record target.risingwave { scale_views = after } }) lock u l'
        w.current d t in
    rw p (refl, refl, s.0, (lock, w, s.1))
