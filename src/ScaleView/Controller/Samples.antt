-- ===== src/ScaleView/Controller/Samples.antt =====
-- The scale view controller at examples.
use risingwave_operator.Prelude.{
  inl, inr, str_eq_iff, ℕ, ◌≡◌, ◌≤◌, refl, pos, true, none, some, List, [], ◌∷◌, String, arith,
  sum_of,
}
use risingwave_operator.Lo.Plain.{plain_lo, plain_lo-IsDocumented}
use risingwave_operator.ScaleView.{Lock}
use risingwave_operator.ScaleView.Split.{split_replicas}
use risingwave_operator.ScaleView.Split.Samples.{
  mixed_view, mixed_view-IsRegular, mixed_view-IsCovered,
}
use risingwave_operator.ScaleView.Locks.{
  ok, get_scale_view_lock, grab_scale_view_lock_for, grab_or_update_scale_view_lock_for, new_lock,
}
use risingwave_operator.ScaleView.Helper.{NodeGroup, read_replicas}
use risingwave_operator.ScaleView.Controller.{
  Target, Manager, matched, sync_group_replicas_status_from_risingwave,
  sync_group_replicas_to_risingwave, grab_or_update_scale_view_lock, quiet, continue,
}
use risingwave_operator.ScaleView.Controller.Scales.{AreThere, Synced, sync-Synced}
use risingwave_operator.ScaleView.Controller.Reaches.{HasGroups, Reaches, grab-sync-Reaches}
use risingwave_operator.ScaleView.Controller.Reports.{RunsCounts, due, status-reports}

abbrev fresh : Manager
fresh = record { scale_view = mixed_view; status_copy = mixed_view.status }

abbrev group : String → ℕ → NodeGroup
group name n = record { name = name; replicas = pos n }

abbrev cluster : List Lock → Target
cluster locks = record {
  risingwave = record {
    uid = "u0";
    meta = [];
    frontend = [];
    compactor = [];
    compute = group "a" 1 ∷ group "b" 1 ∷ group "c" 5 ∷ [];
    scale_views = locks;
  };
  component_replicas = record {
    meta = [];
    frontend = [];
    compactor = [];
    compute = record { name = "a"; running = pos 1 } ∷ record { name = "b"; running = pos 3 } ∷ [];
  };
}

abbrev its_lock : Lock
its_lock = new_lock plain_lo mixed_view (("b", pos 2) ∷ ("a", pos 7) ∷ [])

grabbed_lock : grab_scale_view_lock_for plain_lo mixed_view [] ≡ ok (its_lock ∷ [])
unfolding grab_scale_view_lock_for split_replicas
grabbed_lock = refl

no_lock : get_scale_view_lock mixed_view [] ≡ none
unfolding get_scale_view_lock
no_lock = refl

groups_there : HasGroups "compute" (cluster []).risingwave ("a" ∷ "b" ∷ [])
unfolding read_replicas
groups_there = ((pos 1, refl), ((pos 1, refl), tt))

grab-sync-Reaches_example : Reaches plain_lo fresh (cluster [])
grab-sync-Reaches_example =
    grab-sync-Reaches plain_lo fresh (cluster []) (its_lock ∷ []) plain_lo-IsDocumented
      mixed_view-IsRegular mixed_view-IsCovered refl no_lock grabbed_lock groups_there

-- A lock that the RisingWave holds already.
abbrev held_lock : Lock
held_lock = record {
  name = "sv";
  uid = "u1";
  component = "compute";
  generation = pos 1;
  group_locks =
      record { name = "a"; replicas = pos 7 } ∷ record { name = "b"; replicas = pos 2 } ∷ [];
}

held_found : get_scale_view_lock mixed_view (held_lock ∷ []) ≡ some held_lock
unfolding get_scale_view_lock
held_found = refl

held_there : AreThere "compute" (cluster (held_lock ∷ [])).risingwave held_lock.group_locks
unfolding read_replicas
held_there = ((pos 1, refl), ((pos 1, refl), tt))

sync-Synced_example :
    Synced "compute" held_lock.group_locks
      (cluster (held_lock ∷ [])).risingwave
      (sync_group_replicas_to_risingwave true fresh (some (cluster (held_lock ∷ []))))
sync-Synced_example =
    sync-Synced fresh (cluster (held_lock ∷ [])) held_lock refl held_found refl
      ((refl, tt), (tt, tt)) held_there

-- The lock flag stays unset where the lock is current.
never_marked :
    grab_or_update_scale_view_lock plain_lo true fresh (some (cluster (held_lock ∷ [])))
    ≡ quiet fresh continue
unfolding grab_or_update_scale_view_lock grab_or_update_scale_view_lock_for
never_marked = refl

running_there : RunsCounts fresh (matched fresh (some (cluster []))) (1 ∷ 3 ∷ [])
unfolding matched
running_there = (
  (_, inr (inr (inr (refl, refl))), inl (refl, refl)),
  (
    (
      _,
      inr (inr (inr (refl, refl))),
      inr (λ e. let k = (str_eq_iff "a" "b").1 e in cc k, inl (refl, refl)),
    ),
    tt,
  ),
)

sums_to_four : sum_of (λ (n : ℕ). n) (1 ∷ 3 ∷ []) ≤ 2147483647
unfolding sum_of
sums_to_four = omega arith

status-reports_example :
    (sync_group_replicas_status_from_risingwave fresh (some (cluster []))).manager.scale_view.status
    ≡ due fresh (matched fresh (some (cluster []))) (1 ∷ 3 ∷ [])
status-reports_example =
    status-reports fresh (some (cluster [])) (1 ∷ 3 ∷ []) sums_to_four running_there
