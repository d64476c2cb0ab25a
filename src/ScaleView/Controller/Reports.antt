-- ===== src/ScaleView/Controller/Reports.antt =====
-- The replicas that the scale view controller reports in the status
-- (pkg/manager/risingwave_scale_view_controller_manager_impl.go).
use risingwave_operator.Prelude.{
  ◌≢◌, ◌⊎◌, inl, inr, sym, str_eq, str_eq_iff, true, Bool-cases, pos-add, ℕ, ◌+◌, ◌≤◌, ◌≡◌, ◌∙◌,
  refl, ap, pos, ◌+ℤ◌, int32, int32-pos, max_int32, false, Option, none, some, List, [], ◌∷◌,
  String, sum_of, arith,
}
use risingwave_operator.ScaleView.{Status, ScalePolicy}
use risingwave_operator.ScaleView.Controller.{
  GroupStatus, running_of, Target, Manager, matched, ComponentReplicas, read_running_replicas,
  sum_running, status_for, sync_group_replicas_status_from_risingwave,
}

-- The status of a component's groups.
abbrev pub StatusOf : ComponentReplicas → String → List GroupStatus → Type 0
StatusOf replicas component groups =
    ((component ≡ "meta") × (groups ≡ replicas.meta))
    ⊎ ((component ≡ "frontend") × (groups ≡ replicas.frontend))
    ⊎ ((component ≡ "compactor") × (groups ≡ replicas.compactor))
    ⊎ ((component ≡ "compute") × (groups ≡ replicas.compute))

-- The first group of the name runs the replicas; a group that is not there runs none.
abbrev pub Runs : List GroupStatus → String → ℕ → Type 0
Runs [] name n = n ≡ 0
Runs (g ∷ groups) name n =
    ((g.name ≡ name) × (g.running ≡ pos n)) ⊎ ((g.name ≢ name) × Runs groups name n)

-- A group of the component runs the replicas.
abbrev pub GroupRuns : ComponentReplicas → String → String → ℕ → Type 0
GroupRuns replicas component name n =
    (groups : List GroupStatus) × StatusOf replicas component groups × Runs groups name n

Runs-running_of :
    (groups : List GroupStatus) (name : String) (n : ℕ)
    → Runs groups name n
    → running_of groups name ≡ pos n
unfolding running_of
Runs-running_of [] name n h = ap pos (sym h)
Runs-running_of (g ∷ groups) name n (inl (e, h)) =
    let q : str_eq g.name name ≡ true = (str_eq_iff g.name name).1 e in rw q h
Runs-running_of (g ∷ groups) name n (inr (e, h)) = elim (Bool-cases (str_eq g.name name)) [
  | inl q ↦ absurd (e ((str_eq_iff g.name name).0 q))
  | inr q ↦ rw q (Runs-running_of groups name n h)
]

GroupRuns-read :
    (replicas : ComponentReplicas) (component name : String) (n : ℕ)
    → GroupRuns replicas component name n
    → read_running_replicas replicas component name ≡ some (pos n)
unfolding read_running_replicas
GroupRuns-read replicas component name n (groups, inl (e, k), h) =
    rw (e, ← k) (ap some (Runs-running_of groups name n h))
GroupRuns-read replicas component name n (groups, inr (inl (e, k)), h) =
    rw (e, ← k) (ap some (Runs-running_of groups name n h))
GroupRuns-read replicas component name n (groups, inr (inr (inl (e, k))), h) =
    rw (e, ← k) (ap some (Runs-running_of groups name n h))
GroupRuns-read replicas component name n (groups, inr (inr (inr (e, k))), h) =
    rw (e, ← k) (ap some (Runs-running_of groups name n h))

-- The replicas that groups run, as counts.
abbrev pub RunningCounts : ComponentReplicas → String → List ScalePolicy → List ℕ → Type 0
RunningCounts replicas component [] [] = Unit {0}
RunningCounts replicas component [] (n ∷ counts) = ⊥
RunningCounts replicas component (p ∷ policies) [] = ⊥
RunningCounts replicas component (p ∷ policies) (n ∷ counts) =
    GroupRuns replicas component p.group n × RunningCounts replicas component policies counts

sum_running-total :
    (replicas : ComponentReplicas) (component : String) (policies : List ScalePolicy)
    (counts : List ℕ) (total : ℕ)
    → RunningCounts replicas component policies counts
    → total + sum_of (λ n. n) counts ≤ max_int32
    → sum_running replicas component policies (pos total)
      ≡ some (pos (total + sum_of (λ n. n) counts))
unfolding sum_running sum_of
sum_running-total replicas component [] [] total h k = ap (λ n. some (pos n)) (omega arith)
sum_running-total replicas component [] (n ∷ counts) total h k = absurd h
sum_running-total replicas component (p ∷ policies) [] total h k = absurd h
sum_running-total replicas component (p ∷ policies) (n ∷ counts) total (g, h) k =
    let e = GroupRuns-read replicas component p.group n g in
    let z : int32 (pos total +ℤ pos n) ≡ pos (total + n) =
      ap int32 (pos-add total (pos n) refl) ∙ int32-pos (total + n) (omega arith) in
    rw (e, z)
      (sum_running-total replicas component policies counts (total + n) h (omega arith)
        ∙ ap (λ m. some (pos m)) (omega arith))

-- The status that is due.
abbrev pub due : Manager → Option Target → List ℕ → Status
due mgr none counts = record { replicas = some (pos 0); locked = false }
due mgr (some target) counts = record mgr.scale_view.status {
  replicas = some (pos (sum_of (λ n. n) counts));
}

-- The groups of a target that matches run these counts of replicas.
abbrev pub RunsCounts : Manager → Option Target → List ℕ → Type 0
RunsCounts mgr none counts = Unit {0}
RunsCounts mgr (some target) counts =
    RunningCounts target.component_replicas mgr.scale_view.spec.target_ref.component
      mgr.scale_view.spec.scale_policy counts

status_for-due :
    (mgr : Manager) (target : Option Target) (counts : List ℕ)
    → sum_of (λ n. n) counts ≤ max_int32
    → RunsCounts mgr target counts
    → (status_for mgr target).manager.scale_view.status ≡ due mgr target counts
unfolding status_for
status_for-due mgr none counts k h = refl
status_for-due mgr (some t) counts k h =
    rw
      (sum_running-total t.component_replicas mgr.scale_view.spec.target_ref.component
        mgr.scale_view.spec.scale_policy counts 0 h (omega arith))
      (ap (λ n. record { replicas = some (pos n); locked = mgr.scale_view.status.locked })
        (omega arith))

-- If the target matches, and the replicas that the groups of the policy run are counts whose sum fits
-- into int32, then the status of the scale view reports that sum and leaves the lock flag alone; if it
-- does not match, the status reports no replicas and no lock.
pub status-reports :
    (mgr : Manager) (target : Option Target) (counts : List ℕ)
    → sum_of (λ n. n) counts ≤ max_int32
    → RunsCounts mgr (matched mgr target) counts
    → (sync_group_replicas_status_from_risingwave mgr target).manager.scale_view.status
      ≡ due mgr (matched mgr target) counts
unfolding sync_group_replicas_status_from_risingwave
status-reports mgr target counts k h = status_for-due mgr (matched mgr target) counts k h
