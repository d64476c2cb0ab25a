-- ===== src/ScaleView/Locks/Checks.antt =====
-- The checks of GrabScaleViewLockFor (pkg/object/scale_view_lock_manager.go).
use risingwave_operator.Prelude.{
  ◌≡◌, ◌↔◌, is_none, refl, inl, inr, Bool, false, ◌&&◌, not, none, List, [], ◌∷◌, map, All, String,
  str_eq, exists_test, arith, Option-cases,
}
use risingwave_operator.Lo.{Lo, IsDocumented}
use risingwave_operator.ScaleView.{ScalePolicy, ScaleView, GroupLock, Lock}
use risingwave_operator.ScaleView.Split.{Replicas, get}
use risingwave_operator.ScaleView.Locks.{
  is_lock_of, first_conflict, check_lock, check_locks, group_locks_for, new_lock,
}

-- Some group of the second list is locked by the first.
abbrev pub locks_group : List GroupLock → String → Bool
locks_group xs name = exists_test (λ h. str_eq h.name name) xs

abbrev pub overlaps : List GroupLock → List GroupLock → Bool
overlaps xs ys = exists_test (λ g. locks_group xs g.name) ys

-- Two locks that may stand beside each other: they belong to scale views of different names, and on
-- one component they hold no group in common.
pub record Compatible (a b : Lock) : Type 0 where
  pub names : str_eq a.name b.name ≡ false
  pub groups : (str_eq a.component b.component && overlaps a.group_locks b.group_locks) ≡ false

exists-map :
    (name : String) (xs : List GroupLock)
    → exists_test (λ y. str_eq y name) (map (λ t. t.name) xs) ≡ locks_group xs name
exists-map name [] = refl
exists-map name (x ∷ xs) = ground (arith, exists-map name xs)

abbrev pub lock_group_of : Replicas → ScalePolicy → GroupLock
lock_group_of m t = record { name = t.group; replicas = get m t.group }

module _ (lo : Lo) (laws : IsDocumented lo) where
  locked_lem :
      (xs : List GroupLock) (name : String)
      → lo.contains (lo.map GroupLock String xs (λ t _. t.name)) name ≡ locks_group xs name
  locked_lem xs name =
      rw (laws.map_lem GroupLock String xs (λ t. t.name), laws.contains_lem _ name)
        (exists-map name xs)

  pub group_locks_for-map :
      (sv : ScaleView) (m : Replicas)
      → group_locks_for lo sv m ≡ map (lock_group_of m) sv.spec.scale_policy
  unfolding group_locks_for
  group_locks_for-map sv m =
      laws.map_lem ScalePolicy GroupLock sv.spec.scale_policy (lock_group_of m)

  first_conflict-overlaps :
      (xs : List GroupLock) (m : Replicas) (ps : List ScalePolicy)
      → is_none (first_conflict lo (lo.map GroupLock String xs (λ t _. t.name)) ps)
        ≡ not (overlaps xs (map (lock_group_of m) ps))
  unfolding first_conflict
  first_conflict-overlaps xs m [] = refl
  first_conflict-overlaps xs m (p ∷ ps) =
      ground (arith, locked_lem xs p.group, first_conflict-overlaps xs m ps)

  -- A lock passes the check exactly when the new lock may stand beside it.
  pub check_lock_iff :
      (sv : ScaleView) (m : Replicas) (s : Lock)
      → (check_lock lo sv s ≡ none) ↔ Compatible s (new_lock lo sv m)
  unfolding check_lock new_lock is_lock_of
  check_lock_iff sv m s =
      let e = first_conflict-overlaps s.group_locks m sv.spec.scale_policy in
      let g = group_locks_for-map sv m in
      (
        λ h. record { names = ground (arith, e, g); groups = ground (arith, e, g) },
        λ c. ground (arith, c.names, c.groups, e, g),
      )

  pub check_locks-Compatible :
      (sv : ScaleView) (m : Replicas) (locks : List Lock)
      → check_locks lo sv locks ≡ none
      → All (λ s. Compatible s (new_lock lo sv m)) locks
  unfolding check_locks
  check_locks-Compatible sv m [] h = tt
  check_locks-Compatible sv m (s ∷ locks) h = elim (Option-cases (check_lock lo sv s)) [
    | inl e ↦ ((check_lock_iff sv m s).0 e, check_locks-Compatible sv m locks (ground (arith, e)))
    | inr (x, e) ↦ ground (arith, e)
  ]

  pub Compatible-check_locks :
      (sv : ScaleView) (m : Replicas) (locks : List Lock)
      → All (λ s. Compatible s (new_lock lo sv m)) locks
      → check_locks lo sv locks ≡ none
  unfolding check_locks
  Compatible-check_locks sv m [] h = refl
  Compatible-check_locks sv m (s ∷ locks) (a, h) =
      rw ((check_lock_iff sv m s).1 a, check_locks) (Compatible-check_locks sv m locks h)
