-- ===== src/RwWebhook/Held.antt =====
-- The check of the locks of scale views (pkg/webhook/risingwave_validating_webhook.go).
use risingwave_operator.Prelude.{
  and_then-some, ◌≡◌, ◌∙◌, ap, refl, ◌⊎◌, inl, inr, ◌<◌, ℤ, pos, eqb_ℤ, eqb_ℤ→eq, Bool, true, false,
  Bool-cases, List, [], ◌∷◌, ◌++◌, Option, none, some, or_default, String, append-empty, All,
  if◌then◌else◌, arith,
}
use risingwave_operator.Stores.{meta_store_eq, state_store_eq, private_key_eq}
use risingwave_operator.UserWebhook.{FieldError, Segment}
use risingwave_operator.ScaleView.{GroupLock, Lock}
use risingwave_operator.ScaleView.Helper.{RisingWave, read_replicas, unless_panic}
use risingwave_operator.RwWebhook.Locks.{
  Counters, counted, breaks_lock, check_group_lock, check_group_locks, check_scale_views, locked_at,
  path_for_group_replicas,
}

joined-empty :
    (errors : List FieldError) (rest : Option (List FieldError))
    → unless_panic (λ r. errors ++ r) rest ≡ some []
    → (errors ≡ []) × (rest ≡ some [])
joined-empty errors none h = cc
joined-empty errors (some r) h = let (a, b) = append-empty errors r (cc) in (a, rw b refl)

module _ (old new : RisingWave) (component : String) where
  -- The new object has the replicas of the lock.
  abbrev pub IsAt : GroupLock → Type 0
  IsAt lock = read_replicas new component lock.name ≡ some (some lock.replicas)

  -- The new object has the group, with the replicas of the old one (0 where that has none).
  abbrev pub WasAt : GroupLock → Type 0
  WasAt lock =
      (before : Option ℤ) × (read_replicas old component lock.name ≡ some before)
      × (read_replicas new component lock.name ≡ some (some (or_default before (pos 0))))

  -- What a group that passes has: it exists, and does not break the lock.
  abbrev Passed : Counters → GroupLock → List GroupLock → Type 0
  Passed n lock locks =
      (before : Option ℤ) × (cur : ℤ) × (read_replicas old component lock.name ≡ some before)
      × (read_replicas new component lock.name ≡ some (some cur))
      × (breaks_lock (counted n cur lock.replicas (or_default before (pos 0))) cur lock.replicas
            (or_default before (pos 0))
          ≡ false)
      × (check_group_locks old new component
            (counted n cur lock.replicas (or_default before (pos 0))) locks
          ≡ some [])

  abbrev locked_or : Bool → Option (List Segment) → Counters → Option (List FieldError × Counters)
  locked_or b p n =
      if b
      then unless_panic {B = List FieldError × Counters} (λ path. (locked_at path, n)) p
      else some ([], n)

  locked_or-passes :
      (b : Bool) (p : Option (List Segment)) (m n : Counters)
      → locked_or b p m ≡ some ([], n)
      → (b ≡ false) × (m ≡ n)
  locked_or-passes true none m n h = cc
  locked_or-passes true (some p) m n h = cc
  locked_or-passes false p m n h = (refl, cc)

  check_group_lock-Passed :
      (n n' : Counters) (lock : GroupLock) (before current : Option ℤ)
      → check_group_lock old new component n lock before current ≡ some ([], n')
      → (cur : ℤ) × (current ≡ some cur)
        × (breaks_lock n' cur lock.replicas (or_default before (pos 0)) ≡ false)
        × (counted n cur lock.replicas (or_default before (pos 0)) ≡ n')
  unfolding check_group_lock
  check_group_lock-Passed n n' lock before none h =
      cc (locked_or-passes true (path_for_group_replicas old component lock.name) n n' h).0
  check_group_lock-Passed n n' lock before (some cur) h =
      let m = counted n cur lock.replicas (or_default before (pos 0)) in
      let b = breaks_lock m cur lock.replicas (or_default before (pos 0)) in
      let (e, k) = locked_or-passes b (path_for_group_replicas new component lock.name) m n' h in
      (cur, refl, rw (← k) e, k)

  rest-Passed :
      (n : Counters) (lock : GroupLock) (locks : List GroupLock) (before current : Option ℤ)
      (errors : List FieldError) (n' : Counters)
      → read_replicas old component lock.name ≡ some before
      → read_replicas new component lock.name ≡ some current
      → check_group_lock old new component n lock before current ≡ some (errors, n')
      → unless_panic (λ rest. errors ++ rest) (check_group_locks old new component n' locks)
        ≡ some []
      → Passed n lock locks
  rest-Passed n lock locks before current errors n' b c d h =
      let (e, r) = joined-empty errors (check_group_locks old new component n' locks) h in
      let (cur, f, g, k) =
        check_group_lock-Passed n n' lock before current (d ∙ (λ i. some (e i, n'))) in
      (before, cur, b, c ∙ ap some f, rw k g, rw k r)

  check_group_locks-Passed :
      (n : Counters) (lock : GroupLock) (locks : List GroupLock)
      → check_group_locks old new component n (lock ∷ locks) ≡ some []
      → Passed n lock locks
  unfolding check_group_locks
  check_group_locks-Passed n lock locks h =
      let (before, b, h₁) = and_then-some _ _ h in
      let (current, c, h₂) = and_then-some _ _ h₁ in
      let (checked, d, h₃) = and_then-some _ _ h₂ in
      rest-Passed n lock locks before current checked.0 checked.1 b c d h₃

  -- Once a group has moved to its lock, all that follow have; once one is unchanged, likewise.
  moved-IsAt :
      (locks : List GroupLock) (n : Counters)
      → 0 < n.updated
      → check_group_locks old new component n locks ≡ some []
      → All IsAt locks
  unfolding counted breaks_lock
  moved-IsAt [] n m h = tt
  moved-IsAt (lock ∷ locks) n m h =
      let (before, cur, b, c, d, r) = check_group_locks-Passed n lock locks h in
      let was = or_default before (pos 0) in
      let e : eqb_ℤ cur lock.replicas ≡ true = ground arith in
      let v : 0 < (counted n cur lock.replicas was).updated = ground arith in
      (
        c ∙ ap (λ x. some (some x)) (eqb_ℤ→eq cur lock.replicas e),
        moved-IsAt locks (counted n cur lock.replicas was) v r,
      )

  unchanged-WasAt :
      (locks : List GroupLock) (n : Counters)
      → 0 < n.unchanged
      → check_group_locks old new component n locks ≡ some []
      → All WasAt locks
  unfolding counted breaks_lock
  unchanged-WasAt [] n m h = tt
  unchanged-WasAt (lock ∷ locks) n m h =
      let (before, cur, b, c, d, r) = check_group_locks-Passed n lock locks h in
      let was = or_default before (pos 0) in
      let v : 0 < (counted n cur lock.replicas was).unchanged = ground arith in
      let e : eqb_ℤ cur was ≡ true = ground arith in
      (
        (before, b, c ∙ ap (λ x. some (some x)) (eqb_ℤ→eq cur was e)),
        unchanged-WasAt locks (counted n cur lock.replicas was) v r,
      )

  abbrev pub Held : List GroupLock → Type 0
  Held locks = All IsAt locks ⊎ All WasAt locks

  check_group_locks-Held :
      (locks : List GroupLock)
      → check_group_locks old new component (record { unchanged = 0; updated = 0 }) locks ≡ some []
      → Held locks
  unfolding counted breaks_lock
  check_group_locks-Held [] h = inl tt
  check_group_locks-Held (lock ∷ locks) h =
      let start : Counters = record { unchanged = 0; updated = 0 } in
      let (before, cur, b, c, d, r) = check_group_locks-Passed start lock locks h in
      let was = or_default before (pos 0) in
      let n = counted start cur lock.replicas was in
      elim (Bool-cases (eqb_ℤ cur lock.replicas)) [
        | inl e ↦ inl (
          c ∙ ap (λ x. some (some x)) (eqb_ℤ→eq cur lock.replicas e),
          moved-IsAt locks n (ground arith) r,
        )
        | inr e ↦
            let q : eqb_ℤ cur was ≡ true = ground arith in
            inr (
              (before, b, c ∙ ap (λ x. some (some x)) (eqb_ℤ→eq cur was q)),
              unchanged-WasAt locks n (ground arith) r,
            )
      ]

-- Every scale view's groups are all at their locks, or all as they were.
abbrev pub HoldsLocks : RisingWave → RisingWave → List Lock → Type 0
HoldsLocks old new = All (λ scale_view. Held old new scale_view.component scale_view.group_locks)

pub check_scale_views-HoldsLocks :
    (old new : RisingWave) (scale_views : List Lock)
    → check_scale_views old new scale_views ≡ some []
    → HoldsLocks old new scale_views
unfolding check_scale_views
check_scale_views-HoldsLocks old new [] h = tt
check_scale_views-HoldsLocks old new (scale_view ∷ scale_views) h =
    let (errors, e, h₁) = and_then-some _ _ h in
    let (k, r) = joined-empty errors (check_scale_views old new scale_views) h₁ in
    (
      check_group_locks-Held old new scale_view.component scale_view.group_locks (e ∙ ap some k),
      check_scale_views-HoldsLocks old new scale_views r,
    )
