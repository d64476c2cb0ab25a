-- ===== src/ScaleView/Locks/Grab.antt =====
-- Grabbing a lock, and releasing it (pkg/object/scale_view_lock_manager.go).
use mathlib.Core.List.{Mem, Nodup, Nodup-cons, Perm, mem-cons}
use mathlib.Core.List.Perm
use mathlib.Core.Logic.Or
use risingwave_operator.Prelude.{
  ℕ, suc, ◌+◌, ◌≡◌, ◌↔◌, ◌∙◌, refl, ap, subst, inl, inr, ℤ, pos_part, Bool, true, false, Option,
  none, some, List, [], ◌∷◌, ◌++◌, map, length, All, All-imp, String, str_eq_iff, str_eq_refl,
  arith, Option-cases, IsOrdered-snoc, take, drop, sum_of, sum_of-perm,
}
use risingwave_operator.Lo.{Lo, IsDocumented}
use risingwave_operator.ScaleView.{ScalePolicy, ScaleView, Lock}
use risingwave_operator.ScaleView.Split.{Replicas, get, split_replicas}
use risingwave_operator.ScaleView.Split.Plan.{names, total}
use risingwave_operator.ScaleView.Split.Grants.{group_names}
use risingwave_operator.ScaleView.Split.Total.{wanted, IsRegular, IsCovered, split_replicas-serves}
use risingwave_operator.ScaleView.Locks.{
  ok, is_lock_of, find_from, get_scale_view_lock_index, check_locks, new_lock, append_lock,
  grab_divided, grab_scale_view_lock_for, get_scale_view_lock, release_lock_for,
}
use risingwave_operator.ScaleView.Locks.Checks.{
  Compatible, check_locks-Compatible, Compatible-check_locks, group_locks_for-map, lock_group_of,
}
use risingwave_operator.ScaleView.Locks.Exclusive.{IsExclusive}

module _ (lo : Lo) (sv : ScaleView) (locks : List Lock) where
  append_lock-ok :
      (m : Replicas) (after : List Lock)
      → append_lock lo sv locks m ≡ ok after
      → (check_locks lo sv locks ≡ none) × (after ≡ locks ++ new_lock lo sv m ∷ [])
  unfolding append_lock
  append_lock-ok m after h = elim (Option-cases (check_locks lo sv locks)) [
    | inl e ↦ (e, ground (arith, e))
    | inr (x, e) ↦ ground (arith, e)
  ]

  divided-ok :
      (d : Option Replicas) (after : List Lock)
      → grab_divided lo sv locks d ≡ ok after
      → (m : Replicas) × (d ≡ some m)
        × (check_locks lo sv locks ≡ none)
        × (after ≡ locks ++ new_lock lo sv m ∷ [])
  unfolding grab_divided
  divided-ok none after h = cc
  divided-ok (some m) after h = let (a, b) = append_lock-ok m after h in (m, refl, a, b)

  -- A successful grab divides the replicas, passes the checks, and appends the new lock.
  pub grab-ok :
      (after : List Lock)
      → grab_scale_view_lock_for lo sv locks ≡ ok after
      → (m : Replicas) × (split_replicas lo sv ≡ some m)
        × (check_locks lo sv locks ≡ none)
        × (after ≡ locks ++ new_lock lo sv m ∷ [])
  unfolding grab_scale_view_lock_for
  grab-ok after h = divided-ok (split_replicas lo sv) after h

  grab-appends :
      (m : Replicas)
      → split_replicas lo sv ≡ some m
      → check_locks lo sv locks ≡ none
      → grab_scale_view_lock_for lo sv locks ≡ ok (locks ++ new_lock lo sv m ∷ [])
  unfolding grab_scale_view_lock_for
  grab-appends m d c = rw (d, grab_divided, append_lock, c)

-- When the division succeeds, grabbing succeeds exactly when every lock that is there may stand
-- beside the new one: it belongs to a scale view of another name, and on the same component it holds
-- none of the groups of the scale view.
pub grab-succeeds_iff :
    (lo : Lo) (sv : ScaleView) (locks : List Lock) (m : Replicas)
    → IsDocumented lo
    → split_replicas lo sv ≡ some m
    → (grab_scale_view_lock_for lo sv locks ≡ ok (locks ++ new_lock lo sv m ∷ []))
      ↔ All (λ s. Compatible s (new_lock lo sv m)) locks
grab-succeeds_iff lo sv locks m laws d = (
  λ h. check_locks-Compatible lo laws sv m locks (grab-ok lo sv locks _ h).2,
  λ c. grab-appends lo sv locks m d (Compatible-check_locks lo laws sv m locks c),
)

-- Grabbing keeps the lock records exclusive.
pub grab-IsExclusive :
    (lo : Lo) (sv : ScaleView) (locks after : List Lock)
    → IsDocumented lo
    → IsExclusive locks
    → grab_scale_view_lock_for lo sv locks ≡ ok after
    → IsExclusive after
grab-IsExclusive lo sv locks after laws x h =
    let (m, d, c, e) = grab-ok lo sv locks after h in
    rw e (
      IsOrdered-snoc Compatible locks (new_lock lo sv m) x
        (check_locks-Compatible lo laws sv m locks c))

new_lock-own : (lo : Lo) (sv : ScaleView) (m : Replicas) → is_lock_of sv (new_lock lo sv m) ≡ true
unfolding is_lock_of new_lock
new_lock-own lo sv m = ground (arith, str_eq_refl sv.name, str_eq_refl sv.uid)

not_own :
    (lo : Lo) (sv : ScaleView) (m : Replicas) (s : Lock)
    → Compatible s (new_lock lo sv m)
    → is_lock_of sv s ≡ false
unfolding is_lock_of new_lock
not_own lo sv m s c = ground (arith, c.names)

find_from-last :
    (sv : ScaleView) (l : Lock) (i : ℕ) (locks : List Lock)
    → is_lock_of sv l ≡ true
    → All (λ s. is_lock_of sv s ≡ false) locks
    → find_from sv i (locks ++ l ∷ []) ≡ some (i + length locks, l)
unfolding find_from
find_from-last sv l i [] e h = rw e (ap (λ n. some (n, l)) (omega arith))
find_from-last sv l i (s ∷ locks) e (a, h) =
    rw a (find_from-last sv l (suc i) locks e h ∙ ap (λ n. some (n, l)) (omega arith))

without_last :
    (l : Lock) (locks : List Lock)
    → take (length locks) (locks ++ l ∷ []) ++ drop (suc (length locks)) (locks ++ l ∷ []) ≡ locks
without_last l [] = refl
without_last l (s ∷ locks) = ap (λ r. s ∷ r) (without_last l locks)

pub grab-index :
    (lo : Lo) (sv : ScaleView) (locks : List Lock) (m : Replicas)
    → IsDocumented lo
    → check_locks lo sv locks ≡ none
    → get_scale_view_lock_index sv (locks ++ new_lock lo sv m ∷ [])
      ≡ some (length locks, new_lock lo sv m)
unfolding get_scale_view_lock_index
grab-index lo sv locks m laws c =
    find_from-last sv (new_lock lo sv m) 0 locks (new_lock-own lo sv m)
      (All-imp (not_own lo sv m) locks (check_locks-Compatible lo laws sv m locks c))
    ∙ ap (λ n. some (n, new_lock lo sv m)) (omega arith)

-- After a successful grab the scale view finds its own new lock, which carries its generation, and
-- releasing the lock gives back the lock records from before.
pub release-grab :
    (lo : Lo) (sv : ScaleView) (locks after : List Lock)
    → IsDocumented lo
    → grab_scale_view_lock_for lo sv locks ≡ ok after
    → (l : Lock) × (get_scale_view_lock sv after ≡ some l)
      × (l.generation ≡ sv.generation)
      × (◌≡◌ {A = List Lock × Bool} (release_lock_for sv after) (locks, true))
unfolding get_scale_view_lock release_lock_for
release-grab lo sv locks after laws h =
    let (m, d, c, e) = grab-ok lo sv locks after h in
    let i = grab-index lo sv locks m laws c in
    (
      new_lock lo sv m,
      rw (e, i),
      unfold new_lock in refl,
      rw (e, i) (ap (λ r. (r, true)) (without_last (new_lock lo sv m) locks)),
    )

-- The values of the map, read at its keys, add up to the total of the map.
skip_name :
    (k : String) (v : ℤ) (m : Replicas) (ks : List String)
    → ¬ Mem k ks
    → sum_of (λ g. pos_part (get ((k, v) ∷ m) g)) ks ≡ sum_of (λ g. pos_part (get m g)) ks
unfolding sum_of get
skip_name k v m [] h = refl
skip_name k v m (j ∷ ks) h = ground (
  arith,
  str_eq_iff k j,
  λ (e : k ≡ j). h (mem-cons.1 (Or.inl e)),
  skip_name k v m ks (λ x. h (mem-cons.1 (Or.inr x))),
)

get_first : (k : String) (v : ℤ) (m : Replicas) → get ((k, v) ∷ m) k ≡ v
unfolding get
get_first k v m = rw (str_eq_refl k)

total-get : (m : Replicas) → Nodup (names m) → sum_of (λ g. pos_part (get m g)) (names m) ≡ total m
unfolding sum_of
total-get [] h = refl
total-get ((k, v) ∷ m) h =
    let d = Nodup-cons.0 h in
    omega (arith, ap pos_part (get_first k v m), skip_name k v m (names m) d.0, total-get m d.1)

sum-group_locks :
    (m : Replicas) (ps : List ScalePolicy)
    → sum_of (λ g. pos_part g.replicas) (map (lock_group_of m) ps)
      ≡ sum_of (λ g. pos_part (get m g)) (group_names ps)
unfolding sum_of
sum-group_locks m [] = refl
sum-group_locks m (p ∷ ps) = omega (arith, sum-group_locks m ps)

pub locked_sum :
    (lo : Lo) (sv : ScaleView)
    → IsDocumented lo
    → (m : Replicas) → Perm (names m) (group_names sv.spec.scale_policy)
    → total m ≡ pos_part (wanted sv)
    → IsRegular sv
    → sum_of (λ g. pos_part g.replicas) (new_lock lo sv m).group_locks ≡ pos_part (wanted sv)
unfolding new_lock
locked_sum lo sv laws m p t r =
    rw
      (
        group_locks_for-map lo laws sv m,
        sum-group_locks m sv.spec.scale_policy,
        ← sum_of-perm (λ g. pos_part (get m g)) p,
      )
      (total-get m (Perm.nodup (Perm.symm p) r.distinct) ∙ t)

-- A lock grabbed for a scale view with distinct groups, no negative numbers and limits that cover the
-- replicas asked for (an int32) locks replicas that add up to exactly the replicas asked for.
pub grab-locks_wanted :
    (lo : Lo) (sv : ScaleView) (locks after : List Lock)
    → IsDocumented lo
    → IsRegular sv
    → IsCovered sv
    → grab_scale_view_lock_for lo sv locks ≡ ok after
    → (l : Lock) × (after ≡ locks ++ l ∷ [])
      × (sum_of (λ g. pos_part g.replicas) l.group_locks ≡ pos_part (wanted sv))
grab-locks_wanted lo sv locks after laws r c h =
    let (m, d, _, e) = grab-ok lo sv locks after h in
    let (m', d', p, t, _) = split_replicas-serves lo sv laws r c in
    (
      new_lock lo sv m,
      e,
      locked_sum lo sv laws m
          (subst (λ x. Perm (names x) (group_names sv.spec.scale_policy)) (cc) p)
          (rw (← t) (ap total (cc))) r,
    )
