-- ===== src/ScaleView/Locks/Wanted.antt =====
-- The lock after grabbing it (pkg/object/scale_view_lock_manager.go).
use risingwave_operator.Prelude.{
  true, ℕ, suc, none, [], ◌∷◌, inl, inr, Option-cases, ◌≡◌, ◌∙◌, refl, ap, subst, pos_part, sum_of,
  some, List,
}
use mathlib.Core.List.{Perm}
use risingwave_operator.Lo.{Lo, IsDocumented}
use risingwave_operator.ScaleView.{ScaleView, Lock}
use risingwave_operator.ScaleView.Split.Grants.{group_names}
use risingwave_operator.ScaleView.Split.Plan.{names, total}
use risingwave_operator.ScaleView.Split.Total.{IsRegular, IsCovered, wanted, split_replicas-serves}
use risingwave_operator.ScaleView.Locks.{
  ok, new_lock, get_scale_view_lock, grab_scale_view_lock_for, find_from, is_lock_of,
  get_scale_view_lock_index, grab_or_update_scale_view_lock_for, grabbed, grab_or_update_at,
}
use risingwave_operator.ScaleView.Locks.Checks.{group_locks_for-map}
use risingwave_operator.ScaleView.Locks.Exclusive.{locked_names}
use risingwave_operator.ScaleView.Locks.Grab.{grab-ok, grab-index, locked_sum}
use risingwave_operator.ScaleView.Locks.Update.{locked_names-map}

-- What the lock of a scale view says after a grab.
pub record IsWanted (sv : ScaleView) (l : Lock) : Type 0 where
  pub current : l.generation ≡ sv.generation
  pub groups : locked_names l.group_locks ≡ group_names sv.spec.scale_policy
  pub adds_up : sum_of (λ g. pos_part g.replicas) l.group_locks ≡ pos_part (wanted sv)

pub grab-IsWanted :
    (lo : Lo) (sv : ScaleView) (locks after : List Lock)
    → IsDocumented lo
    → IsRegular sv
    → IsCovered sv
    → grab_scale_view_lock_for lo sv locks ≡ ok after
    → (l : Lock) × (get_scale_view_lock sv after ≡ some l) × IsWanted sv l
unfolding get_scale_view_lock new_lock
grab-IsWanted lo sv locks after laws r c h =
    let (m, d, k, e) = grab-ok lo sv locks after h in
    let (m', d', p, t, _) = split_replicas-serves lo sv laws r c in
    (
      new_lock lo sv m,
      rw (e, grab-index lo sv locks m laws k) refl,
      record {
        current = refl;
        groups =
            ap locked_names (group_locks_for-map lo laws sv m)
            ∙ locked_names-map m sv.spec.scale_policy;
        adds_up =
            locked_sum lo sv laws m
              (subst (λ x. Perm (names x) (group_names sv.spec.scale_policy)) (cc) p)
              (rw (← t) (ap total (cc))) r;
      },
    )

-- The lock manager knows a scale view by its name and its UID only.
find_from-alike :
    (a b : ScaleView) (i : ℕ) (locks : List Lock)
    → a.name ≡ b.name
    → a.uid ≡ b.uid
    → find_from a i locks ≡ find_from b i locks
unfolding find_from is_lock_of
find_from-alike a b i [] n u = refl
find_from-alike a b i (s ∷ locks) n u = rw (n, u, find_from-alike a b (suc i) locks n u) refl

pub get_scale_view_lock-alike :
    (a b : ScaleView) (locks : List Lock)
    → a.name ≡ b.name
    → a.uid ≡ b.uid
    → get_scale_view_lock a locks ≡ get_scale_view_lock b locks
unfolding get_scale_view_lock get_scale_view_lock_index
get_scale_view_lock-alike a b locks n u = rw (find_from-alike a b 0 locks n u) refl

-- Without a lock of its own, a scale view grabs one.
pub grab_or_update-grabs :
    (lo : Lo) (sv : ScaleView) (locks after : List Lock)
    → get_scale_view_lock sv locks ≡ none
    → grab_scale_view_lock_for lo sv locks ≡ ok after
    → grab_or_update_scale_view_lock_for lo sv locks ≡ ok (after, true)
unfolding grab_or_update_scale_view_lock_for get_scale_view_lock grabbed grab_or_update_at
grab_or_update-grabs lo sv locks after n h =
    elim (Option-cases (get_scale_view_lock_index sv locks)) [
      | inl e ↦ rw e (unfold grabbed in rw h refl)
      | inr ((i, l), e) ↦ absurd (let k : some l ≡ none = (rw e at n) in cc)
    ]
