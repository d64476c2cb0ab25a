-- ===== src/ScaleView/Locks/Samples.antt =====
-- Runs of the lock manager.
use risingwave_operator.Prelude.{pos, ◌≡◌, ◌↔◌, refl, Bool, some, List, [], ◌∷◌, false, true, All}
use risingwave_operator.Lo.Plain.{plain_lo, plain_lo-IsDocumented}
use risingwave_operator.ScaleView.{Lock}
use risingwave_operator.ScaleView.Split.{Replicas, split_replicas}
use risingwave_operator.ScaleView.Split.Samples.{mixed_view}
use risingwave_operator.ScaleView.Locks.{
  ok, new_lock, grab_scale_view_lock_for, grab_or_update_scale_view_lock_for, get_scale_view_lock,
  release_lock_for,
}
use risingwave_operator.ScaleView.Locks.Checks.{Compatible}
use risingwave_operator.ScaleView.Locks.Exclusive.{IsExclusive}
use risingwave_operator.ScaleView.Locks.Grab.{grab-succeeds_iff, grab-IsExclusive, release-grab}
use risingwave_operator.ScaleView.Locks.Update.{
  KeepsGroups, grab_or_update-settles, grabs, Reach, here, next, Reach-IsExclusive,
}

abbrev mixed_map : Replicas
mixed_map = ("b", pos 2) ∷ ("a", pos 7) ∷ []

mixed_divided : split_replicas plain_lo mixed_view ≡ some mixed_map
unfolding split_replicas
mixed_divided = refl

-- A lock of another scale view on another component.
abbrev other_lock : Lock
other_lock = record {
  name = "other";
  uid = "u9";
  component = "meta";
  generation = pos 4;
  group_locks = record { name = "a"; replicas = pos 1 } ∷ [];
}

abbrev after_grab : List Lock
after_grab = other_lock ∷ new_lock plain_lo mixed_view mixed_map ∷ []

mixed_grabbed : grab_scale_view_lock_for plain_lo mixed_view (other_lock ∷ []) ≡ ok after_grab
unfolding grab_scale_view_lock_for split_replicas
mixed_grabbed = refl

mixed_updated :
    grab_or_update_scale_view_lock_for plain_lo mixed_view (other_lock ∷ []) ≡ ok (after_grab, true)
unfolding grab_or_update_scale_view_lock_for grab_scale_view_lock_for split_replicas
mixed_updated = refl

other-IsExclusive : IsExclusive (other_lock ∷ [])
other-IsExclusive = (tt, tt)

other_keeps : KeepsGroups mixed_view (other_lock ∷ [])
unfolding get_scale_view_lock
other_keeps l h = cc

grab-succeeds_iff_example :
    (grab_scale_view_lock_for plain_lo mixed_view (other_lock ∷ []) ≡ ok after_grab)
    ↔ All (λ s. Compatible s (new_lock plain_lo mixed_view mixed_map)) (other_lock ∷ [])
grab-succeeds_iff_example =
    grab-succeeds_iff plain_lo mixed_view (other_lock ∷ []) mixed_map plain_lo-IsDocumented
      mixed_divided

grab-IsExclusive_example : IsExclusive after_grab
grab-IsExclusive_example =
    grab-IsExclusive plain_lo mixed_view (other_lock ∷ []) after_grab plain_lo-IsDocumented
      other-IsExclusive mixed_grabbed

release-grab_example :
    (l : Lock) × (get_scale_view_lock mixed_view after_grab ≡ some l)
    × (l.generation ≡ mixed_view.generation)
    × (◌≡◌ {A = List Lock × Bool} (release_lock_for mixed_view after_grab) (other_lock ∷ [], true))
release-grab_example =
    release-grab plain_lo mixed_view (other_lock ∷ []) after_grab plain_lo-IsDocumented
      mixed_grabbed

grab_or_update-settles_example :
    (l : Lock) × (get_scale_view_lock mixed_view after_grab ≡ some l)
    × (l.generation ≡ mixed_view.generation)
    × (grab_or_update_scale_view_lock_for plain_lo mixed_view after_grab ≡ ok (after_grab, false))
grab_or_update-settles_example =
    grab_or_update-settles plain_lo mixed_view (other_lock ∷ []) after_grab true
      plain_lo-IsDocumented mixed_updated

grabs_once : Reach plain_lo (other_lock ∷ []) after_grab
grabs_once = next here (grabs mixed_view true other_keeps mixed_updated)

Reach-IsExclusive_example : IsExclusive after_grab
Reach-IsExclusive_example =
    Reach-IsExclusive plain_lo plain_lo-IsDocumented other-IsExclusive grabs_once
