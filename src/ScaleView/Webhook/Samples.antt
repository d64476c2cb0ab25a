-- ===== src/ScaleView/Webhook/Samples.antt =====
-- The admission of scale views, and the helper's writes, at examples.
use risingwave_operator.Prelude.{◌≡◌, refl, Bool, [], ◌∷◌, some, none, pos, ◌+ℤ◌, int32, sort_by}
use risingwave_operator.Lo.Plain.{plain_lo, plain_lo-IsDocumented}
use risingwave_operator.ScaleView.{ScaleView}
use risingwave_operator.ScaleView.Split.{Replicas, split_replicas}
use risingwave_operator.ScaleView.Split.Samples.{mixed_view, mixed_view-IsRegular, view_of, policy}
use risingwave_operator.ScaleView.Helper.{RisingWave, read_replicas, write_replicas}
use risingwave_operator.ScaleView.Helper.Writes.{Written, write_replicas-read_replicas}
use risingwave_operator.ScaleView.Webhook.{validate_object, validate_update}
use risingwave_operator.ScaleView.Webhook.Admits.{validate_object-splits}

-- The group without a limit last.
abbrev swapped_view : ScaleView
swapped_view = view_of (pos 4) (policy "b" (pos 1) (some (pos 2)) ∷ policy "a" (pos 0) none ∷ [])

mixed_valid : validate_object mixed_view ≡ []
unfolding validate_object
mixed_valid = refl

validate_object-splits_example : (m : Replicas) × (split_replicas plain_lo mixed_view ≡ some m)
validate_object-splits_example =
    validate_object-splits plain_lo mixed_view plain_lo-IsDocumented mixed_view-IsRegular
      mixed_valid

swapped_valid : validate_update plain_lo mixed_view swapped_view ≡ []
unfolding validate_update ◌+ℤ◌ int32 sort_by
swapped_valid = refl

abbrev two_groups : RisingWave
two_groups = record {
  uid = "u0";
  meta = [];
  frontend = [];
  compactor = [];
  compute = record { name = "a"; replicas = pos 3 } ∷ record { name = "b"; replicas = pos 1 } ∷ [];
  scale_views = [];
}

b_has_one : read_replicas two_groups "compute" "b" ≡ some (some (pos 1))
unfolding read_replicas
b_has_one = refl

write_replicas-read_replicas_example :
    (w : RisingWave × Bool) × (write_replicas two_groups "compute" "b" (pos 5) ≡ some w)
    × Written two_groups "compute" "b" (pos 1) (pos 5) w
write_replicas-read_replicas_example =
    write_replicas-read_replicas two_groups "compute" "b" (pos 1) (pos 5) b_has_one
