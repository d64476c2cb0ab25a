-- ===== src/ScaleView/Split/Samples.antt =====
-- Runs of `split_replicas` on the inputs of split_test.go.
use mathlib.Core.List.{Nodup, Nodup-cons, Nodup-nil, mem-cons, not-mem-nil, Perm}
use mathlib.Core.Logic.Or
use mathlib.Core.HLevel.{⊥_prop}
use risingwave_operator.ScaleView.Split.Plan.{names, total}
use risingwave_operator.ScaleView.Split.Grants.{group_names, Served}
use risingwave_operator.ScaleView.Split.Total.{
  wanted, IsRegular, IsCovered, split_replicas-serves, split_replicas-panics,
}
use risingwave_operator.ScaleView.Split.Shares.{cap}
use risingwave_operator.Prelude.{
  str_eq, str_eq_iff, sum_of, arith, All, pos_part, ℤ, pos, ◌+ℤ◌, ◌-ℤ◌, ◌≡◌, refl, Option, none,
  some, List, [], ◌∷◌, String, false,
}
use risingwave_operator.Lo.Plain.{plain_lo, plain_lo-IsDocumented}
use risingwave_operator.ScaleView.{ScalePolicy, ScaleView}
use risingwave_operator.ScaleView.Split.{Replicas, limit, split_replicas}

abbrev pub policy : String → ℤ → Option ℤ → ScalePolicy
policy group priority max = record { group = group; priority = priority; max_replicas = max }

abbrev pub view_of : ℤ → List ScalePolicy → ScaleView
view_of replicas policies = record {
  name = "sv";
  namespace = "ns";
  uid = "u1";
  generation = pos 1;
  spec = record {
    target_ref = record { name = "rw"; component = "compute"; uid = "u0" };
    replicas = some replicas;
    label_selector = [];
    scale_policy = policies;
  };
  status = record { replicas = none; locked = false };
}

two_but_one_limited :
    split_replicas plain_lo
      (view_of (pos 9) (policy "a" (pos 0) none ∷ policy "b" (pos 0) (some (pos 2)) ∷ []))
    ≡ some (("b", pos 2) ∷ ("a", pos 7) ∷ [])
unfolding split_replicas ◌+ℤ◌ ◌-ℤ◌
two_but_one_limited = refl

pub two_distinct : (a b : String) → str_eq a b ≡ false → Nodup (a ∷ b ∷ [])
two_distinct a b h = Nodup-cons.1 (
  λ m. Or.elim ⊥_prop (mem-cons.0 m) (λ e. cc (h, (str_eq_iff a b).1 e)) not-mem-nil,
  Nodup-cons.1 (not-mem-nil, Nodup-nil),
)

-- A limited group beside an unlimited one.
abbrev pub mixed_view : ScaleView
mixed_view = view_of (pos 9) (policy "a" (pos 0) none ∷ policy "b" (pos 0) (some (pos 2)) ∷ [])

pub mixed_view-IsRegular : IsRegular mixed_view
unfolding limit
mixed_view-IsRegular = record {
  distinct = two_distinct "a" "b" refl;
  limits = (refl, (refl, tt));
  not_negative = refl;
  is_int32 = omega arith;
}

pub mixed_view-IsCovered : IsCovered mixed_view
unfolding limit cap sum_of
mixed_view-IsCovered = omega arith

split_replicas-serves_example :
    (m : Replicas) × (split_replicas plain_lo mixed_view ≡ some m)
    × Perm (names m) (group_names mixed_view.spec.scale_policy)
    × (total m ≡ pos_part (wanted mixed_view))
    × All (Served m) mixed_view.spec.scale_policy
split_replicas-serves_example =
    split_replicas-serves plain_lo mixed_view plain_lo-IsDocumented mixed_view-IsRegular
      mixed_view-IsCovered

-- Both groups are limited to two replicas.
abbrev short_view : ScaleView
short_view =
    view_of (pos 9) (policy "a" (pos 1) (some (pos 2)) ∷ policy "b" (pos 0) (some (pos 2)) ∷ [])

short_view-IsRegular : IsRegular short_view
unfolding limit
short_view-IsRegular = record {
  distinct = two_distinct "a" "b" refl;
  limits = (refl, (refl, tt));
  not_negative = refl;
  is_int32 = omega arith;
}

short_view_uncovered : ¬ IsCovered short_view
unfolding limit cap sum_of
short_view_uncovered = omega arith

split_replicas-panics_example : split_replicas plain_lo short_view ≡ none
split_replicas-panics_example =
    split_replicas-panics plain_lo short_view plain_lo-IsDocumented short_view-IsRegular
      short_view_uncovered
