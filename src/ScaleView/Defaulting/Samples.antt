-- ===== src/ScaleView/Defaulting/Samples.antt =====
-- A scale view that is created with no policies, and gets those of its component.
use risingwave_operator.Prelude.{◌≡◌, refl, none, false, [], ◌∷◌, String, pos, ◌+ℤ◌, int32}
use risingwave_operator.Lo.Plain.{plain_lo}
use risingwave_operator.ScaleView.{ScaleView}
use risingwave_operator.ScaleView.Helper.{RisingWave}
use risingwave_operator.ScaleView.Defaulting.{
  Answer, found, defaulted, set_default, set_label_selector, filled, default_policy,
}
use risingwave_operator.ScaleView.Defaulting.Reads.{HasRead, set_default-HasRead}

abbrev two_groups : RisingWave
two_groups = record {
  uid = "u0";
  meta = [];
  frontend = [];
  compactor = [];
  compute = record { name = "a"; replicas = pos 3 } ∷ record { name = "b"; replicas = pos 1 } ∷ [];
  scale_views = [];
}

abbrev get_two_groups : String → String → Answer
get_two_groups namespace name = found two_groups

abbrev new_view : ScaleView
new_view = record {
  name = "sv";
  namespace = "ns";
  uid = "u1";
  generation = pos 1;
  spec = record {
    target_ref = record { name = "rw"; component = "compute"; uid = "" };
    replicas = none;
    label_selector = [];
    scale_policy = [];
  };
  status = record { replicas = none; locked = false };
}

abbrev filled_view : ScaleView
filled_view =
    set_label_selector plain_lo
      (filled two_groups new_view (default_policy "a" ∷ default_policy "b" ∷ []) (pos 4))

new_view_defaulted : set_default plain_lo get_two_groups new_view ≡ defaulted filled_view
unfolding set_default ◌+ℤ◌ int32
new_view_defaulted = refl

set_default-HasRead_example : HasRead two_groups filled_view
set_default-HasRead_example =
    set_default-HasRead plain_lo get_two_groups two_groups new_view filled_view refl
      new_view_defaulted
