-- ===== src/Features/Settings.antt =====
-- The settings that written feature gates make (pkg/features/feature_manager.go).
use risingwave_operator.Prelude.{
  ◌≡◌, ◌∙◌, refl, ap, Bool, true, false, not, Option, none, some, or_default, is_none, List, [],
  ◌∷◌, Bytes, bytes_eq, bytes_eq_iff, if◌then◌else◌, arith,
}
use risingwave_operator.Features.{
  Feature, FeatureManager, find_feature, is_feature_exist, is_feature_enabled, enabled_of,
  set_enabled, parse_from_feature_gate_string,
}
use risingwave_operator.Features.Gates.{
  AreNames, format_gates, apply_settings, parse_gate_string-formats,
}

abbrev with_enabled : Bool → Option Feature → Option Feature
with_enabled enabled none = none
with_enabled enabled (some f) = some (record f { enabled = enabled })

find-set :
    (name other : Bytes) (enabled : Bool) (features : FeatureManager)
    → find_feature (set_enabled name enabled features) other ≡ (
        if bytes_eq name other
        then with_enabled enabled (find_feature features other)
        else find_feature features other)
unfolding find_feature set_enabled
find-set name other enabled [] = ground arith
find-set name other enabled (f ∷ features) = ground (
  arith,
  bytes_eq_iff f.name name,
  bytes_eq_iff name other,
  bytes_eq_iff f.name other,
  find-set name other enabled features,
)

abbrev pub later : Option Bool → Option Bool → Option Bool
later none o = o
later (some b) o = some b

-- The last setting of a name, if there is one.
abbrev pub last_setting : List (Bytes × Bool) → Bytes → Option Bool
last_setting [] name = none
last_setting ((n, b) ∷ settings) name =
    later (last_setting settings name) (if bytes_eq n name then some b else none)

abbrev with_last : Option Bool → Option Feature → Option Feature
with_last none f = f
with_last (some b) f = with_enabled b f

with_last-later :
    (later' : Option Bool) (test : Bool) (b : Bool) (f : Option Feature)
    → with_last later' (if test then with_enabled b f else f)
      ≡ with_last (later later' (if test then some b else none)) f
with_last-later none true b f = refl
with_last-later none false b f = refl
with_last-later (some d) true b none = refl
with_last-later (some d) true b (some f) = refl
with_last-later (some d) false b f = refl

find-apply :
    (settings : List (Bytes × Bool)) (features : FeatureManager) (name : Bytes)
    → find_feature (apply_settings settings features) name
      ≡ with_last (last_setting settings name) (find_feature features name)
find-apply [] features name = refl
find-apply ((n, b) ∷ settings) features name =
    find-apply settings (set_enabled n b features) name
    ∙ ap (with_last (last_setting settings name)) (find-set n name b features)
    ∙ with_last-later (last_setting settings name) (bytes_eq n name) b (find_feature features name)

exists-last :
    (o : Option Bool) (f : Option Feature) → not (is_none (with_last o f)) ≡ not (is_none f)
exists-last none f = refl
exists-last (some b) none = refl
exists-last (some b) (some f) = refl

enabled-last :
    (o : Option Bool) (f : Option Feature)
    → enabled_of (with_last o f) ≡ (if not (is_none f) then or_default o (enabled_of f) else false)
enabled-last none none = refl
enabled-last none (some f) = refl
enabled-last (some b) none = refl
enabled-last (some b) (some f) = refl

-- Features that exist before and after, and are enabled as their last setting says, if they have one.
abbrev pub Applied : List (Bytes × Bool) → FeatureManager → FeatureManager → Type 0
Applied settings features after =
    (name : Bytes)
    → (is_feature_exist after name ≡ is_feature_exist features name)
      × (is_feature_enabled after name ≡ (
          if is_feature_exist features name
          then or_default (last_setting settings name) (is_feature_enabled features name)
          else false))

apply-Applied :
    (settings : List (Bytes × Bool)) (features : FeatureManager)
    → Applied settings features (apply_settings settings features)
unfolding is_feature_exist is_feature_enabled
apply-Applied settings features name =
    let e = find-apply settings features name in
    let o = last_setting settings name in
    (
      ap (λ f. not (is_none f)) e ∙ exists-last o (find_feature features name),
      ap enabled_of e ∙ enabled-last o (find_feature features name),
    )

-- Settings are written as name=true and name=false with commas between them, at least one, each name
-- beginning with a letter and without spaces, commas and equals signs. Parsing that text gives no
-- error; a feature exists afterwards exactly if it did before, and one that exists is enabled as its
-- last setting says, or as before if it has none.
pub parse_from_feature_gate_string-Applied :
    (name : Bytes) (enabled : Bool) (settings : List (Bytes × Bool)) (features : FeatureManager)
    → AreNames ((name, enabled) ∷ settings)
    → (after : FeatureManager) × (parse_from_feature_gate_string
          (format_gates ((name, enabled) ∷ settings))
          features
        ≡ some (after, true))
      × Applied ((name, enabled) ∷ settings) features after
parse_from_feature_gate_string-Applied name enabled settings features h = (
  apply_settings ((name, enabled) ∷ settings) features,
  parse_gate_string-formats name enabled settings features h,
  apply-Applied ((name, enabled) ∷ settings) features,
)
