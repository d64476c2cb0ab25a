-- ===== src/Features/Panics.antt =====
-- The panics of parsing (pkg/features/feature_manager.go), and the features around any text.
use risingwave_operator.Prelude.{
  ◌≡◌, ◌∙◌, ◌↔◌, refl, ap, Bool, true, false, ◌&&◌, Option, none, some, List, [], ◌∷◌, map, Bytes,
  bytes_eq, is_empty, split, All, if◌then◌else◌, Bool-cases, inl, inr,
}
use risingwave_operator.Features.{
  Feature, FeatureManager, set_enabled, is_space, is_letter, trim_space_left, trim_space_right,
  trim_space, parse_feature_string, then_gates, Parsed, parse_gates, parse_trimmed,
  parse_from_feature_gate_string,
}

abbrev pub AreSpaces : Bytes → Type 0
AreSpaces = All (λ c. is_space c ≡ true)

trimmed-AreSpaces : (s : Bytes) → trim_space_right (trim_space_left s) ≡ [] → AreSpaces s
unfolding trim_space_left trim_space_right
trimmed-AreSpaces [] h = tt
trimmed-AreSpaces (c ∷ s) h = elim (Bool-cases (is_space c)) [
  | inl e ↦ (e, trimmed-AreSpaces s (rw e at h))
  | inr e ↦ absurd (solid (is_empty (trim_space_right s)) _ (rw (e, e) at h))
]
  where
    solid : (b : Bool) (r : Bytes) → (if b && false then [] else c ∷ r) ≡ [] → ⊥
    solid true r k = cc
    solid false r k = cc

AreSpaces-trimmed : (s : Bytes) → AreSpaces s → trim_space_right (trim_space_left s) ≡ []
unfolding trim_space_left trim_space_right
AreSpaces-trimmed [] h = refl
AreSpaces-trimmed (c ∷ s) (e, h) = rw e (AreSpaces-trimmed s h)

nothing-trimmed :
    (t : Bytes) (features : FeatureManager) → (parse_trimmed t features ≡ none) ↔ (t ≡ [])
unfolding parse_trimmed
nothing-trimmed [] features = (λ h. refl, λ h. refl)
nothing-trimmed (c ∷ t) features = elim (Bool-cases (is_letter c)) [
  | inl e ↦ (λ h. absurd (let k = (rw e at h) in cc), λ h. cc)
  | inr e ↦ (λ h. absurd (let k = (rw e at h) in cc), λ h. cc)
]

-- Parsing panics exactly on the texts that are not empty and hold nothing but white space.
pub parse_from_feature_gate_string-panics_iff :
    (s : Bytes) (features : FeatureManager)
    → (parse_from_feature_gate_string s features ≡ none) ↔ ((is_empty s ≡ false) × AreSpaces s)
unfolding parse_from_feature_gate_string trim_space
parse_from_feature_gate_string-panics_iff [] features = (λ h. cc, λ (a, b). cc)
parse_from_feature_gate_string-panics_iff (c ∷ s) features = (
  λ h. (
    refl,
    trimmed-AreSpaces (c ∷ s)
        ((nothing-trimmed (trim_space_right (trim_space_left (c ∷ s))) features).0 h),
  ),
  λ (_, k).
      (nothing-trimmed (trim_space_right (trim_space_left (c ∷ s))) features).1
        (AreSpaces-trimmed (c ∷ s) k),
)

-- What parsing may not change: all of a feature but whether it is enabled.
abbrev pub settled : Feature → Feature
settled f = record f { enabled = false }

set_enabled-settled :
    (name : Bytes) (enabled : Bool) (features : FeatureManager)
    → map settled (set_enabled name enabled features) ≡ map settled features
unfolding set_enabled
set_enabled-settled name enabled [] = refl
set_enabled-settled name enabled (f ∷ features) = elim (Bool-cases (bytes_eq f.name name)) [
  | inl e ↦ rw e refl
  | inr e ↦ rw e (ap (λ r. settled f ∷ r) (set_enabled-settled name enabled features))
]

parse_gates-settled :
    (gates : List Bytes) (features : FeatureManager)
    → map settled (parse_gates gates features).0 ≡ map settled features
unfolding parse_gates
parse_gates-settled [] features = refl
parse_gates-settled (gate ∷ gates) features =
    gate_settled (parse_feature_string gate) (parse_gates-settled gates)
  where
    gate_settled :
        (g : Option (Bytes × Bool))
        → ((fs : FeatureManager) → map settled (parse_gates gates fs).0 ≡ map settled fs)
        → map settled (then_gates g features (parse_gates gates)).0 ≡ map settled features
    gate_settled none ih = refl
    gate_settled (some (name, enabled)) ih =
        ih (set_enabled name enabled features) ∙ set_enabled-settled name enabled features

trimmed-settled :
    (s : Bytes) (features : FeatureManager) (after : Parsed)
    → parse_trimmed s features ≡ some after
    → map settled after.0 ≡ map settled features
unfolding parse_trimmed
trimmed-settled [] features after h = cc
trimmed-settled (c ∷ s) features after h = elim (Bool-cases (is_letter c)) [
  | inl e ↦
      let k : some (parse_gates (split b',' (c ∷ s)) features) ≡ some after = (rw e at h) in
      let p : parse_gates (split b',' (c ∷ s)) features ≡ after = cc in
      rw (← p) (parse_gates-settled (split b',' (c ∷ s)) features)
  | inr e ↦
      let k : ◌≡◌ {A = Option Parsed} (some (features, false)) (some after) = (rw e at h) in
      let p : ◌≡◌ {A = Parsed} (features, false) after = cc in rw (← p) refl
]

-- No text that is parsed, with or without an error, adds or removes a feature or changes anything of
-- one but whether it is enabled.
pub parse_from_feature_gate_string-settled :
    (s : Bytes) (features : FeatureManager) (after : Parsed)
    → parse_from_feature_gate_string s features ≡ some after
    → map settled after.0 ≡ map settled features
unfolding parse_from_feature_gate_string
parse_from_feature_gate_string-settled [] features after h =
    let p : ◌≡◌ {A = Parsed} (features, true) after = cc in rw (← p) refl
parse_from_feature_gate_string-settled (c ∷ s) features after h =
    trimmed-settled (trim_space (c ∷ s)) features after h
