-- ===== src/Features/Samples.antt =====
-- Feature gates at examples: the three supported features.
use risingwave_operator.Prelude.{
  ◌≡◌, ◌↔◌, refl, Bool, true, false, none, some, List, [], ◌∷◌, map, Bytes, codes, is_empty,
}
use risingwave_operator.Features.{
  Feature, FeatureManager, Parsed, init_feature_manager_with_supported_features,
  parse_from_feature_gate_string,
}
use risingwave_operator.Features.Gates.{format_gates}
use risingwave_operator.Features.Settings.{Applied, parse_from_feature_gate_string-Applied}
use risingwave_operator.Features.Panics.{
  AreSpaces, settled, parse_from_feature_gate_string-panics_iff,
  parse_from_feature_gate_string-settled,
}

abbrev feature : Bytes → Bool → Bytes → Feature
feature name default stage = record {
  name = name;
  description = [];
  enabled = false;
  default_enable = default;
  stage = stage;
}

-- SupportedFeatureList
abbrev supported_feature_list : List Feature
supported_feature_list =
    feature (codes "EnableOpenKruise") false (codes "Beta")
    ∷ feature (codes "EnableForceUpdate") true (codes "Beta")
    ∷ feature (codes "RandomSecretStorePrivateKey") false (codes "Alpha")
    ∷ []

abbrev initial : FeatureManager
initial = init_feature_manager_with_supported_features supported_feature_list

abbrev settings : List (Bytes × Bool)
settings = (codes "Unknown", true) ∷ (codes "EnableForceUpdate", false) ∷ []

parse_from_feature_gate_string-Applied_example :
    (after : FeatureManager) × (parse_from_feature_gate_string
        (format_gates ((codes "EnableOpenKruise", true) ∷ settings))
        initial
      ≡ some (after, true))
    × Applied ((codes "EnableOpenKruise", true) ∷ settings) initial after
parse_from_feature_gate_string-Applied_example =
    parse_from_feature_gate_string-Applied (codes "EnableOpenKruise") true settings initial
      (refl, refl, (refl, refl, (refl, refl, tt)))

parse_from_feature_gate_string-panics_iff_example :
    (parse_from_feature_gate_string (codes "  ") initial ≡ none)
    ↔ ((is_empty (codes "  ") ≡ false) × AreSpaces (codes "  "))
parse_from_feature_gate_string-panics_iff_example =
    parse_from_feature_gate_string-panics_iff (codes "  ") initial

-- The second gate is wrong; the first stays in force.
abbrev half : Parsed
half = (
  record (feature (codes "EnableOpenKruise") false (codes "Beta")) { enabled = true }
      ∷ record (feature (codes "EnableForceUpdate") true (codes "Beta")) { enabled = true }
      ∷ feature (codes "RandomSecretStorePrivateKey") false (codes "Alpha")
      ∷ [],
  false,
)

half_parsed :
    parse_from_feature_gate_string (codes "EnableOpenKruise=true, EnableForceUpdate") initial
    ≡ some half
unfolding parse_from_feature_gate_string init_feature_manager_with_supported_features
half_parsed = refl

parse_from_feature_gate_string-settled_example : map settled half.0 ≡ map settled initial
parse_from_feature_gate_string-settled_example =
    parse_from_feature_gate_string-settled (codes "EnableOpenKruise=true, EnableForceUpdate")
      initial half half_parsed
