-- ===== src/Features.antt =====
-- pkg/features/feature_manager.go: the features of the operator and the parsing of feature gates. The
-- map from names to features is a list with one feature for each name; a text is the list of its code
-- points.
pub mod Gates
pub mod Settings
pub mod Panics
pub mod Samples
use risingwave_operator.Prelude.{
  and_then, ℕ, suc, Bool, true, false, ◌&&◌, ◌||◌, not, Option, none, some, List, [], ◌∷◌, Bytes,
  codes, bytes_eq, leb, ◌==◌, is_empty, is_none, length, keep, split, parse_bool, if◌then◌else◌,
}

pub record Feature : Type 0 where
  pub name : Bytes
  pub description : Bytes
  pub enabled : Bool
  pub default_enable : Bool
  pub stage : Bytes

-- FeatureManager
abbrev pub FeatureManager : Type 0
FeatureManager = List Feature

unfoldable pub find_feature : FeatureManager → Bytes → Option Feature
find_feature [] name = none
find_feature (f ∷ features) name =
    let rest = find_feature features name in if bytes_eq f.name name then some f else rest

-- A write to the map under the feature's own name.
unfoldable pub add_feature : Feature → FeatureManager → FeatureManager
add_feature feature [] = feature ∷ []
add_feature feature (f ∷ features) =
    let rest = add_feature feature features in
    if bytes_eq f.name feature.name then feature ∷ features else f ∷ rest

unfoldable pub add_supported : FeatureManager → List Feature → FeatureManager
unfolding add_feature
add_supported features [] = features
add_supported features (f ∷ supported) =
    add_supported (add_feature (record f { enabled = f.default_enable }) features) supported

unfoldable pub init_feature_manager_with_supported_features : List Feature → FeatureManager
unfolding add_supported
init_feature_manager_with_supported_features supported = add_supported [] supported

unfoldable pub is_feature_exist : FeatureManager → Bytes → Bool
unfolding find_feature
is_feature_exist features name = not (is_none (find_feature features name))

abbrev pub enabled_of : Option Feature → Bool
enabled_of none = false
enabled_of (some f) = f.enabled

unfoldable pub is_feature_enabled : FeatureManager → Bytes → Bool
unfolding find_feature
is_feature_enabled features name = enabled_of (find_feature features name)

-- `m.featureMap[name].Enabled = enabled` where the name exists, and nothing where it does not.
unfoldable pub set_enabled : Bytes → Bool → FeatureManager → FeatureManager
set_enabled name enabled [] = []
set_enabled name enabled (f ∷ features) =
    let rest = set_enabled name enabled features in
    if bytes_eq f.name name then record f { enabled = enabled } ∷ features else f ∷ rest

-- `none` is the error of a feature that does not exist.
unfoldable pub set_feature_enable : Bytes → Bool → FeatureManager → Option FeatureManager
unfolding is_feature_exist set_enabled
set_feature_enable name enabled features =
    if is_feature_exist features name then some (set_enabled name enabled features) else none

unfoldable pub enable_feature : Bytes → FeatureManager → Option FeatureManager
unfolding set_feature_enable
enable_feature name features = set_feature_enable name true features

unfoldable pub disable_feature : Bytes → FeatureManager → Option FeatureManager
unfolding set_feature_enable
disable_feature name features = set_feature_enable name false features

abbrev pub get_num_of_features : FeatureManager → ℕ
get_num_of_features features = length features

abbrev pub list_enabled_features : FeatureManager → List Feature
list_enabled_features features = keep (λ f. f.enabled) features

abbrev pub list_disabled_features : FeatureManager → List Feature
list_disabled_features features = keep (λ f. not f.enabled) features

-- unicode.IsSpace
abbrev pub is_space : ℕ → Bool
is_space c =
    leb 9 c && leb c 13
    || (c == 32
        || (c == 0x85
            || (c == 0xa0
                || (c == 0x1680
                    || (leb 0x2000 c && leb c 0x200a
                        || (c == 0x2028
                            || (c == 0x2029 || (c == 0x202f || (c == 0x205f || c == 0x3000)))))))))

unfoldable pub trim_space_left : Bytes → Bytes
trim_space_left [] = []
trim_space_left (c ∷ s) = let rest = trim_space_left s in if is_space c then rest else c ∷ s

unfoldable pub trim_space_right : Bytes → Bytes
trim_space_right [] = []
trim_space_right (c ∷ s) =
    let rest = trim_space_right s in if is_empty rest && is_space c then [] else c ∷ rest

-- strings.TrimSpace
unfoldable pub trim_space : Bytes → Bytes
unfolding trim_space_left trim_space_right
trim_space s = trim_space_right (trim_space_left s)

-- unicode.IsLetter on the first byte of a text, which is no letter where it begins a longer code.
abbrev pub is_letter : ℕ → Bool
is_letter c = leb b'a' c && leb c b'z' || leb b'A' c && leb c b'Z'

-- Behind the split at the equals sign; `none` is an error.
unfoldable pub parse_sides : List Bytes → Option (Bytes × Bool)
unfolding trim_space parse_bool
parse_sides [] = none
parse_sides (x ∷ []) = none
parse_sides (name ∷ value ∷ []) =
    if is_empty (trim_space name)
    then none
    else and_then (parse_bool (trim_space value)) λ enabled. some (trim_space name, enabled)
parse_sides (x ∷ y ∷ z ∷ xs) = none

unfoldable pub parse_feature_string : Bytes → Option (Bytes × Bool)
unfolding parse_sides split
parse_feature_string s = parse_sides (split b'=' s)

abbrev pub Parsed : Type 0
Parsed = FeatureManager × Bool

-- A gate in the loop, and the rest of it.
abbrev pub then_gates : Option (Bytes × Bool) → FeatureManager → (FeatureManager → Parsed) → Parsed
then_gates none features rest = (features, false)
then_gates (some (name, enabled)) features rest = rest (set_enabled name enabled features)

-- The loop over the gates: the features as they are then, and whether there was no error.
unfoldable pub parse_gates : List Bytes → FeatureManager → Parsed
unfolding parse_feature_string set_enabled
parse_gates [] features = (features, true)
parse_gates (gate ∷ gates) features =
    then_gates (parse_feature_string gate) features (parse_gates gates)

-- The text behind trimming; `none` is the panic of the slice [0:1].
unfoldable pub parse_trimmed : Bytes → FeatureManager → Option Parsed
unfolding parse_gates split
parse_trimmed [] features = none
parse_trimmed (c ∷ s) features =
    if is_letter c then some (parse_gates (split b',' (c ∷ s)) features) else some (features, false)

unfoldable pub parse_from_feature_gate_string : Bytes → FeatureManager → Option Parsed
unfolding parse_trimmed trim_space
parse_from_feature_gate_string s features =
    if is_empty s then some (features, true) else parse_trimmed (trim_space s) features

-- `none` is a panic.
abbrev or_panic : Option Parsed → Option FeatureManager
or_panic none = none
or_panic (some (features, true)) = some features
or_panic (some (features, false)) = none

unfoldable pub init_feature_manager : List Feature → Bytes → Option FeatureManager
unfolding add_supported parse_from_feature_gate_string
init_feature_manager supported gates =
    or_panic (parse_from_feature_gate_string gates (add_supported [] supported))
