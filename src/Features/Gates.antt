-- ===== src/Features/Gates.antt =====
-- Feature gates as written texts (pkg/features/feature_manager.go).
use risingwave_operator.Prelude.{
  ℕ, ◌≡◌, ◌∙◌, refl, ap, Bool, true, false, ◌&&◌, ◌||◌, not, some, List, [], ◌∷◌, ◌++◌, map, Bytes,
  codes, ◌==◌, is_empty, split, join, avoids, all_avoid, avoids-imp, split-join, join-avoids,
  parse_bool, if◌then◌else◌,
}
use risingwave_operator.Features.{
  FeatureManager, set_enabled, is_space, trim_space_left, trim_space_right, trim_space, is_letter,
  parse_sides, parse_feature_string, parse_gates, parse_trimmed, parse_from_feature_gate_string,
}

-- A setting, written as name=true or name=false, and settings with commas between them.
abbrev pub value_of : Bool → Bytes
value_of true = codes "true"
value_of false = codes "false"

abbrev pub format_setting : Bytes × Bool → Bytes
format_setting (name, enabled) = join b'=' (name ∷ value_of enabled ∷ [])

abbrev pub format_gates : List (Bytes × Bool) → Bytes
format_gates settings = join b',' (map format_setting settings)

-- What a name must not contain, and must begin with.
abbrev pub is_special : ℕ → Bool
is_special c = is_space c || (c == b',' || c == b'=')

abbrev pub begins_with_letter : Bytes → Bool
begins_with_letter [] = false
begins_with_letter (c ∷ s) = is_letter c

abbrev pub AreNames : List (Bytes × Bool) → Type 0
AreNames [] = Unit {0}
AreNames ((name, enabled) ∷ settings) =
    (avoids is_special name ≡ true) × (begins_with_letter name ≡ true) × AreNames settings

trim_space_left-avoids : (s : Bytes) → avoids is_space s ≡ true → trim_space_left s ≡ s
unfolding trim_space_left
trim_space_left-avoids [] h = refl
trim_space_left-avoids (c ∷ s) h = let e : is_space c ≡ false = not_true _ _ h in rw e refl
  where
    not_true : (a b : Bool) → (not a && b) ≡ true → a ≡ false
    not_true true b h = cc
    not_true false b h = refl

trim_space_right-avoids : (s : Bytes) → avoids is_space s ≡ true → trim_space_right s ≡ s
unfolding trim_space_right
trim_space_right-avoids [] h = refl
trim_space_right-avoids (c ∷ s) h =
    let (e, k) = parts (is_space c) (avoids is_space s) h in
    rw (trim_space_right-avoids s k, e) (kept (is_empty s))
  where
    parts : (a b : Bool) → (not a && b) ≡ true → (a ≡ false) × (b ≡ true)
    parts true b h = cc
    parts false b h = (refl, h)

    kept : (b : Bool) → (if b && false then [] else c ∷ s) ≡ c ∷ s
    kept true = refl
    kept false = refl

trim_space-avoids : (s : Bytes) → avoids is_space s ≡ true → trim_space s ≡ s
unfolding trim_space
trim_space-avoids s h = rw (trim_space_left-avoids s h) (trim_space_right-avoids s h)

special-space : (c : ℕ) → is_special c ≡ false → is_space c ≡ false
special-space c h = first (is_space c) _ h
  where
    first : (a b : Bool) → (a || b) ≡ false → a ≡ false
    first true b h = cc
    first false b h = refl

special-comma : (c : ℕ) → is_special c ≡ false → (c == b',') ≡ false
special-comma c h = middle (is_space c) (c == b',') _ h
  where
    middle : (a b d : Bool) → (a || (b || d)) ≡ false → b ≡ false
    middle true b d h = cc
    middle false true d h = cc
    middle false false d h = refl

special-equals : (c : ℕ) → is_special c ≡ false → (c == b'=') ≡ false
special-equals c h = last (is_space c) (c == b',') (c == b'=') h
  where
    last : (a b d : Bool) → (a || (b || d)) ≡ false → d ≡ false
    last true b d h = cc
    last false true d h = cc
    last false false d h = h

value-avoids : (b : Bool) → avoids is_special (value_of b) ≡ true
value-avoids true = refl
value-avoids false = refl

not_empty : (s : Bytes) → begins_with_letter s ≡ true → is_empty s ≡ false
not_empty [] h = cc
not_empty (c ∷ s) h = refl

value_parsed : (b : Bool) → parse_bool (value_of b) ≡ some b
unfolding parse_bool
value_parsed true = refl
value_parsed false = refl

both_avoid :
    (p : ℕ → Bool) (x y : Bytes)
    → avoids p x ≡ true
    → avoids p y ≡ true
    → all_avoid p (x ∷ y ∷ []) ≡ true
both_avoid p x y h k = rw (h, k) refl

parse_feature_string-format :
    (name : Bytes) (enabled : Bool)
    → avoids is_special name ≡ true
    → begins_with_letter name ≡ true
    → parse_feature_string (format_setting (name, enabled)) ≡ some (name, enabled)
unfolding parse_feature_string parse_sides
parse_feature_string-format name enabled a l =
    let v = value_of enabled in
    let space = λ (s : Bytes) (h : avoids is_special s ≡ true).
      trim_space-avoids s (avoids-imp is_space is_special special-space s h) in
    let equals = λ (s : Bytes) (h : avoids is_special s ≡ true).
      avoids-imp (λ c. c == b'=') is_special special-equals s h in
    let w = value-avoids enabled in
    ap parse_sides (
      split-join b'=' name (v ∷ [])
        (both_avoid (λ c. c == b'=') name v (equals name a) (equals v w)))
    ∙ (rw (space name a, not_empty name l, space v w, value_parsed enabled) refl)

format-avoids :
    (p : ℕ → Bool) (name : Bytes) (enabled : Bool)
    → ((c : ℕ) → is_special c ≡ false → p c ≡ false)
    → p b'=' ≡ false
    → avoids is_special name ≡ true
    → avoids p (format_setting (name, enabled)) ≡ true
format-avoids p name enabled imp e a = join-avoids p b'=' (name ∷ value_of enabled ∷ []) e (
    both_avoid p name (value_of enabled) (avoids-imp p is_special imp name a)
      (avoids-imp p is_special imp (value_of enabled) (value-avoids enabled)))

all-formats-avoid :
    (p : ℕ → Bool) (settings : List (Bytes × Bool))
    → ((c : ℕ) → is_special c ≡ false → p c ≡ false)
    → p b'=' ≡ false
    → AreNames settings
    → all_avoid p (map format_setting settings) ≡ true
all-formats-avoid p [] imp e h = refl
all-formats-avoid p ((name, enabled) ∷ settings) imp e (a, l, h) =
    rw (format-avoids p name enabled imp e a, all-formats-avoid p settings imp e h) refl

-- The settings one after the other.
abbrev pub apply_settings : List (Bytes × Bool) → FeatureManager → FeatureManager
apply_settings [] features = features
apply_settings ((name, enabled) ∷ settings) features =
    apply_settings settings (set_enabled name enabled features)

parse_gates-formats :
    (settings : List (Bytes × Bool)) (features : FeatureManager)
    → AreNames settings
    → parse_gates (map format_setting settings) features ≡ (apply_settings settings features, true)
unfolding parse_gates
parse_gates-formats [] features h = refl
parse_gates-formats ((name, enabled) ∷ settings) features (a, l, h) =
    rw (parse_feature_string-format name enabled a l)
      (parse_gates-formats settings (set_enabled name enabled features) h)

joined :
    (q c : ℕ) (x : Bytes) (xs : List Bytes) → (rest : Bytes) × (join q ((c ∷ x) ∷ xs) ≡ c ∷ rest)
joined q c x [] = (x, refl)
joined q c x (y ∷ xs) = (x ++ q ∷ join q (y ∷ xs), refl)

parse_text :
    (t : Bytes) (c : ℕ) (rest : Bytes) (features : FeatureManager)
    → t ≡ c ∷ rest
    → is_letter c ≡ true
    → trim_space t ≡ t
    → parse_from_feature_gate_string t features ≡ some (parse_gates (split b',' t) features)
unfolding parse_from_feature_gate_string parse_trimmed
parse_text t c rest features e l h =
    let k : trim_space (c ∷ rest) ≡ c ∷ rest = (rw e at h) in rw e (rw k (rw l refl))

-- A text of names and settings is taken as it is by the trimming, and begins with a letter.
pub parse_gate_string-formats :
    (name : Bytes) (enabled : Bool) (settings : List (Bytes × Bool)) (features : FeatureManager)
    → AreNames ((name, enabled) ∷ settings)
    → parse_from_feature_gate_string (format_gates ((name, enabled) ∷ settings)) features
      ≡ some (apply_settings ((name, enabled) ∷ settings) features, true)
unfolding parse_from_feature_gate_string parse_trimmed
parse_gate_string-formats [] enabled settings features (a, l, h) = cc
parse_gate_string-formats (c ∷ s) enabled settings features (a, l, h) =
    let all = (c ∷ s, enabled) ∷ settings in
    let t = trim_space-avoids (format_gates all) (
      join-avoids is_space b',' (map format_setting all) refl
        (all-formats-avoid is_space all special-space refl (a, l, h))) in
    let q =
      split-join b',' (format_setting (c ∷ s, enabled)) (map format_setting settings)
        (all-formats-avoid (λ d. d == b',') all special-comma refl (a, l, h)) in
    let (rest, e) = joined b',' c (s ++ b'=' ∷ value_of enabled) (map format_setting settings) in
    parse_text (format_gates all) c rest features e l t
    ∙ (rw q (ap some (parse_gates-formats all features (a, l, h))))
