-- ===== src/RwWebhook/Groups.antt =====
-- The checks of a node group, and the counts of stores (pkg/webhook/risingwave_validating_webhook.go).
use risingwave_operator.Prelude.{
  ◌≢◌, ◌⊎◌, ◌↔◌, inl, inr, str_eq_iff, Bool-cases, ℤ, pos, ltb_ℤ, ◌≡◌, ap, refl, Bool, true, false,
  ◌&&◌, not, List, [], ◌∷◌, ◌++◌, Option, none, some, Bytes, codes, String, str_eq, ◌==◌, is_none,
  append-empty, All, arith,
}
use risingwave_operator.UserWebhook.{Segment}
use risingwave_operator.UserWebhook.Checks.{check, each, has_prefix}
use risingwave_operator.UserWebhook.Grants.{check-passes, each-passes}
use risingwave_operator.RwWebhook.{UpgradeStrategy, Resources, GroupSpec, Patterns}
use risingwave_operator.RwWebhook.Checks.{
  system_env, bad_partition, below_request, validate_resources, is_in_place, validate_strategy,
  validate_labels, validate_env, validate_node_group, count_true, validate_count,
}

-- Exactly one of the tests holds.
abbrev pub OnlyOne : List Bool → Type 0
OnlyOne bs =
    (before : List Bool) × (after : List Bool) × (bs ≡ before ++ true ∷ after)
    × All (λ b. b ≡ false) before
    × All (λ b. b ≡ false) after

none_true : (bs : List Bool) → count_true bs ≡ 0 → All (λ b. b ≡ false) bs
none_true [] h = tt
none_true (true ∷ bs) h = absurd (omega arith)
none_true (false ∷ bs) h = (refl, none_true bs (omega arith))

count_true-OnlyOne : (bs : List Bool) → count_true bs ≡ 1 → OnlyOne bs
count_true-OnlyOne [] h = absurd (omega arith)
count_true-OnlyOne (true ∷ bs) h = ([], bs, refl, tt, none_true bs (omega arith))
count_true-OnlyOne (false ∷ bs) h =
    let (before, after, e, k, l) = count_true-OnlyOne bs (omega arith) in
    (false ∷ before, after, ap (λ t. false ∷ t) e, (refl, k), l)

pub validate_count-OnlyOne :
    (kinds : List Bool) (path : List Segment) → validate_count kinds path ≡ [] → OnlyOne kinds
unfolding validate_count
validate_count-OnlyOne kinds path h =
    let (a, b) = append-empty (check (count_true kinds == 0) _ _) _ h in
    let p = check-passes _ _ _ a in
    let q = check-passes _ _ _ b in count_true-OnlyOne kinds (ground arith)

-- A limit that is set is not below the request, or below zero where there is no request.
abbrev pub CoversRequest : Option ℤ → Option ℤ → Type 0
CoversRequest none request = Unit {0}
CoversRequest (some limit) none = ltb_ℤ limit (pos 0) ≡ false
CoversRequest (some limit) (some request) = ltb_ℤ limit request ≡ false

covers :
    (limit request : Option ℤ) → below_request limit request ≡ false → CoversRequest limit request
covers none request h = tt
covers (some limit) none h = h
covers (some limit) (some request) h = h

-- The two kinds of updates in place.
abbrev pub InPlace : String → Type 0
InPlace kind = (kind ≡ "InPlaceOnly") ⊎ (kind ≡ "InPlaceIfPossible")

in_place_iff : (kind : String) → (is_in_place kind ≡ true) ↔ InPlace kind
in_place_iff kind =
    let (a, b) = str_eq_iff kind "InPlaceOnly" in
    let (c, d) = str_eq_iff kind "InPlaceIfPossible" in
    (
      (λ h. elim (Bool-cases (str_eq kind "InPlaceOnly")) [
        | inl e ↦ inl (a e)
        | inr e ↦ inr (c (ground (arith, e, h)))
      ]),
      λ h. elim h [
        | inl e ↦ let q = b e in ground (arith, q)
        | inr e ↦ let q = d e in ground (arith, q)
      ],
    )

-- The variables that the operator sets.
abbrev pub system_names : List String
system_names =
    "POD_IP" ∷ "POD_NAME" ∷ "POD_NAMESPACE" ∷ "RUST_BACKTRACE" ∷ "RW_WORKER_THREADS" ∷ "JAVA_OPTS"
    ∷ []

abbrev pub IsOwn : String → Type 0
IsOwn name = All (λ n. name ≢ n) system_names

differs : (a b : String) → str_eq a b ≡ false → a ≢ b
differs a b h e = let q = (str_eq_iff a b).1 e in absurd (cc (h, q))

system_env-IsOwn : (name : String) → system_env name ≡ false → IsOwn name
unfolding system_env
system_env-IsOwn name h = (
  differs name "POD_IP" (ground (arith, h)),
  (
    differs name "POD_NAME" (ground (arith, h)),
    (
      differs name "POD_NAMESPACE" (ground (arith, h)),
      (
        differs name "RUST_BACKTRACE" (ground (arith, h)),
        (
          differs name "RW_WORKER_THREADS" (ground (arith, h)),
          (differs name "JAVA_OPTS" (ground (arith, h)), tt),
        ),
      ),
    ),
  ),
)

-- What an accepted node group satisfies.
pub record IsGroup (patterns : Patterns) (open_kruise : Bool) (g : GroupSpec) : Type 0 where
  pub named : str_eq g.group.name "" ≡ false → patterns.is_dns1123_subdomain g.group.name ≡ true
  pub image : str_eq g.image "" ≡ false → patterns.matches_reference g.image ≡ true
  -- A group that is recreated has no settings of a rolling update.
  pub recreated :
      str_eq g.upgrade_strategy.kind "Recreate" ≡ true
      → is_none g.upgrade_strategy.rolling_update ≡ true
  -- Updates in place, and their settings, need OpenKruise.
  pub in_place : InPlace g.upgrade_strategy.kind → open_kruise ≡ true
  pub settings :
      is_none g.upgrade_strategy.in_place_update_strategy ≡ false
      → (open_kruise ≡ true) × InPlace g.upgrade_strategy.kind
  pub partition : bad_partition g.upgrade_strategy.rolling_update ≡ false
  pub labels : All (λ label. has_prefix label (codes "risingwave/") ≡ false) g.labels
  pub env : All IsOwn g.env
  pub resources :
      (limits : Resources)
      → g.limits ≡ some limits
      → CoversRequest limits.cpu g.requests.cpu × CoversRequest limits.memory g.requests.memory

pub validate_labels-passes :
    (path : List Segment) (labels : List Bytes)
    → validate_labels path labels ≡ []
    → All (λ label. has_prefix label (codes "risingwave/") ≡ false) labels
unfolding validate_labels
validate_labels-passes path [] h = tt
validate_labels-passes path (label ∷ labels) h =
    let (a, b) = append-empty (check (has_prefix label (codes "risingwave/")) _ _) _ h in
    (check-passes _ _ _ a, validate_labels-passes path labels b)

validate_env-passes :
    (name : String) (path : List Segment) → validate_env name path ≡ [] → IsOwn name
unfolding validate_env
validate_env-passes name path h = system_env-IsOwn name (check-passes _ _ _ h)

validate_resources-passes :
    (l : Option Resources) (requests : Resources) (path : List Segment)
    → validate_resources l requests path ≡ []
    → (limits : Resources) → l ≡ some limits
    → CoversRequest limits.cpu requests.cpu × CoversRequest limits.memory requests.memory
unfolding validate_resources
validate_resources-passes none requests path h limits e = cc
validate_resources-passes (some l) requests path h limits e =
    let (a, b) = append-empty (check (below_request l.cpu requests.cpu) _ _) _ h in
    let same : l ≡ limits = cc in
    rw (← same) (covers _ _ (check-passes _ _ _ a), covers _ _ (check-passes _ _ _ b))

not_and : (a b : Bool) → (not a && not b) ≡ false → a ≡ false → b ≡ true
not_and true b h e = cc
not_and false true h e = refl
not_and false false h e = cc

and_not : (a b : Bool) → (a && not b) ≡ false → a ≡ true → b ≡ true
and_not true true h e = refl
and_not true false h e = cc
and_not false b h e = cc

abbrev Strategy : Bool → UpgradeStrategy → Type 0
Strategy open_kruise s =
    (str_eq s.kind "Recreate" ≡ true → is_none s.rolling_update ≡ true)
    × (is_in_place s.kind ≡ true → open_kruise ≡ true)
    × (is_none s.in_place_update_strategy ≡ false
        → (open_kruise ≡ true) × (is_in_place s.kind ≡ true))
    × (bad_partition s.rolling_update ≡ false)

validate_strategy-passes :
    (open_kruise : Bool) (s : UpgradeStrategy) (path : List Segment)
    → validate_strategy open_kruise s path ≡ []
    → Strategy open_kruise s
unfolding validate_strategy
validate_strategy-passes true s path h =
    let (a, r) = append-empty (check (str_eq s.kind "Recreate" && _) _ _) _ h in
    let (b, c) = append-empty (check _ _ _) _ r in
    let k = check-passes _ _ _ b in
    (
      and_not _ _ (check-passes _ _ _ a),
      λ _. refl,
      λ e. (refl, swapped (is_in_place s.kind) (is_none s.in_place_update_strategy) k e),
      check-passes _ _ _ c,
    )
  where
    swapped : (a b : Bool) → (not a && not b) ≡ false → b ≡ false → a ≡ true
    swapped true b h e = refl
    swapped false true h e = cc
    swapped false false h e = cc
validate_strategy-passes false s path h =
    let (a, r) = append-empty (check (str_eq s.kind "Recreate" && _) _ _) _ h in
    let (p, c) = append-empty (check _ _ _ ++ check _ _ _) _ r in
    let (b, d) = append-empty (check _ _ _) (check _ _ _) p in
    let k = check-passes (is_in_place s.kind) _ _ b in
    let l = check-passes (not (is_none s.in_place_update_strategy)) _ _ d in
    (and_not _ _ (check-passes _ _ _ a), λ e. cc, λ e. absurd (ground arith), check-passes _ _ _ c)

pub validate_node_group-passes :
    (patterns : Patterns) (open_kruise : Bool) (g : GroupSpec) (path : List Segment)
    → validate_node_group patterns open_kruise g path ≡ []
    → IsGroup patterns open_kruise g
unfolding validate_node_group
validate_node_group-passes patterns open_kruise g path h =
    let (a, r₁) = append-empty (check (not (str_eq g.group.name "") && _) _ _) _ h in
    let (b, r₂) = append-empty (check (not (str_eq g.image "") && _) _ _) _ r₁ in
    let (c, r₃) = append-empty (validate_strategy open_kruise g.upgrade_strategy _) _ r₂ in
    let (d, r₄) = append-empty (validate_labels _ g.labels) _ r₃ in
    let (e, f) = append-empty (each validate_env _ 0 g.env) _ r₄ in
    let (recreated, in_place, settings, partition) = validate_strategy-passes open_kruise _ _ c in
    record {
      named = not_and _ _ (check-passes _ _ _ a);
      image = not_and _ _ (check-passes _ _ _ b);
      recreated = recreated;
      in_place = λ h. in_place ((in_place_iff g.upgrade_strategy.kind).1 h);
      settings = λ h. let (s, t) = settings h in (s, (in_place_iff g.upgrade_strategy.kind).0 t);
      partition = partition;
      labels = validate_labels-passes _ g.labels d;
      env = each-passes validate_env IsOwn validate_env-passes _ 0 g.env e;
      resources = validate_resources-passes g.limits g.requests _ f;
    }
