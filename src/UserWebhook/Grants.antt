-- ===== src/UserWebhook/Grants.antt =====
-- Lemmas on the checks of grants (pkg/webhook/risingwave_user_validating_webhook.go).
use risingwave_operator.Prelude.{
  ℕ, suc, ◌≡◌, refl, ◌↔◌, Bool, true, false, List, [], ◌∷◌, ◌++◌, some, Bytes, codes, bytes_eq,
  is_empty, append-empty, All,
}
use risingwave_operator.Rwclient.{
  GrantSpec, DatabasePrivilege, NestedSchemaPrivilege, NestedPrivilege,
}
use risingwave_operator.UserWebhook.{Segment, index, ErrorKind, FieldError}
use risingwave_operator.UserWebhook.Checks.{
  check, at, each, validate_nested, validate_schema, validate_database, validate_privileges,
}

-- Something is named, and something is granted on it.
abbrev pub IsNamed : Bytes → List Bytes → Type 0
IsNamed name privileges = (is_empty name ≡ false) × (is_empty privileges ≡ false)

abbrev pub IsNested : NestedPrivilege → Type 0
IsNested priv = IsNamed priv.name priv.privileges

abbrev pub IsSchema : NestedSchemaPrivilege → Type 0
IsSchema priv =
    IsNamed priv.name priv.privileges
    × (All IsNested priv.tables
        × (All IsNested priv.views
            × (All IsNested priv.materialized_views
                × (All IsNested priv.sources
                    × (All IsNested priv.sinks
                        × (All IsNested priv.connections
                            × (All IsNested priv.secrets × All IsNested priv.functions)))))))

abbrev pub IsDatabase : DatabasePrivilege → Type 0
IsDatabase priv =
    IsNamed priv.name priv.privileges
    × ((bytes_eq priv.name (codes "*") ≡ false) × All IsSchema priv.schemas)

pub check-passes :
    (b : Bool) (kind : ErrorKind) (path : List Segment) → check b kind path ≡ [] → b ≡ false
check-passes true kind path h = cc
check-passes false kind path h = refl

passes-check :
    (b : Bool) (kind : ErrorKind) (path : List Segment) → b ≡ false → check b kind path ≡ []
passes-check b kind path e = rw e refl

module _ {ℓ κ} {A : Type ℓ} (f : A → List Segment → List FieldError) (P : A → Type κ) where
  pub each-passes :
      ((x : A) (path : List Segment) → f x path ≡ [] → P x)
      → (path : List Segment) (i : ℕ) (xs : List A) → each f path i xs ≡ []
      → All P xs
  unfolding each
  each-passes h path i [] e = tt
  each-passes h path i (x ∷ xs) e =
      let (a, b) = append-empty (f x (path ++ index i ∷ [])) (each f path (suc i) xs) e in
      (h x (path ++ index i ∷ []) a, each-passes h path (suc i) xs b)

  passes-each :
      ((x : A) (path : List Segment) → P x → f x path ≡ [])
      → (path : List Segment) (i : ℕ) (xs : List A) → All P xs
      → each f path i xs ≡ []
  unfolding each
  passes-each h path i [] k = refl
  passes-each h path i (x ∷ xs) (a, k) =
      rw (h x (path ++ index i ∷ []) a, passes-each h path (suc i) xs k) refl

IsNested-passes :
    (priv : NestedPrivilege) (path : List Segment) → validate_nested priv path ≡ [] → IsNested priv
unfolding validate_nested
IsNested-passes priv path e =
    let (a, b) = append-empty (check (is_empty priv.name) _ _) _ e in
    (check-passes _ _ _ a, check-passes _ _ _ b)

IsNested-validates :
    (priv : NestedPrivilege) (path : List Segment) → IsNested priv → validate_nested priv path ≡ []
unfolding validate_nested
IsNested-validates priv path (a, b) = rw (a, b) refl

All-IsNested :
    (path : List Segment) (xs : List NestedPrivilege)
    → each validate_nested path 0 xs ≡ []
    → All IsNested xs
All-IsNested path xs = each-passes validate_nested IsNested IsNested-passes path 0 xs

All-IsNested-validates :
    (path : List Segment) (xs : List NestedPrivilege)
    → All IsNested xs
    → each validate_nested path 0 xs ≡ []
All-IsNested-validates path xs = passes-each validate_nested IsNested IsNested-validates path 0 xs

IsSchema-passes :
    (priv : NestedSchemaPrivilege) (path : List Segment)
    → validate_schema priv path ≡ []
    → IsSchema priv
unfolding validate_schema
IsSchema-passes priv path e =
    let (a, r₁) = append-empty _ _ e in
    let (b, r₂) = append-empty _ _ r₁ in
    let (c₁, r₃) = append-empty _ _ r₂ in
    let (c₂, r₄) = append-empty _ _ r₃ in
    let (c₃, r₅) = append-empty _ _ r₄ in
    let (c₄, r₆) = append-empty _ _ r₅ in
    let (c₅, r₇) = append-empty _ _ r₆ in
    let (c₆, r₈) = append-empty _ _ r₇ in
    let (c₇, c₈) = append-empty _ _ r₈ in
    (
      (check-passes _ _ _ a, check-passes _ _ _ b),
      (
        All-IsNested _ _ c₁,
        (
          All-IsNested _ _ c₂,
          (
            All-IsNested _ _ c₃,
            (
              All-IsNested _ _ c₄,
              (
                All-IsNested _ _ c₅,
                (All-IsNested _ _ c₆, (All-IsNested _ _ c₇, All-IsNested _ _ c₈)),
              ),
            ),
          ),
        ),
      ),
    )

IsSchema-validates :
    (priv : NestedSchemaPrivilege) (path : List Segment)
    → IsSchema priv
    → validate_schema priv path ≡ []
unfolding validate_schema
IsSchema-validates priv path ((a, b), (c₁, (c₂, (c₃, (c₄, (c₅, (c₆, (c₇, c₈)))))))) =
    rw
      (
        a,
        b,
        All-IsNested-validates (at path "tables") priv.tables c₁,
        All-IsNested-validates (at path "views") priv.views c₂,
        All-IsNested-validates (at path "materializedViews") priv.materialized_views c₃,
        All-IsNested-validates (at path "sources") priv.sources c₄,
        All-IsNested-validates (at path "sinks") priv.sinks c₅,
        All-IsNested-validates (at path "connections") priv.connections c₆,
        All-IsNested-validates (at path "secrets") priv.secrets c₇,
      )
      (All-IsNested-validates (at path "functions") priv.functions c₈)

IsDatabase-passes :
    (priv : DatabasePrivilege) (path : List Segment)
    → validate_database priv path ≡ []
    → IsDatabase priv
unfolding validate_database
IsDatabase-passes priv path e =
    let (a, r₁) = append-empty _ _ e in
    let (b, r₂) = append-empty _ _ r₁ in
    let (c, d) = append-empty _ _ r₂ in
    (
      (check-passes _ _ _ a, check-passes _ _ _ d),
      (
        check-passes _ _ _ b,
        each-passes validate_schema IsSchema IsSchema-passes (at path "schemas") 0 priv.schemas c,
      ),
    )

IsDatabase-validates :
    (priv : DatabasePrivilege) (path : List Segment)
    → IsDatabase priv
    → validate_database priv path ≡ []
unfolding validate_database
IsDatabase-validates priv path ((a, b), (c, d)) =
    rw
      (
        a,
        c,
        passes-each validate_schema IsSchema IsSchema-validates (at path "schemas") 0 priv.schemas
            d,
        b,
      )
      refl

-- The webhook finds no error in the grants exactly if every database, schema and object in them has a
-- name and at least one privilege, and no database is named "*".
pub validate_privileges-accepts_iff :
    (grants : GrantSpec) (path : List Segment)
    → (validate_privileges (some grants) path ≡ []) ↔ All IsDatabase grants.databases
unfolding validate_privileges
validate_privileges-accepts_iff grants path = (
  each-passes validate_database IsDatabase IsDatabase-passes _ 0 grants.databases,
  passes-each validate_database IsDatabase IsDatabase-validates _ 0 grants.databases,
)
