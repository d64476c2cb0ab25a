-- ===== src/RwWebhook/Backends.antt =====
-- The checks of the meta store and the state store (pkg/webhook/risingwave_validating_webhook.go).
use risingwave_operator.Prelude.{
  ap, subst, ◌≢◌, ◌⊎◌, inl, inr, Bool-cases, or_default, is_none, ◌∷◌, ◌≤◌, ◌≡◌, refl, Bool, true,
  false, ◌&&◌, ◌||◌, not, List, [], Option, none, some, Bytes, codes, length, ltb, is_empty,
  append-empty, if◌then◌else◌, arith,
}
use risingwave_operator.Stores.{Fields, MetaStore, StateStore, Cloud, S3}
use risingwave_operator.UserWebhook.{Segment, ErrorKind, FieldError}
use risingwave_operator.UserWebhook.Checks.{check, at, has_prefix}
use risingwave_operator.UserWebhook.Grants.{check-passes}
use risingwave_operator.ScaleView.Helper.{unless_panic}
use risingwave_operator.RwWebhook.Checks.{
  fields_set, bool_set, meta_kinds, state_kinds, validate_count, validate_s3, lacks_credentials,
  validate_azure, ends_with_slash, has_double_slash, validate_data_directory,
  validate_meta_store_and_state_store, store_errors,
}
use risingwave_operator.RwWebhook.Groups.{OnlyOne, validate_count-OnlyOne}

-- A data directory that does not begin or end with a slash, has no empty part and is not too long.
abbrev pub IsPlain : Bytes → Type 0
IsPlain dir =
    (ends_with_slash dir ≡ false)
    × (has_prefix dir (codes "/") ≡ false)
    × (has_double_slash dir ≡ false)
    × (length dir ≤ 800)

-- S3 has a secret, or else it is the one of AWS and a service account is used.
abbrev pub HasSecret : Option S3 → Type 0
HasSecret s3 =
    (s : S3)
    → s3 ≡ some s
    → is_empty s.secret_name ≡ true
    → (is_empty s.endpoint ≡ true) × (bool_set s.use_service_account ≡ true)

-- A part of a specification that has a value in one of its fields.
abbrev pub has_value : Option Fields → Bool
has_value none = false
has_value (some []) = false
has_value (some (f ∷ fields)) = not (is_empty f) || has_value (some fields)

-- The five meta stores, whether each is given: memory by its flag, the others by a value.
abbrev pub meta_stores : MetaStore → List Bool
meta_stores s =
    or_default s.memory false
    ∷ has_value s.etcd
    ∷ has_value s.sqlite
    ∷ has_value s.mysql
    ∷ has_value s.postgresql
    ∷ []

-- The ten state stores, whether each is given: memory by its flag, the others by being there.
abbrev pub state_stores : StateStore → List Bool
state_stores s =
    or_default s.memory false
    ∷ not (is_none s.minio)
    ∷ not (is_none s.s3)
    ∷ not (is_none s.gcs)
    ∷ not (is_none s.aliyun_oss)
    ∷ not (is_none s.azure_blob)
    ∷ not (is_none s.hdfs)
    ∷ not (is_none s.web_hdfs)
    ∷ not (is_none s.local_disk)
    ∷ not (is_none s.huawei_cloud_obs)
    ∷ []

-- A secret, or an identity of the cloud.
abbrev pub HasIdentity : Option Cloud → Type 0
HasIdentity none = Unit {0}
HasIdentity (some c) = (c.use_identity ≡ some true) ⊎ (c.secret_name ≢ [])

-- Neither a secret nor an identity.
abbrev pub Anonymous : Cloud → Type 0
Anonymous c = (c.use_identity ≢ some true) × (c.secret_name ≡ [])

set-true : (b : Option Bool) → bool_set b ≡ true → b ≡ some true
set-true none h = cc
set-true (some true) h = refl
set-true (some false) h = cc

set-false : (b : Option Bool) → bool_set b ≡ false → b ≢ some true
set-false none h e = cc
set-false (some true) h e = cc
set-false (some false) h e = cc

true-set : (b : Option Bool) → b ≢ some true → bool_set b ≡ false
true-set none h = refl
true-set (some true) h = absurd (h refl)
true-set (some false) h = refl

empty-nil : (s : Bytes) → is_empty s ≡ true → s ≡ []
empty-nil [] h = refl
empty-nil (c ∷ s) h = cc

nil-empty : (s : Bytes) → is_empty s ≡ false → s ≢ []
nil-empty [] h e = cc
nil-empty (c ∷ s) h e = cc

has_value-set : (f : Option Fields) → fields_set f ≡ has_value f
has_value-set none = refl
has_value-set (some []) = refl
has_value-set (some (f ∷ fields)) =
    let ih = has_value-set (some fields) in ap (λ b. not (is_empty f) || b) ih

meta_stores-kinds : (s : MetaStore) → meta_kinds s ≡ meta_stores s
meta_stores-kinds s =
    rw
      (
        has_value-set s.etcd,
        has_value-set s.sqlite,
        has_value-set s.mysql,
        has_value-set s.postgresql,
      )
      refl

lacks-HasIdentity : (cloud : Option Cloud) → lacks_credentials cloud ≡ false → HasIdentity cloud
lacks-HasIdentity none h = tt
lacks-HasIdentity (some c) h = elim (Bool-cases (bool_set c.use_identity)) [
  | inl e ↦ inl (set-true c.use_identity e)
  | inr e ↦ inr (nil-empty c.secret_name (ground (arith, e, h)))
]

pub lacks-Anonymous : (c : Cloud) → lacks_credentials (some c) ≡ true → Anonymous c
lacks-Anonymous c h =
    (set-false c.use_identity (ground (arith, h)), empty-nil c.secret_name (ground (arith, h)))

pub Anonymous-lacks : (c : Cloud) → Anonymous c → lacks_credentials (some c) ≡ true
Anonymous-lacks c (a, b) = rw (true-set c.use_identity a, b) refl

-- What accepted stores satisfy.
pub record HasStores (meta_store : MetaStore) (state_store : StateStore) : Type 0 where
  pub one_meta : OnlyOne (meta_stores meta_store)
  pub one_state : OnlyOne (state_stores state_store)
  pub s3 : HasSecret state_store.s3
  pub azure : HasIdentity state_store.azure_blob
  pub gcs : HasIdentity state_store.gcs
  pub directory : IsPlain state_store.data_directory

validate_s3-passes :
    (s3 : Option S3) (path : List Segment) → validate_s3 s3 path ≡ [] → HasSecret s3
unfolding validate_s3
validate_s3-passes none path h s e k = cc
validate_s3-passes (some t) path h s e k =
    let same : t ≡ s = cc in
    secret (is_empty s.endpoint) (is_empty s.secret_name) (bool_set s.use_service_account)
      (rw same at h) k
  where
    secret :
        (a b c : Bool)
        → (if not a
            then check b ErrorKind.required (at (at path "credentials") "secretName")
            else check (not c && b) ErrorKind.invalid (at path "credentials"))
          ≡ []
        → b ≡ true
        → (a ≡ true) × (c ≡ true)
    secret true true true h e = (refl, refl)
    secret true true false h e = cc
    secret false true c h e = cc
    secret a false c h e = cc

validate_azure-passes :
    (azure : Option Cloud) (s3 : Option S3) (path : List Segment) (errors : List FieldError)
    → validate_azure azure s3 path ≡ some errors
    → errors ≡ []
    → lacks_credentials azure ≡ false
unfolding validate_azure
validate_azure-passes azure s3 path errors h e = credentials (lacks_credentials azure) s3 h
  where
    credentials :
        (b : Bool) (s : Option S3)
        → (if b
            then elim s as (λ _. Option (List FieldError)) [
              | none ↦ none
              | some _ ↦ some (check true ErrorKind.invalid (at path "credentials"))
            ]
            else some [])
          ≡ some errors
        → b ≡ false
    credentials true none h = cc
    credentials true (some s) h = cc
    credentials false s h = refl

validate_data_directory-IsPlain :
    (dir : Bytes) (path : List Segment) → validate_data_directory dir path ≡ [] → IsPlain dir
unfolding validate_data_directory
validate_data_directory-IsPlain dir path h =
    let k =
      parts (ends_with_slash dir) (has_prefix dir (codes "/")) (has_double_slash dir)
        (ltb 800 (length dir)) (check-passes _ _ _ h) in
    let n = k.3 in (k.0, k.1, k.2, ground arith)
  where
    parts :
        (a b c d : Bool)
        → (a || (b || (c || d))) ≡ false
        → (a ≡ false) × (b ≡ false) × (c ≡ false) × (d ≡ false)
    parts true b c d h = cc
    parts false true c d h = cc
    parts false false true d h = cc
    parts false false false true h = cc
    parts false false false false h = (refl, refl, refl, refl)

pub unless_panic-empty {ℓ} :
    {A : Type ℓ} (f : A → List FieldError) (m : Option A)
    → unless_panic f m ≡ some []
    → (a : A) × (m ≡ some a) × (f a ≡ [])
unless_panic-empty f none h = cc
unless_panic-empty f (some a) h = (a, refl, cc)

pub stores-HasStores :
    (path : List Segment) (meta_store : MetaStore) (state_store : StateStore)
    → validate_meta_store_and_state_store path meta_store state_store ≡ some []
    → HasStores meta_store state_store
unfolding validate_meta_store_and_state_store store_errors
stores-HasStores path meta_store state_store h =
    let (errors, e, r) = unless_panic-empty _ _ h in
    let (a, r₁) = append-empty (validate_count (meta_kinds meta_store) _) _ r in
    let (b, r₂) = append-empty (validate_s3 state_store.s3 _) _ r₁ in
    let (c, r₃) = append-empty errors _ r₂ in
    let (d, r₄) = append-empty (check (lacks_credentials state_store.gcs) _ _) _ r₃ in
    let (f, g) = append-empty (validate_count (state_kinds state_store) _) _ r₄ in
    record {
      one_meta = subst OnlyOne (meta_stores-kinds meta_store) (validate_count-OnlyOne _ _ a);
      one_state = validate_count-OnlyOne _ _ f;
      s3 = validate_s3-passes state_store.s3 _ b;
      azure =
          lacks-HasIdentity state_store.azure_blob
            (validate_azure-passes state_store.azure_blob state_store.s3 _ errors e c);
      gcs = lacks-HasIdentity state_store.gcs (check-passes _ _ _ d);
      directory = validate_data_directory-IsPlain state_store.data_directory _ g;
    }
