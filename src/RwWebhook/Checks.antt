-- ===== src/RwWebhook/Checks.antt =====
-- pkg/webhook/risingwave_validating_webhook.go: the checks of an object by itself, in the order of the
-- source. A list of errors is empty exactly where the source returns none. Where the source reads
-- through a nil pointer, the outer `none` is the panic.
use risingwave_operator.Prelude.{
  parse_bool, ℕ, ◌+◌, ◌-◌, ◌*◌, ◌^◌, ℤ, pos, ◌+ℤ◌, ltb_ℤ, int32, Bool, true, false, ◌&&◌, ◌||◌, not,
  List, [], ◌∷◌, ◌++◌, Option, none, some, or_default, Bytes, codes, String, str_eq, length, keep,
  ltb, leb, ◌==◌, is_empty, is_none, exists_test, if◌then◌else◌, bool_eq,
}
use risingwave_operator.Stores.{Fields, MetaStore, S3, Cloud, StateStore}
use risingwave_operator.UserWebhook.{Segment, child, required, invalid, forbidden, FieldError}
use risingwave_operator.UserWebhook.Checks.{check, at, each, has_prefix}
use risingwave_operator.ScaleView.Helper.{unless_panic}
use risingwave_operator.RwWebhook.{
  IntOrString, int, text, RollingUpdate, UpgradeStrategy, Resources, GroupSpec, ConfigMapSource,
  Object, Patterns,
}

-- systemEnv
unfoldable pub system_env : String → Bool
system_env name =
    str_eq name "POD_IP"
    || (str_eq name "POD_NAME"
        || (str_eq name "POD_NAMESPACE"
            || (str_eq name "RUST_BACKTRACE"
                || (str_eq name "RW_WORKER_THREADS" || str_eq name "JAVA_OPTS"))))

abbrev find_value : String → List (String × Bytes) → Option Bytes
find_value k [] = none
find_value k ((j, v) ∷ m) = if str_eq j k then some v else find_value k m

unfoldable pub is_bypassed : Object → Bool
unfolding parse_bool
is_bypassed obj =
    elim (find_value "risingwave.risingwavelabs.com/bypass-validating-webhook" obj.annotations) [
      | none ↦ false
      | some val ↦ or_default (parse_bool val) false
    ]

-- strconv.Atoi succeeds: an optional sign, digits, and a value in the range of int64.
abbrev is_digit : ℕ → Bool
is_digit c = leb b'0' c && leb c b'9'

abbrev digits_value : ℕ → Bytes → ℕ
digits_value acc [] = acc
digits_value acc (c ∷ s) = digits_value (acc * 10 + (c - b'0')) s

abbrev is_number : ℕ → Bytes → Bool
is_number limit s =
    not (is_empty s)
    && (not (exists_test (λ c. not (is_digit c)) s) && leb (digits_value 0 s) limit)

abbrev pub atoi_succeeds : Bytes → Bool
atoi_succeeds [] = false
atoi_succeeds (c ∷ s) =
    if c == b'-'
    then is_number (2 ^ 63) s
    else if c == b'+'
    then is_number (2 ^ 63 - 1) s
    else is_number (2 ^ 63 - 1) (c ∷ s)

-- nodeGroupPartitionExistAndIsString, and the conversion of the text without its percent signs.
abbrev partition_fails : IntOrString → Bool
partition_fails (int n) = false
partition_fails (text s) = not (atoi_succeeds (keep (λ c. not (c == b'%')) s))

abbrev pub bad_partition : Option RollingUpdate → Bool
bad_partition none = false
bad_partition (some update) = elim update.partition [
  | none ↦ false
  | some partition ↦ partition_fails partition
]

-- A limit that is set and lies below the request, which is zero where it is missing.
abbrev pub below_request : Option ℤ → Option ℤ → Bool
below_request none request = false
below_request (some limit) request = ltb_ℤ limit (or_default request (pos 0))

unfoldable pub validate_resources : Option Resources → Resources → List Segment → List FieldError
validate_resources none requests path = []
validate_resources (some limits) requests path =
    check (below_request limits.cpu requests.cpu) required (at path "cpu")
    ++ check (below_request limits.memory requests.memory) required (at path "memory")

abbrev pub is_in_place : String → Bool
is_in_place kind = str_eq kind "InPlaceOnly" || str_eq kind "InPlaceIfPossible"

unfoldable pub validate_strategy : Bool → UpgradeStrategy → List Segment → List FieldError
validate_strategy open_kruise strategy path =
    check (str_eq strategy.kind "Recreate" && not (is_none strategy.rolling_update)) forbidden
      (at path "rollingUpdate")
    ++ ((if open_kruise
          then check
              (not (is_in_place strategy.kind) && not (is_none strategy.in_place_update_strategy))
              forbidden (at path "inPlaceUpdateStrategy")
          else check (is_in_place strategy.kind) invalid (at path "type")
            ++ check (not (is_none strategy.in_place_update_strategy)) forbidden
                (at path "inPlaceUpdateStrategy"))
        ++ check (bad_partition strategy.rolling_update) invalid
            (at (at path "rollingUpdate") "partition"))

-- Labels whose prefix is the system's.
unfoldable pub validate_labels : List Segment → List Bytes → List FieldError
validate_labels path [] = []
validate_labels path (label ∷ labels) =
    check (has_prefix label (codes "risingwave/")) invalid path ++ validate_labels path labels

unfoldable pub validate_env : String → List Segment → List FieldError
unfolding system_env
validate_env name path = check (system_env name) invalid (at path "name")

unfoldable pub validate_node_group : Patterns → Bool → GroupSpec → List Segment → List FieldError
unfolding validate_strategy validate_labels validate_env validate_resources
validate_node_group patterns open_kruise g path =
    let template = at path "template" in
    check (not (str_eq g.group.name "") && not (patterns.is_dns1123_subdomain g.group.name)) invalid
      (at path "name")
    ++ (check (not (str_eq g.image "") && not (patterns.matches_reference g.image)) invalid
          (at (at template "spec") "image")
        ++ (validate_strategy open_kruise g.upgrade_strategy (at path "upgradeStrategy")
            ++ (validate_labels (at (at template "metadata") "labels") g.labels
                ++ (each validate_env (at (at template "spec") "env") 0 g.env
                    ++ validate_resources g.limits g.requests
                        (at (at template "spec") "resources")))))

-- ptrValueNotZero, at the types of the stores.
abbrev pub bool_set : Option Bool → Bool
bool_set b = or_default b false

abbrev pub fields_set : Option Fields → Bool
fields_set none = false
fields_set (some fields) = exists_test (λ f. not (is_empty f)) fields

-- lo.CountBy with the identity.
abbrev pub count_true : List Bool → ℕ
count_true [] = 0
count_true (b ∷ bs) = (if b then 1 else 0) + count_true bs

abbrev pub meta_kinds : MetaStore → List Bool
meta_kinds store =
    bool_set store.memory
    ∷ fields_set store.etcd
    ∷ fields_set store.sqlite
    ∷ fields_set store.mysql
    ∷ fields_set store.postgresql
    ∷ []

abbrev pub state_kinds : StateStore → List Bool
state_kinds store =
    bool_set store.memory
    ∷ not (is_none store.minio)
    ∷ not (is_none store.s3)
    ∷ not (is_none store.gcs)
    ∷ not (is_none store.aliyun_oss)
    ∷ not (is_none store.azure_blob)
    ∷ not (is_none store.hdfs)
    ∷ not (is_none store.web_hdfs)
    ∷ not (is_none store.local_disk)
    ∷ not (is_none store.huawei_cloud_obs)
    ∷ []

-- No kind of store is set, or several are.
unfoldable pub validate_count : List Bool → List Segment → List FieldError
validate_count kinds path =
    check (count_true kinds == 0) invalid path ++ check (ltb 1 (count_true kinds)) invalid path

unfoldable pub validate_s3 : Option S3 → List Segment → List FieldError
validate_s3 none path = []
validate_s3 (some s3) path =
    if not (is_empty s3.endpoint)
    then check (is_empty s3.secret_name) required (at (at path "credentials") "secretName")
    else check (not (bool_set s3.use_service_account) && is_empty s3.secret_name) invalid
        (at path "credentials")

abbrev pub lacks_credentials : Option Cloud → Bool
lacks_credentials none = false
lacks_credentials (some cloud) = not (bool_set cloud.use_identity) && is_empty cloud.secret_name

-- The error of Azure Blob reads the secret's name of S3.
unfoldable pub validate_azure : Option Cloud → Option S3 → List Segment → Option (List FieldError)
validate_azure azure s3 path =
    if lacks_credentials azure
    then elim s3 [ none ↦ none | some _ ↦ some (check true invalid (at path "credentials")) ]
    else some []

abbrev pub ends_with_slash : Bytes → Bool
ends_with_slash [] = false
ends_with_slash (c ∷ []) = c == b'/'
ends_with_slash (c ∷ (d ∷ s)) = ends_with_slash (d ∷ s)

-- strings.Contains(s, "//")
abbrev pub has_double_slash : Bytes → Bool
has_double_slash [] = false
has_double_slash (c ∷ s) = has_prefix (c ∷ s) (codes "//") || has_double_slash s

unfoldable pub validate_data_directory : Bytes → List Segment → List FieldError
unfolding has_prefix
validate_data_directory dir path =
    check
      (ends_with_slash dir
        || (has_prefix dir (codes "/") || (has_double_slash dir || ltb 800 (length dir))))
      invalid (at path "dataDirectory")

-- The errors of the stores, given those of Azure Blob.
unfoldable pub store_errors :
    List Segment → MetaStore → StateStore → List FieldError → List FieldError
unfolding validate_count validate_s3 validate_data_directory
store_errors path meta_store state_store azure_errors =
    let state = at path "stateStore" in
    validate_count (meta_kinds meta_store) (at path "metaStore")
    ++ (validate_s3 state_store.s3 (at state "s3")
        ++ (azure_errors
            ++ (check (lacks_credentials state_store.gcs) invalid
                  (at (at state "gcs") "credentials")
                ++ (validate_count (state_kinds state_store) state
                    ++ validate_data_directory state_store.data_directory state))))

unfoldable pub validate_meta_store_and_state_store :
    List Segment → MetaStore → StateStore → Option (List FieldError)
unfolding store_errors validate_azure
validate_meta_store_and_state_store path meta_store state_store =
    unless_panic (store_errors path meta_store state_store)
      (validate_azure state_store.azure_blob state_store.s3 (at (at path "stateStore") "azureBlob"))

unfoldable pub validate_configuration : List Segment → Option ConfigMapSource → List FieldError
validate_configuration path none = []
validate_configuration path (some config_map) =
    if str_eq config_map.name ""
    then check true required (at (at path "configmap") "name")
    else check (str_eq config_map.key "") required (at (at path "configmap") "key")

unfoldable pub validate_components : Patterns → List Segment → Object → Bool → List FieldError
unfolding validate_node_group each
validate_components patterns path obj open_kruise =
    let validate = validate_node_group patterns open_kruise in
    each validate (at (at path "meta") "nodeGroups") 0 obj.meta
    ++ (each validate (at (at path "frontend") "nodeGroups") 0 obj.frontend
        ++ (each validate (at (at path "compactor") "nodeGroups") 0 obj.compactor
            ++ each validate (at (at path "compute") "nodeGroups") 0 obj.compute))

-- The sum of the replicas in int32, from a start.
unfoldable pub sum_replicas : ℤ → List GroupSpec → ℤ
sum_replicas total [] = total
sum_replicas total (g ∷ groups) = sum_replicas (int32 (total +ℤ g.group.replicas)) groups

abbrev pub spec_path : List Segment
spec_path = child "spec" ∷ []

unfoldable pub validate_meta_replicas : Object → List FieldError
unfolding sum_replicas
validate_meta_replicas obj =
    check (bool_set obj.meta_store.memory && ltb_ℤ (pos 1) (sum_replicas (pos 0) obj.meta))
      forbidden (at (at spec_path "components") "meta")

unfoldable pub validate_secret_store : Object → List FieldError
validate_secret_store obj =
    check (not (is_none obj.private_key.value) && not (is_none obj.private_key.secret_ref))
      forbidden (at (at spec_path "secretStore") "privateKey")

-- The errors of an object, given those of its stores.
unfoldable pub object_errors : Patterns → Bool → Object → List FieldError → List FieldError
unfolding validate_labels validate_configuration validate_components validate_meta_replicas
    validate_secret_store
object_errors patterns open_kruise_available obj store_errors =
    let enabled = bool_set obj.enable_open_kruise in
    check (not (patterns.matches_reference obj.image)) invalid (at spec_path "image")
    ++ (validate_labels (at (at spec_path "additionalFrontendServiceMetadata") "labels")
          obj.frontend_service_labels
        ++ (validate_labels (at (at spec_path "additionalMetaServiceMetadata") "labels")
              obj.meta_service_labels
            ++ (check (not open_kruise_available && enabled) forbidden
                  (at spec_path "enableOpenKruise")
                ++ (store_errors
                    ++ (validate_configuration (at spec_path "configuration") obj.config_map
                        ++ (validate_components patterns (at spec_path "components") obj
                              (open_kruise_available && enabled)
                            ++ (validate_meta_replicas obj ++ validate_secret_store obj)))))))

-- validateCreate of a webhook with and without OpenKruise.
unfoldable pub validate_create : Patterns → Bool → Object → Option (List FieldError)
unfolding object_errors validate_meta_store_and_state_store
validate_create patterns open_kruise_available obj =
    unless_panic (object_errors patterns open_kruise_available obj)
      (validate_meta_store_and_state_store spec_path obj.meta_store obj.state_store)
