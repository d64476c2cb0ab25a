-- ===== src/RwWebhook/Samples.antt =====
-- The admission of RisingWaves at examples.
use risingwave_operator.Prelude.{
  ◌≡◌, ◌↔◌, refl, ℤ, pos, ◌+ℤ◌, int32, true, false, none, some, List, [], ◌∷◌, String, codes, equal,
}
use risingwave_operator.Stores.{Cloud, StateStore, MetaStore, meta_store_eq, state_store_eq}
use risingwave_operator.UserWebhook.{child, index, forbidden}
use risingwave_operator.ScaleView.{Lock}
use risingwave_operator.ScaleView.Helper.{read_replicas, get_group_index}
use risingwave_operator.RwWebhook.{GroupSpec, Resources, Object, Patterns, view}
use risingwave_operator.RwWebhook.Backends.{Anonymous}
use risingwave_operator.RwWebhook.Checks.{is_bypassed, validate_create, sum_replicas}
use risingwave_operator.RwWebhook.Locks.{
  admitted, refused, update_answer, admit_update, is_secret_store_change_allowed,
}
use risingwave_operator.RwWebhook.Accepts.{validate_create-crashes_iff}
use risingwave_operator.RwWebhook.Held.{HoldsLocks, IsAt}
use risingwave_operator.RwWebhook.Updates.{
  Keeps, here, then_update, admit_update-holds, History-Keeps,
}
use risingwave_operator.RwWebhook.Moves.{update_answer-moves}

-- Every name and every image is well-formed.
abbrev pub any : Patterns
any = record { is_dns1123_subdomain = λ _. true; matches_reference = λ _. true }

abbrev no_resources : Resources
no_resources = record { cpu = none; memory = none }

abbrev group_of : String → ℤ → GroupSpec
group_of name replicas = record {
  group = record { name = name; replicas = replicas };
  image = "";
  upgrade_strategy = record {
    kind = "RollingUpdate";
    rolling_update = none;
    in_place_update_strategy = none;
  };
  labels = codes "app" ∷ [];
  env = "LOG" ∷ [];
  limits = some (record { cpu = some (pos 2); memory = none });
  requests = no_resources;
}

abbrev in_memory : MetaStore
in_memory = record {
  memory = some true;
  etcd = none;
  sqlite = none;
  mysql = none;
  postgresql = none;
}

abbrev pub no_store : StateStore
no_store = record {
  data_directory = codes "hummock";
  memory = none;
  local_disk = none;
  minio = none;
  s3 = none;
  gcs = none;
  aliyun_oss = none;
  azure_blob = none;
  hdfs = none;
  web_hdfs = none;
  huawei_cloud_obs = none;
}

abbrev memory_store : StateStore
memory_store = record no_store { memory = some true }

-- Azure Blob with neither a secret nor a service account.
abbrev azure_store : StateStore
azure_store = record no_store {
  azure_blob =
      some (record { use_identity = none; secret_name = []; root = codes "/"; fields = [] });
}

abbrev locks_of : ℤ → ℤ → List Lock
locks_of a b =
    record {
      name = "view";
      uid = "1";
      component = "compute";
      generation = pos 1;
      group_locks = record { name = "a"; replicas = a } ∷ record { name = "b"; replicas = b } ∷ [];
    }
    ∷ []

-- Two compute groups, with the locks of one scale view.
abbrev pub cluster : ℤ → ℤ → List Lock → Object
cluster a b locks = record {
  uid = "7";
  annotations = [];
  image = "risingwave";
  frontend_service_labels = [];
  meta_service_labels = [];
  enable_open_kruise = none;
  meta_store = in_memory;
  state_store = memory_store;
  config_map = none;
  meta = group_of "" (pos 1) ∷ [];
  frontend = [];
  compactor = [];
  compute = group_of "a" a ∷ group_of "b" b ∷ [];
  private_key = record { value = some (codes "key"); secret_ref = none };
  scale_views = locks;
}

abbrev before_scaling : Object
before_scaling = cluster (pos 1) (pos 2) (locks_of (pos 3) (pos 4))

abbrev pub after_scaling : Object
after_scaling = cluster (pos 3) (pos 4) (locks_of (pos 3) (pos 4))

abbrev on_azure : Object
on_azure = record after_scaling { state_store = azure_store }

validate_create-crashes_iff_example :
    (validate_create any false on_azure ≡ none)
    ↔ ((c : Cloud) × (azure_store.azure_blob ≡ some c) × Anonymous c × (azure_store.s3 ≡ none))
validate_create-crashes_iff_example = validate_create-crashes_iff any false on_azure

scaled_admitted : admit_update any false before_scaling after_scaling ≡ admitted
unfolding admit_update ◌+ℤ◌ int32 read_replicas
scaled_admitted = refl

scaled_checked : is_bypassed after_scaling ≡ false
unfolding is_bypassed
scaled_checked = refl

admit_update-holds_example :
    (validate_create any false after_scaling ≡ some [])
    × (Keeps before_scaling after_scaling
        × HoldsLocks (view before_scaling) (view after_scaling) (locks_of (pos 3) (pos 4)))
admit_update-holds_example =
    admit_update-holds any false before_scaling after_scaling scaled_checked scaled_admitted

History-Keeps_example : Keeps before_scaling after_scaling
History-Keeps_example = History-Keeps any false (then_update scaled_checked scaled_admitted here)

stores_kept :
    (equal before_scaling.meta_store after_scaling.meta_store ≡ true)
    × (equal before_scaling.state_store after_scaling.state_store ≡ true)
    × (is_secret_store_change_allowed before_scaling after_scaling ≡ true)
unfolding is_secret_store_change_allowed
stores_kept = (refl, refl, refl)

locks_reached :
    IsAt
      (view before_scaling)
      (view after_scaling)
      "compute"
      (record { name = "a"; replicas = pos 3 })
    × IsAt
        (view before_scaling)
        (view after_scaling)
        "compute"
        (record { name = "b"; replicas = pos 4 })
unfolding read_replicas
locks_reached = (refl, refl)

update_answer-moves_example : update_answer before_scaling after_scaling ≡ admitted
update_answer-moves_example =
    update_answer-moves before_scaling after_scaling stores_kept.0 stores_kept.1 stores_kept.2
      ((locks_reached.0, (locks_reached.1, tt)), tt)

-- An update that leaves both groups alone, where "a" has the replicas of its lock and "b" has not.
abbrev half_scaled : Object
half_scaled = cluster (pos 1) (pos 2) (locks_of (pos 1) (pos 3))

unchanged_refused :
    update_answer half_scaled half_scaled
    ≡ refused (
        record {
          kind = forbidden;
          path =
              child "spec"
              ∷ child "components"
              ∷ child "compute"
              ∷ child "nodeGroups"
              ∷ index 1
              ∷ child "replicas"
              ∷ [];
        }
        ∷ [])
unfolding update_answer read_replicas get_group_index
unchanged_refused = refl

-- Three meta groups whose replicas add up to 2 ^ 32: the sum wraps around to 0.
wrapped :
    sum_replicas
      (pos 0)
      (group_of "" (pos 2147483647) ∷ group_of "" (pos 2147483647) ∷ group_of "" (pos 2) ∷ [])
    ≡ pos 0
unfolding sum_replicas int32 ◌+ℤ◌
wrapped = refl
