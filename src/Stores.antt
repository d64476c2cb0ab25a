-- ===== src/Stores.antt =====
-- The stores of a RisingWave: apis/risingwave/v1alpha1/risingawave_meta_store_backend.go,
-- risingwave_state_store_backend.go and risingwave_secret_store.go, with the comparison of
-- equality.Semantic.DeepEqual on them. Fields that the modelled code does not look into are kept
-- together in `fields`, a text each, which is empty for a zero value.
use risingwave_operator.Prelude.{
  and_parts, ◌≡◌, Bool, true, ◌&&◌, Option, List, Bytes, Eq, equal, equal_sound, arith, bool_eq,
  nat_equality, option_eq, list_eq,
}

abbrev pub Fields : Type 0
Fields = List Bytes

-- RisingWaveMetaStoreBackend
pub record MetaStore : Type 0 where
  pub memory : Option Bool
  pub etcd : Option Fields
  pub sqlite : Option Fields
  pub mysql : Option Fields
  pub postgresql : Option Fields

-- RisingWaveStateStoreBackendS3
pub record S3 : Type 0 where
  pub use_service_account : Option Bool
  pub secret_name : Bytes
  pub endpoint : Bytes
  pub fields : Fields

-- RisingWaveStateStoreBackendGCS: `use_identity` is useWorkloadIdentity.
-- RisingWaveStateStoreBackendAzureBlob: `use_identity` is useServiceAccount.
pub record Cloud : Type 0 where
  pub use_identity : Option Bool
  pub secret_name : Bytes
  pub root : Bytes
  pub fields : Fields

-- RisingWaveStateStoreBackendAliyunOSS and RisingWaveStateStoreBackendHDFS
pub record Rooted : Type 0 where
  pub root : Bytes
  pub fields : Fields

-- RisingWaveStateStoreBackend
pub record StateStore : Type 0 where
  pub data_directory : Bytes
  pub memory : Option Bool
  pub local_disk : Option Fields
  pub minio : Option Fields
  pub s3 : Option S3
  pub gcs : Option Cloud
  pub aliyun_oss : Option Rooted
  pub azure_blob : Option Cloud
  pub hdfs : Option Rooted
  pub web_hdfs : Option Rooted
  pub huawei_cloud_obs : Option Fields

-- RisingWaveSecretStorePrivateKey
pub record PrivateKey : Type 0 where
  pub value : Option Bytes
  pub secret_ref : Option Fields

abbrev pub meta_store_equal : MetaStore → MetaStore → Bool
meta_store_equal a b =
    equal a.memory b.memory
    && (equal a.etcd b.etcd
        && (equal a.sqlite b.sqlite && (equal a.mysql b.mysql && equal a.postgresql b.postgresql)))

pub meta_store_sound : (a b : MetaStore) → meta_store_equal a b ≡ true → a ≡ b
meta_store_sound a b h =
    let p = equal_sound a.memory b.memory (ground (arith, h)) in
    let q = equal_sound a.etcd b.etcd (ground (arith, h)) in
    let r = equal_sound a.sqlite b.sqlite (ground (arith, h)) in
    let s = equal_sound a.mysql b.mysql (ground (arith, h)) in
    let t = equal_sound a.postgresql b.postgresql (ground (arith, h)) in
    λ i. record { memory = p i; etcd = q i; sqlite = r i; mysql = s i; postgresql = t i }

instance abbrev pub meta_store_eq : Eq MetaStore
meta_store_eq = record { beq = meta_store_equal; sound = meta_store_sound }

abbrev pub s3_equal : S3 → S3 → Bool
s3_equal a b =
    equal a.use_service_account b.use_service_account
    && (equal a.secret_name b.secret_name
        && (equal a.endpoint b.endpoint && equal a.fields b.fields))

pub s3_sound : (a b : S3) → s3_equal a b ≡ true → a ≡ b
s3_sound a b h =
    let p = equal_sound a.use_service_account b.use_service_account (ground (arith, h)) in
    let q = equal_sound a.secret_name b.secret_name (ground (arith, h)) in
    let r = equal_sound a.endpoint b.endpoint (ground (arith, h)) in
    let s = equal_sound a.fields b.fields (ground (arith, h)) in
    λ i. record { use_service_account = p i; secret_name = q i; endpoint = r i; fields = s i }

instance abbrev pub s3_eq : Eq S3
s3_eq = record { beq = s3_equal; sound = s3_sound }

abbrev pub cloud_equal : Cloud → Cloud → Bool
cloud_equal a b =
    equal a.use_identity b.use_identity
    && (equal a.secret_name b.secret_name && (equal a.root b.root && equal a.fields b.fields))

pub cloud_sound : (a b : Cloud) → cloud_equal a b ≡ true → a ≡ b
cloud_sound a b h =
    let p = equal_sound a.use_identity b.use_identity (ground (arith, h)) in
    let q = equal_sound a.secret_name b.secret_name (ground (arith, h)) in
    let r = equal_sound a.root b.root (ground (arith, h)) in
    let s = equal_sound a.fields b.fields (ground (arith, h)) in
    λ i. record { use_identity = p i; secret_name = q i; root = r i; fields = s i }

instance abbrev pub cloud_eq : Eq Cloud
cloud_eq = record { beq = cloud_equal; sound = cloud_sound }

abbrev pub rooted_equal : Rooted → Rooted → Bool
rooted_equal a b = equal a.root b.root && equal a.fields b.fields

pub rooted_sound : (a b : Rooted) → rooted_equal a b ≡ true → a ≡ b
rooted_sound a b h =
    let p = equal_sound a.root b.root (ground (arith, h)) in
    let q = equal_sound a.fields b.fields (ground (arith, h)) in
    λ i. record { root = p i; fields = q i }

instance abbrev pub rooted_eq : Eq Rooted
rooted_eq = record { beq = rooted_equal; sound = rooted_sound }

abbrev pub state_store_equal : StateStore → StateStore → Bool
state_store_equal a b =
    equal a.data_directory b.data_directory
    && (equal a.memory b.memory
        && (equal a.local_disk b.local_disk
            && (equal a.minio b.minio
                && (equal a.s3 b.s3
                    && (equal a.gcs b.gcs
                        && (equal a.aliyun_oss b.aliyun_oss
                            && (equal a.azure_blob b.azure_blob
                                && (equal a.hdfs b.hdfs
                                    && (equal a.web_hdfs b.web_hdfs
                                        && equal a.huawei_cloud_obs b.huawei_cloud_obs)))))))))

pub state_store_sound : (a b : StateStore) → state_store_equal a b ≡ true → a ≡ b
state_store_sound a b h =
    let (e_data_directory, h0) = and_parts (equal a.data_directory b.data_directory) _ h in
    let (e_memory, h1) = and_parts (equal a.memory b.memory) _ h0 in
    let (e_local_disk, h2) = and_parts (equal a.local_disk b.local_disk) _ h1 in
    let (e_minio, h3) = and_parts (equal a.minio b.minio) _ h2 in
    let (e_s3, h4) = and_parts (equal a.s3 b.s3) _ h3 in
    let (e_gcs, h5) = and_parts (equal a.gcs b.gcs) _ h4 in
    let (e_aliyun_oss, h6) = and_parts (equal a.aliyun_oss b.aliyun_oss) _ h5 in
    let (e_azure_blob, h7) = and_parts (equal a.azure_blob b.azure_blob) _ h6 in
    let (e_hdfs, h8) = and_parts (equal a.hdfs b.hdfs) _ h7 in
    let (e_web_hdfs, h9) = and_parts (equal a.web_hdfs b.web_hdfs) _ h8 in
    let p_data_directory = equal_sound a.data_directory b.data_directory e_data_directory in
    let p_memory = equal_sound a.memory b.memory e_memory in
    let p_local_disk = equal_sound a.local_disk b.local_disk e_local_disk in
    let p_minio = equal_sound a.minio b.minio e_minio in
    let p_s3 = equal_sound a.s3 b.s3 e_s3 in
    let p_gcs = equal_sound a.gcs b.gcs e_gcs in
    let p_aliyun_oss = equal_sound a.aliyun_oss b.aliyun_oss e_aliyun_oss in
    let p_azure_blob = equal_sound a.azure_blob b.azure_blob e_azure_blob in
    let p_hdfs = equal_sound a.hdfs b.hdfs e_hdfs in
    let p_web_hdfs = equal_sound a.web_hdfs b.web_hdfs e_web_hdfs in
    let p_huawei_cloud_obs = equal_sound a.huawei_cloud_obs b.huawei_cloud_obs h9 in
    λ i. record {
      data_directory = p_data_directory i;
      memory = p_memory i;
      local_disk = p_local_disk i;
      minio = p_minio i;
      s3 = p_s3 i;
      gcs = p_gcs i;
      aliyun_oss = p_aliyun_oss i;
      azure_blob = p_azure_blob i;
      hdfs = p_hdfs i;
      web_hdfs = p_web_hdfs i;
      huawei_cloud_obs = p_huawei_cloud_obs i;
    }

instance abbrev pub state_store_eq : Eq StateStore
state_store_eq = record { beq = state_store_equal; sound = state_store_sound }

abbrev pub private_key_equal : PrivateKey → PrivateKey → Bool
private_key_equal a b = equal a.value b.value && equal a.secret_ref b.secret_ref

pub private_key_sound : (a b : PrivateKey) → private_key_equal a b ≡ true → a ≡ b
private_key_sound a b h =
    let p = equal_sound a.value b.value (ground (arith, h)) in
    let q = equal_sound a.secret_ref b.secret_ref (ground (arith, h)) in
    λ i. record { value = p i; secret_ref = q i }

instance abbrev pub private_key_eq : Eq PrivateKey
private_key_eq = record { beq = private_key_equal; sound = private_key_sound }
