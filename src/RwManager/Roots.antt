-- ===== src/RwManager/Roots.antt =====
-- The root path of the state store (pkg/object/risingwave_manager.go).
use risingwave_operator.Prelude.{
  ◌+◌, ◌≡◌, ◌∙◌, refl, ap, Bool, true, false, some, List, [], ◌∷◌, ◌++◌, All, Bytes, arith,
}
use risingwave_operator.Stores.{Cloud, Rooted, StateStore}
use risingwave_operator.RwWebhook.{Object, Patterns}
use risingwave_operator.RwWebhook.Checks.{count_true, state_kinds, validate_create}
use risingwave_operator.RwWebhook.Groups.{OnlyOne}
use risingwave_operator.RwWebhook.Accepts.{validate_create-IsAccepted}
use risingwave_operator.RwManager.{state_store_root_path}

count_append : (xs ys : List Bool) → count_true (xs ++ ys) ≡ count_true xs + count_true ys
count_append [] ys = omega arith
count_append (x ∷ xs) ys = omega (arith, count_append xs ys)

count_none : (bs : List Bool) → All (λ b. b ≡ false) bs → count_true bs ≡ 0
count_none [] h = refl
count_none (b ∷ bs) (e, h) = rw (e, count_none bs h) refl

OnlyOne-count_true : (bs : List Bool) → OnlyOne bs → count_true bs ≡ 1
OnlyOne-count_true bs (before, after, e, h, k) =
    ap count_true e
    ∙ count_append before (true ∷ after)
    ∙ (omega (arith, count_none before h, count_none after k))

-- The root path is that of the store that is set, and empty if that has none.
pub record IsRootOf (store : StateStore) (root : Bytes) : Type 0 where
  pub azure : (c : Cloud) → store.azure_blob ≡ some c → root ≡ c.root
  pub aliyun : (c : Rooted) → store.aliyun_oss ≡ some c → root ≡ c.root
  pub gcs : (c : Cloud) → store.gcs ≡ some c → root ≡ c.root
  pub hdfs : (c : Rooted) → store.hdfs ≡ some c → root ≡ c.root
  pub web_hdfs : (c : Rooted) → store.web_hdfs ≡ some c → root ≡ c.root

module _ (store : StateStore) (one : count_true (state_kinds store) ≡ 1) where
  root-azure : (c : Cloud) → store.azure_blob ≡ some c → state_store_root_path store ≡ c.root
  unfolding state_store_root_path
  root-azure c e = rw e refl

  root-aliyun : (c : Rooted) → store.aliyun_oss ≡ some c → state_store_root_path store ≡ c.root
  unfolding state_store_root_path
  root-aliyun c e = ground arith

  root-web : (c : Rooted) → store.web_hdfs ≡ some c → state_store_root_path store ≡ c.root
  unfolding state_store_root_path
  root-web c e = ground arith

  root-gcs : (c : Cloud) → store.gcs ≡ some c → state_store_root_path store ≡ c.root
  unfolding state_store_root_path
  root-gcs c e = ground arith

  root-hdfs : (c : Rooted) → store.hdfs ≡ some c → state_store_root_path store ≡ c.root
  unfolding state_store_root_path
  root-hdfs c e = ground arith

-- For an object that the webhook's checks accept, the root path is that of the one store that is set,
-- whichever of Azure Blob, Aliyun OSS, GCS, HDFS and WebHDFS that is: the order in which the code asks
-- for them never matters.
pub state_store_root_path-IsRootOf :
    (patterns : Patterns) (kruise : Bool) (obj : Object)
    → validate_create patterns kruise obj ≡ some []
    → IsRootOf obj.state_store (state_store_root_path obj.state_store)
state_store_root_path-IsRootOf patterns kruise obj h =
    let store = obj.state_store in
    let one =
      OnlyOne-count_true (state_kinds store)
        (validate_create-IsAccepted patterns kruise obj h).stores.one_state in
    record {
      azure = root-azure store one;
      aliyun = root-aliyun store one;
      gcs = root-gcs store one;
      hdfs = root-hdfs store one;
      web_hdfs = root-web store one;
    }
