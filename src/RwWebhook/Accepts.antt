-- ===== src/RwWebhook/Accepts.antt =====
-- The checks of an object by itself (pkg/webhook/risingwave_validating_webhook.go).
use risingwave_operator.Prelude.{
  pos-add, ℕ, ◌+◌, ◌≤◌, ◌≡◌, ◌∙◌, ap, refl, ◌↔◌, pos, ◌+ℤ◌, int32, int32-pos, max_int32, pos_part,
  neg_part, Bool, true, false, ◌&&◌, not, List, [], ◌∷◌, Option, none, some, codes, str_eq, is_none,
  append-empty, All, if◌then◌else◌, arith, sum_of,
}
use risingwave_operator.Stores.{Cloud, S3}
use risingwave_operator.UserWebhook.{Segment, ErrorKind, forbidden, FieldError}
use risingwave_operator.UserWebhook.Checks.{check, at, each, has_prefix}
use risingwave_operator.UserWebhook.Grants.{check-passes, each-passes}
use risingwave_operator.ScaleView.Helper.{unless_panic}
use risingwave_operator.RwWebhook.{GroupSpec, ConfigMapSource, Object, Patterns}
use risingwave_operator.RwWebhook.Checks.{
  validate_node_group, bool_set, lacks_credentials, validate_azure,
  validate_meta_store_and_state_store, validate_configuration, validate_components, sum_replicas,
  validate_labels, spec_path, store_errors, object_errors, validate_meta_replicas,
  validate_secret_store, validate_create,
}
use risingwave_operator.RwWebhook.Groups.{
  IsGroup, validate_node_group-passes, validate_labels-passes,
}
use risingwave_operator.RwWebhook.Backends.{
  Anonymous, lacks-Anonymous, Anonymous-lacks, HasStores, unless_panic-empty, stores-HasStores,
}

-- The replicas of groups, and their sum as numbers.
abbrev pub AreCounts : List GroupSpec → Type 0
AreCounts = All (λ g. neg_part g.group.replicas ≡ 0)

abbrev pub total_replicas : List GroupSpec → ℕ
total_replicas = sum_of (λ g. pos_part g.group.replicas)

-- The sum in int32 is that sum while it fits.
sum_replicas-total :
    (groups : List GroupSpec) (total : ℕ)
    → AreCounts groups
    → total + total_replicas groups ≤ max_int32
    → sum_replicas (pos total) groups ≡ pos (total + total_replicas groups)
unfolding sum_replicas sum_of
sum_replicas-total [] total h k = ap pos (omega arith)
sum_replicas-total (g ∷ groups) total (h, hs) k =
    let n = total + pos_part g.group.replicas in
    let e : int32 (pos total +ℤ g.group.replicas) ≡ pos n =
      ap int32 (pos-add total g.group.replicas h) ∙ int32-pos n (omega arith) in
    rw e (sum_replicas-total groups n hs (omega arith) ∙ ap pos (omega arith))

validate_meta_replicas-le :
    (obj : Object)
    → validate_meta_replicas obj ≡ []
    → bool_set obj.meta_store.memory ≡ true
    → AreCounts obj.meta
    → total_replicas obj.meta ≤ max_int32
    → total_replicas obj.meta ≤ 1
unfolding validate_meta_replicas
validate_meta_replicas-le obj h m c k =
    let e = sum_replicas-total obj.meta 0 c (omega arith) in
    let b = both (bool_set obj.meta_store.memory) _ (check-passes _ _ _ h) m in
    let d = rw e at b in ground arith
  where
    both : (a b : Bool) → (a && b) ≡ false → a ≡ true → b ≡ false
    both true b h e = h
    both false b h e = cc

-- A ConfigMap that is named has a name and a key.
abbrev pub HasConfig : Option ConfigMapSource → Type 0
HasConfig config_map =
    (c : ConfigMapSource)
    → config_map ≡ some c
    → (str_eq c.name "" ≡ false) × (str_eq c.key "" ≡ false)

validate_configuration-HasConfig :
    (path : List Segment) (config_map : Option ConfigMapSource)
    → validate_configuration path config_map ≡ []
    → HasConfig config_map
unfolding validate_configuration
validate_configuration-HasConfig path none h c e = cc
validate_configuration-HasConfig path (some d) h c e =
    let same : d ≡ c = cc in named (str_eq c.name "") (str_eq c.key "") (rw same at h)
  where
    named :
        (a b : Bool)
        → (if a
            then check true ErrorKind.required (at (at path "configmap") "name")
            else check b ErrorKind.required (at (at path "configmap") "key"))
          ≡ []
        → (a ≡ false) × (b ≡ false)
    named true b h = cc
    named false true h = cc
    named false false h = (refl, refl)

-- What an accepted object satisfies.
pub record IsAccepted (patterns : Patterns) (kruise : Bool) (obj : Object) : Type 0 where
  pub image : patterns.matches_reference obj.image ≡ true
  pub frontend_labels :
      All (λ label. has_prefix label (codes "risingwave/") ≡ false) obj.frontend_service_labels
  pub meta_labels :
      All (λ label. has_prefix label (codes "risingwave/") ≡ false) obj.meta_service_labels
  pub open_kruise : bool_set obj.enable_open_kruise ≡ true → kruise ≡ true
  pub stores : HasStores obj.meta_store obj.state_store
  pub config : HasConfig obj.config_map
  pub meta : All (IsGroup patterns (kruise && bool_set obj.enable_open_kruise)) obj.meta
  pub frontend : All (IsGroup patterns (kruise && bool_set obj.enable_open_kruise)) obj.frontend
  pub compactor : All (IsGroup patterns (kruise && bool_set obj.enable_open_kruise)) obj.compactor
  pub compute : All (IsGroup patterns (kruise && bool_set obj.enable_open_kruise)) obj.compute
  -- One meta node at most, if the meta store is in memory and the sum of replicas fits into int32.
  pub meta_replicas :
      bool_set obj.meta_store.memory ≡ true
      → AreCounts obj.meta
      → total_replicas obj.meta ≤ max_int32
      → total_replicas obj.meta ≤ 1
  -- At most one of the two sources of the private key.
  pub private_key :
      is_none obj.private_key.value ≡ false → is_none obj.private_key.secret_ref ≡ true

components-IsGroup :
    (patterns : Patterns) (enabled : Bool) (obj : Object) (path : List Segment)
    → validate_components patterns path obj enabled ≡ []
    → All (IsGroup patterns enabled) obj.meta
      × All (IsGroup patterns enabled) obj.frontend
      × All (IsGroup patterns enabled) obj.compactor
      × All (IsGroup patterns enabled) obj.compute
unfolding validate_components
components-IsGroup patterns enabled obj path h =
    let validate = validate_node_group patterns enabled in
    let passes =
      each-passes validate (IsGroup patterns enabled)
        (validate_node_group-passes patterns enabled) in
    let (a, r₁) = append-empty (each validate _ 0 obj.meta) _ h in
    let (b, r₂) = append-empty (each validate _ 0 obj.frontend) _ r₁ in
    let (c, d) = append-empty (each validate _ 0 obj.compactor) _ r₂ in
    (
      passes _ 0 obj.meta a,
      passes _ 0 obj.frontend b,
      passes _ 0 obj.compactor c,
      passes _ 0 obj.compute d,
    )

pub validate_create-IsAccepted :
    (patterns : Patterns) (kruise : Bool) (obj : Object)
    → validate_create patterns kruise obj ≡ some []
    → IsAccepted patterns kruise obj
unfolding validate_create object_errors validate_secret_store
validate_create-IsAccepted patterns kruise obj h =
    let (errors, e, r) = unless_panic-empty _ _ h in
    let (a, r₁) = append-empty (check (not (patterns.matches_reference obj.image)) _ _) _ r in
    let (b, r₂) = append-empty (validate_labels _ obj.frontend_service_labels) _ r₁ in
    let (c, r₃) = append-empty (validate_labels _ obj.meta_service_labels) _ r₂ in
    let (d, r₄) = append-empty (check (not kruise && _) _ _) _ r₃ in
    let (f, r₅) = append-empty errors _ r₄ in
    let (g, r₆) =
      append-empty (validate_configuration (at spec_path "configuration") obj.config_map) _ r₅ in
    let (k, r₇) =
      append-empty
        (validate_components patterns (at spec_path "components") obj
          (kruise && bool_set obj.enable_open_kruise))
        _ r₆ in
    let (l, m) = append-empty (validate_meta_replicas obj) _ r₇ in
    let (meta, frontend, compactor, compute) =
      components-IsGroup patterns (kruise && bool_set obj.enable_open_kruise) obj
        (at spec_path "components") k in
    record {
      image = holds _ (check-passes _ _ _ a);
      frontend_labels = validate_labels-passes _ _ b;
      meta_labels = validate_labels-passes _ _ c;
      open_kruise = available kruise _ (check-passes _ _ _ d);
      stores = stores-HasStores spec_path _ _ (e ∙ ap some f);
      config = validate_configuration-HasConfig (at spec_path "configuration") _ g;
      meta = meta;
      frontend = frontend;
      compactor = compactor;
      compute = compute;
      meta_replicas = validate_meta_replicas-le obj l;
      private_key =
          single _ _ (check-passes _ forbidden (at (at spec_path "secretStore") "privateKey") m);
    }
  where
    holds : (a : Bool) → not a ≡ false → a ≡ true
    holds true h = refl
    holds false h = cc

    available : (a b : Bool) → (not a && b) ≡ false → b ≡ true → a ≡ true
    available true b h e = refl
    available false true h e = cc
    available false false h e = cc

    single : (a b : Bool) → (not a && not b) ≡ false → a ≡ false → b ≡ true
    single true b h e = cc
    single false true h e = refl
    single false false h e = cc

-- The checks of an object crash exactly if its state store names Azure Blob with neither a secret nor a
-- service account, and no S3: the error that is due then reads the secret's name of S3.
pub validate_create-crashes_iff :
    (patterns : Patterns) (kruise : Bool) (obj : Object)
    → (validate_create patterns kruise obj ≡ none) ↔ (
        (c : Cloud) × (obj.state_store.azure_blob ≡ some c)
        × Anonymous c
        × (obj.state_store.s3 ≡ none))
unfolding validate_create validate_meta_store_and_state_store validate_azure
validate_create-crashes_iff patterns kruise obj =
    let (f, g) = crashes (lacks_credentials obj.state_store.azure_blob) obj.state_store.s3 in
    let (k, l) = anonymous obj.state_store.azure_blob in
    (
      (λ h. let (a, b) = f h in let (c, e, n) = k a in (c, e, n, absent obj.state_store.s3 b)),
      (λ (c, e, n, b). g (l (c, e, n), ap is_none b)),
    )
  where
    absent : (s3 : Option S3) → is_none s3 ≡ true → s3 ≡ none
    absent none h = refl
    absent (some s) h = cc

    anonymous :
        (azure : Option Cloud)
        → (lacks_credentials azure ≡ true) ↔ ((c : Cloud) × (azure ≡ some c) × Anonymous c)
    anonymous none = (λ h. cc, λ (c, e, n). cc)
    anonymous (some d) = (
      (λ h. (d, refl, lacks-Anonymous d h)),
      (λ (c, e, n). ap lacks_credentials e ∙ Anonymous-lacks c n),
    )

    crashes :
        (b : Bool) (s3 : Option S3)
        → (unless_panic (object_errors patterns kruise obj) (
              unless_panic (store_errors spec_path obj.meta_store obj.state_store) (
                if b
                then elim s3 as (λ _. Option (List FieldError)) [
                  | none ↦ none
                  | some _ ↦ some (
                      check true ErrorKind.invalid
                        (at (at (at spec_path "stateStore") "azureBlob") "credentials"))
                ]
                else some []))
            ≡ none)
          ↔ ((b ≡ true) × (is_none s3 ≡ true))
    crashes true none = (λ _. (refl, refl), λ _. refl)
    crashes true (some s) = (λ h. cc, λ (a, b). cc)
    crashes false s3 = (λ h. cc, λ (a, b). cc)
