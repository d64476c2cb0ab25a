-- ===== src/UserWebhook/Checks.antt =====
-- The checks, in the order of the source. A list of errors is empty exactly where the source returns no
-- error.
use risingwave_operator.Prelude.{
  ℕ, suc, ℤ, pos, ltb_ℤ, eqb_ℤ, Bool, true, false, ◌&&◌, ◌||◌, not, List, [], ◌∷◌, ◌++◌, Option,
  none, some, Bytes, codes, bytes_eq, String, length, ltb, ◌==◌, is_empty, is_none, exists_test,
  if◌then◌else◌,
}
use risingwave_operator.Rwclient.{
  GrantSpec, DatabasePrivilege, NestedSchemaPrivilege, NestedPrivilege,
}
use risingwave_operator.Rwclient.Sql.{get_user_name}
use risingwave_operator.UserWebhook.{
  SecretReference, AdminCredentials, RisingWaveReference, ConnectionRef, PasswordConfig,
  OauthConfig, LdapConfig, UserObject, Segment, child, index, ErrorKind, required, invalid,
  forbidden, too_long, not_found, internal_error, FieldError, Lookup, found, missing, failed,
  get_auth_type,
}

-- Append an error if a condition holds.
abbrev pub check : Bool → ErrorKind → List Segment → List FieldError
check b kind path = if b then record { kind = kind; path = path } ∷ [] else []

abbrev pub at : List Segment → String → List Segment
at path name = path ++ child name ∷ []

-- strings.HasPrefix
unfoldable pub has_prefix : Bytes → Bytes → Bool
has_prefix s [] = true
has_prefix [] (d ∷ p) = false
has_prefix (c ∷ s) (d ∷ p) = c == d && has_prefix s p

unfoldable pub validate_admin_credentials : Option AdminCredentials → List Segment → List FieldError
validate_admin_credentials none path = []
validate_admin_credentials (some creds) path = elim creds.password_secret_ref [
  | none ↦ []
  | some ref ↦ check (is_empty ref.name) required (at (at path "passwordSecretRef") "name")
]

-- A failed lookup drops every other error; a missing RisingWave does not end the checks.
unfoldable pub validate_risingwave_ref :
    (Bytes → Bytes → Lookup) → UserObject → RisingWaveReference → List Segment → List FieldError
unfolding validate_admin_credentials
validate_risingwave_ref lookup obj ref spec_path =
    let path = at spec_path "risingWaveRef" in
    let namespace = if is_empty ref.namespace then obj.namespace else ref.namespace in
    let credentials = validate_admin_credentials ref.credentials (at path "credentials") in
    if is_empty ref.name
    then check true required (at path "name")
    else elim (lookup namespace ref.name) [
      | found ↦ credentials
      | missing ↦ check true not_found (at path "name") ++ credentials
      | failed ↦ check true internal_error path
    ]

abbrev pub is_bad_port : ℤ → Bool
is_bad_port port = not (eqb_ℤ port (pos 0)) && (ltb_ℤ port (pos 1) || ltb_ℤ (pos 65535) port)

unfoldable pub validate_connection_ref : ConnectionRef → List Segment → List FieldError
unfolding validate_admin_credentials
validate_connection_ref ref spec_path =
    let path = at spec_path "connectionRef" in
    check (is_empty ref.host) required (at path "host")
    ++ (check (is_bad_port ref.port) invalid (at path "port")
        ++ validate_admin_credentials ref.credentials (at path "credentials"))

unfoldable pub validate_random_length : ℤ → List Segment → List FieldError
validate_random_length n path =
    check (ltb_ℤ n (pos 8)) invalid path ++ check (ltb_ℤ (pos 128) n) invalid path

unfoldable pub validate_password_config : Option PasswordConfig → List Segment → List FieldError
unfolding validate_random_length
validate_password_config none spec_path = []
validate_password_config (some password) spec_path =
    let path = at spec_path "password" in
    let length_path = at path "generateRandomLength" in
    check (not (is_none password.secret_ref) && not (is_none password.generate_random_length))
      invalid length_path
    ++ (elim password.secret_ref [
      | none ↦ []
      | some ref ↦ check (is_empty ref.name) required (at (at path "secretRef") "name")
    ]
        ++ elim password.generate_random_length [
          | none ↦ []
          | some n ↦ validate_random_length n length_path
        ])

unfoldable pub validate_oauth : OauthConfig → List Segment → List FieldError
unfolding has_prefix
validate_oauth oauth path =
    check (is_empty oauth.jwks_url) required (at path "jwksUrl")
    ++ (check
          (not (has_prefix oauth.jwks_url (codes "http://"))
            && not (has_prefix oauth.jwks_url (codes "https://")))
          invalid (at path "jwksUrl")
        ++ check (is_empty oauth.issuer) required (at path "issuer"))

unfoldable pub validate_ldap : LdapConfig → List Segment → List FieldError
validate_ldap ldap path =
    check (is_empty ldap.host) required (at path "host")
    ++ (check (is_empty ldap.base_dn) required (at path "baseDN")
        ++ check (is_bad_port ldap.port) invalid (at path "port"))

unfoldable pub validate_auth_config : UserObject → List Segment → List FieldError
unfolding validate_oauth validate_ldap get_auth_type
validate_auth_config obj spec_path = elim obj.auth [
  | none ↦ []
  | some auth ↦
      let path = at spec_path "auth" in
      let oauth_path = at path "oauth" in
      let ldap_path = at path "ldap" in
      if bytes_eq (get_auth_type obj) (codes "oauth")
      then elim auth.oauth [
        | none ↦ check true required oauth_path
        | some oauth ↦ validate_oauth oauth oauth_path
      ]
      else if bytes_eq (get_auth_type obj) (codes "ldap")
      then elim auth.ldap [
        | none ↦ check true required ldap_path
        | some ldap ↦ validate_ldap ldap ldap_path
      ]
      else []
]

-- The user's name: an error and a warning.
unfoldable pub validate_name : Bytes → List Segment → List FieldError
validate_name name spec_path = check (ltb 63 (length name)) too_long (at spec_path "name")

unfoldable pub name_warnings : Bytes → List Bytes
unfolding has_prefix
name_warnings name =
    if not (is_empty name) && (has_prefix name (codes "pg_") || has_prefix name (codes "rw_"))
    then name ∷ []
    else []

-- The errors of a loop over a list, with the indices of the items.
unfoldable pub each {ℓ} :
    {A : Type ℓ}
    → (A → List Segment → List FieldError)
    → List Segment
    → ℕ
    → List A
    → List FieldError
each f path i [] = []
each f path i (x ∷ xs) = f x (path ++ index i ∷ []) ++ each f path (suc i) xs

unfoldable pub validate_nested : NestedPrivilege → List Segment → List FieldError
validate_nested priv path =
    check (is_empty priv.name) required (at path "name")
    ++ check (is_empty priv.privileges) required (at path "privileges")

unfoldable pub validate_schema : NestedSchemaPrivilege → List Segment → List FieldError
unfolding each validate_nested
validate_schema priv path =
    check (is_empty priv.name) required (at path "name")
    ++ (check (is_empty priv.privileges) required (at path "privileges")
        ++ (each validate_nested (at path "tables") 0 priv.tables
            ++ (each validate_nested (at path "views") 0 priv.views
                ++ (each validate_nested (at path "materializedViews") 0 priv.materialized_views
                    ++ (each validate_nested (at path "sources") 0 priv.sources
                        ++ (each validate_nested (at path "sinks") 0 priv.sinks
                            ++ (each validate_nested (at path "connections") 0 priv.connections
                                ++ (each validate_nested (at path "secrets") 0 priv.secrets
                                    ++ each validate_nested (at path "functions") 0
                                        priv.functions))))))))

unfoldable pub validate_database : DatabasePrivilege → List Segment → List FieldError
unfolding each validate_schema
validate_database priv path =
    check (is_empty priv.name) required (at path "name")
    ++ (check (bytes_eq priv.name (codes "*")) invalid (at path "name")
        ++ (each validate_schema (at path "schemas") 0 priv.schemas
            ++ check (is_empty priv.privileges) required (at path "privileges")))

unfoldable pub validate_privileges : Option GrantSpec → List Segment → List FieldError
unfolding each validate_database
validate_privileges none spec_path = []
validate_privileges (some grants) spec_path =
    each validate_database (at (at spec_path "privileges") "databases") 0 grants.databases

-- Exactly one of the two references, and the checks of that one.
unfoldable pub validate_refs :
    (Bytes → Bytes → Lookup) → UserObject → List Segment → List FieldError
unfolding validate_risingwave_ref validate_connection_ref
validate_refs lookup obj spec_path = elim obj.risingwave_ref [
  | none ↦ elim obj.connection_ref [
    | none ↦ check true required spec_path
    | some connection ↦ validate_connection_ref connection spec_path
  ]
  | some ref ↦ elim obj.connection_ref [
    | none ↦ validate_risingwave_ref lookup obj ref spec_path
    | some connection ↦ check true invalid (at spec_path "connectionRef")
  ]
]

abbrev pub spec_path : List Segment
spec_path = child "spec" ∷ []

-- The warnings, each the name that it is about, and the errors.
unfoldable pub validate_object :
    (Bytes → Bytes → Lookup) → UserObject → List Bytes × List FieldError
unfolding validate_refs validate_name name_warnings validate_password_config validate_auth_config
    validate_privileges
validate_object lookup obj = (
  name_warnings obj.user.spec_name,
  validate_refs lookup obj spec_path
      ++ (validate_name obj.user.spec_name spec_path
          ++ (validate_password_config obj.password spec_path
              ++ (validate_auth_config obj spec_path
                  ++ validate_privileges obj.user.grants spec_path))),
)

abbrev same_secret : SecretReference → SecretReference → Bool
same_secret a b =
    bytes_eq a.name b.name && (bytes_eq a.namespace b.namespace && bytes_eq a.key b.key)

abbrev equal_lengths : Option ℤ → Option ℤ → Bool
equal_lengths none b = true
equal_lengths (some m) none = true
equal_lengths (some m) (some n) = eqb_ℤ m n

unfoldable pub equal_configs : PasswordConfig → PasswordConfig → Bool
equal_configs a b = elim a.secret_ref [
  | none ↦ equal_lengths a.generate_random_length b.generate_random_length
  | some s ↦ elim b.secret_ref [
    | none ↦ equal_lengths a.generate_random_length b.generate_random_length
    | some t ↦ same_secret s t
  ]
]

unfoldable pub password_config_equal : Option PasswordConfig → Option PasswordConfig → Bool
unfolding equal_configs
password_config_equal none none = true
password_config_equal none (some b) = false
password_config_equal (some a) none = false
password_config_equal (some a) (some b) = equal_configs a b

abbrev pub xor : Bool → Bool → Bool
xor true b = not b
xor false b = b

abbrev pub changed_name : Option RisingWaveReference → Option RisingWaveReference → Bool
changed_name none b = false
changed_name (some a) none = false
changed_name (some a) (some b) = not (bytes_eq a.name b.name)

abbrev pub changed_host : Option ConnectionRef → Option ConnectionRef → Bool
changed_host none b = false
changed_host (some a) none = false
changed_host (some a) (some b) = not (bytes_eq a.host b.host)

-- Two texts that are set and differ.
abbrev pub changed : Bytes → Bytes → Bool
changed a b = not (is_empty a) && (not (is_empty b) && not (bytes_eq a b))

-- What an update must not change.
unfoldable pub update_errors : UserObject → UserObject → List FieldError
unfolding password_config_equal get_user_name get_auth_type
update_errors old_obj new_obj =
    check (xor (is_none old_obj.risingwave_ref) (is_none new_obj.risingwave_ref)) forbidden
      spec_path
    ++ (check (changed_name old_obj.risingwave_ref new_obj.risingwave_ref) forbidden
          (at spec_path "risingWaveRef")
        ++ (check (changed_host old_obj.connection_ref new_obj.connection_ref) forbidden
              (at (at spec_path "connectionRef") "host")
            ++ (check (changed (get_user_name old_obj.user) (get_user_name new_obj.user)) forbidden
                  (at spec_path "name")
                ++ (check
                      (not (
                          exists_test
                            (λ k.
                              bytes_eq k (codes "risingwave.risingwavelabs.com/rotate-password"))
                            new_obj.annotations)
                        && not (password_config_equal old_obj.password new_obj.password))
                      forbidden (at spec_path "password")
                    ++ check (changed (get_auth_type old_obj) (get_auth_type new_obj)) forbidden
                        (at (at spec_path "auth") "type")))))

unfoldable pub validate_create :
    (Bytes → Bytes → Lookup) → UserObject → List Bytes × List FieldError
unfolding validate_object
validate_create lookup obj = validate_object lookup obj

unfoldable pub validate_update :
    (Bytes → Bytes → Lookup) → UserObject → UserObject → List Bytes × List FieldError
unfolding validate_object update_errors
validate_update lookup old_obj new_obj =
    let (warnings, errors) = validate_object lookup new_obj in
    if is_empty errors then (warnings, update_errors old_obj new_obj) else (warnings, errors)
