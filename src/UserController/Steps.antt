-- ===== src/UserController/Steps.antt =====
-- The steps of a reconciliation.
use risingwave_operator.Prelude.{
  ℤ, pos, eqb_ℤ, Bool, true, false, ◌&&◌, ◌||◌, Option, none, some, or_default, is_none, List, [],
  ◌∷◌, ◌++◌, Bytes, codes, bytes_eq, if◌then◌else◌, is_empty,
}
use risingwave_operator.Passwords.{generate_random_password}
use risingwave_operator.Rwclient.Sql.{
  get_user_name, build_create_user_sql, build_alter_user_password_sql,
  build_create_user_with_oauth_sql, build_create_user_with_ldap_sql,
  build_alter_user_permissions_sql,
}
use risingwave_operator.UserWebhook.{
  AdminCredentials, ConnectionRef, RisingWaveReference, SecretReference, PasswordConfig,
  get_auth_type,
}
use risingwave_operator.UserController.Apply.{
  ApplyResult, fetch_failed, applied, contains_text, apply_privileges,
}
use risingwave_operator.UserController.Reconcile.{
  Managed, Cluster, SecretAnswer, found, missing, failed, Event, ran, ran_privileges, wrote_secret,
  updated, sent_status, World, Reconciler, UserStatus, value_at, with_condition, set_phase,
  get_secret_name,
}

-- isUserAlreadyExistsError
unfoldable pub is_user_already_exists_error : Option Bytes → (Bytes → Bytes) → Bytes → Bool
is_user_already_exists_error code to_lower message =
    bytes_eq (or_default code []) (codes "42710")
    || (contains_text (to_lower message) (codes "user with name")
        && contains_text (to_lower message) (codes "exists"))

abbrev pub non_empty : Bytes → Bytes → Bytes
non_empty s default = if is_empty s then default else s

-- The statement of ensureUserExists.
unfoldable pub create_statement : Bytes → Managed → Bytes
unfolding get_user_name build_create_user_sql build_create_user_with_oauth_sql
    build_create_user_with_ldap_sql get_auth_type
create_statement password m =
    let name = get_user_name m.object.user in
    let auth = get_auth_type m.object in
    if bytes_eq auth (codes "oauth")
    then build_create_user_with_oauth_sql name
    else if bytes_eq auth (codes "ldap")
    then build_create_user_with_ldap_sql name
    else build_create_user_sql m.object.user password

abbrev pub value_in : Bytes → SecretAnswer → Option Bytes
value_in key (found m) = value_at key m
value_in key missing = none
value_in key failed = none

abbrev pub with_username : Bytes → Option Bytes → Option (Bytes × Bytes)
with_username name none = none
with_username name (some password) = some (name, password)

abbrev pub frontend_port : ℤ
frontend_port = pos 4567

abbrev pub reference_credentials : Option RisingWaveReference → Option AdminCredentials
reference_credentials none = none
reference_credentials (some ref) = ref.credentials

abbrev pub random_length : Option PasswordConfig → ℤ
random_length none = pos 16
random_length (some p) = or_default p.generate_random_length (pos 16)

abbrev pub password_ref : Option PasswordConfig → Option SecretReference
password_ref none = none
password_ref (some p) = p.secret_ref

abbrev pub is_applied : ApplyResult → Bool
is_applied fetch_failed = false
is_applied (applied failures) = is_empty failures

module _ {S : Type 0} (world : World S) where
  abbrev pub log : Event → S → Reconciler S → Reconciler S
  log event s r = record r { state = s; events = r.events ++ event ∷ [] }

  abbrev pub on_status : (UserStatus → UserStatus) → Reconciler S → Reconciler S
  on_status f r = record r { user = record r.user { status = f r.user.status } }

  -- A statement on the connection.
  unfoldable pub run : Bytes → Reconciler S → Option Bytes × Reconciler S
  run statement r = let a = world.server.exec r.state statement in (a.0, log (ran statement) a.1 r)

  unfoldable pub send_status : Reconciler S → Bool × Reconciler S
  send_status r =
      let a = world.update_status r.state r.user.status in
      (a.0, log (sent_status r.user.status) a.1 r)

  unfoldable pub update_user : Managed → Reconciler S → Bool × Reconciler S
  update_user user r =
      let a = world.update r.state user in (a.0, log (updated user) a.1 (record r { user = user }))

  -- readSecretValue, and the same steps in getPasswordFromSecret.
  unfoldable pub read_secret_value : SecretReference → Reconciler S → Option Bytes
  read_secret_value ref r =
      value_in (non_empty ref.key (codes "password"))
        (world.get_secret r.state (non_empty ref.namespace r.user.object.namespace) ref.name)

  abbrev pub admin_password :
      AdminCredentials → Reconciler S → Option SecretReference → Option Bytes
  admin_password creds r none = some creds.password
  admin_password creds r (some ref) = read_secret_value ref r

  -- The user name and the password.
  unfoldable pub resolve_admin_credentials :
      Option AdminCredentials → Reconciler S → Option (Bytes × Bytes)
  unfolding read_secret_value
  resolve_admin_credentials none r = some (codes "root", [])
  resolve_admin_credentials (some creds) r =
      with_username (non_empty creds.username (codes "root"))
        (admin_password creds r creds.password_secret_ref)

  abbrev pub pooled : Reconciler S → Bool × S → Bool × Reconciler S
  pooled r (true, s) =
      (true, on_status (λ t. record t { connected = true }) (record r { state = s }))
  pooled r (false, s) = (false, record r { state = s })

  abbrev pub connect_to :
      Option Cluster → Bytes → ℤ → Reconciler S → Option (Bytes × Bytes) → Bool × Reconciler S
  connect_to cluster host port r none = (false, r)
  connect_to cluster host port r (some credentials) =
      pooled r (world.pool_get r.state r.user.object.namespace cluster host port credentials)

  abbrev pub with_service :
      Option Cluster
      → Option AdminCredentials
      → Reconciler S
      → Option (Bytes × Bytes)
      → Bool × Reconciler S
  with_service cluster creds r none = (false, r)
  with_service cluster creds r (some (name, namespace)) =
      connect_to cluster (name ++ (codes "." ++ (namespace ++ codes ".svc.cluster.local")))
        frontend_port r (resolve_admin_credentials creds r)

  -- establishConnectionFromRisingWaveRef, with the cluster that is fetched before.
  unfoldable pub establish_connection_from_risingwave_ref :
      Option Cluster → Reconciler S → Bool × Reconciler S
  unfolding resolve_admin_credentials
  establish_connection_from_risingwave_ref none r = (false, r)
  establish_connection_from_risingwave_ref (some c) r =
      with_service (some c) (reference_credentials r.user.object.risingwave_ref) r
        (world.get_service r.state c.namespace (c.name ++ codes "-frontend"))

  unfoldable pub establish_connection_from_connection_ref :
      ConnectionRef → Reconciler S → Bool × Reconciler S
  unfolding resolve_admin_credentials
  establish_connection_from_connection_ref ref r =
      connect_to none ref.host (if eqb_ℤ ref.port (pos 0) then frontend_port else ref.port) r
        (resolve_admin_credentials ref.credentials r)

  abbrev pub connect_by : Option ConnectionRef → Reconciler S → Bool × Reconciler S
  connect_by none r = establish_connection_from_risingwave_ref r.cluster r
  connect_by (some ref) r = establish_connection_from_connection_ref ref r

  unfoldable pub establish_connection : Reconciler S → Bool × Reconciler S
  unfolding establish_connection_from_risingwave_ref establish_connection_from_connection_ref
  establish_connection r = connect_by r.user.object.connection_ref r

  abbrev pub kept_or_new : Reconciler S → Option Bytes → Option Bytes × Reconciler S
  kept_or_new r (some password) = (some password, r)
  kept_or_new r none =
      let p =
        generate_random_password world.source (random_length r.user.object.password) r.state in
      (some p.0, record r { state = p.1 })

  abbrev pub password_by : Reconciler S → Option SecretReference → Option Bytes × Reconciler S
  password_by r (some ref) = (read_secret_value ref r, r)
  password_by r none = kept_or_new r (
      value_in (codes "password")
        (world.get_secret r.state r.user.object.namespace (get_secret_name r.user r.cluster)))

  -- getPassword
  unfoldable pub get_password : Reconciler S → Option Bytes × Reconciler S
  unfolding read_secret_value generate_random_password get_secret_name
  get_password r = password_by r (password_ref r.user.object.password)

  abbrev pub secret_data : Reconciler S → Bytes → List (Bytes × Bytes)
  secret_data r password =
      (codes "username", get_user_name r.user.object.user) ∷ (codes "password", password) ∷ []

  abbrev pub secret_written : Bool × Reconciler S → Bool × Reconciler S
  secret_written (false, r) = (false, r)
  secret_written (true, r) = (
    true,
    on_status
        (λ t.
          with_condition (codes "SecretCreated") true (codes "SecretCreated")
            (record t { secret_created = true; secret_name = get_secret_name r.user r.cluster }))
        r,
  )

  abbrev pub write_secret : Bytes → Reconciler S → SecretAnswer → Bool × Reconciler S
  write_secret password r failed = (false, r)
  write_secret password r other =
      let name = get_secret_name r.user r.cluster in
      let a = world.put_secret r.state name (secret_data r password) in
      secret_written (a.0, log (wrote_secret name (secret_data r password)) a.1 r)

  -- createOrUpdateSecret: the data are those of a new secret or replace those of the old one.
  unfoldable pub create_or_update_secret : Bytes → Reconciler S → Bool × Reconciler S
  unfolding get_secret_name get_user_name
  create_or_update_secret password r =
      write_secret password r
        (world.get_secret r.state r.user.object.namespace (get_secret_name r.user r.cluster))

  abbrev pub mark_created : Bytes → Reconciler S → Reconciler S
  mark_created reason =
      on_status
        (λ t. record (with_condition (codes "UserCreated") true reason t) { user_created = true })

  abbrev pub after_creation : Option Bytes × Reconciler S → Bool × Reconciler S
  after_creation (none, r) = (true, mark_created (codes "UserCreated") r)
  after_creation (some message, r) =
      if is_user_already_exists_error (world.code_of message) world.to_lower message
      then (true, mark_created (codes "UserAlreadyExists") r)
      else (false, r)

  unfoldable pub ensure_user_exists : Bytes → Reconciler S → Bool × Reconciler S
  unfolding create_statement run is_user_already_exists_error
  ensure_user_exists password r =
      after_creation
        (run (create_statement password r.user) (on_status (set_phase (codes "Creating")) r))

  abbrev pub succeeded : Option Bytes × Reconciler S → Bool × Reconciler S
  succeeded (e, r) = (is_none e, r)

  abbrev pub run_unless_empty : Bytes → Reconciler S → Bool × Reconciler S
  run_unless_empty statement r =
      if is_empty statement then (true, r) else succeeded (run statement r)

  unfoldable pub reconcile_permissions : Reconciler S → Bool × Reconciler S
  unfolding run build_alter_user_permissions_sql get_user_name
  reconcile_permissions r =
      run_unless_empty
        (build_alter_user_permissions_sql (get_user_name r.user.object.user)
          r.user.object.user.permissions)
        r

  abbrev pub secret_after : Bytes → Option Bytes × Reconciler S → Bool × Reconciler S
  secret_after password (some message, r) = (false, r)
  secret_after password (none, r) = create_or_update_secret password r

  unfoldable pub rotate_password : Reconciler S → Bool × Reconciler S
  unfolding run create_or_update_secret generate_random_password build_alter_user_password_sql
      get_user_name
  rotate_password r =
      let p = generate_random_password world.source (pos 16) r.state in
      secret_after p.0 (
        run (build_alter_user_password_sql (get_user_name r.user.object.user) p.0)
          (record r { state = p.1 }))

  -- applyPrivileges on the connection of the reconciliation.
  unfoldable pub apply_user_privileges : Reconciler S → Bool × Reconciler S
  unfolding apply_privileges get_user_name
  apply_user_privileges r =
      let a =
        apply_privileges world.server world.orders (get_user_name r.user.object.user)
          r.user.object.user.grants (record { state = r.state; executed = [] }) world.entries in
      (is_applied a.0, log (ran_privileges a.1.executed) a.1.state r)
