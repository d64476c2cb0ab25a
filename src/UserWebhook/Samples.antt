-- ===== src/UserWebhook/Samples.antt =====
-- The webhook at examples.
use risingwave_operator.Prelude.{
  ◌≡◌, refl, ◌↔◌, true, false, [], ◌∷◌, none, some, Bytes, codes, pos, All, bytes_eq,
}
use risingwave_operator.Rwclient.{GrantSpec, NestedSchemaPrivilege, NestedPrivilege}
use risingwave_operator.Rwclient.Sql.{get_user_name}
use risingwave_operator.UserWebhook.{PasswordConfig, UserObject, Lookup, found, get_auth_type}
use risingwave_operator.UserWebhook.Checks.{validate_update, validate_privileges, spec_path}
use risingwave_operator.UserWebhook.Grants.{IsDatabase, validate_privileges-accepts_iff}
use risingwave_operator.UserWebhook.Updates.{HasIdentity, Keeps, here, then_update, Admitted-Keeps}

abbrev always : Bytes → Bytes → Lookup
always namespace name = found

abbrev orders : NestedPrivilege
orders = record {
  name = codes "orders";
  privileges = codes "SELECT" ∷ [];
  with_grant_option = false;
}

abbrev public_schema : NestedSchemaPrivilege
public_schema = record {
  name = codes "public";
  privileges = codes "USAGE" ∷ [];
  with_grant_option = false;
  tables = orders ∷ [];
  views = [];
  materialized_views = [];
  sources = [];
  sinks = [];
  connections = [];
  secrets = [];
  functions = [];
}

abbrev dev_grants : GrantSpec
dev_grants = record {
  databases =
      record {
        name = codes "dev";
        privileges = codes "CONNECT" ∷ [];
        with_grant_option = true;
        schemas = public_schema ∷ [];
      }
      ∷ [];
}

abbrev object_with : PasswordConfig → UserObject
object_with password = record {
  user = record {
    object_name = codes "ann";
    spec_name = [];
    permissions = codes "CREATEDB" ∷ [];
    grants = some dev_grants;
  };
  namespace = codes "default";
  annotations = [];
  risingwave_ref = some (record { name = codes "rw"; namespace = []; credentials = none });
  connection_ref = none;
  password = some password;
  auth = none;
}

abbrev secret_password : PasswordConfig
secret_password = record {
  secret_ref = some (record { name = codes "secret"; namespace = []; key = codes "password" });
  generate_random_length = none;
}

abbrev random_password : PasswordConfig
random_password = record { secret_ref = none; generate_random_length = some (pos 16) }

-- The password can go from a secret to a random text with no annotation.
switched :
    (validate_update always (object_with secret_password) (object_with random_password)).1 ≡ []
unfolding validate_update bytes_eq
switched = refl

secret-HasIdentity : HasIdentity (object_with secret_password)
unfolding get_user_name get_auth_type
secret-HasIdentity = (refl, refl)

random-HasIdentity : HasIdentity (object_with random_password)
unfolding get_user_name get_auth_type
random-HasIdentity = (refl, refl)

Admitted-Keeps_example : Keeps (object_with secret_password) (object_with random_password)
Admitted-Keeps_example =
    Admitted-Keeps secret-HasIdentity (then_update always switched random-HasIdentity here)

validate_privileges-accepts_iff_example :
    (validate_privileges (some dev_grants) spec_path ≡ []) ↔ All IsDatabase dev_grants.databases
validate_privileges-accepts_iff_example = validate_privileges-accepts_iff dev_grants spec_path
