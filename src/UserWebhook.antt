-- ===== src/UserWebhook.antt =====
-- pkg/webhook/risingwave_user_validating_webhook.go, and the parts of
-- apis/risingwave/v1alpha1/risingwave_user_types.go that it reads beside the grants.
pub mod Checks
pub mod Grants
pub mod Updates
pub mod Samples
use risingwave_operator.Prelude.{
  ℕ, ℤ, Bool, Option, some, none, or_default, List, Bytes, String, codes, if◌then◌else◌, is_empty,
}
use risingwave_operator.Rwclient.{User}

-- SecretReference
pub record SecretReference : Type 0 where
  pub name : Bytes
  pub namespace : Bytes
  pub key : Bytes

-- AdminCredentials
pub record AdminCredentials : Type 0 where
  pub username : Bytes
  pub password : Bytes
  pub password_secret_ref : Option SecretReference

-- RisingWaveReference
pub record RisingWaveReference : Type 0 where
  pub name : Bytes
  pub namespace : Bytes
  pub credentials : Option AdminCredentials

-- ConnectionRef
pub record ConnectionRef : Type 0 where
  pub host : Bytes
  pub port : ℤ
  pub credentials : Option AdminCredentials

-- PasswordConfig
pub record PasswordConfig : Type 0 where
  pub secret_ref : Option SecretReference
  pub generate_random_length : Option ℤ

-- OAuthConfig
pub record OauthConfig : Type 0 where
  pub jwks_url : Bytes
  pub issuer : Bytes
  pub audience : List Bytes

-- LDAPConfig
pub record LdapConfig : Type 0 where
  pub host : Bytes
  pub port : ℤ
  pub base_dn : Bytes

-- AuthConfig: the type is a text, which the CRD's enumeration restricts.
pub record AuthConfig : Type 0 where
  pub auth_type : Option Bytes
  pub oauth : Option OauthConfig
  pub ldap : Option LdapConfig

-- RisingWaveUser: `user` holds the fields that the statements are built from, `annotations` the keys.
pub record UserObject : Type 0 where
  pub user : User
  pub namespace : Bytes
  pub annotations : List Bytes
  pub risingwave_ref : Option RisingWaveReference
  pub connection_ref : Option ConnectionRef
  pub password : Option PasswordConfig
  pub auth : Option AuthConfig

-- The paths and the errors of k8s.io/apimachinery's field package, without the messages.
pub data Segment : Type 0 where
  child : String → Segment
  index : ℕ → Segment

pub data ErrorKind : Type 0 where
  required invalid forbidden too_long not_found internal_error : ErrorKind

pub record FieldError : Type 0 where
  pub kind : ErrorKind
  pub path : List Segment

-- What the client's Get answers for a RisingWave: found, not found, or another error.
pub data Lookup : Type 0 where
  found missing failed : Lookup

unfoldable pub get_auth_type : UserObject → Bytes
get_auth_type obj = elim obj.auth [
  | none ↦ codes "password"
  | some auth ↦ or_default auth.auth_type (codes "password")
]
