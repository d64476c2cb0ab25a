-- ===== src/Rwclient.antt =====
-- pkg/rwclient, the client of a RisingWave cluster, and the part of
-- apis/risingwave/v1alpha1/risingwave_user_types.go that it reads. A text is the list of its bytes.
pub mod Sql
pub mod Acl
pub mod Diff
pub mod Snapshot
use risingwave_operator.Prelude.{Bool, List, Bytes, Option}

-- NestedTablePrivilege, NestedViewPrivilege, NestedMaterializedViewPrivilege, NestedSourcePrivilege,
-- NestedSinkPrivilege, NestedConnectionPrivilege, NestedSecretPrivilege and NestedFunctionPrivilege,
-- which have the same fields.
pub record NestedPrivilege : Type 0 where
  pub name : Bytes
  pub privileges : List Bytes
  pub with_grant_option : Bool

pub record NestedSchemaPrivilege : Type 0 where
  pub name : Bytes
  pub privileges : List Bytes
  pub with_grant_option : Bool
  pub tables : List NestedPrivilege
  pub views : List NestedPrivilege
  pub materialized_views : List NestedPrivilege
  pub sources : List NestedPrivilege
  pub sinks : List NestedPrivilege
  pub connections : List NestedPrivilege
  pub secrets : List NestedPrivilege
  pub functions : List NestedPrivilege

pub record DatabasePrivilege : Type 0 where
  pub name : Bytes
  pub privileges : List Bytes
  pub with_grant_option : Bool
  pub schemas : List NestedSchemaPrivilege

pub record GrantSpec : Type 0 where
  pub databases : List DatabasePrivilege

-- RisingWaveUser: the fields that the statements are built from.
pub record User : Type 0 where
  -- `.metadata.name` and `.spec.name`
  pub object_name : Bytes
  pub spec_name : Bytes
  pub permissions : List Bytes
  pub grants : Option GrantSpec
