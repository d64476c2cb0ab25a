-- ===== src/UserController/Statements.antt =====
-- The statements that applyPrivileges collects.
use risingwave_operator.Prelude.{
  false, Option, none, some, or_default, List, [], ◌∷◌, ◌++◌, map, Bytes, codes, bytes_eq,
  if◌then◌else◌, is_empty,
}
use risingwave_operator.Rwclient.{
  NestedPrivilege, NestedSchemaPrivilege, DatabasePrivilege, GrantSpec,
}
use risingwave_operator.Rwclient.Sql.{quote_user, quote_identifier}
use risingwave_operator.Rwclient.Diff.{
  ObjectPrivilege, SchemaPrivilegeSnapshot, DatabasePrivilegeSnapshot, PrivilegeDiff, set_of,
  calculate_database_diff, calculate_schema_diff, calculate_object_diff,
}
use risingwave_operator.UserController.{Orders, databases, privileges, schemas, objects}

-- The loop that takes the first element with a name.
abbrev pub find_named : {A : Type 0} → (A → Bytes) → Bytes → List A → Option A
find_named f name [] = none
find_named f name (x ∷ xs) = if bytes_eq (f x) name then some x else find_named f name xs

-- Where there is none, the variable of the loop keeps its zero value.
abbrev pub actual_schema : Bytes → List SchemaPrivilegeSnapshot → SchemaPrivilegeSnapshot
actual_schema name actual = or_default (find_named (λ s. s.name) name actual) (record {
  name = [];
  privileges = [];
  with_grant_option = false;
  tables = [];
  views = [];
  materialized_views = [];
  sources = [];
})

abbrev pub actual_database : Bytes → List DatabasePrivilegeSnapshot → DatabasePrivilegeSnapshot
actual_database name actual =
    or_default (find_named (λ d. d.name) name actual)
      (record { name = []; privileges = []; with_grant_option = false; schemas = [] })

-- dbStatements: what is to be granted and revoked, as in a difference.
abbrev pub no_statements : PrivilegeDiff
no_statements = record { to_grant = []; to_revoke = [] }

unfoldable pub both_statements : PrivilegeDiff → PrivilegeDiff → PrivilegeDiff
both_statements a b = record {
  to_grant = a.to_grant ++ b.to_grant;
  to_revoke = a.to_revoke ++ b.to_revoke;
}

unfoldable pub collect_from : (Bytes → PrivilegeDiff) → List Bytes → PrivilegeDiff
unfolding both_statements
collect_from f [] = no_statements
collect_from f (name ∷ names) = both_statements (f name) (collect_from f names)

abbrev pub revoke_all : Bytes → Bytes → Bytes → PrivilegeDiff
revoke_all on name user_name = record {
  to_grant = [];
  to_revoke =
      (codes "REVOKE ALL ON "
        ++ (on
            ++ (codes " " ++ (quote_identifier name ++ (codes " FROM " ++ quote_user user_name)))))
      ∷ [];
}

-- statementsPerDB
abbrev pub Stats : Type 0
Stats = List (Bytes × PrivilegeDiff)

-- getDBStats, and the appends to its result.
unfoldable pub add_statements : Bytes → PrivilegeDiff → Stats → Stats
unfolding both_statements
add_statements name d [] = (name, both_statements no_statements d) ∷ []
add_statements name d ((k, e) ∷ stats) =
    let rest = add_statements name d stats in
    if bytes_eq k name then (k, both_statements e d) ∷ stats else (k, e) ∷ rest

unfoldable pub get_db_stats : Bytes → Stats → PrivilegeDiff
get_db_stats name [] = no_statements
get_db_stats name ((k, e) ∷ stats) =
    let rest = get_db_stats name stats in if bytes_eq k name then e else rest

abbrev pub spec_databases : Option GrantSpec → List DatabasePrivilege
spec_databases none = []
spec_databases (some grants) = grants.databases

module _ (orders : Orders) (user_name : Bytes) where
  -- One round of the loop of reconcileObjectPrivileges.
  abbrev pub object_round :
      Bytes
      → Bytes
      → List ObjectPrivilege
      → List NestedPrivilege
      → Bytes
      → Option NestedPrivilege
      → PrivilegeDiff
  object_round schema_name object_type actual desired name none =
      revoke_all object_type name user_name
  object_round schema_name object_type actual desired name (some d) =
      calculate_object_diff (orders privileges) user_name schema_name object_type
        (or_default (find_named (λ o. o.name) name actual)
          (record { name = []; privileges = []; with_grant_option = false }))
        name d.privileges

  unfoldable pub reconcile_object_privileges :
      Bytes → Bytes → Bytes → List ObjectPrivilege → List NestedPrivilege → PrivilegeDiff
  unfolding collect_from calculate_object_diff
  reconcile_object_privileges db schema_name object_type actual desired =
      collect_from
        (λ name.
          object_round schema_name object_type actual desired name
            (find_named (λ d. d.name) name desired))
        (orders (objects db schema_name object_type)
          (set_of (map (λ o. o.name) actual ++ map (λ d. d.name) desired)))

  -- The four kinds of objects in a schema.
  abbrev pub object_kinds :
      Bytes
      → Bytes
      → SchemaPrivilegeSnapshot
      → List NestedPrivilege
      → List NestedPrivilege
      → List NestedPrivilege
      → List NestedPrivilege
      → PrivilegeDiff
  object_kinds db name actual tables views mvs sources =
      let of_kind = λ (kind : Bytes) (a : List ObjectPrivilege) (d : List NestedPrivilege).
        reconcile_object_privileges db name kind a d in
      both_statements (of_kind (codes "TABLE") actual.tables tables) (
        both_statements (of_kind (codes "VIEW") actual.views views) (
          both_statements (of_kind (codes "MATERIALIZED VIEW") actual.materialized_views mvs)
            (of_kind (codes "SOURCE") actual.sources sources)))

  -- One round of the loop over the schemas of a database.
  abbrev pub schema_round :
      Bytes → SchemaPrivilegeSnapshot → Bytes → Option NestedSchemaPrivilege → PrivilegeDiff
  schema_round db actual name none =
      both_statements
        (if is_empty actual.privileges
          then no_statements
          else revoke_all (codes "SCHEMA") name user_name)
        (object_kinds db name actual [] [] [] [])
  schema_round db actual name (some d) =
      both_statements (calculate_schema_diff (orders privileges) user_name actual d)
        (object_kinds db name actual d.tables d.views d.materialized_views d.sources)

  -- The loop over the schemas of a database, those that are there and those of the specification.
  unfoldable pub schema_statements :
      Bytes → List SchemaPrivilegeSnapshot → List NestedSchemaPrivilege → PrivilegeDiff
  unfolding reconcile_object_privileges calculate_schema_diff
  schema_statements db actual desired =
      collect_from
        (λ name.
          schema_round db (actual_schema name actual) name (find_named (λ s. s.name) name desired))
        (orders (schemas db) (set_of (map (λ s. s.name) actual ++ map (λ s. s.name) desired)))

  -- One round of the loop over the databases.
  abbrev pub database_round :
      DatabasePrivilegeSnapshot → Bytes → Option DatabasePrivilege → PrivilegeDiff
  database_round actual name none =
      if is_empty actual.privileges
      then no_statements
      else revoke_all (codes "DATABASE") name user_name
  database_round actual name (some d) =
      calculate_database_diff (orders privileges) user_name actual d

  -- The first loop: the privileges on databases.
  unfoldable pub database_statements :
      List DatabasePrivilegeSnapshot → List DatabasePrivilege → List Bytes → PrivilegeDiff
  unfolding calculate_database_diff
  database_statements actual desired names =
      collect_from
        (λ name.
          database_round (actual_database name actual) name (find_named (λ d. d.name) name desired))
        (orders databases names)
