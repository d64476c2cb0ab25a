-- ===== src/Rwclient/Sql/Grants.antt =====
-- pkg/rwclient/sql_builder.go: the GRANT and REVOKE statements, and their groups by database.
use risingwave_operator.Prelude.{
  Bool, List, [], ◌∷◌, ◌++◌, map, Option, none, some, Bytes, codes, bytes_eq, is_empty,
  if◌then◌else◌,
}
use risingwave_operator.Rwclient.{
  GrantSpec, DatabasePrivilege, NestedSchemaPrivilege, NestedPrivilege,
}
use risingwave_operator.Rwclient.Sql.{quote_user, quote_identifier}

unfoldable pub build_grant_option : Bool → Bytes
build_grant_option with_grant = if with_grant then codes " WITH GRANT OPTION" else []

-- One privilege of normalizePrivileges.
unfoldable pub normalize_privilege : Bytes → Bytes
unfolding bytes_eq
normalize_privilege p = if bytes_eq p (codes "ALL PRIVILEGES") then codes "ALL" else p

-- strings.Join(l, ", ")
unfoldable pub join_comma : List Bytes → Bytes
join_comma [] = []
join_comma (p ∷ []) = p
join_comma (p ∷ q ∷ ps) = p ++ (codes ", " ++ join_comma (q ∷ ps))

unfoldable pub normalize_privileges : List Bytes → Bytes
unfolding normalize_privilege join_comma
normalize_privileges [] = codes "USAGE"
normalize_privileges (p ∷ ps) = join_comma (map normalize_privilege (p ∷ ps))

unfoldable pub build_grant_database_privilege : Bytes → DatabasePrivilege → Bytes
unfolding normalize_privileges quote_identifier quote_user build_grant_option
build_grant_database_privilege user_name priv =
    codes "GRANT "
    ++ (normalize_privileges priv.privileges
        ++ (codes " ON DATABASE "
            ++ (quote_identifier priv.name
                ++ (codes " TO "
                    ++ (quote_user user_name ++ build_grant_option priv.with_grant_option)))))

unfoldable pub build_revoke_database_privilege : Bytes → DatabasePrivilege → Bytes
unfolding normalize_privileges quote_identifier quote_user
build_revoke_database_privilege user_name priv =
    codes "REVOKE "
    ++ (normalize_privileges priv.privileges
        ++ (codes " ON DATABASE "
            ++ (quote_identifier priv.name ++ (codes " FROM " ++ quote_user user_name))))

unfoldable pub build_grant_nested_schema_privilege : Bytes → NestedSchemaPrivilege → Bytes
unfolding normalize_privileges quote_identifier quote_user build_grant_option
build_grant_nested_schema_privilege user_name priv =
    codes "GRANT "
    ++ (normalize_privileges priv.privileges
        ++ (codes " ON SCHEMA "
            ++ (quote_identifier priv.name
                ++ (codes " TO "
                    ++ (quote_user user_name ++ build_grant_option priv.with_grant_option)))))

unfoldable pub build_revoke_nested_schema_privilege : Bytes → NestedSchemaPrivilege → Bytes
unfolding normalize_privileges quote_identifier quote_user
build_revoke_nested_schema_privilege user_name priv =
    codes "REVOKE "
    ++ (normalize_privileges priv.privileges
        ++ (codes " ON SCHEMA "
            ++ (quote_identifier priv.name ++ (codes " FROM " ++ quote_user user_name))))

-- The kinds of objects in a schema, which buildGrantNested<Kind>Privilege is written out for.
pub data Kind : Type 0 where
  table view materialized_view source sink connection secret function : Kind

abbrev pub keyword : Kind → Bytes
keyword table = codes "TABLE"
keyword view = codes "VIEW"
keyword materialized_view = codes "MATERIALIZED VIEW"
keyword source = codes "SOURCE"
keyword sink = codes "SINK"
keyword connection = codes "CONNECTION"
keyword secret = codes "SECRET"
keyword function = codes "FUNCTION"

-- buildGrantNestedTablePrivilege and the seven functions after it: they differ in the keyword.
unfoldable pub build_grant_nested_privilege : Kind → Bytes → Bytes → Bytes → NestedPrivilege → Bytes
build_grant_nested_privilege kind user_name database schema priv =
    if bytes_eq priv.name (codes "*")
    then codes "GRANT "
      ++ (normalize_privileges priv.privileges
          ++ (codes " ON ALL "
              ++ (keyword kind
                  ++ (codes "S IN SCHEMA "
                      ++ (quote_identifier schema
                          ++ (codes " TO "
                              ++ (quote_user user_name
                                  ++ build_grant_option priv.with_grant_option)))))))
    else codes "GRANT "
      ++ (normalize_privileges priv.privileges
          ++ (codes " ON "
              ++ (keyword kind
                  ++ (codes " "
                      ++ (quote_identifier database
                          ++ (codes "."
                              ++ (quote_identifier schema
                                  ++ (codes "."
                                      ++ (quote_identifier priv.name
                                          ++ (codes " TO "
                                              ++ (quote_user user_name
                                                  ++ build_grant_option
                                                      priv.with_grant_option)))))))))))

-- One statement for each object of a kind.
unfoldable pub build_nested : Kind → Bytes → Bytes → Bytes → List NestedPrivilege → List Bytes
unfolding build_grant_nested_privilege
build_nested kind user_name database schema privs =
    map (build_grant_nested_privilege kind user_name database schema) privs

unfoldable pub build_schema_privileges_hierarchical :
    Bytes → Bytes → NestedSchemaPrivilege → List Bytes
unfolding build_grant_nested_schema_privilege build_nested
build_schema_privileges_hierarchical user_name database priv =
    (if is_empty priv.privileges
      then []
      else build_grant_nested_schema_privilege user_name priv ∷ [])
    ++ (build_nested table user_name database priv.name priv.tables
        ++ (build_nested view user_name database priv.name priv.views
            ++ (build_nested materialized_view user_name database priv.name priv.materialized_views
                ++ (build_nested source user_name database priv.name priv.sources
                    ++ (build_nested sink user_name database priv.name priv.sinks
                        ++ (build_nested connection user_name database priv.name priv.connections
                            ++ (build_nested secret user_name database priv.name priv.secrets
                                ++ build_nested function user_name database priv.name
                                    priv.functions)))))))

-- The statements of a list's elements, one element after the other.
unfoldable pub concat_map : {A B : Type 0} → (A → List B) → List A → List B
concat_map f [] = []
concat_map f (x ∷ xs) = f x ++ concat_map f xs

unfoldable pub build_database_privileges_hierarchical : Bytes → DatabasePrivilege → List Bytes
unfolding build_grant_database_privilege build_schema_privileges_hierarchical concat_map
build_database_privileges_hierarchical user_name priv =
    (if is_empty priv.privileges then [] else build_grant_database_privilege user_name priv ∷ [])
    ++ concat_map (build_schema_privileges_hierarchical user_name priv.name) priv.schemas

-- `spec` is the grants of the specification.
unfoldable pub build_grant_statements : Bytes → Option GrantSpec → List Bytes
unfolding build_database_privileges_hierarchical concat_map
build_grant_statements user_name none = []
build_grant_statements user_name (some grants) =
    concat_map (build_database_privileges_hierarchical user_name) grants.databases

pub record DatabaseGroupedStatements : Type 0 where
  pub database : Bytes
  pub statements : List Bytes

unfoldable pub group_nested :
    Kind → Bytes → Bytes → Bytes → List NestedPrivilege → List DatabaseGroupedStatements
unfolding build_grant_nested_privilege
group_nested kind user_name database schema [] = []
group_nested kind user_name database schema (priv ∷ privs) =
    record {
      database = database;
      statements = build_grant_nested_privilege kind user_name database schema priv ∷ [];
    }
    ∷ group_nested kind user_name database schema privs

unfoldable pub build_schema_privileges_hierarchical_grouped :
    Bytes → Bytes → NestedSchemaPrivilege → List DatabaseGroupedStatements
unfolding build_grant_nested_schema_privilege group_nested
build_schema_privileges_hierarchical_grouped user_name database priv =
    (if is_empty priv.privileges
      then []
      else record {
        database = database;
        statements = build_grant_nested_schema_privilege user_name priv ∷ [];
      }
        ∷ [])
    ++ (group_nested table user_name database priv.name priv.tables
        ++ (group_nested view user_name database priv.name priv.views
            ++ (group_nested materialized_view user_name database priv.name priv.materialized_views
                ++ (group_nested source user_name database priv.name priv.sources
                    ++ (group_nested sink user_name database priv.name priv.sinks
                        ++ (group_nested connection user_name database priv.name priv.connections
                            ++ (group_nested secret user_name database priv.name priv.secrets
                                ++ group_nested function user_name database priv.name
                                    priv.functions)))))))

unfoldable pub build_database_privileges_hierarchical_grouped :
    Bytes → DatabasePrivilege → List DatabaseGroupedStatements
unfolding build_grant_database_privilege build_schema_privileges_hierarchical_grouped concat_map
build_database_privileges_hierarchical_grouped user_name priv =
    (if is_empty priv.privileges
      then []
      else record { database = []; statements = build_grant_database_privilege user_name priv ∷ [] }
        ∷ [])
    ++ concat_map (build_schema_privileges_hierarchical_grouped user_name priv.name) priv.schemas

unfoldable pub build_grant_statements_by_database :
    Bytes → Option GrantSpec → List DatabaseGroupedStatements
unfolding build_database_privileges_hierarchical_grouped concat_map
build_grant_statements_by_database user_name none = []
build_grant_statements_by_database user_name (some grants) =
    concat_map (build_database_privileges_hierarchical_grouped user_name) grants.databases

unfoldable pub build_revoke_schema : Bytes → NestedSchemaPrivilege → List Bytes
unfolding build_revoke_nested_schema_privilege
build_revoke_schema user_name priv =
    if is_empty priv.privileges
    then []
    else build_revoke_nested_schema_privilege user_name priv ∷ []

unfoldable pub build_revoke_database : Bytes → DatabasePrivilege → List Bytes
unfolding build_revoke_database_privilege build_revoke_schema concat_map
build_revoke_database user_name priv =
    build_revoke_database_privilege user_name priv
    ∷ concat_map (build_revoke_schema user_name) priv.schemas

unfoldable pub build_revoke_statements : Bytes → Option GrantSpec → List Bytes
unfolding build_revoke_database concat_map
build_revoke_statements user_name none = []
build_revoke_statements user_name (some grants) =
    concat_map (build_revoke_database user_name) grants.databases
