-- ===== src/Rwclient/Diff.antt =====
-- pkg/rwclient/privilege_diff.go, and the snapshots of privilege_snapshot.go that it compares with the
-- specification. A Go map that is used as a set is the list of its distinct keys; the order in which a
-- `range` loop visits the keys is the parameter `order`.
pub mod Settles
pub mod Samples
use mathlib.Core.List.{Perm}
use risingwave_operator.Prelude.{
  ℕ, Bool, true, false, ◌&&◌, ◌||◌, not, List, [], ◌∷◌, ◌++◌, Option, none, some, Bytes, codes,
  bytes_eq, exists_test, keep, ltb, ◌==◌, is_empty, sort_by, if◌then◌else◌,
}
use risingwave_operator.Rwclient.{DatabasePrivilege, NestedSchemaPrivilege}
use risingwave_operator.Rwclient.Sql.{quote_user, quote_identifier}
use risingwave_operator.Rwclient.Sql.Grants.{join_comma}

pub record ObjectPrivilege : Type 0 where
  pub name : Bytes
  pub privileges : List Bytes
  pub with_grant_option : Bool

pub record SchemaPrivilegeSnapshot : Type 0 where
  pub name : Bytes
  pub privileges : List Bytes
  pub with_grant_option : Bool
  pub tables : List ObjectPrivilege
  pub views : List ObjectPrivilege
  pub materialized_views : List ObjectPrivilege
  pub sources : List ObjectPrivilege

pub record DatabasePrivilegeSnapshot : Type 0 where
  pub name : Bytes
  pub privileges : List Bytes
  pub with_grant_option : Bool
  pub schemas : List SchemaPrivilegeSnapshot

pub record PrivilegeDiff : Type 0 where
  pub to_grant : List Bytes
  pub to_revoke : List Bytes

-- `m[p]` of a map from texts to Booleans that holds `true` only.
abbrev pub is_in : Bytes → List Bytes → Bool
is_in p = exists_test (λ y. bytes_eq y p)

-- The keys of the map that the loop over a list fills.
unfoldable pub set_of : List Bytes → List Bytes
set_of [] = []
set_of (p ∷ ps) = let rest = set_of ps in if is_in p rest then rest else p ∷ rest

-- A `range` loop visits every key once, in some order.
abbrev pub IsOrder : (List Bytes → List Bytes) → Type 0
IsOrder order = (l : List Bytes) → Perm (order l) l

-- The loop that collects what one map has and the other has not.
unfoldable pub missing : (List Bytes → List Bytes) → List Bytes → List Bytes → List Bytes
missing order wanted present = keep (λ p. not (is_in p (set_of present))) (order (set_of wanted))

-- `fmt.Sprintf` of a statement, if there are privileges to name.
abbrev pub statement : Bytes → Bytes → Bytes → Bytes → List Bytes → List Bytes
statement verb target direction user_name [] = []
statement verb target direction user_name (p ∷ ps) =
    (verb
      ++ (join_comma (p ∷ ps) ++ (codes " " ++ (target ++ (direction ++ quote_user user_name)))))
    ∷ []

unfoldable pub calculate_database_diff :
    (List Bytes → List Bytes)
    → Bytes
    → DatabasePrivilegeSnapshot
    → DatabasePrivilege
    → PrivilegeDiff
calculate_database_diff order user_name actual desired =
    let target = codes "ON DATABASE " ++ quote_identifier desired.name in
    record {
      to_grant =
          statement (codes "GRANT ") target (codes " TO ") user_name
            (missing order desired.privileges actual.privileges);
      to_revoke =
          statement (codes "REVOKE ") target (codes " FROM ") user_name
            (missing order actual.privileges desired.privileges);
    }

unfoldable pub calculate_schema_diff :
    (List Bytes → List Bytes)
    → Bytes
    → SchemaPrivilegeSnapshot
    → NestedSchemaPrivilege
    → PrivilegeDiff
calculate_schema_diff order user_name actual desired =
    let target = codes "ON SCHEMA " ++ quote_identifier desired.name in
    record {
      to_grant =
          statement (codes "GRANT ") target (codes " TO ") user_name
            (missing order desired.privileges actual.privileges);
      to_revoke =
          statement (codes "REVOKE ") target (codes " FROM ") user_name
            (missing order actual.privileges desired.privileges);
    }

-- buildOnClause
unfoldable pub build_on_clause : Bytes → Bytes → Bytes → Bytes
build_on_clause schema_name object_type target_name =
    if bytes_eq target_name (codes "*")
    then codes "ON ALL "
      ++ ((if bytes_eq object_type (codes "MATERIALIZED VIEW")
            then codes "MATERIALIZED VIEWS"
            else object_type ++ codes "S")
          ++ (codes " IN SCHEMA " ++ quote_identifier schema_name))
    else codes "ON " ++ (object_type ++ (codes " " ++ quote_identifier target_name))

-- The order of Go's `<` on strings, and sort.Strings.
unfoldable pub less_than : Bytes → Bytes → Bool
less_than s [] = false
less_than [] (d ∷ t) = true
less_than (c ∷ s) (d ∷ t) = ltb c d || (c == d && less_than s t)

abbrev pub sort_strings : List Bytes → List Bytes
sort_strings = sort_by less_than

unfoldable pub calculate_object_diff :
    (List Bytes → List Bytes)
    → Bytes
    → Bytes
    → Bytes
    → ObjectPrivilege
    → Bytes
    → List Bytes
    → PrivilegeDiff
calculate_object_diff order user_name schema_name object_type actual desired_name desired_privs =
    let target = build_on_clause schema_name object_type desired_name in
    record {
      to_grant =
          statement (codes "GRANT ") target (codes " TO ") user_name
            (sort_strings (missing order desired_privs actual.privileges));
      to_revoke =
          statement (codes "REVOKE ") target (codes " FROM ") user_name
            (sort_strings (missing order actual.privileges desired_privs));
    }
