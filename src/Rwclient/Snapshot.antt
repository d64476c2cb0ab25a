-- ===== src/Rwclient/Snapshot.antt =====
-- pkg/rwclient/privilege_snapshot.go: reading a user's privileges from the catalog. The database is a
-- parameter: the answer of a query is an error (`none`) or the rows that the iteration delivers, where
-- `none` is a row that does not scan. An iteration that breaks off delivers the rows before; the code never
-- asks rows.Err(), so that it takes them for all rows.
pub mod Reports
pub mod Fetch
pub mod Samples
use risingwave_operator.Prelude.{
  Bool, true, false, ◌||◌, Option, none, some, List, [], ◌∷◌, ◌++◌, Bytes, bytes_eq, is_empty,
  if◌then◌else◌,
}
use risingwave_operator.Rwclient.Acl.{
  PrivilegeGrant, UserPrivileges, parse_acl, map_char_to_table_privilege,
  map_char_to_database_privilege, map_char_to_schema_privilege,
}
use risingwave_operator.Rwclient.Diff.{ObjectPrivilege, SchemaPrivilegeSnapshot}

-- A name, and an access control list that may be NULL.
pub record Row : Type 0 where
  pub name : Bytes
  pub acl : Option Bytes

-- The loop over an entry's privileges: those that the table knows, and whether one has a grant option.
unfoldable pub collect : (Bytes → Bytes) → List PrivilegeGrant → List Bytes × Bool
collect f [] = ([], false)
collect f (p ∷ ps) =
    let (privs, grant_option) = collect f ps in
    if is_empty (f p.privilege)
    then (privs, grant_option)
    else (f p.privilege ∷ privs, p.with_grant_option || grant_option)

abbrev pub object_of : Bytes → List Bytes × Bool → List ObjectPrivilege
object_of name ([], grant_option) = []
object_of name (p ∷ ps, grant_option) =
    record { name = name; privileges = p ∷ ps; with_grant_option = grant_option } ∷ []

abbrev schema_of : Bytes → List Bytes × Bool → List SchemaPrivilegeSnapshot
schema_of name ([], grant_option) = []
schema_of name (p ∷ ps, grant_option) =
    record {
      name = name;
      privileges = p ∷ ps;
      with_grant_option = grant_option;
      tables = [];
      views = [];
      materialized_views = [];
      sources = [];
    }
    ∷ []

-- The loop over the entries of one list: those of the user.
unfoldable pub of_user {ℓ} :
    {A : Type ℓ}
    → (List Bytes × Bool → List A)
    → (Bytes → Bytes)
    → Bytes
    → List UserPrivileges
    → List A
unfolding collect
of_user g f user_name [] = []
of_user g f user_name (up ∷ ups) =
    let rest = of_user g f user_name ups in
    if bytes_eq up.user user_name then g (collect f up.privileges) ++ rest else rest

abbrev pub of_acl {ℓ} : {A : Type ℓ} → (List UserPrivileges → List A) → Option Bytes → List A
of_acl g none = []
of_acl g (some acl) = g (parse_acl acl)

abbrev pub before {ℓ} : {A : Type ℓ} → List A → Option (List A) → Option (List A)
before xs none = none
before xs (some ys) = some (xs ++ ys)

-- The loop over the rows.
unfoldable pub read_rows {ℓ} : {A : Type ℓ} → (Row → List A) → List (Option Row) → Option (List A)
read_rows g [] = some []
read_rows g (none ∷ rows) = none
read_rows g (some row ∷ rows) = before (g row) (read_rows g rows)

abbrev pub queried {ℓ κ} :
    {A : Type ℓ} {B : Type κ} → (List A → Option B) → Option (List A) → Option B
queried f none = none
queried f (some rows) = f rows

unfoldable pub object_row : Bytes → Row → List ObjectPrivilege
unfolding of_user parse_acl map_char_to_table_privilege
object_row user_name row =
    of_acl (of_user (object_of row.name) map_char_to_table_privilege user_name) row.acl

unfoldable pub fetch_object_privs :
    Option (List (Option Row)) → Bytes → Option (List ObjectPrivilege)
unfolding read_rows object_row
fetch_object_privs answer user_name = queried (read_rows (object_row user_name)) answer

unfoldable pub schema_row : Bytes → Row → List SchemaPrivilegeSnapshot
unfolding of_user parse_acl map_char_to_schema_privilege
schema_row user_name row =
    of_acl (of_user (schema_of row.name) map_char_to_schema_privilege user_name) row.acl

unfoldable pub fetch_schema_privs :
    Option (List (Option Row)) → Bytes → Option (List SchemaPrivilegeSnapshot)
unfolding read_rows schema_row
fetch_schema_privs answer user_name = queried (read_rows (schema_row user_name)) answer

-- results[name] = v, for one entry of the user after the other; privileges may be none.
abbrev pub database_of : Bytes → List Bytes × Bool → List (Bytes × (List Bytes × Bool))
database_of name v = (name, v) ∷ []

unfoldable pub put_result :
    Bytes
    → List Bytes × Bool
    → List (Bytes × (List Bytes × Bool))
    → List (Bytes × (List Bytes × Bool))
put_result k v [] = (k, v) ∷ []
put_result k v ((j, w) ∷ m) =
    let rest = put_result k v m in if bytes_eq j k then (k, v) ∷ m else (j, w) ∷ rest

unfoldable pub put_results :
    List (Bytes × (List Bytes × Bool))
    → List (Bytes × (List Bytes × Bool))
    → List (Bytes × (List Bytes × Bool))
unfolding put_result
put_results [] m = m
put_results ((k, v) ∷ writes) m = put_results writes (put_result k v m)

unfoldable pub database_row : Bytes → Row → List (Bytes × (List Bytes × Bool))
unfolding of_user parse_acl map_char_to_database_privilege
database_row user_name row =
    of_acl (of_user (database_of row.name) map_char_to_database_privilege user_name) row.acl

abbrev pub written :
    Option (List (Bytes × (List Bytes × Bool))) → Option (List (Bytes × (List Bytes × Bool)))
written none = none
written (some writes) = some (put_results writes [])

unfoldable pub fetch_database_privileges :
    Option (List (Option Row)) → Bytes → Option (List (Bytes × (List Bytes × Bool)))
unfolding read_rows database_row put_results
fetch_database_privileges answer user_name =
    queried (λ rows. written (read_rows (database_row user_name) rows)) answer
