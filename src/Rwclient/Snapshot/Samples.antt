-- ===== src/Rwclient/Snapshot/Samples.antt =====
-- Runs of the functions that read the catalog, at concrete answers.
use risingwave_operator.Prelude.{
  ◌≡◌, refl, true, false, Option, none, some, List, [], ◌∷◌, Bytes, bytes_eq, codes, if◌then◌else◌,
}
use risingwave_operator.Rwclient.Acl.Trip.{Entry}
use risingwave_operator.Rwclient.Diff.{ObjectPrivilege, SchemaPrivilegeSnapshot}
use risingwave_operator.Rwclient.Snapshot.{Row, fetch_object_privs}
use risingwave_operator.Rwclient.Snapshot.Fetch.{Database, fetch_schema_privileges}
use risingwave_operator.Rwclient.Snapshot.Reports.{
  reports, catalog, grants_in, fetch_object_privs-reports,
}

-- A table with two entries, one of them of the user.
abbrev orders_entries : List (Bytes × List Entry)
orders_entries =
    (
      codes "orders",
      record {
        grantee = codes "ann";
        privileges = (b'r', true) ∷ (b'a', false) ∷ [];
        grantor = codes "root";
      }
          ∷ record {
            grantee = codes "bob";
            privileges = (b'w', false) ∷ [];
            grantor = codes "root";
          }
          ∷ [],
    )
    ∷ []

fetch_object_privs-reports_example :
    (l : List ObjectPrivilege) × (fetch_object_privs (some (catalog orders_entries)) (codes "ann")
      ≡ some l)
    × (reports (codes "orders") (codes "SELECT") l
        ≡ grants_in (codes "ann") (codes "orders") (codes "SELECT") orders_entries)
fetch_object_privs-reports_example =
    fetch_object_privs-reports (codes "ann") (codes "orders") (codes "SELECT") orders_entries refl

-- One schema with one table; another row has no list, and the other catalog tables are empty.
abbrev rows_of : Bytes → Option (List (Option Row))
rows_of table =
    if bytes_eq table (codes "rw_tables")
    then some (some (record { name = codes "orders"; acl = some (codes "ann=r/root") }) ∷ [])
    else some []

abbrev public_database : Database
public_database = record {
  schemas = some (
      some (record { name = codes "public"; acl = some (codes "ann=U/root") })
      ∷ some (record { name = codes "hidden"; acl = none })
      ∷ []);
  objects = λ table schema. rows_of table;
  databases = some [];
}

abbrev public_schema : SchemaPrivilegeSnapshot
public_schema = record {
  name = codes "public";
  privileges = codes "USAGE" ∷ [];
  with_grant_option = false;
  tables =
      record { name = codes "orders"; privileges = codes "SELECT" ∷ []; with_grant_option = false }
      ∷ [];
  views = [];
  materialized_views = [];
  sources = [];
}

-- A query about objects that fails.
one_fails :
    fetch_schema_privileges
      (record public_database { objects = λ table schema. none })
      (codes "ann")
    ≡ none
unfolding fetch_schema_privileges fetch_object_privs bytes_eq
one_fails = refl
