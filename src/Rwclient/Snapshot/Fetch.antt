-- ===== src/Rwclient/Snapshot/Fetch.antt =====
-- pkg/rwclient/privilege_snapshot.go: FetchSchemaPrivileges and FetchUserPrivilegeSnapshot, which put the
-- answers of several queries together.
use risingwave_operator.Prelude.{◌≡◌, Bool, Option, none, some, List, [], ◌∷◌, map, Bytes, codes}
use risingwave_operator.Rwclient.Diff.{
  ObjectPrivilege, SchemaPrivilegeSnapshot, DatabasePrivilegeSnapshot,
}
use risingwave_operator.Rwclient.Snapshot.{
  Row, fetch_object_privs, fetch_schema_privs, fetch_database_privileges,
}

-- DatabaseAccessor: the answers of the catalog's queries. Those about objects have the catalog's table and
-- the name of the schema.
pub record Database : Type 0 where
  pub schemas : Option (List (Option Row))
  pub objects : Bytes → Bytes → Option (List (Option Row))
  pub databases : Option (List (Option Row))

pub record UserPrivilegeSnapshot : Type 0 where
  pub user_name : Bytes
  pub databases : List DatabasePrivilegeSnapshot

abbrev pub objects_of :
    Database → Bytes → SchemaPrivilegeSnapshot → Bytes → Option (List ObjectPrivilege)
objects_of db table s user_name = fetch_object_privs (db.objects table s.name) user_name

-- The steps behind a result, or the early return of an error.
abbrev chained {ℓ κ} : {A : Type ℓ} {B : Type κ} → (A → Option B) → Option A → Option B
chained f none = none
chained f (some x) = f x

module _ (db : Database) (user_name : Bytes) (s : SchemaPrivilegeSnapshot) where
  abbrev filled_with :
      List ObjectPrivilege
      → List ObjectPrivilege
      → List ObjectPrivilege
      → List ObjectPrivilege
      → SchemaPrivilegeSnapshot
  filled_with tables views mvs sources = record s {
    tables = tables;
    views = views;
    materialized_views = mvs;
    sources = sources;
  }

  abbrev fetch_sources :
      List ObjectPrivilege
      → List ObjectPrivilege
      → List ObjectPrivilege
      → Option SchemaPrivilegeSnapshot
  fetch_sources tables views mvs =
      chained (λ sources. some (filled_with tables views mvs sources))
        (objects_of db (codes "rw_sources") s user_name)

  abbrev fetch_mvs : List ObjectPrivilege → List ObjectPrivilege → Option SchemaPrivilegeSnapshot
  fetch_mvs tables views =
      chained (fetch_sources tables views)
        (objects_of db (codes "rw_materialized_views") s user_name)

  abbrev fetch_views : List ObjectPrivilege → Option SchemaPrivilegeSnapshot
  fetch_views tables = chained (fetch_mvs tables) (objects_of db (codes "rw_views") s user_name)

  -- One round of the loop over the schemas.
  unfoldable pub fill_schema : Option SchemaPrivilegeSnapshot
  fill_schema = chained fetch_views (objects_of db (codes "rw_tables") s user_name)

unfoldable pub fill_schemas :
    Database → Bytes → List SchemaPrivilegeSnapshot → Option (List SchemaPrivilegeSnapshot)
unfolding fill_schema
fill_schemas db user_name [] = some []
fill_schemas db user_name (s ∷ schemas) =
    let rest = fill_schemas db user_name schemas in
    chained (λ t. chained (λ ts. some (t ∷ ts)) rest) (fill_schema db user_name s)

unfoldable pub fetch_schema_privileges : Database → Bytes → Option (List SchemaPrivilegeSnapshot)
unfolding fetch_schema_privs fill_schemas
fetch_schema_privileges db user_name =
    chained (fill_schemas db user_name) (fetch_schema_privs db.schemas user_name)

abbrev pub database_snapshot : Bytes × (List Bytes × Bool) → DatabasePrivilegeSnapshot
database_snapshot (name, privs) = record {
  name = name;
  privileges = privs.0;
  with_grant_option = privs.1;
  schemas = [];
}

-- The loop ranges over a map; `order` gives its entries in some order.
unfoldable pub fetch_user_privilege_snapshot :
    (List (Bytes × (List Bytes × Bool)) → List (Bytes × (List Bytes × Bool)))
    → Database
    → Bytes
    → Option UserPrivilegeSnapshot
unfolding fetch_database_privileges
fetch_user_privilege_snapshot order db user_name =
    chained
      (λ privs.
        some (record { user_name = user_name; databases = map database_snapshot (order privs) }))
      (fetch_database_privileges db.databases user_name)

-- The lists of a schema are what its four queries answer.
abbrev pub IsFilled : Database → Bytes → SchemaPrivilegeSnapshot → Type 0
IsFilled db user_name s =
    (objects_of db (codes "rw_tables") s user_name ≡ some s.tables)
    × (objects_of db (codes "rw_views") s user_name ≡ some s.views)
    × (objects_of db (codes "rw_materialized_views") s user_name ≡ some s.materialized_views)
    × (objects_of db (codes "rw_sources") s user_name ≡ some s.sources)

-- A predicate on what a result holds.
abbrev OnSome {ℓ} : {A : Type ℓ} → (A → Type 0) → Option A → Type 0
OnSome P none = Unit {0}
OnSome P (some x) = P x
