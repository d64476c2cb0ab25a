-- ===== src/Rwclient/Diff/Samples.antt =====
-- The difference at an example, with maps that are visited in the order of their lists.
use mathlib.Core.List.Perm
use risingwave_operator.Prelude.{◌≡◌, ◌↔◌, false, List, [], ◌∷◌, Bytes, codes}
use risingwave_operator.Rwclient.{DatabasePrivilege}
use risingwave_operator.Rwclient.Diff.{DatabasePrivilegeSnapshot, IsOrder, calculate_database_diff}
use risingwave_operator.Rwclient.Diff.Settles.{Same, calculate_database_diff-empty_iff}

abbrev same_order : List Bytes → List Bytes
same_order l = l

same_order-IsOrder : IsOrder same_order
same_order-IsOrder l = Perm.refl l

abbrev connect_create : List Bytes
connect_create = codes "CONNECT" ∷ codes "CREATE" ∷ []

abbrev desired_db : DatabasePrivilege
desired_db = record {
  name = codes "dev";
  privileges = codes "CONNECT" ∷ [];
  with_grant_option = false;
  schemas = [];
}

abbrev actual_db : DatabasePrivilegeSnapshot
actual_db = record {
  name = codes "dev";
  privileges = connect_create;
  with_grant_option = false;
  schemas = [];
}

calculate_database_diff-empty_iff_example :
    (((calculate_database_diff same_order (codes "ann") actual_db desired_db).to_grant ≡ [])
      × ((calculate_database_diff same_order (codes "ann") actual_db desired_db).to_revoke ≡ []))
    ↔ Same desired_db.privileges actual_db.privileges
calculate_database_diff-empty_iff_example =
    calculate_database_diff-empty_iff same_order (codes "ann") actual_db desired_db
      same_order-IsOrder
