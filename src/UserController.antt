-- ===== src/UserController.antt =====
-- pkg/controller/risingwave_user_controller.go: the controller of users. The database server is an
-- interface: its state S is passed through every statement that the controller executes.
pub mod Statements
pub mod Apply
pub mod Sends
pub mod Reconcile
pub mod Steps
pub mod Life
pub mod Finished
pub mod Ready
pub mod Deletion
pub mod Samples
pub mod Runs
use risingwave_operator.Prelude.{
  Bool, true, false, Option, none, some, List, [], ◌∷◌, ◌++◌, Bytes, codes, ◌≡◌,
}
use risingwave_operator.Rwclient.Sql.{quote_identifier}
use risingwave_operator.Rwclient.Snapshot.Fetch.{Database}
use risingwave_operator.UserWebhook.Checks.{has_prefix}

-- Database: `exec` is ExecContext, with the message of its error, and `catalog` and `database` answer the
-- queries of the catalog and of the current database; `none` is an error.
pub record Server (S : Type 0) : Type 0 where
  pub exec : S → Bytes → Option Bytes × S
  pub catalog : S → Database
  pub names : S → Option (List (Option Bytes))
  pub database : S → Option Bytes

-- switchDatabase: the statement.
abbrev pub set_database_sql : Bytes → Bytes
set_database_sql name = codes "SET DATABASE TO " ++ quote_identifier name

-- The loops that range over maps, each of which may visit the keys in another order.
pub data Loop : Type 0 where
  databases switches execution privileges : Loop
  schemas : Bytes → Loop
  objects : Bytes → Bytes → Bytes → Loop

abbrev pub Orders : Type 0
Orders = Loop → List Bytes → List Bytes
