-- ===== src/UserController/Apply.antt =====
-- applyPrivileges: collecting the statements database by database, and executing them.
use risingwave_operator.Prelude.{
  Bool, true, false, ◌&&◌, ◌||◌, not, Option, none, some, or_default, is_none, List, [], ◌∷◌, ◌++◌,
  map, Bytes, codes, bytes_eq, if◌then◌else◌, is_empty,
}
use risingwave_operator.EnvSort.{index_in}
use risingwave_operator.Rwclient.{NestedSchemaPrivilege, DatabasePrivilege, GrantSpec}
use risingwave_operator.Rwclient.Diff.{SchemaPrivilegeSnapshot, PrivilegeDiff, set_of}
use risingwave_operator.Rwclient.Snapshot.Fetch.{
  UserPrivilegeSnapshot, fetch_schema_privileges, fetch_user_privilege_snapshot,
}
use risingwave_operator.UserController.{Server, set_database_sql, Orders, switches, execution}
use risingwave_operator.UserController.Statements.{
  Stats, find_named, add_statements, get_db_stats, schema_statements, database_statements,
  spec_databases,
}

-- The connection, with the history of the statements that are executed, each with the current database
-- of its session.
pub record Conn (S : Type 0) : Type 0 where
  pub state : S
  pub executed : List (Option Bytes × Bytes)

-- The connection and the variable currentDB.
pub record Progress (S : Type 0) : Type 0 where
  pub current : Bytes
  pub conn : Conn S

pub data Failure : Type 0 where
  switch_failed : Bytes → Failure
  revoke_failed grant_failed : Bytes → Bytes → Failure

-- The first part: an error of a query, or what is collected.
pub data Collected (S : Type 0) : Type 0 where
  aborted : Conn S → Collected S
  collected : Stats → Progress S → Collected S

pub data ApplyResult : Type 0 where
  fetch_failed : ApplyResult
  applied : List Failure → ApplyResult

-- getAllDatabases, behind its query.
unfoldable pub get_all_databases : List (Option Bytes) → Option (List Bytes)
get_all_databases [] = some []
get_all_databases (none ∷ rows) = none
get_all_databases (some name ∷ rows) = elim (get_all_databases rows) [
  | none ↦ none
  | some names ↦ some (name ∷ names)
]

-- strings.Contains
abbrev pub contains_text : Bytes → Bytes → Bool
contains_text s part = not (is_none (index_in s part))

-- What the loop over the revokes and the loop over the grants make of an error.
unfoldable pub revoke_report : Bytes → Bytes → Option Bytes → List Failure
unfolding index_in
revoke_report db statement none = []
revoke_report db statement (some message) =
    if contains_text message (codes "not found") || contains_text message (codes "does not exist")
    then []
    else revoke_failed db statement ∷ []

unfoldable pub grant_report : Bytes → Bytes → Option Bytes → List Failure
grant_report db statement none = []
grant_report db statement (some message) = grant_failed db statement ∷ []

abbrev pub desired_schemas : Option DatabasePrivilege → List NestedSchemaPrivilege
desired_schemas none = []
desired_schemas (some d) = d.schemas

abbrev pub names_of : Option (List (Option Bytes)) → Option (List Bytes)
names_of none = none
names_of (some rows) = get_all_databases rows

-- The databases with statements, in the order of the last loop.
abbrev pub statement_keys : Orders → Stats → List Bytes
statement_keys orders stats = orders execution (map (λ e. e.0) stats)

module _ {S : Type 0} (server : Server S) where
  unfoldable pub execute : Bytes → Conn S → Option Bytes × Conn S
  execute statement c =
      let r = server.exec c.state statement in
      (
        r.0,
        record { state = r.1; executed = c.executed ++ (server.database c.state, statement) ∷ [] },
      )

  unfoldable pub run_statements :
      (Bytes → Option Bytes → List Failure) → List Bytes → Conn S → List Failure × Conn S
  unfolding execute
  run_statements report [] c = ([], c)
  run_statements report (statement ∷ statements) c =
      let r = execute statement c in
      let rest = run_statements report statements r.1 in (report statement r.0 ++ rest.0, rest.1)

  -- switchDatabase
  unfoldable pub switch_database : Bytes → Conn S → Option Bytes × Conn S
  switch_database name c =
      let r = server.exec c.state (set_database_sql name) in (r.0, record c { state = r.1 })

  abbrev pub after_set : Bytes → Bytes → Option Bytes × Conn S → Bool × Progress S
  after_set current name (none, c) = (true, record { current = name; conn = c })
  after_set current name (some e, c) = (false, record { current = current; conn = c })

  -- The switch, if another database is current.
  unfoldable pub move_to : Bytes → Progress S → Bool × Progress S
  unfolding switch_database
  move_to name p =
      if bytes_eq p.current name
      then (true, p)
      else after_set p.current name (switch_database name p.conn)

  module _ (orders : Orders) (user_name : Bytes) (desired : List DatabasePrivilege) where
    abbrev pub at_database :
        Bytes
        → Stats
        → (Progress S → Stats → Collected S)
        → Progress S
        → Option (List SchemaPrivilegeSnapshot)
        → Collected S
    at_database name stats loop p none = aborted p.conn
    at_database name stats loop p (some actual) = loop p (
        add_statements name
          (schema_statements orders user_name name actual
            (desired_schemas (find_named (λ d. d.name) name desired)))
          stats)

    abbrev pub after_move :
        Bytes → Stats → (Progress S → Stats → Collected S) → Bool × Progress S → Collected S
    after_move name stats loop (false, p) = loop p stats
    after_move name stats loop (true, p) =
        at_database name stats loop p
          (fetch_schema_privileges (server.catalog p.conn.state) user_name)

    -- The loop over the databases that collects what concerns their schemas.
    unfoldable pub schema_loop : List Bytes → Progress S → Stats → Collected S
    unfolding move_to fetch_schema_privileges add_statements schema_statements
    schema_loop [] p stats = collected stats p
    schema_loop (name ∷ names) p stats =
        after_move name stats (λ q t. schema_loop names q t) (move_to name p)

  -- The statements of one database: the revokes first.
  unfoldable pub run_database : Bytes → PrivilegeDiff → Conn S → List Failure × Conn S
  unfolding run_statements revoke_report grant_report
  run_database name d c =
      let r = run_statements (revoke_report name) d.to_revoke c in
      let g = run_statements (grant_report name) d.to_grant r.1 in (r.0 ++ g.0, g.1)

  abbrev pub after_switch : Bytes → PrivilegeDiff → Bool × Progress S → List Failure × Progress S
  after_switch name d (false, p) = (switch_failed name ∷ [], p)
  after_switch name d (true, p) =
      let r = run_database name d p.conn in (r.0, record p { conn = r.1 })

  -- One round of the loop that executes.
  unfoldable pub run_round : Bytes → PrivilegeDiff → Progress S → List Failure × Progress S
  unfolding move_to run_database
  run_round name d p =
      if is_empty d.to_grant && is_empty d.to_revoke
      then ([], p)
      else after_switch name d (move_to name p)

  unfoldable pub execute_all : Stats → List Bytes → Progress S → List Failure × Progress S
  unfolding run_round get_db_stats
  execute_all stats [] p = ([], p)
  execute_all stats (name ∷ names) p =
      let r = run_round name (get_db_stats name stats) p in
      let rest = execute_all stats names r.1 in (r.0 ++ rest.0, rest.1)

  -- Switching back to the original database.
  unfoldable pub switch_back : Bytes → Progress S → Conn S
  unfolding switch_database
  switch_back original p =
      if bytes_eq original p.current then p.conn else (switch_database original p.conn).1

  abbrev pub original_of : Conn S → Bytes
  original_of c = or_default (server.database c.state) (codes "dev")

  module _ (orders : Orders) (user_name : Bytes) (grants : Option GrantSpec) (c : Conn S) where
    abbrev pub collect_known : UserPrivilegeSnapshot → List Bytes → Collected S
    collect_known actual names =
        let desired = spec_databases grants in
        let relevant = set_of (names ++ map (λ d. d.name) desired) in
        schema_loop orders user_name desired (orders switches relevant)
          (record { current = original_of c; conn = c })
          (add_statements (original_of c)
            (database_statements orders user_name actual.databases desired relevant) [])

    abbrev pub collect_with : Option UserPrivilegeSnapshot → Option (List Bytes) → Collected S
    collect_with none names = aborted c
    collect_with (some actual) none = aborted c
    collect_with (some actual) (some names) = collect_known actual names

    -- The statements per database. `entries` is the order of the databases in the snapshot.
    unfoldable pub collect_all :
        (List (Bytes × (List Bytes × Bool)) → List (Bytes × (List Bytes × Bool))) → Collected S
    unfolding fetch_user_privilege_snapshot get_all_databases schema_loop add_statements
        database_statements
    collect_all entries =
        collect_with (fetch_user_privilege_snapshot entries (server.catalog c.state) user_name)
          (names_of (server.names c.state))

    abbrev pub run_collected : Collected S → ApplyResult × Conn S
    run_collected (aborted d) = (fetch_failed, d)
    run_collected (collected stats p) =
        let r = execute_all stats (statement_keys orders stats) p in
        (applied r.0, switch_back (original_of c) r.1)

    unfoldable pub apply_privileges :
        (List (Bytes × (List Bytes × Bool)) → List (Bytes × (List Bytes × Bool)))
        → ApplyResult × Conn S
    unfolding collect_all execute_all switch_back
    apply_privileges entries = run_collected (collect_all entries)
