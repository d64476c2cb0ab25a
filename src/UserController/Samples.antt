-- ===== src/UserController/Samples.antt =====
-- A server with two databases, and runs of the controller on it.
use risingwave_operator.Prelude.{
  ◌≡◌, refl, Bool, true, false, ◌==◌, Option, none, some, List, [], ◌∷◌, drop, Bytes, codes,
  bytes_eq, if◌then◌else◌,
}
use risingwave_operator.Rwclient.{GrantSpec}
use risingwave_operator.Rwclient.Sql.{quote_mark, quote_identifier, quote_user}
use risingwave_operator.Rwclient.Sql.Grants.{join_comma}
use risingwave_operator.Rwclient.Diff.{set_of, missing}
use risingwave_operator.Rwclient.Snapshot.{Row, fetch_object_privs}
use risingwave_operator.Rwclient.Snapshot.Fetch.{Database}
use risingwave_operator.UserWebhook.Checks.{has_prefix}
use risingwave_operator.UserController.{Server, Loop}
use risingwave_operator.UserController.Apply.{Conn, applied, apply_privileges}

-- Reading a quoted name; `after` is set behind a quote.
unfoldable pub unquote : (after : Bool) → Bytes → Bytes
unquote after [] = []
unquote false (c ∷ s) =
    let rest = unquote false s in
    let stop = unquote true s in if c == quote_mark then stop else c ∷ rest
unquote true (c ∷ s) =
    let rest = unquote false s in if c == quote_mark then quote_mark ∷ rest else []

-- SET DATABASE of a quoted name is obeyed, of anything else it is refused.
abbrev pub exec_simple : Bytes → Bytes → Option Bytes × Bytes
exec_simple s statement =
    if has_prefix statement (codes "SET ")
    then (if has_prefix (drop 16 statement) (quote_mark ∷ [])
        then (none, unquote false (drop 17 statement))
        else (some (codes "syntax error"), s))
    else (none, s)

abbrev pub row_of : Bytes → Bytes → Option Row
row_of name acl = some (record { name = name; acl = some acl })

-- The user may connect to dev, and use a schema of sales.
abbrev pub catalog_simple : Bytes → Database
catalog_simple s = record {
  schemas =
      if bytes_eq s (codes "sales")
      then some (row_of (codes "old") (codes "ann=U/root") ∷ [])
      else some [];
  objects = λ table schema. some [];
  databases = some (row_of (codes "dev") (codes "ann=c/root") ∷ []);
}

abbrev pub simple_server : Server Bytes
simple_server = record {
  exec = exec_simple;
  catalog = catalog_simple;
  names = λ s. some (some (codes "dev") ∷ some (codes "sales") ∷ []);
  database = λ s. some s;
}

abbrev pub in_order : Loop → List Bytes → List Bytes
in_order loop names = names

abbrev pub id_entries : List (Bytes × (List Bytes × Bool)) → List (Bytes × (List Bytes × Bool))
id_entries l = l

-- The specification has CONNECT on sales, and on a schema of it USAGE.
abbrev pub sales_grants : Option GrantSpec
sales_grants = some (record {
  databases =
      record {
        name = codes "sales";
        privileges = codes "CONNECT" ∷ [];
        with_grant_option = false;
        schemas =
            record {
              name = codes "new";
              privileges = codes "USAGE" ∷ [];
              with_grant_option = false;
              tables = [];
              views = [];
              materialized_views = [];
              sources = [];
              sinks = [];
              connections = [];
              secrets = [];
              functions = [];
            }
            ∷ [];
      }
      ∷ [];
})

abbrev in_dev : Conn Bytes
in_dev = record { state = codes "dev"; executed = [] }

abbrev all_done : Conn Bytes
all_done = record {
  state = codes "dev";
  executed =
      (some (codes "dev"), codes "REVOKE ALL ON DATABASE \"dev\" FROM \"ann\"")
      ∷ (some (codes "dev"), codes "GRANT CONNECT ON DATABASE \"sales\" TO \"ann\"")
      ∷ (some (codes "sales"), codes "REVOKE ALL ON SCHEMA \"old\" FROM \"ann\"")
      ∷ (some (codes "sales"), codes "GRANT USAGE ON SCHEMA \"new\" TO \"ann\"")
      ∷ [];
}

sales_applied :
    apply_privileges simple_server in_order (codes "ann") sales_grants in_dev id_entries
    ≡ (applied [], all_done)
unfolding apply_privileges set_of bytes_eq quote_identifier unquote fetch_object_privs missing
    quote_user join_comma
sales_applied = refl
