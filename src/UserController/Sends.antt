-- ===== src/UserController/Sends.antt =====
-- What applyPrivileges sends (pkg/controller/risingwave_user_controller.go).
use risingwave_operator.Prelude.{◌≡◌, Bool, ◌⊎◌, Option, List, [], ◌∷◌, ◌++◌, map, Bytes, All}
use risingwave_operator.Rwclient.{GrantSpec}
use risingwave_operator.Rwclient.Diff.{PrivilegeDiff}
use risingwave_operator.UserController.{Server, Orders}
use risingwave_operator.UserController.Statements.{Stats, get_db_stats}
use risingwave_operator.UserController.Apply.{
  Conn, Progress, Failure, switch_failed, revoke_failed, grant_failed, Collected, aborted,
  collected, ApplyResult, fetch_failed, applied, statement_keys,
}

-- The statements that were executed.
abbrev pub sent : {S : Type 0} → Conn S → List Bytes
sent c = map (λ e. e.1) c.executed

-- The plan for some databases: in each the revokes, then the grants.
abbrev pub plan : Stats → List Bytes → List Bytes
plan stats [] = []
plan stats (name ∷ names) =
    ((get_db_stats name stats).to_revoke ++ (get_db_stats name stats).to_grant) ++ plan stats names

-- The failure is that of a statement, not that of a switch.
abbrev pub IsOrdinary : Failure → Type 0
IsOrdinary (switch_failed name) = ⊥
IsOrdinary (revoke_failed name statement) = Unit {0}
IsOrdinary (grant_failed name statement) = Unit {0}

-- From databases, those whose statements are sent, and the failures that are reported: a database is
-- passed over exactly if the failure to switch to it is reported.
pub data Reached : List Bytes → List Bytes → List Failure → Type 0 where
  done : Reached [] [] []
  reached :
      {names rest : List Bytes} {failures : List Failure} (name : Bytes) (here : List Failure)
      → All IsOrdinary here
      → Reached names rest failures
      → Reached (name ∷ names) (name ∷ rest) (here ++ failures)
  passed :
      {names rest : List Bytes} {failures : List Failure} (name : Bytes)
      → Reached names rest failures
      → Reached (name ∷ names) rest (switch_failed name ∷ failures)

module _ {S : Type 0} (server : Server S) where
  -- A round sends what is planned for its database, or nothing and reports the switch.
  abbrev Rounded : Bytes → PrivilegeDiff → Progress S → List Failure × Progress S → Type 0
  Rounded name d p r =
      ((sent r.1.conn ≡ sent p.conn ++ (d.to_revoke ++ d.to_grant)) × All IsOrdinary r.0)
      ⊎ ((sent r.1.conn ≡ sent p.conn) × (r.0 ≡ switch_failed name ∷ []))

  -- What the loop does.
  abbrev Executed : Stats → List Bytes → Progress S → List Failure × Progress S → Type 0
  Executed stats names p r =
      (rest : List Bytes) × Reached names rest r.0
      × (sent r.1.conn ≡ sent p.conn ++ plan stats rest)

  -- Collecting executes no statement of the plan.
  abbrev IsQuiet : Conn S → Collected S → Type 0
  IsQuiet c (aborted d) = d.executed ≡ c.executed
  IsQuiet c (collected stats p) = p.conn.executed ≡ c.executed

  module _ (orders : Orders) (user_name : Bytes) (grants : Option GrantSpec) (c : Conn S)
      (entries : List (Bytes × (List Bytes × Bool)) → List (Bytes × (List Bytes × Bool))) where
    -- The specification: after an error of a query nothing is sent, and else, behind what was sent before,
    -- the plan of the databases that are reached.
    abbrev pub Performs : Collected S → ApplyResult × Conn S → Type 0
    Performs (aborted d) r = (r.0 ≡ fetch_failed) × (sent r.1 ≡ sent c)
    Performs (collected stats p) r =
        (failures : List Failure) × (r.0 ≡ applied failures)
        × (rest : List Bytes) × Reached (statement_keys orders stats) rest failures
        × (sent r.1 ≡ sent c ++ plan stats rest)
