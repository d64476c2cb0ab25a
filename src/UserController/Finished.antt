-- ===== src/UserController/Finished.antt =====
-- The steps of reconcileNormal behind the password (pkg/controller/risingwave_user_controller.go).
use mathlib.Core.List.{append-nil}
use risingwave_operator.Prelude.{
  ◌≡◌, ◌≢◌, ◌∙◌, refl, sym, ap, Bool, true, false, Bool-cases, inl, inr, Option, none, some, List,
  [], ◌∷◌, ◌++◌, Bytes, codes, if◌then◌else◌,
}
use risingwave_operator.Rwclient.Sql.{get_user_name, build_alter_user_permissions_sql}
use risingwave_operator.UserController.Apply.{
  Conn, ApplyResult, fetch_failed, applied, apply_privileges,
}
use risingwave_operator.UserController.Reconcile.{
  Managed, Event, ran, ran_privileges, wrote_secret, sent_status, World, Reconciler, UserStatus,
  SecretAnswer, found, missing, failed, Exit, finished, errored, get_secret_name,
  uses_connection_ref, set_phase,
}
use risingwave_operator.UserController.Steps.{
  log, on_status, run, send_status, create_statement, mark_created, after_creation,
  ensure_user_exists, is_user_already_exists_error, run_unless_empty, reconcile_permissions,
  succeeded, is_applied, secret_data, write_secret, secret_written, create_or_update_secret,
  apply_user_privileges,
}
use risingwave_operator.UserController.Life.{
  exit_with, fail, has_password, ready_status, after_secret, secret_step, synced, after_privileges,
  after_permissions, after_user,
}

-- The events of the steps that may send nothing.
abbrev pub events_of : Bytes → List Event
events_of [] = []
events_of (c ∷ statement) = ran (c ∷ statement) ∷ []

abbrev pub permission_events : Managed → List Event
permission_events m =
    events_of
      (build_alter_user_permissions_sql (get_user_name m.object.user) m.object.user.permissions)

module _ {S : Type 0} (world : World S) where
  abbrev pub secret_events : Bytes → Reconciler S → List Event
  secret_events password r =
      if has_password r.user
      then wrote_secret (get_secret_name r.user r.cluster) (secret_data world r password) ∷ []
      else []

  pub exit_with-finished :
      (exit : Exit) (b : Bool) (r d : Reconciler S)
      → exit_with world exit (b, r) ≡ (finished, d)
      → (exit ≡ finished) × (b ≡ true) × (r ≡ d)
  exit_with-finished exit true r d e = (ap (λ x. x.0) e, refl, ap (λ x. x.1) e)
  exit_with-finished exit false r d e = cc e

  pub fail-unfinished :
      (reason : Bytes) (r d : Reconciler S) → fail world reason errored r ≢ (finished, d)
  unfolding fail
  fail-unfinished reason r d e = let (x, b, k) = exit_with-finished errored _ _ d e in cc x

  after_creation-shape :
      (a : Option Bytes) (r d : Reconciler S)
      → after_creation world (a, r) ≡ (true, d)
      → (reason : Bytes) × (d ≡ mark_created world reason r)
  after_creation-shape none r d e = (codes "UserCreated", sym (ap (λ x. x.1) e))
  after_creation-shape (some message) r d e =
      elim (Bool-cases
        (is_user_already_exists_error (world.code_of message) world.to_lower message)) [
          | inl q ↦
              let k : (true, mark_created world (codes "UserAlreadyExists") r) ≡ (true, d) =
                (rw q at e) in
              (codes "UserAlreadyExists", sym (ap (λ x. x.1) k))
          | inr q ↦ let k : (false, r) ≡ (true, d) = (rw q at e) in cc k
        ]

  -- The answer to CREATE USER: no error, or that the user is there already.
  abbrev pub Taken : Option Bytes → Type 0
  Taken none = Unit {0}
  Taken (some message) =
      is_user_already_exists_error (world.code_of message) world.to_lower message ≡ true

  after_creation-Taken :
      (a : Option Bytes) (r d : Reconciler S) → after_creation world (a, r) ≡ (true, d) → Taken a
  after_creation-Taken none r d e = tt
  after_creation-Taken (some message) r d e =
      elim (Bool-cases
        (is_user_already_exists_error (world.code_of message) world.to_lower message)) [
          | inl q ↦ q
          | inr q ↦ let k : (false, r) ≡ (true, d) = (rw q at e) in cc k
        ]

  -- The answer to a statement, which is not sent if it is empty.
  abbrev pub answer_of : Bytes → S → Option Bytes × S
  answer_of [] s = (none, s)
  answer_of (c ∷ statement) s = world.server.exec s (c ∷ statement)

  abbrev pub alter_statement : Managed → Bytes
  alter_statement m =
      build_alter_user_permissions_sql (get_user_name m.object.user) m.object.user.permissions

  -- applyPrivileges for a user, from a state of the outside.
  abbrev pub privileges_from : Managed → S → ApplyResult × Conn S
  privileges_from m s =
      apply_privileges world.server world.orders (get_user_name m.object.user) m.object.user.grants
        (record { state = s; executed = [] }) world.entries

  -- Each statement is answered in the state that the one before it leaves: CREATE USER is taken, ALTER
  -- USER gives no error, and applyPrivileges reports no failure and executes the list.
  abbrev pub Answered : Bytes → Reconciler S → List (Option Bytes × Bytes) → Type 0
  Answered password r l =
      let a = world.server.exec r.state (create_statement password r.user) in
      let b = answer_of (alter_statement r.user) a.1 in
      let c = privileges_from r.user b.1 in
      Taken a.0 × (b.0 ≡ none) × (c.0 ≡ applied []) × (l ≡ c.1.executed)

  -- The user behind a creation that succeeds.
  abbrev created_user : Bytes → S → Bytes → Reconciler S → Reconciler S
  created_user password s reason r = mark_created world reason (
      log world (ran (create_statement password r.user)) s
        (on_status world (set_phase (codes "Creating")) r))

  ensure_user_exists-shape :
      (password : Bytes) (r d : Reconciler S)
      → ensure_user_exists world password r ≡ (true, d)
      → let a = world.server.exec r.state (create_statement password r.user) in
        Taken a.0 × (reason : Bytes) × (d ≡ created_user password a.1 reason r)
  unfolding ensure_user_exists run
  ensure_user_exists-shape password r d e =
      let a = world.server.exec r.state (create_statement password r.user) in
      let (reason, k) = after_creation-shape a.0 _ d e in
      (after_creation-Taken a.0 _ d e, reason, k)

  succeeded-none :
      (a : Option Bytes) (r d : Reconciler S)
      → succeeded world (a, r) ≡ (true, d)
      → (a ≡ none) × (d ≡ r)
  succeeded-none none r d e = (refl, sym (ap (λ x. x.1) e))
  succeeded-none (some message) r d e = cc e

  run_unless_empty-shape :
      (statement : Bytes) (r d : Reconciler S)
      → run_unless_empty world statement r ≡ (true, d)
      → let b = answer_of statement r.state in
        (b.0 ≡ none) × (d ≡ record r { state = b.1; events = r.events ++ events_of statement })
  unfolding run
  run_unless_empty-shape [] r d e =
      (refl, sym (ap (λ x. x.1) e) ∙ ap (λ l. record r { events = l }) (sym (append-nil r.events)))
  run_unless_empty-shape (c ∷ statement) r d e =
      succeeded-none (world.server.exec r.state (c ∷ statement)).0 _ d e

  reconcile_permissions-shape :
      (r d : Reconciler S)
      → reconcile_permissions world r ≡ (true, d)
      → let b = answer_of (alter_statement r.user) r.state in
        (b.0 ≡ none) × (d ≡ record r { state = b.1; events = r.events ++ permission_events r.user })
  unfolding reconcile_permissions
  reconcile_permissions-shape r d e =
      run_unless_empty-shape
        (build_alter_user_permissions_sql (get_user_name r.user.object.user)
          r.user.object.user.permissions)
        r d e

  apply_user_privileges-shape :
      (r d : Reconciler S)
      → apply_user_privileges world r ≡ (true, d)
      → let c = privileges_from r.user r.state in
        (c.0 ≡ applied []) × (d ≡ log world (ran_privileges c.1.executed) c.1.state r)
  unfolding apply_user_privileges
  apply_user_privileges-shape r d e =
      (is_applied-none (privileges_from r.user r.state).0 (ap (λ x. x.0) e), sym (ap (λ x. x.1) e))
    where
      is_applied-none : (a : ApplyResult) → is_applied a ≡ true → a ≡ applied []
      is_applied-none fetch_failed h = cc h
      is_applied-none (applied []) h = refl
      is_applied-none (applied (f ∷ failures)) h = cc h

  -- What the secret's step does to the reconciler: it leaves the parts of the status that earlier steps
  -- have set.
  abbrev SecretShape : Reconciler S → Reconciler S → List Event → Type 0
  SecretShape r d l =
      (s : S) × (t : UserStatus) × (d
        ≡ record r { state = s; user = record r.user { status = t }; events = r.events ++ l })
      × (t.user_created ≡ r.user.status.user_created)
      × (t.privileges_synced ≡ r.user.status.privileges_synced)

  wrote : Bytes → Reconciler S → List Event
  wrote password r =
      wrote_secret (get_secret_name r.user r.cluster) (secret_data world r password) ∷ []

  secret_written-shape :
      (b : Bool) (r d : Reconciler S) (s : S) (l : List Event)
      → secret_written world (b, record r { state = s; events = r.events ++ l }) ≡ (true, d)
      → SecretShape r d l
  secret_written-shape true r d s l e = (s, _, sym (ap (λ x. x.1) e), refl, refl)
  secret_written-shape false r d s l e = cc e

  write_secret-shape :
      (password : Bytes) (r d : Reconciler S) (answer : SecretAnswer)
      → write_secret world password r answer ≡ (true, d)
      → SecretShape r d (wrote password r)
  unfolding wrote
  write_secret-shape password r d failed e = cc e
  write_secret-shape password r d missing e =
      let a =
        world.put_secret r.state (get_secret_name r.user r.cluster)
          (secret_data world r password) in
      secret_written-shape a.0 r d a.1 (wrote password r) e
  write_secret-shape password r d (found m) e =
      let a =
        world.put_secret r.state (get_secret_name r.user r.cluster)
          (secret_data world r password) in
      secret_written-shape a.0 r d a.1 (wrote password r) e

  secret_step-shape :
      (password : Bytes) (r d : Reconciler S)
      → secret_step world password r ≡ (true, d)
      → SecretShape r d (secret_events password r)
  unfolding create_or_update_secret wrote
  secret_step-shape password r d e = elim (Bool-cases (has_password r.user)) [
    | inl q ↦
        let k : create_or_update_secret world password r ≡ (true, d) = (rw q at e) in
        rw q (
          write_secret-shape password r d
            (world.get_secret r.state r.user.object.namespace (get_secret_name r.user r.cluster)) k)
    | inr q ↦
        let k : (true, r) ≡ (true, d) = (rw q at e) in
        rw q (
          r.state,
          r.user.status,
          sym (ap (λ x. x.1) k) ∙ ap (λ l. record r { events = l }) (sym (append-nil r.events)),
          refl,
          refl,
        )
  ]

  after_secret-finished :
      (b : Bool) (r d : Reconciler S)
      → after_secret world (b, r) ≡ (finished, d)
      → (b ≡ true)
        × (s : S) × (d
            ≡ log world (sent_status (ready_status world r).user.status) s (ready_status world r))
  unfolding send_status
  after_secret-finished false r d e = absurd (fail-unfinished (codes "SecretCreationFailed") r d e)
  after_secret-finished true r d e =
      let a = world.update_status r.state (ready_status world r).user.status in
      let (x, b, k) = exit_with-finished finished a.0 _ d e in (refl, a.1, sym k)

  after_privileges-finished :
      (password : Bytes) (b : Bool) (r d : Reconciler S)
      → after_privileges world password (b, r) ≡ (finished, d)
      → (b ≡ true)
        × (after_secret world (secret_step world password (synced world r)) ≡ (finished, d))
  after_privileges-finished password false r d e =
      absurd (fail-unfinished (codes "PrivilegeSyncFailed") r d e)
  after_privileges-finished password true r d e = (refl, e)

  after_permissions-finished :
      (password : Bytes) (b : Bool) (r d : Reconciler S)
      → after_permissions world password (b, r) ≡ (finished, d)
      → (b ≡ true)
        × (after_privileges world password
              (apply_user_privileges world (on_status world (set_phase (codes "Updating")) r))
            ≡ (finished, d))
  after_permissions-finished password false r d e =
      absurd (fail-unfinished (codes "UserPermissionSyncFailed") r d e)
  after_permissions-finished password true r d e = (refl, e)

  after_user-finished :
      (password : Bytes) (b : Bool) (r d : Reconciler S)
      → after_user world password (b, r) ≡ (finished, d)
      → (b ≡ true)
        × (after_permissions world password (reconcile_permissions world r) ≡ (finished, d))
  after_user-finished password false r d e =
      absurd (fail-unfinished (codes "UserCreationFailed") r d e)
  after_user-finished password true r d e = (refl, e)

  -- What was sent, and what the status says.
  abbrev pub Script : Bytes → Reconciler S → Reconciler S → Type 0
  Script password r d =
      (l : List (Option Bytes × Bytes)) × Answered password r l
      × (d.events
          ≡ ((((r.events ++ ran (create_statement password r.user) ∷ [])
                  ++ permission_events r.user)
                ++ ran_privileges l ∷ [])
              ++ secret_events password r)
            ++ sent_status d.user.status ∷ [])
      × (d.user.status.phase ≡ codes "Ready")
      × (d.user.status.observed_generation ≡ r.user.generation)
      × (d.user.status.user_created ≡ true)
      × (d.user.status.privileges_synced ≡ true)

  -- The answers, in the states that the reconcilers p and q have.
  answered :
      (password reason : Bytes) (r p q : Reconciler S)
      → let a = world.server.exec r.state (create_statement password r.user) in
        let b = answer_of (alter_statement p.user) p.state in
        let c = privileges_from q.user q.state in
        Taken a.0
        → p ≡ created_user password a.1 reason r
        → b.0 ≡ none
        → q ≡ record p { state = b.1; events = p.events ++ permission_events p.user }
        → c.0 ≡ applied []
        → Answered password r c.1.executed
  answered password reason r p q n1 k1 n2 k2 n3 =
      let altered = λ (x : Reconciler S). answer_of (alter_statement x.user) x.state in
      let granted =
        ap (λ x. privileges_from x.user x.state) k2
        ∙ ap (λ x. privileges_from x.user (altered x).1) k1 in
      (
        n1,
        sym (ap (λ x. (altered x).0) k1) ∙ n2,
        sym (ap (λ x. x.0) granted) ∙ n3,
        ap (λ x. x.1.executed) granted,
      )

  -- The steps put together: p, q, w and v are the reconcilers behind them.
  assembled :
      (password reason : Bytes) (l : List (Option Bytes × Bytes)) (s1 s2 s3 s5 : S)
      (r p q w v d : Reconciler S)
      → Answered password r l
      → p ≡ created_user password s1 reason r
      → q ≡ record p { state = s2; events = p.events ++ permission_events p.user }
      → w ≡ log world (ran_privileges l) s3 (on_status world (set_phase (codes "Updating")) q)
      → SecretShape (synced world w) v (secret_events password (synced world w))
      → d ≡ log world (sent_status (ready_status world v).user.status) s5 (ready_status world v)
      → Script password r d
  unfolding get_secret_name uses_connection_ref
  assembled password reason l s1 s2 s3 s5 r p q w v d n k1 k2 k3 (s4, t, k4, u, y) k5 =
      let secrets : secret_events password w ≡ secret_events password r =
        ap (secret_events password) k3
        ∙ (ap (secret_events password) k2 ∙ ap (secret_events password) k1) in
      let generation : w.user.generation ≡ r.user.generation =
        ap (λ x. x.user.generation) k3
        ∙ (ap (λ x. x.user.generation) k2 ∙ ap (λ x. x.user.generation) k1) in
      let was_created : w.user.status.user_created ≡ true =
        ap (λ x. x.user.status.user_created) k3
        ∙ (ap (λ x. x.user.status.user_created) k2 ∙ ap (λ x. x.user.status.user_created) k1) in
      let permissions : permission_events p.user ≡ permission_events r.user =
        ap (λ x. permission_events x.user) k1 in
      let a : p.events ≡ r.events ++ ran (create_statement password r.user) ∷ [] =
        ap (λ x. x.events) k1 in
      let b : q.events ≡ p.events ++ permission_events p.user = ap (λ x. x.events) k2 in
      let c : w.events ≡ q.events ++ ran_privileges l ∷ [] = ap (λ x. x.events) k3 in
      let e : v.events ≡ w.events ++ secret_events password w = ap (λ x. x.events) k4 in
      let f : d.events ≡ v.events ++ sent_status d.user.status ∷ [] =
        ap (λ x. x.events) k5 ∙ ap (λ x. v.events ++ sent_status x.user.status ∷ []) (sym k5) in
      (
        l,
        n,
        f ∙ rw (e, secrets, c, b, permissions, a) refl,
        ap (λ x. x.user.status.phase) k5,
        ap (λ x. x.user.status.observed_generation) k5
            ∙ (ap (λ x. x.user.generation) k4 ∙ generation),
        ap (λ x. x.user.status.user_created) k5
            ∙ (ap (λ x. x.user.status.user_created) k4 ∙ (u ∙ was_created)),
        ap (λ x. x.user.status.privileges_synced) k5
            ∙ (ap (λ x. x.user.status.privileges_synced) k4 ∙ y),
      )

  pub after_user-Script :
      (password : Bytes) (r d : Reconciler S)
      → after_user world password (ensure_user_exists world password r) ≡ (finished, d)
      → Script password r d
  after_user-Script password r d e =
      let p = ensure_user_exists world password r in
      let (b1, e1) = after_user-finished password p.0 p.1 d e in
      let (n1, reason, k1) = ensure_user_exists-shape password r p.1 (ap (λ b. (b, p.1)) b1) in
      let q = reconcile_permissions world p.1 in
      let (b2, e2) = after_permissions-finished password q.0 q.1 d e1 in
      let (n2, k2) = reconcile_permissions-shape p.1 q.1 (ap (λ b. (b, q.1)) b2) in
      let q' = on_status world (set_phase (codes "Updating")) q.1 in
      let w = apply_user_privileges world q' in
      let (b3, e3) = after_privileges-finished password w.0 w.1 d e2 in
      let (n3, k3) = apply_user_privileges-shape q' w.1 (ap (λ b. (b, w.1)) b3) in
      let v = secret_step world password (synced world w.1) in
      let (b4, s5, k5) = after_secret-finished v.0 v.1 d e3 in
      let shape = secret_step-shape password (synced world w.1) v.1 (ap (λ b. (b, v.1)) b4) in
      let c = privileges_from q'.user q'.state in
      let n = answered password reason r p.1 q.1 n1 k1 n2 k2 n3 in
      assembled password reason c.1.executed _ _ _ s5 r p.1 q.1 w.1 v.1 d n k1 k2 k3 shape k5
