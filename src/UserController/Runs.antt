-- ===== src/UserController/Runs.antt =====
-- Reconciliations of a user on the server of Samples.
use risingwave_operator.Prelude.{
  ◌≡◌, ℕ, zero, suc, ◌<◌, pos, Bool, true, false, Option, none, some, [], ◌∷◌, Bytes, codes, arith,
}
use risingwave_operator.Rwclient.Diff.{missing}
use risingwave_operator.UserController.Reconcile.{SecretAnswer, World, Reconciler, finalizer}
use risingwave_operator.UserController.Samples.{simple_server, in_order, id_entries, sales_grants}

abbrev draw_first : Bytes → ℕ → Option ℕ × Bytes
draw_first r zero = (none, r)
draw_first r (suc m) = (some 0, r)

draw_first-below : (r : Bytes) (max k : ℕ) → (draw_first r max).0 ≡ some k → k < max
draw_first-below r zero k h = cc h
draw_first-below r (suc m) k h = let e : ◌≡◌ {A = ℕ} 0 k = cc h in omega (arith, e)

abbrev simple_world : World Bytes
simple_world = record {
  server = simple_server;
  source = record { draw = draw_first; below = draw_first-below };
  orders = in_order;
  entries = id_entries;
  get_risingwave = λ s namespace name.
      some
        (record { name = name; namespace = namespace; conditions = (codes "Running", true) ∷ [] });
  get_secret = λ s namespace name. SecretAnswer.missing;
  put_secret = λ s name m. (true, s);
  get_service = λ s namespace name. some (name, namespace);
  pool_get = λ s namespace cluster host port credentials. (true, s);
  code_of = λ message. none;
  to_lower = λ message. message;
  update = λ s m. (true, s);
  update_status = λ s t. (true, s);
}

abbrev ann : Bool → Reconciler Bytes
ann was_created = record {
  state = codes "dev";
  cluster = none;
  events = [];
  user = record {
    annotations = [];
    finalizers = finalizer ∷ [];
    is_deleted = was_created;
    generation = pos 3;
    object = record {
      user = record {
        object_name = codes "ann";
        spec_name = [];
        permissions = [];
        grants = sales_grants;
      };
      namespace = codes "db";
      annotations = [];
      risingwave_ref = some (record { name = codes "rw"; namespace = []; credentials = none });
      connection_ref = none;
      password = none;
      auth = none;
    };
    status = record {
      phase = [];
      conditions = [];
      user_created = was_created;
      privileges_synced = false;
      secret_created = false;
      secret_name = [];
      observed_generation = pos 0;
      connected = false;
    };
  };
}
