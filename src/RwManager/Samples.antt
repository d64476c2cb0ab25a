-- ===== src/RwManager/Samples.antt =====
-- The manager at examples.
use risingwave_operator.Prelude.{
  ℕ, ◌≡◌, refl, pos, ◌+ℤ◌, int32, false, Option, none, some, or_default, [], ◌∷◌, String, codes,
  str_eq, if◌then◌else◌,
}
use risingwave_operator.Stores.{StateStore}
use risingwave_operator.RwWebhook.{Object}
use risingwave_operator.RwWebhook.Checks.{validate_create}
use risingwave_operator.RwWebhook.Samples.{any, no_store, after_scaling}
use risingwave_operator.RwManager.{
  Condition, Instance, Manager, stamped, get_condition, update_condition, sync_observed_generation,
  new_risingwave_manager, state_store_root_path, update_remote_risingwave_status,
}
use risingwave_operator.RwManager.Conditions.{
  IsMap, had_status, timed, updates, syncs, here, next, get_condition-update_condition, Reach-IsMap,
}
use risingwave_operator.RwManager.Roots.{IsRootOf, state_store_root_path-IsRootOf}

abbrev condition : String → String → Option ℕ → Condition
condition kind status time = record {
  kind = kind;
  status = status;
  last_transition_time = time;
  reason = "";
  message = "";
}

abbrev hdfs_store : StateStore
hdfs_store = record no_store { hdfs = some (record { root = codes "/rw"; fields = [] }) }

abbrev running : Instance
running = record {
  generation = pos 2;
  state_store = hdfs_store;
  enable_open_kruise = none;
  enable_standalone_mode = none;
  enable_advertising_with_ip = none;
  meta = [];
  frontend = [];
  compactor = [];
  compute = [];
  status = record {
    observed_generation = pos 1;
    conditions = condition "Running" "True" (some 5) ∷ condition "Upgrading" "True" (some 7) ∷ [];
    scale_views = [];
    fields = [];
  };
}

abbrev started : Manager
started = new_risingwave_manager running false

running-IsMap : IsMap running.status.conditions
running-IsMap = ((refl, tt), (tt, tt))

get_condition-update_condition_example :
    get_condition
      (update_condition 9 (condition "Running" "True" none) started).mutable_risingwave
      "Running"
    ≡ (if str_eq "Running" "Running"
        then some (
            timed
              (had_status (get_condition running "Running") "True")
              9
              (condition "Running" "True" none))
        else get_condition running "Running")
unfolding new_risingwave_manager
get_condition-update_condition_example =
    get_condition-update_condition 9 (condition "Running" "True" none) started "Running"

-- The condition had the status since 5; now it has no time.
time_lost :
    stamped 9 (get_condition running "Running") (condition "Running" "True" none)
    ≡ condition "Running" "True" none
unfolding stamped get_condition
time_lost = refl

abbrev after_two : Manager
after_two = sync_observed_generation (update_condition 9 (condition "Running" "False" none) started)

Reach-IsMap_example :
    IsMap after_two.mutable_risingwave.status.conditions
    × (or_default (update_remote_risingwave_status after_two) running.status
        ≡ after_two.mutable_risingwave.status)
Reach-IsMap_example = Reach-IsMap running false after_two running-IsMap (
    next (next here (updates started 9 (condition "Running" "False" none)))
      (syncs (update_condition 9 (condition "Running" "False" none) started)))

abbrev on_hdfs : Object
on_hdfs = record after_scaling { state_store = hdfs_store }

on_hdfs_valid : validate_create any false on_hdfs ≡ some []
unfolding validate_create ◌+ℤ◌ int32
on_hdfs_valid = refl

state_store_root_path-IsRootOf_example : IsRootOf hdfs_store (state_store_root_path hdfs_store)
state_store_root_path-IsRootOf_example =
    state_store_root_path-IsRootOf any false on_hdfs on_hdfs_valid
