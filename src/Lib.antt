-- ===== src/Lib.antt =====
-- The RisingWave operator, a Kubernetes operator that runs RisingWave clusters: its logic for scale
-- views and for database users.
--
-- The parts
--
-- A scale view names a component of a RisingWave object and some of its node groups, and asks for a
-- number of replicas of all of them together. The validating webhook admits scale views; the lock
-- manager keeps the lock records in the status of the RisingWave, which give each scale view its groups
-- alone; the mutating webhook fills new scale views in; the division splits the replicas of a scale
-- view among its groups, and the records hold its result; the helper reads and writes the replicas of a
-- group.
-- A RisingWaveUser describes a user of a cluster. The validating webhook admits it; the SQL builder
-- writes the statements that create, alter, grant and revoke; the parser reads the access control lists
-- of the catalog, and the snapshots collect them; the differences compare what they say with the
-- specification.
-- The controller of users creates the user with a password, alters its permissions, brings the privileges
-- in every database to those of the specification, and publishes the password in a secret; behind a
-- finalizer it drops the user again.
-- The controller of scale views grabs the lock of a scale view and then writes the replicas of the lock
-- to the RisingWave; the validating webhook of RisingWaves admits such writes and refuses others to
-- locked groups. The manager changes the conditions and the locks of a RisingWave in memory before the
-- status is sent. The feature manager parses the feature gates of the operator's command line. The
-- object factory sorts the environment variables of containers, so that each comes after those it uses.
--
-- Files and sources
--
-- Prelude and its children: tests, lists, integers, texts, splitting and joining of texts, equality of
--   values, permutations and sorting.
-- Stores: the meta store, the state store and the private key of
--   apis/risingwave/v1alpha1/risingawave_meta_store_backend.go, risingwave_state_store_backend.go and
--   risingwave_secret_store.go, with their comparison.
-- Lo, Lo/Plain: the functions of github.com/samber/lo that the code calls, as an interface with their
--   documented laws, and functions that have these laws.
-- ScaleView: apis/risingwave/v1alpha1/risingwave_scale_view_types.go, and the lock records of
--   risingwave_types.go.
-- ScaleView/Split: pkg/object/scaleview/split.go. `split_replicas` is SplitReplicas; `group_policies`,
--   `sort_groups`, `priorities` and `fill_priorities` are its loops in order, `checked` its last check.
--   Shares, Plan, Grants, Levels and Total hold the proofs for one share, one priority and all priorities.
-- ScaleView/Locks: pkg/object/scale_view_lock_manager.go. Each method is a function of the scale view and
--   the list of lock records. Checks, Grab, Exclusive, Update and Wanted hold the proofs.
-- ScaleView/Helper: pkg/scaleview/scale_view_helper.go, `read_replicas` and `write_replicas`.
-- ScaleView/Webhook: pkg/webhook/risingwave_scale_view_validating_webhook.go. The proofs are in Admits.
-- ScaleView/Defaulting: pkg/webhook/risingwave_scale_view_mutating_webhook.go, `set_default`; proofs in
--   Reads.
-- ScaleView/Controller: pkg/manager/risingwave_scale_view_controller_manager_impl.go, one function for
--   each of its four actions. Scales, Reaches and Reports hold the proofs.
-- RwWebhook, RwWebhook/Checks, RwWebhook/Locks: pkg/webhook/risingwave_validating_webhook.go;
--   `validate_create` is validateCreate, `update_answer` validateUpdate, `admit_create` and
--   `admit_update` the webhook's entries. Groups, Backends and Accepts hold the proofs about the checks
--   of an object, Held, Updates and Moves those about updates.
-- RwManager, RwManager/Status: pkg/object/risingwave_manager.go; Conditions and Roots hold the proofs.
-- Features: pkg/features/feature_manager.go; `parse_from_feature_gate_string` is
--   ParseFromFeatureGateString. Gates, Settings and Panics hold the proofs.
-- Rwclient: apis/risingwave/v1alpha1/risingwave_user_types.go, the part that statements are built from.
-- Rwclient/Sql, Rwclient/Sql/Grants: pkg/rwclient/sql_builder.go. Lexer is an independent reading of
--   statements as tokens; Quoting, Users, Tokens and Grouping hold the proofs.
-- Rwclient/Acl: pkg/rwclient/acl_parser.go; Trip writes lists, and holds the proofs.
-- Rwclient/Diff: pkg/rwclient/privilege_diff.go, and the types of privilege_snapshot.go; proofs in
--   Settles.
-- Rwclient/Snapshot: pkg/rwclient/privilege_snapshot.go, the functions that read rows; proofs in Reports.
--   Rwclient/Snapshot/Fetch: FetchSchemaPrivileges and FetchUserPrivilegeSnapshot, which call them.
-- UserWebhook, UserWebhook/Checks: pkg/webhook/risingwave_user_validating_webhook.go. Grants and Updates
--   hold the proofs.
-- EnvSort: pkg/utils/sort.go, `depends_on` and `topological_sort`; Counts, Steps, Sorts, Edges,
--   References and Orders hold the proofs.
-- Passwords: pkg/utils/password.go, `generate_random_password`; Classes and Strength hold the proofs.
-- UserController: pkg/controller/risingwave_user_controller.go. Statements collects the statements of
--   applyPrivileges, and Apply executes them, `apply_privileges`; Sends holds the proofs. Reconcile has the state, Steps the steps, and Life `reconcile`, `reconcile_normal` and
--   `reconcile_delete`; Finished and Ready hold the proofs about `reconcile_normal`, Deletion
--   those about `reconcile_delete`. Runs has runs.
-- The files named Samples run the code on concrete inputs and apply the theorems there.
--
-- Choices
--
-- Go's int is an unbounded integer; int32 wraps around at 2 ^ 32 where the code adds or converts.
-- All loops but one go over lists, so their functions are structural and need no fuel. The main loop of
-- the topological sort runs on fuel, as many rounds as there are variables: each takes out another one.
-- A panic is `none` or a
-- constructor of its own. Names are native strings where the program only compares them; the SQL texts,
-- the privileges and all texts of users are lists of bytes. A pointer into a list is a place in it.
-- A Go map is a list of its entries with distinct keys; where a loop ranges over a map, the order of
-- its keys is a parameter that may be any permutation. Answers of the API server and of
-- the database are parameters too.
-- What a server outside does is a function of its state, which is passed through every call; the
-- statements that are sent are kept in a history.
-- Errors of the webhooks keep their kinds and paths, but not their messages.
--
-- Not modelled
--
-- The controller of RisingWaves, the object factory, the pool of connections and the labeler
-- of meta pods: mostly calls of the API server, of databases and of gRPC. The controller of users takes the
-- pool's Get as an operation of its outside. The workflow of the scale view
-- controller, which is built by the ctrlkit package from the actions that are modelled. The defaulting
-- webhook for RisingWaves. The utilities but passwords and the topological sort, whose heap is an
-- interface. Metrics, entry point and generated code: no logic of their own.
pub mod EnvSort
pub mod Features
pub mod Lo
pub mod Passwords
pub mod Prelude
pub mod RwManager
pub mod RwWebhook
pub mod Rwclient
pub mod ScaleView
pub mod Stores
pub mod UserController
pub mod UserWebhook
