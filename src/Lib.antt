-- ===== src/Lib.antt =====
-- The ds-operator: a Kubernetes operator that runs ForgeRock directory servers (DS).
--
-- A DirectoryService asks for replicas of a directory server. Its reconciler makes the volume claims
-- of the replicas, the stateful set of their pods, the services, a deployment of proxies, and timed
-- volume snapshots. A DirectoryBackup and a DirectoryRestore each run a job on such volumes. The
-- state of the operator is the API server's: every operation reads and writes objects there, and the
-- reconcilers call one another's results through the objects' names and labels.
--
-- How the code is modelled.
--   Prelude: Go's values. An `int32` or `int64` is an integer ℤ over the native numbers, and what
--     can overflow keeps its wrap-around (wrap32, wrap64). A map is an association list, `none` where
--     Go has a nil map or pointer. A call with an error result is an `Action`: it takes a world and
--     returns `ok`, `err` or `panic` with the world after it, so what was written before an error
--     stays written. `Ends m w P Q` says that an action returns with P or fails with Q, and so does
--     not panic; `Finishes m w P Q R` that it may panic, with R.
--   Kube: the objects of the API that the operator handles, and the interface `Client` for
--     controller-runtime's client, CreateOrUpdate, the owner references and the event recorder. Its
--     laws (Kube/Client/Laws) are documented behaviour: what a create, update or delete does to the
--     one object it names, that a failed call changes nothing, that an existing object has a
--     creation time. Kube/Memory is a server in memory that meets all of them.
--   Api/Types: api/v1alpha1/directoryservice_types.go, directorybackup_types.go,
--     directoryrestore_types.go.
--   Labels: controllers/util.go (makeMeta, createLabels, createAnnotations).
--   Claims: controllers/pvc.go (reconcilePVC, setVolumeClaimTemplateFromSnapshot).
--   Snapshots: controllers/snapshots.go (reconcileSnapshots, getSnapshotList).
--   Settings: the constants of controllers/directoryservice_controller.go, the dropped error of
--     SetControllerReference, and the removal that proxy.go and proxy_service.go have alike.
--   StatefulSets: controllers/sts.go (reconcileSTS, updateDSStatefulSet, createDSStatefulSet,
--     injectDebugContainers).
--   Services: controllers/service.go and controllers/proxy_service.go.
--   Proxies: controllers/proxy.go.
--   Jobs: controllers/job.go (createDSJob).
--   Reconcile: controllers/directoryservice_controller.go (Reconcile, getAdminLDAPConnection). Its
--     children follow the call: Preparing up to the stateful set, Frames for the steps after it,
--     Serving and Stored for the directory server and the last updates, Outcome for the whole.
--     Stable: the pods are prepared a second time (Kube/Client/Stable); Histories: any number of times.
--     The modules named Live, and Reconcile/Returns and Reconcile/Calm, follow the same calls where the
--     API server refuses nothing without a reason (Kube/Client/Live, Reconcile/Admission);
--     Ldap/Calm says why no nil connection is closed where the directory server can be dialled.
--   Runs: what the two following reconcilers do alike.
--   Backups: controllers/directorybackup_controller.go (Reconcile).
--   Restores: controllers/directoryrestore_controller.go (Reconcile).
--   Secrets: controllers/secrets.go. The results of rand.Intn are a parameter,
--     for each bound that the code gives.
--   Webhook: api/v1alpha1/directoryservice_webhook.go.
--   Ldap: pkg/ldap/client.go, over an interface `Directory` for go-ldap. Its laws (Ldap/Laws) say what
--     a dial, a bind, a password change and a close do to the passwords and to the number of open
--     connections; Ldap/Memory is a directory server in memory that meets them.
--   Passwords: controllers/passwords.go; Passwords/Numbers is strconv.ParseInt.
--   Startup: main.go, and the SetupWithManager functions, over an interface `Manager` for
--     controller-runtime's manager.
--   Tests: runs, and the theorems at concrete arguments.
--
-- Loops over lists and counted loops are structural recursion, so no fuel is needed; the decimal
-- digits of a number have fuel for one digit more than the number's value.
--
-- Not modelled: logging; the parsing of the flags of main.go; generated deep copies; the
-- SELinux and Windows options of a job's pod, which are empty. A Go object that is copied
-- deeply is the same value here. Go may visit a map in any order; here it is the order of the
-- association list.
pub mod Prelude
pub mod Kube
pub mod Api
pub mod Labels
pub mod Snapshots
pub mod Claims
pub mod Settings
pub mod StatefulSets
pub mod Services
pub mod Proxies
pub mod Jobs
pub mod Secrets
pub mod Webhook
pub mod Startup
pub mod Ldap
pub mod Passwords
pub mod Reconcile
pub mod Runs
pub mod Backups
pub mod Restores
pub mod Tests
