-- ===== src/Lib.antt =====
-- Accord: two Kubernetes operators that keep Argo CD resources and a Git repository in step. The
-- inventory-controller exports resources to files of the repository; the sync-operator applies
-- pushes to the repository to the cluster. This library models their logic in internal/
-- and how the programs in cmd/ start.
--
-- How the parts interact. The reconcilers of internal/inventory receive the events of a resource, take
-- its normal form and hash, and enqueue a file, or the archiving of one, in the batch worker of
-- internal/git; the worker's flush exports the pending operations. A push to the repository reaches the
-- webhook handler of internal/sync: it checks the signature, reads the changed paths, fetches and
-- applies the added files and deletes the resources of the removed ones. The sync-operator writes a hash
-- annotation on what it applies, by which the reconcilers recognise it.
--
-- Which file models what:
--   Base, Strings, Collections, Dict, Hex, Decimal: what the code uses of Go's language and library. A
--     string is a list of bytes; a map is a list of entries with one entry for each key.
--   Json: decoded JSON, and the record Codec of the text formats and SHA-256, which are parameters.
--   Json/Text: how encoding/json writes strings and maps of strings, byte by byte.
--   Config: internal/config/config.go. The environment is a parameter.
--   Inventory/Normalize: internal/inventory/normalize.go. Maps that the code changes in place are
--     written back into the object.
--   Inventory/ExportPath: internal/inventory/export_path.go and hashcache.go. text/template is a parameter.
--   Inventory/Reconciler: internal/inventory/reconciler.go. The state is the hash cache and the worker's
--     queue; an event carries the answer of the API server.
--   Git/ArchivePath: internal/git/archive_path.go.
--   Git/Queue: the pending operations of internal/git/worker.go. A flush is two steps, flush_start and
--     flush_end, with the calls of the reconcilers between them, as the lock is free meanwhile.
--   Git/Worker: the loop of Start, of the same file, as a step relation over the worker and the host. A
--     run is any sequence of calls, ticks, ends of flushes and the end of the context; it has a log of
--     what was asked for and exported. The interval is positive: time.NewTicker panics on another one.
--   Git/Message, Git/Export: the commit message of a batch and its export into a clone, of the same file.
--     The operating system and go-git are a parameter, with the state of both.
--   Sync/Path, Sync/GitHub, Sync/Hmac, Sync/Fetch, Sync/Apply, Sync/Webhook: the files of internal/sync
--     with the same names. HMAC-SHA256, the HTTP client, Kubernetes objects and the API server are
--     parameters; the handler passes the state of the cluster on explicitly.
--   ConfigMapMaterial: internal/configmapmaterial/material.go. SHA-256 is a parameter.
--   Inventory/Controller: internal/inventory/gvk.go and SetupWithManager of the reconcilers.
--   InventoryProcess: the reconcilers, the cache and the worker as cmd/inventory-controller/main.go puts them
--     together, as a step relation over both. An event is one step.
--   Echo: the reconcilers of internal/inventory at an event of what internal/sync/apply.go has applied.
--     Echo/Loop and Echo/Deleted: a change and a deletion on their way through both operators.
--   Api: api/v1alpha1/mirrorupgraderequest_types.go. Api/DeepCopy: zz_generated.deepcopy.go beside it, on
--     an explicit memory of typed cells; the types of metav1 and their deep copies are a parameter.
--   MirrorUpgrader: internal/controller/mirrorupgraderequest_controller.go and the group and version of
--     api/v1alpha1/groupversion_info.go.
--   Schemes: internal/bootstrap/scheme.go and internal/bootstrap/inventory_scheme.go, with what the
--     package api/v1alpha1 registers. The schemes and their builder are parameters.
--   Bootstrap: internal/bootstrap/manager.go. controller-runtime is a parameter.
--   Commands: cmd/sync-operator/main.go, cmd/inventory-controller/main.go, cmd/mirror-upgrader/main.go.
--     The environment, the parsed flags and the calls of a manager are parameters.
--   Tests: the theorems at concrete inputs.
--
-- The API server is a parameter; Sync/Webhook/Told states what is asked of it: a map from resources to
-- what it keeps of them, of which a patch or a deletion changes one entry. Sync/Webhook/Concurrent lets
-- the requests of the handler take turns, path by path, since net/http serves them at the same time.
--
-- Bounds. Strings.drop_spaces has the length of the text as fuel, which is enough because each round
-- drops one byte at least; Decimal.decimal has the number itself and one more, and divides by ten.
-- Body limits are those of the code. A batch interval has 64 bits and wraps around.
--
-- Not modelled: log lines, contexts and timeouts, the texts of errors (they are values here), and the
-- parsing of flags. Fields of a ConfigMap that are no part of its material, such as binary data, have no
-- place in the model. A slice is the array that it points to, since no code takes a part of one.
pub mod Base
pub mod Strings
pub mod Collections
pub mod Dict
pub mod Hex
pub mod Decimal
pub mod Json
pub mod Config
pub mod Inventory
pub mod ConfigMapMaterial
pub mod Sync
pub mod Git
pub mod Echo
pub mod InventoryProcess
pub mod Api
pub mod MirrorUpgrader
pub mod Schemes
pub mod Bootstrap
pub mod Commands
pub mod Tests
