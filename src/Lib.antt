-- ===== src/Lib.antt =====
-- The Vault auto-unsealing operator: a Kubernetes controller that lists the pods of a Vault, loads
-- unseal keys from secrets, and submits them to every pod that is sealed, and a webhook that admits
-- the objects (VaultUnsealer) by which it is told what to do.
--
-- The parts, and the files that model them:
--
-- - Api: api/v1alpha1/vaultunsealer_types.go, as records with the source's fields. Api/Scheme is
--   api/v1alpha1/groupversion_info.go and what the package registers.
-- - Secrets: internal/secrets/loader.go. Secrets/Keys is parseKeys, Secrets/Loader is LoadUnsealKeys
--   and loadKeysFromSecret; `Collected` is the pair of `allKeys` and `keySet`.
-- - Vault: internal/vault/client.go, NewClient, GetSealStatus and Unseal.
-- - Controller: internal/controller/vaultunsealer_controller.go. Controller/Conditions is
--   setCondition and clearCondition; Controller/Connection is createVaultClient and getTLSConfig;
--   Controller/Pods is isPodReady, checkAndUnsealPod and the loop over the pods; Controller/Reconcile
--   is reconcileVaultUnsealer with getVaultPods and updateStatus; Controller/Lifecycle is Reconcile
--   and cleanupMetrics. Controller/Isolation says which calls are for one object, and has a file of
--   proofs with each of the last three. Controller/History is about the histories of many runs of
--   Reconcile: the statuses that were saved (History/Statuses) and the metrics registry
--   (History/Series, History/Release). Controller/Pods/Quorum, Controller/Pods/Partial (for a Vault
--   that holds shares already) and Controller/Pods/Behaviour state what is documented of a Vault (it
--   opens at a quorum of different shares, and says whether it is sealed), for the theorems that
--   assume it.
-- - Webhook: internal/webhook/vaultunsealer_webhook.go. Webhook/Names is isAlphanumeric,
--   isValidKubernetesName and isValidLabelSelector; Webhook/References is validateSecretRef and
--   validateUnsealKeysSecretRefs; Webhook/Spec is the rest, with ValidateCreate, ValidateUpdate and
--   ValidateDelete. Webhook/Addresses puts the URL that is admitted beside the address that
--   createVaultClient makes of it, by what is documented of url.Parse.
-- - Controller/Identifiers: generateReconcileID, and the loggers of the controller.
-- - Cluster: what the operator calls. A `Series` is a collector with the values of its labels.
-- - Metrics: internal/metrics/metrics.go, the collectors and what is registered.
-- - Logging: internal/logging/logger.go.
-- - Entry: cmd/main.go. Entry/Main is init and main with the two SetupWithManager, Entry/Boot the calls
--   that main makes and the ways in which the process ends, Entry/Slices the slices of TLS options.
-- - Text and Json: what the source uses of Go's strings, of package strings, and of encoding/json.
--   A string is a list of bytes; `range` over a string decodes UTF-8 (Text/Runes); json.Unmarshal is
--   written out for a target of type []string.
-- - Result: a value or an error; an error is its message and whether it says "not found".
-- - Prelude: library names, Boolean tests, lists and integers. Tests: runs in a small cluster.
--
-- State and effects. A run is the history of its calls, newest first (Cluster.Trace), and a function
-- with effects is a program from a history to its value and a longer history (Cluster.Prog). The
-- environment (Cluster.Env) answers each call as a function of the history before it, so nothing is
-- assumed of what the API server, the pods, Vault and the clock do between two calls, and two equal
-- calls may be answered differently. The pointer to the VaultUnsealer that the methods of the
-- controller share is passed on as a value: no method keeps a second one.
--
-- The entry point (Entry/Boot) is a program over the list of its steps and the memory of the slices; a
-- function of the steps before says which step fails, and a step that fails ends the process. How
-- many elements an array that `append` makes has room for is up to the runtime, so it is a parameter:
-- the slices of the two servers start from one slice, and they are kept apart only by a runtime that
-- leaves no room behind the first element, as the gc runtime does for a slice of functions.
--
-- Bounds and fuel. Loops of the source are recursion on the list that they run over. Text.Space cuts
-- at most as often as the text is long, and Text.Decimal divides at most n + 1 times for the number n:
-- each cut takes a byte and each division makes the number smaller, so both are enough. A Go `int` and
-- a time.Duration are only compared, counted up to the length of a list and multiplied by ten from
-- such a length, so they are integers without a bound.
--
-- Parameters, code that is not in the repository: the Kubernetes client, labels.Parse and url.Parse,
-- the Vault API library with its decoding of answers, the certificate pool, controllerutil's functions
-- on finalizers, the clock, the wording of errors of json.Unmarshal, the source of random bytes,
-- package logr, the manager and the certificate watchers, and the growth of an array. A scheme.Builder
-- is the group version and the types that it is given.
--
-- Not modelled: the lines that are logged, closing of response bodies, the parsing of flags, the
-- buckets of a histogram, the generated deep copies, and concurrent runs: SetupWithManager leaves the
-- number of workers at its default of one, so that Controller/History is a sequence of whole runs,
-- over any objects in any order. What the API server stores is not modelled either: what it answers
-- behind an update is up to the environment.
--
-- The code and its documents disagree on PodUnavailable: vault-auto-unsealer-spec.md wants it for a pod
-- that cannot be reached, but the controller sets it only when listing fails or finds no pods, and
-- clears it at the end of every pass over pods that it found, whatever these answered. The theorems are
-- about the code.
pub mod Prelude
pub mod Text
pub mod Result
pub mod Api
pub mod Cluster
pub mod Json
pub mod Logging
pub mod Metrics
pub mod Secrets
pub mod Vault
pub mod Controller
pub mod Webhook
pub mod Entry
pub mod Tests
