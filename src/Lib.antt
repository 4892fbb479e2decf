-- ===== src/Lib.antt =====
-- Koperator: the parts of the operator that drive Cruise Control.
--
-- A KafkaCluster holds, in its status, a state for each broker and each volume (upscale required,
-- rebalance running, and so on). The task controller reads those states, follows the operations that
-- exist, and creates a CruiseControlOperation for the tasks that are required. The operation
-- controller collects the operations of a cluster in queues, selects one, lets Cruise Control execute
-- it and writes the result into its status, which the task controller reads in turn. The cleanup
-- controller deletes operations that finished long enough ago. The reconciler of the Kafka resources
-- orders the brokers that it goes over, restarts their pods, removes brokers and volumes that the
-- specification does not have any more, and writes their states into the status.
--
-- - Api: the resources. Api/TaskKind and Api/States are the string types of
--   api/v1alpha1/common_types.go and api/v1beta1/common_types.go, Api/Operation is
--   api/v1alpha1/cruisecontroloperation_types.go, Api/Cluster the fields of
--   api/v1beta1/kafkacluster_types.go that the controllers read, Api/Failure the results of
--   controllers/controller_common.go.
-- - Scale: the types of pkg/scale/types.go.
-- - Operation: controllers/cruisecontroloperation_controller.go. Operation/World has the memory of a
--   run, the calls that leave it and the monad in which the code is written; Finalizer, Queues, Select,
--   Outcome (updateResult), Sync (updateCurrentTasks), Status (getStatus, createCCOperation), Execute
--   and Reconcile have the code; Equality compares statuses; Quiet and Safety are about the calls that
--   a run makes, Order, Choice and Upscale about the queues and the selection, History, Conflict
--   and Panic about the results.
-- - Task: controllers/cruisecontroltask_types.go and controllers/cruisecontroltask_controller.go. Types,
--   Outcome (FromResult), Apply, Active (the collection of tasks), Brokers (what is asked about brokers,
--   with parts of pkg/util/util.go), Request (createCCOperation), Schedule (the switch of Reconcile),
--   Update (UpdateStatus) and Reconcile have the code; Priority, Scheduled, Capacity, Cases, RoundTrip and
--   Index have proofs.
-- - Ttl: controllers/cruisecontroloperation_ttl_controller.go.
-- - Kafka: pkg/resources/kafka. Reorder is reorderBrokers of kafka.go, with its proofs in Ascending; Pods the
--   predicates of pkg/k8sutil/resource.go; Racks the racks of brokers and pods; Rolling handleRollingUpgrade,
--   with Rolling/Checks and Rolling/Safe; Removal reconcileKafkaPodDelete, with Removal/Guarded,
--   Removal/Spared and Removal/Stuck; Volumes generateDataVolumeAndVolumeMount and getVolumes of
--   pod.go; Claims reconcileKafkaPvc and handleDiskRemoval, with Claims/Emptied and Claims/Grown.
-- - Status: pkg/k8sutil/status.go. World has the cluster, the API server and the calls, which Kafka uses
--   too; Update the writing of the status, Broker generateBrokerState, Backup the backups of
--   configurations, Listeners the addresses of the internal listeners with pkg/util/client/common.go.
--   Update/Atomic, Update/Keeps, Broker/Merge and Backup/Lost have proofs.
-- - Properties: properties/pkg, the library behind the configuration files. Types and Store have the two
--   maps of Properties and their methods, Separators the escapes, Parser what reads and prints; Ordered
--   says which ordered list of properties an object stands for, Refinement and Difference are about all
--   methods together, Separators/Reference and Separators/Equivalence about the loops over runes,
--   RoundTrip about printing and parsing. An index into a string counts bytes and one into a slice of
--   runes characters, as in the source; a loop that would leave its bounds gives `none`.
-- - Alert: internal/alertmanager, with the functions of pkg/k8sutil/cr.go that it calls. Types and World
--   have the data and the calls, Cluster what is done to a KafkaCluster, Commands and Process process.go
--   and the validators, Stored current_alerts.go and the dispatcher; Once, Limits and Fresh have proofs.
-- - Webhook: pkg/webhooks. Cluster is kafkacluster_validator.go with the accessors that it calls,
--   Topic kafkatopic_validator.go; Cluster/Valid, Cluster/Tls and Topic/Sound have proofs. An int32 of Cluster is a
--   number below 2 ^ 32, those of Topic are signed numbers.
-- - Topics: controllers/kafkatopic_controller.go. World has the resource and the calls, Finalizers
--   labels and finalizers, Reconcile the rest, Managed the proofs. A map of labels that two variables
--   share is one value, and `none` is nil.
-- - Examples: the theorems at concrete inputs.
--
-- The API server, Cruise Control, the clock, the functions of controller-runtime on finalizers, the
-- decoder of JSON and the merge of configurations are arguments: no answer of theirs is assumed unless
-- a theorem says so. In Operation an answer may depend on all calls made so far. A pointer into a list
-- that the code changes is an index, a nil pointer that is followed is `none`, a Go map is an
-- association list in any order. Times are nanoseconds; counters are unbounded. RetryOnConflict calls
-- its function as often as DefaultBackOffForConflict allows, six times.
--
-- In Status and Kafka the calculation of patches, label selectors, the sorting of volumes, the compression of
-- configurations, the Kafka client and the client of Cruise Control are arguments too. There, an order in
-- which Go goes over a map is the order of the association list, and thresholds are not negative.
--
-- Not modelled: logging, the texts of wrapped errors, the set-up of watches and events, the scaler
-- behind pkg/scale; of the Kafka reconciler reconcileKafkaPod, the external listeners, Reconcile and the
-- builders of pods and config maps; the other reconcilers under pkg/resources, which build Kubernetes
-- objects; the registration of the webhooks, the receiver of alerts, Marshal, Unmarshal, Set and the locks of
-- the properties library, certificates, and the user controller.
pub mod Prelude
pub mod Api
pub mod Scale
pub mod Operation
pub mod Task
pub mod Ttl
pub mod Kafka
pub mod Properties
pub mod Alert
pub mod Webhook
pub mod Topics
pub mod Status
pub mod Examples
