-- ===== src/Lib.antt =====
-- A model of jira-cdc-git, which copies JIRA issues as YAML files into git repositories, and
-- proofs about it. A sync engine fetches each issue (pkg/client), writes its file (pkg/schema),
-- links it (pkg/links) and commits it (pkg/git); a state manager (pkg/state) keeps, beside the
-- files, which issues were synced when, and the history of the sync operations; the incremental
-- engine (internal/sync/incremental.go) chooses by that state what to sync, runs a batch
-- (internal/sync/batch.go), and records the operation. A rate limiter (pkg/ratelimit) delays the
-- calls of the client. Jobs (pkg/jobs) run syncs in Kubernetes. An operator (internal/operator)
-- reconciles JIRASync resources: it triggers their syncs by a client of the API server with a
-- circuit breaker (apiclient), follows them, and keeps their status; it checks the specifications
-- of API servers and classifies their changes (config).
--
-- Files:
-- Prelude: numbers as 64-bit patterns (Words), texts as lists of bytes (Text), maps as association
-- lists (Assoc), `sort.Strings` (Sorting), `path/filepath` (FilePath), lists (Lists).
-- Jira: the types of pkg/client/client.go.
-- Schema: pkg/schema/yaml.go and errors.go, the writer of the issue files.
-- State: pkg/state/types.go (Types) and pkg/state/manager.go: the pointers to operations (Heap),
-- the operating system and the encoders (Platform), LoadState and SaveState (Persist),
-- InitializeState, BackupState and RestoreState (Backup), the operations and UpdateStatistics
-- (Operations), UpdateIssueState, GetChangedIssues and ShouldSyncIssue (Issues), ValidateState and
-- RecoverState (Check).
-- Sync: the interfaces that the engines call (Services), the progress channel (Progress), the
-- results and counters of internal/sync/batch.go (Batch), processSingleIssue (Single),
-- SyncIssuesSync and SyncJQLSync (Sequential), SyncIssues and worker (Pool), and
-- internal/sync/incremental.go: the choice of issues, the dry run and the update of the state
-- (Incremental), SyncIssuesIncremental and SyncJQLIncremental (Engine), the other public
-- operations (Engine/Inspect).
-- RateLimit: pkg/ratelimit/ratelimit.go.
-- Jobs: pkg/jobs/job_id.go (JobId), types.go (Types), errors.go (Errors) and scheduler.go: the
-- Kubernetes Job that is made for a sync (Manifest), and the scheduler's operations (Scheduler).
-- Operator: internal/operator/types/types.go (Types; those of an API server in Config);
-- apiclient/client.go: the circuit breaker (Breaker), requests and answers (Api), the requests
-- (Client), and the client as a reconciler has it (Wired); controllers/status_manager.go (Status,
-- and UpdateStatus in Status/Update); controllers/jirasync_dependency.go and
-- jirasync_controller.go: what a reconciler is given and holds (Cluster), validateSyncSpec (Spec),
-- updateStatus and the annotations (Phase), initializeSync (Initialize), the handlers of the
-- phases and of a deletion (Handlers), and Reconcile (Reconcile); config/change_detector.go
-- (Config/Changes, Config/Detector), config/validation.go (Config/Validation) and config/drift.go
-- (Config/Drift; DetectDrift in Config/Drift/Detection). Held has the rules by which an operation
-- leaves a job reference as it is.
-- Examples: concrete inputs. A child module of these holds the proofs about its parent and is
-- named for what they prove.
--
-- How the code is modelled: a method of the state manager is a function from the state, the disk,
-- the clock and the faults of the operating system to their next values and its error. An int or a
-- duration is its 64-bit pattern, a time is the nanoseconds since the zero time. A map is iterated
-- in the order of its list, and the theorems hold for every order. LastSync is an index into a
-- heap of operations, since StartSyncOperation hands out the pointer that it stores. The engines
-- act on a world of any type through services that may return anything. The goroutines of
-- SyncIssues are a step relation in which the sync of an issue may end with any path and any
-- error; the channels have room for all tasks, as in the code. A method of the reconciler is an
-- action on a scene: the resource in memory, the host of the API server, and the world; a
-- successful update replaces the resource by what the API server returns. The circuit breaker is
-- part of the world, so the clients of all hosts share it. An int32 is its 32-bit pattern. No fuel
-- is used: every loop is structural recursion.
--
-- Parameters: sha256, time.Parse, the YAML and JSON encoders, the file system's faults, the
-- services, the clock, strings.ToLower, what a range over a string yields, the float product of
-- the backoff, and the headers of a response once they are parsed; for the operator and the jobs,
-- the Kubernetes API, the network, the JSON encoding, url.Parse, and the printing of numbers,
-- times and specifications. A sleep of the rate limiter may change its state.
--
-- Not modelled: rates and percentages, which are floats; memory use, which is never set; the
-- progress updates of the collecting loop of SyncIssues, and SyncJQL, its JQL entry; of the
-- operator, metrics, logs, the API server controller, and the other resources; the watch and the
-- logs of a job, the job manager and the templates; the HTTP API and the command line
-- (internal/api, internal/cli), the HTTP and git clients, links, profiles, epics and queries
-- (pkg/links, pkg/profile, pkg/epic, pkg/jql), and the HTTP transport over the rate limiter.
pub mod Prelude
pub mod Jira
pub mod State
pub mod Sync
pub mod RateLimit
pub mod Operator
pub mod Jobs
pub mod Schema
pub mod Examples
