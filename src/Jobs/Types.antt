-- ===== src/Jobs/Types.antt =====
-- pkg/jobs/types.go, and what pkg/jobs/scheduler.go reads and writes of a Kubernetes Job.
use jira_cdc_git.Prelude.{ℕ, Bool, Option, List}
use jira_cdc_git.Prelude.Text.{Text}
use jira_cdc_git.Prelude.Assoc.{Assoc}

pub data JobStatus : Type 0 where
  pending running succeeded failed unknown : JobStatus

pub record JobResourceRequirements : Type 0 where
  pub requests_cpu : Text
  pub requests_memory : Text
  pub limits_cpu : Text
  pub limits_memory : Text

-- `type` is a JobType.
pub record SyncJobConfig : Type 0 where
  pub id : Text
  pub type : Text
  pub name : Text
  pub created : ℕ
  pub target : Text
  pub repository : Text
  pub batch_size : ℕ
  pub concurrency : ℕ
  pub rate_limit : ℕ
  pub incremental : Bool
  pub force : Bool
  pub dry_run : Bool
  pub namespace : Text
  pub image : Text
  pub resources : Option JobResourceRequirements
  pub parallelism : Option ℕ
  pub completions : Option ℕ
  pub timeout_sec : Option ℕ
  pub safe_mode : Bool

-- The fields of a result that the scheduler sets; it leaves the others empty.
pub record JobResult : Type 0 where
  pub job_id : Text
  pub status : JobStatus
  pub start_time : Option ℕ
  pub completion_time : Option ℕ
  pub duration : ℕ
  pub total_issues : ℕ
  pub successful_sync : ℕ
  pub failed_sync : ℕ

pub record JobFilter : Type 0 where
  pub type : List Text
  pub status : List JobStatus
  pub created_since : Option ℕ
  pub created_before : Option ℕ
  pub namespace : Text
  pub limit : ℕ
  pub offset : ℕ

pub record QueueStatus : Type 0 where
  pub total_jobs : ℕ
  pub pending_jobs : ℕ
  pub running_jobs : ℕ
  pub completed_jobs : ℕ
  pub failed_jobs : ℕ

-- A `batchv1.JobCondition`.
pub record JobCondition : Type 0 where
  pub type : Text
  pub status : Text
  pub message : Text

-- The four quantities of a `corev1.ResourceRequirements`, parsed; `Q` is the type of a quantity.
pub record Quantities (Q : Type 0) : Type 0 where
  pub request_cpu : Option Q
  pub request_memory : Option Q
  pub limit_cpu : Option Q
  pub limit_memory : Option Q

-- A `batchv1.Job` with its first container. A nil map is `none`.
pub record KubernetesJob (Q : Type 0) : Type 0 where
  pub name : Text
  pub namespace : Text
  pub labels : Option (Assoc Text)
  pub annotations : Option (Assoc Text)
  pub args : List Text
  pub image : Text
  pub resources : Quantities Q
  pub env : List (Text × Text)
  pub parallelism : Option ℕ
  pub completions : Option ℕ
  pub active_deadline_seconds : Option ℕ
  pub conditions : List JobCondition
  pub active : ℕ
  pub succeeded : ℕ
  pub failed : ℕ
  pub start_time : Option ℕ
  pub completion_time : Option ℕ
