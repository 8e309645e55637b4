-- ===== src/Operator/Types.antt =====
-- internal/operator/types/types.go: the JIRASync resource. A `metav1.Time` is a time as in
-- pkg/state, a pointer to one an option of it.
use jira_cdc_git.Prelude.{ℕ, Bool, Option, List}
use jira_cdc_git.Prelude.Text.{Text}
use jira_cdc_git.Prelude.Assoc.{Assoc}

pub record SyncTarget : Type 0 where
  pub issue_keys : List Text
  pub jql_query : Text
  pub project_key : Text
  pub epic_key : Text

pub record GitDestination : Type 0 where
  pub repository : Text
  pub branch : Text
  pub path : Text

-- `F` is the type of a float.
pub record RetryPolicy (F : Type 0) : Type 0 where
  pub max_retries : ℕ
  pub backoff_multiplier : F
  pub initial_delay : ℕ

pub record JiraSyncSpec (F : Type 0) : Type 0 where
  pub sync_type : Text
  pub target : SyncTarget
  pub destination : GitDestination
  pub schedule : Text
  pub retry_policy : Option (RetryPolicy F)

-- A `metav1.Condition`; its observed generation is not set by the operator.
pub record Condition : Type 0 where
  pub type : Text
  pub status : Text
  pub last_transition_time : ℕ
  pub reason : Text
  pub message : Text

pub record SyncStats : Type 0 where
  pub total_issues : ℕ
  pub processed_issues : ℕ
  pub failed_issues : ℕ
  pub last_sync_time : Option ℕ
  pub duration : Text
  pub start_time : Option ℕ

pub record JobReference : Type 0 where
  pub name : Text
  pub namespace : Text

pub record ProgressInfo (F : Type 0) : Type 0 where
  pub percentage : ℕ
  pub current_operation : Text
  pub total_operations : ℕ
  pub completed_operations : ℕ
  pub estimated_completion : Option ℕ
  pub processing_rate : F
  pub stage : Text

-- A nil map is `none`, and so is a nil list of issues.
pub record SyncState : Type 0 where
  pub operation_id : Text
  pub config_hash : Text
  pub active_issues : Option (List Text)
  pub last_successful_config : Text
  pub metadata : Option (Assoc Text)
  pub health_status : Text

pub record JiraSyncStatus (F : Type 0) : Type 0 where
  pub phase : Text
  pub conditions : List Condition
  pub sync_stats : Option SyncStats
  pub job_ref : Option JobReference
  pub observed_generation : ℕ
  pub progress : Option (ProgressInfo F)
  pub sync_state : Option SyncState
  pub last_error : Text
  pub retry_count : ℕ
  pub last_status_update : Option ℕ

-- The metadata that the operator reads: a deletion time that is set, the finalizers, the annotations.
pub record JiraSync (F : Type 0) : Type 0 where
  pub generation : ℕ
  pub deleted : Bool
  pub finalizers : List Text
  pub annotations : Assoc Text
  pub spec : JiraSyncSpec F
  pub status : JiraSyncStatus F
