-- ===== src/State/Types.antt =====
-- pkg/state/types.go: the sync state of a repository, its operations, issues and statistics.
-- An `int`, `int64` or `time.Duration` is a 64-bit pattern, a `time.Time` counts nanoseconds from
-- the zero time.
use jira_cdc_git.Prelude.{ℕ, Bool, Option, List}
use jira_cdc_git.Prelude.Text.{Text}
use jira_cdc_git.Prelude.Assoc.{Assoc}

pub data SyncType : Type 0 where
  issues jql incremental full : SyncType

pub data SyncStatus : Type 0 where
  pending running completed failed cancelled partial : SyncStatus
  other : Text → SyncStatus

pub record OperationResults : Type 0 where
  pub total_issues : ℕ
  pub processed_issues : ℕ
  pub successful_sync : ℕ
  pub failed_sync : ℕ
  pub skipped_issues : ℕ
  pub processed_files : List Text
  pub error_count : ℕ

pub record SyncConfig : Type 0 where
  pub concurrency : ℕ
  pub rate_limit : ℕ
  pub incremental : Bool
  pub force : Bool
  pub dry_run : Bool
  pub include_links : Bool

pub record SyncOperation : Type 0 where
  pub id : Text
  pub type : SyncType
  pub query : Text
  pub issue_keys : List Text
  pub start_time : ℕ
  pub end_time : ℕ
  pub duration : ℕ
  pub status : SyncStatus
  pub results : OperationResults
  pub config : SyncConfig
  pub error : Text
  pub metadata : Assoc Text

pub record RepositoryInfo : Type 0 where
  pub path : Text
  pub branch : Text
  pub remote_url : Text
  pub initial_sync : Bool

pub record IssueState : Type 0 where
  pub key : Text
  pub project_key : Text
  pub last_synced : ℕ
  pub last_modified : ℕ
  pub last_updated : ℕ
  pub version : ℕ
  pub file_path : Text
  pub file_size : ℕ
  pub checksum : Text
  pub sync_status : Text
  pub error_message : Text
  pub sync_count : ℕ

pub record SyncStatistics : Type 0 where
  pub total_operations : ℕ
  pub successful_ops : ℕ
  pub failed_ops : ℕ
  pub total_issues_synced : ℕ
  pub total_sync_time : ℕ
  pub avg_sync_time : ℕ
  pub last_successful_op : ℕ
  pub last_failed_op : ℕ
  pub unique_issues : ℕ
  pub active_projects : List Text

-- `L` is what `LastSync` points to the operation by, `M` is the type of the issue map: see `State`
-- and `StateFile`.
pub record SyncState (L M : Type 0) : Type 0 where
  pub version : Text
  pub repository : RepositoryInfo
  pub last_sync : Option L
  pub history : List SyncOperation
  pub issues : M
  pub stats : SyncStatistics
  pub created_at : ℕ
  pub updated_at : ℕ

-- In memory `LastSync` is a pointer, an index into the heap of operations, and `Issues` is a map.
abbrev pub State : Type 0
State = SyncState ℕ (Assoc IssueState)

-- As read or written, `LastSync` is the operation itself, and `Issues` may be nil.
abbrev pub StateFile : Type 0
StateFile = SyncState SyncOperation (Option (Assoc IssueState))

pub record IncrementalSyncOptions : Type 0 where
  pub since : ℕ
  pub force : Bool
  pub include_new : Bool
  pub include_modified : Bool
  pub max_age : ℕ
  pub projects : List Text

-- The messages of a validation, with what is put into them.
pub data Message : Type 0 where
  file_missing : (key path : Text) → Message
  cannot_access cannot_checksum checksum_mismatch : (key : Text) → Message
  orphaned_file remove_failed : (path : Text) → Message
  scan_failed run_full_resync remove_orphaned_files repair_corrupted_files : Message

pub record StateValidationResult : Type 0 where
  pub valid : Bool
  pub errors : List Message
  pub warnings : List Message
  pub missing_issues : List Text
  pub orphaned_files : List Text
  pub corrupted_files : List Text
  pub recommended_actions : List Message

pub data RecoveryAction : Type 0 where
  full_resync remove_orphans repair_state skip_corrupted validate_only : RecoveryAction
  other_action : Text → RecoveryAction

pub record StateRecoveryOptions : Type 0 where
  pub actions : List RecoveryAction
  pub dry_run : Bool
  pub backup_first : Bool
  pub force : Bool
  pub max_retries : ℕ
