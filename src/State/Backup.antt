-- ===== src/State/Backup.antt =====
-- pkg/state/manager.go: the first state of a repository, and the backup of its state file.
pub mod Restoring
use jira_cdc_git.Prelude.{ℕ, Option, none, some, [], if◌then◌else◌}
use jira_cdc_git.Prelude.Text.{Text}
use jira_cdc_git.Prelude.Assoc.{lookup, insert}
use jira_cdc_git.State.Types.{RepositoryInfo, SyncStatistics, State}
use jira_cdc_git.State.Heap.{Heap}
use jira_cdc_git.State.Platform.{Platform, Disk, Faults}
use jira_cdc_git.State.Persist.{
  StateError, open_failed, create_failed, copy_failed, backup_source_missing, no_backup,
  initial_save_failed, Result, ok, err, FileStateManager, state_file_version, get_state_file_path,
  get_backup_file_path, torn_write, save_present,
}

abbrev pub no_stats : SyncStatistics
no_stats = record {
  total_operations = 0;
  successful_ops = 0;
  failed_ops = 0;
  total_issues_synced = 0;
  total_sync_time = 0;
  avg_sync_time = 0;
  last_successful_op = 0;
  last_failed_op = 0;
  unique_issues = 0;
  active_projects = [];
}

abbrev pub new_state : ℕ → RepositoryInfo → State
new_state now info = record {
  version = state_file_version;
  repository = info;
  last_sync = none;
  history = [];
  issues = [];
  stats = no_stats;
  created_at = now;
  updated_at = now;
}

abbrev initial_result : Option StateError → State → Result State
initial_result none s = ok s
initial_result (some e) s = err (initial_save_failed e)

-- `InitializeState`; `saved_at` is the second reading of the clock, in `SaveState`.
unfoldable pub initialize_state :
    Platform
    → FileStateManager
    → Faults
    → ℕ
    → ℕ
    → Disk
    → Heap
    → Text
    → RepositoryInfo
    → Disk × Result State
initialize_state p m f now saved_at d h repo info =
    let (d', s, e) = save_present p m f saved_at d h repo (new_state now info) in
    (d', initial_result e s)

-- `os.Open`, `os.Create` and `io.Copy` from one file to another, once the source is known to exist.
unfoldable pub copy_file : Faults → Disk → Text → Text → Text → Disk × Option StateError
copy_file f d from to bytes =
    if f.read from
    then (d, some open_failed)
    else if f.write
    then (d, some create_failed)
    else if f.copy
    then (torn_write f.torn to (insert to [] d), some copy_failed)
    else (insert to bytes d, none)

-- The source may be missing, with an error of its own.
unfoldable pub copy_found :
    StateError → Faults → Disk → Text → Text → Option Text → Disk × Option StateError
copy_found missing f d from to none = (d, some missing)
copy_found missing f d from to (some bytes) = copy_file f d from to bytes

unfoldable pub backup_state : FileStateManager → Faults → Disk → Text → Disk × Option StateError
backup_state m f d repo =
    let from = get_state_file_path m repo in
    copy_found backup_source_missing f d from (get_backup_file_path m repo) (lookup from d)

unfoldable pub restore_state : FileStateManager → Faults → Disk → Text → Disk × Option StateError
restore_state m f d repo =
    let from = get_backup_file_path m repo in
    copy_found no_backup f d from (get_state_file_path m repo) (lookup from d)
