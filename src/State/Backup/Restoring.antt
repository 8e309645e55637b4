-- ===== src/State/Backup/Restoring.antt =====
-- pkg/state/manager.go: restoring what was backed up.
use jira_cdc_git.Prelude.{◌≡◌, ◌∙◌, Option, none, some, arith}
use jira_cdc_git.Prelude.Text.{Text, text_eq_refl}
use jira_cdc_git.Prelude.Assoc.{lookup, lookup-insert}
use jira_cdc_git.State.Platform.{Disk, Faults}
use jira_cdc_git.State.Persist.{
  StateError, FileStateManager, get_state_file_path, get_backup_file_path,
}
use jira_cdc_git.State.Backup.{copy_file, copy_found, backup_state, restore_state}

lookup-copy_file :
    (f : Faults) (d : Disk) (from to bytes : Text)
    → (copy_file f d from to bytes).1 ≡ none
    → lookup to (copy_file f d from to bytes).0 ≡ some bytes
unfolding copy_file
lookup-copy_file f d from to bytes e = ground (arith, lookup-insert to to bytes d, text_eq_refl to)

-- A copy that returns no error has found its source, and the target then holds the same.
lookup-copy_found :
    (missing : StateError) (f : Faults) (d : Disk) (from to : Text) (found : Option Text)
    → (copy_found missing f d from to found).1 ≡ none
    → lookup to (copy_found missing f d from to found).0 ≡ found
unfolding copy_found
lookup-copy_found missing f d from to none e = absurd cc
lookup-copy_found missing f d from to (some bytes) e = lookup-copy_file f d from to bytes e

-- If a backup and a later restore return no error, and the backup file was not changed between them,
-- then the state file holds again what it held when it was backed up, whatever was done to it and to
-- the other files in between.
pub restore-backup :
    (m : FileStateManager) (f f2 : Faults) (d d2 : Disk) (repo : Text)
    → (backup_state m f d repo).1 ≡ none
    → lookup (get_backup_file_path m repo) d2
      ≡ lookup (get_backup_file_path m repo) (backup_state m f d repo).0
    → (restore_state m f2 d2 repo).1 ≡ none
    → lookup (get_state_file_path m repo) (restore_state m f2 d2 repo).0
      ≡ lookup (get_state_file_path m repo) d
unfolding backup_state restore_state
restore-backup m f f2 d d2 repo saved kept restored =
    lookup-copy_found _ f2 d2 (get_backup_file_path m repo) (get_state_file_path m repo) _ restored
    ∙ (kept
        ∙ lookup-copy_found _ f d (get_state_file_path m repo) (get_backup_file_path m repo) _
            saved)
