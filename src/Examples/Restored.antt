-- ===== src/Examples/Restored.antt =====
-- Backing up and restoring the sample repository, whose state file is lost in between.
use jira_cdc_git.Prelude.{◌≡◌, refl, none, ◌∷◌}
use jira_cdc_git.Prelude.Text.{codes, text_eq}
use jira_cdc_git.Prelude.Assoc.{lookup, insert}
use jira_cdc_git.Prelude.FilePath.{join}
use jira_cdc_git.State.Platform.{Disk}
use jira_cdc_git.State.Persist.{get_state_file_path, get_backup_file_path}
use jira_cdc_git.State.Backup.{copy_file, copy_found, backup_state, restore_state}
use jira_cdc_git.State.Backup.Restoring.{restore-backup}
use jira_cdc_git.Examples.Samples.{repo, manager, no_faults, disk}

abbrev before : Disk
before = (codes "/r/.jira-sync-state.yaml", codes "s") ∷ disk

-- The state file is gone.
abbrev damaged : Disk
damaged = (codes "/r/.jira-sync-state.backup.yaml", codes "s") ∷ disk

backed_up : (backup_state manager no_faults before repo).1 ≡ none
unfolding backup_state copy_found copy_file lookup get_state_file_path join text_eq
backed_up = refl

backup_kept :
    lookup (get_backup_file_path manager repo) damaged
    ≡ lookup (get_backup_file_path manager repo) (backup_state manager no_faults before repo).0
unfolding backup_state copy_found copy_file lookup insert get_state_file_path get_backup_file_path
    join text_eq
backup_kept = refl

restored : (restore_state manager no_faults damaged repo).1 ≡ none
unfolding restore_state copy_found copy_file lookup get_backup_file_path join text_eq
restored = refl

restore-backup_example :
    lookup (get_state_file_path manager repo) (restore_state manager no_faults damaged repo).0
    ≡ lookup (get_state_file_path manager repo) before
restore-backup_example =
    restore-backup manager no_faults no_faults before damaged repo backed_up backup_kept restored
