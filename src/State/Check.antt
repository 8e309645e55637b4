-- ===== src/State/Check.antt =====
-- pkg/state/manager.go: validation of the state against the repository's files, and recovery.
pub mod Validity
pub mod Sparing
pub mod Recovering
use jira_cdc_git.Prelude.{
  Bool, true, false, not, Option, none, some, List, [], ◌∷◌, ◌++◌, if◌then◌else◌, any,
}
use jira_cdc_git.Prelude.Text.{Text, codes, text_eq}
use jira_cdc_git.Prelude.Assoc.{Assoc, lookup, remove}
use jira_cdc_git.Prelude.FilePath.{ext}
use jira_cdc_git.State.Types.{
  IssueState, State, Message, file_missing, cannot_access, cannot_checksum, checksum_mismatch,
  orphaned_file, remove_failed, scan_failed, run_full_resync, remove_orphaned_files,
  repair_corrupted_files, StateValidationResult, RecoveryAction, remove_orphans, repair_state,
  StateRecoveryOptions,
}
use jira_cdc_git.State.Platform.{Platform, Disk, Faults, WalkEntry}
use jira_cdc_git.State.Persist.{StateError, FileStateManager}
use jira_cdc_git.State.Backup.{backup_state}
use jira_cdc_git.State.Issues.{calculate_file_checksum}

abbrev pub empty_result : StateValidationResult
empty_result = record {
  valid = true;
  errors = [];
  warnings = [];
  missing_issues = [];
  orphaned_files = [];
  corrupted_files = [];
  recommended_actions = [];
}

unfoldable pub add_warning : StateValidationResult → Message → StateValidationResult
add_warning r w = record r { warnings = r.warnings ++ w ∷ [] }

-- A file that is there: its checksum against the one on record.
unfoldable pub check_checksum :
    Text → Option Text → Text → StateValidationResult → StateValidationResult
unfolding add_warning
check_checksum key none recorded r = add_warning r (cannot_checksum key)
check_checksum key (some sum) recorded r =
    if text_eq sum recorded then r else add_warning r (checksum_mismatch key)

-- The three outcomes of `os.Stat`: not there, another error, there.
unfoldable pub check_file :
    Platform
    → Faults
    → Disk
    → Text
    → IssueState
    → Option Text
    → Bool
    → StateValidationResult
    → StateValidationResult
check_file p f d key i none false r = record r {
  missing_issues = r.missing_issues ++ key ∷ [];
  valid = false;
  errors = r.errors ++ file_missing key i.file_path ∷ [];
}
check_file p f d key i found true r = record r {
  corrupted_files = r.corrupted_files ++ i.file_path ∷ [];
  valid = false;
  errors = r.errors ++ cannot_access key ∷ [];
}
check_file p f d key i (some bytes) false r =
    check_checksum key (calculate_file_checksum p f d i.file_path) i.checksum r

unfoldable pub check_issue :
    Platform → Faults → Disk → Text → IssueState → StateValidationResult → StateValidationResult
check_issue p f d key i r = check_file p f d key i (lookup i.file_path d) (f.stat i.file_path) r

unfoldable pub check_issues :
    Platform → Faults → Disk → Assoc IssueState → StateValidationResult → StateValidationResult
check_issues p f d [] r = r
check_issues p f d ((k, i) ∷ m) r = check_issues p f d m (check_issue p f d k i r)

unfoldable pub is_tracked : Assoc IssueState → Text → Bool
is_tracked m path = any (λ (e : Text × IssueState). text_eq e.1.file_path path) m

-- The callback of the walk. An entry with an error ends the walk, which then returns that error.
unfoldable pub scan_files :
    Assoc IssueState → List WalkEntry → StateValidationResult → StateValidationResult
unfolding is_tracked
scan_files m [] r = r
scan_files m (e ∷ es) r =
    let skipped = scan_files m es r in
    let orphaned = scan_files m es (record r {
      orphaned_files = r.orphaned_files ++ e.path ∷ [];
      warnings = r.warnings ++ orphaned_file e.path ∷ [];
    }) in
    if e.failed
    then record r { errors = r.errors ++ scan_failed ∷ []; valid = false }
    else if e.is_dir
    then skipped
    else if not (text_eq (ext e.path) (codes ".yaml"))
    then skipped
    else if is_tracked m e.path
    then skipped
    else orphaned

unfoldable pub recommend : List Text → Message → List Message → List Message
recommend [] a as_ = as_
recommend (x ∷ xs) a as_ = as_ ++ a ∷ []

unfoldable pub add_recommendations : StateValidationResult → StateValidationResult
unfolding recommend
add_recommendations r = record r {
  recommended_actions = recommend r.corrupted_files repair_corrupted_files (
      recommend r.orphaned_files remove_orphaned_files
        (recommend r.missing_issues run_full_resync r.recommended_actions));
}

-- `walk` is what lies under the `projects` directory, if that is there.
unfoldable pub validate_state :
    Platform → Faults → Disk → Option (List WalkEntry) → State → StateValidationResult
unfolding check_issues scan_files add_recommendations
validate_state p f d walk s =
    let checked = check_issues p f d s.issues empty_result in
    add_recommendations
      (elim walk [ none ↦ checked | some entries ↦ scan_files s.issues entries checked ])

abbrev pub removable : Faults → Text → Option Text → Bool
removable f path none = false
removable f path (some bytes) = not (f.remove path)

-- `os.Remove` of an orphan; a failure is a warning.
unfoldable pub remove_file :
    Faults → Text → Disk × StateValidationResult → Disk × StateValidationResult
remove_file f path (d, r) =
    if removable f path (lookup path d)
    then (remove path d, r)
    else (d, add_warning r (remove_failed path))

unfoldable pub remove_files :
    Faults → List Text → Disk × StateValidationResult → Disk × StateValidationResult
remove_files f [] dr = dr
remove_files f (path ∷ paths) dr = remove_files f paths (remove_file f path dr)

unfoldable pub remove_keys : List Text → Assoc IssueState → Assoc IssueState
remove_keys [] m = m
remove_keys (k ∷ ks) m = remove_keys ks (remove k m)

pub record Recovery : Type 0 where
  pub disk : Disk
  pub state : State
  pub result : StateValidationResult

-- One turn of the loop over the actions.
unfoldable pub recover_action : Faults → Bool → RecoveryAction → Recovery → Recovery
recover_action f dry_run remove_orphans v =
    if dry_run
    then v
    else (let (d, r) = remove_files f v.result.orphaned_files (v.disk, v.result) in
        record v { disk = d; result = r })
recover_action f dry_run repair_state v = if dry_run then v else record v {
  state = record v.state { issues = remove_keys v.result.missing_issues v.state.issues };
}
recover_action f dry_run _ v = v

unfoldable pub recover_actions : Faults → Bool → List RecoveryAction → Recovery → Recovery
recover_actions f dry_run [] v = v
recover_actions f dry_run (a ∷ rest) v =
    recover_actions f dry_run rest (recover_action f dry_run a v)

-- The backup, if it is asked for.
unfoldable pub backup_if : Bool → FileStateManager → Faults → Disk → Text → Disk × Option StateError
backup_if true m f d repo = backup_state m f d repo
backup_if false m f d repo = (d, none)

-- A backup that fails ends the recovery, with the validation as its result.
unfoldable pub recover_after :
    Faults → StateRecoveryOptions → Option StateError → Recovery → Recovery × Option StateError
recover_after f o (some x) v = (v, some x)
recover_after f o none v = (recover_actions f o.dry_run o.actions v, none)

unfoldable pub recover_state :
    Platform
    → FileStateManager
    → Faults
    → Disk
    → Option (List WalkEntry)
    → Text
    → State
    → StateRecoveryOptions
    → Recovery × Option StateError
recover_state p m f d walk repo s o =
    let result = validate_state p f d walk s in
    let (d', e) = backup_if o.backup_first m f d repo in
    recover_after f o e (record { disk = d'; state = s; result = result })
