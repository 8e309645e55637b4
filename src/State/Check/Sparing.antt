-- ===== src/State/Check/Sparing.antt =====
-- pkg/state/manager.go: the files of tracked issues that a recovery leaves on the disk.
use jira_cdc_git.Prelude.{
  ◌||◌, ◌≡◌, refl, ap, ◌∙◌, Bool, true, false, Option, none, some, List, [], ◌∷◌, ◌++◌, arith,
  Bool-cases, inl, inr,
}
use jira_cdc_git.Prelude.Text.{Text, text_eq, text_eq_iff, text_eq_refl}
use jira_cdc_git.Prelude.Assoc.{Assoc, lookup, insert, lookup-insert, lookup-remove}
use jira_cdc_git.Prelude.Sorting.{contains}
use jira_cdc_git.State.Types.{
  IssueState, State, StateValidationResult, RecoveryAction, full_resync, remove_orphans,
  repair_state, skip_corrupted, validate_only, other_action, orphaned_file,
}
use jira_cdc_git.State.Platform.{Platform, Disk, Faults, WalkEntry}
use jira_cdc_git.State.Persist.{StateError, FileStateManager, torn_write}
use jira_cdc_git.State.Backup.{copy_file, copy_found, backup_state}
use jira_cdc_git.State.Issues.{calculate_file_checksum}
use jira_cdc_git.State.Check.{
  empty_result, add_warning, check_checksum, check_file, check_issue, check_issues, is_tracked,
  scan_files, add_recommendations, validate_state, removable, remove_file, remove_files, backup_if,
  Recovery, recover_action, recover_actions,
}
use jira_cdc_git.State.Check.Validity.{absent}

-- The file of an issue that the state holds is tracked.
pub lookup-is_tracked :
    (k : Text) (i : IssueState) (m : Assoc IssueState)
    → lookup k m ≡ some i
    → is_tracked m i.file_path ≡ true
unfolding lookup is_tracked
lookup-is_tracked k i [] h = cc
lookup-is_tracked k i ((j, w) ∷ m) h =
    ground (arith, lookup-is_tracked k i m, text_eq_refl i.file_path)

check_checksum-orphans :
    (key : Text) (sum : Option Text) (recorded : Text) (r : StateValidationResult)
    → (check_checksum key sum recorded r).orphaned_files ≡ r.orphaned_files
unfolding check_checksum
check_checksum-orphans key none recorded r = refl
check_checksum-orphans key (some sum) recorded r = elim (Bool-cases (text_eq sum recorded)) [
  | inl e ↦ rw e refl
  | inr e ↦ rw e refl
]

check_file-orphans :
    (p : Platform) (f : Faults) (d : Disk) (k : Text) (i : IssueState) (found : Option Text)
    (failed : Bool) (r : StateValidationResult)
    → (check_file p f d k i found failed r).orphaned_files ≡ r.orphaned_files
unfolding check_file
check_file-orphans p f d k i none true r = refl
check_file-orphans p f d k i none false r = refl
check_file-orphans p f d k i (some b) true r = refl
check_file-orphans p f d k i (some b) false r =
    check_checksum-orphans k (calculate_file_checksum p f d i.file_path) i.checksum r

check_issues-orphans :
    (p : Platform) (f : Faults) (d : Disk) (m : Assoc IssueState) (r : StateValidationResult)
    → (check_issues p f d m r).orphaned_files ≡ r.orphaned_files
unfolding check_issues check_issue
check_issues-orphans p f d [] r = refl
check_issues-orphans p f d ((k, i) ∷ m) r =
    check_issues-orphans p f d m (check_issue p f d k i r)
    ∙ check_file-orphans p f d k i (lookup i.file_path d) (f.stat i.file_path) r

contains-snoc :
    (x y : Text) (ys : List Text) → contains x (ys ++ y ∷ []) ≡ (contains x ys || text_eq y x)
contains-snoc x y [] = ground arith
contains-snoc x y (z ∷ zs) = ground (arith, contains-snoc x y zs)

-- The scan calls no tracked file an orphan.
scan_files-orphans :
    (path : Text) (m : Assoc IssueState) (es : List WalkEntry) (r : StateValidationResult)
    → is_tracked m path ≡ true
    → contains path (scan_files m es r).orphaned_files ≡ contains path r.orphaned_files
unfolding scan_files
scan_files-orphans path m [] r h = refl
scan_files-orphans path m (e ∷ es) r h =
    let r' : StateValidationResult = record r {
      orphaned_files = r.orphaned_files ++ e.path ∷ [];
      warnings = r.warnings ++ orphaned_file e.path ∷ [];
    } in
    ground (
      arith,
      scan_files-orphans path m es r h,
      scan_files-orphans path m es r' h,
      contains-snoc path e.path r.orphaned_files,
      text_eq_iff e.path path,
      h,
    )

pub validate_state-orphans :
    (p : Platform) (f : Faults) (d : Disk) (walk : Option (List WalkEntry)) (s : State)
    (path : Text)
    → is_tracked s.issues path ≡ true
    → contains path (validate_state p f d walk s).orphaned_files ≡ false
unfolding validate_state add_recommendations
validate_state-orphans p f d none s path h =
    ap (contains path) (check_issues-orphans p f d s.issues empty_result)
validate_state-orphans p f d (some es) s path h =
    scan_files-orphans path s.issues es (check_issues p f d s.issues empty_result) h
    ∙ ap (contains path) (check_issues-orphans p f d s.issues empty_result)

-- Removing files leaves every other one, and the list of orphans.
remove_file-keeps :
    (f : Faults) (path x : Text) (d : Disk) (r : StateValidationResult)
    → (text_eq x path ≡ false → lookup path (remove_file f x (d, r)).0 ≡ lookup path d)
      × ((remove_file f x (d, r)).1.orphaned_files ≡ r.orphaned_files)
unfolding remove_file add_warning
remove_file-keeps f path x d r = elim (Bool-cases (removable f x (lookup x d))) [
  | inl e ↦ rw e ((λ h. lookup-remove x path d ∙ rw h refl), refl)
  | inr e ↦ rw e ((λ h. refl), refl)
]

remove_files-keeps :
    (f : Faults) (path : Text) (xs : List Text) (d : Disk) (r : StateValidationResult)
    → (contains path xs ≡ false → lookup path (remove_files f xs (d, r)).0 ≡ lookup path d)
      × ((remove_files f xs (d, r)).1.orphaned_files ≡ r.orphaned_files)
unfolding remove_files
remove_files-keeps f path [] d r = ((λ h. refl), refl)
remove_files-keeps f path (x ∷ xs) d r =
    let y = remove_file f x (d, r) in
    let (here, list) = remove_file-keeps f path x d r in
    let (rest, list') = remove_files-keeps f path xs y.0 y.1 in
    ((λ h. rest (ground arith) ∙ here (ground arith)), list' ∙ list)

pub recover_actions-keeps :
    (f : Faults) (path : Text) (as_ : List RecoveryAction) (v : Recovery)
    → contains path v.result.orphaned_files ≡ false
    → lookup path (recover_actions f false as_ v).disk ≡ lookup path v.disk
unfolding recover_actions recover_action
recover_actions-keeps f path [] v h = refl
recover_actions-keeps f path (remove_orphans ∷ as_) v h =
    let (kept, list) = remove_files-keeps f path v.result.orphaned_files v.disk v.result in
    recover_actions-keeps f path as_ (recover_action f false remove_orphans v)
      (ap (contains path) list ∙ h)
    ∙ kept h
recover_actions-keeps f path (repair_state ∷ as_) v h =
    recover_actions-keeps f path as_ (recover_action f false repair_state v) h
recover_actions-keeps f path (full_resync ∷ as_) v h = recover_actions-keeps f path as_ v h
recover_actions-keeps f path (skip_corrupted ∷ as_) v h = recover_actions-keeps f path as_ v h
recover_actions-keeps f path (validate_only ∷ as_) v h = recover_actions-keeps f path as_ v h
recover_actions-keeps f path (other_action t ∷ as_) v h = recover_actions-keeps f path as_ v h

-- A write of any kind takes no file away.
insert-keeps :
    (path to bytes : Text) (d : Disk)
    → absent (lookup path d) ≡ false
    → absent (lookup path (insert to bytes d)) ≡ false
insert-keeps path to bytes d h = ground (arith, lookup-insert to path bytes d)

torn_write-keeps :
    (path : Text) (torn : Option Text) (to : Text) (d : Disk)
    → absent (lookup path d) ≡ false
    → absent (lookup path (torn_write torn to d)) ≡ false
torn_write-keeps path none to d h = h
torn_write-keeps path (some part) to d h = insert-keeps path to part d h

copy_file-keeps :
    (path : Text) (f : Faults) (d : Disk) (from to bytes : Text)
    → absent (lookup path d) ≡ false
    → absent (lookup path (copy_file f d from to bytes).0) ≡ false
unfolding copy_file
copy_file-keeps path f d from to bytes h = ground (
  arith,
  h,
  insert-keeps path to bytes d h,
  torn_write-keeps path f.torn to (insert to [] d) (insert-keeps path to [] d h),
)

copy_found-keeps :
    (path : Text) (missing : StateError) (f : Faults) (d : Disk) (from to : Text)
    (found : Option Text)
    → absent (lookup path d) ≡ false
    → absent (lookup path (copy_found missing f d from to found).0) ≡ false
unfolding copy_found
copy_found-keeps path missing f d from to none h = h
copy_found-keeps path missing f d from to (some bytes) h = copy_file-keeps path f d from to bytes h

pub backup_if-keeps :
    (path : Text) (b : Bool) (m : FileStateManager) (f : Faults) (d : Disk) (repo : Text)
    → absent (lookup path d) ≡ false
    → absent (lookup path (backup_if b m f d repo).0) ≡ false
unfolding backup_if backup_state
backup_if-keeps path false m f d repo h = h
backup_if-keeps path true m f d repo h = copy_found-keeps path _ f d _ _ _ h
