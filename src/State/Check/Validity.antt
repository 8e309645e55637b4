-- ===== src/State/Check/Validity.antt =====
-- pkg/state/manager.go: what `ValidateState` finds.
use jira_cdc_git.Prelude.{
  ◌≡◌, refl, ap, sym, ◌∙◌, Bool, true, false, not, ◌&&◌, Option, none, some, List, [], ◌∷◌, ◌++◌,
  arith, if◌then◌else◌, any, append-nil, append_assoc, Bool-cases, inl, inr,
}
use jira_cdc_git.Prelude.Text.{Text, text_eq}
use jira_cdc_git.Prelude.Assoc.{Assoc, lookup}
use jira_cdc_git.State.Types.{IssueState, State, orphaned_file, StateValidationResult}
use jira_cdc_git.State.Platform.{Platform, Disk, Faults, WalkEntry}
use jira_cdc_git.State.Issues.{changed_keys, calculate_file_checksum}
use jira_cdc_git.State.Check.{
  empty_result, check_checksum, check_file, check_issue, check_issues, scan_files,
  add_recommendations, validate_state,
}

abbrev pub absent : Option Text → Bool
absent none = true
absent (some bytes) = false

-- `os.Stat` says that the file is not there.
abbrev pub is_missing : Faults → Disk → IssueState → Bool
is_missing f d i = absent (lookup i.file_path d) && not (f.stat i.file_path)

-- The file is there and `os.Stat` succeeds.
abbrev pub is_intact : Faults → Disk → IssueState → Bool
is_intact f d i = not (absent (lookup i.file_path d)) && not (f.stat i.file_path)

abbrev pub all_intact : Faults → Disk → Assoc IssueState → Bool
all_intact f d [] = true
all_intact f d ((k, i) ∷ m) = is_intact f d i && all_intact f d m

-- The fields that the later theorems follow through the checks.
check_checksum-keeps :
    (key : Text) (sum : Option Text) (recorded : Text) (r : StateValidationResult)
    → ((check_checksum key sum recorded r).valid ≡ r.valid)
      × ((check_checksum key sum recorded r).missing_issues ≡ r.missing_issues)
unfolding check_checksum
check_checksum-keeps key none recorded r = (refl, refl)
check_checksum-keeps key (some sum) recorded r = elim (Bool-cases (text_eq sum recorded)) [
  | inl e ↦ rw e (refl, refl)
  | inr e ↦ rw e (refl, refl)
]

check_file_fields :
    (p : Platform) (f : Faults) (d : Disk) (k : Text) (i : IssueState) (found : Option Text)
    (failed : Bool) (r : StateValidationResult)
    → ((check_file p f d k i found failed r).valid
        ≡ (r.valid && (not (absent found) && not failed)))
      × ((check_file p f d k i found failed r).missing_issues
          ≡ r.missing_issues ++ (if absent found && not failed then k ∷ [] else []))
unfolding check_file
check_file_fields p f d k i none true r = (ground arith, sym (append-nil r.missing_issues))
check_file_fields p f d k i none false r = (ground arith, refl)
check_file_fields p f d k i (some b) true r = (ground arith, sym (append-nil r.missing_issues))
check_file_fields p f d k i (some b) false r =
    let (valid, missing) =
      check_checksum-keeps k (calculate_file_checksum p f d i.file_path) i.checksum r in
    (ground (arith, valid), missing ∙ sym (append-nil r.missing_issues))

cons_if :
    (xs : List Text) (k : Text) (ys : List Text) (b : Bool)
    → (xs ++ (if b then k ∷ [] else [])) ++ ys ≡ xs ++ (if b then k ∷ ys else ys)
cons_if xs k ys true = append_assoc xs (k ∷ []) ys
cons_if xs k ys false = ap (λ l. l ++ ys) (append-nil xs)

check_issues_fields :
    (p : Platform) (f : Faults) (d : Disk) (m : Assoc IssueState) (r : StateValidationResult)
    → ((check_issues p f d m r).valid ≡ (r.valid && all_intact f d m))
      × ((check_issues p f d m r).missing_issues
          ≡ r.missing_issues ++ changed_keys (is_missing f d) m)
unfolding check_issues check_issue changed_keys
check_issues_fields p f d [] r = (ground arith, sym (append-nil r.missing_issues))
check_issues_fields p f d ((k, i) ∷ m) r =
    let here : StateValidationResult = check_issue p f d k i r in
    let (valid, missing) =
      check_file_fields p f d k i (lookup i.file_path d) (f.stat i.file_path) r in
    let (valid', missing') = check_issues_fields p f d m here in
    (
      ground (arith, valid, valid'),
      missing'
          ∙ (ap (λ l. l ++ changed_keys (is_missing f d) m) missing
              ∙ cons_if r.missing_issues k (changed_keys (is_missing f d) m) (is_missing f d i)),
    )

abbrev pub walk_fails : List WalkEntry → Bool
walk_fails = any (λ (e : WalkEntry). e.failed)

scan_files_fields :
    (m : Assoc IssueState) (es : List WalkEntry) (r : StateValidationResult)
    → ((scan_files m es r).valid ≡ (r.valid && not (walk_fails es)))
      × ((scan_files m es r).missing_issues ≡ r.missing_issues)
unfolding scan_files
scan_files_fields m [] r = (ground arith, refl)
scan_files_fields m (e ∷ es) r = ground (
  arith,
  scan_files_fields m es r,
  scan_files_fields m es (record r {
    orphaned_files = r.orphaned_files ++ e.path ∷ [];
    warnings = r.warnings ++ orphaned_file e.path ∷ [];
  }),
)

abbrev pub scan_ok : Option (List WalkEntry) → Bool
scan_ok none = true
scan_ok (some es) = not (walk_fails es)

-- A validation says valid exactly if the file of every tracked issue is there, none of them fails to
-- be examined, and the scan of the directory, if there is one, meets no error. The missing issues it
-- lists are exactly those whose file is said not to be there, in the order of the issues.
pub validate_state_result :
    (p : Platform) (f : Faults) (d : Disk) (walk : Option (List WalkEntry)) (s : State)
    → let r = validate_state p f d walk s in
      (r.valid ≡ (all_intact f d s.issues && scan_ok walk))
      × (r.missing_issues ≡ changed_keys (is_missing f d) s.issues)
unfolding validate_state add_recommendations
validate_state_result p f d none s =
    let (valid, missing) = check_issues_fields p f d s.issues empty_result in
    (ground (arith, valid), missing)
validate_state_result p f d (some es) s =
    let checked = check_issues p f d s.issues empty_result in
    let (valid, missing) = check_issues_fields p f d s.issues empty_result in
    let (valid', missing') = scan_files_fields s.issues es checked in
    (ground (arith, valid, valid'), missing' ∙ missing)
