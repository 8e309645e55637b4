-- ===== src/Examples/Tracked.antt =====
-- The issues of the sample repository: updates, and which of them are to be synced.
use jira_cdc_git.Prelude.{
  ◌≡◌, refl, ◌≢◌, ◌↔◌, ◌⊎◌, true, false, none, some, [], ◌∷◌, ltb, if◌then◌else◌,
}
use jira_cdc_git.Prelude.Text.{Text, codes, text_eq}
use jira_cdc_git.Prelude.Assoc.{lookup, HasUniqueKeys}
use jira_cdc_git.Prelude.Sorting.{contains}
use jira_cdc_git.State.Types.{IssueState, IncrementalSyncOptions}
use jira_cdc_git.State.Platform.{Platform, Faults}
use jira_cdc_git.State.Issues.{
  parse_jira_time, calculate_file_checksum, update_measured, update_issue_state, synced_issue,
  since_time, get_changed_issues, should_sync_issue,
}
use jira_cdc_git.State.Issues.Tracking.{lookup-update_issue_state, should_sync-update_issue_state}
use jira_cdc_git.State.Issues.Candidates.{IsCandidate, contains-get_changed_issues}
use jira_cdc_git.Examples.Samples.{issue_path, key_1, no_faults, state, heap, disk, issue, runtime}

abbrev platform : Platform
platform = runtime.platform

abbrev options : IncrementalSyncOptions
options = record {
  since = 20;
  force = false;
  include_new = true;
  include_modified = true;
  max_age = 0;
  projects = codes "PROJ" ∷ [];
}

abbrev unreadable : Faults
unreadable = record no_faults { read = λ path. true }

update_fails : (update_issue_state platform unreadable 50 disk state issue issue_path).1 ≢ none
unfolding update_issue_state update_measured calculate_file_checksum lookup text_eq
update_fails e = cc

on_disk : lookup issue_path disk ≡ some (codes "ab")
unfolding lookup text_eq
on_disk = refl

lookup-update_issue_state_example :
    let (s', e) = update_issue_state platform no_faults 50 disk state issue issue_path in
    let entry =
      synced_issue platform 50 issue issue_path (codes "ab") 2 (lookup key_1 state.issues) in
    (e ≡ none)
    × ((j : Text)
        → lookup j s'.issues ≡ (if text_eq key_1 j then some entry else lookup j state.issues))
    × (s'.history ≡ state.history)
lookup-update_issue_state_example =
    lookup-update_issue_state platform no_faults 50 disk state issue issue_path (codes "ab") on_disk
      refl refl

should_sync-update_issue_state_example :
    should_sync_issue platform
      (update_issue_state platform no_faults 50 disk state issue issue_path).0
      (record issue { updated = codes "9" })
    ≡ ltb 50 (parse_jira_time platform (codes "9"))
should_sync-update_issue_state_example =
    should_sync-update_issue_state platform no_faults 50 disk state issue issue_path (codes "ab")
      on_disk refl refl (record issue { updated = codes "9" }) refl

state-HasUniqueKeys : HasUniqueKeys state.issues
unfolding lookup text_eq
state-HasUniqueKeys = (refl, (refl, tt))

contains-get_changed_issues_example :
    (contains key_1 (get_changed_issues (λ i. 50) heap state options) ≡ true) ↔ (
      (i : IssueState) × (lookup key_1 state.issues ≡ some i)
      × ((false ≡ true)
          ⊎ ((false ≡ false) × IsCandidate 50 (since_time heap state options) options i)))
contains-get_changed_issues_example =
    contains-get_changed_issues (λ i. 50) heap state options key_1 state-HasUniqueKeys
