-- ===== src/State/Issues/Tracking.antt =====
-- pkg/state/manager.go: what `UpdateIssueState` records, and when the issue is synced again.
use jira_cdc_git.Prelude.{
  ℕ, ◌≡◌, refl, ap, ◌∙◌, ◌≢◌, false, Option, none, some, ltb, if◌then◌else◌, length,
}
use jira_cdc_git.Prelude.Text.{Text, text_eq, text_eq_refl}
use jira_cdc_git.Prelude.Assoc.{lookup, lookup-insert}
use jira_cdc_git.Jira.{Issue}
use jira_cdc_git.State.Types.{IssueState, State}
use jira_cdc_git.State.Platform.{Platform, Disk, Faults}
use jira_cdc_git.State.Issues.{
  parse_jira_time, calculate_file_checksum, file_size, synced_issue, put_issue, update_measured,
  update_issue_state, should_sync_issue, updated_since,
}

update_measured_error :
    (p : Platform) (now : ℕ) (s : State) (issue : Issue) (path : Text) (checksum : Option Text)
    (size : Option ℕ)
    → (update_measured p now s issue path checksum size).1 ≢ none
    → (update_measured p now s issue path checksum size).0 ≡ s
unfolding update_measured
update_measured_error p now s issue path none size h = refl
update_measured_error p now s issue path (some c) none h = refl
update_measured_error p now s issue path (some c) (some n) h = absurd (h refl)

module _ (p : Platform) (f : Faults) (now : ℕ) (d : Disk) (s : State) (issue : Issue)
    (path : Text) where
  -- An update that returns an error has left the state as it was.
  pub update_issue_state_error :
      (update_issue_state p f now d s issue path).1 ≢ none
      → (update_issue_state p f now d s issue path).0 ≡ s
  unfolding update_issue_state
  update_issue_state_error h =
      update_measured_error p now s issue path (calculate_file_checksum p f d path)
        (file_size f d path) h

  module _ (bytes : Text) (there : lookup path d ≡ some bytes) (readable : f.read path ≡ false)
      (measurable : f.stat path ≡ false) where
    abbrev entry : IssueState
    entry = synced_issue p now issue path (p.hash bytes) (length bytes) (lookup issue.key s.issues)

    pub update_issue_state_ok :
        update_issue_state p f now d s issue path ≡ (put_issue s issue.key entry, none)
    unfolding update_issue_state calculate_file_checksum file_size update_measured
    update_issue_state_ok =
        rw (there, readable, measurable, update_measured, calculate_file_checksum, file_size)

    -- For a file that is there and that can be read and measured, the update returns no error; the
    -- issue's entry is then the new one, every other entry is as before, and the history is untouched.
    pub lookup-update_issue_state :
        let (s', e) = update_issue_state p f now d s issue path in
        (e ≡ none)
        × ((j : Text)
            → lookup j s'.issues ≡ (if text_eq issue.key j then some entry else lookup j s.issues))
        × (s'.history ≡ s.history)
    lookup-update_issue_state =
        rw update_issue_state_ok
          (unfold put_issue in (refl, λ j. lookup-insert issue.key j entry s.issues, refl))

    -- After an update at `now` for a file that is there and that can be read and measured, an issue of
    -- the same key is to be synced again exactly if its time of change is later than `now`.
    pub should_sync-update_issue_state :
        (later : Issue)
        → later.key ≡ issue.key
        → should_sync_issue p (update_issue_state p f now d s issue path).0 later
          ≡ ltb now (parse_jira_time p later.updated)
    unfolding should_sync_issue
    should_sync-update_issue_state later same = rw same (
        ap (updated_since (parse_jira_time p later.updated)) {y = some entry}
          (lookup-update_issue_state.1 issue.key ∙ rw (text_eq_refl issue.key)))
