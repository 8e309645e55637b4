-- ===== src/Examples/Saved.antt =====
-- Saving, loading and the operations on the sample repository.
use jira_cdc_git.Prelude.{
  ◌≡◌, refl, ◌≢◌, ◌⊎◌, false, Option, none, some, ◌∷◌, [], ap, sym, arith, ◌++◌, length,
}
use jira_cdc_git.Prelude.Text.{Text, codes, text_eq, text_eq_iff}
use jira_cdc_git.Prelude.Assoc.{lookup}
use jira_cdc_git.Prelude.Sorting.{IsSorted, HasNoRepeats, contains}
use jira_cdc_git.Prelude.FilePath.{join}
use jira_cdc_git.State.Types.{State, jql, StateFile}
use jira_cdc_git.State.Heap.{Heap}
use jira_cdc_git.State.Platform.{Platform}
use jira_cdc_git.State.Persist.{
  ok, get_state_file_path, temp_file_path, dehydrate, stamp_state, load_state, save_present,
  write_encoded, write_state_file,
}
use jira_cdc_git.State.Persist.Saving.{save-atomic}
use jira_cdc_git.State.Persist.RoundTrip.{load-save}
use jira_cdc_git.State.Operations.{
  no_results, completed_operation, start_sync_operation, complete_sync_operation,
  fail_sync_operation, update_statistics, get_last_sync_time, last_completed, time_or_zero,
}
use jira_cdc_git.State.Operations.Accounting.{IsCounted, complete-IsCounted, new_state-IsCounted}
use jira_cdc_git.State.Operations.Projects.{has_project, active_projects-update_statistics}
use jira_cdc_git.State.Operations.LastSync.{last_sync_time_complete, last_sync_time-fail}
use jira_cdc_git.Examples.Samples.{
  repo, manager, no_faults, state, heap, disk, config, issue_path, repository, platform_for,
}

abbrev stamped_file : StateFile
stamped_file = dehydrate heap (stamp_state 100 state)

abbrev platform : Platform
platform = platform_for stamped_file

save-atomic_example :
    let (d', s', e) = save_present platform manager no_faults 100 disk heap repo state in
    let path = get_state_file_path manager repo in
    ((e ≡ none)
      × ((bytes : Text) × (platform.marshal manager.format (dehydrate heap (stamp_state 100 state))
            ≡ some bytes)
          × (lookup path d' ≡ some bytes)))
    ⊎ ((e ≢ none) × (lookup path d' ≡ lookup path disk))
save-atomic_example = save-atomic platform manager no_faults 100 disk heap repo state

apart : (a b : Text) → text_eq a b ≡ false → a ≢ b
apart a b h e = ground (arith, text_eq_iff a b)

issue_path-state_file : get_state_file_path manager repo ≢ issue_path
issue_path-state_file = apart (get_state_file_path manager repo) issue_path computed
  where
    computed : text_eq (get_state_file_path manager repo) issue_path ≡ false
    computed = unfold get_state_file_path join text_eq in refl

issue_path-temp_file : temp_file_path (get_state_file_path manager repo) ≢ issue_path
issue_path-temp_file = apart (temp_file_path (get_state_file_path manager repo)) issue_path computed
  where
    computed : text_eq (temp_file_path (get_state_file_path manager repo)) issue_path ≡ false
    computed = unfold temp_file_path get_state_file_path join text_eq in refl

text_or_empty : Option Text → Text
text_or_empty none = []
text_or_empty (some t) = t

decoded :
    (bytes : Text)
    → platform.marshal manager.format stamped_file ≡ some bytes
    → platform.unmarshal manager.format bytes ≡ some stamped_file
unfolding dehydrate stamp_state text_or_empty
decoded bytes e = ap (platform.unmarshal manager.format) (sym (ap text_or_empty e))

no_error : (save_present platform manager no_faults 100 disk heap repo state).2 ≡ none
unfolding save_present write_encoded write_state_file
no_error = refl

load-save_example :
    (h3 : Heap) × (s3 : State) × (load_state platform manager no_faults
        (save_present platform manager no_faults 100 disk heap repo state).0
        heap
        repo
      ≡ ok (h3, s3))
    × (dehydrate h3 s3 ≡ dehydrate heap (stamp_state 100 state))
unfolding dehydrate stamp_state
load-save_example =
    load-save platform manager no_faults no_faults 100 disk heap heap repo state decoded refl
      no_error

state-IsCounted : IsCounted state
state-IsCounted =
    let c = new_state-IsCounted 10 repository in
    record { total = c.total; successful = c.successful; failures = c.failures }

complete-IsCounted_example :
    let (h', s') = complete_sync_operation 60 heap state 0 no_results in
    let op = completed_operation 60 (heap.cell 0) no_results in
    IsCounted s'
    × (s'.history ≡ state.history ++ op ∷ [])
    × (h'.cell 0 ≡ op)
    × (s'.stats.unique_issues ≡ length state.issues)
complete-IsCounted_example = complete-IsCounted 60 heap state 0 no_results state-IsCounted

active_projects-update_statistics_example :
    let active =
      (update_statistics state
        (completed_operation 60 (heap.cell 0) no_results)).stats.active_projects in
    IsSorted active
    × HasNoRepeats active
    × ((x : Text) → contains x active ≡ has_project x state.issues)
active_projects-update_statistics_example =
    active_projects-update_statistics state (completed_operation 60 (heap.cell 0) no_results)

last_sync_time_complete_example :
    let (h1, s1, r) = start_sync_operation 20 heap state jql config in
    let (h2, s2) = complete_sync_operation 60 h1 s1 r no_results in get_last_sync_time h2 s2 ≡ 60
last_sync_time_complete_example = last_sync_time_complete 20 60 heap state jql config no_results

last_sync_time-fail_example :
    let (h1, s1, r) = start_sync_operation 20 heap state jql config in
    let (h2, s2) = fail_sync_operation 60 h1 s1 r (codes "e") in
    (get_last_sync_time h1 s1 ≡ time_or_zero (last_completed state.history))
    × (get_last_sync_time h2 s2 ≡ time_or_zero (last_completed state.history))
last_sync_time-fail_example = last_sync_time-fail 20 60 heap state jql config (codes "e")
