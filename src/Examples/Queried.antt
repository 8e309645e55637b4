-- ===== src/Examples/Queried.antt =====
-- A sync by a query of a repository with no state file.
use jira_cdc_git.Prelude.{ℕ, ◌≡◌, refl, none, [], ◌∷◌, map}
use jira_cdc_git.Prelude.Text.{codes, text_eq}
use jira_cdc_git.Prelude.Assoc.{lookup}
use jira_cdc_git.Prelude.FilePath.{join}
use jira_cdc_git.Jira.{Issue}
use jira_cdc_git.State.Types.{State}
use jira_cdc_git.State.Persist.{
  ok, get_state_file_path, load_state, stamp_state, save_present, write_encoded, write_state_file,
}
use jira_cdc_git.State.Backup.{new_state, initialize_state}
use jira_cdc_git.State.Operations.{start_sync_operation}
use jira_cdc_git.Sync.Services.{Outcome}
use jira_cdc_git.Sync.Engine.{
  Engine, initialize_loaded, initialize_repository, start_session, set_query, search_session,
  engine_of, sync_issues_incremental, sync_jql_incremental,
}
use jira_cdc_git.Sync.Engine.Query.{searched, sync_jql_incremental-sync_issues_incremental}
use jira_cdc_git.Examples.Samples.{repo, repository, issue, runtime, session}
use jira_cdc_git.Examples.Selected.{options}

abbrev engine : Engine ℕ
engine = engine_of runtime session

abbrev fresh : State
fresh = stamp_state 50 (new_state 50 repository)

initialized : (initialize_repository runtime repo engine).0 ≡ ok fresh
unfolding initialize_repository initialize_loaded load_state lookup text_eq get_state_file_path join
    initialize_state save_present write_encoded write_state_file
initialized = refl

found : (searched runtime (codes "q") repo options engine fresh).0.1 ≡ Outcome.ok (issue ∷ [])
unfolding search_session start_session set_query start_sync_operation initialize_repository
    initialize_loaded load_state lookup text_eq get_state_file_path join initialize_state
    save_present write_encoded write_state_file
found = refl

again :
    (initialize_repository runtime repo
      (engine_of runtime (searched runtime (codes "q") repo options engine fresh).1)).0
    ≡ ok fresh
unfolding search_session start_session set_query start_sync_operation initialize_repository
    initialize_loaded load_state lookup text_eq get_state_file_path join initialize_state
    save_present write_encoded write_state_file
again = refl

sync_jql_incremental-sync_issues_incremental_example :
    sync_jql_incremental runtime (codes "q") repo options engine
    ≡ sync_issues_incremental runtime
        (map (λ (i : Issue). i.key) (issue ∷ []))
        repo
        options
        (record (engine_of runtime (searched runtime (codes "q") repo options engine fresh).1) {
          state = none;
        })
sync_jql_incremental-sync_issues_incremental_example =
    sync_jql_incremental-sync_issues_incremental runtime (codes "q") repo options engine fresh fresh
      (issue ∷ []) initialized found again
