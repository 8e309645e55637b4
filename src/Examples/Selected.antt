-- ===== src/Examples/Selected.antt =====
-- Incremental syncs of the sample repository.
use jira_cdc_git.Prelude.{◌≡◌, refl, true, false, List, [], ◌∷◌, select}
use jira_cdc_git.Prelude.Text.{Text, codes}
use jira_cdc_git.State.Types.{incremental}
use jira_cdc_git.Sync.Incremental.{IncrementalSyncOptions, filter_issues_for_incremental}
use jira_cdc_git.Sync.Incremental.Selection.{is_taken, filter_selects, filter_ignores}
use jira_cdc_git.Sync.Engine.{start_session, sync_session}
use jira_cdc_git.Sync.Engine.Recorded.{IsRecorded, sync_session-IsRecorded}
use jira_cdc_git.Examples.Samples.{repo, key_1, key_2, state, runtime, session, env, answer}

abbrev keys : List Text
keys = key_1 ∷ key_2 ∷ codes "NEW-1" ∷ []

abbrev pub options : IncrementalSyncOptions
options = record {
  force = false;
  dry_run = false;
  since = 0;
  max_age = 0;
  projects = [];
  include_new = true;
  include_modified = true;
}

abbrev narrower : IncrementalSyncOptions
narrower = record options { since = 60; max_age = 5; projects = codes "OTHER" ∷ [] }

filter_selects_example :
    (filter_issues_for_incremental runtime options state keys env).0
    ≡ select (is_taken runtime answer options state) keys
filter_selects_example = filter_selects runtime answer (λ key w. refl) options state keys env

filter_ignores_example :
    filter_issues_for_incremental runtime options state keys env
    ≡ filter_issues_for_incremental runtime narrower state keys env
filter_ignores_example =
    filter_ignores runtime (λ w. refl) options narrower state keys env refl refl refl

sync_session-IsRecorded_example :
    let ((b, e), y) = sync_session runtime keys repo options session in
    let started = (start_session runtime incremental options session).1 in
    let taken = (filter_issues_for_incremental runtime options started.state keys started.env).0 in
    IsRecorded incremental taken b.failed_sync session.state y.state
sync_session-IsRecorded_example = sync_session-IsRecorded runtime keys repo options session
