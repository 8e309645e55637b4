-- ===== src/Examples/Recovered.antt =====
-- Validating and recovering the sample repository, whose second issue has lost its file.
use jira_cdc_git.Prelude.{◌≡◌, true, false, ◌&&◌, Option, some, List, [], ◌∷◌}
use jira_cdc_git.Prelude.Text.{Text}
use jira_cdc_git.State.Types.{remove_orphans, repair_state, StateRecoveryOptions}
use jira_cdc_git.State.Platform.{Platform, WalkEntry}
use jira_cdc_git.State.Issues.{changed_keys}
use jira_cdc_git.State.Check.{validate_state}
use jira_cdc_git.State.Check.Validity.{is_missing, all_intact, scan_ok, validate_state_result}
use jira_cdc_git.Examples.Samples.{repo, no_faults, state, disk, runtime}

abbrev platform : Platform
platform = runtime.platform

abbrev walk : Option (List WalkEntry)
walk = some (record { path = repo; is_dir = true; failed = false } ∷ [])

abbrev dry : StateRecoveryOptions
dry = record {
  actions = repair_state ∷ [];
  dry_run = true;
  backup_first = false;
  force = false;
  max_retries = 0;
}

abbrev wet : StateRecoveryOptions
wet = record dry { actions = remove_orphans ∷ repair_state ∷ []; dry_run = false }

validate_state_result_example :
    let r = validate_state platform no_faults disk walk state in
    (r.valid ≡ (all_intact no_faults disk state.issues && scan_ok walk))
    × (r.missing_issues ≡ changed_keys (is_missing no_faults disk) state.issues)
validate_state_result_example = validate_state_result platform no_faults disk walk state
