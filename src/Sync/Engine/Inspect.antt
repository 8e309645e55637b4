-- ===== src/Sync/Engine/Inspect.antt =====
-- internal/sync/incremental.go: candidates, validation, recovery and reports of the engine.
use jira_cdc_git.Prelude.{ℕ, Bool, true, false, Option, none, some, List, []}
use jira_cdc_git.Prelude.Text.{Text}
use jira_cdc_git.State.Types.{
  IssueState, IncrementalSyncOptions, SyncOperation, SyncStatistics, State, StateValidationResult,
  StateRecoveryOptions,
}
use jira_cdc_git.State.Platform.{WalkEntry, Disk}
use jira_cdc_git.State.Persist.{StateError, Result, ok, err}
use jira_cdc_git.State.Backup.{no_stats}
use jira_cdc_git.State.Operations.{get_last_sync_time, get_sync_statistics, get_history_report}
use jira_cdc_git.State.Issues.{get_changed_issues}
use jira_cdc_git.State.Check.{validate_state, Recovery, recover_state}
use jira_cdc_git.Sync.Runtime.{Runtime, Session}
use jira_cdc_git.Sync.Engine.{Engine, initialize_repository, save_session, engine_of}

pub data InspectError : Type 0 where
  no_repository unrecovered unsaved : StateError → InspectError

module _ {W : Type 0} (rt : Runtime W) where
  abbrev changed_in :
      (IssueState → ℕ) → Engine W → IncrementalSyncOptions → Option State → Option (List Text)
  changed_in now x o none = none
  changed_in now x o (some s) = some (get_changed_issues now x.heap s o)

  -- `none` is the error of a state that is not set; `read_times` are the readings of the clock, one for
  -- each issue.
  unfoldable pub get_incremental_sync_candidates :
      (W → (IssueState → ℕ) × W) → IncrementalSyncOptions → Engine W → Option (List Text) × Engine W
  get_incremental_sync_candidates read_times o x =
      let (now, w) = read_times x.env.world in
      (changed_in now x o x.state, record x { env = record x.env { world = w } })

  -- The state that is set, or the one that initializing the repository sets.
  ensure : Text → Option State → Engine W → Result State × Engine W
  ensure repo none x = initialize_repository rt repo x
  ensure repo (some s) x = (ok s, x)

  -- `walk` is what the walk of the `projects` directory finds on a disk.
  validate_ensured :
      (Disk → Option (List WalkEntry))
      → Result State × Engine W
      → (Option StateValidationResult × Option InspectError) × Engine W
  validate_ensured walk (err e, x) = ((none, some (no_repository e)), x)
  validate_ensured walk (ok s, x) =
      let (f, w) = rt.faults x.env.world in
      let d = rt.disk w in
      (
        (some (validate_state rt.platform f d (walk d) s), none),
        record x { env = record x.env { world = w } },
      )

  unfoldable pub validate_repository_state :
      (Disk → Option (List WalkEntry))
      → Text
      → Engine W
      → (Option StateValidationResult × Option InspectError) × Engine W
  unfolding ensure validate_ensured
  validate_repository_state walk repo x = validate_ensured walk (ensure repo x.state x)

  -- The recovered state is saved, unless it was a dry run.
  unfoldable pub save_recovered : Bool → Text → Session W → Option InspectError × Session W
  save_recovered true repo x = (none, x)
  save_recovered false repo x = let (e, y) = save_session rt repo x in (save_outcome e, y)
    where
      save_outcome : Option StateError → Option InspectError
      save_outcome none = none
      save_outcome (some e) = some (unsaved e)

  unfoldable pub finish_recovery :
      Bool
      → Text
      → Recovery × Option StateError
      → Session W
      → (Option StateValidationResult × Option InspectError) × Engine W
  finish_recovery dry repo (v, some e) x = ((some v.result, some (unrecovered e)), engine_of rt x)
  finish_recovery dry repo (v, none) x =
      let (e, y) = save_recovered dry repo x in ((some v.result, e), engine_of rt y)

  recover_ensured :
      (Disk → Option (List WalkEntry))
      → Text
      → StateRecoveryOptions
      → Result State × Engine W
      → (Option StateValidationResult × Option InspectError) × Engine W
  recover_ensured walk repo o (err e, x) = ((none, some (no_repository e)), x)
  recover_ensured walk repo o (ok s, x) =
      let (f, w) = rt.faults x.env.world in
      let d = rt.disk w in
      let (v, e) = recover_state rt.platform rt.manager f d (walk d) repo s o in
      finish_recovery o.dry_run repo (v, e)
        (record {
          env = record x.env { world = rt.set_disk v.disk w };
          heap = x.heap;
          state = v.state;
        })

  unfoldable pub recover_repository_state :
      (Disk → Option (List WalkEntry))
      → Text
      → StateRecoveryOptions
      → Engine W
      → (Option StateValidationResult × Option InspectError) × Engine W
  unfolding ensure recover_ensured
  recover_repository_state walk repo o x = recover_ensured walk repo o (ensure repo x.state x)

  history_of : ℕ → Option State → List SyncOperation
  history_of limit none = []
  history_of limit (some s) = get_history_report s limit

  unfoldable pub get_sync_history : ℕ → Engine W → List SyncOperation
  unfolding history_of
  get_sync_history limit x = history_of limit x.state

  statistics_of : Option State → SyncStatistics
  statistics_of none = no_stats
  statistics_of (some s) = get_sync_statistics s

  unfoldable pub get_engine_statistics : Engine W → SyncStatistics
  unfolding statistics_of
  get_engine_statistics x = statistics_of x.state

  last_sync_of : Engine W → Option State → ℕ
  last_sync_of x none = 0
  last_sync_of x (some s) = get_last_sync_time x.heap s

  unfoldable pub get_engine_last_sync_time : Engine W → ℕ
  unfolding last_sync_of
  get_engine_last_sync_time x = last_sync_of x x.state
