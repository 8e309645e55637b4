-- ===== src/Sync/Engine.antt =====
-- internal/sync/incremental.go: the public operations of `IncrementalBatchSyncEngine`.
pub mod Recorded
pub mod Inspect
pub mod Query
use jira_cdc_git.Prelude.{
  ℕ, ◌-◌, Bool, true, false, Option, none, some, List, [], ◌∷◌, ◌++◌, map, zero, suc, length,
  sub_time,
}
use jira_cdc_git.Prelude.Text.{Text, codes}
use jira_cdc_git.Jira.{Issue}
use jira_cdc_git.State.Types.{
  SyncType, incremental, jql, OperationResults, SyncConfig, State, RepositoryInfo,
}
use jira_cdc_git.State.Heap.{Heap, store}
use jira_cdc_git.State.Persist.{StateError, Result, ok, err, load_state, save_present}
use jira_cdc_git.State.Backup.{initialize_state}
use jira_cdc_git.State.Operations.{
  decimal, no_results, start_sync_operation, complete_sync_operation, fail_sync_operation,
}
use jira_cdc_git.Sync.Services.{Outcome, fail}
use jira_cdc_git.Sync.Batch.{BatchResult, empty_batch, Env, ◌>>=◌, ◌>>◌, pure, call}
use jira_cdc_git.Sync.Runtime.{Runtime, Session}
use jira_cdc_git.Sync.Incremental.{
  IncrementalSyncOptions, act, filter_issues_for_incremental, perform_incremental_sync,
  perform_dry_run_sync,
}

-- The engine's state may not be set yet.
pub record Engine (W : Type 0) : Type 0 where
  pub env : Env W
  pub heap : Heap
  pub state : Option State

pub data EngineError : Type 0 where
  initialize_failed save_failed : StateError → EngineError
  search_failed : Text → EngineError

module _ {W : Type 0} (rt : Runtime W) where
  abbrev set_world : W → Engine W → Engine W
  set_world w x = record x { env = record x.env { world = w } }

  abbrev repository_info : Text → RepositoryInfo
  repository_info repo = record {
    path = repo;
    branch = codes "main";
    remote_url = [];
    initial_sync = true;
  }

  abbrev pub set_initialized : Result State → Engine W → Result State × Engine W
  set_initialized (ok s) x = (ok s, record x { state = some s })
  set_initialized (err e) x = (err e, x)

  -- A state that cannot be loaded, for any reason, is replaced by a new one.
  unfoldable pub initialize_loaded :
      Text → Result (Heap × State) → Engine W → Result State × Engine W
  initialize_loaded repo (ok (h, s)) x = (ok s, record x { heap = h; state = some s })
  initialize_loaded repo (err e) x =
      let (now, w1) = rt.services.now x.env.world in
      let (saved_at, w2) = rt.services.now w1 in
      let (f, w) = rt.faults w2 in
      let (d, made) =
        initialize_state rt.platform rt.manager f now saved_at (rt.disk w) x.heap repo
          (repository_info repo) in
      set_initialized made (set_world (rt.set_disk d w) x)

  -- `InitializeRepository`; it returns the state that it sets.
  unfoldable pub initialize_repository : Text → Engine W → Result State × Engine W
  initialize_repository repo x =
      let (f, w) = rt.faults x.env.world in
      initialize_loaded repo (load_state rt.platform rt.manager f (rt.disk w) x.heap repo)
        (set_world w x)

  unfoldable pub save_session : Text → Session W → Option StateError × Session W
  save_session repo x =
      let (now, w1) = rt.services.now x.env.world in
      let (f, w) = rt.faults w1 in
      let (d, s, e) = save_present rt.platform rt.manager f now (rt.disk w) x.heap repo x.state in
      (e, record x { env = record x.env { world = rt.set_disk d w }; state = s })

  abbrev set_stored : Heap × State → Session W → Session W
  set_stored (h, s) x = record x { heap = h; state = s }

  abbrev pub sync_config : IncrementalSyncOptions → SyncConfig
  sync_config o = record {
    concurrency = rt.concurrency;
    rate_limit = 0;
    incremental = true;
    force = o.force;
    dry_run = o.dry_run;
    include_links = true;
  }

  unfoldable pub start_session : SyncType → IncrementalSyncOptions → Session W → ℕ × Session W
  start_session type o x =
      let (now, w) = rt.services.now x.env.world in
      let (h, s, r) = start_sync_operation now x.heap x.state type (sync_config o) in
      (r, record x { env = record x.env { world = w }; heap = h; state = s })

  unfoldable pub complete_session : ℕ → OperationResults → Session W → (Unit {0}) × Session W
  complete_session r results x =
      let (now, w) = rt.services.now x.env.world in
      (
        tt,
        set_stored (complete_sync_operation now x.heap x.state r results)
            (record x { env = record x.env { world = w } }),
      )

  unfoldable pub fail_session : ℕ → Text → Session W → (Unit {0}) × Session W
  fail_session r message x =
      let (now, w) = rt.services.now x.env.world in
      (
        tt,
        set_stored (fail_sync_operation now x.heap x.state r message)
            (record x { env = record x.env { world = w } }),
      )

  abbrev pub failure_message : ℕ → Text
  failure_message n = decimal n ++ codes " issues failed to sync"

  -- The operation is completed if no issue failed.
  unfoldable pub end_session : ℕ → OperationResults → ℕ → Session W → (Unit {0}) × Session W
  end_session r results zero = complete_session r results
  end_session r results (suc n) = fail_session r (failure_message (suc n))

  abbrev pub operation_results : ℕ → ℕ → BatchResult → OperationResults
  operation_results asked taken b = record {
    total_issues = asked;
    processed_issues = b.processed_issues;
    successful_sync = b.successful_sync;
    failed_sync = b.failed_sync;
    skipped_issues = asked - taken;
    processed_files = b.processed_files;
    error_count = length b.errors;
  }

  -- The empty case measures the time since the operation's start.
  abbrev nothing_synced : ℕ → ℕ → ℕ → BatchResult
  nothing_synced asked start now = record (empty_batch asked rt.concurrency) {
    duration = sub_time now start;
  }

  unfoldable pub run_batch : Bool → List Text → Text → Session W → BatchResult × Session W
  run_batch true keys repo = act rt (perform_dry_run_sync rt keys repo)
  run_batch false keys repo = perform_incremental_sync rt keys repo

  -- What follows the filter. Where nothing is left to sync, an error of the save is passed over.
  unfoldable pub sync_taken :
      ℕ → ℕ → Bool → Text → List Text → Session W → (BatchResult × Option StateError) × Session W
  sync_taken r asked dry repo [] = do
    complete_session r (record no_results { total_issues = asked; skipped_issues = asked })
    save_session repo
    λ x.
        let (now, w) = rt.services.now x.env.world in
        (
          (nothing_synced asked (x.heap.cell r).start_time now, none),
          record x { env = record x.env { world = w } },
        )
  sync_taken r asked dry repo (key ∷ keys) = do
    b ← run_batch dry (key ∷ keys) repo
    end_session r (operation_results asked (length (key ∷ keys)) b) b.failed_sync
    e ← save_session repo
    pure (b, e)

  unfoldable pub set_issue_keys : ℕ → List Text → Session W → (Unit {0}) × Session W
  set_issue_keys r keys x =
      (tt, record x { heap = store x.heap r (record (x.heap.cell r) { issue_keys = keys }) })

  unfoldable pub sync_session :
      List Text
      → Text
      → IncrementalSyncOptions
      → Session W
      → (BatchResult × Option StateError) × Session W
  sync_session keys repo o = do
    r ← start_session incremental o
    taken ← λ x. act rt (filter_issues_for_incremental rt o x.state keys) x
    set_issue_keys r taken
    sync_taken r (length keys) o.dry_run repo taken

  abbrev pub engine_of : Session W → Engine W
  engine_of x = record { env = x.env; heap = x.heap; state = some x.state }

  abbrev pub session_of : Engine W → State → Session W
  session_of x s = record { env = x.env; heap = x.heap; state = s }

  abbrev save_error : Option StateError → Option EngineError
  save_error none = none
  save_error (some e) = some (save_failed e)

  abbrev sync_result :
      (BatchResult × Option StateError) × Session W
      → Option BatchResult × Option EngineError × Engine W
  sync_result ((b, e), x) = (some b, save_error e, engine_of x)

  unfoldable pub sync_initialized :
      List Text
      → Text
      → IncrementalSyncOptions
      → Result State × Engine W
      → Option BatchResult × Option EngineError × Engine W
  sync_initialized keys repo o (err e, x) = (none, some (initialize_failed e), x)
  sync_initialized keys repo o (ok s, x) = sync_result (sync_session keys repo o (session_of x s))

  unfoldable pub sync_issues_incremental :
      List Text
      → Text
      → IncrementalSyncOptions
      → Engine W
      → Option BatchResult × Option EngineError × Engine W
  sync_issues_incremental keys repo o x =
      sync_initialized keys repo o (initialize_repository repo x)

  unfoldable pub set_query : ℕ → Text → Session W → (Unit {0}) × Session W
  set_query r query x =
      (tt, record x { heap = store x.heap r (record (x.heap.cell r) { query = query }) })

  -- The operation of the query's type is started in the state that was just loaded.
  unfoldable pub search_session :
      Text → IncrementalSyncOptions → Session W → (ℕ × Outcome (List Issue)) × Session W
  search_session query o = do
    r ← start_session jql o
    set_query r query
    found ← act rt (call (rt.services.search_issues query))
    pure (r, found)

  unfoldable pub sync_searched :
      Text
      → IncrementalSyncOptions
      → (ℕ × Outcome (List Issue)) × Session W
      → Option BatchResult × Option EngineError × Engine W
  sync_searched repo o ((r, Outcome.ok issues), x) =
      sync_issues_incremental (map (λ (i : Issue). i.key) issues) repo o (engine_of x)
  sync_searched repo o ((r, fail m), x) =
      let (t, x1) = fail_session r m x in
      let (e, x2) = save_session repo x1 in (none, some (search_failed m), engine_of x2)

  unfoldable pub sync_query :
      Text
      → Text
      → IncrementalSyncOptions
      → Result State × Engine W
      → Option BatchResult × Option EngineError × Engine W
  sync_query query repo o (err e, x) = (none, some (initialize_failed e), x)
  sync_query query repo o (ok s, x) = sync_searched repo o (search_session query o (session_of x s))

  unfoldable pub sync_jql_incremental :
      Text
      → Text
      → IncrementalSyncOptions
      → Engine W
      → Option BatchResult × Option EngineError × Engine W
  sync_jql_incremental query repo o x = sync_query query repo o (initialize_repository repo x)
