-- ===== src/Sync/Incremental.antt =====
-- internal/sync/incremental.go: which issues an incremental sync takes, and what it runs on them.
pub mod Selection
use jira_cdc_git.Prelude.{
  ℕ, ◌+◌, ◌-◌, Bool, true, false, not, ◌&&◌, Option, none, some, List, [], ◌∷◌, ◌++◌, map, ltb,
  ◌==◌, if◌then◌else◌, length, take, any, slt, sub_time, sdiv_pos, is_zero_time,
}
use jira_cdc_git.Prelude.Text.{Text, codes, text_eq}
use jira_cdc_git.Prelude.FilePath.{base, ext}
use jira_cdc_git.Jira.{Issue}
use jira_cdc_git.State.Types.{IssueState, State}
use jira_cdc_git.State.Issues.{
  extract_project_key, get_issue_state, should_sync_issue, update_issue_state,
}
use jira_cdc_git.Sync.Services.{Outcome, ok, fail, Services}
use jira_cdc_git.Sync.Batch.{
  BatchError, BatchResult, empty_batch, Env, Act, ◌>>=◌, ◌>>◌, pure, call,
}
use jira_cdc_git.Sync.Runtime.{Runtime, Session}

pub record IncrementalSyncOptions : Type 0 where
  pub force : Bool
  pub dry_run : Bool
  pub since : ℕ
  pub max_age : ℕ
  pub projects : List Text
  pub include_new : Bool
  pub include_modified : Bool

-- The key that a file of an issue is named after, if it is a YAML file.
unfoldable pub extract_issue_key_from_file_path : Text → Text
extract_issue_key_from_file_path path =
    let name = base path in
    if text_eq (ext name) (codes ".yaml") then take (length name - length (ext name)) name else []

module _ {W : Type 0} (rt : Runtime W) where
  -- The checks at the end of a turn of the loop, each of which leads to `continue`. They come after
  -- the issue has been taken or not, at the end of the body.
  unfoldable pub is_too_old : ℕ → IssueState → Act W Bool
  is_too_old max_age i =
      if slt 0 max_age
      then (do now ← call rt.services.now; pure (slt max_age (sub_time now i.last_updated)))
      else pure false

  unfoldable pub late_checks : IncrementalSyncOptions → IssueState → Act W Bool
  late_checks o i = do
    old ← is_too_old o.max_age i
    pure (
        if old
        then true
        else if not (is_zero_time o.since) && ltb i.last_updated o.since
        then true
        else if ltb 0 (length o.projects)
        then not (any (λ project. text_eq i.project_key project) o.projects)
        else false)

  -- Whether a tracked issue is taken, given what fetching it returned; one that cannot be fetched is
  -- taken at once.
  unfoldable pub take_fetched :
      IncrementalSyncOptions → State → IssueState → Outcome Issue → Act W Bool
  take_fetched o st i (fail e) = pure true
  take_fetched o st i (ok issue) = do late_checks o i; pure (should_sync_issue rt.platform st issue)

  unfoldable pub take_tracked :
      IncrementalSyncOptions → State → Text → IssueState → Bool → Act W Bool
  take_tracked o st key i true = do
    fetched ← call (rt.services.get_issue key)
    take_fetched o st i fetched
  take_tracked o st key i false = do late_checks o i; pure false

  unfoldable pub take_issue : IncrementalSyncOptions → State → Text → Option IssueState → Act W Bool
  take_issue o st key none = pure o.include_new
  take_issue o st key (some i) = take_tracked o st key i o.include_modified

  unfoldable pub take_issues : IncrementalSyncOptions → State → List Text → Act W (List Text)
  take_issues o st [] = pure []
  take_issues o st (key ∷ keys) = do
    taken ← take_issue o st key (get_issue_state st key)
    rest ← take_issues o st keys
    pure (if taken then key ∷ rest else rest)

  unfoldable pub filter_issues_for_incremental :
      IncrementalSyncOptions → State → List Text → Act W (List Text)
  filter_issues_for_incremental o st keys = if o.force then pure keys else take_issues o st keys

  abbrev pub act : {A : Type 0} → Act W A → Session W → A × Session W
  act m x = let (a, e) = m x.env in (a, record x { env = e })

  -- The state of an issue whose file was written; a failure is passed over.
  unfoldable pub update_fetched : Text → Outcome Issue → Session W → (Unit {0}) × Session W
  update_fetched path (fail e) x = (tt, x)
  update_fetched path (ok issue) x =
      let (f, w) = rt.faults x.env.world in
      let (now, w') = rt.services.now w in
      let (st, e) = update_issue_state rt.platform f now (rt.disk w') x.state issue path in
      (tt, record x { env = record x.env { world = w' }; state = st })

  unfoldable pub update_synced : Text → Text → Session W → (Unit {0}) × Session W
  update_synced path [] = pure tt
  update_synced path (c ∷ key) = do
    fetched ← act (call (rt.services.get_issue (c ∷ key)))
    update_fetched path fetched

  unfoldable pub update_files : List Text → Session W → (Unit {0}) × Session W
  update_files [] = pure tt
  update_files (path ∷ paths) = do
    update_synced path (extract_issue_key_from_file_path path)
    update_files paths

  unfoldable pub perform_incremental_sync : List Text → Text → Session W → BatchResult × Session W
  perform_incremental_sync keys repo = do
    result ← act (rt.batch keys repo)
    update_files result.processed_files
    pure result

  abbrev dry_path : Text → Text → Text
  dry_path repo key =
      repo
      ++ (codes "/projects/"
          ++ (extract_project_key key ++ (codes "/issues/" ++ (key ++ codes ".yaml"))))

  -- An issue that a dry run could fetch, or not.
  unfoldable pub add_dry : Text → Text → BatchResult → Outcome Issue → BatchResult
  add_dry repo key b (ok issue) = record b {
    processed_issues = b.processed_issues + 1;
    successful_sync = b.successful_sync + 1;
    processed_files = b.processed_files ++ dry_path repo key ∷ [];
  }
  add_dry repo key b (fail e) = record b {
    processed_issues = b.processed_issues + 1;
    failed_sync = b.failed_sync + 1;
    errors = b.errors ++ record { issue_key = key; step = codes "fetch"; message = e } ∷ [];
  }

  -- An issue that comes after the cancellation fails, and is not counted as processed.
  unfoldable pub add_cancelled : Text → BatchResult → BatchResult
  add_cancelled key b = record b {
    failed_sync = b.failed_sync + 1;
    errors =
        b.errors
        ++ record { issue_key = key; step = codes "dry_run"; message = codes "context cancelled" }
          ∷ [];
  }

  unfoldable pub dry_turn : Text → Text → BatchResult → Bool → Act W BatchResult
  dry_turn repo key b true = pure (add_cancelled key b)
  dry_turn repo key b false = do
    fetched ← call (rt.services.get_issue key)
    pure (add_dry repo key b fetched)

  unfoldable pub dry_loop : Text → List Text → BatchResult → Act W BatchResult
  dry_loop repo [] b = pure b
  dry_loop repo (key ∷ keys) b = do
    stop ← call rt.services.cancelled
    b' ← dry_turn repo key b stop
    dry_loop repo keys b'

  unfoldable pub perform_dry_run_sync : List Text → Text → Act W BatchResult
  perform_dry_run_sync keys repo = do
    start ← call rt.services.now
    b ← dry_loop repo keys (empty_batch (length keys) rt.concurrency)
    now ← call rt.services.now
    let took = sub_time now start
    pure (record b {
      duration = took;
      performance = record b.performance {
        avg_process_time =
            if ltb 0 b.processed_issues
            then sdiv_pos took b.processed_issues
            else b.performance.avg_process_time;
      };
    })
