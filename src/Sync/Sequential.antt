-- ===== src/Sync/Sequential.antt =====
-- internal/sync/batch.go: `SyncIssuesSync` and `SyncJQLSync`, without concurrency.
pub mod Complete
use jira_cdc_git.Prelude.{
  ℕ, ◌+◌, Bool, true, false, List, [], ◌∷◌, ◌++◌, map, length, add64, sub_time,
}
use jira_cdc_git.Prelude.Text.{Text, codes}
use jira_cdc_git.Jira.{Issue}
use jira_cdc_git.Sync.Services.{Outcome, ok, fail, Services}
use jira_cdc_git.Sync.Batch.{
  BatchResult, SyncResult, empty_batch, add_result, finish_batch, Act, ◌>>=◌, ◌>>◌, pure, call,
  send,
}
use jira_cdc_git.Sync.Single.{process_single_issue}

module _ {W : Type 0} (s : Services W) where
  -- One issue: its result, with the time that it took.
  unfoldable pub sync_one : Text → Text → ℕ → Act W SyncResult
  sync_one repo key index = do
    start ← call s.now
    done ← process_single_issue s key repo 0
    now ← call s.now
    pure (record {
      issue_key = key;
      index = index;
      file_path = done.0;
      error = done.1;
      process_time = sub_time now start;
    })

  -- The progress after an issue.
  unfoldable pub report_count : Text → BatchResult → Act W (Unit {0})
  report_count key b = do
    now ← call s.now
    send (record {
      current_issue = key;
      processed_count = b.processed_issues;
      total_count = b.total_issues;
      step = codes "processing";
      timestamp = now;
      worker_id = 0;
    })

  -- One turn of the loop, after the poll of the context; `rest` is the loop over the other issues.
  unfoldable pub after_poll :
      Text
      → Text
      → ℕ
      → BatchResult
      → ℕ
      → (BatchResult → ℕ → Act W (BatchResult × ℕ × Bool))
      → Bool
      → Act W (BatchResult × ℕ × Bool)
  after_poll repo key index b time rest true = pure (b, time, true)
  after_poll repo key index b time rest false = do
    r ← sync_one repo key index
    report_count key (add_result b r)
    rest (add_result b r) (add64 time r.process_time)

  -- The loop: the result so far, the time so far, and whether the context was cancelled.
  unfoldable pub sync_loop : Text → List Text → ℕ → BatchResult → ℕ → Act W (BatchResult × ℕ × Bool)
  sync_loop repo [] index b time = pure (b, time, false)
  sync_loop repo (key ∷ keys) index b time = do
    stop ← call s.cancelled
    after_poll repo key index b time (sync_loop repo keys (index + 1)) stop

  -- A cancelled batch returns what it has, with the error of the context, and no metrics.
  unfoldable pub end_loop : ℕ → BatchResult × ℕ × Bool → Act W (BatchResult × Bool)
  end_loop start (b, time, true) = pure (b, true)
  end_loop start (b, time, false) = do now ← call s.now; pure (finish_batch start now time b, false)

  -- `SyncIssuesSync`: the result, and whether the error of the context is returned.
  unfoldable pub sync_issues_sync : List Text → Text → Act W (BatchResult × Bool)
  sync_issues_sync keys repo = do
    start ← call s.now
    done ← sync_loop repo keys 0 (empty_batch (length keys) 1) 0
    end_loop start done

  unfoldable pub sync_found : Text → Outcome (List Issue) → Act W (Outcome (BatchResult × Bool))
  sync_found repo (fail e) = pure (fail (codes "failed to execute JQL search: " ++ e))
  sync_found repo (ok issues) = do
    done ← sync_issues_sync (map (λ (i : Issue). i.key) issues) repo
    pure (ok done)

  unfoldable pub sync_jql_sync : Text → Text → Act W (Outcome (BatchResult × Bool))
  sync_jql_sync jql repo = do found ← call (s.search_issues jql); sync_found repo found
