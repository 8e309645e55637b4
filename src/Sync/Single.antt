-- ===== src/Sync/Single.antt =====
-- internal/sync/batch.go: the sync of a single issue (fetch, write, link, commit).
use jira_cdc_git.Prelude.{ℕ, Option, none, some, [], ◌++◌}
use jira_cdc_git.Prelude.Text.{Text, codes}
use jira_cdc_git.Jira.{Issue}
use jira_cdc_git.Sync.Services.{Outcome, ok, fail, Services}
use jira_cdc_git.Sync.Batch.{Act, ◌>>=◌, ◌>>◌, pure, call, send}

module _ {W : Type 0} (s : Services W) where
  -- The updates of a single issue carry no counts.
  unfoldable pub report : Text → Text → ℕ → Act W (Unit {0})
  report key step worker = do
    now ← call s.now
    send (record {
      current_issue = key;
      processed_count = 0;
      total_count = 0;
      step = step;
      timestamp = now;
      worker_id = worker;
    })

  -- A failure of the links is only reported.
  unfoldable pub report_links : Text → ℕ → Outcome (Unit {0}) → Act W (Unit {0})
  report_links key worker (ok _) = pure tt
  report_links key worker (fail _) = report key (codes "relationships_warning") worker

  abbrev committed : Text → Text → Outcome (Unit {0}) → Text × Option Text
  committed key path (ok _) = (path, none)
  committed key path (fail e) =
      (path, some (codes "failed to commit issue " ++ (key ++ (codes ": " ++ e))))

  unfoldable pub after_write : Issue → Text → Text → ℕ → Outcome Text → Act W (Text × Option Text)
  unfolding report_links
  after_write issue key repo worker (fail e) =
      pure ([], some (codes "failed to write YAML for issue " ++ (key ++ (codes ": " ++ e))))
  after_write issue key repo worker (ok path) = do
    report key (codes "relationships") worker
    linked ← call (s.create_links issue repo)
    report_links key worker linked
    report key (codes "committing") worker
    done ← call (s.commit_issue repo path issue)
    pure (committed key path done)

  unfoldable pub after_fetch : Text → Text → ℕ → Outcome Issue → Act W (Text × Option Text)
  unfolding after_write
  after_fetch key repo worker (fail e) =
      pure ([], some (codes "failed to fetch issue " ++ (key ++ (codes ": " ++ e))))
  after_fetch key repo worker (ok issue) = do
    report key (codes "writing") worker
    written ← call (s.write_issue issue repo)
    after_write issue key repo worker written

  -- The path that is returned, and the message of the error.
  unfoldable pub process_single_issue : Text → Text → ℕ → Act W (Text × Option Text)
  unfolding after_fetch report
  process_single_issue key repo worker = do
    report key (codes "fetching") worker
    fetched ← call (s.get_issue key)
    after_fetch key repo worker fetched
