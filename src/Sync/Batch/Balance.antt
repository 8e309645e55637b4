-- ===== src/Sync/Batch/Balance.antt =====
-- internal/sync/batch.go: the counters of a batch result agree with its lists.
use jira_cdc_git.Prelude.{
  ℕ, ◌<◌, min, max, ltb, if◌then◌else◌, word_mod, sign_bit, ◌+◌, ◌≤◌, ◌≡◌, refl, Option, none, some,
  List, [], ◌∷◌, arith, length, length-append,
}
use jira_cdc_git.Prelude.Text.{Text, codes}
use jira_cdc_git.Sync.Batch.{
  BatchResult, SyncResult, clamp_concurrency, new_batch_sync_engine, empty_batch, add_outcome,
  add_result, add_results, finish_batch,
}

-- Every processed issue is a success with its file or a failure with its error.
pub record IsBalanced (b : BatchResult) : Type 0 where
  pub processed : b.processed_issues ≡ b.successful_sync + b.failed_sync
  pub files : length b.processed_files ≡ b.successful_sync
  pub failures : length b.errors ≡ b.failed_sync

pub empty_batch-IsBalanced : (total workers : ℕ) → IsBalanced (empty_batch total workers)
empty_batch-IsBalanced total workers = record { processed = refl; files = refl; failures = refl }

add_outcome-IsBalanced :
    (r : SyncResult) (o : Option Text) (b : BatchResult)
    → IsBalanced b
    → IsBalanced (add_outcome r o b)
add_outcome-IsBalanced r none b h = record {
  processed = omega (arith, h.processed);
  files = omega (arith, h.files, length-append {0} b.processed_files (r.file_path ∷ []));
  failures = h.failures;
}
add_outcome-IsBalanced r (some m) b h = record {
  processed = omega (arith, h.processed);
  files = h.files;
  failures = omega (
    arith,
    h.failures,
    length-append {0} b.errors
        (record { issue_key = r.issue_key; step = codes "sync"; message = m } ∷ []),
  );
}

pub add_result-IsBalanced :
    (b : BatchResult) (r : SyncResult) → IsBalanced b → IsBalanced (add_result b r)
unfolding add_result
add_result-IsBalanced b r h = add_outcome-IsBalanced r r.error b h

pub add_results-IsBalanced :
    (b : BatchResult) (rs : List SyncResult) → IsBalanced b → IsBalanced (add_results b rs)
unfolding add_results
add_results-IsBalanced b [] h = h
add_results-IsBalanced b (r ∷ rs) h =
    add_results-IsBalanced (add_result b r) rs (add_result-IsBalanced b r h)

pub finish_batch-IsBalanced :
    (start now time : ℕ) (b : BatchResult)
    → IsBalanced b
    → IsBalanced (finish_batch start now time b)
unfolding finish_batch
finish_batch-IsBalanced start now time b h = record {
  processed = h.processed;
  files = h.files;
  failures = h.failures;
}

-- A result adds one to the processed issues and keeps their total.
pub add_result_counts :
    (b : BatchResult) (r : SyncResult)
    → ((add_result b r).processed_issues ≡ b.processed_issues + 1)
      × ((add_result b r).total_issues ≡ b.total_issues)
unfolding add_result
add_result_counts b r = outcome_counts r.error
  where
    outcome_counts :
        (o : Option Text)
        → ((add_outcome r o b).processed_issues ≡ b.processed_issues + 1)
          × ((add_outcome r o b).total_issues ≡ b.total_issues)
    outcome_counts none = (refl, refl)
    outcome_counts (some m) = (refl, refl)

pub add_results_counts :
    (b : BatchResult) (rs : List SyncResult)
    → ((add_results b rs).processed_issues ≡ b.processed_issues + length rs)
      × ((add_results b rs).total_issues ≡ b.total_issues)
unfolding add_results
add_results_counts b [] = (omega arith, refl)
add_results_counts b (r ∷ rs) =
    let (more, total) = add_result_counts b r in
    let (rest, total') = add_results_counts (add_result b r) rs in
    (omega (arith, more, rest), omega (arith, total, total'))

module _ (n : ℕ) (word : n < word_mod) where
  clamp_low : 1 ≤ clamp_concurrency n
  unfolding clamp_concurrency
  clamp_low = ground arith

  clamp_high : clamp_concurrency n ≤ 10
  unfolding clamp_concurrency
  clamp_high = ground arith

  clamp_nearest : clamp_concurrency n ≡ (if ltb n sign_bit then max 1 (min n 10) else 1)
  unfolding clamp_concurrency
  clamp_nearest = ground arith

  -- A new engine has between 1 and 10 workers, the number nearest to the one asked for: one if that is
  -- negative. Its progress channel has room for two updates a worker.
  pub new_batch_sync_engine_bounds :
      let e = new_batch_sync_engine n in
      (1 ≤ e.concurrency)
      × (e.concurrency ≤ 10)
      × (e.concurrency ≡ (if ltb n sign_bit then max 1 (min n 10) else 1))
      × (e.progress.capacity ≡ e.concurrency + e.concurrency)
  unfolding new_batch_sync_engine
  new_batch_sync_engine_bounds = (clamp_low, clamp_high, clamp_nearest, omega arith)
