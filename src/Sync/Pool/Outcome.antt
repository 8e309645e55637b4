-- ===== src/Sync/Pool/Outcome.antt =====
-- internal/sync/batch.go: what `SyncIssues` returns.
use jira_cdc_git.Prelude.{
  ℕ, zero, suc, ◌+◌, ◌≤◌, ◌≡◌, refl, Bool, true, false, List, [], ◌∷◌, arith, length,
}
use jira_cdc_git.Prelude.Text.{Text}
use jira_cdc_git.Sync.Batch.{SyncResult, empty_batch, add_results, finish_batch}
use jira_cdc_git.Sync.Batch.Balance.{
  IsBalanced, empty_batch-IsBalanced, add_results-IsBalanced, add_results_counts,
}
use jira_cdc_git.Sync.Pool.{
  Pool, tasks_from, start_pool, Step, quit_cancelled, Reach, start, step, IsFinished, batch_of,
}
use jira_cdc_git.Sync.Pool.Conservation.{
  Weight, task_weight, result_weight, collected_at_most, collected_exactly,
}

abbrev one : Weight
one key index = 1

task_weight-one : (i : ℕ) (keys : List Text) → task_weight one (tasks_from i keys) ≡ length keys
unfolding task_weight tasks_from
task_weight-one i [] = refl
task_weight-one i (key ∷ keys) = omega (arith, task_weight-one (i + 1) keys)

result_weight-one : (rs : List SyncResult) → result_weight one rs ≡ length rs
unfolding result_weight
result_weight-one [] = refl
result_weight-one (r ∷ rs) = omega (arith, result_weight-one rs)

module _ (keys : List Text) (workers started ended : ℕ) (done : Bool) {q : Pool}
    (r : Reach (start_pool keys workers done) q) where
  -- The result of the parallel batch, for every order of the steps: its total is the number of the
  -- issues given, every processed issue is a success with its file or a failure with its error, and no
  -- more issues are processed than were given.
  pub batch_of-IsBalanced :
      let b = batch_of started ended keys workers q in
      IsBalanced b × (b.total_issues ≡ length keys) × (b.processed_issues ≤ length keys)
  unfolding batch_of finish_batch
  batch_of-IsBalanced =
      let b = empty_batch (length keys) workers in
      let (more, total) = add_results_counts b q.collected in
      let size = result_weight-one q.collected in
      let given = task_weight-one 0 keys in
      let balanced =
        add_results-IsBalanced b q.collected (empty_batch-IsBalanced (length keys) workers) in
      (
        record {
          processed = balanced.processed;
          files = balanced.files;
          failures = balanced.failures;
        },
        total,
        omega (arith, more, size, given, collected_at_most keys workers done r one),
      )

  -- A parallel batch with a worker that has ended and was not cancelled has processed every issue given,
  -- for every order of the steps and every outcome of the issues: each is counted as a success or as a
  -- failure.
  pub batch_of_complete :
      1 ≤ workers
      → IsFinished q
      → q.cancelled ≡ false
      → let b = batch_of started ended keys workers q in
        (b.processed_issues ≡ length keys) × (b.successful_sync + b.failed_sync ≡ length keys)
  unfolding batch_of finish_batch
  batch_of_complete some_worker fin going =
      let b = empty_batch (length keys) workers in
      let more = (add_results_counts b q.collected).0 in
      let size = result_weight-one q.collected in
      let given = task_weight-one 0 keys in
      let all = collected_exactly keys workers done r some_worker fin going one in
      let balanced =
        add_results-IsBalanced b q.collected (empty_batch-IsBalanced (length keys) workers) in
      (
        omega (arith, more, size, given, all),
        omega (arith, more, size, given, all, balanced.processed),
      )

Reach-cons : {p q r : Pool} → Step p q → Reach q r → Reach p r
Reach-cons s start = step start s
Reach-cons s (step r t) = step (Reach-cons s r) t

-- With the context done the idle workers may all end.
quit_all :
    (k : ℕ) (p : Pool) → p.cancelled ≡ true → Reach (record p { idle = k }) (record p { idle = 0 })
quit_all zero p c = start
quit_all (suc k) p c = Reach-cons (quit_cancelled k refl c refl) (quit_all k p c)

-- For every list of issues and number of workers there is a run under a cancelled context that ends
-- with no issue processed and none failed, although all of them were given.
pub cancelled_without_failure :
    (keys : List Text) (workers started ended : ℕ)
    → (q : Pool) × Reach (start_pool keys workers true) q
      × IsFinished q
      × ((batch_of started ended keys workers q).total_issues ≡ length keys)
      × ((batch_of started ended keys workers q).processed_issues ≡ 0)
      × ((batch_of started ended keys workers q).failed_sync ≡ 0)
unfolding batch_of finish_batch add_results
cancelled_without_failure keys workers started ended =
    let p = start_pool keys workers true in
    (
      record p { idle = 0 },
      quit_all workers p refl,
      record { no_idle = refl; no_busy = refl; no_results = refl },
      refl,
      refl,
      refl,
    )
