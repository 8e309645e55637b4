-- ===== src/Examples/Batched.antt =====
-- Batches of issues, in sequence and in parallel.
use jira_cdc_git.Prelude.{◌+◌, ◌≤◌, ◌≡◌, refl, ◌⊎◌, true, false, none, List, [], ◌∷◌, arith}
use jira_cdc_git.Prelude.Text.{Text, codes}
use jira_cdc_git.Sync.Progress.{ProgressUpdate}
use jira_cdc_git.Sync.Batch.{SyncTask}
use jira_cdc_git.Sync.Batch.Balance.{IsBalanced}
use jira_cdc_git.Sync.Sequential.{sync_issues_sync}
use jira_cdc_git.Sync.Sequential.Complete.{sync_issues_sync_complete}
use jira_cdc_git.Sync.Pool.{
  Pool, tasks_from, start_pool, Step, send_task, take_task, deliver, quit_closed, collect, Reach,
  start, step, IsFinished, batch_of,
}
use jira_cdc_git.Sync.Pool.Conservation.{Weight, task_weight, result_weight, collected_exactly}
use jira_cdc_git.Sync.Pool.Outcome.{
  batch_of-IsBalanced, batch_of_complete, cancelled_without_failure,
}
use jira_cdc_git.Sync.Pool.Liveness.{remaining, steps, Reach-bounded, CanStep, Step-or_IsFinished}
use jira_cdc_git.Examples.Samples.{repo, key_1, key_2, services, env}

abbrev keys : List Text
keys = key_1 ∷ []

abbrev task : SyncTask
task = record { issue_key = key_1; index = 0 }

abbrev p0 : Pool
p0 = start_pool keys 1 false

abbrev p1 : Pool
p1 = record p0 { unsent = []; queue = task ∷ [] }

abbrev p2 : Pool
p2 = record p1 { queue = []; idle = 0; busy = task ∷ [] }

abbrev p3 : Pool
p3 = record p2 {
  busy = [];
  idle = 1;
  results =
      record { issue_key = key_1; index = 0; file_path = codes "f"; error = none; process_time = 3 }
      ∷ [];
}

abbrev p4 : Pool
p4 = record p3 { idle = 0 }

abbrev p5 : Pool
p5 = record p4 { results = []; collected = p3.results }

first-Step : Step p0 p1
unfolding tasks_from
first-Step = send_task task [] refl refl

-- One worker syncs the one issue, and the batch ends.
run : Reach p0 p5
run =
    step
      (step
        (step (step (step start first-Step) (take_task task [] 0 refl refl refl))
          (deliver [] task [] (codes "f") none 3 refl refl))
        (quit_closed 0 refl refl refl refl))
      (collect _ [] refl refl)

finished : IsFinished p5
finished = record { no_idle = refl; no_busy = refl; no_results = refl }

by_index : Weight
by_index key index = index + 1

collected_exactly_example :
    result_weight by_index p5.collected ≡ task_weight by_index (tasks_from 0 keys)
collected_exactly_example = collected_exactly keys 1 false run (omega arith) finished refl by_index

batch_of-IsBalanced_example :
    let b = batch_of 0 9 keys 1 p5 in IsBalanced b × (b.total_issues ≡ 1) × (b.processed_issues ≤ 1)
batch_of-IsBalanced_example = batch_of-IsBalanced keys 1 0 9 false run

batch_of_complete_example :
    let b = batch_of 0 9 keys 1 p5 in
    (b.processed_issues ≡ 1) × (b.successful_sync + b.failed_sync ≡ 1)
batch_of_complete_example = batch_of_complete keys 1 0 9 false run (omega arith) finished refl

cancelled_without_failure_example :
    (q : Pool) × Reach (start_pool keys 3 true) q
    × IsFinished q
    × ((batch_of 0 9 keys 3 q).total_issues ≡ 1)
    × ((batch_of 0 9 keys 3 q).processed_issues ≡ 0)
    × ((batch_of 0 9 keys 3 q).failed_sync ≡ 0)
cancelled_without_failure_example = cancelled_without_failure keys 3 0 9

Reach-bounded_example : steps run + remaining p5 ≤ remaining p0
Reach-bounded_example = Reach-bounded run

Step-or_IsFinished_example : CanStep p0 ⊎ IsFinished p0
Step-or_IsFinished_example = Step-or_IsFinished p0

sync_issues_sync_complete_example :
    let (r, stopped) = (sync_issues_sync services (key_1 ∷ key_2 ∷ []) repo env).0 in
    IsBalanced r
    × (r.total_issues ≡ 2)
    × (r.processed_issues ≤ 2)
    × ((stopped ≡ true) ⊎ (r.processed_issues ≡ 2))
sync_issues_sync_complete_example = sync_issues_sync_complete services repo (key_1 ∷ key_2 ∷ []) env

abbrev update : ProgressUpdate
update = record {
  current_issue = key_1;
  processed_count = 1;
  total_count = 1;
  step = codes "x";
  timestamp = 5;
  worker_id = 0;
}
