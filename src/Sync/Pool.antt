-- ===== src/Sync/Pool.antt =====
-- internal/sync/batch.go: `SyncIssues` and `worker`, as the steps of its goroutines in any order.
-- A step is one channel operation, or the end of a goroutine; the sync of an issue may end with any
-- path and any error, which covers every interleaving of the calls that the workers make. Workers
-- are alike, so those that wait at the channel are counted.
pub mod Conservation
pub mod Outcome
pub mod Liveness
use jira_cdc_git.Prelude.{
  ℕ, zero, suc, ◌+◌, ◌≡◌, Bool, true, false, Option, none, some, List, [], ◌∷◌, ◌++◌, length,
}
use jira_cdc_git.Prelude.Text.{Text}
use jira_cdc_git.Sync.Batch.{
  BatchResult, SyncTask, SyncResult, empty_batch, add_results, total_time, finish_batch,
}

pub record Pool : Type 0 where
  -- what the sending goroutine has still to send
  pub unsent : List SyncTask
  -- the task channel, with room for every task
  pub queue : List SyncTask
  -- the workers in their `select`
  pub idle : ℕ
  -- the tasks that workers are at
  pub busy : List SyncTask
  -- the result channel, with room for every result
  pub results : List SyncResult
  -- what the main loop has received
  pub collected : List SyncResult
  -- is the context done?
  pub cancelled : Bool

unfoldable pub tasks_from : ℕ → List Text → List SyncTask
tasks_from i [] = []
tasks_from i (key ∷ keys) = record { issue_key = key; index = i } ∷ tasks_from (i + 1) keys

abbrev pub start_pool : List Text → ℕ → Bool → Pool
start_pool keys workers done = record {
  unsent = tasks_from 0 keys;
  queue = [];
  idle = workers;
  busy = [];
  results = [];
  collected = [];
  cancelled = done;
}

abbrev pub result_of : SyncTask → Text → Option Text → ℕ → SyncResult
result_of t path error time = record {
  issue_key = t.issue_key;
  index = t.index;
  file_path = path;
  error = error;
  process_time = time;
}

pub data Step (p q : Pool) : Type 0 where
  send_task :
      (t : SyncTask) (ts : List SyncTask)
      → p.unsent ≡ t ∷ ts
      → q ≡ record p { unsent = ts; queue = p.queue ++ t ∷ [] }
      → Step p q
  -- the sender sees `ctx.Done()` and closes the channel
  stop_sending :
      (t : SyncTask) (ts : List SyncTask)
      → p.unsent ≡ t ∷ ts
      → p.cancelled ≡ true
      → q ≡ record p { unsent = [] }
      → Step p q
  take_task :
      (t : SyncTask) (ts : List SyncTask) (k : ℕ)
      → p.queue ≡ t ∷ ts
      → p.idle ≡ suc k
      → q ≡ record p { queue = ts; idle = k; busy = t ∷ p.busy }
      → Step p q
  deliver :
      (xs : List SyncTask) (t : SyncTask) (ys : List SyncTask) (path : Text) (error : Option Text)
      (time : ℕ)
      → p.busy ≡ xs ++ t ∷ ys
      → q ≡ record p {
        busy = xs ++ ys;
        idle = p.idle + 1;
        results = p.results ++ result_of t path error time ∷ [];
      }
      → Step p q
  -- the worker sees `ctx.Done()` in place of the delivery, and ends
  drop_result :
      (xs : List SyncTask) (t : SyncTask) (ys : List SyncTask)
      → p.busy ≡ xs ++ t ∷ ys
      → p.cancelled ≡ true
      → q ≡ record p { busy = xs ++ ys }
      → Step p q
  quit_cancelled :
      (k : ℕ) → p.idle ≡ suc k → p.cancelled ≡ true → q ≡ record p { idle = k } → Step p q
  -- the channel is closed and empty
  quit_closed :
      (k : ℕ) → p.idle ≡ suc k → p.unsent ≡ [] → p.queue ≡ [] → q ≡ record p { idle = k } → Step p q
  collect :
      (r : SyncResult) (rs : List SyncResult)
      → p.results ≡ r ∷ rs
      → q ≡ record p { results = rs; collected = p.collected ++ r ∷ [] }
      → Step p q
  cancel : p.cancelled ≡ false → q ≡ record p { cancelled = true } → Step p q

pub data Reach (p : Pool) : Pool → Type 0 where
  start : Reach p p
  step : {q r : Pool} → Reach p q → Step q r → Reach p r

-- The workers have ended, so the result channel is closed, and it has been read to its end.
pub record IsFinished (p : Pool) : Type 0 where
  pub no_idle : p.idle ≡ 0
  pub no_busy : p.busy ≡ []
  pub no_results : p.results ≡ []

-- What `SyncIssues` returns, always with a nil error; `started` and `ended` are the times.
unfoldable pub batch_of : ℕ → ℕ → List Text → ℕ → Pool → BatchResult
batch_of started ended keys workers p =
    finish_batch started ended (total_time 0 p.collected)
      (add_results (empty_batch (length keys) workers) p.collected)
