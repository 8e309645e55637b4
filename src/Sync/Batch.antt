-- ===== src/Sync/Batch.antt =====
-- internal/sync/batch.go: the batch engine, its result, and the sync of a single issue.
pub mod Balance
use jira_cdc_git.Prelude.{
  ℕ, ◌+◌, ◌*◌, Option, none, some, List, [], ◌∷◌, ◌++◌, ltb, if◌then◌else◌, slt, sdiv_pos, sub_time,
  add64,
}
use jira_cdc_git.Prelude.Text.{Text, codes}
use jira_cdc_git.Sync.Progress.{ProgressUpdate, Channel, try_send}

pub record BatchError : Type 0 where
  pub issue_key : Text
  pub step : Text
  pub message : Text

-- The rate, a float, and the memory, which is never set, are left out.
pub record PerformanceMetrics : Type 0 where
  pub worker_count : ℕ
  pub avg_process_time : ℕ

-- The counters start at 0 and grow by one for an element of a slice, so they do not overflow.
pub record BatchResult : Type 0 where
  pub total_issues : ℕ
  pub processed_issues : ℕ
  pub successful_sync : ℕ
  pub failed_sync : ℕ
  pub processed_files : List Text
  pub errors : List BatchError
  pub duration : ℕ
  pub performance : PerformanceMetrics

pub record SyncTask : Type 0 where
  pub issue_key : Text
  pub index : ℕ

-- `error` is the message of a non-nil error.
pub record SyncResult : Type 0 where
  pub issue_key : Text
  pub index : ℕ
  pub file_path : Text
  pub error : Option Text
  pub process_time : ℕ

-- The part of the engine that is its own: the number of workers and the progress channel.
pub record BatchSyncEngine : Type 0 where
  pub concurrency : ℕ
  pub progress : Channel

-- The concurrency asked for, a signed number, is brought into 1 to 10.
unfoldable pub clamp_concurrency : ℕ → ℕ
clamp_concurrency n = let low = if slt n 1 then 1 else n in if slt 10 low then 10 else low

unfoldable pub new_batch_sync_engine : ℕ → BatchSyncEngine
new_batch_sync_engine n =
    let c = clamp_concurrency n in
    record { concurrency = c; progress = record { capacity = c * 2; queued = [] } }

abbrev pub empty_batch : ℕ → ℕ → BatchResult
empty_batch total workers = record {
  total_issues = total;
  processed_issues = 0;
  successful_sync = 0;
  failed_sync = 0;
  processed_files = [];
  errors = [];
  duration = 0;
  performance = record { worker_count = workers; avg_process_time = 0 };
}

abbrev sync_error : SyncResult → Text → BatchError
sync_error r message = record { issue_key = r.issue_key; step = codes "sync"; message = message }

abbrev add_outcome : SyncResult → Option Text → BatchResult → BatchResult
add_outcome r none b = record b {
  processed_issues = b.processed_issues + 1;
  successful_sync = b.successful_sync + 1;
  processed_files = b.processed_files ++ r.file_path ∷ [];
}
add_outcome r (some message) b = record b {
  processed_issues = b.processed_issues + 1;
  failed_sync = b.failed_sync + 1;
  errors = b.errors ++ sync_error r message ∷ [];
}

-- What both loops do with the result of an issue.
unfoldable pub add_result : BatchResult → SyncResult → BatchResult
add_result b r = add_outcome r r.error b

unfoldable pub add_results : BatchResult → List SyncResult → BatchResult
add_results b [] = b
add_results b (r ∷ rs) = add_results (add_result b r) rs

unfoldable pub total_time : ℕ → List SyncResult → ℕ
total_time t [] = t
total_time t (r ∷ rs) = total_time (add64 t r.process_time) rs

-- The metrics at the end of both loops.
unfoldable pub finish_batch : ℕ → ℕ → ℕ → BatchResult → BatchResult
finish_batch start now time b = record b {
  duration = sub_time now start;
  performance = record b.performance {
    avg_process_time =
        if ltb 0 b.processed_issues
        then sdiv_pos time b.processed_issues
        else b.performance.avg_process_time;
  };
}

-- A call that acts on the world and on the progress channel.
pub record Env (W : Type 0) : Type 0 where
  pub world : W
  pub progress : Channel

abbrev pub Act : Type 0 → Type 0 → Type 0
Act W A = Env W → A × Env W

module _ {S A B : Type 0} where
  infixl 5 ◌>>=◌ ◌>>◌
  abbrev pub ◌>>=◌ : (S → A × S) → (A → S → B × S) → S → B × S
  ◌>>=◌ m f e = let (a, e') = m e in f a e'

  abbrev pub ◌>>◌ : (S → A × S) → (S → B × S) → S → B × S
  m >> n = m >>= λ _. n

abbrev pub pure : {S A : Type 0} → A → S → A × S
pure a e = (a, e)

module _ {W : Type 0} where
  -- A call of a service.
  abbrev pub call : {A : Type 0} → (W → A × W) → Act W A
  call f e = let (a, w) = f e.world in (a, record e { world = w })

  abbrev pub send : ProgressUpdate → Act W (Unit {0})
  send u e = (tt, record e { progress = try_send u e.progress })
