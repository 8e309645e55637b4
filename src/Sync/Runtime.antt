-- ===== src/Sync/Runtime.antt =====
-- What `IncrementalBatchSyncEngine` of internal/sync/incremental.go is put together from.
use jira_cdc_git.Prelude.{ℕ, List}
use jira_cdc_git.Prelude.Text.{Text}
use jira_cdc_git.State.Types.{State}
use jira_cdc_git.State.Heap.{Heap}
use jira_cdc_git.State.Platform.{Platform, Disk, Faults}
use jira_cdc_git.State.Persist.{FileStateManager}
use jira_cdc_git.Sync.Services.{Services}
use jira_cdc_git.Sync.Batch.{BatchResult, Env}

pub record Runtime (W : Type 0) : Type 0 where
  pub services : Services W
  pub platform : Platform
  pub manager : FileStateManager
  pub concurrency : ℕ
  -- which system calls fail in the next call of the state manager
  pub faults : W → Faults × W
  pub disk : W → Disk
  pub set_disk : Disk → W → W
  -- a run of `BatchSyncEngine.SyncIssues`, whose error is always nil: see `Sync.Pool`
  pub batch : List Text → Text → Env W → BatchResult × Env W

-- The engine's state is set: what it acts on.
pub record Session (W : Type 0) : Type 0 where
  pub env : Env W
  pub heap : Heap
  pub state : State
