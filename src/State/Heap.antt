-- ===== src/State/Heap.antt =====
-- The operations that Go code holds pointers to. `StartSyncOperation` stores the pointer that it
-- returns in `LastSync` too, so what is later written through the one is read through the other.
use jira_cdc_git.Prelude.{ℕ, ◌+◌, ◌≡◌, arith, ◌==◌, if◌then◌else◌}
use jira_cdc_git.State.Types.{SyncOperation}

pub record Heap : Type 0 where
  pub next : ℕ
  pub cell : ℕ → SyncOperation

unfoldable pub update : (ℕ → SyncOperation) → ℕ → SyncOperation → ℕ → SyncOperation
update f r v j = if j == r then v else f j

abbrev pub alloc : Heap → SyncOperation → Heap
alloc h v = record { next = h.next + 1; cell = update h.cell h.next v }

abbrev pub store : Heap → ℕ → SyncOperation → Heap
store h r v = record h { cell = update h.cell r v }

-- Reading back what was written.
pub update_self : (f : ℕ → SyncOperation) (r : ℕ) (v : SyncOperation) → update f r v r ≡ v
unfolding update
update_self f r v = ground arith
