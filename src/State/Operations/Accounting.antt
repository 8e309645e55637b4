-- ===== src/State/Operations/Accounting.antt =====
-- pkg/state/manager.go: the counters of the statistics against the history.
use jira_cdc_git.Prelude.{
  ℕ, ◌+◌, ◌%◌, ◌≡◌, refl, Bool, true, false, List, [], ◌∷◌, ◌++◌, suc, arith, if◌then◌else◌, length,
  length-append, word_mod,
}
use jira_cdc_git.Prelude.Text.{Text}
use jira_cdc_git.State.Types.{
  SyncType, SyncStatus, failed, OperationResults, SyncConfig, SyncOperation, State, RepositoryInfo,
}
use jira_cdc_git.State.Heap.{Heap, update_self}
use jira_cdc_git.State.Backup.{new_state}
use jira_cdc_git.State.Operations.{
  start_sync_operation, completed_operation, failed_operation, complete_sync_operation,
  fail_sync_operation, is_completed,
}

abbrev pub is_failed : SyncStatus → Bool
is_failed failed = true
is_failed _ = false

pub count : (SyncStatus → Bool) → List SyncOperation → ℕ
count test [] = 0
count test (op ∷ ops) = let rest = count test ops in if test op.status then suc rest else rest

count-append :
    (test : SyncStatus → Bool) (ops : List SyncOperation) (op : SyncOperation)
    → count test (ops ++ op ∷ []) ≡ count test ops + (if test op.status then 1 else 0)
unfolding count
count-append test [] op = ground arith
count-append test (o ∷ ops) op = ground (arith, count-append test ops op)

-- The statistics count the history, in 64 bits.
pub record IsCounted (s : State) : Type 0 where
  pub total : s.stats.total_operations ≡ length s.history % word_mod
  pub successful : s.stats.successful_ops ≡ count is_completed s.history % word_mod
  pub failures : s.stats.failed_ops ≡ count is_failed s.history % word_mod

-- A state that has just been initialized is counted.
pub new_state-IsCounted : (now : ℕ) (info : RepositoryInfo) → IsCounted (new_state now info)
unfolding count
new_state-IsCounted now info = record { total = refl; successful = refl; failures = refl }

pub start-IsCounted :
    (now : ℕ) (h : Heap) (s : State) (type : SyncType) (config : SyncConfig)
    → IsCounted s
    → IsCounted (start_sync_operation now h s type config).1
unfolding start_sync_operation
start-IsCounted now h s type config c = record {
  total = c.total;
  successful = c.successful;
  failures = c.failures;
}

-- If the counters of the statistics count the history, in 64 bits, they still do after an operation has
-- been completed. Completing it adds it to the end of the history, writes it where the pointer leads,
-- and counts the issues.
pub complete-IsCounted :
    (now : ℕ) (h : Heap) (s : State) (r : ℕ) (results : OperationResults)
    → IsCounted s
    → let (h', s') = complete_sync_operation now h s r results in
      let op = completed_operation now (h.cell r) results in
      IsCounted s'
      × (s'.history ≡ s.history ++ op ∷ [])
      × (h'.cell r ≡ op)
      × (s'.stats.unique_issues ≡ length s.issues)
unfolding complete_sync_operation
complete-IsCounted now h s r results c =
    let op = completed_operation now (h.cell r) results in
    (
      record {
        total = omega (arith, c.total, length-append {0} s.history (op ∷ []));
        successful = ground (arith, c.successful, count-append is_completed s.history op);
        failures = ground (arith, c.failures, count-append is_failed s.history op);
      },
      refl,
      update_self h.cell r op,
      refl,
    )

-- If the counters of the statistics count the history, in 64 bits, they still do after an operation has
-- failed. Failing it adds it, with the message of its error, to the end of the history, writes it where
-- the pointer leads, and counts the issues.
pub fail-IsCounted :
    (now : ℕ) (h : Heap) (s : State) (r : ℕ) (message : Text)
    → IsCounted s
    → let (h', s') = fail_sync_operation now h s r message in
      let op = failed_operation now (h.cell r) message in
      IsCounted s'
      × (s'.history ≡ s.history ++ op ∷ [])
      × (h'.cell r ≡ op)
      × (s'.stats.unique_issues ≡ length s.issues)
unfolding fail_sync_operation
fail-IsCounted now h s r message c =
    let op = failed_operation now (h.cell r) message in
    (
      record {
        total = omega (arith, c.total, length-append {0} s.history (op ∷ []));
        successful = ground (arith, c.successful, count-append is_completed s.history op);
        failures = ground (arith, c.failures, count-append is_failed s.history op);
      },
      refl,
      update_self h.cell r op,
      refl,
    )
