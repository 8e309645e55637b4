-- ===== src/State/Operations/LastSync.antt =====
-- pkg/state/manager.go: the time of the last completed sync, through the pointer and the history.
use jira_cdc_git.Prelude.{ℕ, ◌≡◌, refl, ap, false, List, [], ◌∷◌, ◌++◌}
use jira_cdc_git.Prelude.Text.{Text}
use jira_cdc_git.State.Types.{SyncType, SyncConfig, SyncOperation, OperationResults, State}
use jira_cdc_git.State.Heap.{Heap, update, update_self}
use jira_cdc_git.State.Operations.{
  started_operation, completed_operation, failed_operation, start_sync_operation,
  complete_sync_operation, fail_sync_operation, is_completed, last_completed, time_or_zero,
  get_last_sync_time,
}

last_completed-append :
    (ops : List SyncOperation) (op : SyncOperation)
    → is_completed op.status ≡ false
    → last_completed (ops ++ op ∷ []) ≡ last_completed ops
unfolding last_completed
last_completed-append [] op h = rw h refl
last_completed-append (o ∷ ops) op h = rw (last_completed-append ops op h, last_completed) refl

-- An operation that was started and then completed at `t2` makes `t2` the time of the last sync.
pub last_sync_time_complete :
    (t1 t2 : ℕ) (h : Heap) (s : State) (type : SyncType) (config : SyncConfig)
    (results : OperationResults)
    → let (h1, s1, r) = start_sync_operation t1 h s type config in
      let (h2, s2) = complete_sync_operation t2 h1 s1 r results in get_last_sync_time h2 s2 ≡ t2
unfolding start_sync_operation complete_sync_operation get_last_sync_time
last_sync_time_complete t1 t2 h s type config results =
    let op = started_operation t1 type config in
    let done = completed_operation t2 op results in
    rw (update_self h.cell h.next op) (rw (update_self (update h.cell h.next op) h.next done))

-- While an operation runs, and after it has failed, the time is that of the last completed operation
-- of the history before it, or the zero time if there is none.
pub last_sync_time-fail :
    (t1 t2 : ℕ) (h : Heap) (s : State) (type : SyncType) (config : SyncConfig) (message : Text)
    → let (h1, s1, r) = start_sync_operation t1 h s type config in
      let (h2, s2) = fail_sync_operation t2 h1 s1 r message in
      (get_last_sync_time h1 s1 ≡ time_or_zero (last_completed s.history))
      × (get_last_sync_time h2 s2 ≡ time_or_zero (last_completed s.history))
unfolding start_sync_operation fail_sync_operation get_last_sync_time
last_sync_time-fail t1 t2 h s type config message =
    let op = started_operation t1 type config in
    let failed_op = failed_operation t2 op message in
    (
      rw (update_self h.cell h.next op),
      rw (update_self h.cell h.next op) (
          rw (update_self (update h.cell h.next op) h.next failed_op)
            (ap time_or_zero (last_completed-append s.history failed_op refl))),
    )
