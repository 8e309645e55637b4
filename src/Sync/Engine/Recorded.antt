-- ===== src/Sync/Engine/Recorded.antt =====
-- internal/sync/incremental.go: what a run of the incremental sync leaves in the history.
use jira_cdc_git.Prelude.{
  ℕ, ◌-◌, ◌≡◌, refl, ap, ◌∙◌, Bool, true, false, Option, none, some, List, [], ◌∷◌, ◌++◌, zero, suc,
  length, drop, add64, arith, ltb, Bool-cases, inl, inr,
}
use jira_cdc_git.Prelude.Text.{Text}
use jira_cdc_git.Jira.{Issue}
use jira_cdc_git.State.Types.{
  SyncType, incremental, SyncStatus, completed, failed, OperationResults, SyncOperation, State,
}
use jira_cdc_git.State.Heap.{update_self}
use jira_cdc_git.State.Platform.{Platform}
use jira_cdc_git.State.Persist.{stamp_state, save_present, max_history_entries}
use jira_cdc_git.State.Operations.{
  started_operation, start_sync_operation, complete_sync_operation, fail_sync_operation,
  count_status, completed_operation, failed_operation,
}
use jira_cdc_git.State.Issues.{
  update_issue_state, update_measured, put_issue, calculate_file_checksum, file_size,
}
use jira_cdc_git.Sync.Services.{Outcome, ok, fail}
use jira_cdc_git.Sync.Runtime.{Runtime, Session}
use jira_cdc_git.Sync.Incremental.{
  IncrementalSyncOptions, act, filter_issues_for_incremental, update_fetched, update_synced,
  update_files, perform_incremental_sync, extract_issue_key_from_file_path,
}
use jira_cdc_git.Sync.Engine.{
  save_session, start_session, complete_session, fail_session, end_session, operation_results,
  sync_config, failure_message, run_batch, sync_taken, set_issue_keys, sync_session,
}

-- The newest operations, as many as are kept.
abbrev pub newest : List SyncOperation → List SyncOperation
newest ops = drop (length ops - max_history_entries) ops

-- The status that a number of failures gives.
abbrev pub outcome : ℕ → SyncStatus
outcome zero = completed
outcome (suc n) = failed

-- The state `t` is `s` with one more operation, which has the type, the keys and the status
-- given, and is counted.
pub record IsRecorded (type : SyncType) (keys : List Text) (failures : ℕ) (s t : State)
    : Type 0 where
  pub operation : SyncOperation
  pub history : t.history ≡ newest (s.history ++ operation ∷ [])
  pub same_type : operation.type ≡ type
  pub same_keys : operation.issue_keys ≡ keys
  pub has_outcome : operation.status ≡ outcome failures
  pub counted : t.stats.total_operations ≡ add64 s.stats.total_operations 1

-- What the files of a sync leave as it was.
record IsKept {W : Type 0} (x y : Session W) : Type 0 where
  heap : y.heap ≡ x.heap
  history : y.state.history ≡ x.state.history
  total : y.state.stats.total_operations ≡ x.state.stats.total_operations

stamp_newest : (now : ℕ) (s : State) → (stamp_state now s).history ≡ newest s.history
unfolding stamp_state
stamp_newest now s = elim (Bool-cases (ltb 50 (length s.history))) [
  | inl e ↦ rw e refl
  | inr e ↦ rw e (rw (all_kept e) refl)
]
  where
    all_kept : ltb 50 (length s.history) ≡ false → length s.history - 50 ≡ 0
    all_kept e = ground arith

stamp_total :
    (now : ℕ) (s : State) → (stamp_state now s).stats.total_operations ≡ s.stats.total_operations
unfolding stamp_state
stamp_total now s = refl

module _ {W : Type 0} (rt : Runtime W) where
  IsKept-trans : (x y z : Session W) → IsKept x y → IsKept y z → IsKept x z
  IsKept-trans x y z a b = record {
    heap = b.heap ∙ a.heap;
    history = b.history ∙ a.history;
    total = b.total ∙ a.total;
  }

  measured_keeps :
      (p : Platform) (now : ℕ) (s : State) (issue : Issue) (path : Text) (c : Option Text)
      (n : Option ℕ)
      → let t = (update_measured p now s issue path c n).0 in
        (t.history ≡ s.history) × (t.stats.total_operations ≡ s.stats.total_operations)
  unfolding update_measured put_issue
  measured_keeps p now s issue path none n = (refl, refl)
  measured_keeps p now s issue path (some c) none = (refl, refl)
  measured_keeps p now s issue path (some c) (some n) = (refl, refl)

  fetched_keeps :
      (path : Text) (r : Outcome Issue) (x : Session W) → IsKept x (update_fetched rt path r x).1
  unfolding update_fetched update_issue_state
  fetched_keeps path (fail e) x = record { heap = refl; history = refl; total = refl }
  fetched_keeps path (ok issue) x =
      let (f, w) = rt.faults x.env.world in
      let (now, w') = rt.services.now w in
      let d = rt.disk w' in
      let kept =
        measured_keeps rt.platform now x.state issue path
          (calculate_file_checksum rt.platform f d path) (file_size f d path) in
      record { heap = refl; history = kept.0; total = kept.1 }

  synced_keeps : (path key : Text) (x : Session W) → IsKept x (update_synced rt path key x).1
  unfolding update_synced
  synced_keeps path [] x = record { heap = refl; history = refl; total = refl }
  synced_keeps path (c ∷ key) x =
      let (fetched, y) =
        act rt
          (λ e. let (a, w) = rt.services.get_issue (c ∷ key) e.world in (a, record e { world = w }))
          x in
      let kept = fetched_keeps path fetched y in
      record { heap = kept.heap; history = kept.history; total = kept.total }

  files_keep : (paths : List Text) (x : Session W) → IsKept x (update_files rt paths x).1
  unfolding update_files
  files_keep [] x = record { heap = refl; history = refl; total = refl }
  files_keep (path ∷ paths) x =
      let y = (update_synced rt path (extract_issue_key_from_file_path path) x).1 in
      IsKept-trans x y (update_files rt paths y).1
        (synced_keeps path (extract_issue_key_from_file_path path) x) (files_keep paths y)

  batch_keeps :
      (dry : Bool) (keys : List Text) (repo : Text) (x : Session W)
      → IsKept x (run_batch rt dry keys repo x).1
  unfolding run_batch perform_incremental_sync
  batch_keeps true keys repo x = record { heap = refl; history = refl; total = refl }
  batch_keeps false keys repo x =
      let (b, y) = act rt (rt.batch keys repo) x in
      let kept = files_keep b.processed_files y in
      record { heap = kept.heap; history = kept.history; total = kept.total }

  complete_records :
      (r : ℕ) (results : OperationResults) (x : Session W) (repo : Text)
      → IsRecorded
          (x.heap.cell r).type
          (x.heap.cell r).issue_keys
          0
          x.state
          (save_session rt repo (complete_session rt r results x).1).1.state
  unfolding save_session complete_session complete_sync_operation count_status save_present
  complete_records r results x repo =
      let (now, w) = rt.services.now x.env.world in
      record {
        operation = completed_operation now (x.heap.cell r) results;
        history = stamp_newest _ _;
        same_type = refl;
        same_keys = refl;
        has_outcome = refl;
        counted = stamp_total _ _;
      }

  fail_records :
      (r : ℕ) (n : ℕ) (x : Session W) (repo : Text)
      → IsRecorded
          (x.heap.cell r).type
          (x.heap.cell r).issue_keys
          (suc n)
          x.state
          (save_session rt repo (fail_session rt r (failure_message rt (suc n)) x).1).1.state
  unfolding save_session fail_session fail_sync_operation count_status save_present
  fail_records r n x repo =
      let (now, w) = rt.services.now x.env.world in
      record {
        operation = failed_operation now (x.heap.cell r) (failure_message rt (suc n));
        history = stamp_newest _ _;
        same_type = refl;
        same_keys = refl;
        has_outcome = refl;
        counted = stamp_total _ _;
      }

  end_records :
      (r : ℕ) (results : OperationResults) (n : ℕ) (x : Session W) (repo : Text)
      → IsRecorded
          (x.heap.cell r).type
          (x.heap.cell r).issue_keys
          n
          x.state
          (save_session rt repo (end_session rt r results n x).1).1.state
  unfolding end_session
  end_records r results zero x repo = complete_records r results x repo
  end_records r results (suc n) x repo = fail_records r n x repo

  -- The operation that `a` records from `y` is the one it records from `x`, if `y` keeps what `x` has.
  IsRecorded-from :
      (r n : ℕ) (x y : Session W) (t : State)
      → IsKept x y
      → IsRecorded (y.heap.cell r).type (y.heap.cell r).issue_keys n y.state t
      → IsRecorded (x.heap.cell r).type (x.heap.cell r).issue_keys n x.state t
  IsRecorded-from r n x y t k a = record {
    operation = a.operation;
    history = a.history ∙ ap (λ ops. newest (ops ++ a.operation ∷ [])) k.history;
    same_type = a.same_type ∙ ap (λ h. (h.cell r).type) k.heap;
    same_keys = a.same_keys ∙ ap (λ h. (h.cell r).issue_keys) k.heap;
    has_outcome = a.has_outcome;
    counted = a.counted ∙ ap (λ n. add64 n 1) k.total;
  }

  taken_records :
      (r asked : ℕ) (dry : Bool) (repo : Text) (keys : List Text) (x : Session W)
      → let ((b, e), y) = sync_taken rt r asked dry repo keys x in
        IsRecorded (x.heap.cell r).type (x.heap.cell r).issue_keys b.failed_sync x.state y.state
  unfolding sync_taken
  taken_records r asked dry repo [] x = complete_records r _ x repo
  taken_records r asked dry repo (key ∷ keys) x =
      let (b, y) = run_batch rt dry (key ∷ keys) repo x in
      IsRecorded-from r b.failed_sync x y _ (batch_keeps dry (key ∷ keys) repo x)
        (end_records r (operation_results rt asked (length (key ∷ keys)) b) b.failed_sync y repo)

  -- A run of the incremental sync adds one operation to the history, of which the newest 50 are kept,
  -- and counts it in 64 bits. The operation is incremental, lists the issues that the filter took, and is
  -- completed exactly when the result counts no failure, and is failed otherwise. This holds whatever the
  -- services return, if the issues are none, in a dry run, and if the state could not be saved.
  pub sync_session-IsRecorded :
      (keys : List Text) (repo : Text) (o : IncrementalSyncOptions) (x : Session W)
      → let ((b, e), y) = sync_session rt keys repo o x in
        let started = (start_session rt incremental o x).1 in
        let taken = (filter_issues_for_incremental rt o started.state keys started.env).0 in
        IsRecorded incremental taken b.failed_sync x.state y.state
  unfolding sync_session set_issue_keys start_session start_sync_operation
  sync_session-IsRecorded keys repo o x =
      let (r, started) = start_session rt incremental o x in
      let (taken, e) = filter_issues_for_incremental rt o started.state keys started.env in
      let y = (set_issue_keys rt r taken (record started { env = e })).1 in
      let a = taken_records r (length keys) o.dry_run repo taken y in
      let cell =
        update_self started.heap.cell r (record (started.heap.cell r) { issue_keys = taken }) in
      let cell' =
        update_self x.heap.cell r
          (started_operation (rt.services.now x.env.world).0 incremental (sync_config rt o)) in
      record {
        operation = a.operation;
        history = a.history;
        same_type =
            a.same_type
            ∙ (ap (λ (op : SyncOperation). op.type) cell
                ∙ ap (λ (op : SyncOperation). op.type) cell');
        same_keys = a.same_keys ∙ ap (λ (op : SyncOperation). op.issue_keys) cell;
        has_outcome = a.has_outcome;
        counted = a.counted;
      }
