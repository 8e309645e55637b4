-- ===== src/State/Operations.antt =====
-- pkg/state/manager.go: sync operations and the statistics over them.
pub mod Accounting
pub mod Projects
pub mod LastSync
use jira_cdc_git.Prelude.{
  ℕ, ◌+◌, ◌-◌, ◌/◌, ◌%◌, ◌^◌, Bool, true, false, Option, none, some, List, [], ◌∷◌, ◌++◌, zero, suc,
  ltb, leb, if◌then◌else◌, length, any, drop, add64, slt, sdiv_pos, sub_time,
}
use jira_cdc_git.Prelude.Text.{Text, codes, text_eq}
use jira_cdc_git.Prelude.Assoc.{Assoc}
use jira_cdc_git.Prelude.Sorting.{sort_texts}
use jira_cdc_git.State.Types.{
  SyncType, SyncStatus, running, completed, failed, OperationResults, SyncConfig, SyncOperation,
  IssueState, SyncStatistics, State,
}
use jira_cdc_git.State.Heap.{Heap, alloc, store}

-- A number in decimal digits; 20 of them hold every number below 2 ^ 64.
decimal_digits : ℕ → ℕ → Text
decimal_digits zero n = []
decimal_digits (suc k) n =
    let rest = decimal_digits k (n / 10) in
    if ltb n 10 then (48 + n) ∷ [] else rest ++ (48 + n % 10) ∷ []

unfoldable pub decimal : ℕ → Text
unfolding decimal_digits
decimal n = decimal_digits 20 n

-- `t.Unix()` in decimal: the Unix epoch is 62135596800 s after the zero time.
unfoldable pub unix_decimal : ℕ → Text
unfolding decimal
unix_decimal t =
    let s = t / 10 ^ 9 in
    if leb 62135596800 s then decimal (s - 62135596800) else b'-' ∷ decimal (62135596800 - s)

abbrev pub no_results : OperationResults
no_results = record {
  total_issues = 0;
  processed_issues = 0;
  successful_sync = 0;
  failed_sync = 0;
  skipped_issues = 0;
  processed_files = [];
  error_count = 0;
}

abbrev pub started_operation : ℕ → SyncType → SyncConfig → SyncOperation
started_operation now type config = record {
  id = codes "sync-" ++ unix_decimal now;
  type = type;
  query = [];
  issue_keys = [];
  start_time = now;
  end_time = 0;
  duration = 0;
  status = running;
  results = no_results;
  config = config;
  error = [];
  metadata = [];
}

-- The pointer that is returned is `LastSync` too.
unfoldable pub start_sync_operation : ℕ → Heap → State → SyncType → SyncConfig → Heap × State × ℕ
start_sync_operation now h s type config =
    (alloc h (started_operation now type config), record s { last_sync = some h.next }, h.next)

-- The keys of `projectMap`: each project once.
unfoldable pub project_keys : Assoc IssueState → List Text
project_keys [] = []
project_keys ((k, i) ∷ m) =
    let rest = project_keys m in
    if any (λ p. text_eq p i.project_key) rest then rest else i.project_key ∷ rest

-- The `switch` on the status.
unfoldable pub count_status : SyncOperation → SyncStatus → SyncStatistics → SyncStatistics
count_status op completed st = record st {
  successful_ops = add64 st.successful_ops 1;
  last_successful_op = op.end_time;
  total_issues_synced = add64 st.total_issues_synced op.results.successful_sync;
}
count_status op failed st = record st {
  failed_ops = add64 st.failed_ops 1;
  last_failed_op = op.end_time;
}
count_status op _ st = st

unfoldable pub update_statistics : State → SyncOperation → State
unfolding count_status
update_statistics s op =
    let st =
      count_status op op.status
        (record s.stats { total_operations = add64 s.stats.total_operations 1 }) in
    let time = add64 st.total_sync_time op.duration in
    record s {
      stats = record st {
        total_sync_time = time;
        avg_sync_time =
            if slt 0 st.total_operations
            then sdiv_pos time st.total_operations
            else st.avg_sync_time;
        unique_issues = length s.issues;
        active_projects = sort_texts (project_keys s.issues);
      };
    }

abbrev pub completed_operation : ℕ → SyncOperation → OperationResults → SyncOperation
completed_operation now op results = record op {
  end_time = now;
  duration = sub_time now op.start_time;
  status = completed;
  results = results;
}

abbrev pub failed_operation : ℕ → SyncOperation → Text → SyncOperation
failed_operation now op message = record op {
  end_time = now;
  duration = sub_time now op.start_time;
  status = failed;
  error = message;
}

-- The operation is changed where the pointer leads, copied to the history, and counted.
unfoldable pub record_operation : Heap → State → ℕ → SyncOperation → Heap × State
unfolding update_statistics
record_operation h s r op =
    (store h r op, update_statistics (record s { history = s.history ++ op ∷ [] }) op)

unfoldable pub complete_sync_operation : ℕ → Heap → State → ℕ → OperationResults → Heap × State
unfolding record_operation
complete_sync_operation now h s r results =
    record_operation h s r (completed_operation now (h.cell r) results)

-- `message` is `err.Error()`.
unfoldable pub fail_sync_operation : ℕ → Heap → State → ℕ → Text → Heap × State
unfolding record_operation
fail_sync_operation now h s r message =
    record_operation h s r (failed_operation now (h.cell r) message)

abbrev pub is_completed : SyncStatus → Bool
is_completed completed = true
is_completed _ = false

-- The loop from the end of the history.
unfoldable pub last_completed : List SyncOperation → Option ℕ
last_completed [] = none
last_completed (op ∷ ops) = elim (last_completed ops) [
  | some t ↦ some t
  | none ↦ if is_completed op.status then some op.end_time else none
]

abbrev pub time_or_zero : Option ℕ → ℕ
time_or_zero none = 0
time_or_zero (some t) = t

abbrev last_sync_time : Heap → Option ℕ → List SyncOperation → ℕ
last_sync_time h none ops = time_or_zero (last_completed ops)
last_sync_time h (some r) ops =
    if is_completed (h.cell r).status
    then (h.cell r).end_time
    else time_or_zero (last_completed ops)

unfoldable pub get_last_sync_time : Heap → State → ℕ
unfolding last_completed
get_last_sync_time h s = last_sync_time h s.last_sync s.history

unfoldable pub get_sync_statistics : State → SyncStatistics
get_sync_statistics s = s.stats

-- A limit that is not positive, or beyond the length, is the length.
unfoldable pub get_history_report : State → ℕ → List SyncOperation
get_history_report s limit =
    let n = length s.history in
    let shown = if slt 0 limit then (if slt n limit then n else limit) else n in
    drop (n - shown) s.history
