-- ===== src/Operator/Status.antt =====
-- internal/operator/controllers/status_manager.go: the status manager.
pub mod Update
pub mod Placed
use jira_cdc_git.Prelude.{
  ℕ, Bool, true, false, Option, none, some, List, [], ◌∷◌, ◌++◌, not, ◌&&◌, ◌||◌, any, take,
  if◌then◌else◌, slt, add64,
}
use jira_cdc_git.Prelude.Text.{Text, codes, text_eq}
use jira_cdc_git.Prelude.Assoc.{Assoc, insert}
use jira_cdc_git.Operator.Types.{
  JiraSyncSpec, Condition, SyncStats, JobReference, ProgressInfo, SyncState, JiraSyncStatus,
  JiraSync,
}
use jira_cdc_git.Operator.Cluster.{Cluster}

-- `none` stands for a nil pointer, slice, map or error.
pub record ProgressUpdate (F : Type 0) : Type 0 where
  pub percentage : Option ℕ
  pub current_operation : Text
  pub total_operations : Option ℕ
  pub completed_operations : Option ℕ
  pub estimated_completion : Option ℕ
  pub processing_rate : Option F
  pub stage : Text

pub record SyncStateUpdate : Type 0 where
  pub operation_id : Text
  pub config_hash : Text
  pub active_issues : Option (List Text)
  pub last_successful_config : Text
  pub metadata : Option (Assoc Text)
  pub add_metadata : Option (Assoc Text)

pub record SyncStatsUpdate : Type 0 where
  pub total_issues : Option ℕ
  pub processed_issues : Option ℕ
  pub failed_issues : Option ℕ
  pub duration : Text
  pub start_time : Option ℕ
  pub last_sync_time : Option ℕ

pub record StatusUpdate (F : Type 0) : Type 0 where
  pub phase : Text
  pub conditions : List Condition
  pub progress : Option (ProgressUpdate F)
  pub sync_state : Option SyncStateUpdate
  pub sync_stats : Option SyncStatsUpdate
  pub job_ref : Option JobReference
  pub error : Option Text
  pub retry_count : ℕ
  pub clear_error : Bool

-- A `StatusUpdate{}`.
abbrev pub no_update : {F : Type 0} → StatusUpdate F
no_update = record {
  phase = [];
  conditions = [];
  progress = none;
  sync_state = none;
  sync_stats = none;
  job_ref = none;
  error = none;
  retry_count = 0;
  clear_error = false;
}

-- A field of an update that is not nil, or not empty, replaces the current one.
abbrev pub given {ℓ} : {A : Type ℓ} → Option A → A → A
given (some a) current = a
given none current = current

abbrev pub given_option {ℓ} : {A : Type ℓ} → Option A → Option A → Option A
given_option (some a) current = some a
given_option none current = current

abbrev pub given_text : Text → Text → Text
given_text t current = if text_eq t [] then current else t

unfoldable pub update_progress : {F : Type 0} → ProgressUpdate F → ProgressInfo F → ProgressInfo F
update_progress u c = record {
  percentage = given u.percentage c.percentage;
  current_operation = given_text u.current_operation c.current_operation;
  total_operations = given u.total_operations c.total_operations;
  completed_operations = given u.completed_operations c.completed_operations;
  estimated_completion = given_option u.estimated_completion c.estimated_completion;
  processing_rate = given u.processing_rate c.processing_rate;
  stage = given_text u.stage c.stage;
}

abbrev pub insert_all : Assoc Text → Assoc Text → Assoc Text
insert_all [] m = m
insert_all ((k, v) ∷ kvs) m = insert_all kvs (insert k v m)

abbrev pub add_all : Option (Assoc Text) → Option (Assoc Text) → Option (Assoc Text)
add_all none m = m
add_all (some kvs) m = some (insert_all kvs (given m []))

unfoldable pub update_sync_state : SyncStateUpdate → SyncState → SyncState
update_sync_state u c = record c {
  operation_id = given_text u.operation_id c.operation_id;
  config_hash = given_text u.config_hash c.config_hash;
  active_issues = given_option u.active_issues c.active_issues;
  last_successful_config = given_text u.last_successful_config c.last_successful_config;
  metadata = add_all u.add_metadata (given_option u.metadata c.metadata);
}

unfoldable pub update_sync_stats : SyncStatsUpdate → SyncStats → SyncStats
update_sync_stats u c = record {
  total_issues = given u.total_issues c.total_issues;
  processed_issues = given u.processed_issues c.processed_issues;
  failed_issues = given u.failed_issues c.failed_issues;
  last_sync_time = given_option u.last_sync_time c.last_sync_time;
  duration = given_text u.duration c.duration;
  start_time = given_option u.start_time c.start_time;
}

unfoldable pub has_condition : Text → Text → List Condition → Bool
has_condition type status = any (λ c. text_eq c.type type && text_eq c.status status)

-- Failed is True, or there were three retries, or it is ready or processing.
unfoldable pub calculate_health_status : {F : Type 0} → JiraSyncStatus F → Text
calculate_health_status s =
    if has_condition (codes "Failed") (codes "True") s.conditions
    then codes "Unhealthy"
    else if not (slt s.retry_count 3)
    then codes "Degraded"
    else if has_condition (codes "Ready") (codes "True") s.conditions
    then codes "Healthy"
    else if has_condition (codes "Processing") (codes "True") s.conditions
    then codes "Healthy"
    else codes "Unknown"

abbrev issue_if : Bool → Text → List Text
issue_if b m = if b then m ∷ [] else []

unfoldable pub progress_issues : {F : Type 0} → Option (ProgressInfo F) → List Text
progress_issues none = []
progress_issues (some p) =
    issue_if (slt p.percentage 0 || slt 100 p.percentage)
      (codes "Progress percentage must be between 0 and 100")
    ++ issue_if (slt p.total_operations p.completed_operations)
        (codes "Completed operations cannot exceed total operations")

unfoldable pub stats_issues : Option SyncStats → List Text
stats_issues none = []
stats_issues (some s) =
    issue_if (slt s.total_issues (add64 s.processed_issues s.failed_issues))
      (codes "Processed + Failed issues cannot exceed total issues")

unfoldable pub phase_issues : {F : Type 0} → JiraSyncStatus F → List Text
phase_issues s =
    issue_if
      (text_eq s.phase (codes "Completed")
        && not (has_condition (codes "Ready") (codes "True") s.conditions))
      (codes "Phase is Completed but Ready condition is not True")
    ++ issue_if
        (text_eq s.phase (codes "Failed")
          && not (has_condition (codes "Failed") (codes "True") s.conditions))
        (codes "Phase is Failed but Failed condition is not True")

unfoldable pub validate_status : {F : Type 0} → JiraSync F → List Text
validate_status o =
    phase_issues o.status
    ++ (progress_issues o.status.progress
        ++ (stats_issues o.status.sync_stats
            ++ issue_if (slt o.generation o.status.observed_generation)
                (codes "Observed generation cannot be greater than resource generation")))

abbrev pub stamped : ℕ → Condition → Condition
stamped t c = record c { last_transition_time = t }

module _ {F W : Type 0} (k : Cluster F W) where
  -- The transition time is the clock's, unless status and reason stay the same.
  unfoldable pub set_condition : Condition → List Condition → W → List Condition × W
  set_condition n [] w = let t = k.now w in (stamped t.0 n ∷ [], t.1)
  set_condition n (c ∷ cs) w =
      let rest = set_condition n cs w in
      let t = k.now w in
      if text_eq c.type n.type
      then (if text_eq c.status n.status && text_eq c.reason n.reason
          then (stamped c.last_transition_time n ∷ cs, w)
          else (stamped t.0 n ∷ cs, t.1))
      else (c ∷ rest.0, rest.1)

  unfoldable pub generate_config_hash : JiraSyncSpec F → Text
  generate_config_hash s = take 16 (k.hash_spec s)
