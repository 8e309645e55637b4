-- ===== src/Operator/Status/Update.antt =====
-- internal/operator/controllers/status_manager.go: UpdateStatus, and the updates that call it.
use jira_cdc_git.Prelude.{
  ℕ, Bool, true, false, not, ◌||◌, Option, none, some, List, [], ◌∷◌, ◌++◌, if◌then◌else◌,
}
use jira_cdc_git.Prelude.Text.{Text, codes, text_eq}
use jira_cdc_git.Operator.Types.{
  Condition, SyncStats, ProgressInfo, SyncState, JiraSyncStatus, JiraSync,
}
use jira_cdc_git.Operator.Cluster.{Cluster, Act, call, get, modify, ◌>>=◌, ◌>>◌, pure, save_status}
use jira_cdc_git.Operator.Status.{
  StatusUpdate, ProgressUpdate, SyncStateUpdate, SyncStatsUpdate, no_update, given, given_option,
  update_progress, update_sync_state, update_sync_stats, calculate_health_status, set_condition,
}

abbrev pub empty_sync_state : SyncState
empty_sync_state = record {
  operation_id = [];
  config_hash = [];
  active_issues = none;
  last_successful_config = [];
  metadata = none;
  health_status = [];
}

abbrev pub empty_sync_stats : SyncStats
empty_sync_stats = record {
  total_issues = 0;
  processed_issues = 0;
  failed_issues = 0;
  last_sync_time = none;
  duration = [];
  start_time = none;
}

abbrev pub empty_progress : {F : Type 0} → F → ProgressInfo F
empty_progress zero_float = record {
  percentage = 0;
  current_operation = [];
  total_operations = 0;
  completed_operations = 0;
  estimated_completion = none;
  processing_rate = zero_float;
  stage = [];
}

abbrev pub merge_progress :
    {F : Type 0} → F → Option (ProgressUpdate F) → Option (ProgressInfo F) → Option (ProgressInfo F)
merge_progress z none p = p
merge_progress z (some u) p = some (update_progress u (given p (empty_progress z)))

abbrev pub merge_sync_state : Option SyncStateUpdate → Option SyncState → Option SyncState
merge_sync_state none s = s
merge_sync_state (some u) s = some (update_sync_state u (given s empty_sync_state))

abbrev pub merge_sync_stats : Option SyncStatsUpdate → Option SyncStats → Option SyncStats
merge_sync_stats none s = s
merge_sync_stats (some u) s = some (update_sync_stats u (given s empty_sync_stats))

module _ {F : Type 0} where
  abbrev pub with_status : (JiraSyncStatus F → JiraSyncStatus F) → JiraSync F → JiraSync F
  with_status f o = record o { status = f o.status }

  -- The error and the count of retries after an update.
  abbrev pub merge_error : Option Text → ℕ → Bool → JiraSyncStatus F → JiraSyncStatus F
  merge_error (some e) n clear s = record s { last_error = e; retry_count = n }
  merge_error none n true s = record s { last_error = []; retry_count = 0 }
  merge_error none n false s = s

  unfoldable pub set_health : JiraSyncStatus F → JiraSyncStatus F
  set_health s = record s {
    sync_state = some (record (given s.sync_state empty_sync_state) {
      health_status = calculate_health_status s;
    });
  }

module _ {F W : Type 0} (k : Cluster F W) where
  abbrev pub emit : Text → Text → Text → Act F W (Unit {0})
  emit type reason message = call (λ (w : W). (tt, k.event type reason message w))

  abbrev pub emit_phase_change : Text → Text → Act F W (Unit {0})
  emit_phase_change old new =
      if text_eq new [] || text_eq old new
      then pure tt
      else emit (codes "Normal") (codes "PhaseChanged")
          (codes "Phase changed from " ++ (old ++ (codes " to " ++ new)))

  unfoldable pub update_phase : Text → Act F W (Unit {0})
  update_phase phase = do
    o ← get
    modify (with_status (λ s. record s { phase = if text_eq phase [] then s.phase else phase }))
    emit_phase_change o.status.phase phase

  unfoldable pub update_conditions : List Condition → Act F W (Unit {0})
  update_conditions [] = pure tt
  update_conditions (n ∷ ns) = do
    o ← get
    cs ← call (set_condition k n o.status.conditions)
    modify (with_status (λ s. record s { conditions = cs }))
    update_conditions ns

  abbrev pub emit_error : Option Text → Act F W (Unit {0})
  emit_error (some e) = emit (codes "Warning") (codes "SyncError") e
  emit_error none = pure tt

  abbrev pub persisted : Option Text → Option Text
  persisted none = none
  persisted (some e) = some (codes "failed to update status: " ++ e)

  -- The status that an update submits.
  unfoldable pub prepare_status : StatusUpdate F → Act F W (Unit {0})
  prepare_status u = do
    t ← call k.now
    modify (with_status (λ s. record s { last_status_update = some t }))
    update_phase u.phase
    update_conditions u.conditions
    modify (
        with_status (λ s. merge_error u.error u.retry_count u.clear_error (record s {
          progress = merge_progress k.zero_float u.progress s.progress;
          sync_state = merge_sync_state u.sync_state s.sync_state;
        })))
    emit_error u.error
    modify (λ o.
        with_status
          (λ s.
            record (set_health (record s {
              sync_stats = merge_sync_stats u.sync_stats s.sync_stats;
              job_ref = given_option u.job_ref s.job_ref;
            })) { observed_generation = o.generation })
          o)

  -- The error of the update.
  unfoldable pub update_status : StatusUpdate F → Act F W (Option Text)
  update_status u = do prepare_status u; e ← save_status k; pure (persisted e)

  -- `metav1.ConditionTrue` or `ConditionFalse`.
  abbrev pub status_of : Bool → Text
  status_of b = if b then codes "True" else codes "False"

  -- A condition at the current time.
  unfoldable pub new_condition : Text → Bool → Text → Text → Act F W Condition
  new_condition type status reason message = do
    t ← call k.now
    pure (record {
      type = type;
      status = status_of status;
      last_transition_time = t;
      reason = reason;
      message = message;
    })

  unfoldable pub report_progress : ℕ → Text → Text → Act F W (Option Text)
  report_progress percentage operation stage = do
    c ←
        new_condition (codes "Processing") true (codes "Processing")
          (operation ++ (codes " (" ++ (k.print percentage ++ codes "% complete)")))
    update_status (record no_update {
      progress = some (record {
        percentage = some percentage;
        current_operation = operation;
        total_operations = none;
        completed_operations = none;
        estimated_completion = none;
        processing_rate = none;
        stage = stage;
      });
      conditions = c ∷ [];
    })

  unfoldable pub set_ready_condition : Bool → Text → Text → Act F W (Option Text)
  set_ready_condition ready reason message = do
    c ← new_condition (codes "Ready") ready reason message
    update_status (record no_update { conditions = c ∷ [] })

  unfoldable pub set_processing_condition : Bool → Text → Text → Act F W (Option Text)
  set_processing_condition processing reason message = do
    c ← new_condition (codes "Processing") processing reason message
    update_status (record no_update { conditions = c ∷ [] })

  unfoldable pub set_failed_condition : Bool → Text → Text → Act F W (Option Text)
  set_failed_condition failed reason message = do
    c ← new_condition (codes "Failed") failed reason message
    update_status (record no_update { conditions = c ∷ []; clear_error = not failed })
