-- ===== src/Operator/Initialize.antt =====
-- internal/operator/controllers/jirasync_controller.go and jirasync_dependency.go: the choice of an
-- API server and the start of a JIRASync resource. Here, and in the other handlers, the metrics and
-- the logs have no effect.
use jira_cdc_git.Prelude.{
  ℕ, ◌*◌, ◌^◌, Bool, true, false, ◌&&◌, Option, none, some, List, [], ◌∷◌, ◌++◌, if◌then◌else◌,
}
use jira_cdc_git.Prelude.Text.{Text, codes, text_eq}
use jira_cdc_git.Sync.Services.{Outcome, ok, fail}
use jira_cdc_git.Operator.Types.{JiraSyncSpec, Condition}
use jira_cdc_git.Operator.Cluster.{
  Cluster, ApiServer, Act, call, get, modify, ◌>>=◌, ◌>>◌, pure, save_status,
}
use jira_cdc_git.Operator.Status.{StatusUpdate, no_update, has_condition, generate_config_hash}
use jira_cdc_git.Operator.Status.Update
use jira_cdc_git.Operator.Status.Update.{report_progress, with_status}
use jira_cdc_git.Operator.Spec.{validate_sync_spec}
use jira_cdc_git.Operator.Phase.{Reconciled, finished, requeued_after, ended_by}

abbrev pub seconds : ℕ → ℕ
seconds n = n * 10 ^ 9

abbrev pub finalizer : Text
finalizer = codes "sync.jira.io/jirasync-finalizer"

-- The first API server that runs and is ready.
unfoldable pub ready_server : List ApiServer → Option ApiServer
ready_server [] = none
ready_server (s ∷ ss) =
    let rest = ready_server ss in
    if text_eq s.phase (codes "Running")
      && has_condition (codes "Ready") (codes "True") s.conditions
    then some s
    else rest

-- Only an APIServerReady condition of another status is replaced.
unfoldable pub place_server_condition : Condition → List Condition → List Condition
place_server_condition n [] = n ∷ []
place_server_condition n (c ∷ cs) =
    let rest = place_server_condition n cs in
    if text_eq c.type n.type
    then (if text_eq c.status n.status then c ∷ cs else n ∷ cs)
    else c ∷ rest

module _ {F W : Type 0} (k : Cluster F W) where
  abbrev pub set_host : Text → Act F W (Unit {0})
  set_host host e = (tt, record e { api_host = if text_eq host [] then e.api_host else host })

  unfoldable pub use_server : Option ApiServer → Act F W (Outcome Bool)
  use_server none = pure (ok false)
  use_server (some s) = do set_host s.endpoint; pure (ok true)

  abbrev pub server_of : Outcome (List ApiServer) → Act F W (Outcome Bool)
  server_of (fail e) = pure (fail (codes "failed to list APIServer resources: " ++ e))
  server_of (ok servers) = use_server (ready_server servers)

  unfoldable pub check_api_server_dependency : Act F W (Outcome Bool)
  check_api_server_dependency = do servers ← call k.list_api_servers; server_of servers

  -- The API server is not ready.
  unfoldable pub wait_for_server : Act F W Reconciled
  wait_for_server = do
    start ← call k.now
    _ ← Update.update_status k (record no_update {
      phase = codes "Pending";
      sync_stats = some (record {
        total_issues = none;
        processed_issues = none;
        failed_issues = none;
        duration = [];
        start_time = some start;
        last_sync_time = none;
      });
    })
    t ← call k.now
    modify (
        with_status (λ s. record s {
          conditions =
              place_server_condition
                (record {
                  type = codes "APIServerReady";
                  status = codes "False";
                  last_transition_time = t;
                  reason = codes "WaitingForAPIServer";
                  message = codes "Waiting for API server to be ready";
                })
                s.conditions;
        }))
    _ ← save_status k
    pure (requeued_after (seconds 30))

  -- The specification did not pass.
  unfoldable pub refuse_spec : Text → Act F W Reconciled
  refuse_spec e = do
    _ ← Update.update_status k (record no_update {
      phase = codes "Failed";
      error = some e;
      conditions =
          record {
            type = codes "Failed";
            status = codes "True";
            last_transition_time = 0;
            reason = codes "ValidationFailed";
            message = codes "Sync specification validation failed: " ++ e;
          }
          ∷ [];
    })
    pure finished

  -- The update for a specification that passed, at the time `start`; `operation` is read later.
  unfoldable pub accepted_update : ℕ → ℕ → JiraSyncSpec F → StatusUpdate F
  accepted_update start operation s = record no_update {
    phase = codes "Pending";
    progress = some (record {
      percentage = some 25;
      current_operation = codes "Sync specification validated";
      total_operations = none;
      completed_operations = none;
      estimated_completion = none;
      processing_rate = none;
      stage = codes "Initialization";
    });
    sync_stats = some (record {
      total_issues = none;
      processed_issues = none;
      failed_issues = none;
      duration = [];
      start_time = some start;
      last_sync_time = none;
    });
    sync_state = some (record {
      operation_id = codes "sync-" ++ k.print_unix operation;
      config_hash = generate_config_hash k s;
      active_issues = none;
      last_successful_config = [];
      metadata =
          some ((codes "syncType", s.sync_type) ∷ (codes "initiated", k.print_time start) ∷ []);
      add_metadata = none;
    });
    conditions =
        record {
          type = codes "Validated";
          status = codes "True";
          last_transition_time = 0;
          reason = codes "Validating";
          message = codes "Sync specification validated successfully";
        }
        ∷ record {
          type = codes "Ready";
          status = codes "False";
          last_transition_time = 0;
          reason = codes "Initializing";
          message = codes "Sync initialized, waiting for scheduling";
        }
        ∷ [];
    clear_error = true;
  }

  unfoldable pub accept_spec : Act F W Reconciled
  accept_spec = do
    start ← call k.now
    operation ← call k.now
    o ← get
    e ← Update.update_status k (accepted_update start operation o.spec)
    pure (ended_by e)

  unfoldable pub after_validation : Option Text → Act F W Reconciled
  after_validation (some e) = refuse_spec e
  after_validation none = accept_spec

  unfoldable pub after_first_update : Option Text → Act F W Reconciled
  after_first_update (some e) =
      pure (record { requeue = false; requeue_after = seconds 10; error = some e })
  after_first_update none = do
    _ ← report_progress k 10 (codes "Validating sync specification") (codes "Initialization")
    o ← get
    after_validation (validate_sync_spec o.spec)

  unfoldable pub after_dependency : Outcome Bool → Act F W Reconciled
  after_dependency (fail e) =
      pure (record { requeue = false; requeue_after = seconds 30; error = some e })
  after_dependency (ok false) = wait_for_server
  after_dependency (ok true) = do
    e ← Update.update_status k (record no_update { phase = codes "Pending" })
    after_first_update e

  unfoldable pub initialize_sync : Act F W Reconciled
  initialize_sync = do ready ← check_api_server_dependency; after_dependency ready
