-- ===== src/Operator/Handlers.antt =====
-- internal/operator/controllers/jirasync_controller.go: what the reconciler does with a resource in
-- each phase, and when it is deleted.
use jira_cdc_git.Prelude.{
  ℕ, zero, suc, ◌*◌, ◌%◌, ◌^◌, ◌&&◌, Bool, false, not, ◌||◌, Option, none, some, List, [], ◌++◌,
  if◌then◌else◌, select, slt, slt32, sub_time, add64, word_mod,
}
use jira_cdc_git.Prelude.Text.{Text, codes, text_eq}
use jira_cdc_git.Sync.Services.{Outcome, ok, fail}
use jira_cdc_git.Operator.Types.{RetryPolicy, SyncStats, JobReference, JiraSync}
use jira_cdc_git.Operator.Api.{
  ApiRequest, SyncJobResponse, JobStatusResponse, convert_jira_sync_to_api_request,
}
use jira_cdc_git.Operator.Cluster.{
  Cluster, Api, at_host, Job, Found, found, missing, broken, Act, call, get, modify, ◌>>=◌, ◌>>◌,
  pure, save, save_status,
}
use jira_cdc_git.Operator.Status.Update.{with_status}
use jira_cdc_git.Operator.Phase.{
  Reconciled, finished, failed_with, requeued_after, ended_by, record_error, clear_error,
  get_retry_count, increment_retry_count, update_status, update_status_with_delay,
}
use jira_cdc_git.Operator.Initialize.{seconds, finalizer}

-- A reference whose name is not empty.
abbrev pub has_job : Option JobReference → Bool
has_job none = false
has_job (some j) = not (text_eq j.name [])

unfoldable pub remove_finalizer : List Text → List Text
remove_finalizer fs = select (λ f. not (text_eq f finalizer)) fs

-- When a sync ended, and how long it took, if its start is known.
abbrev pub started : Option SyncStats → Option ℕ
started none = none
started (some s) = s.start_time

abbrev pub failed_message : Text → Text
failed_message m =
    if text_eq m []
    then codes "API sync operation failed"
    else codes "API sync operation failed: " ++ m

module _ {F W : Type 0} (k : Cluster F W) where
  abbrev pub stop_at : ℕ → ℕ → ℕ → Option SyncStats → Option SyncStats
  stop_at start since last none = none
  stop_at start since last (some s) =
      some (record s {
        duration = k.print_duration (sub_time since start);
        last_sync_time = some last;
      })

  unfoldable pub record_duration : Option ℕ → Act F W (Unit {0})
  record_duration none = pure tt
  record_duration (some start) = do
    since ← call k.now
    last ← call k.now
    modify (with_status (λ s. record s { sync_stats = stop_at start since last s.sync_stats }))

  -- A sync that completed.
  unfoldable pub complete : Text → Act F W Reconciled
  complete message = do
    o ← get
    record_duration (started o.status.sync_stats)
    modify clear_error
    update_status k (codes "Completed") message

  unfoldable pub fail_with : Text → Text → Act F W Reconciled
  fail_with error message = do modify (record_error error); update_status k (codes "Failed") message

  -- The status of a Kubernetes Job.
  unfoldable pub job_status : Found Job → Act F W Reconciled
  job_status missing = update_status k (codes "Failed") (codes "Associated job not found")
  job_status (broken e) = do modify (record_error e); pure (failed_with e)
  job_status (found j) =
      if slt32 0 j.succeeded
      then complete (codes "Sync completed successfully")
      else if slt32 0 j.failed
      then fail_with (codes "sync job failed after " ++ (k.print j.failed ++ codes " attempts"))
          (codes "Sync job failed")
      else pure (requeued_after (seconds 120))

  unfoldable pub handle_kubernetes_job_status : JobReference → Act F W Reconciled
  handle_kubernetes_job_status j = do job ← call (k.get_job j.name j.namespace); job_status job

  unfoldable pub handle_completed : Act F W Reconciled
  handle_completed = pure finished

  -- The delay of a retry; `n` is how often it is multiplied.
  abbrev pub backoff : RetryPolicy F → ℕ → ℕ
  backoff p zero = (p.initial_delay * 10 ^ 9) % word_mod
  backoff p (suc n) = k.scale (backoff p n) p.backoff_multiplier

  abbrev pub rounds : ℕ → ℕ
  rounds n = if slt n 0 then 0 else n

  unfoldable pub after_count_saved : RetryPolicy F → ℕ → Option Text → Act F W Reconciled
  after_count_saved p n (some e) = pure (failed_with e)
  after_count_saved p n none =
      update_status_with_delay k (codes "Pending")
        (codes "Retrying sync (attempt "
          ++ (k.print (add64 n 1) ++ (codes "/" ++ (k.print p.max_retries ++ codes ")"))))
        (backoff p (rounds n))

  unfoldable pub retry : RetryPolicy F → ℕ → Act F W Reconciled
  retry p n = do modify (increment_retry_count k); e ← save k; after_count_saved p n e

  unfoldable pub retry_by : Option (RetryPolicy F) → ℕ → Act F W Reconciled
  retry_by none n = pure finished
  retry_by (some p) n =
      if slt 0 p.max_retries && slt n p.max_retries then retry p n else pure finished

  unfoldable pub handle_failed : Act F W Reconciled
  handle_failed = do o ← get; retry_by o.spec.retry_policy (get_retry_count k o)

  unfoldable pub release : Act F W Reconciled
  release = do
    modify (λ o. record o { finalizers = remove_finalizer o.finalizers })
    e ← save k
    pure (ended_by e)

  unfoldable pub after_delete : Found (Unit {0}) → Act F W Reconciled
  after_delete (broken e) = pure (failed_with e)
  after_delete (found u) = release
  after_delete missing = release

  -- A Job that is found is deleted.
  unfoldable pub delete_found : JobReference → Found Job → Act F W Reconciled
  delete_found j (found b) = do done ← call (k.delete_job j.name j.namespace); after_delete done
  delete_found j missing = release
  delete_found j (broken e) = release

  unfoldable pub delete_job_of : Option JobReference → Act F W Reconciled
  delete_job_of none = release
  delete_job_of (some j) = do job ← call (k.get_job j.name j.namespace); delete_found j job

  unfoldable pub handle_deletion : Act F W Reconciled
  handle_deletion = do o ← get; delete_job_of o.status.job_ref

  -- The resource is saved, whatever comes of it.
  unfoldable pub keep_running : Act F W Reconciled
  keep_running = do _ ← save_status k; pure (requeued_after (seconds 15))

  unfoldable pub after_job_status : Outcome JobStatusResponse → Act F W Reconciled
  after_job_status (fail e) = do modify (record_error e); pure (requeued_after (seconds 30))
  after_job_status (ok j) =
      if text_eq j.status (codes "completed")
      then complete (codes "API sync completed successfully")
      else if text_eq j.status (codes "failed")
      then fail_with (failed_message j.message) (failed_message j.message)
      else if text_eq j.status (codes "running") || text_eq j.status (codes "pending")
      then keep_running
      else pure (requeued_after (seconds 30))

module _ {F W : Type 0} (k : Cluster F W) (api : Api W) where
  unfoldable pub after_trigger : Outcome SyncJobResponse → Act F W Reconciled
  after_trigger (fail e) = fail_with k e (codes "Failed to trigger sync: " ++ e)
  after_trigger (ok r) = do
    modify (
        with_status
          (λ s. record s { job_ref = some (record { name = r.job_id; namespace = codes "api" }) }))
    update_status k (codes "Running") (codes "API sync operation triggered: " ++ r.job_id)

  unfoldable pub after_conversion : Outcome ApiRequest → Act F W Reconciled
  after_conversion (fail e) = fail_with k e (codes "Failed to convert sync spec: " ++ e)
  after_conversion (ok request) = do
    response ← at_host (λ host. api.trigger host request)
    after_trigger response

  unfoldable pub start_or_follow : JiraSync F → Act F W Reconciled
  start_or_follow o =
      if has_job o.status.job_ref
      then update_status k (codes "Running") (codes "API sync operation already triggered")
      else after_conversion (convert_jira_sync_to_api_request o.spec)

  unfoldable pub handle_pending : Act F W Reconciled
  handle_pending = do o ← get; start_or_follow o

  unfoldable pub handle_api_job_status : JobReference → Act F W Reconciled
  handle_api_job_status j = do
    status ← at_host (λ host. api.get_job_status host j.name)
    after_job_status k status

  unfoldable pub monitor : Option JobReference → Act F W Reconciled
  monitor none = update_status k (codes "Pending") (codes "No job reference found")
  monitor (some j) =
      if text_eq j.name []
      then update_status k (codes "Pending") (codes "No job reference found")
      else if text_eq j.namespace (codes "api")
      then handle_api_job_status j
      else handle_kubernetes_job_status k j

  unfoldable pub handle_running : Act F W Reconciled
  handle_running = do o ← get; monitor o.status.job_ref
