-- ===== src/Operator/Held/Handling.antt =====
-- internal/operator/controllers/jirasync_controller.go: no handler replaces the job of a resource that
-- has one.
use jira_cdc_git.Prelude.{ℕ, ◌≡◌, refl, true, Option, none, some}
use jira_cdc_git.Prelude.Text.{Text}
use jira_cdc_git.Sync.Services.{Outcome, ok, fail}
use jira_cdc_git.Operator.Types.{RetryPolicy, JobReference}
use jira_cdc_git.Operator.Api.{JobStatusResponse}
use jira_cdc_git.Operator.Cluster.{Cluster, Api, Job, Found, found, missing, broken, at_host}
use jira_cdc_git.Operator.Phase.{record_error, clear_error, increment_retry_count}
use jira_cdc_git.Operator.Handlers.{
  has_job, record_duration, complete, fail_with, job_status, handle_kubernetes_job_status,
  handle_completed, after_count_saved, retry, retry_by, handle_failed, release, after_delete,
  delete_found, delete_job_of, handle_deletion, start_or_follow, handle_pending, keep_running,
  after_job_status, handle_api_job_status, monitor, handle_running,
}
use jira_cdc_git.Operator.Held.{
  HoldsRef, Keeps, Keeps-if, Keeps-then, Keeps-modify, Keeps-call, Keeps-pure, Keeps-get,
  Keeps-bind-get, save-Keeps, save_status-Keeps, now-Keeps, keeps_rules,
}
use jira_cdc_git.Operator.Held.Updating.{set_phase-Keeps, set_phase_with_delay-Keeps}

module _ {F W : Type 0} {ref : Option JobReference} {Kept : W → Type 0} {k : Cluster F W}
    {api : Api W} (holds : HoldsRef k api ref Kept) where
  record_duration-Keeps : (start : Option ℕ) → Keeps ref Kept (record_duration k start)
  unfolding record_duration
  record_duration-Keeps none = Keeps-pure tt
  record_duration-Keeps (some start) =
      Keeps-then (now-Keeps holds)
        λ since. Keeps-then (now-Keeps holds) λ last. Keeps-modify _ λ o. refl

  complete-Keeps : (message : Text) → Keeps ref Kept (complete k message)
  unfolding complete clear_error
  complete-Keeps message = Keeps-then Keeps-get λ o.
      Keeps-then (record_duration-Keeps _)
        λ _. Keeps-then (Keeps-modify _ λ o. refl) λ _. set_phase-Keeps holds _ message

  fail_with-Keeps : (error message : Text) → Keeps ref Kept (fail_with k error message)
  unfolding fail_with record_error
  fail_with-Keeps error message =
      Keeps-then (Keeps-modify _ λ o. refl) λ _. set_phase-Keeps holds _ message

  job_status-Keeps : (j : Found Job) → Keeps ref Kept (job_status k j)
  unfolding job_status record_error
  job_status-Keeps missing = set_phase-Keeps holds _ _
  job_status-Keeps (broken e) = Keeps-then (Keeps-modify _ λ o. refl) λ _. Keeps-pure _
  job_status-Keeps (found j) = search (keeps_rules, complete-Keeps, fail_with-Keeps)

  handle_kubernetes_job_status-Keeps :
      (j : JobReference) → Keeps ref Kept (handle_kubernetes_job_status k j)
  unfolding handle_kubernetes_job_status
  handle_kubernetes_job_status-Keeps j =
      Keeps-then (Keeps-call _ (holds.get_job _ _)) λ job. job_status-Keeps job

  after_count_saved-Keeps :
      (p : RetryPolicy F) (n : ℕ) (e : Option Text) → Keeps ref Kept (after_count_saved k p n e)
  unfolding after_count_saved
  after_count_saved-Keeps p n (some e) = Keeps-pure _
  after_count_saved-Keeps p n none = set_phase_with_delay-Keeps holds _ _ _

  retry-Keeps : (p : RetryPolicy F) (n : ℕ) → Keeps ref Kept (retry k p n)
  unfolding retry increment_retry_count
  retry-Keeps p n =
      Keeps-then (Keeps-modify _ λ o. refl)
        λ _. Keeps-then (save-Keeps holds) λ e. after_count_saved-Keeps p n e

  retry_by-Keeps : (p : Option (RetryPolicy F)) (n : ℕ) → Keeps ref Kept (retry_by k p n)
  unfolding retry_by
  retry_by-Keeps none n = Keeps-pure _
  retry_by-Keeps (some p) n = Keeps-if _ _ _ (retry-Keeps p n) (Keeps-pure _)

  pub handle_failed-Keeps : Keeps ref Kept (handle_failed k)
  unfolding handle_failed
  handle_failed-Keeps = Keeps-then Keeps-get λ o. retry_by-Keeps _ _

  pub handle_completed-Keeps : Keeps ref Kept (handle_completed k)
  unfolding handle_completed
  handle_completed-Keeps = Keeps-pure _

  release-Keeps : Keeps ref Kept (release k)
  unfolding release
  release-Keeps =
      Keeps-then (Keeps-modify _ λ o. refl) λ _. Keeps-then (save-Keeps holds) λ e. Keeps-pure _

  after_delete-Keeps : (r : Found (Unit {0})) → Keeps ref Kept (after_delete k r)
  unfolding after_delete
  after_delete-Keeps (broken e) = Keeps-pure _
  after_delete-Keeps (found u) = release-Keeps
  after_delete-Keeps missing = release-Keeps

  delete_found-Keeps : (j : JobReference) (b : Found Job) → Keeps ref Kept (delete_found k j b)
  unfolding delete_found
  delete_found-Keeps j (found b) =
      Keeps-then (Keeps-call _ (holds.delete_job _ _)) λ r. after_delete-Keeps r
  delete_found-Keeps j missing = release-Keeps
  delete_found-Keeps j (broken e) = release-Keeps

  delete_job_of-Keeps : (j : Option JobReference) → Keeps ref Kept (delete_job_of k j)
  unfolding delete_job_of
  delete_job_of-Keeps none = release-Keeps
  delete_job_of-Keeps (some j) =
      Keeps-then (Keeps-call _ (holds.get_job _ _)) λ b. delete_found-Keeps j b

  pub handle_deletion-Keeps : Keeps ref Kept (handle_deletion k)
  unfolding handle_deletion
  handle_deletion-Keeps = Keeps-then Keeps-get λ o. delete_job_of-Keeps _

  keep_running-Keeps : Keeps ref Kept (keep_running k)
  unfolding keep_running
  keep_running-Keeps = Keeps-then (save_status-Keeps holds) λ e. Keeps-pure _

  after_job_status-Keeps : (r : Outcome JobStatusResponse) → Keeps ref Kept (after_job_status k r)
  unfolding after_job_status record_error
  after_job_status-Keeps (fail e) = Keeps-then (Keeps-modify _ λ o. refl) λ _. Keeps-pure _
  after_job_status-Keeps (ok j) =
      search (keeps_rules, complete-Keeps, fail_with-Keeps, keep_running-Keeps)

  handle_api_job_status-Keeps : (j : JobReference) → Keeps ref Kept (handle_api_job_status k api j)
  unfolding handle_api_job_status at_host
  handle_api_job_status-Keeps j =
      Keeps-then (record { at = λ e h g. (holds.get_job_status e.api_host j.name e.world h, g) })
        λ r. after_job_status-Keeps r

  monitor-Keeps : (j : Option JobReference) → Keeps ref Kept (monitor k api j)
  unfolding monitor
  monitor-Keeps none = set_phase-Keeps holds _ _
  monitor-Keeps (some j) = search (
    keeps_rules,
    set_phase-Keeps holds,
    handle_api_job_status-Keeps,
    handle_kubernetes_job_status-Keeps,
  )

  pub handle_running-Keeps : Keeps ref Kept (handle_running k api)
  unfolding handle_running
  handle_running-Keeps = Keeps-then Keeps-get λ o. monitor-Keeps _

  -- A pending resource with a job runs on.
  pub handle_pending-Keeps : has_job ref ≡ true → Keeps ref Kept (handle_pending k api)
  unfolding handle_pending start_or_follow
  handle_pending-Keeps named = Keeps-bind-get _ λ o h. rw (h, named) (set_phase-Keeps holds _ _)
