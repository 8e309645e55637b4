-- ===== src/Operator/Reconcile.antt =====
-- internal/operator/controllers/jirasync_controller.go: Reconcile.
pub mod Once
use jira_cdc_git.Prelude.{
  Bool, true, ◌==◌, Option, none, some, List, [], ◌∷◌, ◌++◌, if◌then◌else◌, any,
}
use jira_cdc_git.Prelude.Text.{Text, codes, text_eq}
use jira_cdc_git.Operator.Types.{JiraSync}
use jira_cdc_git.Operator.Cluster.{
  Cluster, Api, Found, found, missing, broken, Act, call, get, modify, ◌>>=◌, ◌>>◌, pure, save,
  save_status,
}
use jira_cdc_git.Operator.Status.Update.{with_status}
use jira_cdc_git.Operator.Phase.{Reconciled, finished, failed_with}
use jira_cdc_git.Operator.Initialize.{finalizer, initialize_sync}
use jira_cdc_git.Operator.Handlers.{
  handle_completed, handle_failed, handle_deletion, handle_pending, handle_running,
}

unfoldable pub contains_finalizer : List Text → Bool
contains_finalizer fs = any (λ f. text_eq f finalizer) fs

module _ {F W : Type 0} (k : Cluster F W) (api : Api W) where
  -- The handler of a phase.
  unfoldable pub handle_phase : Text → Act F W Reconciled
  handle_phase phase =
      if text_eq phase (codes "Pending")
      then handle_pending k api
      else if text_eq phase (codes "Running")
      then handle_running k api
      else if text_eq phase (codes "Completed")
      then handle_completed k
      else if text_eq phase (codes "Failed")
      then handle_failed k
      else initialize_sync k

  abbrev pub requeued_or : Option Text → Reconciled
  requeued_or none = record finished { requeue = true }
  requeued_or (some e) = failed_with e

  unfoldable pub add_finalizer : Act F W Reconciled
  add_finalizer = do
    modify (λ o. record o { finalizers = o.finalizers ++ finalizer ∷ [] })
    e ← save k
    pure (requeued_or e)

  unfoldable pub after_observed : Option Text → Act F W Reconciled
  after_observed (some e) = pure (failed_with e)
  after_observed none = do o ← get; handle_phase o.status.phase

  -- The generation that the status has is the resource's.
  unfoldable pub observe_generation : Act F W Reconciled
  observe_generation = do
    modify (λ o. with_status (λ s. record s { observed_generation = o.generation }) o)
    e ← save_status k
    after_observed e

  unfoldable pub handle : JiraSync F → Act F W Reconciled
  handle o =
      if o.deleted
      then handle_deletion k
      else if contains_finalizer o.finalizers
      then (if o.status.observed_generation == o.generation
          then after_observed none
          else observe_generation)
      else add_finalizer

  unfoldable pub handle_found : Found (JiraSync F) → Act F W Reconciled
  handle_found missing = pure finished
  handle_found (broken e) = pure (failed_with e)
  handle_found (found o) = do modify (λ _. o); handle o

  unfoldable pub reconcile : Act F W Reconciled
  reconcile = do o ← call k.get_sync; handle_found o
