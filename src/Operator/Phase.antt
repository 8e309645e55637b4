-- ===== src/Operator/Phase.antt =====
-- internal/operator/controllers/jirasync_controller.go: how the reconciler changes a resource's phase,
-- its Ready condition and its annotations.
pub mod Consistent
use jira_cdc_git.Prelude.{ℕ, Bool, false, Option, none, some, List, [], ◌∷◌, if◌then◌else◌, add64}
use jira_cdc_git.Prelude.Text.{Text, codes, text_eq}
use jira_cdc_git.Prelude.Assoc.{lookup, insert, remove}
use jira_cdc_git.Operator.Types.{Condition, JiraSync}
use jira_cdc_git.Operator.Status.{given}
use jira_cdc_git.Operator.Cluster.{Cluster, Act, call, modify, ◌>>=◌, ◌>>◌, pure, save_status}

-- A `ctrl.Result` and an error.
pub record Reconciled : Type 0 where
  pub requeue : Bool
  pub requeue_after : ℕ
  pub error : Option Text

abbrev pub finished : Reconciled
finished = record { requeue = false; requeue_after = 0; error = none }

abbrev pub failed_with : Text → Reconciled
failed_with e = record finished { error = some e }

abbrev pub requeued_after : ℕ → Reconciled
requeued_after d = record finished { requeue_after = d }

abbrev pub ended_by : Option Text → Reconciled
ended_by none = finished
ended_by (some e) = failed_with e

unfoldable pub set_condition : Condition → List Condition → List Condition
set_condition n [] = n ∷ []
set_condition n (c ∷ cs) =
    let rest = set_condition n cs in if text_eq c.type n.type then n ∷ cs else c ∷ rest

-- The Ready condition of a phase.
unfoldable pub phase_condition : Text → Text → ℕ → Condition
phase_condition phase message now = record {
  type = codes "Ready";
  status = if text_eq phase (codes "Failed") then codes "False" else codes "True";
  last_transition_time = now;
  reason =
      if text_eq phase (codes "Failed")
      then codes "SyncFailed"
      else if text_eq phase (codes "Completed")
      then codes "SyncCompleted"
      else codes "SyncProgressing";
  message = message;
}

module _ {F : Type 0} where
  -- The resource in a phase.
  unfoldable pub in_phase : Text → Text → ℕ → JiraSync F → JiraSync F
  in_phase phase message now o =
      let s = o.status in
      let cs = set_condition (phase_condition phase message now) s.conditions in
      record o { status = record s { phase = phase; conditions = cs } }

  unfoldable pub record_error : Text → JiraSync F → JiraSync F
  record_error e o = record o {
    annotations = insert (codes "sync.jira.io/last-error") e o.annotations;
  }

  unfoldable pub clear_error : JiraSync F → JiraSync F
  clear_error o = record o {
    annotations =
        remove (codes "sync.jira.io/retry-count")
          (remove (codes "sync.jira.io/last-error") o.annotations);
  }

module _ {F W : Type 0} (k : Cluster F W) where
  -- The number that an annotation holds, 0 if it is none.
  abbrev pub count_of : Option Text → ℕ
  count_of none = 0
  count_of (some t) = given (k.atoi t) 0

  unfoldable pub get_retry_count : JiraSync F → ℕ
  get_retry_count o = count_of (lookup (codes "sync.jira.io/retry-count") o.annotations)

  unfoldable pub increment_retry_count : JiraSync F → JiraSync F
  increment_retry_count o = record o {
    annotations =
        insert (codes "sync.jira.io/retry-count") (k.print (add64 (get_retry_count o) 1))
          o.annotations;
  }

  unfoldable pub update_status : Text → Text → Act F W Reconciled
  update_status phase message = do
    t ← call k.now
    modify (in_phase phase message t)
    e ← save_status k
    pure (ended_by e)

  -- A delay, if there was no error.
  abbrev pub with_delay : ℕ → Option Text → Reconciled → Reconciled
  with_delay d none r = requeued_after d
  with_delay d (some e) r = r

  unfoldable pub update_status_with_delay : Text → Text → ℕ → Act F W Reconciled
  update_status_with_delay phase message delay = do
    r ← update_status phase message
    pure (with_delay delay r.error r)
