-- ===== src/Operator/Held/Initializing.antt =====
-- internal/operator/controllers: the start of a resource leaves its job reference as it is.
use jira_cdc_git.Prelude.{refl, Bool, true, false, Option, none, some, List}
use jira_cdc_git.Prelude.Text.{Text}
use jira_cdc_git.Sync.Services.{Outcome, ok, fail}
use jira_cdc_git.Operator.Types.{JobReference}
use jira_cdc_git.Operator.Cluster.{Cluster, Api, ApiServer}
use jira_cdc_git.Operator.Initialize.{
  ready_server, set_host, use_server, server_of, check_api_server_dependency, wait_for_server,
  refuse_spec, accepted_update, accept_spec, after_validation, after_first_update, after_dependency,
  initialize_sync,
}
use jira_cdc_git.Operator.Held.{
  HoldsRef, Keeps, Keeps-then, Keeps-modify, Keeps-call, Keeps-pure, Keeps-get, save_status-Keeps,
  now-Keeps, keeps_rules,
}
use jira_cdc_git.Operator.Held.Updating.{update_status-Keeps, report_progress-Keeps}

module _ {F W : Type 0} {ref : Option JobReference} {Kept : W → Type 0} {k : Cluster F W}
    {api : Api W} (holds : HoldsRef k api ref Kept) where
  set_host-Keeps : (host : Text) → Keeps ref Kept (set_host k host)
  set_host-Keeps host = record { at = λ e h g. (h, g) }

  use_server-Keeps : (s : Option ApiServer) → Keeps ref Kept (use_server k s)
  unfolding use_server
  use_server-Keeps none = Keeps-pure _
  use_server-Keeps (some s) = Keeps-then (set_host-Keeps s.endpoint) λ _. Keeps-pure _

  server_of-Keeps : (s : Outcome (List ApiServer)) → Keeps ref Kept (server_of k s)
  server_of-Keeps (fail e) = Keeps-pure _
  server_of-Keeps (ok servers) = use_server-Keeps (ready_server servers)

  check_api_server_dependency-Keeps : Keeps ref Kept (check_api_server_dependency k)
  unfolding check_api_server_dependency
  check_api_server_dependency-Keeps =
      Keeps-then (Keeps-call _ holds.list_api_servers) λ s. server_of-Keeps s

  wait_for_server-Keeps : Keeps ref Kept (wait_for_server k)
  unfolding wait_for_server
  wait_for_server-Keeps = Keeps-then (now-Keeps holds) λ start.
      Keeps-then (update_status-Keeps holds _ refl) λ _. Keeps-then (now-Keeps holds) λ t.
        Keeps-then (Keeps-modify _ λ o. refl)
          λ _. Keeps-then (save_status-Keeps holds) λ _. Keeps-pure _

  after_validation-Keeps : (e : Option Text) → Keeps ref Kept (after_validation k e)
  unfolding after_validation refuse_spec accept_spec accepted_update
  after_validation-Keeps (some e) = Keeps-then (update_status-Keeps holds _ refl) λ _. Keeps-pure _
  after_validation-Keeps none = Keeps-then (now-Keeps holds) λ start.
      Keeps-then (now-Keeps holds) λ operation.
        Keeps-then Keeps-get λ o. Keeps-then (update_status-Keeps holds _ refl) λ e. Keeps-pure _

  after_first_update-Keeps : (e : Option Text) → Keeps ref Kept (after_first_update k e)
  unfolding after_first_update
  after_first_update-Keeps (some e) = Keeps-pure _
  after_first_update-Keeps none =
      search (keeps_rules, report_progress-Keeps holds, after_validation-Keeps)

  after_dependency-Keeps : (r : Outcome Bool) → Keeps ref Kept (after_dependency k r)
  unfolding after_dependency
  after_dependency-Keeps (fail e) = Keeps-pure _
  after_dependency-Keeps (ok false) = wait_for_server-Keeps
  after_dependency-Keeps (ok true) =
      Keeps-then (update_status-Keeps holds _ refl) λ e. after_first_update-Keeps e

  pub initialize_sync-Keeps : Keeps ref Kept (initialize_sync k)
  unfolding initialize_sync
  initialize_sync-Keeps =
      Keeps-then check_api_server_dependency-Keeps λ ready. after_dependency-Keeps ready
