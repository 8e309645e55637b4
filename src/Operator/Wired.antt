-- ===== src/Operator/Wired.antt =====
-- internal/operator/apiclient/client.go: the client that a reconciler is given. The clients for its
-- hosts share one circuit breaker, which is part of the world.
use jira_cdc_git.Prelude.Text.{Text}
use jira_cdc_git.Operator.Breaker.{CircuitBreaker, new_circuit_breaker}
use jira_cdc_git.Operator.Client.{Network, Client, with_host, trigger, get_job_status}
use jira_cdc_git.Operator.Cluster.{Api}

unfoldable pub new_api_client : Text → Text → Text → Client × CircuitBreaker
new_api_client base_url auth_type auth_token = (
  record { base_url = base_url; auth_token = auth_token; auth_type = auth_type },
  new_circuit_breaker,
)

unfoldable pub api_of : {W : Type 0} → Network W → Client → Api (CircuitBreaker × W)
api_of net c = record {
  trigger = λ host request s. trigger net (with_host host c) request s.0 s.1;
  get_job_status = λ host id s. get_job_status net (with_host host c) id s.0 s.1;
}
