-- ===== src/Operator/Breaker/Gate.antt =====
-- internal/operator/apiclient/client.go: the circuit breaker as a count of failures in a row.
use jira_cdc_git.Prelude.{ℕ, ◌+◌, Bool, true, ltb, if◌then◌else◌, slt, sub_time}
use jira_cdc_git.Operator.Breaker.{CircuitState, closed, open_circuit, CircuitBreaker}

-- The failures since the last success, and the time of the last one.
pub record Gate : Type 0 where
  pub failures : ℕ
  pub last : ℕ

module _ (limit timeout : ℕ) where
  -- A request is let through unless the last `limit` requests or more have failed, the last of them
  -- within the timeout.
  abbrev pub allows : ℕ → Gate → Bool
  allows now g = if ltb g.failures limit then true else slt timeout (sub_time now g.last)

  abbrev pub failed_at : ℕ → Gate → Gate
  failed_at now g = record { failures = g.failures + 1; last = now }

  abbrev pub succeeded : Gate → Gate
  succeeded g = record g { failures = 0 }

  -- A health check lets a gate that is shut open again.
  abbrev pub healthy : Gate → Gate
  healthy g = if ltb g.failures limit then g else succeeded g

  abbrev pub state_of : Gate → CircuitState
  state_of g = if ltb g.failures limit then closed else open_circuit

  -- The breaker between requests.
  abbrev pub breaker_of : Gate → CircuitBreaker
  breaker_of g = record {
    max_failures = limit;
    reset_timeout = timeout;
    failure_count = g.failures;
    last_fail_time = g.last;
    state = state_of g;
  }
