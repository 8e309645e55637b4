-- ===== src/Operator/Breaker.antt =====
-- internal/operator/apiclient/client.go: the circuit breaker.
pub mod Gate
use jira_cdc_git.Prelude.{ℕ, ◌+◌, ◌*◌, ◌^◌, Bool, true, false, leb, if◌then◌else◌, slt, sub_time}

pub data CircuitState : Type 0 where
  closed open_circuit half_open : CircuitState

-- Each failure takes a request, so the count does not leave the range of an int.
pub record CircuitBreaker : Type 0 where
  pub max_failures : ℕ
  pub reset_timeout : ℕ
  pub failure_count : ℕ
  pub last_fail_time : ℕ
  pub state : CircuitState

abbrev pub new_circuit_breaker : CircuitBreaker
new_circuit_breaker = record {
  max_failures = 3;
  reset_timeout = 60 * 10 ^ 9;
  failure_count = 0;
  last_fail_time = 0;
  state = closed;
}

-- Whether a request is let through at `now`, in a given state.
unfoldable pub check_state : CircuitState → ℕ → CircuitBreaker → Bool × CircuitBreaker
check_state open_circuit now b =
    if slt b.reset_timeout (sub_time now b.last_fail_time)
    then (true, record b { state = half_open })
    else (false, b)
check_state half_open now b = (true, b)
check_state closed now b = (true, b)

unfoldable pub check_circuit_breaker : ℕ → CircuitBreaker → Bool × CircuitBreaker
unfolding check_state
check_circuit_breaker now b = check_state b.state now b

unfoldable pub record_failure : ℕ → CircuitBreaker → CircuitBreaker
record_failure now b =
    let count = b.failure_count + 1 in
    record b {
      failure_count = count;
      last_fail_time = now;
      state = if leb b.max_failures count then open_circuit else b.state;
    }

abbrev pub close_half : CircuitState → CircuitState
close_half half_open = closed
close_half s = s

unfoldable pub record_success : CircuitBreaker → CircuitBreaker
record_success b = record b { failure_count = 0; state = close_half b.state }

-- What a health check that succeeds does to the breaker.
unfoldable pub reset_open : CircuitState → CircuitBreaker → CircuitBreaker
reset_open open_circuit b = record b { failure_count = 0; state = closed }
reset_open s b = b
