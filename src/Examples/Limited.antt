-- ===== src/Examples/Limited.antt =====
-- The rate limiter on a clock that is moved by sleeping only.
use jira_cdc_git.Prelude.{ℕ, ◌+◌, ◌≤◌, ◌≡◌, refl, true, false, none, some, arith, add64}
use jira_cdc_git.RateLimit.{
  new_rate_limiter, Config, ApiRateLimiter, Clock, Response, wait, next, note_request, wait_quota,
  check_quota, wait_delay, sleep_delay, wait_backoff, sleep_backoff, handle_response,
}
use jira_cdc_git.RateLimit.Waiting.{IsSleep, wait_respects}
use jira_cdc_git.RateLimit.Backoff.{handle_response-backs_off}

abbrev config : Config
config = record {
  rate_limit_delay = 100;
  max_concurrent_requests = 2;
  exponential_backoff_base = 10;
  max_backoff_delay = 300;
}

abbrev limiter : ApiRateLimiter
limiter = record {
  config = config;
  last_request = 950;
  consecutive_errors = 1;
  backoff_until = 1020;
  capacity = 2;
  taken = 1;
  rate_limit_remaining = 1000;
  rate_limit_reset = 5000;
}

abbrev clock : Clock ℕ
clock = record { now = λ w. (w, w); sleep = λ d x. (false, (x.0, x.1 + d)) }

sleeps : (d : ℕ) (l : ApiRateLimiter) (w : ℕ) → IsSleep (λ w. w) d l w (clock.sleep d (l, w))
sleeps d l w = record { same = refl; passed = λ e. omega arith }

going : (wait clock (limiter, 1000)).0 ≡ false
unfolding wait next note_request wait_quota check_quota wait_delay sleep_delay wait_backoff
    sleep_backoff
going = refl

wait_respects_example :
    let (l', w') = (wait clock (limiter, 1000)).1 in
    (1020 ≤ w') × (950 + 100 ≤ w') × (l'.last_request ≡ w')
wait_respects_example =
    wait_respects (λ w. w) clock (λ w. refl) sleeps limiter 1000 (omega arith) (omega arith)
      (omega arith) going

-- A new limiter, and what it is once a slot is taken.
abbrev fresh : ApiRateLimiter
fresh = new_rate_limiter 0 config

abbrev one_taken : ApiRateLimiter
one_taken = record fresh { taken = 1 }

abbrev refused : Response
refused = record { status_code = 429; retry_after = none; remaining = none; reset = none }

abbrev doubled : ℕ → ℕ → ℕ
doubled base n = base + base

handle_response-backs_off_example :
    let (failed, l') = handle_response doubled 1000 1001 (some refused) limiter in
    (failed ≡ true)
    × (l'.consecutive_errors ≡ add64 1 1)
    × (l'.backoff_until ≤ 1000 + 300)
    × (l'.rate_limit_remaining ≡ 1000)
    × (l'.taken ≡ 1)
handle_response-backs_off_example =
    handle_response-backs_off doubled 1000 1001 refused limiter refl refl (omega arith)
