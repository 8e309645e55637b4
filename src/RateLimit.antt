-- ===== src/RateLimit.antt =====
-- pkg/ratelimit/ratelimit.go: the rate limiter. `Wait` holds a mutex except while it sleeps, so a sleep
-- may return another limiter than it was given.
pub mod Waiting
pub mod Backoff
use jira_cdc_git.Prelude.{
  ℕ, ◌+◌, ◌-◌, ◌*◌, ◌%◌, ◌^◌, Bool, true, false, ◌&&◌, Option, none, some, [], ◌∷◌, ltb, leb,
  if◌then◌else◌, ◌==◌, word_mod, sign_bit, add64, slt, sub_time,
}
use jira_cdc_git.Prelude.Text.{Text, codes}

-- The part of config.Config (pkg/config/config.go) that the limiter reads.
pub record Config : Type 0 where
  pub rate_limit_delay : ℕ
  pub max_concurrent_requests : ℕ
  pub exponential_backoff_base : ℕ
  pub max_backoff_delay : ℕ

-- The semaphore is a channel: its capacity, and how many slots are taken.
pub record ApiRateLimiter : Type 0 where
  pub config : Config
  pub last_request : ℕ
  pub consecutive_errors : ℕ
  pub backoff_until : ℕ
  pub capacity : ℕ
  pub taken : ℕ
  pub rate_limit_remaining : ℕ
  pub rate_limit_reset : ℕ

-- `t.Add(d)`, where that is not before the zero time.
abbrev pub add_time : ℕ → ℕ → ℕ
add_time t d = if ltb d sign_bit then t + d else t - (word_mod - d)

unfoldable pub new_rate_limiter : ℕ → Config → ApiRateLimiter
new_rate_limiter now config = record {
  config = config;
  last_request = 0;
  consecutive_errors = 0;
  backoff_until = 0;
  capacity = config.max_concurrent_requests;
  taken = 0;
  rate_limit_remaining = 1000;
  rate_limit_reset = now + 3600 * 10 ^ 9;
}

-- `now` is `time.Now()`; `sleep d` waits for a duration and says whether the context ended first.
pub record Clock (W : Type 0) : Type 0 where
  pub now : W → ℕ × W
  pub sleep : ℕ → ApiRateLimiter × W → Bool × (ApiRateLimiter × W)

module _ {W : Type 0} (c : Clock W) where
  unfoldable pub sleep_backoff : Bool → ApiRateLimiter × W → Bool × (ApiRateLimiter × W)
  sleep_backoff true (l, w) = let (t, w') = c.now w in c.sleep (sub_time l.backoff_until t) (l, w')
  sleep_backoff false x = (false, x)

  unfoldable pub wait_backoff : ApiRateLimiter × W → Bool × (ApiRateLimiter × W)
  wait_backoff (l, w) = let (t, w') = c.now w in sleep_backoff (ltb t l.backoff_until) (l, w')

  unfoldable pub sleep_delay : Bool → ℕ → ApiRateLimiter × W → Bool × (ApiRateLimiter × W)
  sleep_delay true since (l, w) =
      c.sleep ((l.config.rate_limit_delay + (word_mod - since)) % word_mod) (l, w)
  sleep_delay false since x = (false, x)

  unfoldable pub wait_delay : ApiRateLimiter × W → Bool × (ApiRateLimiter × W)
  wait_delay (l, w) =
      let (t, w') = c.now w in
      let since = sub_time t l.last_request in
      sleep_delay (slt since l.config.rate_limit_delay) since (l, w')

  -- After the sleep the quota is taken to be full again.
  unfoldable pub restore_quota : Bool × (ApiRateLimiter × W) → Bool × (ApiRateLimiter × W)
  restore_quota (true, x) = (true, x)
  restore_quota (false, (l, w)) = (false, (record l { rate_limit_remaining = 1000 }, w))

  unfoldable pub sleep_quota : Bool → ApiRateLimiter × W → Bool × (ApiRateLimiter × W)
  sleep_quota true (l, w) =
      let (t, w') = c.now w in restore_quota (c.sleep (sub_time l.rate_limit_reset t) (l, w'))
  sleep_quota false x = (false, x)

  unfoldable pub check_quota : Bool → ApiRateLimiter × W → Bool × (ApiRateLimiter × W)
  check_quota true (l, w) = let (t, w') = c.now w in sleep_quota (ltb t l.rate_limit_reset) (l, w')
  check_quota false x = (false, x)

  unfoldable pub wait_quota : ApiRateLimiter × W → Bool × (ApiRateLimiter × W)
  wait_quota (l, w) = check_quota (slt l.rate_limit_remaining 2) (l, w)

  unfoldable pub note_request : ApiRateLimiter × W → Bool × (ApiRateLimiter × W)
  note_request (l, w) = let (t, w') = c.now w in (false, (record l { last_request = t }, w'))

  -- The rest of the function, unless the context has ended.
  unfoldable pub next :
      (ApiRateLimiter × W → Bool × (ApiRateLimiter × W))
      → Bool × (ApiRateLimiter × W)
      → Bool × (ApiRateLimiter × W)
  next f (true, x) = (true, x)
  next f (false, x) = f x

  -- `Wait`: whether the error of the context is returned.
  unfoldable pub wait : ApiRateLimiter × W → Bool × (ApiRateLimiter × W)
  wait x = next note_request (next wait_quota (next wait_delay (wait_backoff x)))

-- `scaled base n` is the float product of `base` and 2 ^ n as a duration.
unfoldable pub calculate_backoff_delay : (ℕ → ℕ → ℕ) → ApiRateLimiter → ℕ
calculate_backoff_delay scaled l =
    let delay = scaled l.config.exponential_backoff_base (l.consecutive_errors - 1) in
    if slt 0 l.consecutive_errors
    then (if slt l.config.max_backoff_delay delay then l.config.max_backoff_delay else delay)
    else 0

-- A response as far as it is read: the three headers hold `none` if they are absent or no number.
pub record Response : Type 0 where
  pub status_code : ℕ
  pub retry_after : Option ℕ
  pub remaining : Option ℕ
  -- `time.Unix` of the header
  pub reset : Option ℕ

-- The later of the two delays after a 429; `later` is the second reading of the clock.
abbrev pub suggested_until : ℕ → ℕ → ℕ → Option ℕ → ℕ
suggested_until now later delay none = add_time now delay
suggested_until now later delay (some seconds) =
    let suggested = (seconds * 10 ^ 9) % word_mod in
    if slt delay suggested then add_time later suggested else add_time now delay

unfoldable pub back_off : (ℕ → ℕ → ℕ) → ℕ → ℕ → Response → ApiRateLimiter → ApiRateLimiter
back_off scaled now later r l =
    let l' = record l { consecutive_errors = add64 l.consecutive_errors 1 } in
    record l' {
      backoff_until = suggested_until now later (calculate_backoff_delay scaled l') r.retry_after;
    }

abbrev or_else : Option ℕ → ℕ → ℕ
or_else none n = n
or_else (some m) n = m

unfoldable pub read_headers : Response → ApiRateLimiter → ApiRateLimiter
read_headers r l = record l {
  rate_limit_remaining = or_else r.remaining l.rate_limit_remaining;
  rate_limit_reset = or_else r.reset l.rate_limit_reset;
  consecutive_errors =
      if leb 200 r.status_code && ltb r.status_code 300 then 0 else l.consecutive_errors;
}

-- `HandleResponse`: whether a rate limit error is returned.
unfoldable pub handle_response :
    (ℕ → ℕ → ℕ) → ℕ → ℕ → Option Response → ApiRateLimiter → Bool × ApiRateLimiter
handle_response scaled now later none l = (false, l)
handle_response scaled now later (some r) l =
    if r.status_code == 429
    then (true, back_off scaled now later r l)
    else (false, read_headers r l)

-- `AcquireSlot`, if it does not block: a send to the channel needs a free place.
unfoldable pub acquire_slot : ApiRateLimiter → Option ApiRateLimiter
acquire_slot l = if ltb l.taken l.capacity then some (record l { taken = l.taken + 1 }) else none

-- `ReleaseSlot`, which does nothing if no slot is taken.
unfoldable pub release_slot : ApiRateLimiter → ApiRateLimiter
release_slot l = record l { taken = l.taken - 1 }
