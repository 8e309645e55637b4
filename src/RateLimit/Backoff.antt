-- ===== src/RateLimit/Backoff.antt =====
-- pkg/ratelimit/ratelimit.go: the backoff and the slots.
use jira_cdc_git.Prelude.{
  ℕ, suc, ◌+◌, ◌≤◌, ◌<◌, ◌≡◌, ◌≢◌, ◌&&◌, refl, true, false, Option, none, some, arith, ltb, slt,
  add64, if◌then◌else◌, ◌==◌, leb, sign_bit,
}
use jira_cdc_git.RateLimit.{
  ApiRateLimiter, Response, calculate_backoff_delay, back_off, read_headers, handle_response,
  acquire_slot, release_slot, add_time,
}

backoff_delay_le :
    (scaled : ℕ → ℕ → ℕ) (l : ApiRateLimiter)
    → l.config.max_backoff_delay < sign_bit
    → slt l.config.max_backoff_delay (calculate_backoff_delay scaled l) ≡ false
unfolding calculate_backoff_delay
backoff_delay_le scaled l h = ground arith

add_time_le :
    (now max delay : ℕ) → max < sign_bit → slt max delay ≡ false → add_time now delay ≤ now + max
add_time_le now max delay small e = ground arith

not_equal : (a b : ℕ) → a ≢ b → (a == b) ≡ false
not_equal a b h = ground arith

-- Any sequence in which callers acquire slots and give back what they hold; the last index is how many
-- they hold.
pub data Slots (l : ApiRateLimiter) : ApiRateLimiter → ℕ → Type 0 where
  start : Slots l l 0
  acquired :
      {m n : ApiRateLimiter} {held : ℕ}
      → Slots l m held
      → acquire_slot m ≡ some n
      → Slots l n (suc held)
  released : {m : ApiRateLimiter} {held : ℕ} → Slots l m (suc held) → Slots l (release_slot m) held

some_or : ApiRateLimiter → Option ApiRateLimiter → ApiRateLimiter
some_or l none = l
some_or l (some m) = m

-- After a 429 with no usable `Retry-After` the errors are one more, the error is returned, the backoff
-- ends at most `MaxBackoffDelay` after the response, provided that this is not negative, and the slots
-- and the quota are as before.
pub handle_response-backs_off :
    (scaled : ℕ → ℕ → ℕ) (now later : ℕ) (r : Response) (l : ApiRateLimiter)
    → r.status_code ≡ 429
    → r.retry_after ≡ none
    → l.config.max_backoff_delay < sign_bit
    → let (failed, l') = handle_response scaled now later (some r) l in
      (failed ≡ true)
      × (l'.consecutive_errors ≡ add64 l.consecutive_errors 1)
      × (l'.backoff_until ≤ now + l.config.max_backoff_delay)
      × (l'.rate_limit_remaining ≡ l.rate_limit_remaining)
      × (l'.taken ≡ l.taken)
unfolding handle_response back_off
handle_response-backs_off scaled now later r l status absent small =
    let l' = record l { consecutive_errors = add64 l.consecutive_errors 1 } in
    rw (status, absent)
      (
        refl,
        refl,
        add_time_le now l.config.max_backoff_delay _ small (backoff_delay_le scaled l' small),
        refl,
        refl,
      )

-- A response other than a 429 returns no error, keeps the backoff and the slots, and clears the errors
-- exactly if its status is a success.
pub handle_response-keeps :
    (scaled : ℕ → ℕ → ℕ) (now later : ℕ) (r : Response) (l : ApiRateLimiter)
    → r.status_code ≢ 429
    → let (failed, l') = handle_response scaled now later (some r) l in
      (failed ≡ false)
      × (l'.backoff_until ≡ l.backoff_until)
      × (l'.taken ≡ l.taken)
      × (l'.consecutive_errors
          ≡ (if leb 200 r.status_code && ltb r.status_code 300 then 0 else l.consecutive_errors))
unfolding handle_response read_headers
handle_response-keeps scaled now later r l other =
    rw (not_equal r.status_code 429 other) (refl, refl, refl, refl)
