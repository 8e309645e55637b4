-- ===== src/RateLimit/Waiting.antt =====
-- pkg/ratelimit/ratelimit.go: what `Wait` has waited for when it returns.
use jira_cdc_git.Prelude.{
  ℕ, ◌+◌, ◌-◌, ◌%◌, ◌≤◌, ◌<◌, ◌≡◌, refl, sym, ◌∙◌, ap, Bool, true, false, ltb, word_mod, sign_bit,
  slt, sub_time, arith, Bool-cases, inl, inr,
}
use jira_cdc_git.RateLimit.{
  ApiRateLimiter, Clock, sleep_backoff, wait_backoff, sleep_delay, wait_delay, restore_quota,
  sleep_quota, check_quota, wait_quota, note_request, next, wait,
}

module _ {W : Type 0} (time : W → ℕ) where
  -- A sleep that nothing disturbs: the limiter is as it was, and unless the context ends at least the
  -- duration has passed.
  pub record IsSleep (d : ℕ) (l : ApiRateLimiter) (w : W) (r : Bool × (ApiRateLimiter × W))
      : Type 0 where
    pub same : r.1.0 ≡ l
    pub passed : r.0 ≡ false → time w + d ≤ time r.1.1

  -- A part of `Wait` that has waited until `bound`, unless the context has ended.
  record Waited (l : ApiRateLimiter) (w : W) (bound : ℕ) (r : Bool × (ApiRateLimiter × W))
      : Type 0 where
    backoff : r.1.0.backoff_until ≡ l.backoff_until
    last : r.1.0.last_request ≡ l.last_request
    delay : r.1.0.config.rate_limit_delay ≡ l.config.rate_limit_delay
    later : r.0 ≡ false → time w ≤ time r.1.1
    reached : r.0 ≡ false → bound ≤ time r.1.1

  slept :
      (d bound : ℕ) (l : ApiRateLimiter) (w : W) (r : Bool × (ApiRateLimiter × W))
      → bound ≤ time w + d
      → IsSleep d l w r
      → Waited l w bound r
  slept d bound l w r h s = record {
    backoff = ap (λ (l : ApiRateLimiter). l.backoff_until) s.same;
    last = ap (λ (l : ApiRateLimiter). l.last_request) s.same;
    delay = ap (λ (l : ApiRateLimiter). l.config.rate_limit_delay) s.same;
    later = λ e. omega (arith, s.passed e);
    reached = λ e. omega (arith, s.passed e, h);
  }

  stayed :
      (bound : ℕ) (l : ApiRateLimiter) (w : W) → bound ≤ time w → Waited l w bound (false, (l, w))
  stayed bound l w h = record {
    backoff = refl;
    last = refl;
    delay = refl;
    later = λ e. omega arith;
    reached = λ e. h;
  }

  module _ (c : Clock W) (reads : (w : W) → c.now w ≡ (time w, w))
      (sleeps : (d : ℕ) (l : ApiRateLimiter) (w : W) → IsSleep d l w (c.sleep d (l, w))) where
    wait_backoff-Waited :
        (l : ApiRateLimiter) (w : W)
        → l.backoff_until < time w + sign_bit
        → Waited l w l.backoff_until (wait_backoff c (l, w))
    unfolding wait_backoff sleep_backoff
    wait_backoff-Waited l w near = elim (Bool-cases (ltb (time w) l.backoff_until)) [
      | inl e ↦
          rw (reads w, e, sleep_backoff, reads w)
            (slept (sub_time l.backoff_until (time w)) l.backoff_until l w _ (ground arith)
              (sleeps _ l w))
      | inr e ↦ rw (reads w, e, sleep_backoff) (stayed l.backoff_until l w (ground arith))
    ]

    delay_slept :
        (t last delay : ℕ)
        → last ≤ t
        → delay < sign_bit
        → slt (sub_time t last) delay ≡ true
        → last + delay ≤ t + (delay + (word_mod - sub_time t last)) % word_mod
    delay_slept t last delay order small e = ground arith

    delay_passed :
        (t last delay : ℕ)
        → last ≤ t
        → delay < sign_bit
        → slt (sub_time t last) delay ≡ false
        → last + delay ≤ t
    delay_passed t last delay order small e = ground arith

    wait_delay-Waited :
        (l : ApiRateLimiter) (w : W)
        → l.last_request ≤ time w
        → l.config.rate_limit_delay < sign_bit
        → Waited l w (l.last_request + l.config.rate_limit_delay) (wait_delay c (l, w))
    unfolding wait_delay sleep_delay
    wait_delay-Waited l w order small =
        let last = l.last_request in
        let delay = l.config.rate_limit_delay in
        elim (Bool-cases (slt (sub_time (time w) last) delay)) [
          | inl e ↦
              rw (reads w, e, sleep_delay)
                (slept ((delay + (word_mod - sub_time (time w) last)) % word_mod) (last + delay) l w
                  _ (delay_slept (time w) last delay order small e) (sleeps _ l w))
          | inr e ↦
              rw (reads w, e, sleep_delay)
                (stayed (last + delay) l w (delay_passed (time w) last delay order small e))
        ]

    restored :
        (l : ApiRateLimiter) (w : W) (r : Bool × (ApiRateLimiter × W))
        → Waited l w 0 r
        → Waited l w 0 (restore_quota c r)
    unfolding restore_quota
    restored l w (true, x) h = h
    restored l w (false, (l', w')) h = record {
      backoff = h.backoff;
      last = h.last;
      delay = h.delay;
      later = h.later;
      reached = h.reached;
    }

    quota_slept : (b : Bool) (l : ApiRateLimiter) (w : W) → Waited l w 0 (sleep_quota c b (l, w))
    unfolding sleep_quota
    quota_slept true l w = rw (reads w) (
        restored l w _
          (slept (sub_time l.rate_limit_reset (time w)) 0 l w _ (omega arith) (sleeps _ l w)))
    quota_slept false l w = stayed 0 l w (omega arith)

    quota_checked : (b : Bool) (l : ApiRateLimiter) (w : W) → Waited l w 0 (check_quota c b (l, w))
    unfolding check_quota
    quota_checked true l w = rw (reads w) (quota_slept (ltb (time w) l.rate_limit_reset) l w)
    quota_checked false l w = stayed 0 l w (omega arith)

    wait_quota-Waited : (l : ApiRateLimiter) (w : W) → Waited l w 0 (wait_quota c (l, w))
    unfolding wait_quota
    wait_quota-Waited l w = quota_checked (slt l.rate_limit_remaining 2) l w

    -- A later part waits from where the earlier part has left off.
    chain :
        (l : ApiRateLimiter) (w : W) (b b' : ℕ)
        (f : ApiRateLimiter × W → Bool × (ApiRateLimiter × W)) (r : Bool × (ApiRateLimiter × W))
        → Waited l w b r
        → ((l' : ApiRateLimiter) (w' : W)
            → Waited l w b (false, (l', w'))
            → Waited l' w' b' (f (l', w')))
        → Waited l w b (next c f r) × Waited l w b' (next c f r)
    unfolding next
    chain l w b b' f (true, x) h g = (
      h,
      record {
        backoff = h.backoff;
        last = h.last;
        delay = h.delay;
        later = h.later;
        reached = λ e. absurd cc;
      },
    )
    chain l w b b' f (false, (l', w')) h g =
        let k = g l' w' h in
        (
          record {
            backoff = k.backoff ∙ h.backoff;
            last = k.last ∙ h.last;
            delay = k.delay ∙ h.delay;
            later = λ e. omega (arith, h.later refl, k.later e);
            reached = λ e. omega (arith, h.reached refl, k.later e);
          },
          record {
            backoff = k.backoff ∙ h.backoff;
            last = k.last ∙ h.last;
            delay = k.delay ∙ h.delay;
            later = λ e. omega (arith, h.later refl, k.later e);
            reached = k.reached;
          },
        )

    noted :
        (r : Bool × (ApiRateLimiter × W))
        → (next c (note_request c) r).0 ≡ false
        → (r.0 ≡ false)
          × ((next c (note_request c) r).1.1 ≡ r.1.1)
          × ((next c (note_request c) r).1.0.last_request ≡ time r.1.1)
    unfolding next note_request
    noted (true, x) e = absurd cc
    noted (false, (l, w)) e = rw (reads w) (refl, refl, refl)

    -- When `Wait` returns no error, the backoff is over and the delay since the last request has passed,
    -- and the time of the return is the last request. It is assumed that a sleep lasts as long as it is
    -- told to and meanwhile nobody else uses the limiter, that reading the clock changes nothing, that the
    -- backoff ends within 292 years, and that the last request is not in the future.
    pub wait_respects :
        (l : ApiRateLimiter) (w : W)
        → l.backoff_until < time w + sign_bit
        → l.last_request ≤ time w
        → l.config.rate_limit_delay < sign_bit
        → (wait c (l, w)).0 ≡ false
        → let (l', w') = (wait c (l, w)).1 in
          (l.backoff_until ≤ time w')
          × (l.last_request + l.config.rate_limit_delay ≤ time w')
          × (l'.last_request ≡ time w')
    unfolding wait
    wait_respects l w near order small done =
        let backoff = wait_backoff c (l, w) in
        let delayed = next c (wait_delay c) backoff in
        let bound = l.last_request + l.config.rate_limit_delay in
        let (over, delay_over) =
          chain l w l.backoff_until bound (wait_delay c) backoff (wait_backoff-Waited l w near)
            (λ l' w' h. from_start l' w' h) in
        let quota = λ (l' : ApiRateLimiter) (w' : W). wait_quota-Waited l' w' in
        let over' =
          (chain l w l.backoff_until 0 (wait_quota c) delayed over (λ l' w' h. quota l' w')).0 in
        let delay_over' =
          (chain l w bound 0 (wait_quota c) delayed delay_over (λ l' w' h. quota l' w')).0 in
        let (going, same, last) = noted (next c (wait_quota c) delayed) done in
        let now = ap time same in
        (
          omega (arith, over'.reached going, now),
          omega (arith, delay_over'.reached going, now),
          last ∙ sym now,
        )
      where
        from_start :
            (l' : ApiRateLimiter) (w' : W)
            → Waited l w l.backoff_until (false, (l', w'))
            → Waited l' w' (l.last_request + l.config.rate_limit_delay) (wait_delay c (l', w'))
        from_start l' w' h =
            let k =
              wait_delay-Waited l' w' (omega (arith, h.last, order, h.later refl))
                (omega (arith, h.delay, small)) in
            record {
              backoff = k.backoff;
              last = k.last;
              delay = k.delay;
              later = k.later;
              reached = λ e. omega (arith, k.reached e, h.last, h.delay);
            }
