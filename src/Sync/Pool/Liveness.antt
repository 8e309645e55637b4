-- ===== src/Sync/Pool/Liveness.antt =====
-- internal/sync/batch.go: the goroutines of `SyncIssues` neither block each other nor run for ever.
use jira_cdc_git.Prelude.{
  ℕ, zero, suc, ◌+◌, ◌*◌, ◌≤◌, ◌<◌, ◌≡◌, refl, ap, ◌⊎◌, inl, inr, Bool, true, false, none, List, [],
  ◌∷◌, arith, length, length-append,
}
use jira_cdc_git.Sync.Batch.{SyncTask, SyncResult}
use jira_cdc_git.Sync.Pool.{
  Pool, result_of, Step, send_task, stop_sending, take_task, deliver, drop_result, quit_cancelled,
  quit_closed, collect, cancel, Reach, start, step, IsFinished,
}

abbrev still_going : Bool → ℕ
still_going true = 0
still_going false = 1

-- What is left to do.
abbrev pub remaining : Pool → ℕ
remaining p =
    8 * length p.unsent
    + 6 * length p.queue
    + 5 * length p.busy
    + length p.results
    + p.idle
    + still_going p.cancelled

-- Every step, a cancellation included, leaves less to do, so no run has more steps than `remaining`
-- says at its start.
pub Step-remaining : {p q : Pool} → Step p q → remaining q < remaining p
Step-remaining {p} {q} (send_task t ts e f) =
    rw f (omega (arith, ap (λ (l : List SyncTask). length l) e, length-append {0} p.queue (t ∷ [])))
Step-remaining {p} {q} (stop_sending t ts e c f) =
    rw f (omega (arith, ap (λ (l : List SyncTask). length l) e))
Step-remaining {p} {q} (take_task t ts k e i f) =
    rw f (omega (arith, ap (λ (l : List SyncTask). length l) e, i))
Step-remaining {p} {q} (deliver xs t ys path error time e f) = rw f (
    omega (
      arith,
      ap (λ (l : List SyncTask). length l) e,
      length-append {0} xs (t ∷ ys),
      length-append {0} xs ys,
      length-append {0} p.results (result_of t path error time ∷ []),
    ))
Step-remaining {p} {q} (drop_result xs t ys e c f) = rw f (
    omega (
      arith,
      ap (λ (l : List SyncTask). length l) e,
      length-append {0} xs (t ∷ ys),
      length-append {0} xs ys,
    ))
Step-remaining {p} {q} (quit_cancelled k i c f) = rw f (omega (arith, i))
Step-remaining {p} {q} (quit_closed k i u e f) = rw f (omega (arith, i))
Step-remaining {p} {q} (collect r rs e f) =
    rw f (omega (arith, ap (λ (l : List SyncResult). length l) e))
Step-remaining {p} {q} (cancel c f) = rw f (ground arith)

abbrev pub steps : {p q : Pool} → Reach p q → ℕ
steps start = 0
steps (step r s) = suc (steps r)

-- The steps of a run and what is left to do at its end are together no more than what was left at its
-- start, so every run ends.
pub Reach-bounded : {p q : Pool} (r : Reach p q) → steps r + remaining q ≤ remaining p
Reach-bounded start = omega arith
Reach-bounded (step r s) = omega (arith, Reach-bounded r, Step-remaining s)

-- A step of the environment, which cancels the context; all other steps are those of the goroutines.
abbrev pub is_cancel : {p q : Pool} → Step p q → Bool
is_cancel (cancel c f) = true
is_cancel _ = false

-- One of the goroutines can take a step.
abbrev pub CanStep : Pool → Type 0
CanStep p = (q : Pool) × ((s : Step p q) × (is_cancel s ≡ false))

-- While a batch has not ended, one of its goroutines can take a step, whether the context is cancelled
-- or not, and without its being cancelled for that.
pub Step-or_IsFinished : (p : Pool) → CanStep p ⊎ IsFinished p
Step-or_IsFinished p = progress p.results refl p.busy refl p.idle refl p.queue refl p.unsent refl
  where
    progress :
        (rs : List SyncResult)
        → p.results ≡ rs
        → (bs : List SyncTask) → p.busy ≡ bs
        → (k : ℕ) → p.idle ≡ k
        → (qs : List SyncTask) → p.queue ≡ qs
        → (us : List SyncTask) → p.unsent ≡ us
        → CanStep p ⊎ IsFinished p
    progress (r ∷ rs) e _ _ _ _ _ _ _ _ = inl (_, (collect r rs e refl, refl))
    progress [] e (b ∷ bs) f _ _ _ _ _ _ = inl (_, (deliver [] b bs [] none 0 f refl, refl))
    progress [] e [] f zero g _ _ _ _ = inr (record { no_idle = g; no_busy = f; no_results = e })
    progress [] e [] f (suc k) g (t ∷ qs) h _ _ = inl (_, (take_task t qs k h g refl, refl))
    progress [] e [] f (suc k) g [] h (t ∷ us) u = inl (_, (send_task t us u refl, refl))
    progress [] e [] f (suc k) g [] h [] u = inl (_, (quit_closed k g u h refl, refl))
