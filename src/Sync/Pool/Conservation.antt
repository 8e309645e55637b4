-- ===== src/Sync/Pool/Conservation.antt =====
-- internal/sync/batch.go: no task of `SyncIssues` is lost or done twice.
use jira_cdc_git.Prelude.{
  ℕ, ◌+◌, ◌≤◌, ◌≡◌, refl, ap, ◌∙◌, ◌⊎◌, inl, inr, Bool, true, false, List, [], ◌∷◌, ◌++◌, arith,
  length, length-append,
}
use jira_cdc_git.Prelude.Text.{Text}
use jira_cdc_git.Sync.Batch.{SyncTask, SyncResult}
use jira_cdc_git.Sync.Pool.{
  Pool, result_of, tasks_from, start_pool, Step, send_task, stop_sending, take_task, deliver,
  drop_result, quit_cancelled, quit_closed, collect, cancel, Reach, start, step, IsFinished,
}

-- A weight of an issue key with its position.
abbrev pub Weight : Type 0
Weight = Text → ℕ → ℕ

unfoldable pub task_weight : Weight → List SyncTask → ℕ
task_weight w [] = 0
task_weight w (t ∷ ts) = w t.issue_key t.index + task_weight w ts

unfoldable pub result_weight : Weight → List SyncResult → ℕ
result_weight w [] = 0
result_weight w (r ∷ rs) = w r.issue_key r.index + result_weight w rs

task_weight-append :
    (w : Weight) (xs ys : List SyncTask)
    → task_weight w (xs ++ ys) ≡ task_weight w xs + task_weight w ys
unfolding task_weight
task_weight-append w [] ys = omega arith
task_weight-append w (x ∷ xs) ys = omega (arith, task_weight-append w xs ys)

result_weight-append :
    (w : Weight) (xs ys : List SyncResult)
    → result_weight w (xs ++ ys) ≡ result_weight w xs + result_weight w ys
unfolding result_weight
result_weight-append w [] ys = omega arith
result_weight-append w (x ∷ xs) ys = omega (arith, result_weight-append w xs ys)

abbrev weight : Weight → Pool → ℕ
weight w p =
    task_weight w p.unsent
    + task_weight w p.queue
    + task_weight w p.busy
    + result_weight w p.results
    + result_weight w p.collected

-- What a step does to the weight: nothing without a cancellation, at most a loss with one.
record Bounded (w : Weight) (p q : Pool) : Type 0 where
  le : weight w q ≤ weight w p
  eq : q.cancelled ≡ false → (p.cancelled ≡ false) × (weight w q ≡ weight w p)

Step-Bounded : (w : Weight) {p q : Pool} → Step p q → Bounded w p q
unfolding task_weight result_weight
Step-Bounded w {p} {q} (send_task t ts e f) =
    let sent = ap (task_weight w) e in
    let queued = task_weight-append w p.queue (t ∷ []) in
    rw f (record { le = omega (arith, sent, queued); eq = λ c. (c, omega (arith, sent, queued)) })
Step-Bounded w {p} {q} (stop_sending t ts e c f) = rw f (record { le = omega arith; eq = λ d. cc })
Step-Bounded w {p} {q} (take_task t ts k e i f) =
    let taken = ap (task_weight w) e in
    rw f (record { le = omega (arith, taken); eq = λ c. (c, omega (arith, taken)) })
Step-Bounded w {p} {q} (deliver xs t ys path error time e f) =
    let was = ap (task_weight w) e in
    let parts = task_weight-append w xs (t ∷ ys) in
    let rest = task_weight-append w xs ys in
    let out = result_weight-append w p.results (result_of t path error time ∷ []) in
    rw f (record {
      le = omega (arith, was, parts, rest, out);
      eq = λ c. (c, omega (arith, was, parts, rest, out));
    })
Step-Bounded w {p} {q} (drop_result xs t ys e c f) =
    let was = ap (task_weight w) e in
    let parts = task_weight-append w xs (t ∷ ys) in
    let rest = task_weight-append w xs ys in
    rw f (record { le = omega (arith, was, parts, rest); eq = λ d. cc })
Step-Bounded w {p} {q} (quit_cancelled k i c f) =
    rw f (record { le = omega arith; eq = λ d. (d, omega arith) })
Step-Bounded w {p} {q} (quit_closed k i u e f) =
    rw f (record { le = omega arith; eq = λ d. (d, omega arith) })
Step-Bounded w {p} {q} (collect r rs e f) =
    let was = ap (result_weight w) e in
    let out = result_weight-append w p.collected (r ∷ []) in
    rw f (record { le = omega (arith, was, out); eq = λ c. (c, omega (arith, was, out)) })
Step-Bounded w {p} {q} (cancel c f) = rw f (record { le = omega arith; eq = λ d. cc })

Reach-Bounded : (w : Weight) {p q : Pool} → Reach p q → Bounded w p q
Reach-Bounded w start = record { le = omega arith; eq = λ c. (c, refl) }
Reach-Bounded w (step r s) =
    let before = Reach-Bounded w r in
    let after = Step-Bounded w s in
    record {
      le = omega (arith, before.le, after.le);
      eq = λ c. let (c1, e1) = after.eq c in let (c2, e2) = before.eq c1 in (c2, e1 ∙ e2);
    }

-- Without a cancellation workers end only when all tasks have been taken.
record Manned (n : ℕ) (p : Pool) : Type 0 where
  ended_late :
      (p.cancelled ≡ true) ⊎ ((p.unsent ≡ []) × (p.queue ≡ [])) ⊎ (n ≤ p.idle + length p.busy)

empty-ne-cons : (t : SyncTask) (ts : List SyncTask) {l : List SyncTask} → l ≡ [] → l ≡ t ∷ ts → ⊥
empty-ne-cons t ts p q = cc

Step-Manned : (n : ℕ) {p q : Pool} → Manned n p → Step p q → Manned n q
Step-Manned n {p} {q} m (send_task t ts e f) = rw f (record {
  ended_late = elim m.ended_late [
    | inl c ↦ inl c
    | inr (inl none_left) ↦ absurd (empty-ne-cons t ts none_left.0 e)
    | inr (inr h) ↦ inr (inr h)
  ];
})
Step-Manned n {p} {q} m (stop_sending t ts e c f) = rw f (record { ended_late = inl c })
Step-Manned n {p} {q} m (take_task t ts k e i f) = rw f (record {
  ended_late = elim m.ended_late [
    | inl c ↦ inl c
    | inr (inl none_left) ↦ absurd (empty-ne-cons t ts none_left.1 e)
    | inr (inr h) ↦ inr (inr (omega (arith, h, i)))
  ];
})
Step-Manned n {p} {q} m (deliver xs t ys path error time e f) =
    let was = ap (λ (l : List SyncTask). length l) e ∙ length-append xs (t ∷ ys) in
    rw f (record {
      ended_late = elim m.ended_late [
        | inl c ↦ inl c
        | inr (inl none_left) ↦ inr (inl none_left)
        | inr (inr h) ↦ inr (inr (omega (arith, h, was, length-append {0} xs ys)))
      ];
    })
Step-Manned n {p} {q} m (drop_result xs t ys e c f) = rw f (record { ended_late = inl c })
Step-Manned n {p} {q} m (quit_cancelled k i c f) = rw f (record { ended_late = inl c })
Step-Manned n {p} {q} m (quit_closed k i u e f) = rw f (record { ended_late = inr (inl (u, e)) })
Step-Manned n {p} {q} m (collect r rs e f) = rw f (record { ended_late = m.ended_late })
Step-Manned n {p} {q} m (cancel c f) = rw f (record { ended_late = inl refl })

Reach-Manned : (n : ℕ) {p q : Pool} → Manned n p → Reach p q → Manned n q
Reach-Manned n m start = m
Reach-Manned n m (step r s) = Step-Manned n (Reach-Manned n m r) s

module _ (keys : List Text) (workers : ℕ) (done : Bool) {q : Pool}
    (r : Reach (start_pool keys workers done) q) where
  -- Whatever the order of the steps and the outcomes, at any time, cancelled or not, the results that
  -- were collected weigh no more than the tasks given, for each weight of the keys and positions: no task
  -- has two results, and no result is without a task.
  pub collected_at_most :
      (w : Weight) → result_weight w q.collected ≤ task_weight w (tasks_from 0 keys)
  unfolding task_weight result_weight
  collected_at_most w = omega (arith, (Reach-Bounded w r).le)

  -- When a batch with at least one worker has ended and was not cancelled, each task has been
  -- collected exactly once: for each weight the results weigh what the tasks do.
  pub collected_exactly :
      1 ≤ workers
      → IsFinished q
      → q.cancelled ≡ false
      → (w : Weight) → result_weight w q.collected ≡ task_weight w (tasks_from 0 keys)
  unfolding task_weight result_weight
  collected_exactly some_worker fin going w =
      elim (Reach-Manned workers {p = start_pool keys workers done}
        (record { ended_late = inr (inr (omega arith)) }) r).ended_late [
          | inl c ↦ absurd (cc)
          | inr (inl none_left) ↦ omega (
            arith,
            ((Reach-Bounded w r).eq going).1,
            ap (task_weight w) none_left.0,
            ap (task_weight w) none_left.1,
            ap (task_weight w) fin.no_busy,
            ap (result_weight w) fin.no_results,
          )
          | inr (inr h) ↦ absurd (
              omega (
                arith,
                h,
                some_worker,
                fin.no_idle,
                ap (λ (l : List SyncTask). length l) fin.no_busy,
              ))
        ]
