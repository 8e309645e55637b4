-- ===== src/Sync/Sequential/Complete.antt =====
-- internal/sync/batch.go: `SyncIssuesSync` processes every issue once, unless it is cancelled.
use jira_cdc_git.Prelude.{
  ◌⊎◌, inl, inr, ℕ, ◌+◌, ◌≤◌, ◌≡◌, refl, ◌∙◌, Bool, true, false, List, [], ◌∷◌, arith, length,
  add64,
}
use jira_cdc_git.Prelude.Text.{Text}
use jira_cdc_git.Sync.Services.{Services}
use jira_cdc_git.Sync.Batch.{BatchResult, empty_batch, add_result, finish_batch, Env}
use jira_cdc_git.Sync.Batch.Balance.{
  IsBalanced, empty_batch-IsBalanced, add_result-IsBalanced, finish_batch-IsBalanced,
  add_result_counts,
}
use jira_cdc_git.Sync.Sequential.{
  sync_one, report_count, after_poll, sync_loop, end_loop, sync_issues_sync,
}

-- What holds of the result when the loop ends, after `n` further issues.
pub record LoopEnd (n : ℕ) (b : BatchResult) (done : BatchResult × ℕ × Bool) : Type 0 where
  pub balanced : IsBalanced done.0
  pub total : done.0.total_issues ≡ b.total_issues
  pub at_most : done.0.processed_issues ≤ b.processed_issues + n
  pub all_done : done.2 ≡ false → done.0.processed_issues ≡ b.processed_issues + n

length_cons : (key : Text) (keys : List Text) → length (key ∷ keys) ≡ length keys + 1
length_cons key keys = omega arith

module _ {W : Type 0} (s : Services W) (repo : Text) where
  after_poll-LoopEnd :
      (key : Text) (n index : ℕ) (b : BatchResult) (time : ℕ)
      (rest : BatchResult → ℕ → Env W → (BatchResult × ℕ × Bool) × Env W) (stop : Bool) (e : Env W)
      → IsBalanced b
      → ((b' : BatchResult) (time' : ℕ) (e' : Env W)
          → IsBalanced b'
          → LoopEnd n b' (rest b' time' e').0)
      → LoopEnd (n + 1) b (after_poll s repo key index b time rest stop e).0
  unfolding after_poll
  after_poll-LoopEnd key n index b time rest true e h ih = record {
    balanced = h;
    total = refl;
    at_most = omega arith;
    all_done = λ x. cc;
  }
  after_poll-LoopEnd key n index b time rest false e h ih =
      let (r, e1) = sync_one s repo key index e in
      let (_, e2) = report_count s key (add_result b r) e1 in
      let (more, total) = add_result_counts b r in
      let done = ih (add_result b r) (add64 time r.process_time) e2 (add_result-IsBalanced b r h) in
      record {
        balanced = done.balanced;
        total = done.total ∙ total;
        at_most = omega (arith, done.at_most, more);
        all_done = λ x. omega (arith, done.all_done x, more);
      }

  sync_loop-LoopEnd :
      (keys : List Text) (index : ℕ) (b : BatchResult) (time : ℕ) (e : Env W)
      → IsBalanced b
      → LoopEnd (length keys) b (sync_loop s repo keys index b time e).0
  unfolding sync_loop
  sync_loop-LoopEnd [] index b time e h = record {
    balanced = h;
    total = refl;
    at_most = omega arith;
    all_done = λ x. omega arith;
  }
  sync_loop-LoopEnd (key ∷ keys) index b time e h =
      let (stop, w) = s.cancelled e.world in
      let e' : Env W = record e { world = w } in
      rw (length_cons key keys) (
        after_poll-LoopEnd key (length keys) index b time (sync_loop s repo keys (index + 1)) stop
          e' h (λ b' time' e'' h'. sync_loop-LoopEnd keys (index + 1) b' time' e'' h'))

  end_loop_fields :
      (start n : ℕ) (b : BatchResult) (done : BatchResult × ℕ × Bool) (e : Env W)
      → LoopEnd n b done
      → let (r, stopped) = (end_loop s start done e).0 in
        IsBalanced r
        × (r.total_issues ≡ b.total_issues)
        × (r.processed_issues ≤ b.processed_issues + n)
        × ((stopped ≡ true) ⊎ (r.processed_issues ≡ b.processed_issues + n))
  unfolding end_loop finish_batch
  end_loop_fields start n b (r, time, true) e h = (h.balanced, h.total, h.at_most, inl refl)
  end_loop_fields start n b (r, time, false) e h = (
    finish_batch-IsBalanced start (s.now e.world).0 time r h.balanced,
    h.total,
    h.at_most,
    inr (h.all_done refl),
  )

  -- The sequential batch, whatever the services do: its total is the number of the issues given; every
  -- issue that was processed is either a success with its file or a failure with its error; no more are
  -- processed than were given, and all of them are unless the context was cancelled.
  pub sync_issues_sync_complete :
      (keys : List Text) (e : Env W)
      → let (r, stopped) = (sync_issues_sync s keys repo e).0 in
        IsBalanced r
        × (r.total_issues ≡ length keys)
        × (r.processed_issues ≤ length keys)
        × ((stopped ≡ true) ⊎ (r.processed_issues ≡ length keys))
  unfolding sync_issues_sync
  sync_issues_sync_complete keys e =
      let (start, w) = s.now e.world in
      let e1 : Env W = record e { world = w } in
      let b = empty_batch (length keys) 1 in
      let (done, e2) = sync_loop s repo keys 0 b 0 e1 in
      let (balanced, total, most, all) =
        end_loop_fields start (length keys) b done e2
          (sync_loop-LoopEnd keys 0 b 0 e1 (empty_batch-IsBalanced (length keys) 1)) in
      (
        balanced,
        total,
        omega (arith, most),
        elim all [ inl x ↦ inl x | inr x ↦ inr (omega (arith, x)) ],
      )
