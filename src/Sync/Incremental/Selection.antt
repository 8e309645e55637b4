-- ===== src/Sync/Incremental/Selection.antt =====
-- internal/sync/incremental.go: which issues an incremental sync takes.
use jira_cdc_git.Prelude.{
  ℕ, ◌≡◌, refl, ap, sym, fun_ext, ◌∙◌, Bool, true, false, Option, none, some, List, [], ◌∷◌,
  if◌then◌else◌, select, Bool-cases, inl, inr, slt,
}
use jira_cdc_git.Prelude.Text.{Text}
use jira_cdc_git.Jira.{Issue}
use jira_cdc_git.State.Types.{IssueState, State}
use jira_cdc_git.State.Issues.{get_issue_state, should_sync_issue}
use jira_cdc_git.Sync.Services.{Outcome, ok, fail}
use jira_cdc_git.Sync.Batch.{Env, pure}
use jira_cdc_git.Sync.Runtime.{Runtime}
use jira_cdc_git.Sync.Incremental.{
  IncrementalSyncOptions, is_too_old, late_checks, take_fetched, take_tracked, take_issue,
  take_issues, filter_issues_for_incremental,
}

module _ {W : Type 0} (rt : Runtime W) where
  -- What the code does with an issue, as a test: without `Force` a new issue is taken if new ones are
  -- asked for, a tracked one if modified ones are and it cannot be fetched or has changed since its sync.
  unfoldable pub fetched_test : State → Outcome Issue → Bool
  fetched_test st (ok issue) = should_sync_issue rt.platform st issue
  fetched_test st (fail e) = true

  unfoldable pub tracked_test :
      (Text → Outcome Issue) → IncrementalSyncOptions → State → Text → Option IssueState → Bool
  tracked_test issue_at o st key none = o.include_new
  tracked_test issue_at o st key (some i) =
      if o.include_modified then fetched_test st (issue_at key) else false

  abbrev pub is_taken : (Text → Outcome Issue) → IncrementalSyncOptions → State → Text → Bool
  is_taken issue_at o st key = tracked_test issue_at o st key (get_issue_state st key)

  -- What is taken of an issue that was fetched does not depend on the late checks.
  take_fetched_test :
      (o : IncrementalSyncOptions) (st : State) (i : IssueState) (r : Outcome Issue) (e : Env W)
      → (take_fetched rt o st i r e).0 ≡ fetched_test st r
  unfolding take_fetched fetched_test
  take_fetched_test o st i (fail m) e = refl
  take_fetched_test o st i (ok issue) e = refl

  module _ (issue_at : Text → Outcome Issue)
      (answers : (key : Text) (w : W) → (rt.services.get_issue key w).0 ≡ issue_at key) where
    take_tracked_test :
        (o : IncrementalSyncOptions) (st : State) (key : Text) (i : IssueState) (b : Bool)
        (e : Env W)
        → (take_tracked rt o st key i b e).0 ≡ (if b then fetched_test st (issue_at key) else false)
    unfolding take_tracked
    take_tracked_test o st key i true e =
        take_fetched_test o st i (rt.services.get_issue key e.world).0 _
        ∙ ap (fetched_test st) (answers key e.world)
    take_tracked_test o st key i false e = refl

    take_issue_test :
        (o : IncrementalSyncOptions) (st : State) (key : Text) (found : Option IssueState)
        (e : Env W)
        → (take_issue rt o st key found e).0 ≡ tracked_test issue_at o st key found
    unfolding take_issue tracked_test
    take_issue_test o st key none e = refl
    take_issue_test o st key (some i) e = take_tracked_test o st key i o.include_modified e

    take_issues-select :
        (o : IncrementalSyncOptions) (st : State) (keys : List Text) (e : Env W)
        → (take_issues rt o st keys e).0 ≡ select (is_taken issue_at o st) keys
    unfolding take_issues
    take_issues-select o st [] e = refl
    take_issues-select o st (key ∷ keys) e =
        rw
          (
            take_issue_test o st key (get_issue_state st key) e,
            take_issues-select o st keys (take_issue rt o st key (get_issue_state st key) e).1,
          )
          refl

    chosen-select :
        (b : Bool) (o : IncrementalSyncOptions) (st : State) (keys : List Text) (e : Env W)
        → ((if b then pure keys else take_issues rt o st keys) e).0
          ≡ (if b then keys else select (is_taken issue_at o st) keys)
    chosen-select true o st keys e = refl
    chosen-select false o st keys e = take_issues-select o st keys e

    -- If what GetIssue answers depends on the key only, while these issues are chosen, then
    -- filterIssuesForIncremental returns all keys under `Force`, else those that pass the test, in the
    -- order given. What GetIssue and the clock do to the world is open.
    pub filter_selects :
        (o : IncrementalSyncOptions) (st : State) (keys : List Text) (e : Env W)
        → (filter_issues_for_incremental rt o st keys e).0
          ≡ (if o.force then keys else select (is_taken issue_at o st) keys)
    unfolding filter_issues_for_incremental
    filter_selects o st keys e = chosen-select o.force o st keys e

  module _ (clock : (w : W) → (rt.services.now w).1 ≡ w) where
    is_too_old_env : (max_age : ℕ) (i : IssueState) (e : Env W) → (is_too_old rt max_age i e).1 ≡ e
    unfolding is_too_old
    is_too_old_env max_age i e = elim (Bool-cases (slt 0 max_age)) [
      | inl h ↦ rw (h, is_too_old) (ap (λ w. record e { world = w }) (clock e.world))
      | inr h ↦ rw (h, is_too_old)
    ]

    late_checks_env :
        (o : IncrementalSyncOptions) (i : IssueState) (e : Env W) → (late_checks rt o i e).1 ≡ e
    unfolding late_checks
    late_checks_env o i e = is_too_old_env o.max_age i e

    take_fetched_eq :
        (o : IncrementalSyncOptions) (st : State) (i : IssueState) (r : Outcome Issue) (e : Env W)
        → take_fetched rt o st i r e ≡ (fetched_test st r, e)
    unfolding take_fetched fetched_test
    take_fetched_eq o st i (fail m) e = refl
    take_fetched_eq o st i (ok issue) e =
        ap (λ e'. (should_sync_issue rt.platform st issue, e')) (late_checks_env o i e)

    module _ (o o' : IncrementalSyncOptions) (st : State) where
      take_tracked_same :
          (key : Text) (i : IssueState) (b : Bool) (e : Env W)
          → take_tracked rt o st key i b e ≡ take_tracked rt o' st key i b e
      unfolding take_tracked
      take_tracked_same key i true e =
          take_fetched_eq o st i (rt.services.get_issue key e.world).0 _
          ∙ sym (take_fetched_eq o' st i (rt.services.get_issue key e.world).0 _)
      take_tracked_same key i false e =
          ap (λ e'. (false, e')) (late_checks_env o i e ∙ sym (late_checks_env o' i e))

      module _ (new : o.include_new ≡ o'.include_new)
          (modified : o.include_modified ≡ o'.include_modified) where
        take_issue_same :
            (key : Text) (found : Option IssueState) (e : Env W)
            → take_issue rt o st key found e ≡ take_issue rt o' st key found e
        unfolding take_issue
        take_issue_same key none e = ap (λ b. (b, e)) new
        take_issue_same key (some i) e =
            take_tracked_same key i o.include_modified e
            ∙ ap (λ b. take_tracked rt o' st key i b e) modified

        take_issues_same : (keys : List Text) → take_issues rt o st keys ≡ take_issues rt o' st keys
        unfolding take_issues
        take_issues_same [] = refl
        take_issues_same (key ∷ keys) =
            rw (fun_ext (take_issue_same key (get_issue_state st key)), take_issues_same keys) refl

    -- If reading the clock does not change the world, two sets of options that agree on `Force`,
    -- `IncludeNew` and `IncludeModified` take the same issues and leave the same world, whatever GetIssue
    -- does: `Since`, `MaxAge` and `Projects` have no effect.
    pub filter_ignores :
        (o o' : IncrementalSyncOptions) (st : State) (keys : List Text) (e : Env W)
        → o.force ≡ o'.force
        → o.include_new ≡ o'.include_new
        → o.include_modified ≡ o'.include_modified
        → filter_issues_for_incremental rt o st keys e
          ≡ filter_issues_for_incremental rt o' st keys e
    unfolding filter_issues_for_incremental
    filter_ignores o o' st keys e f n m =
        ap (λ b. (if b then pure keys else take_issues rt o st keys) e) f
        ∙ ap (λ taken. (if o'.force then pure keys else taken) e)
            (take_issues_same o o' st n m keys)
