-- ===== src/State/Issues/Candidates.antt =====
-- pkg/state/manager.go: which keys `GetChangedIssues` returns.
use jira_cdc_git.Prelude.{
  ℕ, ltb→lt, not, is_zero_time, length, ◌||◌, ◌≡◌, refl, Bool, true, false, ◌&&◌, Option, none,
  some, List, [], ◌∷◌, arith, ltb, ◌<◌, ◌↔◌, ◌⊎◌, any, slt, sub_time, if◌then◌else◌, inl, inr,
}
use jira_cdc_git.Prelude.Text.{Text, text_eq, text_eq_refl, text_eq_iff}
use jira_cdc_git.Prelude.Assoc.{Assoc, lookup, HasUniqueKeys}
use jira_cdc_git.Prelude.Sorting.{contains}
use jira_cdc_git.State.Types.{IssueState, IncrementalSyncOptions, State}
use jira_cdc_git.State.Heap.{Heap}
use jira_cdc_git.State.Issues.{changed_keys, is_changed, since_time, get_changed_issues}

abbrev pub passes : (IssueState → Bool) → Option IssueState → Bool
passes test none = false
passes test (some i) = test i

-- The keys are those whose entry passes the test.
pub contains-changed_keys :
    (test : IssueState → Bool) (k : Text) (m : Assoc IssueState)
    → HasUniqueKeys m
    → contains k (changed_keys test m) ≡ passes test (lookup k m)
unfolding changed_keys lookup
contains-changed_keys test k [] h = refl
contains-changed_keys test k ((j, i) ∷ m) h =
    ground (arith, contains-changed_keys test k m h.1, text_eq_iff j k)

-- No key passes if no entry that the map holds does.
pub changed_keys-nil :
    (test : IssueState → Bool) (m : Assoc IssueState)
    → HasUniqueKeys m
    → ((k : Text) (i : IssueState) → lookup k m ≡ some i → test i ≡ false)
    → changed_keys test m ≡ []
unfolding changed_keys lookup
changed_keys-nil test [] h all = refl
changed_keys-nil test ((j, i) ∷ m) h all =
    let first : test i ≡ false = all j i (rw (text_eq_refl j) refl) in
    rw first (changed_keys-nil test m h.1 (λ k e found. all k e (ground (arith, text_eq_iff j k))))

-- What makes a tracked issue a candidate: it changed after the time, or was never synced, as far as
-- the options ask for these; it is of one of the projects, if any are given; it is not too old.
pub record IsCandidate (now since : ℕ) (o : IncrementalSyncOptions) (i : IssueState) : Type 0 where
  pub asked :
      ((o.include_modified ≡ true) × (since < i.last_updated))
      ⊎ ((o.include_new ≡ true) × (i.last_synced ≡ 0))
  pub in_project :
      (o.projects ≡ []) ⊎ (any (λ project. text_eq i.project_key project) o.projects ≡ true)
  pub recent : ¬ ((slt 0 o.max_age ≡ true) × (slt o.max_age (sub_time now i.last_updated) ≡ true))

and_iff : (a b : Bool) → ((a && b) ≡ true) ↔ ((a ≡ true) × (b ≡ true))
and_iff true b = (λ h. (refl, h), λ h. h.1)
and_iff false b = (λ h. cc, λ h. h.0)

asked_iff :
    (a b c d : Bool)
    → ((a && b || c && d) ≡ true) ↔ (((a ≡ true) × (b ≡ true)) ⊎ ((c ≡ true) × (d ≡ true)))
asked_iff a b c d = ground arith

not_both_iff : (a b : Bool) → (not (a && b) ≡ true) ↔ (¬ ((a ≡ true) × (b ≡ true)))
not_both_iff true true = (λ h. cc, λ h. absurd (h (refl, refl)))
not_both_iff true false = (λ h k. cc (k.1), λ h. refl)
not_both_iff false b = (λ h k. cc (k.0), λ h. refl)

in_project_iff :
    (test : Text → Bool) (projects : List Text)
    → ((if ltb 0 (length projects) then any test projects else true) ≡ true)
      ↔ ((projects ≡ []) ⊎ (any test projects ≡ true))
in_project_iff test [] = (λ h. inl refl, λ h. refl)
in_project_iff test (x ∷ xs) = (λ h. inr (ground arith), λ h. ground arith)

is_changed_iff :
    (now since : ℕ) (o : IncrementalSyncOptions) (i : IssueState)
    → (is_changed now since o i ≡ true) ↔ IsCandidate now since o i
unfolding is_changed
is_changed_iff now since o i =
    let asked_test : Bool =
      o.include_modified && ltb since i.last_updated
      || o.include_new && is_zero_time i.last_synced in
    let project_test : Bool =
      if ltb 0 (length o.projects)
      then any (λ project. text_eq i.project_key project) o.projects
      else true in
    let old_test : Bool = slt 0 o.max_age && slt o.max_age (sub_time now i.last_updated) in
    let rest_test : Bool = project_test && not old_test in
    (
      λ h.
          let (asked, rest) = (and_iff asked_test rest_test).0 h in
          let (ours, young) = (and_iff project_test (not old_test)).0 rest in
          record {
            asked =
                elim ((asked_iff o.include_modified (ltb since i.last_updated) o.include_new
                    (is_zero_time i.last_synced)).0
                  asked) [ inl x ↦ inl (x.0, ltb→lt _ _ x.1) | inr x ↦ inr (x.0, ground arith) ];
            in_project =
                (in_project_iff (λ project. text_eq i.project_key project) o.projects).0 ours;
            recent =
                (not_both_iff (slt 0 o.max_age) (slt o.max_age (sub_time now i.last_updated))).0
                  young;
          },
      λ h. (and_iff asked_test rest_test).1 (
        (asked_iff o.include_modified (ltb since i.last_updated) o.include_new
              (is_zero_time i.last_synced)).1
            (elim h.asked [ inl x ↦ inl (x.0, ground arith) | inr x ↦ inr (x.0, ground arith) ]),
        (and_iff project_test (not old_test)).1 (
          (in_project_iff (λ project. text_eq i.project_key project) o.projects).1 h.in_project,
          (not_both_iff (slt 0 o.max_age) (slt o.max_age (sub_time now i.last_updated))).1 h.recent,
        ),
      ),
    )

passes_iff :
    (test : IssueState → Bool) (o : Option IssueState)
    → (passes test o ≡ true) ↔ ((i : IssueState) × (o ≡ some i) × (test i ≡ true))
passes_iff test none = (λ h. cc, λ h. cc (h.1))
passes_iff test (some i) = (λ h. (i, refl, h), λ h. ground (arith, h.1, h.2))

module _ (test : IssueState → Bool) (P : IssueState → Type 0)
    (test_iff : (i : IssueState) → (test i ≡ true) ↔ P i) (k : Text) (m : Assoc IssueState)
    (u : HasUniqueKeys m) where
  candidates_iff :
      (force : Bool)
      → (contains k (if force then changed_keys (λ i. true) m else changed_keys test m) ≡ true)
        ↔ ((i : IssueState) × (lookup k m ≡ some i) × ((force ≡ true) ⊎ ((force ≡ false) × P i)))
  candidates_iff true = rw (contains-changed_keys (λ i. true) k m u) (
    λ q. let (i, found, _) = (passes_iff (λ i. true) (lookup k m)).0 q in (i, found, inl refl),
    λ q. (passes_iff (λ i. true) (lookup k m)).1 (q.0, q.1, refl),
  )
  candidates_iff false = rw (contains-changed_keys test k m u) (
    λ q.
        let (i, found, pass) = (passes_iff test (lookup k m)).0 q in
        (i, found, inr (refl, (test_iff i).0 pass)),
    λ q.
        (passes_iff test (lookup k m)).1
          (q.0, q.1, (test_iff q.0).1 (elim q.2 [ inl e ↦ absurd (cc) | inr c ↦ c.1 ])),
  )

-- Without `Force` a key is returned exactly if it is tracked and its issue is a candidate, against
-- the time that the options give or that of the last completed sync; under `Force` exactly if it is
-- tracked.
pub contains-get_changed_issues :
    (now : IssueState → ℕ) (h : Heap) (s : State) (o : IncrementalSyncOptions) (k : Text)
    → HasUniqueKeys s.issues
    → (contains k (get_changed_issues now h s o) ≡ true) ↔ (
        (i : IssueState) × (lookup k s.issues ≡ some i)
        × ((o.force ≡ true) ⊎ ((o.force ≡ false) × IsCandidate (now i) (since_time h s o) o i)))
unfolding get_changed_issues
contains-get_changed_issues now h s o k u =
    candidates_iff (λ i. is_changed (now i) (since_time h s o) o i)
      (λ i. IsCandidate (now i) (since_time h s o) o i)
      (λ i. is_changed_iff (now i) (since_time h s o) o i) k s.issues u o.force
