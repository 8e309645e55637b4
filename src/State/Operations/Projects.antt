-- ===== src/State/Operations/Projects.antt =====
-- pkg/state/manager.go: the active projects of the statistics are those of the issues.
use jira_cdc_git.Prelude.{◌≡◌, refl, ◌∙◌, Bool, [], ◌∷◌, arith, any, Bool-cases, inl, inr}
use jira_cdc_git.Prelude.Text.{Text, text_eq, text_eq_iff}
use jira_cdc_git.Prelude.Assoc.{Assoc}
use jira_cdc_git.Prelude.Sorting.{
  IsSorted, sort_texts-IsSorted, contains, contains-sort_texts, HasNoRepeats,
  sort_texts-HasNoRepeats,
}
use jira_cdc_git.State.Types.{IssueState, SyncOperation, State}
use jira_cdc_git.State.Operations.{project_keys, update_statistics}

-- Does an issue belong to the project?
abbrev pub has_project : Text → Assoc IssueState → Bool
has_project x = any (λ (e : Text × IssueState). text_eq e.1.project_key x)

contains-project_keys :
    (x : Text) (m : Assoc IssueState) → contains x (project_keys m) ≡ has_project x m
unfolding project_keys
contains-project_keys x [] = refl
contains-project_keys x ((k, i) ∷ m) = elim (Bool-cases (contains i.project_key (project_keys m))) [
  | inl old ↦ rw old (ground (arith, contains-project_keys x m, text_eq_iff i.project_key x))
  | inr new ↦ rw new (ground (arith, contains-project_keys x m))
]

project_keys-HasNoRepeats : (m : Assoc IssueState) → HasNoRepeats (project_keys m)
unfolding project_keys
project_keys-HasNoRepeats [] = tt
project_keys-HasNoRepeats ((k, i) ∷ m) =
    elim (Bool-cases (contains i.project_key (project_keys m))) [
      | inl old ↦ rw old (project_keys-HasNoRepeats m)
      | inr new ↦ rw new (new, project_keys-HasNoRepeats m)
    ]

-- After the statistics are updated the active projects are sorted, without repetition, and exactly
-- the projects of the tracked issues.
pub active_projects-update_statistics :
    (s : State) (op : SyncOperation)
    → let active = (update_statistics s op).stats.active_projects in
      IsSorted active
      × HasNoRepeats active
      × ((x : Text) → contains x active ≡ has_project x s.issues)
unfolding update_statistics
active_projects-update_statistics s op = (
  sort_texts-IsSorted (project_keys s.issues),
  sort_texts-HasNoRepeats (project_keys s.issues) (project_keys-HasNoRepeats s.issues),
  λ x. contains-sort_texts x (project_keys s.issues) ∙ contains-project_keys x s.issues,
)
