-- ===== src/Operator/Phase/Consistent.antt =====
-- internal/operator/controllers: the phases that the reconciler sets, against ValidateStatus.
use jira_cdc_git.Prelude.{ℕ, ◌≡◌, true, false, not, ◌&&◌, List, [], ◌∷◌, if◌then◌else◌, arith}
use jira_cdc_git.Prelude.Text.{Text, codes, text_eq, text_eq_iff}
use jira_cdc_git.Operator.Types.{Condition, JiraSync}
use jira_cdc_git.Operator.Status.{has_condition, phase_issues}
use jira_cdc_git.Operator.Phase.{set_condition, phase_condition, in_phase}

-- A condition that is set is there.
has_condition-set_condition :
    (n : Condition) (cs : List Condition)
    → has_condition n.type n.status (set_condition n cs) ≡ true
unfolding has_condition set_condition
has_condition-set_condition n [] =
    ground (arith, text_eq_iff n.type n.type, text_eq_iff n.status n.status)
has_condition-set_condition n (c ∷ cs) = ground (
  arith,
  text_eq_iff n.type n.type,
  text_eq_iff n.status n.status,
  has_condition-set_condition n cs,
)

-- Setting a condition leaves those of another type.
has_condition-set_condition_ne :
    (type status : Text) (n : Condition) (cs : List Condition)
    → text_eq n.type type ≡ false
    → has_condition type status (set_condition n cs) ≡ has_condition type status cs
unfolding has_condition set_condition
has_condition-set_condition_ne type status n [] h = ground arith
has_condition-set_condition_ne type status n (c ∷ cs) h =
    ground (arith, text_eq_iff c.type n.type, has_condition-set_condition_ne type status n cs h)

-- A resource that updateStatus puts into a phase passes ValidateStatus's checks of the phase, but for
-- the phase Failed with no Failed condition that is True, which updateStatus does not set.
pub phase_issues-in_phase :
    {F : Type 0} (phase message : Text) (now : ℕ) (o : JiraSync F)
    → phase_issues (in_phase phase message now o).status ≡ (
        if text_eq phase (codes "Failed")
          && not (has_condition (codes "Failed") (codes "True") o.status.conditions)
        then codes "Phase is Failed but Failed condition is not True" ∷ []
        else [])
unfolding phase_issues in_phase phase_condition
phase_issues-in_phase phase message now o =
    let n = phase_condition phase message now in
    ground (
      arith,
      has_condition-set_condition n o.status.conditions,
      has_condition-set_condition_ne (codes "Failed") (codes "True") n o.status.conditions,
      text_eq_iff (codes "Ready") (codes "Failed"),
      text_eq_iff phase (codes "Completed"),
      text_eq_iff phase (codes "Failed"),
    )
