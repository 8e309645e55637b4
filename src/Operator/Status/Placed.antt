-- ===== src/Operator/Status/Placed.antt =====
-- internal/operator/controllers/status_manager.go: where setCondition puts a condition.
use jira_cdc_git.Prelude.{
  ℕ, ◌≡◌, refl, Option, none, some, List, [], ◌∷◌, inl, inr, ◌&&◌, arith, if◌then◌else◌, Bool-cases,
}
use jira_cdc_git.Prelude.Text.{Text, text_eq, text_eq_iff}
use jira_cdc_git.Operator.Types.{Condition}
use jira_cdc_git.Operator.Cluster.{Cluster}
use jira_cdc_git.Operator.Status.{stamped, set_condition}

-- The first condition of a type.
abbrev pub condition_of : Text → List Condition → Option Condition
condition_of type [] = none
condition_of type (c ∷ cs) = if text_eq c.type type then some c else condition_of type cs

-- Each type stands at most once.
abbrev pub HasUniqueTypes : List Condition → Type 0
HasUniqueTypes [] = Unit
HasUniqueTypes (c ∷ cs) = (condition_of c.type cs ≡ none) × HasUniqueTypes cs

-- When a condition came to its status: as before if status and reason are the old ones, else now.
abbrev pub transition_time : Option Condition → Condition → ℕ → ℕ
transition_time none n now = now
transition_time (some c) n now =
    if text_eq c.status n.status && text_eq c.reason n.reason then c.last_transition_time else now

module _ {F W : Type 0} (k : Cluster F W) where
  pub condition_of-set_condition :
      (type : Text) (n : Condition) (cs : List Condition) (w : W)
      → condition_of type (set_condition k n cs w).0 ≡ (
          if text_eq n.type type
          then some (stamped (transition_time (condition_of n.type cs) n (k.now w).0) n)
          else condition_of type cs)
  unfolding set_condition
  condition_of-set_condition type n [] w = refl
  condition_of-set_condition type n (c ∷ cs) w = ground (
    arith,
    text_eq_iff c.type n.type,
    text_eq_iff n.type type,
    text_eq_iff c.type type,
    condition_of-set_condition type n cs w,
  )

  pub set_condition-HasUniqueTypes :
      (n : Condition) (cs : List Condition) (w : W)
      → HasUniqueTypes cs
      → HasUniqueTypes (set_condition k n cs w).0
  unfolding set_condition
  set_condition-HasUniqueTypes n [] w h = (refl, tt)
  set_condition-HasUniqueTypes n (c ∷ cs) w h = elim (Bool-cases (text_eq c.type n.type)) [
    | inl e ↦ elim (Bool-cases (text_eq c.status n.status && text_eq c.reason n.reason)) [
      | inl f ↦ rw (e, f) (ground (arith, text_eq_iff c.type n.type, h.0), h.1)
      | inr f ↦ rw (e, f) (ground (arith, text_eq_iff c.type n.type, h.0), h.1)
    ]
    | inr e ↦ rw e (
      ground (
        arith,
        condition_of-set_condition c.type n cs w,
        text_eq_iff n.type c.type,
        text_eq_iff c.type n.type,
        h.0,
      ),
      set_condition-HasUniqueTypes n cs w h.1,
    )
  ]
