-- ===== src/Operator/Spec.antt =====
-- internal/operator/controllers/jirasync_controller.go: the checks of a specification, and the
-- arguments of a Kubernetes Job for it.
pub mod Convertible
use jira_cdc_git.Prelude.{Bool, Option, none, some, List, [], ◌∷◌, ◌++◌, ◌&&◌, ◌||◌, if◌then◌else◌}
use jira_cdc_git.Prelude.Text.{Text, codes, text_eq}
use jira_cdc_git.Operator.Types.{SyncTarget, JiraSyncSpec}

abbrev pub is_empty : {A : Type 0} → List A → Bool
is_empty [] = Bool.true
is_empty (x ∷ xs) = Bool.false

-- The error for a target, by the type of sync.
unfoldable pub validate_target : Text → SyncTarget → Option Text
validate_target type t =
    if text_eq type (codes "single") || text_eq type (codes "batch")
    then (if is_empty t.issue_keys
        then some (codes "issueKeys required for " ++ (type ++ codes " sync type"))
        else none)
    else if text_eq type (codes "jql")
    then (if text_eq t.jql_query []
        then some (codes "jqlQuery required for jql sync type")
        else none)
    else if text_eq type (codes "incremental")
    then (if text_eq t.project_key [] && text_eq t.jql_query []
        then some (codes "projectKey or jqlQuery required for incremental sync type")
        else none)
    else some (codes "invalid syncType: " ++ type)

module _ {F : Type 0} where
  unfoldable pub validate_sync_spec : JiraSyncSpec F → Option Text
  unfolding validate_target
  validate_sync_spec s =
      if text_eq s.sync_type []
      then some (codes "syncType is required")
      else if text_eq s.destination.repository []
      then some (codes "destination repository is required")
      else validate_target s.sync_type s.target

-- `print_keys` is `fmt.Sprintf("%v")` of the keys.
module _ (print_keys : List Text → Text) where
  unfoldable pub target_args : Text → SyncTarget → List Text
  target_args type t =
      if text_eq type (codes "single") || text_eq type (codes "batch")
      then (if is_empty t.issue_keys then [] else codes "--issues" ∷ print_keys t.issue_keys ∷ [])
      else if text_eq type (codes "jql")
      then (if text_eq t.jql_query [] then [] else codes "--jql" ∷ t.jql_query ∷ [])
      else if text_eq type (codes "incremental")
      then (codes "--incremental"
          ∷ (if text_eq t.project_key [] then [] else codes "--project" ∷ t.project_key ∷ []))
      else []

  unfoldable pub build_sync_args : {F : Type 0} → JiraSyncSpec F → List Text
  unfolding target_args
  build_sync_args s =
      codes "sync"
      ∷ (target_args s.sync_type s.target
          ++ ((codes "--repo" ∷ s.destination.repository ∷ [])
              ++ (if text_eq s.destination.branch []
                  then []
                  else codes "--branch" ∷ s.destination.branch ∷ [])))
