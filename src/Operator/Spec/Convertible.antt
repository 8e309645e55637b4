-- ===== src/Operator/Spec/Convertible.antt =====
-- internal/operator: the specifications that validateSyncSpec takes, against those that
-- ConvertJIRASyncToAPIRequest (apiclient/client.go) can convert.
use jira_cdc_git.Prelude.{
  ◌≡◌, refl, Bool, true, false, Option, none, some, List, [], ◌∷◌, not, ◌&&◌, ◌||◌, arith,
}
use jira_cdc_git.Prelude.Text.{Text, codes, text_eq, text_eq_iff}
use jira_cdc_git.Sync.Services.{Outcome, ok, fail}
use jira_cdc_git.Operator.Types.{GitDestination, JiraSyncSpec}
use jira_cdc_git.Operator.Api.{
  single_request, batch_request, jql_request, convert_jira_sync_to_api_request,
}
use jira_cdc_git.Operator.Spec.{is_empty, validate_target, validate_sync_spec}

abbrev pub is_ok {ℓ} : {A : Type ℓ} → Outcome A → Bool
is_ok (ok a) = true
is_ok (fail e) = false

abbrev pub is_none {ℓ} : {A : Type ℓ} → Option A → Bool
is_none none = true
is_none (some a) = false

single_request-ok :
    (ks : List Text) (d : GitDestination) → is_ok (single_request ks d) ≡ not (is_empty ks)
unfolding single_request
single_request-ok [] d = refl
single_request-ok (k ∷ ks) d = refl

batch_request-ok :
    (ks : List Text) (d : GitDestination) → is_ok (batch_request ks d) ≡ not (is_empty ks)
unfolding batch_request
batch_request-ok [] d = refl
batch_request-ok (k ∷ ks) d = refl

jql_request-ok : (q : Text) (d : GitDestination) → is_ok (jql_request q d) ≡ not (text_eq q [])
unfolding jql_request
jql_request-ok q d = ground arith

-- An incremental sync of a project, without a query.
abbrev pub is_project_sync : {F : Type 0} → JiraSyncSpec F → Bool
is_project_sync s =
    text_eq s.sync_type (codes "incremental")
    && (text_eq s.target.jql_query [] && not (text_eq s.target.project_key []))

-- A specification passes validateSyncSpec exactly if it names a repository, and either can be
-- converted to a request or is an incremental sync with a project and no query, which cannot.
pub validate_sync_spec-convert :
    {F : Type 0} (s : JiraSyncSpec F)
    → is_none (validate_sync_spec s) ≡ (
        not (text_eq s.destination.repository [])
        && (is_ok (convert_jira_sync_to_api_request s) || is_project_sync s))
unfolding validate_sync_spec validate_target convert_jira_sync_to_api_request
validate_sync_spec-convert s = ground (
  arith,
  single_request-ok s.target.issue_keys s.destination,
  batch_request-ok s.target.issue_keys s.destination,
  jql_request-ok s.target.jql_query s.destination,
  text_eq_iff s.sync_type [],
  text_eq_iff s.sync_type (codes "single"),
  text_eq_iff s.sync_type (codes "batch"),
  text_eq_iff s.sync_type (codes "jql"),
  text_eq_iff s.sync_type (codes "incremental"),
)

-- A project sync is refused by the conversion.
pub convert-project_sync :
    {F : Type 0} (s : JiraSyncSpec F)
    → is_project_sync s ≡ true
    → is_ok (convert_jira_sync_to_api_request s) ≡ false
unfolding convert_jira_sync_to_api_request
convert-project_sync s h = ground (
  arith,
  jql_request-ok s.target.jql_query s.destination,
  text_eq_iff s.sync_type (codes "single"),
  text_eq_iff s.sync_type (codes "batch"),
  text_eq_iff s.sync_type (codes "jql"),
  text_eq_iff s.sync_type (codes "incremental"),
)
