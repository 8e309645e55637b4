-- ===== src/Operator/Api.antt =====
-- internal/operator/apiclient/client.go: what the client sends and receives, and
-- ConvertJIRASyncToAPIRequest.
use jira_cdc_git.Prelude.{ℕ, Bool, false, Option, List, [], ◌∷◌, ◌++◌, if◌then◌else◌}
use jira_cdc_git.Prelude.Text.{Text, codes, text_eq}
use jira_cdc_git.Prelude.Assoc.{Assoc}
use jira_cdc_git.Sync.Services.{Outcome, ok, fail}
use jira_cdc_git.Operator.Types.{GitDestination, JiraSyncSpec}

pub record SingleSyncRequest : Type 0 where
  pub issue_key : Text
  pub repository : Text
  pub branch : Text
  pub dry_run : Bool

pub record BatchSyncRequest : Type 0 where
  pub issue_keys : List Text
  pub repository : Text
  pub branch : Text
  pub parallelism : ℕ
  pub dry_run : Bool

pub record JqlSyncRequest : Type 0 where
  pub jql_query : Text
  pub repository : Text
  pub branch : Text
  pub dry_run : Bool

pub record SyncJobResponse : Type 0 where
  pub success : Bool
  pub job_id : Text
  pub message : Text

pub record JobStatusResponse : Type 0 where
  pub job_id : Text
  pub status : Text
  pub progress : ℕ
  pub message : Text
  pub start_time : Option ℕ
  pub end_time : Option ℕ
  pub results : Option (Assoc Text)

pub record ApiError : Type 0 where
  pub code : Text
  pub message : Text
  pub details : Text

-- What a response holds: data of a type, or an error.
pub record Envelope (A : Type 0) : Type 0 where
  pub success : Bool
  pub payload : Option A
  pub error : Option ApiError

-- The message of an error of the API server.
unfoldable pub error_text : ApiError → Text
error_text e =
    let text = codes "API error " ++ (e.code ++ (codes ": " ++ e.message)) in
    if text_eq e.details [] then text else text ++ (codes " (" ++ (e.details ++ codes ")"))

-- The `interface{}` and the name of its type that the conversion returns.
pub data ApiRequest : Type 0 where
  single : SingleSyncRequest → ApiRequest
  batch : BatchSyncRequest → ApiRequest
  jql : JqlSyncRequest → ApiRequest

unfoldable pub single_request : List Text → GitDestination → Outcome ApiRequest
single_request [] d = fail (codes "single sync requires at least one issue key")
single_request (k ∷ ks) d = ok (
    single
      (record { issue_key = k; repository = d.repository; branch = d.branch; dry_run = false }))

unfoldable pub batch_request : List Text → GitDestination → Outcome ApiRequest
batch_request [] d = fail (codes "batch sync requires at least one issue key")
batch_request (k ∷ ks) d = ok (
    batch (record {
      issue_keys = k ∷ ks;
      repository = d.repository;
      branch = d.branch;
      parallelism = 1;
      dry_run = false;
    }))

unfoldable pub jql_request : Text → GitDestination → Outcome ApiRequest
jql_request q d =
    if text_eq q []
    then fail (codes "JQL sync requires a JQL query")
    else ok (
        jql
          (record { jql_query = q; repository = d.repository; branch = d.branch; dry_run = false }))

module _ {F : Type 0} where
  unfoldable pub convert_jira_sync_to_api_request : JiraSyncSpec F → Outcome ApiRequest
  convert_jira_sync_to_api_request s =
      if text_eq s.sync_type (codes "single")
      then single_request s.target.issue_keys s.destination
      else if text_eq s.sync_type (codes "batch")
      then batch_request s.target.issue_keys s.destination
      else if text_eq s.sync_type (codes "jql")
      then jql_request s.target.jql_query s.destination
      else if text_eq s.sync_type (codes "incremental")
      then jql_request s.target.jql_query s.destination
      else fail (codes "unsupported sync type: " ++ s.sync_type)
