-- ===== src/Operator/Network.antt =====
-- What internal/operator/apiclient/client.go calls of other packages: HTTP, JSON, and the clock.
use jira_cdc_git.Prelude.{ℕ, Option}
use jira_cdc_git.Prelude.Text.{Text}
use jira_cdc_git.Prelude.Assoc.{Assoc}
use jira_cdc_git.Sync.Services.{Outcome}
use jira_cdc_git.Operator.Api.{ApiRequest, SyncJobResponse, JobStatusResponse, ApiError, Envelope}

-- An `http.Request`; Set also writes a header's name in its canonical case.
pub record HttpRequest : Type 0 where
  pub method : Text
  pub url : Text
  pub headers : Assoc Text
  pub body : Option Text

-- An `http.Response`; `body` is what reading it yields.
pub record HttpResponse : Type 0 where
  pub status_code : ℕ
  pub body : Outcome Text

-- The packages net/http, net/url, encoding/json, fmt and time. `W` is the state of the world.
pub record Network (W : Type 0) : Type 0 where
  pub now : W → ℕ × W
  -- `httpClient.Do(req)`
  pub perform : HttpRequest → W → Outcome HttpResponse × W
  -- `json.Marshal`
  pub marshal : ApiRequest → Outcome Text
  -- the error of `http.NewRequestWithContext`, for a method and a URL
  pub request_error : Text → Text → Option Text
  pub path_escape : Text → Text
  -- a number printed by `%d`
  pub print : ℕ → Text
  -- `json.NewDecoder(resp.Body).Decode` into the type of the answer
  pub decode_job : Outcome Text → Outcome (Envelope SyncJobResponse)
  pub decode_status : Outcome Text → Outcome (Envelope JobStatusResponse)
  -- `json.Unmarshal` of the body of an error
  pub unmarshal_error : Text → Outcome (Option ApiError)
