-- ===== src/Operator/Client.antt =====
-- internal/operator/apiclient/client.go: the requests of the client. Its state is the circuit
-- breaker, which the clients that WithHost makes share.
pub mod Refinement
use jira_cdc_git.Prelude.{
  ℕ, Bool, true, false, Option, none, some, List, [], ◌++◌, ◌∷◌, not, ◌||◌, ◌==◌, leb,
  if◌then◌else◌,
}
use jira_cdc_git.Prelude.Text.{Text, codes, text_eq}
use jira_cdc_git.Prelude.Assoc.{Assoc, insert}
use jira_cdc_git.Sync.Services.{Outcome, ok, fail}
use jira_cdc_git.Operator.Breaker.{
  CircuitState, closed, open_circuit, half_open, CircuitBreaker, check_circuit_breaker,
  record_failure, record_success, reset_open,
}
use jira_cdc_git.Operator.Api.{
  ApiRequest, single, batch, jql, SyncJobResponse, JobStatusResponse, ApiError, Envelope,
  error_text,
}
pub use jira_cdc_git.Operator.Network.{HttpRequest, HttpResponse, Network}

pub record Client : Type 0 where
  pub base_url : Text
  pub auth_token : Text
  pub auth_type : Text

unfoldable pub with_host : Text → Client → Client
with_host host c = record c { base_url = host }

unfoldable pub add_authentication : Client → Assoc Text → Assoc Text
add_authentication c h =
    if text_eq c.auth_token []
    then h
    else if text_eq c.auth_type (codes "bearer")
    then insert (codes "Authorization") (codes "Bearer " ++ c.auth_token) h
    else if text_eq c.auth_type (codes "api-key")
    then insert (codes "X-API-Key") c.auth_token h
    else if text_eq c.auth_type (codes "basic")
    then insert (codes "Authorization") (codes "Basic " ++ c.auth_token) h
    else insert (codes "Authorization") (codes "Bearer " ++ c.auth_token) h

unfoldable pub base_headers : Client → Bool → Assoc Text
base_headers c has_body =
    let h : Assoc Text =
      if has_body then insert (codes "Content-Type") (codes "application/json") [] else [] in
    add_authentication c (
      insert (codes "User-Agent") (codes "jira-sync-operator/v0.4.1")
        (insert (codes "Accept") (codes "application/json") h))

abbrev pub failed_answer : {A : Type 0} → Option ApiError → Outcome A
failed_answer (some e) = fail (error_text e)
failed_answer none = fail (codes "API request failed")

-- The job of a response; without data it has no ID.
unfoldable pub job_of : Bool → Option SyncJobResponse → Option ApiError → Outcome SyncJobResponse
job_of false d e = failed_answer e
job_of true (some d) e = ok d
job_of true none e =
    ok (record { success = true; job_id = []; message = codes "Request processed successfully" })

unfoldable pub decoded_job : Outcome (Envelope SyncJobResponse) → Outcome SyncJobResponse
unfolding job_of
decoded_job (ok v) = job_of v.success v.payload v.error
decoded_job (fail e) = fail (codes "failed to decode response: " ++ e)

unfoldable pub status_of :
    Bool → Option JobStatusResponse → Option ApiError → Outcome JobStatusResponse
status_of true (some d) e = ok d
status_of true none e = failed_answer e
status_of false d e = failed_answer e

unfoldable pub decoded_status : Outcome (Envelope JobStatusResponse) → Outcome JobStatusResponse
unfolding status_of
decoded_status (ok v) = status_of v.success v.payload v.error
decoded_status (fail e) = fail (codes "failed to decode response: " ++ e)

-- TriggerSingleSync, TriggerBatchSync and TriggerJQLSync.
abbrev pub endpoint_of : ApiRequest → Text
endpoint_of (single r) = codes "/api/v1/sync/single"
endpoint_of (batch r) = codes "/api/v1/sync/batch"
endpoint_of (jql r) = codes "/api/v1/sync/jql"

abbrev pub reset_if_ok : Outcome (Unit {0}) → CircuitBreaker → CircuitBreaker
reset_if_ok (ok u) b = reset_open b.state b
reset_if_ok (fail e) b = b

module _ {W : Type 0} (net : Network W) where
  unfoldable pub new_request :
      Text → Option Text → Text → Text → Option Text → Assoc Text → Outcome HttpRequest
  new_request p (some e) method url body h = fail (p ++ e)
  new_request p none method url body h =
      ok (record { method = method; url = url; headers = h; body = body })

  -- The request, once its body is written as JSON.
  unfoldable pub request_of : Client → Text → Text → Option (Outcome Text) → Outcome HttpRequest
  unfolding new_request base_headers
  request_of c method endpoint none =
      let url = c.base_url ++ endpoint in
      new_request (codes "failed to create request: ") (net.request_error method url) method url
        none (base_headers c false)
  request_of c method endpoint (some (ok json)) =
      let url = c.base_url ++ endpoint in
      new_request (codes "failed to create request: ") (net.request_error method url) method url
        (some json) (base_headers c true)
  request_of c method endpoint (some (fail e)) =
      fail (codes "failed to marshal request body: " ++ e)

  abbrev pub marshal_body : Option ApiRequest → Option (Outcome Text)
  marshal_body none = none
  marshal_body (some b) = some (net.marshal b)

  unfoldable pub build_request : Client → Text → Text → Option ApiRequest → Outcome HttpRequest
  unfolding request_of
  build_request c method endpoint body = request_of c method endpoint (marshal_body body)

  -- What the answer does to the breaker.
  unfoldable pub settle :
      CircuitBreaker → Outcome HttpResponse × W → Outcome HttpResponse × (CircuitBreaker × W)
  settle b (fail e, w) =
      let t = net.now w in (fail (codes "request failed: " ++ e), (record_failure t.0 b, t.1))
  settle b (ok resp, w) =
      let t = net.now w in
      if leb 500 resp.status_code
      then (ok resp, (record_failure t.0 b, t.1))
      else (ok resp, (record_success b, w))

  unfoldable pub send :
      Outcome HttpRequest → CircuitBreaker → W → Outcome HttpResponse × (CircuitBreaker × W)
  unfolding settle
  send (fail e) b w = (fail e, (b, w))
  send (ok req) b w = settle b (net.perform req w)

  -- The clock is read for an open breaker only.
  unfoldable pub clock_for : CircuitState → W → ℕ × W
  clock_for open_circuit w = net.now w
  clock_for half_open w = (0, w)
  clock_for closed w = (0, w)

  unfoldable pub send_if :
      Bool → Outcome HttpRequest → CircuitBreaker → W → Outcome HttpResponse × (CircuitBreaker × W)
  unfolding send
  send_if true req b w = send req b w
  send_if false req b w = (fail (codes "circuit breaker is open - API requests blocked"), (b, w))

  unfoldable pub make_http_request :
      Client
      → Text
      → Text
      → Option ApiRequest
      → CircuitBreaker
      → W
      → Outcome HttpResponse × (CircuitBreaker × W)
  unfolding clock_for send_if build_request
  make_http_request c method endpoint body b w =
      let t = clock_for b.state w in
      let admitted = check_circuit_breaker t.0 b in
      send_if admitted.0 (build_request c method endpoint body) admitted.1 t.1

  unfoldable pub answer_of_error : HttpResponse → Option ApiError → Text
  answer_of_error resp (some e) = error_text e
  answer_of_error resp none = codes "API request failed with status " ++ net.print resp.status_code

  unfoldable pub error_of_body : HttpResponse → Text → Outcome (Option ApiError) → Text
  unfolding answer_of_error
  error_of_body resp body (ok e) = answer_of_error resp e
  error_of_body resp body (fail e) =
      codes "API request failed with status "
      ++ (net.print resp.status_code ++ (codes ": " ++ body))

  unfoldable pub handle_api_error : HttpResponse → Outcome Text → Text
  unfolding error_of_body
  handle_api_error resp (ok body) = error_of_body resp body (net.unmarshal_error body)
  handle_api_error resp (fail e) =
      codes "API request failed with status "
      ++ (net.print resp.status_code ++ codes " (failed to read error response)")

  unfoldable pub job_response : Outcome HttpResponse → Outcome SyncJobResponse
  unfolding decoded_job handle_api_error
  job_response (fail e) = fail e
  job_response (ok resp) =
      if (resp.status_code == 200) || (resp.status_code == 201)
      then decoded_job (net.decode_job resp.body)
      else fail (handle_api_error resp resp.body)

  unfoldable pub make_request :
      Client
      → Text
      → Text
      → ApiRequest
      → CircuitBreaker
      → W
      → Outcome SyncJobResponse × (CircuitBreaker × W)
  unfolding make_http_request job_response
  make_request c method endpoint request b w =
      let r = make_http_request c method endpoint (some request) b w in (job_response r.0, r.1)

  unfoldable pub trigger :
      Client → ApiRequest → CircuitBreaker → W → Outcome SyncJobResponse × (CircuitBreaker × W)
  unfolding make_request
  trigger c request b w = make_request c (codes "POST") (endpoint_of request) request b w

  unfoldable pub status_response : Outcome HttpResponse → Outcome JobStatusResponse
  unfolding decoded_status handle_api_error
  status_response (fail e) = fail e
  status_response (ok resp) =
      if resp.status_code == 200
      then decoded_status (net.decode_status resp.body)
      else fail (handle_api_error resp resp.body)

  unfoldable pub get_job_status :
      Client → Text → CircuitBreaker → W → Outcome JobStatusResponse × (CircuitBreaker × W)
  unfolding make_http_request status_response
  get_job_status c job_id b w =
      let r =
        make_http_request c (codes "GET") (codes "/api/v1/jobs/" ++ net.path_escape job_id) none b
          w in
      (status_response r.0, r.1)

  -- The outcome of a health check, whose messages begin with `p`.
  unfoldable pub health_response : Text → Outcome HttpResponse → Outcome (Unit {0})
  health_response p (fail e) = fail (p ++ (codes " request failed: " ++ e))
  health_response p (ok resp) =
      if resp.status_code == 200
      then ok tt
      else fail (p ++ (codes " failed with status " ++ net.print resp.status_code))

  unfoldable pub health_check :
      Client → CircuitBreaker → W → Outcome (Unit {0}) × (CircuitBreaker × W)
  unfolding make_http_request health_response
  health_check c b w =
      let r = make_http_request c (codes "GET") (codes "/api/v1/health") none b w in
      (health_response (codes "health check") r.0, r.1)

  -- The request of a direct health check is performed, or was not built.
  unfoldable pub perform_health : Outcome HttpRequest → W → Outcome (Unit {0}) × W
  unfolding health_response
  perform_health (fail e) w = (fail e, w)
  perform_health (ok req) w =
      let r = net.perform req w in (health_response (codes "direct health check") r.0, r.1)

  unfoldable pub health_request : Client → Outcome HttpRequest
  unfolding new_request base_headers
  health_request c =
      let url = c.base_url ++ codes "/api/v1/health" in
      new_request (codes "failed to create health check request: ")
        (net.request_error (codes "GET") url) (codes "GET") url none (base_headers c false)

  unfoldable pub direct_health_check :
      Client → CircuitBreaker → W → Outcome (Unit {0}) × (CircuitBreaker × W)
  unfolding perform_health health_request
  direct_health_check c b w =
      let r = perform_health (health_request c) w in (r.0, (reset_if_ok r.0 b, r.1))
