-- ===== src/Examples/Operated.antt =====
-- A cluster and an API server for the operator, and its theorems at them.
use jira_cdc_git.Prelude.{
  ℕ, ◌≡◌, refl, ◌+◌, ◌*◌, true, false, not, ◌&&◌, ◌||◌, Option, none, some, List, [], ◌∷◌,
  if◌then◌else◌, ltb, arith,
}
use jira_cdc_git.Prelude.Text.{Text, codes, text_eq}
use jira_cdc_git.Prelude.Assoc.{insert}
use jira_cdc_git.Sync.Services.{Outcome, ok, fail}
use jira_cdc_git.Operator.Types.{Condition, JobReference, JiraSync}
use jira_cdc_git.Operator.Breaker.Gate.{Gate, breaker_of}
use jira_cdc_git.Operator.Api.{ApiRequest, SyncJobResponse, convert_jira_sync_to_api_request}
use jira_cdc_git.Operator.Client.{
  Network, Client, build_request, request_of, new_request, base_headers, add_authentication,
}
use jira_cdc_git.Operator.Client.Refinement.{
  Call, request, direct_health, IsBuilt, run, gate_run, with_breaker, run-gate_run,
}
use jira_cdc_git.Operator.Cluster.{Cluster, Api, found, missing, Scene}
use jira_cdc_git.Operator.Status.{set_condition, stamped, has_condition, phase_issues}
use jira_cdc_git.Operator.Status.Placed.{condition_of, transition_time, condition_of-set_condition}
use jira_cdc_git.Operator.Spec.{validate_sync_spec}
use jira_cdc_git.Operator.Spec.Convertible.{
  is_ok, is_none, is_project_sync, validate_sync_spec-convert,
}
use jira_cdc_git.Operator.Phase.{in_phase}
use jira_cdc_git.Operator.Phase.Consistent.{phase_issues-in_phase}
use jira_cdc_git.Operator.Handlers.{has_job}
use jira_cdc_git.Operator.Held.{HoldsRef}
use jira_cdc_git.Operator.Reconcile.Once.{with_trigger, reconcile_each, reconcile_each-with_trigger}

-- The clock counts seconds, and each request takes one; the server fails until the time is 100 s.
abbrev second : ℕ
second = 1000000000

abbrev network : Network ℕ
network = record {
  now = λ w. (w * second, w);
  perform =
      λ r w. (ok (record { status_code = if ltb w 100 then 503 else 200; body = ok [] }), w + 1);
  marshal = λ r. ok [];
  request_error = λ m u. none;
  path_escape = λ t. t;
  print = λ n. n ∷ [];
  decode_job = λ b. fail [];
  decode_status = λ b. fail [];
  unmarshal_error = λ b. fail [];
}

abbrev api_client : Client
api_client = record { base_url = codes "http://api"; auth_token = []; auth_type = [] }

abbrev get_jobs : Call
get_jobs = request (codes "GET") (codes "/api/v1/jobs/a") none

-- Four requests, of which the fourth is stopped, and a health check.
abbrev calls : List Call
calls = get_jobs ∷ get_jobs ∷ get_jobs ∷ get_jobs ∷ direct_health ∷ []

abbrev closed_gate : Gate
closed_gate = record { failures = 0; last = 0 }

built : IsBuilt network api_client get_jobs
unfolding build_request request_of new_request base_headers add_authentication text_eq insert
built = (_, refl)

run-gate_run_example :
    run network api_client calls (breaker_of 3 (60 * second) closed_gate) 10
    ≡ with_breaker network api_client 3
        (60 * second)
        (gate_run network api_client 3 (60 * second) calls closed_gate 10)
run-gate_run_example =
    run-gate_run network api_client 3 (60 * second) calls closed_gate 10 (omega arith)
      ((built, (built, (built, (built, (tt, tt))))))

-- The world is the stored resource; an update of the resource leaves the stored status.
abbrev cluster : Cluster ℕ (JiraSync ℕ)
cluster = record {
  now = λ w. (5, w);
  get_sync = λ w. (found w, w);
  update = λ o w. (ok (record o { status = w.status }), record o { status = w.status });
  update_status = λ o w. (ok (record w { status = o.status }), record w { status = o.status });
  list_api_servers = λ w. (ok [], w);
  get_job = λ m n w. (missing, w);
  delete_job = λ m n w. (missing, w);
  event = λ t r m w. w;
  zero_float = 0;
  print = λ n. n ∷ [];
  atoi = λ t. none;
  print_duration = λ d. [];
  print_unix = λ t. [];
  print_time = λ t. [];
  hash_spec = λ s. [];
  scale = λ d f. d * f;
}

-- Its jobs fail.
abbrev failing_api : Api (JiraSync ℕ)
failing_api = record {
  trigger = λ host r w. (fail [], w);
  get_job_status = λ host id w. (
    ok (record {
      job_id = id;
      status = codes "failed";
      progress = 0;
      message = [];
      start_time = none;
      end_time = none;
      results = none;
    }),
    w,
  );
}

abbrev job_7 : Option JobReference
job_7 = some (record { name = codes "job-7"; namespace = codes "api" })

-- A resource that failed, and may be retried.
abbrev failed_sync : JiraSync ℕ
failed_sync = record {
  generation = 1;
  deleted = false;
  finalizers = codes "sync.jira.io/jirasync-finalizer" ∷ [];
  annotations = [];
  spec = record {
    sync_type = codes "incremental";
    target = record { issue_keys = []; jql_query = []; project_key = codes "ABC"; epic_key = [] };
    destination = record { repository = codes "/repo"; branch = codes "main"; path = [] };
    schedule = [];
    retry_policy = some (record { max_retries = 3; backoff_multiplier = 2; initial_delay = 1 });
  };
  status = record {
    phase = codes "Failed";
    conditions = [];
    sync_stats = none;
    job_ref = job_7;
    observed_generation = 1;
    progress = none;
    sync_state = none;
    last_error = [];
    retry_count = 0;
    last_status_update = none;
  };
}

abbrev HasJob7 : JiraSync ℕ → Type 0
HasJob7 w = w.status.job_ref ≡ job_7

cluster-HoldsRef : HoldsRef cluster failing_api job_7 HasJob7
cluster-HoldsRef = record {
  now = λ w h. h;
  get_sync = λ w h. (h, h);
  update = λ o w g h. (h, h);
  update_status = λ o w g h. (g, g);
  list_api_servers = λ w h. h;
  get_job = λ m n w h. h;
  delete_job = λ m n w h. h;
  event = λ t r m w h. h;
  get_job_status = λ host id w h. h;
}

abbrev start : Scene ℕ (JiraSync ℕ)
start = record { object = failed_sync; api_host = []; world = failed_sync }

-- Someone edits the branch.
abbrev edit_branch : JiraSync ℕ → JiraSync ℕ
edit_branch w =
    let s = w.spec in
    let d = s.destination in
    record w { spec = record s { destination = record d { branch = codes "dev" } }; generation = 2 }

abbrev changes : List (JiraSync ℕ → JiraSync ℕ)
changes = (λ w. w) ∷ edit_branch ∷ (λ w. w) ∷ []

abbrev trigger_anew : Text → ApiRequest → JiraSync ℕ → Outcome SyncJobResponse × JiraSync ℕ
trigger_anew host r w = (ok (record { success = true; job_id = codes "job-8"; message = [] }), w)

has_job_7 : has_job job_7 ≡ true
unfolding text_eq
has_job_7 = refl

reconcile_each-with_trigger_example :
    (reconcile_each cluster failing_api changes start
      ≡ reconcile_each cluster (with_trigger trigger_anew failing_api) changes start)
    × HasJob7 (reconcile_each cluster failing_api changes start).1.world
reconcile_each-with_trigger_example =
    reconcile_each-with_trigger trigger_anew changes start cluster-HoldsRef has_job_7
      (((λ w h. h), ((λ w h. h), ((λ w h. h), tt)))) refl

abbrev ready : Condition
ready = record {
  type = codes "Ready";
  status = codes "True";
  last_transition_time = 3;
  reason = codes "SyncCompleted";
  message = [];
}

abbrev conditions : List Condition
conditions = record ready { type = codes "Validated" } ∷ ready ∷ []

condition_of-set_condition_example :
    condition_of (codes "Ready") (set_condition cluster ready conditions failed_sync).0 ≡ (
      if text_eq (codes "Ready") (codes "Ready")
      then some (stamped (transition_time (condition_of (codes "Ready") conditions) ready 5) ready)
      else condition_of (codes "Ready") conditions)
condition_of-set_condition_example =
    condition_of-set_condition cluster (codes "Ready") ready conditions failed_sync

phase_issues-in_phase_example : phase_issues (in_phase (codes "Failed") [] 9 failed_sync).status ≡ (
    if text_eq (codes "Failed") (codes "Failed")
      && not (has_condition (codes "Failed") (codes "True") [])
    then codes "Phase is Failed but Failed condition is not True" ∷ []
    else [])
phase_issues-in_phase_example = phase_issues-in_phase (codes "Failed") [] 9 failed_sync

validate_sync_spec-convert_example : is_none (validate_sync_spec failed_sync.spec) ≡ (
    not (text_eq (codes "/repo") [])
    && (is_ok (convert_jira_sync_to_api_request failed_sync.spec)
        || is_project_sync failed_sync.spec))
validate_sync_spec-convert_example = validate_sync_spec-convert failed_sync.spec
