-- ===== src/Examples/Configured.antt =====
-- A specification of an API server and jobs, and the theorems on them.
use jira_cdc_git.Prelude.{
  ℕ, ◌≡◌, refl, ◌↔◌, inl, inr, true, not, ◌&&◌, ◌||◌, none, some, List, [], ◌∷◌, ◌==◌,
}
use jira_cdc_git.Prelude.Text.{codes, text_eq}
use jira_cdc_git.Prelude.Assoc.{lookup}
use jira_cdc_git.Sync.Services.{ok}
use jira_cdc_git.Operator.Cluster.{found}
use jira_cdc_git.Operator.Config.{
  ApiServerSpec, get_config_value, get_service_value, get_port_value, credentials_eq,
}
use jira_cdc_git.Operator.Config.Changes.{Library}
use jira_cdc_git.Operator.Config.Detector.{generate_spec_hash, detect_changes}
use jira_cdc_git.Operator.Config.Detector.Requirements.{detect_changes-requires}
use jira_cdc_git.Operator.Config.Validation.{
  Checks, split, validate_email, validate_api_server_spec, validate_jira_credentials,
  validate_secret, missing_keys, validate_entry, validate_jira_base_url, check_url,
  validate_image_spec, validate_replicas, validate_resources, validate_api_server_config,
  validate_log_level, validate_log_format, validate_port, validate_service_config,
}
use jira_cdc_git.Operator.Config.Validation.Email.{IsEmail, validate_email-IsEmail}
use jira_cdc_git.Operator.Config.Validation.Bounds.{LiesIn, validate_api_server_spec-LiesIn}
use jira_cdc_git.Jobs.Types.{JobFilter, QueueStatus, KubernetesJob}
use jira_cdc_git.Jobs.Manifest.{Texts}
use jira_cdc_git.Jobs.Scheduler.{
  Kubernetes, list_results, get_queue_status, count_jobs, count_job, get_job_status,
  conditions_status, condition_status,
}
use jira_cdc_git.Jobs.Scheduler.Queue.{counted, get_queue_status-counted, list_results-types}

abbrev library : Library
library = record { sha256_hex = λ t. t; print = λ n. n ∷ []; same_map = λ a b. true }

abbrev pub server : ApiServerSpec
server = record {
  jira_credentials = record { name = codes "jira"; key = [] };
  image = record { repository = codes "repo"; tag = codes "v1"; pull_policy = codes "Always" };
  replicas = some 3;
  resources = none;
  config = some (record {
    log_level = codes "INFO";
    log_format = [];
    port = some 8080;
    enable_jobs = none;
    job_image = [];
    safe_mode_enabled = none;
  });
  service = none;
}

-- Another port.
abbrev moved : ApiServerSpec
moved = record server {
  config = some (record {
    log_level = codes "INFO";
    log_format = [];
    port = some 9090;
    enable_jobs = none;
    job_image = [];
    safe_mode_enabled = none;
  });
}

detect_changes-requires_example :
    let r = detect_changes library server moved 7 in
    let differ = not (
      text_eq
        (generate_spec_hash library (some server))
        (generate_spec_hash library (some moved))) in
    (r.requires_update ≡ differ)
    × (r.has_changes ≡ differ)
    × (r.requires_restart ≡ (
        differ
        && (not (credentials_eq server.jira_credentials moved.jira_credentials)
            || (not (text_eq server.image.repository moved.image.repository)
                || not (
                    get_port_value (get_config_value server.config).port
                    == get_port_value (get_config_value moved.config).port)))))
detect_changes-requires_example = detect_changes-requires library server moved 7

validate_email-IsEmail_example :
    (validate_email (codes "me@jira.org") ≡ none) ↔ IsEmail (codes "me@jira.org")
validate_email-IsEmail_example = validate_email-IsEmail (codes "me@jira.org")

abbrev checks : Checks
checks = record {
  get_secret = λ name namespace. found (
      (codes "base-url", codes "https://jira.org")
      ∷ (codes "email", codes "me@jira.org")
      ∷ (codes "pat", codes "x")
      ∷ []);
  parse_url = λ u. ok (record { scheme = codes "https"; host = codes "jira.org" });
  to_upper = λ t. t;
  to_lower = λ t. t;
}

server_valid : (validate_api_server_spec checks server []).valid ≡ true
unfolding validate_api_server_spec validate_jira_credentials validate_secret missing_keys
    validate_entry validate_jira_base_url check_url validate_email split validate_image_spec
    validate_replicas validate_resources validate_api_server_config validate_log_level
    validate_log_format validate_port validate_service_config text_eq lookup
server_valid = refl

validate_api_server_spec-LiesIn_example :
    LiesIn 1 10 server.replicas
    × LiesIn 1024 65535 (get_config_value server.config).port
    × LiesIn 1 65535 (get_service_value server.service).port
validate_api_server_spec-LiesIn_example =
    validate_api_server_spec-LiesIn checks server [] server_valid

abbrev job : KubernetesJob ℕ
job = record {
  name = codes "jira-sync-a";
  namespace = [];
  labels = some ((codes "sync-id", codes "a") ∷ []);
  annotations = none;
  args = [];
  image = [];
  resources = record {
    request_cpu = none;
    request_memory = none;
    limit_cpu = none;
    limit_memory = none;
  };
  env = [];
  parallelism = none;
  completions = none;
  active_deadline_seconds = none;
  conditions = record { type = codes "Complete"; status = codes "True"; message = [] } ∷ [];
  active = 0;
  succeeded = 1;
  failed = 0;
  start_time = none;
  completion_time = none;
}

abbrev texts : Texts ℕ
texts = record {
  to_lower = λ t. t;
  parse_quantity = λ t. none;
  print = λ n. n ∷ [];
  print_duration = λ n. n ∷ [];
  print_time = λ n. n ∷ [];
}

-- One completed job and one that is pending.
abbrev kubernetes : Kubernetes ℕ (Unit {0})
kubernetes = record {
  create = λ j w. (ok j, w);
  get = λ n w. (ok job, w);
  list = λ l w. (ok (job ∷ record job { conditions = [] } ∷ []), w);
  update = λ j w. (ok j, w);
  delete = λ n w. (none, w);
  delete_pods = λ n w. (none, w);
  get_template = λ t w. (ok job, w);
}

abbrev queue : QueueStatus
queue = record {
  total_jobs = 2;
  pending_jobs = 1;
  running_jobs = 0;
  completed_jobs = 1;
  failed_jobs = 0;
}

queue_found : (get_queue_status texts kubernetes tt).0 ≡ ok queue
unfolding get_queue_status count_jobs count_job get_job_status conditions_status condition_status
    text_eq
queue_found = refl

get_queue_status-counted_example : counted queue ≡ queue.total_jobs
get_queue_status-counted_example = get_queue_status-counted texts kubernetes tt queue queue_found

abbrev batches : JobFilter
batches = record {
  type = codes "batch" ∷ [];
  status = [];
  created_since = none;
  created_before = none;
  namespace = [];
  limit = 0;
  offset = 0;
}

abbrev jobs : List (KubernetesJob ℕ)
jobs = job ∷ record job { conditions = [] } ∷ []

list_results-types_example : list_results (some batches) jobs ≡ []
list_results-types_example = list_results-types batches jobs (inr (inl refl), tt) refl
