-- ===== src/Jobs/Errors.antt =====
-- pkg/jobs/errors.go: the errors of jobs and their classification.
use jira_cdc_git.Prelude.{ℕ, Bool, true, false, Option, none, some, List, [], ◌∷◌, ◌++◌}
use jira_cdc_git.Prelude.Text.{Text, codes}

pub data JobErrorType : Type 0 where
  validation authentication connection kubernetes timeout resource template execution internal :
      JobErrorType

-- The typed errors, with the fields that their messages print; a value that is printed by `%v` is its
-- text. `other` is any other error.
pub data JobError : Type 0 where
  validation_error : (job_id field value message : Text) → JobError
  authentication_error : (job_id endpoint message : Text) → JobError
  kubernetes_error : (job_id operation kind message : Text) → JobError
  timeout_error : (job_id : Text) (timeout_period elapsed_time : ℕ) (message : Text) → JobError
  resource_error : (job_id resource_type requested available message : Text) → JobError
  template_error : (job_id job_type template_path message : Text) → JobError
  execution_error :
      (job_id pod_name container : Text) (exit_code : ℕ) (message logs : Text) → JobError
  connection_error : (job_id target protocol message : Text) → JobError
  internal_error : (job_id component operation message : Text) → JobError
  other : Text → JobError

-- The type of an error, `none` for one without.
abbrev pub type_of : JobError → Option JobErrorType
type_of (validation_error j f v m) = some validation
type_of (authentication_error j e m) = some authentication
type_of (kubernetes_error j o r m) = some kubernetes
type_of (timeout_error j t e m) = some timeout
type_of (resource_error j t r a m) = some resource
type_of (template_error j t p m) = some template
type_of (execution_error j p c x m l) = some execution
type_of (connection_error j t p m) = some connection
type_of (internal_error j c o m) = some internal
type_of (other m) = none

abbrev pub job_id_of : JobError → Text
job_id_of (validation_error j f v m) = j
job_id_of (authentication_error j e m) = j
job_id_of (kubernetes_error j o r m) = j
job_id_of (timeout_error j t e m) = j
job_id_of (resource_error j t r a m) = j
job_id_of (template_error j t p m) = j
job_id_of (execution_error j p c x m l) = j
job_id_of (connection_error j t p m) = j
job_id_of (internal_error j c o m) = j
job_id_of (other m) = []

abbrev pub retryable_type : Option JobErrorType → Bool
retryable_type (some connection) = true
retryable_type (some timeout) = true
retryable_type (some resource) = true
retryable_type (some kubernetes) = true
retryable_type _ = false

unfoldable pub is_retryable_error : JobError → Bool
is_retryable_error e = retryable_type (type_of e)

abbrev pub type_severity : Option JobErrorType → Text
type_severity none = codes "unknown"
type_severity (some validation) = codes "critical"
type_severity (some authentication) = codes "critical"
type_severity (some template) = codes "critical"
type_severity (some timeout) = codes "high"
type_severity (some resource) = codes "high"
type_severity (some connection) = codes "medium"
type_severity (some kubernetes) = codes "medium"
type_severity (some execution) = codes "high"
type_severity (some internal) = codes "critical"

unfoldable pub get_error_severity : JobError → Text
get_error_severity e = type_severity (type_of e)

-- The message of an error: `print` is `%d` and `print_duration` is `%v` of a duration.
unfoldable pub error_message : (print print_duration : ℕ → Text) → JobError → Text
error_message print print_duration (validation_error j f v m) =
    codes "validation error for job "
    ++ (j ++ (codes ": field '" ++ (f ++ (codes "' with value '" ++ (v ++ (codes "': " ++ m))))))
error_message print print_duration (authentication_error j e m) =
    codes "authentication error for job " ++ (j ++ (codes " at " ++ (e ++ (codes ": " ++ m))))
error_message print print_duration (kubernetes_error j o r m) =
    codes "kubernetes error for job "
    ++ (j ++ (codes " during " ++ (o ++ (codes " of " ++ (r ++ (codes ": " ++ m))))))
error_message print print_duration (timeout_error j t e m) =
    codes "timeout error for job "
    ++ (j
        ++ (codes " after "
            ++ (print_duration e
                ++ (codes " (limit: " ++ (print_duration t ++ (codes "): " ++ m))))))
error_message print print_duration (resource_error j t r a m) =
    codes "resource error for job "
    ++ (j
        ++ (codes ": "
            ++ (t
                ++ (codes " resource (requested: "
                    ++ (r ++ (codes ", available: " ++ (a ++ (codes "): " ++ m))))))))
error_message print print_duration (template_error j t p m) =
    codes "template error for job "
    ++ (j ++ (codes " (type: " ++ (t ++ (codes ", template: " ++ (p ++ (codes "): " ++ m))))))
error_message print print_duration (execution_error j p c x m l) =
    codes "execution error for job "
    ++ (j
        ++ (codes " (pod: "
            ++ (p
                ++ (codes ", container: "
                    ++ (c ++ (codes ", exit: " ++ (print x ++ (codes "): " ++ m))))))))
error_message print print_duration (connection_error j t p m) =
    codes "connection error for job "
    ++ (j ++ (codes " to " ++ (t ++ (codes " (" ++ (p ++ (codes "): " ++ m))))))
error_message print print_duration (internal_error j c o m) =
    codes "internal error for job "
    ++ (j ++ (codes " in " ++ (c ++ (codes " during " ++ (o ++ (codes ": " ++ m))))))
error_message print print_duration (other m) = m

abbrev pub get_suggestions : JobErrorType → List Text
get_suggestions validation =
    codes "Check job configuration parameters"
    ∷ codes "Verify required fields are provided"
    ∷ codes "Ensure values are in correct format"
    ∷ []
get_suggestions authentication =
    codes "Verify JIRA credentials are correct"
    ∷ codes "Check if token has expired"
    ∷ codes "Ensure proper permissions are granted"
    ∷ []
get_suggestions connection =
    codes "Check network connectivity"
    ∷ codes "Verify JIRA server is accessible"
    ∷ codes "Check firewall and proxy settings"
    ∷ []
get_suggestions kubernetes =
    codes "Check Kubernetes cluster status"
    ∷ codes "Verify namespace and permissions"
    ∷ codes "Check resource quotas"
    ∷ []
get_suggestions timeout =
    codes "Consider increasing timeout value"
    ∷ codes "Check if operation is taking longer than expected"
    ∷ codes "Verify target system performance"
    ∷ []
get_suggestions resource =
    codes "Check cluster resource availability"
    ∷ codes "Consider reducing resource requests"
    ∷ codes "Scale cluster if needed"
    ∷ []
get_suggestions template =
    codes "Verify job template is valid"
    ∷ codes "Check template file exists and is readable"
    ∷ codes "Validate template syntax"
    ∷ []
get_suggestions execution =
    codes "Check job logs for detailed error information"
    ∷ codes "Verify container image and command"
    ∷ codes "Check volume mounts and permissions"
    ∷ []
get_suggestions internal =
    codes "Contact system administrator" ∷ codes "Check system logs for more details" ∷ []

pub record ErrorSummary : Type 0 where
  pub type : JobErrorType
  pub severity : Text
  pub message : Text
  pub retryable : Bool
  pub timestamp : ℕ
  pub job_id : Text
  pub suggestions : List Text

abbrev pub summary_of : Option JobErrorType → JobError → Text → ℕ → ErrorSummary
summary_of (some t) e message now = record {
  type = t;
  severity = get_error_severity e;
  message = message;
  retryable = is_retryable_error e;
  timestamp = now;
  job_id = job_id_of e;
  suggestions = get_suggestions t;
}
summary_of none e message now = record {
  type = internal;
  severity = codes "unknown";
  message = message;
  retryable = is_retryable_error e;
  timestamp = now;
  job_id = [];
  suggestions = [];
}

unfoldable pub summarize_error :
    (print print_duration : ℕ → Text) → Option JobError → ℕ → Option ErrorSummary
summarize_error print print_duration none now = none
summarize_error print print_duration (some e) now =
    some (summary_of (type_of e) e (error_message print print_duration e) now)
