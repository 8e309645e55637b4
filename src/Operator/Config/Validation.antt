-- ===== src/Operator/Config/Validation.antt =====
-- internal/operator/config/validation.go: the checks of the specification of an API server.
pub mod Email
pub mod Bounds
use jira_cdc_git.Prelude.{
  ℕ, Bool, true, false, not, ◌&&◌, ◌||◌, Option, none, some, List, [], ◌∷◌, ◌++◌, ◌==◌, any,
  if◌then◌else◌, slt32,
}
use jira_cdc_git.Prelude.Text.{Text, codes, text_eq}
use jira_cdc_git.Prelude.Assoc.{Assoc, lookup}
use jira_cdc_git.Sync.Services.{Outcome, ok, fail}
use jira_cdc_git.Operator.Cluster.{Found, found, missing, broken}
use jira_cdc_git.Operator.Config.{
  SecretRef, ImageSpec, ResourceList, ResourceRequirements, ApiServerConfig, ServiceConfig,
  ApiServerSpec,
}

-- The value of a field that is refused.
pub data Refused : Type 0 where
  text : Text → Refused
  number : ℕ → Refused

pub record ValidationError : Type 0 where
  pub field : Text
  pub message : Text
  pub value : Refused

pub record ValidationResult : Type 0 where
  pub valid : Bool
  pub errors : List ValidationError

-- The scheme and the host of a `url.URL`.
pub record Url : Type 0 where
  pub scheme : Text
  pub host : Text

-- `client.Get` of a secret's data by name and namespace, url.Parse, and the cases of a text.
pub record Checks : Type 0 where
  pub get_secret : Text → Text → Found (Assoc Text)
  pub parse_url : Text → Outcome Url
  pub to_upper : Text → Text
  pub to_lower : Text → Text

abbrev pub error_if : Bool → Text → Text → Refused → List ValidationError
error_if b field message value =
    if b then record { field = field; message = message; value = value } ∷ [] else []

-- The error of a check, if there is one.
abbrev pub error_of : Option Text → Text → Refused → List ValidationError
error_of none field value = []
error_of (some m) field value = record { field = field; message = m; value = value } ∷ []

abbrev pub one_of : Text → List Text → Bool
one_of t ts = any (λ s. text_eq t s) ts

abbrev pub at_sign : ℕ
at_sign = 64

-- `strings.Split(s, sep)` for one byte: `first` is what was read of the first part.
abbrev pub prefix_first : ℕ → List Text → List Text
prefix_first c [] = (c ∷ []) ∷ []
prefix_first c (p ∷ ps) = (c ∷ p) ∷ ps

unfoldable pub split : ℕ → Text → List Text
split sep [] = [] ∷ []
split sep (c ∷ s) = let rest = split sep s in if c == sep then [] ∷ rest else prefix_first c rest

-- Two parts, neither of them empty.
abbrev pub two_parts : List Text → Bool
two_parts ((c ∷ a) ∷ (d ∷ b) ∷ []) = true
two_parts _ = false

unfoldable pub validate_email : Text → Option Text
validate_email email =
    if text_eq email []
    then some (codes "email cannot be empty")
    else if not (any (λ c. c == at_sign) email)
    then some (codes "invalid email format")
    else if not (two_parts (split at_sign email))
    then some (codes "invalid email format")
    else none

unfoldable pub validate_resource_quantity : Text → Text → Option Text
validate_resource_quantity quantity type =
    if text_eq quantity []
    then some (type ++ codes " quantity cannot be empty")
    else if any (λ c. c == 32) quantity
    then some (codes "invalid " ++ (type ++ codes " quantity format: cannot contain spaces"))
    else none

unfoldable pub validate_image_spec : ImageSpec → List ValidationError
validate_image_spec i =
    error_if (text_eq i.repository []) (codes "image.repository")
      (codes "image repository is required") (text i.repository)
    ++ (error_if (text_eq i.tag []) (codes "image.tag") (codes "image tag is required") (text i.tag)
        ++ error_if
            (not (text_eq i.pull_policy [])
              && not (
                  one_of i.pull_policy
                    (codes "Always" ∷ codes "IfNotPresent" ∷ codes "Never" ∷ [])))
            (codes "image.pullPolicy")
            (codes "invalid pull policy, must be one of: [Always IfNotPresent Never]")
            (text i.pull_policy))

unfoldable pub validate_replicas : Option ℕ → List ValidationError
validate_replicas none = []
validate_replicas (some r) =
    error_if (slt32 r 1) (codes "replicas") (codes "replica count must be at least 1") (number r)
    ++ error_if (slt32 10 r) (codes "replicas")
        (codes "replica count should not exceed 10 for performance reasons") (number r)

-- A quantity of a list, if both are there.
unfoldable pub validate_quantity :
    (ResourceList → Text) → Text → Text → Option ResourceList → List ValidationError
validate_quantity part type field none = []
validate_quantity part type field (some l) =
    if text_eq (part l) []
    then []
    else error_of (validate_resource_quantity (part l) type) field (text (part l))

unfoldable pub validate_resources : Option ResourceRequirements → List ValidationError
validate_resources none = []
validate_resources (some r) =
    validate_quantity (λ l. l.cpu) (codes "CPU") (codes "resources.requests.cpu") r.requests
    ++ (validate_quantity (λ l. l.cpu) (codes "CPU") (codes "resources.limits.cpu") r.limits
        ++ (validate_quantity (λ l. l.memory) (codes "memory") (codes "resources.requests.memory")
              r.requests
            ++ validate_quantity (λ l. l.memory) (codes "memory") (codes "resources.limits.memory")
                r.limits))

-- A port that is set, against its least value.
unfoldable pub validate_port : ℕ → Text → Text → Option ℕ → List ValidationError
validate_port least field message none = []
validate_port least field message (some p) =
    error_if (slt32 p least || slt32 65535 p) field message (number p)

unfoldable pub validate_service_config : Option ServiceConfig → List ValidationError
validate_service_config none = []
validate_service_config (some s) =
    error_if
      (not (text_eq s.type [])
        && not (one_of s.type (codes "ClusterIP" ∷ codes "NodePort" ∷ codes "LoadBalancer" ∷ [])))
      (codes "service.type")
      (codes "invalid service type, must be one of: [ClusterIP NodePort LoadBalancer]")
      (text s.type)
    ++ validate_port 1 (codes "service.port") (codes "service port must be between 1 and 65535")
        s.port

abbrev pub key_field : Text → Text
key_field key = codes "jiraCredentials.secretRef[" ++ (key ++ codes "]")

abbrev pub missing_key : Text → Option Text → List ValidationError
missing_key key none =
    record {
      field = key_field key;
      message = codes "required secret key is missing";
      value = text key;
    }
    ∷ []
missing_key key (some v) = []

unfoldable pub missing_keys : List Text → Assoc Text → List ValidationError
missing_keys [] m = []
missing_keys (key ∷ keys) m = missing_key key (lookup key m) ++ missing_keys keys m

-- The check of a value of the secret, if it is there.
unfoldable pub validate_entry : Text → (Text → Option Text) → Option Text → List ValidationError
validate_entry key check none = []
validate_entry key check (some v) = error_of (check v) (key_field key) (text v)

abbrev pub no_errors : List ValidationError → Bool
no_errors [] = true
no_errors (e ∷ es) = false

module _ (k : Checks) where
  unfoldable pub validate_log_level : Text → List ValidationError
  validate_log_level level =
      error_if
        (not (text_eq level [])
          && not (
              one_of (k.to_upper level)
                (codes "DEBUG" ∷ codes "INFO" ∷ codes "WARN" ∷ codes "ERROR" ∷ [])))
        (codes "config.logLevel")
        (codes "invalid log level, must be one of: [DEBUG INFO WARN ERROR]") (text level)

  unfoldable pub validate_log_format : Text → List ValidationError
  validate_log_format format =
      error_if
        (not (text_eq format [])
          && not (one_of (k.to_lower format) (codes "json" ∷ codes "text" ∷ [])))
        (codes "config.logFormat") (codes "invalid log format, must be one of: [json text]")
        (text format)

  unfoldable pub validate_api_server_config : Option ApiServerConfig → List ValidationError
  validate_api_server_config none = []
  validate_api_server_config (some c) =
      validate_log_level c.log_level
      ++ (validate_log_format c.log_format
          ++ validate_port 1024 (codes "config.port") (codes "port must be between 1024 and 65535")
              c.port)

  unfoldable pub check_url : Outcome Url → Option Text
  check_url (fail e) = some (codes "invalid URL format: " ++ e)
  check_url (ok u) =
      if not (text_eq u.scheme (codes "https"))
      then some (codes "JIRA base URL must use HTTPS protocol")
      else if text_eq u.host []
      then some (codes "JIRA base URL must include a valid host")
      else none

  unfoldable pub validate_jira_base_url : Text → Option Text
  validate_jira_base_url url =
      if text_eq url []
      then some (codes "JIRA base URL cannot be empty")
      else check_url (k.parse_url url)

  unfoldable pub validate_secret : Text → Found (Assoc Text) → List ValidationError
  validate_secret name missing =
      error_if true (codes "jiraCredentials.secretRef.name")
        (codes "referenced secret does not exist") (text name)
  validate_secret name (broken e) =
      error_if true (codes "jiraCredentials.secretRef.name")
        (codes "failed to validate secret: " ++ e) (text name)
  validate_secret name (found m) =
      missing_keys (codes "base-url" ∷ codes "email" ∷ codes "pat" ∷ []) m
      ++ (validate_entry (codes "base-url") validate_jira_base_url (lookup (codes "base-url") m)
          ++ validate_entry (codes "email") validate_email (lookup (codes "email") m))

  unfoldable pub validate_jira_credentials : Text → SecretRef → List ValidationError
  validate_jira_credentials namespace c =
      if text_eq c.name []
      then error_if true (codes "jiraCredentials.secretRef.name") (codes "secret name is required")
          (text c.name)
      else validate_secret c.name (k.get_secret c.name namespace)

  unfoldable pub validate_api_server_spec : ApiServerSpec → Text → ValidationResult
  validate_api_server_spec s namespace =
      let errors =
        validate_jira_credentials namespace s.jira_credentials
        ++ (validate_image_spec s.image
            ++ (validate_replicas s.replicas
                ++ (validate_resources s.resources
                    ++ (validate_api_server_config s.config
                        ++ validate_service_config s.service)))) in
      record { valid = no_errors errors; errors = errors }
