-- ===== src/Operator/Config.antt =====
-- internal/operator/types/types.go: the specification of an APIServer resource, and the defaults that
-- internal/operator/config/change_detector.go has for it. An int32 is its 32-bit pattern.
pub mod Changes
pub mod Detector
pub mod Drift
pub mod Validation
use jira_cdc_git.Prelude.{
  ℕ, ◌+◌, ◌%◌, ◌^◌, Bool, true, false, ◌&&◌, Option, none, some, [], ltb, ◌==◌, if◌then◌else◌,
}
use jira_cdc_git.Prelude.Text.{Text, codes, text_eq}
use jira_cdc_git.Prelude.Assoc.{Assoc}

pub record SecretRef : Type 0 where
  pub name : Text
  pub key : Text

pub record ImageSpec : Type 0 where
  pub repository : Text
  pub tag : Text
  pub pull_policy : Text

pub record ResourceList : Type 0 where
  pub cpu : Text
  pub memory : Text

pub record ResourceRequirements : Type 0 where
  pub requests : Option ResourceList
  pub limits : Option ResourceList

pub record ApiServerConfig : Type 0 where
  pub log_level : Text
  pub log_format : Text
  pub port : Option ℕ
  pub enable_jobs : Option Bool
  pub job_image : Text
  pub safe_mode_enabled : Option Bool

pub record ServiceConfig : Type 0 where
  pub type : Text
  pub port : Option ℕ
  pub annotations : Option (Assoc Text)

-- The credentials are their reference to a secret.
pub record ApiServerSpec : Type 0 where
  pub jira_credentials : SecretRef
  pub image : ImageSpec
  pub replicas : Option ℕ
  pub resources : Option ResourceRequirements
  pub config : Option ApiServerConfig
  pub service : Option ServiceConfig

abbrev pub or_default {ℓ} : {A : Type ℓ} → A → Option A → A
or_default d none = d
or_default d (some a) = a

abbrev pub get_replica_value : Option ℕ → ℕ
get_replica_value r = or_default 2 r

abbrev pub get_config_value : Option ApiServerConfig → ApiServerConfig
get_config_value c =
    or_default
      (record {
        log_level = [];
        log_format = [];
        port = none;
        enable_jobs = none;
        job_image = [];
        safe_mode_enabled = none;
      })
      c

abbrev pub get_service_value : Option ServiceConfig → ServiceConfig
get_service_value s = or_default (record { type = []; port = none; annotations = none }) s

abbrev pub get_port_value : Option ℕ → ℕ
get_port_value p = or_default 8080 p

abbrev pub get_service_port_value : Option ℕ → ℕ
get_service_port_value p = or_default 80 p

abbrev pub get_enable_jobs_value : Option Bool → Bool
get_enable_jobs_value v = or_default true v

abbrev pub get_safe_mode_value : Option Bool → Bool
get_safe_mode_value v = or_default false v

-- `reflect.DeepEqual` on the parts of a specification.
abbrev pub flag_eq : Bool → Bool → Bool
flag_eq true b = b
flag_eq false true = false
flag_eq false false = true

abbrev pub option_eq {ℓ} : {A : Type ℓ} → (A → A → Bool) → Option A → Option A → Bool
option_eq eq none none = true
option_eq eq none (some b) = false
option_eq eq (some a) none = false
option_eq eq (some a) (some b) = eq a b

abbrev pub number_eq : ℕ → ℕ → Bool
number_eq a b = a == b

unfoldable pub credentials_eq : SecretRef → SecretRef → Bool
credentials_eq a b = text_eq a.name b.name && text_eq a.key b.key

unfoldable pub image_eq : ImageSpec → ImageSpec → Bool
image_eq a b =
    text_eq a.repository b.repository
    && (text_eq a.tag b.tag && text_eq a.pull_policy b.pull_policy)

unfoldable pub resource_list_eq : ResourceList → ResourceList → Bool
resource_list_eq a b = text_eq a.cpu b.cpu && text_eq a.memory b.memory

unfoldable pub requirements_eq : ResourceRequirements → ResourceRequirements → Bool
requirements_eq a b =
    option_eq resource_list_eq a.requests b.requests && option_eq resource_list_eq a.limits b.limits

unfoldable pub config_eq : ApiServerConfig → ApiServerConfig → Bool
config_eq a b =
    text_eq a.log_level b.log_level
    && (text_eq a.log_format b.log_format
        && (option_eq number_eq a.port b.port
            && (option_eq flag_eq a.enable_jobs b.enable_jobs
                && (text_eq a.job_image b.job_image
                    && option_eq flag_eq a.safe_mode_enabled b.safe_mode_enabled))))
