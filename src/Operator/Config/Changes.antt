-- ===== src/Operator/Config/Changes.antt =====
-- internal/operator/config/change_detector.go: which changes of a specification ask for what.
use jira_cdc_git.Prelude.{
  ℕ, Bool, true, false, not, Option, List, [], ◌∷◌, ◌++◌, ltb, ◌==◌, if◌then◌else◌,
}
use jira_cdc_git.Prelude.Text.{Text, codes, text_eq}
use jira_cdc_git.Prelude.Assoc.{Assoc}
use jira_cdc_git.Operator.Config.{
  SecretRef, ImageSpec, ResourceRequirements, ApiServerConfig, get_port_value,
  get_enable_jobs_value, get_safe_mode_value, flag_eq, option_eq, credentials_eq, image_eq,
  requirements_eq, config_eq,
}

pub data ChangeImpact : Type 0 where
  low medium high critical : ChangeImpact

-- The old or the new value of a field.
pub data Value : Type 0 where
  credentials : SecretRef → Value
  text : Text → Value
  number : ℕ → Value
  flag : Bool → Value
  resources : Option ResourceRequirements → Value

-- The path of a field is its name after `spec.`.
pub record ConfigChange : Type 0 where
  pub field : Text
  pub old_value : Value
  pub new_value : Value
  pub impact : ChangeImpact
  pub description : Text

pub record ChangeResult : Type 0 where
  pub has_changes : Bool
  pub requires_update : Bool
  pub requires_restart : Bool
  pub config_changes : List ConfigChange
  pub previous_hash : Text
  pub current_hash : Text
  pub change_timestamp : ℕ
  pub update_recommendation : Text

-- The hexadecimal SHA-256 of a text, an int32 printed by `%d`, and `reflect.DeepEqual` on maps.
pub record Library : Type 0 where
  pub sha256_hex : Text → Text
  pub print : ℕ → Text
  pub same_map : Option (Assoc Text) → Option (Assoc Text) → Bool

abbrev pub change_if : Bool → ConfigChange → List ConfigChange
change_if b c = if b then c ∷ [] else []

unfoldable pub detect_jira_credentials_changes : SecretRef → SecretRef → List ConfigChange
detect_jira_credentials_changes p c =
    if credentials_eq p c
    then []
    else record {
      field = codes "jiraCredentials";
      old_value = credentials p;
      new_value = credentials c;
      impact = high;
      description =
          codes
            "JIRA credentials configuration changed - requires pod restart to reload credentials";
    }
      ∷ change_if (not (text_eq p.name c.name)) (record {
        field = codes "jiraCredentials.secretRef.name";
        old_value = text p.name;
        new_value = text c.name;
        impact = critical;
        description =
            codes "JIRA credentials secret reference changed - requires immediate restart";
      })

unfoldable pub detect_image_changes : ImageSpec → ImageSpec → List ConfigChange
detect_image_changes p c =
    if image_eq p c
    then []
    else change_if (not (text_eq p.repository c.repository)) (record {
      field = codes "image.repository";
      old_value = text p.repository;
      new_value = text c.repository;
      impact = high;
      description = codes "Container image repository changed - requires rolling update";
    })
      ++ (change_if (not (text_eq p.tag c.tag)) (record {
        field = codes "image.tag";
        old_value = text p.tag;
        new_value = text c.tag;
        impact = medium;
        description = codes "Container image tag changed - rolling update recommended";
      })
          ++ change_if (not (text_eq p.pull_policy c.pull_policy)) (record {
            field = codes "image.pullPolicy";
            old_value = text p.pull_policy;
            new_value = text c.pull_policy;
            impact = low;
            description = codes "Image pull policy changed - will take effect on next pod restart";
          }))

unfoldable pub detect_resource_changes :
    Option ResourceRequirements → Option ResourceRequirements → List ConfigChange
detect_resource_changes p c = change_if (not (option_eq requirements_eq p c)) (record {
  field = codes "resources";
  old_value = resources p;
  new_value = resources c;
  impact = medium;
  description = codes "Resource requirements changed - rolling update required";
})

unfoldable pub detect_config_changes : ApiServerConfig → ApiServerConfig → List ConfigChange
detect_config_changes p c =
    if config_eq p c
    then []
    else change_if (not (text_eq p.log_level c.log_level)) (record {
      field = codes "config.logLevel";
      old_value = text p.log_level;
      new_value = text c.log_level;
      impact = low;
      description = codes "Log level changed - can be updated via ConfigMap without restart";
    })
      ++ (change_if (not (text_eq p.log_format c.log_format)) (record {
        field = codes "config.logFormat";
        old_value = text p.log_format;
        new_value = text c.log_format;
        impact = low;
        description = codes "Log format changed - can be updated via ConfigMap without restart";
      })
          ++ (change_if (not (get_port_value p.port == get_port_value c.port)) (record {
            field = codes "config.port";
            old_value = number (get_port_value p.port);
            new_value = number (get_port_value c.port);
            impact = high;
            description = codes "API server port changed - requires pod restart and service update";
          })
              ++ (change_if
                    (not (
                      flag_eq (get_enable_jobs_value p.enable_jobs)
                        (get_enable_jobs_value c.enable_jobs)))
                    (record {
                      field = codes "config.enableJobs";
                      old_value = flag (get_enable_jobs_value p.enable_jobs);
                      new_value = flag (get_enable_jobs_value c.enable_jobs);
                      impact = medium;
                      description =
                          codes
                            "Job creation setting changed - requires restart to reload permissions";
                    })
                  ++ (change_if (not (text_eq p.job_image c.job_image)) (record {
                    field = codes "config.jobImage";
                    old_value = text p.job_image;
                    new_value = text c.job_image;
                    impact = low;
                    description = codes "Job image changed - will affect new job creation only";
                  })
                      ++ change_if
                          (not (
                            flag_eq (get_safe_mode_value p.safe_mode_enabled)
                              (get_safe_mode_value c.safe_mode_enabled)))
                          (record {
                            field = codes "config.safeModeEnabled";
                            old_value = flag (get_safe_mode_value p.safe_mode_enabled);
                            new_value = flag (get_safe_mode_value c.safe_mode_enabled);
                            impact = medium;
                            description =
                                codes "Safe mode setting changed - requires restart to take effect";
                          })))))

abbrev pub impact_level : ChangeImpact → ℕ
impact_level low = 1
impact_level medium = 2
impact_level high = 3
impact_level critical = 4

-- The greatest impact of the changes, from `m` on.
unfoldable pub max_impact : ChangeImpact → List ConfigChange → ChangeImpact
max_impact m [] = m
max_impact m (c ∷ cs) =
    max_impact (if ltb (impact_level m) (impact_level c.impact) then c.impact else m) cs

abbrev pub is_restart : ChangeImpact → Bool
is_restart low = false
is_restart medium = false
is_restart high = true
is_restart critical = true

abbrev pub recommendation : ChangeImpact → Text
recommendation critical =
    codes "Critical configuration changes detected - immediate restart required"
recommendation high = codes "High-impact configuration changes detected - rolling restart required"
recommendation medium =
    codes "Medium-impact configuration changes detected - rolling update recommended"
recommendation low = codes "Low-impact configuration changes detected - ConfigMap update sufficient"

abbrev pub required : ChangeImpact → ChangeResult → ChangeResult
required m r = record r {
  requires_update = true;
  requires_restart = is_restart m;
  update_recommendation = recommendation m;
}

unfoldable pub determine_update_requirements : List ConfigChange → ChangeResult → ChangeResult
determine_update_requirements [] r = record r {
  requires_update = false;
  requires_restart = false;
  update_recommendation = codes "No updates required";
}
determine_update_requirements (c ∷ cs) r = required (max_impact low (c ∷ cs)) r
