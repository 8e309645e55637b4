-- ===== src/Operator/Config/Detector/Unchanged.antt =====
-- internal/operator/config/change_detector.go: what is the same when no change is detected.
use jira_cdc_git.Prelude.{
  ℕ, ◌≡◌, refl, sym, ap, Bool, true, false, ◌&&◌, Option, none, some, List, [], ◌∷◌, ◌++◌, arith,
}
use jira_cdc_git.Prelude.Text.{text_eq_iff}
use jira_cdc_git.Operator.Spec.{is_empty}
use jira_cdc_git.Operator.Config.{
  SecretRef, ImageSpec, ResourceList, ResourceRequirements, ApiServerConfig, ServiceConfig,
  ApiServerSpec, get_replica_value, get_config_value, get_service_value, get_enable_jobs_value,
  get_safe_mode_value, flag_eq, option_eq, credentials_eq, image_eq, resource_list_eq,
  requirements_eq, config_eq,
}
use jira_cdc_git.Operator.Config.Changes.{
  Library, detect_jira_credentials_changes, detect_image_changes, detect_resource_changes,
  detect_config_changes,
}
use jira_cdc_git.Operator.Config.Detector.{
  config_text, service_text, spec_text, service_eq, detect_replica_changes, detect_service_changes,
  all_changes,
}

is_empty-append : {A : Type 0} (xs ys : List A) → is_empty (xs ++ ys) ≡ (is_empty xs && is_empty ys)
is_empty-append [] ys = refl
is_empty-append (x ∷ xs) ys = refl

flag_eq_sound : (a b : Bool) → flag_eq a b ≡ true → a ≡ b
flag_eq_sound true b h = sym h
flag_eq_sound false false h = refl
flag_eq_sound false true h = cc

option_eq_sound :
    {A : Type 0} (eq : A → A → Bool)
    → ((a b : A) → eq a b ≡ true → a ≡ b)
    → (a b : Option A) → option_eq eq a b ≡ true
    → a ≡ b
option_eq_sound eq sound none none h = refl
option_eq_sound eq sound none (some b) h = cc
option_eq_sound eq sound (some a) none h = cc
option_eq_sound eq sound (some a) (some b) h = ap some (sound a b h)

resource_list_eq_sound : (a b : ResourceList) → resource_list_eq a b ≡ true → a ≡ b
unfolding resource_list_eq
resource_list_eq_sound a b h =
    ground (arith, text_eq_iff a.cpu b.cpu, text_eq_iff a.memory b.memory)

requirements_eq_sound : (a b : ResourceRequirements) → requirements_eq a b ≡ true → a ≡ b
unfolding requirements_eq
requirements_eq_sound a b h = ground (
  arith,
  option_eq_sound resource_list_eq resource_list_eq_sound a.requests b.requests,
  option_eq_sound resource_list_eq resource_list_eq_sound a.limits b.limits,
)

unchanged_name :
    (p c : SecretRef) → is_empty (detect_jira_credentials_changes p c) ≡ true → p.name ≡ c.name
unfolding detect_jira_credentials_changes credentials_eq
unchanged_name p c h = ground (arith, text_eq_iff p.name c.name)

unchanged_image : (p c : ImageSpec) → is_empty (detect_image_changes p c) ≡ true → p ≡ c
unfolding detect_image_changes image_eq
unchanged_image p c h = ground (
  arith,
  text_eq_iff p.repository c.repository,
  text_eq_iff p.tag c.tag,
  text_eq_iff p.pull_policy c.pull_policy,
)

unchanged_resources :
    (p c : Option ResourceRequirements) → is_empty (detect_resource_changes p c) ≡ true → p ≡ c
unfolding detect_resource_changes
unchanged_resources p c h =
    ground (arith, option_eq_sound requirements_eq requirements_eq_sound p c)

module _ (lib : Library) where
  unchanged_config :
      (p c : ApiServerConfig)
      → is_empty (detect_config_changes p c) ≡ true
      → config_text lib p ≡ config_text lib c
  unfolding detect_config_changes config_text config_eq
  unchanged_config p c h = ground (
    arith,
    text_eq_iff p.log_level c.log_level,
    text_eq_iff p.log_format c.log_format,
    text_eq_iff p.job_image c.job_image,
    flag_eq_sound (get_enable_jobs_value p.enable_jobs) (get_enable_jobs_value c.enable_jobs),
    flag_eq_sound (get_safe_mode_value p.safe_mode_enabled)
        (get_safe_mode_value c.safe_mode_enabled),
  )

  unchanged_service :
      (p c : ServiceConfig)
      → is_empty (detect_service_changes lib p c) ≡ true
      → service_text lib p ≡ service_text lib c
  unfolding detect_service_changes service_text service_eq
  unchanged_service p c h = ground (arith, text_eq_iff p.type c.type)

  unchanged_replicas :
      (p c : Option ℕ)
      → is_empty (detect_replica_changes lib p c) ≡ true
      → get_replica_value p ≡ get_replica_value c
  unfolding detect_replica_changes
  unchanged_replicas p c h = ground arith

  -- Without a change, the same text is hashed.
  pub unchanged_spec :
      (p c : ApiServerSpec)
      → is_empty (all_changes lib p c) ≡ true
      → spec_text lib p ≡ spec_text lib c
  unfolding all_changes spec_text
  unchanged_spec p c h =
      let a = detect_jira_credentials_changes p.jira_credentials c.jira_credentials in
      let b = detect_image_changes p.image c.image in
      let d = detect_replica_changes lib p.replicas c.replicas in
      let e = detect_resource_changes p.resources c.resources in
      let f = detect_config_changes (get_config_value p.config) (get_config_value c.config) in
      let g =
        detect_service_changes lib (get_service_value p.service) (get_service_value c.service) in
      ground (
        arith,
        is_empty-append a (b ++ (d ++ (e ++ (f ++ g)))),
        is_empty-append b (d ++ (e ++ (f ++ g))),
        is_empty-append d (e ++ (f ++ g)),
        is_empty-append e (f ++ g),
        is_empty-append f g,
        unchanged_name p.jira_credentials c.jira_credentials,
        unchanged_image p.image c.image,
        unchanged_replicas p.replicas c.replicas,
        unchanged_resources p.resources c.resources,
        unchanged_config (get_config_value p.config) (get_config_value c.config),
        unchanged_service (get_service_value p.service) (get_service_value c.service),
      )
