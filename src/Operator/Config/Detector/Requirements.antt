-- ===== src/Operator/Config/Detector/Requirements.antt =====
-- internal/operator/config/change_detector.go: what DetectChanges requires of a change.
use jira_cdc_git.Prelude.{
  ℕ, ◌≡◌, refl, ◌∙◌, ap, Bool, true, false, not, ◌&&◌, ◌||◌, Option, some, List, [], ◌∷◌, ◌++◌, any,
  take, ltb, ◌==◌, if◌then◌else◌, inl, inr, Bool-cases, arith,
}
use jira_cdc_git.Prelude.Text.{Text, text_eq, text_eq_iff}
use jira_cdc_git.Operator.Spec.{is_empty}
use jira_cdc_git.Operator.Config.{
  SecretRef, ImageSpec, ResourceRequirements, ApiServerConfig, ServiceConfig, ApiServerSpec,
  get_config_value, get_port_value, credentials_eq, image_eq, config_eq,
}
use jira_cdc_git.Operator.Config.Changes.{
  ChangeImpact, low, medium, high, critical, ConfigChange, ChangeResult, Library,
  detect_jira_credentials_changes, detect_image_changes, detect_resource_changes,
  detect_config_changes, impact_level, max_impact, is_restart, determine_update_requirements,
}
use jira_cdc_git.Operator.Config.Detector.{
  spec_text, generate_spec_hash, detect_replica_changes, detect_service_changes, all_changes,
  detect_changes,
}
use jira_cdc_git.Operator.Config.Detector.Unchanged.{unchanged_spec}

-- A change that asks for a restart.
abbrev pub restarts : ConfigChange → Bool
restarts c = is_restart c.impact

greater-restarts :
    (m i : ChangeImpact)
    → is_restart (if ltb (impact_level m) (impact_level i) then i else m)
      ≡ (is_restart m || is_restart i)
greater-restarts m i = ground arith

max_impact-restarts :
    (m : ChangeImpact) (cs : List ConfigChange)
    → is_restart (max_impact m cs) ≡ (is_restart m || any restarts cs)
unfolding max_impact
max_impact-restarts low [] = refl
max_impact-restarts medium [] = refl
max_impact-restarts high [] = refl
max_impact-restarts critical [] = refl
max_impact-restarts m (c ∷ cs) =
    let m' = if ltb (impact_level m) (impact_level c.impact) then c.impact else m in
    ground (arith, max_impact-restarts m' cs, greater-restarts m c.impact)

any-append :
    {A : Type 0} (p : A → Bool) (xs ys : List A) → any p (xs ++ ys) ≡ (any p xs || any p ys)
any-append p [] ys = refl
any-append p (x ∷ xs) ys = ground (arith, any-append p xs ys)

credentials-restarts :
    (p c : SecretRef)
    → any restarts (detect_jira_credentials_changes p c) ≡ not (credentials_eq p c)
unfolding detect_jira_credentials_changes credentials_eq
credentials-restarts p c = ground arith

image-restarts :
    (p c : ImageSpec)
    → any restarts (detect_image_changes p c) ≡ not (text_eq p.repository c.repository)
unfolding detect_image_changes image_eq
image-restarts p c = ground arith

resource-restarts :
    (p c : Option ResourceRequirements) → any restarts (detect_resource_changes p c) ≡ false
unfolding detect_resource_changes
resource-restarts p c = ground arith

port-config_eq :
    (p c : ApiServerConfig)
    → config_eq p c ≡ true
    → (get_port_value p.port == get_port_value c.port) ≡ true
unfolding config_eq
port-config_eq p c h = ground arith

config-restarts :
    (p c : ApiServerConfig)
    → any restarts (detect_config_changes p c)
      ≡ not (get_port_value p.port == get_port_value c.port)
unfolding detect_config_changes
config-restarts p c = ground (arith, port-config_eq p c)

module _ (lib : Library) where
  replica-restarts : (p c : Option ℕ) → any restarts (detect_replica_changes lib p c) ≡ false
  unfolding detect_replica_changes
  replica-restarts p c = ground arith

  service-restarts : (p c : ServiceConfig) → any restarts (detect_service_changes lib p c) ≡ false
  unfolding detect_service_changes
  service-restarts p c = ground arith

  -- The changes that ask for a restart.
  all_changes-restarts :
      (p c : ApiServerSpec)
      → any restarts (all_changes lib p c) ≡ (
          not (credentials_eq p.jira_credentials c.jira_credentials)
          || (not (text_eq p.image.repository c.image.repository)
              || not (
                  get_port_value (get_config_value p.config).port
                  == get_port_value (get_config_value c.config).port)))
  unfolding all_changes
  all_changes-restarts p c =
      simp
        (
          any-append, credentials-restarts, image-restarts, replica-restarts, resource-restarts,
          config-restarts, service-restarts,
        )
        (ground arith)

  determine_requirements :
      (cs : List ConfigChange) (r : ChangeResult)
      → let d = determine_update_requirements cs r in
        (d.requires_update ≡ not (is_empty cs))
        × (d.requires_restart ≡ any restarts cs)
        × (d.has_changes ≡ r.has_changes)
  unfolding determine_update_requirements
  determine_requirements [] r = (refl, refl, refl)
  determine_requirements (c ∷ cs) r = (refl, max_impact-restarts low (c ∷ cs), refl)

  -- Specifications of different hashes differ in some change.
  changed_spec :
      (p c : ApiServerSpec)
      → text_eq (generate_spec_hash lib (some p)) (generate_spec_hash lib (some c)) ≡ false
      → is_empty (all_changes lib p c) ≡ false
  unfolding generate_spec_hash
  changed_spec p c h = elim (Bool-cases (is_empty (all_changes lib p c))) [
    | inl e ↦
        let hash = λ (t : Text). take 16 (lib.sha256_hex t) in
        ground (
          arith,
          ap hash (unchanged_spec lib p c e),
          text_eq_iff (hash (spec_text lib p)) (hash (spec_text lib c)),
        )
    | inr e ↦ e
  ]

  -- DetectChanges requires an update exactly if the hashes of the two specifications differ, and then
  -- a restart exactly if the reference to the credentials, the image's repository, or the port, with
  -- its default, differ.
  pub detect_changes-requires :
      (p c : ApiServerSpec) (now : ℕ)
      → let r = detect_changes lib p c now in
        let differ =
          not (text_eq (generate_spec_hash lib (some p)) (generate_spec_hash lib (some c))) in
        (r.requires_update ≡ differ)
        × (r.has_changes ≡ differ)
        × (r.requires_restart ≡ (
            differ
            && (not (credentials_eq p.jira_credentials c.jira_credentials)
                || (not (text_eq p.image.repository c.image.repository)
                    || not (
                        get_port_value (get_config_value p.config).port
                        == get_port_value (get_config_value c.config).port)))))
  unfolding detect_changes
  detect_changes-requires p c now =
      elim (Bool-cases
        (text_eq (generate_spec_hash lib (some p)) (generate_spec_hash lib (some c)))) [
          | inl e ↦ rw e (refl, refl, refl)
          | inr e ↦
              let d = determine_requirements (all_changes lib p c) _ in
              rw e (d.0 ∙ ap not (changed_spec p c e), d.2, d.1 ∙ all_changes-restarts p c)
        ]
