-- ===== src/Operator/Config/Detector.antt =====
-- internal/operator/config/change_detector.go: DetectChanges, and the hash that it compares first.
pub mod Unchanged
pub mod Requirements
use jira_cdc_git.Prelude.{
  ℕ, Bool, true, false, not, ◌&&◌, Option, none, some, List, [], ◌∷◌, ◌++◌, ◌==◌, if◌then◌else◌,
  slt32, take,
}
use jira_cdc_git.Prelude.Text.{Text, codes, text_eq}
use jira_cdc_git.Operator.Config.{
  ResourceList, ResourceRequirements, ApiServerConfig, ServiceConfig, ApiServerSpec,
  get_replica_value, get_config_value, get_service_value, get_port_value, get_service_port_value,
  get_enable_jobs_value, get_safe_mode_value, option_eq, number_eq,
}
use jira_cdc_git.Operator.Config.Changes.{
  ChangeImpact, low, medium, high, critical, Value, text, number, ConfigChange, ChangeResult,
  Library, change_if, detect_jira_credentials_changes, detect_image_changes,
  detect_resource_changes, detect_config_changes, determine_update_requirements,
}

abbrev pub flag_text : Bool → Text
flag_text b = if b then codes "true" else codes "false"

-- A text, or its default where it is empty.
abbrev pub text_or : Text → Text → Text
text_or d t = if text_eq t [] then d else t

-- What is written of the resources: nothing for a nil pointer.
unfoldable pub list_text : Text → Text → Option ResourceList → Text
list_text cpu memory none = []
list_text cpu memory (some r) = cpu ++ (r.cpu ++ (memory ++ r.memory))

unfoldable pub resources_text : Option ResourceRequirements → Text
resources_text none = []
resources_text (some r) =
    list_text (codes "req-cpu:") (codes ",req-mem:") r.requests
    ++ list_text (codes "lim-cpu:") (codes ",lim-mem:") r.limits

module _ (lib : Library) where
  unfoldable pub config_text : ApiServerConfig → Text
  config_text c =
      codes "config:"
      ++ (text_or (codes "INFO") c.log_level
          ++ (codes ":"
              ++ (text_or (codes "json") c.log_format
                  ++ (codes ":"
                      ++ (lib.print (get_port_value c.port)
                          ++ (codes ":"
                              ++ (flag_text (get_enable_jobs_value c.enable_jobs)
                                  ++ (codes ":"
                                      ++ (flag_text (get_safe_mode_value c.safe_mode_enabled)
                                          ++ (codes ":" ++ c.job_image))))))))))

  unfoldable pub service_text : ServiceConfig → Text
  service_text s =
      codes "service:"
      ++ (text_or (codes "ClusterIP") s.type
          ++ (codes ":" ++ lib.print (get_service_port_value s.port)))

  -- What is hashed of a specification.
  unfoldable pub spec_text : ApiServerSpec → Text
  spec_text s =
      (codes "jira:" ++ s.jira_credentials.name)
      ++ ((codes "image:"
            ++ (s.image.repository
                ++ (codes ":" ++ (s.image.tag ++ (codes ":" ++ s.image.pull_policy)))))
          ++ ((codes "replicas:" ++ lib.print (get_replica_value s.replicas))
              ++ (resources_text s.resources
                  ++ (config_text (get_config_value s.config)
                      ++ service_text (get_service_value s.service)))))

  unfoldable pub generate_spec_hash : Option ApiServerSpec → Text
  generate_spec_hash none = []
  generate_spec_hash (some s) = take 16 (lib.sha256_hex (spec_text s))

  unfoldable pub service_eq : ServiceConfig → ServiceConfig → Bool
  service_eq a b =
      text_eq a.type b.type
      && (option_eq number_eq a.port b.port && lib.same_map a.annotations b.annotations)

  unfoldable pub detect_replica_changes : Option ℕ → Option ℕ → List ConfigChange
  detect_replica_changes p c =
      let old = get_replica_value p in
      let new = get_replica_value c in
      change_if (not (old == new)) (record {
        field = codes "replicas";
        old_value = number old;
        new_value = number new;
        impact = if slt32 new old then medium else low;
        description =
            codes "Replica count changed from "
            ++ (lib.print old
                ++ (codes " to " ++ (lib.print new ++ codes " - will trigger scaling")));
      })

  unfoldable pub detect_service_changes : ServiceConfig → ServiceConfig → List ConfigChange
  detect_service_changes p c =
      if service_eq p c
      then []
      else change_if (not (text_eq p.type c.type)) (record {
        field = codes "service.type";
        old_value = text p.type;
        new_value = text c.type;
        impact = medium;
        description = codes "Service type changed - will trigger service update";
      })
        ++ change_if (not (get_service_port_value p.port == get_service_port_value c.port))
            (record {
              field = codes "service.port";
              old_value = number (get_service_port_value p.port);
              new_value = number (get_service_port_value c.port);
              impact = low;
              description = codes "Service port changed - will trigger service update";
            })

  unfoldable pub all_changes : ApiServerSpec → ApiServerSpec → List ConfigChange
  all_changes p c =
      detect_jira_credentials_changes p.jira_credentials c.jira_credentials
      ++ (detect_image_changes p.image c.image
          ++ (detect_replica_changes p.replicas c.replicas
              ++ (detect_resource_changes p.resources c.resources
                  ++ (detect_config_changes (get_config_value p.config) (get_config_value c.config)
                      ++ detect_service_changes (get_service_value p.service)
                          (get_service_value c.service)))))

  -- At the time `now`.
  unfoldable pub detect_changes : ApiServerSpec → ApiServerSpec → ℕ → ChangeResult
  detect_changes p c now =
      let previous = generate_spec_hash (some p) in
      let current = generate_spec_hash (some c) in
      let result : ChangeResult = record {
        has_changes = false;
        requires_update = false;
        requires_restart = false;
        config_changes = [];
        previous_hash = previous;
        current_hash = current;
        change_timestamp = now;
        update_recommendation = codes "No configuration changes detected";
      } in
      if text_eq previous current
      then result
      else determine_update_requirements (all_changes p c) (record result {
        has_changes = true;
        config_changes = all_changes p c;
        update_recommendation = [];
      })
