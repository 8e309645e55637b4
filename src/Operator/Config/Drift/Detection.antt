-- ===== src/Operator/Config/Drift/Detection.antt =====
-- internal/operator/config/drift.go: what is expected of the resources of a server, and DetectDrift.
use jira_cdc_git.Prelude.{
  ℕ, Bool, true, false, not, ◌&&◌, ◌||◌, Option, none, some, List, [], ◌∷◌, ◌++◌, if◌then◌else◌,
  take, length,
}
use jira_cdc_git.Prelude.Text.{Text, codes, text_eq}
use jira_cdc_git.Prelude.Assoc.{Assoc, lookup, insert}
use jira_cdc_git.Sync.Services.{Outcome, ok, fail}
use jira_cdc_git.Operator.Cluster.{Found, found, missing, broken}
use jira_cdc_git.Operator.Spec.{is_empty}
use jira_cdc_git.Operator.Config.{
  ApiServerSpec, get_replica_value, get_config_value, get_service_value, get_port_value,
  get_service_port_value, get_enable_jobs_value, get_safe_mode_value,
}
use jira_cdc_git.Operator.Config.Detector.{text_or}
use jira_cdc_git.Jobs.Manifest.{Returned, returned, failed_to, panicked}
use jira_cdc_git.Operator.Config.Drift.{
  ConfigMapDrift, DeploymentDrift, ServiceDrift, DriftResult, Server, Container, Pointer,
  Deployment, Service, Live, Printer, differences, config_map_drifts, deployment_drifts,
  service_drifts, expected_image, actual_env, changed_env, other_number, value_of, other_text,
  other_hash,
}

abbrev pub insert_if : Bool → Text → Text → Assoc Text → Assoc Text
insert_if b k v m = if b then insert k v m else m

unfoldable pub expected_service_type : ApiServerSpec → Text
expected_service_type s = text_or (codes "ClusterIP") (get_service_value s.service).type

unfoldable pub image_drift : Text → List Container → Option Text
image_drift e [] = none
image_drift e (c ∷ cs) = other_text e c.image

-- The variables are compared only if some have a value.
unfoldable pub environment_drift : Assoc Text → List Container → Assoc Text
environment_drift expected [] = []
environment_drift expected (c ∷ cs) =
    let actual = actual_env c.env [] in if is_empty actual then [] else changed_env actual expected

unfoldable pub found_or_none {ℓ} : {A : Type ℓ} → Found A → Option A
found_or_none (found a) = some a
found_or_none missing = none
found_or_none (broken e) = none

-- What is hashed of a Deployment; none if it has no container, where the code panics.
unfoldable pub hashed_container :
    Option Pointer → List Container → Option (Option (Option Pointer × Text))
hashed_container r [] = none
hashed_container r (c ∷ cs) = some (some (r, c.image))

unfoldable pub hashed_deployment : Found Deployment → Option (Option (Option Pointer × Text))
hashed_deployment missing = some none
hashed_deployment (broken e) = some none
hashed_deployment (found d) = hashed_container d.replicas d.containers

unfoldable pub hashed_service : {P : Type 0} → Found (Service P) → Option (Text × List P)
hashed_service missing = none
hashed_service (broken e) = none
hashed_service (found s) = some (s.type, s.ports)

-- The recommendation for a resource.
abbrev pub advice : Bool → Bool → Text → Text → List Text
advice drifts is_missing create reconcile =
    if drifts then (if is_missing then create else reconcile) ∷ [] else []

module _ {P : Type 0} (f : Printer P) where
  unfoldable pub spec_hash : ApiServerSpec → Text
  spec_hash s = take 16 (f.sha256_hex (f.print_spec s))

  -- The data of the ConfigMap, which the variables are compared with, too.
  unfoldable pub expected_data : Server → Assoc Text
  expected_data s =
      let c = get_config_value s.spec.config in
      let jobs = get_enable_jobs_value c.enable_jobs in
      insert_if (get_safe_mode_value c.safe_mode_enabled) (codes "SPIKE_SAFE_MODE") (codes "true") (
        insert_if (jobs && not (text_eq c.job_image [])) (codes "JOB_IMAGE") c.job_image (
          insert_if jobs (codes "KUBERNETES_NAMESPACE") s.namespace (
            insert_if jobs (codes "ENABLE_JOBS") (codes "true") (
              insert (codes "API_HOST") (codes "0.0.0.0") (
                insert (codes "API_PORT") (f.print (get_port_value c.port)) (
                  insert (codes "LOG_FORMAT") (text_or (codes "json") c.log_format)
                    (insert (codes "LOG_LEVEL") (text_or (codes "INFO") c.log_level) [])))))))

  unfoldable pub detect_config_map_drift : Server → Found (Assoc Text) → Outcome ConfigMapDrift
  detect_config_map_drift s missing = ok (record { is_missing = true; data_differences = [] })
  detect_config_map_drift s (broken e) = fail e
  detect_config_map_drift s (found m) =
      ok (record { is_missing = false; data_differences = differences (expected_data s) m })

  unfoldable pub detect_deployment_drift : Server → Found Deployment → Outcome DeploymentDrift
  detect_deployment_drift s missing = ok (record {
    is_missing = true;
    replicas_drift = none;
    image_drift = none;
    environment_drift = [];
    config_hash_mismatch = false;
  })
  detect_deployment_drift s (broken e) = fail e
  detect_deployment_drift s (found d) = ok (record {
    is_missing = false;
    replicas_drift = other_number (get_replica_value s.spec.replicas) (value_of d.replicas);
    image_drift = image_drift (expected_image s.spec) d.containers;
    environment_drift = environment_drift (expected_data s) d.containers;
    config_hash_mismatch =
        other_hash (spec_hash s.spec) (lookup (codes "config-hash") d.annotations);
  })

  abbrev pub first_port : List P → Option ℕ
  first_port [] = none
  first_port (p ∷ ps) = some (f.port_number p)

  unfoldable pub detect_service_drift : Server → Found (Service P) → Outcome ServiceDrift
  detect_service_drift s missing =
      ok (record { is_missing = true; port_drift = none; type_drift = none })
  detect_service_drift s (broken e) = fail e
  detect_service_drift s (found v) = ok (record {
    is_missing = false;
    port_drift =
        other_number (get_service_port_value (get_service_value s.spec.service).port)
          (first_port v.ports);
    type_drift = other_text (expected_service_type s.spec) v.type;
  })

  unfoldable pub one_or_all : List Text → Text
  one_or_all (t ∷ []) = t
  one_or_all ts = codes "Multiple configuration issues detected: " ++ f.print_list ts

  unfoldable pub generate_recommendation :
      Bool → ConfigMapDrift → DeploymentDrift → ServiceDrift → Text
  generate_recommendation has_drift c d s =
      if not has_drift
      then codes "No configuration drift detected. All resources are in sync."
      else one_or_all (
          advice (config_map_drifts c) c.is_missing
            (codes "ConfigMap is missing and needs to be created")
            (codes "ConfigMap has "
              ++ (f.print_int (length c.data_differences)
                  ++ codes " configuration differences that need reconciliation"))
          ++ (advice (deployment_drifts d) d.is_missing
                (codes "Deployment is missing and needs to be created")
                (codes "Deployment configuration has drifted and needs reconciliation")
              ++ advice (service_drifts s) s.is_missing
                  (codes "Service is missing and needs to be created")
                  (codes "Service configuration has drifted and needs reconciliation")))

  unfoldable pub hash_of_live :
      Found (Assoc Text)
      → Option (Option (Option Pointer × Text))
      → Found (Service P)
      → Returned Text
  hash_of_live m none v = panicked
  hash_of_live m (some d) v =
      returned (take 16 (f.sha256_hex (f.print_state (found_or_none m) d (hashed_service v))))

  unfoldable pub generate_actual_hash : Server → Live P → Returned Text
  generate_actual_hash s live =
      hash_of_live (live.get_config_map (s.name ++ codes "-config") s.namespace)
        (hashed_deployment (live.get_deployment (s.name ++ codes "-deployment") s.namespace))
        (live.get_service (s.name ++ codes "-service") s.namespace)

  unfoldable pub drift_result :
      Server
      → ConfigMapDrift
      → DeploymentDrift
      → ServiceDrift
      → Returned Text
      → Returned DriftResult
  drift_result s c d v (failed_to e) = failed_to e
  drift_result s c d v panicked = panicked
  drift_result s c d v (returned hash) =
      let drifts = config_map_drifts c || (deployment_drifts d || service_drifts v) in
      returned (record {
        has_drift = drifts;
        config_map_drift = c;
        deployment_drift = d;
        service_drift = v;
        spec_hash = spec_hash s.spec;
        actual_hash = hash;
        recommendation = generate_recommendation drifts c d v;
      })

  unfoldable pub collect_drift :
      Server
      → Live P
      → Outcome ConfigMapDrift
      → Outcome DeploymentDrift
      → Outcome ServiceDrift
      → Returned DriftResult
  collect_drift s live (fail e) d v = failed_to (codes "failed to detect ConfigMap drift: " ++ e)
  collect_drift s live (ok c) (fail e) v =
      failed_to (codes "failed to detect Deployment drift: " ++ e)
  collect_drift s live (ok c) (ok d) (fail e) =
      failed_to (codes "failed to detect Service drift: " ++ e)
  collect_drift s live (ok c) (ok d) (ok v) = drift_result s c d v (generate_actual_hash s live)

  -- `compared` is what the comparisons read, `hashed` what generateActualHash reads after them.
  unfoldable pub detect_drift : Server → Live P → Live P → Returned DriftResult
  detect_drift s compared hashed =
      collect_drift s hashed
        (detect_config_map_drift s
          (compared.get_config_map (s.name ++ codes "-config") s.namespace))
        (detect_deployment_drift s
          (compared.get_deployment (s.name ++ codes "-deployment") s.namespace))
        (detect_service_drift s (compared.get_service (s.name ++ codes "-service") s.namespace))
